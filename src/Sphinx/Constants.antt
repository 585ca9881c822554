-- ===== src/Sphinx/Constants.antt =====
-- The constants of sphinx-benchmarks/src/constants.rs, header/filler.rs, header/routing/mod.rs and
-- payload/mod.rs, the kinds of errors of error.rs, and the byte operations of utils/bytes.rs.
-- `MAX_PATH_LENGTH`, which a build sets, is an argument. Error messages are left out.
use fragging.Common.{
  ℕ, ◌+◌, ◌*◌, List, length, Option, none, some, Outcome, ok, err, assert, ◌>>◌, ◌==◌,
  xor as xor_short,
}

abbrev pub Bytes : Type 0
Bytes = List ℕ

pub data ErrorKind : Type 0 where
  invalid_packet invalid_header invalid_payload invalid_surb invalid_routing : ErrorKind

abbrev pub Result : Type 0 → Type 0
Result A = Outcome ErrorKind A

abbrev pub security_parameter : ℕ
security_parameter = 16

abbrev pub flag_length : ℕ
flag_length = 1

abbrev pub delay_length : ℕ
delay_length = 8

abbrev pub version_length : ℕ
version_length = 3

abbrev pub destination_address_length : ℕ
destination_address_length = 2 * security_parameter

abbrev pub node_address_length : ℕ
node_address_length = 2 * security_parameter

abbrev pub header_integrity_mac_size : ℕ
header_integrity_mac_size = security_parameter

abbrev pub node_meta_info_size : ℕ
node_meta_info_size = node_address_length + flag_length + delay_length + version_length

abbrev pub stream_cipher_output_length : ℕ → ℕ
stream_cipher_output_length max_path_length =
    (node_meta_info_size + header_integrity_mac_size) * (max_path_length + 1)

abbrev pub filler_step_size_increase : ℕ
filler_step_size_increase = node_meta_info_size + header_integrity_mac_size

abbrev pub payload_overhead_size : ℕ
payload_overhead_size = security_parameter + 1

-- `xor` and `xor_with` of utils/bytes.rs, the second of which writes its result into `a`.
unfoldable pub xor_exact : Bytes → Bytes → Result Bytes
xor_exact a b = assert (length a == length b) >> ok (xor_short a b)

-- A library's result whose error is replaced by one of these kinds.
abbrev pub ok_or : {A : Type 0} → Option A → ErrorKind → Result A
ok_or none kind = err kind
ok_or (some a) kind = ok a
