-- ===== src/Sphinx/Routing.antt =====
-- The routing information of sphinx-benchmarks/src/header/routing (mod.rs, nodes.rs, destination.rs) and
-- the MAC of header/mac.rs, for headers of `m` hops (`MAX_PATH_LENGTH`). Arrays are lists; a copy
-- between arrays is a slice. Differences of `usize` wrap where the code goes on with the result.
pub mod Hop
pub mod Build
pub mod Encapsulate
pub mod Layers
pub mod Reading
pub mod Final
pub mod Journey
mod Tests
use fragging.Common.{
  ℕ, ◌+◌, ◌-◌, ◌*◌, ◌%◌, ◌^◌, List, [], ◌∷◌, ◌++◌, map, length, take, drop, replicate, get_elem?,
  zip, Bool, ok, err, panic, assert, ensure, slice, unwrap, ◌>>=◌, ◌>>◌, leb, ◌==◌, if◌then◌else◌,
  bytes_eq,
}
use fragging.Scylla.Onion.{last}
use fragging.Sphinx.Constants.{
  Bytes, Result, invalid_routing, security_parameter, version_length, node_address_length,
  delay_length, node_meta_info_size, header_integrity_mac_size, stream_cipher_output_length,
  filler_step_size_increase, xor_exact,
}
use fragging.Sphinx.Externals.{Externals}
use fragging.Sphinx.Delays.{Delay, to_bytes as delay_to_bytes, from_bytes as delay_from_bytes}
use fragging.Sphinx.Keys.{RoutingKeys, Node}
use fragging.Sphinx.Filler.{stream_cipher_init_vector, generate_pseudorandom_bytes}

abbrev pub forward_hop_flag : ℕ
forward_hop_flag = 1

abbrev pub final_hop_flag : ℕ
final_hop_flag = 2

-- The package's version, as Cargo sets it.
abbrev pub version_bytes : Bytes
version_bytes = 0 ∷ 1 ∷ 0 ∷ []

abbrev pub final_node_meta_info_length : ℕ
final_node_meta_info_length = 2 * security_parameter + security_parameter + 1 + version_length

abbrev pub encrypted_routing_info_size : ℕ → ℕ
encrypted_routing_info_size m = filler_step_size_increase * m

abbrev pub truncated_routing_info_size : ℕ → ℕ
truncated_routing_info_size m = encrypted_routing_info_size m - filler_step_size_increase

pub record EncapsulatedRoutingInformation : Type 0 where
  pub enc_routing_information : Bytes
  pub integrity_mac : Bytes

pub record RoutingInformation : Type 0 where
  pub flag : ℕ
  pub version : Bytes
  pub node_address : Bytes
  pub delay : Delay
  pub header_integrity_mac : Bytes
  pub next_routing_information : Bytes

pub record Destination : Type 0 where
  pub address : Bytes
  pub identifier : Bytes

pub data ParsedRawRoutingInformation : Type 0 where
  forward_hop : Bytes → Delay → EncapsulatedRoutingInformation → ParsedRawRoutingInformation
  final_hop : Bytes → Bytes → ParsedRawRoutingInformation

-- `RoutingInformation::new`, with `truncate`.
pub new_routing_information :
    ℕ → Bytes → Delay → EncapsulatedRoutingInformation → Result RoutingInformation
new_routing_information m node_address delay next = do
  truncated ← slice 0 (truncated_routing_info_size m) next.enc_routing_information
  ok (record {
    flag = forward_hop_flag;
    version = version_bytes;
    node_address = node_address;
    delay = delay;
    header_integrity_mac = next.integrity_mac;
    next_routing_information = truncated;
  })

abbrev pub concatenate_components : RoutingInformation → Bytes
concatenate_components info =
    (info.flag ∷ info.version)
    ++ (info.node_address
        ++ (delay_to_bytes info.delay
            ++ (info.header_integrity_mac ++ info.next_routing_information)))

pub parse_as_forward_hop : ℕ → Bytes → Result ParsedRawRoutingInformation
parse_as_forward_hop m value = do
  let i = 1 + version_length
  next_hop_address ← slice i (i + node_address_length) value
  let j = i + node_address_length
  delay_bytes ← slice j (j + delay_length) value
  let k = j + delay_length
  next_hop_integrity_mac ← slice k (k + header_integrity_mac_size) value
  let l = k + header_integrity_mac_size
  next_hop_encrypted_routing_information ← slice l (l + encrypted_routing_info_size m) value
  ok (
      forward_hop next_hop_address (delay_from_bytes delay_bytes) (record {
        enc_routing_information = next_hop_encrypted_routing_information;
        integrity_mac = next_hop_integrity_mac;
      }))

unfoldable pub parse_as_final_hop : Bytes → Result ParsedRawRoutingInformation
parse_as_final_hop value = do
  let i = 1 + version_length
  destination ← slice i (i + 2 * security_parameter) value
  let j = i + 2 * security_parameter
  identifier ← slice j (j + header_integrity_mac_size) value
  ok (final_hop destination identifier)

unfoldable pub parse : ℕ → Bytes → Result ParsedRawRoutingInformation
parse m value = do
  assert (filler_step_size_increase + encrypted_routing_info_size m == length value)
  flag ← unwrap (get_elem? value 0)
  if flag == forward_hop_flag
      then parse_as_forward_hop m value
      else if flag == final_hop_flag
      then parse_as_final_hop value
      else err invalid_routing

pub add_zero_padding : ℕ → Bytes → Result Bytes
add_zero_padding m value = do
  let padded = value ++ replicate filler_step_size_increase 0
  assert (encrypted_routing_info_size m + filler_step_size_increase == length padded)
  ok padded

unfoldable pub to_bytes : EncapsulatedRoutingInformation → Bytes
to_bytes info = info.integrity_mac ++ info.enc_routing_information

unfoldable pub from_bytes : ℕ → Bytes → Result EncapsulatedRoutingInformation
from_bytes m bytes = do
  ensure (length bytes == header_integrity_mac_size + encrypted_routing_info_size m) invalid_routing
  integrity_mac ← slice 0 header_integrity_mac_size bytes
  enc_routing_information ←
      slice header_integrity_mac_size (header_integrity_mac_size + encrypted_routing_info_size m)
        bytes
  ok (record { enc_routing_information = enc_routing_information; integrity_mac = integrity_mac })

module _ ⦃x : Externals⦄ where
  -- `HeaderIntegrityMac::compute`
  unfoldable pub compute_mac : Bytes → Bytes → Result Bytes
  compute_mac key header_data = do
    let mac_bytes = x.hmac key header_data
    assert (leb header_integrity_mac_size (length mac_bytes))
    ok (take header_integrity_mac_size mac_bytes)

  unfoldable pub verify_mac : Bytes → Bytes → Bytes → Result Bool
  verify_mac mac integrity_mac_key enc_routing_info = do
    recomputed ← compute_mac integrity_mac_key enc_routing_info
    ok (bytes_eq mac recomputed)

  abbrev pub stream : ℕ → Bytes → Bytes
  stream m key =
      generate_pseudorandom_bytes key stream_cipher_init_vector (stream_cipher_output_length m)

  pub encrypt : ℕ → RoutingInformation → Bytes → Result Bytes
  encrypt m info key = do
    let components = concatenate_components info
    assert (encrypted_routing_info_size m == length components)
    mask ← slice 0 (encrypted_routing_info_size m) (stream m key)
    xor_exact components mask

  pub encapsulate_with_mac : Bytes → Bytes → Result EncapsulatedRoutingInformation
  encapsulate_with_mac value key = do
    integrity_mac ← compute_mac key value
    ok (record { enc_routing_information = value; integrity_mac = integrity_mac })

  pub decrypt : ℕ → Bytes → Bytes → Result Bytes
  decrypt m value key = do
    assert (length value == length (stream m key))
    xor_exact value (stream m key)

  -- `EncryptedRoutingInformation::unwrap`
  pub unwrap_routing : ℕ → Bytes → Bytes → Result ParsedRawRoutingInformation
  unwrap_routing m value stream_cipher_key = do
    padded ← add_zero_padding m value
    raw ← decrypt m padded stream_cipher_key
    parse m raw

  -- The chain of `for_final_hop` from `FinalRoutingInformation::new` to `combine_with_filler`; `random`
  -- is what fills the padding.
  pub final_routing_information : ℕ → Destination → Bytes → Bytes → ℕ → (ℕ → Bytes) → Result Bytes
  final_routing_information m dest key filler route_len random = do
    let max_destination_length =
        (3 * ((m + 2 ^ 64 - route_len) % 2 ^ 64) + 2) * security_parameter % 2 ^ 64
    assert (leb (length dest.address) max_destination_length)
    let room = encrypted_routing_info_size m - filler_step_size_increase * (route_len - 1)
    assert (
        leb (filler_step_size_increase * (route_len - 1) + final_node_meta_info_length)
          (encrypted_routing_info_size m))
    let padding = random (room - final_node_meta_info_length)
    let padded = (final_hop_flag ∷ version_bytes) ++ (dest.address ++ (dest.identifier ++ padding))
    assert (room == length padded)
    mask ← slice 0 (length padded) (stream m key)
    encrypted ← xor_exact padded mask
    assert (length filler == filler_step_size_increase * (route_len - 1))
    let combined = encrypted ++ filler
    assert (length combined == encrypted_routing_info_size m)
    slice 0 (encrypted_routing_info_size m) combined

  pub for_final_hop :
      ℕ
      → Destination
      → RoutingKeys
      → Bytes
      → ℕ
      → (ℕ → Bytes)
      → Result EncapsulatedRoutingInformation
  for_final_hop m dest routing_keys filler route_len random = do
    value ← final_routing_information m dest routing_keys.stream_cipher_key filler route_len random
    encapsulate_with_mac value routing_keys.header_integrity_hmac_key

  -- The fold of `for_forward_hops` from the last triple to the first.
  pub forward_fold :
      ℕ
      → List (Bytes × RoutingKeys)
      → List Delay
      → EncapsulatedRoutingInformation
      → Result EncapsulatedRoutingInformation
  forward_fold m [] delays destination_info = ok destination_info
  forward_fold m (hop ∷ hops) [] destination_info = ok destination_info
  forward_fold m (hop ∷ hops) (delay ∷ delays) destination_info = do
    next ← forward_fold m hops delays destination_info
    info ← new_routing_information m hop.0 delay next
    value ← encrypt m info hop.1.stream_cipher_key
    encapsulate_with_mac value hop.1.header_integrity_hmac_key

  -- `EncapsulatedRoutingInformation::new` with `for_forward_hops`.
  pub new_encapsulated :
      ℕ
      → List Node
      → Destination
      → List Delay
      → List RoutingKeys
      → Bytes
      → (ℕ → Bytes)
      → Result EncapsulatedRoutingInformation
  new_encapsulated m route destination delays routing_keys filler random = do
    assert (length route == length routing_keys)
    assert (length delays == length route)
    final_keys ← unwrap (last routing_keys)
    destination_info ← for_final_hop m destination final_keys filler (length route) random
    forward_fold m
        (zip (map (λ node. node.address) (drop 1 route))
          (take (length routing_keys - 1) routing_keys))
        (take (length delays - 1) delays) destination_info
