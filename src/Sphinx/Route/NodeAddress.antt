-- ===== src/Sphinx/Route/NodeAddress.antt =====
-- `NodeAddressBytes` of sphinx-benchmarks/src/route.rs.
use fragging.Common.{◌≡◌, refl, Option, none, some, ok, err, ensure, ◌>>◌, ◌==◌, eq→==, length}
use fragging.Sphinx.Constants.{Bytes, Result, invalid_routing, node_address_length}
use fragging.Sphinx.Route.{Base58}

unfoldable pub try_from_byte_slice : Bytes → Result Bytes
try_from_byte_slice b = do ensure (length b == node_address_length) invalid_routing; ok b

pub try_from_byte_slice-ok :
    (b : Bytes) → length b ≡ node_address_length → try_from_byte_slice b ≡ ok b
unfolding try_from_byte_slice
try_from_byte_slice-ok b h = rw (eq→== (length b) node_address_length h) refl

module _ (coding : Base58) where
  abbrev pub as_base58_string : Bytes → coding.Text
  as_base58_string address = coding.encode address

  -- The bytes behind the `match` on what is decoded.
  abbrev check_decoded : Option Bytes → Result Bytes
  check_decoded none = err invalid_routing
  check_decoded (some decoded) = do
    ensure (length decoded == node_address_length) invalid_routing
    ok decoded

  unfoldable pub try_from_base58_string : coding.Text → Result Bytes
  try_from_base58_string text = check_decoded (coding.decode text)
