-- ===== src/Sphinx/Route/DestinationAddress.antt =====
-- `DestinationAddressBytes` of sphinx-benchmarks/src/route.rs.
use fragging.Common.{Option, none, some, ok, err, ensure, ◌>>◌, ◌==◌, length}
use fragging.Sphinx.Constants.{Bytes, Result, invalid_routing, destination_address_length}
use fragging.Sphinx.Route.{Base58}

unfoldable pub try_from_byte_slice : Bytes → Result Bytes
try_from_byte_slice b = do ensure (length b == destination_address_length) invalid_routing; ok b

module _ (coding : Base58) where
  abbrev pub as_base58_string : Bytes → coding.Text
  as_base58_string address = coding.encode address

  -- The bytes behind the `match` on what is decoded.
  abbrev check_decoded : Option Bytes → Result Bytes
  check_decoded none = err invalid_routing
  check_decoded (some decoded) = do
    ensure (length decoded == destination_address_length) invalid_routing
    ok decoded

  unfoldable pub try_from_base58_string : coding.Text → Result Bytes
  try_from_base58_string text = check_decoded (coding.decode text)
