-- ===== src/Sphinx/Tests.antt =====
-- Examples of the theorems, at the instance of `Toy`.
use fragging.Common.{
  ◌+◌, refl, ℕ, ◌*◌, ◌%◌, ◌^◌, ◌≡◌, ◌↔◌, ap, List, [], ◌∷◌, ◌++◌, map, length, take, drop,
  replicate, length-replicate, ok, err, some, none, true, arith, ◌>>=◌,
}
use fragging.Sphinx.Constants.{
  Bytes, invalid_payload, invalid_header, security_parameter, filler_step_size_increase,
}
use fragging.Sphinx.Payload.{
  all_zero, rposition_one, set_final_payload, recover_plaintext, encapsulate_message,
}
use fragging.Sphinx.Payload.Recovery.{recover-set_final, recover_plaintext-Parsed}
use fragging.Sphinx.Payload.Layers.{
  AllKeys, unwrap_layers, recover-encapsulate_message, encapsulate_message-invalid,
}
use fragging.Sphinx.Delays.{sum, add, total, sum-eq}
use fragging.Sphinx.Keys.{
  RoutingKeys, KeyMaterial, derive_material, compute_routing_keys, diffie_hellman,
  blind_the_shared_secret,
}
use fragging.Sphinx.Keys.Agreement.{
  node_of, hop_keys, AllHaveSizes, derive-ok, hop_keys-derive_material,
}
use fragging.Sphinx.Filler.{new_filler, length-new_filler}
use fragging.Sphinx.Routing.{
  EncapsulatedRoutingInformation, forward_hop, encrypted_routing_info_size,
  truncated_routing_info_size, new_routing_information, encrypt, stream, unwrap_routing,
}
use fragging.Sphinx.Routing.Hop.{unwrap_routing-encrypt}
use fragging.Sphinx.Header.{
  SphinxHeader, delivered, to_bytes, from_bytes, process, process_with_derived_keys,
}
use fragging.Sphinx.Header.Codec.{IsSized, from_bytes-to_bytes, to_bytes-from_bytes}
use fragging.Sphinx.Header.Checks.{process-invalid_mac, process-process_with_derived_keys}
use fragging.Sphinx.Header.{new_header}
use fragging.Sphinx.Header.Build.{new_header-IsSized}
use fragging.Sphinx.Routing.{Destination}
use fragging.Sphinx.Header.{header_size}
use fragging.Sphinx.Packet.{
  SphinxPacket, build_packet, to_bytes as packet_to_bytes, from_bytes as packet_from_bytes,
}
use fragging.Sphinx.Packet.Codec.{from_bytes-build_packet}
use fragging.Sphinx.Packet.Journey.{Arrives, build_packet-Arrives}
use fragging.Sphinx.Surb.{
  Surb, new, use_surb, from_bytes as surb_from_bytes, to_bytes as surb_to_bytes,
}
use fragging.Sphinx.Surb.Journey.{use_surb-Arrives}
use fragging.Sphinx.Toy.{toy, toy-IsLawful, checksum, checksum-le}

abbrev message : Bytes
message = 1 ∷ 7 ∷ 1 ∷ []

abbrev two_keys : List Bytes
two_keys = replicate 192 3 ∷ replicate 192 4 ∷ []

recover-encapsulate_message_example :
    (payload : Bytes) × (encapsulate_message message two_keys 60 ≡ ok payload)
    × (length payload ≡ 60)
    × ((unwrap_layers two_keys payload >>= recover_plaintext) ≡ ok message)
recover-encapsulate_message_example =
    recover-encapsulate_message toy-IsLawful message two_keys 60 (omega arith) (omega arith)
      (length-replicate 192 3, (length-replicate 192 4, tt))

encapsulate_message-invalid_example : encapsulate_message message two_keys 19 ≡ err invalid_payload
encapsulate_message-invalid_example =
    encapsulate_message-invalid message two_keys 19 (λ h. omega (arith, h.0))

recover_plaintext-Parsed_example :
    (rest : Bytes) × (all_zero (take security_parameter (set_final_payload message 60)) ≡ true)
    × (drop security_parameter (set_final_payload message 60) ≡ message ++ (1 ∷ rest))
    × (rposition_one rest ≡ none)
recover_plaintext-Parsed_example =
    recover_plaintext-Parsed (set_final_payload message 60) message
      (recover-set_final message 60 40 (omega arith))

sum-eq_example :
    (sum (5 ∷ 6 ∷ []) ≡ total (5 ∷ 6 ∷ []) % 2 ^ 64)
    × (sum ((5 ∷ 6 ∷ []) ++ (7 ∷ [])) ≡ add (sum (5 ∷ 6 ∷ [])) (sum (7 ∷ [])))
sum-eq_example = sum-eq (5 ∷ 6 ∷ []) (7 ∷ [])

abbrev owners : List (Bytes × ℕ)
owners = (replicate 32 1, 3) ∷ (replicate 32 2, 5) ∷ []

hop_keys-derive_material_example :
    (material : KeyMaterial) × (derive_material (map node_of owners) 7 ≡ ok material)
    × (hop_keys (3 ∷ 5 ∷ []) material.initial_shared_secret ≡ ok material.routing_keys)
    × (length material.routing_keys ≡ 2)
    × AllHaveSizes material.routing_keys
hop_keys-derive_material_example = hop_keys-derive_material toy-IsLawful owners 7

abbrev keys_of : ℕ → RoutingKeys
keys_of k = record {
  stream_cipher_key = replicate 16 k;
  header_integrity_hmac_key = replicate 16 k;
  payload_key = replicate 192 k;
  blinding_factor = replicate 32 k;
}

length-new_filler_example :
    (filler : Bytes) × (new_filler 3 (keys_of 1 ∷ keys_of 2 ∷ []) ≡ ok filler)
    × (length filler ≡ filler_step_size_increase * 2)
length-new_filler_example =
    length-new_filler toy-IsLawful 3 (keys_of 1 ∷ keys_of 2 ∷ []) (omega arith)

abbrev next_info : EncapsulatedRoutingInformation
next_info = record { enc_routing_information = replicate 180 9; integrity_mac = replicate 16 8 }

unwrap_routing-encrypt_example :
    (value : Bytes) × ((new_routing_information 3 (replicate 32 1) 5 next_info >>= λ info.
    encrypt 3 info (replicate 16 2))
      ≡ ok value)
    × (length value ≡ encrypted_routing_info_size 3)
    × (unwrap_routing 3 value (replicate 16 2)
        ≡ ok (
            forward_hop (replicate 32 1) 5 (record {
              enc_routing_information =
                  take (truncated_routing_info_size 3) (replicate 180 9)
                  ++ drop (encrypted_routing_info_size 3) (stream 3 (replicate 16 2));
              integrity_mac = replicate 16 8;
            })))
unwrap_routing-encrypt_example =
    unwrap_routing-encrypt toy-IsLawful 3 (replicate 32 1) 5 next_info (replicate 16 2)
      (omega arith) (length-replicate 32 1) (omega arith) (length-replicate 16 8)
      (length-replicate 180 9)

abbrev test_header : SphinxHeader
test_header = record {
  shared_secret = replicate 32 4;
  routing_info = record {
    enc_routing_information = replicate 180 9;
    integrity_mac = replicate 16 300;
  };
}

from_bytes-to_bytes_example : from_bytes 3 (to_bytes test_header) ≡ ok test_header
from_bytes-to_bytes_example = from_bytes-to_bytes 3 test_header (record {
  secret_length = length-replicate 32 4;
  mac_length = length-replicate 16 300;
  info_length = length-replicate 180 9;
})

test_header-IsRead : from_bytes 3 (to_bytes test_header) ≡ ok test_header
test_header-IsRead = from_bytes-to_bytes 3 test_header (record {
  secret_length = length-replicate 32 4;
  mac_length = length-replicate 16 300;
  info_length = length-replicate 180 9;
})

to_bytes-from_bytes_example : to_bytes test_header ≡ to_bytes test_header
to_bytes-from_bytes_example =
    to_bytes-from_bytes 3 (to_bytes test_header) test_header test_header-IsRead

test_keys : (keys : RoutingKeys) × (compute_routing_keys (replicate 32 4) 3 ≡ ok keys)
test_keys = let d = derive-ok toy-IsLawful (diffie_hellman 3 (replicate 32 4)) in (d.0, d.1)

first_or_zero : Bytes → ℕ
first_or_zero [] = 0
first_or_zero (b ∷ bs) = b

not_mac : (text : Bytes) → ¬ (replicate 16 300 ≡ take 16 (replicate 32 (checksum text)))
unfolding first_or_zero replicate take
not_mac text h =
    let large : 300 ≡ checksum text = ap first_or_zero h in omega (arith, checksum-le text)

process-invalid_mac_example :
    (process 3 test_header 3 ≡ err invalid_header)
    × (process_with_derived_keys 3 test_header none test_keys.0 ≡ err invalid_header)
process-invalid_mac_example =
    process-invalid_mac toy-IsLawful 3 test_header 3 test_keys.0 none test_keys.1
      (not_mac (replicate 180 9))

process-process_with_derived_keys_example : (process 3 test_header 3 ≡ ok (delivered [] [] [])) ↔ (
    process_with_derived_keys 3 test_header
      (some (blind_the_shared_secret (replicate 32 4) test_keys.0.blinding_factor))
      test_keys.0
    ≡ ok (delivered [] [] []))
process-process_with_derived_keys_example =
    process-process_with_derived_keys 3 test_header 3 test_keys.0 (delivered [] [] []) test_keys.1

abbrev test_destination : Destination
test_destination = record { address = replicate 32 6; identifier = replicate 16 7 }

new_header-IsSized_example :
    (header : SphinxHeader) × (keys : List Bytes) × (new_header 3 7
        (map node_of owners)
        (5 ∷ 6 ∷ [])
        test_destination
        (λ n. replicate n 9)
      ≡ ok (header, keys))
    × IsSized 3 header
    × (length keys ≡ 2)
    × AllKeys keys
new_header-IsSized_example =
    new_header-IsSized toy-IsLawful 3 7 (replicate 32 1, 3) ((replicate 32 2, 5) ∷ []) (5 ∷ 6 ∷ [])
      test_destination (λ n. replicate n 9) (omega arith) (omega arith) (length-replicate 32 2, tt)
      (omega arith, (omega arith, tt)) refl (length-replicate 32 6) (length-replicate 16 7)
      (λ n. length-replicate n 9)

build_packet-Arrives_example :
    (packet : SphinxPacket) × (build_packet 3 60 7 message
        (map node_of owners)
        test_destination
        (5 ∷ 6 ∷ [])
        (λ n. replicate n 9)
      ≡ ok packet)
    × Arrives 3 test_destination
        (λ payload. recover_plaintext payload ≡ ok message)
        3
        ((replicate 32 2, 5) ∷ [])
        (5 ∷ [])
        packet
unfolding take
build_packet-Arrives_example =
    build_packet-Arrives toy-IsLawful 3 60 7 message (replicate 32 1, 3) ((replicate 32 2, 5) ∷ [])
      (5 ∷ 6 ∷ []) test_destination (λ n. replicate n 9) (omega arith) (omega arith)
      (length-replicate 32 2, tt) (omega arith, (omega arith, tt)) refl (length-replicate 32 6)
      (length-replicate 16 7) (λ n. length-replicate n 9) (omega arith) (omega arith)

use_surb-Arrives_example :
    (surb : Surb) × (packet : SphinxPacket) × (new 3 7
        (record {
          surb_route = map node_of owners;
          surb_delays = 5 ∷ 6 ∷ [];
          surb_destination = test_destination;
        })
        (λ n. replicate n 9)
      ≡ ok surb)
    × (surb_from_bytes 3 (surb_to_bytes surb) ≡ ok surb)
    × (use_surb surb message 60 ≡ ok (packet, replicate 32 1))
    × Arrives 3 test_destination
        (λ payload. recover_plaintext payload ≡ ok message)
        3
        ((replicate 32 2, 5) ∷ [])
        (5 ∷ [])
        packet
unfolding take
use_surb-Arrives_example =
    use_surb-Arrives toy-IsLawful 3 60 7 message (replicate 32 1, 3) ((replicate 32 2, 5) ∷ [])
      (5 ∷ 6 ∷ []) test_destination (λ n. replicate n 9) (omega arith) (omega arith)
      (length-replicate 32 1) (length-replicate 32 2, tt) (omega arith, (omega arith, tt)) refl
      (length-replicate 32 6) (length-replicate 16 7) (λ n. length-replicate n 9) (omega arith)
      (omega arith)

from_bytes-build_packet_example :
    (packet : SphinxPacket) × (build_packet 3 60 7 message
        (map node_of owners)
        test_destination
        (5 ∷ 6 ∷ [])
        (λ n. replicate n 9)
      ≡ ok packet)
    × (length (packet_to_bytes packet) ≡ header_size 3 + 60)
    × (packet_from_bytes 3 (packet_to_bytes packet) ≡ ok packet)
from_bytes-build_packet_example =
    from_bytes-build_packet toy-IsLawful 3 60 7 message (replicate 32 1, 3)
      ((replicate 32 2, 5) ∷ []) (5 ∷ 6 ∷ []) test_destination (λ n. replicate n 9) (omega arith)
      (omega arith) (length-replicate 32 2, tt) (omega arith, (omega arith, tt)) refl
      (length-replicate 32 6) (length-replicate 16 7) (λ n. length-replicate n 9) (omega arith)
      (omega arith)
