-- ===== src/Sphinx/Surb/Tests.antt =====
-- The theorems about reply blocks and addresses of sphinx-benchmarks/src at concrete inputs.
use fragging.Common.{ℕ, ◌≡◌, refl, List, [], ◌∷◌, replicate, length-replicate, ok, ◌>>=◌, arith}
use fragging.Sphinx.Keys.{Node}
use fragging.Sphinx.Routing.{Destination}
use fragging.Sphinx.Header.{SphinxHeader}
use fragging.Sphinx.Header.Codec.{IsSized}
use fragging.Sphinx.Packet.{build_packet}
use fragging.Sphinx.Surb.{Surb, SurbMaterial, new, use_surb, to_bytes, from_bytes}
use fragging.Sphinx.Surb.Codec.{surb_from_bytes-to_bytes}
use fragging.Sphinx.Surb.Use.{use_surb-new}
use fragging.Sphinx.Toy.{toy}

abbrev surb_header : SphinxHeader
surb_header = record {
  shared_secret = replicate 32 4;
  routing_info = record {
    enc_routing_information = replicate 180 9;
    integrity_mac = replicate 16 2;
  };
}

abbrev surb : Surb
surb = record {
  surb_header = surb_header;
  first_hop_address = replicate 32 8;
  payload_keys = replicate 192 3 ∷ replicate 192 5 ∷ [];
}

surb_header-IsSized : IsSized 3 surb_header
surb_header-IsSized = record {
  secret_length = length-replicate 32 4;
  mac_length = length-replicate 16 2;
  info_length = length-replicate 180 9;
}

surb_from_bytes-to_bytes_example : from_bytes 3 (to_bytes surb) ≡ ok surb
surb_from_bytes-to_bytes_example =
    surb_from_bytes-to_bytes 3 surb surb_header-IsSized (length-replicate 32 8) (omega arith)
      (length-replicate 192 3, (length-replicate 192 5, tt))

abbrev first_node : Node
first_node = record { address = replicate 32 1; pub_key = 3 ∷ replicate 31 0 }

abbrev second_node : Node
second_node = record { address = replicate 32 2; pub_key = 5 ∷ replicate 31 0 }

abbrev reply_destination : Destination
reply_destination = record { address = replicate 32 6; identifier = replicate 16 7 }

abbrev material : List ℕ → SurbMaterial
material delays = record {
  surb_route = first_node ∷ second_node ∷ [];
  surb_delays = delays;
  surb_destination = reply_destination;
}

use_surb-new_example :
    (new 3 7 (material (5 ∷ 6 ∷ [])) (λ n. replicate n 9)
      >>= (λ made. use_surb made (1 ∷ 7 ∷ 1 ∷ []) 60))
    ≡ (build_packet 3 60 7
          (1 ∷ 7 ∷ 1 ∷ [])
          (first_node ∷ second_node ∷ [])
          reply_destination
          (5 ∷ 6 ∷ [])
          (λ n. replicate n 9)
        >>= (λ packet. ok (packet, replicate 32 1)))
use_surb-new_example =
    use_surb-new 3 7 (λ n. replicate n 9) first_node (second_node ∷ []) (5 ∷ 6 ∷ [])
      reply_destination (1 ∷ 7 ∷ 1 ∷ []) 60 refl
