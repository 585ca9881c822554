-- ===== src/Sphinx/Packet/Tests.antt =====
-- The theorems about processing packets of sphinx-benchmarks/src/packet at concrete inputs.
use fragging.Common.{◌≡◌, ◌↔◌, [], replicate, some, ok}
use fragging.Sphinx.Keys.{
  RoutingKeys, compute_routing_keys, diffie_hellman, blind_the_shared_secret,
}
use fragging.Sphinx.Keys.Agreement.{derive-ok}
use fragging.Sphinx.Header.{SphinxHeader}
use fragging.Sphinx.Packet.{SphinxPacket, final_packet, process, process_with_derived_keys}
use fragging.Sphinx.Packet.Derived.{packet_process-process_with_derived_keys}
use fragging.Sphinx.Toy.{toy, toy-IsLawful}

abbrev some_header : SphinxHeader
some_header = record {
  shared_secret = replicate 32 4;
  routing_info = record {
    enc_routing_information = replicate 180 9;
    integrity_mac = replicate 16 2;
  };
}

abbrev some_packet : SphinxPacket
some_packet = record { header = some_header; payload = replicate 60 1 }

some_keys : (keys : RoutingKeys) × (compute_routing_keys (replicate 32 4) 3 ≡ ok keys)
some_keys = let d = derive-ok toy-IsLawful (diffie_hellman 3 (replicate 32 4)) in (d.0, d.1)

packet_process-process_with_derived_keys_example :
    (process 3 some_packet 3 ≡ ok (final_packet [] [] [])) ↔ (
      process_with_derived_keys 3 some_packet
        (some (blind_the_shared_secret (replicate 32 4) some_keys.0.blinding_factor))
        some_keys.0
      ≡ ok (final_packet [] [] []))
packet_process-process_with_derived_keys_example =
    packet_process-process_with_derived_keys 3 some_packet 3 some_keys.0 (final_packet [] [] [])
      some_keys.1
