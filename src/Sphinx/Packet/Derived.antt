-- ===== src/Sphinx/Packet/Derived.antt =====
-- Processing a packet of sphinx-benchmarks/src/packet/mod.rs with keys that are already derived.
use fragging.Common.{ℕ, ◌≡◌, ◌↔◌, refl, some, sym, ◌∙◌, ok, ◌>>=◌, >>=-eq-ok}
use fragging.Sphinx.Constants.{Result}
use fragging.Sphinx.Externals.{Externals}
use fragging.Sphinx.Keys.{RoutingKeys, compute_routing_keys, blind_the_shared_secret}
use fragging.Sphinx.Payload.{Payload}
use fragging.Sphinx.Header.{
  ProcessedHeader, forwarded, delivered, process as process_header,
  process_with_derived_keys as header_with_derived_keys,
}
use fragging.Sphinx.Header.Checks.{process-process_with_derived_keys}
use fragging.Sphinx.Packet.{
  SphinxPacket, ProcessedPacket, with_payload, with_derived, process, process_with_derived_keys,
}

-- Calls that agree on their results agree after steps that agree.
same_after :
    {A B : Type 0} (one other : Result A) (go then : A → Result B) (r : B)
    → ((a : A) → one ≡ ok a → other ≡ ok a)
    → ((a : A) → go a ≡ then a)
    → (one >>= go) ≡ ok r
    → (other >>= then) ≡ ok r
same_after one other go then r same equal h =
    let (a, found, rest) = >>=-eq-ok one go h in rw (same a found) (sym (equal a) ∙ rest)

module _ ⦃x : Externals⦄ where
  open x use {Scalar}

  -- The two matches on a processed header agree.
  with_payload-with_derived :
      (payload : Payload) (processed : ProcessedHeader)
      → with_payload payload processed ≡ with_derived payload processed
  with_payload-with_derived payload (forwarded header address delay payload_key) = refl
  with_payload-with_derived payload (delivered destination identifier payload_key) = refl

  -- With the keys and the blinded secret that `process` computes, `process_with_derived_keys` of a
  -- packet returns a result exactly when `process` returns it.
  pub packet_process-process_with_derived_keys :
      (m : ℕ) (packet : SphinxPacket) (node_secret_key : Scalar) (keys : RoutingKeys)
      (r : ProcessedPacket)
      → compute_routing_keys packet.header.shared_secret node_secret_key ≡ ok keys
      → (process m packet node_secret_key ≡ ok r) ↔ (
          process_with_derived_keys m packet
            (some (blind_the_shared_secret packet.header.shared_secret keys.blinding_factor))
            keys
          ≡ ok r)
  unfolding process process_with_derived_keys
  packet_process-process_with_derived_keys m packet node_secret_key keys r h =
      let derived =
        header_with_derived_keys m packet.header
          (some (blind_the_shared_secret packet.header.shared_secret keys.blinding_factor)) keys in
      let plain = process_header m packet.header node_secret_key in
      let agree = λ (a : ProcessedHeader).
        process-process_with_derived_keys m packet.header node_secret_key keys a h in
      (
        same_after plain derived (with_payload packet.payload) (with_derived packet.payload) r
            (λ a. (agree a).0) (with_payload-with_derived packet.payload),
        same_after derived plain (with_derived packet.payload) (with_payload packet.payload) r
            (λ a. (agree a).1) (λ a. sym (with_payload-with_derived packet.payload a)),
      )
