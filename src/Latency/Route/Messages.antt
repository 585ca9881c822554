-- ===== src/Latency/Route/Messages.antt =====
-- The packets that `build_messages` of latency-sim/src/main.rs makes of one message.
use fragging.Common.{
  ℕ, zero, suc, ◌+◌, ◌^◌, ◌≤◌, ◌<◌, ◌≡◌, refl, ap, ◌∙◌, List, [], ◌∷◌, length, Outcome, ok, arith,
}
use fragging.Latency.Sources.{Sources, IsUniform}
use fragging.Latency.Message.{
  Message, Packet, Content, Ack, Fields, message_of, inner_message, add-ok,
}
use fragging.Latency.Table.{max_key}
use fragging.Latency.Simulation.{Bail}
use fragging.Latency.Simulation.Actions.{Sim}
use fragging.Latency.Simulation.Build.{
  or_zero, ack_id, build_fragment, build_fragments, build_messages,
}
use fragging.Latency.Route.{wrap_in, build_packet-IsRouted}

inner_message-wrap_in :
    {E : Type 0} (hops : List (ℕ × ℕ)) (m : Message)
    → ◌≡◌ {A = Outcome E Message} (inner_message (wrap_in hops (Content.message m))) (ok m)
unfolding inner_message message_of
inner_message-wrap_in [] m = refl
inner_message-wrap_in ((node, wait) ∷ hops) m = inner_message-wrap_in hops m

message_of-inner :
    {E : Type 0} (p : Packet)
    → ◌≡◌ {A = Outcome E Message} (message_of p) (inner_message (Content.packet p))
unfolding inner_message message_of
message_of-inner p = refl

module _ ⦃s : Sources⦄ where
  open s use {Rng, Float}

  -- The fields of a fragment, by its number.
  abbrev pub fragment : Sim → ℕ → ℕ → ℕ → ℕ → ℕ → ℕ → Fields
  fragment sim sender recipient num_frags fragment_set id frag = record {
    id = id;
    sending_time = sim.timestamp;
    recipient = recipient;
    sender = sender;
    fragment_set = fragment_set;
    fragment_size = num_frags;
    fragment_index = frag;
  }

  -- The packets carry fragments with consecutive numbers and indexes, each with a packet that carries
  -- its acknowledgement to the sender.
  abbrev pub AreFragments : Sim → ℕ → ℕ → ℕ → ℕ → ℕ → ℕ → List Packet → Type 0
  AreFragments sim sender recipient num_frags fragment_set id frag [] = Unit
  AreFragments sim sender recipient num_frags fragment_set id frag (p ∷ packets) =
      ((reply : Packet) × (hops : List (ℕ × ℕ)) × (message_of {E = Bail Rng Float} p
          ≡ ok (Message.new (fragment sim sender recipient num_frags fragment_set id frag) reply))
        × (Content.packet reply
            ≡ wrap_in hops (
                Content.ack (record {
                  message_id = ack_id sim.ack_strat id fragment_set;
                  recipient = sender;
                }))))
      × AreFragments sim sender recipient num_frags fragment_set (id + 1) (frag + 1) packets

  module _ (lawful : IsUniform s) (sender recipient num_frags fragment_set : ℕ) where
    build_fragments-AreFragments :
        (n frag id : ℕ) (sim : Sim) (rng : Rng) (after : ℕ)
        → 1 ≤ sim.config.num_hops
        → or_zero (max_key sim.nodes) + 1 < 2 ^ 64
        → id + n < 2 ^ 64
        → (packets : List Packet) × (last : Rng) × (build_fragments sender recipient num_frags
              fragment_set frag n
              (record sim { next_message_id = id; next_fragment_set = after; rng = rng })
            ≡ ok (
              packets,
              record sim { next_message_id = id + n; next_fragment_set = after; rng = last },
            ))
          × (length packets ≡ n)
          × AreFragments sim sender recipient num_frags fragment_set id frag packets
    unfolding build_fragments build_fragment
    build_fragments-AreFragments zero frag id sim rng after some_hop small fits = (
      [],
      rng,
      ap
          (λ (k : ℕ).
            ok ([], record sim { next_message_id = k; next_fragment_set = after; rng = rng }))
          (omega arith),
      refl,
      tt,
    )
    build_fragments-AreFragments (suc n) frag id sim rng after some_hop small fits =
        let reply_ack : Ack = record {
          message_id = ack_id sim.ack_strat id fragment_set;
          recipient = sender;
        } in
        let acked =
          build_packet-IsRouted lawful (Content.ack reply_ack)
            (record sim { next_message_id = id + 1; next_fragment_set = after; rng = rng }) some_hop
            small in
        let m =
          Message.new (fragment sim sender recipient num_frags fragment_set id frag) acked.packet in
        let sent =
          build_packet-IsRouted lawful (Content.message m)
            (record sim { next_message_id = id + 1; next_fragment_set = after; rng = acked.after })
            some_hop small in
        let (packets, last, built, count, rest) =
          build_fragments-AreFragments n (frag + 1) (id + 1) sim sent.after after some_hop small
            (omega arith) in
        (
          sent.packet ∷ packets,
          last,
          rw (add-ok id 1 (omega arith), acked.returns, sent.returns, built)
              (ap
                (λ (k : ℕ). ok (
                  sent.packet ∷ packets,
                  record sim { next_message_id = k; next_fragment_set = after; rng = last },
                ))
                (omega arith)),
          ap suc count,
          (
            (
              acked.packet,
              acked.hops,
              message_of-inner sent.packet
                  ∙ ap inner_message sent.wrapped
                  ∙ inner_message-wrap_in sent.hops m,
              acked.wrapped,
            ),
            rest,
          ),
        )

  -- With at least one hop and room for the counters in a `u64`, `build_messages` returns as many
  -- packets as fragments are asked for. In their order they carry the numbers from the next message
  -- number on, the indexes from 0 on, the next set, the size, the time, and an acknowledgement on its
  -- way back to the sender, for the fragment or the set by the strategy; and the counters move on.
  pub build_messages-AreFragments :
      IsUniform s
      → (sender recipient num_frags : ℕ) (sim : Sim) → 1 ≤ sim.config.num_hops
      → or_zero (max_key sim.nodes) + 1 < 2 ^ 64
      → sim.next_message_id + num_frags < 2 ^ 64
      → sim.next_fragment_set + 1 < 2 ^ 64
      → (packets : List Packet) × (last : Rng) × (build_messages sender recipient num_frags sim
          ≡ ok (
            packets,
            record sim {
              next_message_id = sim.next_message_id + num_frags;
              next_fragment_set = sim.next_fragment_set + 1;
              rng = last;
            },
          ))
        × (length packets ≡ num_frags)
        × AreFragments sim sender recipient num_frags sim.next_fragment_set sim.next_message_id 0
            packets
  unfolding build_messages
  build_messages-AreFragments lawful sender recipient num_frags sim some_hop small fits room =
      let (packets, last, built, count, all) =
        build_fragments-AreFragments lawful sender recipient num_frags sim.next_fragment_set
          num_frags 0 sim.next_message_id sim sim.rng (sim.next_fragment_set + 1) some_hop small
          fits in
      (packets, last, rw (add-ok sim.next_fragment_set 1 room) built, count, all)
