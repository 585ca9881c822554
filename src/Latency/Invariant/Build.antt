-- ===== src/Latency/Invariant/Build.antt =====
-- The packets that latency-sim/src/main.rs builds draw numbers and count messages: they change no
-- queue, and not the clock.
use fragging.Common.{
  ℕ, zero, suc, ◌+◌, List, get_elem?, assert, unwrap, >>=-Ensures, Ensures, Bool, true, false, leb,
}
use fragging.Latency.Sources.{Sources}
use fragging.Latency.Message.{Content}
use fragging.Latency.Simulation.Actions.{Sim}
use fragging.Latency.Simulation.Build.{
  add_hops, pop_last, build_packet, build_packet_with_delays, build_fragment, build_fragments,
  build_messages,
}
use fragging.Latency.Invariant.{IsAt, IsIdle}
use fragging.Latency.Invariant.Returns.{Any, unwrap-Any, add-Any}

assert-Any : {E : Type 0} (Q : E → Type 0) (test : Bool) → Ensures Any Q (assert test)
assert-Any Q true = record { holds = tt }
assert-Any Q false = record { holds = tt }

module _ ⦃s : Sources⦄ where
  open s use {Rng}

  add_hops-Any :
      (n high : ℕ) (c : Content) (delays : List ℕ) (rng : Rng)
      → Ensures Any IsIdle (add_hops n high c delays rng)
  unfolding add_hops
  add_hops-Any zero high c delays rng = record { holds = tt }
  add_hops-Any (suc n) high c delays rng =
      >>=-Ensures _ _ (unwrap-Any IsIdle (pop_last delays)) (λ popped k. add_hops-Any n high _ _ _)

module _ ⦃s : Sources⦄ (time : ℕ) where
  -- What is built, and the state after it.
  abbrev pub IsBuilt : {A : Type 0} → A × Sim → Type 0
  IsBuilt built = IsAt time built.1

  build_packet_with_delays-IsAt :
      (c : Content) (delays : List ℕ) (sim : Sim)
      → IsAt time sim
      → Ensures IsBuilt IsIdle (build_packet_with_delays c delays sim)
  unfolding build_packet_with_delays
  build_packet_with_delays-IsAt c delays sim h = >>=-Ensures _ _ (add-Any IsIdle _ 1) (λ high k.
      >>=-Ensures _ _ (assert-Any IsIdle (leb 1 high)) (λ there i.
        >>=-Ensures _ _ (assert-Any IsIdle (leb 1 sim.config.num_hops)) (λ enough l.
          >>=-Ensures _ _ (add_hops-Any _ high c delays sim.rng) (λ built m.
            >>=-Ensures {A = ℕ} (unwrap (get_elem? built.1.0 0)) _
              (unwrap-Any IsIdle (get_elem? built.1.0 0))
              (λ delay n. record {
                holds = record { now = h.now; nodes = h.nodes; users = h.users };
              })))))

  pub build_packet-IsAt :
      (c : Content) (sim : Sim) → IsAt time sim → Ensures IsBuilt IsIdle (build_packet c sim)
  unfolding build_packet
  build_packet-IsAt c sim h =
      build_packet_with_delays-IsAt c _ _ (record { now = h.now; nodes = h.nodes; users = h.users })

  build_fragment-IsAt :
      (sender recipient num_frags fragment_set frag : ℕ) (sim : Sim)
      → IsAt time sim
      → Ensures IsBuilt IsIdle (build_fragment sender recipient num_frags fragment_set frag sim)
  unfolding build_fragment
  build_fragment-IsAt sender recipient num_frags fragment_set frag sim h =
      >>=-Ensures _ _ (add-Any IsIdle sim.next_message_id 1) (λ after k.
        >>=-Ensures _ _
          (build_packet-IsAt _ _ (record { now = h.now; nodes = h.nodes; users = h.users }))
          (λ acked at. build_packet-IsAt _ _ at))

  build_fragments-IsAt :
      (sender recipient num_frags fragment_set frag n : ℕ) (sim : Sim)
      → IsAt time sim
      → Ensures IsBuilt IsIdle (build_fragments sender recipient num_frags fragment_set frag n sim)
  unfolding build_fragments
  build_fragments-IsAt sender recipient num_frags fragment_set frag zero sim h = record {
    holds = h;
  }
  build_fragments-IsAt sender recipient num_frags fragment_set frag (suc n) sim h =
      >>=-Ensures _ _ (build_fragment-IsAt sender recipient num_frags fragment_set frag sim h)
        (λ built at.
          >>=-Ensures _ _
            (build_fragments-IsAt sender recipient num_frags fragment_set (frag + 1) n built.1 at)
            (λ rest later. record { holds = later }))

  pub build_messages-IsAt :
      (sender recipient num_frags : ℕ) (sim : Sim)
      → IsAt time sim
      → Ensures IsBuilt IsIdle (build_messages sender recipient num_frags sim)
  unfolding build_messages
  build_messages-IsAt sender recipient num_frags sim h =
      >>=-Ensures _ _ (add-Any IsIdle sim.next_fragment_set 1) (λ after k.
        build_fragments-IsAt sender recipient num_frags _ 0 num_frags _
          (record { now = h.now; nodes = h.nodes; users = h.users }))
