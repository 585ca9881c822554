-- ===== src/Latency/Route.antt =====
-- The packets that `build_packet` of latency-sim/src/main.rs builds: one hop for every delay drawn,
-- the first delay outermost, around the content.
pub mod Messages
use fragging.Common.{
  ℕ, zero, suc, ◌+◌, ◌-◌, ◌^◌, ◌≤◌, ◌<◌, ◌≡◌, refl, sym, ap, ap₂, ◌∙◌, List, [], ◌∷◌, ◌++◌, length,
  length-append, take, drop, take-append_le, drop-append_le, take_all, drop_all, some, Outcome, ok,
  le→leb, arith,
}
use fragging.Latency.Sources.{Sources, IsUniform}
use fragging.Latency.Message.{Packet, Content, hop, add-ok}
use fragging.Latency.Table.{max_key}
use fragging.Latency.Simulation.{Bail}
use fragging.Latency.Simulation.Actions.{Sim}
use fragging.Latency.Simulation.Build.{
  add_hops, pop_last, shift, or_zero, draw_delays, build_packet, build_packet_with_delays,
}

-- A content in hops, each a node and a delay, the outermost first.
abbrev pub wrap_in : List (ℕ × ℕ) → Content → Content
wrap_in [] c = c
wrap_in ((node, wait) ∷ hops) c = Content.packet (hop node wait (wrap_in hops c))

abbrev pub waits : List (ℕ × ℕ) → List ℕ
waits [] = []
waits ((node, wait) ∷ hops) = wait ∷ waits hops

abbrev pub AreBelow : ℕ → List (ℕ × ℕ) → Type 0
AreBelow high [] = Unit
AreBelow high ((node, wait) ∷ hops) = (node < high) × AreBelow high hops

wrap_in-append :
    (hops : List (ℕ × ℕ)) (node wait : ℕ) (c : Content)
    → wrap_in (hops ++ ((node, wait) ∷ [])) c ≡ wrap_in hops (Content.packet (hop node wait c))
wrap_in-append [] node wait c = refl
wrap_in-append ((n, w) ∷ hops) node wait c =
    ap (λ c'. Content.packet (hop n w c')) (wrap_in-append hops node wait c)

waits-append :
    (hops : List (ℕ × ℕ)) (node wait : ℕ)
    → waits (hops ++ ((node, wait) ∷ [])) ≡ waits hops ++ (wait ∷ [])
waits-append [] node wait = refl
waits-append ((n, w) ∷ hops) node wait = ap (λ ws. w ∷ ws) (waits-append hops node wait)

AreBelow-append :
    (high : ℕ) (hops : List (ℕ × ℕ)) (node wait : ℕ)
    → AreBelow high hops
    → node < high
    → AreBelow high (hops ++ ((node, wait) ∷ []))
AreBelow-append high [] node wait h k = (k, tt)
AreBelow-append high ((n, w) ∷ hops) node wait h k =
    (h.0, AreBelow-append high hops node wait h.1 k)

-- `Vec::pop` splits off the last.
abbrev IsSplit : List ℕ → Type 0
IsSplit ds =
    (others : List ℕ) × ((final : ℕ) × ((pop_last ds ≡ some (others, final))
        × (ds ≡ others ++ (final ∷ []))))

pop_last-IsSplit : (ds : List ℕ) → 1 ≤ length ds → IsSplit ds
unfolding pop_last
pop_last-IsSplit [] h = absurd (omega arith)
pop_last-IsSplit (d ∷ []) h = ([], (d, (refl, refl)))
pop_last-IsSplit (d ∷ e ∷ ds) h =
    let (others, (final, (popped, split))) = pop_last-IsSplit (e ∷ ds) (omega arith) in
    (d ∷ others, (final, (ap (shift d) popped, ap (λ xs. d ∷ xs) split)))

module _ ⦃s : Sources⦄ (lawful : IsUniform s) (high : ℕ) (some_node : 1 ≤ high) where
  open s use {Rng, Float, uniform, exponential}

  -- The loop wraps the content in hops with the delays beyond the first `m`, in their order.
  record Wraps (n m : ℕ) (c : Content) (ds : List ℕ) (rng : Rng) : Type 0 where
    hops : List (ℕ × ℕ)
    after : Rng
    built : add_hops n high c ds rng ≡ ok (wrap_in hops c, (take m ds, after))
    their_waits : waits hops ≡ drop m ds
    below : AreBelow high hops

  add_hops-Wraps :
      (n m : ℕ) (c : Content) (ds : List ℕ) (rng : Rng) → length ds ≡ n + m → Wraps n m c ds rng
  unfolding add_hops
  add_hops-Wraps zero m c ds rng h = record {
    hops = [];
    after = rng;
    built = ap (λ kept. ok (c, (kept, rng))) (sym (take_all m ds (omega arith)));
    their_waits = sym (drop_all m ds (omega arith));
    below = tt;
  }
  add_hops-Wraps (suc n) m c ds rng h =
      let (others, (final, (popped, split))) = pop_last-IsSplit ds (omega arith) in
      let drawn = uniform high rng in
      let size : length others ≡ n + m =
        omega (arith, h, ap length split, length-append others (final ∷ [])) in
      let rest = add_hops-Wraps n m (Content.packet (hop drawn.0 final c)) others drawn.1 size in
      record {
        hops = rest.hops ++ ((drawn.0, final) ∷ []);
        after = rest.after;
        built = rw (popped) (
            rest.built
            ∙ ap₂ (λ c' kept. ok (c', (kept, rest.after)))
                (sym (wrap_in-append rest.hops drawn.0 final c))
                (sym (take-append_le m others (final ∷ []) (omega arith))
                  ∙ ap (take m) (sym split)));
        their_waits =
            waits-append rest.hops drawn.0 final
            ∙ ap (λ ws. ws ++ (final ∷ [])) rest.their_waits
            ∙ sym (drop-append_le m others (final ∷ []) (omega arith))
            ∙ ap (drop m) (sym split);
        below = AreBelow-append high rest.hops drawn.0 final rest.below (lawful high rng some_node);
      }

module _ ⦃s : Sources⦄ where
  open s use {Rng, Float, exponential}

  pub length-draw_delays : (n mean : ℕ) (rng : Rng) → length (draw_delays n mean rng).0 ≡ n
  unfolding draw_delays
  length-draw_delays zero mean rng = refl
  length-draw_delays (suc n) mean rng = ap suc (length-draw_delays n mean (exponential mean rng).1)

  -- A packet that carries the content over hops with the given delays, to nodes below the bound, and
  -- the state, in which only the generator has moved on.
  pub record IsRouted (content : Content) (ds : List ℕ) (high : ℕ) (sim : Sim)
      (made : Outcome (Bail Rng Float) (Packet × Sim)) : Type 0 where
    pub packet : Packet
    pub after : Rng
    pub hops : List (ℕ × ℕ)
    pub returns : made ≡ ok (packet, record sim { rng = after })
    pub wrapped : Content.packet packet ≡ wrap_in hops content
    pub their_waits : waits hops ≡ ds
    pub below : AreBelow high hops

  build_packet_with_delays-IsRouted :
      IsUniform s
      → (content : Content) (d : ℕ) (ds : List ℕ) (sim : Sim)
      → sim.config.num_hops ≡ suc (length ds)
      → or_zero (max_key sim.nodes) + 1 < 2 ^ 64
      → IsRouted content
          (d ∷ ds)
          (or_zero (max_key sim.nodes) + 1)
          sim
          (build_packet_with_delays content (d ∷ ds) sim)
  unfolding build_packet_with_delays take drop
  build_packet_with_delays-IsRouted lawful content d ds sim count small =
      let high = or_zero (max_key sim.nodes) + 1 in
      let n = sim.config.num_hops - 1 in
      let inner =
        add_hops-Wraps lawful high (omega arith) n 1 content (d ∷ ds) sim.rng
          (omega (arith, count)) in
      let drawn = s.uniform high inner.after in
      record {
        packet = hop drawn.0 d (wrap_in inner.hops content);
        after = drawn.1;
        hops = (drawn.0, d) ∷ inner.hops;
        returns =
            rw
              (
                add-ok (or_zero (max_key sim.nodes)) 1 small,
                le→leb 1 high (omega arith),
                le→leb 1 sim.config.num_hops (omega (arith, count)),
                inner.built,
              )
              refl;
        wrapped = refl;
        their_waits = ap (λ ws. d ∷ ws) inner.their_waits;
        below = (lawful high inner.after (omega arith), inner.below);
      }

  -- With at least one hop, and node numbers of which the next one is still a `u64`, `build_packet`
  -- returns: a packet that wraps the content in as many hops as configured, with the delays drawn in
  -- their order, each at a node number that is at most the greatest; and of the state it changes
  -- nothing but the generator.
  pub build_packet-IsRouted :
      IsUniform s
      → (content : Content) (sim : Sim) → 1 ≤ sim.config.num_hops
      → or_zero (max_key sim.nodes) + 1 < 2 ^ 64
      → IsRouted content
          (draw_delays sim.config.num_hops sim.config.delay_per_hop sim.rng).0
          (or_zero (max_key sim.nodes) + 1)
          sim
          (build_packet content sim)
  unfolding build_packet
  build_packet-IsRouted lawful content sim enough small =
      let drawn = draw_delays sim.config.num_hops sim.config.delay_per_hop sim.rng in
      go drawn.0 (length-draw_delays sim.config.num_hops sim.config.delay_per_hop sim.rng)
    where
      go :
          (ds : List ℕ)
          → length ds ≡ sim.config.num_hops
          → IsRouted content ds (or_zero (max_key sim.nodes) + 1) sim (
              build_packet_with_delays content ds (record sim {
                rng = (draw_delays sim.config.num_hops sim.config.delay_per_hop sim.rng).1;
              }))
      go [] h = absurd (omega arith)
      go (d ∷ ds) h =
          let routed =
            build_packet_with_delays-IsRouted lawful content d ds
              (record sim {
                rng = (draw_delays sim.config.num_hops sim.config.delay_per_hop sim.rng).1;
              })
              (sym h) small in
          record {
            packet = routed.packet;
            after = routed.after;
            hops = routed.hops;
            returns = routed.returns;
            wrapped = routed.wrapped;
            their_waits = routed.their_waits;
            below = routed.below;
          }
