-- ===== src/Latency/Simulation/Build.antt =====
-- The packets of latency-sim/src/main.rs: `draw_delays`, `build_packet_with_delays`, `build_packet`
-- and `build_messages`.
use fragging.Common.{
  ℕ, zero, suc, ◌+◌, ◌-◌, List, [], ◌∷◌, get_elem?, Option, none, some, Outcome, ok, assert, unwrap,
  ◌>>=◌, ◌>>◌, leb,
}
use fragging.Latency.Sources.{Sources}
use fragging.Latency.Message.{Ack, Fields, Message, Packet, hop, Content, add}
use fragging.Latency.Table.{max_key}
use fragging.Latency.Simulation.{Simulation, AckStrategy, per_fragment, whole_message, Bail}

abbrev pub shift : ℕ → Option (List ℕ × ℕ) → Option (List ℕ × ℕ)
shift d none = some ([], d)
shift d (some (others, final)) = some (d ∷ others, final)

-- `delays.pop()`: the others and the last.
unfoldable pub pop_last : List ℕ → Option (List ℕ × ℕ)
pop_last [] = none
pop_last (d ∷ ds) = shift d (pop_last ds)

abbrev pub or_zero : Option ℕ → ℕ
or_zero none = 0
or_zero (some n) = n

module _ ⦃s : Sources⦄ where
  open s use {Rng, Float, uniform, exponential}

  -- The loop of `build_packet_with_delays`: the content so far, the delays left, the generator.
  unfoldable pub add_hops :
      ℕ → ℕ → Content → List ℕ → Rng → Outcome (Bail Rng Float) (Content × (List ℕ × Rng))
  add_hops zero high c delays rng = ok (c, (delays, rng))
  add_hops (suc n) high c delays rng = do
    popped ← unwrap (pop_last delays)
    add_hops n high (Content.packet (hop (uniform high rng).0 popped.1 c)) popped.0
        (uniform high rng).1

  unfoldable pub build_packet_with_delays :
      Content
      → List ℕ
      → Simulation Rng Float
      → Outcome (Bail Rng Float) (Packet × Simulation Rng Float)
  build_packet_with_delays content delays sim = do
    high ← add (or_zero (max_key sim.nodes)) 1
    assert (leb 1 high)
    assert (leb 1 sim.config.num_hops)
    built ← add_hops (sim.config.num_hops - 1) high content delays sim.rng
    delay ← unwrap (get_elem? built.1.0 0)
    let drawn = uniform high built.1.1
    ok (hop drawn.0 delay built.0, record sim { rng = drawn.1 })

  -- The delays, and the generator after them.
  unfoldable pub draw_delays : ℕ → ℕ → Rng → List ℕ × Rng
  draw_delays zero mean rng = ([], rng)
  draw_delays (suc n) mean rng =
      let rest = draw_delays n mean (exponential mean rng).1 in
      ((exponential mean rng).0 ∷ rest.0, rest.1)

  unfoldable pub build_packet :
      Content → Simulation Rng Float → Outcome (Bail Rng Float) (Packet × Simulation Rng Float)
  build_packet content sim =
      let drawn = draw_delays sim.config.num_hops sim.config.delay_per_hop sim.rng in
      build_packet_with_delays content drawn.0 (record sim { rng = drawn.1 })

  -- Which messages an `Ack` stands for.
  abbrev pub ack_id : AckStrategy → ℕ → ℕ → ℕ
  ack_id per_fragment id fragment_set = id
  ack_id whole_message id fragment_set = fragment_set

  -- The body of the loop of `build_messages`.
  unfoldable pub build_fragment :
      ℕ
      → ℕ
      → ℕ
      → ℕ
      → ℕ
      → Simulation Rng Float
      → Outcome (Bail Rng Float) (Packet × Simulation Rng Float)
  build_fragment sender recipient num_frags fragment_set frag sim = do
    let id = sim.next_message_id
    after ← add id 1
    let reply : Ack = record {
      message_id = ack_id sim.ack_strat id fragment_set;
      recipient = sender;
    }
    acked ← build_packet (Content.ack reply) (record sim { next_message_id = after })
    let fields : Fields = record {
      id = id;
      sending_time = acked.1.timestamp;
      recipient = recipient;
      sender = sender;
      fragment_set = fragment_set;
      fragment_size = num_frags;
      fragment_index = frag;
    }
    build_packet (Content.message (Message.new fields acked.0)) acked.1

  -- `for frag in frag..frag + n`
  unfoldable pub build_fragments :
      ℕ
      → ℕ
      → ℕ
      → ℕ
      → ℕ
      → ℕ
      → Simulation Rng Float
      → Outcome (Bail Rng Float) (List Packet × Simulation Rng Float)
  build_fragments sender recipient num_frags fragment_set frag zero sim = ok ([], sim)
  build_fragments sender recipient num_frags fragment_set frag (suc n) sim = do
    built ← build_fragment sender recipient num_frags fragment_set frag sim
    rest ← build_fragments sender recipient num_frags fragment_set (frag + 1) n built.1
    ok (built.0 ∷ rest.0, rest.1)

  unfoldable pub build_messages :
      ℕ
      → ℕ
      → ℕ
      → Simulation Rng Float
      → Outcome (Bail Rng Float) (List Packet × Simulation Rng Float)
  build_messages sender recipient num_frags sim = do
    let fragment_set = sim.next_fragment_set
    after ← add fragment_set 1
    build_fragments sender recipient num_frags fragment_set 0 num_frags
        (record sim { next_fragment_set = after })
