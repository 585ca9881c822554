-- ===== src/Latency/Simulation.antt =====
-- The state of the simulation of latency-sim/src/main.rs, its set-up, the choice of the next event,
-- and the packets that it builds. The random number generator is passed on by hand.
pub mod Build
pub mod Actions
pub mod Deliver
pub mod Egress
pub mod Step
pub mod Run
use fragging.Common.{
  ℕ, zero, suc, ◌+◌, ◌-◌, ◌^◌, Bool, true, false, List, [], ◌∷◌, Option, none, some, Outcome, ok,
  err, panic, unwrap, ◌>>=◌, ltb, leb, if◌then◌else◌,
}
use fragging.Latency.Sources.{Sources}
use fragging.Latency.Message.{Content, add}
use fragging.Latency.Queue.{Queue}
use fragging.Latency.Node
use fragging.Latency.Node.{Node}
use fragging.Latency.User
use fragging.Latency.User.{User}
use fragging.Latency.Table
use fragging.Latency.Table.{Table, max_key}

pub data Next : Type 0 where
  node : ℕ → Next
  user : ℕ → Next

pub data AckStrategy : Type 0 where
  per_fragment : AckStrategy
  whole_message : AckStrategy

pub record Config (Float : Type 0) : Type 0 where
  pub delay_per_hop : ℕ
  pub num_hops : ℕ
  pub ack_addition : ℕ
  pub ack_multiplier : Float

pub record Simulation (Rng Float : Type 0) : Type 0 where
  pub timestamp : ℕ
  pub ack_strat : AckStrategy
  pub config : Config Float
  pub nodes : Table Node
  pub users : Table (User Float)
  pub delivery_times : List ℕ
  pub first_to_last : List ℕ
  pub next_message_id : ℕ
  pub next_fragment_set : ℕ
  pub packet_count : ℕ
  pub rng : Rng

-- Why `step` does not go on, with the state it leaves.
pub data Bail (Rng Float : Type 0) : Type 0 where
  no_more_events : Simulation Rng Float → Bail Rng Float
  in_the_past : Simulation Rng Float → Bail Rng Float

abbrev pub smaller : ℕ → ℕ → Option (ℕ × ℕ) → Option (ℕ × ℕ)
smaller id t none = some (id, t)
smaller id t (some (other, s)) = if leb t s then some (id, t) else some (other, s)

-- The least of the times, the first of equal ones: `min_by_key`.
unfoldable pub min_by_time : List (ℕ × Option ℕ) → Option (ℕ × ℕ)
min_by_time [] = none
min_by_time ((id, none) ∷ rest) = min_by_time rest
min_by_time ((id, some t) ∷ rest) = smaller id t (min_by_time rest)

-- The first times of the entries of a table.
unfoldable pub times : {A : Type 0} → (A → Option ℕ) → Table A → List (ℕ × Option ℕ)
times first [] = []
times first ((id, a) ∷ table) = (id, first a) ∷ times first table

-- The `match` of `next`: a node's event goes first only if it is earlier.
abbrev pub choose : Option (ℕ × ℕ) → Option (ℕ × ℕ) → Option Next
choose none none = none
choose (some (id, t)) none = some (node id)
choose none (some (id, t)) = some (user id)
choose (some (a, t)) (some (b, s)) = if ltb t s then some (node a) else some (user b)

-- `keys().max().map(|x| x + 1).unwrap_or(0)`
unfoldable pub next_id : {E : Type 0} → Option ℕ → Outcome E ℕ
next_id none = ok 0
next_id (some key) = add key 1

module _ ⦃s : Sources⦄ where
  open s use {Rng, Float, from_seed, zero_float}

  -- `User::new`
  unfoldable pub new_user : User Float
  new_user = record {
    events = [];
    fragments = [];
    t_first = [];
    original_messages = [];
    drop_chance = zero_float;
  }

  unfoldable pub new : AckStrategy → Config Float → List ℕ → Simulation Rng Float
  new ack_strat config seed = record {
    timestamp = 0;
    ack_strat = ack_strat;
    config = config;
    nodes = [];
    users = [];
    delivery_times = [];
    first_to_last = [];
    next_message_id = 0;
    next_fragment_set = 0;
    packet_count = 0;
    rng = from_seed seed;
  }

  -- The new state, and the identifier of the new node or user.
  unfoldable pub add_node :
      Simulation Rng Float → Outcome (Bail Rng Float) (Simulation Rng Float × ℕ)
  add_node sim = do
    id ← next_id (max_key sim.nodes)
    ok (record sim { nodes = Table.insert id Node.new sim.nodes }, id)

  unfoldable pub add_user :
      Simulation Rng Float → Outcome (Bail Rng Float) (Simulation Rng Float × ℕ)
  add_user sim = do
    id ← next_id (max_key sim.users)
    ok (record sim { users = Table.insert id new_user sim.users }, id)

  unfoldable pub next : Simulation Rng Float → Option Next
  next sim =
      choose (min_by_time (times Node.next sim.nodes)) (min_by_time (times User.next sim.users))
