-- ===== src/Latency/Simulation/Actions.antt =====
-- What the events of latency-sim/src/main.rs do to the state: a packet put into a node's queue, an
-- event into a user's, and the counter.
use fragging.Common.{ℕ, ◌+◌, ◌%◌, ◌^◌, List, [], ◌∷◌, Outcome, ok, ◌>>=◌}
use fragging.Latency.Sources.{Sources}
use fragging.Latency.Message.{Packet, destination, delay, add}
use fragging.Latency.Node
use fragging.Latency.Node.{Node}
use fragging.Latency.User
use fragging.Latency.User.{User, UserEvent}
use fragging.Latency.Table.{get_mut}
use fragging.Latency.Simulation.{Simulation, Bail}

-- The sum of two `u32`, which wraps and so always returns.
unfoldable pub add32 : {E : Type 0} → ℕ → ℕ → Outcome E ℕ
add32 a b = ok ((a + b) % 2 ^ 32)

module _ ⦃s : Sources⦄ where
  open s use {Rng, Float, random, ge, scale}

  abbrev pub Result : Type 0 → Type 0
  Result A = Outcome (Bail Rng Float) A

  abbrev pub Sim : Type 0
  Sim = Simulation Rng Float

  -- `self.nodes.get_mut(&id).unwrap().insert(timestamp, packet)`
  unfoldable pub insert_packet : ℕ → ℕ → Packet → Sim → Result Sim
  insert_packet id timestamp packet sim = do
    nodes ← get_mut id (Node.insert timestamp packet) sim.nodes
    ok (record sim { nodes = nodes })

  -- What is done to `self.users.get_mut(&id).unwrap()`.
  unfoldable pub with_user : ℕ → (User Float → User Float) → Sim → Result Sim
  with_user id write sim = do users ← get_mut id write sim.users; ok (record sim { users = users })

  unfoldable pub insert_event : ℕ → ℕ → UserEvent → Sim → Result Sim
  insert_event id timestamp event = with_user id (User.insert timestamp event)

  unfoldable pub count_packet : Sim → Result Sim
  count_packet sim = do count ← add sim.packet_count 1; ok (record sim { packet_count = count })

  -- A packet starts at its first node, and is counted.
  unfoldable pub send : Packet → Sim → Result Sim
  send packet sim = do
    leaves ← add sim.timestamp (delay packet)
    inserted ← insert_packet (destination packet) leaves packet sim
    count_packet inserted

  -- `for packet in packets { user.insert(self.timestamp, UserEvent::Egress(packet)) }`
  unfoldable pub queue_packets : ℕ → List Packet → Sim → Result Sim
  queue_packets id [] sim = ok sim
  queue_packets id (packet ∷ packets) sim = do
    queued ← insert_event id sim.timestamp (UserEvent.egress packet) sim
    queue_packets id packets queued
