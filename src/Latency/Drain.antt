-- ===== src/Latency/Drain.antt =====
-- How much is still to be done in a state of latency-sim/src/main.rs in which no user sends or waits:
-- every hop of a packet and every message, with the packet that acknowledges it, counts one.
pub mod Actions
pub mod Deliver
pub mod Step
use fragging.Common.{ℕ, suc, ◌+◌, ◌≤◌, ◌≡◌, List, [], ◌∷◌}
use fragging.Latency.Sources.{Sources}
use fragging.Latency.Message.{Message, Packet, Content, new, hop, message, ack, packet}
use fragging.Latency.Queue.{Queue}
use fragging.Latency.Node.{Node}
use fragging.Latency.User
use fragging.Latency.User.{User, UserEvent}
use fragging.Latency.Table.{Table}
use fragging.Latency.Simulation.{AckStrategy}
use fragging.Latency.Simulation.Actions.{Sim}

unfoldable mutual
  pub message_weight : Message → ℕ
  message_weight (new all reply) = suc (packet_weight reply)

  pub packet_weight : Packet → ℕ
  packet_weight (hop node wait inner) = suc (content_weight inner)

  pub content_weight : Content → ℕ
  content_weight (message m) = message_weight m
  content_weight (ack a) = 0
  content_weight (packet p) = packet_weight p

abbrev pub event_weight : UserEvent → ℕ
event_weight (UserEvent.message m) = message_weight m
event_weight (UserEvent.egress p) = 0
event_weight (UserEvent.ack_timeout id) = 0
event_weight (UserEvent.send_message n) = 0

module _ {A : Type 0} (weight : A → ℕ) where
  abbrev pub sum : List (ℕ × A) → ℕ
  sum [] = 0
  sum ((k, a) ∷ rest) = weight a + sum rest

abbrev pub node_weight : Node → ℕ
node_weight node = sum packet_weight node.ingress

abbrev pub IsArrival : UserEvent → Type 0
IsArrival (UserEvent.message m) = Unit
IsArrival (UserEvent.egress p) = ⊥
IsArrival (UserEvent.ack_timeout id) = ⊥
IsArrival (UserEvent.send_message n) = ⊥

-- Only messages arrive.
abbrev pub IsQuiet : Queue UserEvent → Type 0
IsQuiet [] = Unit
IsQuiet ((t, event) ∷ events) = IsArrival event × IsQuiet events

module _ ⦃s : Sources⦄ where
  open s use {Float}

  abbrev pub user_weight : User Float → ℕ
  user_weight user = sum event_weight user.events

  abbrev pub AreQuiet : Table (User Float) → Type 0
  AreQuiet [] = Unit
  AreQuiet ((k, user) ∷ users) = IsQuiet user.events × AreQuiet users

  -- No user sends or waits, and no more than `bound` is to be done.
  pub record IsDraining (strat : AckStrategy) (bound : ℕ) (sim : Sim) : Type 0 where
    pub same : sim.ack_strat ≡ strat
    pub quiet : AreQuiet sim.users
    pub bounded : sum node_weight sim.nodes + sum user_weight sim.users ≤ bound
