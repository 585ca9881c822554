-- ===== src/Latency/Toy.antt =====
-- A source of numbers that computes: a counter for the generator and numbers for floats. It runs the
-- examples of latency-sim/src/main.rs.
use fragging.Common.{ℕ, suc, ◌+◌, ◌-◌, ◌*◌, [], ◌∷◌, leb, arith}
use fragging.Latency.Sources.{Sources, IsUniform}
use fragging.Latency.Message.{Message, Packet, hop, Content, Ack, Fields}
use fragging.Latency.Node.{Node}
use fragging.Latency.User.{User, UserEvent}
use fragging.Latency.Simulation.{Simulation, per_fragment, Config}

instance abbrev pub counter : Sources
counter = record {
  Rng = ℕ;
  Float = ℕ;
  from_seed = λ seed. 1;
  zero_float = 0;
  random = λ rng. (rng, suc rng);
  ge = λ a b. leb b a;
  scale = λ n factor. n * factor;
  uniform = λ high rng. (high - 1, suc rng);
  exponential = λ mean rng. (mean + rng, suc rng);
}

pub counter-IsUniform : IsUniform counter
counter-IsUniform high rng h = omega arith

abbrev acknowledged : Ack
acknowledged = record { message_id = 4; recipient = 0 }

abbrev pub reply : Packet
reply = hop 0 20 (Content.packet (hop 1 9 (Content.ack acknowledged)))

abbrev busy : Node
busy = record { ingress = (5, reply) ∷ (8, reply) ∷ [] }

abbrev idle : Node
idle = record { ingress = [] }

abbrev pub sender : User ℕ
sender = record {
  events = (6, UserEvent.send_message 2) ∷ (90, UserEvent.ack_timeout 4) ∷ [];
  fragments = [];
  t_first = [];
  original_messages = [];
  drop_chance = 0;
}

abbrev arrived : Fields
arrived = record {
  id = 3;
  sending_time = 1;
  recipient = 0;
  sender = 0;
  fragment_set = 1;
  fragment_size = 1;
  fragment_index = 0;
}

abbrev pub letter : Message
letter = Message.new arrived reply

abbrev pub listener : User ℕ
listener = record {
  events = (6, UserEvent.message letter) ∷ [];
  fragments = [];
  t_first = [];
  original_messages = [];
  drop_chance = 0;
}

abbrev three_hops : Config ℕ
three_hops = record { delay_per_hop = 50; num_hops = 3; ack_addition = 1500; ack_multiplier = 2 }

-- Two nodes, of which one holds two packets, and a user with something to send.
abbrev pub underway : Simulation ℕ ℕ
underway = record {
  timestamp = 3;
  ack_strat = per_fragment;
  config = three_hops;
  nodes = (0, busy) ∷ (1, idle) ∷ [];
  users = (0, sender) ∷ [];
  delivery_times = [];
  first_to_last = [];
  next_message_id = 5;
  next_fragment_set = 2;
  packet_count = 3;
  rng = 0;
}
