-- ===== src/Latency/Simulation/Egress.antt =====
-- The arms of `Simulation::step` (latency-sim/src/main.rs) in which a user sends: a packet that enters
-- the network, a message cut into fragments, and a timeout after which it is sent again.
use fragging.Common.{ℕ, Bool, true, false, List, [], ◌∷◌, Option, none, some, ok, unwrap, ◌>>=◌}
use fragging.Latency.Sources.{Sources}
use fragging.Latency.Message.{
  Message, Packet, Content, Ack, fields, ack_of, destination, delay, add, total_delay, message_of,
  message_mut, message_id,
}
use fragging.Latency.User.{User, UserEvent}
use fragging.Latency.Table
use fragging.Latency.Table.{Table, get, get_mut}
use fragging.Latency.Simulation.{AckStrategy, per_fragment, whole_message}
use fragging.Latency.Simulation.Build.{build_packet, build_messages}
use fragging.Latency.Simulation.Actions.{
  Result, Sim, insert_packet, with_user, insert_event, count_packet, queue_packets, add32,
}

module _ ⦃s : Sources⦄ where
  open s use {Rng, Float, random, ge, scale}

  -- `(total_delay as f32 * self.config.ack_multiplier) as u32 + self.config.ack_addition`
  unfoldable pub timeout_of : ℕ → Sim → Result ℕ
  timeout_of total sim = add32 (scale total sim.config.ack_multiplier) sim.config.ack_addition

  -- The message is kept under a key for the case that it has to be sent again.
  unfoldable pub keep_original : ℕ → Message → User Float → User Float
  keep_original key m user = record user {
    original_messages = Table.insert key m user.original_messages;
  }

  -- The `Entry` of `original_messages`: a set that is already waiting gets no second timeout.
  unfoldable pub wait_for_set : ℕ → ℕ → Message → Option Message → Sim → Result Sim
  wait_for_set id timeout m (some waiting) sim = ok sim
  wait_for_set id timeout m none sim = do
    kept ← with_user id (keep_original (fields m).fragment_set m) sim
    at ← add kept.timestamp timeout
    insert_event id at (UserEvent.ack_timeout (fields m).fragment_set) kept

  -- The `match` on the strategy in `UserEvent::Egress`.
  unfoldable pub set_timeout : AckStrategy → ℕ → Packet → Sim → Result Sim
  set_timeout per_fragment id packet sim = do
    total ← total_delay packet
    timeout ← timeout_of total sim
    at ← add sim.timestamp timeout
    key ← message_id packet
    timed ← insert_event id at (UserEvent.ack_timeout key) sim
    m ← message_of packet
    with_user id (keep_original (fields m).id m) timed
  set_timeout whole_message id packet sim = do
    total ← total_delay packet
    timeout ← timeout_of total sim
    m ← message_of packet
    user ← unwrap (get id sim.users)
    wait_for_set id timeout m (get (fields m).fragment_set user.original_messages) sim

  -- The packet enters the network unless it is dropped.
  unfoldable pub enter : Bool → Packet → Sim → Result Sim
  enter false packet sim = ok sim
  enter true packet sim = do
    leaves ← add sim.timestamp (delay packet)
    insert_packet (destination packet) leaves packet sim

  -- `UserEvent::Egress`
  unfoldable pub egress : ℕ → Packet → Sim → Result Sim
  egress id packet sim = do
    node ← unwrap (get (destination packet) sim.nodes)
    timed ← set_timeout sim.ack_strat id packet sim
    user ← unwrap (get id timed.users)
    let drawn = random timed.rng
    entered ← enter (ge drawn.0 user.drop_chance) packet (record timed { rng = drawn.1 })
    count_packet entered

  -- `UserEvent::SendMessage`
  unfoldable pub send_message : ℕ → ℕ → Sim → Result Sim
  send_message id num_frags sim = do
    built ← build_messages id 1 num_frags sim
    queue_packets id built.0 built.1

  -- `original_messages.remove(&key).unwrap()`
  unfoldable pub take_original : ℕ → ℕ → Sim → Result (Message × Sim)
  take_original id key sim = do
    user ← unwrap (get id sim.users)
    m ← unwrap (get key user.original_messages)
    let left = record user { original_messages = Table.remove key user.original_messages }
    ok (m, record sim { users = Table.insert id left sim.users })

  abbrev pub forget_fragments : ℕ → User Float → User Float
  forget_fragments set user = record user { fragments = Table.remove set user.fragments }

  -- `packet.message_mut().sending_time = time` for each packet.
  unfoldable pub backdate : ℕ → List Packet → Result (List Packet)
  backdate time [] = ok []
  backdate time (packet ∷ packets) = do
    dated ←
        message_mut (λ m. Message.new (record (fields m) { sending_time = time }) (ack_of m)) packet
    rest ← backdate time packets
    ok (dated ∷ rest)

  -- `UserEvent::AckTimeout`
  unfoldable pub ack_timeout : AckStrategy → ℕ → ℕ → Sim → Result Sim
  ack_timeout per_fragment id key sim = do
    taken ← take_original id key sim
    let fresh = taken.1.next_message_id
    after ← add fresh 1
    let reply : Ack = record { message_id = fresh; recipient = id }
    acked ← build_packet (Content.ack reply) (record (taken.1) { next_message_id = after })
    let again = Message.new (record (fields taken.0) { id = fresh }) acked.0
    built ← build_packet (Content.message again) acked.1
    insert_event id built.1.timestamp (UserEvent.egress built.0) built.1
  ack_timeout whole_message id key sim = do
    taken ← take_original id key sim
    let old = fields taken.0
    cleared ← with_user old.recipient (forget_fragments old.fragment_set) taken.1
    built ← build_messages old.sender old.recipient old.fragment_size cleared
    dated ← backdate old.sending_time built.0
    queue_packets id dated built.1
