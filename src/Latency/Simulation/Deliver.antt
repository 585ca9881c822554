-- ===== src/Latency/Simulation/Deliver.antt =====
-- The arms of `Simulation::step` (latency-sim/src/main.rs) in which something arrives: the content of
-- a node's packet, and a message at its recipient.
use fragging.Common.{ℕ, [], ◌∷◌, ◌++◌, ok, unwrap, ◌>>=◌, ◌==◌, if◌then◌else◌}
use fragging.Latency.Sources.{Sources}
use fragging.Latency.Message.{Message, Content, fields, ack_of, destination, delay, add, sub}
use fragging.Latency.User
use fragging.Latency.User.{User, UserEvent}
use fragging.Latency.Table.{get}
use fragging.Latency.Simulation.{AckStrategy, per_fragment, whole_message}
use fragging.Latency.Simulation.Actions.{Result, Sim, insert_packet, with_user, insert_event, send}

module _ ⦃s : Sources⦄ where
  open s use {Rng, Float, random, ge, scale}

  -- The `match` on the content of a node's packet.
  unfoldable pub forward : Content → Sim → Result Sim
  forward (Content.message m) sim =
      insert_event (fields m).recipient sim.timestamp (UserEvent.message m) sim
  forward (Content.ack a) sim = with_user a.recipient (User.clear_timeouts a.message_id) sim
  forward (Content.packet p) sim = do
    leaves ← add sim.timestamp (delay p)
    insert_packet (destination p) leaves p sim

  abbrev pub if_per_fragment : AckStrategy → (Sim → Result Sim) → Sim → Result Sim
  if_per_fragment per_fragment act sim = act sim
  if_per_fragment whole_message act sim = ok sim

  abbrev pub if_whole_message : AckStrategy → (Sim → Result Sim) → Sim → Result Sim
  if_whole_message per_fragment act sim = ok sim
  if_whole_message whole_message act sim = act sim

  -- All fragments of the message's set are there.
  unfoldable pub complete : ℕ → Message → Sim → Result Sim
  complete id m sim = do
    delivery_time ← sub sim.timestamp (fields m).sending_time
    user ← unwrap (get id sim.users)
    first ← unwrap (get (fields m).fragment_set user.t_first)
    ftl ← sub sim.timestamp first
    if_whole_message sim.ack_strat (send (ack_of m)) (record sim {
      delivery_times = sim.delivery_times ++ (delivery_time ∷ []);
      first_to_last = sim.first_to_last ++ (ftl ∷ []);
    })

  -- `UserEvent::Message`
  unfoldable pub receive : ℕ → Message → Sim → Result Sim
  receive id m sim = do
    seen ← with_user id (User.see_first (fields m).fragment_set sim.timestamp) sim
    acked ← if_per_fragment sim.ack_strat (send (ack_of m)) seen
    marked ←
        with_user id (User.mark_fragment (fields m).fragment_set (fields m).fragment_index) acked
    user ← unwrap (get id marked.users)
    if User.fragment_set_size (fields m).fragment_set user == (fields m).fragment_size
        then complete id m marked
        else ok marked
