-- ===== src/Latency/Simulation/Step.antt =====
-- `Simulation::step` of latency-sim/src/main.rs: one event of a node or of a user.
use fragging.Common.{ℕ, not, Option, none, some, err, ensure, unwrap, ◌>>=◌, ◌>>◌, ltb}
use fragging.Latency.Sources.{Sources}
use fragging.Latency.Message.{content}
use fragging.Latency.Node
use fragging.Latency.Node.{Node}
use fragging.Latency.User
use fragging.Latency.User.{User, UserEvent}
use fragging.Latency.Table
use fragging.Latency.Table.{Table, get, get_mut}
use fragging.Latency.Simulation.{no_more_events, in_the_past, next, Next}
use fragging.Latency.Simulation.Actions.{Result, Sim}
use fragging.Latency.Simulation.Deliver.{forward, receive}
use fragging.Latency.Simulation.Egress.{egress, send_message, ack_timeout}

module _ ⦃s : Sources⦄ where
  open s use {Rng, Float, random, ge, scale}

  unfoldable pub step_node : ℕ → Sim → Result Sim
  step_node id sim = do
    node ← unwrap (get id sim.nodes)
    timestamp ← unwrap (Node.next node)
    popped ← unwrap (Node.pop node)
    let left = record sim { nodes = Table.insert id popped.1 sim.nodes }
    ensure (not (ltb timestamp sim.timestamp)) (in_the_past left)
    forward (content popped.0) (record left { timestamp = timestamp })

  -- The `match` on a user's event.
  unfoldable pub handle : ℕ → UserEvent → Sim → Result Sim
  handle id (UserEvent.message m) sim = receive id m sim
  handle id (UserEvent.egress packet) sim = egress id packet sim
  handle id (UserEvent.send_message num_frags) sim = send_message id num_frags sim
  handle id (UserEvent.ack_timeout key) sim = ack_timeout sim.ack_strat id key sim

  unfoldable pub step_user : ℕ → Sim → Result Sim
  step_user id sim = do
    user ← unwrap (get id sim.users)
    timestamp ← unwrap (User.next user)
    ensure (not (ltb timestamp sim.timestamp)) (in_the_past sim)
    popped ← unwrap (User.pop user)
    handle id popped.0
        (record sim { timestamp = timestamp; users = Table.insert id popped.1 sim.users })

  -- The arm that `next` chose.
  abbrev pub dispatch : Option Next → Sim → Result Sim
  dispatch none sim = err (no_more_events sim)
  dispatch (some (Next.node id)) sim = step_node id sim
  dispatch (some (Next.user id)) sim = step_user id sim

  unfoldable pub step : Sim → Result Sim
  step sim = dispatch (next sim) sim
