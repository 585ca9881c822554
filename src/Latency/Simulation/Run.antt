-- ===== src/Latency/Simulation/Run.antt =====
-- `run` of latency-sim/src/main.rs up to its statistics: the simulation that it sets up, and its loop.
use fragging.Common.{ℕ, zero, suc, List, ok, ◌>>=◌}
use fragging.Latency.Sources.{Sources}
use fragging.Latency.User.{User, UserEvent}
use fragging.Latency.Simulation.{AckStrategy, Config, new, add_node, add_user}
use fragging.Latency.Simulation.Actions.{Result, Sim, with_user, insert_event}
use fragging.Latency.Simulation.Step.{step}

module _ ⦃s : Sources⦄ where
  open s use {Float}

  -- The configuration; its multiplier is the number 1.5.
  abbrev pub config : Float → Config Float
  config ack_multiplier = record {
    delay_per_hop = 50;
    num_hops = 3;
    ack_addition = 1500;
    ack_multiplier = ack_multiplier;
  }

  -- `for _ in 0..n { sim.users.get_mut(&0).unwrap().insert(0, UserEvent::SendMessage(num_frags)) }`
  unfoldable pub request : ℕ → ℕ → Sim → Result Sim
  request zero num_frags sim = ok sim
  request (suc n) num_frags sim = do
    requested ← insert_event 0 0 (UserEvent.send_message num_frags) sim
    request n num_frags requested

  unfoldable pub set_up : AckStrategy → Float → ℕ → Float → List ℕ → Result Sim
  set_up ack_strat drop_chance num_frags ack_multiplier seed = do
    one ← add_node (new ack_strat (config ack_multiplier) seed)
    two ← add_node one.0
    three ← add_node two.0
    sender ← add_user three.0
    dropping ←
        with_user 0 (λ (user : User Float). record user { drop_chance = drop_chance }) sender.0
    recipient ← add_user dropping
    request 1000 num_frags recipient.0

  -- At most `n` rounds of `while sim.step().is_ok() {}`; `err` is the round that ends the loop.
  unfoldable pub run_steps : ℕ → Sim → Result Sim
  run_steps zero sim = ok sim
  run_steps (suc n) sim = do stepped ← step sim; run_steps n stepped
