-- ===== src/Latency/Invariant.antt =====
-- The invariant of the simulation of latency-sim/src/main.rs: every queue is sorted. Its child modules
-- show what keeps it.
pub mod Actions
pub mod Returns
pub mod Build
pub mod Events
pub mod Next
pub mod Step
pub mod Run
use fragging.Common.{ℕ, ◌≡◌, ◌≤◌, Option, none, Outcome, ok, ◌>>=◌}
use fragging.Latency.Sources.{Sources}
use fragging.Latency.Node.{Node}
use fragging.Latency.User.{User}
use fragging.Latency.Queue.Order.{IsSortedFrom}
use fragging.Latency.Table.Each.{Each}
use fragging.Latency.Simulation.{Bail, no_more_events, in_the_past, next}
use fragging.Latency.Simulation.Actions.{Sim}

abbrev pub IsNodeFrom : ℕ → Node → Type 0
IsNodeFrom time node = IsSortedFrom time node.ingress

module _ ⦃s : Sources⦄ where
  open s use {Rng, Float}

  abbrev pub IsUserFrom : ℕ → User Float → Type 0
  IsUserFrom time user = IsSortedFrom time user.events

  -- The clock shows `time`, and every queue is sorted.
  pub record IsAt (time : ℕ) (sim : Sim) : Type 0 where
    pub now : sim.timestamp ≡ time
    pub nodes : Each (IsNodeFrom 0) sim.nodes
    pub users : Each (IsUserFrom 0) sim.users

  abbrev pub IsOrdered : Sim → Type 0
  IsOrdered sim = IsAt sim.timestamp sim

  -- No queue holds anything before the clock.
  abbrev pub IsTimely : Sim → Type 0
  IsTimely sim =
      Each (IsNodeFrom sim.timestamp) sim.nodes × Each (IsUserFrom sim.timestamp) sim.users

  -- The one reason to stop is that nothing is left to do.
  abbrev pub IsIdle : Bail Rng Float → Type 0
  IsIdle (no_more_events sim) = next sim ≡ none
  IsIdle (in_the_past sim) = ⊥

  -- Nothing is left to do, or something was before the clock.
  abbrev pub IsStopped : Sim → Bail Rng Float → Type 0
  IsStopped sim (no_more_events left) = next left ≡ none
  IsStopped sim (in_the_past left) = ¬ IsTimely sim
