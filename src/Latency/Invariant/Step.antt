-- ===== src/Latency/Invariant/Step.antt =====
-- `Simulation::step` of latency-sim/src/main.rs keeps the queues sorted, takes an earliest event and
-- lets the clock only go on; so does every number of rounds of the loop in `run`.
use mathlib.Core.Path.{subst}
use fragging.Common.{
  ℕ, zero, suc, ◌≤◌, ◌≡◌, refl, sym, [], ◌∷◌, Option, none, some, unwrap, >>=-Ensures, Ensures,
  Ensures-map, Ensures-weaken, ltb, ltb→lt, ltb→not_lt, Bool-cases, inl, inr, arith,
}
use fragging.Latency.Sources.{Sources}
use fragging.Latency.Message.{Packet, content}
use fragging.Latency.Queue.{Queue, first_time, pop_first}
use fragging.Latency.Queue.Order.{IsSortedFrom, IsSortedFrom-le}
use fragging.Latency.Node
use fragging.Latency.Node.{Node}
use fragging.Latency.User
use fragging.Latency.User.{User, UserEvent}
use fragging.Latency.Table.Each.{found-Each, insert-Each}
use fragging.Latency.Simulation.{
  Bail, no_more_events, in_the_past, min_by_time, times, choose, next,
}
use fragging.Latency.Simulation.Actions.{Sim}
use fragging.Latency.Simulation.Step.{step_node, step_user, dispatch, step}
use fragging.Latency.Simulation.Run.{run_steps}
use fragging.Latency.Invariant.{
  IsAt, IsOrdered, IsTimely, IsNodeFrom, IsUserFrom, IsIdle, IsStopped,
}
use fragging.Latency.Invariant.Events.{forward-IsAt, handle-IsAt}
use fragging.Latency.Invariant.Next.{IsUpTo, IsLeast, min_by_time-IsLeast}

-- The first time of a queue is not before its bound.
first_time-le :
    {B : Type 0} (low t : ℕ) (queue : Queue B)
    → IsSortedFrom low queue
    → first_time queue ≡ some t
    → low ≤ t
unfolding first_time
first_time-le low t [] sorted e = absurd (cc)
first_time-le low t ((u, b) ∷ queue) sorted e =
    let same : u ≡ t = cc in omega (arith, sorted.0, same)

module _ {E : Type 0} (Q : E → Type 0) (low : ℕ) where
  pop-IsNodeFrom :
      (queue : Queue Packet)
      → IsSortedFrom low queue
      → Ensures
          (λ (popped : Packet × Node). IsNodeFrom low popped.1)
          Q
          (unwrap (Node.pop (record { ingress = queue })))
  unfolding Node.pop pop_first
  pop-IsNodeFrom [] sorted = record { holds = tt }
  pop-IsNodeFrom ((t, p) ∷ queue) sorted = record {
    holds = IsSortedFrom-le low t queue sorted.0 sorted.1;
  }

  pop-IsUserFrom :
      {Float : Type 0} (user : User Float) (queue : Queue UserEvent)
      → IsSortedFrom low queue
      → Ensures
          (λ (popped : UserEvent × User Float). IsSortedFrom low (popped.1).events)
          Q
          (unwrap (User.pop (record user { events = queue })))
  unfolding User.pop pop_first
  pop-IsUserFrom user [] sorted = record { holds = tt }
  pop-IsUserFrom user ((t, p) ∷ queue) sorted = record {
    holds = IsSortedFrom-le low t queue sorted.0 sorted.1;
  }

module _ ⦃s : Sources⦄ where
  open s use {Rng, Float}

  -- The clock has not gone back, no event was earlier than what it shows now, and every queue is sorted.
  abbrev pub IsLater : Sim → Sim → Type 0
  IsLater sim sim' =
      (sim.timestamp ≤ sim'.timestamp)
      × IsUpTo sim'.timestamp (min_by_time (times Node.next sim.nodes))
      × IsUpTo sim'.timestamp (min_by_time (times User.next sim.users))
      × IsOrdered sim'

  -- No event of a node or of a user is earlier.
  abbrev IsEarliest : ℕ → Sim → Type 0
  IsEarliest time sim =
      IsUpTo time (min_by_time (times Node.next sim.nodes))
      × IsUpTo time (min_by_time (times User.next sim.users))

  IsAt-IsLater :
      (time : ℕ) (sim sim' : Sim)
      → sim.timestamp ≤ time
      → IsEarliest time sim
      → IsAt time sim'
      → IsLater sim sim'
  IsAt-IsLater time sim sim' h up at = (
    omega (arith, at.now),
    subst (λ (t : ℕ). IsUpTo t (min_by_time (times Node.next sim.nodes))) (sym at.now) up.0,
    subst (λ (t : ℕ). IsUpTo t (min_by_time (times User.next sim.users))) (sym at.now) up.1,
    subst (λ (t : ℕ). IsAt t sim') (sym at.now) at,
  )

  IsIdle-IsStopped : (sim : Sim) (bail : Bail Rng Float) → IsIdle bail → IsStopped sim bail
  IsIdle-IsStopped sim (no_more_events left) idle = idle
  IsIdle-IsStopped sim (in_the_past left) idle = absurd (idle)

  step_node-IsLater :
      (id time : ℕ) (sim : Sim)
      → IsOrdered sim
      → IsEarliest time sim
      → IsLeast (λ (node : Node). node.ingress) id time sim.nodes
      → Ensures (IsLater sim) (IsStopped sim) (step_node id sim)
  unfolding step_node
  step_node-IsLater id time sim h up (node, (found, starts)) =
      let sorted : IsNodeFrom 0 node = found-Each (IsNodeFrom 0) id sim.nodes h.nodes found in
      elim (Bool-cases (ltb time sim.timestamp)) [
        | inl past ↦
            let late : ¬ IsTimely sim = λ timely.
              let kept = found-Each (IsNodeFrom sim.timestamp) id sim.nodes timely.0 found in
              let order = first_time-le sim.timestamp time node.ingress kept starts in
              absurd (omega (arith, order, ltb→lt time sim.timestamp past)) in
            rw (found, starts, past)
              (>>=-Ensures _ _ (pop-IsNodeFrom (IsStopped sim) 0 node.ingress sorted)
                (λ popped rest. record { holds = late }))
        | inr fine ↦
            let later : sim.timestamp ≤ time = ltb→not_lt time sim.timestamp fine in
            rw (found, starts, fine)
              (>>=-Ensures _ _ (pop-IsNodeFrom (IsStopped sim) 0 node.ingress sorted)
                (λ popped rest.
                  Ensures-weaken _ (λ sim'. IsAt-IsLater time sim sim' later up)
                    (IsIdle-IsStopped sim)
                    (forward-IsAt time (content popped.0) _ (record {
                      now = refl;
                      nodes = insert-Each (IsNodeFrom 0) id popped.1 sim.nodes rest h.nodes;
                      users = h.users;
                    }))))
      ]

  step_user-IsLater :
      (id time : ℕ) (sim : Sim)
      → IsOrdered sim
      → IsEarliest time sim
      → IsLeast (λ (user : User Float). user.events) id time sim.users
      → Ensures (IsLater sim) (IsStopped sim) (step_user id sim)
  unfolding step_user
  step_user-IsLater id time sim h up (user, (found, starts)) =
      let sorted : IsUserFrom 0 user = found-Each (IsUserFrom 0) id sim.users h.users found in
      elim (Bool-cases (ltb time sim.timestamp)) [
        | inl past ↦
            let late : ¬ IsTimely sim = λ timely.
              let kept = found-Each (IsUserFrom sim.timestamp) id sim.users timely.1 found in
              let order = first_time-le sim.timestamp time user.events kept starts in
              absurd (omega (arith, order, ltb→lt time sim.timestamp past)) in
            rw (found, starts, past) (record { holds = late })
        | inr fine ↦
            let later : sim.timestamp ≤ time = ltb→not_lt time sim.timestamp fine in
            rw (found, starts, fine)
              (>>=-Ensures _ _ (pop-IsUserFrom (IsStopped sim) 0 user user.events sorted)
                (λ popped rest.
                  Ensures-weaken _ (λ sim'. IsAt-IsLater time sim sim' later up)
                    (IsIdle-IsStopped sim)
                    (handle-IsAt time id popped.0 _ (record {
                      now = refl;
                      nodes = h.nodes;
                      users = insert-Each (IsUserFrom 0) id popped.1 sim.users rest h.users;
                    }))))
      ]

  dispatch-IsLater :
      (a b : Option (ℕ × ℕ)) (sim : Sim)
      → IsOrdered sim
      → min_by_time (times Node.next sim.nodes) ≡ a
      → min_by_time (times User.next sim.users) ≡ b
      → next sim ≡ choose a b
      → Ensures (IsLater sim) (IsStopped sim) (dispatch (choose a b) sim)
  dispatch-IsLater none none sim h na ub e = record { holds = e }
  dispatch-IsLater (some (id, t)) none sim h na ub e =
      step_node-IsLater id t sim h (rw (na) (omega arith), rw (ub) tt)
        (min_by_time-IsLeast (λ (node : Node). node.ingress) (IsNodeFrom 0) id t sim.nodes h.nodes
          na)
  dispatch-IsLater none (some (id, t)) sim h na ub e =
      step_user-IsLater id t sim h (rw (na) tt, rw (ub) (omega arith))
        (min_by_time-IsLeast (λ (user : User Float). user.events) (IsUserFrom 0) id t sim.users
          h.users ub)
  dispatch-IsLater (some (i, t)) (some (j, u)) sim h na ub e = elim (Bool-cases (ltb t u)) [
    | inl earlier ↦ rw (earlier) (
        step_node-IsLater i t sim h
          (rw (na) (omega arith), rw (ub) (omega (arith, ltb→lt t u earlier)))
          (min_by_time-IsLeast (λ (node : Node). node.ingress) (IsNodeFrom 0) i t sim.nodes h.nodes
            na))
    | inr not_earlier ↦ rw (not_earlier) (
        step_user-IsLater j u sim h (rw (na) (ltb→not_lt t u not_earlier), rw (ub) (omega arith))
          (min_by_time-IsLeast (λ (user : User Float). user.events) (IsUserFrom 0) j u sim.users
            h.users ub))
  ]

  -- From a state in which every queue is sorted, `step` leads to one in which every queue is sorted and
  -- the clock has not gone back, to a time than which no event of the state before was earlier; or it
  -- panics; or it stops because no event is left, or because an event was already before the clock.
  pub step-IsOrdered :
      (sim : Sim) → IsOrdered sim → Ensures (IsLater sim) (IsStopped sim) (step sim)
  unfolding step next
  step-IsOrdered sim h = dispatch-IsLater _ _ sim h refl refl refl

  -- Where the loop ends.
  abbrev pub IsEnd : Bail Rng Float → Type 0
  IsEnd (no_more_events left) = next left ≡ none
  IsEnd (in_the_past left) = Unit

  IsStopped-IsEnd : (sim : Sim) (bail : Bail Rng Float) → IsStopped sim bail → IsEnd bail
  IsStopped-IsEnd sim (no_more_events left) idle = idle
  IsStopped-IsEnd sim (in_the_past left) late = tt

  pub run_steps-IsOrdered :
      (n : ℕ) (sim : Sim)
      → IsOrdered sim
      → Ensures
          (λ (sim' : Sim). (sim.timestamp ≤ sim'.timestamp) × IsOrdered sim')
          IsEnd
          (run_steps n sim)
  unfolding run_steps
  run_steps-IsOrdered zero sim h = record { holds = (omega arith, h) }
  run_steps-IsOrdered (suc n) sim h =
      >>=-Ensures _ _ (Ensures-weaken _ (λ sim' k. k) (IsStopped-IsEnd sim) (step-IsOrdered sim h))
        (λ stepped (later, _, _, ordered).
          Ensures-map _ (λ sim' last. (omega (arith, later, last.0), last.1))
            (run_steps-IsOrdered n stepped ordered))
