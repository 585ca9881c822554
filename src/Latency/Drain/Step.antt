-- ===== src/Latency/Drain/Step.antt =====
-- Once no user of latency-sim/src/main.rs sends or waits, every step does a part of what is to be
-- done, so the loop of `run` ends.
use mathlib.Core.Path.{subst}
use fragging.Common.{
  ℕ, zero, suc, ◌+◌, ◌-◌, ◌≤◌, ◌<◌, ◌≡◌, refl, sym, [], ◌∷◌, Option, none, some, unwrap, ensure,
  >>=-Ensures, Ensures, Ensures-map, Bool, true, false, not, ltb, arith,
}
use fragging.Latency.Sources.{Sources}
use fragging.Latency.Message.{Message, Packet, Content, hop, new, ack_of, content}
use fragging.Latency.Queue.{Queue, pop_first}
use fragging.Latency.Node
use fragging.Latency.Node.{Node}
use fragging.Latency.User
use fragging.Latency.User.{User, UserEvent}
use fragging.Latency.Table
use fragging.Latency.Table.{get}
use fragging.Latency.Simulation.{AckStrategy, Bail, next, Next}
use fragging.Latency.Simulation.Actions.{Sim}
use fragging.Latency.Simulation.Deliver.{forward}
use fragging.Latency.Simulation.Step.{step_node, step_user, handle, dispatch, step}
use fragging.Latency.Simulation.Run.{run_steps}
use fragging.Latency.Invariant.Returns.{Any, unwrap-Any}
use fragging.Latency.Drain.{
  sum, packet_weight, content_weight, message_weight, node_weight, event_weight, user_weight,
  IsQuiet, IsDraining,
}
use fragging.Latency.Drain.Deliver.{forward-IsDraining, receive-IsDraining}
use fragging.Latency.Drain.Actions.{
  sum-replace, unwrap-some, found-IsQuiet, insert-AreQuiet, weaken-IsDraining,
}

packet_weight-hop :
    (at wait : ℕ) (inner : Content) → packet_weight (hop at wait inner) ≡ suc (content_weight inner)
unfolding packet_weight
packet_weight-hop at wait inner = refl

message_weight-ack_of : (m : Message) → message_weight m ≡ suc (packet_weight (ack_of m))
unfolding message_weight
message_weight-ack_of (new all reply) = refl

module _ {E : Type 0} (Q : E → Type 0) where
  ensure-Any : (test : Bool) (e : E) → Ensures Any Any (ensure test e)
  ensure-Any true e = record { holds = tt }
  ensure-Any false e = record { holds = tt }

  pop-node_weight :
      (queue : Queue Packet)
      → Ensures
          (λ (popped : Packet × Node).
            sum packet_weight queue ≡ packet_weight popped.0 + node_weight popped.1)
          Q
          (unwrap (Node.pop (record { ingress = queue })))
  unfolding Node.pop pop_first
  pop-node_weight [] = record { holds = tt }
  pop-node_weight ((t, p) ∷ queue) = record { holds = refl }

module _ ⦃s : Sources⦄ where
  open s use {Rng, Float}

  -- A popped message, the quiet rest, and what they weigh.
  abbrev IsPopped : ℕ → UserEvent × User Float → Type 0
  IsPopped total popped =
      (m : Message) × ((popped.0 ≡ UserEvent.message m)
        × (IsQuiet (popped.1).events × (total ≡ message_weight m + user_weight popped.1)))

  pop-IsPopped :
      (user : User Float) (queue : Queue UserEvent)
      → IsQuiet queue
      → Ensures
          (IsPopped (sum event_weight queue))
          (Any {A = Bail Rng Float})
          (unwrap (User.pop (record user { events = queue })))
  unfolding User.pop pop_first
  pop-IsPopped user [] quiet = record { holds = tt }
  pop-IsPopped user ((t, UserEvent.message m) ∷ queue) quiet = record {
    holds = (m, (refl, (quiet.1, refl)));
  }
  pop-IsPopped user ((t, UserEvent.egress p) ∷ queue) quiet = absurd (quiet.0)
  pop-IsPopped user ((t, UserEvent.ack_timeout key) ∷ queue) quiet = absurd (quiet.0)
  pop-IsPopped user ((t, UserEvent.send_message n) ∷ queue) quiet = absurd (quiet.0)

module _ ⦃s : Sources⦄ (strat : AckStrategy) where
  open s use {Rng, Float}

  -- Less is to be done than before.
  abbrev IsLess : ℕ → Sim → Type 0
  IsLess n sim = (1 ≤ n) × IsDraining strat (n - 1) sim

  handle-IsLess :
      (id n : ℕ) (m : Message) (sim : Sim)
      → suc (packet_weight (ack_of m)) ≤ n
      → IsDraining strat (n - suc (packet_weight (ack_of m))) sim
      → Ensures (IsLess n) Any (handle id (UserEvent.message m) sim)
  unfolding handle
  handle-IsLess id n m sim enough h =
      let left = n - suc (packet_weight (ack_of m)) in
      Ensures-map _
        (λ sim' down. (
          omega (arith, enough),
          weaken-IsDraining strat (left + packet_weight (ack_of m)) (n - 1) sim'
              (omega (arith, enough)) down,
        ))
        (receive-IsDraining strat id m left sim h)

  step_node-IsLess :
      (id n : ℕ) (sim : Sim) → IsDraining strat n sim → Ensures (IsLess n) Any (step_node id sim)
  unfolding step_node
  step_node-IsLess id n sim h = >>=-Ensures _ _ (unwrap-some Any (get id sim.nodes)) (λ node found.
      >>=-Ensures _ _ (unwrap-Any Any (Node.next node)) (λ time k.
        >>=-Ensures _ _ (pop-node_weight Any node.ingress) (λ popped total.
          >>=-Ensures _ _ (ensure-Any Any (not (ltb time sim.timestamp)) _)
            (λ fine l. go (popped.0) popped.1 time node found total))))
    where
      go :
          (p : Packet) (rest : Node) (time : ℕ) (node : Node)
          → get id sim.nodes ≡ some node
          → node_weight node ≡ packet_weight p + node_weight rest
          → Ensures (IsLess n) Any (
              forward
                (content p)
                (record sim { nodes = Table.insert id rest sim.nodes; timestamp = time }))
      go (hop at wait inner) rest time node found total =
          let swapped = sum-replace node_weight id node rest sim.nodes found in
          let one = packet_weight-hop at wait inner in
          let m = n - suc (content_weight inner) in
          Ensures-map _
            (λ sim' down. (
              omega (arith, h.bounded, swapped, one, total),
              weaken-IsDraining strat (m + content_weight inner) (n - 1) sim'
                  (omega (arith, h.bounded, swapped, one, total)) down,
            ))
            (forward-IsDraining strat inner m _ (record {
              same = h.same;
              quiet = h.quiet;
              bounded = omega (arith, h.bounded, swapped, one, total);
            }))

  step_user-IsLess :
      (id n : ℕ) (sim : Sim) → IsDraining strat n sim → Ensures (IsLess n) Any (step_user id sim)
  unfolding step_user
  step_user-IsLess id n sim h = >>=-Ensures _ _ (unwrap-some Any (get id sim.users)) (λ user found.
      >>=-Ensures _ _ (unwrap-Any Any (User.next user)) (λ time k.
        >>=-Ensures _ _ (ensure-Any Any (not (ltb time sim.timestamp)) _) (λ fine l.
          >>=-Ensures _ _
            (pop-IsPopped user user.events (found-IsQuiet id user sim.users h.quiet found))
            (λ popped parts. go popped.0 popped.1 time user found parts))))
    where
      go :
          (event : UserEvent) (rest : User Float) (time : ℕ) (user : User Float)
          → get id sim.users ≡ some user
          → IsPopped (user_weight user) (event, rest)
          → Ensures (IsLess n) Any (
              handle id event
                (record sim { timestamp = time; users = Table.insert id rest sim.users }))
      go event rest time user found (m, (message, (quiet, total))) =
          let swapped = sum-replace user_weight id user rest sim.users found in
          let one = message_weight-ack_of m in
          let left = n - suc (packet_weight (ack_of m)) in
          let now = record sim { timestamp = time; users = Table.insert id rest sim.users } in
          subst (λ (e : UserEvent). Ensures (IsLess n) Any (handle id e now)) (sym message)
            (handle-IsLess id n m now (omega (arith, h.bounded, swapped, one, total)) (record {
              same = h.same;
              quiet = insert-AreQuiet id rest sim.users quiet h.quiet;
              bounded = omega (arith, h.bounded, swapped, one, total);
            }))

  dispatch-IsLess :
      (chosen : Option Next) (n : ℕ) (sim : Sim)
      → IsDraining strat n sim
      → Ensures (IsLess n) Any (dispatch chosen sim)
  dispatch-IsLess none n sim h = record { holds = tt }
  dispatch-IsLess (some (Next.node id)) n sim h = step_node-IsLess id n sim h
  dispatch-IsLess (some (Next.user id)) n sim h = step_user-IsLess id n sim h

  step-IsLess : (n : ℕ) (sim : Sim) → IsDraining strat n sim → Ensures (IsLess n) Any (step sim)
  unfolding step
  step-IsLess n sim h = dispatch-IsLess (next sim) n sim h

  -- From a state in which no user sends or waits, the loop of `run` does not go on for more rounds
  -- than there are hops and messages to be done: within one more it has ended, by a panic or because
  -- `step` bails.
  pub run_steps-ends :
      (n rounds : ℕ) (sim : Sim)
      → IsDraining strat n sim
      → n < rounds
      → Ensures (λ (sim' : Sim). ⊥) Any (run_steps rounds sim)
  unfolding run_steps
  run_steps-ends n zero sim h enough = absurd (omega arith)
  run_steps-ends n (suc rounds) sim h enough =
      >>=-Ensures _ _ (step-IsLess n sim h)
        (λ sim' less. run_steps-ends (n - 1) rounds sim' less.1 (omega (arith, less.0)))
