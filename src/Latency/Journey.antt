-- ===== src/Latency/Journey.antt =====
-- A packet of latency-sim/src/main.rs on its way, while nothing else is pending: `step` takes it from
-- node to node, and its message to the recipient.
use fragging.Common.{
  ℕ, suc, ◌+◌, ◌^◌, ◌≤◌, ◌<◌, ◌≡◌, refl, ap, List, [], ◌∷◌, length, none, some, ok, not_lt→ltb,
  Bool-cases, inl, inr, ◌==◌, eq→==, ==→eq, arith,
}
use fragging.Latency.Sources.{Sources}
use fragging.Latency.Message.{Message, Packet, Content, hop, fields, content, add-ok}
use fragging.Latency.Queue.{Queue, first_time, pop_first}
use fragging.Latency.Queue.Order.{insert-nil}
use fragging.Latency.Node
use fragging.Latency.Node.{Node}
use fragging.Latency.User
use fragging.Latency.User.{User, UserEvent}
use fragging.Latency.Table
use fragging.Latency.Table.{Table, get, get_mut}
use fragging.Latency.Table.Each.{get-insert}
use fragging.Latency.Simulation.{min_by_time, times, smaller, next}
use fragging.Latency.Simulation.Actions.{Sim, insert_packet, insert_event, with_user}
use fragging.Latency.Simulation.Deliver.{forward}
use fragging.Latency.Simulation.Step.{step_node, step}
use fragging.Latency.Simulation.Run.{run_steps}
use fragging.Latency.Route.{wrap_in, waits}

module _ {A : Type 0} where
  -- A value that is replaced and put back.
  insert-insert :
      (key : ℕ) (a b : A) (table : Table A)
      → get key table ≡ some a
      → Table.insert key a (Table.insert key b table) ≡ table
  unfolding get Table.insert
  insert-insert key a b [] found = absurd (cc)
  insert-insert key a b ((k, c) ∷ table) found = elim (Bool-cases (k == key)) [
    | inl same ↦
        let here : some c ≡ some a = rw (same) at found in
        let value : c ≡ a = cc in rw (same, eq→== key key refl, value, ==→eq k key same) refl
    | inr other ↦
        let later : get key table ≡ some a = rw (other) at found in
        rw (other) (rw (other) (ap (λ rest. (k, c) ∷ rest) (insert-insert key a b table later)))
  ]

module _ {A B : Type 0} (queue_of : A → Queue B) where
  -- No queue holds anything.
  abbrev pub AreEmpty : Table A → Type 0
  AreEmpty [] = Unit
  AreEmpty ((k, a) ∷ table) = (queue_of a ≡ []) × AreEmpty table

  min_by_time-AreEmpty :
      (table : Table A)
      → AreEmpty table
      → min_by_time (times (λ a. first_time (queue_of a)) table) ≡ none
  unfolding min_by_time times first_time
  min_by_time-AreEmpty [] h = refl
  min_by_time-AreEmpty ((k, a) ∷ table) h = rw (h.0) (min_by_time-AreEmpty table h.1)

  min_by_time-insert :
      (key t : ℕ) (b : B) (a : A) (table : Table A)
      → AreEmpty table
      → queue_of a ≡ (t, b) ∷ []
      → min_by_time (times (λ a. first_time (queue_of a)) (Table.insert key a table))
        ≡ some (key, t)
  unfolding min_by_time times first_time Table.insert
  min_by_time-insert key t b a [] h single = rw (single) refl
  min_by_time-insert key t b a ((k, c) ∷ table) h single = elim (Bool-cases (k == key)) [
    | inl same ↦ rw (same, single) (ap (smaller key t) (min_by_time-AreEmpty table h.1))
    | inr other ↦ rw (other, h.0) (min_by_time-insert key t b a table h.1 single)
  ]

abbrev holding : ℕ → Packet → Node
holding t p = record { ingress = (t, p) ∷ [] }

abbrev total : List ℕ → ℕ
total [] = 0
total (wait ∷ rest) = wait + total rest

-- The nodes of the hops are there, and hold nothing.
abbrev AreNodes : Table Node → List (ℕ × ℕ) → Type 0
AreNodes base [] = Unit
AreNodes base ((node, wait) ∷ hops) = (get node base ≡ some Node.new) × AreNodes base hops

module _ ⦃s : Sources⦄ (base : Table Node)
    (base_empty : AreEmpty (λ (node : Node). node.ingress) base) where
  open s use {Float}

  -- The one packet is at node `k` until `t`.
  abbrev pub placed : ℕ → ℕ → Packet → Sim → Sim
  placed k t p sim = record sim { nodes = Table.insert k (holding t p) base }

  step-placed :
      (k t : ℕ) (p : Packet) (sim : Sim)
      → AreEmpty (λ (user : User Float). user.events) sim.users
      → sim.timestamp ≤ t
      → get k base ≡ some Node.new
      → step (placed k t p sim) ≡ forward (content p) (record sim { timestamp = t; nodes = base })
  unfolding step next step_node Node.pop pop_first first_time
  step-placed k t p sim quiet later there =
      rw
        (
          min_by_time-insert (λ (node : Node). node.ingress) k t p (holding t p) base base_empty
              refl,
          min_by_time-AreEmpty (λ (user : User Float). user.events) sim.users quiet,
          get-insert k (holding t p) base,
          not_lt→ltb t sim.timestamp later,
        )
        (ap
          (λ (nodes : Table Node).
            forward (content p) (record sim { timestamp = t; nodes = nodes }))
          (insert-insert k Node.new (holding t p) base there))

  forward-packet :
      (k w : ℕ) (inner : Content) (sim : Sim)
      → sim.timestamp + w < 2 ^ 64
      → get k base ≡ some Node.new
      → forward (Content.packet (hop k w inner)) (record sim { nodes = base })
        ≡ ok (placed k (sim.timestamp + w) (hop k w inner) sim)
  unfolding forward insert_packet get_mut Node.insert
  forward-packet k w inner sim small there =
      rw (add-ok sim.timestamp w small, there, insert-nil (sim.timestamp + w) (hop k w inner)) refl

  forward-message :
      (m : Message) (user : User Float) (sim : Sim)
      → get (fields m).recipient sim.users ≡ some user
      → forward (Content.message m) sim
        ≡ ok (record sim {
          users =
              Table.insert
                (fields m).recipient
                (User.insert sim.timestamp (UserEvent.message m) user)
                sim.users;
        })
  unfolding forward insert_event with_user get_mut
  forward-message m user sim found = rw (found) refl

  -- The state in which the message is with its recipient.
  abbrev pub arrived : ℕ → Message → User Float → Sim → Sim
  arrived time m user sim = record sim {
    timestamp = time;
    nodes = base;
    users =
        Table.insert (fields m).recipient (User.insert time (UserEvent.message m) user) sim.users;
  }

  -- When the only thing pending is a packet that is at a node until `t`, and carries a message over
  -- further hops to nodes that exist, for a user that exists: as many rounds as there are hops, and one
  -- more, leave all nodes empty and the message with its recipient, at the time `t` and the delays of
  -- the further hops together, if that is still a `u64`.
  pub run_steps-arrives :
      (hops : List (ℕ × ℕ)) (k t wait time : ℕ) (m : Message) (user : User Float) (sim : Sim)
      → AreEmpty (λ (user : User Float). user.events) sim.users
      → sim.timestamp ≤ t
      → get k base ≡ some Node.new
      → AreNodes base hops
      → get (fields m).recipient sim.users ≡ some user
      → t + total (waits hops) ≡ time
      → time < 2 ^ 64
      → run_steps
          (suc (length hops))
          (placed k t (hop k wait (wrap_in hops (Content.message m))) sim)
        ≡ ok (arrived time m user sim)
  unfolding run_steps
  run_steps-arrives [] k t wait time m user sim quiet later there nodes found sum small =
      let now : t ≡ time = omega (arith, sum) in
      rw
        (
          step-placed k t (hop k wait (Content.message m)) sim quiet later there,
          forward-message m user (record sim { timestamp = t; nodes = base }) found,
        )
        (ap (λ (at : ℕ). ok (arrived at m user sim)) now)
  run_steps-arrives ((node, w) ∷ hops) k t wait time m user sim quiet later there nodes found sum
        small =
      let next_packet = hop node w (wrap_in hops (Content.message m)) in
      rw
        (
          step-placed k t (hop k wait (Content.packet next_packet)) sim quiet later there,
          forward-packet node w (wrap_in hops (Content.message m)) (record sim { timestamp = t })
              (omega (arith, sum)) nodes.0,
        )
        (run_steps-arrives hops node (t + w) w time m user (record sim { timestamp = t }) quiet
          (omega arith) nodes.0 nodes.1 found (omega (arith, sum)) small)
