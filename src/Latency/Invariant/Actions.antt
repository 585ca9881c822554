-- ===== src/Latency/Invariant/Actions.antt =====
-- What is done to the queues in latency-sim/src/main.rs keeps their order: `Node::insert`,
-- `User::insert` and `retain`.
use fragging.Common.{ℕ, List, [], ◌∷◌, >>=-Ensures, Ensures, Bool, Bool-cases, inl, inr, arith}
use fragging.Latency.Sources.{Sources}
use fragging.Latency.Message.{Packet, destination, delay}
use fragging.Latency.Node
use fragging.Latency.User
use fragging.Latency.User.{User, UserEvent}
use fragging.Latency.Queue.{Queue, retain}
use fragging.Latency.Queue.Order.{IsSortedFrom, IsSortedFrom-le, insert-IsSortedFrom}
use fragging.Latency.Table.Each.{get_mut-Each}
use fragging.Latency.Simulation.Actions.{
  Sim, insert_packet, with_user, insert_event, count_packet, send, queue_packets,
}
use fragging.Latency.Invariant.Returns.{add-Any}
use fragging.Latency.Invariant.{IsAt, IsNodeFrom, IsUserFrom, IsIdle}

retain-IsSortedFrom :
    {A : Type 0} (keep : A → Bool) (low : ℕ) (queue : Queue A)
    → IsSortedFrom low queue
    → IsSortedFrom low (retain keep queue)
unfolding retain
retain-IsSortedFrom keep low [] h = tt
retain-IsSortedFrom keep low ((t, a) ∷ queue) h = elim (Bool-cases (keep a)) [
  | inl kept ↦ rw (kept) (h.0, retain-IsSortedFrom keep t queue h.1)
  | inr gone ↦
      rw (gone)
        (IsSortedFrom-le low t (retain keep queue) h.0 (retain-IsSortedFrom keep t queue h.1))
]

module _ ⦃s : Sources⦄ (time : ℕ) where
  open s use {Float}

  pub insert_packet-IsAt :
      (id at : ℕ) (packet : Packet) (sim : Sim)
      → IsAt time sim
      → Ensures (IsAt time) IsIdle (insert_packet id at packet sim)
  unfolding insert_packet Node.insert
  insert_packet-IsAt id at packet sim h =
      >>=-Ensures _ _
        (get_mut-Each (IsNodeFrom 0) IsIdle id (Node.insert at packet) sim.nodes
          (λ node sorted. insert-IsSortedFrom 0 at packet node.ingress (omega arith) sorted)
          h.nodes)
        (λ nodes sorted. record { holds = record { now = h.now; nodes = sorted; users = h.users } })

  pub with_user-IsAt :
      (id : ℕ) (write : User Float → User Float) (sim : Sim)
      → ((user : User Float) → IsUserFrom 0 user → IsUserFrom 0 (write user))
      → IsAt time sim
      → Ensures (IsAt time) IsIdle (with_user id write sim)
  unfolding with_user
  with_user-IsAt id write sim kept h =
      >>=-Ensures _ _ (get_mut-Each (IsUserFrom 0) IsIdle id write sim.users kept h.users)
        (λ users sorted. record { holds = record { now = h.now; nodes = h.nodes; users = sorted } })

  pub insert_event-IsAt :
      (id at : ℕ) (event : UserEvent) (sim : Sim)
      → IsAt time sim
      → Ensures (IsAt time) IsIdle (insert_event id at event sim)
  unfolding insert_event User.insert
  insert_event-IsAt id at event sim h =
      with_user-IsAt id (User.insert at event) sim
        (λ user sorted. insert-IsSortedFrom 0 at event user.events (omega arith) sorted) h

  pub count_packet-IsAt :
      (sim : Sim) → IsAt time sim → Ensures (IsAt time) IsIdle (count_packet sim)
  unfolding count_packet
  count_packet-IsAt sim h =
      >>=-Ensures _ _ (add-Any IsIdle sim.packet_count 1)
        (λ count more. record { holds = record { now = h.now; nodes = h.nodes; users = h.users } })

  pub send-IsAt :
      (packet : Packet) (sim : Sim) → IsAt time sim → Ensures (IsAt time) IsIdle (send packet sim)
  unfolding send
  send-IsAt packet sim h =
      >>=-Ensures _ _ (add-Any IsIdle sim.timestamp (delay packet)) (λ leaves later.
        >>=-Ensures _ _ (insert_packet-IsAt (destination packet) leaves packet sim h)
          (λ inserted k. count_packet-IsAt inserted k))

  pub queue_packets-IsAt :
      (id : ℕ) (packets : List Packet) (sim : Sim)
      → IsAt time sim
      → Ensures (IsAt time) IsIdle (queue_packets id packets sim)
  unfolding queue_packets
  queue_packets-IsAt id [] sim h = record { holds = h }
  queue_packets-IsAt id (packet ∷ packets) sim h =
      >>=-Ensures _ _ (insert_event-IsAt id sim.timestamp (UserEvent.egress packet) sim h)
        (λ queued k. queue_packets-IsAt id packets queued k)

  pub clear_timeouts-IsUserFrom :
      (id : ℕ) (user : User Float) → IsUserFrom 0 user → IsUserFrom 0 (User.clear_timeouts id user)
  unfolding User.clear_timeouts
  clear_timeouts-IsUserFrom id user sorted =
      retain-IsSortedFrom (User.is_kept id) 0 user.events sorted
