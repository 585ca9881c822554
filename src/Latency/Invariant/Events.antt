-- ===== src/Latency/Invariant/Events.antt =====
-- Every event of latency-sim/src/main.rs keeps the queues sorted: the arms of `step`,
-- and the packets that they build, which draw numbers and count messages only.
use fragging.Common.{
  ℕ, Option, none, some, ok, >>=-Ensures, Ensures, Bool, true, false, ◌==◌, if◌then◌else◌,
}
use fragging.Latency.Sources.{Sources}
use fragging.Latency.Message.{Message, Packet, Content, fields, ack_of, destination, delay}
use fragging.Latency.User
use fragging.Latency.User.{User, UserEvent}
use fragging.Latency.Table.{get}
use fragging.Latency.Table.Each.{get-Each, insert-Each, unwrap-Ensures}
use fragging.Latency.Simulation.{AckStrategy, per_fragment, whole_message}
use fragging.Latency.Simulation.Actions.{Sim, send}
use fragging.Latency.Simulation.Deliver.{
  forward, receive, complete, if_per_fragment, if_whole_message,
}
use fragging.Latency.Simulation.Egress.{
  keep_original, wait_for_set, set_timeout, enter, egress, send_message, take_original, ack_timeout,
}
use fragging.Latency.Simulation.Step.{handle}
use fragging.Latency.Invariant.{IsAt, IsUserFrom, IsIdle}
use fragging.Latency.Invariant.Returns.{
  unwrap-Any, add-Any, sub-Any, total_delay-Any, message_of-Any, message_id-Any, timeout_of-Any,
  backdate-Any,
}
use fragging.Latency.Invariant.Build.{build_packet-IsAt, build_messages-IsAt}
use fragging.Latency.Invariant.Actions.{
  insert_packet-IsAt, with_user-IsAt, insert_event-IsAt, count_packet-IsAt, send-IsAt,
  queue_packets-IsAt, clear_timeouts-IsUserFrom,
}

module _ ⦃s : Sources⦄ (time : ℕ) where
  open s use {Float}

  pub forward-IsAt :
      (c : Content) (sim : Sim) → IsAt time sim → Ensures (IsAt time) IsIdle (forward c sim)
  unfolding forward
  forward-IsAt (Content.message m) sim h = insert_event-IsAt time _ sim.timestamp _ sim h
  forward-IsAt (Content.ack a) sim h =
      with_user-IsAt time a.recipient _ sim
        (λ user sorted. clear_timeouts-IsUserFrom 0 a.message_id user sorted) h
  forward-IsAt (Content.packet p) sim h =
      >>=-Ensures _ _ (add-Any IsIdle sim.timestamp (delay p))
        (λ leaves later. insert_packet-IsAt time (destination p) leaves p sim h)

  if_per_fragment-IsAt :
      (strat : AckStrategy) (p : Packet) (sim : Sim)
      → IsAt time sim
      → Ensures (IsAt time) IsIdle (if_per_fragment strat (send p) sim)
  if_per_fragment-IsAt per_fragment p sim h = send-IsAt time p sim h
  if_per_fragment-IsAt whole_message p sim h = record { holds = h }

  if_whole_message-IsAt :
      (strat : AckStrategy) (p : Packet) (sim : Sim)
      → IsAt time sim
      → Ensures (IsAt time) IsIdle (if_whole_message strat (send p) sim)
  if_whole_message-IsAt per_fragment p sim h = record { holds = h }
  if_whole_message-IsAt whole_message p sim h = send-IsAt time p sim h

  or_insert-IsUserFrom :
      (set first : ℕ) (seen : Option ℕ) (user : User Float)
      → IsUserFrom 0 user
      → IsUserFrom 0 (User.or_insert set first seen user)
  or_insert-IsUserFrom set first none user sorted = sorted
  or_insert-IsUserFrom set first (some earlier) user sorted = sorted

  see_first-IsUserFrom :
      (set first : ℕ) (user : User Float)
      → IsUserFrom 0 user
      → IsUserFrom 0 (User.see_first set first user)
  unfolding User.see_first
  see_first-IsUserFrom set first user sorted = or_insert-IsUserFrom set first _ user sorted

  complete-IsAt :
      (id : ℕ) (m : Message) (sim : Sim)
      → IsAt time sim
      → Ensures (IsAt time) IsIdle (complete id m sim)
  unfolding complete
  complete-IsAt id m sim h = >>=-Ensures _ _ (sub-Any IsIdle sim.timestamp _) (λ delivery_time k.
      >>=-Ensures _ _ (unwrap-Any IsIdle (get id sim.users)) (λ user l.
        >>=-Ensures _ _ (unwrap-Any IsIdle (get (fields m).fragment_set user.t_first)) (λ first n.
          >>=-Ensures _ _ (sub-Any IsIdle sim.timestamp first) (λ ftl o.
            if_whole_message-IsAt sim.ack_strat (ack_of m) _
              (record { now = h.now; nodes = h.nodes; users = h.users })))))

  receive-IsAt :
      (id : ℕ) (m : Message) (sim : Sim)
      → IsAt time sim
      → Ensures (IsAt time) IsIdle (receive id m sim)
  unfolding receive User.mark_fragment
  receive-IsAt id m sim h =
      >>=-Ensures _ _ (with_user-IsAt time id _ sim (see_first-IsUserFrom _ _) h) (λ seen seen_at.
        >>=-Ensures _ _ (if_per_fragment-IsAt sim.ack_strat (ack_of m) seen seen_at)
          (λ acked acked_at.
            >>=-Ensures _ _ (with_user-IsAt time id _ acked (λ user sorted. sorted) acked_at)
              (λ marked marked_at.
                >>=-Ensures _ _ (unwrap-Any IsIdle (get id marked.users))
                  (λ user k. ends marked marked_at (User.fragment_set_size _ user == _)))))
    where
      ends :
          (marked : Sim)
          → IsAt time marked
          → (full : Bool)
          → Ensures (IsAt time) IsIdle (if full then complete id m marked else ok marked)
      ends marked at true = complete-IsAt id m marked at
      ends marked at false = record { holds = at }

  wait_for_set-IsAt :
      (id timeout : ℕ) (m : Message) (waiting : Option Message) (sim : Sim)
      → IsAt time sim
      → Ensures (IsAt time) IsIdle (wait_for_set id timeout m waiting sim)
  unfolding wait_for_set keep_original
  wait_for_set-IsAt id timeout m (some waiting) sim h = record { holds = h }
  wait_for_set-IsAt id timeout m none sim h =
      >>=-Ensures _ _ (with_user-IsAt time id _ sim (λ user sorted. sorted) h) (λ kept at.
        >>=-Ensures _ _ (add-Any IsIdle kept.timestamp timeout)
          (λ leaves later. insert_event-IsAt time id leaves _ kept at))

  set_timeout-IsAt :
      (strat : AckStrategy) (id : ℕ) (p : Packet) (sim : Sim)
      → IsAt time sim
      → Ensures (IsAt time) IsIdle (set_timeout strat id p sim)
  unfolding set_timeout keep_original
  set_timeout-IsAt per_fragment id p sim h = >>=-Ensures _ _ (total_delay-Any IsIdle p) (λ total k.
      >>=-Ensures _ _ (timeout_of-Any total sim) (λ timeout l.
        >>=-Ensures _ _ (add-Any IsIdle sim.timestamp timeout) (λ leaves later.
          >>=-Ensures _ _ (message_id-Any IsIdle p) (λ key m.
            >>=-Ensures _ _ (insert_event-IsAt time id leaves _ sim h) (λ timed at.
              >>=-Ensures _ _ (message_of-Any IsIdle p)
                (λ original n. with_user-IsAt time id _ timed (λ user sorted. sorted) at))))))
  set_timeout-IsAt whole_message id p sim h = >>=-Ensures _ _ (total_delay-Any IsIdle p) (λ total k.
      >>=-Ensures _ _ (timeout_of-Any total sim) (λ timeout l.
        >>=-Ensures _ _ (message_of-Any IsIdle p) (λ original m.
          >>=-Ensures _ _ (unwrap-Any IsIdle (get id sim.users))
            (λ user n. wait_for_set-IsAt id timeout original _ sim h))))

  enter-IsAt :
      (kept : Bool) (p : Packet) (sim : Sim)
      → IsAt time sim
      → Ensures (IsAt time) IsIdle (enter kept p sim)
  unfolding enter
  enter-IsAt false p sim h = record { holds = h }
  enter-IsAt true p sim h =
      >>=-Ensures _ _ (add-Any IsIdle sim.timestamp (delay p))
        (λ leaves later. insert_packet-IsAt time (destination p) leaves p sim h)

  egress-IsAt :
      (id : ℕ) (p : Packet) (sim : Sim)
      → IsAt time sim
      → Ensures (IsAt time) IsIdle (egress id p sim)
  unfolding egress
  egress-IsAt id p sim h =
      >>=-Ensures _ _ (unwrap-Any IsIdle (get (destination p) sim.nodes)) (λ node k.
        >>=-Ensures _ _ (set_timeout-IsAt sim.ack_strat id p sim h) (λ timed at.
          >>=-Ensures _ _ (unwrap-Any IsIdle (get id timed.users)) (λ user l.
            >>=-Ensures _ _
              (enter-IsAt _ p _ (record { now = at.now; nodes = at.nodes; users = at.users }))
              (λ entered m. count_packet-IsAt time entered m))))

  send_message-IsAt :
      (id num_frags : ℕ) (sim : Sim)
      → IsAt time sim
      → Ensures (IsAt time) IsIdle (send_message id num_frags sim)
  unfolding send_message
  send_message-IsAt id num_frags sim h =
      >>=-Ensures _ _ (build_messages-IsAt time id 1 num_frags sim h)
        (λ built at. queue_packets-IsAt time id built.0 built.1 at)

  take_original-IsAt :
      (id key : ℕ) (sim : Sim)
      → IsAt time sim
      → Ensures (λ (taken : Message × Sim). IsAt time taken.1) IsIdle (take_original id key sim)
  unfolding take_original
  take_original-IsAt id key sim h =
      >>=-Ensures _ _
        (unwrap-Ensures (IsUserFrom 0) IsIdle _ (get-Each (IsUserFrom 0) id sim.users h.users))
        (λ user sorted. >>=-Ensures _ _ (unwrap-Any IsIdle (get key user.original_messages)) (λ m k.
          record {
            holds = record {
              now = h.now;
              nodes = h.nodes;
              users = insert-Each (IsUserFrom 0) id _ sim.users sorted h.users;
            };
          }))

  ack_timeout-IsAt :
      (strat : AckStrategy) (id key : ℕ) (sim : Sim)
      → IsAt time sim
      → Ensures (IsAt time) IsIdle (ack_timeout strat id key sim)
  unfolding ack_timeout
  ack_timeout-IsAt per_fragment id key sim h =
      >>=-Ensures _ _ (take_original-IsAt id key sim h) (λ taken at.
        >>=-Ensures _ _ (add-Any IsIdle _ 1) (λ after k.
          >>=-Ensures _ _
            (build_packet-IsAt time _ _
              (record { now = at.now; nodes = at.nodes; users = at.users }))
            (λ acked acked_at.
              >>=-Ensures _ _ (build_packet-IsAt time _ acked.1 acked_at)
                (λ built built_at. insert_event-IsAt time id _ _ built.1 built_at))))
  ack_timeout-IsAt whole_message id key sim h =
      >>=-Ensures _ _ (take_original-IsAt id key sim h) (λ taken at.
        >>=-Ensures _ _ (with_user-IsAt time _ _ taken.1 (λ user sorted. sorted) at) (λ cleared k.
          >>=-Ensures _ _ (build_messages-IsAt time _ _ _ cleared k) (λ built built_at.
            >>=-Ensures _ _ (backdate-Any _ built.0)
              (λ dated l. queue_packets-IsAt time id dated built.1 built_at))))

  pub handle-IsAt :
      (id : ℕ) (event : UserEvent) (sim : Sim)
      → IsAt time sim
      → Ensures (IsAt time) IsIdle (handle id event sim)
  unfolding handle
  handle-IsAt id (UserEvent.message m) sim h = receive-IsAt id m sim h
  handle-IsAt id (UserEvent.egress p) sim h = egress-IsAt id p sim h
  handle-IsAt id (UserEvent.ack_timeout key) sim h = ack_timeout-IsAt sim.ack_strat id key sim h
  handle-IsAt id (UserEvent.send_message num_frags) sim h = send_message-IsAt id num_frags sim h
