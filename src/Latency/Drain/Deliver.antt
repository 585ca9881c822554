-- ===== src/Latency/Drain/Deliver.antt =====
-- What an arrival in latency-sim/src/main.rs leaves to be done: a packet's content at a node, and a
-- message, with the packet that acknowledges it, at its recipient.
use mathlib.Core.Path.{subst}
use fragging.Common.{
  ℕ, ◌+◌, ◌≡◌, refl, sym, ap, Option, none, some, ok, >>=-Ensures, Ensures, Ensures-map, Bool, true,
  false, ◌==◌, if◌then◌else◌, arith,
}
use fragging.Latency.Sources.{Sources}
use fragging.Latency.Message.{Message, Packet, Content, fields, ack_of, destination, delay}
use fragging.Latency.User
use fragging.Latency.User.{User, UserEvent}
use fragging.Latency.Table.{get}
use fragging.Latency.Simulation.{AckStrategy, per_fragment, whole_message}
use fragging.Latency.Simulation.Actions.{Sim, send, insert_event, with_user}
use fragging.Latency.Simulation.Deliver.{
  forward, receive, complete, if_per_fragment, if_whole_message,
}
use fragging.Latency.Invariant.Returns.{Any, add-Any, sub-Any, unwrap-Any}
use fragging.Latency.Drain.{
  sum, packet_weight, content_weight, message_weight, event_weight, IsQuiet, IsDraining,
}
use fragging.Latency.Drain.Actions.{
  sum-insert, insert-IsQuiet, retain-IsQuiet, weaken-IsDraining, insert_packet-IsDraining,
  with_user-IsDraining, send-IsDraining,
}

module _ ⦃s : Sources⦄ (strat : AckStrategy) where
  open s use {Rng, Float}

  pub forward-IsDraining :
      (c : Content) (n : ℕ) (sim : Sim)
      → IsDraining strat n sim
      → Ensures (IsDraining strat (n + content_weight c)) Any (forward c sim)
  unfolding forward content_weight User.insert User.clear_timeouts insert_event
  forward-IsDraining (Content.message m) n sim h =
      with_user-IsDraining strat (fields m).recipient n (message_weight m) _ sim
        (λ user quiet. (
          insert-IsQuiet sim.timestamp (UserEvent.message m) user.events tt quiet,
          omega (arith, sum-insert event_weight sim.timestamp (UserEvent.message m) user.events),
        ))
        h
  forward-IsDraining (Content.ack a) n sim h =
      with_user-IsDraining strat a.recipient n 0 _ sim
        (λ user quiet.
          let same = retain-IsQuiet a.message_id user.events quiet in
          (subst IsQuiet (sym same) quiet, omega (arith, ap (sum event_weight) same)))
        h
  forward-IsDraining (Content.packet p) n sim h =
      >>=-Ensures _ _ (add-Any Any sim.timestamp (delay p))
        (λ leaves k. insert_packet-IsDraining strat (destination p) leaves n p sim h)

  -- A message is acknowledged at once or when its set is complete, by the strategy, and not twice.
  abbrev early : AckStrategy → Packet → ℕ
  early per_fragment reply = packet_weight reply
  early whole_message reply = 0

  abbrev late : AckStrategy → Packet → ℕ
  late per_fragment reply = 0
  late whole_message reply = packet_weight reply

  if_per_fragment-IsDraining :
      (now : AckStrategy) (reply : Packet) (n : ℕ) (sim : Sim)
      → IsDraining strat n sim
      → Ensures (IsDraining strat (n + early now reply)) Any (if_per_fragment now (send reply) sim)
  if_per_fragment-IsDraining per_fragment reply n sim h = send-IsDraining strat n reply sim h
  if_per_fragment-IsDraining whole_message reply n sim h = record {
    holds = weaken-IsDraining strat n (n + 0) sim (omega arith) h;
  }

  if_whole_message-IsDraining :
      (now : AckStrategy) (reply : Packet) (n : ℕ) (sim : Sim)
      → IsDraining strat n sim
      → Ensures (IsDraining strat (n + late now reply)) Any (if_whole_message now (send reply) sim)
  if_whole_message-IsDraining whole_message reply n sim h = send-IsDraining strat n reply sim h
  if_whole_message-IsDraining per_fragment reply n sim h = record {
    holds = weaken-IsDraining strat n (n + 0) sim (omega arith) h;
  }

  complete-IsDraining :
      (id : ℕ) (m : Message) (n : ℕ) (sim : Sim)
      → IsDraining strat n sim
      → Ensures (IsDraining strat (n + late strat (ack_of m))) Any (complete id m sim)
  unfolding complete
  complete-IsDraining id m n sim h =
      >>=-Ensures _ _ (sub-Any Any sim.timestamp _) (λ delivery_time k.
        >>=-Ensures _ _ (unwrap-Any Any (get id sim.users)) (λ user l.
          >>=-Ensures _ _ (unwrap-Any Any (get (fields m).fragment_set user.t_first)) (λ first o.
            >>=-Ensures _ _ (sub-Any Any sim.timestamp first) (λ ftl q. rw (h.same) (
              if_whole_message-IsDraining strat (ack_of m) n _
                (record { same = refl; quiet = h.quiet; bounded = h.bounded }))))))

  early-late :
      (now : AckStrategy) (reply : Packet) → early now reply + late now reply ≡ packet_weight reply
  early-late per_fragment reply = omega arith
  early-late whole_message reply = omega arith

  or_insert-events :
      (set first : ℕ) (seen : Option ℕ) (user : User Float)
      → (User.or_insert set first seen user).events ≡ user.events
  or_insert-events set first none user = refl
  or_insert-events set first (some earlier) user = refl

  -- A change of a user that leaves the events alone.
  keep_events-IsDraining :
      (id n : ℕ) (write : User Float → User Float) (sim : Sim)
      → ((user : User Float) → (write user).events ≡ user.events)
      → IsDraining strat n sim
      → Ensures (IsDraining strat n) Any (with_user id write sim)
  keep_events-IsDraining id n write sim same h =
      Ensures-map _ (λ sim' down. weaken-IsDraining strat (n + 0) n sim' (omega arith) down)
        (with_user-IsDraining strat id n 0 write sim
          (λ user quiet. (
            subst IsQuiet (sym (same user)) quiet,
            omega (arith, ap (sum event_weight) (same user)),
          ))
          h)

  pub receive-IsDraining :
      (id : ℕ) (m : Message) (n : ℕ) (sim : Sim)
      → IsDraining strat n sim
      → Ensures (IsDraining strat (n + packet_weight (ack_of m))) Any (receive id m sim)
  unfolding receive User.see_first User.mark_fragment
  receive-IsDraining id m n sim h =
      >>=-Ensures _ _
        (keep_events-IsDraining id n _ sim
          (λ user. or_insert-events (fields m).fragment_set sim.timestamp _ user) h)
        (λ seen seen_down.
          >>=-Ensures _ _
            (subst
              (λ (now : AckStrategy).
                Ensures (IsDraining strat (n + early strat (ack_of m))) Any
                  (if_per_fragment now (send (ack_of m)) seen))
              (sym h.same) (if_per_fragment-IsDraining strat (ack_of m) n seen seen_down))
            (λ acked acked_down.
              >>=-Ensures _ _
                (keep_events-IsDraining id (n + early strat (ack_of m)) _ acked (λ user. refl)
                  acked_down)
                (λ marked marked_down.
                  >>=-Ensures _ _ (unwrap-Any Any (get id marked.users))
                    (λ user k. ends marked marked_down (User.fragment_set_size _ user == _)))))
    where
      ends :
          (marked : Sim)
          → IsDraining strat (n + early strat (ack_of m)) marked
          → (full : Bool)
          → Ensures
              (IsDraining strat (n + packet_weight (ack_of m)))
              Any
              (if full then complete id m marked else ok marked)
      ends marked down true =
          Ensures-map _
            (λ sim'.
              weaken-IsDraining strat (n + early strat (ack_of m) + late strat (ack_of m))
                (n + packet_weight (ack_of m)) sim' (omega (arith, early-late strat (ack_of m))))
            (complete-IsDraining id m (n + early strat (ack_of m)) marked down)
      ends marked down false = record {
        holds =
            weaken-IsDraining strat (n + early strat (ack_of m)) (n + packet_weight (ack_of m))
              marked (omega (arith, early-late strat (ack_of m))) down;
      }
