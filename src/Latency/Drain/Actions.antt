-- ===== src/Latency/Drain/Actions.antt =====
-- What the queue operations of latency-sim/src/main.rs add to what is to be done.
use mathlib.Core.Path.{subst}
use fragging.Common.{
  ℕ, ◌+◌, ◌≤◌, ◌≡◌, refl, ap, [], ◌∷◌, Option, none, some, unwrap, >>=-Ensures, Ensures, ◌==◌, leb,
  leb→le, Bool-cases, inl, inr, arith, ◌<◌,
}
use fragging.Latency.Sources.{Sources}
use fragging.Latency.Message.{Packet, destination, delay}
use fragging.Latency.Queue.{Queue, retain}
use fragging.Latency.Queue
use fragging.Latency.Queue.Order.{insert-nil, insert-cons_le, insert-cons_gt}
use fragging.Latency.Node
use fragging.Latency.Node.{Node}
use fragging.Latency.User
use fragging.Latency.User.{User, UserEvent}
use fragging.Latency.Table
use fragging.Latency.Table.{Table, get, get_mut}
use fragging.Latency.Simulation.{AckStrategy}
use fragging.Latency.Simulation.Actions.{Sim, insert_packet, with_user, count_packet, send}
use fragging.Latency.Invariant.Returns.{Any, add-Any}
use fragging.Latency.Drain.{
  sum, packet_weight, node_weight, user_weight, IsArrival, IsQuiet, AreQuiet, IsDraining,
}

module _ {A : Type 0} (weight : A → ℕ) where
  pub sum-insert :
      (t : ℕ) (a : A) (queue : Queue A)
      → sum weight (Queue.insert t a queue) ≡ weight a + sum weight queue
  sum-insert t a [] = rw (insert-nil t a) refl
  sum-insert t a ((s, b) ∷ queue) = elim (Bool-cases (leb s t)) [
    | inl small ↦
        rw (insert-cons_le t a s b queue (leb→le s t small)) (omega (arith, sum-insert t a queue))
    | inr large ↦ let later : t < s = ground arith in rw (insert-cons_gt t a s b queue later) refl
  ]

  -- A value that is replaced changes the sum by the difference.
  pub sum-replace :
      (key : ℕ) (a b : A) (table : Table A)
      → get key table ≡ some a
      → sum weight (Table.insert key b table) + weight a ≡ sum weight table + weight b
  unfolding get Table.insert
  sum-replace key a b [] found = absurd (cc)
  sum-replace key a b ((k, c) ∷ table) found = elim (Bool-cases (k == key)) [
    | inl same ↦
        let mine : some c ≡ some a = rw (same) at found in
        let here : c ≡ a = cc in rw (same, here) (omega arith)
    | inr other ↦
        let theirs : get key table ≡ some a = rw (other) at found in
        rw (other) (omega (arith, sum-replace key a b table theirs))
  ]

pub insert-IsQuiet :
    (t : ℕ) (event : UserEvent) (events : Queue UserEvent)
    → IsArrival event
    → IsQuiet events
    → IsQuiet (Queue.insert t event events)
insert-IsQuiet t event [] h quiet = rw (insert-nil t event) (h, tt)
insert-IsQuiet t event ((s, e) ∷ events) h quiet = elim (Bool-cases (leb s t)) [
  | inl small ↦
      rw (insert-cons_le t event s e events (leb→le s t small))
        (quiet.0, insert-IsQuiet t event events h quiet.1)
  | inr large ↦
      let later : t < s = ground arith in
      rw (insert-cons_gt t event s e events later) (h, (quiet.0, quiet.1))
]

-- An acknowledgement clears timeouts, of which there are none.
pub retain-IsQuiet :
    (id : ℕ) (events : Queue UserEvent) → IsQuiet events → retain (User.is_kept id) events ≡ events
unfolding retain
retain-IsQuiet id [] quiet = refl
retain-IsQuiet id ((t, UserEvent.message m) ∷ events) quiet =
    ap (λ rest. (t, UserEvent.message m) ∷ rest) (retain-IsQuiet id events quiet.1)
retain-IsQuiet id ((t, UserEvent.egress p) ∷ events) quiet = absurd (quiet.0)
retain-IsQuiet id ((t, UserEvent.ack_timeout key) ∷ events) quiet = absurd (quiet.0)
retain-IsQuiet id ((t, UserEvent.send_message n) ∷ events) quiet = absurd (quiet.0)

pub unwrap-some :
    {A E : Type 0} (Q : E → Type 0) (found : Option A)
    → Ensures (λ a. found ≡ some a) Q (unwrap found)
unwrap-some Q none = record { holds = tt }
unwrap-some Q (some a) = record { holds = refl }

module _ ⦃s : Sources⦄ where
  open s use {Rng, Float}

  pub found-IsQuiet :
      (key : ℕ) (user : User Float) (users : Table (User Float))
      → AreQuiet users
      → get key users ≡ some user
      → IsQuiet user.events
  unfolding get
  found-IsQuiet key user [] h found = absurd (cc)
  found-IsQuiet key user ((k, u) ∷ users) h found = elim (Bool-cases (k == key)) [
    | inl same ↦
        let mine : some u ≡ some user = rw (same) at found in
        let here : u ≡ user = cc in subst (λ (v : User Float). IsQuiet v.events) here h.0
    | inr other ↦
        let theirs : get key users ≡ some user = rw (other) at found in
        found-IsQuiet key user users h.1 theirs
  ]

  pub insert-AreQuiet :
      (key : ℕ) (user : User Float) (users : Table (User Float))
      → IsQuiet user.events
      → AreQuiet users
      → AreQuiet (Table.insert key user users)
  unfolding Table.insert
  insert-AreQuiet key user [] quiet h = (quiet, tt)
  insert-AreQuiet key user ((k, u) ∷ users) quiet h = elim (Bool-cases (k == key)) [
    | inl same ↦ rw (same) (quiet, h.1)
    | inr other ↦ rw (other) (h.0, insert-AreQuiet key user users quiet h.1)
  ]

module _ ⦃s : Sources⦄ (strat : AckStrategy) where
  open s use {Rng, Float}

  pub weaken-IsDraining :
      (n m : ℕ) (sim : Sim) → n ≤ m → IsDraining strat n sim → IsDraining strat m sim
  weaken-IsDraining n m sim le h = record {
    same = h.same;
    quiet = h.quiet;
    bounded = omega (arith, h.bounded);
  }

  pub insert_packet-IsDraining :
      (id at n : ℕ) (p : Packet) (sim : Sim)
      → IsDraining strat n sim
      → Ensures (IsDraining strat (n + packet_weight p)) Any (insert_packet id at p sim)
  unfolding insert_packet get_mut Node.insert
  insert_packet-IsDraining id at n p sim h =
      >>=-Ensures (get_mut id (Node.insert at p) sim.nodes) _
        (>>=-Ensures (unwrap (get id sim.nodes)) _ (unwrap-some Any (get id sim.nodes))
          (λ node found. record {
            holds = omega (
              arith,
              sum-replace node_weight id node (Node.insert at p node) sim.nodes found,
              sum-insert packet_weight at p node.ingress,
            );
          }))
        (λ nodes (grown : sum node_weight nodes ≤ sum node_weight sim.nodes + packet_weight p).
          record {
            holds = record {
              same = h.same;
              quiet = h.quiet;
              bounded = omega (arith, grown, h.bounded);
            };
          })

  pub with_user-IsDraining :
      (id n k : ℕ) (write : User Float → User Float) (sim : Sim)
      → ((user : User Float)
          → IsQuiet user.events
          → IsQuiet (write user).events × (user_weight (write user) ≤ user_weight user + k))
      → IsDraining strat n sim
      → Ensures (IsDraining strat (n + k)) Any (with_user id write sim)
  unfolding with_user get_mut
  with_user-IsDraining id n k write sim keeps h =
      >>=-Ensures (get_mut id write sim.users) _
        (>>=-Ensures (unwrap (get id sim.users)) _ (unwrap-some Any (get id sim.users))
          (λ user found.
            let kept = keeps user (found-IsQuiet id user sim.users h.quiet found) in
            record {
              holds = (
                insert-AreQuiet id (write user) sim.users kept.0 h.quiet,
                omega (arith, sum-replace user_weight id user (write user) sim.users found, kept.1),
              );
            }))
        (λ users (grown : AreQuiet users × (sum user_weight users ≤ sum user_weight sim.users + k)).
          record {
            holds = record {
              same = h.same;
              quiet = grown.0;
              bounded = omega (arith, grown.1, h.bounded);
            };
          })

  pub send-IsDraining :
      (n : ℕ) (p : Packet) (sim : Sim)
      → IsDraining strat n sim
      → Ensures (IsDraining strat (n + packet_weight p)) Any (send p sim)
  unfolding send count_packet
  send-IsDraining n p sim h = >>=-Ensures _ _ (add-Any Any sim.timestamp (delay p)) (λ leaves k.
      >>=-Ensures _ _ (insert_packet-IsDraining (destination p) leaves n p sim h) (λ inserted down.
        >>=-Ensures _ _ (add-Any Any inserted.packet_count 1) (λ count l. record {
          holds = record { same = down.same; quiet = down.quiet; bounded = down.bounded };
        })))
