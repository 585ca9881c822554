-- ===== src/Latency/Tests.antt =====
-- The theorems about latency-sim/src/main.rs at concrete inputs.
use fragging.Common.{
  ℕ, ◌+◌, ◌≡◌, ◌↔◌, true, List, length, ok, refl, [], ◌∷◌, ◌++◌, ◌^◌, ◌<◌, Ensures, arith,
}
use fragging.Latency.Queue.{Queue, insert, insert_at, partition_point}
use fragging.Latency.Queue.Refinement.{Refines, insert-Refines}
use fragging.Latency.Message.{Content, Packet}
use fragging.Latency.Table.{get, max_key}
use fragging.Latency.Simulation.{per_fragment}
use fragging.Latency.Simulation.Build.{build_messages, or_zero, draw_delays, build_packet}
use fragging.Latency.Simulation.Run.{run_steps}
use fragging.Latency.Simulation.Step.{step}
use fragging.Latency.Invariant.{IsOrdered, IsStopped}
use fragging.Latency.Invariant.Returns.{Any}
use fragging.Latency.Invariant.Step.{IsLater, step-IsOrdered}
use fragging.Latency.Route.{IsRouted, build_packet-IsRouted}
use fragging.Latency.Simulation.Actions.{Sim}
use fragging.Latency.Drain.{IsDraining, packet_weight, message_weight}
use fragging.Latency.Drain.Step.{run_steps-ends}
use fragging.Latency.User.{fragment_set_size}
use fragging.Latency.Fragments.{has, mark_all, fragment_set_size-mark_all}
use fragging.Latency.Table.{Table}
use fragging.Latency.Node
use fragging.Latency.Node.{Node}
use fragging.Latency.User
use fragging.Latency.User.{User, UserEvent}
use fragging.Latency.Route.{wrap_in}
use fragging.Latency.Message.{Packet, hop}
use fragging.Latency.Journey.{placed, arrived, run_steps-arrives}
use fragging.Latency.Route.Messages.{AreFragments, build_messages-AreFragments}
use fragging.Latency.Toy.{counter, counter-IsUniform, underway}
use fragging.Latency.Toy

abbrev arrivals : Queue ℕ
arrivals = (7, 1) ∷ (3, 2) ∷ (7, 3) ∷ []

abbrev sorted : Queue ℕ
sorted = (3, 2) ∷ (7, 1) ∷ (7, 3) ∷ []

-- Entries of one time stay in their order.
insert-keeps_order : insert {A = ℕ} 7 3 ((3, 2) ∷ (7, 1) ∷ []) ≡ sorted
unfolding insert insert_at partition_point
insert-keeps_order = refl

nil-Refines : Refines {A = ℕ} [] []
nil-Refines = record { sorted = tt; same = λ t. refl }

sorted-Refines : Refines (insert 7 3 (insert 3 2 (insert 7 1 []))) arrivals
sorted-Refines =
    insert-Refines 7 3 _ ((7, 1) ∷ (3, 2) ∷ [])
      (insert-Refines 3 2 _ ((7, 1) ∷ []) (insert-Refines 7 1 [] [] nil-Refines))

insert-Refines_example :
    Refines (insert 3 5 (insert 7 3 (insert 3 2 (insert 7 1 [])))) (arrivals ++ ((3, 5) ∷ []))
insert-Refines_example =
    insert-Refines 3 5 (insert 7 3 (insert 3 2 (insert 7 1 []))) arrivals sorted-Refines

-- A node at which two packets came, and a user with one event.
abbrev serving : Node
serving = record { ingress = insert 5 Toy.reply (insert 8 Toy.reply []) }

abbrev waiting : User ℕ
waiting = record Toy.sender { events = insert 6 (UserEvent.send_message 2) [] }

underway-IsOrdered : IsOrdered underway
unfolding get
underway-IsOrdered = record {
  now = refl;
  nodes = (((omega arith), ((omega arith), tt)), (refl, (tt, (refl, tt))));
  users = (((omega arith), ((omega arith), tt)), (refl, tt));
}

step-IsOrdered_example : Ensures (IsLater underway) (IsStopped underway) (step underway)
step-IsOrdered_example = step-IsOrdered underway underway-IsOrdered

underway-max_key : or_zero (max_key underway.nodes) + 1 < 2 ^ 64
unfolding max_key
underway-max_key = omega arith

build_packet-IsRouted_example :
    IsRouted
      (Content.packet Toy.reply)
      (draw_delays 3 50 0).0
      (or_zero (max_key underway.nodes) + 1)
      underway
      (build_packet (Content.packet Toy.reply) underway)
build_packet-IsRouted_example =
    build_packet-IsRouted counter-IsUniform (Content.packet Toy.reply) underway (omega arith)
      underway-max_key

-- The user only receives.
abbrev draining : Sim
draining = record underway { users = (0, Toy.listener) ∷ [] }

draining-IsDraining : IsDraining per_fragment 7 draining
unfolding packet_weight message_weight
draining-IsDraining = record { same = refl; quiet = ((tt, tt), tt); bounded = omega arith }

run_steps-ends_example : Ensures (λ (sim' : Sim). ⊥) Any (run_steps 8 draining)
run_steps-ends_example = run_steps-ends per_fragment 7 8 draining draining-IsDraining (omega arith)

-- The fragments 1, 0 and again 1 of a set of two.
fragment_set_size-mark_all_example :
    (fragment_set_size 5 (mark_all 5 (1 ∷ 0 ∷ 1 ∷ []) Toy.listener) ≡ 2)
    ↔ ((i : ℕ) → i < 2 → has i (1 ∷ 0 ∷ 1 ∷ []) ≡ true)
unfolding get
fragment_set_size-mark_all_example =
    fragment_set_size-mark_all 2 5 (1 ∷ 0 ∷ 1 ∷ []) Toy.listener (omega arith) refl
      (omega arith, (omega arith, (omega arith, tt)))

-- Two empty nodes and a user without events.
abbrev empty_nodes : Table Node
empty_nodes = (0, Node.new) ∷ (1, Node.new) ∷ []

abbrev quiet : User ℕ
quiet = record {
  events = [];
  fragments = [];
  t_first = [];
  original_messages = [];
  drop_chance = 0;
}

abbrev alone : Sim
alone = record underway { users = (0, quiet) ∷ [] }

abbrev two_hops : List (ℕ × ℕ)
two_hops = (1, 9) ∷ (0, 4) ∷ []

run_steps-arrives_example :
    run_steps 3 (
      placed empty_nodes
        (refl, (refl, tt))
        0
        5
        (hop 0 20 (wrap_in two_hops (Content.message Toy.letter)))
        alone)
    ≡ ok (arrived empty_nodes (refl, (refl, tt)) 18 Toy.letter quiet alone)
unfolding get
run_steps-arrives_example =
    run_steps-arrives empty_nodes (refl, (refl, tt)) two_hops 0 5 20 18 Toy.letter quiet alone
      (refl, tt) (omega arith) refl (refl, (refl, tt)) refl refl (omega arith)

build_messages-AreFragments_example :
    (packets : List Packet) × (last : ℕ) × (build_messages 0 1 2 underway
      ≡ ok (packets, record underway { next_message_id = 7; next_fragment_set = 3; rng = last }))
    × (length packets ≡ 2)
    × AreFragments underway 0 1 2 2 5 0 packets
build_messages-AreFragments_example =
    build_messages-AreFragments counter-IsUniform 0 1 2 underway (omega arith) underway-max_key
      (omega arith) (omega arith)
