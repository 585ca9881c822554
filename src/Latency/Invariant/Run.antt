-- ===== src/Latency/Invariant/Run.antt =====
-- The simulation that `run` of latency-sim/src/main.rs sets up, and its loop: the queues are always sorted.
use fragging.Common.{ℕ, zero, suc, refl, List, Option, none, some, >>=-Ensures, Ensures}
use fragging.Latency.Sources.{Sources}
use fragging.Latency.Node
use fragging.Latency.Node.{Node}
use fragging.Latency.Table.{max_key}
use fragging.Latency.Table.Each.{insert-Each}
use fragging.Latency.Simulation.{AckStrategy, Config, new, new_user, next_id, add_node, add_user}
use fragging.Latency.Simulation.Actions.{Sim}
use fragging.Latency.Simulation.Run.{request, set_up, config}
use fragging.Latency.Invariant.{IsAt, IsNodeFrom, IsUserFrom, IsIdle}
use fragging.Latency.Invariant.Actions.{with_user-IsAt, insert_event-IsAt}
use fragging.Latency.Invariant.Returns.{Any, add-Any}

next_id-Any : {E : Type 0} (Q : E → Type 0) (key : Option ℕ) → Ensures Any Q (next_id key)
unfolding next_id
next_id-Any Q none = record { holds = tt }
next_id-Any Q (some key) = add-Any Q key 1

module _ ⦃s : Sources⦄ where
  open s use {Rng, Float, from_seed}

  abbrev IsMade : Sim × ℕ → Type 0
  IsMade made = IsAt 0 made.0

  new-IsAt : (strat : AckStrategy) (c : Config Float) (seed : List ℕ) → IsAt 0 (new strat c seed)
  unfolding new
  new-IsAt strat c seed = record { now = refl; nodes = tt; users = tt }

  add_node-IsAt : (sim : Sim) → IsAt 0 sim → Ensures IsMade IsIdle (add_node sim)
  unfolding add_node
  add_node-IsAt sim h = >>=-Ensures _ _ (next_id-Any IsIdle (max_key sim.nodes)) (λ id k. record {
    holds = record {
      now = h.now;
      nodes = insert-Each (IsNodeFrom 0) id Node.new sim.nodes tt h.nodes;
      users = h.users;
    };
  })

  add_user-IsAt : (sim : Sim) → IsAt 0 sim → Ensures IsMade IsIdle (add_user sim)
  unfolding add_user new_user
  add_user-IsAt sim h = >>=-Ensures _ _ (next_id-Any IsIdle (max_key sim.users)) (λ id k. record {
    holds = record {
      now = h.now;
      nodes = h.nodes;
      users = insert-Each (IsUserFrom 0) id new_user sim.users tt h.users;
    };
  })

  request-IsAt :
      (n num_frags : ℕ) (sim : Sim) → IsAt 0 sim → Ensures (IsAt 0) IsIdle (request n num_frags sim)
  unfolding request
  request-IsAt zero num_frags sim h = record { holds = h }
  request-IsAt (suc n) num_frags sim h =
      >>=-Ensures _ _ (insert_event-IsAt 0 0 0 _ sim h)
        (λ requested at. request-IsAt n num_frags requested at)

  pub set_up-IsAt :
      (strat : AckStrategy) (drop_chance : Float) (num_frags : ℕ) (ack_multiplier : Float)
      (seed : List ℕ)
      → Ensures (IsAt 0) IsIdle (set_up strat drop_chance num_frags ack_multiplier seed)
  unfolding set_up
  set_up-IsAt strat drop_chance num_frags ack_multiplier seed =
      >>=-Ensures _ _ (add_node-IsAt _ (new-IsAt strat (config ack_multiplier) seed)) (λ one h1.
        >>=-Ensures _ _ (add_node-IsAt one.0 h1) (λ two h2.
          >>=-Ensures _ _ (add_node-IsAt two.0 h2) (λ three h3.
            >>=-Ensures _ _ (add_user-IsAt three.0 h3) (λ sender h4.
              >>=-Ensures _ _ (with_user-IsAt 0 0 _ sender.0 (λ user sorted. sorted) h4)
                (λ dropping h5.
                  >>=-Ensures _ _ (add_user-IsAt dropping h5)
                    (λ recipient h6. request-IsAt 1000 num_frags recipient.0 h6))))))
