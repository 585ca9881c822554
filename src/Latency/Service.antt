-- ===== src/Latency/Service.antt =====
-- `next` and `pop` of the nodes and users of latency-sim/src/main.rs serve their arrivals in the order
-- of time, and those of one time in the order in which they came.
use fragging.Common.{ℕ, ◌≡◌, Option, none, some}
use fragging.Latency.Queue.{Queue}
use fragging.Latency.Queue.Refinement.{Refines}
use fragging.Latency.Node
use fragging.Latency.Node.{Node}
use fragging.Latency.User
use fragging.Latency.User.{User}

module _ {A B : Type 0} (queue_of : B → Queue A) where
  -- What `next` and `pop` return, for an earliest arrival and the others, or for none.
  abbrev pub IsServed : Option ℕ → Option (A × B) → Option ((ℕ × A) × Queue A) → Type 0
  IsServed none none none = Unit
  IsServed (some t) (some (a, left)) (some ((u, b), others)) =
      (t ≡ u) × (a ≡ b) × Refines (queue_of left) others
  IsServed none none (some found) = ⊥
  IsServed none (some popped) found = ⊥
  IsServed (some t) none found = ⊥
  IsServed (some t) (some popped) none = ⊥
