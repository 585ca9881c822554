-- ===== src/Latency/Queue.antt =====
-- The event queues of latency-sim/src/main.rs: vectors of timestamped entries that `Node` and `User`
-- keep sorted with `partition_point` and `Vec::insert`.
pub mod Order
pub mod Refinement
use fragging.Common.{
  ℕ, zero, suc, ◌≤◌, Bool, true, false, List, [], ◌∷◌, map, Option, none, some, leb, if◌then◌else◌,
}

abbrev pub Queue : Type 0 → Type 0
Queue A = List (ℕ × A)

module _ {A : Type 0} where
  -- `xs.partition_point(test)` of a slice that `test` partitions.
  unfoldable pub partition_point : (A → Bool) → List A → ℕ
  partition_point test [] = 0
  partition_point test (x ∷ xs) = if test x then suc (partition_point test xs) else 0

  -- `xs.insert(i, a)`, for an `i` that is not beyond the end.
  unfoldable pub insert_at : ℕ → A → List A → List A
  insert_at zero a xs = a ∷ xs
  insert_at (suc i) a [] = a ∷ []
  insert_at (suc i) a (x ∷ xs) = x ∷ insert_at i a xs

module _ {A : Type 0} where
  unfoldable pub insert : ℕ → A → Queue A → Queue A
  insert timestamp a queue =
      insert_at (partition_point (λ (x : ℕ × A). leb x.0 timestamp) queue) (timestamp, a) queue

  -- The time of a queue's first entry.
  unfoldable pub first_time : Queue A → Option ℕ
  first_time [] = none
  first_time ((t, a) ∷ queue) = some t

  -- `queue.remove(0).1`
  unfoldable pub pop_first : Queue A → Option (A × Queue A)
  pop_first [] = none
  pop_first ((t, a) ∷ queue) = some (a, queue)

  -- `queue.retain(|(_, a)| keep(a))`
  unfoldable pub retain : (A → Bool) → Queue A → Queue A
  retain keep [] = []
  retain keep ((t, a) ∷ queue) = if keep a then (t, a) ∷ retain keep queue else retain keep queue
