-- ===== src/Latency/Table.antt =====
-- The hash maps of latency-sim/src/main.rs as association lists, in the order of their iteration,
-- which is any order.
pub mod Each
use fragging.Common.{
  ℕ, List, [], ◌∷◌, Option, none, some, Outcome, ok, unwrap, ◌>>=◌, ◌==◌, leb, if◌then◌else◌,
}

abbrev pub Table : Type 0 → Type 0
Table A = List (ℕ × A)

abbrev larger : ℕ → Option ℕ → Option ℕ
larger k none = some k
larger k (some other) = if leb other k then some k else some other

module _ {A : Type 0} where
  unfoldable pub get : ℕ → Table A → Option A
  get key [] = none
  get key ((k, a) ∷ table) = if k == key then some a else get key table

  unfoldable pub insert : ℕ → A → Table A → Table A
  insert key a [] = (key, a) ∷ []
  insert key a ((k, b) ∷ table) = if k == key then (key, a) ∷ table else (k, b) ∷ insert key a table

  unfoldable pub remove : ℕ → Table A → Table A
  remove key [] = []
  remove key ((k, b) ∷ table) = if k == key then table else (k, b) ∷ remove key table

  -- `table.keys().max()`
  unfoldable pub max_key : Table A → Option ℕ
  max_key [] = none
  max_key ((k, a) ∷ table) = larger k (max_key table)

module _ {A : Type 0} {E : Type 0} where
  -- `table.get_mut(&key).unwrap()`, with what the caller does to the value.
  unfoldable pub get_mut : ℕ → (A → A) → Table A → Outcome E (Table A)
  get_mut key write table = do a ← unwrap (get key table); ok (insert key (write a) table)
