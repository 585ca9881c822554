-- ===== src/Sphinx/Payload/Recovery.antt =====
-- The padding of a plaintext, and what `recover_plaintext` makes of it.
use fragging.Common.{
  ℕ, zero, suc, ◌+◌, ◌-◌, ◌≤◌, ◌≡◌, refl, ap, ◌∙◌, [], ◌∷◌, ◌++◌, length, take, drop, replicate,
  arith, length-append, length-replicate, take-append, drop-append, take-append_ge, Option, none,
  some, ok, err, ◌==◌, Bool-cases, true, ==→eq, inl, inr, ◌⊎◌, ensure-eq-ok,
}
use fragging.Sphinx.Constants.{Bytes, invalid_payload, security_parameter, payload_overhead_size}
use fragging.Sphinx.Payload.{Payload, all_zero, rposition_one, set_final_payload, recover_plaintext}

Option-cases : {A : Type 0} (o : Option A) → ((a : A) × (o ≡ some a)) ⊎ (o ≡ none)
Option-cases none = inr refl
Option-cases (some a) = inl (a, refl)

all_zero-replicate : (n : ℕ) → all_zero (replicate n 0) ≡ true
unfolding all_zero replicate
all_zero-replicate zero = refl
all_zero-replicate (suc n) = all_zero-replicate n

rposition_one-replicate : (n : ℕ) → rposition_one (replicate n 0) ≡ none
unfolding rposition_one replicate
rposition_one-replicate zero = refl
rposition_one-replicate (suc n) = rw (rposition_one-replicate n) refl

rposition_one-append :
    (m : Bytes) (n : ℕ) → rposition_one (m ++ (1 ∷ replicate n 0)) ≡ some (length m)
unfolding rposition_one
rposition_one-append [] n = rw (rposition_one-replicate n) refl
rposition_one-append (b ∷ m) n = rw (rposition_one-append m n) refl

-- The byte at the position is the last 1.
rposition_one_split :
    (bs : Bytes) (i : ℕ)
    → rposition_one bs ≡ some i
    → (rest : Bytes) × (bs ≡ take i bs ++ (1 ∷ rest)) × (rposition_one rest ≡ none)
unfolding rposition_one take
rposition_one_split [] i h = absurd (cc)
rposition_one_split (b ∷ bs) i h = elim (Option-cases (rposition_one bs)) [
  | inl (j, later) ↦
      let e : some (suc j) ≡ some i = rw later at h in
      let here : i ≡ suc j = cc in
      let (rest, split, none_after) = rposition_one_split bs j later in
      (rest, rw here (ap (λ t. b ∷ t) split), none_after)
  | inr nothing ↦ elim (Bool-cases (b == 1)) [
    | inl same ↦
        let e : some 0 ≡ some i = rw (nothing, same) at h in
        let here : i ≡ 0 = cc in (bs, rw here (ap (λ t. t ∷ bs) (==→eq b 1 same)), nothing)
    | inr differ ↦ absurd (let e : none ≡ some i = rw (nothing, differ) at h in cc)
  ]
]

take-replicate : (k n a : ℕ) → k ≤ n → take k (replicate n a) ≡ replicate k a
unfolding take replicate
take-replicate zero n a h = refl
take-replicate (suc k) zero a h = absurd (omega arith)
take-replicate (suc k) (suc n) a h = ap (λ t. a ∷ t) (take-replicate k n a (omega arith))

take-one_replicate :
    (k n : ℕ) → k ≤ n → take {A = ℕ} (suc k) (1 ∷ replicate n 0) ≡ 1 ∷ replicate k 0
unfolding take
take-one_replicate k n h = ap (λ t. 1 ∷ t) (take-replicate k n 0 h)

-- A plaintext that fits is padded to the payload size.
pub set_final_payload-eq :
    (m : Bytes) (size pad : ℕ)
    → length m + payload_overhead_size + pad ≡ size
    → set_final_payload m size ≡ replicate security_parameter 0 ++ (m ++ (1 ∷ replicate pad 0))
unfolding set_final_payload
set_final_payload-eq m size pad h =
    let front : Bytes = replicate security_parameter 0 in
    let front_length = length-replicate {A = ℕ} security_parameter 0 in
    let back : Bytes = 1 ∷ replicate size 0 in
    let inside : take (size - length front) (m ++ back) ≡ m ++ (1 ∷ replicate pad 0) =
      take-append_ge (size - length front) m back (omega arith)
      ∙ ap (λ t. m ++ t)
          (ap (λ (k : ℕ). take k back) (omega arith) ∙ take-one_replicate pad size (omega arith)) in
    take-append_ge size front (m ++ back) (omega arith) ∙ ap (λ t. front ++ t) inside

pub length-set_final_payload :
    (m : Bytes) (size pad : ℕ)
    → length m + payload_overhead_size + pad ≡ size
    → length (set_final_payload m size) ≡ size
length-set_final_payload m size pad h =
    let front : Bytes = replicate security_parameter 0 in
    let front_length = length-replicate {A = ℕ} security_parameter 0 in
    ap length (set_final_payload-eq m size pad h)
    ∙ omega (
      arith,
      front_length,
      length-append front (m ++ (1 ∷ replicate pad 0)),
      length-append m (1 ∷ replicate pad 0),
      length-replicate {A = ℕ} pad 0,
    )

pub recover-set_final :
    (m : Bytes) (size pad : ℕ)
    → length m + payload_overhead_size + pad ≡ size
    → recover_plaintext (set_final_payload m size) ≡ ok m
unfolding recover_plaintext
recover-set_final m size pad h =
    let front : Bytes = replicate security_parameter 0 in
    let front_length = length-replicate {A = ℕ} security_parameter 0 in
    let back = m ++ (1 ∷ replicate pad 0) in
    rw
      (
        set_final_payload-eq m size pad h,
        take-append security_parameter front back front_length,
        all_zero-replicate security_parameter,
        drop-append security_parameter front back front_length,
        rposition_one-append m pad,
        take-append (length m) m (1 ∷ replicate pad 0) refl,
      )
      refl

-- If `recover_plaintext` returns `m`, the payload begins with zeros, and behind them are `m`, a 1, and
-- bytes none of which is 1.
pub recover_plaintext-Parsed :
    (payload : Payload) (m : Bytes)
    → recover_plaintext payload ≡ ok m
    → (rest : Bytes) × (all_zero (take security_parameter payload) ≡ true)
      × (drop security_parameter payload ≡ m ++ (1 ∷ rest))
      × (rposition_one rest ≡ none)
unfolding recover_plaintext
recover_plaintext-Parsed payload m h =
    let padded = drop security_parameter payload in
    let (zeros_first, h') =
      ensure-eq-ok (all_zero (take security_parameter payload)) invalid_payload _ h in
    elim (Option-cases (rposition_one padded)) [
      | inl (i, found) ↦
          let e : ok (take i padded) ≡ ok m = rw found at h' in
          let plain : take i padded ≡ m = cc in
          let (rest, split, none_after) = rposition_one_split padded i found in
          (rest, zeros_first, split ∙ ap (λ t. t ++ (1 ∷ rest)) plain, none_after)
      | inr nothing ↦ absurd (let e : err invalid_payload ≡ ok m = rw nothing at h' in cc)
    ]
