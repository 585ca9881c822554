-- ===== src/Scylla/Api/Send.antt =====
-- A message that `create_onions` cuts up arrives, and `defrag` puts it together: what is assumed of the
-- paths, the fragments and the draws, and what arrives.
pub mod Parts
pub mod EndToEnd
use fragging.Common.{
  ℕ, zero, suc, ◌+◌, ◌-◌, ◌*◌, ◌≤◌, ◌<◌, ◌^◌, ◌≡◌, ◌≢◌, refl, sym, ap, ap₂, ◌∙◌, List, [], ◌∷◌,
  ◌++◌, map, length, take, drop, replicate, arith, append_assoc, length-append, length-replicate,
  length-map, take-append, drop-append, length-to_be_bytes, from_be_bytes, to_be_bytes,
  from_be_bytes-to_be_bytes, from_be_bytes-replicate_zero, some, Outcome, ok, err, ◌>>=◌, slice,
  slice_from, slice-append, slice_from-append, eq→==, not_lt→ltb, bytes_eq_refl, true, false, Bool,
  ◌==◌, flatten, inr,
}
use native.Mathlib.Numerals.{add-one}
use fragging.Scylla.Primitives.{Primitives, IsLawful, Bytes}
use fragging.Scylla.Crypto.{
  Error, Flag, flag_byte, kappa, final_hop_meta_length, reply_meta_length, h_pi, pi_inv,
}
use fragging.Scylla.Crypto.Laws.{IsBlock}
use fragging.Scylla.Aont.{aont, aont_inv}
use fragging.Scylla.Aont.RoundTrip.{aont-IsTransformed, IsTransformed}
use fragging.Scylla.Onion.{
  Scylla, Node, Draws, ProcessedOnion, fragment, zeros, last, wrap, header_length,
}
use fragging.Scylla.Onion.Process.{onion_of, routing_of, finish, finish-fragment}
use fragging.Scylla.Onion.Journey.{
  Owner, node_of, HasAddress, first_onion, travel, relay_meta, travel-first_onion,
}
use fragging.Scylla.Onion.Wrap.{wrap-IsWrapped}
use fragging.Scylla.Api.{
  SendDraws, all_sized, any_nonzero, fragment_info, node_eq, last_eq, converge, wrap_all,
  create_some, create_onions, defrag,
}

abbrev pub AllSized : ℕ → List Bytes → Type 0
AllSized size [] = Unit {0}
AllSized size (f ∷ fs) = (length f ≡ size) × AllSized size fs

pub all_sized-AllSized : (size : ℕ) (fs : List Bytes) → AllSized size fs → all_sized size fs ≡ true
unfolding all_sized
all_sized-AllSized size [] h = refl
all_sized-AllSized size (f ∷ fs) h = rw (eq→== (length f) size h.0) (all_sized-AllSized size fs h.1)

-- Sizes depend on the lengths alone.
pub AllSized-map :
    (size : ℕ) (fs gs : List Bytes)
    → map length fs ≡ map length gs
    → AllSized size gs
    → AllSized size fs
AllSized-map size [] gs e h = tt
AllSized-map size (f ∷ fs) [] e h = absurd (cc)
AllSized-map size (f ∷ fs) (g ∷ gs) e h =
    let first : length f ≡ length g = cc in
    let others : map length fs ≡ map length gs = cc in
    (first ∙ h.0, AllSized-map size fs gs others h.1)

module _ ⦃p : Primitives⦄ where
  open p use {Point, Scalar}

  -- The paths of the fragments: each has a first node, and other nodes after it.
  abbrev pub Route : Type 0
  Route = Owner Scalar × List (Owner Scalar)

  abbrev pub owners : Route → List (Owner Scalar)
  owners r = r.0 ∷ r.1

  abbrev pub path_of : Route → List (Node Point)
  path_of r = map node_of (owners r)

  abbrev pub keys_of : Route → List Scalar
  keys_of r = map (λ w. w.private_key) (owners r)

  -- No longer than the header has room for, and with addresses of 32 bytes.
  abbrev pub AllFit : Scylla → List Route → Type 0
  AllFit sc [] = Unit {0}
  AllFit sc (r ∷ rs) = (suc (length r.1) ≤ sc.max_path_length) × HasAddress r.1 × AllFit sc rs

  abbrev pub AllEndAt : Node Point → List Route → Type 0
  AllEndAt node [] = Unit {0}
  AllEndAt node (r ∷ rs) = (last (path_of r) ≡ some node) × AllEndAt node rs

  -- What the paths' last nodes get.
  pub arrivals : Scylla → List Route → List Bytes → Outcome Error (List ProcessedOnion)
  arrivals sc [] onions = ok []
  arrivals sc (r ∷ rs) [] = ok []
  arrivals sc (r ∷ rs) (onion ∷ onions) = do
    (metas, result) ← travel sc (keys_of r) onion
    others ← arrivals sc rs onions
    ok (result ∷ others)

-- The fragments of a set, numbered from `i`.
abbrev pub numbered : ℕ → ℕ → List Bytes → List ProcessedOnion
numbered set_id i [] = []
numbered set_id i (d ∷ ds) = fragment set_id i d ∷ numbered set_id (suc i) ds

module _ ⦃p : Primitives⦄ where
  open p use {Point, Scalar}

  -- The end of every path passes the test of `create_onions`.
  pub converge-AllEndAt :
      (laws : IsLawful p) (node : Node Point) (first : List (Node Point)) (rs : List Route)
      → last first ≡ some node
      → AllEndAt node rs
      → converge first (map path_of rs) ≡ true
  unfolding converge last_eq node_eq
  converge-AllEndAt laws node first [] e h = refl
  converge-AllEndAt laws node first (r ∷ rs) e h =
      rw (e, h.0, bytes_eq_refl node.address, laws.point_eq-refl node.public_key)
        (converge-AllEndAt laws node first rs e h.1)

-- The draws have the lengths that the code asks for.
pub record IsDrawn (draws : SendDraws) : Type 0 where
  pub randomness_length : length draws.randomness ≡ kappa
  pub set_id_length : length draws.frag_set_id ≡ kappa
  pub fills : (i k : ℕ) → length ((draws.wraps i).fill k) ≡ k
