-- ===== src/Scylla/Api/Checks.antt =====
-- What `create_onions` of scylla/src/lib.rs has checked when it returns onions, and what it refuses.
use fragging.Common.{
  ℕ, ◌+◌, ◌*◌, ◌≡◌, List, [], ◌∷◌, length, ok, err, ensure-eq-ok, inl, inr, ==→eq, Bool-cases, true,
  false, ◌==◌,
}
use fragging.Scylla.Primitives.{Primitives, Bytes}
use fragging.Scylla.Crypto.{
  invalid_fragment_size, invalid_path_count, diverging_paths, kappa, final_hop_meta_length,
}
use fragging.Scylla.Onion.{Scylla, Node, last}
use fragging.Scylla.Api.{SendDraws, all_sized, last_eq, converge, create_some, create_onions}
use fragging.Scylla.Api.Send.{AllSized}

AllSized-of : (size : ℕ) (fs : List Bytes) → all_sized size fs ≡ true → AllSized size fs
unfolding all_sized
AllSized-of size [] h = tt
AllSized-of size (f ∷ fs) h = elim (Bool-cases (length f == size)) [
  | inl same ↦ (==→eq (length f) size same, AllSized-of size fs (rw same at h))
  | inr differ ↦ absurd (let e : false ≡ true = rw differ at h in cc)
]

module _ ⦃p : Primitives⦄ where
  open p use {Point}

  -- Every path ends where `first` ends, by the comparison of nodes.
  abbrev pub AllConverge : List (Node Point) → List (List (Node Point)) → Type 0
  AllConverge first [] = Unit {0}
  AllConverge first (path ∷ paths) =
      (last_eq (last path) (last first) ≡ true) × AllConverge first paths

  AllConverge-of :
      (first : List (Node Point)) (paths : List (List (Node Point)))
      → converge first paths ≡ true
      → AllConverge first paths
  unfolding converge
  AllConverge-of first [] h = tt
  AllConverge-of first (path ∷ paths) h = elim (Bool-cases (last_eq (last path) (last first))) [
    | inl same ↦ (same, AllConverge-of first paths (rw same at h))
    | inr differ ↦ absurd (let e : false ≡ true = rw differ at h in cc)
  ]

  -- What `create_some` has checked.
  checked :
      (sc : Scylla) (draws : SendDraws) (path : List (Node Point))
      (paths : List (List (Node Point))) (destination f : Bytes) (fs onions : List Bytes)
      → create_some sc draws path paths destination f fs ≡ ok onions
      → (length f + 2 * kappa + final_hop_meta_length ≡ sc.payload_size)
        × AllSized sc.payload_size fs
        × AllConverge path paths
  unfolding create_some
  checked sc draws path paths destination f fs onions h =
      let size = sc.payload_size in
      let (first, h') =
        ensure-eq-ok (length f + 2 * kappa + final_hop_meta_length == size) invalid_fragment_size _
          h in
      let (others, h'') = ensure-eq-ok (all_sized size fs) invalid_fragment_size _ h' in
      let (ends, _) = ensure-eq-ok (converge path paths) diverging_paths _ h'' in
      (
        ==→eq (length f + 2 * kappa + final_hop_meta_length) size first,
        AllSized-of size fs others,
        AllConverge-of path paths ends,
      )

  -- If `create_onions` returns onions for at least one path and one fragment, there are as many paths
  -- as fragments, the first fragment leaves exactly the room of the tag, the zeros and the destination,
  -- the others are of the payload size, and every path ends at the node where the first one ends.
  pub create_onions-Checked :
      (sc : Scylla) (draws : SendDraws) (path : List (Node Point))
      (paths : List (List (Node Point))) (destination f : Bytes) (fs onions : List Bytes)
      → create_onions sc draws (path ∷ paths) destination (f ∷ fs) ≡ ok onions
      → (length fs ≡ length paths)
        × (length f + 2 * kappa + final_hop_meta_length ≡ sc.payload_size)
        × AllSized sc.payload_size fs
        × AllConverge path paths
  unfolding create_onions
  create_onions-Checked sc draws path paths destination f fs onions h =
      elim (Bool-cases (length fs == length paths)) [
        | inl same ↦
            let (first, others, ends) =
              checked sc draws path paths destination f fs onions (rw same at h) in
            (==→eq (length fs) (length paths) same, first, others, ends)
        | inr differ ↦ absurd (let e : err invalid_path_count ≡ ok onions = rw differ at h in cc)
      ]
