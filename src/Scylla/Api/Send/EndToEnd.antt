-- ===== src/Scylla/Api/Send/EndToEnd.antt =====
-- From `create_onions` through the network to `defrag`, and the inputs that `create_onions` refuses.
use fragging.Common.{
  ℕ, zero, suc, ◌+◌, ◌*◌, ◌≤◌, ◌<◌, ◌^◌, ◌≡◌, refl, ap, ◌∙◌, List, [], ◌∷◌, ◌++◌, map, length,
  replicate, arith, append_assoc, length-append, length-replicate, length-map, take-append,
  drop-append, false, ok, slice-append, slice_from-append, eq→==, not_lt→ltb, flatten,
  from_be_bytes,
}
use fragging.Scylla.Primitives.{Primitives, IsLawful, Bytes}
use fragging.Scylla.Crypto.{Error, kappa, final_hop_meta_length}
use fragging.Scylla.Aont.{aont_inv}
use fragging.Scylla.Aont.RoundTrip.{aont-IsTransformed}
use fragging.Scylla.Onion.{Scylla, Node, zeros}
use fragging.Scylla.Api.{SendDraws, any_nonzero, create_some, create_onions, defrag}
use fragging.Scylla.Api.Send.{
  AllSized, all_sized-AllSized, AllSized-map, Route, path_of, AllFit, AllEndAt, converge-AllEndAt,
  arrivals, numbered, IsDrawn,
}
use fragging.Scylla.Api.Send.Parts.{parts-AllArrive}

any_nonzero-replicate : (n : ℕ) → any_nonzero (replicate n 0) ≡ false
unfolding any_nonzero replicate
any_nonzero-replicate zero = refl
any_nonzero-replicate (suc n) = any_nonzero-replicate n

sized_out :
    (size : ℕ) (parts : List Bytes) (n : ℕ) (fs : List Bytes)
    → map length parts ≡ n ∷ map length fs
    → n ≡ size
    → AllSized size fs
    → AllSized size parts
sized_out size [] n fs e h k = tt
sized_out size (x ∷ xs) n fs e h k =
    let first : length x ≡ n = cc in
    let others : map length xs ≡ map length fs = cc in (first ∙ h, AllSized-map size xs fs others k)

module _ ⦃p : Primitives⦄ where
  -- What `defrag` reads once the transform is undone.
  defrag-eq :
      (parts : List Bytes) (destination f : Bytes) (fs : List Bytes)
      → length destination ≡ final_hop_meta_length
      → aont_inv parts ≡ ok ((zeros kappa ++ (destination ++ f)) ∷ fs)
      → defrag parts ≡ ok (destination, f ++ flatten fs)
  unfolding defrag
  defrag-eq parts destination f fs h e =
      let head : Bytes = zeros kappa in
      let head_length = length-replicate {A = ℕ} kappa 0 in
      let body = destination ++ (f ++ flatten fs) in
      let whole : (head ++ (destination ++ f)) ++ flatten fs ≡ head ++ body =
        append_assoc head (destination ++ f) (flatten fs)
        ∙ ap (λ t. head ++ t) (append_assoc destination f (flatten fs)) in
      let address =
        slice-append {E = Error} 0 final_hop_meta_length [] destination (f ++ flatten fs) refl
          (omega arith) in
      let content =
        slice_from-append {E = Error} final_hop_meta_length destination (f ++ flatten fs) h in
      rw
        (
          e,
          whole,
          not_lt→ltb (length (head ++ body)) kappa
              (omega (arith, head_length, length-append head body)),
          take-append kappa head body head_length,
          any_nonzero-replicate kappa,
          drop-append kappa head body head_length,
          address,
          content,
        )
        refl

module _ ⦃p : Primitives⦄ (laws : IsLawful p) where
  open p use {Point, lioness_block}

  -- Where `max_path_length` is at most 2^26, so that the header's size does not wrap in a `u32`: paths of
  -- one to `max_path_length` nodes that all end at one node, as many as fragments, a
  -- destination of 32 bytes, a first fragment with room for the tag, the zeros and the destination,
  -- and other fragments of the payload size, which is above the cipher's block: then
  -- `create_onions` succeeds; every onion travels its path and arrives as a fragment with its index,
  -- all with one set id; and `defrag` of the arrived fragments gives the destination and the message.
  pub defrag-create_onions :
      (sc : Scylla) (draws : SendDraws) (r : Route) (rs : List Route) (node : Node Point)
      (destination f : Bytes) (fs : List Bytes)
      → length rs ≡ length fs
      → suc (length fs) ≤ 2 ^ 64
      → length destination ≡ final_hop_meta_length
      → length f + 2 * kappa + final_hop_meta_length ≡ sc.payload_size
      → AllSized sc.payload_size fs
      → lioness_block < sc.payload_size
      → AllFit sc (r ∷ rs)
      → AllEndAt node (r ∷ rs)
      → sc.max_path_length ≤ 2 ^ 26
      → IsDrawn draws
      → (onions : List Bytes) × (parts : List Bytes) × (create_onions sc draws
            (map path_of (r ∷ rs))
            destination
            (f ∷ fs)
          ≡ ok onions)
        × (arrivals sc (r ∷ rs) onions ≡ ok (numbered (from_be_bytes draws.frag_set_id) 0 parts))
        × (defrag parts ≡ ok (destination, flatten (f ∷ fs)))
  unfolding create_onions create_some
  defrag-create_onions sc draws r rs node destination f fs count few hd hf sized block fit ends low
        drawn =
      let first : Bytes = zeros kappa ++ (destination ++ f) in
      let first_length : length first ≡ length f + kappa + final_hop_meta_length = omega (
        arith,
        length-append (zeros kappa) (destination ++ f),
        length-append destination f,
        length-replicate {A = ℕ} kappa 0,
      ) in
      let t = aont-IsTransformed laws draws.randomness first fs drawn.randomness_length in
      let parts_sized : AllSized sc.payload_size t.out =
        sized_out sc.payload_size t.out (kappa + length first) fs t.lengths (omega arith) sized in
      let parts_count : length t.out ≡ suc (length fs) = omega (
        arith,
        ap length t.lengths,
        length-map t.out (length {A = ℕ}),
        length-map fs (length {A = ℕ}),
      ) in
      let a =
        parts-AllArrive laws sc draws drawn low sc.payload_size (r ∷ rs) 0 t.out (omega arith) fit
          parts_sized block (omega arith) in
      (
        a.onions,
        t.out,
        rw
            (
              eq→== (length fs) (length (map path_of rs)) (omega (arith, length-map rs path_of)),
              eq→== (length f + 2 * kappa + final_hop_meta_length) sc.payload_size hf,
              all_sized-AllSized sc.payload_size fs sized,
              converge-AllEndAt laws node (path_of r) rs ends.0 ends.1,
              t.returns,
              all_sized-AllSized sc.payload_size t.out parts_sized,
            )
            a.wraps,
        a.arrive_all,
        defrag-eq t.out destination f fs hd t.inverse,
      )
