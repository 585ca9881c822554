-- ===== src/Scylla/Api/Send/Parts.antt =====
-- Each fragment travels to the end of its path.
use fragging.Common.{
  ℕ, suc, ◌+◌, ◌-◌, ◌*◌, ◌≤◌, ◌<◌, ◌^◌, ◌≡◌, refl, ap, ◌∙◌, List, [], ◌∷◌, ◌++◌, map, length, arith,
  length-append, length-replicate, length-to_be_bytes, from_be_bytes, to_be_bytes,
  from_be_bytes-to_be_bytes, from_be_bytes-replicate_zero, ok, inr,
}
use native.Mathlib.Numerals.{add-one}
use fragging.Scylla.Primitives.{Primitives, IsLawful, Bytes}
use fragging.Scylla.Crypto.{kappa, reply_meta_length, h_pi, pi_inv}
use fragging.Scylla.Onion.{Scylla, fragment, zeros, bytes_per_hop, wrap, header_length}
use fragging.Scylla.Onion.Process.{routing_of, finish, finish-fragment}
use fragging.Scylla.Onion.Journey.{HasAddress, travel, relay_meta, travel-first_onion}
use fragging.Scylla.Onion.Wrap.{wrap-IsWrapped}
use fragging.Scylla.Api.{SendDraws, fragment_info, wrap_all}
use fragging.Scylla.Api.Send.{
  AllSized, Route, path_of, keys_of, AllFit, arrivals, numbered, IsDrawn,
}

index_length : (i : ℕ) → length (zeros (kappa - 8) ++ to_be_bytes 8 i) ≡ kappa
index_length i = omega (
  arith,
  length-append (zeros (kappa - 8)) (to_be_bytes 8 i),
  length-replicate {A = ℕ} (kappa - 8) 0,
  length-to_be_bytes 8 i,
)

index_back : (i : ℕ) → i < 256 ^ 8 → from_be_bytes (zeros (kappa - 8) ++ to_be_bytes 8 i) ≡ i
index_back i h =
    from_be_bytes-replicate_zero (kappa - 8) (to_be_bytes 8 i) ∙ from_be_bytes-to_be_bytes 8 i h

module _ ⦃p : Primitives⦄ (laws : IsLawful p) (sc : Scylla) (draws : SendDraws)
    (drawn : IsDrawn draws) (low : sc.max_path_length ≤ 2 ^ 26) where
  open p use {Point, Scalar, base_mul, lioness_block}

  abbrev set_id : ℕ
  set_id = from_be_bytes draws.frag_set_id

  abbrev info_of : ℕ → Bytes
  info_of i = fragment_info i draws.frag_set_id

  info_length : (i : ℕ) → length (info_of i) ≡ reply_meta_length + 1
  unfolding fragment_info
  info_length i =
      let index : Bytes = zeros (kappa - 8) ++ to_be_bytes 8 i in
      let pad : Bytes = zeros (reply_meta_length - 2 * kappa) in
      omega (
        arith,
        index_length i,
        drawn.set_id_length,
        length-replicate {A = ℕ} (reply_meta_length - 2 * kappa) 0,
        length-append index (draws.frag_set_id ++ pad),
        length-append draws.frag_set_id pad,
      )

  arrive :
      (i : ℕ)
      → i < 256 ^ 8
      → (alpha s : Point) (beta payload plain junk key : Bytes)
      → bytes_per_hop ≤ reply_meta_length + 1 + length junk
      → h_pi s ≡ ok key
      → pi_inv key payload ≡ ok plain
      → routing_of (header_length sc) s beta ≡ info_of i ++ junk
      → finish alpha s (routing_of (header_length sc) s beta) payload ≡ ok (fragment set_id i plain)
  unfolding fragment_info
  arrive i small alpha s beta payload plain junk key room k d e =
      let pad : Bytes = zeros (reply_meta_length - 2 * kappa) in
      finish-fragment laws (header_length sc) alpha s beta payload plain
        (zeros (kappa - 8) ++ to_be_bytes 8 i) draws.frag_set_id pad junk (index_length i)
        drawn.set_id_length (length-replicate {A = ℕ} (reply_meta_length - 2 * kappa) 0) room k d e
      ∙ ap (λ (j : ℕ). ok (fragment set_id j plain)) (index_back i small)

  -- One fragment: it is wrapped, and travels to the end of its path.
  pub record Arrives (r : Route) (i : ℕ) (part : Bytes) : Type 0 where
    pub secrets : List Point
    pub onion : Bytes
    pub wraps : wrap sc (draws.wraps i) (path_of r) (info_of i) part ≡ ok (secrets, onion)
    pub travels : travel sc (keys_of r) onion ≡ ok (map relay_meta r.1, fragment set_id i part)

  part-Arrives :
      (r : Route) (i : ℕ) (part : Bytes)
      → suc (length r.1) ≤ sc.max_path_length
      → HasAddress r.1
      → lioness_block < length part
      → i < 256 ^ 8
      → Arrives r i part
  part-Arrives (o, os) i part short has block small =
      let d = draws.wraps i in
      let w =
        wrap-IsWrapped laws sc d o os (info_of i) part short low (drawn.fills i) has (info_length i)
          (inr block) in
      let factor = p.from_bytes_mod_order_wide d.wide in
      record {
        secrets = _;
        onion = _;
        wraps = w.returns;
        travels =
            travel-first_onion laws sc (info_of i) (fragment set_id i) (info_length i)
              (λ next d. refl) (arrive i small) os o (base_mul factor) factor w.beta w.wrapped part
              refl has w.beta_length w.opens w.decrypts;
      }

  -- All fragments, numbered from `i`.
  pub record AllArrive (rs : List Route) (i : ℕ) (parts : List Bytes) : Type 0 where
    pub onions : List Bytes
    pub wraps : wrap_all sc draws i (map path_of rs) parts ≡ ok onions
    pub arrive_all : arrivals sc rs onions ≡ ok (numbered set_id i parts)

  pub parts-AllArrive :
      (size : ℕ) (rs : List Route) (i : ℕ) (parts : List Bytes)
      → length rs ≡ length parts
      → AllFit sc rs
      → AllSized size parts
      → lioness_block < size
      → i + length parts ≤ 256 ^ 8
      → AllArrive rs i parts
  unfolding wrap_all arrivals
  parts-AllArrive size [] i [] same fit sized block small = record {
    onions = [];
    wraps = refl;
    arrive_all = refl;
  }
  parts-AllArrive size [] i (d ∷ ds) same fit sized block small = absurd (omega arith)
  parts-AllArrive size (r ∷ rs) i [] same fit sized block small = absurd (omega arith)
  parts-AllArrive size (r ∷ rs) i (d ∷ ds) same fit sized block small =
      let a = part-Arrives r i d fit.0 fit.1 (omega (arith, sized.0)) (omega arith) in
      let ih = parts-AllArrive size rs (suc i) ds (omega arith) fit.2 sized.1 block (omega arith) in
      record {
        onions = a.onion ∷ ih.onions;
        wraps = rw (a.wraps, add-one i, ih.wraps) refl;
        arrive_all = rw (a.travels, ih.arrive_all) refl;
      }
