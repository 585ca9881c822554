-- ===== src/Scylla/Onion/Header.antt =====
-- The header that `wrap` builds opens at every hop.
use fragging.Common.{
  ℕ, suc, ◌+◌, ◌-◌, ◌*◌, ◌≤◌, ◌≡◌, refl, sym, ap, ap₂, ◌∙◌, List, [], ◌∷◌, ◌++◌, append_assoc,
  length, drop, arith, length-append, length-drop, length-replicate, drop-append, drop-drop, xor,
  length-xor, xor_cancel, xor-append, xor-replicate_zero, drop-xor, Outcome, ok, eq→==,
}
use fragging.Scylla.Primitives.{Primitives, IsLawful, Bytes}
use fragging.Scylla.Crypto.{Error, per_hop_meta_length, reply_meta_length, h_rho, rho, h_mu, mu}
use fragging.Scylla.Crypto.Laws.{length-rho, rho-split, length-mu}
use fragging.Scylla.Onion.{Node, bytes_per_hop, zeros, relay_info, layers}
use fragging.Scylla.Onion.Filler.{filler, filler_step, length-filler_step}
use fragging.Scylla.Onion.Masks.{peel, keep, length-outer}

-- The last secret of a path.
abbrev pub final_secret : {A B : Type 0} → A → List (B × A) → A
final_secret s [] = s
final_secret s ((node, s') ∷ rest) = final_secret s' rest

module _ ⦃p : Primitives⦄ where
  open p use {Point}

  -- The header opens to `final_info` at the last hop, and to the relay information and the next
  -- header at each hop before it.
  abbrev pub Opens : ℕ → Point → List (Node Point × Point) → Bytes → Bytes → Type 0
  Opens n s [] final_info beta =
      (junk : Bytes) × (xor (beta ++ zeros bytes_per_hop) (rho (h_rho s) (n + bytes_per_hop))
        ≡ final_info ++ junk)
  Opens n s ((node, s') ∷ rest) final_info beta =
      (inner : Bytes) × (length inner ≡ n)
      × (xor (beta ++ zeros bytes_per_hop) (rho (h_rho s) (n + bytes_per_hop))
          ≡ relay_info node s' inner ++ inner)
      × Opens n s' rest final_info inner

  abbrev pub IsAddressed : List (Node Point × Point) → Type 0
  IsAddressed [] = Unit {0}
  IsAddressed ((node, s') ∷ rest) = (length node.address ≡ 32) × IsAddressed rest

module _ ⦃p : Primitives⦄ (laws : IsLawful p) where
  open p use {Point}

  -- The relay information is one hop long.
  length-relay_info :
      (node : Node Point) (s : Point) (beta : Bytes)
      → length node.address ≡ 32
      → length (relay_info node s beta) ≡ bytes_per_hop
  unfolding relay_info
  length-relay_info node s beta h =
      let pad : Bytes = zeros (per_hop_meta_length - 32) in
      omega (
        arith,
        length-append node.address (pad ++ mu (h_mu s) beta),
        length-append pad (mu (h_mu s) beta),
        length-replicate {A = ℕ} (per_hop_meta_length - 32) 0,
        length-mu laws (h_mu s) beta,
      )

  -- What `layers` returns: a header of the right length, that ends in the filler so far, and opens.
  pub record IsLayered (n i : ℕ) (acc : Bytes) (s : Point) (rest : List (Node Point × Point))
      (final_info : Bytes) (result : Outcome Error Bytes) : Type 0 where
    pub beta : Bytes
    pub returns : result ≡ ok beta
    pub beta_length : length beta ≡ n
    pub ends : drop (n - i * bytes_per_hop) beta ≡ acc
    pub opens : Opens n s rest final_info beta

  abbrev pub innermost : ℕ → Bytes → Bytes → Point → Bytes
  innermost n final_info padding s =
      xor final_info (rho (h_rho s) (reply_meta_length + 1)) ++ padding

  innermost-Opens :
      (n : ℕ) (final_info padding acc : Bytes) (s : Point)
      → length final_info ≡ reply_meta_length + 1
      → Opens n s [] final_info (innermost n final_info padding s ++ acc)
  innermost-Opens n final_info padding acc s hf =
      let key = h_rho s in
      let m : ℕ = reply_meta_length + 1 in
      let first = rho key m in
      let long : ℕ = n + bytes_per_hop - m in
      let later = drop m (rho key (m + long)) in
      let rest = (padding ++ acc) ++ zeros bytes_per_hop in
      let masked = xor final_info first in
      let same : length masked ≡ length first =
        omega (arith, length-xor final_info first, length-rho laws key m) in
      (
        xor rest later,
        ap₂ xor
              (ap (λ t. t ++ zeros bytes_per_hop) (append_assoc masked padding acc)
                ∙ append_assoc masked (padding ++ acc) (zeros bytes_per_hop))
              (ap (rho key) (omega arith) ∙ rho-split laws key m long)
            ∙ xor-append masked rest first later same
            ∙ ap (λ t. t ++ xor rest later)
                (xor_cancel final_info first (omega (arith, length-rho laws key m))),
      )

  module _ (n i : ℕ) (acc inner : Bytes) (s : Point) (room : suc i * bytes_per_hop ≤ n)
      (acc_length : length acc ≡ i * bytes_per_hop)
      (ends : drop (n - suc i * bytes_per_hop) inner ≡ filler_step n i acc s) where
    abbrev stream : Bytes
    stream = rho (h_rho s) (n + bytes_per_hop)

    -- The last hop's worth of `inner` is the continued keystream.
    ends-stream : drop (n - bytes_per_hop) inner ≡ drop n stream
    ends-stream =
        ap (λ (k : ℕ). drop k inner) (omega arith)
        ∙ sym (drop-drop (i * bytes_per_hop) (n - suc i * bytes_per_hop) inner)
        ∙ ap (drop (i * bytes_per_hop)) ends
        ∙ drop-xor (i * bytes_per_hop) (acc ++ zeros bytes_per_hop)
            (drop (n - i * bytes_per_hop) stream)
        ∙ ap₂ xor (drop-append (i * bytes_per_hop) acc (zeros bytes_per_hop) acc_length) (
            drop-drop (i * bytes_per_hop) (n - i * bytes_per_hop) stream
            ∙ ap (λ (k : ℕ). drop k stream) (omega arith))
        ∙ xor-replicate_zero bytes_per_hop (drop n stream)
            (omega (arith, length-drop n stream, length-rho laws (h_rho s) (n + bytes_per_hop)))

  -- Every layer of `layers` is right, by induction from the first hop to the last.
  pub layers-IsLayered :
      (n i : ℕ) (acc : Bytes) (s : Point) (rest : List (Node Point × Point))
      (final_info padding : Bytes)
      → IsAddressed rest
      → length final_info ≡ reply_meta_length + 1
      → length acc ≡ i * bytes_per_hop
      → (reply_meta_length + 1) + length padding + (i + length rest) * bytes_per_hop ≡ n
      → IsLayered n i acc s rest final_info (
          layers n s rest
            (innermost n final_info padding (final_secret s rest) ++ filler n i acc s rest))
  unfolding layers filler
  layers-IsLayered n i acc s [] final_info padding a hf ha hn =
      let masked = xor final_info (rho (h_rho s) (reply_meta_length + 1)) in
      let size : length masked ≡ reply_meta_length + 1 = omega (
        arith,
        length-xor final_info (rho (h_rho s) (reply_meta_length + 1)),
        length-rho laws (h_rho s) (reply_meta_length + 1),
      ) in
      let whole : length (innermost n final_info padding s) ≡ n - i * bytes_per_hop =
        omega (arith, size, length-append masked padding) in
      record {
        beta = innermost n final_info padding s ++ acc;
        returns = refl;
        beta_length = omega (arith, whole, length-append (innermost n final_info padding s) acc);
        ends = drop-append (n - i * bytes_per_hop) (innermost n final_info padding s) acc whole;
        opens = innermost-Opens n final_info padding acc s hf;
      }
  layers-IsLayered n i acc s ((node, s') ∷ rest) final_info padding a hf ha hn =
      let ih =
        layers-IsLayered n (suc i) (filler_step n i acc s) s' rest final_info padding a.1 hf
          (length-filler_step laws n i acc s (omega arith) ha) (omega arith) in
      let info = relay_info node s' ih.beta in
      let key = h_rho s in
      let mask = rho key n in
      let more = drop n (rho key (n + bytes_per_hop)) in
      let split = rho-split laws key n bytes_per_hop in
      let mask_n = length-rho laws key n in
      let more_c : length more ≡ bytes_per_hop = omega (
        arith,
        length-drop n (rho key (n + bytes_per_hop)),
        length-rho laws key (n + bytes_per_hop),
      ) in
      let info_c = length-relay_info node s' ih.beta a.0 in
      let room : suc i * bytes_per_hop ≤ n = omega arith in
      let c_le : bytes_per_hop ≤ n = omega arith in
      let size =
        length-outer n bytes_per_hop mask more info ih.beta mask_n more_c info_c ih.beta_length
          c_le in
      record {
        beta = xor (info ++ ih.beta) mask;
        returns = rw (ih.returns, eq→== (length (xor (info ++ ih.beta) mask)) n size) refl;
        beta_length = size;
        ends =
            keep n bytes_per_hop mask more info ih.beta mask_n more_c info_c ih.beta_length c_le
              (n - i * bytes_per_hop) acc (omega arith) (omega arith)
              (ap (λ (k : ℕ). drop k ih.beta) (omega arith)
                ∙ ih.ends
                ∙ ap (λ t. xor (acc ++ zeros bytes_per_hop) (drop (n - i * bytes_per_hop) t))
                    split);
        opens = (
          ih.beta,
          ih.beta_length,
          ap (xor (xor (info ++ ih.beta) mask ++ zeros bytes_per_hop)) split
              ∙ peel n bytes_per_hop mask more info ih.beta mask_n more_c info_c ih.beta_length c_le
                  (ends-stream n i acc ih.beta s room ha ih.ends),
          ih.opens,
        );
      }
