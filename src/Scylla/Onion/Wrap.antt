-- ===== src/Scylla/Onion/Wrap.antt =====
-- `wrap` succeeds for a path of at most `max_path_length` hops, and what it builds opens along it.
use fragging.Common.{
  zip, ℕ, suc, ◌+◌, ◌-◌, ◌*◌, ◌^◌, ◌≤◌, ◌≡◌, refl, sym, ap, ◌∙◌, List, [], ◌∷◌, ◌++◌, map, length,
  arith, length-map, length-append, length-xor, xor, Outcome, ok, some, le→leb, eq→==,
}
use fragging.Scylla.Primitives.{Primitives, IsLawful, Bytes}
use fragging.Scylla.Crypto.{Error, reply_meta_length, h_b, h_rho, rho}
use fragging.Scylla.Crypto.Laws.{IsBlock, length-rho}
use fragging.Scylla.Onion.{
  Scylla, Node, Draws, bytes_per_hop, header_length, last, shared_secrets, from_private_key, build,
  wrap, tail, filler_loop,
}
use fragging.Scylla.Onion.Filler.{front, drop_last-front, filler, filler_loop-filler, length-filler}
use fragging.Scylla.Onion.Header.{Opens, IsAddressed, final_secret, innermost, layers-IsLayered}
use fragging.Scylla.Onion.Payload.{decrypt_layers, encrypt_layers-IsRestored}
use fragging.Scylla.Onion.Process.{onion_of}
use fragging.Scylla.Onion.Journey.{Owner, node_of, HasAddress, OpensAt, first_onion}

-- In range the `u32` arithmetic does not wrap.
pub header_length_lem :
    (sc : Scylla)
    → 1 ≤ sc.max_path_length
    → sc.max_path_length ≤ 2 ^ 26
    → header_length sc ≡ bytes_per_hop * (sc.max_path_length - 1) + (reply_meta_length + 1)
unfolding header_length
header_length_lem sc h k = omega arith

zip-snd :
    {A B : Type 0} (xs : List A) (ys : List B)
    → length xs ≡ length ys
    → map (λ h. h.1) (zip xs ys) ≡ ys
unfolding zip
zip-snd [] [] h = refl
zip-snd [] (y ∷ ys) h = absurd (omega arith)
zip-snd (x ∷ xs) [] h = absurd (omega arith)
zip-snd (x ∷ xs) (y ∷ ys) h = ap (λ t. y ∷ t) (zip-snd xs ys (omega arith))

length-zip :
    {A B : Type 0} (xs : List A) (ys : List B)
    → length xs ≡ length ys
    → length (zip xs ys) ≡ length xs
unfolding zip
length-zip [] [] h = refl
length-zip [] (y ∷ ys) h = absurd (omega arith)
length-zip (x ∷ xs) [] h = absurd (omega arith)
length-zip (x ∷ xs) (y ∷ ys) h = ap suc (length-zip xs ys (omega arith))

last-zip :
    {A B : Type 0} (s : B) (xs : List A) (ys : List B)
    → length xs ≡ length ys
    → last (s ∷ ys) ≡ some (final_secret s (zip xs ys))
unfolding zip last
last-zip s [] [] h = refl
last-zip s [] (y ∷ ys) h = absurd (omega arith)
last-zip s (x ∷ xs) [] h = absurd (omega arith)
last-zip s (x ∷ xs) (y ∷ ys) h = last-zip y xs ys (omega arith)

module _ ⦃p : Primitives⦄ where
  open p use {Point, Scalar, base_mul}

  pub length-shared_secrets :
      (path : List (Node Point)) (alpha : Point) (factor : Scalar)
      → length (shared_secrets path alpha factor) ≡ length path
  unfolding shared_secrets
  length-shared_secrets [] alpha factor = refl
  length-shared_secrets (node ∷ path) alpha factor = ap suc (
      length-shared_secrets path
        (p.point_mul alpha (h_b alpha (p.point_mul node.public_key factor)))
        (p.scalar_mul factor (h_b alpha (p.point_mul node.public_key factor))))

  zip-IsAddressed :
      (os : List (Owner Scalar)) (ss : List Point)
      → HasAddress os
      → IsAddressed (zip (map node_of os) ss)
  unfolding zip from_private_key
  zip-IsAddressed [] ss h = tt
  zip-IsAddressed (o ∷ os) [] h = tt
  zip-IsAddressed (o ∷ os) (s ∷ ss) h = (h.0, zip-IsAddressed os ss h.1)

  -- What `build` returns for given secrets.
  pub record IsBuilt (sc : Scylla) (alpha s : Point) (rest : List (Node Point × Point))
      (ss : List Point) (final_info payload : Bytes) (result : Outcome Error Bytes) : Type 0 where
    pub beta : Bytes
    pub wrapped : Bytes
    pub returns : result ≡ ok (onion_of alpha s beta wrapped)
    pub beta_length : length beta ≡ header_length sc
    pub wrapped_length : length wrapped ≡ length payload
    pub opens : Opens (header_length sc) s rest final_info beta
    pub decrypts : decrypt_layers (s ∷ ss) wrapped ≡ ok payload

  -- What `wrap` returns, seen from the path: the secrets, and an onion whose header opens to
  -- `final_info` and whose payload the hops decrypt to `payload`.
  pub record IsWrapped (sc : Scylla) (draws : Draws) (os : List (Owner Scalar))
      (final_info payload : Bytes) (result : Outcome Error (List Point × Bytes)) : Type 0 where
    pub beta : Bytes
    pub wrapped : Bytes
    pub returns :
        let secret = p.from_bytes_mod_order_wide draws.wide in
        let secrets = shared_secrets (map node_of os) (base_mul secret) secret in
        result ≡ ok (secrets, first_onion (base_mul secret) secrets beta wrapped)
    pub beta_length : length beta ≡ header_length sc
    pub wrapped_length : length wrapped ≡ length payload
    pub opens :
        let secret = p.from_bytes_mod_order_wide draws.wide in
        OpensAt sc
          (shared_secrets (map node_of os) (base_mul secret) secret)
          (tail os)
          final_info
          beta
    pub decrypts :
        let secret = p.from_bytes_mod_order_wide draws.wide in
        decrypt_layers (shared_secrets (map node_of os) (base_mul secret) secret) wrapped
        ≡ ok payload

module _ ⦃p : Primitives⦄ (laws : IsLawful p) where
  open p use {Point, Scalar, base_mul}

  build-IsBuilt :
      (sc : Scylla) (draws : Draws) (node : Node Point) (path : List (Node Point)) (alpha s : Point)
      (ss : List Point) (final_info payload : Bytes)
      → suc (length path) ≤ sc.max_path_length
      → sc.max_path_length ≤ 2 ^ 26
      → ((k : ℕ) → length (draws.fill k) ≡ k)
      → length path ≡ length ss
      → IsAddressed (zip path ss)
      → length final_info ≡ reply_meta_length + 1
      → IsBlock laws payload
      → IsBuilt sc alpha s
          (zip path ss)
          ss
          final_info
          payload
          (build sc draws (node ∷ path) alpha (s ∷ ss) final_info payload)
  unfolding build
  build-IsBuilt sc draws node path alpha s ss final_info payload short low fills same addressed hf
        block =
      let n = header_length sc in
      let rest = zip path ss in
      let rest_length : length rest ≡ length path = length-zip path ss same in
      let hn = header_length_lem sc (omega arith) low in
      let padding = draws.fill ((sc.max_path_length - suc (length path)) * bytes_per_hop) in
      let pad_length = fills ((sc.max_path_length - suc (length path)) * bytes_per_hop) in
      let end = final_secret s rest in
      let f = filler n 0 [] s rest in
      let f_ok : filler_loop n 0 [] (front s ss) ≡ ok f =
        ap (λ t. filler_loop n 0 [] (front s t)) (sym (zip-snd path ss same))
        ∙ filler_loop-filler laws n 0 [] s rest (omega arith) in
      let f_length = length-filler laws n 0 [] s rest (omega arith) (omega arith) in
      let stream = rho (h_rho end) (reply_meta_length + 1) in
      let inner = innermost laws n final_info padding end in
      let whole : length (inner ++ f) ≡ n = omega (
        arith,
        length-append inner f,
        length-append (xor final_info stream) padding,
        length-xor final_info stream,
        length-rho laws (h_rho end) (reply_meta_length + 1),
        f_length,
      ) in
      let l =
        layers-IsLayered laws n 0 [] s rest final_info padding addressed hf (omega arith)
          (omega arith) in
      let e = encrypt_layers-IsRestored laws (s ∷ ss) payload block in
      record {
        beta = l.beta;
        wrapped = e.out;
        returns =
            rw
              (
                drop_last-front s ss,
                f_ok,
                last-zip s path ss same,
                le→leb (suc (length path)) sc.max_path_length short,
                eq→== (length (inner ++ f)) n whole,
                l.returns,
                e.returns,
              )
              refl;
        beta_length = l.beta_length;
        wrapped_length = e.same_length;
        opens = l.opens;
        decrypts = e.restored;
      }

  -- For a path of one to `max_path_length` nodes with addresses of 32 bytes, `wrap` succeeds.
  pub wrap-IsWrapped :
      (sc : Scylla) (draws : Draws) (o : Owner Scalar) (os : List (Owner Scalar))
      (final_info payload : Bytes)
      → suc (length os) ≤ sc.max_path_length
      → sc.max_path_length ≤ 2 ^ 26
      → ((k : ℕ) → length (draws.fill k) ≡ k)
      → HasAddress os
      → length final_info ≡ reply_meta_length + 1
      → IsBlock laws payload
      → IsWrapped sc draws
          (o ∷ os)
          final_info
          payload
          (wrap sc draws (map node_of (o ∷ os)) final_info payload)
  unfolding wrap shared_secrets
  wrap-IsWrapped sc draws o os final_info payload short low fills has hf block =
      let factor = p.from_bytes_mod_order_wide draws.wide in
      let alpha = base_mul factor in
      let s = p.point_mul (node_of o).public_key factor in
      let blinding = h_b alpha s in
      let path = map node_of os in
      let ss = shared_secrets path (p.point_mul alpha blinding) (p.scalar_mul factor blinding) in
      let count = length-map os node_of in
      let same : length path ≡ length ss =
        sym (
          length-shared_secrets path (p.point_mul alpha blinding) (p.scalar_mul factor blinding)) in
      let b =
        build-IsBuilt sc draws (node_of o) path alpha s ss final_info payload (omega (arith, count))
          low fills same (zip-IsAddressed os ss has) hf block in
      record {
        beta = b.beta;
        wrapped = b.wrapped;
        returns = rw b.returns refl;
        beta_length = b.beta_length;
        wrapped_length = b.wrapped_length;
        opens = b.opens;
        decrypts = b.decrypts;
      }
