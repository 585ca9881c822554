-- ===== src/Scylla/Onion/Size.antt =====
-- The size of what `wrap` and a relaying `process` hand on.
use fragging.Common.{
  ℕ, suc, ◌+◌, ◌≤◌, ◌^◌, ◌≡◌, ap, ◌∙◌, List, [], ◌∷◌, ◌++◌, map, length, arith, length-append,
  length-map, ok,
}
use fragging.Scylla.Primitives.{Primitives, IsLawful, Bytes}
use fragging.Scylla.Crypto.{kappa, alpha_len, reply_meta_length, h_mu, mu}
use fragging.Scylla.Crypto.Laws.{IsBlock, length-mu}
use fragging.Scylla.Onion.{Scylla, Draws, header_length, shared_secrets, wrap}
use fragging.Scylla.Onion.Process.{onion_of}
use fragging.Scylla.Onion.Journey.{Owner, node_of, HasAddress, first_onion}
use fragging.Scylla.Onion.Wrap.{wrap-IsWrapped, length-shared_secrets}

module _ ⦃p : Primitives⦄ (laws : IsLawful p) where
  open p use {Point, Scalar, compress}

  length-onion_of :
      (alpha s : Point) (beta payload : Bytes)
      → length (onion_of alpha s beta payload) ≡ alpha_len + length beta + kappa + length payload
  length-onion_of alpha s beta payload =
      let gamma = mu (h_mu s) beta in
      omega (
        arith,
        laws.length-compress alpha,
        length-mu laws (h_mu s) beta,
        length-append (compress alpha) (beta ++ (gamma ++ payload)),
        length-append beta (gamma ++ payload),
        length-append gamma payload,
      )

  length-first_onion :
      (alpha : Point) (ss : List Point) (beta payload : Bytes) (k : ℕ)
      → length ss ≡ suc k
      → length (first_onion alpha ss beta payload)
        ≡ alpha_len + length beta + kappa + length payload
  length-first_onion alpha [] beta payload k h = absurd (omega arith)
  length-first_onion alpha (s ∷ ss) beta payload k h = length-onion_of alpha s beta payload

  -- Where `max_path_length` is at most 2^26, so that the header's size does not wrap in a `u32`: for a
  -- path of one to `max_path_length` nodes with addresses of 32 bytes, final routing
  -- information of 52 bytes, and a payload that is empty or above the cipher's block, `wrap`
  -- succeeds with a secret for each node and an onion whose length is that of the point, the header,
  -- the MAC and the payload, whatever the length of the path.
  pub length-wrap :
      (sc : Scylla) (draws : Draws) (o : Owner Scalar) (os : List (Owner Scalar))
      (final_info payload : Bytes)
      → suc (length os) ≤ sc.max_path_length
      → sc.max_path_length ≤ 2 ^ 26
      → ((k : ℕ) → length (draws.fill k) ≡ k)
      → HasAddress os
      → length final_info ≡ reply_meta_length + 1
      → IsBlock laws payload
      → (secrets : List Point) × (onion : Bytes) × (wrap sc draws
            (map node_of (o ∷ os))
            final_info
            payload
          ≡ ok (secrets, onion))
        × (length secrets ≡ suc (length os))
        × (length onion ≡ alpha_len + header_length sc + kappa + length payload)
  length-wrap sc draws o os final_info payload short low fills has hf block =
      let w = wrap-IsWrapped laws sc draws o os final_info payload short low fills has hf block in
      let secret = p.from_bytes_mod_order_wide draws.wide in
      let alpha = p.base_mul secret in
      let secrets = shared_secrets (map node_of (o ∷ os)) alpha secret in
      let count : length secrets ≡ suc (length os) =
        length-shared_secrets (map node_of (o ∷ os)) alpha secret
        ∙ ap suc (length-map os node_of) in
      let size = length-first_onion alpha secrets w.beta w.wrapped (length os) count in
      (
        secrets,
        first_onion alpha secrets w.beta w.wrapped,
        w.returns,
        count,
        omega (arith, size, w.beta_length, w.wrapped_length),
      )
