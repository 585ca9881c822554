-- ===== src/Scylla/Onion/Process.antt =====
-- What `process` does with an onion whose MAC is right, and with each kind of routing information.
use fragging.Common.{
  ℕ, ◌+◌, ◌-◌, ◌*◌, ◌≤◌, ◌≡◌, refl, sym, ap, ◌∙◌, [], ◌∷◌, ◌++◌, append_assoc, length, take, drop,
  arith, length-append, length-replicate, take-append_ge, Outcome, ok, err, ensure, ◌>>=◌, ◌>>◌,
  slice, bytes_eq, bytes_eq-differ, slice_from, slice-append, slice_from-append, slice_le, xor,
  bytes_eq_refl, from_be_bytes,
}
use fragging.Scylla.Primitives.{Primitives, IsLawful, Bytes}
use fragging.Scylla.Crypto.{
  Error, mac_mismatch, Flag, flag_byte, kappa, alpha_len, per_hop_meta_length, reply_meta_length,
  h_b, h_rho, rho, h_mu, mu, h_pi, pi_inv,
}
use fragging.Scylla.Crypto.Laws.{length-mu}
use fragging.Scylla.Onion.{
  Scylla, Node, ProcessedOnion, relay, fragment, reply, bytes_per_hop, zeros, header_length,
  relay_info, relay_arm, fragment_arm, reply_arm, dispatch, process,
}

module _ ⦃p : Primitives⦄ where
  open p use {Point, Scalar, compress, point_mul}

  -- The four parts of an onion, with the MAC that its first hop computes.
  abbrev pub onion_of : Point → Point → Bytes → Bytes → Bytes
  onion_of alpha s beta payload = compress alpha ++ (beta ++ (mu (h_mu s) beta ++ payload))

  -- The routing information of a header.
  abbrev pub routing_of : ℕ → Point → Bytes → Bytes
  routing_of n s beta = xor (beta ++ zeros bytes_per_hop) (rho (h_rho s) (n + bytes_per_hop))

  -- What is left to do behind the MAC check.
  abbrev pub finish : Point → Point → Bytes → Bytes → Outcome Error ProcessedOnion
  finish alpha s routing payload = do
    info ← slice 0 bytes_per_hop routing
    key ← h_pi s
    plain ← pi_inv key payload
    dispatch alpha s info routing plain

module _ ⦃p : Primitives⦄ (laws : IsLawful p) where
  open p use {Point, Scalar, compress, point_mul}

  -- The header's parts as `process` reads them, for any 16 bytes in the place of the MAC.
  process-parts :
      (sc : Scylla) (private_key : Scalar) (alpha : Point) (beta gamma payload : Bytes)
      → length beta ≡ header_length sc
      → length gamma ≡ kappa
      → let s = point_mul alpha private_key in
        process sc private_key (compress alpha ++ (beta ++ (gamma ++ payload))) ≡ (
          ensure (bytes_eq gamma (mu (h_mu s) beta)) mac_mismatch
          >> finish alpha s (routing_of (header_length sc) s beta) payload)
  unfolding process
  process-parts sc private_key alpha beta gamma payload h gamma_length =
      let n = header_length sc in
      let c = compress alpha in
      let c_length = laws.length-compress alpha in
      let onion : Bytes = c ++ (beta ++ (gamma ++ payload)) in
      let first =
        slice-append {E = Error} 0 alpha_len [] c (beta ++ (gamma ++ payload)) refl (omega arith) in
      let second =
        slice-append {E = Error} alpha_len (alpha_len + n) c beta (gamma ++ payload) c_length
          (omega arith) in
      let third : slice {E = Error} (alpha_len + n) (alpha_len + n + kappa) onion ≡ ok gamma =
        ap (slice (alpha_len + n) (alpha_len + n + kappa))
          (sym (append_assoc c beta (gamma ++ payload)))
        ∙ slice-append (alpha_len + n) (alpha_len + n + kappa) (c ++ beta) gamma payload
            (omega (arith, length-append c beta)) (omega arith) in
      let fourth : slice_from {E = Error} (alpha_len + n + kappa) onion ≡ ok payload =
        ap (slice_from (alpha_len + n + kappa)) (
          sym (append_assoc c beta (gamma ++ payload))
          ∙ sym (append_assoc (c ++ beta) gamma payload))
        ∙ slice_from-append (alpha_len + n + kappa) ((c ++ beta) ++ gamma) payload
            (omega (arith, length-append (c ++ beta) gamma, length-append c beta)) in
      rw (first, laws.decompress-compress alpha, second, third, fourth) refl

  pub process-onion_of :
      (sc : Scylla) (private_key : Scalar) (alpha : Point) (beta payload : Bytes)
      → length beta ≡ header_length sc
      → let s = point_mul alpha private_key in
        process sc private_key (onion_of alpha s beta payload)
        ≡ finish alpha s (routing_of (header_length sc) s beta) payload
  process-onion_of sc private_key alpha beta payload h =
      let s = point_mul alpha private_key in
      let gamma = mu (h_mu s) beta in
      rw
        (
          process-parts sc private_key alpha beta gamma payload h (length-mu laws (h_mu s) beta),
          bytes_eq_refl gamma,
        )
        refl

  -- An onion that has a valid point, a header of the right length and 16 bytes for the MAC: if these
  -- differ from the MAC of the header under the node's secret, `process` fails with `mac_mismatch`,
  -- whatever the header and the payload hold.
  pub process-mac_mismatch :
      (sc : Scylla) (private_key : Scalar) (alpha : Point) (beta gamma payload : Bytes)
      → length beta ≡ header_length sc
      → length gamma ≡ kappa
      → ¬ (gamma ≡ mu (h_mu (point_mul alpha private_key)) beta)
      → process sc private_key (compress alpha ++ (beta ++ (gamma ++ payload))) ≡ err mac_mismatch
  process-mac_mismatch sc private_key alpha beta gamma payload h k differ =
      let s = point_mul alpha private_key in
      rw
        (
          process-parts sc private_key alpha beta gamma payload h k,
          bytes_eq-differ gamma (mu (h_mu s) beta) differ,
        )
        refl

  -- At a hop before the last: the meta data holds the next address, and what is sent on is again an
  -- onion, with the blinded point and the MAC that the next hop expects.
  pub finish-relay :
      (n : ℕ) (alpha s s' : Point) (node : Node Point) (beta inner payload plain : Bytes)
      {key : Bytes}
      → length node.address ≡ 32
      → h_pi s ≡ ok key
      → pi_inv key payload ≡ ok plain
      → routing_of n s beta ≡ relay_info node s' inner ++ inner
      → finish alpha s (routing_of n s beta) payload
        ≡ ok (
            relay
              (node.address ++ zeros (per_hop_meta_length - 32))
              (onion_of (point_mul alpha (h_b alpha s)) s' inner plain))
  unfolding dispatch relay_arm relay_info
  finish-relay n alpha s s' node beta inner payload plain h k d e =
      let a = node.address in
      let pad : Bytes = zeros (per_hop_meta_length - 32) in
      let mac = mu (h_mu s') inner in
      let info = relay_info node s' inner in
      let pad_length = length-replicate {A = ℕ} (per_hop_meta_length - 32) 0 in
      let mac_length = length-mu laws (h_mu s') inner in
      let meta_length = length-append a pad in
      let info_length : length info ≡ bytes_per_hop =
        omega (arith, length-append a (pad ++ mac), length-append pad mac, pad_length) in
      let one : Bytes = flag_byte Flag.relay ∷ [] in
      let regroup : info ≡ one ++ ((a ++ pad) ++ mac) =
        ap (λ t. one ++ t) (sym (append_assoc a pad mac)) in
      let cut =
        slice-append {E = Error} 0 bytes_per_hop [] info inner refl (omega (arith, info_length)) in
      let meta : slice {E = Error} 1 (1 + per_hop_meta_length) info ≡ ok (a ++ pad) =
        ap (slice 1 (1 + per_hop_meta_length)) regroup
        ∙ slice-append 1 (1 + per_hop_meta_length) one (a ++ pad) mac refl
            (omega (arith, pad_length, meta_length)) in
      let next_mac : slice_from {E = Error} (1 + per_hop_meta_length) info ≡ ok mac =
        ap (slice_from (1 + per_hop_meta_length))
          (ap (λ t. one ++ t) (sym (append_assoc a pad mac)))
        ∙ slice_from-append (1 + per_hop_meta_length) (one ++ (a ++ pad)) mac
            (omega (arith, pad_length, meta_length)) in
      let rest = slice_from-append {E = Error} bytes_per_hop info inner info_length in
      rw (e, cut, k, d, meta, next_mac, rest) refl

  -- The first hop's worth of routing information that begins with the final one.
  final_cut :
      (final_info junk : Bytes)
      → length final_info ≡ reply_meta_length + 1
      → bytes_per_hop ≤ length final_info + length junk
      → (tail : Bytes) × (slice {E = Error} 0 bytes_per_hop (final_info ++ junk)
          ≡ ok (final_info ++ tail))
  final_cut final_info junk h k = (
    take (bytes_per_hop - length final_info) junk,
    slice_le 0 bytes_per_hop (final_info ++ junk) (omega arith)
          (omega (arith, length-append final_info junk))
        ∙ ap ok (unfold drop in take-append_ge bytes_per_hop final_info junk (omega arith)),
  )

  -- At the last hop of a message: the fragment's index and set, and the plain payload.
  pub finish-fragment :
      (n : ℕ) (alpha s : Point) (beta payload plain index set_id pad junk : Bytes) {key : Bytes}
      → length index ≡ kappa
      → length set_id ≡ kappa
      → length pad ≡ reply_meta_length - 2 * kappa
      → bytes_per_hop ≤ reply_meta_length + 1 + length junk
      → h_pi s ≡ ok key
      → pi_inv key payload ≡ ok plain
      → routing_of n s beta ≡ (flag_byte Flag.fragment ∷ (index ++ (set_id ++ pad))) ++ junk
      → finish alpha s (routing_of n s beta) payload
        ≡ ok (fragment (from_be_bytes set_id) (from_be_bytes index) plain)
  unfolding dispatch fragment_arm
  finish-fragment n alpha s beta payload plain index set_id pad junk hi hs hp hj k d e =
      let one : Bytes = flag_byte Flag.fragment ∷ [] in
      let size : length (index ++ (set_id ++ pad)) ≡ reply_meta_length =
        omega (arith, length-append index (set_id ++ pad), length-append set_id pad) in
      let (rest, cut) =
        final_cut (flag_byte Flag.fragment ∷ (index ++ (set_id ++ pad))) junk (omega arith)
          (omega arith) in
      let assoc : (index ++ (set_id ++ pad)) ++ rest ≡ index ++ (set_id ++ (pad ++ rest)) =
        append_assoc index (set_id ++ pad) rest
        ∙ ap (λ t. index ++ t) (append_assoc set_id pad rest) in
      let first : slice {E = Error} 1 (1 + kappa) (one ++ ((index ++ (set_id ++ pad)) ++ rest))
          ≡ ok index =
        ap (λ t. slice 1 (1 + kappa) (one ++ t)) assoc
        ∙ slice-append 1 (1 + kappa) one index (set_id ++ (pad ++ rest)) refl (omega arith) in
      let second : slice {E = Error} (1 + kappa) (1 + 2 * kappa)
            (one ++ ((index ++ (set_id ++ pad)) ++ rest))
          ≡ ok set_id =
        ap (λ t. slice (1 + kappa) (1 + 2 * kappa) (one ++ t)) assoc
        ∙ slice-append (1 + kappa) (1 + 2 * kappa) (one ++ index) set_id (pad ++ rest) (omega arith)
            (omega arith) in
      rw (e, cut, k, d, first, second) refl

  -- At the last hop of a reply block: its meta data, and the payload with the last layer taken off.
  pub finish-reply :
      (n : ℕ) (alpha s : Point) (beta payload plain meta junk : Bytes) {key : Bytes}
      → length meta ≡ reply_meta_length
      → bytes_per_hop ≤ reply_meta_length + 1 + length junk
      → h_pi s ≡ ok key
      → pi_inv key payload ≡ ok plain
      → routing_of n s beta ≡ (flag_byte Flag.deliver ∷ meta) ++ junk
      → finish alpha s (routing_of n s beta) payload ≡ ok (reply meta plain)
  unfolding dispatch reply_arm
  finish-reply n alpha s beta payload plain meta junk hm hj k d e =
      let one : Bytes = flag_byte Flag.deliver ∷ [] in
      let (rest, cut) =
        final_cut (flag_byte Flag.deliver ∷ meta) junk (omega arith) (omega arith) in
      let first =
        slice-append {E = Error} 1 (1 + reply_meta_length) one meta rest refl (omega arith) in
      rw (e, cut, k, d, first) refl
