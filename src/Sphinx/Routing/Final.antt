-- ===== src/Sphinx/Routing/Final.antt =====
-- The innermost layer of routing information of sphinx-benchmarks/src/header/routing/destination.rs: what
-- the last node reads, and the filler behind it.
use fragging.Common.{
  ℕ, suc, ◌+◌, ◌-◌, ◌*◌, ◌%◌, ◌^◌, ◌≤◌, ◌≡◌, refl, sym, ap, ◌∙◌, [], ◌∷◌, ◌++◌, append_assoc,
  append-nil, length, take, drop, replicate, arith, length-append, length-replicate, length-take_le,
  length-drop, take-append, take-append-drop, drop-append, ok, slice, slice_prefix, slice-append,
  eq→==, le→leb, xor, length-xor, xor_cancel, xor-append,
}
use fragging.Sphinx.Constants.{
  Bytes, ErrorKind, security_parameter, header_integrity_mac_size, filler_step_size_increase,
  stream_cipher_output_length, xor_exact,
}
use fragging.Sphinx.Externals.{Externals, IsLawful}
use fragging.Sphinx.Keys.{RoutingKeys}
use fragging.Sphinx.Filler.{stream_cipher_init_vector, length-generate}
use fragging.Sphinx.Routing.{
  EncapsulatedRoutingInformation, Destination, final_hop, final_hop_flag, version_bytes,
  final_node_meta_info_length, encrypted_routing_info_size, parse, parse_as_final_hop,
  add_zero_padding, decrypt, stream, unwrap_routing, final_routing_information, for_final_hop,
  encapsulate_with_mac, compute_mac,
}
use fragging.Sphinx.Routing.Build.{HasSize}

-- The parts of a final layer, in their places.
parse-final :
    (m : ℕ) (address identifier rest : Bytes)
    → length address ≡ 32
    → length identifier ≡ 16
    → 52 + length rest ≡ filler_step_size_increase + encrypted_routing_info_size m
    → parse m ((final_hop_flag ∷ version_bytes) ++ (address ++ (identifier ++ rest)))
      ≡ ok (final_hop address identifier)
unfolding parse parse_as_final_hop
parse-final m address identifier rest ha hi hr =
    let head : Bytes = final_hop_flag ∷ version_bytes in
    let all = head ++ (address ++ (identifier ++ rest)) in
    let one =
      slice-append {E = ErrorKind} 4 36 head address (identifier ++ rest) refl (omega arith) in
    let two : slice {E = ErrorKind} 36 52 all ≡ ok identifier =
      ap (slice 36 52) (sym (append_assoc head address (identifier ++ rest)))
      ∙ slice-append 36 52 (head ++ address) identifier rest
          (omega (arith, length-append head address)) (omega arith) in
    rw
      (
        eq→== (filler_step_size_increase + encrypted_routing_info_size m) (length all) (
            omega (
              arith,
              hr,
              length-append head (address ++ (identifier ++ rest)),
              length-append address (identifier ++ rest),
              length-append identifier rest,
            )),
        one,
        two,
      )
      refl

-- Masked, followed by more, and masked again with a longer stream: the text, and something behind it.
unmask_first :
    (text mask more : Bytes)
    → length text ≤ length mask
    → xor (xor text (take (length text) mask) ++ more) mask
      ≡ text ++ xor more (drop (length text) mask)
unmask_first text mask more h =
    let front = take (length text) mask in
    let front_length : length front ≡ length text = length-take_le (length text) mask h in
    let masked = xor text front in
    ap (xor (masked ++ more)) (sym (take-append-drop (length text) mask))
    ∙ xor-append masked more front (drop (length text) mask)
        (omega (arith, length-xor text front, front_length))
    ∙ ap (λ t. t ++ xor more (drop (length text) mask))
        (xor_cancel text front (omega (arith, front_length)))

module _ ⦃x : Externals⦄ (laws : IsLawful x) where
  -- Routing information that the last node of a route reads as the destination, under the right MAC.
  pub record IsFinal (m : ℕ) (dest : Destination) (keys : RoutingKeys)
      (info : EncapsulatedRoutingInformation) : Type 0 where
    pub sealed :
        info.integrity_mac
        ≡ take header_integrity_mac_size
            (x.hmac keys.header_integrity_hmac_key info.enc_routing_information)
    pub read :
        unwrap_routing m info.enc_routing_information keys.stream_cipher_key
        ≡ ok (final_hop dest.address dest.identifier)

  pub for_final_hop-IsFinal :
      (m k : ℕ) (dest : Destination) (keys : RoutingKeys) (filler : Bytes) (random : ℕ → Bytes)
      → suc k ≤ m
      → m ≤ 2 ^ 32
      → length dest.address ≡ 32
      → length dest.identifier ≡ 16
      → length filler ≡ filler_step_size_increase * k
      → ((n : ℕ) → length (random n) ≡ n)
      → (info : EncapsulatedRoutingInformation) × (for_final_hop m dest keys filler (suc k) random
          ≡ ok info)
        × HasSize m info
        × (drop (encrypted_routing_info_size m - length filler) info.enc_routing_information
            ≡ filler)
        × IsFinal m dest keys info
  unfolding for_final_hop final_routing_information xor_exact encapsulate_with_mac compute_mac
      unwrap_routing add_zero_padding decrypt
  for_final_hop-IsFinal m k dest keys filler random fits low ha hi hf fills =
      let n = encrypted_routing_info_size m in
      let room : ℕ = n - filler_step_size_increase * (suc k - 1) in
      let padding = random (room - final_node_meta_info_length) in
      let head : Bytes = final_hop_flag ∷ version_bytes in
      let padded = head ++ (dest.address ++ (dest.identifier ++ padding)) in
      let padded_length : length padded ≡ room = omega (
        arith,
        fills (room - final_node_meta_info_length),
        length-append head (dest.address ++ (dest.identifier ++ padding)),
        length-append dest.address (dest.identifier ++ padding),
        length-append dest.identifier padding,
      ) in
      let mask = stream m keys.stream_cipher_key in
      let mask_length : length mask ≡ stream_cipher_output_length m =
        length-generate laws keys.stream_cipher_key stream_cipher_init_vector
          (stream_cipher_output_length m) in
      let front = take (length padded) mask in
      let front_length : length front ≡ length padded =
        length-take_le (length padded) mask (omega arith) in
      let masked_length : length (xor padded front) ≡ room =
        omega (arith, length-xor padded front) in
      let combined = xor padded front ++ filler in
      let combined_length : length combined ≡ n =
        omega (arith, length-append (xor padded front) filler, masked_length) in
      let limit : ℕ = (3 * ((m + 2 ^ 64 - suc k) % 2 ^ 64) + 2) * security_parameter % 2 ^ 64 in
      let whole : take n combined ≡ combined =
        ap (take n) (sym (append-nil combined)) ∙ take-append n combined [] combined_length in
      let key = keys.header_integrity_hmac_key in
      let long = laws.length-hmac key combined in
      let zeros : Bytes = replicate filler_step_size_increase 0 in
      let junk = xor (filler ++ zeros) (drop (length padded) mask) in
      let junk_length : length junk ≡ n + filler_step_size_increase - room = omega (
        arith,
        length-xor (filler ++ zeros) (drop (length padded) mask),
        length-append filler zeros,
        length-replicate {A = ℕ} filler_step_size_increase 0,
        length-drop (length padded) mask,
        padded_length,
        mask_length,
        hf,
      ) in
      let raw : xor (combined ++ zeros) mask
          ≡ head ++ (dest.address ++ (dest.identifier ++ (padding ++ junk))) =
        ap (λ t. xor t mask) (append_assoc (xor padded front) filler zeros)
        ∙ unmask_first padded mask (filler ++ zeros) (omega arith)
        ∙ append_assoc head (dest.address ++ (dest.identifier ++ padding)) junk
        ∙ ap (λ t. head ++ t)
            (append_assoc dest.address (dest.identifier ++ padding) junk
              ∙ ap (λ t. dest.address ++ t) (append_assoc dest.identifier padding junk)) in
      let parsed = parse-final m dest.address dest.identifier (padding ++ junk) ha hi (
        omega (
          arith,
          length-append padding junk,
          junk_length,
          fills (room - final_node_meta_info_length),
        )) in
      let zeros_length = length-append combined zeros in
      let sixty = length-replicate {A = ℕ} filler_step_size_increase 0 in
      (
        record {
          enc_routing_information = combined;
          integrity_mac = take header_integrity_mac_size (x.hmac key combined);
        },
        rw
            (
              le→leb (length dest.address) limit (omega arith),
              le→leb (filler_step_size_increase * (suc k - 1) + final_node_meta_info_length) n
                  (omega arith),
              eq→== room (length padded) (omega arith),
              slice_prefix {E = ErrorKind} (length padded) mask (omega arith),
              eq→== (length padded) (length front) (omega arith),
              eq→== (length filler) (filler_step_size_increase * (suc k - 1)) (omega arith),
              eq→== (length combined) n combined_length,
              slice_prefix {E = ErrorKind} n combined (omega arith),
              whole,
              le→leb header_integrity_mac_size (length (x.hmac key combined)) (omega (arith, long)),
            )
            refl,
        record {
          info_length = combined_length;
          mac_length =
              length-take_le header_integrity_mac_size (x.hmac key combined) (omega (arith, long));
        },
        drop-append (n - length filler) (xor padded front) filler
            (omega (arith, masked_length, hf)),
        record {
          sealed = refl;
          read =
              rw
                (
                  eq→== (n + filler_step_size_increase) (length (combined ++ zeros))
                      (omega (arith, zeros_length, sixty, combined_length)),
                  eq→== (length (combined ++ zeros)) (length mask)
                      (omega (arith, zeros_length, sixty, combined_length, mask_length)),
                  raw,
                  parsed,
                )
                refl;
        },
      )
