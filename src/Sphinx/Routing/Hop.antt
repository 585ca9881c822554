-- ===== src/Sphinx/Routing/Hop.antt =====
-- One hop of the routing information of sphinx-benchmarks/src/header/routing/nodes.rs: what a node reads
-- from the layer that the sender encrypted for it.
use fragging.Common.{
  ℕ, ◌+◌, ◌≤◌, ◌<◌, ◌^◌, ◌≡◌, refl, sym, ap, ap₂, ◌∙◌, [], ◌∷◌, ◌++◌, append_assoc, append-nil,
  length, take, drop, replicate, arith, length-append, length-replicate, length-take_le,
  length-drop, length-to_be_bytes, take-append-drop, ok, slice, slice_prefix, slice-append, ◌>>=◌,
  eq→==, xor, length-xor, xor_cancel, xor-append, xor-replicate_zero,
}
use fragging.Sphinx.Constants.{
  Bytes, ErrorKind, header_integrity_mac_size, node_address_length, filler_step_size_increase,
  stream_cipher_output_length, xor_exact,
}
use fragging.Sphinx.Externals.{Externals, IsLawful}
use fragging.Sphinx.Delays.{
  Delay, to_bytes as delay_to_bytes, from_bytes as delay_from_bytes, from_bytes-to_bytes,
}
use fragging.Sphinx.Filler.{stream_cipher_init_vector, length-generate}
use fragging.Sphinx.Routing.{
  EncapsulatedRoutingInformation, forward_hop, version_bytes, forward_hop_flag,
  encrypted_routing_info_size, truncated_routing_info_size, new_routing_information,
  parse_as_forward_hop, parse, add_zero_padding, encrypt, decrypt, stream, unwrap_routing,
}

-- Masked, padded with zeros, and masked with the longer stream: the text, and behind it the rest of
-- the stream.
unmask :
    (n c : ℕ) (text mask : Bytes)
    → length text ≡ n
    → length mask ≡ n + c
    → xor (xor text (take n mask) ++ replicate c 0) mask ≡ text ++ drop n mask
unmask n c text mask h k =
    let front = take n mask in
    let front_length : length front ≡ n = length-take_le n mask (omega arith) in
    let more = drop n mask in
    let masked = xor text front in
    ap (xor (masked ++ replicate c 0)) (sym (take-append-drop n mask))
    ∙ xor-append masked (replicate c 0) front more (omega (arith, length-xor text front))
    ∙ ap₂ ◌++◌ (xor_cancel text front (omega arith))
        (xor-replicate_zero c more (omega (arith, length-drop n mask)))

-- The parts of a forwarding layer, in their places.
parse-forward :
    (m : ℕ) (address delay mac enc : Bytes)
    → length address ≡ node_address_length
    → length delay ≡ 8
    → length mac ≡ header_integrity_mac_size
    → length enc ≡ encrypted_routing_info_size m
    → parse m ((forward_hop_flag ∷ version_bytes) ++ (address ++ (delay ++ (mac ++ enc))))
      ≡ ok (
          forward_hop address
            (delay_from_bytes delay)
            (record { enc_routing_information = enc; integrity_mac = mac }))
unfolding parse parse_as_forward_hop
parse-forward m address delay mac enc ha hd hm he =
    let head : Bytes = forward_hop_flag ∷ version_bytes in
    let all = head ++ (address ++ (delay ++ (mac ++ enc))) in
    let mac_enc = length-append mac enc in
    let delay_on = length-append delay (mac ++ enc) in
    let on = length-append address (delay ++ (mac ++ enc)) in
    let one =
      slice-append {E = ErrorKind} 4 36 head address (delay ++ (mac ++ enc)) refl (omega arith) in
    let two : slice {E = ErrorKind} 36 44 all ≡ ok delay =
      ap (slice 36 44) (sym (append_assoc head address (delay ++ (mac ++ enc))))
      ∙ slice-append 36 44 (head ++ address) delay (mac ++ enc)
          (omega (arith, length-append head address)) (omega arith) in
    let three : slice {E = ErrorKind} 44 60 all ≡ ok mac =
      ap (slice 44 60) (
        sym (append_assoc head address (delay ++ (mac ++ enc)))
        ∙ sym (append_assoc (head ++ address) delay (mac ++ enc)))
      ∙ slice-append 44 60 ((head ++ address) ++ delay) mac enc
          (omega (arith, length-append (head ++ address) delay, length-append head address))
          (omega arith) in
    let four : slice {E = ErrorKind} 60 (60 + encrypted_routing_info_size m) all ≡ ok enc =
      ap (slice 60 (60 + encrypted_routing_info_size m)) (
        sym (append_assoc head address (delay ++ (mac ++ enc)))
        ∙ sym (append_assoc (head ++ address) delay (mac ++ enc))
        ∙ sym (append_assoc ((head ++ address) ++ delay) mac enc)
        ∙ ap (λ t. (((head ++ address) ++ delay) ++ mac) ++ t) (sym (append-nil enc)))
      ∙ slice-append 60 (60 + encrypted_routing_info_size m) (((head ++ address) ++ delay) ++ mac)
          enc []
          (omega (
            arith,
            length-append ((head ++ address) ++ delay) mac,
            length-append (head ++ address) delay,
            length-append head address,
          ))
          (omega arith) in
    rw
      (
        eq→== (filler_step_size_increase + encrypted_routing_info_size m) (length all)
            (omega (arith, length-append head (address ++ (delay ++ (mac ++ enc))))),
        one,
        two,
        three,
        four,
      )
      refl

module _ ⦃x : Externals⦄ (laws : IsLawful x) where
  -- For an address of 32 bytes, a delay below 2^64 and routing information of the next hop of the
  -- proper sizes, building and encrypting the layer for a node succeeds; the node reads from it the
  -- address, the delay, the next MAC, and the next routing information with its last 60 bytes
  -- replaced by the end of the node's stream.
  pub unwrap_routing-encrypt :
      (m : ℕ) (address : Bytes) (delay : Delay) (next : EncapsulatedRoutingInformation)
      (key : Bytes)
      → 1 ≤ m
      → length address ≡ node_address_length
      → delay < 2 ^ 64
      → length next.integrity_mac ≡ header_integrity_mac_size
      → length next.enc_routing_information ≡ encrypted_routing_info_size m
      → (value : Bytes) × ((new_routing_information m address delay next >>= λ info.
            encrypt m info key)
          ≡ ok value)
        × (length value ≡ encrypted_routing_info_size m)
        × (unwrap_routing m value key
            ≡ ok (
                forward_hop address delay (record {
                  enc_routing_information =
                      take (truncated_routing_info_size m) next.enc_routing_information
                      ++ drop (encrypted_routing_info_size m) (stream m key);
                  integrity_mac = next.integrity_mac;
                })))
  unfolding new_routing_information encrypt xor_exact unwrap_routing add_zero_padding decrypt
  unwrap_routing-encrypt m address delay next key pos ha hd hm he =
      let n = encrypted_routing_info_size m in
      let mask = stream m key in
      let mask_length : length mask ≡ n + filler_step_size_increase =
        length-generate laws key stream_cipher_init_vector (stream_cipher_output_length m)
        ∙ omega arith in
      let front = take n mask in
      let front_length : length front ≡ n = length-take_le n mask (omega arith) in
      let more = drop n mask in
      let kept = take (truncated_routing_info_size m) next.enc_routing_information in
      let kept_length : length kept ≡ truncated_routing_info_size m =
        length-take_le (truncated_routing_info_size m) next.enc_routing_information (omega arith) in
      let head : Bytes = forward_hop_flag ∷ version_bytes in
      let d = delay_to_bytes delay in
      let d_length = length-to_be_bytes 8 delay in
      let mac = next.integrity_mac in
      let text = head ++ (address ++ (d ++ (mac ++ kept))) in
      let text_length : length text ≡ n = omega (
        arith,
        length-append head (address ++ (d ++ (mac ++ kept))),
        length-append address (d ++ (mac ++ kept)),
        length-append d (mac ++ kept),
        length-append mac kept,
      ) in
      let value = xor text front in
      let value_length : length value ≡ n = omega (arith, length-xor text front) in
      let padded = value ++ replicate filler_step_size_increase 0 in
      let padded_length : length padded ≡ n + filler_step_size_increase = omega (
        arith,
        length-append value (replicate filler_step_size_increase 0),
        length-replicate {A = ℕ} filler_step_size_increase 0,
      ) in
      let regroup : text ++ more ≡ head ++ (address ++ (d ++ (mac ++ (kept ++ more)))) =
        append_assoc head (address ++ (d ++ (mac ++ kept))) more
        ∙ ap (λ t. head ++ t)
            (append_assoc address (d ++ (mac ++ kept)) more
              ∙ ap (λ t. address ++ t)
                  (append_assoc d (mac ++ kept) more
                    ∙ ap (λ t. d ++ t) (append_assoc mac kept more))) in
      let parsed =
        parse-forward m address d mac (kept ++ more) ha d_length hm
          (omega (arith, length-append kept more, length-drop n mask)) in
      (
        value,
        rw
            (
              slice_prefix {E = ErrorKind} (truncated_routing_info_size m)
                  next.enc_routing_information (omega arith),
              eq→== n (length text) (omega arith),
              slice_prefix {E = ErrorKind} n mask (omega arith),
              eq→== (length text) (length front) (omega arith),
            )
            refl,
        value_length,
        rw
            (
              eq→== (n + filler_step_size_increase) (length padded) (omega arith),
              eq→== (length padded) (length mask) (omega arith),
              unmask n filler_step_size_increase text mask text_length mask_length,
              regroup,
              parsed,
              from_bytes-to_bytes delay hd,
            )
            refl,
      )
