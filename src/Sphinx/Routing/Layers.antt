-- ===== src/Sphinx/Routing/Layers.antt =====
-- The layers of routing information of sphinx-benchmarks/src/header/routing, as the sender puts them on
-- and the nodes of a route take them off.
use fragging.Common.{
  ℕ, ◌+◌, ◌-◌, ◌≤◌, ◌≡◌, refl, sym, ap, ap₂, ◌∙◌, ◌∷◌, ◌++◌, append_assoc, length, take, drop,
  replicate, arith, length-append, length-replicate, length-take_le, length-drop,
  length-to_be_bytes, take-append-drop, drop-append, drop-drop, ok, slice_prefix, ◌>>=◌, eq→==, xor,
  length-xor, drop-xor, xor-append_left, xor-replicate_zero,
}
use fragging.Sphinx.Constants.{
  Bytes, ErrorKind, header_integrity_mac_size, node_address_length, filler_step_size_increase,
  stream_cipher_output_length, xor_exact,
}
use fragging.Sphinx.Externals.{Externals, IsLawful}
use fragging.Sphinx.Delays.{Delay, to_bytes as delay_to_bytes}
use fragging.Sphinx.Keys.{RoutingKeys}
use fragging.Sphinx.Filler.{stream_cipher_init_vector, length-generate}
use fragging.Sphinx.Routing.{
  EncapsulatedRoutingInformation, version_bytes, forward_hop_flag, encrypted_routing_info_size,
  truncated_routing_info_size, new_routing_information, encrypt, stream,
}
use fragging.Sphinx.Routing.Build.{HasSize}

module _ ⦃x : Externals⦄ (laws : IsLawful x) (m : ℕ) (pos : 1 ≤ m) where
  -- What stands in a layer before the next routing information.
  abbrev pub front : Bytes → Delay → Bytes → Bytes
  front address delay mac =
      (forward_hop_flag ∷ version_bytes) ++ (address ++ (delay_to_bytes delay ++ mac))

  pub length-stream :
      (key : Bytes)
      → length (stream m key) ≡ encrypted_routing_info_size m + filler_step_size_increase
  length-stream key =
      length-generate laws key stream_cipher_init_vector (stream_cipher_output_length m)
      ∙ omega arith

  pub length-front :
      (address : Bytes) (delay : Delay) (mac : Bytes)
      → length address ≡ node_address_length
      → length mac ≡ header_integrity_mac_size
      → length (front address delay mac) ≡ filler_step_size_increase
  length-front address delay mac ha hm =
      let d = delay_to_bytes delay in
      length-append (forward_hop_flag ∷ version_bytes) (address ++ (d ++ mac))
      ∙ omega (
        arith,
        ha,
        hm,
        length-append address (d ++ mac),
        length-append d mac,
        length-to_be_bytes 8 delay,
      )

  -- The layer is the front and the whole next routing information, cut to the mask's length.
  pub layer-value :
      (address : Bytes) (delay : Delay) (next : EncapsulatedRoutingInformation) (key : Bytes)
      → length address ≡ node_address_length
      → HasSize m next
      → (new_routing_information m address delay next >>= λ info. encrypt m info key)
        ≡ ok (
            xor
              (front address delay next.integrity_mac ++ next.enc_routing_information)
              (take (encrypted_routing_info_size m) (stream m key)))
  unfolding new_routing_information encrypt xor_exact
  layer-value address delay next key ha sizes =
      let n = encrypted_routing_info_size m in
      let cut = truncated_routing_info_size m in
      let mask = take n (stream m key) in
      let mask_length : length mask ≡ n =
        length-take_le n (stream m key) (omega (arith, length-stream key)) in
      let enc = next.enc_routing_information in
      let kept = take cut enc in
      let kept_length : length kept ≡ cut =
        length-take_le cut enc (omega (arith, sizes.info_length)) in
      let head : Bytes = forward_hop_flag ∷ version_bytes in
      let d = delay_to_bytes delay in
      let mac = next.integrity_mac in
      let before = front address delay mac in
      let before_length = length-front address delay mac ha sizes.mac_length in
      let text = head ++ (address ++ (d ++ (mac ++ kept))) in
      let regroup : before ++ kept ≡ text =
        append_assoc head (address ++ (d ++ mac)) kept
        ∙ ap (λ t. head ++ t)
            (append_assoc address (d ++ mac) kept
              ∙ ap (λ t. address ++ t) (append_assoc d mac kept)) in
      let text_length : length text ≡ n =
        sym (ap length regroup)
        ∙ length-append before kept
        ∙ omega (arith, before_length, kept_length) in
      let whole : xor (before ++ enc) mask ≡ xor text mask =
        ap (λ t. xor (before ++ t) mask) (sym (take-append-drop cut enc))
        ∙ ap (λ t. xor t mask) (sym (append_assoc before kept (drop cut enc)))
        ∙ xor-append_left (before ++ kept) (drop cut enc) mask
            (omega (arith, ap length regroup, text_length, mask_length))
        ∙ ap (λ t. xor t mask) regroup in
      rw
        (
          slice_prefix {E = ErrorKind} cut enc (omega (arith, sizes.info_length)),
          eq→== n (length text) (omega (arith, text_length)),
          slice_prefix {E = ErrorKind} n (stream m key) (omega (arith, length-stream key)),
          eq→== (length text) (length mask) (omega (arith, text_length, mask_length)),
        )
        (ap ok (sym whole))

  -- The filler behind one more key.
  abbrev pub grow : Bytes → RoutingKeys → Bytes
  grow filler keys =
      xor (filler ++ replicate filler_step_size_increase 0)
        (drop (encrypted_routing_info_size m - length filler) (stream m keys.stream_cipher_key))

  abbrev pub EndsWith : Bytes → Bytes → Type 0
  EndsWith filler enc = drop (encrypted_routing_info_size m - length filler) enc ≡ filler

  pub length-grow :
      (filler : Bytes) (keys : RoutingKeys)
      → length filler + filler_step_size_increase ≤ encrypted_routing_info_size m
      → length (grow filler keys) ≡ length filler + filler_step_size_increase
  length-grow filler keys fits =
      let mask = stream m keys.stream_cipher_key in
      let at : ℕ = encrypted_routing_info_size m - length filler in
      omega (
        arith,
        length-xor (filler ++ replicate filler_step_size_increase 0) (drop at mask),
        length-append filler (replicate filler_step_size_increase 0),
        length-replicate {A = ℕ} filler_step_size_increase 0,
        length-drop at mask,
        length-stream keys.stream_cipher_key,
      )

  -- Where the filler after a key stands, the end is that of the key's stream.
  pub ends-stream :
      (filler : Bytes) (keys : RoutingKeys) (enc : Bytes)
      → length filler + filler_step_size_increase ≤ encrypted_routing_info_size m
      → EndsWith (grow filler keys) enc
      → drop (encrypted_routing_info_size m - filler_step_size_increase) enc
        ≡ drop (encrypted_routing_info_size m) (stream m keys.stream_cipher_key)
  ends-stream filler keys enc fits ends =
      let n = encrypted_routing_info_size m in
      let a = length filler in
      let mask = stream m keys.stream_cipher_key in
      let grown = length-grow filler keys fits in
      let zeros : Bytes = replicate filler_step_size_increase 0 in
      ap (λ (i : ℕ). drop i enc) (omega (arith, grown, fits))
      ∙ sym (drop-drop a (n - length (grow filler keys)) enc)
      ∙ ap (drop a) ends
      ∙ drop-xor a (filler ++ zeros) (drop (n - a) mask)
      ∙ ap₂ xor (drop-append a filler zeros refl)
          (drop-drop a (n - a) mask ∙ ap (λ (i : ℕ). drop i mask) (omega (arith, fits)))
      ∙ xor-replicate_zero filler_step_size_increase (drop n mask)
          (omega (arith, length-drop n mask, length-stream keys.stream_cipher_key))
