-- ===== src/Sphinx/Routing/Reading.antt =====
-- What the nodes of a route read from the layers of sphinx-benchmarks/src/header/routing, one after the
-- other, and how the sender's fold makes them so.
use fragging.Common.{
  ℕ, ◌+◌, ◌-◌, ◌*◌, ◌≤◌, ◌<◌, ◌^◌, ◌≡◌, refl, sym, ap, ◌∙◌, List, [], ◌∷◌, ◌++◌, length, take, drop,
  replicate, arith, length-append, length-take_le, length-drop, take-append-drop, ok, ◌>>=◌,
  >>=-eq-ok, le→leb, xor, length-xor,
}
use fragging.Scylla.Onion.Masks.{keep}
use fragging.Sphinx.Constants.{
  Bytes, Result, header_integrity_mac_size, node_address_length, filler_step_size_increase,
}
use fragging.Sphinx.Externals.{Externals, IsLawful}
use fragging.Sphinx.Delays.{Delay}
use fragging.Sphinx.Keys.{RoutingKeys}
use fragging.Sphinx.Routing.{
  EncapsulatedRoutingInformation, forward_hop, encrypted_routing_info_size,
  truncated_routing_info_size, new_routing_information, encrypt, encapsulate_with_mac, compute_mac,
  stream, unwrap_routing, forward_fold,
}
use fragging.Sphinx.Routing.Hop.{unwrap_routing-encrypt}
use fragging.Sphinx.Routing.Build.{HasSize, AllBelow, AllAddressed}
use fragging.Sphinx.Routing.Layers.{
  front, length-stream, length-front, layer-value, grow, EndsWith, length-grow, ends-stream,
}

ok-inj : {a b : Bytes} → ◌≡◌ {A = Result Bytes} (ok a) (ok b) → a ≡ b
ok-inj e = cc

module _ ⦃x : Externals⦄ (laws : IsLawful x) (m : ℕ) (pos : 1 ≤ m) where
  -- The MAC is that of the routing information under the node's key.
  abbrev pub IsSealed : RoutingKeys → EncapsulatedRoutingInformation → Type 0
  IsSealed keys info =
      info.integrity_mac
      ≡ take header_integrity_mac_size
          (x.hmac keys.header_integrity_hmac_key info.enc_routing_information)

  -- The nodes with these keys read, in turn, the address of the next node and their delay, under the
  -- right MAC, and what the last of them sends on is as `Final` says.
  abbrev pub Opens :
      List (Bytes × RoutingKeys)
      → List Delay
      → (EncapsulatedRoutingInformation → Type 0)
      → EncapsulatedRoutingInformation
      → Type 0
  Opens [] delays Final info = Final info
  Opens (hop ∷ hops) [] Final info = Final info
  Opens (hop ∷ hops) (delay ∷ delays) Final info =
      IsSealed hop.1 info
      × ((next : EncapsulatedRoutingInformation) × ((unwrap_routing m info.enc_routing_information
                hop.1.stream_cipher_key
              ≡ ok (forward_hop hop.0 delay next))
            × Opens hops delays Final next))

  -- The filler behind the keys of some hops.
  abbrev pub fills : Bytes → List (Bytes × RoutingKeys) → Bytes
  fills filler [] = filler
  fills filler (hop ∷ hops) = fills (grow laws m pos filler hop.1) hops

  -- The end of a layer is the filler before its key.
  ends-layer :
      (filler : Bytes) (keys : RoutingKeys) (before enc : Bytes)
      → length filler + filler_step_size_increase ≤ encrypted_routing_info_size m
      → length before ≡ filler_step_size_increase
      → length enc ≡ encrypted_routing_info_size m
      → EndsWith laws m pos (grow laws m pos filler keys) enc
      → EndsWith laws m pos filler (
          xor
            (before ++ enc)
            (take (encrypted_routing_info_size m) (stream m keys.stream_cipher_key)))
  ends-layer filler keys before enc fits hb he ends =
      let n = encrypted_routing_info_size m in
      let whole = stream m keys.stream_cipher_key in
      let long = length-stream laws m pos keys.stream_cipher_key in
      keep n filler_step_size_increase (take n whole) (drop n whole) before enc
        (length-take_le n whole (omega (arith, long))) (omega (arith, length-drop n whole, long)) hb
        he (omega (arith, fits)) (n - length filler) filler (omega (arith, fits))
        (omega (arith, fits))
        (ap (λ (i : ℕ). drop i enc) (omega (arith, length-grow laws m pos filler keys fits, fits))
          ∙ ends
          ∙ ap
              (λ t.
                xor (filler ++ replicate filler_step_size_increase 0) (drop (n - length filler) t))
              (sym (take-append-drop n whole)))

  -- The layer that a node reads, for the next routing information that ends with the filler.
  unwrap-layer :
      (address : Bytes) (delay : Delay) (next : EncapsulatedRoutingInformation) (keys : RoutingKeys)
      (filler value : Bytes)
      → length address ≡ node_address_length
      → delay < 2 ^ 64
      → HasSize m next
      → length filler + filler_step_size_increase ≤ encrypted_routing_info_size m
      → EndsWith laws m pos (grow laws m pos filler keys) next.enc_routing_information
      → (new_routing_information m address delay next >>= λ info.
          encrypt m info keys.stream_cipher_key)
        ≡ ok value
      → unwrap_routing m value keys.stream_cipher_key ≡ ok (forward_hop address delay next)
  unwrap-layer address delay next keys filler value ha hd sizes fits ends made =
      let (other, built, _, read) =
        unwrap_routing-encrypt laws m address delay next keys.stream_cipher_key pos ha hd
          sizes.mac_length sizes.info_length in
      let same : other ≡ value = ok-inj (sym built ∙ made) in
      let enc = next.enc_routing_information in
      let cut = truncated_routing_info_size m in
      ap (λ v. unwrap_routing m v keys.stream_cipher_key) (sym same)
      ∙ read
      ∙ ap
          (λ e. ok (
            forward_hop address delay
              (record { enc_routing_information = e; integrity_mac = next.integrity_mac })))
          (ap (λ t. take cut enc ++ t) (sym (ends-stream laws m pos filler keys enc fits ends))
            ∙ take-append-drop cut enc)

  pub forward_fold-Opens :
      (hops : List (Bytes × RoutingKeys)) (delays : List Delay) (filler : Bytes)
      (Final : EncapsulatedRoutingInformation → Type 0) (last_info : EncapsulatedRoutingInformation)
      → length delays ≡ length hops
      → AllAddressed hops
      → AllBelow delays
      → HasSize m last_info
      → length filler + filler_step_size_increase * length hops ≤ encrypted_routing_info_size m
      → EndsWith laws m pos (fills filler hops) last_info.enc_routing_information
      → Final last_info
      → (info : EncapsulatedRoutingInformation) × (forward_fold m hops delays last_info ≡ ok info)
        × HasSize m info
        × EndsWith laws m pos filler info.enc_routing_information
        × Opens hops delays Final info
  unfolding forward_fold encapsulate_with_mac compute_mac
  forward_fold-Opens [] delays filler Final last_info hl ha hd sizes fits ends final =
      (last_info, refl, sizes, ends, final)
  forward_fold-Opens (hop ∷ hops) [] filler Final last_info hl ha hd sizes fits ends final =
      absurd (omega arith)
  forward_fold-Opens (hop ∷ hops) (delay ∷ delays) filler Final last_info hl ha hd sizes fits ends
        final =
      let keys = hop.1 in
      let room : length filler + filler_step_size_increase ≤ encrypted_routing_info_size m =
        omega arith in
      let (next, folded, next_sizes, next_ends, opens) =
        forward_fold-Opens hops delays (grow laws m pos filler keys) Final last_info (omega arith)
          ha.1 hd.1 sizes (omega (arith, length-grow laws m pos filler keys room)) ends final in
      let before = front laws m pos hop.0 delay next.integrity_mac in
      let before_length =
        length-front laws m pos hop.0 delay next.integrity_mac ha.0 next_sizes.mac_length in
      let mask = take (encrypted_routing_info_size m) (stream m keys.stream_cipher_key) in
      let value = xor (before ++ next.enc_routing_information) mask in
      let made = layer-value laws m pos hop.0 delay next keys.stream_cipher_key ha.0 next_sizes in
      let value_length : length value ≡ encrypted_routing_info_size m = omega (
        arith,
        length-xor (before ++ next.enc_routing_information) mask,
        length-append before next.enc_routing_information,
        next_sizes.info_length,
        length-take_le (encrypted_routing_info_size m) (stream m keys.stream_cipher_key)
            (omega (arith, length-stream laws m pos keys.stream_cipher_key)),
      ) in
      let (info, first, second) =
        >>=-eq-ok (new_routing_information m hop.0 delay next)
          (λ i. encrypt m i keys.stream_cipher_key) made in
      let long = laws.length-hmac keys.header_integrity_hmac_key value in
      (
        record {
          enc_routing_information = value;
          integrity_mac =
              take header_integrity_mac_size (x.hmac keys.header_integrity_hmac_key value);
        },
        rw
            (
              folded,
              first,
              second,
              le→leb header_integrity_mac_size
                  (length (x.hmac keys.header_integrity_hmac_key value)) (omega (arith, long)),
            )
            refl,
        record {
          info_length = value_length;
          mac_length =
              length-take_le header_integrity_mac_size (x.hmac keys.header_integrity_hmac_key value)
                (omega (arith, long));
        },
        ends-layer filler keys before next.enc_routing_information room before_length
            next_sizes.info_length next_ends,
        (
          refl,
          (
            next,
            (
              unwrap-layer hop.0 delay next keys filler value ha.0 hd.0 next_sizes room next_ends
                  made,
              opens,
            ),
          ),
        ),
      )
