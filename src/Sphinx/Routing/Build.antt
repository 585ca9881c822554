-- ===== src/Sphinx/Routing/Build.antt =====
-- The sender's construction of routing information of sphinx-benchmarks/src/header/routing: no assertion
-- fails, and every layer has the size of a header.
use fragging.Common.{
  ℕ, suc, ◌+◌, ◌-◌, ◌*◌, ◌%◌, ◌^◌, ◌≤◌, ◌<◌, ◌≡◌, refl, sym, ap, ◌∙◌, List, [], ◌∷◌, ◌++◌, length,
  take, arith, length-append, length-take_le, take-append, append-nil, ok, slice_prefix, >>=-eq-ok,
  le→leb, eq→==, xor, length-xor,
}
use fragging.Sphinx.Constants.{
  Bytes, ErrorKind, node_address_length, security_parameter, header_integrity_mac_size,
  filler_step_size_increase, stream_cipher_output_length, xor_exact,
}
use fragging.Sphinx.Externals.{Externals, IsLawful}
use fragging.Sphinx.Delays.{Delay}
use fragging.Sphinx.Keys.{RoutingKeys}
use fragging.Sphinx.Filler.{stream_cipher_init_vector, length-generate}
use fragging.Sphinx.Routing.{
  EncapsulatedRoutingInformation, Destination, final_hop_flag, version_bytes,
  final_node_meta_info_length, encrypted_routing_info_size, new_routing_information, compute_mac,
  encrypt, encapsulate_with_mac, stream, final_routing_information, for_final_hop, forward_fold,
}
use fragging.Sphinx.Routing.Hop.{unwrap_routing-encrypt}

-- The sizes of routing information with its MAC.
pub record HasSize (m : ℕ) (info : EncapsulatedRoutingInformation) : Type 0 where
  pub info_length : length info.enc_routing_information ≡ encrypted_routing_info_size m
  pub mac_length : length info.integrity_mac ≡ header_integrity_mac_size

abbrev pub AllBelow : List Delay → Type 0
AllBelow [] = Unit {0}
AllBelow (delay ∷ delays) = (delay < 2 ^ 64) × AllBelow delays

abbrev pub AllAddressed : List (Bytes × RoutingKeys) → Type 0
AllAddressed [] = Unit {0}
AllAddressed (hop ∷ hops) = (length hop.0 ≡ node_address_length) × AllAddressed hops

module _ ⦃x : Externals⦄ (laws : IsLawful x) where
  pub encapsulate-ok :
      (m : ℕ) (value key : Bytes)
      → length value ≡ encrypted_routing_info_size m
      → (info : EncapsulatedRoutingInformation) × (encapsulate_with_mac value key ≡ ok info)
        × HasSize m info
  unfolding encapsulate_with_mac compute_mac
  encapsulate-ok m value key h =
      let mac = x.hmac key value in
      let long = laws.length-hmac key value in
      (
        record {
          enc_routing_information = value;
          integrity_mac = take header_integrity_mac_size mac;
        },
        rw (le→leb header_integrity_mac_size (length mac) (omega arith)) refl,
        record {
          info_length = h;
          mac_length = length-take_le header_integrity_mac_size mac (omega arith);
        },
      )

  final-ok :
      (m k : ℕ) (dest : Destination) (key filler : Bytes) (random : ℕ → Bytes)
      → suc k ≤ m
      → m ≤ 2 ^ 32
      → length dest.address ≡ 32
      → length dest.identifier ≡ 16
      → length filler ≡ filler_step_size_increase * k
      → ((n : ℕ) → length (random n) ≡ n)
      → (value : Bytes) × (final_routing_information m dest key filler (suc k) random ≡ ok value)
        × (length value ≡ encrypted_routing_info_size m)
  unfolding final_routing_information xor_exact
  final-ok m k dest key filler random fits low ha hi hf fills =
      let n = encrypted_routing_info_size m in
      let room : ℕ = n - filler_step_size_increase * (suc k - 1) in
      let padding = random (room - final_node_meta_info_length) in
      let padding_length = fills (room - final_node_meta_info_length) in
      let head : Bytes = final_hop_flag ∷ version_bytes in
      let padded = head ++ (dest.address ++ (dest.identifier ++ padding)) in
      let padded_length : length padded ≡ room = omega (
        arith,
        padding_length,
        length-append head (dest.address ++ (dest.identifier ++ padding)),
        length-append dest.address (dest.identifier ++ padding),
        length-append dest.identifier padding,
      ) in
      let mask = stream m key in
      let mask_length : length mask ≡ stream_cipher_output_length m =
        length-generate laws key stream_cipher_init_vector (stream_cipher_output_length m) in
      let front = take (length padded) mask in
      let front_length : length front ≡ length padded =
        length-take_le (length padded) mask (omega arith) in
      let combined = xor padded front ++ filler in
      let combined_length : length combined ≡ n =
        omega (arith, length-append (xor padded front) filler, length-xor padded front) in
      let limit : ℕ = (3 * ((m + 2 ^ 64 - suc k) % 2 ^ 64) + 2) * security_parameter % 2 ^ 64 in
      let whole : take n combined ≡ combined =
        ap (take n) (sym (append-nil combined)) ∙ take-append n combined [] combined_length in
      (
        combined,
        rw
            (
              le→leb (length dest.address) limit (omega arith),
              le→leb (filler_step_size_increase * (suc k - 1) + final_node_meta_info_length) n
                  (omega arith),
              eq→== room (length padded) (omega arith),
              slice_prefix {E = ErrorKind} (length padded) mask (omega arith),
              eq→== (length padded) (length front) (omega arith),
              eq→== (length filler) (filler_step_size_increase * (suc k - 1)) (omega arith),
              eq→== (length combined) n combined_length,
            )
            (slice_prefix n combined (omega arith) ∙ ap ok whole),
        combined_length,
      )

  pub for_final_hop-ok :
      (m k : ℕ) (dest : Destination) (keys : RoutingKeys) (filler : Bytes) (random : ℕ → Bytes)
      → suc k ≤ m
      → m ≤ 2 ^ 32
      → length dest.address ≡ 32
      → length dest.identifier ≡ 16
      → length filler ≡ filler_step_size_increase * k
      → ((n : ℕ) → length (random n) ≡ n)
      → (info : EncapsulatedRoutingInformation) × (for_final_hop m dest keys filler (suc k) random
          ≡ ok info)
        × HasSize m info
  unfolding for_final_hop
  for_final_hop-ok m k dest keys filler random fits low ha hi hf fills =
      let (value, built, size) =
        final-ok m k dest keys.stream_cipher_key filler random fits low ha hi hf fills in
      let (info, sealed, sizes) = encapsulate-ok m value keys.header_integrity_hmac_key size in
      (info, rw built sealed, sizes)

  pub forward_fold-ok :
      (m : ℕ) (hops : List (Bytes × RoutingKeys)) (delays : List Delay)
      (last_info : EncapsulatedRoutingInformation)
      → 1 ≤ m
      → AllAddressed hops
      → AllBelow delays
      → HasSize m last_info
      → (info : EncapsulatedRoutingInformation) × (forward_fold m hops delays last_info ≡ ok info)
        × HasSize m info
  unfolding forward_fold
  forward_fold-ok m [] delays last_info pos ha hd sizes = (last_info, refl, sizes)
  forward_fold-ok m (hop ∷ hops) [] last_info pos ha hd sizes = (last_info, refl, sizes)
  forward_fold-ok m (hop ∷ hops) (delay ∷ delays) last_info pos ha hd sizes =
      let (next, folded, next_sizes) =
        forward_fold-ok m hops delays last_info pos ha.1 hd.1 sizes in
      let (value, encrypted, value_length, _) =
        unwrap_routing-encrypt laws m hop.0 delay next hop.1.stream_cipher_key pos ha.0 hd.0
          next_sizes.mac_length next_sizes.info_length in
      let (info, made, masked) =
        >>=-eq-ok (new_routing_information m hop.0 delay next)
          (λ i. encrypt m i hop.1.stream_cipher_key) encrypted in
      let (out, sealed, out_sizes) =
        encapsulate-ok m value hop.1.header_integrity_hmac_key value_length in
      (out, rw (folded, made, masked) sealed, out_sizes)
