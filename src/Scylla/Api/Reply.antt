-- ===== src/Scylla/Api/Reply.antt =====
-- A reply block takes an answer along its path, and the sender of the block reads it.
use fragging.Common.{
  ℕ, suc, ◌≤◌, ◌^◌, ◌≡◌, ◌≢◌, refl, ap, ◌∙◌, List, [], ◌∷◌, ◌++◌, map, length, arith, append_assoc,
  append-nil, length-zero→nil, inl, ok,
}
use fragging.Scylla.Primitives.{Primitives, IsLawful, Bytes}
use fragging.Scylla.Crypto.{Flag, flag_byte, reply_meta_length, h_mu, mu}
use fragging.Scylla.Crypto.Laws.{IsBlock, pi_key, h_pi-eq}
use fragging.Scylla.Onion.{Scylla, Draws, reply, header_length, encrypt_layers, shared_secrets}
use fragging.Scylla.Onion.Payload.{decrypt_layers-IsRestored}
use fragging.Scylla.Onion.Process.{finish-reply}
use fragging.Scylla.Onion.Journey.{
  Owner, node_of, HasAddress, first_onion, travel, relay_meta, travel-first_onion,
}
use fragging.Scylla.Onion.Wrap.{wrap-IsWrapped, length-shared_secrets}
use fragging.Scylla.Api.{create_surb, unwrap_reply, payload_keys}

module _ ⦃p : Primitives⦄ (laws : IsLawful p) where
  open p use {Point, Scalar, base_mul}

  payload_keys-eq : (ss : List Point) → payload_keys ss ≡ ok (map (pi_key laws) ss)
  unfolding payload_keys
  payload_keys-eq [] = refl
  payload_keys-eq (s ∷ ss) = rw (h_pi-eq laws s, payload_keys-eq ss) refl

  -- With the derived keys `unwrap_reply` puts on the layers that the hops took off.
  unwrap_reply-eq :
      (ss : List Point) (d : Bytes) → unwrap_reply (map (pi_key laws) ss) d ≡ encrypt_layers ss d
  unfolding unwrap_reply encrypt_layers
  unwrap_reply-eq [] d = refl
  unwrap_reply-eq (s ∷ ss) d = rw (h_pi-eq laws s, unwrap_reply-eq ss d) refl

  first_onion-append :
      (alpha : Point) (ss : List Point) (beta text : Bytes)
      → length ss ≢ 0
      → first_onion alpha ss beta [] ++ text ≡ first_onion alpha ss beta text
  first_onion-append alpha [] beta text h = absurd (h refl)
  first_onion-append alpha (s ∷ ss) beta text h =
      append_assoc (p.compress alpha) (beta ++ (mu (h_mu s) beta ++ [])) text
      ∙ ap (λ t. p.compress alpha ++ t)
          (append_assoc beta (mu (h_mu s) beta ++ []) text
            ∙ ap (λ t. beta ++ t) (ap (λ t. t ++ text) (append-nil (mu (h_mu s) beta))))

  -- Where `max_path_length` is at most 2^26, so that the header's size does not wrap in a `u32`: a reply
  -- block for a path of one to `max_path_length` nodes with addresses of 32 bytes, and
  -- `meta` of 51 bytes: `create_surb` succeeds; a text appended to the block that is empty or longer
  -- than the cipher's block travels along the path, each node but the last relaying it to the next
  -- one; the last gets `meta` and some data, from which `unwrap_reply` restores the text.
  pub unwrap_reply-create_surb :
      (sc : Scylla) (draws : Draws) (o : Owner Scalar) (os : List (Owner Scalar))
      (meta text : Bytes)
      → suc (length os) ≤ sc.max_path_length
      → sc.max_path_length ≤ 2 ^ 26
      → ((k : ℕ) → length (draws.fill k) ≡ k)
      → HasAddress os
      → length meta ≡ reply_meta_length
      → IsBlock laws text
      → (keys : List Bytes) × (surb : Bytes) × (answer : Bytes) × (create_surb sc draws
            (map node_of (o ∷ os))
            meta
          ≡ ok (keys, surb))
        × (travel sc (map (λ w. w.private_key) (o ∷ os)) (surb ++ text)
            ≡ ok (map relay_meta os, reply meta answer))
        × (unwrap_reply keys answer ≡ ok text)
  unfolding create_surb
  unwrap_reply-create_surb sc draws o os meta text short low fills has hm block =
      let factor = p.from_bytes_mod_order_wide draws.wide in
      let alpha = base_mul factor in
      let ss = shared_secrets (map node_of (o ∷ os)) alpha factor in
      let info : Bytes = flag_byte Flag.deliver ∷ meta in
      let w =
        wrap-IsWrapped laws sc draws o os info [] short low fills has (ap suc hm) (inl refl) in
      let nothing : w.wrapped ≡ [] = length-zero→nil w.wrapped w.wrapped_length in
      let r = decrypt_layers-IsRestored laws ss text block in
      (
        map (pi_key laws) ss,
        first_onion alpha ss w.beta [],
        r.out,
        rw (w.returns, nothing, payload_keys-eq ss) refl,
        ap (travel sc (map (λ w. w.private_key) (o ∷ os))) (
              first_onion-append alpha ss w.beta text
                (λ e. omega (arith, e, length-shared_secrets (map node_of (o ∷ os)) alpha factor)))
            ∙ travel-first_onion laws sc info (reply meta) (ap suc hm) (λ next d. refl)
                (λ alpha s beta payload plain junk key room k d e.
                  finish-reply laws (header_length sc) alpha s beta payload plain meta junk hm room
                    k d e)
                os o alpha factor w.beta text r.out refl has w.beta_length w.opens r.returns,
        unwrap_reply-eq ss r.out ∙ r.restored,
      )
