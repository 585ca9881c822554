-- ===== src/Scylla/Onion/Masks.antt =====
-- How a layer of the header is put on and taken off, on byte strings alone. `mask` is the keystream
-- over a header of length `n`, `more` its continuation over one hop.
use fragging.Common.{
  ℕ, ◌+◌, ◌-◌, ◌≤◌, ◌≡◌, sym, ap, ap₂, ◌∙◌, ◌++◌, append_assoc, length, take, drop, replicate,
  arith, length-append, length-drop, length-take_le, take-append-drop, drop-append_le,
  drop-append_ge, xor, length-xor, xor_cancel, xor-append, xor-append_left, xor-replicate_zero,
  drop-xor,
}
use fragging.Scylla.Primitives.{Bytes}

module _ (n c : ℕ) (mask more info inner : Bytes) (mask_n : length mask ≡ n)
    (more_c : length more ≡ c) (info_c : length info ≡ c) (inner_n : length inner ≡ n)
    (c_le : c ≤ n) where
  -- The layer around `inner`: cut to the length of the header.
  abbrev outer : Bytes
  outer = xor (info ++ inner) mask

  pub length-outer : length outer ≡ n
  length-outer = omega (arith, length-xor (info ++ inner) mask, length-append info inner)

  -- If the end of `inner` is the continued keystream, nothing is lost by the cut.
  pub peel : drop (n - c) inner ≡ more → xor (outer ++ replicate c 0) (mask ++ more) ≡ info ++ inner
  peel e =
      xor-append outer (replicate c 0) mask more (omega (arith, length-outer))
      ∙ ap₂ ◌++◌
          (ap (λ t. xor t mask)
              (ap (λ t. xor t mask) split
                ∙ xor-append_left kept more mask
                    (omega (arith, length-append info front, front_length)))
            ∙ xor_cancel kept mask (omega (arith, length-append info front, front_length)))
          (xor-replicate_zero c more more_c)
      ∙ sym split
    where
      front : Bytes
      front = take (n - c) inner

      front_length : length front ≡ n - c
      front_length = length-take_le (n - c) inner (omega arith)

      kept : Bytes
      kept = info ++ front

      split : info ++ inner ≡ kept ++ more
      split =
          ap (λ t. info ++ t) (sym (take-append-drop (n - c) inner) ∙ ap (λ t. front ++ t) e)
          ∙ sym (append_assoc info front more)

  -- If the end of `inner` is the filler after one more step, the end of the layer is the filler
  -- before it.
  pub keep :
      (k : ℕ) (filler : Bytes)
      → c ≤ k
      → k + length filler ≡ n
      → drop (k - c) inner ≡ xor (filler ++ replicate c 0) (drop k (mask ++ more))
      → drop k outer ≡ filler
  keep k filler c_le_k whole e =
      drop-xor k (info ++ inner) mask
      ∙ ap (λ t. xor t end)
          (drop-append_ge k info inner (omega arith)
            ∙ ap (λ (j : ℕ). drop (k - j) inner) info_c
            ∙ e
            ∙ ap (xor (filler ++ replicate c 0)) (drop-append_le k mask more (omega arith))
            ∙ xor-append filler (replicate c 0) end more (omega (arith, end_length)))
      ∙ xor-append_left (xor filler end) (xor (replicate c 0) more) end
          (omega (arith, end_length, length-xor filler end))
      ∙ xor_cancel filler end (omega (arith, end_length))
    where
      end : Bytes
      end = drop k mask

      end_length : length end ≡ n - k
      end_length = omega (arith, length-drop k mask)
