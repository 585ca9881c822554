-- ===== src/Scylla/Toy.antt =====
-- An instance of the primitives that computes: numbers under multiplication for the group, and
-- checksums for the hashes. It shows that the assumed laws can hold together, and runs the examples.
use native.Mathlib.Nat.{mul_comm}
use fragging.Common.{
  ℕ, zero, suc, ◌+◌, ◌*◌, ◌%◌, ◌≡◌, refl, ap, ◌∙◌, Option, none, some, [], ◌∷◌, ◌++◌, length, take,
  take-append, replicate, length-replicate, xor, length-xor, xor_cancel, ◌==◌, eq→==, arith,
}
use fragging.Scylla.Primitives.{Primitives, IsLawful, IsCiphered, Bytes}

unfoldable pub checksum : Bytes → ℕ
checksum [] = 7
checksum (b ∷ bs) = (b + 3 * checksum bs) % 256

abbrev pub first_byte : Bytes → Option ℕ
first_byte [] = none
first_byte (b ∷ bs) = some b

abbrev scramble : Bytes → Bytes → Bytes
scramble key block = xor block (replicate (length block) (checksum key))

instance abbrev pub toy : Primitives
toy = record {
  Point = ℕ;
  Scalar = ℕ;
  base_mul = λ s. s;
  point_mul = ◌*◌;
  scalar_mul = ◌*◌;
  point_eq = λ a b. a == b;
  from_bytes_mod_order_wide = λ bs. checksum bs + 1;
  scalar_from_hash = λ bs. checksum bs + 1;
  compress = λ a. a ∷ replicate 31 0;
  decompress = first_byte;
  sha256 = λ bs. checksum bs ∷ replicate 31 5;
  shake128 = λ bs n. replicate n (checksum bs);
  hkdf_expand = λ salt ikm info n. some (replicate n (checksum ikm));
  chacha20_fill = λ seed n. replicate n (checksum seed);
  lioness_encrypt = λ key block. some (scramble key block);
  lioness_decrypt = λ key block. some (scramble key block);
  lioness_block = 32;
}

replicate-add : (m n a : ℕ) → replicate (m + n) a ≡ replicate m a ++ replicate n a
unfolding replicate
replicate-add zero n a = ap (λ (k : ℕ). replicate k a) (omega arith)
replicate-add (suc m) n a =
    ap (λ (k : ℕ). replicate k a) (suc_add m n) ∙ ap (λ t. a ∷ t) (replicate-add m n a)
  where
    suc_add : (m n : ℕ) → suc m + n ≡ suc (m + n)
    suc_add m n = omega arith

take-replicate : (m n a : ℕ) → take m (replicate (m + n) a) ≡ replicate m a
take-replicate m n a =
    rw (replicate-add m n a) (take-append m (replicate m a) (replicate n a) (length-replicate m a))

scramble-IsCiphered :
    (key block : Bytes) → IsCiphered (λ b. some (scramble key b)) block (some (scramble key block))
scramble-IsCiphered key block =
    let stream = replicate (length block) (checksum key) in
    let same : length (xor block stream) ≡ length block =
      omega (arith, length-xor block stream, length-replicate (length block) (checksum key)) in
    record {
      out = scramble key block;
      returns = refl;
      same_length = same;
      inverse = ap some (
          ap (λ (n : ℕ). xor (xor block stream) (replicate n (checksum key))) same
          ∙ xor_cancel block stream
              (omega (arith, length-replicate (length block) (checksum key))));
    }

pub toy-IsLawful : IsLawful toy
toy-IsLawful = record {
  base_mul_mul = λ a b. refl;
  exchange = λ a b. mul_comm a b;
  point_eq-refl = λ a. eq→== a a refl;
  length-compress = λ a. ap suc (length-replicate 31 0);
  decompress-compress = λ a. refl;
  length-sha256 = λ m. ap suc (length-replicate 31 5);
  length-shake128 = λ m n. length-replicate n (checksum m);
  hkdf_expand-IsExpanded = λ salt ikm info n h. record {
    key = replicate n (checksum ikm);
    returns = refl;
    has_length = length-replicate n (checksum ikm);
  };
  length-chacha20_fill = λ seed n. length-replicate n (checksum seed);
  take-chacha20_fill = λ seed m n. take-replicate m n (checksum seed);
  lioness_encrypt-IsCiphered = λ key block h. scramble-IsCiphered key block;
  lioness_decrypt-IsCiphered = λ key block h. scramble-IsCiphered key block;
}
