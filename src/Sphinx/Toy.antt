-- ===== src/Sphinx/Toy.antt =====
-- An instance of the external operations that computes: numbers under multiplication for the group,
-- checksums for the hashes. It shows that the assumed laws can hold together, and runs the examples.
use native.Mathlib.Nat.{mul_comm}
use fragging.Common.{
  ℕ, suc, ◌+◌, ◌*◌, ◌%◌, ◌≤◌, ◌≡◌, refl, ap, ◌∙◌, some, [], ◌∷◌, length, replicate,
  length-replicate, xor, length-xor, xor_cancel, arith,
}
use fragging.Scylla.Primitives.{IsCiphered}
use fragging.Sphinx.Constants.{Bytes}
use fragging.Sphinx.Externals.{Externals, IsLawful}

unfoldable pub checksum : Bytes → ℕ
checksum [] = 7
checksum (b ∷ bs) = (b + 3 * checksum bs) % 256

pub checksum-le : (bs : Bytes) → checksum bs ≤ 255
unfolding checksum
checksum-le [] = omega arith
checksum-le (b ∷ bs) = omega arith

abbrev point : ℕ → Bytes
point n = n ∷ replicate 31 0

abbrev times : ℕ → Bytes → Bytes
times a [] = point a
times a (b ∷ bs) = point (a * b)

abbrev scramble : Bytes → Bytes → Bytes
scramble key block = xor block (replicate (length block) (checksum key))

instance abbrev pub toy : Externals
toy = record {
  Scalar = ℕ;
  base_mul = point;
  montgomery_mul = times;
  scalar_mul = λ a b. b * a;
  from_bytes_mod_order = λ bs. checksum bs + 1;
  hkdf_expand = λ ikm info n. some (replicate n (checksum ikm));
  hmac = λ key text. replicate 32 (checksum text);
  lioness_encrypt = λ key block. some (scramble key block);
  lioness_decrypt = λ key block. some (scramble key block);
  digest_result_size = 32;
  raw_key_size = 192;
  apply_keystream = λ key nonce text. scramble key text;
}

length-scramble : (key block : Bytes) → length (scramble key block) ≡ length block
length-scramble key block =
    let stream = replicate (length block) (checksum key) in
    omega (arith, length-xor block stream, length-replicate (length block) (checksum key))

length-times : (a : ℕ) (bs : Bytes) → length (times a bs) ≡ 32
length-times a [] = ap suc (length-replicate 31 0)
length-times a (b ∷ bs) = ap suc (length-replicate 31 0)

scramble-IsCiphered :
    (key block : Bytes) → IsCiphered (λ b. some (scramble key b)) block (some (scramble key block))
scramble-IsCiphered key block =
    let stream = replicate (length block) (checksum key) in
    let same = length-scramble key block in
    record {
      out = scramble key block;
      returns = refl;
      same_length = same;
      inverse = ap some (
          ap (λ (n : ℕ). xor (xor block stream) (replicate n (checksum key))) same
          ∙ xor_cancel block stream
              (omega (arith, length-replicate (length block) (checksum key))));
    }

pub toy-IsLawful : IsLawful toy
toy-IsLawful = record {
  base_mul_mul = λ a b. refl;
  exchange = λ a b. ap point (mul_comm a b);
  length-base_mul = λ a. ap suc (length-replicate 31 0);
  length-montgomery_mul = length-times;
  hkdf_expand-IsExpanded = λ ikm info n h. record {
    key = replicate n (checksum ikm);
    returns = refl;
    has_length = length-replicate n (checksum ikm);
  };
  length-hmac = λ key text. length-replicate 32 (checksum text);
  raw_key_size-le = omega arith;
  lioness_encrypt-IsCiphered = λ key block h. scramble-IsCiphered key block;
  length-apply_keystream = λ key nonce text. length-scramble key text;
}
