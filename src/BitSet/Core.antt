-- ===== src/BitSet/Core.antt =====
-- What bitset_core says of its operations, and words for which it holds.
use grid_server.Base.{
  ◌-◌, [], ◌^◌, ◌∷◌, not, ◌||◌, replicate, ℕ, zero, suc, ◌+◌, ◌*◌, ◌/◌, ◌%◌, ◌<◌, ◌≡◌, refl, Bool,
  true, false, List, arith, length, set, get_or, ◌==◌, if◌then◌else◌, length-set, get_or-set,
}
use grid_server.BitSet.{BitCore}

-- The bit at a position of a word.
unfoldable pub word_bit : ℕ → ℕ → Bool
word_bit w zero = w % 2 == 1
word_bit w (suc k) = word_bit (w / 2) k

-- Some word is not zero.
abbrev pub any_word : List ℕ → Bool
any_word [] = false
any_word (w ∷ v) = not (w == 0) || any_word v

-- Bit `i` of a slice is bit `i % 64` of its word `i / 64`.
pub record Laws (core : BitCore) : Type 0 where
  pub test_lem :
      (v : List ℕ) (i : ℕ)
      → i < 64 * length v
      → core.bit_test v i ≡ word_bit (get_or v (i / 64) 0) (i % 64)
  pub length-set : (v : List ℕ) (i : ℕ) → i < 64 * length v → length (core.bit_set v i) ≡ length v
  pub length-reset :
      (v : List ℕ) (i : ℕ) → i < 64 * length v → length (core.bit_reset v i) ≡ length v
  pub test-set :
      (v : List ℕ) (i j : ℕ)
      → i < 64 * length v
      → j < 64 * length v
      → core.bit_test (core.bit_set v i) j ≡ (if i == j then true else core.bit_test v j)
  pub test-reset :
      (v : List ℕ) (i j : ℕ)
      → i < 64 * length v
      → j < 64 * length v
      → core.bit_test (core.bit_reset v i) j ≡ (if i == j then false else core.bit_test v j)
  pub any_lem : (v : List ℕ) → core.bit_any v ≡ any_word v
  pub init_lem : (v : List ℕ) → core.bit_init v false ≡ replicate (length v) 0

-- A word with one bit changed.
unfoldable pub with_bit : Bool → ℕ → ℕ → ℕ
with_bit b w zero = w / 2 * 2 + (if b then 1 else 0)
with_bit b w (suc k) = with_bit b (w / 2) k * 2 + w % 2

pub word_bit-with_bit :
    (b : Bool) (w k j : ℕ) → word_bit (with_bit b w k) j ≡ (if k == j then b else word_bit w j)
unfolding word_bit with_bit
word_bit-with_bit true w zero zero = ground arith
word_bit-with_bit false w zero zero = ground arith
word_bit-with_bit true w zero (suc j) =
    let e : (w / 2 * 2 + 1) / 2 ≡ w / 2 = omega arith in rw e (ground arith)
word_bit-with_bit false w zero (suc j) =
    let e : (w / 2 * 2 + 0) / 2 ≡ w / 2 = omega arith in rw e (ground arith)
word_bit-with_bit b w (suc k) zero = ground arith
word_bit-with_bit b w (suc k) (suc j) =
    let e : (with_bit b (w / 2) k * 2 + w % 2) / 2 ≡ with_bit b (w / 2) k = omega arith in
    rw e (ground (arith, word_bit-with_bit b (w / 2) k j))

-- The words of numbers.
abbrev pub words : BitCore
words = record {
  bit_test = λ v i. word_bit (get_or v (i / 64) 0) (i % 64);
  bit_set = λ v i. set v (i / 64) (with_bit true (get_or v (i / 64) 0) (i % 64));
  bit_reset = λ v i. set v (i / 64) (with_bit false (get_or v (i / 64) 0) (i % 64));
  bit_any = any_word;
  bit_init = λ v b. replicate (length v) (if b then 2 ^ 64 - 1 else 0);
}

test-with_bit :
    (b : Bool) (v : List ℕ) (i j : ℕ)
    → i < 64 * length v
    → word_bit
        (get_or (set v (i / 64) (with_bit b (get_or v (i / 64) 0) (i % 64))) (j / 64) 0)
        (j % 64)
      ≡ (if i == j then b else word_bit (get_or v (j / 64) 0) (j % 64))
test-with_bit b v i j h =
    rw (get_or-set v (i / 64) (j / 64) (with_bit b (get_or v (i / 64) 0) (i % 64)) 0 (omega arith))
      (ground (arith, word_bit-with_bit b (get_or v (i / 64) 0) (i % 64) (j % 64)))

pub words-Laws : Laws words
words-Laws = record {
  test_lem = λ v i h. refl;
  length-set = λ v i h. length-set v (i / 64) (with_bit true (get_or v (i / 64) 0) (i % 64));
  length-reset = λ v i h. length-set v (i / 64) (with_bit false (get_or v (i / 64) 0) (i % 64));
  test-set = λ v i j h k. test-with_bit true v i j h;
  test-reset = λ v i j h k. test-with_bit false v i j h;
  any_lem = λ v. refl;
  init_lem = λ v. refl;
}
