-- ===== src/BitSet/Init.antt =====
-- `init` of a BitSet over a vector.
use grid_server.Base.{
  ℕ, ◌+◌, ◌-◌, ◌*◌, ◌/◌, ◌%◌, ◌^◌, ◌≤◌, ◌<◌, ◌≡◌, refl, ◌∙◌, true, false, arith, length, replicate,
  get_or-set, ==_refl, zero, suc, length-replicate,
}
use native.Mathlib.Nat
use grid_server.BitSet.{BitCore, init, contains, len}
use grid_server.BitSet.Core.{Laws, word_bit}
use grid_server.BitSet.Members.{contains_lem}

-- The lowest bit of `2 ^ k - 1`.
odd_ones : (k : ℕ) → 0 < k → (2 ^ k - 1) % 2 ≡ 1
odd_ones zero h = absurd (omega arith)
odd_ones (suc k) h =
    let positive : 1 ≤ 2 ^ k = Nat.one-le-pow k 2 (omega arith) in
    rw (Nat.pow-succ' 2 k) (omega arith)

-- For a length that is not a multiple of 64, `init` with `false` gives a set whose count is zero
-- and which contains the first number of its last block: the last word is written whatever the
-- value.
pub init-false-contains :
    (core : BitCore) (laws : Laws core) (n : ℕ)
    → 0 < n % 64
    → (len (init false n) ≡ 0) × (contains core (init false n) (n / 64 * 64) ≡ true)
unfolding init len word_bit
init-false-contains core laws n h =
    let block : n / 64 * 64 / 64 ≡ n / 64 = omega arith in
    let low : n / 64 * 64 % 64 ≡ 0 = omega arith in
    let last : n / 64 + 1 - 1 ≡ n / 64 = omega arith in
    let short : n / 64 < length (replicate {A = ℕ} (n / 64 + 1) 0) =
      omega (arith, length-replicate {0} {A = ℕ} (n / 64 + 1) 0) in
    (
      refl,
      contains_lem core laws (init false n) (n / 64 * 64)
          ∙ rw (block, low, last)
              (rw
                (get_or-set (replicate (n / 64 + 1) 0) (n / 64) (n / 64) (2 ^ (n % 64) - 1) 0 short)
                (rw (==_refl (n / 64)) (rw (odd_ones (n % 64) h) refl))),
    )
