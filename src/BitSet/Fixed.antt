-- ===== src/BitSet/Fixed.antt =====
-- shared/src/utils/bit_set.rs over an array of words. `n` is the number of words.
use grid_server.Base.{
  ℕ, zero, suc, ◌-◌, ◌+◌, ◌*◌, ◌/◌, ◌%◌, ◌^◌, ◌≤◌, ◌≡◌, refl, Bool, true, false, List, arith, Run,
  ok, panic, ◌>>=◌, checked_sub, length, set, replicate, ltb, leb, if◌then◌else◌, length-replicate,
  length-set,
}
use grid_server.BitSet.{BitCore, BitSet, below}

-- `Self::SIZE`
abbrev pub size : ℕ → ℕ
size n = 64 * n

unfoldable pub new : ℕ → BitSet
new n = record { len = 0; inner = replicate n 0 }

-- The words below `count` become `word`.
unfoldable pub fill : ℕ → ℕ → List ℕ → List ℕ
fill zero word arr = arr
fill (suc count) word arr = set (fill count word arr) count word

-- A write to an index past the end panics.
unfoldable pub init : ℕ → Bool → ℕ → Run BitSet
unfolding fill
init n value count =
    if ltb (size n) count
    then panic
    else (let last = 2 ^ (count % 64) - 1 in
        let max_idx = count / 64 in
        let arr = fill max_idx (if value then 2 ^ 64 - 1 else 0) (replicate n 0) in
        if ltb max_idx (length arr)
        then ok (record { len = if value then count else 0; inner = set arr max_idx last })
        else panic)

unfoldable pub clear : ℕ → BitSet → BitSet
clear n s = record { len = 0; inner = replicate n 0 }

module _ (core : BitCore) (n : ℕ) where
  open core use {bit_test, bit_set, bit_reset}

  unfoldable pub iter : BitSet → List ℕ
  unfolding below
  iter s = below (bit_test s.inner) (size n)

  -- An index past the end panics.
  unfoldable pub contains : BitSet → ℕ → Run Bool
  contains s value = if leb (size n) value then panic else ok (bit_test s.inner value)

  unfoldable pub insert : BitSet → ℕ → Bool × BitSet
  insert s value =
      if leb (size n) value
      then (false, s)
      else if bit_test s.inner value
      then (false, s)
      else (true, record { len = s.len + 1; inner = bit_set s.inner value })

  unfoldable pub remove : BitSet → ℕ → Run (Bool × BitSet)
  remove s value =
      if leb (size n) value
      then ok (false, s)
      else if bit_test s.inner value
      then (do
        count ← checked_sub s.len 1
        ok (true, record { len = count; inner = bit_reset s.inner value }))
      else ok (false, s)

  -- A copy without `value`.
  unfoldable pub exclude : BitSet → ℕ → Run BitSet
  unfolding remove
  exclude s value = do (removed, rest) ← remove s value; ok rest

length-fill : (count word : ℕ) (arr : List ℕ) → length (fill count word arr) ≡ length arr
unfolding fill
length-fill zero word arr = refl
length-fill (suc count) word arr =
    omega (arith, length-set (fill count word arr) count word, length-fill count word arr)

-- Over an array, `init` panics for every length from the size of the array on, the size itself
-- included.
pub init-full : (n : ℕ) (value : Bool) (count : ℕ) → size n ≤ count → init n value count ≡ panic
unfolding init
init-full n value count h = ground (
  arith,
  length-fill (count / 64) (if value then 2 ^ 64 - 1 else 0) (replicate n 0),
  length-replicate {0} {A = ℕ} n 0,
)
