-- ===== src/BitSet.antt =====
-- shared/src/utils/bit_set.rs over `Vec<u64>`: a set of numbers, kept as the bits of words, with a count.
-- The operations on the bits of a slice are those of the package bitset_core, which is a parameter.
-- As with overflow checks, an underflow of the count panics.
pub mod Core
pub mod Changes
pub mod Members
pub mod Fixed
pub mod Init
mod Tests
use grid_server.Base.{
  ℕ, zero, suc, ◌+◌, ◌-◌, ◌*◌, ◌/◌, ◌%◌, ◌^◌, Bool, true, false, ◌&&◌, List, [], ◌∷◌, ◌++◌, Run, ok,
  ◌>>=◌, checked_sub, length, set, replicate, ltb, leb, ◌==◌, if◌then◌else◌,
}

-- `bitset_core::BitSet` for slices of `u64`.
pub record BitCore : Type 0 where
  pub bit_test : List ℕ → ℕ → Bool
  pub bit_set : List ℕ → ℕ → List ℕ
  pub bit_reset : List ℕ → ℕ → List ℕ
  pub bit_any : List ℕ → Bool
  pub bit_init : List ℕ → Bool → List ℕ

pub record BitSet : Type 0 where
  pub len : ℕ
  pub inner : List ℕ

-- Those of the numbers below a bound that pass a test, in ascending order.
unfoldable pub below : (ℕ → Bool) → ℕ → List ℕ
below test zero = []
below test (suc n) = below test n ++ (if test n then n ∷ [] else [])

unfoldable pub new : BitSet
new = record { len = 0; inner = [] }

unfoldable pub with_capacity : ℕ → BitSet
with_capacity capacity = record { len = 0; inner = [] }

unfoldable pub len : BitSet → ℕ
len s = s.len

unfoldable pub is_empty : BitSet → Bool
is_empty s = s.len == 0

unfoldable pub clear : BitSet → BitSet
clear s = record { len = 0; inner = [] }

-- The last word is the same for both values.
unfoldable pub init : Bool → ℕ → BitSet
init value n =
    let last = 2 ^ (n % 64) - 1 in
    let size = n / 64 + 1 in
    record {
      len = if value then n else 0;
      inner = set (replicate size (if value then 2 ^ 64 - 1 else 0)) (size - 1) last;
    }

-- The vector extended with zeros, so that the word of `value` is inside.
unfoldable pub extended : List ℕ → ℕ → List ℕ
extended inner value =
    if leb (length inner) (value / 64)
    then inner ++ replicate (value / 64 - length inner + 1) 0
    else inner

module _ (core : BitCore) where
  open core use {bit_test, bit_set, bit_reset}

  unfoldable pub iter : BitSet → List ℕ
  unfolding below
  iter s = below (bit_test s.inner) (length s.inner * 64)

  unfoldable pub contains : BitSet → ℕ → Bool
  contains s value = ltb (value / 64) (length s.inner) && bit_test s.inner value

  unfoldable pub insert : BitSet → ℕ → Bool × BitSet
  unfolding extended
  insert s value =
      let inner = extended s.inner value in
      if bit_test inner value
      then (false, record s { inner = inner })
      else (true, record { len = s.len + 1; inner = bit_set inner value })

  -- `count` numbers from `start` on.
  unfoldable pub insert_range : BitSet → (start count : ℕ) → BitSet
  unfolding insert
  insert_range s start zero = s
  insert_range s start (suc count) = insert_range (insert s start).1 (start + 1) count

  unfoldable pub remove : BitSet → ℕ → Run (Bool × BitSet)
  remove s value =
      if ltb (value / 64) (length s.inner) && bit_test s.inner value
      then (do
        n ← checked_sub s.len 1
        ok (true, record { len = n; inner = bit_reset s.inner value }))
      else ok (false, s)

  unfoldable pub extend : BitSet → List ℕ → BitSet
  unfolding insert
  extend s [] = s
  extend s (value ∷ values) = extend (insert s value).1 values

  unfoldable pub from_iter : List ℕ → BitSet
  unfolding extend new
  from_iter values = extend new values
