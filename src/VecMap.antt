-- ===== src/VecMap.antt =====
-- shared/src/utils/vec_map.rs: a map from small numbers to values, kept as a vector of options with a
-- count. A mutable reference is its present value together with the write through it. Lengths stay
-- below `usize::MAX`, the limit of an allocation, so the count does not overflow.
pub mod Lookup
pub mod Count
pub mod Iteration
mod Tests
use grid_server.Base.{
  ℕ, suc, ◌+◌, ◌-◌, ◌≡◌, Bool, true, false, Option, none, some, List, [], ◌∷◌, ◌++◌, Run, ok,
  undefined, ◌>>=◌, or_else, checked_sub, length, get_elem?, set, take, replicate, leb, ltb, ◌==◌,
  if◌then◌else◌,
}

pub record VecMap {ℓ} (V : Type ℓ) : Type ℓ where
  pub n : ℕ
  pub v : List (Option V)

module _ {ℓ} {A : Type ℓ} where
  abbrev pub is_some : Option A → Bool
  is_some none = false
  is_some (some a) = true

  abbrev pub flatten_option : Option (Option A) → Option A
  flatten_option none = none
  flatten_option (some a) = a

  -- One past the last entry that is present: `rposition` and the increment.
  present_len : List (Option A) → ℕ
  present_len [] = 0
  present_len (x ∷ xs) =
      let rest = present_len xs in if rest == 0 then (if is_some x then 1 else 0) else suc rest

module _ {ℓ} {V : Type ℓ} where
  unfoldable pub new : VecMap V
  new = record { n = 0; v = [] }

  unfoldable pub len : VecMap V → ℕ
  len m = m.n

  unfoldable pub is_empty : VecMap V → Bool
  is_empty m = m.n == 0

  unfoldable pub clear : VecMap V → VecMap V
  clear m = record { n = 0; v = [] }

  -- `truncate(idx + 1)`, or `clear` where no entry is present.
  unfoldable pub shrink_to_fit : VecMap V → VecMap V
  unfolding present_len
  shrink_to_fit m = record m { v = take (present_len m.v) m.v }

  unfoldable pub get : VecMap V → ℕ → Option V
  get m key = if ltb key (length m.v) then flatten_option (get_elem? m.v key) else none

  -- `get_unchecked` is undefined where the slot is out of bounds or empty.
  unfoldable pub get_unchecked : VecMap V → ℕ → Run V
  get_unchecked m key = or_else (flatten_option (get_elem? m.v key)) undefined

  unfoldable pub contains_key : VecMap V → ℕ → Bool
  unfolding get
  contains_key m key = is_some (get m key)

  -- The write through a reference to the value of `key`.
  unfoldable pub write : VecMap V → ℕ → V → VecMap V
  write m key value = record m { v = set m.v key (some value) }

  unfoldable pub get_mut : VecMap V → ℕ → Option (V × (V → VecMap V))
  unfolding get write
  get_mut m key = elim (get m key) [ none ↦ none | some value ↦ some (value, write m key) ]

  unfoldable pub get_unchecked_mut : VecMap V → ℕ → Run (V × (V → VecMap V))
  unfolding get_unchecked write
  get_unchecked_mut m key = do value ← get_unchecked m key; ok (value, write m key)

  -- The vector extended with empty slots so that `key` is inside.
  pub extend_to : List (Option V) → ℕ → List (Option V)
  extend_to v key = if leb (length v) key then v ++ replicate (key - length v + 1) none else v

  -- Both branches that make a new value count it. A present value is kept.
  unfoldable pub get_or_insert : VecMap V → ℕ → V → V × VecMap V
  unfolding extend_to
  get_or_insert m key value =
      let v = extend_to m.v key in
      elim (flatten_option (get_elem? v key)) [
        | none ↦ (value, record { n = m.n + 1; v = set v key (some value) })
        | some old ↦ (old, record m { v = v })
      ]

  unfoldable pub insert : VecMap V → ℕ → V → Option V × VecMap V
  unfolding extend_to
  insert m key value =
      let v = extend_to m.v key in
      let was = flatten_option (get_elem? v key) in
      (was, record { n = if is_some was then m.n else m.n + 1; v = set v key (some value) })

  unfoldable pub remove : VecMap V → ℕ → Run (Option V × VecMap V)
  remove m key =
      if leb (length m.v) key then ok (none, m) else elim (flatten_option (get_elem? m.v key)) [
        | none ↦ ok (none, m)
        | some was ↦ do n ← checked_sub m.n 1; ok (some was, record { n = n; v = set m.v key none })
      ]

  unfoldable pub remove_unchecked : VecMap V → ℕ → Run (V × VecMap V)
  remove_unchecked m key = or_else (flatten_option (get_elem? m.v key)) undefined >>= λ was.
      checked_sub m.n 1 >>= λ n. ok (was, record { n = n; v = set m.v key none })

  -- `into_iter`: the values in the order of their keys.
  pub values_of : List (Option V) → List V
  values_of [] = []
  values_of (none ∷ v) = values_of v
  values_of (some x ∷ v) = x ∷ values_of v

  unfoldable pub into_iter : VecMap V → List V
  unfolding values_of
  into_iter m = values_of m.v

  -- The count is that of the values present.
  abbrev pub IsCounted : VecMap V → Type 0
  IsCounted m = let present = into_iter m in m.n ≡ length present

  -- The writes of `for value in &mut map`.
  map_slots : (V → V) → List (Option V) → List (Option V)
  map_slots f [] = []
  map_slots f (none ∷ v) = none ∷ map_slots f v
  map_slots f (some x ∷ v) = some (f x) ∷ map_slots f v

  unfoldable pub for_each_mut : (V → V) → VecMap V → VecMap V
  unfolding map_slots
  for_each_mut f m = record m { v = map_slots f m.v }
