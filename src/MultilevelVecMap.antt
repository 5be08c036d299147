-- ===== src/MultilevelVecMap.antt =====
-- shared/src/utils/multilevel_vec_map.rs: a map from keys of several parts to values, kept as vectors
-- nested one level deep for each part. A part that the key lacks is zero. `unreachable_unchecked`
-- is `undefined`. The parts of keys stay below the limit of an allocation.
pub mod Remove
pub mod Slots
pub mod Lookup
pub mod Change
pub mod Insert
mod Tests
use grid_server.Base.{
  ℕ, zero, suc, ◌+◌, ◌-◌, Bool, true, false, Option, none, some, List, Run, ok, undefined, ◌>>=◌,
  checked_sub, length, get_or, leb, ltb, ◌==◌, if◌then◌else◌,
}

mutual
  pub data Entry (T : Type 0) : Type 0 where
    empty : Entry T
    value : T → Entry T
    level : Entries T → Entry T

  pub data Entries (T : Type 0) : Type 0 where
    nil : Entries T
    cons : Entry T → Entries T → Entries T

pub record MultilevelVecMap (T : Type 0) : Type 0 where
  pub n : ℕ
  pub levels_idx : ℕ
  pub vec : Entries T

-- `*key.get(level).unwrap_or(&0)`
abbrev pub part : List ℕ → ℕ → ℕ
part key at = get_or key at 0

module _ {T : Type 0} where
  unfoldable pub nth : Entries T → ℕ → Option (Entry T)
  nth nil i = none
  nth (cons e es) zero = some e
  nth (cons e es) (suc i) = nth es i

  -- The vector extended by `fill` so that `i` is inside, with `e` at `i`.
  unfoldable pub put : Entry T → Entries T → ℕ → Entry T → Entries T
  put fill nil zero e = cons e nil
  put fill nil (suc i) e = cons fill (put fill nil i e)
  put fill (cons x es) zero e = cons e es
  put fill (cons x es) (suc i) e = cons x (put fill es i e)

  -- The entry at `i` of the vector extended by `fill`.
  unfoldable pub nth_or : Entry T → Entries T → ℕ → Entry T
  unfolding nth
  nth_or fill es i = elim (nth es i) [ none ↦ fill | some e ↦ e ]

  unfoldable pub new : ℕ → Run (MultilevelVecMap T)
  new levels = do
    levels_idx ← checked_sub levels 1
    ok (record { n = 0; levels_idx = levels_idx; vec = nil })

  unfoldable pub with_capacity : (capacity levels : ℕ) → Run (MultilevelVecMap T)
  unfolding new
  with_capacity capacity levels = new levels

  unfoldable pub len : MultilevelVecMap T → ℕ
  len m = m.n

  unfoldable pub is_empty : MultilevelVecMap T → Bool
  is_empty m = m.n == 0

  unfoldable pub clear : MultilevelVecMap T → MultilevelVecMap T
  clear m = record m { n = 0; vec = nil }

  -- `left` more levels stand below the vector `es`, which is at `depth`.
  unfoldable pub get_from : (left depth : ℕ) → Entries T → List ℕ → Run (Option T)
  unfolding nth
  get_from zero depth es key = elim (nth es (part key depth)) [
    | none ↦ ok none
    | some empty ↦ ok none
    | some (value x) ↦ ok (some x)
    | some (level inner) ↦ undefined
  ]
  get_from (suc left) depth es key = elim (nth es (part key depth)) [
    | some (level inner) ↦ get_from left (suc depth) inner key
    | _ ↦ ok none
  ]

  unfoldable pub get : MultilevelVecMap T → List ℕ → Run (Option T)
  unfolding get_from
  get m key =
      if ltb (m.levels_idx + 1) (length key) then ok none else get_from m.levels_idx 0 m.vec key

  -- The value that the key had, and the vector with `x` there.
  unfoldable pub insert_into :
      (left depth : ℕ) → Entries T → List ℕ → T → Run (Option T × Entries T)
  unfolding put nth_or nth
  insert_into zero depth es key x = elim (nth_or empty es (part key depth)) [
    | empty ↦ ok (none, put empty es (part key depth) (value x))
    | value old ↦ ok (some old, put empty es (part key depth) (value x))
    | level inner ↦ undefined
  ]
  insert_into (suc left) depth es key x = elim (nth_or (level nil) es (part key depth)) [
    | level inner ↦ do
      (old, grown) ← insert_into left (suc depth) inner key x
      ok (old, put (level nil) es (part key depth) (level grown))
    | _ ↦ undefined
  ]

  -- A key that is too long is not inserted.
  unfoldable pub insert : MultilevelVecMap T → List ℕ → T → Run (Option T × MultilevelVecMap T)
  unfolding insert_into
  insert m key x = if ltb (m.levels_idx + 1) (length key) then ok (none, m) else (do
    (old, vec) ← insert_into m.levels_idx 0 m.vec key x
    ok (elim old [
      | none ↦ (none, record m { n = m.n + 1; vec = vec })
      | some was ↦ (some was, record m { vec = vec })
    ]))

  unfoldable pub contains_key : MultilevelVecMap T → List ℕ → Run Bool
  contains_key m key = get m key >>= λ found. ok (elim found [ none ↦ false | some x ↦ true ])

  -- The loop of `get_mut` and of `remove`: the value that the key had, and the vector with `after` of
  -- that value there.
  unfoldable pub edit_from :
      (left depth : ℕ) → Entries T → List ℕ → (T → Entry T) → Run (Option (T × Entries T))
  unfolding put nth
  edit_from zero depth es key after = elim (nth es (part key depth)) [
    | none ↦ ok none
    | some empty ↦ ok none
    | some (value old) ↦ ok (some (old, put empty es (part key depth) (after old)))
    | some (level inner) ↦ undefined
  ]
  edit_from (suc left) depth es key after = elim (nth es (part key depth)) [
    | some (level inner) ↦ edit_from left (suc depth) inner key after >>= λ r. elim r [
      | none ↦ ok none
      | some (old, rest) ↦ ok (some (old, put (level nil) es (part key depth) (level rest)))
    ]
    | _ ↦ ok none
  ]

  -- `update` is what the caller writes through the reference. The value before, and the map after.
  unfoldable pub get_mut :
      MultilevelVecMap T → List ℕ → (T → T) → Run (Option T × MultilevelVecMap T)
  unfolding edit_from
  get_mut m key update =
      if ltb (m.levels_idx + 1) (length key)
      then ok (none, m)
      else (edit_from m.levels_idx 0 m.vec key (λ x. value (update x)) >>= λ r. elim r [
        | none ↦ ok (none, m)
        | some (x, vec) ↦ ok (some x, record m { vec = vec })
      ])

  unfoldable pub remove : MultilevelVecMap T → List ℕ → Run (Option T × MultilevelVecMap T)
  unfolding edit_from
  remove m key =
      if ltb (m.levels_idx + 1) (length key)
      then ok (none, m)
      else (edit_from m.levels_idx 0 m.vec key (λ x. empty) >>= λ r. elim r [
        | none ↦ ok (none, m)
        | some (old, vec) ↦ do n ← checked_sub m.n 1; ok (some old, record m { n = n; vec = vec })
      ])
