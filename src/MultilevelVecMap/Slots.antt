-- ===== src/MultilevelVecMap/Slots.antt =====
-- The vectors of a MultilevelVecMap and what their entries nest.
use grid_server.Base.{
  undefined, true, false, ℕ, zero, suc, ◌≡◌, refl, Option, none, some, arith, ◌==◌, if◌then◌else◌,
  List, ok,
}
use grid_server.MultilevelVecMap.{
  Entry, empty, value, level, Entries, nil, cons, nth, put, nth_or, part, get_from,
}

module _ {T : Type 0} where
  -- What the extended vector has at an index: `fill` where nothing was.
  pub nth_or-put :
      (fill : Entry T) (es : Entries T) (i j : ℕ) (e : Entry T)
      → nth_or fill (put fill es i e) j ≡ (if i == j then e else nth_or fill es j)
  unfolding nth_or put nth
  nth_or-put fill nil zero zero e = refl
  nth_or-put fill nil zero (suc j) e = ground arith
  nth_or-put fill nil (suc i) zero e = ground arith
  nth_or-put fill nil (suc i) (suc j) e = ground (arith, nth_or-put fill nil i j e)
  nth_or-put fill (cons x es) zero zero e = refl
  nth_or-put fill (cons x es) zero (suc j) e = ground arith
  nth_or-put fill (cons x es) (suc i) zero e = ground arith
  nth_or-put fill (cons x es) (suc i) (suc j) e = ground (arith, nth_or-put fill es i j e)

  -- The entry that an extension adds above `left` levels.
  abbrev pub fill : ℕ → Entry T
  fill zero = empty
  fill (suc left) = level nil

  -- An entry above `left` levels.
  abbrev pub IsEntry : ℕ → Entry T → Type 0
  IsEntry zero empty = Unit
  IsEntry zero (value x) = Unit
  IsEntry zero (level inner) = ⊥
  IsEntry (suc left) empty = ⊥
  IsEntry (suc left) (value x) = ⊥
  IsEntry (suc left) (level inner) = (i : ℕ) → IsEntry left (nth_or (fill left) inner i)

  abbrev pub AreEntries : ℕ → Entries T → Type 0
  AreEntries left es = (i : ℕ) → IsEntry left (nth_or (fill left) es i)

  pub AreEntries-put :
      (left : ℕ) (es : Entries T) (i : ℕ) (e : Entry T)
      → AreEntries left es
      → IsEntry left e
      → AreEntries left (put (fill left) es i e)
  AreEntries-put left es i e h he j =
      rw (nth_or-put (fill left) es i j e)
        (elim (i == j) as (λ b. IsEntry left (if b then e else nth_or (fill left) es j)) [
          | true ↦ he
          | false ↦ h j
        ])

  -- The value that an entry of the last level has.
  abbrev pub entry_value : Entry T → Option T
  entry_value empty = none
  entry_value (value x) = some x
  entry_value (level inner) = none

  -- The vector that an entry of another level has.
  abbrev pub entry_level : Entry T → Entries T
  entry_level empty = nil
  entry_level (value x) = nil
  entry_level (level inner) = inner

  -- The value under a key, every vector read as though it were long enough.
  abbrev pub find : (left depth : ℕ) → Entries T → List ℕ → Option T
  find zero depth es key = entry_value (nth_or empty es (part key depth))
  find (suc left) depth es key =
      find left (suc depth) (entry_level (nth_or (level nil) es (part key depth))) key

  pub find-nil : (left depth : ℕ) (key : List ℕ) → find left depth nil key ≡ none
  unfolding nth_or nth
  find-nil zero depth key = refl
  find-nil (suc left) depth key = find-nil left (suc depth) key

  get_from_last :
      (depth : ℕ) (es : Entries T) (key : List ℕ)
      → AreEntries 0 es
      → get_from 0 depth es key ≡ ok (find 0 depth es key)
  unfolding get_from nth_or
  get_from_last depth es key h = last (nth es (part key depth)) (h (part key depth))
    where
      last :
          (o : Option (Entry T))
          → IsEntry 0 (elim o [ none ↦ empty | some e ↦ e ])
          → (elim o [
            | none ↦ ok none
            | some empty ↦ ok none
            | some (value x) ↦ ok (some x)
            | some (level inner) ↦ undefined
          ])
            ≡ ok (entry_value (elim o [ none ↦ empty | some e ↦ e ]))
      last none h = refl
      last (some empty) h = refl
      last (some (value x)) h = refl
      last (some (level inner)) h = elim h [ ]

  get_from_next :
      (left depth : ℕ) (es : Entries T) (key : List ℕ)
      → ((inner : Entries T)
          → AreEntries left inner
          → get_from left (suc depth) inner key ≡ ok (find left (suc depth) inner key))
      → AreEntries (suc left) es
      → get_from (suc left) depth es key ≡ ok (find (suc left) depth es key)
  unfolding get_from nth_or
  get_from_next left depth es key below h = next (nth es (part key depth)) (h (part key depth))
    where
      next :
          (o : Option (Entry T))
          → IsEntry (suc left) (elim o [ none ↦ level nil | some e ↦ e ])
          → (elim o [ some (level inner) ↦ get_from left (suc depth) inner key | _ ↦ ok none ])
            ≡ ok
                (find left (suc depth) (entry_level (elim o [ none ↦ level nil | some e ↦ e ])) key)
      next none h = rw (find-nil left (suc depth) key) refl
      next (some empty) h = elim h [ ]
      next (some (value x)) h = elim h [ ]
      next (some (level inner)) h = below inner h

  pub get_from_lem :
      (left depth : ℕ) (es : Entries T) (key : List ℕ)
      → AreEntries left es
      → get_from left depth es key ≡ ok (find left depth es key)
  get_from_lem zero depth es key h = get_from_last depth es key h
  get_from_lem (suc left) depth es key h =
      get_from_next left depth es key (λ inner g. get_from_lem left (suc depth) inner key g) h

IsEntry-fill : (T : Type 0) (left : ℕ) → IsEntry {T = T} left (fill left)
unfolding nth_or nth
IsEntry-fill T zero = tt
IsEntry-fill T (suc left) = λ i. IsEntry-fill T left

-- A vector that is empty has the entries of every level.
pub AreEntries-nil : (T : Type 0) (left : ℕ) → AreEntries {T = T} left nil
unfolding nth_or nth
AreEntries-nil T left = λ i. IsEntry-fill T left
