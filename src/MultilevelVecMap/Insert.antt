-- ===== src/MultilevelVecMap/Insert.antt =====
-- `insert` of a MultilevelVecMap.
use grid_server.Base.{
  ℕ, ◌+◌, ◌≤◌, ◌≡◌, refl, false, Option, none, some, arith, if◌then◌else◌, List, ok, length,
  Returns, returns, Returns-bind, sym, ap, ltb, ◌∙◌, if_app,
}
use grid_server.MultilevelVecMap.{Entries, MultilevelVecMap, get, insert, len}
use grid_server.MultilevelVecMap.Slots.{AreEntries, find, get_from_lem}
use grid_server.MultilevelVecMap.Lookup.{same_from, ChangedInto, insert_into_lem}

module _ {T : Type 0} where
  -- Every vector has the entries of its level.
  abbrev pub IsNested : MultilevelVecMap T → Type 0
  IsNested m = AreEntries m.levels_idx m.vec

  -- The count after an insertion that found `old`.
  abbrev pub count_after : ℕ → Option T → ℕ
  count_after n none = n + 1
  count_after n (some x) = n

  -- `insert` on `m` gave the old value and a map that differs from `m` at the keys equal to `key`.
  pub record Inserted (m : MultilevelVecMap T) (key : List ℕ) (x : T)
      (out : Option T × MultilevelVecMap T) : Type 0 where
    pub old : get m key ≡ ok out.0
    pub nested : IsNested out.1
    pub levels : out.1.levels_idx ≡ m.levels_idx
    pub count : len out.1 ≡ count_after (len m) out.0
    pub found :
        (k : List ℕ)
        → length k ≤ m.levels_idx + 1
        → get out.1 k ≡ (if same_from m.levels_idx 0 key k then ok (some x) else get m k)

  pub get-find :
      (m : MultilevelVecMap T) (k : List ℕ)
      → IsNested m
      → length k ≤ m.levels_idx + 1
      → get m k ≡ ok (find m.levels_idx 0 m.vec k)
  unfolding get
  get-find m k h short = ground (arith, get_from_lem m.levels_idx 0 m.vec k h)

  Inserted-of :
      (m : MultilevelVecMap T) (key : List ℕ) (x : T) (old : Option T) (es : Entries T) (n : ℕ)
      → IsNested m
      → length key ≤ m.levels_idx + 1
      → ChangedInto m.levels_idx 0 m.vec key (some x) (old, es)
      → n ≡ count_after m.n old
      → Inserted m key x (old, record m { n = n; vec = es })
  unfolding len
  Inserted-of m key x old es n h short into counted = record {
    old = get-find m key h short ∙ ap ok (sym into.old);
    nested = into.nested;
    levels = refl;
    count = counted;
    found = λ k fits. rw (get-find (record m { n = n; vec = es }) k into.nested fits) (
        rw (into.found k) (
          rw (get-find m k h fits)
            (if_app ok (same_from m.levels_idx 0 key k) (some x) (find m.levels_idx 0 m.vec k))));
  }

  -- In a map whose vectors have the entries of their levels, with a key that is not too long,
  -- `insert` returns: it hands out what `get` found, the count grows by one exactly where that was
  -- nothing, the vectors still have the entries of their levels, and afterwards `get` finds the new
  -- value under every key of allowed length that is equal after padding with zeros, and what it
  -- found before under every other such key.
  pub insert-Inserted :
      (m : MultilevelVecMap T) (key : List ℕ) (x : T)
      → IsNested m
      → length key ≤ m.levels_idx + 1
      → Returns (Inserted m key x) (insert m key x)
  unfolding insert
  insert-Inserted m key x h short =
      let inside : ltb (m.levels_idx + 1) (length key) ≡ false = ground arith in
      rw inside (
        Returns-bind (insert_into_lem m.levels_idx 0 m.vec key x h)
          (λ (old, es) into. go old es into))
    where
      go :
          (old : Option T) (es : Entries T)
          → ChangedInto m.levels_idx 0 m.vec key (some x) (old, es)
          → Returns (Inserted m key x) (
              ok (elim old [
                | none ↦ (none, record m { n = m.n + 1; vec = es })
                | some was ↦ (some was, record m { vec = es })
              ]))
      go none es into = returns (Inserted-of m key x none es (m.n + 1) h short into refl)
      go (some was) es into = returns (Inserted-of m key x (some was) es m.n h short into refl)
