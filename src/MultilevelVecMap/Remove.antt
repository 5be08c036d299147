-- ===== src/MultilevelVecMap/Remove.antt =====
-- `remove` and `get_mut` of a MultilevelVecMap.
use grid_server.Base.{
  ℕ, ◌+◌, ◌-◌, ◌≤◌, ◌<◌, ◌≡◌, refl, false, Option, none, some, arith, if◌then◌else◌, List, ok,
  length, Returns, returns, Returns-bind, sym, ap, ltb, ◌∙◌, if_app, ◌>>=◌, checked_sub,
}
use grid_server.MultilevelVecMap.{
  Entries, empty, value, MultilevelVecMap, get, get_mut, remove, len,
}
use grid_server.MultilevelVecMap.Slots.{find}
use grid_server.MultilevelVecMap.Lookup.{same_from, ChangedInto}
use grid_server.MultilevelVecMap.Change.{EditedFrom, edit_from_lem}
use grid_server.MultilevelVecMap.Insert.{IsNested, get-find}

module _ {T : Type 0} where
  -- The key had `old`, which is handed out, and keys equal to it have `y` now; `less` values fewer
  -- are counted.
  pub record Written (m : MultilevelVecMap T) (key : List ℕ) (old : T) (y : Option T) (less : ℕ)
      (out : Option T × MultilevelVecMap T) : Type 0 where
    pub had : get m key ≡ ok (some old)
    pub given : out.0 ≡ some old
    pub nested : IsNested out.1
    pub count : len out.1 + less ≡ len m
    pub found :
        (k : List ℕ)
        → length k ≤ m.levels_idx + 1
        → get out.1 k ≡ (if same_from m.levels_idx 0 key k then ok y else get m k)

  -- Nothing was under the key and nothing has changed, or `after` of the value is there.
  pub data Edited (m : MultilevelVecMap T) (key : List ℕ) (after : T → Option T) (less : ℕ)
      (out : Option T × MultilevelVecMap T) : Type 0 where
    absent : get m key ≡ ok none → out ≡ (none, m) → Edited m key after less out
    present : (old : T) → Written m key old (after old) less out → Edited m key after less out

  Written-of :
      (m : MultilevelVecMap T) (key : List ℕ) (old : T) (y : Option T) (es : Entries T) (n less : ℕ)
      → IsNested m
      → length key ≤ m.levels_idx + 1
      → ChangedInto m.levels_idx 0 m.vec key y (some old, es)
      → n + less ≡ m.n
      → Written m key old y less (some old, record m { n = n; vec = es })
  unfolding len
  Written-of m key old y es n less h short into counted = record {
    had = get-find m key h short ∙ ap ok (sym into.old);
    given = refl;
    nested = into.nested;
    count = counted;
    found = λ k fits. rw (get-find (record m { n = n; vec = es }) k into.nested fits) (
        rw (into.found k) (
          rw (get-find m k h fits)
            (if_app ok (same_from m.levels_idx 0 key k) y (find m.levels_idx 0 m.vec k))));
  }

  -- In a map whose vectors have the entries of their levels, with a key that is not too long,
  -- `get_mut` returns. Either `get` finds nothing and nothing changes, or it refers to the value
  -- that `get` found, and after a write through it the count is the same, the vectors still have
  -- the entries of their levels, and `get` finds what was written under every key of allowed length
  -- that is equal after padding with zeros, and what it found before under every other such key.
  pub get_mut-Edited :
      (m : MultilevelVecMap T) (key : List ℕ) (update : T → T)
      → IsNested m
      → length key ≤ m.levels_idx + 1
      → Returns (Edited m key (λ x. some (update x)) 0) (get_mut m key update)
  unfolding get_mut
  get_mut-Edited m key update h short =
      let inside : ltb (m.levels_idx + 1) (length key) ≡ false = ground arith in
      rw inside (
        Returns-bind (edit_from_lem m.levels_idx 0 m.vec key (λ x. value (update x)) (λ x. tt) h)
          go)
    where
      go :
          (r : Option (T × Entries T))
          → EditedFrom m.levels_idx 0 m.vec key (λ x. value (update x)) r
          → Returns
              (Edited m key (λ x. some (update x)) 0)
              (elim r [ none ↦ ok (none, m) | some (x, vec) ↦ ok (some x, record m { vec = vec }) ])
      go none e = returns (absent (get-find m key h short ∙ ap ok e) refl)
      go (some (x, es)) into =
          returns
            (present x (Written-of m key x (some (update x)) es m.n 0 h short into (omega arith)))

  -- In a map whose vectors have the entries of their levels, with a key that is not too long and a
  -- count that is not zero if the key has a value, `remove` returns. Either `get` finds nothing and
  -- nothing changes, or the value that `get` found is handed out, the count falls by one, the
  -- vectors still have the entries of their levels, and afterwards `get` finds nothing under every
  -- key of allowed length that is equal after padding with zeros, and what it found before under
  -- every other such key.
  pub remove-Edited :
      (m : MultilevelVecMap T) (key : List ℕ)
      → IsNested m
      → length key ≤ m.levels_idx + 1
      → ((v : T) → get m key ≡ ok (some v) → 0 < len m)
      → Returns (Edited m key (λ x. none) 1) (remove m key)
  unfolding remove len
  remove-Edited m key h short counted =
      let inside : ltb (m.levels_idx + 1) (length key) ≡ false = ground arith in
      rw inside (Returns-bind (edit_from_lem m.levels_idx 0 m.vec key (λ x. empty) (λ x. tt) h) go)
    where
      go :
          (r : Option (T × Entries T))
          → EditedFrom m.levels_idx 0 m.vec key (λ x. empty) r
          → Returns (Edited m key (λ x. none) 1) (elim r [
            | none ↦ ok (none, m)
            | some (old, vec) ↦ do
              n ← checked_sub m.n 1
              ok (some old, record m { n = n; vec = vec })
          ])
      go none e = returns (absent (get-find m key h short ∙ ap ok e) refl)
      go (some (old, es)) into =
          let some_value : 0 < m.n = counted old (get-find m key h short ∙ ap ok (sym into.old)) in
          let enough : ltb m.n 1 ≡ false = ground arith in
          rw enough (
            returns
              (present old (Written-of m key old none es (m.n - 1) 1 h short into (omega arith))))
