-- ===== src/MultilevelVecMap/Change.antt =====
-- `get_mut` and `remove` of a MultilevelVecMap.
use grid_server.Base.{
  Returns-bind, ◌>>=◌, zero, suc, ◌∙◌, suc, ℕ, ◌≡◌, refl, Option, none, some, List, ok, undefined,
  Returns, returns, ap, subst,
}
use grid_server.MultilevelVecMap.{
  nil, Entry, Entries, empty, value, level, nth, nth_or, put, part, edit_from,
}
use grid_server.MultilevelVecMap.Slots.{
  entry_level, IsEntry, AreEntries, entry_value, find, find-nil,
}
use grid_server.MultilevelVecMap.Lookup.{next-ChangedInto, ChangedInto, last-ChangedInto}

module _ {T : Type 0} where
  -- No value was there, or it has become `after` of it.
  abbrev pub EditedFrom :
      (left depth : ℕ) → Entries T → List ℕ → (T → Entry T) → Option (T × Entries T) → Type 0
  EditedFrom left depth es key after none = find left depth es key ≡ none
  EditedFrom left depth es key after (some (old, rest)) =
      ChangedInto left depth es key (entry_value (after old)) (some old, rest)

  edit_from-last :
      (depth : ℕ) (es : Entries T) (key : List ℕ) (after : T → Entry T)
      → ((x : T) → IsEntry 0 (after x))
      → AreEntries 0 es
      → Returns (EditedFrom 0 depth es key after) (edit_from 0 depth es key after)
  unfolding edit_from nth_or
  edit_from-last depth es key after fits h = go (nth es (part key depth)) refl (h (part key depth))
    where
      go :
          (o : Option (Entry T))
          → nth es (part key depth) ≡ o
          → IsEntry 0 (elim o [ none ↦ empty | some e ↦ e ])
          → Returns (EditedFrom 0 depth es key after) (elim o [
            | none ↦ ok none
            | some empty ↦ ok none
            | some (value old) ↦ ok (some (old, put empty es (part key depth) (after old)))
            | some (level inner) ↦ undefined
          ])
      go none at here = returns (ap (λ o. entry_value (elim o [ none ↦ empty | some e ↦ e ])) at)
      go (some empty) at here =
          returns (ap (λ o. entry_value (elim o [ none ↦ empty | some e ↦ e ])) at)
      go (some (value old)) at here = returns (
          subst
            (λ v.
              ChangedInto 0 depth es key (entry_value (after old))
                (v, put empty es (part key depth) (after old)))
            (ap (λ o. entry_value (elim o [ none ↦ empty | some e ↦ e ])) at)
            (last-ChangedInto depth es key (after old) h (fits old)))
      go (some (level inner)) at here = elim here [ ]

  edit_from-next :
      (left depth : ℕ) (es : Entries T) (key : List ℕ) (after : T → Entry T)
      → ((inner : Entries T)
          → AreEntries left inner
          → Returns
              (EditedFrom left (suc depth) inner key after)
              (edit_from left (suc depth) inner key after))
      → AreEntries (suc left) es
      → Returns (EditedFrom (suc left) depth es key after) (edit_from (suc left) depth es key after)
  unfolding edit_from nth_or
  edit_from-next left depth es key after below h =
      go (nth es (part key depth)) refl (h (part key depth))
    where
      inside : Option (Entry T) → Entries T
      inside o = entry_level (elim o [ none ↦ level nil | some e ↦ e ])

      step :
          (inner : Entries T)
          → entry_level (nth_or (level nil) es (part key depth)) ≡ inner
          → (r : Option (T × Entries T)) → EditedFrom left (suc depth) inner key after r
          → Returns (EditedFrom (suc left) depth es key after) (elim r [
            | none ↦ ok none
            | some (old, rest) ↦ ok (some (old, put (level nil) es (part key depth) (level rest)))
          ])
      step inner at none edited = returns (ap (λ v. find left (suc depth) v key) at ∙ edited)
      step inner at (some (old, rest)) edited = returns (
          next-ChangedInto left depth es inner key (entry_value (after old)) (some old, rest) at h
            edited)

      go :
          (o : Option (Entry T))
          → nth es (part key depth) ≡ o
          → IsEntry (suc left) (elim o [ none ↦ level nil | some e ↦ e ])
          → Returns (EditedFrom (suc left) depth es key after) (elim o [
            | some (level inner) ↦ edit_from left (suc depth) inner key after >>= λ r. elim r [
              | none ↦ ok none
              | some (old, rest) ↦ ok (some (old, put (level nil) es (part key depth) (level rest)))
            ]
            | _ ↦ ok none
          ])
      go none at here =
          returns
            (ap (λ o. find left (suc depth) (inside o) key) at ∙ find-nil left (suc depth) key)
      go (some empty) at here = elim here [ ]
      go (some (value old)) at here = elim here [ ]
      go (some (level inner)) at here =
          Returns-bind (below inner here) (λ r edited. step inner (ap inside at) r edited)

  pub edit_from_lem :
      (left depth : ℕ) (es : Entries T) (key : List ℕ) (after : T → Entry T)
      → ((x : T) → IsEntry 0 (after x))
      → AreEntries left es
      → Returns (EditedFrom left depth es key after) (edit_from left depth es key after)
  edit_from_lem zero depth es key after fits h = edit_from-last depth es key after fits h
  edit_from_lem (suc left) depth es key after fits h =
      edit_from-next left depth es key after
        (λ inner g. edit_from_lem left (suc depth) inner key after fits g) h
