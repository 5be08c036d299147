-- ===== src/LinkedVecMap/Writing.antt =====
-- The write through the reference to a value.
use grid_server.Base.{
  ℕ, ◌≡◌, refl, sym, ap, ◌∙◌, subst, inl, inr, Option, none, some, List, [], ◌∷◌, ◌++◌, ◌==◌,
  if◌then◌else◌, Bool-cases, Option-cases, Returns, returns, Returns-bind,
}
use grid_server.VecMap
use grid_server.LinkedVecMap.{LinkedVecMap, get_mut, contains_key}
use grid_server.LinkedVecMap.Members.{Distinct, if_ne}
use grid_server.LinkedVecMap.Ring.{Item}
use grid_server.LinkedVecMap.Index.{written, find_addr, lookup, Index, keys-append, length-middle}
use grid_server.LinkedVecMap.Written.{set_value-Layout}
use grid_server.LinkedVecMap.Refinement.{
  Represents, linked, Layout-same, find-Linked, lookup-none, Linked-found, entry_at-ok,
}

module _ {V : Type 0} where
  written-absent :
      (k : ℕ) (f : V → V) (es : List (ℕ × V)) → lookup k es ≡ none → written k f es ≡ es
  written-absent k f [] h = refl
  written-absent k f ((j, v) ∷ es) h = elim (Bool-cases (j == k)) [
    | inl here ↦ absurd (cc (sym (ap (λ t. if t then some v else lookup k es) here) ∙ h))
    | inr other ↦ rw other (ap (◌∷◌ (j, v)) (written-absent k f es (sym (if_ne j k _ _ other) ∙ h)))
  ]

  find-write :
      (j : ℕ) (ys : List (Item V)) (x : Item V) (zs : List (Item V)) (v : V)
      → find_addr j (ys ++ record x { val = v } ∷ zs) ≡ find_addr j (ys ++ x ∷ zs)
  find-write j [] x zs v = refl
  find-write j (y ∷ ys) x zs v =
      ap (λ o. if y.key == j then some y.addr else o) (find-write j ys x zs v)

  pub Index-write :
      (index : VecMap.VecMap ℕ) (ys : List (Item V)) (x : Item V) (zs : List (Item V)) (v : V)
      → Index index (ys ++ x ∷ zs)
      → Index index (ys ++ record x { val = v } ∷ zs)
  Index-write index ys x zs v i = record {
    finds = λ j. i.finds j ∙ sym (find-write j ys x zs v);
    distinct =
        subst Distinct (keys-append ys (x ∷ zs) ∙ sym (keys-append ys (record x { val = v } ∷ zs)))
          i.distinct;
    counted = i.counted ∙ length-middle ys x zs ∙ sym (length-middle ys (record x { val = v }) zs);
  }

  pub get_mut-Represents :
      (m : LinkedVecMap V) (es : List (ℕ × V)) (k : ℕ) (f : V → V)
      → Represents m es
      → Returns {A = Option V × LinkedVecMap V}
          (λ r. (r.0 ≡ lookup k es) × Represents r.1 (written k f es))
          (get_mut m k f)
  unfolding get_mut
  get_mut-Represents m es k f h = elim (Option-cases (VecMap.get m.map k)) [
    | inl absent ↦
        let missing = lookup-none m es k h absent in
        rw (absent, get_mut) (returns (sym missing, rw (written-absent k f es missing) h))
    | inr (p, found) ↦
        let l = Linked-found m es k p h found in
        let a = find-Linked m es k p l found in
        rw (found, get_mut)
          (rw (sym a.is_addr) (
            rw (entry_at-ok m a.before a.item a.after a.frees a.layout) (
              Returns-bind
                (set_value-Layout m a.before a.item a.after a.frees (f a.item.val) a.layout)
                (λ m' (l, same). returns (
                  sym a.looks_up,
                  linked (record {
                    items = a.before ++ record a.item { val = f a.item.val } ∷ a.after;
                    frees = a.frees;
                    layout = Layout-same same l;
                    index =
                        rw same.map
                          (Index-write m.map a.before a.item a.after (f a.item.val) a.index);
                    holds = a.writes f;
                  }),
                )))))
  ]

  pub contains_key-Represents :
      (m : LinkedVecMap V) (es : List (ℕ × V)) (k : ℕ)
      → Represents m es
      → contains_key m k ≡ VecMap.is_some (lookup k es)
  unfolding contains_key VecMap.contains_key
  contains_key-Represents m es k h = elim (Option-cases (VecMap.get m.map k)) [
    | inl absent ↦ rw (absent, contains_key) (rw (lookup-none m es k h absent) refl)
    | inr (p, found) ↦
        rw (found, contains_key)
          (rw (find-Linked m es k p (Linked-found m es k p h found) found).looks_up refl)
  ]
