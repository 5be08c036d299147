-- ===== src/LinkedVecMap/Entries.antt =====
-- The entry of a key: occupied by a node, or vacant.
use grid_server.Base.{
  ℕ, ◌+◌, ◌≡◌, refl, sym, ap, ◌∙◌, inl, inr, none, some, List, [], ◌∷◌, ◌++◌, ◌==◌, if◌then◌else◌,
  Option-cases, Run, ok, panic, or_else, ◌>>=◌, Returns, returns, Returns-map, Returns-bind,
}
use grid_server.VecMap
use grid_server.VecMap.{is_some}
use grid_server.VecMap.Lookup.{value_or, get_or_insert_lem, get_or_insert-n}
use grid_server.LinkedVecMap.{
  LinkedVecMap, entry_at, set_value, detach, attach, ensure_guard_node, new_node, remove,
}
use grid_server.LinkedVecMap.Ring.{Item}
use grid_server.LinkedVecMap.Index.{without, entries-append, lookup, absent-find, Index-insert}
use grid_server.LinkedVecMap.Nodes.{attach-Layout}
use grid_server.LinkedVecMap.Made.{new_node-Loose}
use grid_server.LinkedVecMap.Removing.{entry_at_of}
use grid_server.LinkedVecMap.Refinement.{
  without-none, Linked, Represents, linked, Layout-same, ensure-Linked, ensure_guard_node-map,
  lookup-none, Linked-found, find-Linked, entry_at-ok,
}

pub data Entry : Type 0 where
  occupied : ℕ → Entry
  vacant : ℕ → Entry

module _ {V : Type 0} where
  unfoldable pub entry_of_key : LinkedVecMap V → ℕ → Entry
  unfolding VecMap.get
  entry_of_key m k = elim (VecMap.get m.map k) [ some p ↦ occupied p | none ↦ vacant k ]

  -- `VacantEntry::insert`: the value that its reference reads, and the map.
  unfoldable pub vacant_insert : LinkedVecMap V → ℕ → V → Run (V × LinkedVecMap V)
  unfolding ensure_guard_node new_node entry_at attach VecMap.get_or_insert
  vacant_insert m k v = do
    (p, m1) ← new_node (ensure_guard_node m) k v
    key ← entry_at m1 p
    m2 ← attach m1 p
    let (node, index) = VecMap.get_or_insert m2.map key.0 p in
        do e ← entry_at m2 node; ok (e.1, record m2 { map = index })

  -- `OccupiedEntry::insert`
  unfoldable pub occupied_insert : LinkedVecMap V → ℕ → V → Run (V × LinkedVecMap V)
  unfolding ensure_guard_node entry_at set_value detach attach
  occupied_insert m p v = do
    old ← entry_at (ensure_guard_node m) p
    m1 ← set_value (ensure_guard_node m) p v
    m2 ← detach m1 p
    m3 ← attach m2 p
    ok (old.1, m3)

  -- `OccupiedEntry::remove`, with its `unwrap`.
  unfoldable pub occupied_remove : LinkedVecMap V → ℕ → Run (V × LinkedVecMap V)
  unfolding entry_at remove
  occupied_remove m p = do
    key ← entry_at m p
    (removed, m') ← remove m key.0
    v ← or_else removed panic
    ok (v, m')

  unfoldable pub or_insert : LinkedVecMap V → Entry → V → Run (V × LinkedVecMap V)
  unfolding entry_at vacant_insert
  or_insert m (occupied p) v = do e ← entry_at m p; ok (e.1, m)
  or_insert m (vacant k) v = vacant_insert m k v

  -- The entries with one of `k`.
  abbrev pub ensured : ℕ → V → List (ℕ × V) → List (ℕ × V)
  ensured k v es = elim (lookup k es) [ none ↦ es ++ (k, v) ∷ [] | some u ↦ es ]

  vacant_lem :
      (m : LinkedVecMap V) (es : List (ℕ × V)) (k : ℕ) (v : V)
      → Represents m es
      → VecMap.get m.map k ≡ none
      → Returns {A = V × LinkedVecMap V}
          (λ r. (r.0 ≡ v) × Linked r.1 (es ++ (k, v) ∷ []))
          (vacant_insert m k v)
  unfolding vacant_insert
  vacant_lem m es k v h absent =
      let m0 : LinkedVecMap V = ensure_guard_node m in
      let g = ensure-Linked m es h in
      let absent0 : VecMap.get m0.map k ≡ none =
        ap (λ i. VecMap.get i k) (ensure_guard_node-map m) ∙ absent in
      let missing = absent-find k g.items (sym (g.index.finds k) ∙ absent0) in
      Returns-bind (new_node-Loose m0 k v g.items g.frees g.layout)
        (λ (p, m1) ((fs, loose), same_map, same_head).
          let x : Item V = record { addr = p; key = k; val = v } in
          rw (entry_at_of m1 p (k, v) loose.entry, vacant_insert)
            (Returns-bind (attach-Layout m1 x g.items fs (rw same_head loose)) (λ m2 (l, same).
              let same_index : m2.map ≡ m0.map = same.map ∙ same_map in
              let none_yet : VecMap.get m2.map k ≡ none =
                ap (λ i. VecMap.get i k) same_index ∙ absent0 in
              let is_new : (VecMap.get_or_insert m2.map k p).0 ≡ p =
                (get_or_insert_lem m2.map k k p).0 ∙ ap (λ o. value_or o p) none_yet in
              let index : VecMap.VecMap ℕ = (VecMap.get_or_insert m2.map k p).1 in
              let at : entry_at m2 (VecMap.get_or_insert m2.map k p).0 ≡ ok (k, v) =
                ap (entry_at m2) is_new ∙ entry_at-ok m2 g.items x [] fs (Layout-same same l) in
              rw (at, vacant_insert)
                (returns (
                  refl,
                  record {
                    items = g.items ++ x ∷ [];
                    frees = fs;
                    layout = Layout-same same l;
                    index =
                        Index-insert m2.map index g.items x (rw same_index g.index) missing
                          (λ j.
                            (get_or_insert_lem m2.map k j p).1
                            ∙ ap (λ o. if k == j then some (value_or o p) else VecMap.get m2.map j)
                                none_yet)
                          (get_or_insert-n m2.map k p
                            ∙ ap (λ o. if is_some o then m2.map.n else m2.map.n + 1) none_yet);
                    holds =
                        ap (λ es. es ++ (k, v) ∷ []) g.holds
                        ∙ sym (entries-append g.items (x ∷ []));
                  },
                )))))

  pub or_insert-Represents :
      (m : LinkedVecMap V) (es : List (ℕ × V)) (k : ℕ) (v : V)
      → Represents m es
      → Returns {A = V × LinkedVecMap V}
          (λ r. (r.0 ≡ value_or (lookup k es) v) × Represents r.1 (ensured k v es))
          (or_insert m (entry_of_key m k) v)
  unfolding entry_of_key or_insert
  or_insert-Represents m es k v h = elim (Option-cases (VecMap.get m.map k)) [
    | inl absent ↦
        let missing = lookup-none m es k h absent in
        rw (absent, entry_of_key)
          (Returns-map (vacant_lem m es k v h absent) (λ r (old, l).
            (old ∙ sym (ap (λ o. value_or o v) missing), rw (missing, ensured) (linked l))))
    | inr (p, found) ↦
        let a = find-Linked m es k p (Linked-found m es k p h found) found in
        rw (found, entry_of_key)
          (rw (sym a.is_addr) (
            rw (entry_at-ok m a.before a.item a.after a.frees a.layout)
              (returns (sym (ap (λ o. value_or o v) a.looks_up), rw (a.looks_up, ensured) h))))
  ]

  pub entry_of_key-vacant :
      (m : LinkedVecMap V) (k : ℕ) → VecMap.get m.map k ≡ none → entry_of_key m k ≡ vacant k
  unfolding entry_of_key
  entry_of_key-vacant m k e = rw (e, entry_of_key) refl

  pub entry_of_key-occupied :
      (m : LinkedVecMap V) (k p : ℕ) → VecMap.get m.map k ≡ some p → entry_of_key m k ≡ occupied p
  unfolding entry_of_key
  entry_of_key-occupied m k p e = rw (e, entry_of_key) refl

  pub absent_lem :
      (m : LinkedVecMap V) (es : List (ℕ × V)) (k : ℕ)
      → Represents m es
      → VecMap.get m.map k ≡ none
      → (lookup k es ≡ none) × (without k es ≡ es)
  absent_lem m es k h absent = (lookup-none m es k h absent, without-none m es k h absent)

  pub vacant_insert-Represents :
      (m : LinkedVecMap V) (es : List (ℕ × V)) (k : ℕ) (v : V)
      → Represents m es
      → VecMap.get m.map k ≡ none
      → Returns {A = V × LinkedVecMap V}
          (λ r. (r.0 ≡ v) × Represents r.1 (es ++ (k, v) ∷ []))
          (vacant_insert m k v)
  vacant_insert-Represents m es k v h absent =
      Returns-map (vacant_lem m es k v h absent) (λ r (e, l). (e, linked l))
