-- ===== src/LinkedVecMap/Inserting.antt =====
-- Insertion, and a lookup that makes its entry the newest.
use grid_server.Base.{
  ℕ, ◌+◌, ◌≡◌, refl, sym, ap, ◌∙◌, inl, inr, Option, none, some, List, [], ◌∷◌, ◌++◌, if◌then◌else◌,
  Option-cases, ok, ◌>>=◌, Returns, returns, Returns-map, Returns-bind, Returns-then,
}
use grid_server.VecMap
use grid_server.VecMap.{is_some}
use grid_server.VecMap.Lookup.{insert_lem, insert-n}
use grid_server.LinkedVecMap.{
  LinkedVecMap, entry_at, set_value, detach, attach, ensure_guard_node, new_node, insert,
  get_refresh, extend, from_iter, new,
}
use grid_server.LinkedVecMap.Ring.{Item}
use grid_server.LinkedVecMap.Links.{SameFields, SameFields-trans}
use grid_server.LinkedVecMap.Index.{
  entries, entries-append, lookup, without, lookup-absent, without-absent, absent-find,
  Index-insert, Index-move,
}
use grid_server.LinkedVecMap.Nodes.{attach-Layout}
use grid_server.LinkedVecMap.Made.{new_node-Loose}
use grid_server.LinkedVecMap.Written.{set_value-Layout}
use grid_server.LinkedVecMap.Refinement.{
  LayoutOf, Linked, Represents, linked, Layout-same, new-Represents, ensure-Linked, At, find-Linked,
  lookup-none, Linked-found, entry_at-ok, refresh-Layout,
}

module _ {V : Type 0} where
  -- The entry of `k` as the newest, where there is one.
  abbrev pub refreshed : ℕ → List (ℕ × V) → List (ℕ × V)
  refreshed k es = elim (lookup k es) [ none ↦ es | some v ↦ without k es ++ (k, v) ∷ [] ]

  -- The entries inserted one after another.
  abbrev pub inserted : List (ℕ × V) → List (ℕ × V) → List (ℕ × V)
  inserted es [] = es
  inserted es ((k, v) ∷ later) = inserted (without k es ++ (k, v) ∷ []) later

  overwrite_lem :
      (m : LinkedVecMap V) (ys : List (Item V)) (x : Item V) (zs : List (Item V)) (fs : List ℕ)
      (v : V)
      → LayoutOf m (ys ++ x ∷ zs) fs
      → Returns {A = Option V × LinkedVecMap V}
          (λ r.
            (r.0 ≡ some x.val)
            × LayoutOf r.1 ((ys ++ zs) ++ record x { val = v } ∷ []) fs
            × SameFields m r.1)
          (do
            old ← entry_at m x.addr
            m1 ← set_value m x.addr v
            m2 ← detach m1 x.addr
            m3 ← attach m2 x.addr
            ok (some old.1, m3))
  overwrite_lem m ys x zs fs v l = rw (entry_at-ok m ys x zs fs l) (
      Returns-bind (set_value-Layout m ys x zs fs v l) (λ m1 (l1, same1).
        Returns-then (detach m1 x.addr) (λ m2. attach m2 x.addr)
          (refresh-Layout m1 ys (record x { val = v }) zs fs (Layout-same same1 l1))
          (λ m3 (l3, same3). returns (refl, l3, SameFields-trans same1 same3))))

  refresh_lem :
      (m : LinkedVecMap V) (ys : List (Item V)) (x : Item V) (zs : List (Item V)) (fs : List ℕ)
      → LayoutOf m (ys ++ x ∷ zs) fs
      → Returns {A = Option V × LinkedVecMap V}
          (λ r. (r.0 ≡ some x.val) × LayoutOf r.1 ((ys ++ zs) ++ x ∷ []) fs × SameFields m r.1)
          (do
            old ← entry_at m x.addr
            m2 ← detach m x.addr
            m3 ← attach m2 x.addr
            ok (some old.1, m3))
  refresh_lem m ys x zs fs l = rw (entry_at-ok m ys x zs fs l) (
      Returns-then (detach m x.addr) (λ m2. attach m2 x.addr) (refresh-Layout m ys x zs fs l)
        (λ m3 (l3, same3). returns (refl, l3, same3)))

  pub moved-Linked :
      (m m' : LinkedVecMap V) (es : List (ℕ × V)) (k p : ℕ) (v : V) (a : At m es k p)
      → SameFields m m'
      → LayoutOf m' ((a.before ++ a.after) ++ record a.item { val = v } ∷ []) a.frees
      → Linked m' (without k es ++ (k, v) ∷ [])
  moved-Linked m m' es k p v a same l = record {
    items = (a.before ++ a.after) ++ record a.item { val = v } ∷ [];
    frees = a.frees;
    layout = l;
    index = rw same.map (Index-move m.map a.before a.item a.after v a.index);
    holds =
        ap (λ es. es ++ (k, v) ∷ []) a.others
        ∙ ap (λ k. entries (a.before ++ a.after) ++ (k, v) ∷ []) (sym a.is_key)
        ∙ sym (entries-append (a.before ++ a.after) (record a.item { val = v } ∷ []));
  }

  -- The key that an insertion finds absent is given a new node.
  append_lem :
      (m : LinkedVecMap V) (es : List (ℕ × V)) (k : ℕ) (v : V)
      → Linked m es
      → VecMap.get m.map k ≡ none
      → Returns {A = Option V × LinkedVecMap V}
          (λ r. (r.0 ≡ lookup k es) × Linked r.1 (without k es ++ (k, v) ∷ []))
          (do
            (p, m1) ← new_node m k v
            m2 ← attach (record m1 { map = (VecMap.insert m1.map k p).1 }) p
            ok (none, m2))
  append_lem m es k v h absent =
      let missing = absent-find k h.items (sym (h.index.finds k) ∙ absent) in
      Returns-bind (new_node-Loose m k v h.items h.frees h.layout)
        (λ (p, m1) ((fs, loose), same_map, same_head).
          let x : Item V = record { addr = p; key = k; val = v } in
          let index : VecMap.VecMap ℕ = (VecMap.insert m1.map k p).1 in
          Returns-bind (attach-Layout (record m1 { map = index }) x h.items fs (rw same_head loose))
            (λ m2 (l, same). returns (
              sym (ap (lookup k) h.holds ∙ lookup-absent k h.items missing),
              record {
                items = h.items ++ x ∷ [];
                frees = fs;
                layout = Layout-same same l;
                index = rw same.map (
                    Index-insert m1.map index h.items x (rw same_map h.index) missing
                      (λ j. (insert_lem m1.map k j p).1)
                      (insert-n m1.map k p
                        ∙ ap (λ o. if is_some o then m1.map.n else m1.map.n + 1)
                            (ap (λ i. VecMap.get i k) same_map ∙ absent)));
                holds =
                    ap (λ es. es ++ (k, v) ∷ [])
                      (ap (without k) h.holds ∙ without-absent k h.items missing)
                    ∙ sym (entries-append h.items (x ∷ []));
              },
            )))

  pub insert-Represents :
      (m : LinkedVecMap V) (es : List (ℕ × V)) (k : ℕ) (v : V)
      → Represents m es
      → Returns {A = Option V × LinkedVecMap V}
          (λ r. (r.0 ≡ lookup k es) × Represents r.1 (without k es ++ (k, v) ∷ []))
          (insert m k v)
  unfolding insert
  insert-Represents m es k v h = elim (Option-cases (VecMap.get (ensure_guard_node m).map k)) [
    | inl absent ↦
        rw (absent, insert)
          (Returns-map (append_lem (ensure_guard_node m) es k v (ensure-Linked m es h) absent)
            (λ r (old, l). (old, linked l)))
    | inr (p, found) ↦
        let a = find-Linked (ensure_guard_node m) es k p (ensure-Linked m es h) found in
        rw (found, insert)
          (rw (sym a.is_addr) (
            Returns-map
              (overwrite_lem (ensure_guard_node m) a.before a.item a.after a.frees v a.layout)
              (λ r (old, l, same). (
                old ∙ sym a.looks_up,
                linked (moved-Linked (ensure_guard_node m) r.1 es k p v a same l),
              ))))
  ]

  -- What `get_refresh` finds becomes the newest entry.
  pub get_refresh-Represents :
      (m : LinkedVecMap V) (es : List (ℕ × V)) (k : ℕ)
      → Represents m es
      → Returns {A = Option V × LinkedVecMap V}
          (λ r. (r.0 ≡ lookup k es) × Represents r.1 (refreshed k es))
          (get_refresh m k)
  unfolding get_refresh
  get_refresh-Represents m es k h = elim (Option-cases (VecMap.get m.map k)) [
    | inl absent ↦
        let missing = lookup-none m es k h absent in
        rw (absent, get_refresh) (returns (sym missing, rw (missing, refreshed) h))
    | inr (p, found) ↦
        let a = find-Linked m es k p (Linked-found m es k p h found) found in
        rw (found, get_refresh)
          (rw (sym a.is_addr) (
            Returns-map (refresh_lem m a.before a.item a.after a.frees a.layout)
              (λ r (old, l, same). (
                old ∙ sym a.looks_up,
                rw (a.looks_up, refreshed) (linked (moved-Linked m r.1 es k p a.item.val a same l)),
              ))))
  ]

  pub extend-Represents :
      (m : LinkedVecMap V) (es later : List (ℕ × V))
      → Represents m es
      → Returns (λ m'. Represents m' (inserted es later)) (extend m later)
  unfolding extend
  extend-Represents m es [] h = returns h
  extend-Represents m es ((k, v) ∷ later) h =
      Returns-bind (insert-Represents m es k v h)
        (λ (old, m') (_, h'). extend-Represents m' (without k es ++ (k, v) ∷ []) later h')

  -- Collecting entries inserts them in order.
  pub from_iter-Represents :
      (later : List (ℕ × V)) → Returns (λ m. Represents m (inserted [] later)) (from_iter later)
  unfolding from_iter
  from_iter-Represents later = extend-Represents new [] later new-Represents
