-- ===== src/LinkedVecMap/Removing.antt =====
-- Removal by key, and of the oldest or the newest entry.
use grid_server.Base.{
  ℕ, ◌-◌, ◌<◌, ◌≡◌, refl, sym, ap, ◌∙◌, subst, inl, inr, Option, some, List, ◌∷◌, ◌++◌, map, arith,
  Option-cases, ok, ◌>>=◌, Returns, returns, Returns-map, Returns-bind,
}
use grid_server.VecMap
use grid_server.VecMap.Lookup.{remove-none, remove-some, get-cleared}
use grid_server.LinkedVecMap.{LinkedVecMap, load, entry_at, set_next, detach, remove, pop_node}
use grid_server.LinkedVecMap.Members.{if_eq}
use grid_server.LinkedVecMap.Ring.{Item, entry_of}
use grid_server.LinkedVecMap.Index.{
  entries, find-middle, lookup, without, Index, Index-remove, length-middle, Distinct-keys,
}
use grid_server.LinkedVecMap.Memory.{detach-Loose}
use grid_server.LinkedVecMap.Nodes.{cell_of_entry, free-Layout, dealloc-Layout}
use grid_server.LinkedVecMap.Refinement.{
  LayoutOf, Linked, Represents, linked, Layout-same, Loose-same, find-Linked, lookup-none,
  Linked-found, without-none,
}

module _ {V : Type 0} where
  pub entry_at_of :
      (m : LinkedVecMap V) (p : ℕ) (e : ℕ × V) → entry_of (m.cells p) ≡ some e → entry_at m p ≡ ok e
  unfolding entry_at load
  entry_at_of m p e h =
      let (n, at_p, is_entry) = cell_of_entry (m.cells p) e h in
      rw (at_p, entry_at) (rw is_entry refl)

  -- The index finds an item and loses it.
  pub get-item :
      (map : VecMap.VecMap ℕ) (ys : List (Item V)) (x : Item V) (zs : List (Item V))
      → Index map (ys ++ x ∷ zs)
      → VecMap.get map x.key ≡ some x.addr
  get-item map ys x zs i =
      let (rest, absent, earlier) = Distinct-keys ys x zs i.distinct in
      i.finds x.key ∙ find-middle x.key ys x zs earlier ∙ if_eq x.key _ _

  remove-item :
      (map : VecMap.VecMap ℕ) (ys : List (Item V)) (x : Item V) (zs : List (Item V))
      → Index map (ys ++ x ∷ zs)
      → (map' : VecMap.VecMap ℕ) × (VecMap.remove map x.key ≡ ok (some x.addr, map'))
        × Index map' (ys ++ zs)
  remove-item map ys x zs i =
      let found = get-item map ys x zs i in
      let room : 0 < map.n = omega (arith, i.counted, length-middle ys x zs) in
      (
        _,
        remove-some map x.key x.addr found room,
        Index-remove map _ ys x zs i (λ j. get-cleared map x.key j (map.n - 1) x.addr found) refl,
      )

  remove_lem :
      (m : LinkedVecMap V) (map : VecMap.VecMap ℕ) (ys : List (Item V)) (x : Item V)
      (zs : List (Item V)) (fs : List ℕ)
      → LayoutOf m (ys ++ x ∷ zs) fs
      → Index map (ys ++ zs)
      → Returns {A = Option V × LinkedVecMap V}
          (λ r. (r.0 ≡ some x.val) × Linked r.1 (entries (ys ++ zs)))
          (do
            m1 ← detach (record m { map = map }) x.addr
            m2 ← set_next m1 x.addr m1.free
            e ← entry_at m2 x.addr
            ok (some e.1, record m2 { free = x.addr }))
  remove_lem m map ys x zs fs l i =
      Returns-bind (detach-Loose (record m { map = map }) ys x zs fs l) (λ m1 (loose, same1).
        Returns-bind (free-Layout m1 x (ys ++ zs) fs (Loose-same same1 loose))
          (λ m2 (l2, entry, same2). rw (entry_at_of m2 x.addr (x.key, x.val) entry) (
            returns (
              refl,
              record {
                items = ys ++ zs;
                frees = x.addr ∷ fs;
                layout = rw (same2.head, same2.top) l2;
                index = rw (same2.map, same1.map) i;
                holds = refl;
              },
            ))))

  pub remove-Represents :
      (m : LinkedVecMap V) (es : List (ℕ × V)) (k : ℕ)
      → Represents m es
      → Returns {A = Option V × LinkedVecMap V}
          (λ r. (r.0 ≡ lookup k es) × Represents r.1 (without k es))
          (remove m k)
  unfolding remove
  remove-Represents m es k h = elim (Option-cases (VecMap.get m.map k)) [
    | inl absent ↦
        rw (remove-none m.map k absent, remove)
          (returns (sym (lookup-none m es k h absent), rw (without-none m es k h absent) h))
    | inr (p, found) ↦
        let a = find-Linked m es k p (Linked-found m es k p h found) found in
        let (map, removed, index) = remove-item m.map a.before a.item a.after a.index in
        rw (ap (VecMap.remove m.map) (sym a.is_key) ∙ removed, remove)
          (Returns-map (remove_lem m map a.before a.item a.after a.frees a.layout index)
            (λ r (old, l). (old ∙ sym a.looks_up, linked (subst (Linked r.1) (sym a.others) l))))
  ]

  pub pop_node_lem :
      (m : LinkedVecMap V) (ys : List (Item V)) (x : Item V) (zs : List (Item V)) (fs : List ℕ)
      → LayoutOf m (ys ++ x ∷ zs) fs
      → Index m.map (ys ++ x ∷ zs)
      → Returns {A = Option (ℕ × V) × LinkedVecMap V}
          (λ r. (r.0 ≡ some (x.key, x.val)) × Linked r.1 (entries (ys ++ zs)))
          (pop_node m x.addr)
  unfolding pop_node
  pop_node_lem m ys x zs fs l i = Returns-bind (detach-Loose m ys x zs fs l) (λ m1 (loose, same1).
      let at = entry_at_of m1 x.addr (x.key, x.val) loose.entry in
      let (map, removed, index) = remove-item m1.map ys x zs (rw same1.map i) in
      rw (at, pop_node)
        (rw removed (
          rw at (
            Returns-bind
              (dealloc-Layout (record m1 { map = map }) x (ys ++ zs) fs (Loose-same same1 loose))
              (λ m2 (l2, same2). returns (
                refl,
                record {
                  items = ys ++ zs;
                  frees = fs;
                  layout = Layout-same same2 l2;
                  index = rw same2.map index;
                  holds = refl;
                },
              ))))))
