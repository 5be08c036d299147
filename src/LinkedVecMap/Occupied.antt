-- ===== src/LinkedVecMap/Occupied.antt =====
-- The entry of a key that is there.
use grid_server.Base.{
  Returns-then, subst, ℕ, ◌≡◌, refl, sym, ap, ◌∙◌, some, List, [], ◌∷◌, ◌++◌, ok, Returns, returns,
  Returns-map, Returns-bind,
}
use grid_server.VecMap
use grid_server.VecMap.{is_some}
use grid_server.LinkedVecMap.{LinkedVecMap, entry_at, detach, attach, ensure_guard_node}
use grid_server.LinkedVecMap.Ring.{Item}
use grid_server.LinkedVecMap.Index.{without, lookup}
use grid_server.LinkedVecMap.Written.{set_value-Layout}
use grid_server.LinkedVecMap.Links.{SameFields, SameFields-trans}
use grid_server.LinkedVecMap.Inserting.{moved-Linked}
use grid_server.LinkedVecMap.Removing.{remove-Represents}
use grid_server.LinkedVecMap.Refinement.{
  LayoutOf, head-guarded, refresh-Layout, Linked, Represents, linked, Layout-same, Linked-found,
  find-Linked, entry_at-ok,
}
use grid_server.LinkedVecMap.Entries.{occupied_insert, occupied_remove}

module _ {V : Type 0} where
  ensure_guard_node-Linked :
      (m : LinkedVecMap V) (es : List (ℕ × V)) → Linked m es → ensure_guard_node m ≡ m
  unfolding ensure_guard_node
  ensure_guard_node-Linked m es h =
      rw (head-guarded m h.items h.frees h.layout, ensure_guard_node) refl

  replace_lem :
      (m : LinkedVecMap V) (ys : List (Item V)) (x : Item V) (zs : List (Item V)) (fs : List ℕ)
      (v : V)
      → LayoutOf m (ys ++ x ∷ zs) fs
      → ensure_guard_node m ≡ m
      → Returns {A = V × LinkedVecMap V}
          (λ r.
            (r.0 ≡ x.val)
            × LayoutOf r.1 ((ys ++ zs) ++ record x { val = v } ∷ []) fs
            × SameFields m r.1)
          (occupied_insert m x.addr v)
  unfolding occupied_insert
  replace_lem m ys x zs fs v l same =
      rw (same, occupied_insert)
        (rw (entry_at-ok m ys x zs fs l) (
          Returns-bind (set_value-Layout m ys x zs fs v l) (λ m1 (l1, same1).
            Returns-then (detach m1 x.addr) (λ m2. attach m2 x.addr)
              (refresh-Layout m1 ys (record x { val = v }) zs fs (Layout-same same1 l1))
              (λ m3 (l3, same3). returns (refl, l3, SameFields-trans same1 same3)))))

  pub occupied_insert-Represents :
      (m : LinkedVecMap V) (es : List (ℕ × V)) (k p : ℕ) (v : V)
      → Represents m es
      → VecMap.get m.map k ≡ some p
      → Returns {A = V × LinkedVecMap V}
          (λ r. (some r.0 ≡ lookup k es) × Represents r.1 (without k es ++ (k, v) ∷ []))
          (occupied_insert m p v)
  occupied_insert-Represents m es k p v h found =
      let g = Linked-found m es k p h found in
      let a = find-Linked m es k p g found in
      subst
        (λ p.
          Returns {A = V × LinkedVecMap V}
            (λ r. (some r.0 ≡ lookup k es) × Represents r.1 (without k es ++ (k, v) ∷ []))
            (occupied_insert m p v))
        a.is_addr
        (Returns-map
          (replace_lem m a.before a.item a.after a.frees v a.layout
            (ensure_guard_node-Linked m es g))
          (λ r (old, l, same).
            (ap some old ∙ sym a.looks_up, linked (moved-Linked m r.1 es k p v a same l))))

  pub occupied_remove-Represents :
      (m : LinkedVecMap V) (es : List (ℕ × V)) (k p : ℕ)
      → Represents m es
      → VecMap.get m.map k ≡ some p
      → Returns {A = V × LinkedVecMap V}
          (λ r. (some r.0 ≡ lookup k es) × Represents r.1 (without k es))
          (occupied_remove m p)
  unfolding occupied_remove
  occupied_remove-Represents m es k p h found =
      let a = find-Linked m es k p (Linked-found m es k p h found) found in
      let at : entry_at m p ≡ ok (k, a.item.val) =
        ap (entry_at m) (sym a.is_addr)
        ∙ entry_at-ok m a.before a.item a.after a.frees a.layout
        ∙ ap (λ k. ok (k, a.item.val)) a.is_key in
      rw (at, occupied_remove)
        (Returns-bind (remove-Represents m es k h)
          (λ (removed, m') (old, h'). rw (old ∙ a.looks_up) (returns (sym a.looks_up, h'))))
