-- ===== src/LinkedVecMap/Made.antt =====
-- The node of a new entry.
use grid_server.Base.{
  ℕ, ◌+◌, ◌<◌, ◌≡◌, refl, sym, ap, ◌∙◌, subst, inl, inr, false, some, List, [], ◌∷◌, ◌++◌, arith,
  ◌==◌, ==_iff, Bool-cases, some_inj, Returns, returns,
}
use grid_server.LinkedVecMap.{Node, LinkedVecMap, load, store, alloc, new_node, update}
use grid_server.LinkedVecMap.Members.{
  or_true, mem-right, mem-middle, mem, or_false, mem_ne, Distinct-remove, if_eq,
}
use grid_server.LinkedVecMap.Ring.{Item, addrs, next_of, entry_of}
use grid_server.LinkedVecMap.Links.{cell_of_next}
use grid_server.LinkedVecMap.Memory.{Free, Layout, Loose, Layout-update}

module _ {V : Type 0} where
  boxed-Loose :
      (m : LinkedVecMap V) (k : ℕ) (v : V) (xs : List (Item V)) (fs : List ℕ)
      → Layout m.cells m.head m.free m.top xs fs
      → Loose
          (update m.cells m.top (some (record { next = 0; prev = 0; entry = some (k, v) })))
          m.head
          m.free
          (m.top + 1)
          (record { addr = m.top; key = k; val = v })
          xs
          fs
  boxed-Loose m k v xs fs l =
      let inside = l.below m.head (ground arith) in
      let apart : mem m.top (m.head ∷ addrs xs ++ fs) ≡ false =
        elim (Bool-cases (mem m.top (m.head ∷ addrs xs ++ fs))) [
          | inl h ↦ absurd (omega (arith, l.below m.top h))
          | inr h ↦ h
        ] in
      let u =
        Layout-update m.cells m.top (some (record { next = 0; prev = 0; entry = some (k, v) }))
          m.head m.free m.top xs fs apart l in
      record {
        rest = record {
          ring = u.ring;
          frees = u.frees;
          distinct = l.distinct;
          nonzero = l.nonzero;
          below = λ j h. omega (arith, l.below j h);
        };
        entry = ap entry_of (if_eq m.top _ _);
        apart = apart;
        nonnull = ground (arith, inside);
        under = omega arith;
      }

  reused-Loose :
      (m : LinkedVecMap V) (k : ℕ) (v : V) (xs : List (Item V)) (f : ℕ) (fs : List ℕ) (n : Node V)
      → m.cells m.free ≡ some n
      → Layout m.cells m.head m.free m.top xs (f ∷ fs)
      → Loose
          (update m.cells m.free (some (record { next = 0; prev = 0; entry = some (k, v) })))
          m.head
          n.next
          m.top
          (record { addr = m.free; key = k; val = v })
          xs
          fs
  reused-Loose m k v xs f fs n at_free l =
      let (is_f, (g, link, later)) = l.frees in
      let is_g : n.next ≡ g =
        some_inj (sym (ap next_of at_free) ∙ ap (λ a. next_of (m.cells a)) is_f ∙ link) in
      let (rest, absent) = Distinct-remove (m.head ∷ addrs xs) f fs l.distinct in
      let apart : mem m.free (m.head ∷ addrs xs ++ fs) ≡ false =
        ap (λ a. mem a (m.head ∷ addrs xs ++ fs)) is_f ∙ absent in
      let member = λ (j : ℕ). mem-middle j (m.head ∷ addrs xs) f fs in
      let zero = or_false (f == 0) _ (sym (member 0) ∙ l.nonzero) in
      let shorter : Layout m.cells m.head n.next m.top xs fs = record {
        ring = l.ring;
        frees = subst (λ a. Free m.cells a fs) (sym is_g) later;
        distinct = rest;
        nonzero = zero.1;
        below = λ j h. l.below j (member j ∙ or_true (f == j) _ h);
      } in
      record {
        rest =
            Layout-update m.cells m.free (some (record { next = 0; prev = 0; entry = some (k, v) }))
              m.head n.next m.top xs fs apart shorter;
        entry = ap entry_of (if_eq m.free _ _);
        apart = apart;
        nonnull = ap (λ a. a == 0) is_f ∙ zero.0;
        under =
            subst (λ a. a < m.top) (sym is_f)
              (l.below f (mem-right f (m.head ∷ addrs xs) (f ∷ fs) (ground arith)));
      }

  -- The new node of an entry is loose: a box, or the first of the free list.
  pub new_node-Loose :
      (m : LinkedVecMap V) (k : ℕ) (v : V) (xs : List (Item V)) (fs : List ℕ)
      → Layout m.cells m.head m.free m.top xs fs
      → Returns
          (λ r.
            ((fs' : List ℕ) × Loose r.1.cells m.head r.1.free r.1.top
                (record { addr = r.0; key = k; val = v })
                xs
                fs')
            × (r.1.map ≡ m.map)
            × (r.1.head ≡ m.head))
          (new_node m k v)
  unfolding new_node alloc load store
  new_node-Loose m k v xs [] l =
      rw ((==_iff m.free 0).1 l.frees, new_node)
        (returns (([], boxed-Loose m k v xs [] l), refl, refl))
  new_node-Loose m k v xs (f ∷ fs) l =
      let (is_f, (g, link, later)) = l.frees in
      let (n, at_f, is_g) = cell_of_next (m.cells f) g link in
      let at_free : m.cells m.free ≡ some n = ap m.cells is_f ∙ at_f in
      let full : (m.free == 0) ≡ false =
        ap (λ a. a == 0) is_f
        ∙ mem_ne f 0 (m.head ∷ addrs xs ++ f ∷ fs)
            (mem-right f (m.head ∷ addrs xs) (f ∷ fs) (ground arith)) l.nonzero in
      rw (full, new_node)
        (rw at_free (returns ((fs, reused-Loose m k v xs f fs n at_free l), refl, refl)))
