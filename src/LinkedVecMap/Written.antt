-- ===== src/LinkedVecMap/Written.antt =====
-- The write of a value.
use grid_server.Base.{
  ℕ, ◌≡◌, refl, sym, ap, ◌∙◌, subst, false, Option, some, List, ◌∷◌, ◌++◌, arith, ◌==◌, Returns,
  returns,
}
use grid_server.LinkedVecMap.{Node, LinkedVecMap, load, store, set_value, update}
use grid_server.LinkedVecMap.Members.{
  mem, Distinct, or_false, Distinct-append_left, Distinct-append_right, last, ne_of_mem, if_eq,
  if_ne, mem_apart_left,
}
use grid_server.LinkedVecMap.Ring.{
  Item, addrs, next_of, prev_of, entry_of, addrs-append, Chain-split, Chain-join, Chain-frame,
}
use grid_server.LinkedVecMap.Nodes.{cell_of_entry}
use grid_server.LinkedVecMap.Links.{SameFields, kept}
use grid_server.LinkedVecMap.Memory.{Layout, Ring-Neighbours, Free-frame}

module _ {V : Type 0} where
  written-Layout :
      (m : LinkedVecMap V) (ys : List (Item V)) (x : Item V) (zs : List (Item V)) (fs : List ℕ)
      (v : V) (n : Node V)
      → some n.next ≡ next_of (m.cells x.addr)
      → some n.prev ≡ prev_of (m.cells x.addr)
      → n.entry ≡ some (x.key, v)
      → Layout m.cells m.head m.free m.top (ys ++ x ∷ zs) fs
      → Layout
          (update m.cells x.addr (some n))
          m.head
          m.free
          m.top
          (ys ++ record x { val = v } ∷ zs)
          fs
  written-Layout m ys x zs fs v n at_next at_prev at_entry l =
      let c' : ℕ → Option (Node V) = update m.cells x.addr (some n) in
      let nexts = λ (j : ℕ). kept next_of m.cells x.addr j (some n) at_next in
      let prevs = λ (j : ℕ). kept prev_of m.cells x.addr j (some n) at_prev in
      let entries = λ (j : ℕ) (h : (x.addr == j) ≡ false).
        ap entry_of (if_ne x.addr j (some n) (m.cells j) h) in
      let same : addrs (ys ++ record x { val = v } ∷ zs) ≡ addrs (ys ++ x ∷ zs) =
        addrs-append ys (record x { val = v } ∷ zs) ∙ sym (addrs-append ys (x ∷ zs)) in
      let linked =
        subst Distinct (ap (◌∷◌ m.head) (addrs-append ys (x ∷ zs)))
          (Distinct-append_left (m.head ∷ addrs (ys ++ x ∷ zs)) fs l.distinct) in
      let left = Distinct-append_left (m.head ∷ addrs ys) (x.addr ∷ addrs zs) linked in
      let right = Distinct-append_right (m.head ∷ addrs ys) (x.addr ∷ addrs zs) linked in
      let x_left =
        mem_apart_left (m.head ∷ addrs ys) (x.addr ∷ addrs zs) x.addr linked (ground arith) in
      let x_ys = (or_false (m.head == x.addr) (mem x.addr (addrs ys)) x_left).1 in
      let (first, (q, nx, en, later)) = Chain-split m.cells m.head ys (x ∷ zs) l.ring.path in
      record {
        ring = record {
          path =
              Chain-join c' m.head ys (record x { val = v } ∷ zs)
                (Chain-frame m.cells c' m.head ys left
                  (λ j h. (nexts j, entries j (ne_of_mem x.addr j (addrs ys) x_ys h)))
                  (λ j h k. prevs j) first)
                (
                  prevs (last m.head (addrs ys)) ∙ q,
                  nexts x.addr ∙ nx,
                  ap entry_of (if_eq x.addr _ _) ∙ at_entry,
                  Chain-frame m.cells c' x.addr zs right
                      (λ j h. (nexts j, entries j (ne_of_mem x.addr j (addrs zs) right.0 h)))
                      (λ j h k. prevs j) later,
                );
          close_prev =
              ap (λ nodes. prev_of (c' (last m.head nodes))) same
              ∙ prevs (last m.head (addrs (ys ++ x ∷ zs)))
              ∙ l.ring.close_prev;
          close_next =
              nexts m.head ∙ l.ring.close_next ∙ ap (λ nodes. some (last m.head nodes)) (sym same);
        };
        frees = Free-frame m.cells c' m.free fs (λ j h. nexts j) l.frees;
        distinct = subst (λ nodes. Distinct (m.head ∷ nodes ++ fs)) (sym same) l.distinct;
        nonzero = ap (λ nodes. mem 0 (m.head ∷ nodes ++ fs)) same ∙ l.nonzero;
        below = λ j h. l.below j (ap (λ nodes. mem j (m.head ∷ nodes ++ fs)) (sym same) ∙ h);
      }

  -- The write of a value.
  pub set_value-Layout :
      (m : LinkedVecMap V) (ys : List (Item V)) (x : Item V) (zs : List (Item V)) (fs : List ℕ)
      (v : V)
      → Layout m.cells m.head m.free m.top (ys ++ x ∷ zs) fs
      → Returns
          (λ m'.
            Layout m'.cells m.head m.free m.top (ys ++ record x { val = v } ∷ zs) fs
            × SameFields m m')
          (set_value m x.addr v)
  unfolding set_value load store
  set_value-Layout m ys x zs fs v l =
      let e = Ring-Neighbours m.cells m.head ys x zs l.ring in
      let (n, at_x, is_entry) = cell_of_entry (m.cells x.addr) (x.key, x.val) e.entry in
      rw (at_x, set_value)
        (rw is_entry (
          returns (
            written-Layout m ys x zs fs v (record n { entry = some (x.key, v) })
                (ap next_of (sym at_x)) (ap prev_of (sym at_x)) refl l,
            record { map = refl; head = refl; free = refl; top = refl },
          )))
