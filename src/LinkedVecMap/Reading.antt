-- ===== src/LinkedVecMap/Reading.antt =====
-- What the reading operations find.
use grid_server.Base.{
  ℕ, zero, ◌≡◌, refl, sym, ap, ◌∙◌, subst, inl, inr, false, none, some, List, [], ◌∷◌, ◌++◌, ◌==◌,
  ==_iff, Option-cases, ==_refl, some_inj, length, ok, ◌>>=◌,
}
use grid_server.VecMap
use grid_server.LinkedVecMap.{
  Node, LinkedVecMap, load, entry_at, get, peek_node, front, back, iter, iter_from, len,
}
use grid_server.LinkedVecMap.Members.{mem, or_false, mem-append, last}
use grid_server.LinkedVecMap.Ring.{Item, addrs, Chain, prev_of}
use grid_server.LinkedVecMap.Links.{cell_of_next}
use grid_server.LinkedVecMap.Index.{entries, entries-append, length-entries, lookup, Index}
use grid_server.LinkedVecMap.Nodes.{cell_of_entry}
use grid_server.LinkedVecMap.Refinement.{
  LayoutOf, Represents, linked, unguarded, find-Linked, lookup-none, Linked-found, entry_at-ok,
  head-guarded,
}
use grid_server.LinkedVecMap.Ends.{
  oldest, newest, newest-snoc, last_item, len_lem, is_empty_lem, guard_lem, full_lem, first_item,
}
use grid_server.LinkedVecMap.Removing.{get-item}

module _ {V : Type 0} where
  -- `get` finds the value of the key.
  pub get-Represents :
      (m : LinkedVecMap V) (es : List (ℕ × V)) (k : ℕ)
      → Represents m es
      → get m k ≡ ok (lookup k es)
  unfolding get
  get-Represents m es k h = elim (Option-cases (VecMap.get m.map k)) [
    | inl absent ↦ rw (absent, get) (ap ok (sym (lookup-none m es k h absent)))
    | inr (p, found) ↦
        let a = find-Linked m es k p (Linked-found m es k p h found) found in
        rw (found, get)
          (rw (sym a.is_addr)
            (rw (entry_at-ok m a.before a.item a.after a.frees a.layout) (ap ok (sym a.looks_up))))
  ]

  peek_node-ok :
      (m : LinkedVecMap V) (ys : List (Item V)) (x : Item V) (zs : List (Item V)) (fs : List ℕ)
      → LayoutOf m (ys ++ x ∷ zs) fs
      → Index m.map (ys ++ x ∷ zs)
      → peek_node m x.addr ≡ ok (some (x.key, x.val))
  unfolding peek_node
  peek_node-ok m ys x zs fs l i =
      let at = entry_at-ok m ys x zs fs l in
      let found : elim (VecMap.get m.map x.key) [
        | none ↦ ok none
        | some q ↦ entry_at m q >>= λ e. ok (some e)
      ]
          ≡ ok (some (x.key, x.val)) =
        rw (get-item m.map ys x zs i) (rw at refl) in
      rw (at, peek_node) found

  -- `front` is the oldest entry.
  pub front-Represents :
      (m : LinkedVecMap V) (es : List (ℕ × V)) → Represents m es → front m ≡ ok (oldest es)
  unfolding front
  front-Represents m [] h = rw (is_empty_lem m [] h, front) refl
  front-Represents m (e ∷ es) (unguarded _ _ _ _ no_entries) = absurd (cc no_entries)
  front-Represents m (e ∷ es) (linked h) =
      let (x, zs, l, i, first, rest) = first_item m e es h in
      let (n, at_head, is_oldest, is_newest) = guard_lem m x zs h.frees l in
      rw (full_lem m x zs h.frees l i, front)
        (rw at_head
          (rw is_oldest (peek_node-ok m [] x zs h.frees l i ∙ ap (λ e. ok (some e)) first)))

  -- From the node before the items, the iterator yields them and stops at the guard.
  iter_from_lem :
      (m : LinkedVecMap V) (a : ℕ) (xs : List (Item V)) (n : Node V)
      → Chain m.cells a xs
      → prev_of (m.cells (last a (addrs xs))) ≡ some m.head
      → mem m.head (addrs xs) ≡ false
      → m.cells a ≡ some n
      → iter_from m (length xs) n.prev ≡ ok (entries xs)
  unfolding iter_from load
  iter_from_lem m a [] n path end apart at_a =
      rw (some_inj (sym (ap prev_of at_a) ∙ end), iter_from) (rw (==_refl m.head) refl)
  iter_from_lem m a (x ∷ xs) n (q, nx, en, path) end apart at_a =
      let (not_head, later) = or_false (x.addr == m.head) (mem m.head (addrs xs)) apart in
      let (n', at_x, is_entry) = cell_of_entry (m.cells x.addr) (x.key, x.val) en in
      rw (some_inj (sym (ap prev_of at_a) ∙ q), iter_from)
        (rw not_head
          (rw at_x (rw is_entry (rw (iter_from_lem m x.addr xs n' path end later at_x) refl))))

  -- The iterator yields the entries, from the oldest to the newest.
  pub iter-Represents : (m : LinkedVecMap V) (es : List (ℕ × V)) → Represents m es → iter m ≡ ok es
  unfolding iter iter_from load
  iter-Represents m es (unguarded no_head no_free room index no_entries) =
      let none_left : iter_from m zero 0 ≡ ok es =
        rw ((==_iff 0 m.head).1 (sym no_head), iter_from) (ap ok (sym no_entries)) in
      rw ((==_iff m.head 0).1 no_head, iter)
        (ap (λ n. iter_from m n 0)
            (len_lem m es (unguarded no_head no_free room index no_entries) ∙ ap length no_entries)
          ∙ none_left)
  iter-Represents m es (linked h) =
      let l = h.layout in
      let (n, at_head, is_last) = cell_of_next (m.cells m.head) _ l.ring.close_next in
      let apart =
        (or_false (mem m.head (addrs h.items)) (mem m.head h.frees)
          (sym (mem-append m.head (addrs h.items) h.frees) ∙ l.distinct.0)).0 in
      let count : len m ≡ length h.items =
        len_lem m es (linked h) ∙ ap length h.holds ∙ length-entries h.items in
      rw (head-guarded m h.items h.frees l, iter)
        (rw at_head (
          ap (λ k. iter_from m k n.prev) count
          ∙ iter_from_lem m m.head h.items n l.ring.path l.ring.close_prev apart at_head
          ∙ ap ok (sym h.holds)))

  -- The newest entry.
  pub back-Represents :
      (m : LinkedVecMap V) (es : List (ℕ × V)) → Represents m es → back m ≡ ok (newest es)
  unfolding back
  back-Represents m [] h = rw (is_empty_lem m [] h, back) refl
  back-Represents m (e ∷ es) (unguarded _ _ _ _ no_entries) = absurd (cc no_entries)
  back-Represents m (e ∷ es) (linked h) =
      let (x, zs, l, i, first, rest) = first_item m e es h in
      let (n, at_head, is_oldest, is_newest) = guard_lem m x zs h.frees l in
      let (ys, y, parts, end) = last_item m.head x zs in
      let same : entries (x ∷ zs) ≡ e ∷ es = cc (first, rest) in
      rw (full_lem m x zs h.frees l i, back)
        (rw at_head (
          rw (is_newest ∙ end) (
            peek_node-ok m ys y [] h.frees (subst (λ xs. LayoutOf m xs h.frees) parts l)
              (subst (Index m.map) parts i)
            ∙ ap ok (
                sym (
                  ap newest (sym same ∙ ap entries parts ∙ entries-append ys (y ∷ []))
                  ∙ newest-snoc (entries ys) (y.key, y.val))))))
