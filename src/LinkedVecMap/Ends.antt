-- ===== src/LinkedVecMap/Ends.antt =====
-- Removal of the oldest and of the newest entry.
use grid_server.Base.{
  ℕ, ◌≡◌, refl, sym, ap, ◌∙◌, subst, false, Option, none, some, List, [], ◌∷◌, ◌++◌, arith, ◌==◌,
  some_inj, length, append_nil, ok, undefined, or_else, Returns, returns, Returns-map,
}
use grid_server.VecMap
use grid_server.LinkedVecMap.{Node, LinkedVecMap, load, is_empty, len, pop_front, pop_back}
use grid_server.LinkedVecMap.Members.{last, last-append}
use grid_server.LinkedVecMap.Ring.{Item, addrs, addrs-append, prev_of}
use grid_server.LinkedVecMap.Links.{cell_of_next}
use grid_server.LinkedVecMap.Index.{length-entries, entries, entries-append, Index}
use grid_server.LinkedVecMap.Removing.{pop_node_lem}
use grid_server.LinkedVecMap.Refinement.{LayoutOf, Linked, Represents, linked, unguarded}

module _ {V : Type 0} where
  abbrev pub oldest : List (ℕ × V) → Option (ℕ × V)
  oldest [] = none
  oldest (e ∷ es) = some e

  abbrev pub without_oldest : List (ℕ × V) → List (ℕ × V)
  without_oldest [] = []
  without_oldest (e ∷ es) = es

  abbrev pub newest : List (ℕ × V) → Option (ℕ × V)
  newest [] = none
  newest (e ∷ []) = some e
  newest (e ∷ f ∷ es) = newest (f ∷ es)

  abbrev pub without_newest : List (ℕ × V) → List (ℕ × V)
  without_newest [] = []
  without_newest (e ∷ []) = []
  without_newest (e ∷ f ∷ es) = e ∷ without_newest (f ∷ es)

  -- Removing an item from one end.
  snoc-items :
      (x : Item V) (xs : List (Item V))
      → (ys : List (Item V)) × (y : Item V) × (x ∷ xs ≡ ys ++ y ∷ [])
  snoc-items x [] = ([], x, refl)
  snoc-items x (z ∷ xs) = let (ys, y, e) = snoc-items z xs in (x ∷ ys, y, ap (◌∷◌ x) e)

  pub last_item :
      (head : ℕ) (x : Item V) (zs : List (Item V))
      → (ys : List (Item V)) × (y : Item V) × (x ∷ zs ≡ ys ++ y ∷ [])
        × (last x.addr (addrs zs) ≡ y.addr)
  last_item head x zs =
      let (ys, y, parts) = snoc-items x zs in
      (
        ys,
        y,
        parts,
        ap (λ xs. last head (addrs xs)) parts
            ∙ ap (last head) (addrs-append ys (y ∷ []))
            ∙ last-append head (addrs ys) (y.addr ∷ []),
      )

  pub newest-snoc : (es : List (ℕ × V)) (e : ℕ × V) → newest (es ++ e ∷ []) ≡ some e
  newest-snoc [] e = refl
  newest-snoc (d ∷ []) e = refl
  newest-snoc (d ∷ f ∷ es) e = newest-snoc (f ∷ es) e

  pub without_newest-snoc : (es : List (ℕ × V)) (e : ℕ × V) → without_newest (es ++ e ∷ []) ≡ es
  without_newest-snoc [] e = refl
  without_newest-snoc (d ∷ []) e = refl
  without_newest-snoc (d ∷ f ∷ es) e = ap (◌∷◌ d) (without_newest-snoc (f ∷ es) e)

  -- The count is that of the entries.
  pub len_lem : (m : LinkedVecMap V) (es : List (ℕ × V)) → Represents m es → len m ≡ length es
  unfolding len VecMap.len
  len_lem m es (unguarded _ _ _ index no_entries) = index.counted ∙ ap length (sym no_entries)
  len_lem m es (linked h) = h.index.counted ∙ sym (length-entries h.items) ∙ ap length (sym h.holds)

  pub is_empty_lem :
      (m : LinkedVecMap V) (es : List (ℕ × V)) → Represents m es → is_empty m ≡ (length es == 0)
  unfolding is_empty
  is_empty_lem m es h = ap (λ n. n == 0) (len_lem m es h)

  -- The guard of a map that is not empty links the oldest and the newest item.
  pub guard_lem :
      (m : LinkedVecMap V) (x : Item V) (zs : List (Item V)) (fs : List ℕ)
      → LayoutOf m (x ∷ zs) fs
      → (n : Node V) × (load m m.head ≡ ok n)
        × (n.prev ≡ x.addr)
        × (n.next ≡ last x.addr (addrs zs))
  unfolding load
  guard_lem m x zs fs l =
      let (n, at_head, is_last) =
        cell_of_next (m.cells m.head) (last x.addr (addrs zs)) l.ring.close_next in
      (
        n,
        ap (λ o. or_else o undefined) at_head,
        some_inj (sym (ap prev_of at_head) ∙ l.ring.path.0),
        is_last,
      )

  pub full_lem :
      (m : LinkedVecMap V) (x : Item V) (zs : List (Item V)) (fs : List ℕ)
      → LayoutOf m (x ∷ zs) fs
      → Index m.map (x ∷ zs)
      → is_empty m ≡ false
  full_lem m x zs fs l i =
      is_empty_lem m (entries (x ∷ zs))
        (linked (record { items = x ∷ zs; frees = fs; layout = l; index = i; holds = refl }))
      ∙ ground arith

  first_of :
      (m : LinkedVecMap V) (e : ℕ × V) (es : List (ℕ × V)) (xs : List (Item V)) (fs : List ℕ)
      → LayoutOf m xs fs
      → Index m.map xs
      → e ∷ es ≡ entries xs
      → (x : Item V) × (zs : List (Item V)) × LayoutOf m (x ∷ zs) fs
        × Index m.map (x ∷ zs)
        × ((x.key, x.val) ≡ e)
        × (entries zs ≡ es)
  first_of m e es [] fs l i same = absurd (cc same)
  first_of m e es (x ∷ zs) fs l i same = (x, zs, l, i, cc same, cc same)

  pub first_item :
      (m : LinkedVecMap V) (e : ℕ × V) (es : List (ℕ × V)) (h : Linked m (e ∷ es))
      → (x : Item V) × (zs : List (Item V)) × LayoutOf m (x ∷ zs) h.frees
        × Index m.map (x ∷ zs)
        × ((x.key, x.val) ≡ e)
        × (entries zs ≡ es)
  first_item m e es h = first_of m e es h.items h.frees h.layout h.index h.holds

  pop_front_full :
      (m : LinkedVecMap V) (x : Item V) (zs : List (Item V)) (fs : List ℕ)
      → LayoutOf m (x ∷ zs) fs
      → Index m.map (x ∷ zs)
      → Returns {A = Option (ℕ × V) × LinkedVecMap V}
          (λ r. (r.0 ≡ some (x.key, x.val)) × Linked r.1 (entries zs))
          (pop_front m)
  unfolding pop_front
  pop_front_full m x zs fs l i =
      let (n, at_head, is_oldest, is_newest) = guard_lem m x zs fs l in
      rw (full_lem m x zs fs l i, pop_front)
        (rw at_head (rw is_oldest (pop_node_lem m [] x zs fs l i)))

  pop_back_full :
      (m : LinkedVecMap V) (x : Item V) (zs : List (Item V)) (fs : List ℕ)
      → LayoutOf m (x ∷ zs) fs
      → Index m.map (x ∷ zs)
      → Returns {A = Option (ℕ × V) × LinkedVecMap V}
          (λ r. (r.0 ≡ newest (entries (x ∷ zs))) × Linked r.1 (without_newest (entries (x ∷ zs))))
          (pop_back m)
  unfolding pop_back
  pop_back_full m x zs fs l i =
      let (n, at_head, is_oldest, is_newest) = guard_lem m x zs fs l in
      let (ys, y, parts, end) = last_item m.head x zs in
      let split : entries (x ∷ zs) ≡ entries ys ++ (y.key, y.val) ∷ [] =
        ap entries parts ∙ entries-append ys (y ∷ []) in
      let l' = subst (λ xs. LayoutOf m xs fs) parts l in
      let i' = subst (Index m.map) parts i in
      rw (full_lem m x zs fs l i, pop_back)
        (rw at_head (
          rw (is_newest ∙ end) (
            Returns-map (pop_node_lem m ys y [] fs l' i') (λ r (popped, h). (
              popped ∙ sym (ap newest split ∙ newest-snoc (entries ys) (y.key, y.val)),
              subst (Linked r.1)
                  (ap entries (sym (append_nil ys))
                    ∙ sym
                        (ap without_newest split ∙ without_newest-snoc (entries ys) (y.key, y.val)))
                  h,
            )))))

  -- `pop_front` takes the oldest entry.
  pub pop_front-Represents :
      (m : LinkedVecMap V) (es : List (ℕ × V))
      → Represents m es
      → Returns {A = Option (ℕ × V) × LinkedVecMap V}
          (λ r. (r.0 ≡ oldest es) × Represents r.1 (without_oldest es))
          (pop_front m)
  unfolding pop_front
  pop_front-Represents m [] h = rw (is_empty_lem m [] h, pop_front) (returns (refl, h))
  pop_front-Represents m (e ∷ es) (unguarded _ _ _ _ no_entries) = absurd (cc no_entries)
  pop_front-Represents m (e ∷ es) (linked h) =
      let (x, zs, l, i, first, rest) = first_item m e es h in
      Returns-map (pop_front_full m x zs h.frees l i)
        (λ r (popped, k). (popped ∙ ap some first, linked (subst (Linked r.1) rest k)))

  -- `pop_back` takes the newest entry.
  pub pop_back-Represents :
      (m : LinkedVecMap V) (es : List (ℕ × V))
      → Represents m es
      → Returns {A = Option (ℕ × V) × LinkedVecMap V}
          (λ r. (r.0 ≡ newest es) × Represents r.1 (without_newest es))
          (pop_back m)
  unfolding pop_back
  pop_back-Represents m [] h = rw (is_empty_lem m [] h, pop_back) (returns (refl, h))
  pop_back-Represents m (e ∷ es) (unguarded _ _ _ _ no_entries) = absurd (cc no_entries)
  pop_back-Represents m (e ∷ es) (linked h) =
      let (x, zs, l, i, first, rest) = first_item m e es h in
      let same : entries (x ∷ zs) ≡ e ∷ es = cc (first, rest) in
      Returns-map (pop_back_full m x zs h.frees l i) (λ r (popped, k).
        (popped ∙ ap newest same, linked (subst (Linked r.1) (ap without_newest same) k)))
