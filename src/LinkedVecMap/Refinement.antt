-- ===== src/LinkedVecMap/Refinement.antt =====
-- The list of entries that a map represents, and what the operations use of it.
use grid_server.Base.{
  inl, inr, Bool-cases, ℕ, ◌<◌, ◌≡◌, refl, sym, ap, ◌∙◌, subst, false, none, some, List, [], ◌∷◌,
  ◌++◌, arith, ◌==◌, ==_iff, ok, ◌>>=◌, Returns, Returns-map, Returns-bind,
}
use grid_server.VecMap
use grid_server.LinkedVecMap.{
  LinkedVecMap, load, entry_at, detach, attach, ensure_guard_node, alloc, store, new, with_map,
}
use grid_server.LinkedVecMap.Members.{or_false, if_eq}
use grid_server.LinkedVecMap.Ring.{next_of, prev_of, Item}
use grid_server.LinkedVecMap.Links.{SameFields, SameFields-trans}
use grid_server.LinkedVecMap.Index.{
  written, written-middle, entries, lookup, without, Index, find_lem, absent-find, lookup-absent,
  without-absent, lookup-middle, without-middle, Distinct-keys,
}
use grid_server.LinkedVecMap.Memory.{Layout, Loose, Ring-Neighbours, detach-Loose}
use grid_server.LinkedVecMap.Nodes.{cell_of_entry, attach-Layout}

module _ {V : Type 0} where
  abbrev pub LayoutOf : LinkedVecMap V → List (Item V) → List ℕ → Type 0
  LayoutOf m xs fs = Layout m.cells m.head m.free m.top xs fs

  -- The nodes and the index hold the same items, whose entries are `es`.
  pub record Linked (m : LinkedVecMap V) (es : List (ℕ × V)) : Type 0 where
    pub items : List (Item V)
    pub frees : List ℕ
    pub layout : LayoutOf m items frees
    pub index : Index m.map items
    pub holds : es ≡ entries items

  -- A map holds the entries `es`, from the oldest to the newest: before the first insertion it has
  -- no guard and no entry.
  pub data Represents (m : LinkedVecMap V) (es : List (ℕ × V)) : Type 0 where
    unguarded :
        m.head ≡ 0 → m.free ≡ 0 → 0 < m.top → Index {V = V} m.map [] → es ≡ [] → Represents m es
    linked : Linked m es → Represents m es

  pub Layout-same :
      {m m' : LinkedVecMap V} {xs : List (Item V)} {fs : List ℕ}
      → SameFields m m'
      → Layout m'.cells m.head m.free m.top xs fs
      → LayoutOf m' xs fs
  Layout-same same l = rw (same.head, same.free, same.top) l

  pub Loose-same :
      {m m' : LinkedVecMap V} {x : Item V} {xs : List (Item V)} {fs : List ℕ}
      → SameFields m m'
      → Loose m'.cells m.head m.free m.top x xs fs
      → Loose m'.cells m'.head m'.free m'.top x xs fs
  Loose-same same l = rw (same.head, same.free, same.top) l

  pub new-Represents : Represents (new {V = V}) []
  unfolding new with_map VecMap.new VecMap.get
  new-Represents =
      unguarded refl refl (omega arith)
        (record { finds = λ k. ground arith; distinct = tt; counted = refl }) refl

  pub head-guarded :
      (m : LinkedVecMap V) (xs : List (Item V)) (fs : List ℕ)
      → LayoutOf m xs fs
      → (m.head == 0) ≡ false
  head-guarded m xs fs l = (or_false (m.head == 0) _ l.nonzero).0

  pub ensure-Linked :
      (m : LinkedVecMap V) (es : List (ℕ × V)) → Represents m es → Linked (ensure_guard_node m) es
  unfolding ensure_guard_node alloc store
  ensure-Linked m es (unguarded no_head no_free room index no_entries) =
      rw ((==_iff m.head 0).1 no_head) (record {
        items = [];
        frees = [];
        layout = record {
          ring = record {
            path = tt;
            close_prev = ap prev_of (if_eq m.top _ _);
            close_next = ap next_of (if_eq m.top _ _);
          };
          frees = no_free;
          distinct = (refl, tt);
          nonzero = ground (arith, room);
          below = λ j h. ground (arith, h);
        };
        index = index;
        holds = no_entries;
      })
  ensure-Linked m es (linked h) = rw (head-guarded m h.items h.frees h.layout) h

  -- What a key finds.
  pub record At (m : LinkedVecMap V) (es : List (ℕ × V)) (k p : ℕ) : Type 0 where
    pub before : List (Item V)
    pub item : Item V
    pub after : List (Item V)
    pub frees : List ℕ
    pub is_key : item.key ≡ k
    pub is_addr : item.addr ≡ p
    pub layout : LayoutOf m (before ++ item ∷ after) frees
    pub index : Index m.map (before ++ item ∷ after)
    pub looks_up : lookup k es ≡ some item.val
    pub others : without k es ≡ entries (before ++ after)
    pub writes :
        (f : V → V) → written k f es ≡ entries (before ++ record item { val = f item.val } ∷ after)

  -- The item in the middle is what its key finds.
  pub At-item :
      (m : LinkedVecMap V) (ys : List (Item V)) (x : Item V) (zs : List (Item V)) (fs : List ℕ)
      (es : List (ℕ × V))
      → LayoutOf m (ys ++ x ∷ zs) fs
      → Index m.map (ys ++ x ∷ zs)
      → es ≡ entries (ys ++ x ∷ zs)
      → At m es x.key x.addr
  At-item m ys x zs fs es l i e =
      let (rest, absent, earlier) = Distinct-keys ys x zs i.distinct in
      record {
        before = ys;
        item = x;
        after = zs;
        frees = fs;
        is_key = refl;
        is_addr = refl;
        layout = l;
        index = i;
        looks_up = ap (lookup x.key) e ∙ lookup-middle ys x zs earlier;
        others = ap (without x.key) e ∙ without-middle ys x zs absent;
        writes = λ f. ap (written x.key f) e ∙ written-middle f ys x zs earlier;
      }

  pub find-Linked :
      (m : LinkedVecMap V) (es : List (ℕ × V)) (k p : ℕ)
      → Linked m es
      → VecMap.get m.map k ≡ some p
      → At m es k p
  find-Linked m es k p h found =
      let f = find_lem k p h.items (sym (h.index.finds k) ∙ found) in
      let a =
        At-item m f.before f.item f.after h.frees es
          (subst (λ xs. LayoutOf m xs h.frees) f.parts h.layout)
          (subst (Index m.map) f.parts h.index) (h.holds ∙ ap entries f.parts) in
      subst (λ p. At m es k p) f.is_addr (subst (λ k. At m es k f.item.addr) f.is_key a)

  pub entry_at-ok :
      (m : LinkedVecMap V) (ys : List (Item V)) (x : Item V) (zs : List (Item V)) (fs : List ℕ)
      → LayoutOf m (ys ++ x ∷ zs) fs
      → entry_at m x.addr ≡ ok (x.key, x.val)
  unfolding entry_at load
  entry_at-ok m ys x zs fs l =
      let (n, at_x, is_entry) =
        cell_of_entry (m.cells x.addr) (x.key, x.val)
          ((Ring-Neighbours m.cells m.head ys x zs l.ring).entry) in
      rw (at_x, entry_at) (rw is_entry refl)

  pub refresh-Layout :
      (m : LinkedVecMap V) (ys : List (Item V)) (x : Item V) (zs : List (Item V)) (fs : List ℕ)
      → LayoutOf m (ys ++ x ∷ zs) fs
      → Returns
          (λ m'. LayoutOf m' ((ys ++ zs) ++ x ∷ []) fs × SameFields m m')
          (detach m x.addr >>= λ m1. attach m1 x.addr)
  refresh-Layout m ys x zs fs l = Returns-bind (detach-Loose m ys x zs fs l) (λ m1 (loose, same1).
      Returns-map (attach-Layout m1 x (ys ++ zs) fs (Loose-same same1 loose))
        (λ m2 (l2, same2). (Layout-same same2 l2, SameFields-trans same1 same2)))

  -- A key that the index has not is not one of the entries.
  pub lookup-none :
      (m : LinkedVecMap V) (es : List (ℕ × V)) (k : ℕ)
      → Represents m es
      → VecMap.get m.map k ≡ none
      → lookup k es ≡ none
  lookup-none m es k (unguarded _ _ _ _ no_entries) absent = ap (lookup k) no_entries
  lookup-none m es k (linked h) absent =
      ap (lookup k) h.holds
      ∙ lookup-absent k h.items (absent-find k h.items (sym (h.index.finds k) ∙ absent))

  pub Linked-found :
      (m : LinkedVecMap V) (es : List (ℕ × V)) (k p : ℕ)
      → Represents m es
      → VecMap.get m.map k ≡ some p
      → Linked m es
  Linked-found m es k p (unguarded _ _ _ index _) found = absurd (cc (index.finds k, found))
  Linked-found m es k p (linked h) found = h

  pub without-none :
      (m : LinkedVecMap V) (es : List (ℕ × V)) (k : ℕ)
      → Represents m es
      → VecMap.get m.map k ≡ none
      → without k es ≡ es
  without-none m es k (unguarded _ _ _ _ no_entries) absent =
      ap (without k) no_entries ∙ sym no_entries
  without-none m es k (linked h) absent =
      ap (without k) h.holds
      ∙ without-absent k h.items (absent-find k h.items (sym (h.index.finds k) ∙ absent))
      ∙ sym h.holds

  pub ensure_guard_node-map : (m : LinkedVecMap V) → (ensure_guard_node m).map ≡ m.map
  unfolding ensure_guard_node alloc store
  ensure_guard_node-map m = elim (Bool-cases (m.head == 0)) [
    | inl none_yet ↦ rw (none_yet, ensure_guard_node) refl
    | inr there ↦ rw (there, ensure_guard_node) refl
  ]
