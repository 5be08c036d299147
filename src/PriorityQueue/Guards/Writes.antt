-- ===== src/PriorityQueue/Guards/Writes.antt =====
-- A write through a guard and the drop of the guard: when the order survives, and when it does not.
use grid_server.Base.{
  ℕ, ◌<◌, ◌≡◌, ◌∙◌, inl, inr, Bool, true, false, none, some, arith, Run, ok, Returns, Returns-map,
  length, get_elem?, get_elem?-some, ◌>>=◌, ==_refl,
}
use grid_server.VecMap
use grid_server.VecMap.{is_some}
use grid_server.VecMap.Lookup.{get_unchecked_mut-ok, get-write, contains_key-some}
use grid_server.PriorityQueue.{PriorityQueue, get, parent, heapify}
use grid_server.PriorityQueue.Guards.{
  get_mut, peek_mut, deref_mut, RefMut_write, PeekMut_write, drop_ref_mut, drop_peek_mut,
}
use grid_server.PriorityQueue.Index.{at, place, key, entry-cases, entry_of_place}
use grid_server.PriorityQueue.Order.{
  IsPriority, below, below-some, below-cotrans, IsHeap, IsHeapAbove, HasChildren, IsQueue,
  IsHeap-IsHeapBut,
}
use grid_server.PriorityQueue.Heapify.{heapify-Sifted, heapify_stays}
use grid_server.PriorityQueue.Update.{
  Updated, rewritten, rewritten-get, rewritten-key, rewritten-IsIndexed,
}

module _ {V : Type 0} (cmp : V → V → Bool) where
  -- `if let Some(mut r) = queue.get_mut(id) { *r = f(*r) }`, with the drop at the end of the block.
  abbrev pub update_through_get_mut : PriorityQueue V → ℕ → (V → V) → Run (PriorityQueue V)
  update_through_get_mut q id f = elim (get_mut q id) [
    | none ↦ ok q
    | some r ↦ RefMut_write r f >>= drop_ref_mut cmp
  ]

  -- The same through `peek_mut`.
  abbrev pub update_through_peek_mut : PriorityQueue V → (V → V) → Run (PriorityQueue V)
  update_through_peek_mut q f = elim (peek_mut q) [
    | none ↦ ok q
    | some r ↦ PeekMut_write r f >>= drop_peek_mut cmp
  ]

module _ {V : Type 0} (cmp : V → V → Bool) (laws : IsPriority cmp) where
  module _ (q : PriorityQueue V) (id p : ℕ) (v v' : V) (i : IsQueue cmp q)
      (e : VecMap.get q.map id ≡ some (p, v)) (here : place q id ≡ some p)
      (g : get q id ≡ some v) where
    abbrev after : PriorityQueue V
    after = rewritten q id p v v' i.indexed e here

    key_here : key after p ≡ some v'
    key_here =
        ground
          (arith, rewritten-get q id p v v' i.indexed e here (at q.heap p), i.indexed.located id p)

    -- The children of the position are no higher than what is above it.
    after_bridged :
        (c : ℕ)
        → 0 < c
        → c < length q.heap
        → parent c ≡ p
        → 0 < p
        → below cmp (key after (parent p)) (key after c) ≡ false
    after_bridged c pos l f z =
        let inside : p < length q.heap = (i.indexed.located id p here).0 in
        let keys = rewritten-key q id p v v' i.indexed e here in
        let old = IsHeap-IsHeapBut cmp laws q p i.ordered inside in
        ground (arith, keys c l, keys (parent p), old.bridged c)

    lowered-IsHeapAbove : (0 < p → cmp v v' ≡ false) → IsHeapAbove cmp p after
    lowered-IsHeapAbove low =
        let inside : p < length q.heap = (i.indexed.located id p here).0 in
        let keys = rewritten-key q id p v v' i.indexed e here in
        record {
          edges = λ c pos l n. ground (
            arith,
            keys c l,
            keys (parent c),
            i.ordered c,
            key_here,
            low,
            g,
            i.indexed.located id p,
            below-some cmp v v',
            below-cotrans cmp laws (key q (parent c)) (some v) (some v'),
          );
          bridged = after_bridged;
        }

    sifted-Updated :
        (0 < p → cmp v v' ≡ false) → Returns (Updated cmp q id v') (heapify cmp after p)
    sifted-Updated low =
        let inside : p < length q.heap = (i.indexed.located id p here).0 in
        Returns-map
          (heapify-Sifted cmp laws after p (inl inside)
            (rewritten-IsIndexed q id p v v' i.indexed e here) (lowered-IsHeapAbove low))
          λ t s. record {
            queue = s.queue;
            values = λ k. s.kept.values k ∙ rewritten-get q id p v v' i.indexed e here k;
            len = ground (arith, s.kept.len, g);
          }

    raised_stays :
        (u : V)
        → 0 < p
        → key q (parent p) ≡ some u
        → cmp u v' ≡ true
        → Returns (λ r. ¬ IsHeap cmp r) (heapify cmp after p)
    raised_stays u z up h =
        let inside : p < length q.heap = (i.indexed.located id p here).0 in
        let keys = rewritten-key q id p v v' i.indexed e here in
        let above : key after (parent p) ≡ some u =
          keys (parent p) (omega arith) (omega arith) ∙ up in
        let children : HasChildren cmp p after = λ c pos l f. ground (
          arith,
          key_here,
          above,
          after_bridged c pos l f z,
          below-some cmp v' u,
          laws.asym u v',
          below-cotrans cmp laws (some v') (some u) (key after c),
        ) in
        Returns-map
          (heapify_stays cmp laws after p inside (rewritten-IsIndexed q id p v v' i.indexed e here)
            children)
          λ r same ordered.
            absurd (ground (arith, ordered p z, same, inside, key_here, above, below-some cmp u v'))

  write-ok :
      (q : PriorityQueue V) (id p : ℕ) (v : V) (f : V → V)
      → VecMap.get q.map id ≡ some (p, v)
      → deref_mut q id f ≡ ok (record q { map = VecMap.write q.map id (p, f v) })
  unfolding deref_mut
  write-ok q id p v f e = rw (get_unchecked_mut-ok q.map id e)

  pub peek_mut-root :
      (q : PriorityQueue V) (id : ℕ)
      → get_elem? q.heap 0 ≡ some id
      → peek_mut q ≡ some (record { queue = q; key = id; modified = false })
  unfolding peek_mut
  peek_mut-root q id root = rw (root, peek_mut)

  module _ (q : PriorityQueue V) (id p : ℕ) (v : V) (f : V → V)
      (e : VecMap.get q.map id ≡ some (p, v)) where
    abbrev changed_queue : PriorityQueue V
    changed_queue = record q { map = VecMap.write q.map id (p, f v) }

    pub get_mut-present : get_mut q id ≡ some (record { queue = q; key = id; modified = false })
    unfolding get_mut
    get_mut-present = rw (contains_key-some q.map id e)

    pub RefMut_write-ok :
        RefMut_write (record { queue = q; key = id; modified = false }) f
        ≡ ok (record { queue = changed_queue; key = id; modified = true })
    unfolding RefMut_write
    RefMut_write-ok = rw (write-ok q id p v f e)

    pub PeekMut_write-ok :
        PeekMut_write (record { queue = q; key = id; modified = false }) f
        ≡ ok (record { queue = changed_queue; key = id; modified = true })
    unfolding PeekMut_write
    PeekMut_write-ok = rw (write-ok q id p v f e)

    pub drop_ref_mut-changed :
        drop_ref_mut cmp (record { queue = changed_queue; key = id; modified = true })
        ≡ heapify cmp changed_queue p
    unfolding drop_ref_mut
    drop_ref_mut-changed =
        let read : VecMap.get changed_queue.map id ≡ some (p, f v) =
          get-write q.map id id (p, f v) e ∙ rw (==_refl id) in
        rw read

    get_mut-write : update_through_get_mut cmp q id f ≡ heapify cmp changed_queue p
    get_mut-write =
        rw (get_mut-present, update_through_get_mut, RefMut_write-ok) drop_ref_mut-changed

    peek_mut-write :
        get_elem? q.heap 0 ≡ some id → update_through_peek_mut cmp q f ≡ heapify cmp changed_queue 0
    unfolding drop_peek_mut
    peek_mut-write root = rw (peek_mut-root q id root, update_through_peek_mut, PeekMut_write-ok)

  -- A write through the guard of `peek_mut` followed by its drop, where the new value does not
  -- precede the old one, returns an indexed and heap-ordered queue in which only the top id changed
  -- its value.
  pub peek_mut-Updated :
      (q : PriorityQueue V) (id : ℕ) (v : V) (f : V → V)
      → IsQueue cmp q
      → get_elem? q.heap 0 ≡ some id
      → get q id ≡ some v
      → Returns (Updated cmp q id (f v)) (update_through_peek_mut cmp q f)
  peek_mut-Updated q id v f i root g = elim (entry-cases q id) [
    | inl (_, _, h) ↦ absurd (cc h)
    | inr (p, x, e, here, h) ↦
        let same : x ≡ v = cc h in
        let top : 0 ≡ p = ground (
          arith,
          root,
          get_elem?-some q.heap 0 0,
          i.indexed.listed 0,
          here,
          i.indexed.located id p,
        ) in
        rw (peek_mut-write q id p x f e root, ← same, top)
          (sifted-Updated q id p x (f x) i e here h (λ z. absurd (omega arith)))
  ]

  -- A write through the guard of `get_mut` on a present id followed by its drop, where the new
  -- value does not precede the old one, returns an indexed and heap-ordered queue in which only
  -- that id changed its value.
  pub get_mut-Updated :
      (q : PriorityQueue V) (id : ℕ) (v : V) (f : V → V)
      → IsQueue cmp q
      → get q id ≡ some v
      → cmp v (f v) ≡ false
      → Returns (Updated cmp q id (f v)) (update_through_get_mut cmp q id f)
  get_mut-Updated q id v f i g low = elim (entry-cases q id) [
    | inl (_, _, h) ↦ absurd (cc h)
    | inr (p, x, e, here, h) ↦
        let same : x ≡ v = cc h in
        rw (get_mut-write q id p x f e, ← same)
          (sifted-Updated q id p x (f x) i e here h (λ z. rw same low))
  ]

  -- A write through the guard of `get_mut` that puts a value above that of its parent leaves the
  -- heap out of order after the drop, since the drop only sifts down.
  pub get_mut-raised :
      (q : PriorityQueue V) (id p : ℕ) (v u : V) (f : V → V)
      → IsQueue cmp q
      → place q id ≡ some p
      → get q id ≡ some v
      → 0 < p
      → key q (parent p) ≡ some u
      → cmp u (f v) ≡ true
      → Returns (λ r. ¬ IsHeap cmp r) (update_through_get_mut cmp q id f)
  get_mut-raised q id p v u f i here g z up h =
      let (x, e, h') = entry_of_place q id p here in
      let same : x ≡ v = cc h' in
      rw (get_mut-write q id p x f e) (raised_stays q id p x (f x) i e here h' u z up (rw same h))
