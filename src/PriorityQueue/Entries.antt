-- ===== src/PriorityQueue/Entries.antt =====
-- The index and the values survive every sift, whether or not the heap was in order.
use grid_server.Base.{
  ℕ, zero, suc, ◌+◌, ◌-◌, ◌≤◌, ◌<◌, ◌≡◌, ◌≢◌, ◌⊎◌, refl, sym, inl, inr, Bool, false, arith, Returns,
  returns, Returns-bind, Returns-map, Returns-if, length, get_elem?-some, ltb, leb, ◌==◌,
}
use grid_server.VecMap
use grid_server.VecMap.Lookup.{get_unchecked-ok, get_unchecked_mut-ok}
use grid_server.PriorityQueue.{
  PriorityQueue, parent, bubble_up_loop, bubble_up, heapify_loop, heapify, up_heapify,
}
use grid_server.PriorityQueue.Index.{
  at, IsIndexed, IsIndexedBut, Kept, Kept-refl, Kept-trans, entry_of_place, place-write,
  get-write_lem, settle-IsIndexed, IsIndexed-IsIndexedBut,
}
use grid_server.PriorityQueue.Order.{IsPriority}
use grid_server.PriorityQueue.Swap.{swap_lem}
use grid_server.PriorityQueue.Largest.{largest_of-IsLargest}
use grid_server.PriorityQueue.BubbleUp.{moving_entry, risen, risen-Kept, risen-IsIndexedBut}

module _ {V : Type 0} where
  -- `r` is an indexed queue of the same ids and values.
  pub record Reindexed (q r : PriorityQueue V) : Type 0 where
    pub indexed : IsIndexed r
    pub kept : Kept q r

  -- The same while the id at `r.1` moves.
  pub record Moving (q : PriorityQueue V) (r : PriorityQueue V × ℕ) : Type 0 where
    pub indexed : IsIndexedBut r.1 r.0
    pub kept : Kept q r.0

  pub record Settled (q : PriorityQueue V) (r : PriorityQueue V × ℕ) : Type 0 where
    pub inside : r.1 < length r.0.heap
    pub indexed : IsIndexed r.0
    pub kept : Kept q r.0

module _ {V : Type 0} (cmp : V → V → Bool) (laws : IsPriority cmp) where
  heapify_loop-Reindexed :
      (k : ℕ) (q : PriorityQueue V) (i : ℕ)
      → length q.heap - i < k
      → i < length q.heap
      → IsIndexed q
      → Returns (Reindexed q) (heapify_loop cmp k q i)
  unfolding heapify_loop
  heapify_loop-Reindexed zero q i f h inv = absurd (omega arith)
  heapify_loop-Reindexed (suc k) q i f h inv =
      Returns-bind (largest_of-IsLargest cmp laws q i inv h) λ m largest.
        Returns-if (m == i) (λ e. returns (record { indexed = inv; kept = Kept-refl q }))
          (λ e.
            let ne : i ≢ m = ground arith in
            let fall : i < m = elim largest.cases [
              | inl (same, _) ↦ absurd (ne (sym same))
              | inr (child, _, _) ↦ omega arith
            ] in
            Returns-bind (swap_lem q i m inv ne h largest.inside) λ r s.
              Returns-map
                (heapify_loop-Reindexed k r m (omega (arith, s.kept.len, fall))
                  (omega (arith, s.kept.len, largest.inside)) s.indexed)
                λ t g. record { indexed = g.indexed; kept = Kept-trans s.kept g.kept })

  pub heapify-Reindexed :
      (q : PriorityQueue V) (i : ℕ)
      → i < length q.heap ⊎ (length q.heap ≤ 1)
      → IsIndexed q
      → Returns (Reindexed q) (heapify cmp q i)
  unfolding heapify
  heapify-Reindexed q i h inv =
      Returns-if (leb (length q.heap) 1)
        (λ e. returns (record { indexed = inv; kept = Kept-refl q }))
        (λ e. heapify_loop-Reindexed (length q.heap + 1) q i (omega arith) (ground arith) inv)

  bubble_up_loop-Moving :
      (k : ℕ) (q : PriorityQueue V) (i : ℕ)
      → i < k
      → IsIndexedBut i q
      → Returns (Moving q) (bubble_up_loop cmp k q i)
  unfolding bubble_up_loop
  bubble_up_loop-Moving zero q i f inv = absurd (omega arith)
  bubble_up_loop-Moving (suc k) q i f inv =
      Returns-if (ltb 0 i)
        (λ e.
          let pos : 0 < i = ground arith in
          let ne : i ≢ parent i = omega arith in
          let hp : parent i < length q.heap = omega (arith, inv.inside) in
          let (pa, va, ea, ga) = moving_entry q i inv in
          let (vb, eb, gb) =
            entry_of_place q (at q.heap (parent i)) (parent i)
              (inv.listed (parent i) hp (λ x. ne (sym x))) in
          let distinct : (at q.heap i == at q.heap (parent i)) ≡ false =
            ground (arith, inv.apart (parent i) hp) in
          rw
            (
              get_elem?-some q.heap i 0 inv.inside,
              get_elem?-some q.heap (parent i) 0 hp,
              get_unchecked-ok q.map (at q.heap i) ea,
              get_unchecked-ok q.map (at q.heap (parent i)) eb,
              distinct,
            )
            (Returns-if (cmp vb va)
              (λ up.
                Returns-map
                  (bubble_up_loop-Moving k (risen q i (parent i) pa va vb ne hp inv ea eb gb)
                    (parent i) (omega arith)
                    (risen-IsIndexedBut q i (parent i) pa va vb ne hp inv ea eb gb))
                  λ t g. record {
                    indexed = g.indexed;
                    kept =
                        Kept-trans (risen-Kept q i (parent i) pa va vb ne hp inv ea eb gb) g.kept;
                  })
              (λ stay. returns (record { indexed = inv; kept = Kept-refl q }))))
        (λ e. returns (record { indexed = inv; kept = Kept-refl q }))

  pub bubble_up-Settled :
      (q : PriorityQueue V) (i : ℕ) → IsIndexedBut i q → Returns (Settled q) (bubble_up cmp q i)
  unfolding bubble_up VecMap.write
  bubble_up-Settled q i inv =
      Returns-bind (bubble_up_loop-Moving (i + 1) q i (omega arith) inv) λ (r, p) s.
        let (pa, va, e, g) = moving_entry r p s.indexed in
        let t : PriorityQueue V = record r { map = VecMap.write r.map (at r.heap p) (p, va) } in
        rw (get_elem?-some r.heap p 0 s.indexed.inside, get_unchecked_mut-ok r.map (at r.heap p) e)
          (returns (record {
            inside = s.indexed.inside;
            indexed =
                settle-IsIndexed r t p s.indexed refl refl
                  (place-write r r.heap (at r.heap p) pa p va va e);
            kept = Kept-trans s.kept (record {
              values = λ k. ground (arith, get-write_lem r r.heap (at r.heap p) pa p va va e k);
              len = refl;
            });
          }))

  pub up_heapify-Reindexed :
      (q : PriorityQueue V) (i : ℕ)
      → i < length q.heap
      → IsIndexed q
      → Returns (Reindexed q) (up_heapify cmp q i)
  unfolding up_heapify
  up_heapify-Reindexed q i h inv =
      Returns-bind (bubble_up-Settled q i (IsIndexed-IsIndexedBut q i inv h)) λ (r, p) s.
        Returns-map (heapify-Reindexed r p (inl s.inside) s.indexed)
          λ t g. record { indexed = g.indexed; kept = Kept-trans s.kept g.kept }
