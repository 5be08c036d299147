-- ===== src/PriorityQueue/Heapify.antt =====
-- `heapify` restores the order below a position.
use grid_server.Base.{
  refl, ℕ, zero, suc, ◌+◌, ◌-◌, ◌≤◌, ◌<◌, ◌≡◌, ◌≢◌, ◌⊎◌, sym, inl, inr, Bool, arith, Returns,
  returns, Returns-bind, Returns-map, Returns-if, length, leb, ◌==◌,
}
use grid_server.PriorityQueue.{PriorityQueue, heapify_loop, heapify}
use grid_server.PriorityQueue.Index.{IsIndexed, Kept-refl, Kept-trans}
use grid_server.PriorityQueue.Order.{
  HasChildren, IsPriority, IsHeap, IsHeapAbove, Sifted, sink-IsHeapAbove,
}
use grid_server.PriorityQueue.Swap.{Swapped, swap_lem}
use grid_server.PriorityQueue.Largest.{IsLargest, largest_of-IsLargest}

module _ {V : Type 0} (cmp : V → V → Bool) (laws : IsPriority cmp) where
  module _ (q : PriorityQueue V) (i m : ℕ) (h : i < length q.heap) (inv : IsIndexed q)
      (o : IsHeapAbove cmp i q) (largest : IsLargest cmp q i m) where
    settled-IsHeap : m ≡ i → IsHeap cmp q
    settled-IsHeap e c p s = elim largest.cases [
      | inl (_, children) ↦ ground (arith, o.edges c, children c)
      | inr (child, _, _) ↦ absurd (omega arith)
    ]

    fall : i ≢ m → i < m
    fall ne = elim largest.cases [
      | inl (e, _) ↦ absurd (ne (sym e))
      | inr (child, _, _) ↦ omega arith
    ]

    sunk-IsHeapAbove : (r : PriorityQueue V) → Swapped q i m r → i ≢ m → IsHeapAbove cmp m r
    sunk-IsHeapAbove r s ne = elim largest.cases [
      | inl (e, _) ↦ absurd (ne (sym e))
      | inr (child, lower, highest) ↦
          sink-IsHeapAbove cmp laws q r i m largest.inside child s.kept.len s.keys o lower highest
    ]

  heapify_loop-Sifted :
      (k : ℕ) (q : PriorityQueue V) (i : ℕ)
      → length q.heap - i < k
      → i < length q.heap
      → IsIndexed q
      → IsHeapAbove cmp i q
      → Returns (Sifted cmp q) (heapify_loop cmp k q i)
  unfolding heapify_loop
  heapify_loop-Sifted zero q i f h inv o = absurd (omega arith)
  heapify_loop-Sifted (suc k) q i f h inv o =
      Returns-bind (largest_of-IsLargest cmp laws q i inv h) λ m largest.
        Returns-if (m == i)
          (λ e. returns (record {
            queue = record {
              indexed = inv;
              ordered = settled-IsHeap q i m h inv o largest (ground arith);
            };
            kept = Kept-refl q;
          }))
          (λ e.
            let ne : i ≢ m = ground arith in
            Returns-bind (swap_lem q i m inv ne h largest.inside) λ r s.
              Returns-map
                (heapify_loop-Sifted k r m
                  (omega (arith, s.kept.len, fall q i m h inv o largest ne))
                  (omega (arith, s.kept.len, largest.inside)) s.indexed
                  (sunk-IsHeapAbove q i m h inv o largest r s ne))
                λ t g. record { queue = g.queue; kept = Kept-trans s.kept g.kept })

  pub heapify-Sifted :
      (q : PriorityQueue V) (i : ℕ)
      → i < length q.heap ⊎ (length q.heap ≤ 1)
      → IsIndexed q
      → IsHeapAbove cmp i q
      → Returns (Sifted cmp q) (heapify cmp q i)
  unfolding heapify
  heapify-Sifted q i h inv o =
      Returns-if (leb (length q.heap) 1)
        (λ e. returns (record {
          queue = record { indexed = inv; ordered = λ c p s. absurd (ground arith) };
          kept = Kept-refl q;
        }))
        (λ e. heapify_loop-Sifted (length q.heap + 1) q i (omega arith) (ground arith) inv o)

  heapify_loop_stays :
      (k : ℕ) (q : PriorityQueue V) (i : ℕ)
      → 0 < k
      → i < length q.heap
      → IsIndexed q
      → HasChildren cmp i q
      → Returns (λ r. r ≡ q) (heapify_loop cmp k q i)
  unfolding heapify_loop
  heapify_loop_stays zero q i f h inv o = absurd (omega arith)
  heapify_loop_stays (suc k) q i f h inv o =
      Returns-bind (largest_of-IsLargest cmp laws q i inv h) λ m largest.
        Returns-if (m == i) (λ e. returns refl)
          (λ e. elim largest.cases [
            | inl (same, _) ↦ absurd (ground arith)
            | inr (child, higher, _) ↦
                absurd (ground (arith, o m (omega arith) largest.inside (omega arith)))
          ])

  -- A value above its children stays where it is.
  pub heapify_stays :
      (q : PriorityQueue V) (i : ℕ)
      → i < length q.heap
      → IsIndexed q
      → HasChildren cmp i q
      → Returns (λ r. r ≡ q) (heapify cmp q i)
  unfolding heapify
  heapify_stays q i h inv o =
      Returns-if (leb (length q.heap) 1) (λ e. returns refl)
        (λ e. heapify_loop_stays (length q.heap + 1) q i (omega arith) h inv o)
