-- ===== src/PriorityQueue/MapAll.antt =====
-- `map`: every value changes, and the index stays whole.
use grid_server.Base.{
  ℕ, zero, suc, ◌+◌, ◌≤◌, ◌≡◌, refl, sym, ◌∙◌, ap, Bool, arith, Returns, returns, Returns-bind,
  Returns-map, length, Option-cases, inl, inr,
}
use grid_server.VecMap
use grid_server.VecMap.Iteration.{map_value, get-for_each_mut, for_each_mut-n}
use grid_server.PriorityQueue.{PriorityQueue, value_of, get, up_heapify_range, map_all}
use grid_server.PriorityQueue.Index.{at, place, place_of, IsIndexed, Kept-refl, Kept-trans}
use grid_server.PriorityQueue.Order.{IsPriority}
use grid_server.PriorityQueue.Entries.{Reindexed, up_heapify-Reindexed}

module _ {V : Type 0} (f : V → V) (q : PriorityQueue V) where
  abbrev on_value : ℕ × V → ℕ × V
  on_value entry = (entry.0, f entry.1)

  abbrev mapped : PriorityQueue V
  mapped = record q { map = VecMap.for_each_mut on_value q.map }

  mapped-place : (k : ℕ) → place mapped k ≡ place q k
  unfolding place
  mapped-place k =
      ap place_of (get-for_each_mut on_value q.map k)
      ∙ elim (Option-cases (VecMap.get q.map k)) [ inl e ↦ rw e refl | inr (entry, e) ↦ rw e refl ]

  mapped-get : (k : ℕ) → get mapped k ≡ map_value f (get q k)
  unfolding get
  mapped-get k =
      ap value_of (get-for_each_mut on_value q.map k)
      ∙ elim (Option-cases (VecMap.get q.map k)) [ inl e ↦ rw e refl | inr (entry, e) ↦ rw e refl ]

  mapped-IsIndexed : IsIndexed q → IsIndexed mapped
  mapped-IsIndexed inv = record {
    listed = λ p h. mapped-place (at q.heap p) ∙ inv.listed p h;
    located = λ k p e. inv.located k p (sym (mapped-place k) ∙ e);
    sized = for_each_mut-n on_value q.map ∙ inv.sized;
  }

module _ {V : Type 0} (cmp : V → V → Bool) (laws : IsPriority cmp) where
  up_heapify_range-Reindexed :
      (rounds i : ℕ) (q : PriorityQueue V)
      → i + rounds ≤ length q.heap
      → IsIndexed q
      → Returns (Reindexed q) (up_heapify_range cmp rounds i q)
  unfolding up_heapify_range
  up_heapify_range-Reindexed zero i q h inv = returns (record { indexed = inv; kept = Kept-refl q })
  up_heapify_range-Reindexed (suc rounds) i q h inv =
      Returns-bind (up_heapify-Reindexed cmp laws q i (omega arith) inv) λ r s.
        Returns-map
          (up_heapify_range-Reindexed rounds (suc i) r (omega (arith, s.kept.len)) s.indexed)
          λ t g. record { indexed = g.indexed; kept = Kept-trans s.kept g.kept }

  -- What `map` leaves.
  pub record Mapped (f : V → V) (q r : PriorityQueue V) : Type 0 where
    pub indexed : IsIndexed r
    pub values : (k : ℕ) → get r k ≡ map_value f (get q k)

  pub map_all-Mapped :
      (f : V → V) (q : PriorityQueue V) → IsIndexed q → Returns (Mapped f q) (map_all cmp q f)
  unfolding map_all
  map_all-Mapped f q inv =
      Returns-map
        (up_heapify_range-Reindexed (length q.heap) 0 (mapped f q) (omega arith)
          (mapped-IsIndexed f q inv))
        λ r s. record { indexed = s.indexed; values = λ k. s.kept.values k ∙ mapped-get f q k }
