-- ===== src/PriorityQueue/Extract.antt =====
-- `pop` and `remove`: the removed entry goes, every other keeps its value, and the order is restored.
use mathlib.Core.Path.{subst}
use grid_server.Base.{
  ℕ, zero, suc, ◌+◌, ◌≤◌, ◌<◌, ◌≡◌, ◌⊎◌, refl, ◌∙◌, ap, inl, inr, Bool, false, Option, none, some,
  arith, ok, Returns, returns, Returns-bind, Returns-if, length, ltb, ◌==◌, if◌then◌else◌,
}
use grid_server.PriorityQueue.{PriorityQueue, get, parent, up_heapify, pop, remove}
use grid_server.PriorityQueue.Index.{key, Kept-refl, entry-cases}
use grid_server.PriorityQueue.Order.{
  IsPriority, below, below-some, below-asym, below-cotrans, IsHeap, IsHeapBut, IsHeapAbove, IsQueue,
  Sifted,
}
use grid_server.PriorityQueue.Heapify.{heapify-Sifted}
use grid_server.PriorityQueue.BubbleUp.{up_heapify-Sifted}
use grid_server.PriorityQueue.Cut.{Without, swap_remove-Without}

module _ {V : Type 0} (cmp : V → V → Bool) where
  -- `r` is an ordered queue of the entries of `q` other than that of `id`, which was `v`.
  pub record Extracted (q : PriorityQueue V) (id : ℕ) (v : V) (r : PriorityQueue V) : Type 0 where
    pub queue : IsQueue cmp r
    pub value : get q id ≡ some v
    pub values : (k : ℕ) → get r k ≡ (if id == k then none else get q k)
    pub len : length r.heap + 1 ≡ length q.heap

  -- No value of the queue is higher than `v`.
  abbrev pub IsHighest : PriorityQueue V → V → Type 0
  IsHighest q v = (k : ℕ) (w : V) → get q k ≡ some w → cmp v w ≡ false

  -- What `pop` returns: nothing from an empty queue, and otherwise a highest entry.
  pub data Popped (q : PriorityQueue V) (o : Option (ℕ × V)) (r : PriorityQueue V) : Type 0 where
    empty : length q.heap ≡ 0 → o ≡ none → r ≡ q → Popped q o r
    popped : (id : ℕ) (v : V) → o ≡ some (id, v) → Extracted q id v r → IsHighest q v → Popped q o r

  -- What `remove` returns: nothing for an id that is absent, and otherwise its entry.
  pub data Removed (q : PriorityQueue V) (id : ℕ) (o : Option (ℕ × V)) (r : PriorityQueue V)
      : Type 0 where
    absent : get q id ≡ none → o ≡ none → r ≡ q → Removed q id o r
    removed_entry : (v : V) → o ≡ some (id, v) → Extracted q id v r → Removed q id o r

module _ {V : Type 0} (cmp : V → V → Bool) (laws : IsPriority cmp) where
  root_highest_below :
      (k : ℕ) (q : PriorityQueue V) (c : ℕ)
      → IsHeap cmp q
      → c < k
      → c < length q.heap
      → below cmp (key q 0) (key q c) ≡ false
  root_highest_below zero q c h f l = absurd (omega arith)
  root_highest_below (suc k) q c h f l = ground (
    arith,
    h c,
    root_highest_below k q (parent c) h,
    below-asym cmp laws (key q 0) (key q 0),
    below-cotrans cmp laws (key q 0) (key q (parent c)) (key q c),
  )

  pub root-IsHighest :
      (q : PriorityQueue V) (v : V) → IsQueue cmp q → key q 0 ≡ some v → IsHighest cmp q v
  root-IsHighest q v i e k w g = elim (entry-cases q k) [
    | inl (_, _, none_there) ↦ absurd (cc none_there)
    | inr (p, u, _, place_k, _) ↦
        let (inside, here) = i.indexed.located k p place_k in
        let highest = root_highest_below (suc p) q p i.ordered (omega arith) inside in
        ground (arith, highest, here, below-some cmp v w)
  ]

  -- The hole that `swap_remove` leaves is the only place out of order.
  Without-IsHeapBut :
      (q : PriorityQueue V) (p : ℕ) (r : (ℕ × V) × PriorityQueue V)
      → IsQueue cmp q
      → Without q p r
      → IsHeapBut cmp p r.1
  Without-IsHeapBut q p r i w = record {
    edges = λ c pos l ne np. ground (arith, w.len, w.keys c l, w.keys (parent c), i.ordered c);
    bridged = λ c pos l e z. ground (
      arith,
      w.len,
      w.keys c l,
      w.keys (parent p),
      i.ordered c,
      i.ordered p,
      below-cotrans cmp laws (key q (parent p)) (key q p) (key q c),
    );
  }

  Without-IsHeapAbove :
      (q : PriorityQueue V) (r : (ℕ × V) × PriorityQueue V)
      → IsQueue cmp q
      → Without q 0 r
      → IsHeapAbove cmp 0 r.1
  Without-IsHeapAbove q r i w = record {
    edges = λ c pos l n. ground (arith, w.len, w.keys c l, w.keys (parent c), i.ordered c);
    bridged = λ c pos l e z. absurd (omega arith);
  }

  -- Sifting what `swap_remove` leaves keeps its entries.
  Extracted-Sifted :
      (q : PriorityQueue V) (o : ℕ × V) (r t : PriorityQueue V) (p : ℕ)
      → Without q p (o, r)
      → Sifted cmp r t
      → Extracted cmp q o.0 o.1 t
  Extracted-Sifted q o r t p w s = record {
    queue = s.queue;
    value = w.value;
    values = λ k. s.kept.values k ∙ w.values k;
    len = omega (arith, s.kept.len, w.len);
  }

  -- `remove` sifts only where a value took the place of the removed one.
  refill :
      (q : PriorityQueue V) (p : ℕ) (r : (ℕ × V) × PriorityQueue V)
      → IsQueue cmp q
      → Without q p r
      → Returns (Sifted cmp r.1) (if ltb p (length r.1.heap) then up_heapify cmp r.1 p else ok r.1)
  refill q p r i w =
      Returns-if (ltb p (length r.1.heap))
        (λ e.
          up_heapify-Sifted cmp laws r.1 p (ground arith) w.indexed (Without-IsHeapBut q p r i w))
        (λ e. returns (record {
          queue = record {
            indexed = w.indexed;
            ordered = λ c pos l. ground (arith, w.len, w.keys c l, w.keys (parent c), i.ordered c);
          };
          kept = Kept-refl r.1;
        }))

  -- `pop` on an indexed and heap-ordered queue always returns an indexed and heap-ordered queue:
  -- none and the same queue when it is empty, and otherwise an id with its value that no other
  -- value precedes, with that id absent afterwards, every other value kept and the length one less.
  pub pop-Popped :
      (q : PriorityQueue V)
      → IsQueue cmp q
      → Returns (λ (o, r). IsQueue cmp r × Popped cmp q o r) (pop cmp q)
  unfolding pop
  pop-Popped q i =
      Returns-if (length q.heap == 0) (λ e. returns (i, empty (ground arith) refl refl))
        (λ e.
          let inside : 0 < length q.heap = ground arith in
          Returns-bind (swap_remove-Without q 0 inside i.indexed) λ (o, r) w.
            let bound : (0 < length r.heap) ⊎ (length r.heap ≤ 1) = omega arith in
            Returns-bind
              (heapify-Sifted cmp laws r 0 bound w.indexed (Without-IsHeapAbove q (o, r) i w))
              λ t s.
                let top : key q 0 ≡ some o.1 = rw (← w.head) w.value in
                returns (
                  s.queue,
                  popped o.0 o.1 refl (Extracted-Sifted q o r t 0 w s) (root-IsHighest q o.1 i top),
                ))

  -- `remove` on an indexed and heap-ordered queue always returns an indexed and heap-ordered queue:
  -- none and the same queue for an absent id, and otherwise the id with its value, that id absent
  -- afterwards, every other value kept and the length one less.
  pub remove-Removed :
      (q : PriorityQueue V) (id : ℕ)
      → IsQueue cmp q
      → Returns (λ (o, r). IsQueue cmp r × Removed cmp q id o r) (remove cmp q id)
  unfolding remove
  remove-Removed q id i = elim (entry-cases q id) [
    | inl (e, _, g) ↦ rw (e, remove) (returns (i, absent g refl refl))
    | inr (p, v, e, place_id, g) ↦
        let (inside, here) = i.indexed.located id p place_id in
        rw (e, remove)
          (Returns-bind (swap_remove-Without q p inside i.indexed) λ (o, r) w.
            Returns-bind (refill q p (o, r) i w) λ t s.
              let same : o.0 ≡ id = w.head ∙ here in
              returns (
                s.queue,
                removed_entry o.1 (ap (λ (k : ℕ). some (k, o.1)) same)
                    (subst (λ k. Extracted cmp q k o.1 t) same (Extracted-Sifted q o r t p w s)),
              ))
  ]
