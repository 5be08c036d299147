-- ===== src/PriorityQueue/BubbleUp.antt =====
-- `bubble_up` restores the order above a position, and `up_heapify` on both sides of it.
use grid_server.Base.{
  ℕ, zero, suc, ◌+◌, ◌<◌, ◌≡◌, ◌≢◌, refl, sym, ◌∙◌, inl, inr, Bool, true, false, some, arith,
  Returns, returns, Returns-bind, Returns-map, Returns-if, length, get_elem?-some, length-set, set,
  ltb, ◌==◌, if◌then◌else◌,
}
use grid_server.VecMap
use grid_server.VecMap.Lookup.{get_unchecked-ok, get_unchecked_mut-ok}
use grid_server.PriorityQueue.{PriorityQueue, get, parent, bubble_up_loop, bubble_up, up_heapify}
use grid_server.PriorityQueue.Index.{
  at, at-swap, key, IsIndexed, IsIndexedBut, Kept, Kept-refl, Kept-trans, entry_of_place,
  entry-cases, place-write, get-write_lem, rise-IsIndexedBut, settle-IsIndexed,
  IsIndexed-IsIndexedBut,
}
use grid_server.PriorityQueue.Order.{
  IsPriority, below, below-some, IsHeap, IsHeapBut, IsHeapAbove, HasChildren, Sifted,
  rise-IsHeapBut, rise-HasChildren,
}
use grid_server.PriorityQueue.Heapify.{heapify-Sifted}

module _ {V : Type 0} where
  -- The entry of the moving id.
  pub moving_entry :
      (q : PriorityQueue V) (i : ℕ)
      → IsIndexedBut i q
      → (p : ℕ) × (v : V) × (VecMap.get q.map (at q.heap i) ≡ some (p, v)) × (key q i ≡ some v)
  moving_entry q i inv = elim (entry-cases q (at q.heap i)) [
    | inl (_, e, _) ↦ absurd (inv.moving e)
    | inr (p, v, e, _, g) ↦ (p, v, e, g)
  ]

  -- One round: the moving id at `a` trades places with the id at `b`.
  module _ (q : PriorityQueue V) (a b pa : ℕ) (va vb : V) (ne : a ≢ b) (hb : b < length q.heap)
      (inv : IsIndexedBut a q) (ea : VecMap.get q.map (at q.heap a) ≡ some (pa, va))
      (eb : VecMap.get q.map (at q.heap b) ≡ some (b, vb))
      (gb : get q (at q.heap b) ≡ some vb) where
    abbrev pub risen : PriorityQueue V
    risen = record {
      map = VecMap.write q.map (at q.heap b) (a, vb);
      heap = set (set q.heap a (at q.heap b)) b (at q.heap a);
    }

    risen_len : length risen.heap ≡ length q.heap
    risen_len =
        length-set (set q.heap a (at q.heap b)) b (at q.heap a) ∙ length-set q.heap a (at q.heap b)

    pub risen-Kept : Kept q risen
    risen-Kept = record {
      values = λ k. ground (arith, get-write_lem q risen.heap (at q.heap b) b a vb vb eb k);
      len = risen_len;
    }

    risen-key :
        (c : ℕ) → key risen c ≡ (if b == c then key q a else if a == c then key q b else key q c)
    risen-key c =
        ground (arith, at-swap q.heap a b c inv.inside hb, risen-Kept.values (at risen.heap c))

    pub risen-IsIndexedBut : IsIndexedBut b risen
    unfolding VecMap.write
    risen-IsIndexedBut =
        rise-IsIndexedBut q risen a b ne hb inv refl risen_len
          (λ c. at-swap q.heap a b c inv.inside hb)
          (place-write q risen.heap (at q.heap b) b a vb vb eb)

module _ {V : Type 0} (cmp : V → V → Bool) where
  -- What the loop leaves when it starts at `i`: the moving id at `p`, in order with what is above it.
  pub record Risen (q : PriorityQueue V) (i : ℕ) (r : PriorityQueue V × ℕ) : Type 0 where
    pub indexed : IsIndexedBut r.1 r.0
    pub above : IsHeapAbove cmp r.1 r.0
    pub kept : Kept q r.0
    pub children : HasChildren cmp i q → HasChildren cmp r.1 r.0

module _ {V : Type 0} (cmp : V → V → Bool) (laws : IsPriority cmp) where
  rests-Risen :
      (q : PriorityQueue V) (i : ℕ)
      → IsIndexedBut i q
      → IsHeapBut cmp i q
      → (0 < i → below cmp (key q (parent i)) (key q i) ≡ false)
      → Risen cmp q i (q, i)
  rests-Risen q i inv o top = record {
    indexed = inv;
    above = record { edges = λ c p s n. ground (arith, o.edges c, top); bridged = o.bridged };
    kept = Kept-refl q;
    children = λ h. h;
  }

  bubble_up_loop-Risen :
      (k : ℕ) (q : PriorityQueue V) (i : ℕ)
      → i < k
      → IsIndexedBut i q
      → IsHeapBut cmp i q
      → Returns (Risen cmp q i) (bubble_up_loop cmp k q i)
  unfolding bubble_up_loop
  bubble_up_loop-Risen zero q i f inv o = absurd (omega arith)
  bubble_up_loop-Risen (suc k) q i f inv o =
      Returns-if (ltb 0 i)
        (λ e.
          let pos : 0 < i = ground arith in
          let ne : i ≢ parent i = omega arith in
          let hp : parent i < length q.heap = omega arith in
          let (pa, va, ea, ga) = moving_entry q i inv in
          let (vb, eb, gb) =
            entry_of_place q (at q.heap (parent i)) (parent i)
              (inv.listed (parent i) hp (λ x. ne (sym x))) in
          let distinct : (at q.heap i == at q.heap (parent i)) ≡ false =
            ground (arith, inv.apart (parent i) hp) in
          let test : below cmp (key q (parent i)) (key q i) ≡ cmp vb va =
            rw (gb, ga) (below-some cmp vb va) in
          rw
            (
              get_elem?-some q.heap i 0 inv.inside,
              get_elem?-some q.heap (parent i) 0 hp,
              get_unchecked-ok q.map (at q.heap i) ea,
              get_unchecked-ok q.map (at q.heap (parent i)) eb,
              distinct,
            )
            (Returns-if (cmp vb va)
              (λ up.
                let r = risen q i (parent i) pa va vb ne hp inv ea eb gb in
                let kept = risen-Kept q i (parent i) pa va vb ne hp inv ea eb gb in
                let keys = risen-key q i (parent i) pa va vb ne hp inv ea eb gb in
                let higher : below cmp (key q (parent i)) (key q i) ≡ true = test ∙ up in
                Returns-map
                  (bubble_up_loop-Risen k r (parent i) (omega arith)
                    (risen-IsIndexedBut q i (parent i) pa va vb ne hp inv ea eb gb)
                    (rise-IsHeapBut cmp laws q r i pos inv.inside kept.len keys o higher))
                  λ t g. record {
                    indexed = g.indexed;
                    above = g.above;
                    kept = Kept-trans kept g.kept;
                    children = λ _.
                        g.children
                          (rise-HasChildren cmp laws q r i pos inv.inside kept.len keys o higher);
                  })
              (λ stay. returns (rests-Risen q i inv o (λ _. test ∙ stay)))))
        (λ e. returns (rests-Risen q i inv o (λ pos. absurd (ground arith))))

  -- What `bubble_up` leaves: the index is whole again.
  pub record Lifted (q : PriorityQueue V) (i : ℕ) (r : PriorityQueue V × ℕ) : Type 0 where
    pub inside : r.1 < length r.0.heap
    pub indexed : IsIndexed r.0
    pub above : IsHeapAbove cmp r.1 r.0
    pub kept : Kept q r.0
    pub ordered : HasChildren cmp i q → IsHeap cmp r.0

  -- Recording the final position changes nothing else.
  settled-Lifted :
      (q r : PriorityQueue V) (i p pa : ℕ) (va : V)
      → Risen cmp q i (r, p)
      → VecMap.get r.map (at r.heap p) ≡ some (pa, va)
      → key r p ≡ some va
      → Lifted q i (record r { map = VecMap.write r.map (at r.heap p) (p, va) }, p)
  unfolding VecMap.write
  settled-Lifted q r i p pa va s e g =
      let t : PriorityQueue V = record r { map = VecMap.write r.map (at r.heap p) (p, va) } in
      let values : (k : ℕ) → get t k ≡ get r k =
        λ k. ground (arith, get-write_lem r r.heap (at r.heap p) pa p va va e k) in
      let above : IsHeapAbove cmp p t = record {
        edges = λ c h l n.
            ground (arith, values (at r.heap c), values (at r.heap (parent c)), s.above.edges c);
        bridged = λ c h l n z.
            ground (arith, values (at r.heap c), values (at r.heap (parent p)), s.above.bridged c);
      } in
      record {
        inside = s.indexed.inside;
        indexed =
            settle-IsIndexed r t p s.indexed refl refl
              (place-write r r.heap (at r.heap p) pa p va va e);
        above = above;
        kept = Kept-trans s.kept (record { values = values; len = refl });
        ordered = λ h c pos l. ground (
          arith,
          values (at r.heap c),
          values (at r.heap (parent c)),
          s.above.edges c,
          s.children h c,
        );
      }

  pub bubble_up-Lifted :
      (q : PriorityQueue V) (i : ℕ)
      → IsIndexedBut i q
      → IsHeapBut cmp i q
      → Returns (Lifted q i) (bubble_up cmp q i)
  unfolding bubble_up
  bubble_up-Lifted q i inv o =
      Returns-bind (bubble_up_loop-Risen (i + 1) q i (omega arith) inv o) λ (r, p) s.
        let (pa, va, e, g) = moving_entry r p s.indexed in
        rw (get_elem?-some r.heap p 0 s.indexed.inside, get_unchecked_mut-ok r.map (at r.heap p) e)
          (returns (settled-Lifted q r i p pa va s e g))

  pub up_heapify-Sifted :
      (q : PriorityQueue V) (i : ℕ)
      → i < length q.heap
      → IsIndexed q
      → IsHeapBut cmp i q
      → Returns (Sifted cmp q) (up_heapify cmp q i)
  unfolding up_heapify
  up_heapify-Sifted q i h inv o =
      Returns-bind (bubble_up-Lifted q i (IsIndexed-IsIndexedBut q i inv h) o) λ (r, p) s.
        Returns-map (heapify-Sifted cmp laws r p (inl s.inside) s.indexed s.above)
          λ t g. record { queue = g.queue; kept = Kept-trans s.kept g.kept }
