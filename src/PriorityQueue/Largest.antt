-- ===== src/PriorityQueue/Largest.antt =====
-- `largest_of` finds the highest of a position and its children.
use grid_server.Base.{
  ℕ, ◌+◌, ◌*◌, ◌<◌, ◌≡◌, ◌⊎◌, refl, ◌∙◌, inl, inr, Bool, true, false, some, arith, Returns, returns,
  Returns-if, length, ltb, Bool-cases,
}
use grid_server.PriorityQueue.{PriorityQueue, parent, left, right, or_right, largest_of}
use grid_server.PriorityQueue.Index.{key, IsIndexed}
use grid_server.PriorityQueue.Order.{
  IsPriority, below, below-some, below-asym, HasChildren, below-cotrans,
}
use grid_server.PriorityQueue.Swap.{priority-ok}

module _ {V : Type 0} (cmp : V → V → Bool) where
  -- The result of `largest_of`: `i` itself, above its children, or its highest child, above `i`.
  pub record IsLargest (q : PriorityQueue V) (i m : ℕ) : Type 0 where
    pub inside : m < length q.heap
    pub cases :
        ((m ≡ i) × HasChildren cmp i q)
        ⊎ (((m ≡ i * 2 + 1) ⊎ (m ≡ i * 2 + 2))
            × (below cmp (key q i) (key q m) ≡ true)
            × ((c : ℕ)
                → 0 < c
                → c < length q.heap
                → parent c ≡ i
                → below cmp (key q m) (key q c) ≡ false))

module _ {V : Type 0} (cmp : V → V → Bool) (laws : IsPriority cmp) where
  module _ (q : PriorityQueue V) (i : ℕ) (inv : IsIndexed q) (h : i < length q.heap)
      (hl : i * 2 + 1 < length q.heap) where
    -- `g` is the higher of `i` and its left child.
    abbrev IsHigher : ℕ → Type 0
    IsHigher g =
        ((g ≡ i) × (below cmp (key q i) (key q (i * 2 + 1)) ≡ false))
        ⊎ ((g ≡ i * 2 + 1) × (below cmp (key q i) (key q (i * 2 + 1)) ≡ true))

    stays-IsLargest :
        (g : ℕ)
        → IsHigher g
        → (i * 2 + 2 < length q.heap → below cmp (key q g) (key q (i * 2 + 2)) ≡ false)
        → IsLargest cmp q i g
    stays-IsLargest g (inl (e, not_left)) not_right = record {
      inside = omega arith;
      cases = inl (e, λ c p s t. ground (arith, e, not_left, not_right));
    }
    stays-IsLargest g (inr (e, is_left)) not_right = record {
      inside = omega arith;
      cases = inr (
        inl e,
        ground arith,
        λ c p s t. ground (arith, e, not_right, below-asym cmp laws (key q g) (key q g)),
      );
    }

    right-IsLargest :
        (g : ℕ)
        → IsHigher g
        → i * 2 + 2 < length q.heap
        → below cmp (key q g) (key q (i * 2 + 2)) ≡ true
        → IsLargest cmp q i (i * 2 + 2)
    right-IsLargest g choice hr up =
        let ki = key q i in
        let kl = key q (i * 2 + 1) in
        let kr = key q (i * 2 + 2) in
        record {
          inside = hr;
          cases = inr (
            inr refl,
            ground (arith, below-asym cmp laws kl kr, below-cotrans cmp laws ki kr kl),
            λ c p s t. ground (
              arith,
              below-asym cmp laws kr kr,
              below-asym cmp laws kl kr,
              below-asym cmp laws ki kr,
              below-cotrans cmp laws kr ki kl,
            ),
          );
        }

    or_right-IsLargest :
        (g : ℕ) (vg : V)
        → key q g ≡ some vg
        → IsHigher g
        → Returns (IsLargest cmp q i) (or_right cmp q (right i) g vg)
    unfolding or_right
    or_right-IsLargest g vg kg choice =
        Returns-if (ltb (right i) (length q.heap))
          (λ e.
            let hr : i * 2 + 2 < length q.heap = ground arith in
            let (vr, kr, rr) = priority-ok q (right i) (inv.listed (right i) hr) hr in
            let test : below cmp (key q g) (key q (i * 2 + 2)) ≡ cmp vg vr =
              rw (kg, kr) (below-some cmp vg vr) in
            elim (Bool-cases (cmp vg vr)) [
              | inl up ↦ rw (rr, up) (returns (right-IsLargest g choice hr (test ∙ up)))
              | inr stay ↦ rw (rr, stay) (returns (stays-IsLargest g choice (λ _. test ∙ stay)))
            ])
          (λ e. returns (stays-IsLargest g choice (λ hr. absurd (ground arith))))

  pub largest_of-IsLargest :
      (q : PriorityQueue V) (i : ℕ)
      → IsIndexed q
      → i < length q.heap
      → Returns (IsLargest cmp q i) (largest_of cmp q i)
  unfolding largest_of
  largest_of-IsLargest q i inv h =
      let (vi, ki, ri) = priority-ok q i (inv.listed i h) h in
      rw ri (
        Returns-if (ltb (left i) (length q.heap))
          (λ e.
            let hl : i * 2 + 1 < length q.heap = ground arith in
            let (vl, kl, rl) = priority-ok q (left i) (inv.listed (left i) hl) hl in
            let test : below cmp (key q i) (key q (i * 2 + 1)) ≡ cmp vi vl =
              rw (ki, kl) (below-some cmp vi vl) in
            rw rl (
              Returns-if (cmp vi vl)
                (λ up. or_right-IsLargest q i inv h hl (left i) vl kl (inr (refl, test ∙ up)))
                (λ stay. or_right-IsLargest q i inv h hl i vi ki (inl (refl, test ∙ stay)))))
          (λ e.
            returns (record { inside = h; cases = inl (refl, λ c p s t. absurd (ground arith)) })))
