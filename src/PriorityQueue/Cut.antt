-- ===== src/PriorityQueue/Cut.antt =====
-- `swap_remove`: the last id takes the place of the removed one, in the heap and in the map.
use grid_server.Base.{
  ℕ, ◌+◌, ◌-◌, ◌<◌, ◌≡◌, refl, sym, ◌∙◌, ap, inl, inr, false, none, some, List, arith, ok, Returns,
  returns, length, get_elem?-some, length-set, length-take, get_or-take, get_or-set, set, take, ltb,
  ◌==◌, if◌then◌else◌, Bool-cases, if_app,
}
use grid_server.VecMap
use grid_server.VecMap.Lookup.{
  write-n, get-write, get_unchecked_mut-ok, remove_unchecked-ok, get-cleared,
}
use grid_server.PriorityQueue.{PriorityQueue, value_of, get, vec_swap_remove, swap_remove}
use grid_server.PriorityQueue.Index.{at, place, place_of, key, IsIndexed, entry_of_place}

-- The heap without its position `p`.
abbrev cut : List ℕ → ℕ → List ℕ
cut h p = take (length h - 1) (set h p (at h (length h - 1)))

vec_swap_remove-ok :
    (h : List ℕ) (p : ℕ) → p < length h → vec_swap_remove h p ≡ ok (at h p, cut h p)
unfolding vec_swap_remove
vec_swap_remove-ok h p l =
    rw (get_elem?-some h p 0 l, get_elem?-some h (length h - 1) 0 (omega arith))

at-cut :
    (h : List ℕ) (p c : ℕ)
    → p < length h
    → c < length h - 1
    → at (cut h p) c ≡ (if p == c then at h (length h - 1) else at h c)
at-cut h p c l m =
    get_or-take (length h - 1) (set h p (at h (length h - 1))) c 0 m
    ∙ get_or-set h p c (at h (length h - 1)) 0 l

length-cut : (h : List ℕ) (p : ℕ) → p < length h → length (cut h p) ≡ length h - 1
length-cut h p l =
    length-take (length h - 1) (set h p (at h (length h - 1)))
      (omega (arith, length-set h p (at h (length h - 1))))

module _ {V : Type 0} where
  -- The queue without the id at position `p`.
  pub record Without (q : PriorityQueue V) (p : ℕ) (r : (ℕ × V) × PriorityQueue V) : Type 0 where
    pub head : r.0.0 ≡ at q.heap p
    pub value : get q r.0.0 ≡ some r.0.1
    pub indexed : IsIndexed r.1
    pub len : length r.1.heap + 1 ≡ length q.heap
    pub values : (k : ℕ) → get r.1 k ≡ (if r.0.0 == k then none else get q k)
    pub keys :
        (c : ℕ)
        → c < length r.1.heap
        → key r.1 c ≡ (if p == c then key q (length q.heap - 1) else key q c)

  module _ (q : PriorityQueue V) (p : ℕ) (vh vn : V) (h : p < length q.heap) (inv : IsIndexed q)
      (eh : VecMap.get q.map (at q.heap p) ≡ some (p, vh))
      (en : VecMap.get q.map (at q.heap (length q.heap - 1)) ≡ some (length q.heap - 1, vn))
      (gh : get q (at q.heap p) ≡ some vh) where
    abbrev new_id : ℕ
    new_id = at q.heap (length q.heap - 1)

    abbrev written : VecMap.VecMap (ℕ × V)
    written = VecMap.write q.map new_id (p, vn)

    abbrev removed : PriorityQueue V
    removed = record {
      map = record { n = written.n - 1; v = set written.v (at q.heap p) none };
      heap = cut q.heap p;
    }

    head_entry : VecMap.get written (at q.heap p) ≡ some (p, vh)
    head_entry = elim (Bool-cases (new_id == at q.heap p)) [
      | inl hit ↦
          let same : new_id ≡ at q.heap p = ground arith in
          let values : some vn ≡ some vh =
            sym (ap value_of en)
            ∙ ap (λ (k : ℕ). value_of (VecMap.get q.map k)) same
            ∙ ap value_of eh in
          get-write q.map new_id (at q.heap p) (p, vn) en ∙ rw hit (cc values)
      | inr miss ↦ get-write q.map new_id (at q.heap p) (p, vn) en ∙ rw miss eh
    ]

    removed-entry :
        (k : ℕ)
        → VecMap.get removed.map k ≡ (
            if at q.heap p == k
            then none
            else if new_id == k
            then some (p, vn)
            else VecMap.get q.map k)
    removed-entry k =
        get-cleared written (at q.heap p) k (written.n - 1) (p, vh) head_entry
        ∙ rw (get-write q.map new_id k (p, vn) en)

    removed-place :
        (k : ℕ)
        → place removed k
          ≡ (if at q.heap p == k then none else if new_id == k then some p else place q k)
    unfolding place
    removed-place k =
        ap place_of (removed-entry k)
        ∙ if_app place_of (at q.heap p == k) _ _
        ∙ ap (λ x. if at q.heap p == k then none else x) (if_app place_of (new_id == k) _ _)

    removed-get : (k : ℕ) → get removed k ≡ (if at q.heap p == k then none else get q k)
    unfolding get
    removed-get k = elim (Bool-cases (new_id == k)) [
      | inl hit ↦
          let same : new_id ≡ k = ground arith in
          ap value_of (removed-entry k)
          ∙ if_app value_of (at q.heap p == k) _ _
          ∙ rw hit
              (ap (λ x. if at q.heap p == k then none else x) (sym (rw same at (ap value_of en))))
      | inr miss ↦ ap value_of (removed-entry k) ∙ if_app value_of (at q.heap p == k) _ _ ∙ rw miss
    ]

    removed-IsIndexed : IsIndexed removed
    unfolding VecMap.write
    removed-IsIndexed = record {
      listed = λ c l. ground (
        arith,
        length-cut q.heap p h,
        at-cut q.heap p c h,
        removed-place (at removed.heap c),
        inv.listed c,
        inv.listed p,
        inv.listed (length q.heap - 1),
      );
      located = λ k c e. ground (
        arith,
        length-cut q.heap p h,
        at-cut q.heap p c h,
        removed-place k,
        inv.located k c,
        inv.listed p,
        inv.listed (length q.heap - 1),
      );
      sized = omega (arith, length-cut q.heap p h, inv.sized);
    }

    removed-Without : Without q p ((at q.heap p, vh), removed)
    removed-Without = record {
      head = refl;
      value = gh;
      indexed = removed-IsIndexed;
      len = omega (arith, length-cut q.heap p h);
      values = removed-get;
      keys = λ c l. ground (
        arith,
        length-cut q.heap p h,
        at-cut q.heap p c h,
        removed-get (at removed.heap c),
        inv.listed c,
        inv.listed p,
        inv.listed (length q.heap - 1),
      );
    }

  pub swap_remove-Without :
      (q : PriorityQueue V) (p : ℕ)
      → p < length q.heap
      → IsIndexed q
      → Returns (Without q p) (swap_remove q p)
  unfolding swap_remove
  swap_remove-Without q p h inv =
      let last = length q.heap - 1 in
      let inside : last < length q.heap = omega arith in
      let some_left : ltb (length q.heap) 1 ≡ false = ground arith in
      let (vh, eh, gh) = entry_of_place q (at q.heap p) p (inv.listed p h) in
      let (vn, en, gn) = entry_of_place q (at q.heap last) last (inv.listed last inside) in
      rw
        (
          some_left,
          get_elem?-some q.heap last 0 inside,
          get_unchecked_mut-ok q.map (at q.heap last) en,
          vec_swap_remove-ok q.heap p h,
          remove_unchecked-ok (VecMap.write q.map (at q.heap last) (p, vn)) (at q.heap p) (p, vh)
              (head_entry q p vh vn h inv eh en gh)
              (omega (arith, write-n q.map (at q.heap last) (p, vn), inv.sized)),
        )
        (returns (removed-Without q p vh vn h inv eh en gh))
