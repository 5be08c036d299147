-- ===== src/PriorityQueue/Index.antt =====
-- The two halves of a queue agree: the map holds the position of each id of the heap, and no other id.
use grid_server.Base.{
  ℕ, ◌<◌, ◌≡◌, ◌≢◌, ◌⊎◌, refl, ◌∙◌, Option, none, some, List, arith, length, get_or, set, ◌==◌,
  if◌then◌else◌, get_or-set, length-set, Option-cases, if_app, ap, inl, inr,
}
use grid_server.VecMap
use grid_server.VecMap.{VecMap, is_some}
use grid_server.VecMap.Lookup.{get-write}
use grid_server.PriorityQueue.{PriorityQueue, value_of, get}

-- The id at a position of the heap.
abbrev pub at : List ℕ → ℕ → ℕ
at heap p = get_or heap p 0

pub at-swap :
    (h : List ℕ) (a b c : ℕ)
    → a < length h
    → b < length h
    → at (set (set h a (at h b)) b (at h a)) c
      ≡ (if b == c then at h a else if a == c then at h b else at h c)
at-swap h a b c p q = ground (
  arith,
  get_or-set (set h a (at h b)) b c (at h a) 0,
  get_or-set h a c (at h b) 0,
  length-set h a (at h b),
)

module _ {V : Type 0} where
  abbrev pub place_of : Option (ℕ × V) → Option ℕ
  place_of entry = elim entry [ none ↦ none | some (p, _) ↦ some p ]

  -- The position that the map holds for an id.
  unfoldable pub place : PriorityQueue V → ℕ → Option ℕ
  place q k = place_of (VecMap.get q.map k)

  -- The value of the id at a position.
  abbrev pub key : PriorityQueue V → ℕ → Option V
  key q p = get q (at q.heap p)

  pub record IsIndexed (q : PriorityQueue V) : Type 0 where
    pub listed : (p : ℕ) → p < length q.heap → place q (at q.heap p) ≡ some p
    pub located : (k p : ℕ) → place q k ≡ some p → (p < length q.heap) × (at q.heap p ≡ k)
    pub sized : q.map.n ≡ length q.heap

  -- The same while the id at `i` moves, whose position the map does not know.
  pub record IsIndexedBut (i : ℕ) (q : PriorityQueue V) : Type 0 where
    pub inside : i < length q.heap
    pub moving : place q (at q.heap i) ≢ none
    pub listed : (p : ℕ) → p < length q.heap → p ≢ i → place q (at q.heap p) ≡ some p
    pub located :
        (k p : ℕ) → place q k ≡ some p → k ≢ at q.heap i → (p < length q.heap) × (at q.heap p ≡ k)
    pub apart : (p : ℕ) → p < length q.heap → p ≢ i → at q.heap p ≢ at q.heap i
    pub sized : q.map.n ≡ length q.heap

  -- No id comes or goes, and each keeps its value.
  pub record Kept (q r : PriorityQueue V) : Type 0 where
    pub values : (k : ℕ) → get r k ≡ get q k
    pub len : length r.heap ≡ length q.heap

  pub Kept-refl : (q : PriorityQueue V) → Kept q q
  Kept-refl q = record { values = λ k. refl; len = refl }

  pub Kept-trans : {q r s : PriorityQueue V} → Kept q r → Kept r s → Kept q s
  Kept-trans h g = record { values = λ k. g.values k ∙ h.values k; len = g.len ∙ h.len }

  -- The entry of an id that the map holds.
  pub entry_of_place :
      (q : PriorityQueue V) (k p : ℕ)
      → place q k ≡ some p
      → (v : V) × (VecMap.get q.map k ≡ some (p, v)) × (get q k ≡ some v)
  unfolding place get
  entry_of_place q k p h = elim (Option-cases (VecMap.get q.map k)) [
    | inl e ↦ absurd (cc (ap place_of e))
    | inr ((p', v), e) ↦ let same : p' ≡ p = cc (ap place_of e) in (v, rw same at e, ap value_of e)
  ]

  pub entry-cases :
      (q : PriorityQueue V) (k : ℕ)
      → ((VecMap.get q.map k ≡ none) × (place q k ≡ none) × (get q k ≡ none))
        ⊎ ((p : ℕ) × (v : V) × (VecMap.get q.map k ≡ some (p, v))
            × (place q k ≡ some p)
            × (get q k ≡ some v))
  unfolding place get
  entry-cases q k = elim (Option-cases (VecMap.get q.map k)) [
    | inl e ↦ inl (e, ap place_of e, ap value_of e)
    | inr ((p, v), e) ↦ inr (p, v, e, ap place_of e, ap value_of e)
  ]

  -- What a write through an entry of the map does to positions and values.
  module _ (q : PriorityQueue V) (h : List ℕ) (k p p' : ℕ) (v v' : V)
      (e : VecMap.get q.map k ≡ some (p, v)) where
    abbrev written : PriorityQueue V
    written = record { map = VecMap.write q.map k (p', v'); heap = h }

    pub place-write : (j : ℕ) → place written j ≡ (if k == j then some p' else place q j)
    unfolding place
    place-write j = ap place_of (get-write q.map k j (p', v') e) ∙ if_app place_of (k == j) _ _

    pub get-write_lem : (j : ℕ) → get written j ≡ (if k == j then some v' else get q j)
    unfolding get
    get-write_lem j = ap value_of (get-write q.map k j (p', v') e) ∙ if_app value_of (k == j) _ _

  -- One round of `bubble_up`: the moving id goes from `a` to `b`, and the id at `b` to `a`.
  module _ (q r : PriorityQueue V) (a b : ℕ) (ne : a ≢ b) (hb : b < length q.heap)
      (inv : IsIndexedBut a q) (size : r.map.n ≡ q.map.n) (len : length r.heap ≡ length q.heap)
      (moved : (c : ℕ)
        → at r.heap c
          ≡ (if b == c then at q.heap a else if a == c then at q.heap b else at q.heap c))
      (placed : (k : ℕ) → place r k ≡ (if at q.heap b == k then some a else place q k)) where
    pub rise-IsIndexedBut : IsIndexedBut b r
    rise-IsIndexedBut = record {
      inside = omega arith;
      moving = ground (arith, moved b, placed (at r.heap b), inv.moving);
      listed = λ p h n. ground (arith, moved p, placed (at r.heap p), inv.listed b, inv.listed p);
      located = λ k p h n.
          ground (arith, moved b, moved p, moved a, placed k, inv.located k p, inv.inside);
      apart = λ p h n. ground (arith, moved b, moved p, inv.apart b, inv.apart p);
      sized = omega arith;
    }

  -- `swap` between two positions, and the end of `bubble_up`, where the position is recorded.
  module _ (q r : PriorityQueue V) (a b : ℕ) (ha : a < length q.heap) (hb : b < length q.heap)
      (inv : IsIndexed q) (size : r.map.n ≡ q.map.n) (len : length r.heap ≡ length q.heap)
      (moved : (c : ℕ)
        → at r.heap c
          ≡ (if b == c then at q.heap a else if a == c then at q.heap b else at q.heap c))
      (placed : (k : ℕ)
        → place r k ≡ (
            if at q.heap b == k
            then some a
            else if at q.heap a == k
            then some b
            else place q k)) where
    pub swap-IsIndexed : IsIndexed r
    swap-IsIndexed = record {
      listed = λ p h.
          ground (arith, moved p, placed (at r.heap p), inv.listed a, inv.listed b, inv.listed p);
      located = λ k p h.
          ground (
            arith,
            moved p,
            moved a,
            moved b,
            placed k,
            inv.located k p,
            inv.listed a,
            inv.listed b,
          );
      sized = omega (arith, inv.sized);
    }

  module _ (q r : PriorityQueue V) (i : ℕ) (inv : IsIndexedBut i q) (size : r.map.n ≡ q.map.n)
      (same : r.heap ≡ q.heap)
      (placed : (k : ℕ) → place r k ≡ (if at q.heap i == k then some i else place q k)) where
    pub settle-IsIndexed : IsIndexed r
    settle-IsIndexed = record {
      listed =
          λ p h. ground (arith, same, placed (at r.heap p), inv.listed p, inv.apart p, inv.inside);
      located = λ k p h. ground (arith, same, placed k, inv.located k p, inv.inside);
      sized = omega (arith, inv.sized, ap length same);
    }

  pub IsIndexed-IsIndexedBut :
      (q : PriorityQueue V) (i : ℕ) → IsIndexed q → i < length q.heap → IsIndexedBut i q
  IsIndexed-IsIndexedBut q i inv inside = record {
    inside = inside;
    moving = λ e. ground (arith, inv.listed i);
    listed = λ p h n. inv.listed p h;
    located = λ k p h n. inv.located k p h;
    apart = λ p h n. ground (arith, inv.listed p, inv.listed i);
    sized = inv.sized;
  }
