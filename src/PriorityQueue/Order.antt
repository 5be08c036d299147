-- ===== src/PriorityQueue/Order.antt =====
-- The heap order, and how a swap along one edge carries it. An id that the map lacks counts as lower
-- than every value, so that the order is total.
use grid_server.Base.{
  ℕ, ◌+◌, ◌*◌, ◌<◌, ◌≡◌, ◌≢◌, ◌⊎◌, refl, Bool, true, false, Option, none, some, arith, length, ◌==◌,
  if◌then◌else◌,
}
use grid_server.PriorityQueue.{PriorityQueue, parent}
use grid_server.PriorityQueue.Index.{key, IsIndexed, Kept}

-- `cmp_priority` is a strict order whose incomparable values are interchangeable.
pub record IsPriority {V : Type 0} (cmp : V → V → Bool) : Type 0 where
  pub asym : (a b : V) → cmp a b ≡ true → cmp b a ≡ false
  pub cotrans : (a b c : V) → cmp a b ≡ false → cmp b c ≡ false → cmp a c ≡ false

module _ {V : Type 0} (cmp : V → V → Bool) where
  pub below : Option V → Option V → Bool
  below none none = false
  below none (some b) = true
  below (some a) none = false
  below (some a) (some b) = cmp a b

  pub below-some : (a b : V) → below (some a) (some b) ≡ cmp a b
  unfolding below
  below-some a b = refl

  -- Each entry is no higher than its parent.
  abbrev pub IsHeap : PriorityQueue V → Type 0
  IsHeap q = (c : ℕ) → 0 < c → c < length q.heap → below (key q (parent c)) (key q c) ≡ false

  -- A queue whose two halves agree and whose heap is ordered.
  pub record IsQueue (q : PriorityQueue V) : Type 0 where
    pub indexed : IsIndexed q
    pub ordered : IsHeap q

  -- `r` is such a queue of the same ids and values.
  pub record Sifted (q r : PriorityQueue V) : Type 0 where
    pub queue : IsQueue r
    pub kept : Kept q r

  -- The children of `i` are no higher than its parent.
  abbrev pub IsBridged : ℕ → PriorityQueue V → Type 0
  IsBridged i q =
      (c : ℕ)
      → 0 < c
      → c < length q.heap
      → parent c ≡ i
      → 0 < i
      → below (key q (parent i)) (key q c) ≡ false

  -- Only the edges at `i` may be out of order.
  pub record IsHeapBut (i : ℕ) (q : PriorityQueue V) : Type 0 where
    pub edges :
        (c : ℕ)
        → 0 < c
        → c < length q.heap
        → c ≢ i
        → parent c ≢ i
        → below (key q (parent c)) (key q c) ≡ false
    pub bridged : IsBridged i q

  -- Only the edges below `i` may be out of order.
  pub record IsHeapAbove (i : ℕ) (q : PriorityQueue V) : Type 0 where
    pub edges :
        (c : ℕ)
        → 0 < c
        → c < length q.heap
        → parent c ≢ i
        → below (key q (parent c)) (key q c) ≡ false
    pub bridged : IsBridged i q

  -- The edges below `i` are in order.
  abbrev pub HasChildren : ℕ → PriorityQueue V → Type 0
  HasChildren i q =
      (c : ℕ) → 0 < c → c < length q.heap → parent c ≡ i → below (key q i) (key q c) ≡ false

  module _ (laws : IsPriority cmp) where
    pub below-asym : (a b : Option V) → below a b ≡ true → below b a ≡ false
    unfolding below
    below-asym none none h = refl
    below-asym none (some b) h = refl
    below-asym (some a) none h = cc
    below-asym (some a) (some b) h = laws.asym a b h

    pub below-cotrans :
        (a b c : Option V) → below a b ≡ false → below b c ≡ false → below a c ≡ false
    unfolding below
    below-cotrans none none none h k = refl
    below-cotrans none none (some c) h k = cc
    below-cotrans none (some b) c h k = cc
    below-cotrans (some a) none none h k = refl
    below-cotrans (some a) none (some c) h k = cc
    below-cotrans (some a) (some b) none h k = refl
    below-cotrans (some a) (some b) (some c) h k = laws.cotrans a b c h k

    pub IsHeap-IsHeapBut :
        (q : PriorityQueue V) (i : ℕ) → IsHeap q → i < length q.heap → IsHeapBut i q
    IsHeap-IsHeapBut q i h inside = record {
      edges = λ c p s n m. h c p s;
      bridged = λ c p s e z.
          ground (arith, h c, h i, below-cotrans (key q (parent i)) (key q i) (key q c));
    }

    -- The value at `i` is higher than its parent's, and they are swapped.
    module _ (q r : PriorityQueue V) (i : ℕ) (pos : 0 < i) (inside : i < length q.heap)
        (len : length r.heap ≡ length q.heap)
        (keys : (c : ℕ)
          → key r c
            ≡ (if parent i == c then key q i else if i == c then key q (parent i) else key q c))
        (h : IsHeapBut i q) (higher : below (key q (parent i)) (key q i) ≡ true) where
      pub rise-IsHeapBut : IsHeapBut (parent i) r
      rise-IsHeapBut = record {
        edges = λ c p s n m. ground (arith, keys c, keys (parent c), h.edges c, h.bridged c);
        bridged = λ c p s e z. ground (
          arith,
          keys c,
          keys (parent (parent i)),
          h.edges c,
          h.edges (parent i),
          below-cotrans (key q (parent (parent i))) (key q (parent i)) (key q c),
        );
      }

      pub rise-HasChildren : HasChildren (parent i) r
      rise-HasChildren c p s e = ground (
        arith,
        keys c,
        keys (parent i),
        h.edges c,
        below-asym (key q (parent i)) (key q i),
        below-cotrans (key q i) (key q (parent i)) (key q c),
      )

    -- The value at `i` is lower than that of its highest child `m`, and they are swapped.
    module _ (q r : PriorityQueue V) (i m : ℕ) (inside : m < length q.heap)
        (child : (m ≡ i * 2 + 1) ⊎ (m ≡ i * 2 + 2)) (len : length r.heap ≡ length q.heap)
        (keys : (c : ℕ)
          → key r c ≡ (if m == c then key q i else if i == c then key q m else key q c))
        (h : IsHeapAbove i q) (lower : below (key q i) (key q m) ≡ true)
        (highest : (c : ℕ)
          → 0 < c
          → c < length q.heap
          → parent c ≡ i
          → below (key q m) (key q c) ≡ false) where
      pub sink-IsHeapAbove : IsHeapAbove m r
      sink-IsHeapAbove = record {
        edges = λ c p s n. ground (
          arith,
          keys c,
          keys (parent c),
          h.edges c,
          h.bridged m,
          highest c,
          below-asym (key q i) (key q m),
        );
        bridged = λ c p s e z. ground (arith, keys c, keys (parent m), h.edges c);
      }
