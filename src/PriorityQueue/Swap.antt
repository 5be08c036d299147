-- ===== src/PriorityQueue/Swap.antt =====
-- `swap` exchanges two entries of the heap, with no undefined access.
use grid_server.Base.{
  ℕ, ◌<◌, ◌≡◌, ◌≢◌, refl, ◌∙◌, false, some, arith, ok, Returns, returns, length, get_elem?-some,
  length-set, set, ◌==◌, if◌then◌else◌,
}
use grid_server.VecMap
use grid_server.VecMap.Lookup.{get-write, get_unchecked-ok}
use grid_server.PriorityQueue.{PriorityQueue, get, get_priority_from_position, swap}
use grid_server.PriorityQueue.Index.{
  at, at-swap, place, key, IsIndexed, Kept, entry_of_place, place-write, get-write_lem,
  swap-IsIndexed,
}

module _ {V : Type 0} where
  -- What a swap of two positions leaves.
  pub record Swapped (q : PriorityQueue V) (a b : ℕ) (r : PriorityQueue V) : Type 0 where
    pub indexed : IsIndexed r
    pub kept : Kept q r
    pub keys : (c : ℕ) → key r c ≡ (if b == c then key q a else if a == c then key q b else key q c)

  pub priority-ok :
      (q : PriorityQueue V) (i : ℕ)
      → place q (at q.heap i) ≡ some i
      → i < length q.heap
      → (v : V) × (key q i ≡ some v) × (get_priority_from_position q i ≡ ok v)
  unfolding get_priority_from_position
  priority-ok q i e h =
      let (v, entry, value) = entry_of_place q (at q.heap i) i e in
      (v, value, rw (get_elem?-some q.heap i 0 h, get_unchecked-ok q.map (at q.heap i) entry))

  -- The queue that `swap` leaves: both entries trade positions.
  module _ (q : PriorityQueue V) (a b : ℕ) (va vb : V) (ha : a < length q.heap)
      (hb : b < length q.heap) (inv : IsIndexed q) (apart : at q.heap a ≢ at q.heap b)
      (ea : VecMap.get q.map (at q.heap a) ≡ some (a, va))
      (eb : VecMap.get q.map (at q.heap b) ≡ some (b, vb)) (ga : get q (at q.heap a) ≡ some va)
      (gb : get q (at q.heap b) ≡ some vb) where
    abbrev first : PriorityQueue V
    first = record q { map = VecMap.write q.map (at q.heap a) (b, va) }

    abbrev swapped : PriorityQueue V
    swapped = record {
      map = VecMap.write first.map (at q.heap b) (a, vb);
      heap = set (set q.heap a (at q.heap b)) b (at q.heap a);
    }

    second : VecMap.get first.map (at q.heap b) ≡ some (b, vb)
    second = ground (arith, get-write q.map (at q.heap a) (at q.heap b) (b, va) ea)

    swapped-place :
        (k : ℕ)
        → place swapped k
          ≡ (if at q.heap b == k then some a else if at q.heap a == k then some b else place q k)
    swapped-place k =
        place-write first swapped.heap (at q.heap b) b a vb vb second k
        ∙ ground (arith, place-write q q.heap (at q.heap a) a b va va ea k)

    swapped-get : (k : ℕ) → get swapped k ≡ get q k
    swapped-get k =
        get-write_lem first swapped.heap (at q.heap b) b a vb vb second k
        ∙ ground (arith, get-write_lem q q.heap (at q.heap a) a b va va ea k)

    swapped-Swapped : Swapped q a b swapped
    unfolding VecMap.write
    swapped-Swapped =
        let len : length swapped.heap ≡ length q.heap =
          length-set (set q.heap a (at q.heap b)) b (at q.heap a)
          ∙ length-set q.heap a (at q.heap b) in
        let moved = λ (c : ℕ). at-swap q.heap a b c ha hb in
        record {
          indexed = swap-IsIndexed q swapped a b ha hb inv refl len moved swapped-place;
          kept = record { values = swapped-get; len = len };
          keys = λ c. ground (arith, moved c, swapped-get (at swapped.heap c));
        }

  pub swap_lem :
      (q : PriorityQueue V) (a b : ℕ)
      → IsIndexed q
      → a ≢ b
      → a < length q.heap
      → b < length q.heap
      → Returns (Swapped q a b) (swap q a b)
  unfolding swap
  swap_lem q a b inv ne ha hb =
      let (va, ea, ga) = entry_of_place q (at q.heap a) a (inv.listed a ha) in
      let (vb, eb, gb) = entry_of_place q (at q.heap b) b (inv.listed b hb) in
      let apart : at q.heap a ≢ at q.heap b =
        λ e. ground (arith, inv.listed a ha, inv.listed b hb) in
      let distinct : (a == b) ≡ false = ground arith in
      let distinct_ids : (at q.heap a == at q.heap b) ≡ false = ground arith in
      rw
        (
          distinct,
          get_elem?-some q.heap a 0 ha,
          get_elem?-some q.heap b 0 hb,
          distinct_ids,
          get_unchecked-ok q.map (at q.heap a) ea,
          get_unchecked-ok q.map (at q.heap b) eb,
        )
        (returns (swapped-Swapped q a b va vb ha hb inv apart ea eb ga gb))
