-- ===== src/PriorityQueue.antt =====
-- shared/src/utils/priority_queue.rs: a binary heap of ids beside a VecMap from each id to its
-- position in the heap and its value. `cmp_priority lower larger` is the method of the source's
-- trait Ordering. An unchecked access out of bounds, or an unchecked pair of equal indices, is
-- `undefined`. Positions stay below twice the length of a vector plus two, so they do not overflow.
pub mod Guards
pub mod Index
pub mod Order
pub mod Swap
pub mod Largest
pub mod Heapify
pub mod BubbleUp
pub mod Update
pub mod Cut
pub mod Extract
pub mod Entries
pub mod Stored
pub mod MapAll
mod Tests
use grid_server.Base.{
  ℕ, zero, suc, ◌+◌, ◌-◌, ◌*◌, ◌/◌, Bool, true, false, Option, none, some, List, [], ◌∷◌, ◌++◌, Run,
  ok, panic, undefined, out_of_fuel, ◌>>=◌, or_else, checked_sub, length, get_elem?, set, take, leb,
  ltb, ◌==◌, if◌then◌else◌,
}
use grid_server.VecMap
use grid_server.VecMap.{VecMap}

pub record PriorityQueue {ℓ} (V : Type ℓ) : Type ℓ where
  pub map : VecMap (ℕ × V)
  pub heap : List ℕ

abbrev pub left : ℕ → ℕ
left i = i * 2 + 1

abbrev pub right : ℕ → ℕ
right i = i * 2 + 2

-- Called at i > 0 only.
abbrev pub parent : ℕ → ℕ
parent i = (i - 1) / 2

-- `Vec::swap_remove`: the last element takes the place of the removed one.
unfoldable pub vec_swap_remove {ℓ} : {A : Type ℓ} → List A → ℕ → Run (A × List A)
vec_swap_remove xs i = do
  removed ← or_else (get_elem? xs i) panic
  last ← or_else (get_elem? xs (length xs - 1)) panic
  ok (removed, take (length xs - 1) (set xs i last))

module _ {ℓ} {V : Type ℓ} where
  unfoldable pub new : PriorityQueue V
  unfolding VecMap.new
  new = record { map = VecMap.new; heap = [] }

  unfoldable pub clear : PriorityQueue V → PriorityQueue V
  unfolding VecMap.clear
  clear q = record { map = VecMap.clear q.map; heap = [] }

  -- The value of an entry.
  abbrev pub value_of : Option (ℕ × V) → Option V
  value_of entry = elim entry [ none ↦ none | some (_, value) ↦ some value ]

  unfoldable pub get : PriorityQueue V → ℕ → Option V
  get q id = value_of (VecMap.get q.map id)

  unfoldable pub peek : PriorityQueue V → Run (Option (ℕ × V))
  peek q = elim (get_elem? q.heap 0) [
    | none ↦ ok none
    | some id ↦ do (_, value) ← VecMap.get_unchecked q.map id; ok (some (id, value))
  ]

  iter_from : VecMap (ℕ × V) → List ℕ → Run (List V)
  iter_from m [] = ok []
  iter_from m (id ∷ ids) = do
    (_, value) ← VecMap.get_unchecked m id
    values ← iter_from m ids
    ok (value ∷ values)

  unfoldable pub iter : PriorityQueue V → Run (List V)
  unfolding iter_from
  iter q = iter_from q.map q.heap

  unfoldable pub get_priority_from_position : PriorityQueue V → ℕ → Run V
  get_priority_from_position q position = do
    id ← or_else (get_elem? q.heap position) undefined
    (_, value) ← VecMap.get_unchecked q.map id
    ok value

  unfoldable pub swap : PriorityQueue V → ℕ → ℕ → Run (PriorityQueue V)
  swap q a b = if a == b then undefined else do
    x ← or_else (get_elem? q.heap a) undefined
    y ← or_else (get_elem? q.heap b) undefined
    if x == y then undefined else do
      (a1, vx) ← VecMap.get_unchecked q.map x
      (b1, vy) ← VecMap.get_unchecked q.map y
      ok (record {
        map = VecMap.write (VecMap.write q.map x (b1, vx)) y (a1, vy);
        heap = set (set q.heap a y) b x;
      })

  -- The entry of the last id is moved to `position` before the vector is.
  unfoldable pub swap_remove : PriorityQueue V → ℕ → Run ((ℕ × V) × PriorityQueue V)
  swap_remove q position = do
    last ← checked_sub (length q.heap) 1
    new ← or_else (get_elem? q.heap last) undefined
    ((_, value), write) ← VecMap.get_unchecked_mut q.map new
    (head, heap) ← vec_swap_remove q.heap position
    ((_, removed), m) ← VecMap.remove_unchecked (write (position, value)) head
    ok ((head, removed), record { map = m; heap = heap })

module _ {ℓ} {V : Type ℓ} (cmp_priority : V → V → Bool) where
  -- One round swaps the id at `position` with its parent's, and records the parent's new position;
  -- the moving id's own position is recorded at the end, by `bubble_up`.
  pub bubble_up_loop : ℕ → PriorityQueue V → ℕ → Run (PriorityQueue V × ℕ)
  bubble_up_loop zero q position = out_of_fuel
  bubble_up_loop (suc k) q position =
      let parent_position = parent position in
      let step : Run (PriorityQueue V × ℕ) = do
        current_heap ← or_else (get_elem? q.heap position) undefined
        parent_heap ← or_else (get_elem? q.heap parent_position) undefined
        (_, current) ← VecMap.get_unchecked q.map current_heap
        (_, parent_value) ← VecMap.get_unchecked q.map parent_heap
        let risen : PriorityQueue V = record {
          map = VecMap.write q.map parent_heap (position, parent_value);
          heap = set (set q.heap position parent_heap) parent_position current_heap;
        }
        let rest = bubble_up_loop k risen parent_position
        if current_heap == parent_heap
            then undefined
            else if cmp_priority parent_value current
            then rest
            else ok (q, position)
      in if ltb 0 position then step else ok (q, position)

  unfoldable pub bubble_up : PriorityQueue V → ℕ → Run (PriorityQueue V × ℕ)
  unfolding bubble_up_loop
  bubble_up q i = do
    (risen, position) ← bubble_up_loop (i + 1) q i
    id ← or_else (get_elem? risen.heap position) undefined
    ((_, value), write) ← VecMap.get_unchecked_mut risen.map id
    ok (record risen { map = write (position, value) }, position)

  -- The right child is larger than `largest`, of value `largestp`, or `largest` stays.
  pub or_right : PriorityQueue V → ℕ → ℕ → V → Run ℕ
  or_right q r largest largestp =
      if ltb r (length q.heap)
      then (do
        rightp ← get_priority_from_position q r
        ok (if cmp_priority largestp rightp then r else largest))
      else ok largest

  -- The largest of `i` and its children.
  pub largest_of : PriorityQueue V → ℕ → Run ℕ
  unfolding or_right
  largest_of q i = do
    largestp ← get_priority_from_position q i
    let inner : Run ℕ = do
      childp ← get_priority_from_position q (left i)
      if cmp_priority largestp childp
          then or_right q (right i) (left i) childp
          else or_right q (right i) i largestp
    if ltb (left i) (length q.heap) then inner else ok i

  pub heapify_loop : ℕ → PriorityQueue V → ℕ → Run (PriorityQueue V)
  heapify_loop zero q i = out_of_fuel
  heapify_loop (suc k) q i = do
    largest ← largest_of q i
    let sink = swap q i largest >>= λ sunk. heapify_loop k sunk largest
    if largest == i then ok q else sink

  unfoldable pub heapify : PriorityQueue V → ℕ → Run (PriorityQueue V)
  unfolding heapify_loop largest_of
  heapify q i = if leb (length q.heap) 1 then ok q else heapify_loop (length q.heap + 1) q i

  unfoldable pub up_heapify : PriorityQueue V → ℕ → Run (PriorityQueue V)
  unfolding bubble_up heapify
  up_heapify q i = do (risen, pos) ← bubble_up q i; heapify risen pos

  unfoldable pub pop : PriorityQueue V → Run (Option (ℕ × V) × PriorityQueue V)
  unfolding swap_remove heapify
  pop q =
      if length q.heap == 0
      then ok (none, q)
      else do (r, rest) ← swap_remove q 0; ordered ← heapify rest 0; ok (some r, ordered)

  -- A present id takes the new value and is sifted both ways; a new one is appended and rises.
  unfoldable pub push : PriorityQueue V → ℕ → V → Run (Option V × PriorityQueue V)
  unfolding up_heapify bubble_up
  push q id priority = elim (VecMap.get_mut q.map id) [
    | some ((pos, old), write) ↦ do
      ordered ← up_heapify (record q { map = write (pos, priority) }) pos
      ok (some old, ordered)
    | none ↦ do
      let i = length q.heap
      let grown : PriorityQueue V = record {
        map = (VecMap.insert q.map id (i, priority)).1;
        heap = q.heap ++ id ∷ [];
      }
      (ordered, _) ← bubble_up grown i
      ok (none, ordered)
  ]

  unfoldable pub remove : PriorityQueue V → ℕ → Run (Option (ℕ × V) × PriorityQueue V)
  unfolding swap_remove up_heapify
  remove q id = elim (VecMap.get q.map id) [
    | none ↦ ok (none, q)
    | some (pos, _) ↦ do
      (r, rest) ← swap_remove q pos
      ordered ← if ltb pos (length rest.heap) then up_heapify rest pos else ok rest
      ok (some r, ordered)
  ]

  unfoldable pub change_priority : PriorityQueue V → ℕ → V → Run (Option V × PriorityQueue V)
  unfolding up_heapify
  change_priority q id new_priority = elim (VecMap.get_mut q.map id) [
    | none ↦ ok (none, q)
    | some ((pos, old), write) ↦ do
      ordered ← up_heapify (record q { map = write (pos, new_priority) }) pos
      ok (some old, ordered)
  ]

  -- `priority_setter` may panic.
  unfoldable pub change_priority_by :
      PriorityQueue V → ℕ → (V → Run V) → Run (Bool × PriorityQueue V)
  unfolding up_heapify
  change_priority_by q id priority_setter = elim (VecMap.get_mut q.map id) [
    | none ↦ ok (false, q)
    | some ((pos, old), write) ↦ do
      value ← priority_setter old
      ordered ← up_heapify (record q { map = write (pos, value) }) pos
      ok (true, ordered)
  ]

  pub up_heapify_range : ℕ → ℕ → PriorityQueue V → Run (PriorityQueue V)
  up_heapify_range zero i q = ok q
  up_heapify_range (suc rounds) i q = do
    ordered ← up_heapify q i
    up_heapify_range rounds (suc i) ordered

  unfoldable pub map_all : PriorityQueue V → (V → V) → Run (PriorityQueue V)
  unfolding up_heapify_range up_heapify
  map_all q f =
      let written = VecMap.for_each_mut (λ (entry : ℕ × V). (entry.0, f entry.1)) q.map in
      up_heapify_range (length q.heap) 0 (record q { map = written })
