-- ===== src/PriorityQueue/Guards.antt =====
-- shared/src/utils/priority_queue.rs: PeekMut and RefMut, the guards that `peek_mut` and `get_mut`
-- return. A write through a guard marks it, and dropping a marked guard sifts its value down.
pub mod Writes
use grid_server.Base.{
  ℕ, ◌+◌, Bool, true, false, Option, none, some, Run, ok, panic, ◌>>=◌, checked_sub, get_elem?, ltb,
  ◌^◌, if◌then◌else◌,
}
use grid_server.VecMap
use grid_server.PriorityQueue.{PriorityQueue, heapify, change_priority_by}

pub record RefMut {ℓ} (V : Type ℓ) : Type ℓ where
  pub queue : PriorityQueue V
  pub key : ℕ
  pub modified : Bool

pub record PeekMut {ℓ} (V : Type ℓ) : Type ℓ where
  pub queue : PriorityQueue V
  pub key : ℕ
  pub modified : Bool

module _ {ℓ} {V : Type ℓ} where
  unfoldable pub get_mut : PriorityQueue V → ℕ → Option (RefMut V)
  get_mut q id =
      if VecMap.contains_key q.map id
      then some (record { queue = q; key = id; modified = false })
      else none

  unfoldable pub peek_mut : PriorityQueue V → Option (PeekMut V)
  peek_mut q = elim (get_elem? q.heap 0) [
    | none ↦ none
    | some id ↦ some (record { queue = q; key = id; modified = false })
  ]

  -- The value behind a guard.
  unfoldable pub deref : PriorityQueue V → ℕ → Run V
  deref q key = do (_, value) ← VecMap.get_unchecked q.map key; ok value

  -- The queue after a write of `f` through a guard.
  unfoldable pub deref_mut : PriorityQueue V → ℕ → (V → V) → Run (PriorityQueue V)
  deref_mut q key f = do
    ((pos, value), write) ← VecMap.get_unchecked_mut q.map key
    ok (record q { map = write (pos, f value) })

  unfoldable pub RefMut_write : RefMut V → (V → V) → Run (RefMut V)
  RefMut_write r f = do q ← deref_mut r.queue r.key f; ok (record r { queue = q; modified = true })

  unfoldable pub PeekMut_write : PeekMut V → (V → V) → Run (PeekMut V)
  PeekMut_write r f = do q ← deref_mut r.queue r.key f; ok (record r { queue = q; modified = true })

module _ {ℓ} {V : Type ℓ} (cmp_priority : V → V → Bool) where
  unfoldable pub drop_ref_mut : RefMut V → Run (PriorityQueue V)
  drop_ref_mut r =
      if r.modified
      then (elim (VecMap.get r.queue.map r.key) [
        | none ↦ ok r.queue
        | some (pos, _) ↦ heapify cmp_priority r.queue pos
      ])
      else ok r.queue

  unfoldable pub drop_peek_mut : PeekMut V → Run (PriorityQueue V)
  drop_peek_mut r = if r.modified then heapify cmp_priority r.queue 0 else ok r.queue

-- `PriorityQueue<usize, Order>`: a counter as priority.
module _ (cmp_priority : ℕ → ℕ → Bool) where
  abbrev usize_max : ℕ
  usize_max = 2 ^ 64

  -- The value before the change, if the id is present.
  unfoldable pub increment_priority : PriorityQueue ℕ → ℕ → Run (Option ℕ × PriorityQueue ℕ)
  increment_priority q id = do
    (_, changed) ←
        change_priority_by cmp_priority q id
          (λ x. if ltb (x + 1) usize_max then ok (x + 1) else panic)
    ok (elim (VecMap.get q.map id) [ none ↦ none | some (_, x) ↦ some x ], changed)

  unfoldable pub decrement_priority : PriorityQueue ℕ → ℕ → Run (Option ℕ × PriorityQueue ℕ)
  decrement_priority q id = do
    (_, changed) ← change_priority_by cmp_priority q id (λ x. checked_sub x 1)
    ok (elim (VecMap.get q.map id) [ none ↦ none | some (_, x) ↦ some x ], changed)
