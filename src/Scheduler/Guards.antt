-- ===== src/Scheduler/Guards.antt =====
-- Changes of a worker or a task through the guard of `get_mut`, dropped at the end of its block.
use grid_server.Base.{ℕ, Bool, none, some, Run, ok, ◌>>=◌, if◌then◌else◌}
use grid_server.PriorityQueue.{PriorityQueue}
use grid_server.PriorityQueue.Guards.{get_mut, deref, RefMut_write, drop_ref_mut}

module _ {V : Type 0} {B : Type 0} (cmp : V → V → Bool) where
  -- `change` says whether it wrote through the guard, the value it leaves, and what else it yields.
  unfoldable pub with_ref_mut :
      PriorityQueue V → ℕ → B → (V → Run (Bool × V × B)) → Run (PriorityQueue V × B)
  with_ref_mut q id absent change = elim (get_mut q id) [
    | none ↦ ok (q, absent)
    | some guard ↦ do
      value ← deref guard.queue guard.key
      (modified, value', result) ← change value
      guard' ← if modified then RefMut_write guard (λ _. value') else ok guard
      q' ← drop_ref_mut cmp guard'
      ok (q', result)
  ]
