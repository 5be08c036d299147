-- ===== src/Scheduler/Late.antt =====
-- scheduler/src/scheduler.rs: what the handler of results does to a late result and to the average.
use grid_server.Base.{
  List, ℕ, ◌+◌, ◌*◌, ◌/◌, ◌%◌, ◌^◌, ◌≤◌, ◌<◌, ◌≡◌, refl, inl, inr, some, arith, panic, length,
  get_elem?-none,
}
use grid_server.PriorityQueue.{PriorityQueue, get, vec_swap_remove}
use grid_server.PriorityQueue.Stored.{get_mut-cases}
use grid_server.Scheduler.{Worker, worker_less, position, remove_found}
use grid_server.Scheduler.Guards.{with_ref_mut}
use grid_server.Scheduler.Laws.{worker_less-IsPriority}
use grid_server.Scheduler.Results.{average, drop_replaced}

small_average : (avg x : ℕ) → x < 2 ^ 64 → ((avg * 0) % 2 ^ 128 + x) % 2 ^ 64 ≡ x
small_average avg x h = omega arith

-- For an execution time below 2^64 the new average is that time divided by the number of completed
-- tasks: the former average is multiplied by zero.
pub average-last :
    (avg completed execution_time : ℕ)
    → execution_time < 2 ^ 64
    → average avg completed execution_time ≡ execution_time / (completed + 1)
unfolding average
average-last avg completed execution_time h =
    let none_left : completed / (completed + 1) ≡ 0 = grind arith in
    let bound : execution_time / (completed + 1) ≤ execution_time = grind arith in
    rw none_left (small_average avg (execution_time / (completed + 1)) (omega arith))

remove_found-panics :
    (searched ids : List ℕ) (id pos : ℕ)
    → position searched id ≡ some pos
    → length ids ≤ pos
    → remove_found searched ids id ≡ panic
unfolding remove_found vec_swap_remove
remove_found-panics searched ids id pos p short =
    rw (p, remove_found, get_elem?-none ids pos short) refl

-- A late result panics where the position of its task among the worker's replacements is past the
-- end of the worker's assignments, since that position is removed from the assignments.
pub drop_replaced-panics :
    (q : PriorityQueue Worker) (worker_id task_id pos : ℕ) (worker : Worker)
    → get q worker_id ≡ some worker
    → position worker.replacements task_id ≡ some pos
    → length worker.assignments ≤ pos
    → drop_replaced q worker_id task_id ≡ panic
unfolding drop_replaced with_ref_mut
drop_replaced-panics q worker_id task_id pos worker g p short =
    elim (get_mut-cases worker_less worker_less-IsPriority q worker_id) [
      | inl (_, f) ↦ absurd (cc (f, g))
      | inr (v, f, e, d) ↦
          let same : v ≡ worker = cc (f, g) in
          rw
            (
              e,
              with_ref_mut,
              d,
              same,
              remove_found-panics worker.replacements worker.assignments task_id pos p short,
            )
            refl
    ]
