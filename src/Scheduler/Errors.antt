-- ===== src/Scheduler/Errors.antt =====
-- scheduler/src/scheduler.rs: the handlers of a worker's errors.
use grid_server.Base.{
  ℕ, ◌+◌, ◌%◌, ◌^◌, Bool, true, false, not, ◌||◌, Option, none, some, List, [], ◌∷◌, ◌++◌, Run, ok,
  ◌>>=◌, length, ◌==◌, if◌then◌else◌,
}
use grid_server.Messages.{Bytes, execution_error}
use grid_server.PriorityQueue.{PriorityQueue}
use grid_server.Scheduler.{
  sub_usize, sub_u128, bool_count, Worker, Task, has_assignments, fewer, worker_less, ScheduledJob,
  to_task_manager, Scheduler, remove_found, send,
}
use grid_server.Scheduler.Guards.{with_ref_mut}
use grid_server.Scheduler.Results.{stats_of}

-- What a handler changes while it holds the worker's guard.
pub record Withdrawing : Type 0 where
  pub tasks_queue : PriorityQueue Task
  pub job : ScheduledJob
  pub worker : Worker
  pub modified : Bool

-- `worker.assignments.swap_remove(pos)` at the id's position in `searched`.
unfoldable pub leave : Withdrawing → List ℕ → ℕ → Run Withdrawing
unfolding remove_found
leave s searched task_id = do
  (removed, rest) ← remove_found searched s.worker.assignments task_id
  ok (record s {
    worker = record s.worker { assignments = rest };
    modified = s.modified || removed;
  })

-- The count is adjusted before the worker leaves the task.
unfoldable pub count_withdrawn : ScheduledJob → Task → ScheduledJob
count_withdrawn job task = record job {
  scheduled_tasks = sub_u128 job.scheduled_tasks (bool_count (not (has_assignments task)));
}

-- One task of an error: the worker is taken off it. `replaced` is the task that it was to replace.
unfoldable pub withdraw : Withdrawing → ℕ → ℕ → Option ℕ → Run Withdrawing
unfolding leave with_ref_mut remove_found count_withdrawn
withdraw s worker_id task_id replaced = do
  (q, found) ← with_ref_mut fewer s.tasks_queue task_id none λ task. do
    (modified, rest) ← remove_found task.assignments task.assignments worker_id
    ok (modified, record task { assignments = rest }, some (count_withdrawn s.job task))
  let s' : Withdrawing = record s { tasks_queue = q }
  elim found [
    | none ↦ leave s' s.worker.replacements task_id
    | some job ↦ do
      left ← leave (record s' { job = job }) s.worker.assignments task_id
      ok (elim replaced [
        | none ↦ left
        | some id ↦ record left {
          worker = record left.worker { replacements = left.worker.replacements ++ id ∷ [] };
          modified = true;
        }
      ])
  ]

unfoldable pub withdraw_tasks : Withdrawing → ℕ → List ℕ → Run Withdrawing
unfolding withdraw
withdraw_tasks s worker_id [] = ok s
withdraw_tasks s worker_id (id ∷ ids) =
    withdraw s worker_id id none >>= λ s'. withdraw_tasks s' worker_id ids

unfoldable pub withdraw_replacements : Withdrawing → ℕ → List (ℕ × ℕ) → Run Withdrawing
unfolding withdraw
withdraw_replacements s worker_id [] = ok s
withdraw_replacements s worker_id ((replaced, id) ∷ pairs) =
    withdraw s worker_id id (some replaced) >>= λ s'. withdraw_replacements s' worker_id pairs

-- A handler's body under the guard of the worker. The body may end the job, and send.
-- The body of a handler, and what it does to the scheduler at the end.
abbrev pub Body : Type 0
Body = ScheduledJob → Withdrawing → Run (Withdrawing × (Scheduler → Scheduler))

unfoldable pub with_worker : Scheduler → ℕ → Body → Run Scheduler
unfolding with_ref_mut
with_worker s worker_id body = elim s.scheduled_job [
  | none ↦ ok s
  | some job ↦ do
    (workers_queue, done) ←
        with_ref_mut {B = Option (Withdrawing × (Scheduler → Scheduler))} worker_less
          s.workers_queue worker_id none
          λ worker. do
            let start : Withdrawing = record {
              tasks_queue = s.tasks_queue;
              job = job;
              worker = worker;
              modified = false;
            }
            (end, after) ← body job start
            ok (end.modified, end.worker, some (end, after))
    elim done [
      | none ↦ ok s
      | some (end, after) ↦ ok (
          after (record s {
            workers_queue = workers_queue;
            tasks_queue = end.tasks_queue;
            scheduled_job = some end.job;
          }))
    ]
]

abbrev pub set_need_schedule : Scheduler → Scheduler
set_need_schedule s = record s { need_schedule = true }

unfoldable pub library_missing_body : ℕ → List ℕ → List (ℕ × ℕ) → Body
unfolding withdraw_tasks withdraw_replacements
library_missing_body worker_id tasks replacements job start = do
  let unset : Withdrawing = record start {
    worker = record start.worker { has_job_data = false };
    modified = true;
  }
  withdrawn ← withdraw_tasks unset worker_id tasks
  end ← withdraw_replacements withdrawn worker_id replacements
  ok (end, set_need_schedule)

unfoldable pub process_library_missing : Scheduler → ℕ → List ℕ → List (ℕ × ℕ) → Run Scheduler
unfolding with_worker library_missing_body
process_library_missing s worker_id tasks replacements =
    with_worker s worker_id (library_missing_body worker_id tasks replacements)

unfoldable pub no_free_executors_body : ℕ → List ℕ → Body
unfolding withdraw_tasks
no_free_executors_body worker_id tasks job start = do
  let limited = not (start.worker.subworkers == 0)
  let fewer_subworkers : Withdrawing = record start {
    worker = record start.worker { subworkers = sub_usize start.worker.subworkers (length tasks) };
    modified = true;
  }
  end ← withdraw_tasks (if limited then fewer_subworkers else start) worker_id tasks
  ok (end, λ s. if limited then set_need_schedule s else s)

unfoldable pub process_no_free_executors : Scheduler → ℕ → List ℕ → Run Scheduler
unfolding with_worker no_free_executors_body
process_no_free_executors s worker_id tasks =
    with_worker s worker_id (no_free_executors_body worker_id tasks)

-- The task's guard: whether its last failure was reached, which ends the job with no reset. An
-- earlier failure is counted on the task.
unfoldable pub fail_task :
    ScheduledJob → (limit worker_id : ℕ) → Task → Run (Bool × Task × Option (ScheduledJob × Bool))
unfolding remove_found count_withdrawn
fail_task job limit worker_id task = do
  (modified, rest) ← remove_found task.assignments task.assignments worker_id
  let left : Task = record task { assignments = rest }
  let counted = count_withdrawn job task
  if task.failed_executions == limit
      then ok (modified, left, some (counted, true))
      else ok (
        true,
        record left { failed_executions = (left.failed_executions + 1) % 2 ^ 16 },
        some (counted, false),
      )

-- The end of the handler.
abbrev pub give_up : Bytes → ScheduledJob → Bool → Scheduler → Scheduler
give_up error counted given_up s =
    let t = set_need_schedule s in
    if given_up
    then send (to_task_manager (execution_error error (stats_of counted)))
        (record t { scheduled_job = none })
    else t

unfoldable pub execution_error_body : ℕ → ℕ → ℕ → Bytes → Body
unfolding with_ref_mut leave fail_task
execution_error_body limit worker_id task_id error job start = do
  (q, found) ←
      with_ref_mut fewer start.tasks_queue task_id none (fail_task start.job limit worker_id)
  let start' : Withdrawing = record start { tasks_queue = q }
  elim found [
    | none ↦ do end ← leave start' start.worker.replacements task_id; ok (end, set_need_schedule)
    | some (counted, given_up) ↦ do
      end ← leave (record start' { job = counted }) start.worker.assignments task_id
      ok (end, give_up error counted given_up)
  ]

unfoldable pub process_task_execution_error : Scheduler → ℕ → ℕ → Bytes → Run Scheduler
unfolding with_worker execution_error_body
process_task_execution_error s worker_id task_id error =
    with_worker s worker_id (execution_error_body s.failed_executions_limit worker_id task_id error)
