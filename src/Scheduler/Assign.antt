-- ===== src/Scheduler/Assign.antt =====
-- scheduler/src/scheduler.rs: process_scheduling, which gives the worker at the top tasks of its own and
-- tasks in place of those that others finished.
use grid_server.Base.{
  ◌*◌, ℕ, zero, suc, ◌^◌, Bool, true, false, not, ◌&&◌, ◌||◌, Option, none, some, List, [], ◌∷◌,
  ◌++◌, Run, ok, panic, ◌>>=◌, length, ltb, ◌==◌, if◌then◌else◌, take, get_elem?, ◌-◌,
}
use grid_server.Messages.{Bytes, WorkerTask, WorkerRequest, library_of}
use grid_server.PriorityQueue.{PriorityQueue}
use grid_server.PriorityQueue.Guards.{PeekMut, peek_mut, deref, PeekMut_write, drop_peek_mut}
use grid_server.Scheduler.{
  add_u128, bool_count, Worker, Task, has_assignments, fewer, worker_less, can_accept, need_replace,
  ScheduledJob, to_worker, Scheduler, send,
}
use grid_server.VecMap

-- `Vec::with_capacity` panics where the bytes asked for exceed `isize::MAX`.
unfoldable pub with_capacity : ℕ → ℕ → Run ℕ
with_capacity size capacity = if ltb (capacity * size) (2 ^ 63) then ok capacity else panic

-- The loops' variables: the guard's worker, and what is collected.
pub record Assigning : Type 0 where
  pub tasks_queue : PriorityQueue Task
  pub worker : Worker
  pub job : ScheduledJob
  pub need_schedule : Bool
  pub tasks : List WorkerTask
  pub replacements : List (ℕ × WorkerTask)

-- The guard `not_assigned || scheduled_tasks == total_tasks`.
abbrev pub is_eligible : ScheduledJob → Task → Bool
is_eligible job task = not (has_assignments task) || job.scheduled_tasks == job.total_tasks

-- `scheduled_job.scheduled_tasks += not_assigned as u128`
abbrev pub count_scheduled : ScheduledJob → Task → ScheduledJob
count_scheduled job task = record job {
  scheduled_tasks = add_u128 job.scheduled_tasks (bool_count (not (has_assignments task)));
}

abbrev pub give : Worker → ℕ → Worker
give w id = record w { assignments = w.assignments ++ id ∷ [] }

abbrev pub stop : Assigning → Assigning
stop s = record s { need_schedule = false }

-- The guard's task takes the worker's id, and the guard is dropped.
unfoldable pub add_assignment : PeekMut Task → ℕ → Run (PriorityQueue Task)
add_assignment guard worker_id = do
  guard' ←
      PeekMut_write guard (λ (t : Task). record t { assignments = t.assignments ++ worker_id ∷ [] })
  drop_peek_mut fewer guard'

-- One round of the first loop, for an eligible task.
unfoldable pub take_task : Assigning → PeekMut Task → Task → Run Assigning
unfolding add_assignment
take_task s guard task = do
  q ← add_assignment guard s.worker.id
  ok (record s {
    tasks_queue = q;
    worker = give s.worker task.task_data.id;
    job = count_scheduled s.job task;
    tasks = s.tasks ++ task.task_data ∷ [];
  })

unfoldable pub assign_tasks : ℕ → Assigning → Run Assigning
unfolding take_task
assign_tasks zero s = ok s
assign_tasks (suc rounds) s = elim (peek_mut s.tasks_queue) [
  | none ↦ ok (stop s)
  | some guard ↦ do
    task ← deref guard.queue guard.key
    let rest = take_task s guard task >>= assign_tasks rounds
    if is_eligible s.job task then rest else ok (stop s)
]

-- `Vec::pop`: the last element, and the others.
unfoldable pub vec_pop : List ℕ → Option (ℕ × List ℕ)
vec_pop xs = elim (get_elem? xs (length xs - 1)) [
  | none ↦ none
  | some x ↦ some (x, take (length xs - 1) xs)
]

-- One round of the second loop. It has as many rounds as there are tasks to replace.
unfoldable pub take_replacement : Assigning → PeekMut Task → Task → Run Assigning
unfolding add_assignment
take_replacement s guard task = elim (vec_pop s.worker.replacements) [
  | none ↦ ok s
  | some (task_id, others) ↦ do
    q ← add_assignment guard s.worker.id
    ok (record s {
      tasks_queue = q;
      worker = record (give s.worker task.task_data.id) { replacements = others };
      job = count_scheduled s.job task;
      replacements = s.replacements ++ (task_id, task.task_data) ∷ [];
    })
]

unfoldable pub assign_replacements : ℕ → Assigning → Run Assigning
unfolding take_replacement
assign_replacements zero s = ok s
assign_replacements (suc rounds) s = elim (peek_mut s.tasks_queue) [
  | none ↦ ok (stop s)
  | some guard ↦ do
    task ← deref guard.queue guard.key
    let rest = take_replacement s guard task >>= assign_replacements rounds
    if is_eligible s.job task then rest else ok (stop s)
]

abbrev pub is_nil : {A : Type 0} → List A → Bool
is_nil [] = true
is_nil (x ∷ xs) = false

-- Both loops, for the worker at the top. A task is 32 bytes and a replacement 40.
unfoldable pub assign : Scheduler → ScheduledJob → Worker → Run Assigning
unfolding assign_tasks assign_replacements
assign s job worker = do
  accept ← with_capacity 32 (can_accept worker)
  accepted ← assign_tasks accept (record {
    tasks_queue = s.tasks_queue;
    worker = worker;
    job = job;
    need_schedule = s.need_schedule;
    tasks = [];
    replacements = [];
  })
  replace ← with_capacity 40 (need_replace accepted.worker)
  assign_replacements replace accepted

-- The request that a worker is sent, and the worker with its flag set.
unfoldable pub request_of : Assigning → Worker × WorkerRequest
request_of a =
    let request : Option (Bytes × Bytes) → WorkerRequest = λ job_data. record {
      job = a.job.id;
      job_data = job_data;
      replacements = a.replacements;
      tasks = a.tasks;
    } in
    if a.worker.has_job_data then (a.worker, request none) else (
      record a.worker { has_job_data = true },
      request (elim (library_of a.job.job.libraries a.worker.platform) [
        | none ↦ none
        | some library ↦ some (a.job.job.args, library)
      ]),
    )

-- `nodes.send`: nothing is sent where the node is gone.
abbrev pub send_node : ℕ → WorkerRequest → Scheduler → Scheduler
send_node id request s = if VecMap.contains_key s.nodes id then send (to_worker id request) s else s

unfoldable pub process_scheduling : Scheduler → Run Scheduler
unfolding assign
process_scheduling s = elim s.scheduled_job [
  | none ↦ ok s
  | some job ↦ elim (peek_mut s.workers_queue) [
    | none ↦ ok (record s { need_schedule = false })
    | some guard ↦ do
      worker ← deref guard.queue guard.key
      if ltb 0 (can_accept worker) || ltb 0 (need_replace worker)
          then (do
            a ← assign s job worker
            let s' = record s {
              scheduled_job = some a.job;
              tasks_queue = a.tasks_queue;
              need_schedule = a.need_schedule;
            }
            if is_nil a.tasks && is_nil a.replacements then ok s' else (do
              guard' ← PeekMut_write guard (λ _. (request_of a).0)
              workers_queue ← drop_peek_mut worker_less guard'
              ok (
                  send_node a.worker.id (request_of a).1
                    (record s' { workers_queue = workers_queue }))))
          else ok (record s { need_schedule = false })
  ]
]
