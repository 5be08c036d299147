-- ===== src/Scheduler/Results.antt =====
-- scheduler/src/scheduler.rs: reset_scheduler, and the handler of a worker's result.
use grid_server.Base.{
  ℕ, ◌+◌, ◌*◌, ◌/◌, ◌%◌, ◌^◌, Bool, true, false, none, some, List, [], ◌∷◌, ◌++◌, Run, ok, ◌>>=◌,
  ◌==◌, if◌then◌else◌,
}
use grid_server.Buffer
use grid_server.Buffer.{Buffer}
use grid_server.Messages.{WorkerResult, JobStats, task_results, job_complete, release_demand}
use grid_server.PriorityQueue
use grid_server.PriorityQueue.{PriorityQueue}
use grid_server.Scheduler.{
  add_u128, worker_less, fewer, Worker, Task, ScheduledJob, to_task_manager, to_node_manager,
  Scheduler, remove_found, send, clear_nodes,
}
use grid_server.Scheduler.Guards.{with_ref_mut}

unfoldable pub reset_scheduler : Scheduler → Scheduler
unfolding clear_nodes
reset_scheduler s =
    record (clear_nodes (record s {
      workers_queue = PriorityQueue.clear s.workers_queue;
      tasks_queue = PriorityQueue.clear s.tasks_queue;
      results_buffer = Buffer.clear s.results_buffer;
    })) { need_schedule = false }

-- The division of the count by its successor comes first in the source. The successor is not
-- wrapped: one result at a time, the count does not come to 2^128 - 1 in any run.
unfoldable pub average : ℕ → ℕ → ℕ → ℕ
average avg completed execution_time =
    ((avg * (completed / (completed + 1))) % 2 ^ 128 + execution_time / (completed + 1)) % 2 ^ 64

-- `JobStats` of the job.
abbrev pub stats_of : ScheduledJob → JobStats
stats_of job = record {
  total_tasks = job.total_tasks;
  completed_tasks = job.completed_tasks;
  failed_tasks = job.failed_tasks;
  avg_task_completion_time = job.avg_task_completion_time;
}

-- A late result: the task's place among the worker's replacements is removed from its assignments.
unfoldable pub drop_replaced : PriorityQueue Worker → ℕ → ℕ → Run (PriorityQueue Worker × Bool)
unfolding with_ref_mut remove_found
drop_replaced q worker_id task_id = with_ref_mut worker_less q worker_id false λ worker. do
  (modified, rest) ← remove_found worker.replacements worker.assignments task_id
  ok (modified, record worker { assignments = rest }, true)

-- The worker no longer has the task, which it may have to replace.
unfoldable pub unassign :
    PriorityQueue Worker → (replaced : Bool) → ℕ → ℕ → Run (PriorityQueue Worker)
unfolding with_ref_mut remove_found
unassign q replaced task_id worker_id = do
  (q', _) ← with_ref_mut worker_less q worker_id false λ worker. do
    (modified, rest) ← remove_found worker.assignments worker.assignments task_id
    let left : Worker = record worker { assignments = rest }
    if replaced
        then ok (true, record left { replacements = left.replacements ++ task_id ∷ [] }, true)
        else ok (modified, left, true)
  ok q'

-- The others that had the task are to replace it.
unfoldable pub replace_all : PriorityQueue Worker → ℕ → List ℕ → Run (PriorityQueue Worker)
replace_all q task_id [] = ok q
replace_all q task_id (id ∷ ids) = do q' ← unassign q true task_id id; replace_all q' task_id ids

-- A new result goes to the buffer, and the batch that it completes to the task manager.
unfoldable pub deliver : Scheduler → ScheduledJob → WorkerResult → Run Scheduler
deliver s job result = do
  (batch, buffer) ← Buffer.push s.results_buffer result
  let counted : ScheduledJob = record job {
    avg_task_completion_time =
        average job.avg_task_completion_time job.completed_tasks result.execution_time;
    completed_tasks = add_u128 job.completed_tasks 1;
  }
  let s' : Scheduler = record s {
    need_schedule = true;
    scheduled_job = some counted;
    results_buffer = buffer;
  }
  ok (elim batch [ none ↦ s' | some results ↦ send (to_task_manager (task_results results)) s' ])

-- The last result of the job sends what the buffer holds.
unfoldable pub complete : Scheduler → ScheduledJob → Run Scheduler
unfolding reset_scheduler
complete s job =
    if job.completed_tasks == job.total_tasks
    then (do
      batch ← Buffer.filled_slice s.results_buffer
      ok (
          reset_scheduler (
            send (to_node_manager release_demand) (
              send (to_task_manager (job_complete batch (stats_of job)))
                (record s { results_buffer = Buffer.clear s.results_buffer })))))
    else ok s

-- The branch of a task that is still in the queue; it is removed from there.
unfoldable pub accept_result : Scheduler → ScheduledJob → ℕ → WorkerResult → Task → Run Scheduler
unfolding deliver complete unassign replace_all remove_found
accept_result s job worker_id result task = do
  delivered ← deliver s job result
  (_, others) ← remove_found task.assignments task.assignments worker_id
  without ← unassign delivered.workers_queue false result.id worker_id
  workers_queue ← replace_all without result.id others
  let s' : Scheduler = record delivered { workers_queue = workers_queue }
  elim s'.scheduled_job [ none ↦ ok s' | some counted ↦ complete s' counted ]

unfoldable pub process_result : Scheduler → ℕ → WorkerResult → Run Scheduler
unfolding accept_result drop_replaced
process_result s worker_id result = elim s.scheduled_job [
  | none ↦ ok s
  | some job ↦ do
    (removed, tasks_queue) ← PriorityQueue.remove fewer s.tasks_queue result.id
    let s' : Scheduler = record s { tasks_queue = tasks_queue }
    elim removed [
      | none ↦ do
        (workers_queue, found) ← drop_replaced s.workers_queue worker_id result.id
        ok (record s' {
          workers_queue = workers_queue;
          need_schedule = if found then true else s.need_schedule;
        })
      | some (_, task) ↦ accept_result s' job worker_id result task
    ]
]
