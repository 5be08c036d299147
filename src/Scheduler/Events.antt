-- ===== src/Scheduler/Events.antt =====
-- scheduler/src/scheduler.rs: the events of `start` and their handlers.
use grid_server.Base.{
  ℕ, ◌%◌, ◌^◌, ◌≡◌, Bool, true, false, not, Option, none, some, List, [], ◌∷◌, map, if◌then◌else◌,
  length, Run, ok, ◌>>=◌,
}
use grid_server.Messages.{
  Bytes, WorkerTask, WorkerInfo, WorkerJobData, WorkerResponse, failed, finished,
  task_execution_error, library_missing, no_free_executors, SchedulerRequest, hello_message,
  new_job, task, workers_demand, release_demand, NodeManagerResponse, created_session,
  restored_session, disconnect, connect,
}
use grid_server.Platform.{Platform}
use grid_server.PriorityQueue
use grid_server.PriorityQueue.{PriorityQueue}
use grid_server.Scheduler.{
  sub_u128, add_u128, bool_count, Worker, Task, has_assignments, fewer, worker_less, ScheduledJob,
  to_node_manager, connect_node, connect_node_manager, cancelled, Scheduler, remove_found, send,
  clear_nodes, new,
}
use grid_server.Scheduler.Assign.{process_scheduling, with_capacity}
use grid_server.Scheduler.Errors.{
  process_library_missing, process_no_free_executors, process_task_execution_error,
}
use grid_server.Scheduler.Guards.{with_ref_mut}
use grid_server.Scheduler.Results.{reset_scheduler, process_result}
use grid_server.VecMap

pub data WorkerEvent : Type 0 where
  connected : WorkerInfo → (node : ℕ) → WorkerEvent
  disconnected : ℕ → WorkerEvent
  message : ℕ → WorkerResponse → WorkerEvent

pub data NodeManagerEvent : Type 0 where
  manager_connected not_established manager_disconnected : NodeManagerEvent
  manager_message : NodeManagerResponse → NodeManagerEvent

pub data TaskManagerEvent : Type 0 where
  client_connected : ℕ → TaskManagerEvent
  client_disconnected : TaskManagerEvent
  client_message : SchedulerRequest → TaskManagerEvent

-- A handle that is replaced or removed is dropped.
abbrev pub drop_node : Option ℕ → Scheduler → Scheduler
drop_node none s = s
drop_node (some node) s = send (cancelled node) s

unfoldable pub insert_connected_node : Scheduler → ℕ → ℕ → Scheduler
insert_connected_node s worker_id node =
    let (old, nodes) = VecMap.insert s.nodes worker_id node in
    drop_node old (record s { nodes = nodes })

unfoldable pub remove_node : Scheduler → ℕ → Run Scheduler
remove_node s worker_id = do
  (old, nodes) ← VecMap.remove s.nodes worker_id
  ok (drop_node old (record s { nodes = nodes }))

-- The count is adjusted after the worker leaves the task.
unfoldable pub release_tasks :
    PriorityQueue Task → ScheduledJob → ℕ → List ℕ → Run (PriorityQueue Task × ScheduledJob)
release_tasks q job worker_id [] = ok (q, job)
release_tasks q job worker_id (task_id ∷ ids) = do
  (q', job') ← with_ref_mut fewer q task_id job λ t. do
    (modified, rest) ← remove_found t.assignments t.assignments worker_id
    let left : Task = record t { assignments = rest }
    ok (
      modified,
      left,
      record job {
        scheduled_tasks = sub_u128 job.scheduled_tasks (bool_count (not (has_assignments left)));
      },
    )
  release_tasks q' job' worker_id ids

unfoldable pub process_worker_disconnect : Scheduler → ℕ → Run Scheduler
unfolding remove_node release_tasks
process_worker_disconnect s worker_id = do
  gone ← remove_node s worker_id
  (removed, workers_queue) ← PriorityQueue.remove worker_less gone.workers_queue worker_id
  let s' : Scheduler = record gone { workers_queue = workers_queue }
  elim removed [
    | none ↦ ok s'
    | some (_, worker) ↦ elim s'.scheduled_job [
      | none ↦ ok (record s' { need_schedule = true })
      | some job ↦ do
        (tasks_queue, job') ← release_tasks s'.tasks_queue job worker_id worker.assignments
        ok (record s' {
          need_schedule = true;
          tasks_queue = tasks_queue;
          scheduled_job = some job';
        })
    ]
  ]

unfoldable pub process_workers : Scheduler → WorkerEvent → Run Scheduler
unfolding process_worker_disconnect insert_connected_node
process_workers s (connected info node) = do
  let inserted = insert_connected_node (record s { need_schedule = true }) info.worker_id node
  let worker : Worker = record {
    id = info.worker_id;
    subworkers = info.subworkers;
    platform = info.platform;
    has_job_data = false;
    address = info.address;
    replacements = [];
    assignments = [];
  }
  (_, q) ← PriorityQueue.push worker_less inserted.workers_queue info.worker_id worker
  ok (record inserted { workers_queue = q })
process_workers s (disconnected worker_id) = process_worker_disconnect s worker_id
process_workers s (message worker_id (finished result)) = process_result s worker_id result
process_workers s (message worker_id (failed (library_missing tasks replacements))) =
    process_library_missing s worker_id tasks replacements
process_workers s (message worker_id (failed (task_execution_error task_id error))) =
    process_task_execution_error s worker_id task_id error
process_workers s (message worker_id (failed (no_free_executors tasks))) =
    process_no_free_executors s worker_id tasks

unfoldable pub connect_nodes : Scheduler → List WorkerInfo → Scheduler
connect_nodes s [] = s
connect_nodes s (info ∷ infos) = connect_nodes (send (connect_node info) s) infos

abbrev pub platforms_of : WorkerJobData → List Platform
platforms_of job = map (λ (entry : Platform × Bytes). entry.0) job.libraries

-- A new session starts with no workers: the job's tasks are unassigned, and workers asked for.
unfoldable pub create_session : Scheduler → Run Scheduler
unfolding clear_nodes
create_session s =
    let cleared : Scheduler =
      clear_nodes
        (record s { node_manager = true; workers_queue = PriorityQueue.clear s.workers_queue }) in
    elim s.scheduled_job [
      | none ↦ ok cleared
      | some job ↦ do
        tasks_queue ← PriorityQueue.map_all fewer s.tasks_queue (λ t. record t { assignments = [] })
        ok (
            send (to_node_manager (workers_demand none (platforms_of job.job))) (record cleared {
              scheduled_job = some (record job { scheduled_tasks = job.completed_tasks });
              tasks_queue = tasks_queue;
            }))
    ]

-- The first component is false where the server ends with an error.
unfoldable pub process_node_manager : Scheduler → NodeManagerEvent → Run (Bool × Scheduler)
unfolding connect_nodes process_worker_disconnect create_session
process_node_manager s (manager_message (connect workers)) = ok (true, connect_nodes s workers)
process_node_manager s (manager_message (disconnect worker_id)) = do
  s' ← process_worker_disconnect s worker_id
  ok (true, s')
process_node_manager s (manager_message restored_session) =
    ok (true, record s { node_manager = true })
process_node_manager s (manager_message created_session) = do
  s' ← if s.node_manager then ok s else create_session s
  ok (true, s')
process_node_manager s manager_disconnected =
    ok (true, send connect_node_manager (record s { node_manager = false }))
process_node_manager s manager_connected = ok (true, s)
process_node_manager s not_established = ok (false, s)

unfoldable pub push_tasks : PriorityQueue Task → List WorkerTask → Run (PriorityQueue Task)
push_tasks q [] = ok q
push_tasks q (data' ∷ batch) = do
  (_, q') ←
      PriorityQueue.push fewer q data'.id
        (record { failed_executions = 0; assignments = []; task_data = data' })
  push_tasks q' batch

-- `reserve_exact` panics, as `with_capacity` does: the larger of its vectors is that of the map, with
-- 72 bytes for a position and a task.
unfoldable pub process_task_manager : Scheduler → TaskManagerEvent → Run Scheduler
unfolding push_tasks reset_scheduler
process_task_manager s (client_message hello_message) = ok s
process_task_manager s (client_message (new_job id total_tasks job)) = do
  let fresh = reset_scheduler s
  let asked =
      if fresh.node_manager
      then send (to_node_manager (workers_demand none (platforms_of job))) fresh
      else fresh
  _ ← with_capacity 72 (total_tasks % 2 ^ 64)
  ok (record asked {
    scheduled_job = some (record {
      total_tasks = total_tasks;
      scheduled_tasks = 0;
      received_tasks = 0;
      completed_tasks = 0;
      failed_tasks = 0;
      avg_task_completion_time = 0;
      job = job;
      id = id;
    });
  })
process_task_manager s (client_message (task batch)) = elim s.scheduled_job [
  | none ↦ ok s
  | some job ↦ do
    tasks_queue ← push_tasks s.tasks_queue batch
    ok (record s {
      scheduled_job =
          some (record job { received_tasks = add_u128 job.received_tasks (length batch) });
      tasks_queue = tasks_queue;
      need_schedule = true;
    })
]
process_task_manager s client_disconnected = elim s.task_manager [
  | none ↦ ok s
  | some address ↦ ok (
      reset_scheduler (
        send (to_node_manager release_demand)
          (record s { scheduled_job = none; task_manager = none })))
]
process_task_manager s (client_connected address) = ok (record s { task_manager = some address })

-- What `select!` can take next: scheduling only while `need_schedule` is set. After the error of
-- `process_node_manager`, with which `start` ends, the steps go on here: there are no fewer.
pub data Step : Scheduler → Run Scheduler → Type 0 where
  by_task_manager :
      {s : Scheduler} (event : TaskManagerEvent) → Step s (process_task_manager s event)
  by_node_manager :
      {s : Scheduler} (event : NodeManagerEvent)
      → Step s (process_node_manager s event >>= λ (_, s'). ok s')
  by_workers : {s : Scheduler} (event : WorkerEvent) → Step s (process_workers s event)
  by_scheduling : {s : Scheduler} → s.need_schedule ≡ true → Step s (process_scheduling s)

-- The states that a run of `start` can be in.
pub data Reachable (limit : ℕ) : Scheduler → Type 0 where
  at_start : Reachable limit (new limit)
  followed :
      {s s' : Scheduler} {r : Run Scheduler}
      → Reachable limit s
      → Step s r
      → r ≡ ok s'
      → Reachable limit s'
