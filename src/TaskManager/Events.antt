-- ===== src/TaskManager/Events.antt =====
-- task_manager/src/task_manager.rs: the results of tasks, the handlers of the scheduler's messages and of
-- the commands, and `start` as a step relation.
use grid_server.Base.{
  ℕ, ◌≡◌, inl, inr, true, false, Option, none, some, List, [], ◌∷◌, ◌++◌, ◌==◌, if◌then◌else◌,
  get_elem?, set, Run, ok, panic, or_else, ◌>>=◌,
}
use grid_server.BitSet
use grid_server.BitSet.{BitSet, BitCore}
use grid_server.Messages.{
  JobStats, WorkerResult, task_results, scheduler_busy, scheduler_free, execution_error,
  job_complete, Bytes,
}
use grid_server.MultilevelVecMap
use grid_server.MultilevelVecMap.{MultilevelVecMap}
use grid_server.Platform.{Platform}
use grid_server.TaskManager.Job.{
  JobResult, error, text, job_cancelled, splitting, waiting_tasks_completions, reducing, Started,
  JobState, not_started, started, finished, Job, reconnect, connect, Command, add_job, cancel_job,
  finished_jobs, queued_jobs, current_job, Reply, added, found, listed, SchedulerEvent, connected,
  disconnected, connection_not_established, message,
}
use grid_server.TaskManager.Reducer.{TaskResult, Distance, split}
use grid_server.TaskManager.Process.{
  Codec, TaskManager, Flow, continue, break_err, break_ok, with_state, process_job,
}

-- Both halves of a result into the part of its taxi, which panics where there is none.
unfoldable pub insert_result :
    List (MultilevelVecMap Distance) → TaskResult → Run (List (MultilevelVecMap Distance))
unfolding MultilevelVecMap.insert split
insert_result parts r =
    let (combination1, combination2) = r.result in
    do
      part ← or_else (get_elem? parts r.taxi) panic
      (old1, part1) ← MultilevelVecMap.insert part (split combination1.0) combination1.1
      (old2, part2) ← MultilevelVecMap.insert part1 (split combination2.0) combination2.1
      ok (set parts r.taxi part2)

-- A job that still needs the scheduler starts again.
unfoldable pub restarted : JobState → JobState
restarted (started s) = elim s.phase [
  | splitting splitter ↦ not_started
  | waiting_tasks_completions ↦ not_started
  | reducing reducer minimal ↦ started s
]
restarted state = state

unfoldable pub restart : TaskManager → TaskManager
unfolding restarted
restart m = elim m.current_job [ none ↦ m | some job ↦ with_state m job (restarted job.state) ]

module _ (core : BitCore) (codec : Codec) where
  -- Only the first result of a task counts.
  unfoldable pub process_result : Started → WorkerResult → Run (Flow × Started)
  unfolding insert_result BitSet.remove
  process_result s result = elim (codec.decode_result result.bytes) [
    | inr err ↦ ok (break_ok (error (text err) s.stats), s)
    | inl r ↦ do
      (removed, tasks) ← BitSet.remove core s.tasks result.id
      elim removed [
        | true ↦ do
          parts ← insert_result s.parts r
          ok (continue, record s { tasks = tasks; parts = parts })
        | false ↦ ok (continue, record s { tasks = tasks })
      ]
  ]

  -- The first failure ends the loop.
  unfoldable pub process_results : Started → List WorkerResult → Run (Flow × Started)
  unfolding process_result
  process_results s [] = ok (continue, s)
  process_results s (result ∷ results) = do
    (flow, s') ← process_result s result
    elim flow [
      | continue ↦ process_results s' results
      | break_err ↦ ok (break_err, s')
      | break_ok job_result ↦ ok (break_ok job_result, s')
    ]

  -- The results go to the current job, if it has started.
  unfoldable pub deliver :
      TaskManager → (Started → Started) → List WorkerResult → Run (Flow × TaskManager)
  unfolding process_results
  deliver m before results = elim m.current_job [
    | none ↦ ok (continue, m)
    | some job ↦ elim job.state [
      | started s ↦ do
        (flow, s') ← process_results (before s) results
        ok (flow, with_state m job (started s'))
      | _ ↦ ok (continue, m)
    ]
  ]

  unfoldable pub process_scheduler : TaskManager → SchedulerEvent → Run (Flow × TaskManager)
  unfolding deliver restart reconnect
  process_scheduler m connected = ok (continue, m)
  process_scheduler m disconnected =
      ok (continue, restart (record m { scheduler = reconnect m.scheduler }))
  process_scheduler m connection_not_established = ok (break_err, m)
  process_scheduler m (message (job_complete left stats)) =
      deliver m (λ s. record s { stats = some stats }) left
  process_scheduler m (message (task_results results)) = deliver m (λ s. s) results
  process_scheduler m (message scheduler_busy) =
      ok (continue, restart (record m { scheduler = record m.scheduler { ready = false } }))
  process_scheduler m (message scheduler_free) = ok (
    continue,
    record m { scheduler = record m.scheduler { ready = true }; need_process_job = true },
  )
  process_scheduler m (message (execution_error err stats)) =
      ok (break_ok (error (text err) (some stats)), m)

-- The first job with an id, and the jobs without it: `position` and `remove`.
unfoldable pub remove_job : List Job → ℕ → Option Job × List Job
remove_job [] id = (none, [])
remove_job (job ∷ jobs) id =
    let (removed, rest) = remove_job jobs id in
    if job.id == id then (some job, jobs) else (removed, job ∷ rest)

abbrev pub stats_of : JobState → Option JobStats
stats_of not_started = none
stats_of (started s) = s.stats
stats_of (finished result) = none

unfoldable pub cancel : TaskManager → ℕ → Flow × Reply × TaskManager
unfolding remove_job
cancel m id =
    let queued : Flow × Reply × TaskManager = (
      continue,
      found (remove_job m.jobs_queue id).0,
      record m { jobs_queue = (remove_job m.jobs_queue id).1 },
    ) in
    elim m.current_job [
      | none ↦ queued
      | some job ↦
          if job.id == id
          then (break_ok (error job_cancelled (stats_of job.state)), found (some job), m)
          else queued
    ]

unfoldable pub process_command : TaskManager → Command → Flow × Reply × TaskManager
unfolding cancel
process_command m (add_job job_data id) = (
  continue,
  added id,
  record m {
    jobs_queue = m.jobs_queue ++ record { id = id; job_data = job_data; state = not_started } ∷ [];
    need_process_job = true;
  },
)
process_command m (cancel_job id) = cancel m id
process_command m finished_jobs = (continue, listed m.jobs_finished, m)
process_command m queued_jobs = (continue, listed m.jobs_finished, m)
process_command m current_job = (continue, found m.current_job, m)

-- What `start` does with the result of a handler: a job result ends the current job, and an error
-- ends the loop.
unfoldable pub finish : TaskManager → JobResult → TaskManager
finish m job_result = elim m.current_job [
  | none ↦ m
  | some job ↦ record m {
    current_job = none;
    jobs_finished = m.jobs_finished ++ record job { state = finished job_result } ∷ [];
  }
]

unfoldable pub conclude : Flow × TaskManager → Option TaskManager
unfolding finish
conclude (continue, m) = some m
conclude (break_err, m) = none
conclude (break_ok job_result, m) = some (finish m job_result)

-- The start of the task manager.
unfoldable pub new : TaskManager
unfolding connect
new = record {
  scheduler = connect;
  jobs_finished = [];
  jobs_queue = [];
  current_job = none;
  need_process_job = false;
}

module _ (core : BitCore) (codec : Codec) (libraries : List (Platform × Bytes)) where
  -- What `select!` can do next.
  pub data Step (m : TaskManager) : TaskManager → Type 0 where
    scheduler_event :
        {m' : TaskManager} (event : SchedulerEvent) (flow : Flow) (after : TaskManager)
        → process_scheduler core codec m event ≡ ok (flow, after)
        → conclude (flow, after) ≡ some m'
        → Step m m'
    command :
        {m' : TaskManager} (c : Command) (flow : Flow) (reply : Reply) (after : TaskManager)
        → process_command m c ≡ (flow, reply, after)
        → conclude (flow, after) ≡ some m'
        → Step m m'
    job_processed :
        {m' : TaskManager} (flow : Flow) (after : TaskManager)
        → m.need_process_job ≡ true
        → process_job core codec libraries m ≡ ok (flow, after)
        → conclude (flow, after) ≡ some m'
        → Step m m'

  pub data Reachable : TaskManager → Type 0 where
    start : Reachable new
    then_step : {m m' : TaskManager} → Reachable m → Step m m' → Reachable m'
