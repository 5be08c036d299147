-- ===== src/TaskManager/Process.antt =====
-- task_manager/src/task_manager.rs: the state of the task manager and process_job. The packages bincode
-- and bitset_core and the libraries of the job, which the build includes, are parameters.
use grid_server.Base.{
  ℕ, ◌+◌, ◌%◌, min, ◌⊎◌, Bool, true, false, not, Option, none, some, List, [], ◌∷◌, if◌then◌else◌,
  length, replicate, Run, ok, ◌>>=◌,
}
use grid_server.BitSet
use grid_server.BitSet.{BitSet, BitCore}
use grid_server.Messages.{new_job, task, WorkerTask, Bytes}
use grid_server.MultilevelVecMap
use grid_server.MultilevelVecMap.{MultilevelVecMap}
use grid_server.Platform.{Platform}
use grid_server.TaskManager.JobData.{JobData}
use grid_server.TaskManager.Job.{
  JobResult, completed, error, job_not_serialized, task_not_serialized, JobPhase, splitting,
  waiting_tasks_completions, reducing, Started, JobState, not_started, started, finished, Job,
  SchedulerConnection, send,
}
use grid_server.TaskManager.Splitter
use grid_server.TaskManager.Splitter.{TaskSplitter, TaskData}
use grid_server.TaskManager.Reducer
use grid_server.TaskManager.Reducer.{TaskReducer, TaskResult, Distance, max_distance}

-- `bincode`, with its standard configuration. A failure to decode comes with its message.
pub record Codec : Type 0 where
  pub encode_job : JobData → Option Bytes
  pub encode_task : TaskData → Option Bytes
  pub decode_result : Bytes → TaskResult ⊎ Bytes

pub record TaskManager : Type 0 where
  pub scheduler : SchedulerConnection
  pub jobs_finished : List Job
  pub jobs_queue : List Job
  pub current_job : Option Job
  pub need_process_job : Bool

-- `ControlFlow<Result<JobResult, anyhow::Error>>`
pub data Flow : Type 0 where
  continue break_err : Flow
  break_ok : JobResult → Flow

abbrev pub copies {ℓ} : {A : Type ℓ} → ℕ → Run A → Run (List A)
copies n run = do a ← run; ok (replicate n a)

abbrev pub with_job : TaskManager → Job → TaskManager
with_job m job = record m { current_job = some job }

abbrev pub with_state : TaskManager → Job → JobState → TaskManager
with_state m job state = with_job m (record job { state = state })

-- The scheduler is not ready: the job waits until it is.
unfoldable pub wait_ready : TaskManager → Flow × TaskManager
wait_ready m = (continue, record m { need_process_job = false })

-- `*minimal = min(*minimal, distance)` for each distance.
unfoldable pub least : Distance → List Distance → Distance
least minimal [] = minimal
least minimal (d ∷ ds) = least (min minimal d) ds

-- The number of passengers of the reducer is the source's: that of the taxies.
unfoldable pub wait_job : TaskManager → Job → Started → Flow × TaskManager
unfolding wait_ready BitSet.is_empty Reducer.new
wait_job m job s =
    if not m.scheduler.ready
    then wait_ready m
    else if BitSet.is_empty s.tasks
    then (let taxies = length job.job_data.taxies in
        let passengers = length job.job_data.taxies in
        (
          continue,
          with_state m job (
              started record s {
                parts = [];
                phase = reducing (Reducer.new taxies passengers s.parts) max_distance;
              }),
        ))
    else (continue, m)

unfoldable pub next_job : TaskManager → Flow × TaskManager
next_job m = elim m.jobs_queue [
  | [] ↦ (continue, record m { need_process_job = false })
  | job ∷ jobs ↦
      (continue, record m { jobs_queue = jobs; current_job = some job; need_process_job = true })
]

module _ (codec : Codec) (libraries : List (Platform × Bytes)) where
  unfoldable pub start_job : TaskManager → Job → Run (Flow × TaskManager)
  unfolding wait_ready Splitter.new Splitter.total_tasks MultilevelVecMap.with_capacity send
      BitSet.with_capacity
  start_job m job =
      if not m.scheduler.ready
      then ok (wait_ready m)
      else (let taxies = length job.job_data.taxies in
          let passengers = length job.job_data.passengers in
          let task_splitter = Splitter.new taxies passengers in
          let total_tasks = Splitter.total_tasks task_splitter in
          elim (codec.encode_job job.job_data) [
            | none ↦ ok (break_ok (error job_not_serialized none), m)
            | some args ↦ do
              parts ←
                  copies taxies (MultilevelVecMap.with_capacity passengers (passengers % 64 + 1))
              ok (
                continue,
                with_state
                    (record m {
                      scheduler = send m.scheduler (
                          new_job job.id total_tasks
                            (record { args = args; libraries = libraries }));
                    })
                    job
                    (started record {
                      stats = none;
                      tasks = BitSet.with_capacity (total_tasks % 64 + 1);
                      parts = parts;
                      phase = splitting task_splitter;
                    }),
              )
          ])

module _ (core : BitCore) where
  unfoldable pub reduce_job :
      TaskManager → Job → Started → TaskReducer → Distance → Run (Flow × TaskManager)
  unfolding Reducer.next_chunk least
  reduce_job m job s reducer minimal = do
    (full, distances, rest) ← Reducer.next_chunk core 128 reducer
    let minimum = least minimal distances
    ok (
        if full
        then (continue, with_state m job (started record s { phase = reducing rest minimum }))
        else (
          break_ok (completed minimum s.stats),
          with_state m job (started record s { stats = none; phase = reducing rest minimum }),
        ))

module _ (core : BitCore) (codec : Codec) where
  -- The ids go into the set of tasks, also those of a batch that is not encoded to its end.
  unfoldable pub encode_tasks : BitSet → List (ℕ × TaskData) → Option (List WorkerTask) × BitSet
  unfolding BitSet.insert
  encode_tasks tasks [] = (some [], tasks)
  encode_tasks tasks ((id, item) ∷ items) =
      let (encoded, all) = encode_tasks (BitSet.insert core tasks id).1 items in
      elim (codec.encode_task item) [
        | none ↦ (none, (BitSet.insert core tasks id).1)
        | some bytes ↦ elim encoded [
          | none ↦ (none, all)
          | some rest ↦ (some (record { id = id; bytes = bytes } ∷ rest), all)
        ]
      ]

  unfoldable pub split_job : TaskManager → Job → Started → TaskSplitter → Flow × TaskManager
  unfolding wait_ready Splitter.next_chunk encode_tasks send
  split_job m job s splitter =
      if not m.scheduler.ready
      then wait_ready m
      else (let (full, batch, rest) = Splitter.next_chunk 128 splitter in
          let (encoded, tasks) = encode_tasks s.tasks batch in
          elim encoded [
            | none ↦ (
              break_ok (error task_not_serialized s.stats),
              with_state m job
                  (started record s { tasks = tasks; stats = none; phase = splitting rest }),
            )
            | some workers_tasks ↦ (
              continue,
              with_state (record m { scheduler = send m.scheduler (task workers_tasks) }) job
                  (started record s {
                    tasks = tasks;
                    phase = if full then splitting rest else waiting_tasks_completions;
                  }),
            )
          ])

  unfoldable pub process_phase : TaskManager → Job → Started → JobPhase → Run (Flow × TaskManager)
  unfolding split_job wait_job reduce_job
  process_phase m job s (splitting splitter) = ok (split_job m job s splitter)
  process_phase m job s waiting_tasks_completions = ok (wait_job m job s)
  process_phase m job s (reducing reducer minimal) = reduce_job core m job s reducer minimal

module _ (core : BitCore) (codec : Codec) (libraries : List (Platform × Bytes)) where
  unfoldable pub process_job : TaskManager → Run (Flow × TaskManager)
  unfolding start_job process_phase next_job
  process_job m = elim m.current_job [
    | none ↦ ok (next_job m)
    | some job ↦ elim job.state [
      | not_started ↦ start_job codec libraries m job
      | started s ↦ process_phase core codec m job s s.phase
      | finished result ↦ ok (continue, m)
    ]
  ]
