-- ===== src/Messages.antt =====
-- shared/src/worker.rs, shared/src/scheduler.rs, shared/src/node_manager.rs: what the servers send each
-- other. Ids and addresses are numbers, a `Duration` is its nanoseconds, bytes and text are lists
-- of numbers, and a `HashMap` is a list of its pairs.
use grid_server.Base.{ℕ, Option, none, some, List, [], ◌∷◌, if◌then◌else◌}
use grid_server.Platform.{Platform, same_platform}

abbrev pub Bytes : Type 0
Bytes = List ℕ

pub record WorkerTask : Type 0 where
  pub id : ℕ
  pub bytes : Bytes

pub record WorkerResult : Type 0 where
  pub id : ℕ
  pub execution_time : ℕ
  pub bytes : Bytes

pub record WorkerRequest : Type 0 where
  pub job : ℕ
  pub job_data : Option (Bytes × Bytes)
  pub replacements : List (ℕ × WorkerTask)
  pub tasks : List WorkerTask

pub data WorkerError : Type 0 where
  task_execution_error : (task_id : ℕ) → (error : Bytes) → WorkerError
  library_missing : (tasks : List ℕ) → (replacements : List (ℕ × ℕ)) → WorkerError
  no_free_executors : (tasks : List ℕ) → WorkerError

pub data WorkerResponse : Type 0 where
  failed : WorkerError → WorkerResponse
  finished : WorkerResult → WorkerResponse

pub record WorkerJobData : Type 0 where
  pub args : Bytes
  pub libraries : List (Platform × Bytes)

-- `HashMap::get` on the libraries.
unfoldable pub library_of : List (Platform × Bytes) → Platform → Option Bytes
library_of [] platform = none
library_of ((key, library) ∷ rest) platform =
    let found = library_of rest platform in
    if same_platform key platform then some library else found

pub record JobStats : Type 0 where
  pub total_tasks : ℕ
  pub completed_tasks : ℕ
  pub failed_tasks : ℕ
  pub avg_task_completion_time : ℕ

pub data SchedulerRequest : Type 0 where
  hello_message : SchedulerRequest
  new_job : (id : ℕ) → (total_tasks : ℕ) → (job : WorkerJobData) → SchedulerRequest
  task : List WorkerTask → SchedulerRequest

pub data SchedulerResponse : Type 0 where
  task_results : List WorkerResult → SchedulerResponse
  scheduler_busy scheduler_free : SchedulerResponse
  execution_error : Bytes → JobStats → SchedulerResponse
  job_complete : List WorkerResult → JobStats → SchedulerResponse

pub record WorkerInfo : Type 0 where
  pub worker_id : ℕ
  pub subworkers : ℕ
  pub address : ℕ
  pub platform : Platform

pub data NodeManagerRequest : Type 0 where
  node_hello : NodeManagerRequest
  workers_demand :
      (required_workers : Option ℕ) → (supported_platforms : List Platform) → NodeManagerRequest
  release_demand : NodeManagerRequest

pub data NodeManagerResponse : Type 0 where
  created_session restored_session : NodeManagerResponse
  disconnect : ℕ → NodeManagerResponse
  connect : List WorkerInfo → NodeManagerResponse
