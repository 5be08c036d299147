-- ===== src/TaskManager/Job.antt =====
-- task_manager/src/job.rs, task_manager/src/command.rs and task_manager/src/scheduler.rs: the state of a
-- job, the commands of the API, and what the connection reports. A job's id is a number, and text
-- is a list of numbers.
use grid_server.Base.{◌∷◌, [], false, ◌++◌, ℕ, List, Option, Bool}
use grid_server.BitSet.{BitSet}
use grid_server.Messages.{JobStats, SchedulerRequest, SchedulerResponse, Bytes}
use grid_server.MultilevelVecMap.{MultilevelVecMap}
use grid_server.TaskManager.JobData.{JobData}
use grid_server.TaskManager.Splitter.{TaskSplitter}
use grid_server.TaskManager.Reducer.{TaskReducer, Distance}

-- The texts of errors: those of the source, one constructor each, and those that come from outside.
pub data ErrorMessage : Type 0 where
  job_not_serialized task_not_serialized job_cancelled : ErrorMessage
  text : Bytes → ErrorMessage

pub data JobResult : Type 0 where
  completed : (distance : Distance) → (stats : Option JobStats) → JobResult
  error : (error_message : ErrorMessage) → (stats : Option JobStats) → JobResult

pub data JobPhase : Type 0 where
  splitting : TaskSplitter → JobPhase
  waiting_tasks_completions : JobPhase
  reducing : TaskReducer → (minimal : Distance) → JobPhase

-- The fields of `JobState::Started`. A `TaskSet` is a BitSet.
pub record Started : Type 0 where
  pub stats : Option JobStats
  pub parts : List (MultilevelVecMap Distance)
  pub tasks : BitSet
  pub phase : JobPhase

pub data JobState : Type 0 where
  not_started : JobState
  started : Started → JobState
  finished : JobResult → JobState

pub record Job : Type 0 where
  pub id : ℕ
  pub job_data : JobData
  pub state : JobState

-- `add_job` carries the id that `Uuid::new_v4` makes.
pub data Command : Type 0 where
  add_job : JobData → (id : ℕ) → Command
  cancel_job : (id : ℕ) → Command
  finished_jobs queued_jobs current_job : Command

-- What a command returns through its channel.
pub data Reply : Type 0 where
  added : ℕ → Reply
  found : Option Job → Reply
  listed : List Job → Reply

pub data SchedulerEvent : Type 0 where
  connected disconnected connection_not_established : SchedulerEvent
  message : SchedulerResponse → SchedulerEvent

-- The connection, with the requests that were handed to it since it was made.
pub record SchedulerConnection : Type 0 where
  pub ready : Bool
  pub sent : List SchedulerRequest

unfoldable pub connect : SchedulerConnection
connect = record { ready = false; sent = [] }

unfoldable pub send : SchedulerConnection → SchedulerRequest → SchedulerConnection
send c request = record c { sent = c.sent ++ request ∷ [] }

unfoldable pub reconnect : SchedulerConnection → SchedulerConnection
unfolding connect
reconnect c = connect
