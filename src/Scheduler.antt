-- ===== src/Scheduler.antt =====
-- scheduler/src/scheduler.rs: the workers and tasks that the scheduler keeps, and its state. Arithmetic
-- is that of a release build: it wraps.
pub mod Guards
pub mod Laws
pub mod Sound
pub mod Capacity
pub mod Delivery
pub mod Late
pub mod Disconnect
mod Tests
pub mod Assign
pub mod Results
pub mod Errors
pub mod Events
use grid_server.Base.{
  ℕ, ◌+◌, ◌-◌, ◌%◌, ◌^◌, Bool, true, false, not, ◌&&◌, ◌||◌, Option, none, some, List, [], ◌∷◌,
  ◌++◌, Run, ok, ◌>>=◌, length, ltb, ◌==◌, if◌then◌else◌,
}
use grid_server.Buffer
use grid_server.Buffer.{Buffer}
use grid_server.Messages.{
  Bytes, WorkerTask, WorkerResult, WorkerRequest, WorkerJobData, SchedulerResponse,
  NodeManagerRequest, WorkerInfo,
}
use grid_server.Platform.{Platform}
use grid_server.PriorityQueue
use grid_server.PriorityQueue.{PriorityQueue, vec_swap_remove}
use grid_server.VecMap
use grid_server.VecMap.{VecMap}

-- `a - b` on `usize` and on `u128`.
unfoldable pub sub_usize : ℕ → ℕ → ℕ
sub_usize a b = (a + 2 ^ 64 - b) % 2 ^ 64

unfoldable pub sub_u128 : ℕ → ℕ → ℕ
sub_u128 a b = (a + 2 ^ 128 - b) % 2 ^ 128

unfoldable pub add_u128 : ℕ → ℕ → ℕ
add_u128 a b = (a + b) % 2 ^ 128

abbrev pub bool_count : Bool → ℕ
bool_count true = 1
bool_count false = 0

pub record Worker : Type 0 where
  pub id : ℕ
  pub subworkers : ℕ
  pub platform : Platform
  pub has_job_data : Bool
  pub address : ℕ
  pub replacements : List ℕ
  pub assignments : List ℕ

unfoldable pub priority : Worker → ℕ
priority w = sub_usize w.subworkers (length w.assignments)

unfoldable pub can_accept : Worker → ℕ
can_accept w = sub_usize w.subworkers (length w.assignments + length w.replacements)

abbrev pub need_replace : Worker → ℕ
need_replace w = length w.replacements

-- `Max::cmp_priority`, by `partial_cmp`.
unfoldable pub worker_less : Worker → Worker → Bool
unfolding priority
worker_less lower larger =
    ltb (priority lower) (priority larger)
    || (priority lower == priority larger) && not lower.has_job_data && larger.has_job_data

pub record Task : Type 0 where
  pub task_data : WorkerTask
  pub failed_executions : ℕ
  pub assignments : List ℕ

abbrev pub has_assignments : Task → Bool
has_assignments t = not (length t.assignments == 0)

-- `Min::cmp_priority`, by `partial_cmp`.
unfoldable pub fewer : Task → Task → Bool
fewer lower larger = ltb (length larger.assignments) (length lower.assignments)

pub record ScheduledJob : Type 0 where
  pub total_tasks : ℕ
  pub scheduled_tasks : ℕ
  pub received_tasks : ℕ
  pub completed_tasks : ℕ
  pub failed_tasks : ℕ
  pub avg_task_completion_time : ℕ
  pub job : WorkerJobData
  pub id : ℕ

-- What the scheduler's connections are asked to do. A node's handle is a number; dropping the
-- handle cancels its connection.
pub data Message : Type 0 where
  to_task_manager : SchedulerResponse → Message
  to_node_manager : NodeManagerRequest → Message
  to_worker : ℕ → WorkerRequest → Message
  connect_node : WorkerInfo → Message
  connect_node_manager : Message
  cancelled : ℕ → Message

pub record Scheduler : Type 0 where
  pub scheduled_job : Option ScheduledJob
  pub task_manager : Option ℕ
  pub node_manager : Bool
  pub nodes : VecMap ℕ
  pub tasks_queue : PriorityQueue Task
  pub workers_queue : PriorityQueue Worker
  pub results_buffer : Buffer WorkerResult 200
  pub need_schedule : Bool
  pub failed_executions_limit : ℕ
  -- The messages sent so far.
  pub sent : List Message

-- `ids.iter().position(|x| x == id)`
unfoldable pub position : List ℕ → ℕ → Option ℕ
position [] id = none
position (x ∷ ids) id =
    let rest : Option ℕ = elim (position ids id) [ none ↦ none | some pos ↦ some (pos + 1) ] in
    if x == id then some 0 else rest

-- The id's position in `searched`, removed from `ids`: whether a removal ran, and what it leaves.
unfoldable pub remove_found : List ℕ → List ℕ → ℕ → Run (Bool × List ℕ)
unfolding position
remove_found searched ids id = elim (position searched id) [
  | none ↦ ok (false, ids)
  | some pos ↦ do (_, rest) ← vec_swap_remove ids pos; ok (true, rest)
]

abbrev pub send : Message → Scheduler → Scheduler
send message s = record s { sent = s.sent ++ message ∷ [] }

unfoldable pub cancelled_nodes : List ℕ → List Message
cancelled_nodes [] = []
cancelled_nodes (node ∷ nodes) = cancelled node ∷ cancelled_nodes nodes

-- `nodes.clear()`
unfoldable pub clear_nodes : Scheduler → Scheduler
unfolding cancelled_nodes
clear_nodes s = record s {
  nodes = VecMap.clear s.nodes;
  sent = s.sent ++ cancelled_nodes (VecMap.into_iter s.nodes);
}

-- The initial state, before any connection.
unfoldable pub new : ℕ → Scheduler
new limit = record {
  scheduled_job = none;
  task_manager = none;
  node_manager = false;
  nodes = VecMap.new;
  tasks_queue = PriorityQueue.new;
  workers_queue = PriorityQueue.new;
  results_buffer = Buffer.new;
  need_schedule = false;
  failed_executions_limit = limit;
  sent = [];
}
