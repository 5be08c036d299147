-- ===== src/TaskManager/JobTests.antt =====
-- The theorems on jobs, at a job of one taxi.
use grid_server.Base.{
  ℕ, zero, suc, ◌-◌, ◌^◌, ◌≡◌, refl, inl, true, false, none, some, List, [], ◌∷◌, arith, ok,
  Returns,
}
use grid_server.BitSet
use grid_server.BitSet.{BitSet}
use grid_server.BitSet.Core.{words, words-Laws, word_bit, with_bit}
use grid_server.BitSet.Members.{IsCounted}
use grid_server.Messages.{WorkerResult, WorkerTask}
use grid_server.MultilevelVecMap
use grid_server.MultilevelVecMap.{MultilevelVecMap, empty, value, level, Entries, nil, cons}
use grid_server.MultilevelVecMap.Insert.{IsNested}
use grid_server.MultilevelVecMap.Slots.{AreEntries}
use grid_server.TaskManager.JobData.{JobData}
use grid_server.TaskManager.Job.{
  Job, Started, not_started, waiting_tasks_completions, splitting, reducing, started, add_job,
  added,
}
use grid_server.TaskManager.Splitter
use grid_server.TaskManager.Splitter.{TaskSplitter, TaskData}
use grid_server.TaskManager.Reducer
use grid_server.TaskManager.Reducer.{TaskReducer, TaskResult, Distance}
use grid_server.TaskManager.Process.{Codec, TaskManager, continue, with_state}
use grid_server.TaskManager.Events.{
  conclude, new, process_command, process_result, Reachable, start, then_step, command,
}
use grid_server.TaskManager.Lifecycle.{IsManaged}
use grid_server.TaskManager.Lifecycle.Steps.{Reachable-IsManaged}
use grid_server.TaskManager.Results.{Recorded, process_result-Recorded}
use grid_server.TaskManager.Splitting.{
  Encoded, nothing, one, SentAll, run_rounds, run_rounds-SentAll, drain-Yields,
}
use grid_server.TaskManager.Reducing.{
  IsLeast, Yields, ended, yielded, Completes, run_job, run_job-Completes,
}

abbrev job_data : JobData
job_data = record { graph = (0 ∷ []) ∷ []; taxies = 0 ∷ []; passengers = (0, 0) ∷ (0, 0) ∷ [] }

abbrev job : Job
job = record { id = 7; job_data = job_data; state = not_started }

-- A result of taxi 0 for the passengers 0 and 1, each alone.
abbrev task_result : TaskResult
task_result = record { taxi = 0; result = ((1, 5), (2, 6)) }

abbrev codec : Codec
codec = record {
  encode_job = λ job_data. some [];
  encode_task = λ item. some (item.taxi ∷ []);
  decode_result = λ bytes. inl task_result;
}

-- The state after one job was added.
abbrev with_one_job : TaskManager
with_one_job = record {
  scheduler = record { ready = false; sent = [] };
  jobs_finished = [];
  jobs_queue = job ∷ [];
  current_job = none;
  need_process_job = true;
}

with_one_job-Reachable : Reachable words codec [] with_one_job
unfolding new process_command conclude
with_one_job-Reachable =
    then_step start (command (add_job job_data 7) continue (added 7) _ refl refl)

Reachable-IsManaged_example : IsManaged with_one_job
Reachable-IsManaged_example = Reachable-IsManaged words codec [] with_one_job-Reachable

-- The distance 5 under the first passenger.
abbrev values : Entries Distance
values = cons (value 5) nil

abbrev part : MultilevelVecMap Distance
part = record { n = 1; levels_idx = 1; vec = cons (level nil) (cons (level values) nil) }

abbrev state : Started
state = record {
  stats = none;
  parts = part ∷ [];
  tasks = record { len = 1; inner = 8 ∷ [] };
  phase = waiting_tasks_completions;
}

values-AreEntries : AreEntries 0 values
unfolding MultilevelVecMap.nth_or MultilevelVecMap.nth
values-AreEntries zero = tt
values-AreEntries (suc i) = tt

part-IsNested : IsNested part
unfolding MultilevelVecMap.nth_or MultilevelVecMap.nth
part-IsNested zero = λ i. tt
part-IsNested (suc zero) = values-AreEntries
part-IsNested (suc (suc i)) = λ j. tt

state-IsCounted : IsCounted words words-Laws state.tasks
unfolding BitSet.iter word_bit
state-IsCounted = refl

abbrev result : WorkerResult
result = record { id = 3; execution_time = 10; bytes = [] }

process_result-Recorded_example :
    Returns
      (Recorded words words-Laws codec state result task_result part)
      (process_result words codec state result)
process_result-Recorded_example =
    process_result-Recorded words words-Laws codec state result task_result part refl
      state-IsCounted refl part-IsNested (omega arith)

abbrev splitter : TaskSplitter
splitter = record { n = 0; taxies = 1; cur_taxi = 0; max = 3; mid = 2; cur = 2 }

new-splitter : Splitter.new 1 2 ≡ splitter
unfolding Splitter.new
new-splitter = refl

abbrev two_tasks : List (ℕ × TaskData)
two_tasks =
    (0, record { taxi = 0; combinations = (2, 1) })
    ∷ (1, record { taxi = 0; combinations = (3, 0) })
    ∷ []

abbrev two_encoded : List WorkerTask
two_encoded = record { id = 0; bytes = 0 ∷ [] } ∷ record { id = 1; bytes = 0 ∷ [] } ∷ []

two_tasks-drain : Splitter.drain 4 splitter ≡ ok two_tasks
unfolding Splitter.drain
two_tasks-drain = refl

two_tasks-Encoded : Encoded codec two_tasks two_encoded
two_tasks-Encoded = one 0 _ (0 ∷ []) refl (one 1 _ (0 ∷ []) refl nothing)

abbrev empty_state : Started
empty_state = record {
  stats = none;
  parts = part ∷ [];
  tasks = record { len = 0; inner = [] };
  phase = waiting_tasks_completions;
}

empty_state-IsCounted : IsCounted words words-Laws empty_state.tasks
unfolding BitSet.iter
empty_state-IsCounted = refl

abbrev ready : TaskManager
ready = record with_one_job { scheduler = record { ready = true; sent = [] } }

run_rounds-SentAll_example :
    Returns (SentAll words words-Laws codec ready job empty_state two_tasks two_encoded) (
      run_rounds words codec [] 1
        (with_state ready job (started record empty_state { phase = splitting splitter })))
run_rounds-SentAll_example =
    run_rounds-SentAll words words-Laws codec [] 0 ready job empty_state splitter two_tasks
      two_encoded (drain-Yields 4 splitter two_tasks two_tasks-drain) two_tasks-Encoded
      empty_state-IsCounted refl (omega arith) (omega arith)

abbrev reducer : TaskReducer
reducer = record {
  min = 2 ^ 64 - 1;
  buf = (0 ∷ []) ∷ [];
  combinations = record { n = 1; taxies = 1; passengers = 1 };
  completed_parts = part ∷ [];
}

reducer-Yields : Yields words reducer (5 ∷ [])
unfolding Reducer.next MultilevelVecMap.get word_bit with_bit
reducer-Yields =
    yielded 5 (record reducer { combinations = record { n = 0; taxies = 1; passengers = 1 } }) refl
      (ended _ refl)

run_job-Completes_example :
    Returns
      (λ out. (d : Distance) × IsLeast 100 (5 ∷ []) d × Completes words codec [] ready d none out)
      (run_job words codec [] 1
        (with_state ready job (started record state { phase = reducing reducer 100 })))
run_job-Completes_example =
    run_job-Completes words codec [] 1 ready job state reducer 100 (5 ∷ []) reducer-Yields
      (omega arith)
