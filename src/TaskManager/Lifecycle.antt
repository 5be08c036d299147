-- ===== src/TaskManager/Lifecycle.antt =====
-- The states that the task manager reaches: where its jobs are, and that none is forgotten.
pub mod Scheduler
pub mod Steps
use grid_server.Base.{
  returned, ℕ, zero, suc, ◌+◌, ◌-◌, ◌*◌, ◌/◌, ◌%◌, ◌^◌, ◌≤◌, ◌<◌, min, ◌≡◌, refl, sym, ap, ◌∙◌,
  subst, ◌≢◌, ◌↔◌, ◌⊎◌, inl, inr, Bool, true, false, not, ◌&&◌, ◌||◌, Option, none, some, List, [],
  ◌∷◌, ◌++◌, map, arith, ltb, leb, ◌==◌, if◌then◌else◌, ==_iff, Bool-cases, Option-cases, if_app,
  ==_refl, some_inj, length, get_elem?, get_or, set, take, replicate, length-append, length-set,
  length-take, length-replicate, get_elem?-set, get_elem?-append, get_elem?-some, get_or-set,
  append_assoc, append_nil, Run, ok, panic, undefined, out_of_fuel, or_else, ◌>>=◌, checked_sub,
  Returns, returns, Returns-inv, Returns-if, Returns-map, Returns-bind, Returns-ok, Guarded,
  Guarded-inv, Guarded-bind, Guarded-map, Guarded-if, Returns-then, IfReturns, IfReturns-bind,
  IfReturns-then, IfReturns-ok,
}
use grid_server.BitSet
use grid_server.BitSet.{BitCore}
use grid_server.Messages.{
  SchedulerRequest, SchedulerResponse, task_results, scheduler_busy, scheduler_free,
  execution_error, task, job_complete, Bytes, WorkerResult,
}
use grid_server.Platform.{Platform}
use grid_server.TaskManager.JobData.{All, all_nil, all_cons}
use grid_server.TaskManager.Job.{
  JobResult, JobPhase, splitting, waiting_tasks_completions, reducing, Started, JobState,
  not_started, started, finished, Job, Command, add_job, cancel_job, finished_jobs, queued_jobs,
  current_job, Reply, SchedulerEvent, connected, disconnected, connection_not_established, message,
  send, reconnect, connect,
}
use grid_server.TaskManager.Splitter
use grid_server.TaskManager.Splitter.{TaskSplitter}
use grid_server.TaskManager.Reducer
use grid_server.TaskManager.Reducer.{TaskReducer, Distance}
use grid_server.TaskManager.Process.{
  Codec, TaskManager, Flow, continue, break_err, break_ok, with_state, process_job, start_job,
  split_job, wait_job, reduce_job, next_job, process_phase, wait_ready, encode_tasks,
}
use grid_server.TaskManager.Events.{
  process_results, deliver, restart, restarted, process_scheduler, remove_job, cancel,
  process_command, finish, conclude, new, Step, scheduler_event, command, job_processed, Reachable,
  start, then_step,
}

abbrev pub IsActive : Bool → JobPhase → Type 0
IsActive awake (splitting splitter) = Unit
IsActive awake waiting_tasks_completions = Unit
IsActive awake (reducing reducer minimal) = awake ≡ true

-- A job that is being worked on is not finished, and wakes the loop while it is reduced.
abbrev pub IsWorking : Bool → JobState → Type 0
IsWorking awake not_started = Unit
IsWorking awake (started s) = IsActive awake s.phase
IsWorking awake (finished result) = ⊥

abbrev pub IsCurrent : Bool → Option Job → Type 0
IsCurrent awake none = Unit
IsCurrent awake (some job) = IsWorking awake job.state

IsActive-wake : (b : Bool) (phase : JobPhase) → IsActive b phase → IsActive true phase
IsActive-wake b (splitting splitter) h = tt
IsActive-wake b waiting_tasks_completions h = tt
IsActive-wake b (reducing reducer minimal) h = refl

-- Waking the loop takes nothing from the current job.
pub IsCurrent-wake :
    (b : Bool) (current : Option Job) → IsCurrent b current → IsCurrent true current
IsCurrent-wake b none h = tt
IsCurrent-wake b (some job) h = go job.state h
  where
    go : (state : JobState) → IsWorking b state → IsWorking true state
    go not_started h = tt
    go (started s) h = IsActive-wake b s.phase h
    go (finished result) h = h

-- Either the loop is awake, or it waits for the scheduler, or there is nothing to do.
pub data IsAwake (m : TaskManager) : Type 0 where
  awake : m.need_process_job ≡ true → IsAwake m
  waits : m.scheduler.ready ≡ false → IsAwake m
  idle : m.current_job ≡ none → m.jobs_queue ≡ [] → IsAwake m

pub record IsManaged (m : TaskManager) : Type 0 where
  pub queued : All (λ job. job.state ≡ not_started) m.jobs_queue
  pub ended : All (λ job. (result : JobResult) × (job.state ≡ finished result)) m.jobs_finished
  pub current : IsCurrent m.need_process_job m.current_job
  pub live : IsAwake m

pub with_state-IsManaged :
    (m : TaskManager) (job : Job) (state : JobState)
    → m.current_job ≡ some job
    → IsWorking m.need_process_job state
    → IsManaged m
    → IsManaged (with_state m job state)
with_state-IsManaged m job state e working h = record {
  queued = h.queued;
  ended = h.ended;
  current = working;
  live = elim h.live [ awake a ↦ awake a | waits w ↦ waits w | idle c q ↦ absurd (cc (c, e)) ];
}

sent-IsManaged :
    (m : TaskManager) (request : SchedulerRequest)
    → IsManaged m
    → IsManaged (record m { scheduler = send m.scheduler request })
unfolding send
sent-IsManaged m request h = record {
  queued = h.queued;
  ended = h.ended;
  current = h.current;
  live = elim h.live [ awake a ↦ awake a | waits w ↦ waits w | idle c q ↦ idle c q ];
}

wait_ready-IsManaged :
    (m : TaskManager)
    → not m.scheduler.ready ≡ true
    → IsCurrent false m.current_job
    → IsManaged m
    → IsManaged (wait_ready m).1
unfolding wait_ready
wait_ready-IsManaged m unready fits h = record {
  queued = h.queued;
  ended = h.ended;
  current = fits;
  live = waits (ground arith);
}

-- What a handler leaves behind is managed.
abbrev pub LeavesManaged : Flow × TaskManager → Type 0
LeavesManaged out = IsManaged out.1

module _ (core : BitCore) (codec : Codec) (libraries : List (Platform × Bytes)) where
  start_job-IsManaged :
      (m : TaskManager) (job : Job)
      → m.current_job ≡ some job
      → job.state ≡ not_started
      → IsManaged m
      → IfReturns LeavesManaged (start_job codec libraries m job)
  unfolding start_job
  start_job-IsManaged m job e s h = elim (Bool-cases (not m.scheduler.ready)) [
    | inl unready ↦ rw unready (returned (wait_ready-IsManaged m unready (rw e (rw s tt)) h))
    | inr ready ↦ rw ready (elim (Option-cases (codec.encode_job job.job_data)) [
      | inl failed ↦ rw failed (returned h)
      | inr (args, encoded) ↦ rw encoded (
          IfReturns-then _ (λ parts.
            returned (with_state-IsManaged _ job (started _) e tt (sent-IsManaged m _ h))))
    ])
  ]

  split_job-IsManaged :
      (m : TaskManager) (job : Job) (s : Started) (splitter : TaskSplitter)
      → m.current_job ≡ some job
      → job.state ≡ started s
      → s.phase ≡ splitting splitter
      → IsManaged m
      → LeavesManaged (split_job core codec m job s splitter)
  unfolding split_job
  split_job-IsManaged m job s splitter e a p h = elim (Bool-cases (not m.scheduler.ready)) [
    | inl unready ↦ rw unready (wait_ready-IsManaged m unready (rw e (rw a (rw p tt))) h)
    | inr ready ↦ rw ready (
        let (full, batch, rest) = Splitter.next_chunk 128 splitter in
        elim (Option-cases (encode_tasks core codec s.tasks batch).0) [
          | inl failed ↦ rw failed (with_state-IsManaged m job (started _) e tt h)
          | inr (workers_tasks, encoded) ↦
              rw encoded
                (elim full
                  as (λ b. IsManaged (
                    with_state (record m { scheduler = send m.scheduler (task workers_tasks) }) job
                      (started record s {
                        tasks = (encode_tasks core codec s.tasks batch).1;
                        phase = if b then splitting rest else waiting_tasks_completions;
                      }))) [
                        | true ↦ with_state-IsManaged _ job (started _) e tt (sent-IsManaged m _ h)
                        | false ↦ with_state-IsManaged _ job (started _) e tt (sent-IsManaged m _ h)
                      ])
        ])
  ]

  wait_job-IsManaged :
      (m : TaskManager) (job : Job) (s : Started)
      → m.current_job ≡ some job
      → job.state ≡ started s
      → s.phase ≡ waiting_tasks_completions
      → m.need_process_job ≡ true
      → IsManaged m
      → LeavesManaged (wait_job m job s)
  unfolding wait_job
  wait_job-IsManaged m job s e a p need h = elim (Bool-cases (not m.scheduler.ready)) [
    | inl unready ↦ rw unready (wait_ready-IsManaged m unready (rw e (rw a (rw p tt))) h)
    | inr ready ↦ rw ready (elim (Bool-cases (BitSet.is_empty s.tasks)) [
      | inl empty ↦ rw empty (with_state-IsManaged m job (started _) e need h)
      | inr more ↦ rw more h
    ])
  ]

  reduce_job-IsManaged :
      (m : TaskManager) (job : Job) (s : Started) (reducer : TaskReducer) (minimal : Distance)
      → m.current_job ≡ some job
      → m.need_process_job ≡ true
      → IsManaged m
      → IfReturns LeavesManaged (reduce_job core m job s reducer minimal)
  unfolding reduce_job
  reduce_job-IsManaged m job s reducer minimal e need h =
      IfReturns-then (Reducer.next_chunk core 128 reducer) (λ (full, distances, rest).
        elim (Bool-cases full) [
          | inl more ↦ rw more (returned (with_state-IsManaged m job (started _) e need h))
          | inr done ↦ rw done (returned (with_state-IsManaged m job (started _) e need h))
        ])

  next_job-IsManaged :
      (m : TaskManager) → m.current_job ≡ none → IsManaged m → LeavesManaged (next_job m)
  unfolding next_job
  next_job-IsManaged m e h = go m.jobs_queue refl h.queued
    where
      go :
          (jobs : List Job)
          → m.jobs_queue ≡ jobs
          → All (λ job. job.state ≡ not_started) jobs
          → LeavesManaged (elim jobs [
            | [] ↦ (continue, record m { need_process_job = false })
            | job ∷ rest ↦ (
              continue,
              record m { jobs_queue = rest; current_job = some job; need_process_job = true },
            )
          ])
      go [] q a = record { queued = h.queued; ended = h.ended; current = rw e tt; live = idle e q }
      go (job ∷ rest) q (all_cons s a) = record {
        queued = a;
        ended = h.ended;
        current = rw s tt;
        live = awake refl;
      }

  pub process_job-IsManaged :
      (m : TaskManager)
      → m.need_process_job ≡ true
      → IsManaged m
      → IfReturns LeavesManaged (process_job core codec libraries m)
  unfolding process_job process_phase
  process_job-IsManaged m need h = by_current m.current_job refl
    where
      by_phase :
          (job : Job) (s : Started)
          → m.current_job ≡ some job
          → job.state ≡ started s
          → (phase : JobPhase) → s.phase ≡ phase
          → IfReturns LeavesManaged (process_phase core codec m job s phase)
      by_phase job s e a (splitting splitter) p =
          returned (split_job-IsManaged m job s splitter e a p h)
      by_phase job s e a waiting_tasks_completions p =
          returned (wait_job-IsManaged m job s e a p need h)
      by_phase job s e a (reducing reducer minimal) p =
          reduce_job-IsManaged m job s reducer minimal e need h

      by_state :
          (job : Job)
          → m.current_job ≡ some job
          → (state : JobState) → job.state ≡ state
          → IfReturns LeavesManaged (elim state [
            | not_started ↦ start_job codec libraries m job
            | started s ↦ process_phase core codec m job s s.phase
            | finished result ↦ ok (continue, m)
          ])
      by_state job e not_started a = start_job-IsManaged m job e a h
      by_state job e (started s) a = by_phase job s e a s.phase refl
      by_state job e (finished result) a = returned h

      by_current :
          (current : Option Job)
          → m.current_job ≡ current
          → IfReturns LeavesManaged (elim current [
            | none ↦ ok (next_job m)
            | some job ↦ elim job.state [
              | not_started ↦ start_job codec libraries m job
              | started s ↦ process_phase core codec m job s s.phase
              | finished result ↦ ok (continue, m)
            ]
          ])
      by_current none e = returned (next_job-IsManaged m e h)
      by_current (some job) e = by_state job e job.state refl
