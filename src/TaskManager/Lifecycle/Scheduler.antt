-- ===== src/TaskManager/Lifecycle/Scheduler.antt =====
-- The handlers of the scheduler's messages keep the jobs where they belong.
use grid_server.Base.{
  IfReturns-map, ◌≡◌, refl, sym, ◌∙◌, subst, ◌⊎◌, inl, inr, Bool, true, false, Option, none, some,
  List, [], ◌∷◌, ok, ◌>>=◌, IfReturns, IfReturns-bind, returned, IfReturns-then,
}
use grid_server.BitSet
use grid_server.BitSet.{BitCore}
use grid_server.Messages.{
  task_results, scheduler_busy, scheduler_free, execution_error, job_complete, Bytes, WorkerResult,
}
use grid_server.TaskManager.Job.{
  JobPhase, splitting, waiting_tasks_completions, reducing, Started, JobState, not_started, started,
  finished, Job, error, text, SchedulerConnection, SchedulerEvent, connected, disconnected,
  connection_not_established, message, reconnect,
}
use grid_server.TaskManager.Reducer.{TaskResult}
use grid_server.TaskManager.Process.{
  Codec, TaskManager, Flow, continue, break_err, break_ok, with_state,
}
use grid_server.TaskManager.Events.{process_results, deliver, restart, restarted, process_scheduler}
use grid_server.TaskManager.Events.{process_result, insert_result}
use grid_server.TaskManager.Lifecycle.{
  IsCurrent-wake, IsActive, IsWorking, IsCurrent, awake, waits, IsManaged, LeavesManaged,
  with_state-IsManaged,
}

restarted-IsWorking :
    (b : Bool) (state : JobState) → IsWorking b state → IsWorking b (restarted state)
unfolding restarted
restarted-IsWorking b not_started h = tt
restarted-IsWorking b (finished result) h = h
restarted-IsWorking b (started s) h = go s.phase refl
  where
    go :
        (phase : JobPhase)
        → s.phase ≡ phase
        → IsWorking b (elim phase [
          | splitting splitter ↦ not_started
          | waiting_tasks_completions ↦ not_started
          | reducing reducer minimal ↦ started s
        ])
    go (splitting splitter) e = tt
    go waiting_tasks_completions e = tt
    go (reducing reducer minimal) e = h

restart-IsManaged : (m : TaskManager) → IsManaged m → IsManaged (restart m)
unfolding restart
restart-IsManaged m h = go m.current_job refl h.current
  where
    go :
        (current : Option Job)
        → m.current_job ≡ current
        → IsCurrent m.need_process_job current
        → IsManaged (elim current [ none ↦ m | some job ↦ with_state m job (restarted job.state) ])
    go none e w = h
    go (some job) e w =
        with_state-IsManaged m job (restarted job.state) e
          (restarted-IsWorking m.need_process_job job.state w) h

-- The scheduler is not ready any more.
unready-IsManaged :
    (m : TaskManager) (c : SchedulerConnection)
    → c.ready ≡ false
    → IsManaged m
    → IsManaged (record m { scheduler = c })
unready-IsManaged m c e h = record {
  queued = h.queued;
  ended = h.ended;
  current = h.current;
  live = waits e;
}

module _ (core : BitCore) (codec : Codec) where
  process_result-phase :
      (s : Started) (result : WorkerResult)
      → IfReturns
          (λ (out : Flow × Started). out.1.phase ≡ s.phase)
          (process_result core codec s result)
  unfolding process_result
  process_result-phase s result = go (codec.decode_result result.bytes)
    where
      go :
          (decoded : TaskResult ⊎ Bytes)
          → IfReturns
              (λ (out : Flow × Started). out.1.phase ≡ s.phase)
              (elim decoded [
                | inr err ↦ ok (break_ok (error (text err) s.stats), s)
                | inl r ↦ do
                  (removed, tasks) ← BitSet.remove core s.tasks result.id
                  elim removed [
                    | true ↦ do
                      parts ← insert_result s.parts r
                      ok (continue, record s { tasks = tasks; parts = parts })
                    | false ↦ ok (continue, record s { tasks = tasks })
                  ]
              ])
      go (inr err) = returned refl
      go (inl r) = IfReturns-then (BitSet.remove core s.tasks result.id) (λ (removed, tasks).
          elim removed
            as (λ b.
              IfReturns (λ (out : Flow × Started). out.1.phase ≡ s.phase)
                (elim b [
                  | true ↦ do
                    parts ← insert_result s.parts r
                    ok (continue, record s { tasks = tasks; parts = parts })
                  | false ↦ ok (continue, record s { tasks = tasks })
                ])) [
                  | true ↦ IfReturns-then (insert_result s.parts r) (λ parts. returned refl)
                  | false ↦ returned refl
                ])

  process_results-phase :
      (s : Started) (results : List WorkerResult)
      → IfReturns
          (λ (out : Flow × Started). out.1.phase ≡ s.phase)
          (process_results core codec s results)
  unfolding process_results
  process_results-phase s [] = returned refl
  process_results-phase s (result ∷ results) =
      IfReturns-bind (process_result-phase s result)
        (λ (flow, s') e. go flow s' e (process_results-phase s' results))
    where
      go :
          (flow : Flow) (s' : Started)
          → s'.phase ≡ s.phase
          → IfReturns
              (λ (out : Flow × Started). out.1.phase ≡ s'.phase)
              (process_results core codec s' results)
          → IfReturns
              (λ (out : Flow × Started). out.1.phase ≡ s.phase)
              (elim flow [
                | continue ↦ process_results core codec s' results
                | break_err ↦ ok (break_err, s')
                | break_ok job_result ↦ ok (break_ok job_result, s')
              ])
      go continue s' e rest = IfReturns-map rest (λ out same. same ∙ e)
      go break_err s' e rest = returned e
      go (break_ok job_result) s' e rest = returned e

  deliver-IsManaged :
      (m : TaskManager) (before : Started → Started) (results : List WorkerResult)
      → ((s : Started) → (before s).phase ≡ s.phase)
      → IsManaged m
      → IfReturns LeavesManaged (deliver core codec m before results)
  unfolding deliver
  deliver-IsManaged m before results same h = by_current m.current_job refl h.current
    where
      by_state :
          (job : Job)
          → m.current_job ≡ some job
          → (state : JobState) → IsWorking m.need_process_job state
          → IfReturns LeavesManaged (elim state [
            | started s ↦ do
              (flow, s') ← process_results core codec (before s) results
              ok (flow, with_state m job (started s'))
            | _ ↦ ok (continue, m)
          ])
      by_state job e not_started w = returned h
      by_state job e (finished result) w = returned h
      by_state job e (started s) w =
          IfReturns-bind (process_results-phase (before s) results) (λ (flow, s') p. returned (
            with_state-IsManaged m job (started s') e
              (subst (IsActive m.need_process_job) (sym (p ∙ same s)) w) h))

      by_current :
          (current : Option Job)
          → m.current_job ≡ current
          → IsCurrent m.need_process_job current
          → IfReturns LeavesManaged (elim current [
            | none ↦ ok (continue, m)
            | some job ↦ elim job.state [
              | started s ↦ do
                (flow, s') ← process_results core codec (before s) results
                ok (flow, with_state m job (started s'))
              | _ ↦ ok (continue, m)
            ]
          ])
      by_current none e w = returned h
      by_current (some job) e w = by_state job e job.state w

  pub process_scheduler-IsManaged :
      (m : TaskManager) (event : SchedulerEvent)
      → IsManaged m
      → IfReturns LeavesManaged (process_scheduler core codec m event)
  unfolding process_scheduler
  process_scheduler-IsManaged m connected h = returned h
  process_scheduler-IsManaged m disconnected h =
      returned (restart-IsManaged _ (unready-IsManaged m (reconnect m.scheduler) refl h))
  process_scheduler-IsManaged m connection_not_established h = returned h
  process_scheduler-IsManaged m (message (job_complete left stats)) h =
      deliver-IsManaged m (λ s. record s { stats = some stats }) left (λ s. refl) h
  process_scheduler-IsManaged m (message (task_results results)) h =
      deliver-IsManaged m (λ s. s) results (λ s. refl) h
  process_scheduler-IsManaged m (message scheduler_busy) h =
      returned
        (restart-IsManaged _ (unready-IsManaged m (record m.scheduler { ready = false }) refl h))
  process_scheduler-IsManaged m (message scheduler_free) h = returned record {
    queued = h.queued;
    ended = h.ended;
    current = IsCurrent-wake m.need_process_job m.current_job h.current;
    live = awake refl;
  }
  process_scheduler-IsManaged m (message (execution_error err stats)) h = returned h
