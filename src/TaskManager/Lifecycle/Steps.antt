-- ===== src/TaskManager/Lifecycle/Steps.antt =====
-- Every step of the task manager keeps its jobs where they belong.
use grid_server.Base.{
  ℕ, ◌≡◌, refl, ap, subst, inl, inr, Option, none, some, List, [], ◌∷◌, ◌++◌, ◌==◌, if◌then◌else◌,
  Bool-cases, some_inj, IfReturns-ok,
}
use grid_server.BitSet.{BitCore}
use grid_server.Messages.{Bytes}
use grid_server.Platform.{Platform}
use grid_server.TaskManager.JobData.{All, all_nil, all_cons, All-append}
use grid_server.TaskManager.Job.{
  JobResult, not_started, finished, Job, Command, add_job, cancel_job, finished_jobs, queued_jobs,
  error, job_cancelled, current_job, Reply, found,
}
use grid_server.TaskManager.Process.{Codec, TaskManager, Flow, continue, break_err, break_ok}
use grid_server.TaskManager.Events.{
  remove_job, cancel, process_command, finish, stats_of, conclude, new, Step, scheduler_event,
  command, job_processed, Reachable, start, then_step,
}
use grid_server.TaskManager.Lifecycle.Scheduler.{process_scheduler-IsManaged}
use grid_server.TaskManager.Lifecycle.{
  IsCurrent-wake, awake, waits, idle, IsManaged, LeavesManaged, process_job-IsManaged,
}

-- `finish` keeps the state managed.
finish-IsManaged :
    (m : TaskManager) (result : JobResult) → IsManaged m → IsManaged (finish m result)
unfolding finish
finish-IsManaged m result h = go m.current_job refl
  where
    go :
        (current : Option Job)
        → m.current_job ≡ current
        → IsManaged (elim current [
          | none ↦ m
          | some job ↦ record m {
            current_job = none;
            jobs_finished = m.jobs_finished ++ record job { state = finished result } ∷ [];
          }
        ])
    go none e = h
    go (some job) e = record {
      queued = h.queued;
      ended = All-append h.ended (all_cons (result, refl) all_nil);
      current = tt;
      live = elim h.live [ awake a ↦ awake a | waits w ↦ waits w | idle c q ↦ absurd (cc (c, e)) ];
    }

conclude-IsManaged :
    (out : Flow × TaskManager) (m' : TaskManager)
    → LeavesManaged out
    → conclude out ≡ some m'
    → IsManaged m'
unfolding conclude
conclude-IsManaged (continue, m) m' h e = subst IsManaged (some_inj e) h
conclude-IsManaged (break_err, m) m' h e = absurd (cc e)
conclude-IsManaged (break_ok result, m) m' h e =
    subst IsManaged (some_inj e) (finish-IsManaged m result h)

remove_job-All :
    (jobs : List Job) (id : ℕ)
    → All (λ job. job.state ≡ not_started) jobs
    → All (λ job. job.state ≡ not_started) (remove_job jobs id).1
unfolding remove_job
remove_job-All [] id all_nil = all_nil
remove_job-All (job ∷ jobs) id (all_cons s a) = elim (Bool-cases (job.id == id)) [
  | inl e ↦ rw e a
  | inr e ↦ rw e (all_cons s (remove_job-All jobs id a))
]

-- Without a job of the queue the state is managed as before.
removed-IsManaged :
    (m : TaskManager) (id : ℕ)
    → IsManaged m
    → IsManaged (record m { jobs_queue = (remove_job m.jobs_queue id).1 })
unfolding remove_job
removed-IsManaged m id h = record {
  queued = remove_job-All m.jobs_queue id h.queued;
  ended = h.ended;
  current = h.current;
  live = elim h.live [
    | awake a ↦ awake a
    | waits w ↦ waits w
    | idle c q ↦ idle c (ap (λ jobs. (remove_job jobs id).1) q)
  ];
}

cancel-IsManaged : (m : TaskManager) (id : ℕ) → IsManaged m → IsManaged (cancel m id).2
unfolding cancel
cancel-IsManaged m id h = go m.current_job
  where
    go :
        (current : Option Job)
        → IsManaged
            (elim current as (λ c. Flow × Reply × TaskManager) [
              | none ↦ (
                continue,
                found (remove_job m.jobs_queue id).0,
                record m { jobs_queue = (remove_job m.jobs_queue id).1 },
              )
              | some job ↦
                  if job.id == id
                  then (break_ok (error job_cancelled (stats_of job.state)), found (some job), m)
                  else (
                    continue,
                    found (remove_job m.jobs_queue id).0,
                    record m { jobs_queue = (remove_job m.jobs_queue id).1 },
                  )
            ]).2
    go none = removed-IsManaged m id h
    go (some job) = elim (Bool-cases (job.id == id)) [
      | inl e ↦ rw e h
      | inr e ↦ rw e (removed-IsManaged m id h)
    ]

process_command-IsManaged :
    (m : TaskManager) (c : Command) → IsManaged m → IsManaged (process_command m c).2
unfolding process_command
process_command-IsManaged m (add_job job_data id) h = record {
  queued = All-append h.queued (all_cons refl all_nil);
  ended = h.ended;
  current = IsCurrent-wake m.need_process_job m.current_job h.current;
  live = awake refl;
}
process_command-IsManaged m (cancel_job id) h = cancel-IsManaged m id h
process_command-IsManaged m finished_jobs h = h
process_command-IsManaged m queued_jobs h = h
process_command-IsManaged m current_job h = h

module _ (core : BitCore) (codec : Codec) (libraries : List (Platform × Bytes)) where
  Step-IsManaged :
      {m m' : TaskManager} → Step core codec libraries m m' → IsManaged m → IsManaged m'
  Step-IsManaged {m' = m'} (scheduler_event event flow after e c) h =
      conclude-IsManaged (flow, after) m'
        (IfReturns-ok (flow, after) (process_scheduler-IsManaged core codec _ event h) e) c
  Step-IsManaged {m} {m' = m'} (command c flow reply after e k) h =
      conclude-IsManaged (flow, after) m'
        (subst IsManaged (ap (λ (out : Flow × Reply × TaskManager). out.2) e)
          (process_command-IsManaged m c h))
        k
  Step-IsManaged {m' = m'} (job_processed flow after need e c) h =
      conclude-IsManaged (flow, after) m'
        (IfReturns-ok (flow, after) (process_job-IsManaged core codec libraries _ need h) e) c

  -- In every state that a run of the task manager reaches from its start, the jobs in the queue
  -- have not started, those in the list of finished jobs are finished, the current job is not
  -- finished, and no job is left without a wake-up: the loop is awake, or the scheduler is not
  -- ready, or there is neither a current job nor a queued one; while a job is reduced the loop is
  -- awake.
  pub Reachable-IsManaged : {m : TaskManager} → Reachable core codec libraries m → IsManaged m
  unfolding new
  Reachable-IsManaged start = record {
    queued = all_nil;
    ended = all_nil;
    current = tt;
    live = idle refl refl;
  }
  Reachable-IsManaged (then_step reach s) = Step-IsManaged s (Reachable-IsManaged reach)
