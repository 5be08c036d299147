-- ===== src/Scheduler/Sound/Errors.antt =====
-- scheduler/src/scheduler.rs: the handlers of a worker's errors keep the state sound.
use grid_server.Base.{
  length, some_inj, subst, ℕ, ◌≡◌, refl, inl, inr, Bool, true, false, Option, none, some, List, [],
  ◌∷◌, Guarded, guarded, Guarded-bind, Guarded-if, Option-cases, Bool-cases, ◌==◌,
}
use grid_server.Messages.{Bytes}
use grid_server.PriorityQueue.Index.{IsIndexed}
use grid_server.Scheduler.{sub_usize, Scheduler, ScheduledJob, Task, fewer, worker_less}
use grid_server.Scheduler.Errors.{
  Withdrawing, Body, library_missing_body, no_free_executors_body, fail_task, give_up,
  execution_error_body, leave, withdraw, withdraw_tasks, withdraw_replacements, with_worker,
  process_library_missing, process_no_free_executors, process_task_execution_error,
}
use grid_server.Scheduler.Laws.{
  fewer-IsPriority, worker_less-IsPriority, Always, remove_found-Guarded, with_ref_mut-Guarded,
}
use grid_server.Scheduler.Sound.{IsSound}

abbrev HasIndex : Withdrawing → Type 0
HasIndex s = IsIndexed s.tasks_queue

leave-HasIndex :
    (s : Withdrawing) (searched : List ℕ) (task_id : ℕ)
    → HasIndex s
    → Guarded HasIndex (leave s searched task_id)
unfolding leave
leave-HasIndex s searched task_id inv =
    Guarded-bind (remove_found-Guarded searched s.worker.assignments task_id)
      λ (removed, rest) _. guarded inv

withdraw-HasIndex :
    (s : Withdrawing) (worker_id task_id : ℕ) (replaced : Option ℕ)
    → HasIndex s
    → Guarded HasIndex (withdraw s worker_id task_id replaced)
unfolding withdraw
withdraw-HasIndex s worker_id task_id replaced inv =
    Guarded-bind
      (with_ref_mut-Guarded fewer fewer-IsPriority Always s.tasks_queue task_id none _ inv refl
        λ task.
          Guarded-bind (remove_found-Guarded task.assignments task.assignments worker_id)
            λ (modified, rest) _. guarded refl)
      λ (q, found) (kept, _). elim (Option-cases found) [
        | inl e ↦
            rw e (leave-HasIndex (record s { tasks_queue = q }) s.worker.replacements task_id kept)
        | inr (job, e) ↦ rw e (
            Guarded-bind
              (leave-HasIndex (record s { tasks_queue = q; job = job }) s.worker.assignments task_id
                kept)
              λ left k. elim (Option-cases replaced) [
                | inl f ↦ rw f (guarded k)
                | inr (id, f) ↦ rw f (guarded k)
              ])
      ]

withdraw_tasks-HasIndex :
    (s : Withdrawing) (worker_id : ℕ) (ids : List ℕ)
    → HasIndex s
    → Guarded HasIndex (withdraw_tasks s worker_id ids)
unfolding withdraw_tasks
withdraw_tasks-HasIndex s worker_id [] inv = guarded inv
withdraw_tasks-HasIndex s worker_id (id ∷ ids) inv =
    Guarded-bind (withdraw-HasIndex s worker_id id none inv)
      λ s' k. withdraw_tasks-HasIndex s' worker_id ids k

withdraw_replacements-HasIndex :
    (s : Withdrawing) (worker_id : ℕ) (pairs : List (ℕ × ℕ))
    → HasIndex s
    → Guarded HasIndex (withdraw_replacements s worker_id pairs)
unfolding withdraw_replacements
withdraw_replacements-HasIndex s worker_id [] inv = guarded inv
withdraw_replacements-HasIndex s worker_id ((replaced, id) ∷ pairs) inv =
    Guarded-bind (withdraw-HasIndex s worker_id id (some replaced) inv)
      λ s' k. withdraw_replacements-HasIndex s' worker_id pairs k

-- What a handler's body has to leave, and what runs after it.
abbrev Ends : Withdrawing × (Scheduler → Scheduler) → Type 0
Ends (end, after) = HasIndex end × ((s : Scheduler) → IsSound s → IsSound (after s))

abbrev Done : Option (Withdrawing × (Scheduler → Scheduler)) → Type 0
Done r = (end : Withdrawing × (Scheduler → Scheduler)) → r ≡ some end → Ends end

with_worker-IsSound :
    (s : Scheduler) (worker_id : ℕ) (body : Body)
    → IsSound s
    → ((job : ScheduledJob) (start : Withdrawing) → HasIndex start → Guarded Ends (body job start))
    → Guarded IsSound (with_worker s worker_id body)
unfolding with_worker
with_worker-IsSound s worker_id body i h = elim (Option-cases s.scheduled_job) [
  | inl e ↦ rw (e, with_worker) (guarded i)
  | inr (job, e) ↦
      rw (e, with_worker)
        (Guarded-bind
          (with_ref_mut-Guarded worker_less worker_less-IsPriority Done s.workers_queue worker_id
            none _ i.workers (λ end f. absurd (cc f))
            λ worker.
              Guarded-bind (h job _ i.tasks)
                λ (end, after) k. guarded (λ end' f. subst Ends (some_inj f) k))
          λ (q, done) (kept, k). elim (Option-cases done) [
            | inl f ↦ rw f (guarded i)
            | inr ((end, after), f) ↦
                let (index, sound) = k (end, after) f in
                rw f (
                  guarded (
                    sound _ (record {
                      tasks = index;
                      workers = kept;
                      results = i.results;
                      nodes = i.nodes;
                    })))
          ])
]

set-IsSound : (s : Scheduler) → IsSound s → IsSound (record s { need_schedule = true })
set-IsSound s i = record {
  tasks = i.tasks;
  workers = i.workers;
  results = i.results;
  nodes = i.nodes;
}

library_missing-Ends :
    (worker_id : ℕ) (tasks : List ℕ) (replacements : List (ℕ × ℕ)) (job : ScheduledJob)
    (start : Withdrawing)
    → HasIndex start
    → Guarded Ends (library_missing_body worker_id tasks replacements job start)
unfolding library_missing_body
library_missing-Ends worker_id tasks replacements job start inv =
    Guarded-bind
      (withdraw_tasks-HasIndex
        (record start { worker = record start.worker { has_job_data = false }; modified = true })
        worker_id tasks inv)
      λ withdrawn k.
        Guarded-bind (withdraw_replacements-HasIndex withdrawn worker_id replacements k)
          λ end k'. guarded (k', set-IsSound)

pub process_library_missing-IsSound :
    (s : Scheduler) (worker_id : ℕ) (tasks : List ℕ) (replacements : List (ℕ × ℕ))
    → IsSound s
    → Guarded IsSound (process_library_missing s worker_id tasks replacements)
unfolding process_library_missing
process_library_missing-IsSound s worker_id tasks replacements i =
    with_worker-IsSound s worker_id (library_missing_body worker_id tasks replacements) i
      (library_missing-Ends worker_id tasks replacements)

no_free_executors-Ends :
    (worker_id : ℕ) (tasks : List ℕ) (job : ScheduledJob) (start : Withdrawing)
    → HasIndex start
    → Guarded Ends (no_free_executors_body worker_id tasks job start)
unfolding no_free_executors_body
no_free_executors-Ends worker_id tasks job start inv =
    elim (Bool-cases (start.worker.subworkers == 0)) [
      | inl e ↦
          rw (e, no_free_executors_body)
            (Guarded-bind (withdraw_tasks-HasIndex start worker_id tasks inv)
              λ end k. guarded (k, λ t j. j))
      | inr e ↦
          rw (e, no_free_executors_body)
            (Guarded-bind
              (withdraw_tasks-HasIndex
                (record start {
                  worker = record start.worker {
                    subworkers = sub_usize start.worker.subworkers (length tasks);
                  };
                  modified = true;
                })
                worker_id tasks inv)
              λ end k. guarded (k, set-IsSound))
    ]

pub process_no_free_executors-IsSound :
    (s : Scheduler) (worker_id : ℕ) (tasks : List ℕ)
    → IsSound s
    → Guarded IsSound (process_no_free_executors s worker_id tasks)
unfolding process_no_free_executors
process_no_free_executors-IsSound s worker_id tasks i =
    with_worker-IsSound s worker_id (no_free_executors_body worker_id tasks) i
      (no_free_executors-Ends worker_id tasks)

fail_task-Always :
    (job : ScheduledJob) (limit worker_id : ℕ) (task : Task)
    → Guarded (λ (_, _, r). Always r) (fail_task job limit worker_id task)
unfolding fail_task
fail_task-Always job limit worker_id task =
    Guarded-bind (remove_found-Guarded task.assignments task.assignments worker_id)
      λ (modified, rest) _.
        Guarded-if (task.failed_executions == limit) (λ _. guarded refl) (λ _. guarded refl)

give_up-IsSound :
    (error : Bytes) (counted : ScheduledJob) (given_up : Bool) (s : Scheduler)
    → IsSound s
    → IsSound (give_up error counted given_up s)
give_up-IsSound error counted true s i = record {
  tasks = i.tasks;
  workers = i.workers;
  results = i.results;
  nodes = i.nodes;
}
give_up-IsSound error counted false s i = set-IsSound s i

execution_error-Ends :
    (limit worker_id task_id : ℕ) (error : Bytes) (job : ScheduledJob) (start : Withdrawing)
    → HasIndex start
    → Guarded Ends (execution_error_body limit worker_id task_id error job start)
unfolding execution_error_body
execution_error-Ends limit worker_id task_id error job start inv =
    Guarded-bind
      (with_ref_mut-Guarded fewer fewer-IsPriority Always start.tasks_queue task_id none
        (fail_task start.job limit worker_id) inv refl (fail_task-Always start.job limit worker_id))
      λ (q, found) (kept, _). elim (Option-cases found) [
        | inl e ↦ rw e (
            Guarded-bind
              (leave-HasIndex (record start { tasks_queue = q }) start.worker.replacements task_id
                kept)
              λ end k. guarded (k, set-IsSound))
        | inr ((counted, given_up), e) ↦ rw e (
            Guarded-bind
              (leave-HasIndex (record start { tasks_queue = q; job = counted })
                start.worker.assignments task_id kept)
              λ end k. guarded (k, give_up-IsSound error counted given_up))
      ]

pub process_task_execution_error-IsSound :
    (s : Scheduler) (worker_id task_id : ℕ) (error : Bytes)
    → IsSound s
    → Guarded IsSound (process_task_execution_error s worker_id task_id error)
unfolding process_task_execution_error
process_task_execution_error-IsSound s worker_id task_id error i =
    with_worker-IsSound s worker_id
      (execution_error_body s.failed_executions_limit worker_id task_id error) i
      (execution_error-Ends s.failed_executions_limit worker_id task_id error)
