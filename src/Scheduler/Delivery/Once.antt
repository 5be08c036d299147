-- ===== src/Scheduler/Delivery/Once.antt =====
-- scheduler/src/scheduler.rs: each result reaches the task manager once.
use grid_server.Base.{
  ==_refl, ℕ, ◌≡◌, refl, sym, ◌∙◌, ap, inl, inr, false, Option, none, some, List, [], ◌∷◌, ◌++◌,
  append_nil, Returns, returns, Returns-if, Returns-Guarded, Guarded, guarded, Guarded-bind, ◌==◌,
  Option-cases,
}
use grid_server.Buffer.{clear}
use grid_server.Buffer.Contents.{clear-Holds, filled_slice-ok}
use grid_server.Messages.{WorkerResult, job_complete, release_demand}
use grid_server.PriorityQueue
use grid_server.PriorityQueue.{value_of, PriorityQueue, get}
use grid_server.PriorityQueue.Stored.{paired, remove-Taken}
use grid_server.VecMap.Lookup.{get-clear}
use grid_server.Scheduler.{
  Scheduler, ScheduledJob, Task, Message, to_task_manager, to_node_manager, fewer, send,
  clear_nodes,
}
use grid_server.Scheduler.Laws.{fewer-IsPriority, remove_found-Guarded}
use grid_server.Scheduler.Results.{
  reset_scheduler, complete, accept_result, process_result, stats_of,
}
use grid_server.Scheduler.Sound.{
  IsSound, unassign-Guarded, replace_all-Guarded, drop_replaced-Guarded,
}
use grid_server.Scheduler.Delivery.{
  batch_of, delivered, delivered-one, Accounted, deliver-Delivered, reset-Accounted,
}

reset-gone : (s : Scheduler) (id : ℕ) → get (reset_scheduler s).tasks_queue id ≡ none
unfolding reset_scheduler clear_nodes get PriorityQueue.clear
reset-gone s id = ap value_of (get-clear s.tasks_queue.map id)

complete-Accounted :
    (s : Scheduler) (job : ScheduledJob) (id : ℕ) (all : List WorkerResult)
    → Accounted s all
    → get s.tasks_queue id ≡ none
    → Returns (λ t. Accounted t all × (get t.tasks_queue id ≡ none)) (complete s job)
unfolding complete batch_of
complete-Accounted s job id all a gone =
    Returns-if (job.completed_tasks == job.total_tasks)
      (λ e.
        let last : Message = to_task_manager (job_complete a.kept (stats_of job)) in
        let final : Scheduler =
          send (to_node_manager release_demand)
            (send last (record s { results_buffer = clear s.results_buffer })) in
        rw (filled_slice-ok s.results_buffer a.kept a.holds) (
          returns (
            reset-Accounted final [] all (clear-Holds s.results_buffer a.kept a.holds) (
                delivered-one (s.sent ++ last ∷ []) (to_node_manager release_demand)
                ∙ sym (append_nil (delivered (s.sent ++ last ∷ [])))
                ∙ delivered-one s.sent last
                ∙ a.total),
            reset-gone final id,
          )))
      (λ e. returns (a, gone))

accept_result-Accounted :
    (s : Scheduler) (job : ScheduledJob) (worker_id : ℕ) (result : WorkerResult) (task : Task)
    (all : List WorkerResult)
    → IsSound s
    → Accounted s all
    → get s.tasks_queue result.id ≡ none
    → Guarded
        (λ t. Accounted t (all ++ result ∷ []) × (get t.tasks_queue result.id ≡ none))
        (accept_result s job worker_id result task)
unfolding accept_result
accept_result-Accounted s job worker_id result task all i a gone =
    Guarded-bind (Returns-Guarded (deliver-Delivered s job result all a)) λ m d.
      Guarded-bind (remove_found-Guarded task.assignments task.assignments worker_id)
        λ (_, others) _.
          Guarded-bind
            (unassign-Guarded m.workers_queue false result.id worker_id (rw d.workers i.workers))
            λ without w. Guarded-bind (replace_all-Guarded without result.id others w) λ q k.
              let t : Scheduler = record m { workers_queue = q } in
              let b : Accounted t (all ++ result ∷ []) = record {
                kept = d.accounted.kept;
                holds = d.accounted.holds;
                total = d.accounted.total;
              } in
              let absent : get t.tasks_queue result.id ≡ none =
                ap (λ r. get r result.id) d.tasks ∙ gone in
              elim (Option-cases m.scheduled_job) [
                | inl e ↦ rw e (guarded (b, absent))
                | inr (counted, e) ↦ rw e (
                    Returns-Guarded
                      (complete-Accounted t counted result.id (all ++ result ∷ []) b absent))
              ]

-- The results that are accounted for after one more arrives.
abbrev pub with_result : Option Task → List WorkerResult → WorkerResult → List WorkerResult
with_result none all result = all
with_result (some task) all result = all ++ result ∷ []

-- With a job scheduled, a worker's result either panics or is accounted for as follows: if its task
-- is still in the queue, the results sent to the task manager and those in the buffer are together
-- the former ones followed by this one, in order; otherwise they are unchanged. In both cases the
-- task is not in the queue afterwards, so that a task's result is never sent twice.
pub process_result-Accounted :
    (s : Scheduler) (job : ScheduledJob) (worker_id : ℕ) (result : WorkerResult)
    (all : List WorkerResult)
    → IsSound s
    → s.scheduled_job ≡ some job
    → Accounted s all
    → Guarded
        (λ t.
          Accounted t (with_result (get s.tasks_queue result.id) all result)
          × (get t.tasks_queue result.id ≡ none))
        (process_result s worker_id result)
unfolding process_result
process_result-Accounted s job worker_id result all i e a =
    rw (e, process_result)
      (Guarded-bind
        (Returns-Guarded (remove-Taken fewer fewer-IsPriority s.tasks_queue result.id i.tasks))
        λ (removed, q) (found, taken).
          let gone : get q result.id ≡ none =
            taken.values result.id ∙ rw (==_refl result.id) refl in
          let t : Scheduler = record s { tasks_queue = q } in
          let b : Accounted t all = record { kept = a.kept; holds = a.holds; total = a.total } in
          elim (Option-cases (get s.tasks_queue result.id)) [
            | inl f ↦
                let late : removed ≡ none = found ∙ ap (paired result.id) f in
                rw (late, f)
                  (Guarded-bind
                    (drop_replaced-Guarded s.workers_queue worker_id result.id i.workers)
                    λ (r, known) k.
                      guarded (record { kept = a.kept; holds = a.holds; total = a.total }, gone))
            | inr (task, f) ↦
                let first : removed ≡ some (result.id, task) = found ∙ ap (paired result.id) f in
                rw (first, f)
                  (accept_result-Accounted t job worker_id result task all
                    (record {
                      tasks = taken.indexed;
                      workers = i.workers;
                      results = i.results;
                      nodes = i.nodes;
                    })
                    b gone)
          ])
