-- ===== src/Scheduler/Sound.antt =====
-- The state that every handler of scheduler/src/scheduler.rs keeps sound, and the handler of results.
pub mod Assign
pub mod Errors
pub mod Events
use grid_server.Base.{
  ℕ, refl, inl, inr, Bool, true, false, List, [], ◌∷◌, arith, Returns, returns, Returns-bind,
  Returns-if, Guarded, guarded, Returns-Guarded, Guarded-bind, Guarded-map, Guarded-if, ◌==◌,
  Option-cases,
}
use grid_server.Buffer.{clear}
use grid_server.Buffer.Contents.{Holds, push-Pushed, clear-Holds, filled_slice-ok}
use grid_server.Messages.{WorkerResult, job_complete, release_demand}
use grid_server.PriorityQueue.{PriorityQueue}
use grid_server.PriorityQueue.Index.{IsIndexed}
use grid_server.PriorityQueue.Stored.{remove-Taken}
use grid_server.VecMap.{IsCounted}
use grid_server.VecMap.Count.{clear-IsCounted}
use grid_server.Scheduler.{
  Scheduler, ScheduledJob, Task, Worker, clear_nodes, send, to_node_manager, to_task_manager,
}
use grid_server.Scheduler.Laws.{
  fewer-IsPriority, worker_less-IsPriority, Always, remove_found-Guarded, with_ref_mut-Guarded,
  clear-IsIndexed,
}
use grid_server.Scheduler.Results.{
  reset_scheduler, drop_replaced, unassign, replace_all, deliver, complete, accept_result,
  process_result, stats_of,
}

-- Both queues are indexed, the buffer's filled part is written, and the nodes are counted.
pub record IsSound (s : Scheduler) : Type 0 where
  pub tasks : IsIndexed s.tasks_queue
  pub workers : IsIndexed s.workers_queue
  pub results : (xs : List WorkerResult) × Holds s.results_buffer xs
  pub nodes : IsCounted s.nodes

pub clear_nodes-IsSound : (s : Scheduler) → IsSound s → IsSound (clear_nodes s)
unfolding clear_nodes
clear_nodes-IsSound s i = record {
  tasks = i.tasks;
  workers = i.workers;
  results = i.results;
  nodes = clear-IsCounted s.nodes;
}

pub reset_scheduler-IsSound : (s : Scheduler) → IsSound s → IsSound (reset_scheduler s)
unfolding reset_scheduler clear_nodes
reset_scheduler-IsSound s i = record {
  tasks = clear-IsIndexed s.tasks_queue;
  workers = clear-IsIndexed s.workers_queue;
  results = ([], clear-Holds s.results_buffer i.results.0 i.results.1);
  nodes = clear-IsCounted s.nodes;
}

pub unassign-Guarded :
    (q : PriorityQueue Worker) (replaced : Bool) (task_id worker_id : ℕ)
    → IsIndexed q
    → Guarded IsIndexed (unassign q replaced task_id worker_id)
unfolding unassign
unassign-Guarded q replaced task_id worker_id inv =
    Guarded-bind
      (with_ref_mut-Guarded _ worker_less-IsPriority Always q worker_id false _ inv refl λ worker.
        Guarded-bind (remove_found-Guarded worker.assignments worker.assignments task_id)
          λ (modified, rest) _. Guarded-if replaced (λ _. guarded refl) (λ _. guarded refl))
      λ (q', _) (kept, _). guarded kept

pub replace_all-Guarded :
    (q : PriorityQueue Worker) (task_id : ℕ) (ids : List ℕ)
    → IsIndexed q
    → Guarded IsIndexed (replace_all q task_id ids)
unfolding replace_all
replace_all-Guarded q task_id [] inv = guarded inv
replace_all-Guarded q task_id (id ∷ ids) inv =
    Guarded-bind (unassign-Guarded q true task_id id inv)
      λ q' kept. replace_all-Guarded q' task_id ids kept

pub drop_replaced-Guarded :
    (q : PriorityQueue Worker) (worker_id task_id : ℕ)
    → IsIndexed q
    → Guarded (λ (r, _). IsIndexed r) (drop_replaced q worker_id task_id)
unfolding drop_replaced
drop_replaced-Guarded q worker_id task_id inv =
    Guarded-map
      (with_ref_mut-Guarded _ worker_less-IsPriority Always q worker_id false _ inv refl λ worker.
        Guarded-bind (remove_found-Guarded worker.replacements worker.assignments task_id)
          λ (modified, rest) _. guarded refl)
      λ (r, _) (kept, _). kept

deliver-IsSound :
    (s : Scheduler) (job : ScheduledJob) (result : WorkerResult)
    → IsSound s
    → Returns IsSound (deliver s job result)
unfolding deliver
deliver-IsSound s job result i =
    Returns-bind (push-Pushed s.results_buffer i.results.0 result (omega arith) i.results.1)
      λ (batch, buffer) p. elim (Option-cases batch) [
        | inl e ↦ rw e (
            returns (record {
              tasks = i.tasks;
              workers = i.workers;
              results = (p.kept, p.holds);
              nodes = i.nodes;
            }))
        | inr (results, e) ↦ rw e (
            returns (record {
              tasks = i.tasks;
              workers = i.workers;
              results = (p.kept, p.holds);
              nodes = i.nodes;
            }))
      ]

complete-IsSound :
    (s : Scheduler) (job : ScheduledJob) → IsSound s → Returns IsSound (complete s job)
unfolding complete
complete-IsSound s job i =
    Returns-if (job.completed_tasks == job.total_tasks)
      (λ e.
        let final : Scheduler = send (to_node_manager release_demand) (
          send (to_task_manager (job_complete i.results.0 (stats_of job)))
            (record s { results_buffer = clear s.results_buffer })) in
        rw (filled_slice-ok s.results_buffer i.results.0 i.results.1) (
          returns (
            reset_scheduler-IsSound final (record {
              tasks = i.tasks;
              workers = i.workers;
              results = ([], clear-Holds s.results_buffer i.results.0 i.results.1);
              nodes = i.nodes;
            }))))
      (λ e. returns i)

accept_result-IsSound :
    (s : Scheduler) (job : ScheduledJob) (worker_id : ℕ) (result : WorkerResult) (task : Task)
    → IsSound s
    → Guarded IsSound (accept_result s job worker_id result task)
unfolding accept_result
accept_result-IsSound s job worker_id result task i =
    Guarded-bind (Returns-Guarded (deliver-IsSound s job result i)) λ delivered d.
      Guarded-bind (remove_found-Guarded task.assignments task.assignments worker_id)
        λ (_, others) _.
          Guarded-bind
            (unassign-Guarded delivered.workers_queue false result.id worker_id d.workers)
            λ without w.
              Guarded-bind (replace_all-Guarded without result.id others w) λ workers_queue k.
                let s' : Scheduler = record delivered { workers_queue = workers_queue } in
                let i' : IsSound s' = record {
                  tasks = d.tasks;
                  workers = k;
                  results = d.results;
                  nodes = d.nodes;
                } in
                elim (Option-cases delivered.scheduled_job) [
                  | inl e ↦ rw e (guarded i')
                  | inr (counted, e) ↦ rw e (Returns-Guarded (complete-IsSound s' counted i'))
                ]

pub process_result-IsSound :
    (s : Scheduler) (worker_id : ℕ) (result : WorkerResult)
    → IsSound s
    → Guarded IsSound (process_result s worker_id result)
unfolding process_result
process_result-IsSound s worker_id result i = elim (Option-cases s.scheduled_job) [
  | inl e ↦ rw (e, process_result) (guarded i)
  | inr (job, e) ↦
      rw (e, process_result)
        (Guarded-bind
          (Returns-Guarded (remove-Taken _ fewer-IsPriority s.tasks_queue result.id i.tasks))
          λ (removed, q) (_, t).
            let i' : IsSound (record s { tasks_queue = q }) = record {
              tasks = t.indexed;
              workers = i.workers;
              results = i.results;
              nodes = i.nodes;
            } in
            elim (Option-cases removed) [
              | inl f ↦ rw f (
                  Guarded-bind (drop_replaced-Guarded s.workers_queue worker_id result.id i.workers)
                    λ (r, found) k. guarded (record {
                      tasks = t.indexed;
                      workers = k;
                      results = i.results;
                      nodes = i.nodes;
                    }))
              | inr ((_, task), f) ↦ rw f (
                  accept_result-IsSound (record s { tasks_queue = q }) job worker_id result task i')
            ])
]
