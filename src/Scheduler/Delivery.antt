-- ===== src/Scheduler/Delivery.antt =====
-- scheduler/src/scheduler.rs: the results that were sent, and those that the buffer holds.
pub mod Once
use grid_server.Base.{
  ℕ, ◌+◌, ◌≡◌, refl, sym, ◌∙◌, ap, subst, inl, inr, Bool, true, false, Option, none, some, List, [],
  ◌∷◌, ◌++◌, append_assoc, append_nil, arith, Run, ok, ◌>>=◌, Returns, returns, Returns-bind,
  Returns-if, Returns-Guarded, Guarded, guarded, Guarded-bind, Guarded-map, ◌==◌, if◌then◌else◌,
  Option-cases, some_inj,
}
use grid_server.Buffer.{clear}
use grid_server.Buffer.Contents.{Holds, given, push-Pushed, clear-Holds, filled_slice-ok}
use grid_server.Messages.{
  WorkerRequest, WorkerResult, WorkerInfo, NodeManagerRequest, task_results, scheduler_busy,
  scheduler_free, execution_error, job_complete, release_demand,
}
use grid_server.PriorityQueue.{PriorityQueue, get}
use grid_server.PriorityQueue.Index.{IsIndexed}
use grid_server.PriorityQueue.Stored.{paired, remove-Taken}
use grid_server.VecMap
use grid_server.VecMap.{is_some}
use grid_server.VecMap.Lookup.{get-clear}
use grid_server.Scheduler.{
  Scheduler, ScheduledJob, Task, Worker, Message, to_task_manager, to_node_manager, to_worker,
  connect_node, connect_node_manager, cancelled, cancelled_nodes, fewer, remove_found, send,
  clear_nodes,
}
use grid_server.Scheduler.Laws.{fewer-IsPriority, remove_found-Guarded}
use grid_server.Scheduler.Results.{
  reset_scheduler, drop_replaced, unassign, replace_all, deliver, complete, accept_result,
  process_result, stats_of,
}
use grid_server.Scheduler.Sound.{
  IsSound, unassign-Guarded, replace_all-Guarded, drop_replaced-Guarded,
}

-- The results that a message carries to the task manager.
unfoldable pub batch_of : Message → List WorkerResult
batch_of (to_task_manager (task_results batch)) = batch
batch_of (to_task_manager (job_complete batch stats)) = batch
batch_of (to_task_manager scheduler_busy) = []
batch_of (to_task_manager scheduler_free) = []
batch_of (to_task_manager (execution_error error stats)) = []
batch_of (to_node_manager request) = []
batch_of (to_worker id request) = []
batch_of (connect_node info) = []
batch_of connect_node_manager = []
batch_of (cancelled node) = []

-- All the results sent, in their order.
unfoldable pub delivered : List Message → List WorkerResult
delivered [] = []
delivered (m ∷ ms) = batch_of m ++ delivered ms

pub delivered-append : (ms ns : List Message) → delivered (ms ++ ns) ≡ delivered ms ++ delivered ns
unfolding delivered
delivered-append [] ns = refl
delivered-append (m ∷ ms) ns =
    ap (λ xs. batch_of m ++ xs) (delivered-append ms ns)
    ∙ sym (append_assoc (batch_of m) (delivered ms) (delivered ns))

pub delivered-one :
    (ms : List Message) (m : Message) → delivered (ms ++ m ∷ []) ≡ delivered ms ++ batch_of m
unfolding delivered
delivered-one ms m =
    delivered-append ms (m ∷ []) ∙ ap (λ xs. delivered ms ++ xs) (sym (append_nil (batch_of m)))

-- What was sent and what the buffer holds are together `all`.
pub record Accounted (s : Scheduler) (all : List WorkerResult) : Type 0 where
  pub kept : List WorkerResult
  pub holds : Holds s.results_buffer kept
  pub total : delivered s.sent ++ kept ≡ all

-- The parts of the state that a result's bookkeeping leaves alone.
pub record Delivered (s : Scheduler) (all : List WorkerResult) (t : Scheduler) : Type 0 where
  pub accounted : Accounted t all
  pub tasks : t.tasks_queue ≡ s.tasks_queue
  pub workers : t.workers_queue ≡ s.workers_queue

pub deliver-Delivered :
    (s : Scheduler) (job : ScheduledJob) (result : WorkerResult) (all : List WorkerResult)
    → Accounted s all
    → Returns (Delivered s (all ++ result ∷ [])) (deliver s job result)
unfolding deliver batch_of
deliver-Delivered s job result all a =
    Returns-bind (push-Pushed s.results_buffer a.kept result (omega arith) a.holds)
      λ (batch, buffer) p.
        let grown : (delivered s.sent ++ a.kept) ++ result ∷ [] ≡ all ++ result ∷ [] =
          ap (λ xs. xs ++ result ∷ []) a.total in
        elim (Option-cases batch) [
          | inl e ↦
              let same : p.kept ≡ a.kept ++ result ∷ [] =
                subst (λ b. given b ++ p.kept ≡ a.kept ++ result ∷ []) e p.all in
              rw e (
                returns (record {
                  accounted = record {
                    kept = p.kept;
                    holds = p.holds;
                    total =
                        ap (λ xs. delivered s.sent ++ xs) same
                        ∙ sym (append_assoc (delivered s.sent) a.kept (result ∷ []))
                        ∙ grown;
                  };
                  tasks = refl;
                  workers = refl;
                }))
          | inr (results, e) ↦
              let both : results ++ p.kept ≡ a.kept ++ result ∷ [] =
                subst (λ b. given b ++ p.kept ≡ a.kept ++ result ∷ []) e p.all in
              rw e (
                returns (record {
                  accounted = record {
                    kept = p.kept;
                    holds = p.holds;
                    total =
                        ap (λ xs. xs ++ p.kept)
                          (delivered-one s.sent (to_task_manager (task_results results)))
                        ∙ append_assoc (delivered s.sent) results p.kept
                        ∙ ap (λ xs. delivered s.sent ++ xs) both
                        ∙ sym (append_assoc (delivered s.sent) a.kept (result ∷ []))
                        ∙ grown;
                  };
                  tasks = refl;
                  workers = refl;
                }))
        ]

cancelled-nothing : (nodes : List ℕ) → delivered (cancelled_nodes nodes) ≡ []
unfolding delivered cancelled_nodes batch_of
cancelled-nothing [] = refl
cancelled-nothing (node ∷ nodes) = cancelled-nothing nodes

-- The reset after the last result.
pub reset-Accounted :
    (s : Scheduler) (kept all : List WorkerResult)
    → Holds s.results_buffer kept
    → delivered s.sent ≡ all
    → Accounted (reset_scheduler s) all
unfolding reset_scheduler clear_nodes
reset-Accounted s kept all h e = record {
  kept = [];
  holds = clear-Holds s.results_buffer kept h;
  total =
      sym (append_nil (delivered (reset_scheduler s).sent))
      ∙ delivered-append s.sent (cancelled_nodes (VecMap.into_iter s.nodes))
      ∙ ap (λ xs. delivered s.sent ++ xs) (cancelled-nothing (VecMap.into_iter s.nodes))
      ∙ sym (append_nil (delivered s.sent))
      ∙ e;
}
