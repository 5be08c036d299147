-- ===== src/Scheduler/Disconnect.antt =====
-- scheduler/src/scheduler.rs: process_worker_disconnect forgets the worker, and no other.
use grid_server.Base.{
  ℕ, ◌≡◌, refl, ◌∙◌, ap, inl, inr, Option, none, some, Returns, Returns-bind, returns,
  Returns-Guarded, Guarded, guarded, Guarded-bind, ◌==◌, if◌then◌else◌, Option-cases,
}
use grid_server.PriorityQueue.{PriorityQueue, get}
use grid_server.PriorityQueue.Stored.{remove-Taken}
use grid_server.VecMap
use grid_server.VecMap.Count.{remove-IsCounted}
use grid_server.Scheduler.{Scheduler, Worker, worker_less}
use grid_server.Scheduler.Events.{drop_node, remove_node, process_worker_disconnect}
use grid_server.Scheduler.Laws.{worker_less-IsPriority}
use grid_server.Scheduler.Sound.{IsSound}
use grid_server.Scheduler.Sound.Events.{drop_node-IsSound, release_tasks-Indexed}

-- The worker has neither an entry nor a connection, and every other keeps both.
pub record Forgotten (s : Scheduler) (worker_id : ℕ) (t : Scheduler) : Type 0 where
  pub workers :
      (k : ℕ) → get t.workers_queue k ≡ (if worker_id == k then none else get s.workers_queue k)
  pub nodes :
      (k : ℕ) → VecMap.get t.nodes k ≡ (if worker_id == k then none else VecMap.get s.nodes k)

-- `remove_node` alone.
record Unlinked (s : Scheduler) (worker_id : ℕ) (t : Scheduler) : Type 0 where
  sound : IsSound t
  workers : t.workers_queue ≡ s.workers_queue
  nodes : (k : ℕ) → VecMap.get t.nodes k ≡ (if worker_id == k then none else VecMap.get s.nodes k)

drop_node-nodes : (old : Option ℕ) (s : Scheduler) → (drop_node old s).nodes ≡ s.nodes
drop_node-nodes none s = refl
drop_node-nodes (some node) s = refl

drop_node-workers :
    (old : Option ℕ) (s : Scheduler) → (drop_node old s).workers_queue ≡ s.workers_queue
drop_node-workers none s = refl
drop_node-workers (some node) s = refl

remove_node-Unlinked :
    (s : Scheduler) (worker_id : ℕ)
    → IsSound s
    → Returns (Unlinked s worker_id) (remove_node s worker_id)
unfolding remove_node
remove_node-Unlinked s worker_id i =
    Returns-bind (remove-IsCounted s.nodes worker_id i.nodes) λ (old, nodes) (c, (_, values, _)).
      returns (record {
        sound =
            drop_node-IsSound old (record s { nodes = nodes })
              (record { tasks = i.tasks; workers = i.workers; results = i.results; nodes = c });
        workers = drop_node-workers old (record s { nodes = nodes });
        nodes = λ k.
            ap (λ m. VecMap.get m k) (drop_node-nodes old (record s { nodes = nodes })) ∙ values k;
      })

-- In a sound state, a disconnected worker has neither an entry in the queue nor a connection
-- afterwards, and every other worker keeps both, unless the handler panics.
pub process_worker_disconnect-Forgotten :
    (s : Scheduler) (worker_id : ℕ)
    → IsSound s
    → Guarded (Forgotten s worker_id) (process_worker_disconnect s worker_id)
unfolding process_worker_disconnect
process_worker_disconnect-Forgotten s worker_id i =
    Guarded-bind (Returns-Guarded (remove_node-Unlinked s worker_id i)) λ gone u.
      Guarded-bind
        (Returns-Guarded (
          remove-Taken worker_less worker_less-IsPriority gone.workers_queue worker_id
            u.sound.workers))
        λ (removed, q) (_, taken).
          let workers : (k : ℕ)
              → get q k ≡ (if worker_id == k then none else get s.workers_queue k) =
            λ k.
              taken.values k
              ∙ ap (λ (r : PriorityQueue Worker). if worker_id == k then none else get r k)
                  u.workers in
          elim (Option-cases removed) [
            | inl e ↦ rw e (guarded (record { workers = workers; nodes = u.nodes }))
            | inr ((_, worker), e) ↦ elim (Option-cases gone.scheduled_job) [
              | inl f ↦ rw (e, f) (guarded (record { workers = workers; nodes = u.nodes }))
              | inr (job, f) ↦
                  rw (e, f)
                    (Guarded-bind
                      (release_tasks-Indexed gone.tasks_queue job worker_id worker.assignments
                        u.sound.tasks)
                      λ (tasks, job') k. guarded (record { workers = workers; nodes = u.nodes }))
            ]
          ]
