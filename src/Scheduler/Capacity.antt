-- ===== src/Scheduler/Capacity.antt =====
-- scheduler/src/scheduler.rs: process_scheduling gives a worker no more than it has room for.
pub mod Tasks
pub mod Replacements
pub mod Filling
pub mod Serving
use grid_server.Base.{
  ℕ, ◌-◌, ◌≡◌, refl, inl, inr, false, not, ◌&&◌, ◌||◌, ltb, if◌then◌else◌, Option-cases, Returns,
  returns, Returns-if, Returns-bind, Returns-then,
}
use grid_server.Scheduler.{worker_less, Scheduler, can_accept, need_replace}
use grid_server.Scheduler.Assign.{is_nil, process_scheduling, request_of}
use grid_server.PriorityQueue.{get}
use grid_server.PriorityQueue.Guards.{PeekMut_write, drop_peek_mut}
use grid_server.PriorityQueue.Stored.{peek_mut-Stored, peek_mut-cases}
use grid_server.Scheduler.Laws.{worker_less-IsPriority}
use grid_server.Scheduler.Sound.{IsSound}
use grid_server.Scheduler.Capacity.Tasks.{peek_mut-none}
use grid_server.Scheduler.Capacity.Filling.{assign-Filled}
use grid_server.Platform.Equality.{and_true}
use grid_server.Scheduler.Capacity.Serving.{
  AllFit, Outcome, full_worker, idle, is_nil-eq, no_job, no_room, no_task, no_worker, request_sent,
}

-- In a sound state in which every worker's assignments and replacements fit its subworkers, and
-- these are fewer than 2^57, `process_scheduling` returns, and every worker fits again. Either no
-- worker changes and nothing is sent, since there is no job, or no worker, or the first worker of
-- the queue has neither room nor tasks to replace, or there is no task, or the first task of the
-- queue has a worker and not every task is scheduled. Or the first worker of the queue gets a
-- request that is not empty, which is sent if that worker is connected. The request has at most as
-- many new tasks as the worker had room for; the ids of these, then those of the tasks in place of
-- others, are added behind its assignments; each of the latter is in place of what was then the
-- last of those to replace, which is taken off that list; and every other worker is unchanged.
pub process_scheduling-AllFit :
    (s : Scheduler) → IsSound s → AllFit s → Returns (Outcome s) (process_scheduling s)
unfolding process_scheduling
process_scheduling-AllFit s i h =
    let same : (k : ℕ) → get s.workers_queue k ≡ get s.workers_queue k = λ k. refl in
    elim (Option-cases s.scheduled_job) [
      | inl e ↦ simp (e, process_scheduling) (returns (h, idle (no_job e) refl same))
      | inr (job, e) ↦
          elim (peek_mut-cases worker_less worker_less-IsPriority s.workers_queue i.workers) [
            | inl f ↦
                simp (e, process_scheduling, f)
                  (returns (h, idle (no_worker (peek_mut-none s.workers_queue f)) refl same))
            | inr (id, v, root, g, f, d) ↦
                simp (e, process_scheduling, f, d)
                  (Returns-if (ltb 0 (can_accept v) || ltb 0 (need_replace v))
                    (λ wanted.
                      Returns-bind (assign-Filled s job v i.tasks (h id v g) wanted)
                        λ a (k, needless).
                          Returns-if (is_nil a.tasks && is_nil a.replacements)
                            (λ none_given.
                              let (x, y) =
                                and_true (is_nil a.tasks) (is_nil a.replacements) none_given in
                              let refused =
                                needless (is_nil-eq a.tasks x) (is_nil-eq a.replacements y) in
                              returns (h, idle (no_task job e refused) refl same))
                            (λ given.
                              Returns-then
                                (PeekMut_write
                                  (record { queue = s.workers_queue; key = id; modified = false })
                                  (λ _. (request_of a).0))
                                (drop_peek_mut worker_less)
                                (peek_mut-Stored worker_less worker_less-IsPriority s.workers_queue
                                  id v (λ _. (request_of a).0) i.workers g root)
                                λ q stored.
                                  returns (request_sent s job id v a q h k root g given stored)))
                    (λ unwanted.
                      let (room, over) = full_worker v (h id v g) unwanted in
                      returns (h, idle (no_room id v root g room over) refl same)))
          ]
    ]
