-- ===== src/Scheduler/Sound/Assign.antt =====
-- scheduler/src/scheduler.rs: process_scheduling keeps the state sound.
use grid_server.Base.{
  ok, none, get_elem?, ◌⊎◌, Returns-map, Bool-cases, ℕ, zero, suc, ◌*◌, ◌^◌, ◌≡◌, refl, inl, inr,
  false, ◌&&◌, ◌||◌, some, [], ◌∷◌, ◌++◌, Returns, returns, Returns-bind, Returns-then,
  Returns-Guarded, Returns-if, Guarded, guarded, panicked, Guarded-bind, Guarded-if, Option-cases,
  ltb,
}
use grid_server.Messages.{WorkerRequest}
use grid_server.PriorityQueue.{get, PriorityQueue}
use grid_server.PriorityQueue.Guards.{deref, PeekMut, peek_mut, PeekMut_write, drop_peek_mut}
use grid_server.PriorityQueue.Index.{IsIndexed}
use grid_server.PriorityQueue.Stored.{peek_mut-Stored, peek_mut-cases}
use grid_server.VecMap
use grid_server.Scheduler.{
  Scheduler, ScheduledJob, Task, Worker, fewer, worker_less, can_accept, need_replace,
}
use grid_server.Scheduler.Assign.{
  take_replacement, add_assignment, take_task, Assigning, with_capacity, is_eligible,
  add_assignment, take_task, take_replacement, assign_tasks, vec_pop, assign_replacements, assign,
  is_nil, request_of, process_scheduling, send_node,
}
use grid_server.Scheduler.Laws.{fewer-IsPriority, worker_less-IsPriority, Always}
use grid_server.Scheduler.Sound.{IsSound}

with_capacity-Guarded : (size capacity : ℕ) → Guarded Always (with_capacity size capacity)
unfolding with_capacity
with_capacity-Guarded size capacity =
    Guarded-if (ltb (capacity * size) (2 ^ 63)) (λ _. guarded refl) (λ _. panicked)

-- The guard of an indexed queue's top, and the value behind it.
pub record IsTop (q : PriorityQueue Task) (guard : PeekMut Task) (task : Task) : Type 0 where
  pub root : get_elem? q.heap 0 ≡ some guard.key
  pub fresh : guard ≡ record { queue = q; key = guard.key; modified = false }
  pub value : get q guard.key ≡ some task

pub add_assignment-Indexed :
    (q : PriorityQueue Task) (guard : PeekMut Task) (task : Task) (worker_id : ℕ)
    → IsIndexed q
    → IsTop q guard task
    → Returns IsIndexed (add_assignment guard worker_id)
unfolding add_assignment
add_assignment-Indexed q guard task worker_id inv top = rw top.fresh (
    Returns-map
      (peek_mut-Stored fewer fewer-IsPriority q guard.key task
        (λ (t : Task). record t { assignments = t.assignments ++ worker_id ∷ [] }) inv top.value
        top.root)
      λ r s. s.indexed)

-- A round of a loop stops at an empty queue, or sees the task at its top.
pub IsTop-cases :
    (q : PriorityQueue Task)
    → IsIndexed q
    → (peek_mut q ≡ none)
      ⊎ ((guard : PeekMut Task) × (task : Task) × (peek_mut q ≡ some guard)
          × (deref guard.queue guard.key ≡ ok task)
          × IsTop q guard task)
IsTop-cases q inv = elim (peek_mut-cases fewer fewer-IsPriority q inv) [
  | inl e ↦ inl e
  | inr (id, v, root, g, e, d) ↦ inr (
    record { queue = q; key = id; modified = false },
    v,
    e,
    d,
    record { root = root; fresh = refl; value = g },
  )
]

abbrev HasIndex : Assigning → Type 0
HasIndex s = IsIndexed s.tasks_queue

assign_tasks-HasIndex :
    (rounds : ℕ) (s : Assigning) → HasIndex s → Returns HasIndex (assign_tasks rounds s)
unfolding assign_tasks take_task
assign_tasks-HasIndex zero s inv = returns inv
assign_tasks-HasIndex (suc rounds) s inv = elim (IsTop-cases s.tasks_queue inv) [
  | inl e ↦ rw (e, assign_tasks) (returns inv)
  | inr (guard, task, e, d, top) ↦
      rw (e, assign_tasks, d)
        (Returns-if (is_eligible s.job task)
          (λ _.
            Returns-bind
              (Returns-bind (add_assignment-Indexed s.tasks_queue guard task s.worker.id inv top)
                λ q k. returns k)
              λ s' k. assign_tasks-HasIndex rounds s' k)
          (λ _. returns inv))
]

assign_replacements-HasIndex :
    (rounds : ℕ) (s : Assigning) → HasIndex s → Returns HasIndex (assign_replacements rounds s)
unfolding assign_replacements take_replacement
assign_replacements-HasIndex zero s inv = returns inv
assign_replacements-HasIndex (suc rounds) s inv = elim (IsTop-cases s.tasks_queue inv) [
  | inl e ↦ rw (e, assign_replacements) (returns inv)
  | inr (guard, task, e, d, top) ↦
      rw (e, assign_replacements, d)
        (Returns-if (is_eligible s.job task)
          (λ _. elim (Option-cases (vec_pop s.worker.replacements)) [
            | inl none_left ↦
                rw (none_left, take_replacement) (assign_replacements-HasIndex rounds s inv)
            | inr ((task_id, others), popped) ↦
                rw (popped, take_replacement)
                  (Returns-bind
                    (Returns-bind
                      (add_assignment-Indexed s.tasks_queue guard task s.worker.id inv top)
                      λ q k. returns k)
                    λ s' k. assign_replacements-HasIndex rounds s' k)
          ])
          (λ _. returns inv))
]

assign-HasIndex :
    (s : Scheduler) (job : ScheduledJob) (worker : Worker)
    → IsSound s
    → Guarded HasIndex (assign s job worker)
unfolding assign
assign-HasIndex s job worker i =
    Guarded-bind (with_capacity-Guarded 32 (can_accept worker)) λ accept _.
      Guarded-bind (Returns-Guarded (assign_tasks-HasIndex accept _ i.tasks)) λ accepted k.
        Guarded-bind (with_capacity-Guarded 40 (need_replace accepted.worker))
          λ replace _. Returns-Guarded (assign_replacements-HasIndex replace accepted k)

-- The worker's request goes out, or its node is gone.
send_node-IsSound :
    (s : Scheduler) (id : ℕ) (request : WorkerRequest)
    → IsSound s
    → IsSound (send_node id request s)
send_node-IsSound s id request i = elim (Bool-cases (VecMap.contains_key s.nodes id)) [
  | inl e ↦
      rw e (record { tasks = i.tasks; workers = i.workers; results = i.results; nodes = i.nodes })
  | inr e ↦ rw e i
]

pub process_scheduling-IsSound :
    (s : Scheduler) → IsSound s → Guarded IsSound (process_scheduling s)
unfolding process_scheduling
process_scheduling-IsSound s i =
    let idle : IsSound (record s { need_schedule = false }) = record {
      tasks = i.tasks;
      workers = i.workers;
      results = i.results;
      nodes = i.nodes;
    } in
    elim (Option-cases s.scheduled_job) [
      | inl e ↦ rw (e, process_scheduling) (guarded i)
      | inr (job, e) ↦
          elim (peek_mut-cases worker_less worker_less-IsPriority s.workers_queue i.workers) [
            | inl f ↦ rw (e, process_scheduling, f) (guarded idle)
            | inr (id, v, root, g, f, d) ↦
                rw (e, process_scheduling, f, d)
                  (Guarded-if (ltb 0 (can_accept v) || ltb 0 (need_replace v))
                    (λ _. Guarded-bind (assign-HasIndex s job v i) λ a k.
                      Guarded-if (is_nil a.tasks && is_nil a.replacements)
                        (λ _. guarded (record {
                          tasks = k;
                          workers = i.workers;
                          results = i.results;
                          nodes = i.nodes;
                        }))
                        (λ _. Returns-Guarded (
                          Returns-then
                            (PeekMut_write
                              (record { queue = s.workers_queue; key = id; modified = false })
                              (λ _. (request_of a).0))
                            (drop_peek_mut worker_less)
                            (peek_mut-Stored worker_less worker_less-IsPriority s.workers_queue id v
                              (λ _. (request_of a).0) i.workers g root)
                            λ q stored. returns (
                              send_node-IsSound
                                (record s {
                                  scheduled_job = some a.job;
                                  tasks_queue = a.tasks_queue;
                                  need_schedule = a.need_schedule;
                                  workers_queue = q;
                                })
                                a.worker.id (request_of a).1
                                (record {
                                  tasks = k;
                                  workers = stored.indexed;
                                  results = i.results;
                                  nodes = i.nodes;
                                })))))
                    (λ _. guarded idle))
          ]
    ]
