-- ===== src/Scheduler/Capacity/Tasks.antt =====
-- scheduler/src/scheduler.rs: what the first loop of process_scheduling gives a worker.
use grid_server.Base.{
  append_one, ℕ, zero, suc, ◌+◌, ◌-◌, ◌^◌, ◌≤◌, ◌<◌, ◌≡◌, refl, ap, ◌∙◌, ◌≢◌, ◌⊎◌, inl, inr, false,
  none, some, List, [], ◌∷◌, ◌++◌, arith, Option-cases, length, get_elem?, append_nil, Returns,
  returns, Returns-if, Returns-map, Returns-bind,
}
use grid_server.Messages.{WorkerTask}
use grid_server.PriorityQueue.{PriorityQueue, get}
use grid_server.PriorityQueue.Guards.{PeekMut, peek_mut}
use grid_server.PriorityQueue.Index.{IsIndexed}
use grid_server.Scheduler.{ScheduledJob, Worker, Task, sub_usize, can_accept}
use grid_server.Scheduler.Assign.{Assigning, is_eligible, assign_tasks, take_task}
use grid_server.Scheduler.Sound.Assign.{IsTop, add_assignment-Indexed, IsTop-cases}

-- A worker's tasks, and those that it is to replace, fit its subworkers, whose number is small
-- enough for a vector of as many replacements.
pub record Fits (w : Worker) : Type 0 where
  pub room : length w.assignments + length w.replacements ≤ w.subworkers
  pub small : w.subworkers < 2 ^ 57

abbrev pub task_ids : List WorkerTask → List ℕ
task_ids [] = []
task_ids (t ∷ ts) = t.id ∷ task_ids ts

abbrev pub replacing_ids : List (ℕ × WorkerTask) → List ℕ
replacing_ids [] = []
replacing_ids ((_, t) ∷ ts) = t.id ∷ replacing_ids ts

pub length-task_ids : (ts : List WorkerTask) → length (task_ids ts) ≡ length ts
length-task_ids [] = refl
length-task_ids (t ∷ ts) = ap suc (length-task_ids ts)

pub length-replacing_ids : (ts : List (ℕ × WorkerTask)) → length (replacing_ids ts) ≡ length ts
length-replacing_ids [] = refl
length-replacing_ids (t ∷ ts) = ap suc (length-replacing_ids ts)

pub free-can_accept :
    (w : Worker)
    → Fits w
    → can_accept w ≡ w.subworkers - (length w.assignments + length w.replacements)
unfolding can_accept sub_usize
free-can_accept w f = omega (arith, f.room, f.small)

-- No task can be given: there is none, or the first of the queue has a worker, while there are
-- tasks that are not scheduled.
pub data NoTask (q : PriorityQueue Task) (job : ScheduledJob) : Type 0 where
  no_tasks : get_elem? q.heap 0 ≡ none → NoTask q job
  assigned :
      (id : ℕ) (task : Task)
      → get_elem? q.heap 0 ≡ some id
      → get q id ≡ some task
      → task.assignments ≢ []
      → job.scheduled_tasks ≢ job.total_tasks
      → NoTask q job

pub peek_mut-none :
    {V : Type 0} (q : PriorityQueue V) → peek_mut q ≡ none → get_elem? q.heap 0 ≡ none
unfolding peek_mut
peek_mut-none q e = elim (Option-cases (get_elem? q.heap 0)) [
  | inl f ↦ f
  | inr (id, f) ↦
      let some_guard : peek_mut q ≡ some (record { queue = q; key = id; modified = false }) =
        rw (f, peek_mut) refl in
      absurd (cc (e, some_guard))
]

pub is_eligible-NoTask :
    (q : PriorityQueue Task) (job : ScheduledJob) (guard : PeekMut Task) (task : Task)
    → IsTop q guard task
    → is_eligible job task ≡ false
    → NoTask q job
is_eligible-NoTask q job guard task top refused =
    assigned guard.key task top.root top.value
      (λ none_assigned. ground (arith, ap length none_assigned, refused))
      (λ all_scheduled. ground (arith, all_scheduled, refused))

-- What the first loop adds.
pub record Gave (rounds : ℕ) (s s' : Assigning) : Type 0 where
  pub given : List WorkerTask
  pub few : length given ≤ rounds
  pub tasks : s'.tasks ≡ s.tasks ++ given
  pub assignments : s'.worker.assignments ≡ s.worker.assignments ++ task_ids given
  pub to_replace : s'.worker.replacements ≡ s.worker.replacements
  pub subworkers : s'.worker.subworkers ≡ s.worker.subworkers
  pub id : s'.worker.id ≡ s.worker.id
  pub replacements : s'.replacements ≡ s.replacements
  pub indexed : IsIndexed s'.tasks_queue
  pub ended :
      ((rounds ≡ 0) × (s'.tasks_queue ≡ s.tasks_queue) × (s'.job ≡ s.job))
      ⊎ ((0 < length given) ⊎ NoTask s.tasks_queue s.job)

Gave-nothing :
    (rounds : ℕ) (s s' : Assigning)
    → IsIndexed s'.tasks_queue
    → s'.tasks ≡ s.tasks
    → s'.worker ≡ s.worker
    → s'.replacements ≡ s.replacements
    → ((rounds ≡ 0) × (s'.tasks_queue ≡ s.tasks_queue) × (s'.job ≡ s.job))
      ⊎ NoTask s.tasks_queue s.job
    → Gave rounds s s'
Gave-nothing rounds s s' inv t w r ended = record {
  given = [];
  few = omega arith;
  tasks = t ∙ append_nil s.tasks;
  assignments = ap (λ (x : Worker). x.assignments) w ∙ append_nil s.worker.assignments;
  to_replace = ap (λ (x : Worker). x.replacements) w;
  subworkers = ap (λ (x : Worker). x.subworkers) w;
  id = ap (λ (x : Worker). x.id) w;
  replacements = r;
  indexed = inv;
  ended = elim ended [ inl none_left ↦ inl none_left | inr refused ↦ inr (inr refused) ];
}

-- One round of it.
record Took (t : WorkerTask) (s m : Assigning) : Type 0 where
  tasks : m.tasks ≡ s.tasks ++ t ∷ []
  assignments : m.worker.assignments ≡ s.worker.assignments ++ t.id ∷ []
  to_replace : m.worker.replacements ≡ s.worker.replacements
  subworkers : m.worker.subworkers ≡ s.worker.subworkers
  id : m.worker.id ≡ s.worker.id
  replacements : m.replacements ≡ s.replacements
  indexed : IsIndexed m.tasks_queue

take_task-Took :
    (s : Assigning) (guard : PeekMut Task) (task : Task)
    → IsIndexed s.tasks_queue
    → IsTop s.tasks_queue guard task
    → Returns (Took task.task_data s) (take_task s guard task)
unfolding take_task
take_task-Took s guard task inv top =
    Returns-bind (add_assignment-Indexed s.tasks_queue guard task s.worker.id inv top) λ q k.
      returns (record {
        tasks = refl;
        assignments = refl;
        to_replace = refl;
        subworkers = refl;
        id = refl;
        replacements = refl;
        indexed = k;
      })

Gave-more :
    (rounds : ℕ) (s m s' : Assigning) (t : WorkerTask)
    → Took t s m
    → Gave rounds m s'
    → Gave (suc rounds) s s'
Gave-more rounds s m s' t k g = record {
  given = t ∷ g.given;
  few = omega (arith, g.few);
  tasks = g.tasks ∙ ap (λ xs. xs ++ g.given) k.tasks ∙ append_one s.tasks t g.given;
  assignments =
      g.assignments
      ∙ ap (λ xs. xs ++ task_ids g.given) k.assignments
      ∙ append_one s.worker.assignments t.id (task_ids g.given);
  to_replace = g.to_replace ∙ k.to_replace;
  subworkers = g.subworkers ∙ k.subworkers;
  id = g.id ∙ k.id;
  replacements = g.replacements ∙ k.replacements;
  indexed = g.indexed;
  ended = inr (inl (omega arith));
}

pub assign_tasks-Gave :
    (rounds : ℕ) (s : Assigning)
    → IsIndexed s.tasks_queue
    → Returns (Gave rounds s) (assign_tasks rounds s)
unfolding assign_tasks take_task
assign_tasks-Gave zero s inv =
    returns (Gave-nothing zero s s inv refl refl refl (inl (refl, refl, refl)))
assign_tasks-Gave (suc rounds) s inv = elim (IsTop-cases s.tasks_queue inv) [
  | inl e ↦
      rw (e, assign_tasks)
        (returns (
          Gave-nothing (suc rounds) s _ inv refl refl refl
            (inr (no_tasks (peek_mut-none s.tasks_queue e)))))
  | inr (guard, task, e, d, top) ↦
      rw (e, assign_tasks, d)
        (Returns-if (is_eligible s.job task)
          (λ _. Returns-bind (take_task-Took s guard task inv top) λ m t.
            Returns-map (assign_tasks-Gave rounds m t.indexed)
              λ s' g. Gave-more rounds s m s' task.task_data t g)
          (λ refused. returns (
            Gave-nothing (suc rounds) s _ inv refl refl refl
              (inr (is_eligible-NoTask s.tasks_queue s.job guard task top refused)))))
]
