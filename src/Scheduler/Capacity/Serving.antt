-- ===== src/Scheduler/Capacity/Serving.antt =====
-- scheduler/src/scheduler.rs: what process_scheduling does for the first worker of the queue.
use grid_server.Base.{
  ℕ, ◌+◌, ◌-◌, ◌≤◌, ◌<◌, ◌≡◌, refl, sym, ap, ◌∙◌, subst, inl, inr, true, false, ◌&&◌, ◌||◌, none,
  some, List, [], ◌∷◌, ◌++◌, arith, ltb, ◌==◌, if◌then◌else◌, Bool-cases, some_inj, length,
  get_elem?,
}
use grid_server.Messages.{WorkerRequest}
use grid_server.Scheduler.{to_worker, Scheduler, ScheduledJob, Worker, can_accept, need_replace}
use grid_server.Scheduler.Assign.{is_nil, send_node, request_of, Assigning}
use grid_server.VecMap
use grid_server.PriorityQueue.{PriorityQueue, get}
use grid_server.PriorityQueue.Stored.{Stored}
use grid_server.Scheduler.Capacity.Tasks.{NoTask, Fits, task_ids, replacing_ids, free-can_accept}
use grid_server.Scheduler.Capacity.Replacements.{restored}
use grid_server.Scheduler.Capacity.Filling.{Filled}

-- Every worker of the queue fits.
abbrev pub AllFit : Scheduler → Type 0
AllFit s = (id : ℕ) (w : Worker) → get s.workers_queue id ≡ some w → Fits w

send_node-workers :
    (s : Scheduler) (id : ℕ) (request : WorkerRequest)
    → (send_node id request s).workers_queue ≡ s.workers_queue
send_node-workers s id request = elim (Bool-cases (VecMap.contains_key s.nodes id)) [
  | inl e ↦ rw e refl
  | inr e ↦ rw e refl
]

-- What a worker is given, in a request of at most as many new tasks as it has room for: their ids
-- follow its assignments, and each other task is in place of the last one of those to replace.
pub record Served (w w' : Worker) (request : WorkerRequest) : Type 0 where
  pub few : length request.tasks ≤ w.subworkers - (length w.assignments + length w.replacements)
  pub assignments :
      w'.assignments
      ≡ (w.assignments ++ task_ids request.tasks) ++ replacing_ids request.replacements
  pub to_replace : w.replacements ≡ restored w'.replacements request.replacements
  pub subworkers : w'.subworkers ≡ w.subworkers
  pub id : w'.id ≡ w.id

-- Why nothing is sent: there is no job, no worker, no room at the first worker of the queue and
-- nothing to replace, or no task that can be given.
pub data Idle (s : Scheduler) : Type 0 where
  no_job : s.scheduled_job ≡ none → Idle s
  no_worker : get_elem? s.workers_queue.heap 0 ≡ none → Idle s
  no_room :
      (id : ℕ) (w : Worker)
      → get_elem? s.workers_queue.heap 0 ≡ some id
      → get s.workers_queue id ≡ some w
      → w.subworkers ≤ length w.assignments + length w.replacements
      → length w.replacements ≡ 0
      → Idle s
  no_task : (job : ScheduledJob) → s.scheduled_job ≡ some job → NoTask s.tasks_queue job → Idle s

-- Nothing is sent, for a reason, and no worker changes; or the first worker of the queue is sent a
-- request that is not empty, if it is connected, and is remembered with it.
pub data Scheduled (s s' : Scheduler) : Type 0 where
  idle :
      Idle s
      → s'.sent ≡ s.sent
      → ((k : ℕ) → get s'.workers_queue k ≡ get s.workers_queue k)
      → Scheduled s s'
  served :
      (id : ℕ) (w w' : Worker) (request : WorkerRequest)
      → get_elem? s.workers_queue.heap 0 ≡ some id
      → get s.workers_queue id ≡ some w
      → 0 < length request.tasks + length request.replacements
      → Served w w' request
      → ((k : ℕ) → get s'.workers_queue k ≡ (if id == k then some w' else get s.workers_queue k))
      → s'.sent ≡ (
          if VecMap.contains_key s.nodes w.id
          then s.sent ++ to_worker w.id request ∷ []
          else s.sent)
      → Scheduled s s'

request_of-Served :
    (w : Worker) (a : Assigning)
    → Filled w a
    → Fits (request_of a).0 × Served w (request_of a).0 (request_of a).1
unfolding request_of
request_of-Served w a f =
    let fits = f.fits in
    elim (Bool-cases a.worker.has_job_data) [
      | inl e ↦
          rw (e, request_of)
            (
              record { room = fits.room; small = fits.small },
              record {
                few = f.few;
                assignments = f.assignments;
                to_replace = f.to_replace;
                subworkers = f.subworkers;
                id = f.id;
              },
            )
      | inr e ↦
          rw (e, request_of)
            (
              record { room = fits.room; small = fits.small },
              record {
                few = f.few;
                assignments = f.assignments;
                to_replace = f.to_replace;
                subworkers = f.subworkers;
                id = f.id;
              },
            )
    ]

send_node-sent :
    (s : Scheduler) (id : ℕ) (request : WorkerRequest)
    → (send_node id request s).sent
      ≡ (if VecMap.contains_key s.nodes id then s.sent ++ to_worker id request ∷ [] else s.sent)
send_node-sent s id request = elim (Bool-cases (VecMap.contains_key s.nodes id)) [
  | inl e ↦ rw e refl
  | inr e ↦ rw e refl
]

-- The worker at the top is the only one that changes.
Stored-AllFit :
    (s : Scheduler) (q : PriorityQueue Worker) (id : ℕ) (w : Worker)
    → AllFit s
    → Fits w
    → Stored s.workers_queue id w q
    → (k : ℕ) (x : Worker) → get q k ≡ some x
    → Fits x
Stored-AllFit s q id w h f st k x e = elim (Bool-cases (id == k)) [
  | inl same ↦
      let found : some w ≡ some x = ground (arith, st.values k, e, same) in
      subst Fits (some_inj found) f
  | inr other ↦ h k x (ground (arith, st.values k, e, other))
]

-- Every worker fits again, and at most one was sent a request.
abbrev pub Outcome : Scheduler → Scheduler → Type 0
Outcome s s' = AllFit s' × Scheduled s s'

pub is_nil-eq : {A : Type 0} (xs : List A) → is_nil xs ≡ true → xs ≡ []
is_nil-eq [] e = refl
is_nil-eq (x ∷ xs) e = absurd (cc e)

length-is_nil : {A : Type 0} (xs : List A) → is_nil xs ≡ (length xs == 0)
length-is_nil [] = refl
length-is_nil (x ∷ xs) = ground arith

something_given :
    (a : Assigning)
    → (is_nil a.tasks && is_nil a.replacements) ≡ false
    → 0 < length a.tasks + length a.replacements
something_given a e = elim (Bool-cases (ltb 0 (length a.tasks + length a.replacements))) [
  | inl more ↦ ground (arith, more)
  | inr none_given ↦
      absurd (ground (arith, e, none_given, length-is_nil a.tasks, length-is_nil a.replacements))
]

something_sent :
    (a : Assigning)
    → (is_nil a.tasks && is_nil a.replacements) ≡ false
    → 0 < length (request_of a).1.tasks + length (request_of a).1.replacements
unfolding request_of
something_sent a e = elim (Bool-cases a.worker.has_job_data) [
  | inl f ↦ rw (f, request_of) (something_given a e)
  | inr f ↦ rw (f, request_of) (something_given a e)
]

-- The state after a request.
pub request_sent :
    (s : Scheduler) (job : ScheduledJob) (id : ℕ) (w : Worker) (a : Assigning)
    (q : PriorityQueue Worker)
    → AllFit s
    → Filled w a
    → get_elem? s.workers_queue.heap 0 ≡ some id
    → get s.workers_queue id ≡ some w
    → (is_nil a.tasks && is_nil a.replacements) ≡ false
    → Stored s.workers_queue id (request_of a).0 q
    → Outcome s (
        send_node a.worker.id (request_of a).1 (record s {
          scheduled_job = some a.job;
          tasks_queue = a.tasks_queue;
          need_schedule = a.need_schedule;
          workers_queue = q;
        }))
request_sent s job id w a q h f root g given stored =
    let after : Scheduler = record s {
      scheduled_job = some a.job;
      tasks_queue = a.tasks_queue;
      need_schedule = a.need_schedule;
      workers_queue = q;
    } in
    let (fits, gives) = request_of-Served w a f in
    let queue = send_node-workers after a.worker.id (request_of a).1 in
    (
      λ k x e.
          Stored-AllFit s q id (request_of a).0 h fits stored k x
            (ap (λ q. get q k) (sym queue) ∙ e),
      served id w (request_of a).0 (request_of a).1 root g (something_sent a given) gives
          (λ k. ap (λ q. get q k) queue ∙ stored.values k)
          (send_node-sent after a.worker.id (request_of a).1
            ∙ ap
                (λ to.
                  if VecMap.contains_key s.nodes to
                  then s.sent ++ to_worker to (request_of a).1 ∷ []
                  else s.sent)
                f.id),
    )

pub full_worker :
    (w : Worker)
    → Fits w
    → (ltb 0 (can_accept w) || ltb 0 (need_replace w)) ≡ false
    → (w.subworkers ≤ length w.assignments + length w.replacements) × (length w.replacements ≡ 0)
full_worker w f e = let free = free-can_accept w f in (ground (arith, free, e), ground (arith, e))
