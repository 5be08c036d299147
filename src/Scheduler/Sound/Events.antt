-- ===== src/Scheduler/Sound/Events.antt =====
-- scheduler/src/scheduler.rs: every event keeps the state sound, and so does every run.
use grid_server.Base.{
  panicked, guarded, Guarded-ok, Returns-Guarded, ℕ, ◌*◌, ◌%◌, ◌^◌, refl, ap, subst, inl, inr, true,
  Option, none, some, List, [], ◌∷◌, arith, ltb, Bool-cases, Option-cases, Run, Returns, returns,
  Returns-bind, Guarded, Guarded-bind, Guarded-if,
}
use grid_server.Buffer.Contents.{new-Holds}
use grid_server.Messages.{
  WorkerTask, WorkerInfo, failed, finished, task_execution_error, library_missing,
  no_free_executors, hello_message, new_job, task, release_demand, created_session,
  restored_session, disconnect, connect,
}
use grid_server.PriorityQueue
use grid_server.PriorityQueue.{PriorityQueue}
use grid_server.PriorityQueue.Index.{IsIndexed, place, place_of}
use grid_server.PriorityQueue.MapAll.{map_all-Mapped}
use grid_server.PriorityQueue.Stored.{push-Stored, remove-Taken}
use grid_server.VecMap
use grid_server.VecMap.{IsCounted, into_iter}
use grid_server.VecMap.Count.{insert-IsCounted, remove-IsCounted}
use grid_server.VecMap.Lookup.{get-new}
use grid_server.Scheduler.{
  Scheduler, ScheduledJob, Task, Message, fewer, worker_less, send, clear_nodes, new, connect_node,
  to_node_manager,
}
use grid_server.Scheduler.Events.{
  WorkerEvent, connected, disconnected, message, NodeManagerEvent, manager_connected,
  not_established, manager_disconnected, manager_message, TaskManagerEvent, client_connected,
  client_disconnected, client_message, drop_node, insert_connected_node, remove_node, release_tasks,
  process_worker_disconnect, process_workers, connect_nodes, create_session, process_node_manager,
  push_tasks, process_task_manager, Step, by_task_manager, by_node_manager, by_workers,
  by_scheduling, Reachable, at_start, followed,
}
use grid_server.Scheduler.Assign.{with_capacity}
use grid_server.Scheduler.Laws.{
  fewer-IsPriority, worker_less-IsPriority, Always, remove_found-Guarded, with_ref_mut-Guarded,
  clear-IsIndexed,
}
use grid_server.Scheduler.Results.{reset_scheduler}
use grid_server.Scheduler.Sound.{
  IsSound, clear_nodes-IsSound, reset_scheduler-IsSound, process_result-IsSound,
}
use grid_server.Scheduler.Sound.Assign.{process_scheduling-IsSound}
use grid_server.Scheduler.Sound.Errors.{
  process_library_missing-IsSound, process_no_free_executors-IsSound,
  process_task_execution_error-IsSound,
}

-- A message, or a field that the invariant does not mention.
send-IsSound : (m : Message) (s : Scheduler) → IsSound s → IsSound (send m s)
send-IsSound m s i = record {
  tasks = i.tasks;
  workers = i.workers;
  results = i.results;
  nodes = i.nodes;
}

pub drop_node-IsSound : (old : Option ℕ) (s : Scheduler) → IsSound s → IsSound (drop_node old s)
drop_node-IsSound none s i = i
drop_node-IsSound (some node) s i = send-IsSound _ s i

remove_node-IsSound :
    (s : Scheduler) (worker_id : ℕ) → IsSound s → Returns IsSound (remove_node s worker_id)
unfolding remove_node
remove_node-IsSound s worker_id i =
    Returns-bind (remove-IsCounted s.nodes worker_id i.nodes) λ (old, nodes) (c, _). returns (
      drop_node-IsSound old (record s { nodes = nodes })
        (record { tasks = i.tasks; workers = i.workers; results = i.results; nodes = c }))

pub release_tasks-Indexed :
    (q : PriorityQueue Task) (job : ScheduledJob) (worker_id : ℕ) (ids : List ℕ)
    → IsIndexed q
    → Guarded (λ (r, _). IsIndexed r) (release_tasks q job worker_id ids)
unfolding release_tasks
release_tasks-Indexed q job worker_id [] inv = guarded inv
release_tasks-Indexed q job worker_id (task_id ∷ ids) inv =
    Guarded-bind
      (with_ref_mut-Guarded fewer fewer-IsPriority Always q task_id job _ inv refl λ t.
        Guarded-bind (remove_found-Guarded t.assignments t.assignments worker_id)
          λ (modified, rest) _. guarded refl)
      λ (q', job') (k, _). release_tasks-Indexed q' job' worker_id ids k

process_worker_disconnect-IsSound :
    (s : Scheduler) (worker_id : ℕ)
    → IsSound s
    → Guarded IsSound (process_worker_disconnect s worker_id)
unfolding process_worker_disconnect
process_worker_disconnect-IsSound s worker_id i =
    Guarded-bind (Returns-Guarded (remove_node-IsSound s worker_id i)) λ gone j.
      Guarded-bind
        (Returns-Guarded
          (remove-Taken worker_less worker_less-IsPriority gone.workers_queue worker_id j.workers))
        λ (removed, q) (_, t). elim (Option-cases removed) [
          | inl e ↦ rw e (
              guarded (record {
                tasks = j.tasks;
                workers = t.indexed;
                results = j.results;
                nodes = j.nodes;
              }))
          | inr ((_, worker), e) ↦ elim (Option-cases gone.scheduled_job) [
            | inl f ↦
                rw (e, f)
                  (guarded (record {
                    tasks = j.tasks;
                    workers = t.indexed;
                    results = j.results;
                    nodes = j.nodes;
                  }))
            | inr (job, f) ↦
                rw (e, f)
                  (Guarded-bind
                    (release_tasks-Indexed gone.tasks_queue job worker_id worker.assignments
                      j.tasks)
                    λ (tasks, job') k. guarded (record {
                      tasks = k;
                      workers = t.indexed;
                      results = j.results;
                      nodes = j.nodes;
                    }))
          ]
        ]

insert_connected_node-IsSound :
    (s : Scheduler) (worker_id node : ℕ)
    → IsSound s
    → IsSound (insert_connected_node s worker_id node)
unfolding insert_connected_node
insert_connected_node-IsSound s worker_id node i =
    drop_node-IsSound (VecMap.insert s.nodes worker_id node).0
      (record s { nodes = (VecMap.insert s.nodes worker_id node).1 })
      (record {
        tasks = i.tasks;
        workers = i.workers;
        results = i.results;
        nodes = insert-IsCounted s.nodes worker_id node i.nodes;
      })

pub process_workers-IsSound :
    (s : Scheduler) (event : WorkerEvent) → IsSound s → Guarded IsSound (process_workers s event)
unfolding process_workers
process_workers-IsSound s (connected info node) i =
    let t : Scheduler = record s { need_schedule = true } in
    let j : IsSound (insert_connected_node t info.worker_id node) =
      insert_connected_node-IsSound t info.worker_id node
        (record { tasks = i.tasks; workers = i.workers; results = i.results; nodes = i.nodes }) in
    Guarded-bind
      (Returns-Guarded (
        push-Stored worker_less worker_less-IsPriority
          (insert_connected_node t info.worker_id node).workers_queue info.worker_id _ j.workers))
      λ (_, q) k.
        guarded
          (record { tasks = j.tasks; workers = k.indexed; results = j.results; nodes = j.nodes })
process_workers-IsSound s (disconnected worker_id) i =
    process_worker_disconnect-IsSound s worker_id i
process_workers-IsSound s (message worker_id (finished result)) i =
    process_result-IsSound s worker_id result i
process_workers-IsSound s (message worker_id (failed (library_missing tasks replacements))) i =
    process_library_missing-IsSound s worker_id tasks replacements i
process_workers-IsSound s (message worker_id (failed (task_execution_error task_id error))) i =
    process_task_execution_error-IsSound s worker_id task_id error i
process_workers-IsSound s (message worker_id (failed (no_free_executors tasks))) i =
    process_no_free_executors-IsSound s worker_id tasks i

connect_nodes-IsSound :
    (s : Scheduler) (infos : List WorkerInfo) → IsSound s → IsSound (connect_nodes s infos)
unfolding connect_nodes
connect_nodes-IsSound s [] i = i
connect_nodes-IsSound s (info ∷ infos) i =
    connect_nodes-IsSound (send (connect_node info) s) infos (send-IsSound (connect_node info) s i)

create_session-IsSound : (s : Scheduler) → IsSound s → Returns IsSound (create_session s)
unfolding create_session
create_session-IsSound s i =
    let t : Scheduler = record s {
      node_manager = true;
      workers_queue = PriorityQueue.clear s.workers_queue;
    } in
    let j : IsSound (clear_nodes t) = clear_nodes-IsSound t (record {
      tasks = i.tasks;
      workers = clear-IsIndexed s.workers_queue;
      results = i.results;
      nodes = i.nodes;
    }) in
    elim (Option-cases s.scheduled_job) [
      | inl e ↦ rw (e, create_session) (returns j)
      | inr (job, e) ↦
          rw (e, create_session)
            (Returns-bind
              (map_all-Mapped fewer fewer-IsPriority (λ (x : Task). record x { assignments = [] })
                s.tasks_queue i.tasks)
              λ q m. returns (record {
                tasks = m.indexed;
                workers = j.workers;
                results = j.results;
                nodes = j.nodes;
              }))
    ]

process_node_manager-IsSound :
    (s : Scheduler) (event : NodeManagerEvent)
    → IsSound s
    → Guarded (λ (_, r). IsSound r) (process_node_manager s event)
unfolding process_node_manager
process_node_manager-IsSound s (manager_message (connect workers)) i =
    guarded (connect_nodes-IsSound s workers i)
process_node_manager-IsSound s (manager_message (disconnect worker_id)) i =
    Guarded-bind (process_worker_disconnect-IsSound s worker_id i) λ s' j. guarded j
process_node_manager-IsSound s (manager_message restored_session) i =
    guarded (record { tasks = i.tasks; workers = i.workers; results = i.results; nodes = i.nodes })
process_node_manager-IsSound s (manager_message created_session) i =
    Guarded-bind
      (Guarded-if s.node_manager (λ _. guarded i)
        (λ _. Returns-Guarded (create_session-IsSound s i)))
      λ s' j. guarded j
process_node_manager-IsSound s manager_disconnected i =
    guarded (record { tasks = i.tasks; workers = i.workers; results = i.results; nodes = i.nodes })
process_node_manager-IsSound s manager_connected i = guarded i
process_node_manager-IsSound s not_established i = guarded i

push_tasks-Indexed :
    (q : PriorityQueue Task) (batch : List WorkerTask)
    → IsIndexed q
    → Returns IsIndexed (push_tasks q batch)
unfolding push_tasks
push_tasks-Indexed q [] inv = returns inv
push_tasks-Indexed q (t ∷ batch) inv =
    Returns-bind (push-Stored fewer fewer-IsPriority q t.id _ inv)
      λ (_, q') k. push_tasks-Indexed q' batch k.indexed

with_capacity-Guarded :
    (size capacity : ℕ) → Guarded {0, 0} (λ _. Unit) (with_capacity size capacity)
unfolding with_capacity
with_capacity-Guarded size capacity =
    Guarded-if (ltb (capacity * size) (2 ^ 63)) (λ _. guarded tt) (λ _. panicked)

pub process_task_manager-IsSound :
    (s : Scheduler) (event : TaskManagerEvent)
    → IsSound s
    → Guarded IsSound (process_task_manager s event)
unfolding process_task_manager
process_task_manager-IsSound s (client_message hello_message) i = guarded i
process_task_manager-IsSound s (client_message (new_job id total_tasks job)) i =
    let j = reset_scheduler-IsSound s i in
    elim (Bool-cases (reset_scheduler s).node_manager) [
      | inl e ↦ rw e (
          Guarded-bind (with_capacity-Guarded 72 (total_tasks % 2 ^ 64)) λ _ _.
            guarded (record {
              tasks = j.tasks;
              workers = j.workers;
              results = j.results;
              nodes = j.nodes;
            }))
      | inr e ↦ rw e (
          Guarded-bind (with_capacity-Guarded 72 (total_tasks % 2 ^ 64)) λ _ _.
            guarded (record {
              tasks = j.tasks;
              workers = j.workers;
              results = j.results;
              nodes = j.nodes;
            }))
    ]
process_task_manager-IsSound s (client_message (task batch)) i =
    elim (Option-cases s.scheduled_job) [
      | inl e ↦ rw (e, process_task_manager) (guarded i)
      | inr (job, e) ↦
          rw (e, process_task_manager)
            (Guarded-bind (Returns-Guarded (push_tasks-Indexed s.tasks_queue batch i.tasks)) λ q k.
              guarded
                (record { tasks = k; workers = i.workers; results = i.results; nodes = i.nodes }))
    ]
process_task_manager-IsSound s client_disconnected i = elim (Option-cases s.task_manager) [
  | inl e ↦ rw (e, process_task_manager) (guarded i)
  | inr (address, e) ↦
      rw (e, process_task_manager)
        (guarded (
          reset_scheduler-IsSound
            (send (to_node_manager release_demand)
              (record s { scheduled_job = none; task_manager = none }))
            (record {
              tasks = i.tasks;
              workers = i.workers;
              results = i.results;
              nodes = i.nodes;
            })))
]
process_task_manager-IsSound s (client_connected address) i =
    guarded (record { tasks = i.tasks; workers = i.workers; results = i.results; nodes = i.nodes })

pub new-IsSound : (limit : ℕ) → IsSound (new limit)
unfolding new PriorityQueue.new VecMap.new place into_iter
new-IsSound limit = record {
  tasks = record {
    listed = λ p h. absurd (omega arith);
    located = λ k p e. absurd (cc (e, ap place_of (get-new k)));
    sized = refl;
  };
  workers = record {
    listed = λ p h. absurd (omega arith);
    located = λ k p e. absurd (cc (e, ap place_of (get-new k)));
    sized = refl;
  };
  results = ([], new-Holds);
  nodes = refl;
}

pub Step-IsSound : {s : Scheduler} {r : Run Scheduler} → Step s r → IsSound s → Guarded IsSound r
Step-IsSound (by_task_manager {s} event) i = process_task_manager-IsSound s event i
Step-IsSound (by_node_manager {s} event) i =
    Guarded-bind (process_node_manager-IsSound s event i) λ (_, s') j. guarded j
Step-IsSound (by_workers {s} event) i = process_workers-IsSound s event i
Step-IsSound (by_scheduling {s} flag) i = process_scheduling-IsSound s i

Reachable-IsSound : {limit : ℕ} {s : Scheduler} → Reachable limit s → IsSound s
Reachable-IsSound {limit} at_start = new-IsSound limit
Reachable-IsSound (followed before step e) =
    Guarded-ok (subst (Guarded IsSound) e (Step-IsSound step (Reachable-IsSound before)))

-- In every state that a run of the scheduler reaches from its start, the handler of any event that
-- can come next either panics or returns a state in which both queues are indexed, the results
-- buffer is initialised up to its length and the nodes are counted: no handler reads outside the
-- contract of an unchecked access, and no loop exceeds its bound.
pub Reachable-Guarded :
    (limit : ℕ) (s : Scheduler) (r : Run Scheduler)
    → Reachable limit s
    → Step s r
    → Guarded IsSound r
Reachable-Guarded limit s r before step = Step-IsSound step (Reachable-IsSound before)
