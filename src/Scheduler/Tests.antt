-- ===== src/Scheduler/Tests.antt =====
-- A job with one task on one worker, from its arrival to its completion, and the theorems at the
-- states on the way.
use grid_server.Base.{
  zero, suc, Guarded-ok, Returns-ok, subst, some_inj, ◌≡◌, refl, true, false, none, some, [], ◌∷◌,
  arith, Run, ok, panic, ◌>>=◌, Returns, Guarded,
}
use grid_server.Buffer
use grid_server.Buffer.Contents.{new-Holds}
use grid_server.Messages.{
  WorkerTask, WorkerResult, WorkerInfo, WorkerJobData, finished, new_job, task, job_complete,
  release_demand, library_of,
}
use grid_server.Platform.{Platform, x86_64, unix, linux, same_platform}
use grid_server.PriorityQueue
use grid_server.PriorityQueue.{PriorityQueue}
use grid_server.PriorityQueue.Stored.{push-Stored}
use grid_server.Scheduler.{
  Scheduler, Worker, to_task_manager, to_node_manager, to_worker, cancelled, new, add_u128,
  can_accept, sub_usize, clear_nodes, remove_found, position, fewer,
}
use grid_server.Scheduler.Assign.{process_scheduling, with_capacity, request_of, vec_pop}
use grid_server.Scheduler.Capacity.{process_scheduling-AllFit}
use grid_server.Scheduler.Capacity.Serving.{Outcome, AllFit}
use grid_server.Scheduler.Events.{
  connected, message, client_message, process_workers, process_task_manager, at_start, by_workers,
  process_worker_disconnect, insert_connected_node,
}
use grid_server.Scheduler.Guards.{with_ref_mut}
use grid_server.Scheduler.Results.{process_result, deliver, reset_scheduler, average, drop_replaced}
use grid_server.Scheduler.Laws.{fewer-IsPriority}
use grid_server.Scheduler.Capacity.Tasks.{Fits}
use grid_server.Scheduler.Delivery.{delivered, Accounted}
use grid_server.Scheduler.Delivery.Once.{with_result, process_result-Accounted}
use grid_server.Scheduler.Disconnect.{Forgotten, process_worker_disconnect-Forgotten}
use grid_server.Scheduler.Late.{average-last, drop_replaced-panics}
use grid_server.Scheduler.Sound.{IsSound}
use grid_server.Scheduler.Sound.Events.{process_workers-IsSound, new-IsSound, Reachable-Guarded}
use grid_server.VecMap

abbrev platform : Platform
platform = record { arch = x86_64; family = unix; os = linux }

abbrev info : WorkerInfo
info = record { worker_id = 1; subworkers = 2; address = 9; platform = platform }

abbrev job_data : WorkerJobData
job_data = record { args = 5 ∷ []; libraries = (platform, 6 ∷ []) ∷ [] }

abbrev only_task : WorkerTask
only_task = record { id = 0; bytes = 7 ∷ [] }

abbrev its_result : WorkerResult
its_result = record { id = 0; execution_time = 3; bytes = 8 ∷ [] }

abbrev whole_job : Run Scheduler
whole_job = do
  a ← process_task_manager (new 3) (client_message (new_job 4 1 job_data))
  b ← process_workers a (connected info 2)
  c ← process_task_manager b (client_message (task (only_task ∷ [])))
  d ← process_scheduling c
  process_workers d (message 1 (finished its_result))

what_was_sent :
    (whole_job >>= λ s. ok s.sent)
    ≡ ok (
        to_worker 1 (record {
          job = 4;
          job_data = some (5 ∷ [], 6 ∷ []);
          replacements = [];
          tasks = only_task ∷ only_task ∷ [];
        })
        ∷ to_task_manager (
            job_complete (its_result ∷ []) (record {
              total_tasks = 1;
              completed_tasks = 1;
              failed_tasks = 0;
              avg_task_completion_time = 3;
            }))
        ∷ to_node_manager release_demand
        ∷ cancelled 2
        ∷ [])
unfolding process_task_manager process_workers process_scheduling new PriorityQueue.new VecMap.new
    PriorityQueue.push VecMap.get_mut VecMap.insert VecMap.clear PriorityQueue.clear
    VecMap.get_unchecked_mut PriorityQueue.Guards.peek_mut PriorityQueue.Guards.deref can_accept
    sub_usize with_capacity PriorityQueue.Guards.PeekMut_write PriorityQueue.Guards.deref_mut
    PriorityQueue.Guards.drop_peek_mut add_u128 process_result VecMap.contains_key Buffer.clear
    Buffer.filled_slice Buffer.new Buffer.push Buffer.write Buffer.assume_init
    PriorityQueue.Guards.RefMut_write PriorityQueue.Guards.drop_ref_mut PriorityQueue.Guards.get_mut
    PriorityQueue.remove PriorityQueue.swap_remove PriorityQueue.vec_swap_remove request_of vec_pop
    insert_connected_node deliver with_ref_mut reset_scheduler clear_nodes same_platform library_of
    VecMap.get VecMap.get_unchecked VecMap.into_iter VecMap.write VecMap.remove_unchecked average
    remove_found PriorityQueue.swap
what_was_sent = refl

abbrev idle_worker : Worker
idle_worker = record {
  id = 1;
  subworkers = 2;
  platform = platform;
  has_job_data = false;
  address = 9;
  replacements = [];
  assignments = [];
}

-- The worker connects to a scheduler that has no job.
abbrev joined : Scheduler
joined = record (new 3) {
  nodes = record { n = 1; v = none ∷ some 2 ∷ [] };
  workers_queue = record {
    map = record { n = 1; v = none ∷ some (0, idle_worker) ∷ [] };
    heap = 1 ∷ [];
  };
  need_schedule = true;
}

joined-IsSound : IsSound joined
unfolding process_workers insert_connected_node new PriorityQueue.new VecMap.new PriorityQueue.push
    VecMap.get_mut VecMap.get VecMap.insert VecMap.get_unchecked_mut VecMap.get_unchecked
    VecMap.write
joined-IsSound = Guarded-ok (process_workers-IsSound (new 3) (connected info 2) (new-IsSound 3))

-- Its job arrives.
abbrev ready : Scheduler
ready = record joined {
  scheduled_job = some (record {
    total_tasks = 1;
    scheduled_tasks = 0;
    received_tasks = 1;
    completed_tasks = 0;
    failed_tasks = 0;
    avg_task_completion_time = 0;
    job = job_data;
    id = 4;
  });
  tasks_queue = record {
    map = record {
      n = 1;
      v = some (0, record { task_data = only_task; failed_executions = 0; assignments = [] }) ∷ [];
    };
    heap = 0 ∷ [];
  };
}

ready-IsSound : IsSound ready
unfolding new Buffer.new PriorityQueue.new VecMap.new PriorityQueue.push VecMap.get_mut
    VecMap.insert VecMap.get_unchecked_mut VecMap.get_unchecked VecMap.write
ready-IsSound = record {
  tasks =
      (Returns-ok (
        push-Stored fewer fewer-IsPriority PriorityQueue.new 0
          (record { task_data = only_task; failed_executions = 0; assignments = [] })
          (new-IsSound 3).tasks)).indexed;
  workers = joined-IsSound.workers;
  results = joined-IsSound.results;
  nodes = joined-IsSound.nodes;
}

ready-AllFit : AllFit ready
unfolding PriorityQueue.get VecMap.get
ready-AllFit zero w e = absurd (cc e)
ready-AllFit (suc zero) w e =
    subst Fits (some_inj e) (record { room = omega arith; small = omega arith })
ready-AllFit (suc (suc k)) w e = absurd (ground (arith, e))

ready-Accounted : Accounted ready []
unfolding new Buffer.new delivered
ready-Accounted = record { kept = []; holds = new-Holds; total = refl }

Reachable-Guarded_example : Guarded IsSound (process_workers (new 3) (connected info 2))
Reachable-Guarded_example =
    Reachable-Guarded 3 (new 3) (process_workers (new 3) (connected info 2)) at_start
      (by_workers (connected info 2))

process_scheduling-AllFit_example : Returns (Outcome ready) (process_scheduling ready)
process_scheduling-AllFit_example = process_scheduling-AllFit ready ready-IsSound ready-AllFit

process_result-Accounted_example :
    Guarded
      (λ t.
        Accounted t (with_result (PriorityQueue.get ready.tasks_queue 0) [] its_result)
        × (PriorityQueue.get t.tasks_queue 0 ≡ none))
      (process_result ready 1 its_result)
process_result-Accounted_example =
    process_result-Accounted ready _ 1 its_result [] ready-IsSound refl ready-Accounted

process_worker_disconnect-Forgotten_example :
    Guarded (Forgotten ready 1) (process_worker_disconnect ready 1)
process_worker_disconnect-Forgotten_example =
    process_worker_disconnect-Forgotten ready 1 ready-IsSound

average-last_example : average 100 4 20 ≡ 4
average-last_example = average-last 100 4 20 (omega arith)

-- A worker that is to replace a task, and has no other.
abbrev replacing : PriorityQueue Worker
replacing = record {
  map = record { n = 1; v = none ∷ some (0, record idle_worker { replacements = 0 ∷ [] }) ∷ [] };
  heap = 1 ∷ [];
}

drop_replaced-panics_example : drop_replaced replacing 1 0 ≡ panic
unfolding PriorityQueue.get VecMap.get position
drop_replaced-panics_example =
    drop_replaced-panics replacing 1 0 0 (record idle_worker { replacements = 0 ∷ [] }) refl refl
      (omega arith)
