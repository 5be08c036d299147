-- ===== src/NodeManager.antt =====
-- node_manager/src/node_manager.rs, the loop of `process_queue` that gives the unassigned workers to the
-- demands. The slab of the workers is the function that finds a worker's platform. Counts of
-- workers wrap at 32 bits.
pub mod Matching
pub mod Queue
pub mod Rules
mod Tests
use grid_server.Base.{
  ℕ, zero, suc, ◌+◌, ◌-◌, ◌*◌, ◌/◌, ◌%◌, ◌^◌, ◌≤◌, ◌<◌, min, ◌≡◌, refl, sym, ap, ◌∙◌, subst, ◌≢◌,
  ◌↔◌, ◌⊎◌, inl, inr, Bool, true, false, not, ◌&&◌, ◌||◌, Option, none, some, List, [], ◌∷◌, ◌++◌,
  arith, ltb, leb, ◌==◌, if◌then◌else◌, ==_iff, Bool-cases, Option-cases, if_app, ==_refl, some_inj,
  length, get_elem?, get_or, set, take, replicate, length-append, length-set, length-take,
  length-replicate, get_elem?-set, get_elem?-append, get_elem?-some, get_or-set, append_assoc,
  append_nil, Run, ok, panic, undefined, out_of_fuel, or_else, ◌>>=◌, checked_sub, Returns, returns,
  Returns-inv, Returns-if, Returns-map, Returns-bind, Returns-ok, Guarded, Guarded-inv,
  Guarded-bind, Guarded-map, Guarded-if, Returns-then, IfReturns, IfReturns-bind, returned,
  IfReturns-then, IfReturns-ok, IfReturns-map,
}
use grid_server.Platform.{Platform, same_platform}
use grid_server.LinkedVecMap
use grid_server.LinkedVecMap.{LinkedVecMap, load, set_value, len}
use grid_server.LinkedVecSet
use grid_server.LinkedVecSet.{LinkedVecSet, front, pop_front}

pub record WorkersDemand : Type 0 where
  pub provided_workers : ℕ
  pub required_workers : Option ℕ
  pub supported_platforms : List Platform

unfoldable pub satisfied : WorkersDemand → Bool
satisfied d = elim d.required_workers [
  | none ↦ false
  | some required ↦ required == d.provided_workers
]

unfoldable pub supports : List Platform → Platform → Bool
supports [] platform = false
supports (p ∷ ps) platform = same_platform p platform || supports ps platform

abbrev pub accepts : WorkersDemand → Platform → Bool
accepts d platform = not (satisfied d) && supports d.supported_platforms platform

abbrev pub provide : WorkersDemand → WorkersDemand
provide d = record d { provided_workers = (d.provided_workers + 1) % 2 ^ 32 }

-- The loop over the demands, with the iterator `IterMut`, from the node `p` on.
unfoldable pub provide_from :
    LinkedVecMap WorkersDemand
    → Platform
    → (remaining p : ℕ) → Run (Option ℕ × LinkedVecMap WorkersDemand)
unfolding load set_value
provide_from m platform zero p = if p == m.head then ok (none, m) else panic
provide_from m platform (suc remaining) p =
    let rest = (do
      node ← load m p
      e ← or_else node.entry undefined
      let later = provide_from m platform remaining node.prev in
          if accepts e.1 platform
          then (do m' ← set_value m p (provide e.1); ok (some e.0, m'))
          else later) in
    if p == m.head then ok (none, m) else rest

unfoldable pub provide_worker :
    LinkedVecMap WorkersDemand → Platform → Run (Option ℕ × LinkedVecMap WorkersDemand)
unfolding provide_from load len
provide_worker m platform =
    if m.head == 0
    then provide_from m platform (len m) 0
    else (do guard ← load m m.head; provide_from m platform (len m) guard.prev)

-- `map.entry(scheduler_id).or_insert(Vec::new()).push(worker_id)`
unfoldable pub push_worker : List (ℕ × List ℕ) → ℕ → ℕ → List (ℕ × List ℕ)
push_worker [] scheduler worker = (scheduler, worker ∷ []) ∷ []
push_worker ((key, workers) ∷ rest) scheduler worker =
    let later = push_worker rest scheduler worker in
    if key == scheduler then (key, workers ++ worker ∷ []) ∷ rest else (key, workers) ∷ later

pub record Matches : Type 0 where
  pub unassigned_workers : LinkedVecSet
  pub workers_demands_queue : LinkedVecMap WorkersDemand
  pub map : List (ℕ × List ℕ)

module _ (platform_of : ℕ → Option Platform) where
  -- The loop over the unassigned workers; it ends at one that no demand accepts.
  unfoldable pub assign_workers : ℕ → Matches → Run Matches
  unfolding provide_worker push_worker front pop_front
  assign_workers zero q = out_of_fuel
  assign_workers (suc fuel) q = do
    worker ← front q.unassigned_workers
    elim worker [
      | none ↦ ok q
      | some worker_id ↦ elim (platform_of worker_id) [
        | none ↦ ok q
        | some platform ↦ do
          (found, demands) ← provide_worker q.workers_demands_queue platform
          elim found [
            | none ↦ ok (record q { workers_demands_queue = demands })
            | some scheduler_id ↦ do
              (popped, unassigned) ← pop_front q.unassigned_workers
              assign_workers fuel (record {
                unassigned_workers = unassigned;
                workers_demands_queue = demands;
                map = push_worker q.map scheduler_id worker_id;
              })
          ]
      ]
    ]
