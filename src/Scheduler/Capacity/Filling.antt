-- ===== src/Scheduler/Capacity/Filling.antt =====
-- scheduler/src/scheduler.rs: what both loops of process_scheduling give a worker.
use grid_server.Base.{
  ℕ, ◌+◌, ◌-◌, ◌*◌, ◌^◌, ◌≤◌, ◌≡◌, refl, sym, ap, ◌∙◌, subst, inl, inr, true, ◌||◌, [], ◌++◌, arith,
  ltb, length, length-append, Returns, Returns-map, Returns-bind,
}
use grid_server.PriorityQueue.Index.{IsIndexed}
use grid_server.Scheduler.{Scheduler, ScheduledJob, Worker, Task, can_accept, need_replace}
use grid_server.Scheduler.Assign.{Assigning, with_capacity, assign}
use grid_server.PriorityQueue.{PriorityQueue}
use grid_server.Scheduler.Capacity.Tasks.{
  Gave, NoTask, Fits, task_ids, replacing_ids, length-task_ids, length-replacing_ids,
  free-can_accept, assign_tasks-Gave,
}
use grid_server.Scheduler.Capacity.Replacements.{
  Replaced, restored, length-restored, assign_replacements-Replaced,
}

-- A worker that fits is given at most what it has room for; its assignments gain the tasks of the
-- request in their order, and the worker fits again.
pub record Filled (w : Worker) (a : Assigning) : Type 0 where
  pub fits : Fits a.worker
  pub few : length a.tasks ≤ w.subworkers - (length w.assignments + length w.replacements)
  pub assignments :
      a.worker.assignments ≡ (w.assignments ++ task_ids a.tasks) ++ replacing_ids a.replacements
  pub to_replace : w.replacements ≡ restored a.worker.replacements a.replacements
  pub subworkers : a.worker.subworkers ≡ w.subworkers
  pub id : a.worker.id ≡ w.id

-- Where nothing is given, no task can be.
abbrev pub Needless : PriorityQueue Task → ScheduledJob → Assigning → Type 0
Needless q job a = a.tasks ≡ [] → a.replacements ≡ [] → NoTask q job

Gave-Needless :
    (s m a : Assigning) (rounds : ℕ) (g : Gave rounds s m) (r : Replaced m a)
    → s.tasks ≡ []
    → s.replacements ≡ []
    → (ltb 0 rounds || ltb 0 (length s.worker.replacements)) ≡ true
    → Needless s.tasks_queue s.job a
Gave-Needless s m a rounds g r no_tasks_yet none_replaced wanted none_new none_over =
    let sent : a.tasks ≡ g.given = r.tasks ∙ g.tasks ∙ ap (λ xs. xs ++ g.given) no_tasks_yet in
    let over : a.replacements ≡ r.given =
      r.replacements ∙ ap (λ xs. xs ++ r.given) (g.replacements ∙ none_replaced) in
    elim g.ended [
      | inl (no_rounds, queue, job) ↦ elim r.ended [
        | inl empty ↦ absurd (ground (arith, no_rounds, empty, ap length g.to_replace, wanted))
        | inr (inl some_given) ↦
            absurd (omega (arith, some_given, ap length (sym over ∙ none_over)))
        | inr (inr refused) ↦
            subst (λ q. NoTask q s.job) queue (subst (λ j. NoTask m.tasks_queue j) job refused)
      ]
      | inr (inl some_given) ↦ absurd (omega (arith, some_given, ap length (sym sent ∙ none_new)))
      | inr (inr refused) ↦ refused
    ]

pub assign-Filled :
    (s : Scheduler) (job : ScheduledJob) (w : Worker)
    → IsIndexed s.tasks_queue
    → Fits w
    → (ltb 0 (can_accept w) || ltb 0 (need_replace w)) ≡ true
    → Returns (λ a. Filled w a × Needless s.tasks_queue job a) (assign s job w)
unfolding assign with_capacity
assign-Filled s job w inv f wanted =
    let free = free-can_accept w f in
    let small : ltb (can_accept w * 32) (2 ^ 63) ≡ true = ground (arith, free, f.small) in
    rw small (
      Returns-bind (assign_tasks-Gave (can_accept w) _ inv) λ m g.
        let few : length m.worker.replacements ≤ w.subworkers =
          omega (arith, f.room, ap length g.to_replace) in
        let narrow : ltb (need_replace m.worker * 40) (2 ^ 63) ≡ true =
          ground (arith, few, f.small) in
        rw narrow (
          Returns-map
            (assign_replacements-Replaced (need_replace m.worker) m g.indexed (omega arith))
            λ a r.
              let sent : a.tasks ≡ g.given = r.tasks ∙ g.tasks in
              let held : a.worker.assignments
                  ≡ (w.assignments ++ task_ids g.given) ++ replacing_ids r.given =
                r.assignments ∙ ap (λ xs. xs ++ replacing_ids r.given) g.assignments in
              let over : a.replacements ≡ r.given =
                r.replacements ∙ ap (λ xs. xs ++ r.given) g.replacements in
              (
                record {
                  fits = record {
                    room = omega (
                      arith,
                      ap length held,
                      length-append (w.assignments ++ task_ids g.given) (replacing_ids r.given),
                      length-append w.assignments (task_ids g.given),
                      length-task_ids g.given,
                      length-replacing_ids r.given,
                      ap length r.to_replace,
                      length-restored a.worker.replacements r.given,
                      ap length g.to_replace,
                      r.subworkers,
                      g.subworkers,
                      g.few,
                      free,
                      f.room,
                    );
                    small = omega (arith, r.subworkers, g.subworkers, f.small);
                  };
                  few = omega (arith, ap length sent, g.few, free);
                  assignments = rw (sent, over) held;
                  to_replace =
                      sym g.to_replace
                      ∙ r.to_replace
                      ∙ ap (restored a.worker.replacements) (sym over);
                  subworkers = r.subworkers ∙ g.subworkers;
                  id = r.id ∙ g.id;
                },
                Gave-Needless _ m a (can_accept w) g r refl refl wanted,
              )))
