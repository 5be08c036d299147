-- ===== src/Scheduler/Capacity/Replacements.antt =====
-- scheduler/src/scheduler.rs: what the second loop of process_scheduling gives a worker.
use grid_server.Base.{
  append_one, ℕ, zero, suc, ◌+◌, ◌-◌, ◌≤◌, ◌<◌, ◌≡◌, refl, sym, ap, ◌∙◌, ◌⊎◌, inl, inr, none, some,
  List, [], ◌∷◌, ◌++◌, arith, Option-cases, some_inj, length, get_elem?, take, length-append,
  get_elem?-some, append_nil, ok, ◌>>=◌, Returns, returns, Returns-if, Returns-map, Returns-bind,
}
use grid_server.Messages.{WorkerTask}
use grid_server.PriorityQueue.Guards.{PeekMut}
use grid_server.PriorityQueue.Index.{IsIndexed}
use grid_server.Scheduler.{Worker, Task}
use grid_server.Scheduler.Assign.{
  add_assignment, give, count_scheduled, Assigning, is_eligible, take_replacement, vec_pop,
  assign_replacements,
}
use grid_server.Scheduler.Sound.Assign.{IsTop, add_assignment-Indexed, IsTop-cases}
use grid_server.Scheduler.Capacity.Tasks.{
  replacing_ids, NoTask, no_tasks, peek_mut-none, is_eligible-NoTask,
}

-- The list from whose end the tasks to replace were taken, one after the other.
abbrev pub restored : List ℕ → List (ℕ × WorkerTask) → List ℕ
restored rest [] = rest
restored rest ((id, _) ∷ given) = restored rest given ++ id ∷ []

pub length-restored :
    (rest : List ℕ) (given : List (ℕ × WorkerTask))
    → length (restored rest given) ≡ length rest + length given
length-restored rest [] = omega arith
length-restored rest ((id, _) ∷ given) =
    omega (arith, length-append (restored rest given) (id ∷ []), length-restored rest given)

-- What the second loop adds: each task comes in place of one that is taken from the end of the
-- worker's list.
pub record Replaced (s s' : Assigning) : Type 0 where
  pub given : List (ℕ × WorkerTask)
  pub replacements : s'.replacements ≡ s.replacements ++ given
  pub assignments : s'.worker.assignments ≡ s.worker.assignments ++ replacing_ids given
  pub to_replace : s.worker.replacements ≡ restored s'.worker.replacements given
  pub id : s'.worker.id ≡ s.worker.id
  pub subworkers : s'.worker.subworkers ≡ s.worker.subworkers
  pub tasks : s'.tasks ≡ s.tasks
  pub ended : (length s.worker.replacements ≡ 0) ⊎ ((0 < length given) ⊎ NoTask s.tasks_queue s.job)

Replaced-nothing :
    (s s' : Assigning)
    → s'.tasks ≡ s.tasks
    → s'.worker ≡ s.worker
    → s'.replacements ≡ s.replacements
    → (length s.worker.replacements ≡ 0) ⊎ NoTask s.tasks_queue s.job
    → Replaced s s'
Replaced-nothing s s' t w r ended = record {
  given = [];
  replacements = r ∙ append_nil s.replacements;
  assignments = ap (λ (x : Worker). x.assignments) w ∙ append_nil s.worker.assignments;
  to_replace = sym (ap (λ (x : Worker). x.replacements) w);
  id = ap (λ (x : Worker). x.id) w;
  subworkers = ap (λ (x : Worker). x.subworkers) w;
  tasks = t;
  ended = elim ended [ inl none_left ↦ inl none_left | inr refused ↦ inr (inr refused) ];
}

cut_at :
    (n : ℕ) (xs : List ℕ) (x : ℕ)
    → length xs ≡ suc n
    → get_elem? xs n ≡ some x
    → xs ≡ take n xs ++ x ∷ []
cut_at n [] x l e = absurd (cc e)
cut_at zero (y ∷ []) x l e = ap (λ z. z ∷ []) (some_inj e)
cut_at zero (y ∷ z ∷ xs) x l e = absurd (omega (arith, l))
cut_at (suc n) (y ∷ xs) x l e = ap (◌∷◌ y) (cut_at n xs x (omega (arith, l)) e)

cut_last :
    (xs : List ℕ) (x : ℕ)
    → get_elem? xs (length xs - 1) ≡ some x
    → xs ≡ take (length xs - 1) xs ++ x ∷ []
cut_last [] x e = absurd (cc e)
cut_last (y ∷ xs) x e = cut_at (length (y ∷ xs) - 1) (y ∷ xs) x (omega arith) e

vec_pop-last :
    (xs : List ℕ) (x : ℕ) (rest : List ℕ) → vec_pop xs ≡ some (x, rest) → xs ≡ rest ++ x ∷ []
unfolding vec_pop
vec_pop-last xs x rest e = elim (Option-cases (get_elem? xs (length xs - 1))) [
  | inl f ↦ let nothing : vec_pop xs ≡ none = rw (f, vec_pop) refl in absurd (cc (e, nothing))
  | inr (y, f) ↦
      let last : vec_pop xs ≡ some (y, take (length xs - 1) xs) = rw (f, vec_pop) refl in
      let same : (x, rest) ≡ (y, take (length xs - 1) xs) = some_inj (sym e ∙ last) in
      cut_last xs y f ∙ sym (ap (λ p. p.1 ++ p.0 ∷ []) same)
]

no_last : (xs : List ℕ) → get_elem? xs (length xs - 1) ≡ none → length xs ≡ 0
no_last [] e = refl
no_last (y ∷ ys) e = absurd (cc (e, get_elem?-some (y ∷ ys) (length (y ∷ ys) - 1) y (omega arith)))

vec_pop-none : (xs : List ℕ) → vec_pop xs ≡ none → length xs ≡ 0
unfolding vec_pop
vec_pop-none xs e = elim (Option-cases (get_elem? xs (length xs - 1))) [
  | inl f ↦ no_last xs f
  | inr (y, f) ↦
      let last : vec_pop xs ≡ some (y, take (length xs - 1) xs) = rw (f, vec_pop) refl in
      absurd (cc (e, last))
]

one_fewer :
    (s m : Assigning) (task_id rounds : ℕ)
    → length s.worker.replacements ≤ suc rounds
    → s.worker.replacements ≡ m.worker.replacements ++ task_id ∷ []
    → length m.worker.replacements ≤ rounds
one_fewer s m task_id rounds l e =
    omega (arith, l, ap length e, length-append m.worker.replacements (task_id ∷ []))

-- One round of it.
record TookOver (t : ℕ × WorkerTask) (s m : Assigning) : Type 0 where
  replacements : m.replacements ≡ s.replacements ++ t ∷ []
  assignments : m.worker.assignments ≡ s.worker.assignments ++ t.1.id ∷ []
  to_replace : s.worker.replacements ≡ m.worker.replacements ++ t.0 ∷ []
  id : m.worker.id ≡ s.worker.id
  subworkers : m.worker.subworkers ≡ s.worker.subworkers
  tasks : m.tasks ≡ s.tasks
  indexed : IsIndexed m.tasks_queue

take_over :
    (s : Assigning) (guard : PeekMut Task) (task : Task) (task_id : ℕ) (others : List ℕ)
    → IsIndexed s.tasks_queue
    → IsTop s.tasks_queue guard task
    → vec_pop s.worker.replacements ≡ some (task_id, others)
    → Returns (TookOver (task_id, task.task_data) s) (do
      q ← add_assignment guard s.worker.id
      ok (record s {
        tasks_queue = q;
        worker = record (give s.worker task.task_data.id) { replacements = others };
        job = count_scheduled s.job task;
        replacements = s.replacements ++ (task_id, task.task_data) ∷ [];
      }))
take_over s guard task task_id others inv top popped =
    Returns-bind (add_assignment-Indexed s.tasks_queue guard task s.worker.id inv top) λ q k.
      returns (record {
        replacements = refl;
        assignments = refl;
        to_replace = vec_pop-last s.worker.replacements task_id others popped;
        id = refl;
        subworkers = refl;
        tasks = refl;
        indexed = k;
      })

Replaced-more :
    (s m s' : Assigning) (t : ℕ × WorkerTask) → TookOver t s m → Replaced m s' → Replaced s s'
Replaced-more s m s' t k g = record {
  given = t ∷ g.given;
  replacements =
      g.replacements
      ∙ ap (λ xs. xs ++ g.given) k.replacements
      ∙ append_one s.replacements t g.given;
  assignments =
      g.assignments
      ∙ ap (λ xs. xs ++ replacing_ids g.given) k.assignments
      ∙ append_one s.worker.assignments t.1.id (replacing_ids g.given);
  to_replace = k.to_replace ∙ ap (λ xs. xs ++ t.0 ∷ []) g.to_replace;
  id = g.id ∙ k.id;
  subworkers = g.subworkers ∙ k.subworkers;
  tasks = g.tasks ∙ k.tasks;
  ended = inr (inl (omega arith));
}

pub assign_replacements-Replaced :
    (rounds : ℕ) (s : Assigning)
    → IsIndexed s.tasks_queue
    → length s.worker.replacements ≤ rounds
    → Returns (Replaced s) (assign_replacements rounds s)
unfolding assign_replacements take_replacement
assign_replacements-Replaced zero s inv l =
    returns (Replaced-nothing s s refl refl refl (inl (omega (arith, l))))
assign_replacements-Replaced (suc rounds) s inv l = elim (IsTop-cases s.tasks_queue inv) [
  | inl e ↦
      rw (e, assign_replacements)
        (returns
          (Replaced-nothing s _ refl refl refl (inr (no_tasks (peek_mut-none s.tasks_queue e)))))
  | inr (guard, task, e, d, top) ↦
      rw (e, assign_replacements, d)
        (Returns-if (is_eligible s.job task)
          (λ _. elim (Option-cases (vec_pop s.worker.replacements)) [
            | inl none_left ↦
                rw (none_left, take_replacement)
                  (let empty = vec_pop-none s.worker.replacements none_left in
                    Returns-map (assign_replacements-Replaced rounds s inv (omega (arith, empty)))
                      λ s' g. record g { ended = inl empty })
            | inr ((task_id, others), popped) ↦
                rw (popped, take_replacement)
                  (Returns-bind (take_over s guard task task_id others inv top popped) λ m t.
                    Returns-map
                      (assign_replacements-Replaced rounds m t.indexed
                        (one_fewer s m task_id rounds l t.to_replace))
                      λ s' g. Replaced-more s m s' (task_id, task.task_data) t g)
          ])
          (λ refused. returns (
            Replaced-nothing s _ refl refl refl
              (inr (is_eligible-NoTask s.tasks_queue s.job guard task top refused)))))
]
