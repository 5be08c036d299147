-- ===== src/PriorityQueue/Tests.antt =====
-- A run of the queue, and the theorems at a queue of three ids.
use grid_server.Base.{
  ℕ, ◌≡◌, refl, true, none, some, [], ◌∷◌, arith, Run, ok, ◌>>=◌, Returns, Returns-ok, ltb, ◌+◌,
  ◌-◌,
}
use grid_server.VecMap
use grid_server.PriorityQueue.{
  PriorityQueue, new, get, get_priority_from_position, swap, pop, push, remove, iter,
  change_priority, change_priority_by,
}
use grid_server.PriorityQueue.Guards.Writes.{
  update_through_get_mut, update_through_peek_mut, peek_mut-Updated, get_mut-Updated,
  get_mut-raised,
}
use grid_server.PriorityQueue.Index.{place}
use grid_server.PriorityQueue.Order.{IsPriority, IsHeap, IsQueue}
use grid_server.PriorityQueue.Update.{
  Updated, Changed, push-Updated, change_priority-Changed, change_priority_by-Updated,
}
use grid_server.PriorityQueue.Extract.{Popped, Removed, pop-Popped, remove-Removed}

ltb-IsPriority : IsPriority ltb
ltb-IsPriority = record { asym = λ a b h. ground arith; cotrans = λ a b c h k. ground arith }

-- The queue of the module's own test, with the same calls at its start.
abbrev filled : Run (PriorityQueue ℕ)
filled = do
  (_, a) ← push ltb new 1 10
  (_, b) ← push ltb a 3 1
  (_, c) ← push ltb b 6 1
  (_, d) ← push ltb c 1 8
  (_, e) ← push ltb d 7 3
  (_, f) ← push ltb e 2 10
  ok f

drained : (filled >>= iter) ≡ ok (10 ∷ 8 ∷ 1 ∷ 1 ∷ 3 ∷ [])
unfolding push new iter get_priority_from_position swap VecMap.get_mut VecMap.get_unchecked_mut
    VecMap.insert
drained = refl

abbrev sample : PriorityQueue ℕ
sample = record {
  map = record { n = 3; v = none ∷ some (0, 10) ∷ none ∷ some (1, 1) ∷ some (2, 3) ∷ [] };
  heap = 1 ∷ 3 ∷ 4 ∷ [];
}

abbrev pair : PriorityQueue ℕ
pair = record {
  map = record { n = 2; v = none ∷ some (0, 10) ∷ none ∷ some (1, 1) ∷ [] };
  heap = 1 ∷ 3 ∷ [];
}

abbrev single : PriorityQueue ℕ
single = record { map = record { n = 1; v = none ∷ some (0, 10) ∷ [] }; heap = 1 ∷ [] }

empty-IsQueue : IsQueue ltb (new {V = ℕ})
unfolding new VecMap.new place VecMap.get
empty-IsQueue = record {
  indexed = record {
    listed = λ p h. absurd (omega arith);
    located = λ k p e. absurd (ground arith);
    sized = refl;
  };
  ordered = λ c p h. absurd (omega arith);
}

single-IsQueue : IsQueue ltb single
unfolding push new VecMap.get_mut VecMap.get_unchecked_mut VecMap.insert
single-IsQueue = (Returns-ok (push-Updated ltb ltb-IsPriority new 1 10 empty-IsQueue)).1.queue

pair-IsQueue : IsQueue ltb pair
unfolding push VecMap.get_mut VecMap.get_unchecked_mut VecMap.insert
pair-IsQueue = (Returns-ok (push-Updated ltb ltb-IsPriority single 3 1 single-IsQueue)).1.queue

sample-IsQueue : IsQueue ltb sample
unfolding push VecMap.get_mut VecMap.get_unchecked_mut VecMap.insert
sample-IsQueue = (Returns-ok (push-Updated ltb ltb-IsPriority pair 4 3 pair-IsQueue)).1.queue

push-Updated_example :
    Returns (λ (old, r). (old ≡ get sample 3) × Updated ltb sample 3 12 r) (push ltb sample 3 12)
push-Updated_example = push-Updated ltb ltb-IsPriority sample 3 12 sample-IsQueue

pop-Popped_example : Returns (λ (o, r). IsQueue ltb r × Popped ltb sample o r) (pop ltb sample)
pop-Popped_example = pop-Popped ltb ltb-IsPriority sample sample-IsQueue

remove-Removed_example :
    Returns (λ (o, r). IsQueue ltb r × Removed ltb sample 3 o r) (remove ltb sample 3)
remove-Removed_example = remove-Removed ltb ltb-IsPriority sample 3 sample-IsQueue

change_priority-Changed_example :
    Returns
      (λ (o, r). IsQueue ltb r × Changed ltb sample 4 20 o r)
      (change_priority ltb sample 4 20)
change_priority-Changed_example =
    change_priority-Changed ltb ltb-IsPriority sample 4 20 sample-IsQueue

change_priority_by-Updated_example :
    Returns
      (λ (done, r). (done ≡ true) × Updated ltb sample 3 11 r)
      (change_priority_by ltb sample 3 (λ x. ok (x + 10)))
unfolding get VecMap.get
change_priority_by-Updated_example =
    change_priority_by-Updated ltb ltb-IsPriority sample 3 (λ x. ok (x + 10)) 1 11 sample-IsQueue
      refl refl

get_mut-Updated_example :
    Returns (Updated ltb sample 4 2) (update_through_get_mut ltb sample 4 (λ x. x - 1))
unfolding get VecMap.get
get_mut-Updated_example =
    get_mut-Updated ltb ltb-IsPriority sample 4 3 (λ x. x - 1) sample-IsQueue refl refl

peek_mut-Updated_example :
    Returns (Updated ltb sample 1 2) (update_through_peek_mut ltb sample (λ x. x - 8))
unfolding get VecMap.get
peek_mut-Updated_example =
    peek_mut-Updated ltb ltb-IsPriority sample 1 10 (λ x. x - 8) sample-IsQueue refl refl

get_mut-raised_example :
    Returns (λ r. ¬ IsHeap ltb r) (update_through_get_mut ltb sample 4 (λ x. x + 10))
unfolding get VecMap.get place
get_mut-raised_example =
    get_mut-raised ltb ltb-IsPriority sample 4 2 3 10 (λ x. x + 10) sample-IsQueue refl refl
      (omega arith) refl refl
