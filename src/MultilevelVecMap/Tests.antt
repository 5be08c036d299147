-- ===== src/MultilevelVecMap/Tests.antt =====
-- The theorems at a map of two levels that holds 7 under `[1, 2]`.
use grid_server.Base.{
  none, ◌+◌, ◌<◌, ℕ, zero, suc, ◌≡◌, refl, some, [], ◌∷◌, ok, Returns, returns, arith,
}
use grid_server.MultilevelVecMap.Remove.{Edited, get_mut-Edited, remove-Edited}
use grid_server.MultilevelVecMap.{
  get_mut, remove, len, MultilevelVecMap, new, empty, value, level, Entries, nil, cons, nth, nth_or,
  insert, get,
}
use grid_server.MultilevelVecMap.Slots.{AreEntries, AreEntries-nil}
use grid_server.MultilevelVecMap.Insert.{IsNested, Inserted, insert-Inserted}

abbrev below_one : Entries ℕ
below_one = cons empty (cons empty (cons (value 7) nil))

abbrev one_key : MultilevelVecMap ℕ
one_key = record { n = 1; levels_idx = 1; vec = cons (level nil) (cons (level below_one) nil) }

below_one-AreEntries : AreEntries 0 below_one
unfolding nth_or nth
below_one-AreEntries zero = tt
below_one-AreEntries (suc zero) = tt
below_one-AreEntries (suc (suc zero)) = tt
below_one-AreEntries (suc (suc (suc i))) = tt

one_key-IsNested : IsNested one_key
unfolding nth_or nth
one_key-IsNested zero = λ i. tt
one_key-IsNested (suc zero) = below_one-AreEntries
one_key-IsNested (suc (suc i)) = λ j. tt

insert-Inserted_example : Returns (Inserted one_key (1 ∷ []) 9) (insert one_key (1 ∷ []) 9)
insert-Inserted_example = insert-Inserted one_key (1 ∷ []) 9 one_key-IsNested (omega arith)

found : get one_key (1 ∷ 2 ∷ []) ≡ ok (some 7)
unfolding get nth
found = refl

new-IsNested : Returns (IsNested {T = ℕ}) (new 3)
unfolding new
new-IsNested = returns (AreEntries-nil ℕ 2)

get_mut-Edited_example :
    Returns
      (Edited one_key (1 ∷ 2 ∷ []) (λ x. some (x + 1)) 0)
      (get_mut one_key (1 ∷ 2 ∷ []) (λ x. x + 1))
get_mut-Edited_example =
    get_mut-Edited one_key (1 ∷ 2 ∷ []) (λ x. x + 1) one_key-IsNested (omega arith)

one_key-IsCounted : (v : ℕ) → get one_key (1 ∷ 2 ∷ []) ≡ ok (some v) → 0 < len one_key
unfolding len
one_key-IsCounted v found_value = omega arith

remove-Edited_example :
    Returns (Edited one_key (1 ∷ 2 ∷ []) (λ x. none) 1) (remove one_key (1 ∷ 2 ∷ []))
remove-Edited_example =
    remove-Edited one_key (1 ∷ 2 ∷ []) one_key-IsNested (omega arith) one_key-IsCounted
