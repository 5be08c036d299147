-- ===== src/TaskManager/Tests.antt =====
-- The runs of the modules' own tests at smaller numbers, and the theorems at them.
use grid_server.Base.{
  suc, ◌+◌, ◌-◌, ◌*◌, ◌^◌, ◌≡◌, ◌↔◌, refl, true, [], ◌∷◌, arith, ok, Returns, length,
}
use grid_server.TaskManager.Combinations.{extract_combination}
use grid_server.TaskManager.Combinations.Digits.{
  IsAssignment, nobody, assigned, number, extract-IsAssignment, extract-number,
}
use grid_server.TaskManager.JobData.{JobData, validate, IsValid, validate-IsValid}
use grid_server.TaskManager.Splitter.{total_tasks, new, drain, next, advance}
use grid_server.TaskManager.Splitter.Enumeration.{all_tasks, drain-new}

-- One taxi and two passengers: both split in two ways.
two_splits :
    drain 4 (new 1 2)
    ≡ ok (
        (0, record { taxi = 0; combinations = (2, 1) })
        ∷ (1, record { taxi = 0; combinations = (3, 0) })
        ∷ [])
unfolding drain new next advance
two_splits = refl

drain-new_example :
    (drain (suc (suc (2 * 2 ^ 3))) (new 2 (suc 3))
      ≡ ok (all_tasks (2 ^ 3 + 2 ^ 3 - 1) (2 ^ 3) 0 0 2))
    × (total_tasks (new 2 (suc 3)) ≡ length (all_tasks (2 ^ 3 + 2 ^ 3 - 1) (2 ^ 3) 0 0 2))
drain-new_example = drain-new 2 3 (omega arith) (omega arith)

extract-IsAssignment_example :
    Returns (λ pairs. IsAssignment 7 3 pairs × (number 7 pairs ≡ 100)) (extract_combination 7 3 100)
extract-IsAssignment_example = extract-IsAssignment 7 3 100 (omega arith) (omega arith)

extract-number_example :
    Returns
      (λ r. r ≡ record { passenger = 0; taxi = 4 } ∷ [])
      (extract_combination 7 1 (number 7 (record { passenger = 0; taxi = 4 } ∷ [])))
extract-number_example = extract-number 7 1 _ (assigned 4 (omega arith) nobody)

abbrev two_vertices : JobData
two_vertices = record {
  graph = (0 ∷ 1 ∷ []) ∷ (1 ∷ 0 ∷ []) ∷ [];
  taxies = 1 ∷ [];
  passengers = (0, 1) ∷ [];
}

validate-IsValid_example : (validate two_vertices ≡ true) ↔ IsValid two_vertices
validate-IsValid_example = validate-IsValid two_vertices
