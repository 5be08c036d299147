-- ===== src/TaskManager/Combinations.antt =====
-- task_manager/src/reducer.rs: the assignments of passengers to taxies. Each is a number written with
-- one digit per passenger. A remainder by zero panics.
pub mod Digits
use grid_server.Base.{
  ℕ, zero, suc, ◌+◌, ◌-◌, ◌*◌, ◌/◌, ◌%◌, ◌^◌, Option, none, some, List, [], ◌∷◌, Run, ok, panic,
  ◌>>=◌, ◌==◌, if◌then◌else◌,
}

pub record Pair : Type 0 where
  pub taxi : ℕ
  pub passenger : ℕ

pub record CombinationGenerator : Type 0 where
  pub n : ℕ
  pub taxies : ℕ
  pub passengers : ℕ

unfoldable pub new : ℕ → ℕ → CombinationGenerator
new taxies passengers = record {
  n = taxies ^ (passengers % 2 ^ 32) % 2 ^ 128;
  taxies = taxies;
  passengers = passengers;
}

-- The digits of `num`, the last passenger first.
unfoldable pub extract_combination : ℕ → ℕ → ℕ → Run (List Pair)
extract_combination taxies zero num = ok []
extract_combination taxies (suc passenger) num =
    let rest = extract_combination taxies passenger (num / taxies) in
    if taxies == 0
    then panic
    else rest >>= λ pairs. ok (record { passenger = passenger; taxi = num % taxies } ∷ pairs)

unfoldable pub next : CombinationGenerator → Option (Run (List Pair)) × CombinationGenerator
unfolding extract_combination
next g =
    if g.n == 0
    then (none, g)
    else (some (extract_combination g.taxies g.passengers (g.n - 1)), record g { n = g.n - 1 })
