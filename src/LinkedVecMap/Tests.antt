-- ===== src/LinkedVecMap/Tests.antt =====
-- A map of two keys.
use grid_server.Base.{true, false, ℕ, ◌+◌, ◌≡◌, refl, none, some, List, [], ◌∷◌, ok, ◌>>=◌}
use grid_server.LinkedVecMap.Commands.{
  do_ends, taken, do_entry_insert, do_entry_remove, do_clear, do_or_insert, done, Command,
  do_insert, do_remove, do_get_mut, do_get_refresh, do_pop_front, do_pop_back, do_front, do_back,
  do_iter, do_len, value, entry, listed, number, run_all, abstract_run_all, run_all-refines,
  from_iter-iter,
}
use grid_server.LinkedVecMap.Entries.{
  occupied_insert, occupied_remove, vacant_insert, or_insert, entry_of_key,
}
use grid_server.LinkedVecMap.Clearing.{clear}
use grid_server.LinkedVecMap.Iteration.{iter_ends}
use grid_server.LinkedVecMap.BothEnds.{take_ends}
use grid_server.LinkedVecMap.Inserting.{inserted}
use grid_server.LinkedVecMap.{new, from_iter, insert, remove, pop_front, iter}

moved :
    (do m ← from_iter {V = ℕ} ((4, 40) ∷ (1, 10) ∷ (2, 20) ∷ (4, 41) ∷ []); iter m)
    ≡ ok ((1, 10) ∷ (2, 20) ∷ (4, 41) ∷ [])
unfolding from_iter iter
moved = refl

popped :
    (do
      m ← from_iter {V = ℕ} ((4, 40) ∷ (1, 10) ∷ (2, 20) ∷ [])
      (first, m1) ← pop_front m
      (removed, m2) ← remove m1 1
      (old, m3) ← insert m2 7 70
      iter m3)
    ≡ ok ((2, 20) ∷ (7, 70) ∷ [])
unfolding from_iter iter pop_front remove
popped = refl

abbrev session : List (Command ℕ)
session =
    do_insert 4 40
    ∷ do_insert 1 10
    ∷ do_insert 2 20
    ∷ do_insert 4 41
    ∷ do_get_refresh 1
    ∷ do_remove 2
    ∷ do_get_mut 4 (λ v. v + 1)
    ∷ do_insert 7 70
    ∷ do_iter
    ∷ do_pop_front
    ∷ do_pop_back
    ∷ do_front
    ∷ do_back
    ∷ do_remove 9
    ∷ do_len
    ∷ do_or_insert 1 11
    ∷ do_clear
    ∷ do_or_insert 3 30
    ∷ do_entry_insert 3 31
    ∷ do_entry_insert 5 50
    ∷ do_iter
    ∷ do_ends (false ∷ true ∷ true ∷ [])
    ∷ do_entry_remove 3
    ∷ []

answers :
    run_all new session
    ≡ ok (
        value none
        ∷ value none
        ∷ value none
        ∷ value (some 40)
        ∷ value (some 10)
        ∷ value (some 20)
        ∷ value (some 41)
        ∷ value none
        ∷ listed ((4, 42) ∷ (1, 10) ∷ (7, 70) ∷ [])
        ∷ entry (some (4, 42))
        ∷ entry (some (7, 70))
        ∷ entry (some (1, 10))
        ∷ entry (some (1, 10))
        ∷ value none
        ∷ number 1
        ∷ value (some 10)
        ∷ done
        ∷ value (some 30)
        ∷ value (some 30)
        ∷ value none
        ∷ listed ((3, 31) ∷ (5, 50) ∷ [])
        ∷ taken (some (5, 50) ∷ some (3, 31) ∷ none ∷ [])
        ∷ value (some 31)
        ∷ [])
unfolding run_all new or_insert entry_of_key clear iter_ends take_ends occupied_insert
    occupied_remove vacant_insert
answers = refl

run_all-refines_example : run_all new session ≡ ok (abstract_run_all [] session)
run_all-refines_example = run_all-refines session

from_iter-iter_example :
    (from_iter ((4, 40) ∷ (1, 10) ∷ (4, 41) ∷ []) >>= iter)
    ≡ ok (inserted {V = ℕ} [] ((4, 40) ∷ (1, 10) ∷ (4, 41) ∷ []))
from_iter-iter_example = from_iter-iter ((4, 40) ∷ (1, 10) ∷ (4, 41) ∷ [])
