-- ===== src/LinkedVecSet/Tests.antt =====
-- A set that is filled and emptied.
use grid_server.Base.{ℕ, ◌≡◌, refl, Bool, true, false, Option, some, [], ◌∷◌, Run, ok, ◌>>=◌}
use grid_server.LinkedVecSet.{new, insert, remove, pop_front, into_iter, clear}
use grid_server.LinkedVecSet.Members.{insert_all, last_occurrences, into_iter-insert_all}

refreshed : (do s ← insert_all new (3 ∷ 5 ∷ 3 ∷ 8 ∷ []); into_iter s) ≡ ok (5 ∷ 3 ∷ 8 ∷ [])
unfolding new insert into_iter
refreshed = refl

unfoldable answers : Run (Option ℕ × Bool × Bool × Bool)
unfolding new insert pop_front remove clear
answers = do
  s ← insert_all new (3 ∷ 5 ∷ [])
  (first, s1) ← pop_front s
  (again, s2) ← insert s1 5
  (gone, s3) ← remove s2 3
  s4 ← clear s3
  (fresh, s5) ← insert s4 5
  ok (first, again, gone, fresh)

emptied : answers ≡ ok (some 3, true, false, false)
unfolding answers
emptied = refl

into_iter-insert_all_example :
    (insert_all new (3 ∷ 5 ∷ 3 ∷ 8 ∷ []) >>= into_iter) ≡ ok (last_occurrences (3 ∷ 5 ∷ 3 ∷ 8 ∷ []))
into_iter-insert_all_example = into_iter-insert_all (3 ∷ 5 ∷ 3 ∷ 8 ∷ [])
