-- ===== src/Buffer/Tests.antt =====
-- The run of the module's own test, and the theorems at a buffer of three slots.
use grid_server.Base.{
  ℕ, ◌≡◌, refl, some, List, [], ◌∷◌, ◌>>=◌, Run, ok, arith, Returns, inr, Option,
}
use grid_server.Buffer.{
  Buffer, new, push, filled_slice, write, assume_init, from_array, try_into, into_iter, next,
}
use grid_server.Buffer.Contents.{
  Holds, new-Holds, Pushed, push-Pushed, try_into-from_array, next-into_iter,
}

abbrev four_pushed : Run (Option (List ℕ) × Buffer ℕ 3)
four_pushed = do (_, a) ← push new 1; (_, b) ← push a 2; (_, c) ← push b 3; push c 4

fourth_hands_out : (four_pushed >>= λ (out, b). ok out) ≡ ok (some (1 ∷ 2 ∷ 3 ∷ []))
unfolding push new write assume_init
fourth_hands_out = refl

fourth_stays : (four_pushed >>= λ (out, b). filled_slice b) ≡ ok (4 ∷ [])
unfolding push new write filled_slice assume_init
fourth_stays = refl

push-Pushed_example : Returns (λ (out, r). Pushed {T = ℕ} {N = 3} [] 7 out r) (push {T = ℕ} new 7)
push-Pushed_example = push-Pushed new [] 7 (omega arith) new-Holds

abbrev three : List ℕ
three = 1 ∷ 2 ∷ 3 ∷ []

try_into-from_array_example :
    (try_into (from_array {N = 3} three) ≡ ok (inr three)) × Holds (from_array {N = 3} three) three
try_into-from_array_example = try_into-from_array three refl

next-into_iter_example :
    next (into_iter (from_array {N = 3} three)) ≡ ok (some 1, into_iter (from_array {N = 3} three))
next-into_iter_example =
    next-into_iter (from_array three) 1 (2 ∷ 3 ∷ []) (try_into-from_array three refl).1
