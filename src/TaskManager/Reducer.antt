-- ===== src/TaskManager/Reducer.antt =====
-- task_manager/src/reducer.rs and shared/src/task_manager/task.rs: the distance of each assignment, as
-- the sum over the taxies of the distance found for the passengers of that taxi. Sums are those of a
-- release build, of 64 bits.
use grid_server.Base.{
  ℕ, zero, suc, ◌+◌, ◌-◌, ◌/◌, ◌%◌, ◌^◌, Bool, true, false, Option, none, some, List, [], ◌∷◌,
  if◌then◌else◌, get_elem?, set, replicate, Run, ok, panic, undefined, or_else, ◌>>=◌,
}
use grid_server.BitSet.{BitCore}
use grid_server.MultilevelVecMap
use grid_server.MultilevelVecMap.{MultilevelVecMap}
use grid_server.TaskManager.Combinations
use grid_server.TaskManager.Combinations.{CombinationGenerator, Pair}

abbrev pub Distance : Type 0
Distance = ℕ

abbrev pub max_distance : Distance
max_distance = 2 ^ 64 - 1

pub record TaskResult : Type 0 where
  pub taxi : ℕ
  pub result : (ℕ × Distance) × (ℕ × Distance)

-- The two words of a number of 128 bits, the low one first.
unfoldable pub split : ℕ → List ℕ
split a = (a % 2 ^ 64) ∷ (a / 2 ^ 64 % 2 ^ 64) ∷ []

pub record TaskReducer : Type 0 where
  pub min : Distance
  pub buf : List (List ℕ)
  pub combinations : CombinationGenerator
  pub completed_parts : List (MultilevelVecMap Distance)

unfoldable pub new : ℕ → ℕ → List (MultilevelVecMap Distance) → TaskReducer
unfolding Combinations.new
new taxies passengers completed_parts = record {
  buf = replicate taxies (replicate (passengers / 64 + 1) 0);
  min = max_distance;
  combinations = Combinations.new taxies passengers;
  completed_parts = completed_parts;
}

module _ (core : BitCore) where
  open core use {bit_set, bit_any, bit_init}

  -- Each passenger into the words of its taxi, by `get_unchecked_mut`.
  unfoldable pub set_pairs : List Pair → List (List ℕ) → Run (List (List ℕ))
  set_pairs [] buf = ok buf
  set_pairs (pair ∷ pairs) buf = elim (get_elem? buf pair.taxi) [
    | none ↦ undefined
    | some row ↦ set_pairs pairs (set buf pair.taxi (bit_set row pair.passenger))
  ]

  -- The sum over the taxies that have passengers, whose words are cleared. A part or a distance
  -- that is missing panics.
  unfoldable pub sum_rows :
      List (MultilevelVecMap Distance)
      → (taxi : ℕ) → List (List ℕ)
      → Distance
      → Run (Distance × List (List ℕ))
  unfolding MultilevelVecMap.get
  sum_rows parts taxi [] distance = ok (distance, [])
  sum_rows parts taxi (row ∷ rows) distance =
      let skipped = (do
        (sum, rest) ← sum_rows parts (taxi + 1) rows distance
        ok (sum, row ∷ rest)) in
      let added = (do
        part ← or_else (get_elem? parts taxi) panic
        found ← MultilevelVecMap.get part row
        d ← or_else found panic
        (sum, rest) ← sum_rows parts (taxi + 1) rows ((distance + d) % 2 ^ 64)
        ok (sum, bit_init row false ∷ rest)) in
      if bit_any row then added else skipped

  unfoldable pub next : TaskReducer → Run (Option Distance × TaskReducer)
  unfolding Combinations.next set_pairs sum_rows
  next r =
      let (combination, combinations) = Combinations.next r.combinations in
      elim combination [
        | none ↦ ok (none, r)
        | some run ↦ do
          pairs ← run
          buf ← set_pairs pairs r.buf
          (distance, cleared) ← sum_rows r.completed_parts 0 buf 0
          ok (some distance, record r { buf = cleared; combinations = combinations })
      ]

  -- `next_chunk`: the first `n` items, or fewer at the end. The flag tells whether there were `n`.
  unfoldable pub next_chunk : ℕ → TaskReducer → Run (Bool × List Distance × TaskReducer)
  unfolding next
  next_chunk zero r = ok (true, [], r)
  next_chunk (suc n) r = do
    (item, r') ← next r
    elim item [
      | none ↦ ok (false, [], r')
      | some d ↦ do (full, ds, rest) ← next_chunk n r'; ok (full, d ∷ ds, rest)
    ]
