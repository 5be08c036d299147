-- ===== src/TaskManager/Results.antt =====
-- A task's result goes into the part of its taxi, once.
use grid_server.Base.{
  ℕ, ◌+◌, ◌/◌, ◌%◌, ◌^◌, ◌≤◌, ◌≡◌, refl, sym, ap, ◌∙◌, inl, Bool, true, false, not, ◌&&◌, some,
  List, [], ◌∷◌, arith, ◌==◌, if◌then◌else◌, length, get_elem?, set, ok, ◌>>=◌, Returns, returns,
  Returns-bind,
}
use grid_server.BitSet.{BitSet, BitCore, contains}
use grid_server.BitSet.Core.{Laws}
use grid_server.BitSet.Members.{IsCounted, Dropped}
use grid_server.BitSet.Changes.{remove-Dropped}
use grid_server.Messages.{WorkerResult}
use grid_server.MultilevelVecMap.{MultilevelVecMap, get}
use grid_server.MultilevelVecMap.Lookup.{same_from}
use grid_server.MultilevelVecMap.Insert.{IsNested, insert-Inserted}
use grid_server.TaskManager.Job.{Started}
use grid_server.TaskManager.Reducer.{TaskResult, Distance, split}
use grid_server.TaskManager.Process.{Codec, Flow, continue}
use grid_server.TaskManager.Events.{insert_result, process_result}

-- The key of a combination: its low 64 bits, then the next 64.
abbrev pub key_of : ℕ → List ℕ
key_of combination = (combination % 2 ^ 64) ∷ (combination / 2 ^ 64 % 2 ^ 64) ∷ []

-- `part'` is `part` with both halves of the result.
pub record HasResult (part : MultilevelVecMap Distance) (r : TaskResult)
    (part' : MultilevelVecMap Distance) : Type 0 where
  pub nested : IsNested part'
  pub found :
      (k : List ℕ)
      → length k ≤ part.levels_idx + 1
      → get part' k ≡ (
          if same_from part.levels_idx 0 (key_of r.result.1.0) k
          then ok (some r.result.1.1)
          else if same_from part.levels_idx 0 (key_of r.result.0.0) k
          then ok (some r.result.0.1)
          else get part k)

-- The parts after a result of a task that was in the set, or was not.
pub data PartsAfter (known : Bool) (parts : List (MultilevelVecMap Distance)) (r : TaskResult)
    (part : MultilevelVecMap Distance) (parts' : List (MultilevelVecMap Distance)) : Type 0 where
  repeated : known ≡ false → parts' ≡ parts → PartsAfter known parts r part parts'
  first :
      (part' : MultilevelVecMap Distance)
      → known ≡ true
      → parts' ≡ set parts r.taxi part'
      → HasResult part r part'
      → PartsAfter known parts r part parts'

insert_result-HasResult :
    (parts : List (MultilevelVecMap Distance)) (r : TaskResult) (part : MultilevelVecMap Distance)
    → get_elem? parts r.taxi ≡ some part
    → IsNested part
    → 1 ≤ part.levels_idx
    → Returns
        (λ parts'.
          (part' : MultilevelVecMap Distance) × (parts' ≡ set parts r.taxi part')
          × HasResult part r part')
        (insert_result parts r)
unfolding insert_result split
insert_result-HasResult parts r part here nested deep =
    let (combination1, combination2) = r.result in
    rw here (
      Returns-bind
        (insert-Inserted part (key_of combination1.0) combination1.1 nested (omega arith))
        (λ (old1, part1) one.
          Returns-bind
            (insert-Inserted part1 (key_of combination2.0) combination2.1 one.nested
              (omega (arith, one.levels)))
            (λ (old2, part2) two. returns (
              part2,
              refl,
              record {
                nested = two.nested;
                found = λ k fits.
                    two.found k (rw one.levels fits)
                    ∙ ap
                        (λ rest.
                          if same_from part1.levels_idx 0 (key_of combination2.0) k
                          then ok (some combination2.1)
                          else rest)
                        (one.found k fits)
                    ∙ ap
                        (λ levels.
                          if same_from levels 0 (key_of combination2.0) k
                          then ok (some combination2.1)
                          else if same_from part.levels_idx 0 (key_of combination1.0) k
                          then ok (some combination1.1)
                          else get part k)
                        one.levels;
              },
            ))))

module _ (core : BitCore) (laws : Laws core) (codec : Codec) where
  -- What `process_result` does with a result that is decoded.
  pub record Recorded (s : Started) (result : WorkerResult) (r : TaskResult)
      (part : MultilevelVecMap Distance) (out : Flow × Started) : Type 0 where
    pub flow : out.0 ≡ continue
    pub phase : out.1.phase ≡ s.phase
    pub counted : IsCounted core laws out.1.tasks
    pub waiting :
        (j : ℕ) → contains core out.1.tasks j ≡ not (result.id == j) && contains core s.tasks j
    pub parts : PartsAfter (contains core s.tasks result.id) s.parts r part out.1.parts

  -- With a set of tasks whose count is right, and for a result that is decoded and whose taxi has a
  -- part of two levels or more with its vectors nested, `process_result` returns and continues. If
  -- the task is in the set, the part then has both distances under their combinations, each a key
  -- of its low 64 bits and the next 64, the second in place of the first where these are the same
  -- key, and is otherwise as before; if not, the parts are unchanged, so that a task counts once.
  -- In both cases the task is not in the set afterwards and the other ids are as before.
  pub process_result-Recorded :
      (s : Started) (result : WorkerResult) (r : TaskResult) (part : MultilevelVecMap Distance)
      → codec.decode_result result.bytes ≡ inl r
      → IsCounted core laws s.tasks
      → get_elem? s.parts r.taxi ≡ some part
      → IsNested part
      → 1 ≤ part.levels_idx
      → Returns (Recorded s result r part) (process_result core codec s result)
  unfolding process_result
  process_result-Recorded s result r part decoded counted here nested deep =
      rw (decoded, process_result)
        (Returns-bind (remove-Dropped core laws s.tasks result.id counted)
          (λ (removed, tasks) dropped. go removed tasks dropped))
    where
      go :
          (removed : Bool) (tasks : BitSet)
          → Dropped core laws s.tasks result.id (removed, tasks)
          → Returns (Recorded s result r part) (elim removed [
            | true ↦ do
              parts ← insert_result s.parts r
              ok (continue, record s { tasks = tasks; parts = parts })
            | false ↦ ok (continue, record s { tasks = tasks })
          ])
      go true tasks dropped =
          Returns-bind (insert_result-HasResult s.parts r part here nested deep)
            (λ parts (part', same, has). returns record {
              flow = refl;
              phase = refl;
              counted = dropped.counted;
              waiting = dropped.found;
              parts = first part' (sym dropped.taken) same has;
            })
      go false tasks dropped = returns record {
        flow = refl;
        phase = refl;
        counted = dropped.counted;
        waiting = dropped.found;
        parts = repeated (sym dropped.taken) refl;
      }
