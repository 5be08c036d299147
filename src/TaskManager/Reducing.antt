-- ===== src/TaskManager/Reducing.antt =====
-- A job that is reduced: process_job, called until the job ends, goes through all distances.
use grid_server.Base.{
  ◌∙◌, ◌≤◌, ◌⊎◌, inl, inr, leb, Bool-cases, Returns-map, ℕ, zero, suc, ◌*◌, ◌<◌, min, ◌≡◌, refl, ap,
  Bool, true, false, Option, none, some, List, [], ◌∷◌, ◌++◌, arith, if◌then◌else◌, length,
  length-append, Run, ok, out_of_fuel, ◌>>=◌, Returns, returns, Returns-bind,
}
use grid_server.BitSet.{BitCore}
use grid_server.Messages.{JobStats, Bytes}
use grid_server.Platform.{Platform}
use grid_server.TaskManager.Job.{completed, reducing, Started, started, Job}
use grid_server.TaskManager.Reducer
use grid_server.TaskManager.Reducer.{TaskReducer, Distance}
use grid_server.TaskManager.Process.{
  Codec, TaskManager, Flow, continue, break_err, break_ok, with_state, process_job, process_phase,
  reduce_job, least,
}

least-append : (m : Distance) (xs ys : List Distance) → least m (xs ++ ys) ≡ least (least m xs) ys
unfolding least
least-append m [] ys = refl
least-append m (x ∷ xs) ys = least-append (min m x) xs ys

abbrev pub Among : Distance → List Distance → Type 0
Among d [] = ⊥
Among d (x ∷ xs) = (d ≡ x) ⊎ Among d xs

min_cases : (a b : Distance) → (min a b ≡ a) ⊎ (min a b ≡ b)
min_cases a b = elim (Bool-cases (leb a b)) [
  | inl e ↦ inl (ground (arith, e))
  | inr e ↦ inr (ground (arith, e))
]

-- `d` is the least of `minimal` and the distances: it is one of them, and none is smaller.
pub record IsLeast (minimal : Distance) (ds : List Distance) (d : Distance) : Type 0 where
  pub below : (x : Distance) → (x ≡ minimal) ⊎ Among x ds → d ≤ x
  pub attained : (d ≡ minimal) ⊎ Among d ds

least_lem : (minimal : Distance) (ds : List Distance) → IsLeast minimal ds (least minimal ds)
unfolding least
least_lem minimal [] = record {
  below = λ x e. elim e [ inl same ↦ omega (arith, same) | inr m ↦ absurd m ];
  attained = inl refl;
}
least_lem minimal (d ∷ ds) =
    let h = least_lem (min minimal d) ds in
    record {
      below = λ x e. elim e [
        | inl same ↦ omega (arith, h.below (min minimal d) (inl refl), same)
        | inr m ↦ elim m [
          | inl same ↦ omega (arith, h.below (min minimal d) (inl refl), same)
          | inr later ↦ h.below x (inr later)
        ]
      ];
      attained = elim h.attained [
        | inl same ↦ elim (min_cases minimal d) [
          | inl left ↦ inl (same ∙ left)
          | inr right ↦ inr (inl (same ∙ right))
        ]
        | inr later ↦ inr (inr later)
      ];
    }

module _ (core : BitCore) where
  -- The distances that the iterator yields before it ends.
  pub data Yields : TaskReducer → List Distance → Type 0 where
    ended : {r : TaskReducer} (r' : TaskReducer) → Reducer.next core r ≡ ok (none, r') → Yields r []
    yielded :
        {r : TaskReducer} {ds : List Distance} (d : Distance) (r' : TaskReducer)
        → Reducer.next core r ≡ ok (some d, r')
        → Yields r' ds
        → Yields r (d ∷ ds)

  -- What a chunk of `n` is, of an iterator that yields `ds`.
  pub data Chunk (n : ℕ) (ds : List Distance) (out : Bool × List Distance × TaskReducer)
      : Type 0 where
    full :
        (rest : List Distance)
        → out.0 ≡ true
        → ds ≡ out.1 ++ rest
        → length out.1 ≡ n
        → Yields out.2 rest
        → Chunk n ds out
    partial : out.0 ≡ false → ds ≡ out.1 → length ds < n → Chunk n ds out

  next_chunk-Chunk :
      (n : ℕ) (r : TaskReducer) (ds : List Distance)
      → Yields r ds
      → Returns (Chunk n ds) (Reducer.next_chunk core n r)
  unfolding Reducer.next_chunk
  next_chunk-Chunk zero r ds y = returns (full ds refl refl refl y)
  next_chunk-Chunk (suc n) r [] (ended r' e) = rw e (returns (partial refl refl (omega arith)))
  next_chunk-Chunk (suc n) r (d ∷ ds) (yielded _ r' e y) = rw e (
      Returns-bind (next_chunk-Chunk n r' ds y)
        (λ (more, xs, rest) c. returns (grow more xs rest c)))
    where
      grow :
          (more : Bool) (xs : List Distance) (rest : TaskReducer)
          → Chunk n ds (more, xs, rest)
          → Chunk (suc n) (d ∷ ds) (more, d ∷ xs, rest)
      grow more xs rest (full left f e l y) = full left f (ap (◌∷◌ d) e) (ap suc l) y
      grow more xs rest (partial f e l) = partial f (ap (◌∷◌ d) e) (omega arith)

  -- One call of `process_job` on a job that is reduced.
  data Reduced (m : TaskManager) (job : Job) (s : Started) (minimal : Distance) (ds : List Distance)
      (out : Flow × TaskManager) : Type 0 where
    continues :
        (r : TaskReducer) (xs rest : List Distance)
        → out ≡ (
          continue,
          with_state m job (started record s { phase = reducing r (least minimal xs) }),
        )
        → ds ≡ xs ++ rest
        → length xs ≡ 128
        → Yields r rest
        → Reduced m job s minimal ds out
    ends :
        out.0 ≡ break_ok (completed (least minimal ds) s.stats)
        → out.1.scheduler ≡ m.scheduler
        → out.1.jobs_queue ≡ m.jobs_queue
        → length ds < 128
        → Reduced m job s minimal ds out

  reduce_job-Reduced :
      (m : TaskManager) (job : Job) (s : Started) (r : TaskReducer) (minimal : Distance)
      (ds : List Distance)
      → Yields r ds
      → Returns (Reduced m job s minimal ds) (reduce_job core m job s r minimal)
  unfolding reduce_job
  reduce_job-Reduced m job s r minimal ds y =
      Returns-bind (next_chunk-Chunk 128 r ds y) (λ (more, xs, rest) c. go more xs rest c)
    where
      go :
          (more : Bool) (xs : List Distance) (rest : TaskReducer)
          → Chunk 128 ds (more, xs, rest)
          → Returns (Reduced m job s minimal ds) (
              ok (
                if more
                then (
                  continue,
                  with_state m job (started record s { phase = reducing rest (least minimal xs) }),
                )
                else (
                  break_ok (completed (least minimal xs) s.stats),
                  with_state m job
                      (started record s { stats = none; phase = reducing rest (least minimal xs) }),
                )))
      go more xs rest (full left f e l y) = rw f (returns (continues rest xs left refl e l y))
      go more xs rest (partial f e l) = rw f (returns (ends (rw e refl) refl refl l))

module _ (core : BitCore) (codec : Codec) (libraries : List (Platform × Bytes)) where
  -- `process_job` again and again, while it continues.
  unfoldable pub run_job : ℕ → TaskManager → Run (Flow × TaskManager)
  unfolding process_job
  run_job zero m = out_of_fuel
  run_job (suc fuel) m = do
    (flow, m') ← process_job core codec libraries m
    elim flow [
      | continue ↦ run_job fuel m'
      | break_err ↦ ok (break_err, m')
      | break_ok result ↦ ok (break_ok result, m')
    ]

  -- The job is at the end of its life, with the least of the distances.
  pub record Completes (m : TaskManager) (distance : Distance) (stats : Option JobStats)
      (out : Flow × TaskManager) : Type 0 where
    pub flow : out.0 ≡ break_ok (completed distance stats)
    pub sent : out.1.scheduler ≡ m.scheduler
    pub queue : out.1.jobs_queue ≡ m.jobs_queue

  run_job-least :
      (fuel : ℕ) (m : TaskManager) (job : Job) (s : Started) (reducer : TaskReducer)
      (minimal : Distance) (distances : List Distance)
      → Yields core reducer distances
      → length distances < 128 * fuel
      → Returns
          (Completes m (least minimal distances) s.stats)
          (run_job fuel (with_state m job (started record s { phase = reducing reducer minimal })))
  unfolding run_job process_phase
  run_job-least zero m job s reducer minimal distances y l = absurd (omega arith)
  run_job-least (suc fuel) m job s reducer minimal distances y l =
      Returns-bind
        (reduce_job-Reduced core
          (with_state m job (started (record s { phase = reducing reducer minimal })))
          (record job { state = started (record s { phase = reducing reducer minimal }) })
          (record s { phase = reducing reducer minimal }) reducer minimal distances y)
        (λ (flow, m') reduced.
          go flow m' reduced (λ r least rest. run_job-least fuel m job s r least rest))
    where
      go :
          (flow : Flow) (m' : TaskManager)
          → Reduced core
              (with_state m job (started (record s { phase = reducing reducer minimal })))
              (record job { state = started (record s { phase = reducing reducer minimal }) })
              (record s { phase = reducing reducer minimal })
              minimal
              distances
              (flow, m')
          → ((r : TaskReducer) (minimal' : Distance) (rest : List Distance)
              → Yields core r rest
              → length rest < 128 * fuel
              → Returns (Completes m (least minimal' rest) s.stats) (
                  run_job fuel
                    (with_state m job (started record s { phase = reducing r minimal' }))))
          → Returns (Completes m (least minimal distances) s.stats) (elim flow [
            | continue ↦ run_job fuel m'
            | break_err ↦ ok (break_err, m')
            | break_ok result ↦ ok (break_ok result, m')
          ])
      go flow m' (continues r xs rest e split size y') again =
          let stays : flow ≡ continue = ap (λ (o : Flow × TaskManager). o.0) e in
          let after : m'
              ≡ with_state m job (started record s { phase = reducing r (least minimal xs) }) =
            ap (λ (o : Flow × TaskManager). o.1) e in
          rw (stays, after)
            (rw split (
              rw (least-append minimal xs rest) (
                again r (least minimal xs) rest y'
                  (omega (arith, ap length split, length-append {0} xs rest)))))
      go flow m' (ends e sent queue size) again =
          rw e (returns record { flow = refl; sent = sent; queue = queue })

  -- For a job that is reduced, with a reducer that yields given distances and then ends, calling
  -- `process_job` until it does not continue ends within one call more than there are whole batches
  -- of 128, and completes the job with a distance that is one of these or the minimum so far and
  -- that none of them is less than; it sends nothing and leaves the queue.
  pub run_job-Completes :
      (fuel : ℕ) (m : TaskManager) (job : Job) (s : Started) (reducer : TaskReducer)
      (minimal : Distance) (distances : List Distance)
      → Yields core reducer distances
      → length distances < 128 * fuel
      → Returns
          (λ out. (d : Distance) × IsLeast minimal distances d × Completes m d s.stats out)
          (run_job fuel (with_state m job (started record s { phase = reducing reducer minimal })))
  run_job-Completes fuel m job s reducer minimal distances y l =
      Returns-map (run_job-least fuel m job s reducer minimal distances y l)
        (λ out c. (least minimal distances, least_lem minimal distances, c))
