-- ===== src/TaskManager/Splitting.antt =====
-- A job that is split: process_job, called while the scheduler is ready, sends every task once and
-- remembers it.
use grid_server.Base.{
  ℕ, zero, suc, ◌+◌, ◌*◌, ◌≤◌, ◌<◌, ◌≡◌, refl, sym, ap, ◌∙◌, subst, Bool, true, false, not, ◌||◌,
  Option, none, some, List, [], ◌∷◌, ◌++◌, arith, ◌==◌, if◌then◌else◌, length, length-append,
  append_assoc, append_nil, Run, ok, panic, undefined, out_of_fuel, ◌>>=◌, Returns, returns,
  Returns-map,
}
use grid_server.BitSet
use grid_server.BitSet.{BitCore, BitSet, contains}
use grid_server.BitSet.Core.{Laws}
use grid_server.BitSet.Members.{IsCounted}
use grid_server.BitSet.Changes.{insert-Added}
use grid_server.Messages.{Bytes, WorkerTask, SchedulerRequest, hello_message, new_job, task}
use grid_server.Platform.{Platform}
use grid_server.TaskManager.Job.{splitting, waiting_tasks_completions, Started, started, Job, send}
use grid_server.TaskManager.Splitter
use grid_server.TaskManager.Splitter.{TaskSplitter, TaskData}
use grid_server.TaskManager.Process.{
  Codec, TaskManager, Flow, continue, break_err, break_ok, with_state, process_job, process_phase,
  split_job, encode_tasks,
}

-- The tasks that the iterator yields before it ends.
pub data Yields : TaskSplitter → List (ℕ × TaskData) → Type 0 where
  ended : {s : TaskSplitter} → (Splitter.next s).0 ≡ none → Yields s []
  yielded :
      {s : TaskSplitter} {items : List (ℕ × TaskData)} (item : ℕ × TaskData)
      → (Splitter.next s).0 ≡ some item
      → Yields (Splitter.next s).1 items
      → Yields s (item ∷ items)

-- What `drain` collects is what the iterator yields.
pub drain-Yields :
    (fuel : ℕ) (s : TaskSplitter) (items : List (ℕ × TaskData))
    → Splitter.drain fuel s ≡ ok items
    → Yields s items
unfolding Splitter.drain
drain-Yields zero s items e = absurd (cc e)
drain-Yields (suc fuel) s items e =
    go (Splitter.next s).0 refl e (λ rest. drain-Yields fuel (Splitter.next s).1 rest)
  where
    some_more :
        (item : ℕ × TaskData) (r : Run (List (ℕ × TaskData)))
        → (Splitter.next s).0 ≡ some item
        → (r >>= λ rest. ok (item ∷ rest)) ≡ ok items
        → ((rest : List (ℕ × TaskData)) → r ≡ ok rest → Yields (Splitter.next s).1 rest)
        → Yields s items
    some_more item (ok rest) f e again = subst (Yields s) (cc e) (yielded item f (again rest refl))
    some_more item panic f e again = absurd (cc e)
    some_more item undefined f e again = absurd (cc e)
    some_more item out_of_fuel f e again = absurd (cc e)

    go :
        (first : Option (ℕ × TaskData))
        → (Splitter.next s).0 ≡ first
        → (elim first [
          | none ↦ ok []
          | some item ↦ Splitter.drain fuel (Splitter.next s).1 >>= λ items. ok (item ∷ items)
        ])
          ≡ ok items
        → ((rest : List (ℕ × TaskData))
            → Splitter.drain fuel (Splitter.next s).1 ≡ ok rest
            → Yields (Splitter.next s).1 rest)
        → Yields s items
    go none f e again = subst (Yields s) (cc e) (ended f)
    go (some item) f e again = some_more item (Splitter.drain fuel (Splitter.next s).1) f e again

-- What a chunk of `n` is, of an iterator that yields `items`.
data Chunk (n : ℕ) (items : List (ℕ × TaskData)) (out : Bool × List (ℕ × TaskData) × TaskSplitter)
    : Type 0 where
  full :
      (rest : List (ℕ × TaskData))
      → out.0 ≡ true
      → items ≡ out.1 ++ rest
      → length out.1 ≡ n
      → Yields out.2 rest
      → Chunk n items out
  partial : out.0 ≡ false → items ≡ out.1 → length items < n → Chunk n items out

next_chunk-Chunk :
    (n : ℕ) (s : TaskSplitter) (items : List (ℕ × TaskData))
    → Yields s items
    → Chunk n items (Splitter.next_chunk n s)
unfolding Splitter.next_chunk
next_chunk-Chunk zero s items y = full items refl refl refl y
next_chunk-Chunk (suc n) s [] (ended e) =
    rw (e, Splitter.next_chunk) (partial refl refl (omega arith))
next_chunk-Chunk (suc n) s (item ∷ items) (yielded _ e y) =
    rw (e, Splitter.next_chunk)
      (grow (Splitter.next_chunk n (Splitter.next s).1)
        (next_chunk-Chunk n (Splitter.next s).1 items y))
  where
    grow :
        (out : Bool × List (ℕ × TaskData) × TaskSplitter)
        → Chunk n items out
        → Chunk (suc n) (item ∷ items) (out.0, item ∷ out.1, out.2)
    grow out (full left f e l y) = full left f (ap (◌∷◌ item) e) (ap suc l) y
    grow out (partial f e l) = partial f (ap (◌∷◌ item) e) (omega arith)

-- The tasks of the requests, in order.
abbrev pub sent_tasks : List SchedulerRequest → List WorkerTask
sent_tasks [] = []
sent_tasks (task tasks ∷ requests) = tasks ++ sent_tasks requests
sent_tasks (hello_message ∷ requests) = sent_tasks requests
sent_tasks (new_job id total_tasks job ∷ requests) = sent_tasks requests

sent_tasks-append :
    (xs : List SchedulerRequest) (tasks : List WorkerTask)
    → sent_tasks (xs ++ task tasks ∷ []) ≡ sent_tasks xs ++ tasks
sent_tasks-append [] tasks = sym (append_nil tasks)
sent_tasks-append (task first ∷ xs) tasks =
    ap (λ rest. first ++ rest) (sent_tasks-append xs tasks)
    ∙ sym (append_assoc first (sent_tasks xs) tasks)
sent_tasks-append (hello_message ∷ xs) tasks = sent_tasks-append xs tasks
sent_tasks-append (new_job id total_tasks job ∷ xs) tasks = sent_tasks-append xs tasks

-- A task of the list has the id.
abbrev pub has_id : ℕ → List (ℕ × TaskData) → Bool
has_id j [] = false
has_id j ((id, item) ∷ items) = (id == j) || has_id j items

-- Each task is encoded, with its id.
pub data Encoded (codec : Codec) : List (ℕ × TaskData) → List WorkerTask → Type 0 where
  nothing : Encoded codec [] []
  one :
      {items : List (ℕ × TaskData)} {tasks : List WorkerTask} (id : ℕ) (item : TaskData)
      (bytes : Bytes)
      → codec.encode_task item ≡ some bytes
      → Encoded codec items tasks
      → Encoded codec ((id, item) ∷ items) (record { id = id; bytes = bytes } ∷ tasks)

Encoded-split :
    (codec : Codec) (xs ys : List (ℕ × TaskData)) (workers : List WorkerTask)
    → Encoded codec (xs ++ ys) workers
    → (first : List WorkerTask) × (rest : List WorkerTask) × (workers ≡ first ++ rest)
      × Encoded codec xs first
      × Encoded codec ys rest
Encoded-split codec [] ys workers e = ([], workers, refl, nothing, e)
Encoded-split codec ((id, item) ∷ xs) ys _ (one {tasks = tasks} _ _ bytes f e) =
    let (first, rest, same, a, b) = Encoded-split codec xs ys tasks e in
    (
      record { id = id; bytes = bytes } ∷ first,
      rest,
      ap (◌∷◌ (record { id = id; bytes = bytes })) same,
      one id item bytes f a,
      b,
    )

not_shorter :
    (n : ℕ) (xs ys zs : List (ℕ × TaskData)) → zs ≡ xs ++ ys → length xs ≡ n → length zs < n → ⊥
not_shorter n xs ys zs e l short = omega (arith, ap length e, length-append {0} xs ys)

length-rest :
    (n : ℕ) (xs ys zs : List (ℕ × TaskData))
    → zs ≡ xs ++ ys
    → length xs ≡ n
    → length zs ≡ n + length ys
length-rest n xs ys zs e l = omega (arith, ap length e, length-append {0} xs ys)

-- The bounds of the rounds after a full one.
rounds_low : (n a b : ℕ) → a ≡ 128 + b → 128 * suc n ≤ a → 128 * n ≤ b
rounds_low n a b e l = omega arith

rounds_high : (n a b : ℕ) → a ≡ 128 + b → a < 128 * (suc n + 1) → b < 128 * (n + 1)
rounds_high n a b e l = omega arith

not_last : (n a : ℕ) → 128 * suc n ≤ a → a < 128 → ⊥
not_last n a l k = omega arith

one_round : (a : ℕ) → a < 128 * (0 + 1) → a < 128
one_round a h = omega arith

has_id-append :
    (j : ℕ) (xs ys : List (ℕ × TaskData)) → has_id j (xs ++ ys) ≡ (has_id j xs || has_id j ys)
has_id-append j [] ys = refl
has_id-append j ((id, item) ∷ xs) ys = ground (arith, has_id-append j xs ys)

joined :
    (j : ℕ) (xs ys zs : List (ℕ × TaskData))
    → zs ≡ xs ++ ys
    → (b : Bool) → (has_id j ys || (has_id j xs || b)) ≡ (has_id j zs || b)
joined j xs ys zs e b = rw e (rw (has_id-append j xs ys) (or_swap (has_id j xs) (has_id j ys) b))
  where
    or_swap : (p q b : Bool) → (q || (p || b)) ≡ ((p || q) || b)
    or_swap true true b = refl
    or_swap true false b = refl
    or_swap false true b = refl
    or_swap false false b = refl

module _ (core : BitCore) (laws : Laws core) (codec : Codec) where
  -- The set holds the ids of the tasks besides what it held before.
  pub record Remembers (before : BitSet) (items : List (ℕ × TaskData)) (after : BitSet)
      : Type 0 where
    pub counted : IsCounted core laws after
    pub found : (j : ℕ) → contains core after j ≡ (has_id j items || contains core before j)

  encode_tasks-Remembers :
      (tasks : BitSet) (items : List (ℕ × TaskData)) (workers : List WorkerTask)
      → Encoded codec items workers
      → IsCounted core laws tasks
      → ((encode_tasks core codec tasks items).0 ≡ some workers)
        × Remembers tasks items (encode_tasks core codec tasks items).1
  unfolding encode_tasks
  encode_tasks-Remembers tasks [] _ nothing counted =
      (refl, record { counted = counted; found = λ j. refl })
  encode_tasks-Remembers tasks (_ ∷ items) _ (one {tasks = workers} id item bytes f e) counted =
      let added = insert-Added core laws tasks id counted in
      let (same, kept) =
        encode_tasks-Remembers (BitSet.insert core tasks id).1 items workers e added.counted in
      rw (f, encode_tasks)
        (rw same (
          refl,
          record {
            counted = kept.counted;
            found =
                λ j. kept.found j ∙ ap (λ b. has_id j items || b) (added.found j) ∙ ground arith;
          },
        ))

  -- All tasks are sent and remembered, and the job waits for their results.
  pub record SentAll (m : TaskManager) (job : Job) (s : Started) (items : List (ℕ × TaskData))
      (workers : List WorkerTask) (out : Flow × TaskManager) : Type 0 where
    pub flow : out.0 ≡ continue
    pub sent : sent_tasks out.1.scheduler.sent ≡ sent_tasks m.scheduler.sent ++ workers
    pub tasks : BitSet
    pub state :
        out.1.current_job
        ≡ some (record job {
          state = started record s { tasks = tasks; phase = waiting_tasks_completions };
        })
    pub remembered : Remembers s.tasks items tasks

  split_job_lem :
      (m : TaskManager) (job : Job) (s : Started) (splitter : TaskSplitter)
      (workers : List WorkerTask)
      → m.scheduler.ready ≡ true
      → (encode_tasks core codec s.tasks (Splitter.next_chunk 128 splitter).1).0 ≡ some workers
      → split_job core codec m job s splitter ≡ (
        continue,
        with_state
            (record m { scheduler = send m.scheduler (task workers) })
            job
            (started record s {
              tasks = (encode_tasks core codec s.tasks (Splitter.next_chunk 128 splitter).1).1;
              phase =
                  if (Splitter.next_chunk 128 splitter).0
                  then splitting (Splitter.next_chunk 128 splitter).2
                  else waiting_tasks_completions;
            }),
      )
  unfolding split_job
  split_job_lem m job s splitter workers ready e =
      let unready : not m.scheduler.ready ≡ false = ap not ready in rw unready (rw e refl)

module _ (core : BitCore) (codec : Codec) (libraries : List (Platform × Bytes)) where
  -- `process_job`, `n` times, or until it does not continue.
  unfoldable pub run_rounds : ℕ → TaskManager → Run (Flow × TaskManager)
  unfolding process_job
  run_rounds zero m = ok (continue, m)
  run_rounds (suc n) m = do
    (flow, m') ← process_job core codec libraries m
    elim flow [
      | continue ↦ run_rounds n m'
      | break_err ↦ ok (break_err, m')
      | break_ok result ↦ ok (break_ok result, m')
    ]

module _ (core : BitCore) (laws : Laws core) (codec : Codec)
    (libraries : List (Platform × Bytes)) where
  last_round :
      (m : TaskManager) (job : Job) (s : Started) (splitter : TaskSplitter)
      (items : List (ℕ × TaskData)) (workers : List WorkerTask)
      → Chunk 128 items (Splitter.next_chunk 128 splitter)
      → Encoded codec items workers
      → IsCounted core laws s.tasks
      → m.scheduler.ready ≡ true
      → length items < 128
      → Returns (SentAll core laws codec m job s items workers) (
          run_rounds core codec libraries 1
            (with_state m job (started record s { phase = splitting splitter })))
  unfolding run_rounds process_phase send
  last_round m job s splitter items workers (full rest f e l y) encoded counted ready short =
      absurd (not_shorter 128 (Splitter.next_chunk 128 splitter).1 rest items e l short)
  last_round m job s splitter items workers (partial f e l) encoded counted ready short =
      let (same, kept) =
        encode_tasks-Remembers core laws codec s.tasks (Splitter.next_chunk 128 splitter).1 workers
          (subst (λ xs. Encoded codec xs workers) e encoded) counted in
      rw
        (split_job_lem core laws codec
          (with_state m job (started record s { phase = splitting splitter }))
          (record job { state = started record s { phase = splitting splitter } })
          (record s { phase = splitting splitter }) splitter workers ready same)
        (rw f (
          returns record {
            flow = refl;
            sent = sent_tasks-append m.scheduler.sent workers;
            tasks = (encode_tasks core codec s.tasks (Splitter.next_chunk 128 splitter).1).1;
            state = refl;
            remembered = rw e kept;
          }))

  -- A full chunk is sent, and the rest is left to the rounds after it.
  full_round :
      (n : ℕ) (m : TaskManager) (job : Job) (s : Started) (splitter : TaskSplitter)
      (items : List (ℕ × TaskData)) (workers : List WorkerTask)
      → Chunk 128 items (Splitter.next_chunk 128 splitter)
      → Encoded codec items workers
      → IsCounted core laws s.tasks
      → m.scheduler.ready ≡ true
      → 128 * suc n ≤ length items
      → length items < 128 * (suc n + 1)
      → ((m : TaskManager) (s : Started) (splitter : TaskSplitter) (items : List (ℕ × TaskData))
            (workers : List WorkerTask)
          → Yields splitter items
          → Encoded codec items workers
          → IsCounted core laws s.tasks
          → m.scheduler.ready ≡ true
          → 128 * n ≤ length items
          → length items < 128 * (n + 1)
          → Returns (SentAll core laws codec m job s items workers) (
              run_rounds core codec libraries
                (suc n)
                (with_state m job (started record s { phase = splitting splitter }))))
      → Returns (SentAll core laws codec m job s items workers) (
          run_rounds core codec libraries
            (suc (suc n))
            (with_state m job (started record s { phase = splitting splitter })))
  unfolding run_rounds process_phase send
  full_round n m job s splitter items workers (partial f e l) encoded counted ready low high again =
      absurd (not_last n (length items) low l)
  full_round n m job s splitter items workers (full rest f e l y) encoded counted ready low high
        again =
      let chunk = (Splitter.next_chunk 128 splitter).1 in
      let (first, later, split, a, b) =
        Encoded-split codec chunk rest workers (subst (λ xs. Encoded codec xs workers) e encoded) in
      let (same, kept) = encode_tasks-Remembers core laws codec s.tasks chunk first a counted in
      let size = length-rest 128 chunk rest items e l in
      let after =
        again (record m { scheduler = send m.scheduler (task first) })
          (record s { tasks = (encode_tasks core codec s.tasks chunk).1 })
          (Splitter.next_chunk 128 splitter).2 rest later y b kept.counted ready
          (rounds_low n (length items) (length rest) size low)
          (rounds_high n (length items) (length rest) size high) in
      rw
        (split_job_lem core laws codec
          (with_state m job (started record s { phase = splitting splitter }))
          (record job { state = started record s { phase = splitting splitter } })
          (record s { phase = splitting splitter }) splitter first ready same)
        (rw f (
          Returns-map after (λ out all. record {
            flow = all.flow;
            sent =
                all.sent
                ∙ ap (λ xs. xs ++ later) (sent_tasks-append m.scheduler.sent first)
                ∙ append_assoc (sent_tasks m.scheduler.sent) first later
                ∙ ap (λ xs. sent_tasks m.scheduler.sent ++ xs) (sym split);
            tasks = all.tasks;
            state = all.state;
            remembered = record {
              counted = all.remembered.counted;
              found = λ j.
                  all.remembered.found j
                  ∙ ap (λ b. has_id j rest || b) (kept.found j)
                  ∙ joined j chunk rest items e (contains core s.tasks j);
            };
          })))

  -- For a ready scheduler, a splitter that yields given tasks, all of which are encoded, and a set
  -- of tasks whose count is right, as many calls of `process_job` as there are whole batches of
  -- 128, and one more, send the scheduler exactly those tasks, each once and in order, add their
  -- ids and no others to the set, and leave the job waiting for their results.
  pub run_rounds-SentAll :
      (n : ℕ) (m : TaskManager) (job : Job) (s : Started) (splitter : TaskSplitter)
      (items : List (ℕ × TaskData)) (workers : List WorkerTask)
      → Yields splitter items
      → Encoded codec items workers
      → IsCounted core laws s.tasks
      → m.scheduler.ready ≡ true
      → 128 * n ≤ length items
      → length items < 128 * (n + 1)
      → Returns (SentAll core laws codec m job s items workers) (
          run_rounds core codec libraries
            (suc n)
            (with_state m job (started record s { phase = splitting splitter })))
  run_rounds-SentAll zero m job s splitter items workers y e counted ready low high =
      last_round m job s splitter items workers (next_chunk-Chunk 128 splitter items y) e counted
        ready (one_round (length items) high)
  run_rounds-SentAll (suc n) m job s splitter items workers y e counted ready low high =
      full_round n m job s splitter items workers (next_chunk-Chunk 128 splitter items y) e counted
        ready low high
        (λ m s splitter items workers. run_rounds-SentAll n m job s splitter items workers)
