-- ===== src/TaskManager/Splitter.antt =====
-- task_manager/src/splitter.rs and shared/src/task_manager/task.rs: the tasks of a job, one for each taxi
-- and each way to split the passengers into two groups. Arithmetic is that of a release build.
pub mod Enumeration
use grid_server.Base.{
  false, true, Bool, ℕ, zero, suc, ◌+◌, ◌-◌, ◌*◌, ◌/◌, ◌%◌, ◌^◌, Option, none, some, List, [], ◌∷◌,
  Run, ok, out_of_fuel, ◌>>=◌, ltb, ◌==◌, if◌then◌else◌,
}
use Prim.Native.Nat.{bit_xor}

pub record TaskData : Type 0 where
  pub taxi : ℕ
  pub combinations : ℕ × ℕ

pub record TaskSplitter : Type 0 where
  pub n : ℕ
  pub taxies : ℕ
  pub cur_taxi : ℕ
  pub max : ℕ
  pub mid : ℕ
  pub cur : ℕ

unfoldable pub total_tasks : TaskSplitter → ℕ
total_tasks s = (s.mid * s.taxies) % 2 ^ 128

unfoldable pub new : ℕ → ℕ → TaskSplitter
new taxies passengers =
    let comb = 2 ^ (passengers % 2 ^ 32) % 2 ^ 128 in
    record {
      n = 0;
      cur_taxi = 0;
      cur = comb / 2;
      taxies = taxies;
      mid = comb / 2;
      max = (comb + 2 ^ 128 - 1) % 2 ^ 128;
    }

-- The task that the splitter is at.
abbrev pub task_of : TaskSplitter → ℕ × TaskData
task_of s = (s.n, record { taxi = s.cur_taxi; combinations = (s.cur, bit_xor s.max s.cur) })

unfoldable pub advance : TaskSplitter → TaskSplitter
advance s =
    if s.cur == s.max
    then record s { n = (s.n + 1) % 2 ^ 64; cur_taxi = s.cur_taxi + 1; cur = s.mid }
    else record s { n = (s.n + 1) % 2 ^ 64; cur = s.cur + 1 }

unfoldable pub next : TaskSplitter → Option (ℕ × TaskData) × TaskSplitter
unfolding advance
next s = if ltb s.cur_taxi s.taxies then (some (task_of s), advance s) else (none, s)

-- All that the iterator yields.
unfoldable pub drain : ℕ → TaskSplitter → Run (List (ℕ × TaskData))
unfolding next
drain zero s = out_of_fuel
drain (suc k) s =
    let rest = drain k (next s).1 in
    elim (next s).0 [ none ↦ ok [] | some item ↦ rest >>= λ items. ok (item ∷ items) ]

-- `next_chunk`: the first `k` tasks, or fewer at the end. The flag tells whether there were `k`.
unfoldable pub next_chunk : ℕ → TaskSplitter → Bool × List (ℕ × TaskData) × TaskSplitter
unfolding next
next_chunk zero s = (true, [], s)
next_chunk (suc k) s =
    let (full, items, rest) = next_chunk k (next s).1 in
    elim (next s).0 [ none ↦ (false, [], s) | some item ↦ (full, item ∷ items, rest) ]
