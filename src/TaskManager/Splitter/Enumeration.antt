-- ===== src/TaskManager/Splitter/Enumeration.antt =====
-- task_manager/src/splitter.rs: the iterator yields every taxi with every split of the passengers, each
-- once and in order, numbered from zero.
use grid_server.Base.{
  ◌≤◌, ◌-◌, ◌/◌, ==_refl, ℕ, zero, suc, ◌+◌, ◌*◌, ◌%◌, ◌^◌, ◌<◌, ◌≡◌, refl, sym, ◌∙◌, ap, List, [],
  ◌∷◌, ◌++◌, arith, ok, ◌>>=◌, length, length-append, ltb, ◌==◌, true, false,
}
use Prim.Native.Nat.{bit_xor}
use native.Mathlib.Nat
use grid_server.TaskManager.Splitter.{
  total_tasks, new, TaskData, TaskSplitter, advance, next, drain,
}

-- The tasks of one taxi: `rounds` splits from `cur` on, numbered from `n`.
pub splits : (max taxi n cur rounds : ℕ) → List (ℕ × TaskData)
splits max taxi n cur zero = []
splits max taxi n cur (suc rounds) =
    (n, record { taxi = taxi; combinations = (cur, bit_xor max cur) })
    ∷ splits max taxi (suc n) (suc cur) rounds

-- The tasks of `taxies` taxis from `taxi` on, with `mid` splits each.
pub all_tasks : (max mid taxi n taxies : ℕ) → List (ℕ × TaskData)
all_tasks max mid taxi n zero = []
all_tasks max mid taxi n (suc taxies) =
    splits max taxi n mid mid ++ all_tasks max mid (suc taxi) (n + mid) taxies

length-splits : (max taxi n cur rounds : ℕ) → length (splits max taxi n cur rounds) ≡ rounds
unfolding splits
length-splits max taxi n cur zero = refl
length-splits max taxi n cur (suc rounds) = ap suc (length-splits max taxi (suc n) (suc cur) rounds)

sum : {a b c d : ℕ} → a ≡ b → c ≡ d → a + c ≡ b + d
sum e f = omega (arith, e, f)

pub length-all_tasks :
    (max mid taxi n taxies : ℕ) → length (all_tasks max mid taxi n taxies) ≡ taxies * mid
unfolding all_tasks
length-all_tasks max mid taxi n zero = sym (Nat.zero-mul mid)
length-all_tasks max mid taxi n (suc taxies) =
    let rest = length-all_tasks max mid (suc taxi) (n + mid) taxies in
    length-append (splits max taxi n mid mid) (all_tasks max mid (suc taxi) (n + mid) taxies)
    ∙ sum (length-splits max taxi n mid mid) rest
    ∙ sym (Nat.suc-mul taxies mid ∙ Nat.add_comm (taxies * mid) mid)

-- The splitter at a task.
abbrev at_task : (taxies max mid taxi n cur : ℕ) → TaskSplitter
at_task taxies max mid taxi n cur = record {
  n = n;
  taxies = taxies;
  cur_taxi = taxi;
  max = max;
  mid = mid;
  cur = cur;
}

drain_item :
    (k taxies max mid taxi n cur : ℕ)
    → taxi < taxies
    → drain (suc k) (at_task taxies max mid taxi n cur) ≡ (
        drain k (advance (at_task taxies max mid taxi n cur)) >>= λ items.
        ok ((n, record { taxi = taxi; combinations = (cur, bit_xor max cur) }) ∷ items))
unfolding drain next
drain_item k taxies max mid taxi n cur h =
    let test : ltb taxi taxies ≡ true = ground (arith, h) in rw (test, drain, next, test) refl

drain_done : (k taxies max mid n : ℕ) → drain (suc k) (at_task taxies max mid taxies n mid) ≡ ok []
unfolding drain next
drain_done k taxies max mid n =
    let test : ltb taxies taxies ≡ false = ground arith in rw (test, drain, next) refl

advance_inner :
    (taxies max mid taxi n cur : ℕ)
    → n + 1 < 2 ^ 64
    → cur < max
    → advance (at_task taxies max mid taxi n cur) ≡ at_task taxies max mid taxi (suc n) (suc cur)
unfolding advance
advance_inner taxies max mid taxi n cur b h =
    let test : (cur == max) ≡ false = ground (arith, h) in
    let number : (n + 1) % 2 ^ 64 ≡ suc n = omega (arith, b) in
    let split : cur + 1 ≡ suc cur = omega arith in rw (test, number, split) refl

advance_turn :
    (taxies max mid taxi n : ℕ)
    → n + 1 < 2 ^ 64
    → advance (at_task taxies max mid taxi n max) ≡ at_task taxies max mid (suc taxi) (suc n) mid
unfolding advance
advance_turn taxies max mid taxi n b =
    let number : (n + 1) % 2 ^ 64 ≡ suc n = omega (arith, b) in
    let other : taxi + 1 ≡ suc taxi = omega arith in rw (==_refl max, number, other) refl

-- From a task on: the rest of its taxi, and the other taxis. `later` is their number of tasks.
drain_rest :
    (k taxies max mid taxi n cur rounds left : ℕ)
    → suc rounds + left * mid < k
    → n + suc rounds + left * mid < 2 ^ 64
    → cur + rounds ≡ max
    → mid + mid ≡ suc max
    → taxi + suc left ≡ taxies
    → drain k (at_task taxies max mid taxi n cur)
      ≡ ok
          (splits max taxi n cur (suc rounds) ++ all_tasks max mid (suc taxi) (n + suc rounds) left)
unfolding splits all_tasks
drain_rest zero taxies max mid taxi n cur rounds left f b c m t = absurd (omega (arith, f))
drain_rest (suc k) taxies max mid taxi n cur (suc rounds) left f b c m t =
    let ih =
      drain_rest k taxies max mid taxi (suc n) (suc cur) rounds left (omega (arith, f))
        (omega (arith, b)) (omega (arith, c)) m t in
    let shift : suc n + suc rounds ≡ n + suc (suc rounds) = omega arith in
    drain_item k taxies max mid taxi n cur (omega (arith, t))
    ∙ rw (advance_inner taxies max mid taxi n cur (omega (arith, b)) (omega (arith, c)), ih, shift)
        refl
drain_rest (suc (suc k)) taxies max mid taxi n cur zero zero f b c m t =
    let last : cur ≡ max = omega (arith, c) in
    let done : suc taxi ≡ taxies = omega (arith, t) in
    drain_item (suc k) taxies max mid taxi n cur (omega (arith, t))
    ∙ rw
        (
          last,
          advance_turn taxies max mid taxi n (omega (arith, b)),
          done,
          drain_done k taxies max mid (suc n),
        )
        refl
drain_rest (suc k) taxies max (suc mid) taxi n cur zero (suc left) f b c m t =
    let last : cur ≡ max = omega (arith, c) in
    let product : suc left * suc mid ≡ suc mid + left * suc mid =
      Nat.suc-mul left (suc mid) ∙ Nat.add_comm (left * suc mid) (suc mid) in
    let ih =
      drain_rest k taxies max (suc mid) (suc taxi) (suc n) (suc mid) mid left
        (omega (arith, f, product)) (omega (arith, b, product)) (omega (arith, m)) m
        (omega (arith, t)) in
    let shift : suc n ≡ n + 1 = omega arith in
    drain_item k taxies max (suc mid) taxi n cur (omega (arith, t))
    ∙ rw (last, advance_turn taxies max (suc mid) taxi n (omega (arith, b)), ih, shift) refl
drain_rest (suc k) taxies max zero taxi n cur zero (suc left) f b c m t = absurd (omega (arith, m))
drain_rest (suc zero) taxies max mid taxi n cur zero zero f b c m t = absurd (omega (arith, f))

half : (x : ℕ) → (x + x) / 2 ≡ x
half x = omega arith

whole : (x : ℕ) → x + x < 2 ^ 128 → (x + x) % 2 ^ 128 ≡ x + x
whole x h = omega (arith, h)

below : (x : ℕ) → 0 < x → x < 2 ^ 128 → (x + 2 ^ 128 - 1) % 2 ^ 128 ≡ x - 1
below x p h = omega (arith, p, h)

-- The first task, for at most 64 passengers.
new-at :
    (taxies p : ℕ)
    → p < 64
    → (0 < 2 ^ p) × (new taxies (suc p) ≡ at_task taxies (2 ^ p + 2 ^ p - 1) (2 ^ p) 0 0 (2 ^ p))
unfolding new
new-at taxies p h =
    let power : 2 ^ p ≤ 2 ^ 63 = Nat.pow-le-pow_right (omega arith) {j = 63} (omega (arith, h)) in
    let positive : 0 < 2 ^ p = omega (arith, Nat.one-le-pow p 2 (omega arith)) in
    let exponent : suc p % 2 ^ 32 ≡ suc p = omega (arith, h) in
    (
      positive,
      rw
          (
            exponent,
            Nat.two-pow-succ p,
            whole (2 ^ p) (omega (arith, power)),
            half (2 ^ p),
            below (2 ^ p + 2 ^ p) (omega (arith, positive)) (omega (arith, power)),
          )
          refl,
    )

-- What the iterator yields, and how many tasks that is.
small_product : (mid taxies : ℕ) → taxies * mid < 2 ^ 64 → (mid * taxies) % 2 ^ 128 ≡ taxies * mid
small_product mid taxies h = omega (arith, h, Nat.mul_comm mid taxies)

drain_all :
    (taxies max mid : ℕ)
    → mid + mid ≡ suc max
    → taxies * mid < 2 ^ 64
    → drain (suc (suc (taxies * mid))) (at_task taxies max mid 0 0 mid)
      ≡ ok (all_tasks max mid 0 0 taxies)
unfolding all_tasks
drain_all zero max mid m b = drain_done (suc (zero * mid)) zero max mid 0
drain_all (suc taxies) max zero m b = absurd (omega (arith, m))
drain_all (suc taxies) max (suc mid) m b =
    let product : suc taxies * suc mid ≡ suc mid + taxies * suc mid =
      Nat.suc-mul taxies (suc mid) ∙ Nat.add_comm (taxies * suc mid) (suc mid) in
    drain_rest (suc (suc (suc taxies * suc mid))) (suc taxies) max (suc mid) 0 0 (suc mid) mid
      taxies (omega (arith, product)) (omega (arith, product, b)) (omega (arith, m)) m (omega arith)

-- For one to 64 passengers and fewer than 2^64 tasks, the splitter ends, and yields exactly the
-- table of all tasks: for each taxi in order each of the 2^p splits of p + 1 passengers in which
-- the last passenger is in the first group, with its complement, numbered from zero without gaps;
-- and `total_tasks` is the length of that table.
pub drain-new :
    (taxies p : ℕ)
    → p < 64
    → taxies * 2 ^ p < 2 ^ 64
    → (drain (suc (suc (taxies * 2 ^ p))) (new taxies (suc p))
        ≡ ok (all_tasks (2 ^ p + 2 ^ p - 1) (2 ^ p) 0 0 taxies))
      × (total_tasks (new taxies (suc p))
          ≡ length (all_tasks (2 ^ p + 2 ^ p - 1) (2 ^ p) 0 0 taxies))
unfolding total_tasks
drain-new taxies p h b =
    let (positive, start) = new-at taxies p h in
    let max = 2 ^ p + 2 ^ p - 1 in
    let twice : 2 ^ p + 2 ^ p ≡ suc max = omega (arith, positive) in
    let size : (2 ^ p * taxies) % 2 ^ 128 ≡ taxies * 2 ^ p = small_product (2 ^ p) taxies b in
    (
      rw start (drain_all taxies max (2 ^ p) twice b),
      rw start (size ∙ sym (length-all_tasks max (2 ^ p) 0 0 taxies)),
    )
