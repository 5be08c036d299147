-- ===== src/TaskManager/Combinations/Digits.antt =====
-- task_manager/src/reducer.rs: a number below `taxies ^ passengers` and its digits determine each other.
use grid_server.Base.{
  subst, ℕ, zero, suc, ◌+◌, ◌*◌, ◌/◌, ◌%◌, ◌^◌, ◌<◌, ◌≡◌, refl, sym, ◌∙◌, ap, List, [], ◌∷◌, arith,
  Returns, returns, Returns-bind, Returns-if, ◌==◌,
}
use native.Mathlib.Nat
use grid_server.TaskManager.Combinations.{Pair, extract_combination}

-- The number that the pairs stand for.
pub number : ℕ → List Pair → ℕ
number taxies [] = 0
number taxies (pair ∷ pairs) = pair.taxi + taxies * number taxies pairs

-- Every passenger below `passengers` once, from the last, each with a taxi below `taxies`.
pub data IsAssignment (taxies : ℕ) : ℕ → List Pair → Type 0 where
  nobody : IsAssignment taxies 0 []
  assigned :
      {passenger : ℕ} {pairs : List Pair} (taxi : ℕ)
      → taxi < taxies
      → IsAssignment taxies passenger pairs
      → IsAssignment taxies (suc passenger) (record { taxi = taxi; passenger = passenger } ∷ pairs)

below_one : {n : ℕ} → n < 1 → n ≡ 0
below_one h = omega (arith, h)

quotient_bound : (t n p : ℕ) → 0 < t → n < t * p → n / t < p
quotient_bound t n p h l = (Nat.div-lt_iff_lt-mul h).1 (subst (λ x. n < x) (Nat.mul_comm t p) l)

-- For at least one taxi, each number below taxies to the power of passengers yields an assignment
-- of every passenger to a taxi, and is the number that the assignment stands for.
pub extract-IsAssignment :
    (taxies passengers num : ℕ)
    → 0 < taxies
    → num < taxies ^ passengers
    → Returns
        (λ pairs. IsAssignment taxies passengers pairs × (number taxies pairs ≡ num))
        (extract_combination taxies passengers num)
unfolding extract_combination number
extract-IsAssignment taxies zero num h l =
    returns (nobody, sym (below_one (subst (λ x. num < x) (Nat.pow-zero taxies) l)))
extract-IsAssignment taxies (suc passenger) num h l =
    Returns-if (taxies == 0) (λ e. absurd (ground arith))
      (λ e.
        Returns-bind
          (extract-IsAssignment taxies passenger (num / taxies) h (
            quotient_bound taxies num (taxies ^ passenger) h
              (subst (λ x. num < x) (Nat.pow-succ' taxies passenger) l)))
          λ pairs (a, v). returns (
            assigned (num % taxies) (Nat.mod-lt num h) a,
            ap (λ q. num % taxies + taxies * q) v ∙ Nat.mod-add-div num taxies,
          ))

-- Every assignment of all passengers to taxies is what its own number yields, so that the numbers
-- enumerate each assignment once.
pub extract-number :
    (taxies passengers : ℕ) (pairs : List Pair)
    → IsAssignment taxies passengers pairs
    → Returns (λ r. r ≡ pairs) (extract_combination taxies passengers (number taxies pairs))
unfolding extract_combination number
extract-number taxies zero [] nobody = returns refl
extract-number taxies zero (pair ∷ pairs) a = elim a [ ]
extract-number taxies (suc passenger) [] a = elim a [ ]
extract-number taxies (suc passenger) (pair ∷ pairs) (assigned taxi h a) =
    Returns-if (taxies == 0) (λ e. absurd (ground arith))
      (λ e.
        let low : (taxi + taxies * number taxies pairs) % taxies ≡ taxi =
          Nat.add-mul-mod_self_left taxi taxies (number taxies pairs) ∙ Nat.mod-eq_of_lt h in
        let high : (taxi + taxies * number taxies pairs) / taxies ≡ number taxies pairs =
          Nat.add-mul-div_left taxi (number taxies pairs) (omega (arith, h))
          ∙ ap (λ x. x + number taxies pairs) (Nat.div-eq_of_lt h)
          ∙ Nat.zero-add (number taxies pairs) in
        rw high (
          Returns-bind (extract-number taxies passenger pairs a)
            λ r same. returns (rw (low, same) refl)))
