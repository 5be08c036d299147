-- ===== src/TaskManager/JobData.antt =====
-- shared/src/task_manager/job_data.rs: validate, whose loops return at the first failure.
use grid_server.Base.{
  ℕ, ◌<◌, ◌≡◌, refl, Bool, true, false, ◌||◌, ◌↔◌, List, [], ◌∷◌, ◌++◌, arith, length, leb, ◌==◌,
  if◌then◌else◌, not,
}

pub record JobData : Type 0 where
  pub graph : List (List ℕ)
  pub taxies : List ℕ
  pub passengers : List (ℕ × ℕ)

pub rows_fit : ℕ → List (List ℕ) → Bool
rows_fit vertex_count [] = true
rows_fit vertex_count (vertex ∷ graph) =
    let rest = rows_fit vertex_count graph in
    if not (length vertex == vertex_count) then false else rest

pub taxies_fit : ℕ → List ℕ → Bool
taxies_fit vertex_count [] = true
taxies_fit vertex_count (position ∷ taxies) =
    let rest = taxies_fit vertex_count taxies in if leb vertex_count position then false else rest

pub passengers_fit : ℕ → List (ℕ × ℕ) → Bool
passengers_fit vertex_count [] = true
passengers_fit vertex_count ((position, destination) ∷ passengers) =
    let rest = passengers_fit vertex_count passengers in
    if leb vertex_count position || leb vertex_count destination then false else rest

unfoldable pub validate : JobData → Bool
unfolding rows_fit taxies_fit passengers_fit
validate job =
    let vertex_count = length job.graph in
    if rows_fit vertex_count job.graph
    then (if taxies_fit vertex_count job.taxies
        then passengers_fit vertex_count job.passengers
        else false)
    else false

-- Every element of a list has a property.
pub data All {A : Type 0} (P : A → Type 0) : List A → Type 0 where
  all_nil : All P []
  all_cons : {x : A} {xs : List A} → P x → All P xs → All P (x ∷ xs)

-- The graph is a square matrix, and every position is a vertex of it.
pub record IsValid (job : JobData) : Type 0 where
  pub square : All (λ row. length row ≡ length job.graph) job.graph
  pub taxies : All (λ position. position < length job.graph) job.taxies
  pub passengers :
      All
        (λ (position, destination).
          (position < length job.graph) × (destination < length job.graph))
        job.passengers

module _ {A : Type 0} {P : A → Type 0} where
  All-head : {x : A} {xs : List A} → All P (x ∷ xs) → P x
  All-head (all_cons h a) = h

  All-tail : {x : A} {xs : List A} → All P (x ∷ xs) → All P xs
  All-tail (all_cons h a) = a

  pub All-append : {xs ys : List A} → All P xs → All P ys → All P (xs ++ ys)
  All-append all_nil b = b
  All-append (all_cons h a) b = all_cons h (All-append a b)

rows_fit-All :
    (n : ℕ) (graph : List (List ℕ)) → (rows_fit n graph ≡ true) ↔ All (λ row. length row ≡ n) graph
unfolding rows_fit
rows_fit-All n [] = ((λ e. all_nil), (λ a. refl))
rows_fit-All n (row ∷ graph) =
    let (sound, complete) = rows_fit-All n graph in
    (
      (λ e. all_cons (ground (arith, e)) (sound (ground (arith, e)))),
      (λ a. ground (arith, All-head a, complete (All-tail a))),
    )

taxies_fit-All :
    (n : ℕ) (taxies : List ℕ) → (taxies_fit n taxies ≡ true) ↔ All (λ position. position < n) taxies
unfolding taxies_fit
taxies_fit-All n [] = ((λ e. all_nil), (λ a. refl))
taxies_fit-All n (position ∷ taxies) =
    let (sound, complete) = taxies_fit-All n taxies in
    (
      (λ e. all_cons (ground (arith, e)) (sound (ground (arith, e)))),
      (λ a. ground (arith, All-head a, complete (All-tail a))),
    )

passengers_fit-All :
    (n : ℕ) (passengers : List (ℕ × ℕ))
    → (passengers_fit n passengers ≡ true)
      ↔ All (λ (position, destination). (position < n) × (destination < n)) passengers
unfolding passengers_fit
passengers_fit-All n [] = ((λ e. all_nil), (λ a. refl))
passengers_fit-All n ((position, destination) ∷ passengers) =
    let (sound, complete) = passengers_fit-All n passengers in
    (
      (λ e. all_cons (ground (arith, e), ground (arith, e)) (sound (ground (arith, e)))),
      (λ a. ground (arith, All-head a, complete (All-tail a))),
    )

-- `validate` accepts exactly the jobs whose graph is a square matrix and whose taxis, passengers
-- and destinations are at vertices of it.
pub validate-IsValid : (job : JobData) → (validate job ≡ true) ↔ IsValid job
unfolding validate
validate-IsValid job =
    let n = length job.graph in
    let (rows, rows') = rows_fit-All n job.graph in
    let (taxies, taxies') = taxies_fit-All n job.taxies in
    let (passengers, passengers') = passengers_fit-All n job.passengers in
    (
      (λ e. record {
        square = rows (ground (arith, e));
        taxies = taxies (ground (arith, e));
        passengers = passengers (ground (arith, e));
      }),
      (λ v. rw (rows' v.square, taxies' v.taxies) (passengers' v.passengers)),
    )
