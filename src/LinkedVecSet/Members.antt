-- ===== src/LinkedVecSet/Members.antt =====
-- The members of a set, from the oldest to the newest.
use grid_server.Base.{
  none, ℕ, ◌≡◌, refl, ap, ◌∙◌, subst, Bool, true, false, Option, some, List, [], ◌∷◌, ◌++◌, map,
  arith, ◌==◌, if◌then◌else◌, Run, ok, ◌>>=◌, Returns, returns, Returns-inv, Returns-map,
  Returns-bind,
}
use grid_server.VecMap.{is_some}
use grid_server.LinkedVecMap.Index.{lookup, without}
use grid_server.LinkedVecMap.Refinement.{Represents, new-Represents}
use grid_server.LinkedVecMap.Inserting.{insert-Represents}
use grid_server.LinkedVecMap.Removing.{remove-Represents}
use grid_server.LinkedVecMap.Ends.{oldest, pop_front-Represents}
use grid_server.LinkedVecMap.Reading.{front-Represents, iter-Represents}
use grid_server.LinkedVecMap.Writing.{contains_key-Represents}
use grid_server.LinkedVecSet.{
  front, key_of, LinkedVecSet, new, insert, contains_key, remove, pop_front, into_iter,
}

abbrev pub unit_entries : List ℕ → List (ℕ × Unit {0})
unit_entries [] = []
unit_entries (k ∷ ks) = (k, tt) ∷ unit_entries ks

abbrev pub is_member : ℕ → List ℕ → Bool
is_member k [] = false
is_member k (j ∷ ks) = if j == k then true else is_member k ks

abbrev pub leave_out : ℕ → List ℕ → List ℕ
leave_out k [] = []
leave_out k (j ∷ ks) = if j == k then leave_out k ks else j ∷ leave_out k ks

-- The set holds these members in this order.
abbrev pub Holds : LinkedVecSet → List ℕ → Type 0
Holds s ks = Represents s.inner (unit_entries ks)

pub new-Holds : Holds new []
unfolding new
new-Holds = new-Represents

is_some-lookup : (k : ℕ) (ks : List ℕ) → is_some (lookup k (unit_entries ks)) ≡ is_member k ks
is_some-lookup k [] = refl
is_some-lookup k (j ∷ ks) = ground (arith, is_some-lookup k ks)

without-unit : (k : ℕ) (ks : List ℕ) → without k (unit_entries ks) ≡ unit_entries (leave_out k ks)
without-unit k [] = refl
without-unit k (j ∷ ks) = ground (arith, without-unit k ks)

append-unit : (ks : List ℕ) (k : ℕ) → unit_entries ks ++ (k, tt) ∷ [] ≡ unit_entries (ks ++ k ∷ [])
append-unit [] k = refl
append-unit (j ∷ ks) k = ap (◌∷◌ (j, tt)) (append-unit ks k)

map-unit : (ks : List ℕ) → map (λ (e : ℕ × Unit {0}). e.0) (unit_entries ks) ≡ ks
map-unit [] = refl
map-unit (k ∷ ks) = ap (◌∷◌ k) (map-unit ks)

pub insert-Holds :
    (s : LinkedVecSet) (ks : List ℕ) (k : ℕ)
    → Holds s ks
    → Returns {A = Bool × LinkedVecSet}
        (λ r. (r.0 ≡ is_member k ks) × Holds r.1 (leave_out k ks ++ k ∷ []))
        (insert s k)
unfolding insert
insert-Holds s ks k h =
    Returns-bind (insert-Represents s.inner (unit_entries ks) k tt h) (λ r (old, h'). returns (
      ap is_some old ∙ is_some-lookup k ks,
      subst (Represents r.1)
          (ap (λ es. es ++ (k, tt) ∷ []) (without-unit k ks) ∙ append-unit (leave_out k ks) k) h',
    ))

pub remove-Holds :
    (s : LinkedVecSet) (ks : List ℕ) (k : ℕ)
    → Holds s ks
    → Returns {A = Bool × LinkedVecSet}
        (λ r. (r.0 ≡ is_member k ks) × Holds r.1 (leave_out k ks))
        (remove s k)
unfolding remove
remove-Holds s ks k h =
    Returns-bind (remove-Represents s.inner (unit_entries ks) k h) (λ r (old, h').
      returns (ap is_some old ∙ is_some-lookup k ks, subst (Represents r.1) (without-unit k ks) h'))

pub contains_key-Holds :
    (s : LinkedVecSet) (ks : List ℕ) (k : ℕ) → Holds s ks → contains_key s k ≡ is_member k ks
unfolding contains_key
contains_key-Holds s ks k h =
    contains_key-Represents s.inner (unit_entries ks) k h ∙ is_some-lookup k ks

-- The numbers inserted one after another.
abbrev pub insert_all : LinkedVecSet → List ℕ → Run LinkedVecSet
insert_all s [] = ok s
insert_all s (k ∷ ks) = do r ← insert s k; insert_all r.1 ks

pub into_iter-Holds : (s : LinkedVecSet) (ks : List ℕ) → Holds s ks → into_iter s ≡ ok ks
unfolding into_iter
into_iter-Holds s ks h =
    rw (iter-Represents s.inner (unit_entries ks) h, into_iter) (ap ok (map-unit ks))

-- Popping the oldest of a set.
pub pop_front-Holds :
    (s : LinkedVecSet) (k : ℕ) (ks : List ℕ)
    → Holds s (k ∷ ks)
    → Returns {A = Option ℕ × LinkedVecSet} (λ r. (r.0 ≡ some k) × Holds r.1 ks) (pop_front s)
unfolding pop_front
pop_front-Holds s k ks h =
    Returns-bind (pop_front-Represents s.inner (unit_entries (k ∷ ks)) h)
      (λ r (old, h'). returns (ap key_of old, h'))

-- Each number once, at its last occurrence.
abbrev pub last_occurrences : List ℕ → List ℕ
last_occurrences [] = []
last_occurrences (k ∷ ks) = if is_member k ks then last_occurrences ks else k ∷ last_occurrences ks

abbrev pub all_out : List ℕ → List ℕ → List ℕ
all_out ks [] = []
all_out ks (j ∷ js) = if is_member j ks then all_out ks js else j ∷ all_out ks js

all_out-leave_out : (k : ℕ) (ks js : List ℕ) → all_out ks (leave_out k js) ≡ all_out (k ∷ ks) js
all_out-leave_out k ks [] = refl
all_out-leave_out k ks (j ∷ js) = ground (arith, all_out-leave_out k ks js)

all_out-snoc :
    (k : ℕ) (ks js rest : List ℕ)
    → all_out ks (js ++ k ∷ []) ++ rest
      ≡ all_out ks js ++ (if is_member k ks then rest else k ∷ rest)
all_out-snoc k ks [] rest = ground arith
all_out-snoc k ks (j ∷ js) rest = ground (arith, all_out-snoc k ks js rest)

all_out-nil : (js : List ℕ) → js ≡ all_out [] js ++ []
all_out-nil [] = refl
all_out-nil (j ∷ js) = ap (◌∷◌ j) (all_out-nil js)

pub insert_all-Holds :
    (s : LinkedVecSet) (js ks : List ℕ)
    → Holds s js
    → Returns (λ s'. Holds s' (all_out ks js ++ last_occurrences ks)) (insert_all s ks)
insert_all-Holds s js [] h = returns (subst (Holds s) (all_out-nil js) h)
insert_all-Holds s js (k ∷ ks) h = Returns-bind (insert-Holds s js k h) (λ r (old, h').
    Returns-map (insert_all-Holds r.1 (leave_out k js ++ k ∷ []) ks h') (λ s' h2.
      subst (Holds s')
        (all_out-snoc k ks (leave_out k js) (last_occurrences ks)
          ∙ ap (λ l. l ++ last_occurrences (k ∷ ks)) (all_out-leave_out k ks js))
        h2))

-- Inserting given numbers into a new set and iterating over it returns each number once, at its
-- last occurrence: an insertion of a member makes it the newest.
pub into_iter-insert_all :
    (ks : List ℕ) → (insert_all new ks >>= into_iter) ≡ ok (last_occurrences ks)
into_iter-insert_all ks =
    let (s, returned_it, h) = Returns-inv (insert_all-Holds new [] ks new-Holds) in
    rw returned_it (into_iter-Holds s (last_occurrences ks) h)

abbrev pub first_of : List ℕ → Option ℕ
first_of [] = none
first_of (k ∷ ks) = some k

first-unit : (ks : List ℕ) → key_of (oldest (unit_entries ks)) ≡ first_of ks
first-unit [] = refl
first-unit (k ∷ ks) = refl

pub front-Holds : (s : LinkedVecSet) (ks : List ℕ) → Holds s ks → front s ≡ ok (first_of ks)
unfolding front
front-Holds s ks h =
    rw (front-Represents s.inner (unit_entries ks) h, front) (ap ok (first-unit ks))
