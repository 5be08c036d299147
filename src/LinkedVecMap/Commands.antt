-- ===== src/LinkedVecMap/Commands.antt =====
-- A client of the map: a sequence of its operations, and what it observes.
use grid_server.Base.{
  Returns-then, none, inl, inr, Option-cases, sym, subst, some, ℕ, ◌≡◌, refl, ap, Bool, Option,
  List, [], ◌∷◌, ◌++◌, length, Run, ok, ◌>>=◌, Returns, returns, Returns-inv, Returns-bind,
}
use grid_server.VecMap.{is_some}
use grid_server.LinkedVecMap.{
  LinkedVecMap, new, insert, remove, get, get_mut, get_refresh, contains_key, from_iter, pop_front,
  pop_back, front, back, iter, len,
}
use grid_server.LinkedVecMap.Index.{lookup, without, written}
use grid_server.LinkedVecMap.Refinement.{Represents, new-Represents}
use grid_server.LinkedVecMap.Inserting.{
  refreshed, inserted, from_iter-Represents, insert-Represents, get_refresh-Represents,
}
use grid_server.LinkedVecMap.Removing.{remove-Represents}
use grid_server.LinkedVecMap.Ends.{
  oldest, without_oldest, newest, without_newest, len_lem, pop_front-Represents,
  pop_back-Represents,
}
use grid_server.LinkedVecMap.Reading.{
  get-Represents, front-Represents, back-Represents, iter-Represents,
}
use grid_server.VecMap.Lookup.{value_or}
use grid_server.LinkedVecMap.Clearing.{clear, clear-Represents}
use grid_server.VecMap
use grid_server.LinkedVecMap.Iteration.{iter_ends}
use grid_server.LinkedVecMap.BothEnds.{take_ends, ends_of, iter_ends-Represents}
use grid_server.LinkedVecMap.Occupied.{occupied_insert-Represents, occupied_remove-Represents}
use grid_server.LinkedVecMap.Entries.{
  occupied, vacant, occupied_insert, occupied_remove, vacant_insert, entry_of_key-vacant,
  entry_of_key-occupied, absent_lem, vacant_insert-Represents, or_insert, entry_of_key, ensured,
  or_insert-Represents,
}
use grid_server.LinkedVecMap.Writing.{get_mut-Represents, contains_key-Represents}

pub data Command (V : Type 0) : Type 0 where
  do_insert : ℕ → V → Command V
  do_remove : ℕ → Command V
  do_get : ℕ → Command V
  do_get_mut : ℕ → (V → V) → Command V
  do_get_refresh : ℕ → Command V
  do_contains_key : ℕ → Command V
  do_pop_front : Command V
  do_pop_back : Command V
  do_front : Command V
  do_back : Command V
  do_iter : Command V
  do_len : Command V
  do_clear : Command V
  do_or_insert : ℕ → V → Command V
  do_entry_insert : ℕ → V → Command V
  do_entry_remove : ℕ → Command V
  do_ends : List Bool → Command V

-- What an operation returns.
pub data Answer (V : Type 0) : Type 0 where
  value : Option V → Answer V
  entry : Option (ℕ × V) → Answer V
  listed : List (ℕ × V) → Answer V
  flag : Bool → Answer V
  done : Answer V
  taken : List (Option (ℕ × V)) → Answer V
  number : ℕ → Answer V

module _ {V : Type 0} where
  unfoldable pub run : LinkedVecMap V → Command V → Run (Answer V × LinkedVecMap V)
  unfolding insert remove get get_mut get_refresh contains_key pop_front pop_back front back iter
      len
  run m (do_insert k v) = do r ← insert m k v; ok (value r.0, r.1)
  run m (do_remove k) = do r ← remove m k; ok (value r.0, r.1)
  run m (do_get k) = do o ← get m k; ok (value o, m)
  run m (do_get_mut k f) = do r ← get_mut m k f; ok (value r.0, r.1)
  run m (do_get_refresh k) = do r ← get_refresh m k; ok (value r.0, r.1)
  run m (do_contains_key k) = ok (flag (contains_key m k), m)
  run m do_pop_front = do r ← pop_front m; ok (entry r.0, r.1)
  run m do_pop_back = do r ← pop_back m; ok (entry r.0, r.1)
  run m do_front = do o ← front m; ok (entry o, m)
  run m do_back = do o ← back m; ok (entry o, m)
  run m do_iter = do es ← iter m; ok (listed es, m)
  run m do_len = ok (number (len m), m)
  run m (do_ends flags) = do it ← iter_ends m; es ← take_ends m it flags; ok (taken es, m)
  run m do_clear = do m' ← clear m; ok (done, m')
  run m (do_or_insert k v) = do r ← or_insert m (entry_of_key m k) v; ok (value (some r.0), r.1)
  run m (do_entry_insert k v) = elim (entry_of_key m k) [
    | occupied p ↦ do r ← occupied_insert m p v; ok (value (some r.0), r.1)
    | vacant j ↦ do r ← vacant_insert m j v; ok (value none, r.1)
  ]
  run m (do_entry_remove k) = elim (entry_of_key m k) [
    | occupied p ↦ do r ← occupied_remove m p; ok (value (some r.0), r.1)
    | vacant j ↦ ok (value none, m)
  ]

  -- The same on the list of entries, from the oldest to the newest.
  abbrev pub abstract_run : List (ℕ × V) → Command V → Answer V × List (ℕ × V)
  abstract_run es (do_insert k v) = (value (lookup k es), without k es ++ (k, v) ∷ [])
  abstract_run es (do_remove k) = (value (lookup k es), without k es)
  abstract_run es (do_get k) = (value (lookup k es), es)
  abstract_run es (do_get_mut k f) = (value (lookup k es), written k f es)
  abstract_run es (do_get_refresh k) = (value (lookup k es), refreshed k es)
  abstract_run es (do_contains_key k) = (flag (is_some (lookup k es)), es)
  abstract_run es do_pop_front = (entry (oldest es), without_oldest es)
  abstract_run es do_pop_back = (entry (newest es), without_newest es)
  abstract_run es do_front = (entry (oldest es), es)
  abstract_run es do_back = (entry (newest es), es)
  abstract_run es do_iter = (listed es, es)
  abstract_run es do_len = (number (length es), es)
  abstract_run es (do_ends flags) = (taken (ends_of es flags), es)
  abstract_run es do_clear = (done, [])
  abstract_run es (do_or_insert k v) = (value (some (value_or (lookup k es) v)), ensured k v es)
  abstract_run es (do_entry_insert k v) = (value (lookup k es), without k es ++ (k, v) ∷ [])
  abstract_run es (do_entry_remove k) = (value (lookup k es), without k es)

  unfoldable pub run_all : LinkedVecMap V → List (Command V) → Run (List (Answer V))
  unfolding run
  run_all m [] = ok []
  run_all m (c ∷ cs) = do (answer, m') ← run m c; answers ← run_all m' cs; ok (answer ∷ answers)

  abbrev pub abstract_run_all : List (ℕ × V) → List (Command V) → List (Answer V)
  abstract_run_all es [] = []
  abstract_run_all es (c ∷ cs) = (abstract_run es c).0 ∷ abstract_run_all (abstract_run es c).1 cs

  -- An operation answers as the list does, and represents what the list becomes.
  abbrev Simulates : List (ℕ × V) → Command V → Answer V × LinkedVecMap V → Type 0
  Simulates es c r = (r.0 ≡ (abstract_run es c).0) × Represents r.1 (abstract_run es c).1

  pub run-Represents :
      (m : LinkedVecMap V) (es : List (ℕ × V)) (c : Command V)
      → Represents m es
      → Returns (Simulates es c) (run m c)
  unfolding run
  run-Represents m es (do_insert k v) h =
      Returns-bind (insert-Represents m es k v h) (λ r (o, h'). returns (ap value o, h'))
  run-Represents m es (do_remove k) h =
      Returns-bind (remove-Represents m es k h) (λ r (o, h'). returns (ap value o, h'))
  run-Represents m es (do_get k) h = rw (get-Represents m es k h, run) (returns (refl, h))
  run-Represents m es (do_get_mut k f) h =
      Returns-bind (get_mut-Represents m es k f h) (λ r (o, h'). returns (ap value o, h'))
  run-Represents m es (do_get_refresh k) h =
      Returns-bind (get_refresh-Represents m es k h) (λ r (o, h'). returns (ap value o, h'))
  run-Represents m es (do_contains_key k) h =
      returns (ap flag (contains_key-Represents m es k h), h)
  run-Represents m es do_pop_front h =
      Returns-bind (pop_front-Represents m es h) (λ r (o, h'). returns (ap entry o, h'))
  run-Represents m es do_pop_back h =
      Returns-bind (pop_back-Represents m es h) (λ r (o, h'). returns (ap entry o, h'))
  run-Represents m es do_front h = rw (front-Represents m es h, run) (returns (refl, h))
  run-Represents m es do_back h = rw (back-Represents m es h, run) (returns (refl, h))
  run-Represents m es do_iter h = rw (iter-Represents m es h, run) (returns (refl, h))
  run-Represents m es do_len h = returns (ap number (len_lem m es h), h)
  run-Represents m es (do_ends flags) h =
      Returns-then (iter_ends m) (λ it. take_ends m it flags) (iter_ends-Represents m es flags h)
        (λ r same. returns (ap taken same, h))
  run-Represents m es do_clear h =
      Returns-bind (clear-Represents m es h) (λ m' h'. returns (refl, h'))
  run-Represents m es (do_or_insert k v) h =
      Returns-bind (or_insert-Represents m es k v h)
        (λ r (o, h'). returns (ap (λ a. value (some a)) o, h'))
  run-Represents m es (do_entry_insert k v) h = elim (Option-cases (VecMap.get m.map k)) [
    | inl absent ↦
        let (missing, none_out) = absent_lem m es k h absent in
        rw (entry_of_key-vacant m k absent, run)
          (Returns-bind (vacant_insert-Represents m es k v h absent) (λ r (_, h'). returns (
            ap value (sym missing),
            subst (Represents r.1) (ap (λ es. es ++ (k, v) ∷ []) (sym none_out)) h',
          )))
    | inr (p, found) ↦
        rw (entry_of_key-occupied m k p found, run)
          (Returns-bind (occupied_insert-Represents m es k p v h found)
            (λ r (o, h'). returns (ap value o, h')))
  ]
  run-Represents m es (do_entry_remove k) h = elim (Option-cases (VecMap.get m.map k)) [
    | inl absent ↦
        let (missing, none_out) = absent_lem m es k h absent in
        rw (entry_of_key-vacant m k absent, run)
          (returns (ap value (sym missing), subst (Represents m) (sym none_out) h))
    | inr (p, found) ↦
        rw (entry_of_key-occupied m k p found, run)
          (Returns-bind (occupied_remove-Represents m es k p h found)
            (λ r (o, h'). returns (ap value o, h')))
  ]

  run_all_from :
      (m : LinkedVecMap V) (es : List (ℕ × V)) (cs : List (Command V))
      → Represents m es
      → run_all m cs ≡ ok (abstract_run_all es cs)
  unfolding run_all
  run_all_from m es [] h = refl
  run_all_from m es (c ∷ cs) h =
      let ((answer, m'), returned_it, (same, h')) = Returns-inv (run-Represents m es c h) in
      rw (returned_it, run_all)
        (rw (run_all_from m' (abstract_run es c).1 cs h')
          (ap (λ a. ok (a ∷ abstract_run_all (abstract_run es c).1 cs)) same))

  -- Every sequence of operations on a new map runs to its end, with no access to a cell that is not
  -- allocated, and answers what the same sequence answers on a list of entries: `insert` takes the
  -- entry of the key out of the list and puts the new one at its end, `get_refresh` moves an entry
  -- to the end, `remove` and the two pops take an entry out, `or_insert` through the entry of a key
  -- adds a missing one at the end, insertion and removal through the entry of a key do what they do
  -- on the map, `clear` leaves none, a write through `get_mut` leaves the order, and the reading
  -- operations and the iterator, from both its ends in any order, see the list.
  pub run_all-refines : (cs : List (Command V)) → run_all new cs ≡ ok (abstract_run_all [] cs)
  run_all-refines cs = run_all_from new [] cs new-Represents

  -- Collecting given entries and iterating over the map returns them in order, each key once, at
  -- the place and with the value of its last occurrence.
  pub from_iter-iter :
      (entries : List (ℕ × V)) → (from_iter entries >>= iter) ≡ ok (inserted [] entries)
  from_iter-iter entries =
      let (m, returned_it, h) = Returns-inv (from_iter-Represents entries) in
      rw returned_it (iter-Represents m (inserted [] entries) h)
