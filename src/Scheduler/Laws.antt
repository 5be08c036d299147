-- ===== src/Scheduler/Laws.antt =====
-- The orders of the scheduler's queues, and changes through a guard.
use grid_server.Base.{
  ap, Returns-then, ℕ, ◌-◌, ◌≡◌, refl, inl, inr, Bool, true, false, some, List, arith, Run, ok,
  ◌>>=◌, Returns, returns, Guarded, guarded, panicked, Returns-Guarded, Guarded-bind, length,
  get_elem?, if◌then◌else◌, Option-cases,
}
use grid_server.VecMap
use grid_server.VecMap.Lookup.{get-clear}
use grid_server.PriorityQueue.{PriorityQueue, get, clear, vec_swap_remove}
use grid_server.PriorityQueue.Guards.{RefMut_write, drop_ref_mut}
use grid_server.PriorityQueue.Index.{place, place_of, IsIndexed}
use grid_server.PriorityQueue.Order.{IsPriority}
use grid_server.PriorityQueue.Stored.{ref_mut-Stored, get_mut-cases}
use grid_server.Scheduler.{worker_less, fewer, remove_found, position}
use grid_server.Scheduler.Guards.{with_ref_mut}

pub fewer-IsPriority : IsPriority fewer
unfolding fewer
fewer-IsPriority = record { asym = λ a b h. ground arith; cotrans = λ a b c h k. ground arith }

pub worker_less-IsPriority : IsPriority worker_less
unfolding worker_less
worker_less-IsPriority = record {
  asym = λ a b h. ground arith;
  cotrans = λ a b c h k. ground arith;
}

-- No condition on the value.
abbrev pub Always {ℓ} : {A : Type ℓ} → A → Type ℓ
Always a = a ≡ a

pub vec_swap_remove-Guarded : (xs : List ℕ) (i : ℕ) → Guarded Always (vec_swap_remove xs i)
unfolding vec_swap_remove
vec_swap_remove-Guarded xs i = elim (Option-cases (get_elem? xs i)) [
  | inl e ↦ rw e panicked
  | inr (x, e) ↦ elim (Option-cases (get_elem? xs (length xs - 1))) [
    | inl f ↦ rw (e, f) panicked
    | inr (y, f) ↦ rw (e, f) (guarded refl)
  ]
]

pub remove_found-Guarded :
    (searched ids : List ℕ) (id : ℕ) → Guarded Always (remove_found searched ids id)
unfolding remove_found
remove_found-Guarded searched ids id = elim (Option-cases (position searched id)) [
  | inl e ↦ rw (e, remove_found) (guarded refl)
  | inr (pos, e) ↦
      rw (e, remove_found) (Guarded-bind (vec_swap_remove-Guarded ids pos) λ _ _. guarded refl)
]

module _ {V B : Type 0} (cmp : V → V → Bool) (laws : IsPriority cmp) (Q : B → Type 0) where
  -- The end of a guard, marked or not.
  finish-IsIndexed :
      (q : PriorityQueue V) (id : ℕ) (v v' : V) (modified : Bool) (b : B)
      → IsIndexed q
      → get q id ≡ some v
      → Q b
      → Returns
          (λ (r, b). IsIndexed r × Q b)
          ((if modified
              then RefMut_write (record { queue = q; key = id; modified = false }) (λ _. v')
              else ok (record { queue = q; key = id; modified = false }))
            >>= λ guard. drop_ref_mut cmp guard >>= λ r. ok (r, b))
  unfolding drop_ref_mut
  finish-IsIndexed q id v v' true b inv g c =
      Returns-then (RefMut_write (record { queue = q; key = id; modified = false }) (λ _. v'))
        (drop_ref_mut cmp) (ref_mut-Stored cmp laws q id v v' inv g) λ r s. returns (s.indexed, c)
  finish-IsIndexed q id v v' false b inv g c = returns (inv, c)

  -- A change through a guard leaves the index whole, and a panic of the change is the call's.
  pub with_ref_mut-Guarded :
      (q : PriorityQueue V) (id : ℕ) (absent : B) (change : V → Run (Bool × V × B))
      → IsIndexed q
      → Q absent
      → ((v : V) → Guarded (λ (_, _, b). Q b) (change v))
      → Guarded (λ (r, b). IsIndexed r × Q b) (with_ref_mut cmp q id absent change)
  unfolding with_ref_mut
  with_ref_mut-Guarded q id absent change inv a h = elim (get_mut-cases cmp laws q id) [
    | inl (e, _) ↦ rw (e, with_ref_mut) (guarded (inv, a))
    | inr (v, g, e, d) ↦
        rw (e, with_ref_mut, d)
          (Guarded-bind (h v) λ (modified, v', b) kept.
            Returns-Guarded (finish-IsIndexed q id v v' modified b inv g kept))
  ]

module _ {V : Type 0} where
  pub clear-IsIndexed : (q : PriorityQueue V) → IsIndexed (clear q)
  unfolding clear place VecMap.clear
  clear-IsIndexed q = record {
    listed = λ p h. absurd (omega arith);
    located = λ k p e. absurd (cc (e, ap place_of (get-clear q.map k)));
    sized = refl;
  }
