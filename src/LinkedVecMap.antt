-- ===== src/LinkedVecMap.antt =====
-- shared/src/utils/linked_vec_map.rs: a VecMap whose values are nodes of a ring, from the oldest to the
-- newest, with a guard node between the newest and the oldest. The nodes stand in a memory of
-- numbered cells, 0 being the null pointer; an access to a cell that is not allocated, or to a key
-- or value that was not written, is `undefined`. The allocator gives the next unused cell.
pub mod Members
pub mod Ring
pub mod Relink
pub mod Links
pub mod Index
pub mod Memory
pub mod Nodes
pub mod Made
pub mod Written
pub mod Refinement
pub mod Inserting
pub mod Removing
pub mod Ends
pub mod Reading
pub mod Writing
pub mod Clearing
pub mod Entries
pub mod Occupied
pub mod Iteration
pub mod BothEnds
pub mod Commands
mod Tests
use grid_server.Base.{
  ℕ, zero, suc, ◌+◌, ◌-◌, ◌*◌, ◌/◌, ◌%◌, ◌^◌, ◌≤◌, ◌<◌, min, ◌≡◌, refl, sym, ap, ◌∙◌, subst, ◌≢◌,
  ◌↔◌, ◌⊎◌, inl, inr, Bool, true, false, not, ◌&&◌, ◌||◌, Option, none, some, List, [], ◌∷◌, ◌++◌,
  arith, ltb, leb, ◌==◌, if◌then◌else◌, ==_iff, Bool-cases, Option-cases, if_app, ==_refl, some_inj,
  length, get_elem?, get_or, set, take, replicate, length-append, length-set, length-take,
  length-replicate, get_elem?-set, get_elem?-append, get_elem?-some, get_or-set, append_assoc,
  append_nil, Run, ok, panic, undefined, out_of_fuel, or_else, ◌>>=◌, checked_sub, Returns, returns,
  Returns-inv, Returns-if, Returns-map, Returns-bind, Returns-ok, Guarded, Guarded-inv,
  Guarded-bind, Guarded-map, Guarded-if, Returns-then, IfReturns, IfReturns-bind, returned,
  IfReturns-then, IfReturns-ok, IfReturns-map,
}
use grid_server.VecMap
use grid_server.VecMap.{VecMap}

-- The guard has no entry.
pub record Node (V : Type 0) : Type 0 where
  pub next : ℕ
  pub prev : ℕ
  pub entry : Option (ℕ × V)

pub record LinkedVecMap (V : Type 0) : Type 0 where
  pub map : VecMap ℕ
  pub head : ℕ
  pub free : ℕ
  pub cells : ℕ → Option (Node V)
  pub top : ℕ

module _ {V : Type 0} where
  -- The memory with one cell changed.
  abbrev pub update : (ℕ → Option (Node V)) → ℕ → Option (Node V) → ℕ → Option (Node V)
  update cells p node q = if p == q then node else cells q

  unfoldable pub load : LinkedVecMap V → ℕ → Run (Node V)
  load m p = or_else (m.cells p) undefined

  unfoldable pub store : LinkedVecMap V → ℕ → Node V → LinkedVecMap V
  store m p node = record m { cells = update m.cells p (some node) }

  -- `(*p).next = q`
  unfoldable pub set_next : LinkedVecMap V → ℕ → ℕ → Run (LinkedVecMap V)
  unfolding load store
  set_next m p q = do node ← load m p; ok (store m p (record node { next = q }))

  -- `(*p).prev = q`
  unfoldable pub set_prev : LinkedVecMap V → ℕ → ℕ → Run (LinkedVecMap V)
  unfolding load store
  set_prev m p q = do node ← load m p; ok (store m p (record node { prev = q }))

  -- `((*p).key, (*p).value)`
  unfoldable pub entry_at : LinkedVecMap V → ℕ → Run (ℕ × V)
  unfolding load
  entry_at m p = do node ← load m p; or_else node.entry undefined

  -- `(*p).value = v`
  unfoldable pub set_value : LinkedVecMap V → ℕ → V → Run (LinkedVecMap V)
  unfolding load store
  set_value m p v = do
    node ← load m p
    old ← or_else node.entry undefined
    ok (store m p (record node { entry = some (old.0, v) }))

  unfoldable pub alloc : LinkedVecMap V → Node V → ℕ × LinkedVecMap V
  unfolding store
  alloc m node = (m.top, record (store m m.top node) { top = m.top + 1 })

  -- `Box::from_raw`, whose node is dropped.
  unfoldable pub dealloc : LinkedVecMap V → ℕ → Run (LinkedVecMap V)
  unfolding load
  dealloc m p = do node ← load m p; ok (record m { cells = update m.cells p none })

  unfoldable pub with_map : VecMap ℕ → LinkedVecMap V
  with_map map = record { map = map; head = 0; free = 0; cells = λ p. none; top = 1 }

  unfoldable pub new : LinkedVecMap V
  unfolding with_map VecMap.new
  new = with_map VecMap.new

  unfoldable pub len : LinkedVecMap V → ℕ
  unfolding VecMap.len
  len m = VecMap.len m.map

  unfoldable pub is_empty : LinkedVecMap V → Bool
  unfolding len
  is_empty m = len m == 0

  unfoldable pub detach : LinkedVecMap V → ℕ → Run (LinkedVecMap V)
  unfolding load set_next set_prev
  detach m p = do
    node ← load m p
    m1 ← set_next m node.prev node.next
    node1 ← load m1 p
    set_prev m1 node1.next node1.prev

  unfoldable pub attach : LinkedVecMap V → ℕ → Run (LinkedVecMap V)
  unfolding load set_next set_prev
  attach m p = do
    guard ← load m m.head
    m1 ← set_next m p guard.next
    m2 ← set_prev m1 p m.head
    m3 ← set_next m2 m.head p
    node ← load m3 p
    set_prev m3 node.next p

  unfoldable pub ensure_guard_node : LinkedVecMap V → LinkedVecMap V
  unfolding alloc
  ensure_guard_node m =
      if m.head == 0
      then (let (p, m') = alloc m (record { next = m.top; prev = m.top; entry = none }) in
          record m' { head = p })
      else m

  -- A box of its own, or one of the free list.
  unfoldable pub new_node : LinkedVecMap V → ℕ → V → Run (ℕ × LinkedVecMap V)
  unfolding alloc load store
  new_node m k v =
      let node : Node V = record { next = 0; prev = 0; entry = some (k, v) } in
      if m.free == 0
      then ok (alloc m node)
      else (do free ← load m m.free; ok (m.free, store (record m { free = free.next }) m.free node))

  unfoldable pub insert : LinkedVecMap V → ℕ → V → Run (Option V × LinkedVecMap V)
  unfolding ensure_guard_node entry_at set_value detach attach new_node VecMap.get VecMap.insert
  insert m k v =
      let m = ensure_guard_node m in
      elim (VecMap.get m.map k) [
        | some p ↦ do
          old ← entry_at m p
          m1 ← set_value m p v
          m2 ← detach m1 p
          m3 ← attach m2 p
          ok (some old.1, m3)
        | none ↦ do
          (p, m1) ← new_node m k v
          m2 ← attach (record m1 { map = (VecMap.insert m1.map k p).1 }) p
          ok (none, m2)
      ]

  unfoldable pub contains_key : LinkedVecMap V → ℕ → Bool
  unfolding VecMap.contains_key
  contains_key m k = VecMap.contains_key m.map k

  unfoldable pub get : LinkedVecMap V → ℕ → Run (Option V)
  unfolding entry_at VecMap.get
  get m k = elim (VecMap.get m.map k) [
    | none ↦ ok none
    | some p ↦ do e ← entry_at m p; ok (some e.1)
  ]

  -- `f` is what the caller writes through the reference. The value before, and the map after.
  unfoldable pub get_mut : LinkedVecMap V → ℕ → (V → V) → Run (Option V × LinkedVecMap V)
  unfolding entry_at set_value VecMap.get
  get_mut m k f = elim (VecMap.get m.map k) [
    | none ↦ ok (none, m)
    | some p ↦ do e ← entry_at m p; m' ← set_value m p (f e.1); ok (some e.1, m')
  ]

  unfoldable pub get_refresh : LinkedVecMap V → ℕ → Run (Option V × LinkedVecMap V)
  unfolding entry_at detach attach VecMap.get
  get_refresh m k = elim (VecMap.get m.map k) [
    | none ↦ ok (none, m)
    | some p ↦ do e ← entry_at m p; m1 ← detach m p; m2 ← attach m1 p; ok (some e.1, m2)
  ]

  unfoldable pub remove : LinkedVecMap V → ℕ → Run (Option V × LinkedVecMap V)
  unfolding entry_at detach set_next VecMap.remove
  remove m k = do
    (removed, map) ← VecMap.remove m.map k
    elim removed [
      | none ↦ ok (none, record m { map = map })
      | some p ↦ do
        m1 ← detach (record m { map = map }) p
        m2 ← set_next m1 p m1.free
        e ← entry_at m2 p
        ok (some e.1, record m2 { free = p })
    ]

  -- `remove` of the key of `p`, whose node is freed.
  unfoldable pub pop_node : LinkedVecMap V → ℕ → Run (Option (ℕ × V) × LinkedVecMap V)
  unfolding detach entry_at dealloc VecMap.remove
  pop_node m p = do
    m1 ← detach m p
    key ← entry_at m1 p
    (removed, map) ← VecMap.remove m1.map key.0
    elim removed [
      | none ↦ ok (none, record m1 { map = map })
      | some q ↦ do e ← entry_at m1 q; m2 ← dealloc (record m1 { map = map }) q; ok (some e, m2)
    ]

  unfoldable pub pop_front : LinkedVecMap V → Run (Option (ℕ × V) × LinkedVecMap V)
  unfolding is_empty load pop_node
  pop_front m =
      if is_empty m then ok (none, m) else (do guard ← load m m.head; pop_node m guard.prev)

  unfoldable pub pop_back : LinkedVecMap V → Run (Option (ℕ × V) × LinkedVecMap V)
  unfolding is_empty load pop_node
  pop_back m =
      if is_empty m then ok (none, m) else (do guard ← load m m.head; pop_node m guard.next)

  -- The entry of the node that the map has for the key of `p`.
  unfoldable pub peek_node : LinkedVecMap V → ℕ → Run (Option (ℕ × V))
  unfolding entry_at VecMap.get
  peek_node m p = do
    key ← entry_at m p
    elim (VecMap.get m.map key.0) [ none ↦ ok none | some q ↦ do e ← entry_at m q; ok (some e) ]

  unfoldable pub front : LinkedVecMap V → Run (Option (ℕ × V))
  unfolding is_empty load peek_node
  front m = if is_empty m then ok none else (do guard ← load m m.head; peek_node m guard.prev)

  unfoldable pub back : LinkedVecMap V → Run (Option (ℕ × V))
  unfolding is_empty load peek_node
  back m = if is_empty m then ok none else (do guard ← load m m.head; peek_node m guard.next)

  -- What `Iter::next` yields from the node `p` on; the count of the nodes that remain underflows
  -- where there are more of them.
  unfoldable pub iter_from : LinkedVecMap V → (remaining p : ℕ) → Run (List (ℕ × V))
  unfolding load
  iter_from m zero p = if p == m.head then ok [] else panic
  iter_from m (suc remaining) p =
      let rest = (do
        node ← load m p
        e ← or_else node.entry undefined
        later ← iter_from m remaining node.prev
        ok (e ∷ later)) in
      if p == m.head then ok [] else rest

  unfoldable pub iter : LinkedVecMap V → Run (List (ℕ × V))
  unfolding iter_from load len
  iter m =
      if m.head == 0
      then iter_from m (len m) 0
      else (do guard ← load m m.head; iter_from m (len m) guard.prev)

  unfoldable pub extend : LinkedVecMap V → List (ℕ × V) → Run (LinkedVecMap V)
  unfolding insert
  extend m [] = ok m
  extend m ((k, v) ∷ entries) = do (old, m') ← insert m k v; extend m' entries

  unfoldable pub from_iter : List (ℕ × V) → Run (LinkedVecMap V)
  unfolding extend new
  from_iter entries = extend new entries
