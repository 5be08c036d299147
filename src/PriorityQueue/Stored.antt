-- ===== src/PriorityQueue/Stored.antt =====
-- What each operation leaves under every id, whether or not the heap was in order.
use grid_server.Base.{
  ◌>>=◌, Option-cases, Option-cases, ℕ, ◌<◌, ◌≡◌, ◌⊎◌, refl, sym, ◌∙◌, ap, inl, inr, Bool, false,
  Option, none, some, [], ◌∷◌, arith, ok, Returns, returns, Returns-bind, Returns-map, Returns-if,
  length, length-append, get_elem?, get_elem?-inside, ltb, ◌==◌, if◌then◌else◌, subst,
}
use grid_server.VecMap
use grid_server.VecMap.Lookup.{get_unchecked-ok, get_mut-some, get_mut-none}
use grid_server.PriorityQueue.{PriorityQueue, get, push, remove, heapify, up_heapify, bubble_up}
use grid_server.PriorityQueue.Index.{
  place, IsIndexed, Kept-refl, entry-cases, IsIndexed-IsIndexedBut,
}
use grid_server.PriorityQueue.Order.{IsPriority}
use grid_server.PriorityQueue.Cut.{swap_remove-Without}
use grid_server.PriorityQueue.Entries.{
  Reindexed, heapify-Reindexed, bubble_up-Settled, up_heapify-Reindexed,
}
use grid_server.PriorityQueue.Guards.{
  get_mut, peek_mut, deref, RefMut_write, PeekMut_write, drop_ref_mut, drop_peek_mut,
}
use grid_server.PriorityQueue.Guards.Writes.{
  RefMut_write-ok, PeekMut_write-ok, drop_ref_mut-changed, get_mut-present,
}
use grid_server.PriorityQueue.Update.{
  rewritten, rewritten-get, rewritten-IsIndexed, grown, grown-get, grown-IsIndexed,
}

module _ {V : Type 0} where
  -- `r` is an indexed queue in which `id` has the value `v`, and every other id what it had in `q`.
  pub record Stored (q : PriorityQueue V) (id : ℕ) (v : V) (r : PriorityQueue V) : Type 0 where
    pub indexed : IsIndexed r
    pub values : (k : ℕ) → get r k ≡ (if id == k then some v else get q k)

  -- `r` is an indexed queue without `id`, in which every other id has what it had in `q`.
  pub record Taken (q : PriorityQueue V) (id : ℕ) (r : PriorityQueue V) : Type 0 where
    pub indexed : IsIndexed r
    pub values : (k : ℕ) → get r k ≡ (if id == k then none else get q k)

  abbrev pub paired : ℕ → Option V → Option (ℕ × V)
  paired id none = none
  paired id (some v) = some (id, v)

module _ {V : Type 0} (cmp : V → V → Bool) (laws : IsPriority cmp) where
  module _ (q : PriorityQueue V) (id p : ℕ) (v v' : V) (inv : IsIndexed q)
      (e : VecMap.get q.map id ≡ some (p, v)) (here : place q id ≡ some p) where
    Reindexed-Stored :
        (r : PriorityQueue V) → Reindexed (rewritten q id p v v' inv e here) r → Stored q id v' r
    Reindexed-Stored r s = record {
      indexed = s.indexed;
      values = λ k. s.kept.values k ∙ rewritten-get q id p v v' inv e here k;
    }

    rewrite_up-Stored :
        Returns
          (Stored q id v')
          (up_heapify cmp (record q { map = VecMap.write q.map id (p, v') }) p)
    rewrite_up-Stored =
        Returns-map
          (up_heapify-Reindexed cmp laws (rewritten q id p v v' inv e here) p
            (inv.located id p here).0 (rewritten-IsIndexed q id p v v' inv e here))
          Reindexed-Stored

    rewrite_down-Stored :
        (i : ℕ)
        → i < length q.heap
        → Returns
            (Stored q id v')
            (heapify cmp (record q { map = VecMap.write q.map id (p, v') }) i)
    rewrite_down-Stored i l =
        Returns-map
          (heapify-Reindexed cmp laws (rewritten q id p v v' inv e here) i (inl l)
            (rewritten-IsIndexed q id p v v' inv e here))
          Reindexed-Stored

  push_new-Stored :
      (q : PriorityQueue V) (id : ℕ) (v : V)
      → IsIndexed q
      → VecMap.get q.map id ≡ none
      → place q id ≡ none
      → Returns (λ (r, _). Stored q id v r) (bubble_up cmp (grown q id v) (length q.heap))
  push_new-Stored q id v inv e f =
      let r = grown q id v in
      let last : length q.heap < length r.heap = omega (arith, length-append q.heap (id ∷ [])) in
      let whole = grown-IsIndexed q id v inv e f in
      Returns-map
        (bubble_up-Settled cmp laws r (length q.heap)
          (IsIndexed-IsIndexedBut r (length q.heap) whole last))
        λ (t, p) s. record {
          indexed = s.indexed;
          values = λ k. s.kept.values k ∙ grown-get q id v e k;
        }

  pub push-Stored :
      (q : PriorityQueue V) (id : ℕ) (v : V)
      → IsIndexed q
      → Returns (λ (old, r). Stored q id v r) (push cmp q id v)
  unfolding push
  push-Stored q id v inv = elim (entry-cases q id) [
    | inl (e, f, g) ↦
        rw (get_mut-none q.map id e, push)
          (Returns-bind (push_new-Stored q id v inv e f) λ (r, _) u. returns u)
    | inr (p, old, e, here, g) ↦
        rw (get_mut-some q.map id e, push)
          (Returns-bind (rewrite_up-Stored q id p old v inv e here) λ r u. returns u)
  ]

  refill-Reindexed :
      (r : PriorityQueue V) (p : ℕ)
      → IsIndexed r
      → Returns (Reindexed r) (if ltb p (length r.heap) then up_heapify cmp r p else ok r)
  refill-Reindexed r p inv =
      Returns-if (ltb p (length r.heap)) (λ e. up_heapify-Reindexed cmp laws r p (ground arith) inv)
        (λ e. returns (record { indexed = inv; kept = Kept-refl r }))

  pub remove-Taken :
      (q : PriorityQueue V) (id : ℕ)
      → IsIndexed q
      → Returns (λ (o, r). (o ≡ paired id (get q id)) × Taken q id r) (remove cmp q id)
  unfolding remove
  remove-Taken q id inv = elim (entry-cases q id) [
    | inl (e, _, g) ↦
        rw (e, remove)
          (returns
            (ap (paired id) (sym g), record { indexed = inv; values = λ k. ground (arith, g) }))
    | inr (p, v, e, place_id, g) ↦
        let (inside, here) = inv.located id p place_id in
        rw (e, remove)
          (Returns-bind (swap_remove-Without q p inside inv) λ (o, r) w.
            Returns-bind (refill-Reindexed r p w.indexed) λ t s.
              let same : o.0 ≡ id = w.head ∙ here in
              let found : get q id ≡ some o.1 = subst (λ k. get q k ≡ some o.1) same w.value in
              returns (
                rw (found, same) refl,
                record {
                  indexed = s.indexed;
                  values = λ k. s.kept.values k ∙ w.values k ∙ rw same refl;
                },
              ))
  ]

  -- A marked guard of a present id, dropped after the write of `v'`.
  pub ref_mut-Stored :
      (q : PriorityQueue V) (id : ℕ) (v v' : V)
      → IsIndexed q
      → get q id ≡ some v
      → Returns (Stored q id v') (
          RefMut_write (record { queue = q; key = id; modified = false }) (λ _. v')
          >>= drop_ref_mut cmp)
  ref_mut-Stored q id v v' inv g = elim (entry-cases q id) [
    | inl (_, _, f) ↦ absurd (cc f)
    | inr (p, x, e, here, f) ↦
        rw
          (
            RefMut_write-ok cmp laws q id p x (λ _. v') e,
            drop_ref_mut-changed cmp laws q id p x (λ _. v') e,
          )
          (rewrite_down-Stored q id p x v' inv e here p (inv.located id p here).0)
  ]

  -- The same for the id at the top.
  pub peek_mut-Stored :
      (q : PriorityQueue V) (id : ℕ) (v : V) (f : V → V)
      → IsIndexed q
      → get q id ≡ some v
      → get_elem? q.heap 0 ≡ some id
      → Returns
          (Stored q id (f v))
          (PeekMut_write (record { queue = q; key = id; modified = false }) f >>= drop_peek_mut cmp)
  unfolding drop_peek_mut
  peek_mut-Stored q id v f inv g root = elim (entry-cases q id) [
    | inl (_, _, h) ↦ absurd (cc h)
    | inr (p, x, e, here, h) ↦
        let same : v ≡ x = cc h in
        rw (same, PeekMut_write-ok cmp laws q id p x f e)
          (rewrite_down-Stored q id p x (f x) inv e here 0
            (omega (arith, (inv.located id p here).0)))
  ]

  pub get_mut-cases :
      (q : PriorityQueue V) (id : ℕ)
      → ((get_mut q id ≡ none) × (get q id ≡ none))
        ⊎ ((v : V) × (get q id ≡ some v)
            × (get_mut q id ≡ some (record { queue = q; key = id; modified = false }))
            × (deref q id ≡ ok v))
  unfolding get_mut deref VecMap.contains_key
  get_mut-cases q id = elim (entry-cases q id) [
    | inl (e, _, g) ↦ inl (rw (e, get_mut) refl, g)
    | inr (p, v, e, _, g) ↦
        inr (
          v,
          g,
          get_mut-present cmp laws q id p v (λ x. x) e,
          rw (get_unchecked-ok q.map id e) refl,
        )
  ]

  -- The guard of the top, where there is one.
  pub peek_mut-cases :
      (q : PriorityQueue V)
      → IsIndexed q
      → (peek_mut q ≡ none)
        ⊎ ((id : ℕ) × (v : V) × (get_elem? q.heap 0 ≡ some id)
            × (get q id ≡ some v)
            × (peek_mut q ≡ some (record { queue = q; key = id; modified = false }))
            × (deref q id ≡ ok v))
  unfolding peek_mut deref
  peek_mut-cases q inv = elim (Option-cases (get_elem? q.heap 0)) [
    | inl e ↦ inl (rw (e, peek_mut) refl)
    | inr (id, root) ↦ elim (entry-cases q id) [
      | inl (_, f, _) ↦
          let (inside, top) = get_elem?-inside q.heap 0 0 root in
          absurd (cc (f, top, inv.listed 0 inside))
      | inr (p, v, e, _, g) ↦
          inr (id, v, root, g, rw (root, peek_mut) refl, rw (get_unchecked-ok q.map id e) refl)
    ]
  ]
