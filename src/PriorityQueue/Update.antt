-- ===== src/PriorityQueue/Update.antt =====
-- `push`, `change_priority` and `change_priority_by`: one id takes a value, every other keeps its own,
-- and the order is restored.
use grid_server.Base.{
  ℕ, ◌+◌, ◌<◌, ◌≡◌, ◌≢◌, refl, sym, ◌∙◌, ap, inl, inr, Bool, true, Option, none, some, [], ◌∷◌,
  ◌++◌, arith, Run, ok, Returns, returns, Returns-bind, Returns-map, length, length-append,
  get_or-append, ◌==◌, if◌then◌else◌, if_app,
}
use grid_server.VecMap
use grid_server.VecMap.{is_some}
use grid_server.VecMap.Lookup.{insert_lem, insert-n, write-n, get_mut-some, get_mut-none}
use grid_server.PriorityQueue.{
  PriorityQueue, value_of, get, parent, bubble_up, up_heapify, push, change_priority,
  change_priority_by,
}
use grid_server.PriorityQueue.Index.{
  at, place, place_of, key, IsIndexed, entry-cases, place-write, get-write_lem,
  IsIndexed-IsIndexedBut,
}
use grid_server.PriorityQueue.Order.{IsPriority, IsHeapBut, IsQueue, IsHeap-IsHeapBut}
use grid_server.PriorityQueue.BubbleUp.{bubble_up-Lifted, up_heapify-Sifted}

module _ {V : Type 0} where
  -- The write of a value through the entry of `id`, before any sift.
  module _ (q : PriorityQueue V) (id p : ℕ) (v v' : V) (inv : IsIndexed q)
      (e : VecMap.get q.map id ≡ some (p, v)) (here : place q id ≡ some p) where
    abbrev pub rewritten : PriorityQueue V
    rewritten = record q { map = VecMap.write q.map id (p, v') }

    pub rewritten-get : (k : ℕ) → get rewritten k ≡ (if id == k then some v' else get q k)
    rewritten-get = get-write_lem q q.heap id p p v v' e

    rewritten-place : (k : ℕ) → place rewritten k ≡ place q k
    rewritten-place k = ground (arith, place-write q q.heap id p p v v' e k, here)

    pub rewritten-IsIndexed : IsIndexed rewritten
    rewritten-IsIndexed = record {
      listed = λ c l. rewritten-place (at q.heap c) ∙ inv.listed c l;
      located = λ k c f. inv.located k c (sym (rewritten-place k) ∙ f);
      sized = write-n q.map id (p, v') ∙ inv.sized;
    }

    pub rewritten-key : (c : ℕ) → c < length q.heap → c ≢ p → key rewritten c ≡ key q c
    rewritten-key c l n =
        ground (arith, rewritten-get (at q.heap c), inv.listed c, inv.located id p)

  -- The queue with a new id at the end, before it rises.
  module _ (q : PriorityQueue V) (id : ℕ) (v : V) where
    abbrev pub grown : PriorityQueue V
    grown = record { map = (VecMap.insert q.map id (length q.heap, v)).1; heap = q.heap ++ id ∷ [] }

  module _ (q : PriorityQueue V) (id : ℕ) (v : V) (inv : IsIndexed q)
      (e : VecMap.get q.map id ≡ none) (f : place q id ≡ none) where
    grown-place :
        (k : ℕ) → place (grown q id v) k ≡ (if id == k then some (length q.heap) else place q k)
    unfolding place
    grown-place k =
        ap place_of (insert_lem q.map id k (length q.heap, v)).1 ∙ if_app place_of (id == k) _ _

    pub grown-IsIndexed : IsIndexed (grown q id v)
    grown-IsIndexed =
        let size = length-append q.heap (id ∷ []) in
        let last = λ (c : ℕ). get_or-append q.heap id 0 c in
        record {
          listed = λ c l.
              ground (arith, size, last c, grown-place (at (grown q id v).heap c), inv.listed c);
          located = λ k c g. ground (arith, size, last c, grown-place k, inv.located k c);
          sized = ground (arith, size, inv.sized, insert-n q.map id (length q.heap, v), e);
        }

  pub grown-get :
      (q : PriorityQueue V) (id : ℕ) (v : V)
      → VecMap.get q.map id ≡ none
      → (k : ℕ) → get (grown q id v) k ≡ (if id == k then some v else get q k)
  unfolding get
  grown-get q id v e k =
      ap value_of (insert_lem q.map id k (length q.heap, v)).1 ∙ if_app value_of (id == k) _ _

  grown-key :
      (q : PriorityQueue V) (id : ℕ) (v : V) (inv : IsIndexed q) (e : VecMap.get q.map id ≡ none)
      (f : place q id ≡ none) (c : ℕ)
      → c < length q.heap
      → key (grown q id v) c ≡ key q c
  grown-key q id v inv e f c l = ground (
    arith,
    get_or-append q.heap id 0 c,
    grown-get q id v e (at (grown q id v).heap c),
    inv.listed c,
  )

module _ {V : Type 0} (cmp : V → V → Bool) where
  -- `r` is an ordered queue in which `id` has the value `v`, and every other id what it had in `q`.
  pub record Updated (q : PriorityQueue V) (id : ℕ) (v : V) (r : PriorityQueue V) : Type 0 where
    pub queue : IsQueue cmp r
    pub values : (k : ℕ) → get r k ≡ (if id == k then some v else get q k)
    pub len : length r.heap ≡ (if is_some (get q id) then length q.heap else length q.heap + 1)

  -- What `change_priority` returns.
  pub data Changed (q : PriorityQueue V) (id : ℕ) (v : V) (o : Option V) (r : PriorityQueue V)
      : Type 0 where
    missing : get q id ≡ none → o ≡ none → r ≡ q → Changed q id v o r
    changed : (old : V) → get q id ≡ some old → o ≡ some old → Updated q id v r → Changed q id v o r

module _ {V : Type 0} (cmp : V → V → Bool) (laws : IsPriority cmp) where
  reprioritize-Updated :
      (q : PriorityQueue V) (id p : ℕ) (v v' : V)
      → IsQueue cmp q
      → (e : VecMap.get q.map id ≡ some (p, v)) → (here : place q id ≡ some p) → get q id ≡ some v
      → Returns
          (Updated cmp q id v')
          (up_heapify cmp (record q { map = VecMap.write q.map id (p, v') }) p)
  reprioritize-Updated q id p v v' i e here g =
      let inside : p < length q.heap = (i.indexed.located id p here).0 in
      let r = rewritten q id p v v' i.indexed e here in
      let keys = rewritten-key q id p v v' i.indexed e here in
      let old = IsHeap-IsHeapBut cmp laws q p i.ordered inside in
      let hole : IsHeapBut cmp p r = record {
        edges = λ c pos l n m. ground (arith, keys c l n, keys (parent c), old.edges c);
        bridged = λ c pos l f z. ground (arith, keys c l, keys (parent p), old.bridged c);
      } in
      Returns-map
        (up_heapify-Sifted cmp laws r p inside (rewritten-IsIndexed q id p v v' i.indexed e here)
          hole)
        λ t s. record {
          queue = s.queue;
          values = λ k. s.kept.values k ∙ rewritten-get q id p v v' i.indexed e here k;
          len = ground (arith, s.kept.len, g);
        }

  -- `change_priority` on an indexed and heap-ordered queue always returns an indexed and
  -- heap-ordered queue: none and the same queue for an absent id, and otherwise the old value, with
  -- the new value stored and all others kept.
  pub change_priority-Changed :
      (q : PriorityQueue V) (id : ℕ) (v : V)
      → IsQueue cmp q
      → Returns (λ (o, r). IsQueue cmp r × Changed cmp q id v o r) (change_priority cmp q id v)
  unfolding change_priority
  change_priority-Changed q id v i = elim (entry-cases q id) [
    | inl (e, _, g) ↦
        rw (get_mut-none q.map id e, change_priority) (returns (i, missing g refl refl))
    | inr (p, old, e, here, g) ↦
        rw (get_mut-some q.map id e, change_priority)
          (Returns-bind (reprioritize-Updated q id p old v i e here g)
            λ r u. returns (u.queue, changed old g refl u))
  ]

  -- `change_priority_by` on an id that is present returns true and stores what the setter makes of
  -- the present value, where the setter returns one, with every other value kept and the queue
  -- indexed and heap-ordered.
  pub change_priority_by-Updated :
      (q : PriorityQueue V) (id : ℕ) (setter : V → Run V) (old v : V)
      → IsQueue cmp q
      → get q id ≡ some old
      → setter old ≡ ok v
      → Returns
          (λ (done, r). (done ≡ true) × Updated cmp q id v r)
          (change_priority_by cmp q id setter)
  unfolding change_priority_by
  change_priority_by-Updated q id setter old v i g s = elim (entry-cases q id) [
    | inl (_, _, f) ↦ absurd (cc f)
    | inr (p, x, e, here, f) ↦
        let same : x ≡ old = cc f in
        rw (get_mut-some q.map id e, change_priority_by, same, s)
          (Returns-bind (reprioritize-Updated q id p x v i e here f) λ r u. returns (refl, u))
  ]

  push_new-Updated :
      (q : PriorityQueue V) (id : ℕ) (v : V)
      → IsQueue cmp q
      → VecMap.get q.map id ≡ none
      → place q id ≡ none
      → get q id ≡ none
      → Returns (λ (r, _). Updated cmp q id v r) (bubble_up cmp (grown q id v) (length q.heap))
  push_new-Updated q id v i e f g =
      let r = grown q id v in
      let n = length q.heap in
      let size : length r.heap ≡ n + 1 = length-append q.heap (id ∷ []) in
      let last : n < length r.heap = omega arith in
      let inv = grown-IsIndexed q id v i.indexed e f in
      let keys = grown-key q id v i.indexed e f in
      let hole : IsHeapBut cmp n r = record {
        edges = λ c pos l ne m. ground (arith, size, keys c, keys (parent c), i.ordered c);
        bridged = λ c pos l h z. absurd (omega arith);
      } in
      Returns-map (bubble_up-Lifted cmp laws r n (IsIndexed-IsIndexedBut r n inv last) hole)
        λ (t, p) s. record {
          queue = record {
            indexed = s.indexed;
            ordered = s.ordered (λ c pos l h. absurd (omega arith));
          };
          values = λ k. s.kept.values k ∙ grown-get q id v e k;
          len = ground (arith, s.kept.len, g, size);
        }

  -- For an order that is asymmetric and cotransitive, `push` on a queue that is indexed and
  -- heap-ordered always returns: it gives back the value that the id had (none for a new id), the
  -- result is again indexed and heap-ordered, the id has the new value, every other id keeps its
  -- value, and the length grows by one exactly when the id was new.
  pub push-Updated :
      (q : PriorityQueue V) (id : ℕ) (v : V)
      → IsQueue cmp q
      → Returns (λ (old, r). (old ≡ get q id) × Updated cmp q id v r) (push cmp q id v)
  unfolding push
  push-Updated q id v i = elim (entry-cases q id) [
    | inl (e, f, g) ↦
        rw (get_mut-none q.map id e, push)
          (Returns-bind (push_new-Updated q id v i e f g) λ (r, _) u. returns (sym g, u))
    | inr (p, old, e, here, g) ↦
        rw (get_mut-some q.map id e, push)
          (Returns-bind (reprioritize-Updated q id p old v i e here g) λ r u. returns (sym g, u))
  ]
