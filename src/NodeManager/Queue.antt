-- ===== src/NodeManager/Queue.antt =====
-- `process_queue` on lists: which workers it gives to which demands.
use grid_server.Base.{
  ℕ, zero, suc, ◌^◌, ◌≤◌, ◌<◌, ◌≡◌, refl, sym, ap, ◌∙◌, subst, inl, inr, true, false, Option, none,
  some, List, [], ◌∷◌, map, arith, ◌==◌, ==_iff, Bool-cases, Option-cases, length, ok, Returns,
  returns, Returns-map, Returns-bind,
}
use grid_server.Platform.{Platform}
use grid_server.LinkedVecMap.{LinkedVecMap, load, len}
use grid_server.LinkedVecMap.Links.{cell_of_next}
use grid_server.LinkedVecMap.Index.{length-entries}
use grid_server.LinkedVecMap.Ring.{addrs}
use grid_server.LinkedVecMap.Members.{last}
use grid_server.LinkedVecMap.Refinement.{Linked, Represents, linked, unguarded, head-guarded}
use grid_server.LinkedVecMap.Ends.{len_lem}
use grid_server.LinkedVecSet.Members.{Holds, front-Holds, pop_front-Holds}
use grid_server.NodeManager.{
  WorkersDemand, satisfied, accepts, provide, provide_from, provide_worker, push_worker, Matches,
  assign_workers,
}
use grid_server.NodeManager.Matching.{
  provide_first, provide_from_lem, provide_first-accepted, provide_first-passed,
}

provide_worker-Represents :
    (m : LinkedVecMap WorkersDemand) (ds : List (ℕ × WorkersDemand)) (platform : Platform)
    → Represents m ds
    → Returns {A = Option ℕ × LinkedVecMap WorkersDemand}
        (λ r. (r.0 ≡ (provide_first platform ds).0) × Represents r.1 (provide_first platform ds).1)
        (provide_worker m platform)
unfolding provide_worker provide_from load
provide_worker-Represents m ds platform (unguarded no_head no_free room index no_entries) =
    let h : Represents m ds = unguarded no_head no_free room index no_entries in
    let none_left : provide_from m platform zero 0 ≡ ok (none, m) =
      rw ((==_iff 0 m.head).1 (sym no_head), provide_from) refl in
    rw ((==_iff m.head 0).1 no_head, provide_worker)
      (rw
        (ap (λ n. provide_from m platform n 0) (len_lem m ds h ∙ ap length no_entries) ∙ none_left)
        (returns (
          sym (ap (λ ds. (provide_first platform ds).0) no_entries),
          subst (Represents m)
              (no_entries ∙ sym (ap (λ ds. (provide_first platform ds).1) no_entries)) h,
        )))
provide_worker-Represents m ds platform (linked h) =
    let l = h.layout in
    let (n, at_head, is_last) =
      cell_of_next (m.cells m.head) (last m.head (addrs h.items)) l.ring.close_next in
    let count : len m ≡ length h.items =
      len_lem m ds (linked h) ∙ ap length h.holds ∙ length-entries h.items in
    rw (head-guarded m h.items h.frees l, provide_worker)
      (rw at_head (
        rw (ap (λ k. provide_from m platform k n.prev) count) (
          Returns-map (provide_from_lem m platform [] h.items h.frees n l h.index at_head)
            (λ r (found, k). (
              found ∙ sym (ap (λ ds. (provide_first platform ds).0) h.holds),
              linked
                  (subst (Linked r.1) (sym (ap (λ ds. (provide_first platform ds).1) h.holds)) k),
            )))))

-- No demand has more workers than it requires.
abbrev pub Within : List (ℕ × WorkersDemand) → Type 0
Within [] = Unit
Within ((k, d) ∷ ds) =
    ((r : ℕ) → d.required_workers ≡ some r → (d.provided_workers ≤ r) × (r < 2 ^ 32)) × Within ds

provide-Within :
    (k : ℕ) (d : WorkersDemand) (platform : Platform) (ds : List (ℕ × WorkersDemand))
    → accepts d platform ≡ true
    → Within ((k, d) ∷ ds)
    → Within ((k, provide d) ∷ ds)
unfolding satisfied
provide-Within k d platform ds e (h, w) = (
  λ r required.
      let (few, small) = h r required in
      let more : (r == d.provided_workers) ≡ false = ground (arith, required, e) in
      (ground (arith, few, small, more), small),
  w,
)

provide_first-Within :
    (platform : Platform) (ds : List (ℕ × WorkersDemand))
    → Within ds
    → Within (provide_first platform ds).1
provide_first-Within platform [] w = tt
provide_first-Within platform ((k, d) ∷ ds) (h, w) = elim (Bool-cases (accepts d platform)) [
  | inl accepted ↦
      subst (λ r. Within r.1) (sym (provide_first-accepted platform k d ds accepted))
        (provide-Within k d platform ds accepted (h, w))
  | inr passed ↦
      subst (λ r. Within r.1) (sym (provide_first-passed platform k d ds passed))
        (h, provide_first-Within platform ds w)
]

-- Where no demand accepts, nothing changes.
provide_first-none :
    (platform : Platform) (ds : List (ℕ × WorkersDemand))
    → (provide_first platform ds).0 ≡ none
    → (provide_first platform ds).1 ≡ ds
provide_first-none platform [] h = refl
provide_first-none platform ((k, d) ∷ ds) h = elim (Bool-cases (accepts d platform)) [
  | inl accepted ↦ absurd (cc (h, ap (λ r. r.0) (provide_first-accepted platform k d ds accepted)))
  | inr passed ↦
      let same = provide_first-passed platform k d ds passed in
      ap (λ r. r.1) same
      ∙ ap (◌∷◌ (k, d)) (provide_first-none platform ds (sym (ap (λ r. r.0) same) ∙ h))
]

pub record Plan : Type 0 where
  pub left : List ℕ
  pub demands : List (ℕ × WorkersDemand)
  pub map : List (ℕ × List ℕ)

module _ (platform_of : ℕ → Option Platform) where
  -- Each worker in turn to the first demand that accepts it, up to one that none accepts.
  abbrev pub given : List ℕ → List (ℕ × WorkersDemand) → List (ℕ × List ℕ) → Plan
  given [] ds map = record { left = []; demands = ds; map = map }
  given (w ∷ ks) ds map = elim (platform_of w) [
    | none ↦ record { left = w ∷ ks; demands = ds; map = map }
    | some platform ↦ elim (provide_first platform ds).0 [
      | none ↦ record { left = w ∷ ks; demands = ds; map = map }
      | some k ↦ given ks (provide_first platform ds).1 (push_worker map k w)
    ]
  ]

  pub given-gone :
      (w : ℕ) (ks : List ℕ) (ds : List (ℕ × WorkersDemand)) (map : List (ℕ × List ℕ))
      → platform_of w ≡ none
      → given (w ∷ ks) ds map ≡ record { left = w ∷ ks; demands = ds; map = map }
  given-gone w ks ds map e = rw (e, given) refl

  pub given-blocked :
      (w : ℕ) (ks : List ℕ) (ds : List (ℕ × WorkersDemand)) (map : List (ℕ × List ℕ))
      (platform : Platform)
      → platform_of w ≡ some platform
      → (provide_first platform ds).0 ≡ none
      → given (w ∷ ks) ds map ≡ record { left = w ∷ ks; demands = ds; map = map }
  given-blocked w ks ds map platform e none_accepts = rw (e, given) (rw none_accepts refl)

  pub given-taken :
      (w : ℕ) (ks : List ℕ) (ds : List (ℕ × WorkersDemand)) (map : List (ℕ × List ℕ))
      (platform : Platform) (k : ℕ)
      → platform_of w ≡ some platform
      → (provide_first platform ds).0 ≡ some k
      → given (w ∷ ks) ds map ≡ given ks (provide_first platform ds).1 (push_worker map k w)
  given-taken w ks ds map platform k e taken = rw (e, given) (rw taken refl)

  pub record Follows (plan : Plan) (q : Matches) : Type 0 where
    pub workers : Holds q.unassigned_workers plan.left
    pub queue : Represents q.workers_demands_queue plan.demands
    pub matched : q.map ≡ plan.map
    pub within : Within plan.demands

  pub assign_workers-Follows :
      (q : Matches) (ks : List ℕ) (ds : List (ℕ × WorkersDemand))
      → Holds q.unassigned_workers ks
      → Represents q.workers_demands_queue ds
      → Within ds
      → Returns (Follows (given ks ds q.map)) (assign_workers platform_of (suc (length ks)) q)
  unfolding assign_workers
  assign_workers-Follows q [] ds h r w =
      rw (front-Holds q.unassigned_workers [] h, assign_workers)
        (returns (record { workers = h; queue = r; matched = refl; within = w }))
  assign_workers-Follows q (k ∷ ks) ds h r w =
      rw (front-Holds q.unassigned_workers (k ∷ ks) h, assign_workers)
        (elim (Option-cases (platform_of k)) [
          | inl gone ↦
              rw (gone, assign_workers)
                (returns (
                  subst (λ plan. Follows plan q) (sym (given-gone k ks ds q.map gone))
                    (record { workers = h; queue = r; matched = refl; within = w })))
          | inr (platform, known) ↦
              rw (known, assign_workers)
                (Returns-bind (provide_worker-Represents q.workers_demands_queue ds platform r)
                  (λ (found, demands) (is_found, r').
                    elim (Option-cases (provide_first platform ds).0) [
                      | inl blocked ↦
                          let same = provide_first-none platform ds blocked in
                          let r2 : Represents demands ds = subst (Represents demands) same r' in
                          rw (is_found ∙ blocked, assign_workers)
                            (returns (
                              subst
                                (λ plan.
                                  Follows plan (record q { workers_demands_queue = demands }))
                                (sym (given-blocked k ks ds q.map platform known blocked))
                                (record { workers = h; queue = r2; matched = refl; within = w })))
                      | inr (j, taken) ↦
                          rw (is_found ∙ taken, assign_workers)
                            (Returns-bind (pop_front-Holds q.unassigned_workers k ks h)
                              (λ (popped, unassigned) (is_popped, h').
                                subst
                                  (λ plan. Returns (Follows plan) (
                                    assign_workers platform_of (suc (length ks)) (record {
                                      unassigned_workers = unassigned;
                                      workers_demands_queue = demands;
                                      map = push_worker q.map j k;
                                    })))
                                  (sym (given-taken k ks ds q.map platform j known taken))
                                  (assign_workers-Follows
                                    (record {
                                      unassigned_workers = unassigned;
                                      workers_demands_queue = demands;
                                      map = push_worker q.map j k;
                                    })
                                    ks (provide_first platform ds).1 h' r'
                                    (provide_first-Within platform ds w))))
                    ]))
        ])
