-- ===== src/NodeManager/Rules.antt =====
-- Which workers `process_queue` may give to which demands, without its functions.
use grid_server.Base.{
  ℕ, suc, ◌+◌, ◌%◌, ◌^◌, ◌≡◌, refl, sym, ap, ◌∙◌, subst, ◌≢◌, ◌⊎◌, inl, inr, true, false, not,
  Option, none, some, List, [], ◌∷◌, ◌++◌, map, arith, ◌==◌, if◌then◌else◌, ==_iff, Bool-cases,
  Option-cases, ==_refl, some_inj, length, append_assoc, append_nil, Returns, Returns-map,
}
use grid_server.Platform.{Platform, same_platform}
use grid_server.Platform.Equality.{same_platform-eq, same_platform_refl, and_true}
use grid_server.LinkedVecMap.Refinement.{Represents}
use grid_server.LinkedVecSet.Members.{Holds}
use grid_server.NodeManager.{
  WorkersDemand, satisfied, supports, accepts, provide, push_worker, Matches, assign_workers,
}
use grid_server.NodeManager.Matching.{provide_first, provide_first-accepted, provide_first-passed}
use grid_server.NodeManager.Queue.{
  Within, Plan, given, given-gone, given-blocked, given-taken, assign_workers-Follows,
}

abbrev pub OneOf : Platform → List Platform → Type 0
OneOf platform [] = ⊥
OneOf platform (p ∷ ps) = (platform ≡ p) ⊎ OneOf platform ps

-- The demand does not have as many workers as it requires, and names the platform.
abbrev pub Wants : WorkersDemand → Platform → Type 0
Wants d platform =
    (d.required_workers ≢ some d.provided_workers) × OneOf platform d.supported_platforms

-- A demand after one worker more, counted at 32 bits.
pub record OneMore (d d' : WorkersDemand) : Type 0 where
  pub provided : d'.provided_workers ≡ (d.provided_workers + 1) % 2 ^ 32
  pub required : d'.required_workers ≡ d.required_workers
  pub supported : d'.supported_platforms ≡ d.supported_platforms

-- The first demand that wants a worker is that of `k`, and it gets the worker.
pub data Chosen (platform : Platform)
    : List (ℕ × WorkersDemand) → ℕ → List (ℕ × WorkersDemand) → Type 0 where
  first :
      {k : ℕ} {d d' : WorkersDemand} {ds : List (ℕ × WorkersDemand)}
      → Wants d platform
      → OneMore d d'
      → Chosen platform ((k, d) ∷ ds) k ((k, d') ∷ ds)
  after :
      {j k : ℕ} {d : WorkersDemand} {ds ds' : List (ℕ × WorkersDemand)}
      → ¬ Wants d platform
      → Chosen platform ds k ds'
      → Chosen platform ((j, d) ∷ ds) k ((j, d) ∷ ds')

-- No demand wants a worker of the platform.
abbrev pub Refused : Platform → List (ℕ × WorkersDemand) → Type 0
Refused platform [] = Unit
Refused platform ((k, d) ∷ ds) = (¬ Wants d platform) × Refused platform ds

-- The workers and the demands before; those that are left, the demands after, and each given worker
-- with its scheduler, in order.
pub data Given (find : ℕ → Option Platform)
    : List ℕ
      → List (ℕ × WorkersDemand)
      → List ℕ
      → List (ℕ × WorkersDemand)
      → List (ℕ × ℕ)
      → Type 0 where
  all_given : {ds : List (ℕ × WorkersDemand)} → Given find [] ds [] ds []
  gone :
      {w : ℕ} {ks : List ℕ} {ds : List (ℕ × WorkersDemand)}
      → find w ≡ none
      → Given find (w ∷ ks) ds (w ∷ ks) ds []
  refused :
      {w : ℕ} {ks : List ℕ} {ds : List (ℕ × WorkersDemand)} (platform : Platform)
      → find w ≡ some platform
      → Refused platform ds
      → Given find (w ∷ ks) ds (w ∷ ks) ds []
  chosen :
      {w k : ℕ} {ks left : List ℕ} {ds ds1 ds' : List (ℕ × WorkersDemand)} {pairs : List (ℕ × ℕ)}
      (platform : Platform)
      → find w ≡ some platform
      → Chosen platform ds k ds1
      → Given find ks ds1 left ds' pairs
      → Given find (w ∷ ks) ds left ds' ((w, k) ∷ pairs)

-- The workers of a scheduler, in a map and among pairs.
abbrev pub listed : ℕ → List (ℕ × List ℕ) → List ℕ
listed k [] = []
listed k ((j, workers) ∷ rest) = if j == k then workers else listed k rest

abbrev pub workers_for : ℕ → List (ℕ × ℕ) → List ℕ
workers_for k [] = []
workers_for k ((w, j) ∷ pairs) = if j == k then w ∷ workers_for k pairs else workers_for k pairs

supports-OneOf : (ps : List Platform) (p : Platform) → supports ps p ≡ true → OneOf p ps
unfolding supports
supports-OneOf [] p h = absurd (cc h)
supports-OneOf (q ∷ ps) p h = elim (Bool-cases (same_platform q p)) [
  | inl e ↦ inl (sym (same_platform-eq q p e))
  | inr e ↦ inr (supports-OneOf ps p (ground (arith, e, h)))
]

OneOf-supports : (ps : List Platform) (p : Platform) → OneOf p ps → supports ps p ≡ true
unfolding supports
OneOf-supports [] p h = absurd h
OneOf-supports (q ∷ ps) p (inl e) =
    let same : same_platform q p ≡ true = ap (same_platform q) e ∙ same_platform_refl q in
    ground (arith, same)
OneOf-supports (q ∷ ps) p (inr h) = ground (arith, OneOf-supports ps p h)

satisfied-none : (d : WorkersDemand) → d.required_workers ≡ none → satisfied d ≡ false
unfolding satisfied
satisfied-none d e = rw (e, satisfied) refl

satisfied-some :
    (d : WorkersDemand) (r : ℕ)
    → d.required_workers ≡ some r
    → satisfied d ≡ (r == d.provided_workers)
unfolding satisfied
satisfied-some d r e = rw (e, satisfied) refl

satisfied-required :
    (d : WorkersDemand) → satisfied d ≡ true → d.required_workers ≡ some d.provided_workers
unfolding satisfied
satisfied-required d h = elim (Option-cases d.required_workers) [
  | inl e ↦ absurd (cc (h, satisfied-none d e))
  | inr (r, e) ↦ e ∙ ap some ((==_iff r d.provided_workers).0 (sym (satisfied-some d r e) ∙ h))
]

required-satisfied :
    (d : WorkersDemand) → d.required_workers ≡ some d.provided_workers → satisfied d ≡ true
required-satisfied d e = satisfied-some d d.provided_workers e ∙ ==_refl d.provided_workers

accepts-Wants : (d : WorkersDemand) (p : Platform) → accepts d p ≡ true → Wants d p
accepts-Wants d p h =
    let (lacking, named) = and_true (not (satisfied d)) (supports d.supported_platforms p) h in
    (
      λ e. absurd (cc (lacking, ap not (required-satisfied d e))),
      supports-OneOf d.supported_platforms p named,
    )

Wants-accepts : (d : WorkersDemand) (p : Platform) → accepts d p ≡ false → ¬ Wants d p
Wants-accepts d p h (lacks, named) = elim (Bool-cases (satisfied d)) [
  | inl e ↦ lacks (satisfied-required d e)
  | inr e ↦ absurd (ground (arith, e, OneOf-supports d.supported_platforms p named, h))
]

provide-OneMore : (d : WorkersDemand) → OneMore d (provide d)
provide-OneMore d = record { provided = refl; required = refl; supported = refl }

provide_first-Chosen :
    (p : Platform) (ds : List (ℕ × WorkersDemand)) (k : ℕ)
    → (provide_first p ds).0 ≡ some k
    → Chosen p ds k (provide_first p ds).1
provide_first-Chosen p [] k h = absurd (cc h)
provide_first-Chosen p ((j, d) ∷ ds) k h = elim (Bool-cases (accepts d p)) [
  | inl e ↦
      let same = provide_first-accepted p j d ds e in
      let is_k : j ≡ k = some_inj (sym (ap (λ r. r.0) same) ∙ h) in
      subst (λ k. Chosen p ((j, d) ∷ ds) k (provide_first p ((j, d) ∷ ds)).1) is_k
        (subst (λ r. Chosen p ((j, d) ∷ ds) j r.1) (sym same)
          (first (accepts-Wants d p e) (provide-OneMore d)))
  | inr e ↦
      let same = provide_first-passed p j d ds e in
      subst (λ r. Chosen p ((j, d) ∷ ds) k r.1) (sym same)
        (after (Wants-accepts d p e) (provide_first-Chosen p ds k (sym (ap (λ r. r.0) same) ∙ h)))
]

provide_first-Refused :
    (p : Platform) (ds : List (ℕ × WorkersDemand)) → (provide_first p ds).0 ≡ none → Refused p ds
provide_first-Refused p [] h = tt
provide_first-Refused p ((j, d) ∷ ds) h = elim (Bool-cases (accepts d p)) [
  | inl e ↦ absurd (cc (h, ap (λ r. r.0) (provide_first-accepted p j d ds e)))
  | inr e ↦ (
    Wants-accepts d p e,
    provide_first-Refused p ds (sym (ap (λ r. r.0) (provide_first-passed p j d ds e)) ∙ h),
  )
]

listed-push_worker :
    (map : List (ℕ × List ℕ)) (j w k : ℕ)
    → listed k (push_worker map j w) ≡ (if j == k then listed k map ++ w ∷ [] else listed k map)
unfolding push_worker
listed-push_worker [] j w k = ground arith
listed-push_worker ((i, workers) ∷ rest) j w k = ground (arith, listed-push_worker rest j w k)

pushed_first :
    (map : List (ℕ × List ℕ)) (w j k : ℕ) (pairs : List (ℕ × ℕ))
    → listed k (push_worker map j w) ++ workers_for k pairs
      ≡ listed k map ++ workers_for k ((w, j) ∷ pairs)
pushed_first map w j k pairs = elim (Bool-cases (j == k)) [
  | inl e ↦
      rw (listed-push_worker map j w k, e)
        (append_assoc (listed k map) (w ∷ []) (workers_for k pairs))
  | inr e ↦ rw (listed-push_worker map j w k, e) refl
]

module _ (find : ℕ → Option Platform) where
  -- What a plan gives.
  abbrev Plans : List ℕ → List (ℕ × WorkersDemand) → List (ℕ × List ℕ) → Plan → Type 0
  Plans ks ds map plan =
      (pairs : List (ℕ × ℕ)) × Given find ks ds plan.left plan.demands pairs
      × ((k : ℕ) → listed k plan.map ≡ listed k map ++ workers_for k pairs)

  given-Plans :
      (ks : List ℕ) (ds : List (ℕ × WorkersDemand)) (map : List (ℕ × List ℕ))
      → Plans ks ds map (given find ks ds map)
  given-Plans [] ds map = ([], all_given, λ k. append_nil (listed k map))
  given-Plans (w ∷ ks) ds map = elim (Option-cases (find w)) [
    | inl e ↦
        subst (Plans (w ∷ ks) ds map) (sym (given-gone find w ks ds map e))
          ([], gone e, λ k. append_nil (listed k map))
    | inr (p, e) ↦ elim (Option-cases (provide_first p ds).0) [
      | inl no_demand ↦
          subst (Plans (w ∷ ks) ds map) (sym (given-blocked find w ks ds map p e no_demand))
            ([], refused p e (provide_first-Refused p ds no_demand), λ k. append_nil (listed k map))
      | inr (j, taken) ↦
          let (pairs, g, same) = given-Plans ks (provide_first p ds).1 (push_worker map j w) in
          subst (Plans (w ∷ ks) ds map) (sym (given-taken find w ks ds map p j e taken)) (
            (w, j) ∷ pairs,
            chosen p e (provide_first-Chosen p ds j taken) g,
            λ k. same k ∙ pushed_first map w j k pairs,
          )
    ]
  ]

  pub record Gives (q : Matches) (ks : List ℕ) (ds : List (ℕ × WorkersDemand)) (q' : Matches)
      : Type 0 where
    pub left : List ℕ
    pub demands : List (ℕ × WorkersDemand)
    pub pairs : List (ℕ × ℕ)
    pub follows : Given find ks ds left demands pairs
    pub workers : Holds q'.unassigned_workers left
    pub queue : Represents q'.workers_demands_queue demands
    pub matched : (k : ℕ) → listed k q'.map ≡ listed k q.map ++ workers_for k pairs
    pub within : Within demands

  -- For unassigned workers and demands in given orders, where no demand has more workers than it
  -- requires, the loop of `process_queue` returns within one round more than there are workers.
  -- Each worker in turn goes to the first demand that does not have as many workers as it requires
  -- and names the worker's platform: the count of that demand grows by one, at 32 bits, the other
  -- demands stay, and the worker is added at the end of the list that `map` has for the scheduler
  -- of that demand, all other lists staying as they are. The loop ends at the first worker that is
  -- gone or that no demand wants, which stays with all those behind it. Afterwards, again, no
  -- demand has more workers than it requires.
  pub assign_workers-Gives :
      (q : Matches) (ks : List ℕ) (ds : List (ℕ × WorkersDemand))
      → Holds q.unassigned_workers ks
      → Represents q.workers_demands_queue ds
      → Within ds
      → Returns (Gives q ks ds) (assign_workers find (suc (length ks)) q)
  assign_workers-Gives q ks ds h r w =
      let (pairs, g, same) = given-Plans ks ds q.map in
      Returns-map (assign_workers-Follows find q ks ds h r w) (λ q' f. record {
        left = (given find ks ds q.map).left;
        demands = (given find ks ds q.map).demands;
        pairs = pairs;
        follows = g;
        workers = f.workers;
        queue = f.queue;
        matched = λ k. ap (listed k) f.matched ∙ same k;
        within = f.within;
      })
