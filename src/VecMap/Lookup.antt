-- ===== src/VecMap/Lookup.antt =====
-- What a lookup finds after each operation.
use grid_server.Base.{
  ap, true, ℕ, zero, suc, ◌+◌, ◌-◌, ◌<◌, ◌≡◌, refl, Option, none, some, List, [], ◌∷◌, ◌++◌, arith,
  ok, length, get_elem?, set, take, replicate, ◌==◌, if◌then◌else◌, get_elem?-set, get_elem?-none,
  length-append, length-replicate, Bool-cases, inl, inr, sym, ◌∙◌,
}
use grid_server.VecMap.{
  contains_key, VecMap, is_some, flatten_option, present_len, new, clear, shrink_to_fit, get,
  get_unchecked, write, get_mut, get_unchecked_mut, extend_to, get_or_insert, insert, remove,
  remove_unchecked,
}

module _ {ℓ} {V : Type ℓ} where
  -- The slot of a key, out of bounds included.
  abbrev pub slot : List (Option V) → ℕ → Option V
  slot v key = flatten_option (get_elem? v key)

  pub get-slot : (m : VecMap V) (k : ℕ) → get m k ≡ slot m.v k
  unfolding get
  get-slot m k = ground (arith, get_elem?-none m.v k)

  pub slot-set :
      (v : List (Option V)) (k j : ℕ) (x : Option V)
      → k < length v
      → slot (set v k x) j ≡ (if k == j then x else slot v j)
  slot-set v k j x h = ground (arith, get_elem?-set v k j x)

  slot-replicate : (n j : ℕ) → slot (replicate n none) j ≡ none
  slot-replicate zero j = refl
  slot-replicate (suc n) zero = refl
  slot-replicate (suc n) (suc j) = slot-replicate n j

  slot-append : (v : List (Option V)) (n j : ℕ) → slot (v ++ replicate n none) j ≡ slot v j
  slot-append [] n j = slot-replicate n j
  slot-append (x ∷ v) n zero = refl
  slot-append (x ∷ v) n (suc j) = slot-append v n j

  pub slot-extend_to : (v : List (Option V)) (k j : ℕ) → slot (extend_to v k) j ≡ slot v j
  unfolding extend_to
  slot-extend_to v k j = ground (arith, slot-append v (k - length v + 1) j)

  pub length-extend_to : (v : List (Option V)) (k : ℕ) → k < length (extend_to v k)
  unfolding extend_to
  length-extend_to v k = ground (
    arith,
    length-append v (replicate (k - length v + 1) none),
    length-replicate {A = Option V} (k - length v + 1) none,
  )

  pub slot_bound : (v : List (Option V)) (k : ℕ) {x : V} → slot v k ≡ some x → k < length v
  slot_bound [] k h = cc
  slot_bound (y ∷ v) zero h = omega arith
  slot_bound (y ∷ v) (suc k) h = omega (arith, slot_bound v k h)

  pub get-new : (k : ℕ) → get (new {V = V}) k ≡ none
  unfolding get new
  get-new k = ground arith

  pub get-clear : (m : VecMap V) (k : ℕ) → get (clear m) k ≡ none
  unfolding get clear
  get-clear m k = ground arith

  -- The reference of a present key reads its value and writes to that key alone.
  pub get-write :
      (m : VecMap V) (k j : ℕ) {old : V} (x : V)
      → get m k ≡ some old
      → get (write m k x) j ≡ (if k == j then some x else get m j)
  unfolding write
  get-write m k j {old} x h =
      let present : slot m.v k ≡ some old = sym (get-slot m k) ∙ h in
      get-slot (write m k x) j
      ∙ ground (arith, slot-set m.v k j (some x) (slot_bound m.v k present), get-slot m j)

  pub contains_key-some :
      (m : VecMap V) (k : ℕ) {x : V} → get m k ≡ some x → contains_key m k ≡ true
  unfolding contains_key
  contains_key-some m k h = ap is_some h

  pub get_mut-some :
      (m : VecMap V) (k : ℕ) {x : V} → get m k ≡ some x → get_mut m k ≡ some (x, write m k)
  unfolding get_mut
  get_mut-some m k h = rw (h, get_mut)

  pub get_mut-none : (m : VecMap V) (k : ℕ) → get m k ≡ none → get_mut m k ≡ none
  unfolding get_mut
  get_mut-none m k h = rw (h, get_mut)

  pub write-n : (m : VecMap V) (k : ℕ) (x : V) → (write m k x).n ≡ m.n
  unfolding write
  write-n m k x = refl

  pub get_unchecked-ok :
      (m : VecMap V) (k : ℕ) {x : V} → get m k ≡ some x → get_unchecked m k ≡ ok x
  unfolding get_unchecked
  get_unchecked-ok m k h = ground (arith, get-slot m k)

  pub get_unchecked_mut-ok :
      (m : VecMap V) (k : ℕ) {x : V} → get m k ≡ some x → get_unchecked_mut m k ≡ ok (x, write m k)
  unfolding get_unchecked_mut
  get_unchecked_mut-ok m k h = rw (get_unchecked-ok m k h)

  -- `insert` returns what `get` found for the key; afterwards `get` finds the new value for that
  -- key and what it found before for every other key, for keys beyond the end of the vector too.
  pub insert_lem :
      (m : VecMap V) (k j : ℕ) (x : V)
      → ((insert m k x).0 ≡ get m k)
        × (get (insert m k x).1 j ≡ (if k == j then some x else get m j))
  unfolding insert
  insert_lem m k j x =
      let v = extend_to m.v k in
      (
        slot-extend_to m.v k k ∙ sym (get-slot m k),
        get-slot (insert m k x).1 j
            ∙ ground (
              arith,
              slot-set v k j (some x) (length-extend_to m.v k),
              slot-extend_to m.v k j,
              get-slot m j,
            ),
      )

  pub insert-n :
      (m : VecMap V) (k : ℕ) (x : V)
      → (insert m k x).1.n ≡ (if is_some (get m k) then m.n else m.n + 1)
  unfolding insert
  insert-n m k x = ground (arith, slot-extend_to m.v k k, get-slot m k)

  abbrev pub Removed : VecMap V → ℕ → Option V × VecMap V → Type ℓ
  Removed m k r =
      (r.0 ≡ get m k)
      × ((j : ℕ) → get r.1 j ≡ (if k == j then none else get m j))
      × (r.1.n ≡ (if is_some (get m k) then m.n - 1 else m.n))

  pub remove-none : (m : VecMap V) (k : ℕ) → get m k ≡ none → remove m k ≡ ok (none, m)
  unfolding remove
  remove-none m k h = ground (arith, get-slot m k)

  pub remove-some :
      (m : VecMap V) (k : ℕ) (x : V)
      → get m k ≡ some x
      → 0 < m.n
      → remove m k ≡ ok (some x, record { n = m.n - 1; v = set m.v k none })
  unfolding remove
  remove-some m k x h p =
      let here : slot m.v k ≡ some x = sym (get-slot m k) ∙ h in
      ground (arith, slot_bound m.v k here)

  pub get-cleared :
      (m : VecMap V) (k j n : ℕ) (x : V)
      → get m k ≡ some x
      → get (record { n = n; v = set m.v k none }) j ≡ (if k == j then none else get m j)
  get-cleared m k j n x h =
      let here : slot m.v k ≡ some x = sym (get-slot m k) ∙ h in
      get-slot (record { n = n; v = set m.v k none }) j
      ∙ ground (arith, slot-set m.v k j none (slot_bound m.v k here), get-slot m j)

  abbrev pub value_or : Option V → V → V
  value_or none d = d
  value_or (some x) d = x

  -- `get_or_insert` yields the present value of the key, or the given one where there is none;
  -- afterwards `get` finds that value for the key and what it found before for every other key.
  pub get_or_insert_lem :
      (m : VecMap V) (k j : ℕ) (x : V)
      → ((get_or_insert m k x).0 ≡ value_or (get m k) x)
        × (get (get_or_insert m k x).1 j
            ≡ (if k == j then some (value_or (get m k) x) else get m j))
  unfolding get_or_insert
  get_or_insert_lem m k j x =
      let v = extend_to m.v k in
      (
        ground (arith, slot-extend_to m.v k k, get-slot m k),
        get-slot (get_or_insert m k x).1 j
            ∙ ground (
              arith,
              slot-set v k j (some x) (length-extend_to m.v k),
              slot-extend_to m.v k k,
              slot-extend_to m.v k j,
              get-slot m k,
              get-slot m j,
            ),
      )

  pub get_or_insert-n :
      (m : VecMap V) (k : ℕ) (x : V)
      → (get_or_insert m k x).1.n ≡ (if is_some (get m k) then m.n else m.n + 1)
  unfolding get_or_insert
  get_or_insert-n m k x = ground (arith, slot-extend_to m.v k k, get-slot m k)

  slot-absent : (v : List (Option V)) (k : ℕ) → present_len v ≡ 0 → slot v k ≡ none
  unfolding present_len
  slot-absent [] k h = refl
  slot-absent (x ∷ v) zero h = ground arith
  slot-absent (x ∷ v) (suc k) h = ground (arith, slot-absent v k)

  slot-present_len : (v : List (Option V)) (k : ℕ) → slot (take (present_len v) v) k ≡ slot v k
  unfolding present_len
  slot-present_len [] k = refl
  slot-present_len (none ∷ v) zero = elim (Bool-cases (present_len v == 0)) [
    | inl done ↦ rw (done, present_len)
    | inr more ↦ rw (more, present_len)
  ]
  slot-present_len (some x ∷ v) zero = elim (Bool-cases (present_len v == 0)) [
    | inl done ↦ rw (done, present_len)
    | inr more ↦ rw (more, present_len)
  ]
  slot-present_len (none ∷ v) (suc k) = elim (Bool-cases (present_len v == 0)) [
    | inl done ↦ rw (done, present_len) (sym (slot-absent v k (ground arith)))
    | inr more ↦ rw (more, present_len) (slot-present_len v k)
  ]
  slot-present_len (some x ∷ v) (suc k) = elim (Bool-cases (present_len v == 0)) [
    | inl done ↦ rw (done, present_len) (sym (slot-absent v k (ground arith)))
    | inr more ↦ rw (more, present_len) (slot-present_len v k)
  ]

  -- `shrink_to_fit` drops empty slots only: every lookup finds what it found before.
  pub get-shrink_to_fit : (m : VecMap V) (k : ℕ) → get (shrink_to_fit m) k ≡ get m k
  unfolding shrink_to_fit
  get-shrink_to_fit m k = get-slot (shrink_to_fit m) k ∙ slot-present_len m.v k ∙ sym (get-slot m k)

  pub remove_unchecked-ok :
      (m : VecMap V) (k : ℕ) (x : V)
      → get m k ≡ some x
      → 0 < m.n
      → remove_unchecked m k ≡ ok (x, record { n = m.n - 1; v = set m.v k none })
  unfolding remove_unchecked
  remove_unchecked-ok m k x h p = ground (arith, get-slot m k)
