-- ===== src/VecMap/Count.antt =====
-- The count of a VecMap is that of its values.
use grid_server.Base.{
  ℕ, zero, suc, ◌+◌, ◌-◌, ◌<◌, ◌≡◌, refl, Option, none, some, List, [], ◌∷◌, ◌++◌, arith, Returns,
  returns, length, set, take, replicate, ◌==◌, Option-cases, Bool-cases, inl, inr, sym, ◌∙◌, ap,
}
use grid_server.VecMap.{
  VecMap, present_len, clear, shrink_to_fit, get, write, extend_to, get_or_insert, insert, remove,
  values_of, into_iter, IsCounted,
}
use grid_server.VecMap.Lookup.{
  slot, get-slot, slot_bound, Removed, get-cleared, length-extend_to, remove-none, remove-some,
}

module _ {ℓ} {V : Type ℓ} where
  abbrev weight : Option V → ℕ
  weight none = 0
  weight (some x) = 1

  abbrev present : List (Option V) → ℕ
  present v = length (values_of v)

  present-set :
      (v : List (Option V)) (k : ℕ) (x : Option V)
      → k < length v
      → present (set v k x) + weight (slot v k) ≡ present v + weight x
  unfolding values_of
  present-set [] k x h = absurd (omega arith)
  present-set (none ∷ v) zero none h = omega arith
  present-set (none ∷ v) zero (some y) h = omega arith
  present-set (some z ∷ v) zero none h = omega arith
  present-set (some z ∷ v) zero (some y) h = omega arith
  present-set (none ∷ v) (suc k) x h = present-set v k x (omega arith)
  present-set (some z ∷ v) (suc k) x h = omega (arith, present-set v k x (omega arith))

  present-append : (v : List (Option V)) (n : ℕ) → present (v ++ replicate n none) ≡ present v
  unfolding values_of
  present-append [] zero = refl
  present-append [] (suc n) = present-append [] n
  present-append (none ∷ v) n = present-append v n
  present-append (some x ∷ v) n = ap suc (present-append v n)

  present-extend_to : (v : List (Option V)) (k : ℕ) → present (extend_to v k) ≡ present v
  unfolding extend_to
  present-extend_to v k = ground (arith, present-append v (k - length v + 1))

  present-zero : (v : List (Option V)) → present_len v ≡ 0 → values_of v ≡ []
  unfolding present_len values_of
  present-zero [] h = refl
  present-zero (none ∷ v) h = ground (arith, present-zero v)
  present-zero (some x ∷ v) h = ground arith

  values-present_len : (v : List (Option V)) → values_of (take (present_len v) v) ≡ values_of v
  unfolding present_len values_of
  values-present_len [] = refl
  values-present_len (none ∷ v) = elim (Bool-cases (present_len v == 0)) [
    | inl done ↦ rw (done, present_len) (sym (present-zero v (ground arith)))
    | inr more ↦ rw (more, present_len) (values-present_len v)
  ]
  values-present_len (some x ∷ v) = elim (Bool-cases (present_len v == 0)) [
    | inl done ↦ rw (done, present_len) (ap (◌∷◌ x) (sym (present-zero v (ground arith))))
    | inr more ↦ rw (more, present_len) (ap (◌∷◌ x) (values-present_len v))
  ]

  present_pos : (v : List (Option V)) (k : ℕ) {x : V} → slot v k ≡ some x → 0 < present v
  unfolding values_of
  present_pos [] k h = cc
  present_pos (some y ∷ v) k h = omega arith
  present_pos (none ∷ v) zero h = cc
  present_pos (none ∷ v) (suc k) h = present_pos v k h

  -- A counted map with a key has a positive count.
  pub len_pos : (m : VecMap V) (k : ℕ) {x : V} → IsCounted m → get m k ≡ some x → 0 < m.n
  unfolding into_iter
  len_pos m k c h = omega (arith, present_pos m.v k (sym (get-slot m k) ∙ h))

  pub clear-IsCounted : (m : VecMap V) → IsCounted (clear m)
  unfolding clear into_iter values_of
  clear-IsCounted m = refl

  pub shrink_to_fit-IsCounted : (m : VecMap V) → IsCounted m → IsCounted (shrink_to_fit m)
  unfolding shrink_to_fit into_iter
  shrink_to_fit-IsCounted m c = c ∙ ap length (sym (values-present_len m.v))

  pub write-IsCounted :
      (m : VecMap V) (k : ℕ) (x : V) {old : V}
      → get m k ≡ some old
      → IsCounted m
      → IsCounted (write m k x)
  unfolding write into_iter
  write-IsCounted m k x {old} h c =
      let here : slot m.v k ≡ some old = sym (get-slot m k) ∙ h in
      omega (arith, present-set m.v k (some x) (slot_bound m.v k here), ap weight here)

  -- `insert` keeps the count equal to the number of present values.
  pub insert-IsCounted : (m : VecMap V) (k : ℕ) (x : V) → IsCounted m → IsCounted (insert m k x).1
  unfolding insert into_iter
  insert-IsCounted m k x c =
      let v = extend_to m.v k in
      ground (arith, present-set v k (some x) (length-extend_to m.v k), present-extend_to m.v k)

  -- `get_or_insert` keeps the count equal to the number of present values.
  pub get_or_insert-IsCounted :
      (m : VecMap V) (k : ℕ) (x : V) → IsCounted m → IsCounted (get_or_insert m k x).1
  unfolding get_or_insert into_iter
  get_or_insert-IsCounted m k x c =
      let v = extend_to m.v k in
      ground (arith, present-set v k (some x) (length-extend_to m.v k), present-extend_to m.v k)

  -- `remove` on a map whose count is the number of present values never underflows the count: it
  -- returns the value that the key had, the key is absent afterwards, every other key is kept, and
  -- the count is again the number of present values.
  pub remove-IsCounted :
      (m : VecMap V) (k : ℕ)
      → IsCounted m
      → Returns (λ r. IsCounted r.1 × Removed m k r) (remove m k)
  unfolding into_iter
  remove-IsCounted m k c = elim (Option-cases (get m k)) [
    | inl absent ↦
        rw (remove-none m k absent) (returns (c, (sym absent, (λ j. ground arith), ground arith)))
    | inr (x, found) ↦
        let here : slot m.v k ≡ some x = sym (get-slot m k) ∙ found in
        let counted = present-set m.v k none (slot_bound m.v k here) in
        let pos = present_pos m.v k here in
        rw (remove-some m k x found (len_pos m k c found)) (
          returns (
            omega (arith, counted, ap weight here, pos),
            (sym found, (λ j. get-cleared m k j (m.n - 1) x found), ground arith),
          ))
  ]
