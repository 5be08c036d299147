-- ===== src/BitSet/Members.antt =====
-- What a BitSet contains after an operation, and that its count is right.
use grid_server.Base.{
  ℕ, zero, suc, ◌+◌, ◌-◌, ◌*◌, ◌/◌, ◌%◌, ◌≤◌, ◌<◌, ◌≡◌, refl, sym, ap, ◌∙◌, subst, Bool, true,
  false, not, ◌&&◌, ◌||◌, List, [], ◌∷◌, ◌++◌, arith, length, get_or, replicate, ltb, ◌==◌,
  if◌then◌else◌, length-append, length-replicate, Bool-cases, inl, inr, ==_iff,
}
use grid_server.BitSet.{BitCore, BitSet, below, iter, contains, extended}
use grid_server.BitSet.Core.{Laws, word_bit}

-- One element more, where the test changes at one number.
length-below-eq :
    (p q : ℕ → Bool) (n : ℕ)
    → ((j : ℕ) → j < n → p j ≡ q j)
    → length (below p n) ≡ length (below q n)
unfolding below
length-below-eq p q zero h = refl
length-below-eq p q (suc n) h = rw (h n (omega arith)) (
    ground (
      arith,
      length-append (below p n) (if q n then n ∷ [] else []),
      length-append (below q n) (if q n then n ∷ [] else []),
      length-below-eq p q n (λ j l. h j (omega arith)),
    ))

pub length-below-change :
    (p q : ℕ → Bool) (i n : ℕ)
    → i < n
    → p i ≡ false
    → q i ≡ true
    → ((j : ℕ) → j < n → (i == j) ≡ false → p j ≡ q j)
    → length (below q n) ≡ length (below p n) + 1
unfolding below
length-below-change p q i zero l a b h = absurd (omega arith)
length-below-change p q i (suc n) l a b h = elim (Bool-cases (i == n)) [
  | inl e ↦
      let same : i ≡ n = (==_iff i n).0 e in
      let a' : p n ≡ false = subst (λ k. p k ≡ false) same a in
      let b' : q n ≡ true = subst (λ k. q k ≡ true) same b in
      rw (a', b')
        (ground (
          arith,
          length-append (below p n) [],
          length-append (below q n) (n ∷ []),
          length-below-eq p q n (λ j k. h j (omega arith) (ground arith)),
        ))
  | inr e ↦
      let less : i < n = ground arith in
      rw (h n (omega arith) e) (
        ground (
          arith,
          length-append (below p n) (if q n then n ∷ [] else []),
          length-append (below q n) (if q n then n ∷ [] else []),
          length-below-change p q i n less a b (λ j k. h j (omega arith)),
        ))
]

pub length-below-more :
    (p : ℕ → Bool) (n m : ℕ)
    → ((j : ℕ) → n ≤ j → j < n + m → p j ≡ false)
    → length (below p (n + m)) ≡ length (below p n)
unfolding below
length-below-more p n zero h = let e : n + 0 ≡ n = omega arith in rw e refl
length-below-more p n (suc m) h =
    let e : n + suc m ≡ suc (n + m) = omega arith in
    rw e (
      rw (h (n + m) (omega arith) (omega arith)) (
        ground (
          arith,
          length-append (below p (n + m)) [],
          length-below-more p n m (λ j a b. h j a (omega arith)),
        )))

get_or-outside : (v : List ℕ) (k : ℕ) → length v ≤ k → get_or v k 0 ≡ 0
get_or-outside [] k h = refl
get_or-outside (x ∷ v) zero h = absurd (omega arith)
get_or-outside (x ∷ v) (suc k) h = get_or-outside v k (omega arith)

get_or-replicate : (n k : ℕ) → get_or {A = ℕ} (replicate n 0) k 0 ≡ 0
get_or-replicate zero k = refl
get_or-replicate (suc n) zero = refl
get_or-replicate (suc n) (suc k) = get_or-replicate n k

get_or-zeros : (v : List ℕ) (n k : ℕ) → get_or (v ++ replicate n 0) k 0 ≡ get_or v k 0
get_or-zeros [] n k = get_or-replicate n k
get_or-zeros (x ∷ v) n zero = refl
get_or-zeros (x ∷ v) n (suc k) = get_or-zeros v n k

get_or-extended : (v : List ℕ) (value k : ℕ) → get_or (extended v value) k 0 ≡ get_or v k 0
unfolding extended
get_or-extended v value k = ground (arith, get_or-zeros v (value / 64 - length v + 1) k)

pub extended_bound :
    (v : List ℕ) (value : ℕ)
    → (value < 64 * length (extended v value)) × (length v ≤ length (extended v value))
unfolding extended
extended_bound v value = ground (
  arith,
  length-append v (replicate (value / 64 - length v + 1) 0),
  length-replicate {0} {A = ℕ} (value / 64 - length v + 1) 0,
)

pub word_bit-zero : (k : ℕ) → word_bit 0 k ≡ false
unfolding word_bit
word_bit-zero zero = refl
word_bit-zero (suc k) = word_bit-zero k

module _ (core : BitCore) (laws : Laws core) where
  open core use {bit_test, bit_set, bit_reset}

  -- The count is the number of the members.
  abbrev pub IsCounted : BitSet → Type 0
  IsCounted s = s.len ≡ length (iter core s)

  -- The bit of a number, zero where there is no word.
  pub contains_lem :
      (s : BitSet) (j : ℕ) → contains core s j ≡ word_bit (get_or s.inner (j / 64) 0) (j % 64)
  unfolding contains
  contains_lem s j = elim (Bool-cases (ltb (j / 64) (length s.inner))) [
    | inl e ↦ rw e (laws.test_lem s.inner j (ground arith))
    | inr e ↦ rw (e, get_or-outside s.inner (j / 64) (ground arith), word_bit-zero (j % 64)) refl
  ]

  pub contains-inside :
      (s : BitSet) (j : ℕ) → j < 64 * length s.inner → contains core s j ≡ bit_test s.inner j
  unfolding contains
  contains-inside s j h = let e : ltb (j / 64) (length s.inner) ≡ true = ground arith in rw e refl

  pub contains-extended :
      (v : List ℕ) (n m value j : ℕ)
      → contains core (record { len = n; inner = extended v value }) j
        ≡ contains core (record { len = m; inner = v }) j
  contains-extended v n m value j =
      contains_lem (record { len = n; inner = extended v value }) j
      ∙ ap (λ w. word_bit w (j % 64)) (get_or-extended v value (j / 64))
      ∙ sym (contains_lem (record { len = m; inner = v }) j)

  -- The result of `insert`, and what is in the set then.
  pub record Added (s : BitSet) (value : ℕ) (out : Bool × BitSet) : Type 0 where
    pub added : out.0 ≡ not (contains core s value)
    pub counted : IsCounted out.1
    pub found : (j : ℕ) → contains core out.1 j ≡ (value == j) || contains core s j

  -- The result of `remove`, and what is in the set then.
  pub record Dropped (s : BitSet) (value : ℕ) (out : Bool × BitSet) : Type 0 where
    pub taken : out.0 ≡ contains core s value
    pub counted : IsCounted out.1
    pub found : (j : ℕ) → contains core out.1 j ≡ not (value == j) && contains core s j

  pub length-iter-extended :
      (v : List ℕ) (n m value : ℕ)
      → length (iter core (record { len = n; inner = extended v value }))
        ≡ length (iter core (record { len = m; inner = v }))
  unfolding iter
  length-iter-extended v n m value =
      let longer = extended_bound v value in
      let w = extended v value in
      let e : length w * 64 ≡ length v * 64 + (length w * 64 - length v * 64) =
        omega (arith, longer) in
      rw e (
        length-below-more (bit_test w) (length v * 64) (length w * 64 - length v * 64) (λ j a b.
          sym (contains-inside (record { len = n; inner = w }) j (omega (arith, longer)))
          ∙ contains_lem (record { len = n; inner = w }) j
          ∙ ap (λ x. word_bit x (j % 64))
              (get_or-extended v value (j / 64) ∙ get_or-outside v (j / 64) (omega arith))
          ∙ word_bit-zero (j % 64))
        ∙ length-below-eq (bit_test w) (bit_test v) (length v * 64) (λ j l.
          sym (contains-inside (record { len = n; inner = w }) j (omega (arith, longer)))
          ∙ contains-extended v n m value j
          ∙ contains-inside (record { len = m; inner = v }) j (omega arith)))
