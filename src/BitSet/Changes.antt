-- ===== src/BitSet/Changes.antt =====
-- `insert` and `remove` of a BitSet.
use grid_server.Base.{
  ℕ, ◌+◌, ◌-◌, ◌*◌, ◌/◌, ◌<◌, ◌≡◌, refl, sym, ap, ◌∙◌, true, false, not, ◌&&◌, ◌||◌, List, arith,
  Returns, returns, length, ltb, ◌==◌, Bool-cases, inl, inr, ==_iff,
}
use grid_server.BitSet.{BitCore, BitSet, iter, contains, insert, remove, extended}
use grid_server.BitSet.Core.{Laws}
use grid_server.BitSet.Members.{
  length-below-change, IsCounted, Added, Dropped, contains-inside, contains-extended,
  length-iter-extended, extended_bound,
}

module _ (core : BitCore) (laws : Laws core) where
  open core use {bit_test, bit_set, bit_reset}

  contains-bit_set :
      (v : List ℕ) (n m value j : ℕ)
      → value < 64 * length v
      → contains core (record { len = n; inner = bit_set v value }) j
        ≡ (value == j) || contains core (record { len = m; inner = v }) j
  unfolding contains
  contains-bit_set v n m value j h =
      rw (laws.length-set v value h) (elim (Bool-cases (ltb (j / 64) (length v))) [
        | inl e ↦ rw (e, laws.test-set v value j h (ground arith)) (ground arith)
        | inr e ↦ let other : (value == j) ≡ false = ground arith in rw (e, other) refl
      ])

  contains-bit_reset :
      (v : List ℕ) (n m value j : ℕ)
      → value < 64 * length v
      → contains core (record { len = n; inner = bit_reset v value }) j
        ≡ not (value == j) && contains core (record { len = m; inner = v }) j
  unfolding contains
  contains-bit_reset v n m value j h =
      rw (laws.length-reset v value h) (elim (Bool-cases (ltb (j / 64) (length v))) [
        | inl e ↦ rw (e, laws.test-reset v value j h (ground arith)) (ground arith)
        | inr e ↦ let other : (value == j) ≡ false = ground arith in rw (e, other) refl
      ])

  length-iter-set :
      (v : List ℕ) (n m value : ℕ)
      → value < 64 * length v
      → bit_test v value ≡ false
      → length (iter core (record { len = n; inner = bit_set v value }))
        ≡ length (iter core (record { len = m; inner = v })) + 1
  unfolding iter
  length-iter-set v n m value h e = rw (laws.length-set v value h) (
      length-below-change (bit_test v) (bit_test (bit_set v value)) value (length v * 64)
        (omega arith) e (laws.test-set v value value h h ∙ ground arith)
        (λ j l other. sym (laws.test-set v value j h (omega arith) ∙ rw other refl)))

  length-iter-reset :
      (v : List ℕ) (n m value : ℕ)
      → value < 64 * length v
      → bit_test v value ≡ true
      → length (iter core (record { len = m; inner = v }))
        ≡ length (iter core (record { len = n; inner = bit_reset v value })) + 1
  unfolding iter
  length-iter-reset v n m value h e = rw (laws.length-reset v value h) (
      length-below-change (bit_test (bit_reset v value)) (bit_test v) value (length v * 64)
        (omega arith) (laws.test-reset v value value h h ∙ ground arith) e
        (λ j l other. laws.test-reset v value j h (omega arith) ∙ rw other refl))

  -- In a set whose count is the number of its members, `insert` tells whether the value was absent,
  -- afterwards the set contains that value and what it contained before, and its count is again the
  -- number of its members.
  pub insert-Added :
      (s : BitSet) (value : ℕ)
      → IsCounted core laws s
      → Added core laws s value (insert core s value)
  unfolding insert
  insert-Added s value counted =
      let w = extended s.inner value in
      let inside : value < 64 * length w = (extended_bound s.inner value).0 in
      let here : bit_test w value ≡ contains core s value =
        sym (contains-inside core laws (record { len = s.len; inner = w }) value inside)
        ∙ contains-extended core laws s.inner s.len s.len value value in
      let same = length-iter-extended core laws s.inner s.len s.len value in
      elim (Bool-cases (bit_test w value)) [
        | inl e ↦ rw e record {
          added = rw (← here) (rw e refl);
          counted = counted ∙ sym same;
          found = λ j. elim (Bool-cases (value == j)) [
            | inl k ↦ rw k (
                contains-extended core laws s.inner s.len s.len value j
                ∙ ap (contains core s) (sym ((==_iff value j).0 k))
                ∙ sym here
                ∙ e)
            | inr k ↦ rw k (contains-extended core laws s.inner s.len s.len value j)
          ];
        }
        | inr e ↦ rw e record {
          added = rw (← here) (rw e refl);
          counted =
              ap (λ n. n + 1) (counted ∙ sym same)
              ∙ sym (length-iter-set w (s.len + 1) s.len value inside e);
          found = λ j.
              contains-bit_set w (s.len + 1) s.len value j inside
              ∙ ap (λ b. (value == j) || b)
                  (contains-extended core laws s.inner s.len s.len value j);
        }
      ]

  -- In a set whose count is the number of its members, `remove` returns: it tells whether the value
  -- was there, afterwards the set contains what it contained before but for that value, and its
  -- count is again the number of its members.
  pub remove-Dropped :
      (s : BitSet) (value : ℕ)
      → IsCounted core laws s
      → Returns (Dropped core laws s value) (remove core s value)
  unfolding remove contains
  remove-Dropped s value counted = elim (Bool-cases (contains core s value)) [
    | inl e ↦
        let inside : value < 64 * length s.inner = ground arith in
        let one =
          length-iter-reset s.inner (s.len - 1) s.len value inside
            (sym (contains-inside core laws s value inside) ∙ e) in
        let enough : ltb s.len 1 ≡ false = ground arith in
        rw (e, enough)
          (returns record {
            taken = sym e;
            counted = omega (arith, one);
            found = λ j. contains-bit_reset s.inner (s.len - 1) s.len value j inside;
          })
    | inr e ↦ rw e (
        returns record {
          taken = sym e;
          counted = counted;
          found = λ j. elim (Bool-cases (value == j)) [
            | inl k ↦ rw k (ap (contains core s) (sym ((==_iff value j).0 k)) ∙ e)
            | inr k ↦ rw k refl
          ];
        })
  ]
