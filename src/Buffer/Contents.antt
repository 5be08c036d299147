-- ===== src/Buffer/Contents.antt =====
-- A buffer holds the items pushed since it was last handed out.
use grid_server.Base.{
  inl, inr, Bool-cases, ==_refl, Bool-cases, ltb, inr, get_elem?, leb, ℕ, suc, ◌+◌, ◌≤◌, ◌<◌, ◌≡◌,
  refl, sym, ◌∙◌, ap, true, false, Option, none, some, List, [], ◌∷◌, ◌++◌, map, arith, ok, Returns,
  returns, length, set, take, replicate, length-set, length-replicate, length-append, ◌==◌,
}
use grid_server.Buffer.{
  Buffer, assume_init, write, new, push, filled_slice, clear, from_array, try_into, into_iter, next,
}

module _ {ℓ} {T : Type ℓ} where
  assume_init-some : (xs : List T) → assume_init (map some xs) ≡ ok xs
  unfolding assume_init
  assume_init-some [] = refl
  assume_init-some (x ∷ xs) = rw (assume_init-some xs) refl

  length-some : (xs : List T) → length (map some xs) ≡ length xs
  length-some [] = refl
  length-some (x ∷ xs) = ap suc (length-some xs)

  take-length : (slots : List (Option T)) → take (length slots) slots ≡ slots
  take-length [] = refl
  take-length (x ∷ slots) = ap (◌∷◌ x) (take-length slots)

  -- The front up to the one written.
  take-set :
      (slots : List (Option T)) (xs : List T) (x : T)
      → length xs < length slots
      → take (length xs) slots ≡ map some xs
      → take (suc (length xs)) (set slots (length xs) (some x)) ≡ map some (xs ++ x ∷ [])
  take-set [] xs x h e = absurd (omega arith)
  take-set (d ∷ slots) [] x h e = refl
  take-set (d ∷ slots) (y ∷ xs) x h e =
      let head : d ≡ some y = cc e in
      let tail : take (length xs) slots ≡ map some xs = cc e in
      rw head (ap (◌∷◌ (some y)) (take-set slots xs x (omega arith) tail))

  first :
      (slots : List (Option T)) (x : T) (xs : List T)
      → take (length (x ∷ xs)) slots ≡ map some (x ∷ xs)
      → get_elem? slots 0 ≡ some (some x)
  first [] x xs e = absurd (cc e)
  first (d ∷ slots) x xs e = cc e

  abbrev pub given : Option (List T) → List T
  given none = []
  given (some batch) = batch

  module _ {N : ℕ} where
    pub record Holds (b : Buffer T N) (xs : List T) : Type ℓ where
      pub size : length b.slots ≡ N
      pub count : b.filled ≡ length xs
      pub fits : length xs ≤ N
      pub front : take (length xs) b.slots ≡ map some xs

    pub new-Holds : Holds new []
    unfolding new
    new-Holds = record {
      size = length-replicate N none;
      count = refl;
      fits = omega arith;
      front = refl;
    }

    pub clear-Holds : (b : Buffer T N) (xs : List T) → Holds b xs → Holds (clear b) []
    unfolding clear
    clear-Holds b xs h = record { size = h.size; count = refl; fits = omega arith; front = refl }

    pub filled_slice-ok : (b : Buffer T N) (xs : List T) → Holds b xs → filled_slice b ≡ ok xs
    unfolding filled_slice
    filled_slice-ok b xs h =
        let inside : leb b.filled (length b.slots) ≡ true =
          ground (arith, h.count, h.size, h.fits) in
        rw (inside, h.count, h.front) (assume_init-some xs)

    -- What `push` hands out, and what stays, are together what was held and the item.
    pub record Pushed (xs : List T) (x : T) (out : Option (List T)) (b : Buffer T N) : Type ℓ where
      pub kept : List T
      pub holds : Holds b kept
      pub all : given out ++ kept ≡ xs ++ x ∷ []
      pub whole : (batch : List T) → out ≡ some batch → length batch ≡ N

    -- A full buffer holds a value in every slot.
    full-slots : (b : Buffer T N) (xs : List T) → Holds b xs → length xs ≡ N → b.slots ≡ map some xs
    full-slots b xs h e =
        sym (take-length b.slots) ∙ ap (λ n. take n b.slots) (h.size ∙ sym e) ∙ h.front

    push_full :
        (b : Buffer T N) (xs : List T) (x : T)
        → 0 < N
        → Holds b xs
        → length xs ≡ N
        → push b x ≡ ok (some xs, record { filled = 1; slots = set (replicate N none) 0 (some x) })
    unfolding push write
    push_full b xs x p h e =
        let test : (b.filled == N) ≡ true = ground (arith, h.count, e) in
        let room : ltb 0 (length (replicate {A = Option T} N none)) ≡ true =
          ground (arith, length-replicate {A = Option T} N none) in
        rw (test, full-slots b xs h e, assume_init-some xs, room) refl

    push_more :
        (b : Buffer T N) (xs : List T) (x : T)
        → Holds b xs
        → length xs < N
        → push b x
          ≡ ok (none, record { filled = b.filled + 1; slots = set b.slots (length xs) (some x) })
    unfolding push write
    push_more b xs x h l =
        let test : (b.filled == N) ≡ false = ground (arith, h.count) in
        let room : ltb (length xs) (length b.slots) ≡ true = ground (arith, h.size) in
        rw (test, h.count, room) refl

    -- `push` on a buffer of more than no slots that holds given items returns: what it hands out
    -- and what stays in the buffer are together those items followed by the new one, and what it
    -- hands out has the size of the buffer.
    pub push-Pushed :
        (b : Buffer T N) (xs : List T) (x : T)
        → 0 < N
        → Holds b xs
        → Returns (λ (out, r). Pushed xs x out r) (push b x)
    push-Pushed b xs x p h = elim (Bool-cases (length xs == N)) [
      | inl full ↦
          let e : length xs ≡ N = ground (arith, full) in
          let fresh = replicate {A = Option T} N none in
          let wide = length-replicate {A = Option T} N none in
          rw (push_full b xs x p h e) (
            returns (record {
              kept = x ∷ [];
              holds = record {
                size = length-set fresh 0 (some x) ∙ wide;
                count = refl;
                fits = omega arith;
                front = take-set fresh [] x (omega arith) refl;
              };
              all = refl;
              whole = λ batch o. cc (e, o);
            }))
      | inr more ↦
          let l : length xs < N = ground (arith, more, h.fits) in
          let size = length-append xs (x ∷ []) in
          let grown : length (xs ++ x ∷ []) ≡ suc (length xs) = omega (arith, size) in
          rw (push_more b xs x h l) (
            returns (record {
              kept = xs ++ x ∷ [];
              holds = record {
                size = length-set b.slots (length xs) (some x) ∙ h.size;
                count = omega (arith, h.count, size);
                fits = omega (arith, size);
                front = rw grown (take-set b.slots xs x (omega (arith, h.size)) h.front);
              };
              all = refl;
              whole = λ batch o. absurd (cc o);
            }))
    ]

    -- A buffer made from an array of its size holds the array's items, and `try_into` gives the
    -- array back.
    pub try_into-from_array :
        (xs : List T)
        → length xs ≡ N
        → (try_into (from_array {N = N} xs) ≡ ok (inr xs)) × Holds (from_array {N = N} xs) xs
    unfolding try_into from_array
    try_into-from_array xs e =
        let test : (N == N) ≡ true = ==_refl N in
        (
          rw (test, assume_init-some xs) refl,
          record {
            size = length-some xs ∙ e;
            count = sym e;
            fits = omega arith;
            front =
                ap (λ n. take n (map some xs)) (sym (length-some xs)) ∙ take-length (map some xs);
          },
        )

    -- The iterator over a buffer that holds an item yields the first item and is the same iterator
    -- afterwards, so that it never ends.
    pub next-into_iter :
        (b : Buffer T N) (x : T) (xs : List T)
        → Holds b (x ∷ xs)
        → next (into_iter b) ≡ ok (some x, into_iter b)
    unfolding next into_iter
    next-into_iter b x xs h =
        let test : ltb 0 b.filled ≡ true = ground (arith, h.count) in
        rw (test, first b.slots x xs h.front) refl
