-- ===== src/LinkedVecMap/Members.antt =====
-- Lists of addresses without repetition.
use grid_server.Base.{
  ℕ, ◌<◌, ◌≡◌, refl, sym, ◌∙◌, subst, inl, inr, Bool, true, false, ◌||◌, List, [], ◌∷◌, ◌++◌, arith,
  ◌==◌, if◌then◌else◌, ==_iff, Bool-cases, ==_refl,
}

abbrev pub mem : ℕ → List ℕ → Bool
mem a [] = false
mem a (x ∷ xs) = (x == a) || mem a xs

abbrev pub Distinct : List ℕ → Type 0
Distinct [] = Unit
Distinct (x ∷ xs) = (mem x xs ≡ false) × Distinct xs

pub or_false : (p q : Bool) → (p || q) ≡ false → (p ≡ false) × (q ≡ false)
or_false true q h = absurd (cc h)
or_false false q h = (refl, h)

pub mem-append : (a : ℕ) (xs ys : List ℕ) → mem a (xs ++ ys) ≡ (mem a xs || mem a ys)
mem-append a [] ys = refl
mem-append a (x ∷ xs) ys = ground (arith, mem-append a xs ys)

pub mem_ne : (a b : ℕ) (xs : List ℕ) → mem a xs ≡ true → mem b xs ≡ false → (a == b) ≡ false
mem_ne a b xs h k = elim (Bool-cases (a == b)) [
  | inl e ↦ absurd (cc (h, k, (==_iff a b).0 e))
  | inr e ↦ e
]

-- An element taken out of the middle.
pub Distinct-remove :
    (xs : List ℕ) (x : ℕ) (ys : List ℕ)
    → Distinct (xs ++ x ∷ ys)
    → Distinct (xs ++ ys) × (mem x (xs ++ ys) ≡ false)
Distinct-remove [] x ys d = (d.1, d.0)
Distinct-remove (y ∷ xs) x ys d =
    let (rest, absent) = Distinct-remove xs x ys d.1 in
    let parts = or_false (mem y xs) (mem y (x ∷ ys)) (sym (mem-append y xs (x ∷ ys)) ∙ d.0) in
    let others = or_false (x == y) (mem y ys) parts.1 in
    (
      (mem-append y xs ys ∙ ground (arith, parts.0, others.1), rest),
      ground (arith, others.0, absent),
    )

pub Distinct-snoc : (xs : List ℕ) (x : ℕ) → Distinct xs → mem x xs ≡ false → Distinct (xs ++ x ∷ [])
Distinct-snoc [] x d h = (refl, tt)
Distinct-snoc (y ∷ xs) x d h =
    let (other, absent) = or_false (y == x) (mem x xs) h in
    (mem-append y xs (x ∷ []) ∙ ground (arith, d.0, other), Distinct-snoc xs x d.1 absent)

pub Distinct-append_left : (xs ys : List ℕ) → Distinct (xs ++ ys) → Distinct xs
Distinct-append_left [] ys d = tt
Distinct-append_left (x ∷ xs) ys d = (
  (or_false (mem x xs) (mem x ys) (sym (mem-append x xs ys) ∙ d.0)).0,
  Distinct-append_left xs ys d.1,
)

pub Distinct-append_right : (xs ys : List ℕ) → Distinct (xs ++ ys) → Distinct ys
Distinct-append_right [] ys d = d
Distinct-append_right (x ∷ xs) ys d = Distinct-append_right xs ys d.1

-- The last of the elements after `a`, or `a`.
abbrev pub last : ℕ → List ℕ → ℕ
last a [] = a
last a (x ∷ xs) = last x xs

pub mem-last : (a : ℕ) (xs : List ℕ) → mem (last a xs) (a ∷ xs) ≡ true
mem-last a [] = ground arith
mem-last a (x ∷ xs) = ground (arith, mem-last x xs)

pub last-append : (a : ℕ) (xs ys : List ℕ) → last a (xs ++ ys) ≡ last (last a xs) ys
last-append a [] ys = refl
last-append a (x ∷ xs) ys = last-append x xs ys

-- An element of the first list is not one of the second.
pub mem_apart : (xs ys : List ℕ) (a : ℕ) → Distinct (xs ++ ys) → mem a xs ≡ true → mem a ys ≡ false
mem_apart [] ys a d h = absurd (cc h)
mem_apart (x ∷ xs) ys a d h = elim (Bool-cases (x == a)) [
  | inl e ↦
      let same : x ≡ a = (==_iff x a).0 e in
      subst (λ b. mem b ys ≡ false) same
        ((or_false (mem x xs) (mem x ys) (sym (mem-append x xs ys) ∙ d.0)).1)
  | inr e ↦ mem_apart xs ys a d.1 (ground arith)
]

pub ne_of_mem : (a b : ℕ) (xs : List ℕ) → mem a xs ≡ false → mem b xs ≡ true → (a == b) ≡ false
ne_of_mem a b xs h k = elim (Bool-cases (a == b)) [
  | inl e ↦ absurd (cc (h, k, (==_iff a b).0 e))
  | inr e ↦ e
]

pub if_eq {ℓ} : {A : Type ℓ} (a : ℕ) (x y : A) → (if a == a then x else y) ≡ x
if_eq a x y = rw (==_refl a) refl

pub if_ne {ℓ} : {A : Type ℓ} (a b : ℕ) (x y : A) → (a == b) ≡ false → (if a == b then x else y) ≡ y
if_ne a b x y e = rw e refl

pub mem_apart_left :
    (xs ys : List ℕ) (a : ℕ) → Distinct (xs ++ ys) → mem a ys ≡ true → mem a xs ≡ false
mem_apart_left xs ys a d h = elim (Bool-cases (mem a xs)) [
  | inl e ↦ absurd (cc (h, mem_apart xs ys a d e))
  | inr e ↦ e
]

pub mem-middle :
    (a : ℕ) (xs : List ℕ) (x : ℕ) (ys : List ℕ)
    → mem a (xs ++ x ∷ ys) ≡ ((x == a) || mem a (xs ++ ys))
mem-middle a [] x ys = refl
mem-middle a (z ∷ xs) x ys = ground (arith, mem-middle a xs x ys)

-- An element put into the middle.
pub Distinct-insert :
    (xs : List ℕ) (x : ℕ) (ys : List ℕ)
    → Distinct (xs ++ ys)
    → mem x (xs ++ ys) ≡ false
    → Distinct (xs ++ x ∷ ys)
Distinct-insert [] x ys d h = (h, d)
Distinct-insert (z ∷ xs) x ys d h =
    let (other, absent) = or_false (z == x) (mem x (xs ++ ys)) h in
    (mem-middle z xs x ys ∙ ground (arith, d.0, other), Distinct-insert xs x ys d.1 absent)

pub mem-left : (a : ℕ) (xs ys : List ℕ) → mem a xs ≡ true → mem a (xs ++ ys) ≡ true
mem-left a xs ys h = mem-append a xs ys ∙ ground (arith, h)

pub mem-right : (a : ℕ) (xs ys : List ℕ) → mem a ys ≡ true → mem a (xs ++ ys) ≡ true
mem-right a xs ys h = mem-append a xs ys ∙ ground (arith, h)

pub or_true : (p q : Bool) → q ≡ true → (p || q) ≡ true
or_true p q h = ground arith

-- One more address is neither null nor beyond the memory.
pub more_below :
    (xs : List ℕ) (p : ℕ) (ys : List ℕ) (top : ℕ)
    → ((j : ℕ) → mem j (xs ++ ys) ≡ true → j < top)
    → p < top
    → (j : ℕ) → mem j (xs ++ p ∷ ys) ≡ true
    → j < top
more_below xs p ys top below under j h = elim (Bool-cases (p == j)) [
  | inl here ↦ subst (λ a. a < top) ((==_iff p j).0 here) under
  | inr other ↦ below j (ground (arith, mem-middle j xs p ys))
]

pub more_nonzero :
    (xs : List ℕ) (p : ℕ) (ys : List ℕ)
    → mem 0 (xs ++ ys) ≡ false
    → (p == 0) ≡ false
    → mem 0 (xs ++ p ∷ ys) ≡ false
more_nonzero xs p ys h k = ground (arith, mem-middle 0 xs p ys)

pub mem-widen : (a x : ℕ) (xs ys : List ℕ) → mem a (x ∷ ys) ≡ true → mem a (x ∷ (xs ++ ys)) ≡ true
mem-widen a x xs ys h = ground (arith, mem-append a xs ys, h)

pub mem-narrow :
    (a x : ℕ) (xs ys : List ℕ) → mem a (x ∷ (xs ++ ys)) ≡ false → mem a (x ∷ ys) ≡ false
mem-narrow a x xs ys h = elim (Bool-cases (mem a (x ∷ ys))) [
  | inl k ↦ absurd (cc (h, mem-widen a x xs ys k))
  | inr k ↦ k
]
