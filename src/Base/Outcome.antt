-- ===== src/Base/Outcome.antt =====
-- How a call ends, and the rules for calls that end well.
use mathlib.Core.Path.{◌≡◌, refl, sym, ap, subst}
use mathlib.Core.Bool.{Bool, true, false}
use mathlib.Core.Option.{Option, none, some}
use Prim.Native.Nat.{ℕ, ◌-◌}
use grid_server.Base.Tests.{ltb, if◌then◌else◌}

-- A returned value, a panic (an index out of bounds, an overflow, a failed `unwrap`), an unchecked
-- access outside its contract, or the model's fuel running out.
pub data Run {ℓ} (A : Type ℓ) : Type ℓ where
  ok : A → Run A
  panic undefined out_of_fuel : Run A

abbrev pub or_else {ℓ} : {A : Type ℓ} → Option A → Run A → Run A
or_else none failure = failure
or_else (some found) failure = ok found

-- What is not a returned value ends the whole run.
infixl 5 ◌>>=◌
abbrev pub ◌>>=◌ {ℓ κ} : {A : Type ℓ} {B : Type κ} → Run A → (A → Run B) → Run B
panic >>= next = panic
undefined >>= next = undefined
out_of_fuel >>= next = out_of_fuel
ok value >>= next = next value

-- `a -= b` on an unsigned integer, with the overflow check.
abbrev pub checked_sub : ℕ → ℕ → Run ℕ
checked_sub a b = if ltb a b then panic else ok (a - b)

-- The run returns normally, with a value that satisfies `P`.
pub data Returns {ℓ κ} {A : Type ℓ} (P : A → Type κ) : Run A → Type (ℓ ⊔ κ) where
  returns : {a : A} → P a → Returns P (ok a)

module _ {ℓ κ} {A : Type ℓ} {P : A → Type κ} where
  pub Returns-inv : {r : Run A} → Returns P r → (value : A) × (r ≡ ok value) × P value
  Returns-inv (returns p) = (_, refl, p)

  pub Returns-if :
      {x y : Run A} (test : Bool)
      → (test ≡ true → Returns P x)
      → (test ≡ false → Returns P y)
      → Returns P (if test then x else y)
  Returns-if false holds otherwise = otherwise refl
  Returns-if true holds otherwise = holds refl

  -- A weaker property of the same run.
  pub Returns-map {μ} :
      {Q : A → Type μ} {r : Run A} → Returns P r → ((value : A) → P value → Q value) → Returns Q r
  Returns-map (returns p) weaken = returns (weaken _ p)

  -- A run that returns, and what follows it.
  pub Returns-bind {μ ν} :
      {C : Type μ} {Q : C → Type ν} {r : Run A} {next : A → Run C}
      → Returns P r
      → ((value : A) → P value → Returns Q (next value))
      → Returns Q (r >>= next)
  Returns-bind (returns p) follow = follow _ p

-- The value of a run that is known to return.
value_or {ℓ} : {A : Type ℓ} → A → Run A → A
value_or d (ok a) = a
value_or d panic = d
value_or d undefined = d
value_or d out_of_fuel = d

-- The property of a run that is known to return.
pub Returns-ok {ℓ κ} : {A : Type ℓ} {P : A → Type κ} {a : A} → Returns P (ok a) → P a
unfolding value_or
Returns-ok {P} {a} r = let (b, e, p) = Returns-inv r in subst P (sym (ap (value_or a) e)) p

-- The run returns with a value that satisfies `P`, or it panics: it makes no unchecked access outside
-- its contract, and the model's fuel is enough.
pub data Guarded {ℓ κ} {A : Type ℓ} (P : A → Type κ) : Run A → Type (ℓ ⊔ κ) where
  guarded : {a : A} → P a → Guarded P (ok a)
  panicked : Guarded P panic

module _ {ℓ κ} {A : Type ℓ} {P : A → Type κ} where
  pub Returns-Guarded : {r : Run A} → Returns P r → Guarded P r
  Returns-Guarded (returns p) = guarded p

  pub Guarded-inv : {r : Run A} (value : A) → Guarded P r → r ≡ ok value → P value
  unfolding value_or
  Guarded-inv value (guarded {a} p) e = subst P (ap (value_or a) e) p
  Guarded-inv value panicked e = absurd (cc e)

  pub Guarded-bind {μ ν} :
      {C : Type μ} {Q : C → Type ν} {r : Run A} {next : A → Run C}
      → Guarded P r
      → ((value : A) → P value → Guarded Q (next value))
      → Guarded Q (r >>= next)
  Guarded-bind (guarded p) follow = follow _ p
  Guarded-bind panicked follow = panicked

  pub Guarded-map {μ} :
      {Q : A → Type μ} {r : Run A} → Guarded P r → ((value : A) → P value → Q value) → Guarded Q r
  Guarded-map (guarded p) weaken = guarded (weaken _ p)
  Guarded-map panicked weaken = panicked

  pub Guarded-if :
      {x y : Run A} (test : Bool)
      → (test ≡ true → Guarded P x)
      → (test ≡ false → Guarded P y)
      → Guarded P (if test then x else y)
  Guarded-if false holds otherwise = otherwise refl
  Guarded-if true holds otherwise = holds refl

-- Two steps that return, and what follows the second.
pub Returns-then {ℓ κ μ ν} :
    {A : Type ℓ} {B : Type κ} {C : Type ℓ} {P : B → Type μ} {Q : C → Type ν} (r : Run A)
    (f : A → Run B) {g : B → Run C}
    → Returns P (r >>= f)
    → ((b : B) → P b → Returns Q (g b))
    → Returns Q (r >>= λ a. f a >>= g)
Returns-then (ok a) f h k = Returns-bind h k
Returns-then panic f h k = absurd (let (_, e, _) = Returns-inv h in cc e)
Returns-then undefined f h k = absurd (let (_, e, _) = Returns-inv h in cc e)
Returns-then out_of_fuel f h k = absurd (let (_, e, _) = Returns-inv h in cc e)

pub Guarded-ok {ℓ κ} : {A : Type ℓ} {P : A → Type κ} {a : A} → Guarded P (ok a) → P a
Guarded-ok {a} g = Guarded-inv a g refl

-- If the run returns, its value satisfies `P`.
pub data IfReturns {ℓ κ} {A : Type ℓ} (P : A → Type κ) : Run A → Type (ℓ ⊔ κ) where
  returned : {a : A} → P a → IfReturns P (ok a)
  panicked : IfReturns P panic
  misused : IfReturns P undefined
  ran_out : IfReturns P out_of_fuel

pub IfReturns-bind {ℓ κ μ ν} :
    {A : Type ℓ} {C : Type μ} {P : A → Type κ} {Q : C → Type ν} {r : Run A} {next : A → Run C}
    → IfReturns P r
    → ((value : A) → P value → IfReturns Q (next value))
    → IfReturns Q (r >>= next)
IfReturns-bind (returned p) follow = follow _ p
IfReturns-bind panicked follow = panicked
IfReturns-bind misused follow = misused
IfReturns-bind ran_out follow = ran_out

pub IfReturns-map {ℓ κ μ} :
    {A : Type ℓ} {P : A → Type κ} {Q : A → Type μ} {r : Run A}
    → IfReturns P r
    → ((value : A) → P value → Q value)
    → IfReturns Q r
IfReturns-map (returned p) weaken = returned (weaken _ p)
IfReturns-map panicked weaken = panicked
IfReturns-map misused weaken = misused
IfReturns-map ran_out weaken = ran_out

-- Whatever the first run returns.
pub IfReturns-then {ℓ μ ν} :
    {A : Type ℓ} {C : Type μ} {Q : C → Type ν} (r : Run A) {next : A → Run C}
    → ((value : A) → IfReturns Q (next value))
    → IfReturns Q (r >>= next)
IfReturns-then (ok a) follow = follow a
IfReturns-then panic follow = panicked
IfReturns-then undefined follow = misused
IfReturns-then out_of_fuel follow = ran_out

IfReturns-value {ℓ κ} :
    {A : Type ℓ} {P : A → Type κ} {r : Run A} (a : A)
    → IfReturns P r
    → (b : Run A) → r ≡ b
    → b ≡ ok a
    → P a
IfReturns-value {P} a (returned {a = c} p) b e f = subst P (cc (e, f)) p
IfReturns-value a panicked b e f = absurd (cc (e, f))
IfReturns-value a misused b e f = absurd (cc (e, f))
IfReturns-value a ran_out b e f = absurd (cc (e, f))

pub IfReturns-ok {ℓ κ} :
    {A : Type ℓ} {P : A → Type κ} {r : Run A} (a : A) → IfReturns P r → r ≡ ok a → P a
IfReturns-ok {r} a h e = IfReturns-value a h r refl e
