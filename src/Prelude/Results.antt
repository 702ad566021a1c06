-- ===== src/Prelude/Results.antt =====
-- Rust's `Result<A, E>` with `?` as bind, and the combinators on `Option` that the source calls.
use mathlib.Core.Path.{◌≡◌, refl}
use mathlib.Core.Bool.{Bool, true, false}
use mathlib.Core.Logic.{◌⊎◌, inl, inr}
use mathlib.Core.Option.{Option, none, some}
use native.Mathlib.Omega.{arith}

pub data Result {ℓ} (E A : Type ℓ) : Type ℓ where
  ok : A → Result E A
  err : E → Result E A

infixl 5 ◌>>=◌ ◌>>◌
-- the `?` operator
abbrev pub ◌>>=◌ {ℓ} : {E A B : Type ℓ} → Result E A → (A → Result E B) → Result E B
ok a >>= f = f a
err e >>= f = err e

abbrev pub ◌>>◌ {ℓ} : {E B : Type ℓ} → Result E Unit → Result E B → Result E B
m >> k = m >>= λ _. k

module _ {ℓ} {E A : Type ℓ} where
  abbrev pub map_err : {F : Type ℓ} → (E → F) → Result E A → Result F A
  map_err f (ok a) = ok a
  map_err f (err e) = err (f e)

  -- `Result::map`
  abbrev pub map_ok : {B : Type ℓ} → (A → B) → Result E A → Result E B
  map_ok f (ok a) = ok (f a)
  map_ok f (err e) = err e

  abbrev pub ok_or : Option A → E → Result E A
  ok_or none e = err e
  ok_or (some a) e = ok a

  pub Result-cases : (r : Result E A) → ((a : A) × (r ≡ ok a)) ⊎ ((e : E) × (r ≡ err e))
  Result-cases (ok a) = inl (a, refl)
  Result-cases (err e) = inr (e, refl)

-- What a success of `?` or of `map_err` tells about the step before it.
module _ {ℓ} {E A B : Type ℓ} where
  pub >>=-eq-ok :
      (next : A → Result E B) (step : Result E A) {last : B}
      → (step >>= next) ≡ ok last
      → (a : A) × (next a ≡ ok last) × (step ≡ ok a)
  >>=-eq-ok next (err e) done = cc
  >>=-eq-ok next (ok a) done = (a, done, refl)

pub map_err-eq-ok {ℓ} :
    {E F A : Type ℓ} (f : E → F) (r : Result E A) {a : A} → map_err f r ≡ ok a → r ≡ ok a
map_err-eq-ok f (ok a) h = ground arith
map_err-eq-ok f (err e) h = cc

-- `if c { return Err(e) }`
abbrev pub fail_if {ℓ} : {E : Type ℓ} → Bool → E → Result E (Unit {ℓ})
fail_if true e = err e
fail_if false e = ok tt

module _ {ℓ} {A : Type ℓ} where
  abbrev pub unwrap_or : Option A → A → A
  unwrap_or none d = d
  unwrap_or (some a) d = a

  -- `Option::or`
  abbrev pub or : Option A → Option A → Option A
  or none o = o
  or (some a) o = some a

  abbrev pub is_none : Option A → Bool
  is_none none = true
  is_none (some a) = false

  abbrev pub is_some : Option A → Bool
  is_some none = false
  is_some (some a) = true

  -- `is_none_or`, `is_some_and`
  abbrev pub is_none_or : (A → Bool) → Option A → Bool
  is_none_or p none = true
  is_none_or p (some a) = p a

  abbrev pub is_some_and : (A → Bool) → Option A → Bool
  is_some_and p none = false
  is_some_and p (some a) = p a

  -- `Option::filter`
  abbrev pub filter_option : (A → Bool) → Option A → Option A
  filter_option p none = none
  filter_option p (some a) = elim (p a) [ true ↦ some a | false ↦ none ]

  abbrev pub and_then {κ} : {B : Type κ} → Option A → (A → Option B) → Option B
  and_then none f = none
  and_then (some a) f = f a

-- What passing a check on an option tells about it.
module _ {ℓ} {E A : Type ℓ} where
  pub ok_or-eq-ok : (o : Option A) (e : E) {a : A} → ok_or o e ≡ ok a → o ≡ some a
  ok_or-eq-ok none e h = cc
  ok_or-eq-ok (some a) e h = ground arith

  pub fail_if-is_some : (o : Option A) (e : E) {u : Unit} → fail_if (is_some o) e ≡ ok u → o ≡ none
  fail_if-is_some none e h = refl
  fail_if-is_some (some a) e h = cc

  pub fail_if-is_none :
      (o : Option A) (e : E) {u : Unit} → fail_if (is_none o) e ≡ ok u → (a : A) × (o ≡ some a)
  fail_if-is_none none e h = cc
  fail_if-is_none (some a) e h = (a, refl)
