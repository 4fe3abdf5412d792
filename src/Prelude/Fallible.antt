-- ===== src/Prelude/Fallible.antt =====
-- A Go call that returns an error beside its result.
use mathlib.Core.Path.{◌≡◌, refl}
use mathlib.Core.Bool.{Bool, true, false}
use mathlib.Core.Option.{Option, none, some}
use mathlib.Core.Logic.{◌⊎◌, inl, inr}

pub data Result {ℓ κ} (E : Type ℓ) (A : Type κ) : Type (ℓ ⊔ κ) where
  ok : A → Result E A
  err : E → Result E A

module _ {ℓ} {E : Type ℓ} where
  infixl 5 ◌>>=◌ ◌>>◌
  abbrev pub ◌>>=◌ {κ ι} : {A : Type κ} {B : Type ι} → Result E A → (A → Result E B) → Result E B
  ok a >>= f = f a
  err e >>= f = err e

  abbrev pub ◌>>◌ {ι} : {B : Type ι} → Result E (Unit {0}) → Result E B → Result E B
  m >> k = m >>= λ _. k

  -- `if b { return e }`
  abbrev pub fail_if : Bool → E → Result E (Unit {0})
  fail_if true e = err e
  fail_if false e = ok tt

  abbrev pub or_fail {κ} : {A : Type κ} → Option A → E → Result E A
  or_fail none e = err e
  or_fail (some a) e = ok a

  pub Result-cases {κ} :
      {A : Type κ} (r : Result E A) → ((a : A) × (r ≡ ok a)) ⊎ ((e : E) × (r ≡ err e))
  Result-cases (ok a) = inl (a, refl)
  Result-cases (err e) = inr (e, refl)

  -- What follows a test that is passed.
  pub fail_if-passed {κ} :
      {A : Type κ} (b : Bool) (e : E) (k : Result E A) (a : A)
      → ((fail_if b e >> k) ≡ ok a)
      → (b ≡ false) × (k ≡ ok a)
  fail_if-passed true e k a h = absurd cc
  fail_if-passed false e k a h = (refl, h)

  pub >>=_ok {κ ι} :
      {A : Type κ} {B : Type ι} (m : Result E A) (f : A → Result E B) (b : B)
      → ((m >>= f) ≡ ok b)
      → (a : A) × (m ≡ ok a) × (f a ≡ ok b)
  >>=_ok (ok a) f b h = (a, refl, h)
  >>=_ok (err e) f b h = absurd cc

  pub or_fail_ok {κ} : {A : Type κ} (o : Option A) (e : E) (a : A) → or_fail o e ≡ ok a → o ≡ some a
  or_fail_ok none e a h = absurd cc
  or_fail_ok (some b) e a h = cc

  pub ok_eq {κ} : {A : Type κ} (a b : A) (r : Result E A) → r ≡ ok a → r ≡ ok b → a ≡ b
  ok_eq a b r f g = cc
