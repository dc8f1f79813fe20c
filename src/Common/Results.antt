-- ===== src/Common/Results.antt =====
-- Go's pair of a value and an error.
use mathlib.Core.Path.{◌≡◌, refl}
use mathlib.Core.Logic.{◌⊎◌, inl, inr}
use mathlib.Core.Bool.{Bool, true, false}
use watgo.Common.Tests.{if◌then◌else◌}

pub data Result {ℓ} (E : Type 0) (A : Type ℓ) : Type ℓ where
  ok : A → Result E A
  err : E → Result E A

module _ {E : Type 0} where
  abbrev pub IsOk {ℓ} : {A : Type ℓ} → Result E A → Type 0
  IsOk (ok value) = Unit
  IsOk (err failure) = ⊥

  -- `if !test { return e }`.
  abbrev pub guard : (test : Bool) → (failure : E) → Result E (Unit {0})
  guard false failure = err failure
  guard true failure = ok tt

  infixl 5 ◌>>=◌
  abbrev pub ◌>>=◌ {ℓ κ} :
      {A : Type ℓ} {B : Type κ} (m : Result E A) (next : A → Result E B) → Result E B
  err failure >>= next = err failure
  ok value >>= next = next value

  infixl 5 ◌>>◌
  abbrev pub ◌>>◌ {ℓ} : {B : Type ℓ} (m : Result E (Unit {0})) (next : Result E B) → Result E B
  m >> next = m >>= λ done. next

  -- A chain that succeeds has a first part that does, and goes on from its value.
  pub >>=-ok {ℓ κ} :
      {A : Type ℓ} {B : Type κ} (m : Result E A) (next : A → Result E B) {out : B}
      → (m >>= next) ≡ ok out
      → (value : A) × (m ≡ ok value) × (next value ≡ ok out)
  >>=-ok (err failure) next chain = cc
  >>=-ok (ok value) next chain = (value, refl, chain)

  pub if-eq-ok {ℓ} :
      {A : Type ℓ} (test : Bool) (a : A) (e : E) {b : A}
      → (if test then ok a else err e) ≡ ok b
      → (test ≡ true) × (b ≡ a)
  if-eq-ok true a e h = (refl, cc)
  if-eq-ok false a e h = cc

  pub IsOk-eq-ok {ℓ} : {A : Type ℓ} (m : Result E A) → IsOk m → (a : A) × (m ≡ ok a)
  IsOk-eq-ok (ok a) h = (a, refl)
  IsOk-eq-ok (err e) h = absurd h

  pub guard-eq-ok : (test : Bool) (e : E) {u : Unit {0}} → guard test e ≡ ok u → test ≡ true
  guard-eq-ok true e h = refl
  guard-eq-ok false e h = cc

  -- To split on a result and keep the equation.
  pub Result-cases {ℓ} :
      {A : Type ℓ} (m : Result E A) → ((a : A) × (m ≡ ok a)) ⊎ ((e : E) × (m ≡ err e))
  Result-cases (ok a) = inl (a, refl)
  Result-cases (err e) = inr (e, refl)
