-- ===== src/Soundness/Outcome.antt =====
-- internal/vm/execute.go: results of an operation that may trap and that may do nothing else wrong.
use mathlib.Core.Path.{subst}
use watgo.Common.{
  ◌≡◌, refl, sym, ◌⊎◌, inl, inr, Bool, true, false, Result, ok, err, ◌>>=◌, guard, if◌then◌else◌,
}
use watgo.Vm.Value.{Error}

-- The errors that WebAssembly calls traps: the others report a body that is not valid.
abbrev pub is_trap : Error → Bool
is_trap Error.memory_bounds = true
is_trap Error.table_bounds = true
is_trap Error.data_bounds = true
is_trap Error.elem_bounds = true
is_trap Error.address_overflow = true
is_trap Error.divide_by_zero = true
is_trap Error.integer_overflow = true
is_trap _ = false

-- The operation gives a value with the property, or it traps.
abbrev Outcome : {A : Type 0} → (A → Type 0) → Result Error A → Type 0
Outcome P (ok a) = P a
Outcome P (err e) = is_trap e ≡ true

pub record Sound {A : Type 0} (P : A → Type 0) (m : Result Error A) : Type 0 where
  pub outcome : Outcome P m

module _ {A : Type 0} {P : A → Type 0} where
  pub Sound-bind :
      {B : Type 0} {Q : B → Type 0} (m : Result Error A) (next : A → Result Error B)
      → Sound P m
      → ((a : A) → P a → Sound Q (next a))
      → Sound Q (m >>= next)
  Sound-bind (ok a) next s f = f a s.outcome
  Sound-bind (err e) next s f = record { outcome = s.outcome }

  pub Sound-ok : (m : Result Error A) (a : A) → m ≡ ok a → P a → Sound P m
  Sound-ok m a h p = subst (Sound P) (sym h) (record { outcome = p })

  pub Sound-map :
      {Q : A → Type 0} (m : Result Error A) → Sound P m → ((a : A) → P a → Q a) → Sound Q m
  Sound-map (ok a) s f = record { outcome = f a s.outcome }
  Sound-map (err e) s f = record { outcome = s.outcome }

  -- To read the outcome of an operation that is known.
  pub Sound-cases :
      (m : Result Error A)
      → Sound P m
      → ((a : A) × (m ≡ ok a) × P a) ⊎ ((e : Error) × (m ≡ err e) × (is_trap e ≡ true))
  Sound-cases (ok a) s = inl (a, refl, s.outcome)
  Sound-cases (err e) s = inr (e, refl, s.outcome)

pub Sound-trap :
    {A : Type 0} {P : A → Type 0} (m : Result Error A) (e : Error)
    → m ≡ err e
    → is_trap e ≡ true
    → Sound P m
Sound-trap {P = P} m e h t = subst (Sound P) (sym h) (record { outcome = t })

-- A passed test goes on.
pub Sound-guard :
    {B : Type 0} {Q : B → Type 0} (test : Bool) (e : Error) (next : Unit {0} → Result Error B)
    → test ≡ true
    → Sound Q (next tt)
    → Sound Q (guard test e >>= next)
Sound-guard true e next h s = s
Sound-guard false e next h s = absurd cc

-- A test that stops with a trap.
pub if-Sound :
    {A : Type 0} {P : A → Type 0} (test : Bool) (e : Error) (a : A)
    → is_trap e ≡ true
    → P a
    → Sound P (if test then err e else ok a)
if-Sound true e a t p = Sound-trap _ e refl t
if-Sound false e a t p = Sound-ok _ a refl p

pub either-Sound :
    {A : Type 0} {P : A → Type 0} (test : Bool) (a b : A)
    → P a
    → P b
    → Sound P (if test then ok a else ok b)
either-Sound true a b p q = Sound-ok _ a refl p
either-Sound false a b p q = Sound-ok _ b refl q

abbrev pub Anything : {A : Type 0} → A → Type 0
Anything a = Unit
