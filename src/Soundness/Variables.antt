-- ===== src/Soundness/Variables.antt =====
-- internal/vm/instance.go and execute.go: locals and globals, which keep values of their types.
use mathlib.Core.Path.{subst}
use watgo.Common.{ℕ, zero, suc, ◌≡◌, refl, sym, ◌∙◌, arith, true, false}
use watgo.Common.{List, [], ◌∷◌, some, ok, get_elem?}
use watgo.Common.Window.{overwrite, overwrite-nothing}
use watgo.Wasmir.{Module, ValueType, GlobalType}
use watgo.Wasmir.Equality.{same_value_type_self}
use watgo.Vm.Value.{Error, Value, Fits, AllFit, runtime_type_matches}
use watgo.Vm.State.{Machine, global_inst, set_elem, lookup}
use watgo.Vm.Globals.{global_get, global_set, set_global, with_value, global_set_iff}
use watgo.Vm.Execute.{set_local}
use watgo.Soundness.Outcome.{Sound, Sound-bind, Sound-ok}
use watgo.Soundness.Machines.{Agrees, HasGlobal, set_global-Agrees}

-- Two values that fit one type fit each other's.
pub Fits-matches :
    (got old want : ValueType) → Fits got want → Fits old want → runtime_type_matches got old ≡ true
unfolding runtime_type_matches
Fits-matches got old want f g = ground (arith, same_value_type_self want)

pub lookup-AllFit :
    (types : List ValueType) (values : List Value) (i : ℕ) (t : ValueType)
    → AllFit types values
    → get_elem? types i ≡ some t
    → (v : Value) × (get_elem? values i ≡ some v) × Fits v.type t
lookup-AllFit [] values i t a h = absurd cc
lookup-AllFit (want ∷ types) [] i t a h = absurd a
lookup-AllFit (want ∷ types) (v ∷ vs) zero t (f, a) h =
    let same : want ≡ t = cc in (v, refl, subst (Fits v.type) same f)
lookup-AllFit (want ∷ types) (v ∷ vs) (suc i) t (f, a) h = lookup-AllFit types vs i t a h

pub set_elem-AllFit :
    (types : List ValueType) (values : List Value) (i : ℕ) (t : ValueType) (v : Value)
    → AllFit types values
    → get_elem? types i ≡ some t
    → Fits v.type t
    → AllFit types (set_elem values i v)
unfolding overwrite
set_elem-AllFit [] [] i t v a h f = tt
set_elem-AllFit (want ∷ types) [] i t v a h f = absurd a
set_elem-AllFit [] (u ∷ us) i t v a h f = absurd a
set_elem-AllFit (want ∷ types) (u ∷ us) zero t v (g, a) h f =
    let same : t ≡ want = cc in (subst (Fits v.type) same f, rw (overwrite-nothing us zero) a)
set_elem-AllFit (want ∷ types) (u ∷ us) (suc i) t v (g, a) h f =
    (g, set_elem-AllFit types us i t v a h f)

lookup-Sound :
    {A : Type 0} (e : Error) (xs : List A) (i : ℕ) (x : A)
    → get_elem? xs i ≡ some x
    → lookup e xs i ≡ ok x
lookup-Sound e xs i x h = ground (arith, h)

module _ (types : List ValueType) (locals : List Value) (i : ℕ) (t : ValueType) where
  pub local_get-Sound :
      AllFit types locals
      → get_elem? types i ≡ some t
      → Sound (λ v. Fits v.type t) (lookup Error.local_index locals i)
  local_get-Sound a h =
      let (v, found, f) = lookup-AllFit types locals i t a h in
      Sound-ok _ v (lookup-Sound Error.local_index locals i v found) f

  pub set_local-Sound :
      (v : Value)
      → AllFit types locals
      → get_elem? types i ≡ some t
      → Fits v.type t
      → Sound (AllFit types) (set_local locals i v)
  unfolding set_local
  set_local-Sound v a h f =
      Sound-bind (lookup Error.local_index locals i) _ (local_get-Sound a h) (λ old g.
        rw (Fits-matches v.type old.type t f g)
          (Sound-ok _ _ refl (set_elem-AllFit types locals i t v a h f)))

module _ (m : Module) (s : Machine) (index : ℕ) (g : GlobalType) (has : HasGlobal s index g) where
  pub global_get-Sound : Agrees m s → Sound (λ v. Fits v.type g.type) (global_get s index false)
  unfolding global_get global_inst
  global_get-Sound a =
      let (p, found, t, mut) = has in
      Sound-ok _ (s.global_at p).value (ground (arith, found))
        (subst (Fits (s.global_at p).value.type) t (a.global_values p))

  pub global_set-Sound :
      (v : Value)
      → g.mutable ≡ true
      → Fits v.type g.type
      → Agrees m s
      → Sound (Agrees m) (global_set s index v)
  unfolding global_inst
  global_set-Sound v mutable f a =
      let (p, found, t, mut) = has in
      let fits = subst (Fits v.type) (sym t) f in
      let s' = set_global s p (with_value (s.global_at p) v) in
      Sound-ok _ s'
        ((global_set_iff s index v s').1 (p, ground (arith, found), mut ∙ mutable, fits, refl))
        (set_global-Agrees m s p v a fits)
