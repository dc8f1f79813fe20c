-- ===== src/Vm/Globals.antt =====
-- internal/vm/instance.go: globals, and their reads and writes through an instance.
use watgo.Common.{ℕ, ◌≡◌, ◌↔◌, refl, ap, ◌∙◌, arith, Bool, true, false, ◌&&◌, not, [], ◌∷◌}
use watgo.Common.{Result, ok, ◌>>=◌, ◌>>◌, guard, guard-eq-ok, >>=-ok}
use watgo.Wasmir.{ValueType}
use watgo.Vm.Value.{Error, Value, Fits, check_args, check_results, check_args_iff}
use watgo.Vm.State.{Machine, Global, global_inst, put}

unfoldable pub new_global : ValueType → Bool → Value → Result Error Global
new_global type mutable value = do
  check_results (type ∷ []) (value ∷ [])
  ok (record { type = type; mutable = mutable; value = value })

unfoldable pub global_get : Machine → ℕ → Bool → Result Error Value
global_get s index const_expr = do
  p ← global_inst s index
  guard (not (const_expr && (s.global_at p).mutable)) Error.global_mutable
  ok (s.global_at p).value

abbrev pub with_value : Global → Value → Global
with_value g value = record g { value = value }

-- `Global.Set`.
unfoldable pub set_value : Global → Value → Result Error Global
set_value g value = do
  guard g.mutable Error.global_immutable
  check_args (g.type ∷ []) (value ∷ [])
  ok (with_value g value)

abbrev pub set_global : Machine → ℕ → Global → Machine
set_global s p g = record s { global_at = put s.global_at p g }

unfoldable pub global_set : Machine → ℕ → Value → Result Error Machine
global_set s index value = do
  p ← global_inst s index
  guard (s.global_at p).mutable Error.global_immutable
  g ← set_value (s.global_at p) value
  ok (set_global s p g)

set_value_iff :
    (g g' : Global) (value : Value)
    → (set_value g value ≡ ok g')
      ↔ ((g.mutable ≡ true) × Fits value.type g.type × (g' ≡ with_value g value))
unfolding set_value
set_value_iff g g' value =
    let checked = (check_args_iff (g.type ∷ []) (value ∷ [])).0 in
    (
      λ h.
          let (_, h₁, h₂) = >>=-ok (guard g.mutable _) _ h in
          let (_, h₃, h₄) = >>=-ok (check_args (g.type ∷ []) (value ∷ [])) _ h₂ in
          let same : g' ≡ with_value g value = cc in
          (guard-eq-ok g.mutable _ h₁, (checked.0 h₃).0, same),
      λ (m, f, e).
          let open_to = ap (λ b. guard b Error.global_immutable) m in
          rw (open_to, checked.1 (f, tt), e) refl,
    )

-- A `global.set` succeeds exactly for a mutable global that the value fits, and then it changes
-- the value of that global and of no other.
pub global_set_iff :
    (s : Machine) (index : ℕ) (value : Value) (s' : Machine)
    → (global_set s index value ≡ ok s') ↔ (
        (p : ℕ) × (global_inst s index ≡ ok p)
        × ((s.global_at p).mutable ≡ true)
        × Fits value.type (s.global_at p).type
        × (s' ≡ set_global s p (with_value (s.global_at p) value)))
unfolding global_set
global_set_iff s index value s' = (
  λ h.
      let (p, h₁, h₂) = >>=-ok (global_inst s index) _ h in
      let (_, h₃, h₄) = >>=-ok (guard (s.global_at p).mutable _) _ h₂ in
      let (g, h₅, h₆) = >>=-ok (set_value (s.global_at p) value) _ h₄ in
      let (m, f, e) = (set_value_iff (s.global_at p) g value).0 h₅ in
      let same : s' ≡ set_global s p g = cc in (p, h₁, m, f, same ∙ ap (set_global s p) e),
  λ (p, h, m, f, e).
      let set =
        (set_value_iff (s.global_at p) (with_value (s.global_at p) value) value).1 (m, f, refl) in
      let open_to = ap (λ b. guard b Error.global_immutable) m in rw (h, open_to, set, e) refl,
)

global_inst-set_global :
    (s : Machine) (index p : ℕ) (g : Global)
    → global_inst (set_global s p g) index ≡ global_inst s index
unfolding global_inst
global_inst-set_global s index p g = refl

-- After a `global.set`, a `global.get` of the same global gives the value set.
pub global_get-global_set :
    (s : Machine) (index : ℕ) (value : Value) (s' : Machine)
    → global_set s index value ≡ ok s'
    → global_get s' index false ≡ ok value
unfolding global_get
global_get-global_set s index value s' h =
    let (p, h₁, m, f, e) = (global_set_iff s index value s').0 h in
    let g = with_value (s.global_at p) value in
    rw (e, global_inst-set_global s index p g, h₁) (ground arith)
