-- ===== src/Soundness/Select.antt =====
-- internal/vm/execute.go: the two forms of `select` on operands of the validator's types.
use mathlib.Core.Path.{subst}
use watgo.Common.{ℕ, ◌≡◌, inl, inr, refl, sym, ap, ◌∙◌, arith, Bool, true, false, not, ◌==◌}
use watgo.Common.{List, ◌∷◌, ok, if◌then◌else◌}
use watgo.Wasmir.{ValueType, value_type_i32, is_ref, Module}
use watgo.Wasmir.Equality.{same_value_type, same_value_type-eq, same_value_type_self}
use watgo.Validate.Values.{Checked, known, same_validated_value, matches_expected}
use watgo.Validate.Values.{matches_gc_expected, matches_ref_type}
use watgo.Validate.Operands.{Context, has_type, expected}
use watgo.Validate.Instructions.{select_value}
use watgo.Vm.Value.{Value, Fits, runtime_type_matches}
use watgo.Vm.Operands.{Stack, pop, pop_i32}
use watgo.Vm.Evaluate.{eval_select, eval_typed_select, set_type}
use watgo.Soundness.Outcome.{Sound, Sound-bind, Sound-ok}
use watgo.Soundness.Stacks.{Typed, Known, Popped, pop-Sound, pop_i32-Sound}

matches_ref_type-Fits :
    (m : Module) (sub : ℕ → ℕ → Bool) (got want : ValueType)
    → matches_ref_type m sub got want ≡ true
    → Fits got want
unfolding matches_ref_type
matches_ref_type-Fits m sub got want h = ground (arith, same_value_type-eq got want)

matches_gc_expected-Fits :
    (m : Module) (sub : ℕ → ℕ → Bool) (got want : ValueType)
    → matches_gc_expected m sub got want ≡ true
    → Fits got want
unfolding matches_gc_expected
matches_gc_expected-Fits m sub got want h =
    ground (arith, same_value_type-eq got want, matches_ref_type-Fits m sub got want)

fits_trans : (a b c : ValueType) → Fits a b → Fits b c → Fits a c
fits_trans a b c (inl e) g = subst (λ t. Fits t c) (sym e) g
fits_trans a b c (inr r) (inl e) = inr (r.0, ap is_ref (sym e) ∙ r.1)
fits_trans a b c (inr r) (inr q) = inr (r.0, q.1)

-- A value whose type the validator has found to match an expected one fits that one.
pub expected-Fits :
    (ctx : Context) (v : Value) (c : Checked) (want : ValueType)
    → Known v c
    → expected ctx want c ≡ true
    → Fits v.type want
unfolding expected matches_expected
expected-Fits ctx v c want (k, f) h =
    let matched : matches_gc_expected ctx.module_ ctx.is_subtype c.type want ≡ true = rw k at h in
    fits_trans v.type c.type want f (matches_gc_expected-Fits _ _ c.type want matched)

Fits-runtime_type_matches :
    (got want : ValueType) → Fits got want → runtime_type_matches got want ≡ true
unfolding runtime_type_matches
Fits-runtime_type_matches got want f = ground (arith, same_value_type_self want)

-- An untyped `select` is accepted on two values of one type, which is its result's.
select_value-eq :
    (u v : Value) (c1 c2 c : Checked)
    → Known u c1
    → Known v c2
    → select_value c1 c2 ≡ ok c
    → (c1 ≡ c) × (u.type ≡ v.type) × Known v c
unfolding select_value same_validated_value
select_value-eq u v c1 c2 c (k, f) (l, g) h =
    let facts : (same_value_type c1.type c2.type ≡ true)
        × (is_ref c1.type ≡ false)
        × (is_ref c2.type ≡ false)
        × (c1 ≡ c) =
      ground (arith, k, l, h) in
    let (same, p, q, e) = facts in
    let types = same_value_type-eq c1.type c2.type same in
    let left : u.type ≡ c1.type = ground (arith, p, f) in
    let right : v.type ≡ c2.type = ground (arith, q, g) in
    (e, left ∙ types ∙ sym right, subst (Known v) e (k, inl (right ∙ sym types)))

typed_value :
    (b : Bool) (u v : Value) (t : ValueType) → (if b then set_type u t else set_type v t).type ≡ t
typed_value true u v t = refl
typed_value false u v t = refl

module _ (stack : Stack) (c3 c2 c1 : Checked) (cs : List Checked) where
  pub eval_select-Sound :
      (c : Checked)
      → has_type value_type_i32 c3 ≡ true
      → select_value c1 c2 ≡ ok c
      → Typed stack (c3 ∷ c2 ∷ c1 ∷ cs)
      → Sound (Popped c cs) (eval_select stack)
  unfolding eval_select
  eval_select-Sound c h s typed =
      Sound-bind (pop_i32 stack) _ (pop_i32-Sound stack c3 (c2 ∷ c1 ∷ cs) h typed) (λ (n, below) t.
        Sound-bind (pop below) _ (pop-Sound below c2 (c1 ∷ cs) t) (λ (v, under) (l, t').
          Sound-bind (pop under) _ (pop-Sound under c1 cs t') (λ (u, rest) (k, t'').
            let (same, types, known_v) = select_value-eq u v c1 c2 c k l s in
            let test : same_value_type u.type v.type ≡ true =
              ap (λ x. same_value_type x v.type) types ∙ same_value_type_self v.type in
            rw (test) (
              Sound-ok _ _ refl
                (either (not (n == 0)) u v c (subst (Known u) same k) known_v, t'')))))
    where
      either :
          (b : Bool) (u v : Value) (c : Checked)
          → Known u c
          → Known v c
          → Known (if b then u else v) c
      either true u v c k l = k
      either false u v c k l = l

  pub eval_typed_select-Sound :
      (ctx : Context) (want : ValueType)
      → has_type value_type_i32 c3 ≡ true
      → expected ctx want c2 ≡ true
      → expected ctx want c1 ≡ true
      → Typed stack (c3 ∷ c2 ∷ c1 ∷ cs)
      → Sound (Popped (known want) cs) (eval_typed_select stack want)
  unfolding eval_typed_select
  eval_typed_select-Sound ctx want h p q typed =
      Sound-bind (pop_i32 stack) _ (pop_i32-Sound stack c3 (c2 ∷ c1 ∷ cs) h typed) (λ (n, below) t.
        Sound-bind (pop below) _ (pop-Sound below c2 (c1 ∷ cs) t) (λ (v, under) (l, t').
          Sound-bind (pop under) _ (pop-Sound under c1 cs t') (λ (u, rest) (k, t'').
            let fu = Fits-runtime_type_matches u.type want (expected-Fits ctx u c1 want k q) in
            let fv = Fits-runtime_type_matches v.type want (expected-Fits ctx v c2 want l p) in
            rw (fu, fv)
              (Sound-ok _ _ refl ((refl, inl (typed_value (not (n == 0)) u v want)), t'')))))
