-- ===== src/Soundness/Matching.antt =====
-- The state of internal/validate/validate.go before an instruction against the executor of
-- internal/vm/execute.go before it, in code that can be reached.
use mathlib.Core.Path.{subst}
use watgo.Common.{ℕ, ◌≡◌, Bool, true, List, ◌∷◌, ok, some, get_elem?}
use watgo.Common.{Result, arith}
use watgo.Wasmir.Instr.{Instr}
use watgo.Validate.Values.{Checked}
use watgo.Validate.Operands.{State, Hints, Context, Diag, unary_operand, binary_operands}
use watgo.Validate.Operands.{ternary_operands}
use watgo.Validate.Plain.{check_plain}
use watgo.Validate.Instructions.{declared}
use watgo.Vm.Value.{AllFit, Error}
use watgo.Vm.State.{Machine}
use watgo.Vm.Operands.{Stack}
use watgo.Vm.Execute.{Executor, with_stack, with_machine, step_plain}
use watgo.Soundness.Outcome.{Sound}
use watgo.Soundness.Stacks.{Typed}
use watgo.Soundness.Checks.{Reachable, unary_operand-eq, binary_operands-eq, ternary_operands-eq}
use watgo.Soundness.Machines.{Agrees}

-- The executor's operands have the types of the value stack, one for each, its locals have their
-- declared types, and its machine agrees with the module.
pub record Matches (ctx : Context) (st : State) (x : Executor) : Type 0 where
  pub reachable : Reachable st
  pub stack : Typed x.stack st.stack
  pub locals : AllFit ctx.locals x.locals
  pub machine : Agrees ctx.module_ x.machine

pub declared-eq :
    {A : Type 0} (xs : List A) (i : ℕ) (a : A) → declared xs i ≡ ok a → get_elem? xs i ≡ some a
declared-eq xs i a h = ground arith

-- An accepted instruction does not go wrong.
abbrev pub Safe : Context → Hints → State → State → Executor → Instr → Type 0
Safe ctx hint st st' x ins =
    check_plain ctx hint ins st ≡ ok st' → Sound (Matches ctx st') (step_plain ins x)

-- The state that the check ends with is the one that it gives.
pub ends :
    {ctx : Context} {st' : State} {r : Result Error Executor} (end : State)
    → ◌≡◌ {A = Result Diag State} (ok end) (ok st')
    → Sound (Matches ctx end) r
    → Sound (Matches ctx st') r
ends {ctx} {st'} {r} end h s =
    let same : end ≡ st' = cc in subst (λ t. Sound (Matches ctx t) r) same s

module _ {ctx : Context} {st : State} {x : Executor} (m : Matches ctx st x) where
  pub restacked :
      (cs : List Checked) (stack : Stack)
      → Typed stack cs
      → Matches ctx (record st { stack = cs }) (with_stack x stack)
  restacked cs stack t = record {
    reachable = m.reachable;
    stack = t;
    locals = m.locals;
    machine = m.machine;
  }

  pub rewritten :
      (cs : List Checked) (stack : Stack) (s : Machine)
      → Typed stack cs
      → Agrees ctx.module_ s
      → Matches ctx (record st { stack = cs }) (with_machine x stack s)
  rewritten cs stack s t a = record {
    reachable = m.reachable;
    stack = t;
    locals = m.locals;
    machine = a;
  }

  pub operand :
      (hint : Hints) (test : Checked → Bool) (c : Checked) (rest : List Checked)
      → unary_operand st hint test ≡ ok (c, rest)
      → Typed x.stack (c ∷ rest) × (test c ≡ true)
  operand hint test c rest h =
      let (e, p) = unary_operand-eq st hint test c rest m.reachable h in
      (subst (Typed x.stack) e m.stack, p)

  pub operands :
      (hint : Hints) (top second : Checked → Bool) (rest : List Checked)
      → binary_operands st hint top second ≡ ok rest
      → (c2 c1 : Checked) × Typed x.stack (c2 ∷ c1 ∷ rest) × (top c2 ≡ true) × (second c1 ≡ true)
  operands hint top second rest h =
      let (c2, c1, e, p, q) = binary_operands-eq st hint top second rest m.reachable h in
      (c2, c1, subst (Typed x.stack) e m.stack, p, q)

  pub three_operands :
      (hint : Hints) (top second third : Checked → Bool) (rest : List Checked)
      → ternary_operands st hint top second third ≡ ok rest
      → (c3 c2 c1 : Checked) × Typed x.stack (c3 ∷ c2 ∷ c1 ∷ rest)
        × (top c3 ≡ true)
        × (second c2 ≡ true)
        × (third c1 ≡ true)
  three_operands hint top second third rest h =
      let (c3, c2, c1, e, p, q, r) =
        ternary_operands-eq st hint top second third rest m.reachable h in
      (c3, c2, c1, subst (Typed x.stack) e m.stack, p, q, r)
