-- ===== src/Soundness/Cases/Numbers.antt =====
-- internal/validate/validate.go and internal/vm/execute.go: instructions of the operand stack, the
-- locals and the globals.
use mathlib.Core.Path.{subst}
use watgo.Common.{ℕ, ◌≡◌, inl, refl, ap, true, false, List, ◌∷◌, ok}
use watgo.Common.{>>=-ok, guard-eq-ok, guard, Result, ◌>>=◌}
use watgo.Wasmir.{ValueType, value_type_i32}
use watgo.Wasmir.Instr.{Instr, Width, BinaryOp, CompareOp, UnaryOp}
use watgo.Validate.Values.{Checked, known, valid_module_value_type}
use watgo.Validate.Operands.{State, Hints, Context, unary_operand, binary_operands}
use watgo.Validate.Operands.{ternary_operands, has_type, any_value}
use watgo.Validate.Operands.{ensure_operands, expect}
use watgo.Validate.Plain.{check_plain}
use watgo.Validate.Signatures.Rows.{expected-has_type}
use watgo.Validate.Numeric.{TakesOne, TakesTwo, nop-keeps, binary-TakesTwo, compare-TakesTwo}
use watgo.Validate.Numeric.{unary-enabled, unary-TakesOne, eqz-TakesOne, wrap-TakesOne}
use watgo.Validate.Numeric.{extend_s-TakesOne, extend_u-TakesOne}
use watgo.Validate.Instructions.{declared, select_value, is_initialized, width_type}
use watgo.Validate.Instructions.{initialize}
use watgo.Vm.Operands.Calls.{pop-push}
use watgo.Vm.Value.{Value, AllFit, Error, zero_value}
use watgo.Vm.State.{lookup}
use watgo.Vm.Operands.{Stack, push, pop}
use watgo.Vm.Globals.{global_get, global_set}
use watgo.Vm.Evaluate.{
  step_numeric, pop_width, push_width, ref_is_null, eval_select, eval_typed_select,
}
use watgo.Vm.Execute.{Executor, step_plain, set_local}
use watgo.Soundness.Outcome.{Sound, Sound-bind, Sound-ok}
use watgo.Soundness.Stacks.{Typed, push-Typed, pop-Sound, Known}
use watgo.Soundness.Checks.{ensure_operands-eq, expect-eq}
use watgo.Soundness.Numeric.{binary-Sound, compare-Sound, unary-Sound, convert-Sound}
use watgo.Soundness.Numeric.{ref_is_null-Sound, push_width-Typed}
use watgo.Soundness.Select.{eval_select-Sound, eval_typed_select-Sound, expected-Fits}
use watgo.Soundness.Variables.{local_get-Sound, set_local-Sound, global_get-Sound, global_set-Sound}
use watgo.Soundness.Matching.{Matches, Safe, ends, restacked, rewritten, operand, operands}
use watgo.Soundness.Matching.{three_operands, declared-eq}

module _ (ctx : Context) (hint : Hints) (st st' : State) (x : Executor) (m : Matches ctx st x) where
  abbrev Holds : Instr → Type 0
  Holds = Safe ctx hint st st' x

  -- A numeric instruction whose result the operand stack has.
  numeric :
      (r : Result Error Stack) (cs : List Checked)
      → Sound (λ out. Typed out cs) r
      → Sound
          (Matches ctx (record st { stack = cs }))
          (r >>= λ stack. ok (record x { stack = stack }))
  numeric r cs s = Sound-bind r _ s (λ stack t. Sound-ok _ _ refl (restacked m cs stack t))

  pub nop-Safe : Holds Instr.nop
  unfolding step_plain
  nop-Safe h = ends st (ap ok (nop-keeps ctx hint st st' h)) (Sound-ok _ x refl m)

  pub const-Safe : (w : Width) (n : ℕ) → Holds (Instr.const w n)
  unfolding check_plain step_plain step_numeric
  const-Safe Width.i32 n h =
      ends _ h
        (numeric _ _ (Sound-ok _ _ refl (push_width-Typed Width.i32 x.stack _ st.stack m.stack)))
  const-Safe Width.i64 n h =
      ends _ h
        (numeric _ _ (Sound-ok _ _ refl (push_width-Typed Width.i64 x.stack _ st.stack m.stack)))

  -- Operands that match a number type in the signature have that type.
  one_number :
      (from to : Width) (r : Result Error Stack)
      → TakesOne ctx hint st st' from to
      → ((c : Checked) (rest : List Checked)
          → has_type (width_type from) c ≡ true
          → Typed x.stack (c ∷ rest)
          → Sound (λ out. Typed out (known (width_type to) ∷ rest)) r)
      → Sound (Matches ctx st') (r >>= λ stack. ok (record x { stack = stack }))
  one_number from to r h f =
      let ((c, rest), taken, e) = >>=-ok (unary_operand st hint _) _ h in
      let (t, p) = operand m hint _ c rest taken in
      ends _ e (numeric r _ (f c rest (expected-has_type ctx from c p) t))

  two_numbers :
      (from to : Width) (r : Result Error Stack)
      → TakesTwo ctx hint st st' from to
      → ((c2 c1 : Checked) (rest : List Checked)
          → has_type (width_type from) c2 ≡ true
          → has_type (width_type from) c1 ≡ true
          → Typed x.stack (c2 ∷ c1 ∷ rest)
          → Sound (λ out. Typed out (known (width_type to) ∷ rest)) r)
      → Sound (Matches ctx st') (r >>= λ stack. ok (record x { stack = stack }))
  two_numbers from to r h f =
      let (rest, taken, e) = >>=-ok (binary_operands st hint _ _) _ h in
      let (c2, c1, t, p, q) = operands m hint _ _ rest taken in
      ends _ e (
        numeric r _
          (f c2 c1 rest (expected-has_type ctx from c2 p) (expected-has_type ctx from c1 q) t))

  pub binary-Safe : (w : Width) (op : BinaryOp) → Holds (Instr.binary w op)
  unfolding step_plain
  binary-Safe w op h =
      two_numbers w w _ (binary-TakesTwo ctx hint st st' w op h)
        (λ c2 c1 rest p q t. binary-Sound x.stack rest w op c2 c1 p q t)

  pub compare-Safe : (w : Width) (op : CompareOp) → Holds (Instr.compare w op)
  unfolding step_plain
  compare-Safe w op h =
      two_numbers w Width.i32 _ (compare-TakesTwo ctx hint st st' w op h)
        (λ c2 c1 rest p q t. compare-Sound x.stack rest w op c2 c1 p q t)

  pub unary-Safe : (w : Width) (op : UnaryOp) → Holds (Instr.unary w op)
  unfolding step_plain
  unary-Safe w op h =
      one_number w w _ (unary-TakesOne ctx hint st st' w op h)
        (λ c rest p t. unary-Sound x.stack rest w op c (unary-enabled ctx hint st st' w op h) p t)

  -- An instruction that pops a number of one width and pushes one of another.
  converts :
      (from to : Width) (f : ℕ → ℕ)
      → TakesOne ctx hint st st' from to
      → Sound (Matches ctx st') (
          (pop_width from x.stack >>= λ (n, rest). ok (push_width to rest (f n))) >>= λ stack.
          ok (record x { stack = stack }))
  converts from to f h =
      one_number from to _ h (λ c rest p t. convert-Sound x.stack rest from to c f p t)

  pub eqz-Safe : (w : Width) → Holds (Instr.eqz w)
  unfolding step_plain step_numeric
  eqz-Safe Width.i32 h = converts Width.i32 Width.i32 _ (eqz-TakesOne ctx hint st st' Width.i32 h)
  eqz-Safe Width.i64 h = converts Width.i64 Width.i32 _ (eqz-TakesOne ctx hint st st' Width.i64 h)

  pub wrap-Safe : Holds Instr.i32_wrap_i64
  unfolding step_plain step_numeric
  wrap-Safe h = converts Width.i64 Width.i32 _ (wrap-TakesOne ctx hint st st' h)

  pub extend_s-Safe : Holds Instr.i64_extend_i32_s
  unfolding step_plain step_numeric
  extend_s-Safe h = converts Width.i32 Width.i64 _ (extend_s-TakesOne ctx hint st st' h)

  pub extend_u-Safe : Holds Instr.i64_extend_i32_u
  unfolding step_plain step_numeric
  extend_u-Safe h = converts Width.i32 Width.i64 (λ n. n) (extend_u-TakesOne ctx hint st st' h)

  pub drop-Safe : Holds Instr.drop
  unfolding check_plain step_plain
  drop-Safe h =
      let ((c, rest), taken, e) = >>=-ok (unary_operand st hint _) _ h in
      let (t, p) = operand m hint _ c rest taken in
      ends _ e (
        Sound-bind (pop x.stack) _ (pop-Sound x.stack c rest t)
          (λ (v, below) (k, u). Sound-ok _ _ refl (restacked m rest below u)))

  -- A selected value on the operand stack.
  selected :
      (r : Result Error (Value × Stack)) (c : Checked) (cs : List Checked)
      → Sound (λ (v, rest). Known v c × Typed rest cs) r
      → Sound
          (Matches ctx (record st { stack = c ∷ cs }))
          (r >>= λ (v, rest). ok (record x { stack = push rest v }))
  selected r c cs s = Sound-bind r _ s (λ (v, rest) (k, t).
      Sound-ok _ _ refl (restacked m (c ∷ cs) (push rest v) (v, rest, pop-push rest v, k, t)))

  pub select-Safe : Holds Instr.select
  unfolding check_plain step_plain
  select-Safe h =
      let (stack, ensured, h₁) = >>=-ok (ensure_operands st 3 hint) _ h in
      let ((c3, below), e₁, h₂) = >>=-ok (expect (has_type value_type_i32) stack) _ h₁ in
      let ((c2, under), e₂, h₃) = >>=-ok (expect any_value below) _ h₂ in
      let ((c1, rest), e₃, h₄) = >>=-ok (expect any_value under) _ h₃ in
      let (c, chosen, e) = >>=-ok (select_value c1 c2) _ h₄ in
      let same = ensure_operands-eq st 3 hint stack m.reachable ensured in
      let (s₁, p) = expect-eq _ stack below c3 e₁ in
      let (s₂, _) = expect-eq any_value below under c2 e₂ in
      let (s₃, _) = expect-eq any_value under rest c1 e₃ in
      let stands : st.stack ≡ c3 ∷ c2 ∷ c1 ∷ rest = cc in
      ends _ e (
        selected (eval_select x.stack) c rest (
          eval_select-Sound x.stack c3 c2 c1 rest c p chosen
            (subst (Typed x.stack) stands m.stack)))

  pub select_typed-Safe : (t : ValueType) → Holds (Instr.select_typed t)
  unfolding check_plain step_plain
  select_typed-Safe want h =
      let (rest, taken, h₁) = >>=-ok (ternary_operands st hint _ _ _) _ h in
      let (_, valid, e) = >>=-ok (guard (valid_module_value_type ctx.module_ want) _) _ h₁ in
      let (c3, c2, c1, t, p, q, r) = three_operands m hint _ _ _ rest taken in
      ends _ e (
        selected (eval_typed_select x.stack want) (known want) rest
          (eval_typed_select-Sound x.stack c3 c2 c1 rest ctx want p q r t))

  pub ref_null-Safe : (t : ValueType) → Holds (Instr.ref_null t)
  unfolding check_plain step_plain
  ref_null-Safe t h = ends _ h (
      Sound-ok _ _ refl
        (restacked m _ _ (push-Typed x.stack (zero_value t) st.stack t (inl refl) m.stack)))

  pub ref_is_null-Safe : Holds Instr.ref_is_null
  unfolding check_plain step_plain
  ref_is_null-Safe h =
      let ((c, rest), taken, e) = >>=-ok (unary_operand st hint _) _ h in
      let (t, p) = operand m hint _ c rest taken in
      ends _ e (
        Sound-bind (ref_is_null x.stack) _ (ref_is_null-Sound x.stack rest c p t)
          (λ stack u. Sound-ok _ _ refl (restacked m _ stack u)))

  pub local_get-Safe : (i : ℕ) → Holds (Instr.local_get i)
  unfolding check_plain step_plain
  local_get-Safe i h =
      let (t, there, h₁) = >>=-ok (declared ctx.locals i) _ h in
      let (_, init, e) = >>=-ok (guard (is_initialized st i) _) _ h₁ in
      let found = declared-eq ctx.locals i t there in
      ends _ e (
        Sound-bind (lookup Error.local_index x.locals i) _
          (local_get-Sound ctx.locals x.locals i t m.locals found)
          (λ v f. Sound-ok _ _ refl (restacked m _ _ (push-Typed x.stack v st.stack t f m.stack))))

  -- After a local has been written, and initialized for the validator.
  relocated :
      (i : ℕ) (cs : List Checked) (stack : Stack) (locals : List Value)
      → Typed stack cs
      → AllFit ctx.locals locals
      → Matches ctx
          (record (initialize st i) { stack = cs })
          (record x { stack = stack; locals = locals })
  relocated i cs stack locals t a = record {
    reachable = m.reachable;
    stack = t;
    locals = a;
    machine = m.machine;
  }

  pub local_set-Safe : (i : ℕ) → Holds (Instr.local_set i)
  unfolding check_plain step_plain
  local_set-Safe i h =
      let (want, there, h₁) = >>=-ok (declared ctx.locals i) _ h in
      let ((c, rest), taken, e) = >>=-ok (unary_operand st hint _) _ h₁ in
      let (t, p) = operand m hint _ c rest taken in
      let found = declared-eq ctx.locals i want there in
      ends _ e (
        Sound-bind (pop x.stack) _ (pop-Sound x.stack c rest t) (λ (v, below) (k, u).
          Sound-bind (set_local x.locals i v) _
            (set_local-Sound ctx.locals x.locals i want v m.locals found
              (expected-Fits ctx v c want k p))
            (λ locals a. Sound-ok _ _ refl (relocated i rest below locals u a))))

  pub local_tee-Safe : (i : ℕ) → Holds (Instr.local_tee i)
  unfolding check_plain step_plain
  local_tee-Safe i h =
      let (want, there, h₁) = >>=-ok (declared ctx.locals i) _ h in
      let ((c, rest), taken, e) = >>=-ok (unary_operand st hint _) _ h₁ in
      let (t, p) = operand m hint _ c rest taken in
      let found = declared-eq ctx.locals i want there in
      ends _ e (
        Sound-bind (pop x.stack) _ (pop-Sound x.stack c rest t) (λ (v, below) (k, u).
          let fits = expected-Fits ctx v c want k p in
          Sound-bind (set_local x.locals i v) _
            (set_local-Sound ctx.locals x.locals i want v m.locals found fits)
            (λ locals a.
              Sound-ok _ _ refl (relocated i _ _ locals (push-Typed below v rest want fits u) a))))

  pub global_get-Safe : (i : ℕ) → Holds (Instr.global_get i)
  unfolding check_plain step_plain
  global_get-Safe i h =
      let (g, there, e) = >>=-ok (declared ctx.module_.globals i) _ h in
      let has = m.machine.globals i g (declared-eq ctx.module_.globals i g there) in
      ends _ e (
        Sound-bind (global_get x.machine i false) _
          (global_get-Sound ctx.module_ x.machine i g has m.machine)
          (λ v f.
            Sound-ok _ _ refl (restacked m _ _ (push-Typed x.stack v st.stack g.type f m.stack))))

  pub global_set-Safe : (i : ℕ) → Holds (Instr.global_set i)
  unfolding check_plain step_plain
  global_set-Safe i h =
      let (g, there, h₁) = >>=-ok (declared ctx.module_.globals i) _ h in
      let (_, mutable, h₂) = >>=-ok (guard g.mutable _) _ h₁ in
      let ((c, rest), taken, e) = >>=-ok (unary_operand st hint _) _ h₂ in
      let (t, p) = operand m hint _ c rest taken in
      let has = m.machine.globals i g (declared-eq ctx.module_.globals i g there) in
      ends _ e (
        Sound-bind (pop x.stack) _ (pop-Sound x.stack c rest t) (λ (v, below) (k, u).
          Sound-bind (global_set x.machine i v) _
            (global_set-Sound ctx.module_ x.machine i g has v (guard-eq-ok g.mutable _ mutable)
              (expected-Fits ctx v c g.type k p) m.machine)
            (λ s a. Sound-ok _ _ refl (rewritten m rest below s u a))))
