-- ===== src/Validate/Discipline.antt =====
-- internal/validate/validate.go: the frame heights through the instructions that leave the control
-- stack as it is.
use mathlib.Core.Path.{subst}
use watgo.Common.{◌≤◌, ◌≡◌, refl, sym, ap, arith, Bool}
use watgo.Common.{List, ◌∷◌, Result, ok, ◌>>=◌, >>=-ok, guard, length}
use watgo.Wasmir.{value_type_i32}
use watgo.Wasmir.Instr.{Instr}
use watgo.Validate.Values.{memory_address_type, table_address_type}
use watgo.Validate.Values.{Checked, known, valid_module_value_type}
use watgo.Validate.Operands.{Diag, Context, State, Hints, expect, ensure_operands}
use watgo.Validate.Operands.{
  unary_operand, binary_operands, ternary_operands, has_type, any_value, expected,
}
use watgo.Validate.Instructions.{
  declared, in_range, is_initialized, has_load, has_store, init_elements,
}
use watgo.Validate.Plain.{check_plain}
use watgo.Validate.Numeric.{nop-keeps, binary-TakesTwo, compare-TakesTwo, unary-TakesOne}
use watgo.Validate.Numeric.{eqz-TakesOne, wrap-TakesOne, extend_s-TakesOne, extend_u-TakesOne}
use watgo.Validate.Instructions.{width_type, initialize, select_value}
use watgo.Validate.Heights.{IsWellFormed, Heights, Heights-entry, entry, entry-Heights}
use watgo.Validate.Heights.{unary_operand-height, binary_operands-height, ternary_operands-height}
use watgo.Validate.Heights.{ensure_operands-height, expect-length}

-- The control stack is the old one, and the value stack stands at its innermost entry or above.
abbrev pub Keeps : State → State → Type 0
Keeps st st' = (st'.control_stack ≡ st.control_stack) × IsWellFormed st'

module _ (hint : Hints) (st st' : State) (w : IsWellFormed st) where
  stands :
      (end : State)
      → end.control_stack ≡ st.control_stack
      → entry st.control_stack ≤ length end.stack
      → ◌≡◌ {A = Result Diag State} (ok end) (ok st')
      → Keeps st st'
  stands end same le h =
      let is : end ≡ st' = cc in
      let high = Heights-entry st.control_stack (length st.stack) (length end.stack) w le in
      subst (Keeps st) is (same, subst (λ fs. Heights fs (length end.stack)) (sym same) high)

  skip :
      {A : Type 0} (m : Result Diag A) {next : A → Result Diag State}
      → (m >>= next) ≡ ok st'
      → ((a : A) → next a ≡ ok st' → Keeps st st')
      → Keeps st st'
  skip m {next} h f = let (a, _, e) = >>=-ok m next h in f a e

  pushes :
      (end : State)
      → ◌≡◌ {A = Result Diag State} (ok end) (ok st')
      → end.control_stack ≡ st.control_stack
      → length st.stack ≤ length end.stack
      → Keeps st st'
  pushes end h same le =
      let high = entry-Heights st.control_stack (length st.stack) w in
      stands end same (omega (arith, high, le)) h

  takes_one :
      (test : Checked → Bool) (end : Checked → List Checked → State)
      → (unary_operand st hint test >>= λ (c, rest). ok (end c rest)) ≡ ok st'
      → ((c : Checked) (rest : List Checked)
          → ((end c rest).control_stack ≡ st.control_stack)
            × (length rest ≤ length (end c rest).stack))
      → Keeps st st'
  takes_one test end h f =
      let ((c, rest), taken, e) = >>=-ok (unary_operand st hint test) _ h in
      let high = unary_operand-height st hint rest w test c taken in
      let (same, le) = f c rest in stands (end c rest) same (omega (arith, high, le)) e

  takes_two :
      (top second : Checked → Bool) (end : List Checked → State)
      → (binary_operands st hint top second >>= λ rest. ok (end rest)) ≡ ok st'
      → ((rest : List Checked)
          → ((end rest).control_stack ≡ st.control_stack) × (length rest ≤ length (end rest).stack))
      → Keeps st st'
  takes_two top second end h f =
      let (rest, taken, e) = >>=-ok (binary_operands st hint top second) _ h in
      let high = binary_operands-height st hint rest w top second taken in
      let (same, le) = f rest in stands (end rest) same (omega (arith, high, le)) e

  takes_three :
      (top second third : Checked → Bool) (end : List Checked → State)
      → (ternary_operands st hint top second third >>= λ rest. ok (end rest)) ≡ ok st'
      → ((rest : List Checked)
          → ((end rest).control_stack ≡ st.control_stack) × (length rest ≤ length (end rest).stack))
      → Keeps st st'
  takes_three top second third end h f =
      let (rest, taken, e) = >>=-ok (ternary_operands st hint top second third) _ h in
      let high = ternary_operands-height st hint rest w top second third taken in
      let (same, le) = f rest in stands (end rest) same (omega (arith, high, le)) e

  takes_select :
      (ensure_operands st 3 hint >>= λ stack.
      expect (has_type value_type_i32) stack >>= λ (cond, below).
      expect any_value below >>= λ (v2, under). expect any_value under >>= λ (v1, rest).
      select_value v1 v2 >>= λ v. ok (record st { stack = v ∷ rest }))
        ≡ ok st'
      → Keeps st st'
  takes_select h =
      let (stack, ensured, h₁) = >>=-ok (ensure_operands st 3 hint) _ h in
      let ((c3, below), e₁, h₂) = >>=-ok (expect (has_type value_type_i32) stack) _ h₁ in
      let ((c2, under), e₂, h₃) = >>=-ok (expect any_value below) _ h₂ in
      let ((c1, rest), e₃, h₄) = >>=-ok (expect any_value under) _ h₃ in
      let (v, chosen, e) = >>=-ok (select_value c1 c2) _ h₄ in
      let enough = ensure_operands-height st 3 hint stack w ensured in
      let one = expect-length _ stack below c3 e₁ in
      let two = expect-length _ below under c2 e₂ in
      let three = expect-length _ under rest c1 e₃ in
      stands (record st { stack = v ∷ rest }) refl (omega (arith, enough, one, two, three)) e

-- An accepted instruction without control flow leaves the control stack as it is and the value stack
-- at the entry of the innermost frame or above, in unreachable code too.
pub check_plain-IsWellFormed :
    (ins : Instr) (ctx : Context) (hint : Hints) (st st' : State)
    → IsWellFormed st
    → check_plain ctx hint ins st ≡ ok st'
    → Keeps st st'
unfolding check_plain
check_plain-IsWellFormed Instr.nop ctx hint st st' w h =
    pushes hint st st' w st (ap ok (nop-keeps ctx hint st st' h)) refl (omega arith)
check_plain-IsWellFormed Instr.drop ctx hint st st' w h =
    takes_one hint st st' w _ _ h (λ c rest. (refl, omega arith))
check_plain-IsWellFormed Instr.select ctx hint st st' w h = takes_select hint st st' w h
check_plain-IsWellFormed (Instr.select_typed t) ctx hint st st' w h =
    let (rest, taken, h₁) = >>=-ok (ternary_operands st hint _ _ _) _ h in
    let (_, valid, e) = >>=-ok (guard (valid_module_value_type ctx.module_ t) _) _ h₁ in
    let high = ternary_operands-height st hint rest w _ _ _ taken in
    stands hint st st' w (record st { stack = known t ∷ rest }) refl (omega (arith, high)) e
check_plain-IsWellFormed Instr.i32_wrap_i64 ctx hint st st' w h =
    takes_one hint st st' w _ _ (wrap-TakesOne ctx hint st st' h) (λ c rest. (refl, omega arith))
check_plain-IsWellFormed Instr.i64_extend_i32_s ctx hint st st' w h =
    takes_one hint st st' w _ _ (extend_s-TakesOne ctx hint st st' h)
      (λ c rest. (refl, omega arith))
check_plain-IsWellFormed Instr.i64_extend_i32_u ctx hint st st' w h =
    takes_one hint st st' w _ _ (extend_u-TakesOne ctx hint st st' h)
      (λ c rest. (refl, omega arith))
check_plain-IsWellFormed Instr.ref_is_null ctx hint st st' w h =
    takes_one hint st st' w _ _ h (λ c rest. (refl, omega arith))
check_plain-IsWellFormed (Instr.ref_null t) ctx hint st st' w h =
    pushes hint st st' w _ h refl (omega arith)
check_plain-IsWellFormed (Instr.const v n) ctx hint st st' w h =
    pushes hint st st' w _ h refl (omega arith)
check_plain-IsWellFormed (Instr.local_get i) ctx hint st st' w h =
    skip hint st st' w (declared ctx.locals i) h (λ a1 e.
      skip hint st st' w (guard (is_initialized st i) _) e (λ a0 e.
        pushes hint st st' w (record st { stack = known a1 ∷ st.stack }) e refl (omega arith)))
check_plain-IsWellFormed (Instr.local_set i) ctx hint st st' w h =
    skip hint st st' w (declared ctx.locals i) h (λ a0 e.
      takes_one hint st st' w _ (λ c rest. record (initialize st i) { stack = rest }) e
        (λ c rest. (refl, omega arith)))
check_plain-IsWellFormed (Instr.local_tee i) ctx hint st st' w h =
    skip hint st st' w (declared ctx.locals i) h (λ a0 e.
      takes_one hint st st' w _ (λ c rest. record (initialize st i) { stack = known a0 ∷ rest }) e
        (λ c rest. (refl, omega arith)))
check_plain-IsWellFormed (Instr.global_get i) ctx hint st st' w h =
    skip hint st st' w (declared ctx.module_.globals i) h (λ a0 e.
      pushes hint st st' w (record st { stack = known (a0.type) ∷ st.stack }) e refl (omega arith))
check_plain-IsWellFormed (Instr.global_set i) ctx hint st st' w h =
    skip hint st st' w (declared ctx.module_.globals i) h (λ a1 e.
      skip hint st st' w (guard a1.mutable _) e (λ a0 e.
        takes_one hint st st' w _ (λ c rest. record st { stack = rest }) e
          (λ c rest. (refl, omega arith))))
check_plain-IsWellFormed (Instr.binary v op) ctx hint st st' w h =
    takes_two hint st st' w _ _ _ (binary-TakesTwo ctx hint st st' v op h)
      (λ rest. (refl, omega arith))
check_plain-IsWellFormed (Instr.compare v op) ctx hint st st' w h =
    takes_two hint st st' w _ _ _ (compare-TakesTwo ctx hint st st' v op h)
      (λ rest. (refl, omega arith))
check_plain-IsWellFormed (Instr.unary v op) ctx hint st st' w h =
    takes_one hint st st' w _ _ (unary-TakesOne ctx hint st st' v op h)
      (λ c rest. (refl, omega arith))
check_plain-IsWellFormed (Instr.eqz v) ctx hint st st' w h =
    takes_one hint st st' w _ _ (eqz-TakesOne ctx hint st st' v h) (λ c rest. (refl, omega arith))
check_plain-IsWellFormed (Instr.load v op i o) ctx hint st st' w h =
    skip hint st st' w (guard (has_load v op) _) h (λ a1 e.
      skip hint st st' w (declared ctx.module_.memories i) e (λ a0 e.
        takes_one hint st st' w _ (λ c rest. record st { stack = known (width_type v) ∷ rest }) e
          (λ c rest. (refl, omega arith))))
check_plain-IsWellFormed (Instr.store v op i o) ctx hint st st' w h =
    skip hint st st' w (guard (has_store v op) _) h (λ a1 e.
      skip hint st st' w (declared ctx.module_.memories i) e (λ a0 e.
        takes_two hint st st' w _ _ (λ rest. record st { stack = rest }) e
          (λ rest. (refl, omega arith))))
check_plain-IsWellFormed (Instr.memory_size i) ctx hint st st' w h =
    skip hint st st' w (declared ctx.module_.memories i) h (λ a0 e.
      pushes hint st st' w
        (record st { stack = known (memory_address_type ctx.module_ i) ∷ st.stack }) e refl
        (omega arith))
check_plain-IsWellFormed (Instr.memory_grow i) ctx hint st st' w h =
    skip hint st st' w (declared ctx.module_.memories i) h (λ a0 e.
      takes_one hint st st' w _
        (λ c rest. record st { stack = known (memory_address_type ctx.module_ i) ∷ rest }) e
        (λ c rest. (refl, omega arith)))
check_plain-IsWellFormed (Instr.memory_fill i) ctx hint st st' w h =
    skip hint st st' w (declared ctx.module_.memories i) h (λ a0 e.
      takes_three hint st st' w _ _ _ (λ rest. record st { stack = rest }) e
        (λ rest. (refl, omega arith)))
check_plain-IsWellFormed (Instr.data_drop i) ctx hint st st' w h =
    skip hint st st' w (in_range i ctx.module_.data_count) h
      (λ a0 e. pushes hint st st' w st e refl (omega arith))
check_plain-IsWellFormed (Instr.memory_copy i j) ctx hint st st' w h =
    skip hint st st' w (declared ctx.module_.memories i) h (λ a1 e.
      skip hint st st' w (declared ctx.module_.memories j) e (λ a0 e.
        takes_three hint st st' w _ _ _ (λ rest. record st { stack = rest }) e
          (λ rest. (refl, omega arith))))
check_plain-IsWellFormed (Instr.memory_init i j) ctx hint st st' w h =
    skip hint st st' w (declared ctx.module_.memories i) h (λ a1 e.
      skip hint st st' w (in_range j ctx.module_.data_count) e (λ a0 e.
        takes_three hint st st' w _ _ _ (λ rest. record st { stack = rest }) e
          (λ rest. (refl, omega arith))))
check_plain-IsWellFormed (Instr.table_get i) ctx hint st st' w h =
    skip hint st st' w (declared ctx.module_.tables i) h (λ a0 e.
      takes_one hint st st' w _ (λ c rest. record st { stack = known (a0.ref_type) ∷ rest }) e
        (λ c rest. (refl, omega arith)))
check_plain-IsWellFormed (Instr.table_set i) ctx hint st st' w h =
    skip hint st st' w (declared ctx.module_.tables i) h (λ a0 e.
      takes_two hint st st' w _ _ (λ rest. record st { stack = rest }) e
        (λ rest. (refl, omega arith)))
check_plain-IsWellFormed (Instr.table_size i) ctx hint st st' w h =
    skip hint st st' w (declared ctx.module_.tables i) h (λ a0 e.
      pushes hint st st' w
        (record st { stack = known (table_address_type ctx.module_ i) ∷ st.stack }) e refl
        (omega arith))
check_plain-IsWellFormed (Instr.table_grow i) ctx hint st st' w h =
    skip hint st st' w (declared ctx.module_.tables i) h (λ a0 e.
      takes_two hint st st' w _ _
        (λ rest. record st { stack = known (table_address_type ctx.module_ i) ∷ rest }) e
        (λ rest. (refl, omega arith)))
check_plain-IsWellFormed (Instr.table_fill i) ctx hint st st' w h =
    skip hint st st' w (declared ctx.module_.tables i) h (λ a0 e.
      takes_three hint st st' w _ _ _ (λ rest. record st { stack = rest }) e
        (λ rest. (refl, omega arith)))
check_plain-IsWellFormed (Instr.elem_drop i) ctx hint st st' w h =
    skip hint st st' w (declared ctx.module_.elements i) h
      (λ a0 e. pushes hint st st' w st e refl (omega arith))
check_plain-IsWellFormed (Instr.table_copy i j) ctx hint st st' w h =
    skip hint st st' w (declared ctx.module_.tables i) h (λ a2 e.
      skip hint st st' w (declared ctx.module_.tables j) e (λ a1 e.
        skip hint st st' w (guard (expected ctx a2.ref_type (known a1.ref_type)) _) e (λ a0 e.
          takes_three hint st st' w _ _ _ (λ rest. record st { stack = rest }) e
            (λ rest. (refl, omega arith)))))
check_plain-IsWellFormed (Instr.table_init i j) ctx hint st st' w h =
    skip hint st st' w (declared ctx.module_.tables i) h (λ a2 e.
      skip hint st st' w (declared ctx.module_.elements j) e (λ a1 e.
        skip hint st st' w (init_elements ctx j a2.ref_type) e (λ a0 e.
          takes_three hint st st' w _ _ _ (λ rest. record st { stack = rest }) e
            (λ rest. (refl, omega arith)))))
