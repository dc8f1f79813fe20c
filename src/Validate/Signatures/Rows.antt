-- ===== src/Validate/Signatures/Rows.antt =====
-- internal/validate/validate.go: an instruction with a signature of one or two parameters takes its
-- operands the way that the other instructions do.
use watgo.Common.{ap, List, ◌≡◌, refl, arith, true, false, ok, [], ◌∷◌, ◌>>=◌, >>=-ok}
use watgo.Wasmir.{ValueType, value_type_i32, value_type_i64, is_ref}
use watgo.Wasmir.Instr.{Width, BinaryOp, CompareOp, UnaryOp}
use watgo.Validate.Values.{Checked, matches_expected, matches_gc_expected, matches_ref_type}
use watgo.Validate.Operands.{Context, State, Hints, with_stack, ensure_operands, expect}
use watgo.Validate.Operands.{ensure_in, ensure_frame_operands, ControlFrame}
use watgo.Validate.Operands.{
  expect_all, top_first, expected, unary_operand, binary_operands, has_type,
}
use watgo.Validate.Instructions.{width_type, push_type}
use watgo.Validate.Signatures.{unary_sig, binary_sig, sig_no_op}
use watgo.Validate.Signatures.{binary_row, compare_row, unary_row, apply_fixed_stack_sig}

pub binary_row-eq :
    (w : Width) (op : BinaryOp)
    → binary_row w op ≡ binary_sig (width_type w) (width_type w) (width_type w)
binary_row-eq Width.i32 op = ground arith
binary_row-eq Width.i64 op = ground arith

pub compare_row-eq :
    (w : Width) (op : CompareOp)
    → compare_row w op ≡ binary_sig (width_type w) (width_type w) value_type_i32
compare_row-eq Width.i32 op = ground arith
compare_row-eq Width.i64 op = ground arith

pub unary_row-eq :
    (w : Width) (op : UnaryOp)
    → (unary_row w op).enabled ≡ true
    → unary_row w op ≡ unary_sig (width_type w) (width_type w)
unary_row-eq Width.i32 op h = ground (arith, h)
unary_row-eq Width.i64 op h = ground arith

number-has_type :
    (ctx : Context) (want : ValueType) (c : Checked)
    → is_ref want ≡ false
    → expected ctx want c ≡ true
    → has_type want c ≡ true
unfolding expected matches_expected matches_gc_expected matches_ref_type has_type
number-has_type ctx want c n h = ground (arith, n, h)

-- On the number types the test of a signature is `stackValueHasType`.
pub expected-has_type :
    (ctx : Context) (w : Width) (c : Checked)
    → expected ctx (width_type w) c ≡ true
    → has_type (width_type w) c ≡ true
expected-has_type ctx Width.i32 c h = number-has_type ctx value_type_i32 c refl h
expected-has_type ctx Width.i64 c h = number-has_type ctx value_type_i64 c refl h

ensure_in-nothing :
    (frames : List ControlFrame) (stack out : List Checked) (hint : Hints)
    → ensure_in frames stack 0 hint ≡ ok out
    → out ≡ stack
unfolding ensure_in ensure_frame_operands
ensure_in-nothing [] stack out hint h = ground arith
ensure_in-nothing (frame ∷ outer) stack out hint h = ground arith

ensure_nothing :
    (st : State) (hint : Hints) (out : List Checked)
    → ensure_operands st 0 hint ≡ ok out
    → out ≡ st.stack
unfolding ensure_operands
ensure_nothing st hint out h = ensure_in-nothing st.control_stack st.stack out hint h

module _ (ctx : Context) (hint : Hints) (st st' : State) where
  pub apply-nop : apply_fixed_stack_sig ctx hint sig_no_op st ≡ ok st' → st ≡ st'
  unfolding apply_fixed_stack_sig expect_all top_first
  apply-nop h =
      let (stack, e, h₁) = >>=-ok (ensure_operands st 0 hint) _ h in
      let same = ensure_nothing st hint stack e in
      let kept : with_stack st stack ≡ st = ap (with_stack st) same in cc

  pub apply-unary :
      (p r : ValueType)
      → apply_fixed_stack_sig ctx hint (unary_sig p r) st ≡ ok st'
      → (unary_operand st hint (expected ctx p) >>= λ (c, rest). ok (push_type st rest r)) ≡ ok st'
  unfolding apply_fixed_stack_sig unary_operand expect_all top_first
  apply-unary p r h =
      let (stack, e, h₁) = >>=-ok (ensure_operands st 1 hint) _ h in
      let (rest, t, h₂) = >>=-ok (expect_all ctx (p ∷ []) stack) _ h₁ in
      let ((c, last), e₁, t₁) = >>=-ok (expect (expected ctx p) stack) _ t in
      let same : last ≡ rest = cc in rw (e, e₁, same) h₂

  pub apply-binary :
      (p1 p2 r : ValueType)
      → apply_fixed_stack_sig ctx hint (binary_sig p1 p2 r) st ≡ ok st'
      → (binary_operands st hint (expected ctx p2) (expected ctx p1) >>= λ rest.
          ok (push_type st rest r))
        ≡ ok st'
  unfolding apply_fixed_stack_sig binary_operands expect_all top_first
  apply-binary p1 p2 r h =
      let (stack, e, h₁) = >>=-ok (ensure_operands st 2 hint) _ h in
      let (rest, t, h₂) = >>=-ok (expect_all ctx (p2 ∷ p1 ∷ []) stack) _ h₁ in
      let ((c2, below), e₂, t₂) = >>=-ok (expect (expected ctx p2) stack) _ t in
      let ((c1, last), e₁, t₁) = >>=-ok (expect (expected ctx p1) below) _ t₂ in
      let same : last ≡ rest = cc in rw (e, e₂, e₁, same) h₂
