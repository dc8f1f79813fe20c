-- ===== src/Validate/Numeric.antt =====
-- internal/validate/validate.go: what the accepted integer instructions take and leave, from their
-- signatures in the catalog.
use watgo.Common.{◌≡◌, arith, true, ok, ◌>>=◌}
use watgo.Wasmir.Instr.{Instr, Width, BinaryOp, CompareOp, UnaryOp}
use watgo.Validate.Operands.{Context, State, Hints, expected, unary_operand, binary_operands}
use watgo.Validate.Instructions.{width_type, push_type}
use watgo.Validate.Signatures.{unary_row}
use watgo.Validate.Signatures.Rows.{binary_row-eq, compare_row-eq, unary_row-eq}
use watgo.Validate.Signatures.Rows.{apply-nop, apply-unary, apply-binary}
use watgo.Validate.Plain.{check_plain}

module _ (ctx : Context) (hint : Hints) (st st' : State) where
  -- The instruction takes one operand of the first width and gives a number of the second.
  abbrev pub TakesOne : Width → Width → Type 0
  TakesOne from to =
      (unary_operand st hint (expected ctx (width_type from)) >>= λ (c, rest).
      ok (push_type st rest (width_type to)))
      ≡ ok st'

  -- The instruction takes two operands of the first width and gives a number of the second.
  abbrev pub TakesTwo : Width → Width → Type 0
  TakesTwo from to =
      (binary_operands st hint (expected ctx (width_type from)) (expected ctx (width_type from))
        >>= λ rest. ok (push_type st rest (width_type to)))
      ≡ ok st'

  pub nop-keeps : check_plain ctx hint Instr.nop st ≡ ok st' → st ≡ st'
  unfolding check_plain
  nop-keeps h = apply-nop ctx hint st st' h

  pub binary-TakesTwo :
      (w : Width) (op : BinaryOp)
      → check_plain ctx hint (Instr.binary w op) st ≡ ok st'
      → TakesTwo w w
  unfolding check_plain
  binary-TakesTwo w op h = apply-binary ctx hint st st' _ _ _ (rw (binary_row-eq w op) at h)

  pub compare-TakesTwo :
      (w : Width) (op : CompareOp)
      → check_plain ctx hint (Instr.compare w op) st ≡ ok st'
      → TakesTwo w Width.i32
  unfolding check_plain
  compare-TakesTwo w op h = apply-binary ctx hint st st' _ _ _ (rw (compare_row-eq w op) at h)

  -- The instruction exists at its width.
  pub unary-enabled :
      (w : Width) (op : UnaryOp)
      → check_plain ctx hint (Instr.unary w op) st ≡ ok st'
      → (unary_row w op).enabled ≡ true
  unfolding check_plain
  unary-enabled w op h = ground (arith, h)

  pub unary-TakesOne :
      (w : Width) (op : UnaryOp)
      → check_plain ctx hint (Instr.unary w op) st ≡ ok st'
      → TakesOne w w
  unfolding check_plain
  unary-TakesOne w op h =
      apply-unary ctx hint st st' _ _ (rw (unary_row-eq w op (unary-enabled w op h)) at h)

  pub eqz-TakesOne :
      (w : Width) → check_plain ctx hint (Instr.eqz w) st ≡ ok st' → TakesOne w Width.i32
  unfolding check_plain
  eqz-TakesOne Width.i32 h = apply-unary ctx hint st st' _ _ h
  eqz-TakesOne Width.i64 h = apply-unary ctx hint st st' _ _ h

  pub wrap-TakesOne :
      check_plain ctx hint Instr.i32_wrap_i64 st ≡ ok st' → TakesOne Width.i64 Width.i32
  unfolding check_plain
  wrap-TakesOne h = apply-unary ctx hint st st' _ _ h

  pub extend_s-TakesOne :
      check_plain ctx hint Instr.i64_extend_i32_s st ≡ ok st' → TakesOne Width.i32 Width.i64
  unfolding check_plain
  extend_s-TakesOne h = apply-unary ctx hint st st' _ _ h

  pub extend_u-TakesOne :
      check_plain ctx hint Instr.i64_extend_i32_u st ≡ ok st' → TakesOne Width.i32 Width.i64
  unfolding check_plain
  extend_u-TakesOne h = apply-unary ctx hint st st' _ _ h
