-- ===== src/Validate/Signatures.antt =====
-- internal/instrdef/instruction_defs.go, the stack signatures in the catalog, and
-- `applyFixedStackSig` of internal/validate/validate.go, which checks the instructions that have one.
pub mod Rows
use watgo.Common.{Bool, true, false, List, [], ◌∷◌, ◌++◌, Result, ok, ◌>>=◌, length}
use watgo.Wasmir.{ValueType, value_type_i32, value_type_i64}
use watgo.Wasmir.Instr.{Instr, Width, BinaryOp, CompareOp, UnaryOp}
use watgo.Validate.Operands.{Diag, Context, State, Hints, with_stack, ensure_operands}
use watgo.Validate.Operands.{expect_all, top_first, values_of}

-- The first `ParamCount` entries of `Params`, and the first `ResultCount` of `Results`.
pub record FixedStackSig : Type 0 where
  pub enabled : Bool
  pub params : List ValueType
  pub results : List ValueType

abbrev pub no_fixed_sig : FixedStackSig
no_fixed_sig = record { enabled = false; params = []; results = [] }

abbrev pub sig_no_op : FixedStackSig
sig_no_op = record { enabled = true; params = []; results = [] }

abbrev pub unary_sig : ValueType → ValueType → FixedStackSig
unary_sig param result = record { enabled = true; params = param ∷ []; results = result ∷ [] }

abbrev pub binary_sig : ValueType → ValueType → ValueType → FixedStackSig
binary_sig param1 param2 result = record {
  enabled = true;
  params = param1 ∷ param2 ∷ [];
  results = result ∷ [];
}

-- The rows of the integer operators, one for each kind.
abbrev pub binary_row : Width → BinaryOp → FixedStackSig
binary_row Width.i32 BinaryOp.add = binary_sig value_type_i32 value_type_i32 value_type_i32
binary_row Width.i32 BinaryOp.sub = binary_sig value_type_i32 value_type_i32 value_type_i32
binary_row Width.i32 BinaryOp.mul = binary_sig value_type_i32 value_type_i32 value_type_i32
binary_row Width.i32 BinaryOp.div_s = binary_sig value_type_i32 value_type_i32 value_type_i32
binary_row Width.i32 BinaryOp.div_u = binary_sig value_type_i32 value_type_i32 value_type_i32
binary_row Width.i32 BinaryOp.rem_s = binary_sig value_type_i32 value_type_i32 value_type_i32
binary_row Width.i32 BinaryOp.rem_u = binary_sig value_type_i32 value_type_i32 value_type_i32
binary_row Width.i32 BinaryOp.and = binary_sig value_type_i32 value_type_i32 value_type_i32
binary_row Width.i32 BinaryOp.or = binary_sig value_type_i32 value_type_i32 value_type_i32
binary_row Width.i32 BinaryOp.xor = binary_sig value_type_i32 value_type_i32 value_type_i32
binary_row Width.i32 BinaryOp.shl = binary_sig value_type_i32 value_type_i32 value_type_i32
binary_row Width.i32 BinaryOp.shr_s = binary_sig value_type_i32 value_type_i32 value_type_i32
binary_row Width.i32 BinaryOp.shr_u = binary_sig value_type_i32 value_type_i32 value_type_i32
binary_row Width.i32 BinaryOp.rotl = binary_sig value_type_i32 value_type_i32 value_type_i32
binary_row Width.i32 BinaryOp.rotr = binary_sig value_type_i32 value_type_i32 value_type_i32
binary_row Width.i64 BinaryOp.add = binary_sig value_type_i64 value_type_i64 value_type_i64
binary_row Width.i64 BinaryOp.sub = binary_sig value_type_i64 value_type_i64 value_type_i64
binary_row Width.i64 BinaryOp.mul = binary_sig value_type_i64 value_type_i64 value_type_i64
binary_row Width.i64 BinaryOp.div_s = binary_sig value_type_i64 value_type_i64 value_type_i64
binary_row Width.i64 BinaryOp.div_u = binary_sig value_type_i64 value_type_i64 value_type_i64
binary_row Width.i64 BinaryOp.rem_s = binary_sig value_type_i64 value_type_i64 value_type_i64
binary_row Width.i64 BinaryOp.rem_u = binary_sig value_type_i64 value_type_i64 value_type_i64
binary_row Width.i64 BinaryOp.and = binary_sig value_type_i64 value_type_i64 value_type_i64
binary_row Width.i64 BinaryOp.or = binary_sig value_type_i64 value_type_i64 value_type_i64
binary_row Width.i64 BinaryOp.xor = binary_sig value_type_i64 value_type_i64 value_type_i64
binary_row Width.i64 BinaryOp.shl = binary_sig value_type_i64 value_type_i64 value_type_i64
binary_row Width.i64 BinaryOp.shr_s = binary_sig value_type_i64 value_type_i64 value_type_i64
binary_row Width.i64 BinaryOp.shr_u = binary_sig value_type_i64 value_type_i64 value_type_i64
binary_row Width.i64 BinaryOp.rotl = binary_sig value_type_i64 value_type_i64 value_type_i64
binary_row Width.i64 BinaryOp.rotr = binary_sig value_type_i64 value_type_i64 value_type_i64

abbrev pub compare_row : Width → CompareOp → FixedStackSig
compare_row Width.i32 CompareOp.eq = binary_sig value_type_i32 value_type_i32 value_type_i32
compare_row Width.i32 CompareOp.ne = binary_sig value_type_i32 value_type_i32 value_type_i32
compare_row Width.i32 CompareOp.lt_s = binary_sig value_type_i32 value_type_i32 value_type_i32
compare_row Width.i32 CompareOp.lt_u = binary_sig value_type_i32 value_type_i32 value_type_i32
compare_row Width.i32 CompareOp.gt_s = binary_sig value_type_i32 value_type_i32 value_type_i32
compare_row Width.i32 CompareOp.gt_u = binary_sig value_type_i32 value_type_i32 value_type_i32
compare_row Width.i32 CompareOp.le_s = binary_sig value_type_i32 value_type_i32 value_type_i32
compare_row Width.i32 CompareOp.le_u = binary_sig value_type_i32 value_type_i32 value_type_i32
compare_row Width.i32 CompareOp.ge_s = binary_sig value_type_i32 value_type_i32 value_type_i32
compare_row Width.i32 CompareOp.ge_u = binary_sig value_type_i32 value_type_i32 value_type_i32
compare_row Width.i64 CompareOp.eq = binary_sig value_type_i64 value_type_i64 value_type_i32
compare_row Width.i64 CompareOp.ne = binary_sig value_type_i64 value_type_i64 value_type_i32
compare_row Width.i64 CompareOp.lt_s = binary_sig value_type_i64 value_type_i64 value_type_i32
compare_row Width.i64 CompareOp.lt_u = binary_sig value_type_i64 value_type_i64 value_type_i32
compare_row Width.i64 CompareOp.gt_s = binary_sig value_type_i64 value_type_i64 value_type_i32
compare_row Width.i64 CompareOp.gt_u = binary_sig value_type_i64 value_type_i64 value_type_i32
compare_row Width.i64 CompareOp.le_s = binary_sig value_type_i64 value_type_i64 value_type_i32
compare_row Width.i64 CompareOp.le_u = binary_sig value_type_i64 value_type_i64 value_type_i32
compare_row Width.i64 CompareOp.ge_s = binary_sig value_type_i64 value_type_i64 value_type_i32
compare_row Width.i64 CompareOp.ge_u = binary_sig value_type_i64 value_type_i64 value_type_i32

-- There is no `i32.extend32_s`.
abbrev pub unary_row : Width → UnaryOp → FixedStackSig
unary_row Width.i32 UnaryOp.clz = unary_sig value_type_i32 value_type_i32
unary_row Width.i32 UnaryOp.ctz = unary_sig value_type_i32 value_type_i32
unary_row Width.i32 UnaryOp.popcnt = unary_sig value_type_i32 value_type_i32
unary_row Width.i32 UnaryOp.extend8_s = unary_sig value_type_i32 value_type_i32
unary_row Width.i32 UnaryOp.extend16_s = unary_sig value_type_i32 value_type_i32
unary_row Width.i32 UnaryOp.extend32_s = no_fixed_sig
unary_row Width.i64 UnaryOp.clz = unary_sig value_type_i64 value_type_i64
unary_row Width.i64 UnaryOp.ctz = unary_sig value_type_i64 value_type_i64
unary_row Width.i64 UnaryOp.popcnt = unary_sig value_type_i64 value_type_i64
unary_row Width.i64 UnaryOp.extend8_s = unary_sig value_type_i64 value_type_i64
unary_row Width.i64 UnaryOp.extend16_s = unary_sig value_type_i64 value_type_i64
unary_row Width.i64 UnaryOp.extend32_s = unary_sig value_type_i64 value_type_i64

-- `def.Validate.StackSig` of the instruction's definition. The others have none that is enabled.
abbrev pub stack_sig : Instr → FixedStackSig
stack_sig Instr.nop = sig_no_op
stack_sig (Instr.binary w op) = binary_row w op
stack_sig (Instr.compare w op) = compare_row w op
stack_sig (Instr.unary w op) = unary_row w op
stack_sig (Instr.eqz Width.i32) = unary_sig value_type_i32 value_type_i32
stack_sig (Instr.eqz Width.i64) = unary_sig value_type_i64 value_type_i32
stack_sig Instr.i32_wrap_i64 = unary_sig value_type_i64 value_type_i32
stack_sig Instr.i64_extend_i32_s = unary_sig value_type_i32 value_type_i64
stack_sig Instr.i64_extend_i32_u = unary_sig value_type_i32 value_type_i64
stack_sig _ = no_fixed_sig

-- The operands are compared with the parameters, and the results take their place. A wrong operand
-- is one diagnostic, whichever it is.
unfoldable pub apply_fixed_stack_sig : Context → Hints → FixedStackSig → State → Result Diag State
apply_fixed_stack_sig ctx hint sig st = do
  stack ← ensure_operands st (length sig.params) hint
  rest ← expect_all ctx (top_first sig.params) stack
  ok (with_stack st (values_of (top_first sig.results) ++ rest))
