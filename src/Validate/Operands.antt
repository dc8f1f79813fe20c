-- ===== src/Validate/Operands.antt =====
-- internal/validate/validate.go: the value stack and the control stack of `validateFunction`, and
-- `ensureCurrentFrameOperands`. Both stacks are lists with the top first.
use watgo.Common.{ℕ, ◌-◌, Bool, true, ◌||◌, not, List, [], ◌∷◌, ◌++◌}
use watgo.Common.{Result, ok, err, ◌>>=◌, ◌>>◌, guard, length, take, drop, replicate, ltb}
use watgo.Common.{if◌then◌else◌}
use watgo.Wasmir.{ValueType, Module, is_ref}
use watgo.Wasmir.Equality.{same_value_type}
use watgo.Validate.Values.{Checked, known, unknown_value, matches_expected}

pub data Diag : Type 0 where
  operand_count operand_type unknown_index uninitialized_local immutable_global : Diag
  invalid_type unsupported_instruction no_frame : Diag

pub data ControlKind : Type 0 where
  block loop if_ try_table : ControlKind

pub record ControlFrame : Type 0 where
  pub kind : ControlKind
  pub entry_height : ℕ
  pub param_types : List ValueType
  pub result_types : List ValueType
  pub local_init : List Bool
  pub saw_else : Bool
  pub entered_unreachable : Bool
  pub unreachable : Bool

-- What `validateFunction` reads and keeps: the module, the types of the locals, and
-- `isTypeIndexSubtype` of the module.
pub record Context : Type 0 where
  pub module_ : Module
  pub locals : List ValueType
  pub is_subtype : ℕ → ℕ → Bool

-- What it changes from one instruction to the next.
pub record State : Type 0 where
  pub stack : List Checked
  pub control_stack : List ControlFrame
  pub local_initialized : List Bool

-- `valhint.InstrHints`: how many operands a folded instruction wrote itself.
pub record Hints : Type 0 where
  pub explicit_instr_args : ℕ
  pub bottom_instr_args : ℕ

-- The operands that must be there whatever follows from the code being unreachable.
abbrev required_concrete : ℕ → Hints → ℕ
required_concrete n hint =
    if ltb 0 hint.bottom_instr_args
    then 0
    else if ltb n hint.explicit_instr_args
    then n
    else hint.explicit_instr_args

-- The stack with the missing operands put in above the frame's entry height.
abbrev pub pad_operands : List Checked → ℕ → ℕ → List Checked
pad_operands stack available n =
    take available stack ++ replicate (n - available) unknown_value ++ drop available stack

unfoldable pub ensure_frame_operands :
    List Checked → ControlFrame → ℕ → Hints → Result Diag (List Checked)
ensure_frame_operands stack frame n hint =
    let available = length stack - frame.entry_height in
    if ltb available (required_concrete n hint)
    then err Diag.operand_count
    else if not (ltb available n)
    then ok stack
    else if not frame.unreachable
    then err Diag.operand_count
    else ok (pad_operands stack available n)

unfoldable pub ensure_in : List ControlFrame → List Checked → ℕ → Hints → Result Diag (List Checked)
ensure_in [] stack n hint = if not (ltb (length stack) n) then ok stack else err Diag.operand_count
ensure_in (frame ∷ outer) stack n hint = ensure_frame_operands stack frame n hint

unfoldable pub ensure_operands : State → ℕ → Hints → Result Diag (List Checked)
unfolding ensure_in
ensure_operands st n hint = ensure_in st.control_stack st.stack n hint

-- `stackValueHasType` and the reference test of `ref.is_null`.
unfoldable pub has_type : ValueType → Checked → Bool
has_type want got = got.unknown || same_value_type got.type want

unfoldable pub has_ref_type : Checked → Bool
has_ref_type got = got.unknown || is_ref got.type

unfoldable pub expected : Context → ValueType → Checked → Bool
expected ctx want got = matches_expected ctx.module_ ctx.is_subtype got want

-- Tests the top of the stack and takes it off.
unfoldable pub expect : (Checked → Bool) → List Checked → Result Diag (Checked × List Checked)
expect test [] = err Diag.operand_count
expect test (got ∷ rest) = do guard (test got) Diag.operand_type; ok (got, rest)

-- Types in Go's order, as a stack has them.
abbrev pub onto : List ValueType → List ValueType → List ValueType
onto [] out = out
onto (t ∷ ts) out = onto ts (t ∷ out)

unfoldable pub top_first : List ValueType → List ValueType
top_first types = onto types []

abbrev pub values_of : List ValueType → List Checked
values_of [] = []
values_of (t ∷ ts) = known t ∷ values_of ts

-- The operands on top of the stack match the types, which are given from the top down.
unfoldable pub expect_all : Context → List ValueType → List Checked → Result Diag (List Checked)
expect_all ctx [] stack = ok stack
expect_all ctx (t ∷ ts) stack = do (v, rest) ← expect (expected ctx t) stack; expect_all ctx ts rest

abbrev pub any_value : Checked → Bool
any_value got = true

abbrev pub with_stack : State → List Checked → State
with_stack st stack = record st { stack = stack }

-- Instructions of one, two and three operands, whose tests are given from the top down.
unfoldable pub unary_operand :
    State → Hints → (Checked → Bool) → Result Diag (Checked × List Checked)
unary_operand st hint test = do stack ← ensure_operands st 1 hint; expect test stack

unfoldable pub binary_operands :
    State → Hints → (Checked → Bool) → (Checked → Bool) → Result Diag (List Checked)
binary_operands st hint top second = do
  stack ← ensure_operands st 2 hint
  (v2, below) ← expect top stack
  (v1, rest) ← expect second below
  ok rest

unfoldable pub ternary_operands :
    State
    → Hints
    → (Checked → Bool)
    → (Checked → Bool)
    → (Checked → Bool)
    → Result Diag (List Checked)
ternary_operands st hint top second third = do
  stack ← ensure_operands st 3 hint
  (v3, below) ← expect top stack
  (v2, under) ← expect second below
  (v1, rest) ← expect third under
  ok rest
