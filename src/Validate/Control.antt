-- ===== src/Validate/Control.antt =====
-- internal/validate/validate.go: the cases of the instruction switch that open, split, close and leave
-- control frames, `validateFrameResult`, `validateBranchTarget` and `markCurrentFrameUnreachable`.
use watgo.Common.{ℕ, suc, ◌+◌, ◌-◌, Bool, true, false, ◌&&◌, not, none, some}
use watgo.Common.{List, [], ◌∷◌, ◌++◌, Result, ok, err, ◌>>=◌, ◌>>◌, guard, length, take, drop}
use watgo.Common.{get_elem?, ltb, ◌==◌, if◌then◌else◌}
use watgo.Wasmir.{ValueType, Module, value_type_i32}
use watgo.Wasmir.Equality.{same_value_type}
use watgo.Validate.Values.{Checked}
use watgo.Validate.Operands.{Diag, Context, State, Hints, ControlKind, ControlFrame, has_type}
use watgo.Validate.Operands.{with_stack, ensure_operands, expect, unary_operand}
use watgo.Validate.Operands.{expect_all, top_first, values_of}

-- `BlockTypeUsesIndex`, `BlockTypeIndex` and `BlockType` of an instruction.
pub data BlockType : Type 0 where
  empty : BlockType
  inline : ValueType → BlockType
  indexed : ℕ → BlockType

-- `try_table` is left out, as its clauses are. `end` comes with whether it is the last instruction
-- of the body, which the loop knows from its index.
pub data Control : Type 0 where
  block loop if_ : BlockType → Control
  end : Bool → Control
  else_ return unreachable : Control
  br br_if : ℕ → Control
  br_table : List ℕ → ℕ → Control

abbrev pub truncate : ℕ → List Checked → List Checked
truncate n stack = drop (length stack - n) stack

-- The frame that a call of a closure works on.
abbrev pub current_frame : State → Result Diag (ControlFrame × List ControlFrame)
current_frame st = elim st.control_stack [
  | [] ↦ err Diag.no_frame
  | frame ∷ outer ↦ ok (frame, outer)
]

abbrev frame_unreachable : List ControlFrame → Bool
frame_unreachable [] = false
frame_unreachable (frame ∷ outer) = frame.unreachable

abbrev pub no_hints : Hints
no_hints = record { explicit_instr_args = 0; bottom_instr_args = 0 }

unfoldable pub control_signature :
    Module → BlockType → Result Diag (List ValueType × List ValueType)
control_signature m BlockType.empty = ok ([], [])
control_signature m (BlockType.inline t) = ok ([], t ∷ [])
control_signature m (BlockType.indexed index) = elim (get_elem? m.types index) [
  | none ↦ err Diag.unknown_index
  | some def ↦ ok (def.params, def.results)
]

abbrev pub opened : ControlKind → State → List ValueType → List ValueType → ℕ → ControlFrame
opened kind st params results height = record {
  kind = kind;
  entry_height = height;
  param_types = params;
  result_types = results;
  local_init = st.local_initialized;
  saw_else = false;
  entered_unreachable = frame_unreachable st.control_stack;
  unreachable = frame_unreachable st.control_stack;
}

-- The parameters on the stack `rest` below them, at their declared types, and the new frame.
abbrev pub open_frame : ControlKind → State → List ValueType → List ValueType → List Checked → State
open_frame kind st params results rest =
    let stack = values_of (top_first params) ++ rest in
    record st {
      stack = stack;
      control_stack =
          opened kind st params results (length stack - length params) ∷ st.control_stack;
    }

unfoldable pub check_frame_result : Context → ControlFrame → List Checked → Result Diag (Unit {0})
check_frame_result ctx frame stack =
    let count = length stack - frame.entry_height in
    let results = length frame.result_types in
    if frame.unreachable
    then guard (not (ltb results count)) Diag.operand_count
      >> (expect_all ctx (take count (top_first frame.result_types)) stack >>= λ rest. ok tt)
    else guard (length stack == frame.entry_height + results) Diag.operand_count
      >> (expect_all ctx (top_first frame.result_types) stack >>= λ rest. ok tt)

abbrev is_loop : ControlKind → Bool
is_loop ControlKind.loop = true
is_loop _ = false

abbrev pub is_if : ControlKind → Bool
is_if ControlKind.if_ = true
is_if _ = false

unfoldable pub branch_target_types : ControlFrame → List ValueType
branch_target_types target = if is_loop target.kind then target.param_types else target.result_types

abbrev pub label_at : State → ℕ → Result Diag ControlFrame
label_at st depth = elim (get_elem? st.control_stack depth) [
  | none ↦ err Diag.unknown_index
  | some target ↦ ok target
]

-- The types of the label at `depth`, the stack with its operands on top, and the stack below them.
-- Enough operands for the label are never from below the current frame's entry.
unfoldable pub check_branch_target :
    Context → State → ℕ → Result Diag (List ValueType × List Checked × List Checked)
check_branch_target ctx st depth = do
  target ← label_at st depth
  stack ← ensure_operands st (length (branch_target_types target)) no_hints
  rest ← expect_all ctx (top_first (branch_target_types target)) stack
  ok (branch_target_types target, stack, rest)

unfoldable pub mark_unreachable : State → Result Diag State
mark_unreachable st = elim st.control_stack [
  | [] ↦ ok st
  | frame ∷ outer ↦ ok (record st {
    stack = truncate frame.entry_height st.stack;
    control_stack = record frame { unreachable = true } ∷ outer;
  })
]

same_types : List ValueType → List ValueType → Bool
same_types [] [] = true
same_types (t ∷ ts) (u ∷ us) = same_value_type t u && same_types ts us
same_types _ _ = false

-- An `if` with a result and no `else` must give its parameters back.
unfoldable pub check_missing_else : ControlFrame → Result Diag (Unit {0})
unfolding same_types
check_missing_else frame =
    guard
      (not (
        is_if frame.kind
        && ltb 0 (length frame.result_types)
        && not frame.saw_else
        && not (same_types frame.param_types frame.result_types)
        && not frame.entered_unreachable))
      Diag.operand_type

-- `end` on a frame, whose results take the place of all that the frame has above its entry, and
-- `end` with no frame left.
unfoldable pub close_frame : Context → Bool → State → List ControlFrame → Result Diag State
close_frame ctx last st [] = do guard last Diag.no_frame; ok st
close_frame ctx last st (frame ∷ outer) = do
  check_frame_result ctx frame st.stack
  check_missing_else frame
  ok (record {
    stack = values_of (top_first frame.result_types) ++ truncate frame.entry_height st.stack;
    control_stack = outer;
    local_initialized = frame.local_init;
  })

unfoldable pub check_end : Context → Bool → State → Result Diag State
unfolding close_frame
check_end ctx last st = close_frame ctx last st st.control_stack

-- `stack[:n]`, where `cells` are what the slice's array holds above its length, the highest first.
abbrev pub reslice : List Checked → ℕ → List Checked → List Checked
reslice cells n stack = drop (length (cells ++ stack) - n) (cells ++ stack)

-- `else`, which goes on with what the stack holds where the parameters were.
unfoldable pub check_else : Context → List Checked → State → Result Diag State
check_else ctx cells st = do
  (frame, outer) ← current_frame st
  guard (is_if frame.kind && not frame.saw_else) Diag.no_frame
  check_frame_result ctx frame st.stack
  ok (record {
    stack = reslice cells (frame.entry_height + length frame.param_types) st.stack;
    control_stack =
        record frame { saw_else = true; unreachable = frame.entered_unreachable } ∷ outer;
    local_initialized = frame.local_init;
  })

unfoldable pub check_open : Context → ControlKind → BlockType → State → Result Diag State
check_open ctx kind type st = do
  (params, results) ← control_signature ctx.module_ type
  stack ← ensure_operands st (length params) no_hints
  rest ← expect_all ctx (top_first params) stack
  ok (open_frame kind st params results rest)

unfoldable pub check_if : Context → BlockType → State → Result Diag State
check_if ctx type st = do
  (params, results) ← control_signature ctx.module_ type
  stack ← ensure_operands st (suc (length params)) no_hints
  (cond, below) ← expect (has_type value_type_i32) stack
  rest ← expect_all ctx (top_first params) below
  ok (open_frame ControlKind.if_ st params results rest)

-- The further targets of a `br_table`, which take the operands that the first one takes.
unfoldable pub check_targets : Context → State → ℕ → List ℕ → Result Diag (Unit {0})
check_targets ctx st count [] = ok tt
check_targets ctx st count (depth ∷ depths) = do
  target ← label_at st depth
  guard (length (branch_target_types target) == count) Diag.operand_count
  rest ← expect_all ctx (top_first (branch_target_types target)) st.stack
  check_targets ctx st count depths

-- The first depth of `targetDepths` and those after it.
abbrev pub first_depth : List ℕ → ℕ → ℕ
first_depth [] default = default
first_depth (d ∷ ds) default = d

abbrev pub later_depths : List ℕ → ℕ → List ℕ
later_depths [] default = []
later_depths (d ∷ ds) default = ds ++ (default ∷ [])

unfoldable pub check_control :
    Context → Hints → List ValueType → List Checked → Control → State → Result Diag State
check_control ctx hint results cells (Control.block type) st =
    check_open ctx ControlKind.block type st
check_control ctx hint results cells (Control.loop type) st =
    check_open ctx ControlKind.loop type st
check_control ctx hint results cells (Control.if_ type) st = check_if ctx type st
check_control ctx hint results cells Control.else_ st = check_else ctx cells st
check_control ctx hint results cells (Control.end last) st = check_end ctx last st
check_control ctx hint results cells Control.unreachable st = mark_unreachable st
check_control ctx hint results cells Control.return st = do
  stack ← ensure_operands st (length results) no_hints
  rest ← expect_all ctx (top_first results) stack
  mark_unreachable (with_stack st stack)
check_control ctx hint results cells (Control.br depth) st = do
  (types, stack, rest) ← check_branch_target ctx st depth
  mark_unreachable st
check_control ctx hint results cells (Control.br_if depth) st = do
  (cond, below) ← unary_operand st hint (has_type value_type_i32)
  (types, stack, rest) ← check_branch_target ctx (with_stack st below) depth
  ok (with_stack st (values_of (top_first types) ++ rest))
check_control ctx hint results cells (Control.br_table depths default) st = do
  (cond, below) ← unary_operand st hint (has_type value_type_i32)
  (types, stack, rest) ← check_branch_target ctx (with_stack st below) (first_depth depths default)
  check_targets ctx (with_stack st stack) (length types) (later_depths depths default)
  mark_unreachable (with_stack st below)
