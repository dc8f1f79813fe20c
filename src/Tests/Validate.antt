-- ===== src/Tests/Validate.antt =====
-- Bodies that the validator accepts, with an `if` whose branches differ in type, and one that it
-- rejects.
use watgo.Common.{◌≡◌, refl, err, true, false, List, [], ◌∷◌, arith}
use watgo.Wasmir.{Module, TypeDef, TypeDefKind, HeapKind, FieldType, PackedType, value_type_i32}
use watgo.Wasmir.{value_type_i64, ref_type, ref_type_indexed, ValueType}
use watgo.Wasmir.Instr.{Instr, Width}
use watgo.Wasmir.Equality.{same_value_type, same_value_kind, same_heap_kind}
use watgo.Validate.Values.{known, matches_expected, matches_gc_expected, matches_ref_type}
use watgo.Validate.Values.{type_index_has_kind}
use watgo.Validate.Operands.{Diag, State, Context, ControlFrame, ControlKind, has_type, expected}
use watgo.Validate.Operands.{
  ensure_operands, ensure_in, ensure_frame_operands, expect, unary_operand,
}
use watgo.Validate.Plain.{check_plain}
use watgo.Validate.Signatures.{apply_fixed_stack_sig}
use watgo.Validate.Control.{Control, BlockType, check_control, check_else, check_end}
use watgo.Validate.Control.{check_frame_result, check_missing_else, no_hints}
use watgo.Validate.Operands.{expect_all, top_first}
use watgo.Validate.Control.{control_signature, mark_unreachable, check_open}
use watgo.Validate.Heights.{IsWellFormed}
use watgo.Validate.Discipline.{Keeps, check_plain-IsWellFormed}
use watgo.Validate.Frames.{check_control-IsWellFormed}
use watgo.Validate.Body.{Step, check_step, check_body, initial_state, check_body-IsWellFormed}
use watgo.Validate.Body.{check_else-stack}
use watgo.Validate.Matching.{matches_ref_type-gaps}

abbrev i32_field : FieldType
i32_field = record { type = value_type_i32; packed = PackedType.none; mutable = false }

abbrev type_def : TypeDefKind → List ValueType → List ValueType → TypeDef
type_def kind params results = record {
  rec_group_size = 0;
  sub_type = false;
  final = true;
  super_types = [];
  kind = kind;
  params = params;
  results = results;
  fields = [];
  elem_field = i32_field;
}

-- A function from i32 to i64, and an empty struct.
abbrev typed_module : Module
typed_module = record {
  types =
      type_def TypeDefKind.func (value_type_i32 ∷ []) (value_type_i64 ∷ [])
      ∷ type_def TypeDefKind.struct [] []
      ∷ [];
  memories = [];
  tables = [];
  globals = [];
  elements = [];
  data_count = 0;
}

abbrev context : Context
context = record {
  module_ = typed_module;
  locals = value_type_i32 ∷ [];
  is_subtype = λ got want. false;
}

abbrev if_frame : ControlFrame
if_frame = record {
  kind = ControlKind.if_;
  entry_height = 0;
  param_types = value_type_i32 ∷ [];
  result_types = value_type_i64 ∷ [];
  local_init = true ∷ [];
  saw_else = false;
  entered_unreachable = false;
  unreachable = false;
}

-- Before the `else` of `(if (param i32) (result i64) (then i64.extend_i32_s) (else ...))`.
abbrev then_done : State
then_done = record {
  stack = known value_type_i64 ∷ [];
  control_stack = if_frame ∷ [];
  local_initialized = true ∷ [];
}

abbrev else_begun : State
else_begun = record then_done { control_stack = record if_frame { saw_else = true } ∷ [] }

check_else-stack_example : else_begun.stack ≡ then_done.stack
unfolding check_else check_frame_result expect_all top_first expect expected matches_expected
    matches_gc_expected matches_ref_type same_value_type same_value_kind same_heap_kind
check_else-stack_example =
    check_else-stack context [] then_done else_begun if_frame [] refl refl refl refl

abbrev narrowed : State
narrowed = record then_done { stack = known value_type_i32 ∷ [] }

check_plain-IsWellFormed_example : Keeps then_done narrowed
unfolding check_plain apply_fixed_stack_sig expect_all top_first expected matches_expected
    unary_operand ensure_operands ensure_in ensure_frame_operands expect has_type same_value_type
    same_value_kind same_heap_kind
check_plain-IsWellFormed_example =
    check_plain-IsWellFormed Instr.i32_wrap_i64 context no_hints then_done narrowed
      (omega arith, tt) refl

check_control-IsWellFormed_example : IsWellFormed else_begun
unfolding check_control check_else check_frame_result expect_all top_first expect expected
    matches_expected matches_gc_expected matches_ref_type same_value_type same_value_kind
    same_heap_kind
check_control-IsWellFormed_example =
    check_control-IsWellFormed Control.else_ context no_hints [] [] then_done else_begun
      (omega arith, tt) refl

-- The function's frame, left by an `unreachable` after a block has begun and ended.
abbrev steps : List Step
steps =
    Step.plain no_hints (Instr.local_get 0)
    ∷ Step.flow no_hints [] (Control.block (BlockType.inline value_type_i32))
    ∷ Step.flow no_hints [] Control.unreachable
    ∷ Step.flow no_hints [] (Control.end false)
    ∷ []

abbrev two_i32 : State
two_i32 = record {
  stack = known value_type_i32 ∷ known value_type_i32 ∷ [];
  control_stack =
      record {
        kind = ControlKind.block;
        entry_height = 0;
        param_types = [];
        result_types = value_type_i64 ∷ [];
        local_init = true ∷ [];
        saw_else = false;
        entered_unreachable = false;
        unreachable = false;
      }
      ∷ [];
  local_initialized = true ∷ [];
}

check_body-IsWellFormed_example : IsWellFormed two_i32
unfolding check_body check_step check_plain check_control check_open check_end mark_unreachable
    check_frame_result check_missing_else control_signature ensure_operands ensure_in
    ensure_frame_operands expect_all top_first expect initial_state
check_body-IsWellFormed_example =
    check_body-IsWellFormed steps context (value_type_i32 ∷ []) [] (value_type_i64 ∷ []) two_i32
      refl

-- In unreachable code too, an instruction leaves the result of its signature.
eqz_in_unreachable :
    check_body context []
      (Step.flow no_hints [] Control.unreachable
        ∷ Step.plain no_hints (Instr.eqz Width.i32)
        ∷ Step.plain no_hints (Instr.eqz Width.i64)
        ∷ [])
      (initial_state [] [] [])
    ≡ err Diag.operand_type
unfolding check_body check_step check_plain check_control mark_unreachable apply_fixed_stack_sig
    expect_all top_first expected matches_expected ensure_operands ensure_in ensure_frame_operands
    expect initial_state same_value_type
eqz_in_unreachable = refl

matches_ref_type-gaps_example :
    let matches = matches_ref_type typed_module (λ got want. false) in
    (matches (ref_type HeapKind.none true) (ref_type_indexed 1 true) ≡ true)
    × (matches (ref_type_indexed 1 true) (ref_type HeapKind.struct true) ≡ true)
    × (matches (ref_type HeapKind.none true) (ref_type HeapKind.struct true) ≡ false)
    × (matches (ref_type_indexed 0 true) (ref_type HeapKind.any true) ≡ true)
    × (matches (ref_type_indexed 0 true) (ref_type HeapKind.func true) ≡ true)
unfolding type_index_has_kind
matches_ref_type-gaps_example = matches_ref_type-gaps typed_module (λ got want. false) 1 0 refl refl
