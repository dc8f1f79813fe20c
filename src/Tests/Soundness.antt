-- ===== src/Tests/Soundness.antt =====
-- A body of four instructions on a machine of two memories, a table and a global.
use mathlib.Core.Path.{subst}
use watgo.Common.{ℕ, zero, suc, ◌≡◌, ◌<◌, inl, refl, arith, true, false, none, some}
use watgo.Common.{List, [], ◌∷◌, get_elem?, All}
use watgo.Wasmir.{Module, Limits, TableType, GlobalType, ElementType, value_type_i32}
use watgo.Wasmir.Instr.{Instr, Width, BinaryOp, LoadOp}
use watgo.Wasmir.Equality.{same_value_type, same_value_kind, same_heap_kind}
use watgo.Validate.Values.{known, memory_address_type, table_address_type, address_or_i32}
use watgo.Validate.Operands.{State, Hints, Context, ControlFrame, ControlKind, has_type}
use watgo.Validate.Operands.{
  ensure_operands, ensure_in, ensure_frame_operands, expect, unary_operand,
}
use watgo.Validate.Operands.{binary_operands}
use watgo.Validate.Plain.{check_plain}
use watgo.Validate.Signatures.{apply_fixed_stack_sig}
use watgo.Validate.Values.{matches_expected}
use watgo.Validate.Operands.{expect_all, top_first, expected}
use watgo.Vm.Value.{Value, i32_value}
use watgo.Vm.State.{Segment}
use watgo.Vm.Execute.{Executor, step_plain}
use watgo.Soundness.Outcome.{Sound}
use watgo.Soundness.Matching.{Matches}
use watgo.Soundness.Machines.{Agrees, HasMemory, HasTable, HasGlobal, IsReference}
use watgo.Soundness.Straight.{check_all, run_all, run_all-Sound, step_plain-Sound}
use watgo.Tests.{machine, func_type, other_func, null_func}

abbrev two_pages : Limits
two_pages = record { address_type = value_type_i32; min = 2; max = none }

abbrev small_module : Module
small_module = record {
  types = [];
  memories = two_pages ∷ two_pages ∷ [];
  tables = record { limits = two_pages; ref_type = func_type } ∷ [];
  globals = record { type = value_type_i32; mutable = true } ∷ [];
  elements = record { ref_type = func_type; func_count = 2 } ∷ [];
  data_count = 1;
}

abbrev context : Context
context = record {
  module_ = small_module;
  locals = value_type_i32 ∷ [];
  is_subtype = λ got want. false;
}

abbrev body_frame : ControlFrame
body_frame = record {
  kind = ControlKind.block;
  entry_height = 0;
  param_types = [];
  result_types = value_type_i32 ∷ [];
  local_init = true ∷ [];
  saw_else = false;
  entered_unreachable = false;
  unreachable = false;
}

abbrev start : State
start = record { stack = []; control_stack = body_frame ∷ []; local_initialized = true ∷ [] }

abbrev one_i32 : State
one_i32 = record start { stack = known value_type_i32 ∷ [] }

abbrev no_hints : Hints
no_hints = record { explicit_instr_args = 0; bottom_instr_args = 0 }

abbrev executor : Executor
executor = record { stack = []; locals = i32_value 0 ∷ []; machine = machine }

-- `i32.load (local.get 0)`, divided by three.
abbrev body : List (Hints × Instr)
body =
    (no_hints, Instr.local_get 0)
    ∷ (no_hints, Instr.load Width.i32 LoadOp.load8_u 0 2)
    ∷ (no_hints, Instr.const Width.i32 3)
    ∷ (no_hints, Instr.binary Width.i32 BinaryOp.div_u)
    ∷ []

memories_there :
    (index : ℕ) (l : Limits)
    → get_elem? small_module.memories index ≡ some l
    → HasMemory small_module machine index
unfolding memory_address_type address_or_i32 same_value_type same_value_kind same_heap_kind
memories_there zero l h = (7, refl, refl)
memories_there (suc zero) l h = (9, refl, refl)
memories_there (suc (suc index)) l h = absurd cc

tables_there :
    (index : ℕ) (t : TableType)
    → get_elem? small_module.tables index ≡ some t
    → HasTable small_module machine index t.ref_type
unfolding table_address_type address_or_i32 same_value_type same_value_kind same_heap_kind
tables_there zero t h =
    let same : record { limits = two_pages; ref_type = func_type } ≡ t = cc in
    subst (λ (u : TableType). HasTable small_module machine 0 u.ref_type) same
      (3, refl, refl, refl, refl)
tables_there (suc index) t h = absurd cc

globals_there :
    (index : ℕ) (g : GlobalType)
    → get_elem? small_module.globals index ≡ some g
    → HasGlobal machine index g
globals_there zero g h =
    let same : record { type = value_type_i32; mutable = true } ≡ g = cc in
    subst (HasGlobal machine 0) same (4, refl, refl, refl)
globals_there (suc index) g h = absurd cc

data_there :
    (index : ℕ) → index < 1 → (d : Segment ℕ) × (get_elem? machine.data_segments index ≡ some d)
data_there zero h = (_, refl)
data_there (suc index) h = absurd (omega arith)

elems_there :
    (index : ℕ) (e : ElementType)
    → get_elem? small_module.elements index ≡ some e
    → (d : Segment Value) × (get_elem? machine.elem_segments index ≡ some d)
elems_there zero e h = (_, refl)
elems_there (suc index) e h = absurd cc

references :
    (index : ℕ) (d : Segment Value)
    → get_elem? machine.elem_segments index ≡ some d
    → All IsReference d.init
references zero d h =
    let same : record { init = other_func ∷ null_func ∷ []; dropped = false } ≡ d = cc in
    subst (λ (s : Segment Value). All IsReference s.init) same (refl, (refl, tt))
references (suc index) d h = absurd cc

machine_agrees : Agrees small_module machine
machine_agrees = record {
  memories = memories_there;
  tables = tables_there;
  globals = globals_there;
  data_segments = data_there;
  elem_segments = elems_there;
  elements = λ p. (refl, (refl, (refl, (refl, tt))));
  segment_elements = references;
  global_values = λ p. inl refl;
}

start-Matches : Matches context start executor
start-Matches = record {
  reachable = refl;
  stack = refl;
  locals = (inl refl, tt);
  machine = machine_agrees;
}

run_all-Sound_example : Sound (Matches context one_i32) (run_all body executor)
unfolding check_all check_plain apply_fixed_stack_sig expect_all top_first expected matches_expected
    ensure_operands ensure_in ensure_frame_operands expect unary_operand binary_operands has_type
    memory_address_type address_or_i32 same_value_type same_value_kind same_heap_kind
run_all-Sound_example = run_all-Sound body context start one_i32 executor refl start-Matches

step_plain-Sound_example : Sound (Matches context one_i32) (step_plain (Instr.local_get 0) executor)
unfolding check_plain
step_plain-Sound_example =
    step_plain-Sound (Instr.local_get 0) context no_hints start one_i32 executor refl start-Matches
