-- ===== src/Validate/Instructions.antt =====
-- internal/validate/validate.go: the cases of the instruction switch that leave the control stack as
-- it is. A missing memory and an index past the last one are one diagnostic, and the messages for a
-- wrong operand too.
use watgo.Common.{ℕ, Bool, true, false, ◌&&◌, ◌||◌, not, none, some, List, [], ◌∷◌}
use watgo.Common.{Result, ok, err, ◌>>=◌, ◌>>◌, guard, get_elem?, ltb, if◌then◌else◌}
use watgo.Common.Window.{overwrite}
use watgo.Wasmir.{ValueType, value_type_i32, value_type_i64, is_ref}
use watgo.Wasmir.Instr.{Instr, Width, LoadOp, StoreOp}
use watgo.Wasmir.Equality.{same_value_type}
use watgo.Validate.Values.{Checked, known, unknown_value, same_validated_value, matches_expected}
use watgo.Validate.Values.{memory_address_type, table_address_type, element_ref_type}
use watgo.Validate.Values.{valid_module_value_type}
use watgo.Validate.Operands.{Diag, Context, State, Hints, has_type, has_ref_type, expected}
use watgo.Validate.Operands.{any_value, with_stack, ensure_operands, expect}
use watgo.Validate.Operands.{unary_operand, binary_operands, ternary_operands}

abbrev pub width_type : Width → ValueType
width_type Width.i32 = value_type_i32
width_type Width.i64 = value_type_i64

-- An index into the locals, memories, tables, globals or segments.
abbrev pub declared {ℓ} : {A : Type ℓ} → List A → ℕ → Result Diag A
declared xs index = elim (get_elem? xs index) [ none ↦ err Diag.unknown_index | some x ↦ ok x ]

abbrev pub in_range : ℕ → ℕ → Result Diag (Unit {0})
in_range index count = guard (ltb index count) Diag.unknown_index

abbrev pub is_initialized : State → ℕ → Bool
is_initialized st index = elim (get_elem? st.local_initialized index) [ none ↦ false | some b ↦ b ]

-- The state with the local at `index` initialized.
abbrev pub initialize : State → ℕ → State
initialize st index = record st {
  local_initialized = overwrite st.local_initialized index (true ∷ []);
}

abbrev pub push_type : State → List Checked → ValueType → State
push_type st stack t = with_stack st (known t ∷ stack)

-- The kinds that wasmir/module.go does not have for i32.
abbrev pub has_load : Width → LoadOp → Bool
has_load Width.i32 LoadOp.load32_s = false
has_load Width.i32 LoadOp.load32_u = false
has_load _ _ = true

abbrev pub has_store : Width → StoreOp → Bool
has_store Width.i32 StoreOp.store32 = false
has_store _ _ = true

-- The type of an untyped `select` whose value operands are `v1` and `v2`.
unfoldable pub select_value : Checked → Checked → Result Diag Checked
select_value v1 v2 = do
  guard (same_validated_value v1 v2) Diag.operand_type
  guard (not ((not v1.unknown && is_ref v1.type) || (not v2.unknown && is_ref v2.type)))
      Diag.operand_type
  if v1.unknown && not v2.unknown
      then ok v2
      else if v2.unknown && not v1.unknown
      then ok v1
      else if v1.unknown && v2.unknown
      then ok unknown_value
      else ok v1

-- `lenType` of `table.copy`.
unfoldable pub copy_length_type : ValueType → ValueType → ValueType
copy_length_type dst src =
    if same_value_type dst value_type_i64 && same_value_type src value_type_i64
    then value_type_i64
    else value_type_i32

-- The element type of the segment, if its references may stand in the table.
unfoldable pub init_elements : Context → ℕ → ValueType → Result Diag (Unit {0})
init_elements ctx elem_index want = elim (element_ref_type ctx.module_ elem_index) [
  | none ↦ err Diag.operand_type
  | some t ↦ guard (matches_expected ctx.module_ ctx.is_subtype (known t) want) Diag.operand_type
]

-- Locals and globals.
abbrev pub check_variable : Context → Hints → Instr → State → Result Diag State
check_variable ctx hint (Instr.local_get index) st = do
  t ← declared ctx.locals index
  guard (is_initialized st index) Diag.uninitialized_local
  ok (push_type st st.stack t)
check_variable ctx hint (Instr.local_set index) st = do
  t ← declared ctx.locals index
  (v, rest) ← unary_operand st hint (expected ctx t)
  ok (with_stack (initialize st index) rest)
check_variable ctx hint (Instr.local_tee index) st = do
  t ← declared ctx.locals index
  (v, rest) ← unary_operand st hint (expected ctx t)
  ok (push_type (initialize st index) rest t)
check_variable ctx hint (Instr.global_get index) st = do
  g ← declared ctx.module_.globals index
  ok (push_type st st.stack g.type)
check_variable ctx hint (Instr.global_set index) st = do
  g ← declared ctx.module_.globals index
  guard g.mutable Diag.immutable_global
  (v, rest) ← unary_operand st hint (expected ctx g.type)
  ok (with_stack st rest)
check_variable ctx hint ins st = err Diag.unsupported_instruction

-- Tables and element segments.
abbrev pub check_table : Context → Hints → Instr → State → Result Diag State
check_table ctx hint (Instr.table_get index) st = do
  t ← declared ctx.module_.tables index
  (v, rest) ← unary_operand st hint (has_type (table_address_type ctx.module_ index))
  ok (push_type st rest t.ref_type)
check_table ctx hint (Instr.table_set index) st = do
  t ← declared ctx.module_.tables index
  let address = has_type (table_address_type ctx.module_ index)
  rest ← binary_operands st hint (expected ctx t.ref_type) address
  ok (with_stack st rest)
check_table ctx hint (Instr.table_copy index source) st = do
  t ← declared ctx.module_.tables index
  u ← declared ctx.module_.tables source
  guard (expected ctx t.ref_type (known u.ref_type)) Diag.operand_type
  let dst = table_address_type ctx.module_ index
  let src = table_address_type ctx.module_ source
  rest ←
      ternary_operands st hint (has_type (copy_length_type dst src)) (has_type src) (has_type dst)
  ok (with_stack st rest)
check_table ctx hint (Instr.table_fill index) st = do
  t ← declared ctx.module_.tables index
  let address = has_type (table_address_type ctx.module_ index)
  rest ← ternary_operands st hint address (expected ctx t.ref_type) address
  ok (with_stack st rest)
check_table ctx hint (Instr.table_init index segment) st = do
  t ← declared ctx.module_.tables index
  e ← declared ctx.module_.elements segment
  init_elements ctx segment t.ref_type
  let i32 = has_type value_type_i32
  rest ← ternary_operands st hint i32 i32 (has_type (table_address_type ctx.module_ index))
  ok (with_stack st rest)
check_table ctx hint (Instr.elem_drop segment) st = do
  e ← declared ctx.module_.elements segment
  ok st
check_table ctx hint (Instr.table_grow index) st = do
  t ← declared ctx.module_.tables index
  let address = table_address_type ctx.module_ index
  rest ← binary_operands st hint (has_type address) (expected ctx t.ref_type)
  ok (push_type st rest address)
check_table ctx hint (Instr.table_size index) st = do
  t ← declared ctx.module_.tables index
  ok (push_type st st.stack (table_address_type ctx.module_ index))
check_table ctx hint ins st = err Diag.unsupported_instruction

-- Constants, `drop` and the two forms of `select`.
abbrev pub check_parametric : Context → Hints → Instr → State → Result Diag State
check_parametric ctx hint Instr.drop st = do
  (v, rest) ← unary_operand st hint any_value
  ok (with_stack st rest)
check_parametric ctx hint Instr.select st = do
  stack ← ensure_operands st 3 hint
  (cond, below) ← expect (has_type value_type_i32) stack
  (v2, under) ← expect any_value below
  (v1, rest) ← expect any_value under
  v ← select_value v1 v2
  ok (with_stack st (v ∷ rest))
check_parametric ctx hint (Instr.select_typed t) st = do
  rest ← ternary_operands st hint (has_type value_type_i32) (expected ctx t) (expected ctx t)
  guard (valid_module_value_type ctx.module_ t) Diag.invalid_type
  ok (push_type st rest t)
check_parametric ctx hint (Instr.const w n) st = ok (push_type st st.stack (width_type w))
check_parametric ctx hint ins st = err Diag.unsupported_instruction

-- Loads of integers.
abbrev pub check_load : Context → Hints → Instr → State → Result Diag State
check_load ctx hint (Instr.load w op index offset) st = do
  guard (has_load w op) Diag.unsupported_instruction
  m ← declared ctx.module_.memories index
  (v, rest) ← unary_operand st hint (has_type (memory_address_type ctx.module_ index))
  ok (push_type st rest (width_type w))
check_load ctx hint ins st = err Diag.unsupported_instruction

-- Stores of integers.
abbrev pub check_store : Context → Hints → Instr → State → Result Diag State
check_store ctx hint (Instr.store w op index offset) st = do
  guard (has_store w op) Diag.unsupported_instruction
  m ← declared ctx.module_.memories index
  let address = has_type (memory_address_type ctx.module_ index)
  rest ← binary_operands st hint (has_type (width_type w)) address
  ok (with_stack st rest)
check_store ctx hint ins st = err Diag.unsupported_instruction

-- The other instructions of memories and data segments.
abbrev pub check_memory : Context → Hints → Instr → State → Result Diag State
check_memory ctx hint (Instr.memory_size index) st = do
  m ← declared ctx.module_.memories index
  ok (push_type st st.stack (memory_address_type ctx.module_ index))
check_memory ctx hint (Instr.memory_grow index) st = do
  m ← declared ctx.module_.memories index
  let t = memory_address_type ctx.module_ index
  (v, rest) ← unary_operand st hint (has_type t)
  ok (push_type st rest t)
check_memory ctx hint (Instr.memory_copy index source) st = do
  m ← declared ctx.module_.memories index
  n ← declared ctx.module_.memories source
  let dst = has_type (memory_address_type ctx.module_ index)
  let src = has_type (memory_address_type ctx.module_ source)
  rest ← ternary_operands st hint dst src dst
  ok (with_stack st rest)
check_memory ctx hint (Instr.memory_init index segment) st = do
  m ← declared ctx.module_.memories index
  in_range segment ctx.module_.data_count
  let i32 = has_type value_type_i32
  rest ← ternary_operands st hint i32 i32 (has_type (memory_address_type ctx.module_ index))
  ok (with_stack st rest)
check_memory ctx hint (Instr.memory_fill index) st = do
  m ← declared ctx.module_.memories index
  let address = has_type (memory_address_type ctx.module_ index)
  rest ← ternary_operands st hint address (has_type value_type_i32) address
  ok (with_stack st rest)
check_memory ctx hint (Instr.data_drop segment) st = do
  in_range segment ctx.module_.data_count
  ok st
check_memory ctx hint ins st = err Diag.unsupported_instruction

-- References.
abbrev pub check_reference : Context → Hints → Instr → State → Result Diag State
check_reference ctx hint (Instr.ref_null t) st = ok (push_type st st.stack t)
check_reference ctx hint Instr.ref_is_null st = do
  (v, rest) ← unary_operand st hint has_ref_type
  ok (push_type st rest value_type_i32)
check_reference ctx hint ins st = err Diag.unsupported_instruction
