-- ===== src/Vm/Operands.antt =====
-- internal/vm/execute.go: the operand stack, `popArgs` and `popResults`, and the operands whose type
-- follows a memory's or a table's address type. The top of the stack is the end of the list, as in
-- the source. A pop gives its value and the stack after it.
pub mod Calls
use watgo.Common.{ℕ, ◌+◌, ◌-◌, ◌%◌, ◌^◌, Bool, ◌&&◌, Option, none, some, List, [], ◌∷◌, ◌++◌}
use watgo.Common.{Result, ok, err, ◌>>=◌, ◌>>◌, guard, length, get_elem?, take, drop, ltb, not}
use watgo.Common.{if◌then◌else◌}
use watgo.Wasmir.{ValueType, value_type_i32, value_type_i64}
use watgo.Wasmir.Equality.{same_value_type}
use watgo.Vm.Value.{Error, Value, zero_value, check_args, check_results}
use watgo.Vm.State.{Machine, memory_inst, table_inst}
use watgo.Vm.Memories.{max_uint64}

abbrev pub Stack : Type 0
Stack = List Value

unfoldable pub push : Stack → Value → Stack
push stack v = stack ++ (v ∷ [])

-- The element at `last`, and the stack below it.
abbrev pub pop_at : Stack → ℕ → Result Error (Value × Stack)
pop_at stack last = elim (get_elem? stack last) [
  | none ↦ err Error.stack_underflow
  | some v ↦ ok (v, take last stack)
]

unfoldable pub pop : Stack → Result Error (Value × Stack)
pop stack = pop_at stack (length stack - 1)

unfoldable pub pop_want : Stack → ValueType → Result Error (Value × Stack)
pop_want stack want = do
  (v, rest) ← pop stack
  guard (same_value_type v.type want) Error.operand_type
  ok (v, rest)

unfoldable pub pop_i32 : Stack → Result Error (ℕ × Stack)
pop_i32 stack = do (v, rest) ← pop_want stack value_type_i32; ok (v.i32, rest)

unfoldable pub pop_i64 : Stack → Result Error (ℕ × Stack)
pop_i64 stack = do (v, rest) ← pop_want stack value_type_i64; ok (v.i64, rest)

abbrev pub push_i32 : Stack → ℕ → Stack
push_i32 stack n = push stack (record (zero_value value_type_i32) { i32 = n })

abbrev pub push_i64 : Stack → ℕ → Stack
push_i64 stack n = push stack (record (zero_value value_type_i64) { i64 = n })

unfoldable pub pop_args : Stack → List ValueType → Result Error (List Value × Stack)
pop_args stack params = do
  guard (not (ltb (length stack) (length params))) Error.stack_underflow
  let base = length stack - length params
  check_args params (drop base stack)
  ok (drop base stack, take base stack)

unfoldable pub pop_results : Stack → List ValueType → Result Error (List Value × Stack)
pop_results stack results = do
  guard (not (ltb (length stack) (length results))) Error.stack_underflow
  let base = length stack - length results
  check_results results (drop base stack)
  ok (drop base stack, take base stack)

-- The payloads are patterns already, so the conversions to uint64 keep the number.
unfoldable pub pop_index : Stack → ValueType → Result Error (ℕ × Stack)
pop_index stack address_type =
    if same_value_type address_type value_type_i32
    then pop_i32 stack
    else if same_value_type address_type value_type_i64
    then pop_i64 stack
    else err Error.unsupported_address_type

unfoldable pub push_index : Stack → ValueType → ℕ → Result Error Stack
push_index stack address_type value =
    if same_value_type address_type value_type_i32
    then ok (push_i32 stack (value % 2 ^ 32))
    else if same_value_type address_type value_type_i64
    then ok (push_i64 stack value)
    else err Error.unsupported_address_type

unfoldable pub pop_memory_index_operand : Machine → Stack → ℕ → Result Error (ℕ × Stack)
pop_memory_index_operand s stack memory_index = do
  p ← memory_inst s memory_index
  pop_index stack (s.memory_at p).address_type

unfoldable pub memory_address : ℕ → ℕ → Result Error ℕ
memory_address base offset =
    if ltb (max_uint64 - offset) base then err Error.address_overflow else ok (base + offset)

unfoldable pub pop_memory_address : Machine → Stack → ℕ → ℕ → Result Error (ℕ × Stack)
pop_memory_address s stack memory_index offset = do
  (base, rest) ← pop_memory_index_operand s stack memory_index
  address ← memory_address base offset
  ok (address, rest)

unfoldable pub push_memory_index_result : Machine → Stack → ℕ → ℕ → Result Error Stack
push_memory_index_result s stack memory_index value = do
  p ← memory_inst s memory_index
  push_index stack (s.memory_at p).address_type value

unfoldable pub pop_table_index_operand : Machine → Stack → ℕ → Result Error (ℕ × Stack)
pop_table_index_operand s stack table_index = do
  p ← table_inst s table_index
  pop_index stack (s.table_at p).address_type

unfoldable pub pop_table_copy_size_operand : Machine → Stack → ℕ → ℕ → Result Error (ℕ × Stack)
pop_table_copy_size_operand s stack dst_table_index src_table_index = do
  p ← table_inst s dst_table_index
  q ← table_inst s src_table_index
  if same_value_type (s.table_at p).address_type value_type_i64
        && same_value_type (s.table_at q).address_type value_type_i64
      then pop_i64 stack
      else pop_i32 stack

unfoldable pub push_table_index_result : Machine → Stack → ℕ → ℕ → Result Error Stack
push_table_index_result s stack table_index value = do
  p ← table_inst s table_index
  push_index stack (s.table_at p).address_type value
