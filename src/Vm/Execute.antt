-- ===== src/Vm/Execute.antt =====
-- internal/vm/execute.go: the instructions of `executor.run` that go on with the next instruction,
-- over the function's operand stack and locals and the machine that its instance leads to.
use watgo.Common.{err}
use watgo.Common.{ℕ, ◌%◌, ◌^◌, Bool, false, List}
use watgo.Common.{Result, ok, ◌>>=◌, ◌>>◌, guard, if◌then◌else◌}
use watgo.Wasmir.Instr.{Instr}
use watgo.Vm.Value.{Error, Value, zero_value, runtime_type_matches}
use watgo.Vm.State.{Machine, lookup, set_elem}
use watgo.Vm.Operands.{Stack, push, pop, pop_i32, pop_memory_address}
use watgo.Vm.Operands.{pop_memory_index_operand, push_memory_index_result}
use watgo.Vm.Operands.{
  pop_table_index_operand, push_table_index_result, pop_table_copy_size_operand,
}
use watgo.Vm.Memories.{
  memory_load, memory_store, memory_size, memory_grow, memory_copy, memory_fill,
}
use watgo.Vm.Memories.{memory_init, data_drop, max_uint64}
use watgo.Vm.Tables.{
  table_get, table_set, table_size, table_grow, table_fill, table_copy, table_init,
}
use watgo.Vm.Tables.{elem_drop}
use watgo.Vm.Globals.{global_get, global_set}
use watgo.Vm.Evaluate.{load_size, store_size, extend_load, bits, pop_width, push_width}
use watgo.Vm.Evaluate.{eval_select, eval_typed_select, ref_is_null, step_numeric}

-- The fields of `executor` that these instructions change, and the machine.
pub record Executor : Type 0 where
  pub stack : Stack
  pub locals : List Value
  pub machine : Machine

abbrev pub with_stack : Executor → Stack → Executor
with_stack x stack = record x { stack = stack }

abbrev pub with_machine : Executor → Stack → Machine → Executor
with_machine x stack machine = record x { stack = stack; machine = machine }

-- The value that `local.set` and `local.tee` store, and the locals after it.
unfoldable pub set_local : List Value → ℕ → Value → Result Error (List Value)
set_local locals index v = do
  old ← lookup Error.local_index locals index
  guard (runtime_type_matches v.type old.type) Error.operand_type
  ok (set_elem locals index v)

-- What `memory.grow` and `table.grow` push: the old size, or -1 when there is no room.
abbrev pub grow_result : ℕ → Bool → ℕ
grow_result old grown = if grown then old else max_uint64

-- Locals and globals.
abbrev pub step_variable : Instr → Executor → Result Error Executor
step_variable (Instr.local_get index) x = do
  v ← lookup Error.local_index x.locals index
  ok (with_stack x (push x.stack v))
step_variable (Instr.local_set index) x = do
  (v, rest) ← pop x.stack
  locals ← set_local x.locals index v
  ok (record x { stack = rest; locals = locals })
step_variable (Instr.local_tee index) x = do
  (v, rest) ← pop x.stack
  locals ← set_local x.locals index v
  ok (record x { stack = push rest v; locals = locals })
step_variable (Instr.global_get index) x = do
  v ← global_get x.machine index false
  ok (with_stack x (push x.stack v))
step_variable (Instr.global_set index) x = do
  (v, rest) ← pop x.stack
  s ← global_set x.machine index v
  ok (with_machine x rest s)
step_variable ins x = err Error.unsupported_instruction

-- Loads and stores of integers.
abbrev pub step_access : Instr → Executor → Result Error Executor
step_access (Instr.load w op index offset) x = do
  (address, rest) ← pop_memory_address x.machine x.stack index offset
  raw ← memory_load x.machine index address (load_size w op)
  ok (with_stack x (push_width w rest (extend_load (bits w) op raw)))
step_access (Instr.store w op index offset) x = do
  (value, below) ← pop_width w x.stack
  (address, rest) ← pop_memory_address x.machine below index offset
  s ← memory_store x.machine index address (store_size w op) value
  ok (with_machine x rest s)
step_access ins x = err Error.unsupported_instruction

-- The instructions of memories and data segments other than loads and stores.
abbrev pub step_memory : Instr → Executor → Result Error Executor
step_memory (Instr.memory_size index) x = do
  pages ← memory_size x.machine index
  stack ← push_memory_index_result x.machine x.stack index pages
  ok (with_stack x stack)
step_memory (Instr.memory_grow index) x = do
  (delta, rest) ← pop_memory_index_operand x.machine x.stack index
  (old, grown, s) ← memory_grow x.machine index delta
  stack ← push_memory_index_result s rest index (grow_result old grown)
  ok (with_machine x stack s)
step_memory (Instr.memory_copy index source) x = do
  (size, below) ← pop_memory_index_operand x.machine x.stack index
  (src, under) ← pop_memory_index_operand x.machine below source
  (dst, rest) ← pop_memory_index_operand x.machine under index
  s ← memory_copy x.machine index dst source src size
  ok (with_machine x rest s)
step_memory (Instr.memory_fill index) x = do
  (size, below) ← pop_memory_index_operand x.machine x.stack index
  (value, under) ← pop_i32 below
  (dst, rest) ← pop_memory_index_operand x.machine under index
  s ← memory_fill x.machine index dst size (value % 2 ^ 8)
  ok (with_machine x rest s)
step_memory (Instr.memory_init index segment) x = do
  (size, below) ← pop_i32 x.stack
  (src, under) ← pop_i32 below
  (dst, rest) ← pop_memory_index_operand x.machine under index
  s ← memory_init x.machine index segment dst src size
  ok (with_machine x rest s)
step_memory (Instr.data_drop segment) x = do
  s ← data_drop x.machine segment
  ok (with_machine x x.stack s)
step_memory ins x = err Error.unsupported_instruction

-- Tables and element segments.
abbrev pub step_table : Instr → Executor → Result Error Executor
step_table (Instr.table_size index) x = do
  size ← table_size x.machine index
  stack ← push_table_index_result x.machine x.stack index size
  ok (with_stack x stack)
step_table (Instr.table_get index) x = do
  (i, rest) ← pop_table_index_operand x.machine x.stack index
  v ← table_get x.machine index i
  ok (with_stack x (push rest v))
step_table (Instr.table_set index) x = do
  (v, below) ← pop x.stack
  (i, rest) ← pop_table_index_operand x.machine below index
  s ← table_set x.machine index i v
  ok (with_machine x rest s)
step_table (Instr.table_grow index) x = do
  (delta, below) ← pop_table_index_operand x.machine x.stack index
  (init, rest) ← pop below
  (old, grown, s) ← table_grow x.machine index init delta
  stack ← push_table_index_result s rest index (grow_result old grown)
  ok (with_machine x stack s)
step_table (Instr.table_fill index) x = do
  (size, below) ← pop_table_index_operand x.machine x.stack index
  (value, under) ← pop below
  (dst, rest) ← pop_table_index_operand x.machine under index
  s ← table_fill x.machine index dst size value
  ok (with_machine x rest s)
step_table (Instr.table_copy index source) x = do
  (size, below) ← pop_table_copy_size_operand x.machine x.stack index source
  (src, under) ← pop_table_index_operand x.machine below source
  (dst, rest) ← pop_table_index_operand x.machine under index
  s ← table_copy x.machine index dst source src size
  ok (with_machine x rest s)
step_table (Instr.table_init index segment) x = do
  (size, below) ← pop_i32 x.stack
  (src, under) ← pop_i32 below
  (dst, rest) ← pop_table_index_operand x.machine under index
  s ← table_init x.machine index segment dst src size
  ok (with_machine x rest s)
step_table (Instr.elem_drop segment) x = do
  s ← elem_drop x.machine segment
  ok (with_machine x x.stack s)
step_table ins x = err Error.unsupported_instruction

-- `drop`, the two forms of `select`, and references.
abbrev pub step_parametric : Instr → Executor → Result Error Executor
step_parametric Instr.drop x = do (v, rest) ← pop x.stack; ok (with_stack x rest)
step_parametric Instr.select x = do (v, rest) ← eval_select x.stack; ok (with_stack x (push rest v))
step_parametric (Instr.select_typed t) x = do
  (v, rest) ← eval_typed_select x.stack t
  ok (with_stack x (push rest v))
step_parametric (Instr.ref_null t) x = ok (with_stack x (push x.stack (zero_value t)))
step_parametric Instr.ref_is_null x = do stack ← ref_is_null x.stack; ok (with_stack x stack)
step_parametric ins x = err Error.unsupported_instruction

unfoldable pub step_plain : Instr → Executor → Result Error Executor
step_plain Instr.drop x = step_parametric Instr.drop x
step_plain Instr.select x = step_parametric Instr.select x
step_plain (Instr.select_typed t) x = step_parametric (Instr.select_typed t) x
step_plain (Instr.local_get index) x = step_variable (Instr.local_get index) x
step_plain (Instr.local_set index) x = step_variable (Instr.local_set index) x
step_plain (Instr.local_tee index) x = step_variable (Instr.local_tee index) x
step_plain (Instr.global_get index) x = step_variable (Instr.global_get index) x
step_plain (Instr.global_set index) x = step_variable (Instr.global_set index) x
step_plain (Instr.ref_null t) x = step_parametric (Instr.ref_null t) x
step_plain Instr.ref_is_null x = step_parametric Instr.ref_is_null x
step_plain (Instr.load w op index offset) x = step_access (Instr.load w op index offset) x
step_plain (Instr.store w op index offset) x = step_access (Instr.store w op index offset) x
step_plain (Instr.memory_size index) x = step_memory (Instr.memory_size index) x
step_plain (Instr.memory_grow index) x = step_memory (Instr.memory_grow index) x
step_plain (Instr.memory_copy index source) x = step_memory (Instr.memory_copy index source) x
step_plain (Instr.memory_fill index) x = step_memory (Instr.memory_fill index) x
step_plain (Instr.memory_init index segment) x = step_memory (Instr.memory_init index segment) x
step_plain (Instr.data_drop segment) x = step_memory (Instr.data_drop segment) x
step_plain (Instr.table_size index) x = step_table (Instr.table_size index) x
step_plain (Instr.table_get index) x = step_table (Instr.table_get index) x
step_plain (Instr.table_set index) x = step_table (Instr.table_set index) x
step_plain (Instr.table_grow index) x = step_table (Instr.table_grow index) x
step_plain (Instr.table_fill index) x = step_table (Instr.table_fill index) x
step_plain (Instr.table_copy index source) x = step_table (Instr.table_copy index source) x
step_plain (Instr.table_init index segment) x = step_table (Instr.table_init index segment) x
step_plain (Instr.elem_drop segment) x = step_table (Instr.elem_drop segment) x
step_plain Instr.nop x = ok x
step_plain ins x = do stack ← step_numeric ins x.stack; ok (with_stack x stack)
