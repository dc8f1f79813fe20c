-- ===== src/Tests.antt =====
-- Concrete machines, types and values, and in the modules below the theorems at them.
mod Binary
mod Immediates
mod Memories
mod Tables
mod Operations
mod Soundness
mod Validate
use watgo.Common.{ℕ, Bool, true, false, none, some, List, [], ◌∷◌, replicate}
use watgo.Wasmir.{ValueType, HeapKind, Limits, ref_type, value_type_i32, value_type_i64}
use watgo.Vm.Value.{Value, zero_value, i32_value}
use watgo.Vm.State.{Memory, Table, Global, Segment, Machine}

abbrev pub func_type : ValueType
func_type = ref_type HeapKind.func true

abbrev pub null_func : Value
null_func = zero_value func_type

abbrev pub other_func : Value
other_func = zero_value (ref_type HeapKind.func false)

abbrev pub small_memory : Memory
small_memory = record {
  address_type = value_type_i32;
  max = none;
  bytes = 10 ∷ 11 ∷ 12 ∷ 13 ∷ 14 ∷ 15 ∷ 16 ∷ 17 ∷ [];
}

abbrev pub empty_memory : Memory
empty_memory = record { address_type = value_type_i32; max = some 3; bytes = [] }

abbrev pub small_table : Table
small_table = record {
  address_type = value_type_i32;
  ref_type = func_type;
  max = some 6;
  elems = null_func ∷ other_func ∷ null_func ∷ null_func ∷ [];
}

abbrev pub counter : Global
counter = record { type = value_type_i32; mutable = true; value = i32_value 5 }

abbrev pub machine_over : Memory → Machine
machine_over mem = record {
  memory_at = λ _. mem;
  table_at = λ _. small_table;
  global_at = λ _. counter;
  memories = 7 ∷ 9 ∷ [];
  tables = 3 ∷ [];
  globals = 4 ∷ [];
  data_segments = record { init = 1 ∷ 2 ∷ 3 ∷ []; dropped = false } ∷ [];
  elem_segments = record { init = other_func ∷ null_func ∷ []; dropped = false } ∷ [];
}

abbrev pub machine : Machine
machine = machine_over small_memory

abbrev pub empty_machine : Machine
empty_machine = machine_over empty_memory
