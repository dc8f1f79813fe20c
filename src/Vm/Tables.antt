-- ===== src/Vm/Tables.antt =====
-- internal/vm/instance.go: tables of references. An operation gives the machine after it, or the
-- error that it stops with, which is always before the first write.
pub mod Access
pub mod Bulk
pub mod Grow
pub mod Valid
use watgo.Common.{ℕ, ◌+◌, ◌-◌, ◌^◌, Bool, true, false, ◌&&◌, not, Option, none, some}
use watgo.Common.{List, [], ◌∷◌, ◌++◌, Result, ok, err, ◌>>=◌, ◌>>◌, guard}
use watgo.Common.{length, replicate, get_elem?, ltb, if◌then◌else◌}
use watgo.Common.Window.{window}
use watgo.Wasmir.{ValueType, Limits, value_type_i32, is_ref}
use watgo.Wasmir.Equality.{same_value_type}
use watgo.Vm.Value.{Error, Value, zero_value, check_args, check_results}
use watgo.Vm.State.{Table, Machine, Slice, table, table_inst, elem_segment, check_segment}
use watgo.Vm.State.{elems_of, write_elems, set_table, set_elem}
use watgo.Vm.Memories.{max_int, max_uint64, is_address_type, drop_segment}

-- `maxTableElements`, and the largest index of an i32 table.
abbrev pub max_table_elements : ℕ
max_table_elements = 2 ^ 20

abbrev pub max_uint32 : ℕ
max_uint32 = 2 ^ 32 - 1

unfoldable pub max_elements : Table → ℕ
max_elements t = elim t.max [ none ↦ max_int | some m ↦ m ]

-- `table[0]` of a window of one element.
abbrev pub first : List Value → Result Error Value
first [] = err Error.table_bounds
first (v ∷ vs) = ok v

unfoldable pub table_get : Machine → ℕ → ℕ → Result Error Value
table_get s index elem_index = do w ← table s index elem_index 1; first (elems_of s w)

unfoldable pub table_set : Machine → ℕ → ℕ → Value → Result Error Machine
table_set s index elem_index value = do
  p ← table_inst s index
  check_args ((s.table_at p).ref_type ∷ []) (value ∷ [])
  w ← table s index elem_index 1
  ok (write_elems s w (value ∷ []))

unfoldable pub table_size : Machine → ℕ → Result Error ℕ
table_size s index = do p ← table_inst s index; ok (length (s.table_at p).elems)

-- Whether `tableGrow` goes past its four tests.
unfoldable pub can_grow_table : Table → ℕ → ℕ → Bool
unfolding max_elements
can_grow_table t old_size delta =
    not (ltb (max_uint64 - old_size) delta)
    && not (ltb max_table_elements (old_size + delta))
    && not (ltb (max_elements t) (old_size + delta))
    && not (same_value_type t.address_type value_type_i32 && ltb max_uint32 (old_size + delta))
    && not (ltb max_int (old_size + delta))

-- The old size, whether the table has grown, and the machine after it.
unfoldable pub table_grow : Machine → ℕ → Value → ℕ → Result Error (ℕ × Bool × Machine)
table_grow s index init delta = do
  p ← table_inst s index
  check_args ((s.table_at p).ref_type ∷ []) (init ∷ [])
  let old_size = length (s.table_at p).elems
  if can_grow_table (s.table_at p) old_size delta
      then ok (old_size, true, set_table s p ((s.table_at p).elems ++ replicate delta init))
      else ok (old_size, false, s)

unfoldable pub table_fill : Machine → ℕ → ℕ → ℕ → Value → Result Error Machine
table_fill s index elem_index size value = do
  p ← table_inst s index
  check_args ((s.table_at p).ref_type ∷ []) (value ∷ [])
  dst ← table s index elem_index size
  ok (write_elems s dst (replicate dst.size value))

unfoldable pub table_copy : Machine → ℕ → ℕ → ℕ → ℕ → ℕ → Result Error Machine
table_copy s dst_index dst_elem_index src_index src_elem_index size = do
  dst ← table s dst_index dst_elem_index size
  src ← table s src_index src_elem_index size
  ok (write_elems s dst (elems_of s src))

unfoldable pub table_init : Machine → ℕ → ℕ → ℕ → ℕ → ℕ → Result Error Machine
table_init s index elem_index dst_elem_index src_offset size = do
  seg ← elem_segment s elem_index
  check_segment Error.elem_bounds seg src_offset size
  dst ← table s index dst_elem_index size
  ok (write_elems s dst (window seg.init src_offset size))

unfoldable pub elem_drop : Machine → ℕ → Result Error Machine
elem_drop s index = do
  seg ← elem_segment s index
  ok (record s { elem_segments = set_elem s.elem_segments index (drop_segment seg) })

unfoldable pub zero_table_value : ValueType → Result Error Value
zero_table_value ref_type = do
  guard (is_ref ref_type) Error.not_a_reference
  guard ref_type.nullable Error.non_nullable_table
  ok (zero_value ref_type)

abbrev pub initial_table : Limits → ValueType → Value → Table
initial_table t ref_type init = record {
  address_type = t.address_type;
  ref_type = ref_type;
  max = t.max;
  elems = replicate t.min init;
}

-- `newTable`, a table's reference type beside its limits.
unfoldable pub new_table_with : Limits → ValueType → Value → Result Error Table
new_table_with t ref_type init = do
  guard (is_address_type t.address_type) Error.unsupported_address_type
  guard (not (ltb max_table_elements t.min)) Error.table_limit
  check_results (ref_type ∷ []) (init ∷ [])
  ok (initial_table t ref_type init)

-- `NewTable`.
unfoldable pub new_table : Limits → ValueType → Result Error Table
new_table t ref_type = do
  guard (is_address_type t.address_type) Error.unsupported_address_type
  init ← zero_table_value ref_type
  new_table_with t ref_type init
