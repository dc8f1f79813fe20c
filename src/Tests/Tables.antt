-- ===== src/Tests/Tables.antt =====
-- The theorems on tables and globals at concrete machines.
use watgo.Common.{ℕ, ◌+◌, ◌≡◌, ◌↔◌, ◌⊎◌, inl, inr, refl, arith}
use watgo.Common.{true, false, some, [], ◌∷◌, ◌++◌, ok, IsOk, get_elem?, replicate}
use watgo.Common.Window.{window, overwrite}
use watgo.Wasmir.{Limits, value_type_i32}
use watgo.Wasmir.Equality.{same_value_type}
use watgo.Vm.Value.{Value, Fits, check_args, runtime_type_matches, i32_value}
use watgo.Vm.State.{Machine, Segment, table, table_inst, elem_segment, set_table, global_inst}
use watgo.Vm.State.Windows.{InTable, InSegment}
use watgo.Vm.Tables.{table_get, table_set, table_grow, table_copy, table_init}
use watgo.Vm.Tables.{max_elements, can_grow_table}
use watgo.Vm.Tables.Access.{FitsTable, table_get-table_set}
use watgo.Vm.Tables.Bulk.{table_copy_elems, table_init_iff}
use watgo.Vm.Tables.Grow.{RoomForElems, table_grow-cases}
use watgo.Vm.Tables.Valid.{IsValidTable, AllValidTables, table_grow-AllValidTables}
use watgo.Vm.Globals.{
  global_get, global_set, set_value, global_set_iff, global_get-global_set, set_global, with_value,
}
use watgo.Tests.{machine, small_table, null_func, other_func, counter}

abbrev after_set : Machine
after_set = set_table machine 3 (null_func ∷ other_func ∷ other_func ∷ null_func ∷ [])

table_get-table_set_example : table_get after_set 0 2 ≡ ok other_func
unfolding table_set table table_inst check_args runtime_type_matches same_value_type window
    overwrite
table_get-table_set_example = table_get-table_set machine 0 2 other_func after_set refl

abbrev after_table_copy : Machine
after_table_copy = set_table machine 3 (null_func ∷ null_func ∷ other_func ∷ null_func ∷ [])

table_copy_elems_example :
    get_elem? (after_table_copy.table_at 3).elems (1 + 1)
    ≡ get_elem? (machine.table_at 3).elems (0 + 1)
unfolding table_copy table table_inst window overwrite
table_copy_elems_example =
    table_copy_elems machine 0 1 0 0 2 after_table_copy 3 3 1 refl refl refl (omega arith)

table_init_iff_example : IsOk (table_init machine 0 0 3 0 2) ↔ (
    ((seg : Segment Value) × (elem_segment machine 0 ≡ ok seg) × InSegment seg 0 2)
    × ((p : ℕ) × InTable machine 0 3 2 p))
table_init_iff_example = table_init_iff machine 0 0 3 0 2

other_func-FitsTable : FitsTable machine 3 other_func
other_func-FitsTable = inr (refl, refl)

table_grow-cases_example :
    (RoomForElems small_table (4 + 2)
      × (table_grow machine 0 other_func 2
          ≡ ok (4, true, set_table machine 3 (small_table.elems ++ replicate 2 other_func))))
    ⊎ ((¬ RoomForElems small_table (4 + 2))
        × (table_grow machine 0 other_func 2 ≡ ok (4, false, machine)))
table_grow-cases_example = table_grow-cases machine 0 3 other_func 2 refl other_func-FitsTable

small_table-IsValidTable : IsValidTable small_table
unfolding max_elements
small_table-IsValidTable = record {
  ref_typed = refl;
  bounded = (omega arith, omega arith);
  all_fit = (inl refl, (inr (refl, refl), (inl refl, (inl refl, tt))));
}

abbrev after_table_grow : Machine
after_table_grow = set_table machine 3 (small_table.elems ++ (other_func ∷ other_func ∷ []))

table_grow-AllValidTables_example : AllValidTables after_table_grow
unfolding table_grow table_inst check_args runtime_type_matches same_value_type can_grow_table
table_grow-AllValidTables_example =
    table_grow-AllValidTables machine 0 3 other_func 2 4 true after_table_grow
      (λ p. small_table-IsValidTable) refl other_func-FitsTable refl

abbrev two_elements : Limits
two_elements = record { address_type = value_type_i32; min = 2; max = some 3 }

abbrev after_global_set : Machine
after_global_set = set_global machine 4 (with_value counter (i32_value 6))

global_set_iff_example : (global_set machine 0 (i32_value 6) ≡ ok after_global_set) ↔ (
    (p : ℕ) × (global_inst machine 0 ≡ ok p)
    × (counter.mutable ≡ true)
    × Fits value_type_i32 counter.type
    × (after_global_set ≡ set_global machine p (with_value counter (i32_value 6))))
global_set_iff_example = global_set_iff machine 0 (i32_value 6) after_global_set

global_get-global_set_example : global_get after_global_set 0 false ≡ ok (i32_value 6)
unfolding global_set set_value global_inst check_args runtime_type_matches same_value_type
global_get-global_set_example = global_get-global_set machine 0 (i32_value 6) after_global_set refl
