-- ===== src/Vm/State.antt =====
-- internal/vm/instance.go: memories, tables, globals and segments, and the lookups of an instance.
-- A Go pointer to a memory, table or global is a number. Instances that import the same object
-- hold the same number, so a write through one is seen through the other.
pub mod Windows
use watgo.Common.{ℕ, ◌+◌, ◌-◌, ◌*◌, Bool, ◌||◌, Option, none, some, List, [], ◌∷◌, Result, ok, err}
use watgo.Common.{◌>>=◌, ◌>>◌, guard, not, ◌&&◌, length, get_elem?, ltb, ◌==◌, if◌then◌else◌}
use watgo.Common.Window.{window, overwrite}
use watgo.Wasmir.{ValueType}
use watgo.Vm.Value.{Error, Value}

pub record Memory : Type 0 where
  pub address_type : ValueType
  pub max : Option ℕ
  pub bytes : List ℕ

pub record Table : Type 0 where
  pub address_type : ValueType
  pub ref_type : ValueType
  pub max : Option ℕ
  pub elems : List Value

pub record Global : Type 0 where
  pub type : ValueType
  pub mutable : Bool
  pub value : Value

-- `dataInst` and `elemInst`.
pub record Segment {ℓ} (A : Type ℓ) : Type ℓ where
  pub init : List A
  pub dropped : Bool

-- The fields of `Instance` that the memory, table and global operations use, with the objects
-- that its pointers lead to.
pub record Machine : Type 0 where
  pub memory_at : ℕ → Memory
  pub table_at : ℕ → Table
  pub global_at : ℕ → Global
  pub memories : List ℕ
  pub tables : List ℕ
  pub globals : List ℕ
  pub data_segments : List (Segment ℕ)
  pub elem_segments : List (Segment Value)

-- `&slice[index]`, with the error that an index past the end gives.
abbrev pub lookup {ℓ} : {A : Type ℓ} → Error → List A → ℕ → Result Error A
lookup e xs i = elim (get_elem? xs i) [ none ↦ err e | some x ↦ ok x ]

-- The store after the object at `p` has changed.
abbrev pub put {ℓ} : {A : Type ℓ} → (ℕ → A) → ℕ → A → ℕ → A
put f p a q = if q == p then a else f q

-- The slice after its element at `i` has changed.
abbrev pub set_elem {ℓ} : {A : Type ℓ} → List A → ℕ → A → List A
set_elem xs i a = overwrite xs i (a ∷ [])

unfoldable pub memory_inst : Machine → ℕ → Result Error ℕ
memory_inst s index = lookup Error.memory_index s.memories index

unfoldable pub table_inst : Machine → ℕ → Result Error ℕ
table_inst s index = lookup Error.table_index s.tables index

unfoldable pub global_inst : Machine → ℕ → Result Error ℕ
global_inst s index = lookup Error.global_index s.globals index

unfoldable pub data_segment : Machine → ℕ → Result Error (Segment ℕ)
data_segment s index = lookup Error.data_index s.data_segments index

unfoldable pub elem_segment : Machine → ℕ → Result Error (Segment Value)
elem_segment s index = lookup Error.elem_index s.elem_segments index

-- The bounds test of `memory`, `table`, `memoryInit` and `tableInit`, as it is written there.
unfoldable pub out_of_bounds : ℕ → ℕ → ℕ → Bool
out_of_bounds len start size = ltb len start || ltb (len - start) size

-- The two tests that `memoryInit` and `tableInit` make of their segment: a dropped one is an
-- empty source, of which only offset 0 and size 0 are in bounds.
unfoldable pub check_segment {ℓ} :
    {A : Type ℓ} → Error → Segment A → ℕ → ℕ → Result Error (Unit {0})
unfolding out_of_bounds
check_segment e seg offset size =
    guard (not (seg.dropped && (not (offset == 0) || not (size == 0)))) e
    >> guard (not (out_of_bounds (length seg.init) offset size)) e

-- A Go slice of the memory or table at `pointer`.
pub record Slice : Type 0 where
  pub pointer : ℕ
  pub start : ℕ
  pub size : ℕ

abbrev pub slice : ℕ → ℕ → ℕ → Slice
slice p start size = record { pointer = p; start = start; size = size }

unfoldable pub memory : Machine → ℕ → ℕ → ℕ → Result Error Slice
unfolding memory_inst out_of_bounds
memory s index address size = do
  p ← memory_inst s index
  if out_of_bounds (length (s.memory_at p).bytes) address size
      then err Error.memory_bounds
      else ok (slice p address size)

unfoldable pub table : Machine → ℕ → ℕ → ℕ → Result Error Slice
unfolding table_inst out_of_bounds
table s index elem_index size = do
  p ← table_inst s index
  if out_of_bounds (length (s.table_at p).elems) elem_index size
      then err Error.table_bounds
      else ok (slice p elem_index size)

-- What a slice shows, and writing the whole of it.
abbrev pub bytes_of : Machine → Slice → List ℕ
bytes_of s w = window (s.memory_at w.pointer).bytes w.start w.size

abbrev pub set_data : Memory → List ℕ → Memory
set_data m bytes = record m { bytes = bytes }

abbrev pub set_memory : Machine → ℕ → List ℕ → Machine
set_memory s p bytes = record s { memory_at = put s.memory_at p (set_data (s.memory_at p) bytes) }

abbrev pub write_bytes : Machine → Slice → List ℕ → Machine
write_bytes s w bytes =
    set_memory s w.pointer (overwrite (s.memory_at w.pointer).bytes w.start bytes)

abbrev pub elems_of : Machine → Slice → List Value
elems_of s w = window (s.table_at w.pointer).elems w.start w.size

abbrev pub set_elems : Table → List Value → Table
set_elems t elems = record t { elems = elems }

abbrev pub set_table : Machine → ℕ → List Value → Machine
set_table s p elems = record s { table_at = put s.table_at p (set_elems (s.table_at p) elems) }

abbrev pub write_elems : Machine → Slice → List Value → Machine
write_elems s w elems = set_table s w.pointer (overwrite (s.table_at w.pointer).elems w.start elems)
