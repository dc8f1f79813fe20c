-- ===== src/Vm/Memories.antt =====
-- internal/vm/instance.go: linear memories. An operation gives the machine after it, or the error
-- that it stops with, which is always before the first write.
pub mod Bytes
pub mod Access
pub mod Bulk
pub mod Grow
pub mod Valid
use watgo.Common.{ℕ, zero, suc, ◌+◌, ◌-◌, ◌*◌, ◌/◌, ◌%◌, ◌^◌, Bool, true, false, ◌||◌, ◌&&◌, not}
use watgo.Common.{Option, none, some, List, [], ◌∷◌, ◌++◌, Result, ok, err, ◌>>=◌, ◌>>◌, guard}
use watgo.Common.{length, replicate, take, ltb, ◌==◌, if◌then◌else◌}
use watgo.Common.Window.{window}
use watgo.Wasmir.{ValueType, Limits, value_type_i32, value_type_i64}
use watgo.Wasmir.Equality.{same_value_type}
use watgo.Vm.Value.{Error}
use watgo.Vm.State.{Memory, Machine, Segment, Slice, memory, memory_inst, data_segment}
use watgo.Vm.State.{check_segment, bytes_of, write_bytes, set_memory, set_elem}

-- `wasmPageSize`, `maxWasm32MemoryPages` and the largest Go `int`.
abbrev pub page_size : ℕ
page_size = 65536

abbrev pub max_wasm32_memory_pages : ℕ
max_wasm32_memory_pages = 65536

abbrev pub max_int : ℕ
max_int = 2 ^ 63 - 1

abbrev pub max_uint64 : ℕ
max_uint64 = 2 ^ 64 - 1

-- `binary.LittleEndian`, of any number of bytes.
abbrev pub from_le : List ℕ → ℕ
from_le [] = 0
from_le (b ∷ bs) = b + 256 * from_le bs

abbrev pub to_le : ℕ → ℕ → List ℕ
to_le zero v = []
to_le (suc n) v = v % 256 ∷ to_le n (v / 256)

-- The cases of the two switches over an access size.
unfoldable pub supported_size : ℕ → Bool
supported_size size = size == 1 || (size == 2) || (size == 4) || (size == 8)

unfoldable pub memory_load : Machine → ℕ → ℕ → ℕ → Result Error ℕ
unfolding supported_size
memory_load s index address size = do
  mem ← memory s index address size
  if supported_size size then ok (from_le (bytes_of s mem)) else err Error.unsupported_size

unfoldable pub memory_store : Machine → ℕ → ℕ → ℕ → ℕ → Result Error Machine
unfolding supported_size
memory_store s index address size value = do
  mem ← memory s index address size
  if supported_size size
      then ok (write_bytes s mem (to_le size value))
      else err Error.unsupported_size

unfoldable pub memory_size : Machine → ℕ → Result Error ℕ
memory_size s index = do p ← memory_inst s index; ok (length (s.memory_at p).bytes / page_size)

limit_or : Option ℕ → ℕ → ℕ
limit_or none n = n
limit_or (some m) n = m

unfoldable pub max_pages : Memory → ℕ
unfolding limit_or
max_pages mem = limit_or mem.max (
    if same_value_type mem.address_type value_type_i32
    then max_wasm32_memory_pages
    else max_int / page_size)

-- Whether `memoryGrow` goes past its three tests.
unfoldable pub can_grow : Memory → ℕ → ℕ → Bool
unfolding max_pages
can_grow mem old_pages delta =
    not (ltb (max_uint64 - old_pages) delta)
    && not (ltb (max_pages mem) (old_pages + delta))
    && not (ltb (max_int / page_size) (old_pages + delta))

abbrev grown_bytes : List ℕ → ℕ → List ℕ
grown_bytes bytes new_pages = bytes ++ replicate (new_pages * page_size - length bytes) 0

-- The old size, whether the memory has grown, and the machine after it.
unfoldable pub memory_grow : Machine → ℕ → ℕ → Result Error (ℕ × Bool × Machine)
memory_grow s index delta = do
  p ← memory_inst s index
  let old_pages = length (s.memory_at p).bytes / page_size
  if can_grow (s.memory_at p) old_pages delta
      then ok
          (old_pages, true, set_memory s p (grown_bytes (s.memory_at p).bytes (old_pages + delta)))
      else ok (old_pages, false, s)

unfoldable pub memory_copy : Machine → ℕ → ℕ → ℕ → ℕ → ℕ → Result Error Machine
memory_copy s dst_index dst_address src_index src_address size = do
  dst ← memory s dst_index dst_address size
  src ← memory s src_index src_address size
  ok (write_bytes s dst (bytes_of s src))

unfoldable pub memory_fill : Machine → ℕ → ℕ → ℕ → ℕ → Result Error Machine
memory_fill s index address size value = do
  dst ← memory s index address size
  ok (write_bytes s dst (replicate dst.size value))

unfoldable pub memory_init : Machine → ℕ → ℕ → ℕ → ℕ → ℕ → Result Error Machine
unfolding data_segment
memory_init s memory_index data_index dst_address src_offset size = do
  seg ← data_segment s data_index
  check_segment Error.data_bounds seg src_offset size
  dst ← memory s memory_index dst_address size
  ok (write_bytes s dst (window seg.init src_offset size))

abbrev pub drop_segment {ℓ} : {A : Type ℓ} → Segment A → Segment A
drop_segment seg = record seg { dropped = true }

unfoldable pub data_drop : Machine → ℕ → Result Error Machine
unfolding data_segment
data_drop s index = do
  seg ← data_segment s index
  ok (record s { data_segments = set_elem s.data_segments index (drop_segment seg) })

abbrev pub is_address_type : ValueType → Bool
is_address_type vt = same_value_type vt value_type_i32 || same_value_type vt value_type_i64

abbrev pub initial_memory : Limits → Memory
initial_memory m = record {
  address_type = m.address_type;
  max = m.max;
  bytes = replicate (m.min * page_size) 0;
}

unfoldable pub new_memory : Limits → Result Error Memory
new_memory m = do
  guard (is_address_type m.address_type) Error.unsupported_address_type
  guard (not (ltb (max_int / page_size) m.min)) Error.minimum_too_large
  ok (initial_memory m)
