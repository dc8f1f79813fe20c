-- ===== src/Binary/Immediates/RoundTrip.antt =====
-- Limits and memory arguments are read back from what the encoder writes.
use watgo.Common.{ℕ, ◌+◌, ◌%◌, ◌^◌, ◌<◌, ◌≡◌, ◌⊎◌, inl, inr, arith}
use watgo.Common.{List, ◌++◌, ok, Option, none, some}
use watgo.Wasmir.{ValueType, Limits, value_type_i32, value_type_i64}
use watgo.Wasmir.Equality.{same_value_type}
use watgo.Binary.Leb.{write_uleb128, write_uleb64}
use watgo.Binary.Leb.Unsigned.{read_u32-write_uleb128, read_u64-write_uleb64}
use watgo.Binary.Immediates.{write_limits, write_table_limits, write_memory_limits}
use watgo.Binary.Immediates.{decode_memory_limits, decode_table_limits}
use watgo.Binary.Immediates.{MemArg, encode_mem_arg, decode_mem_instr}
use mathlib.Core.List.{append_assoc}

abbrev FitsMax : Option ℕ → Type 0
FitsMax none = Unit
FitsMax (some max) = max < 2 ^ 64

-- Limits of an object that is addressed by i32 or i64, whose numbers a uint64 holds.
abbrev pub IsLimits : Limits → Type 0
IsLimits l =
    ((l.address_type ≡ value_type_i32) ⊎ (l.address_type ≡ value_type_i64))
    × (l.min < 2 ^ 64)
    × FitsMax l.max

abbrev limits : ValueType → ℕ → Option ℕ → Limits
limits address_type min max = record { address_type = address_type; min = min; max = max }

both-round_trip :
    (vt : ValueType) (min : ℕ) (max : Option ℕ) (rest : List ℕ)
    → ((vt ≡ value_type_i32) ⊎ (vt ≡ value_type_i64))
    → min < 2 ^ 64
    → FitsMax max
    → (decode_memory_limits (write_memory_limits (limits vt min max) ++ rest)
        ≡ ok (limits vt min max, rest))
      × (write_table_limits (limits vt min max) ≡ write_memory_limits (limits vt min max))
unfolding decode_memory_limits write_memory_limits write_table_limits write_limits same_value_type
both-round_trip vt min none rest (inl h) small fits =
    rw h (ground (arith, read_u64-write_uleb64 min rest small))
both-round_trip vt min none rest (inr h) small fits =
    rw h (ground (arith, read_u64-write_uleb64 min rest small))
both-round_trip vt min (some max) rest (inl h) small fits = rw h (
    ground (
      arith,
      append_assoc (write_uleb64 min) (write_uleb64 max) rest,
      read_u64-write_uleb64 min (write_uleb64 max ++ rest) small,
      read_u64-write_uleb64 max rest fits,
    ))
both-round_trip vt min (some max) rest (inr h) small fits = rw h (
    ground (
      arith,
      append_assoc (write_uleb64 min) (write_uleb64 max) rest,
      read_u64-write_uleb64 min (write_uleb64 max ++ rest) small,
      read_u64-write_uleb64 max rest fits,
    ))

-- Limits whose address type is i32 or i64 and whose numbers a uint64 holds are read back from
-- what is written for a memory and from what is written for a table, and what follows is kept.
pub decode_limits-write :
    (l : Limits) (rest : List ℕ)
    → IsLimits l
    → (decode_memory_limits (write_memory_limits l ++ rest) ≡ ok (l, rest))
      × (decode_table_limits (write_table_limits l ++ rest) ≡ ok (l, rest))
unfolding decode_table_limits
decode_limits-write l rest (which, small, fits) =
    let (read, same) = both-round_trip l.address_type l.min l.max rest which small fits in
    (read, rw same read)

-- A memory argument whose alignment is below 64, the range that the format has for it, is read
-- back from what is written for it, whichever form its memory index chooses, and what follows is
-- kept.
pub decode_mem_instr-encode :
    (m : MemArg) (rest : List ℕ)
    → m.align < 2 ^ 6
    → m.memory_index < 2 ^ 32
    → m.offset < 2 ^ 64
    → decode_mem_instr (encode_mem_arg m ++ rest) ≡ ok (m, rest)
unfolding decode_mem_instr encode_mem_arg
decode_mem_instr-encode m rest aligned indexed small = ground (
  arith,
  append_assoc (write_uleb128 m.align) (write_uleb64 m.offset) rest,
  append_assoc (write_uleb128 ((m.align + 2 ^ 6) % 2 ^ 32))
      (write_uleb128 m.memory_index ++ write_uleb64 m.offset) rest,
  append_assoc (write_uleb128 m.memory_index) (write_uleb64 m.offset) rest,
  read_u32-write_uleb128 m.align (write_uleb64 m.offset ++ rest),
  read_u32-write_uleb128 ((m.align + 2 ^ 6) % 2 ^ 32)
      (write_uleb128 m.memory_index ++ (write_uleb64 m.offset ++ rest)),
  read_u32-write_uleb128 m.memory_index (write_uleb64 m.offset ++ rest),
  read_u64-write_uleb64 m.offset rest,
)
