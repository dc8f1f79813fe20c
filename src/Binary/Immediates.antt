-- ===== src/Binary/Immediates.antt =====
-- Limits and memory arguments: `writeLimits`, `writeTableLimits`, `writeMemoryLimits` and
-- `encodeMemArg` of internal/binaryformat/encode.go, `decodeMemoryLimits`, `decodeTableLimits` and
-- `decodeMemInstr` of internal/binaryformat/decode.go.
pub mod RoundTrip
use watgo.Common.{ℕ, ◌+◌, ◌-◌, ◌%◌, ◌^◌, Option, none, some}
use watgo.Common.{List, [], ◌∷◌, ◌++◌, Result, ok, err, ◌>>=◌, leb, ◌==◌, if◌then◌else◌}
use watgo.Wasmir.{ValueType, Limits, value_type_i32, value_type_i64}
use watgo.Wasmir.Equality.{same_value_type}
use watgo.Binary.Reader.{Error, Decoder, read_byte}
use watgo.Binary.Leb.{write_uleb128, write_uleb64, read_u32, read_u64}

-- `hasMax` and `max` are one option, as they are in the caller.
unfoldable pub write_limits : ℕ → Option ℕ → List ℕ
write_limits min none = 0x00 ∷ write_uleb64 min
write_limits min (some max) = 0x01 ∷ write_uleb64 min ++ write_uleb64 max

abbrev write_limits64 : ℕ → Option ℕ → List ℕ
write_limits64 min none = 0x04 ∷ write_uleb64 min
write_limits64 min (some max) = 0x05 ∷ write_uleb64 min ++ write_uleb64 max

unfoldable pub write_table_limits : Limits → List ℕ
write_table_limits table =
    if same_value_type table.address_type value_type_i64
    then write_limits64 table.min table.max
    else write_limits table.min table.max

abbrev write_limits32 : ℕ → Option ℕ → List ℕ
write_limits32 min none = 0x00 ∷ write_uleb64 min
write_limits32 min (some max) = 0x01 ∷ write_uleb64 min ++ write_uleb64 max

unfoldable pub write_memory_limits : Limits → List ℕ
write_memory_limits mem =
    if same_value_type mem.address_type value_type_i64
    then write_limits64 mem.min mem.max
    else write_limits32 mem.min mem.max

abbrev decode_min : ValueType → Decoder Limits
decode_min address_type r = do
  (min, rest) ← read_u64 r
  ok (record { address_type = address_type; min = min; max = none }, rest)

abbrev decode_min_max : ValueType → Decoder Limits
decode_min_max address_type r = do
  (min, r₁) ← read_u64 r
  (max, rest) ← read_u64 r₁
  ok (record { address_type = address_type; min = min; max = some max }, rest)

unfoldable pub decode_memory_limits : Decoder Limits
decode_memory_limits r = do
  (flags, rest) ← read_byte r
  if flags == 0x00
      then decode_min value_type_i32 rest
      else if flags == 0x01
      then decode_min_max value_type_i32 rest
      else if flags == 0x04
      then decode_min value_type_i64 rest
      else if flags == 0x05
      then decode_min_max value_type_i64 rest
      else err Error.unsupported_limits_flags

unfoldable pub decode_table_limits : Decoder Limits
decode_table_limits r = decode_memory_limits r

-- The fields of `wasmir.Instruction` that say which memory an instruction works on, and where.
pub record MemArg : Type 0 where
  pub memory_index : ℕ
  pub align : ℕ
  pub offset : ℕ

-- The sum is of uint32.
unfoldable pub encode_mem_arg : MemArg → List ℕ
encode_mem_arg m =
    if m.memory_index == 0
    then write_uleb128 m.align ++ write_uleb64 m.offset
    else write_uleb128 ((m.align + 2 ^ 6) % 2 ^ 32)
      ++ (write_uleb128 m.memory_index ++ write_uleb64 m.offset)

abbrev decode_offset : ℕ → ℕ → Decoder MemArg
decode_offset memory_index align r = do
  (offset, rest) ← read_u64 r
  ok (record { memory_index = memory_index; align = align; offset = offset }, rest)

abbrev decode_indexed : ℕ → Decoder MemArg
decode_indexed align r = do (memory_index, rest) ← read_u32 r; decode_offset memory_index align rest

unfoldable pub decode_mem_instr : Decoder MemArg
decode_mem_instr r = do
  (align_field, rest) ← read_u32 r
  if leb (2 ^ 6) align_field
      then if leb (2 ^ 7) align_field
        then err Error.alignment_range
        else decode_indexed (align_field - 2 ^ 6) rest
      else decode_offset 0 align_field rest
