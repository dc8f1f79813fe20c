-- ===== src/Tests/Immediates.antt =====
-- The theorems on limits, memory arguments and type definitions at concrete values.
use watgo.Common.{◌≡◌, inr, refl, arith, true, false, [], ◌∷◌, ◌++◌, ok, some}
use watgo.Wasmir.{Limits, FieldType, PackedType, value_type_i64, ref_type_indexed}
use watgo.Binary.Immediates.{write_memory_limits, write_table_limits, decode_memory_limits}
use watgo.Binary.Immediates.{decode_table_limits, MemArg, encode_mem_arg, decode_mem_instr}
use watgo.Binary.Immediates.RoundTrip.{decode_limits-write, decode_mem_instr-encode}
use watgo.Binary.Fields.{field_of}
use watgo.Binary.TypeDefs.{encode_one_type_def, decode_one_type_def}
use watgo.Binary.TypeDefs.RoundTrip.{decode_one_type_def-encode}
use watgo.Wasmir.{TypeDef, TypeDefKind, invalid_type}

abbrev limits : Limits
limits = record { address_type = value_type_i64; min = 1; max = some 65536 }

decode_limits-write_example :
    (decode_memory_limits (write_memory_limits limits ++ (7 ∷ [])) ≡ ok (limits, 7 ∷ []))
    × (decode_table_limits (write_table_limits limits ++ (7 ∷ [])) ≡ ok (limits, 7 ∷ []))
decode_limits-write_example =
    decode_limits-write limits (7 ∷ []) (inr refl, omega arith, omega arith)

abbrev mem_arg : MemArg
mem_arg = record { memory_index = 3; align = 2; offset = 300 }

decode_mem_instr-encode_example :
    decode_mem_instr (encode_mem_arg mem_arg ++ (7 ∷ [])) ≡ ok (mem_arg, 7 ∷ [])
decode_mem_instr-encode_example =
    decode_mem_instr-encode mem_arg (7 ∷ []) (omega arith) (omega arith) (omega arith)

abbrev field : FieldType
field = record { type = ref_type_indexed 3 true; packed = PackedType.none; mutable = true }

abbrev struct_def : TypeDef
struct_def = record {
  rec_group_size = 0;
  sub_type = true;
  final = false;
  super_types = 4 ∷ [];
  kind = TypeDefKind.struct;
  params = [];
  results = [];
  fields = field ∷ [];
  elem_field = field_of PackedType.none invalid_type false;
}

decode_one_type_def-encode_example :
    ((encode_one_type_def struct_def).1 ≡ true)
    × (decode_one_type_def ((encode_one_type_def struct_def).0 ++ (7 ∷ []))
        ≡ ok (struct_def, 7 ∷ []))
decode_one_type_def-encode_example =
    decode_one_type_def-encode struct_def (7 ∷ [])
      (refl, ((omega arith, tt), omega arith), (refl, refl, ((omega arith, tt), omega arith), refl))
