-- ===== src/Binary/Fields.antt =====
-- Field types: `encodeFieldStorageType` and the writing of a field in `encodeOneTypeDef` of
-- internal/binaryformat/encode.go, `decodeFieldType` of internal/binaryformat/decode.go.
pub mod RoundTrip
use watgo.Common.{ℕ, Bool, true, false, List, [], ◌∷◌, ◌++◌, Result, ok, err, ◌>>=◌}
use watgo.Common.{◌==◌, if◌then◌else◌}
use watgo.Wasmir.{ValueType, PackedType, FieldType, invalid_type}
use watgo.Binary.Reader.{Error, Decoder, read_byte}
use watgo.Binary.Types.{Written, encode_value_type, decode_value_type_from_leading_byte}

abbrev storage_bytes : PackedType → ValueType → Written
storage_bytes PackedType.i8 type = (0x78 ∷ [], true)
storage_bytes PackedType.i16 type = (0x77 ∷ [], true)
storage_bytes PackedType.none type = encode_value_type type

unfoldable pub encode_field_storage_type : FieldType → Written
encode_field_storage_type ft = storage_bytes ft.packed ft.type

-- A storage type that is not supported is reported, and a zero byte stands in for it.
unfoldable pub encode_field_type : FieldType → Written
unfolding encode_field_storage_type
encode_field_type field =
    let (bytes, supported) = encode_field_storage_type field in
    let storage = if supported then bytes else bytes ++ (0 ∷ []) in
    (storage ++ ((if field.mutable then 0x01 else 0x00) ∷ []), supported)

abbrev pub field_of : PackedType → ValueType → Bool → FieldType
field_of packed type mutable = record { type = type; packed = packed; mutable = mutable }

-- The storage type alone: the field that is returned is not mutable yet.
unfoldable pub decode_storage : ℕ → Decoder FieldType
decode_storage b r =
    if b == 0x78
    then ok (field_of PackedType.i8 invalid_type false, r)
    else if b == 0x77
    then ok (field_of PackedType.i16 invalid_type false, r)
    else decode_value_type_from_leading_byte b r >>= λ (vt, rest).
        ok (field_of PackedType.none vt false, rest)

unfoldable pub set_mutability : FieldType → ℕ → Result Error FieldType
set_mutability field mut =
    if mut == 0x00
    then ok (record field { mutable = false })
    else if mut == 0x01
    then ok (record field { mutable = true })
    else err Error.mutability

unfoldable pub decode_field_type : Decoder FieldType
unfolding decode_storage set_mutability
decode_field_type r = do
  (b, r₁) ← read_byte r
  (storage, r₂) ← decode_storage b r₁
  (mut, rest) ← read_byte r₂
  field ← set_mutability storage mut
  ok (field, rest)
