-- ===== src/Binary/TypeDefs.antt =====
-- Type definitions: `encodeOneTypeDef` of internal/binaryformat/encode.go, `decodeOneTypeDef` and
-- `decodeValueTypeVec` of internal/binaryformat/decode.go. Both sides collect what they report and
-- fail in the end when there is any of it; here the decoder stops at its first report.
pub mod RoundTrip
use watgo.Common.{ℕ, Bool, true, false, ◌&&◌, ◌||◌, List, [], ◌∷◌, ◌++◌, Result, ok, err, ◌>>=◌}
use watgo.Common.{◌==◌, if◌then◌else◌}
use watgo.Wasmir.{ValueType, PackedType, FieldType, TypeDefKind, TypeDef, invalid_type}
use watgo.Binary.Reader.{Error, Decoder, read_byte}
use watgo.Binary.Leb.{write_uleb128, read_u32}
use watgo.Binary.Types.{Written, encode_value_type, decode_value_type_from_reader}
use watgo.Binary.Vectors.{read_vector, write_vector}
use watgo.Binary.Fields.{field_of, encode_field_type, decode_field_type}

-- A parameter or a result that is not supported is reported, and a zero byte stands in for it.
unfoldable pub write_value_type : ValueType → List ℕ
write_value_type vt =
    let (bytes, supported) = encode_value_type vt in if supported then bytes else bytes ++ (0 ∷ [])

unfoldable pub write_field_type : FieldType → List ℕ
write_field_type field = (encode_field_type field).0

abbrev all_values_supported : List ValueType → Bool
all_values_supported [] = true
all_values_supported (vt ∷ vts) = (encode_value_type vt).1 && all_values_supported vts

abbrev all_fields_supported : List FieldType → Bool
all_fields_supported [] = true
all_fields_supported (field ∷ fields) = (encode_field_type field).1 && all_fields_supported fields

abbrev write_supertypes : (sub_type final : Bool) → List ℕ → List ℕ
write_supertypes false final supers = []
write_supertypes true final supers =
    (if final then 0x4f else 0x50) ∷ write_vector write_uleb128 supers

abbrev type_form : TypeDefKind → ℕ
type_form TypeDefKind.func = 0x60
type_form TypeDefKind.struct = 0x5f
type_form TypeDefKind.array = 0x5e

abbrev write_payload :
    TypeDefKind → (params results : List ValueType) → List FieldType → FieldType → List ℕ
write_payload TypeDefKind.func params results fields elem_field =
    write_vector write_value_type params ++ write_vector write_value_type results
write_payload TypeDefKind.struct params results fields elem_field =
    write_vector write_field_type fields
write_payload TypeDefKind.array params results fields elem_field = write_field_type elem_field

abbrev payload_supported :
    TypeDefKind → (params results : List ValueType) → List FieldType → FieldType → Bool
payload_supported TypeDefKind.func params results fields elem_field =
    all_values_supported params && all_values_supported results
payload_supported TypeDefKind.struct params results fields elem_field = all_fields_supported fields
payload_supported TypeDefKind.array params results fields elem_field =
    (encode_field_type elem_field).1

unfoldable pub encode_one_type_def : TypeDef → Written
encode_one_type_def ft = (
  write_supertypes ft.sub_type ft.final ft.super_types
      ++ (type_form ft.kind ∷ write_payload ft.kind ft.params ft.results ft.fields ft.elem_field),
  payload_supported ft.kind ft.params ft.results ft.fields ft.elem_field,
)

-- Go's zero value of a field.
abbrev no_field : FieldType
no_field = field_of PackedType.none invalid_type false

abbrev func_def : (sub_type final : Bool) → List ℕ → (params results : List ValueType) → TypeDef
func_def sub_type final supers params results = record {
  rec_group_size = 0;
  sub_type = sub_type;
  final = final;
  super_types = supers;
  kind = TypeDefKind.func;
  params = params;
  results = results;
  fields = [];
  elem_field = no_field;
}

unfoldable pub decode_value_type_vec : Decoder (List ValueType)
decode_value_type_vec r = read_vector decode_value_type_from_reader r

abbrev decode_func : (sub_type final : Bool) → List ℕ → Decoder TypeDef
decode_func sub_type final supers r = do
  (params, r₁) ← decode_value_type_vec r
  (results, rest) ← decode_value_type_vec r₁
  ok (func_def sub_type final supers params results, rest)

abbrev decode_struct : (sub_type final : Bool) → List ℕ → Decoder TypeDef
decode_struct sub_type final supers r = do
  (fields, rest) ← read_vector decode_field_type r
  ok (
    record (func_def sub_type final supers [] []) { kind = TypeDefKind.struct; fields = fields },
    rest,
  )

abbrev decode_array : (sub_type final : Bool) → List ℕ → Decoder TypeDef
decode_array sub_type final supers r = do
  (field, rest) ← decode_field_type r
  ok (
    record (func_def sub_type final supers [] []) { kind = TypeDefKind.array; elem_field = field },
    rest,
  )

unfoldable pub decode_body : (sub_type final : Bool) → List ℕ → ℕ → Decoder TypeDef
decode_body sub_type final supers form r =
    if form == 0x60
    then decode_func sub_type final supers r
    else if form == 0x5f
    then decode_struct sub_type final supers r
    else if form == 0x5e
    then decode_array sub_type final supers r
    else err Error.type_form

abbrev decode_sub : Bool → Decoder TypeDef
decode_sub final r = do
  (supers, r₁) ← read_vector read_u32 r
  (form, rest) ← read_byte r₁
  decode_body true final supers form rest

unfoldable pub decode_one_type_def : Decoder TypeDef
decode_one_type_def r = do
  (form, rest) ← read_byte r
  if form == 0x50 || (form == 0x4f)
      then decode_sub (form == 0x4f) rest
      else decode_body false false [] form rest
