-- ===== src/Binary/TypeDefs/RoundTrip.antt =====
-- Type definitions are read back from what the encoder writes.
use watgo.Common.{ℕ, ◌^◌, ◌<◌, ◌≡◌, refl, sym, Bool, true, false}
use watgo.Common.{List, [], ◌∷◌, ◌++◌, ok, err, All, length}
use watgo.Wasmir.{ValueType, FieldType, TypeDefKind, TypeDef}
use watgo.Binary.Reader.{Error}
use watgo.Binary.Leb.{write_uleb128, read_u32, read_uleb128, read_uleb_loop}
use watgo.Binary.Leb.Unsigned.{read_u32-write_uleb128}
use watgo.Binary.Types.{decode_value_type_from_reader}
use watgo.Binary.Types.RoundTrip.{IsEncodable, decode_value_type-encode}
use watgo.Binary.Vectors.{read_vector, write_vector}
use watgo.Binary.Vectors.RoundTrip.{read_vector-write}
use watgo.Binary.Fields.{decode_field_type}
use watgo.Binary.Fields.RoundTrip.{IsField, decode_field_type-encode}
use watgo.Binary.TypeDefs.{write_value_type, write_field_type, encode_one_type_def, no_field}
use watgo.Binary.TypeDefs.{decode_value_type_vec, decode_body, decode_one_type_def}
use watgo.Binary.TypeDefs.{write_supertypes, type_form, write_payload, payload_supported}
use watgo.Binary.TypeDefs.{all_values_supported, all_fields_supported, func_def}
use mathlib.Core.List.{append_assoc}

abbrev FitsU32 : ℕ → Type 0
FitsU32 n = n < 2 ^ 32

abbrev Vector : {A : Type 0} → (A → Type 0) → List A → Type 0
Vector Fits vs = All Fits vs × (length vs < 2 ^ 32)

abbrev SupersFit : (sub_type final : Bool) → List ℕ → Type 0
SupersFit true final supers = Vector FitsU32 supers
SupersFit false final supers = (final ≡ false) × (supers ≡ [])

abbrev PayloadFits :
    TypeDefKind → (params results : List ValueType) → List FieldType → FieldType → Type 0
PayloadFits TypeDefKind.func params results fields elem_field =
    Vector IsEncodable params × Vector IsEncodable results × (fields ≡ []) × (elem_field ≡ no_field)
PayloadFits TypeDefKind.struct params results fields elem_field =
    (params ≡ []) × (results ≡ []) × Vector IsField fields × (elem_field ≡ no_field)
PayloadFits TypeDefKind.array params results fields elem_field =
    (params ≡ []) × (results ≡ []) × (fields ≡ []) × IsField elem_field

-- A type definition outside a recursive group that uses the fields of its kind alone, in which
-- all types can be written and all lengths and type indices are those of a uint32.
abbrev pub IsTypeDef : TypeDef → Type 0
IsTypeDef t =
    (t.rec_group_size ≡ 0)
    × SupersFit t.sub_type t.final t.super_types
    × PayloadFits t.kind t.params t.results t.fields t.elem_field

value_type-round_trip :
    (vt : ValueType) (rest : List ℕ)
    → IsEncodable vt
    → decode_value_type_from_reader (write_value_type vt ++ rest) ≡ ok (vt, rest)
unfolding write_value_type
value_type-round_trip vt rest h =
    let (written, read) = decode_value_type-encode vt rest h in rw written read

empty_value_type : (e : Error) × (decode_value_type_from_reader [] ≡ err e)
unfolding decode_value_type_from_reader
empty_value_type = (Error.unexpected_eof, refl)

empty_field : (e : Error) × (decode_field_type [] ≡ err e)
unfolding decode_field_type
empty_field = (Error.unexpected_eof, refl)

empty_index : (e : Error) × (read_u32 [] ≡ err e)
unfolding read_u32 read_uleb128 read_uleb_loop
empty_index = (Error.unexpected_eof, refl)

values-round_trip :
    (vts : List ValueType) (rest : List ℕ)
    → Vector IsEncodable vts
    → decode_value_type_vec (write_vector write_value_type vts ++ rest) ≡ ok (vts, rest)
unfolding decode_value_type_vec
values-round_trip vts rest (h, small) =
    read_vector-write IsEncodable decode_value_type_from_reader write_value_type empty_value_type
      value_type-round_trip vts rest h small

fields-round_trip :
    (fields : List FieldType) (rest : List ℕ)
    → Vector IsField fields
    → read_vector decode_field_type (write_vector write_field_type fields ++ rest)
      ≡ ok (fields, rest)
unfolding write_field_type
fields-round_trip fields rest (h, small) =
    read_vector-write IsField decode_field_type write_field_type empty_field
      (λ v r fits. (decode_field_type-encode v r fits).1) fields rest h small

supers-round_trip :
    (supers : List ℕ) (rest : List ℕ)
    → Vector FitsU32 supers
    → read_vector read_u32 (write_vector write_uleb128 supers ++ rest) ≡ ok (supers, rest)
supers-round_trip supers rest (h, small) =
    read_vector-write FitsU32 read_u32 write_uleb128 empty_index read_u32-write_uleb128 supers rest
      h small

values-supported : (vts : List ValueType) → All IsEncodable vts → all_values_supported vts ≡ true
values-supported [] h = refl
values-supported (vt ∷ vts) (fits, h) =
    rw ((decode_value_type-encode vt [] fits).0) (values-supported vts h)

fields-supported :
    (fields : List FieldType) → All IsField fields → all_fields_supported fields ≡ true
fields-supported [] h = refl
fields-supported (field ∷ fields) (fits, h) =
    rw ((decode_field_type-encode field [] fits).0) (fields-supported fields h)

body-round_trip :
    (sub_type final : Bool) (supers : List ℕ) (k : TypeDefKind) (params results : List ValueType)
    → (fields : List FieldType) (elem_field : FieldType) (rest : List ℕ)
    → PayloadFits k params results fields elem_field
    → (decode_body sub_type final supers
          (type_form k)
          (write_payload k params results fields elem_field ++ rest)
        ≡ ok (
          record (func_def sub_type final supers params results) {
            kind = k;
            fields = fields;
            elem_field = elem_field;
          },
          rest,
        ))
      × (payload_supported k params results fields elem_field ≡ true)
unfolding decode_body write_field_type
body-round_trip sub_type final supers TypeDefKind.func params results fields elem_field rest
      (ps, rs, none_f, none_e) =
    (
      rw none_f (
          rw none_e (
            rw
              (append_assoc (write_vector write_value_type params)
                (write_vector write_value_type results) rest)
              (rw (values-round_trip params (write_vector write_value_type results ++ rest) ps)
                (rw (values-round_trip results rest rs) refl)))),
      rw (values-supported params ps.0) (values-supported results rs.0),
    )
body-round_trip sub_type final supers TypeDefKind.struct params results fields elem_field rest
      (none_p, none_r, fs, none_e) =
    (
      rw none_p (rw none_r (rw none_e (rw (fields-round_trip fields rest fs) refl))),
      fields-supported fields fs.0,
    )
body-round_trip sub_type final supers TypeDefKind.array params results fields elem_field rest
      (none_p, none_r, none_f, e) =
    let (written, read) = decode_field_type-encode elem_field rest e in
    (rw none_p (rw none_r (rw none_f (rw read refl))), written)

top-round_trip :
    (sub_type final : Bool) (supers : List ℕ) (k : TypeDefKind) (payload rest : List ℕ)
    (t : TypeDef)
    → SupersFit sub_type final supers
    → decode_body sub_type final supers (type_form k) (payload ++ rest) ≡ ok (t, rest)
    → decode_one_type_def
        ((write_supertypes sub_type final supers ++ (type_form k ∷ payload)) ++ rest)
      ≡ ok (t, rest)
unfolding decode_one_type_def
top-round_trip true true supers k payload rest t h e =
    rw (append_assoc (write_vector write_uleb128 supers) (type_form k ∷ payload) rest)
      (rw (supers-round_trip supers (type_form k ∷ (payload ++ rest)) h) e)
top-round_trip true false supers k payload rest t h e =
    rw (append_assoc (write_vector write_uleb128 supers) (type_form k ∷ payload) rest)
      (rw (supers-round_trip supers (type_form k ∷ (payload ++ rest)) h) e)
top-round_trip false final supers TypeDefKind.func payload rest t (f, s) e = rw f at (rw s at e)
top-round_trip false final supers TypeDefKind.struct payload rest t (f, s) e = rw f at (rw s at e)
top-round_trip false final supers TypeDefKind.array payload rest t (f, s) e = rw f at (rw s at e)

-- Every type definition outside a recursive group, with or without supertypes, that uses the
-- fields of its kind alone and whose types can be written is written without a report, and read
-- back from what was written, and what follows is kept.
pub decode_one_type_def-encode :
    (t : TypeDef) (rest : List ℕ)
    → IsTypeDef t
    → ((encode_one_type_def t).1 ≡ true)
      × (decode_one_type_def ((encode_one_type_def t).0 ++ rest) ≡ ok (t, rest))
unfolding encode_one_type_def
decode_one_type_def-encode t rest (group, supers, payload) =
    let (read, written) =
      body-round_trip t.sub_type t.final t.super_types t.kind t.params t.results t.fields
        t.elem_field rest payload in
    (
      written,
      top-round_trip t.sub_type t.final t.super_types t.kind
          (write_payload t.kind t.params t.results t.fields t.elem_field) rest t supers
          (rw (sym group) at read),
    )
