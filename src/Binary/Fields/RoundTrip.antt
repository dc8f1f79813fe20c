-- ===== src/Binary/Fields/RoundTrip.antt =====
-- Field types are read back from what the encoder writes.
use watgo.Common.{ℕ, ◌≡◌, refl, arith, Bool, true, false, List, [], ◌∷◌, ◌++◌, ok, if◌then◌else◌}
use watgo.Wasmir.{ValueType, PackedType, FieldType, invalid_type}
use watgo.Binary.Types.{encode_value_type, decode_value_type, decode_value_type_from_reader}
use watgo.Binary.Types.RoundTrip.{IsEncodable, decode_value_type-encode}
use watgo.Binary.Fields.{encode_field_type}
use watgo.Binary.Fields.{field_of, decode_field_type}
use mathlib.Core.List.{append_assoc}

abbrev StorageFits : PackedType → ValueType → Type 0
StorageFits PackedType.none type = IsEncodable type
StorageFits _ type = type ≡ invalid_type

-- A field is packed and has no type, or has a type that the format can write.
abbrev pub IsField : FieldType → Type 0
IsField ft = StorageFits ft.packed ft.type

abbrev mutability_byte : Bool → ℕ
mutability_byte mutable = if mutable then 0x01 else 0x00

-- A value type never starts with the byte of a packed type.
unpacked-storage :
    (src : List ℕ) (type : ValueType) (mutable : Bool) (rest : List ℕ)
    → decode_value_type_from_reader src ≡ ok (type, mutability_byte mutable ∷ rest)
    → decode_field_type src ≡ ok (field_of PackedType.none type mutable, rest)
unfolding decode_value_type_from_reader decode_field_type decode_value_type
unpacked-storage [] type mutable rest h = cc
unpacked-storage (b ∷ r) type true rest h = ground arith
unpacked-storage (b ∷ r) type false rest h = ground arith

fields-round_trip :
    (packed : PackedType) (type : ValueType) (mutable : Bool) (rest : List ℕ)
    → StorageFits packed type
    → ((encode_field_type (field_of packed type mutable)).1 ≡ true)
      × (decode_field_type ((encode_field_type (field_of packed type mutable)).0 ++ rest)
          ≡ ok (field_of packed type mutable, rest))
unfolding encode_field_type decode_field_type
fields-round_trip PackedType.i8 type true rest h = rw h (refl, refl)
fields-round_trip PackedType.i8 type false rest h = rw h (refl, refl)
fields-round_trip PackedType.i16 type true rest h = rw h (refl, refl)
fields-round_trip PackedType.i16 type false rest h = rw h (refl, refl)
fields-round_trip PackedType.none type mutable rest h =
    let (written, read) = decode_value_type-encode type (mutability_byte mutable ∷ rest) h in
    (
      written,
      rw written (
          rw (append_assoc (encode_value_type type).0 (mutability_byte mutable ∷ []) rest)
            (unpacked-storage _ type mutable rest read)),
    )

-- Every field that is packed and has no type, or that has an encodable type, is written, and read
-- back from what was written, its mutability included, and what follows is kept.
pub decode_field_type-encode :
    (field : FieldType) (rest : List ℕ)
    → IsField field
    → ((encode_field_type field).1 ≡ true)
      × (decode_field_type ((encode_field_type field).0 ++ rest) ≡ ok (field, rest))
decode_field_type-encode field rest h =
    fields-round_trip field.packed field.type field.mutable rest h
