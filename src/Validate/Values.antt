-- ===== src/Validate/Values.antt =====
-- internal/validate/validate.go: entries of the validation stack, address types, and when a value of
-- one type may stand where another type is expected.
use watgo.Common.{ℕ, Bool, true, false, ◌&&◌, ◌||◌, not, Option, none, some}
use watgo.Common.{get_elem?, length, ltb, if◌then◌else◌}
use watgo.Wasmir.{ValueKind, HeapKind, ValueType, Module, TypeDefKind}
use watgo.Wasmir.{value_type_i32, value_type_i64, invalid_type, ref_type, is_ref}
use watgo.Wasmir.{ElementType, FieldType, PackedType}
use watgo.Wasmir.Equality.{same_value_type, same_heap_kind, same_value_kind}

-- `validatedValue`: an unknown one is the bottom value of unreachable code.
pub record Checked : Type 0 where
  pub type : ValueType
  pub unknown : Bool

abbrev pub known : ValueType → Checked
known t = record { type = t; unknown = false }

abbrev pub unknown_value : Checked
unknown_value = record { type = invalid_type; unknown = true }

unfoldable pub same_validated_value : Checked → Checked → Bool
same_validated_value got want =
    if got.unknown || want.unknown then true else same_value_type got.type want.type

-- `addressType == i64` keeps i64, and all else is i32, a missing memory or table too.
unfoldable pub address_or_i32 : ValueType → ValueType
address_or_i32 t = if same_value_type t value_type_i64 then value_type_i64 else value_type_i32

unfoldable pub memory_address_type : Module → ℕ → ValueType
memory_address_type m index = elim (get_elem? m.memories index) [
  | none ↦ value_type_i32
  | some l ↦ address_or_i32 l.address_type
]

unfoldable pub table_address_type : Module → ℕ → ValueType
table_address_type m index = elim (get_elem? m.tables index) [
  | none ↦ value_type_i32
  | some t ↦ address_or_i32 t.limits.address_type
]

unfoldable pub valid_module_value_type : Module → ValueType → Bool
valid_module_value_type m vt =
    if not (is_ref vt)
    then not (same_value_kind vt.kind ValueKind.invalid)
    else if not (same_heap_kind vt.heap_type.kind HeapKind.type_index)
    then not (same_heap_kind vt.heap_type.kind HeapKind.invalid)
    else ltb vt.heap_type.index (length m.types)

unfoldable pub is_defaultable_value_type : ValueType → Bool
is_defaultable_value_type vt =
    if is_ref vt then vt.nullable else not (same_value_kind vt.kind ValueKind.invalid)

unfoldable pub is_defaultable_field_type : FieldType → Bool
unfolding is_defaultable_value_type
is_defaultable_field_type ft = elim ft.packed [
  | PackedType.none ↦ is_defaultable_value_type ft.type
  | PackedType.i8 ↦ true
  | PackedType.i16 ↦ true
]

segment_ref_type : ElementType → Option ValueType
segment_ref_type elem =
    if not (same_value_kind elem.ref_type.kind ValueKind.invalid)
    then some elem.ref_type
    else if ltb 0 elem.func_count
    then some (ref_type HeapKind.func true)
    else none

unfoldable pub element_ref_type : Module → ℕ → Option ValueType
unfolding segment_ref_type
element_ref_type m index = elim (get_elem? m.elements index) [
  | none ↦ none
  | some elem ↦ segment_ref_type elem
]

-- `==` on the kinds of type definitions.
abbrev pub same_def_kind : TypeDefKind → TypeDefKind → Bool
same_def_kind TypeDefKind.func TypeDefKind.func = true
same_def_kind TypeDefKind.struct TypeDefKind.struct = true
same_def_kind TypeDefKind.array TypeDefKind.array = true
same_def_kind _ _ = false

unfoldable pub type_index_has_kind : Module → ℕ → TypeDefKind → Bool
type_index_has_kind m index kind = elim (get_elem? m.types index) [
  | none ↦ false
  | some def ↦ same_def_kind def.kind kind
]

-- A reference type's own heap kind, or one of a type definition's kind.
abbrev has_def_kind : Module → ValueType → TypeDefKind → Bool
has_def_kind m vt kind =
    same_heap_kind vt.heap_type.kind HeapKind.type_index
    && type_index_has_kind m vt.heap_type.index kind

abbrev has_heap : ValueType → HeapKind → Bool
has_heap vt kind = same_heap_kind vt.heap_type.kind kind

-- The switch over the expected heap kind. `is_subtype` stands for `isTypeIndexSubtype`, which
-- compares type definitions up to the equality of recursive groups.
unfoldable pub heap_type_matches : Module → (ℕ → ℕ → Bool) → ValueType → ValueType → HeapKind → Bool
unfolding type_index_has_kind
heap_type_matches m is_subtype got want HeapKind.any =
    has_heap got HeapKind.none
    || has_heap got HeapKind.any
    || has_heap got HeapKind.eq
    || has_heap got HeapKind.i31
    || has_heap got HeapKind.array
    || has_heap got HeapKind.struct
    || has_heap got HeapKind.type_index
heap_type_matches m is_subtype got want HeapKind.none = has_heap got HeapKind.none
heap_type_matches m is_subtype got want HeapKind.eq =
    has_heap got HeapKind.none
    || has_heap got HeapKind.eq
    || has_heap got HeapKind.i31
    || has_heap got HeapKind.array
    || has_heap got HeapKind.struct
    || has_def_kind m got TypeDefKind.struct
    || has_def_kind m got TypeDefKind.array
heap_type_matches m is_subtype got want HeapKind.i31 = has_heap got HeapKind.i31
heap_type_matches m is_subtype got want HeapKind.array =
    has_heap got HeapKind.array || has_def_kind m got TypeDefKind.array
heap_type_matches m is_subtype got want HeapKind.struct =
    has_heap got HeapKind.struct || has_def_kind m got TypeDefKind.struct
heap_type_matches m is_subtype got want HeapKind.func =
    has_heap got HeapKind.func
    || has_heap got HeapKind.no_func
    || has_def_kind m got TypeDefKind.func
heap_type_matches m is_subtype got want HeapKind.extern =
    has_heap got HeapKind.extern || has_heap got HeapKind.no_extern
heap_type_matches m is_subtype got want HeapKind.no_extern = has_heap got HeapKind.no_extern
heap_type_matches m is_subtype got want HeapKind.exn =
    has_heap got HeapKind.exn || has_heap got HeapKind.no_exn
heap_type_matches m is_subtype got want HeapKind.no_exn = has_heap got HeapKind.no_exn
heap_type_matches m is_subtype got want HeapKind.no_func = has_heap got HeapKind.no_func
heap_type_matches m is_subtype got want HeapKind.type_index =
    if has_heap got HeapKind.type_index
    then is_subtype got.heap_type.index want.heap_type.index
    else (has_heap got HeapKind.none
        && want.nullable
        && (type_index_has_kind m want.heap_type.index TypeDefKind.struct
            || type_index_has_kind m want.heap_type.index TypeDefKind.array))
      || (has_heap got HeapKind.no_func
          && want.nullable
          && type_index_has_kind m want.heap_type.index TypeDefKind.func)
heap_type_matches m is_subtype got want HeapKind.invalid = false

unfoldable pub matches_ref_type : Module → (ℕ → ℕ → Bool) → ValueType → ValueType → Bool
matches_ref_type m is_subtype got want =
    if same_value_type got want
    then true
    else if not (is_ref got) || not (is_ref want)
    then false
    else if got.nullable && not want.nullable
    then false
    else heap_type_matches m is_subtype got want want.heap_type.kind

unfoldable pub diff_ref_type : ValueType → ValueType → ValueType
diff_ref_type src target =
    if not (is_ref src) || not (is_ref target)
    then invalid_type
    else if same_value_type src target && not src.nullable
    then invalid_type
    else if src.nullable && target.nullable
    then record src { nullable = false }
    else src

unfoldable pub matches_gc_expected : Module → (ℕ → ℕ → Bool) → ValueType → ValueType → Bool
matches_gc_expected m is_subtype got want =
    if is_ref got || is_ref want
    then matches_ref_type m is_subtype got want
    else same_value_type got want

unfoldable pub matches_expected : Module → (ℕ → ℕ → Bool) → Checked → ValueType → Bool
unfolding matches_gc_expected
matches_expected m is_subtype got want =
    if got.unknown then true else matches_gc_expected m is_subtype got.type want

-- `refinedNonNullValue`.
unfoldable pub refined_non_null : Checked → Checked
refined_non_null v =
    if v.unknown
    then v
    else if is_ref v.type
    then record v { type = record (v.type) { nullable = false } }
    else v
