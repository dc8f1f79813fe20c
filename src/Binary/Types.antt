-- ===== src/Binary/Types.antt =====
-- Value types and heap types: `valueTypeCode`, `refTypeCode`, `encodeValueType` and
-- `writeHeapTypeImmediate` of internal/binaryformat/encode.go, `decodeValueType`,
-- `decodeHeapTypeImmediate` and the readers over them of internal/binaryformat/decode.go.
pub mod RoundTrip
use watgo.Common.{ℕ, ◌+◌, ◌-◌, ◌%◌, ◌^◌, Bool, true, false, not, Option, none, some}
use watgo.Common.{◌||◌, List, [], ◌∷◌, ◌++◌, Result, ok, err, ◌>>=◌, leb, ◌==◌, if◌then◌else◌}
use watgo.Wasmir.{ValueKind, HeapKind, ValueType, is_ref, uses_type_index}
use watgo.Wasmir.{value_type_i32, value_type_i64, value_type_f32, value_type_f64, value_type_v128}
use watgo.Wasmir.{ref_type, ref_type_indexed}
use watgo.Binary.Reader.{Error, Decoder, read_byte}
use watgo.Binary.Leb.{write_sleb128, read_s33}

heap_kind_byte : HeapKind → Option ℕ
heap_kind_byte HeapKind.no_func = some 0x73
heap_kind_byte HeapKind.no_exn = some 0x74
heap_kind_byte HeapKind.no_extern = some 0x72
heap_kind_byte HeapKind.none = some 0x71
heap_kind_byte HeapKind.array = some 0x6a
heap_kind_byte HeapKind.struct = some 0x6b
heap_kind_byte HeapKind.i31 = some 0x6c
heap_kind_byte HeapKind.eq = some 0x6d
heap_kind_byte HeapKind.any = some 0x6e
heap_kind_byte HeapKind.func = some 0x70
heap_kind_byte HeapKind.extern = some 0x6f
heap_kind_byte HeapKind.exn = some 0x69
heap_kind_byte _ = none

unfoldable pub ref_type_code : ValueType → Option ℕ
unfolding heap_kind_byte
ref_type_code vt = if is_ref vt then heap_kind_byte vt.heap_type.kind else none

nullable_code : HeapKind → Option ℕ
nullable_code HeapKind.func = some 0x70
nullable_code HeapKind.extern = some 0x6f
nullable_code HeapKind.exn = some 0x69
nullable_code _ = none

kind_code : ValueKind → Bool → HeapKind → Option ℕ
kind_code ValueKind.i32 nullable h = some 0x7f
kind_code ValueKind.i64 nullable h = some 0x7e
kind_code ValueKind.f32 nullable h = some 0x7d
kind_code ValueKind.f64 nullable h = some 0x7c
kind_code ValueKind.v128 nullable h = some 0x7b
kind_code ValueKind.ref nullable h = if not nullable then none else nullable_code h
kind_code ValueKind.invalid nullable h = none

unfoldable pub value_type_code : ValueType → Option ℕ
unfolding kind_code nullable_code
value_type_code vt = kind_code vt.kind vt.nullable vt.heap_type.kind

-- What is written and whether the type is supported: after a prefix byte it may still fail.
abbrev pub Written : Type 0
Written = List ℕ × Bool

abbrev write_code : List ℕ → Option ℕ → Written
write_code out none = (out, false)
write_code out (some b) = (out ++ (b ∷ []), true)

unfoldable pub encode_value_type : ValueType → Written
unfolding ref_type_code value_type_code
encode_value_type vt =
    if is_ref vt
    then if uses_type_index vt
      then ((if vt.nullable then 0x63 else 0x64) ∷ write_sleb128 vt.heap_type.index, true)
      else if vt.nullable
      then write_code [] (ref_type_code vt)
      else write_code (0x64 ∷ []) (ref_type_code vt)
    else write_code [] (value_type_code vt)

unfoldable pub write_heap_type_immediate : ValueType → List ℕ
unfolding ref_type_code
write_heap_type_immediate vt =
    if uses_type_index vt
    then write_sleb128 vt.heap_type.index
    else elim (ref_type_code vt) [ none ↦ 0x70 ∷ [] | some b ↦ b ∷ [] ]

unfoldable pub decode_value_type : ℕ → Option ValueType
decode_value_type code =
    if code == 0x7f
    then some value_type_i32
    else if code == 0x7e
    then some value_type_i64
    else if code == 0x7d
    then some value_type_f32
    else if code == 0x7c
    then some value_type_f64
    else if code == 0x7b
    then some value_type_v128
    else if code == 0x6a
    then some (ref_type HeapKind.array true)
    else if code == 0x6b
    then some (ref_type HeapKind.struct true)
    else if code == 0x6c
    then some (ref_type HeapKind.i31 true)
    else if code == 0x6d
    then some (ref_type HeapKind.eq true)
    else if code == 0x6e
    then some (ref_type HeapKind.any true)
    else if code == 0x72
    then some (ref_type HeapKind.no_extern true)
    else if code == 0x73
    then some (ref_type HeapKind.no_func true)
    else if code == 0x74
    then some (ref_type HeapKind.no_exn true)
    else if code == 0x71
    then some (ref_type HeapKind.none true)
    else if code == 0x70
    then some (ref_type HeapKind.func true)
    else if code == 0x6f
    then some (ref_type HeapKind.extern true)
    else if code == 0x69
    then some (ref_type HeapKind.exn true)
    else none

-- The heap types below zero, by the distance from 2 ^ 64 of the int64 pattern.
negative_heap_kind : ℕ → Option HeapKind
negative_heap_kind n =
    if n == 22
    then some HeapKind.array
    else if n == 21
    then some HeapKind.struct
    else if n == 20
    then some HeapKind.i31
    else if n == 19
    then some HeapKind.eq
    else if n == 18
    then some HeapKind.any
    else if n == 14
    then some HeapKind.no_extern
    else if n == 12
    then some HeapKind.no_exn
    else if n == 13
    then some HeapKind.no_func
    else if n == 15
    then some HeapKind.none
    else if n == 16
    then some HeapKind.func
    else if n == 17
    then some HeapKind.extern
    else if n == 23
    then some HeapKind.exn
    else none

unfoldable pub decode_heap_type_immediate : ℕ → Bool → Result Error ValueType
unfolding negative_heap_kind
decode_heap_type_immediate type_index nullable =
    if leb (2 ^ 63) type_index
    then elim (negative_heap_kind (2 ^ 64 - type_index)) [
      | none ↦ err Error.unsupported_heap_type
      | some k ↦ ok (ref_type k nullable)
    ]
    else ok (ref_type_indexed (type_index % 2 ^ 32) nullable)

unfoldable pub read_heap_index : Bool → Decoder ValueType
read_heap_index nullable r = do
  (type_index, rest) ← read_s33 r
  vt ← decode_heap_type_immediate type_index nullable
  ok (vt, rest)

abbrev pub supported : Option ValueType → List ℕ → Result Error (ValueType × List ℕ)
supported none r = err Error.unsupported_value_type
supported (some vt) r = ok (vt, r)

unfoldable pub decode_value_type_from_leading_byte : ℕ → Decoder ValueType
unfolding read_heap_index
decode_value_type_from_leading_byte b r =
    if b == 0x63 || (b == 0x64)
    then read_heap_index (b == 0x63) r
    else supported (decode_value_type b) r

unfoldable pub decode_value_type_from_reader : Decoder ValueType
unfolding decode_value_type_from_leading_byte
decode_value_type_from_reader r = do
  (b, rest) ← read_byte r
  decode_value_type_from_leading_byte b rest

unfoldable pub decode_ref_type_from_reader : Decoder ValueType
unfolding decode_value_type_from_reader
decode_ref_type_from_reader r = do
  (vt, rest) ← decode_value_type_from_reader r
  if is_ref vt then ok (vt, rest) else err Error.not_a_reference

-- A single-byte reference type, or else the whole immediate again as a signed index.
abbrev short_or_index :
    Bool → Option ValueType → List ℕ → List ℕ → Result Error (ValueType × List ℕ)
short_or_index nullable none whole rest = read_heap_index nullable whole
short_or_index nullable (some vt) whole rest =
    if is_ref vt
    then ok (record vt { nullable = nullable }, rest)
    else read_heap_index nullable whole

unfoldable pub decode_heap_type_immediate_from_reader : Bool → Decoder ValueType
unfolding read_heap_index
decode_heap_type_immediate_from_reader nullable r = do
  (b, rest) ← read_byte r
  short_or_index nullable (decode_value_type b) r rest

-- The immediate of `ref.null`, where a single-byte type stays as it is.
abbrev null_or_index : Option ValueType → List ℕ → List ℕ → Result Error (ValueType × List ℕ)
null_or_index none whole rest = read_heap_index true whole
null_or_index (some vt) whole rest = if is_ref vt then ok (vt, rest) else read_heap_index true whole

unfoldable pub decode_ref_null_immediate : Decoder ValueType
unfolding read_heap_index
decode_ref_null_immediate r = do (b, rest) ← read_byte r; null_or_index (decode_value_type b) r rest

unfoldable pub is_value_type_lead_byte : ℕ → Bool
is_value_type_lead_byte b = elim (decode_value_type b) [
  | some vt ↦ true
  | none ↦ b == 0x63 || (b == 0x64)
]
