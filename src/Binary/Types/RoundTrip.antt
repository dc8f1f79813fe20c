-- ===== src/Binary/Types/RoundTrip.antt =====
-- Value types are read back from what the encoder writes, and only such types are read.
use watgo.Common.{ℕ, ◌%◌, ◌^◌, ◌<◌, ◌≡◌, refl, arith, Bool, true, false, Bool-cases, ◌==◌}
use watgo.Common.{List, [], ◌∷◌, ◌++◌, ok, inl, inr, Option, none, some, ◌||◌, >>=-ok}
use watgo.Common.Int.{pos}
use watgo.Wasmir.{ValueKind, HeapKind, ValueType}
use watgo.Binary.Leb.{write_sleb128, read_s33, read_sleb128, read_sleb_loop, finish_sleb}
use watgo.Binary.Leb.Signed.{read_sleb128-write}
use watgo.Binary.Types.{encode_value_type, decode_value_type, decode_value_type_from_reader}
use watgo.Binary.Types.{decode_value_type_from_leading_byte}
use watgo.Binary.Types.{read_heap_index, supported, decode_heap_type_immediate}

-- The value types that the format can write: numbers with no reference part, references to an
-- abstract heap type, and references to a type index that a uint32 holds.
abbrev EncodableFields : ValueKind → Bool → HeapKind → ℕ → Type 0
EncodableFields ValueKind.invalid nullable h i = ⊥
EncodableFields ValueKind.ref nullable HeapKind.invalid i = ⊥
EncodableFields ValueKind.ref nullable HeapKind.type_index i = i < 2 ^ 32
EncodableFields ValueKind.ref nullable h i = i ≡ 0
EncodableFields k nullable h i = (nullable ≡ false) × (h ≡ HeapKind.invalid) × (i ≡ 0)

abbrev pub IsEncodable : ValueType → Type 0
IsEncodable vt = EncodableFields vt.kind vt.nullable vt.heap_type.kind vt.heap_type.index

pub read_s33-write_index :
    (i : ℕ) (rest : List ℕ) → i < 2 ^ 32 → read_s33 (write_sleb128 i ++ rest) ≡ ok (i, rest)
unfolding read_s33
read_s33-write_index i rest h =
    let same : i % 2 ^ 64 ≡ i = omega arith in
    rw same at (read_sleb128-write 33 (pos i) rest (inr (inl refl)) h)

abbrev fields : ValueKind → Bool → HeapKind → ℕ → ValueType
fields k nullable h i = record {
  kind = k;
  nullable = nullable;
  heap_type = record { kind = h; index = i };
}

abbrev RoundTrips : ValueType → List ℕ → Type 0
RoundTrips vt rest =
    ((encode_value_type vt).1 ≡ true)
    × (decode_value_type_from_reader ((encode_value_type vt).0 ++ rest) ≡ ok (vt, rest))

indexed-RoundTrips :
    (nullable : Bool) (i : ℕ) (rest : List ℕ)
    → i < 2 ^ 32
    → RoundTrips (fields ValueKind.ref nullable HeapKind.type_index i) rest
unfolding encode_value_type decode_value_type_from_reader decode_heap_type_immediate
indexed-RoundTrips nullable i rest h = ground (arith, read_s33-write_index i rest h)

abstract-RoundTrips :
    (nullable : Bool) (h : HeapKind) (i : ℕ) (rest : List ℕ)
    → EncodableFields ValueKind.ref nullable h i
    → RoundTrips (fields ValueKind.ref nullable h i) rest
unfolding encode_value_type decode_value_type_from_reader decode_value_type
    decode_heap_type_immediate read_s33 read_sleb128 read_sleb_loop finish_sleb
abstract-RoundTrips nullable HeapKind.invalid i rest e = absurd e
abstract-RoundTrips nullable HeapKind.type_index i rest e = indexed-RoundTrips nullable i rest e
abstract-RoundTrips nullable _ i rest e = ground arith

number-RoundTrips :
    (k : ValueKind) (nullable : Bool) (h : HeapKind) (i : ℕ) (rest : List ℕ)
    → EncodableFields k nullable h i
    → RoundTrips (fields k nullable h i) rest
unfolding encode_value_type decode_value_type_from_reader decode_value_type
number-RoundTrips ValueKind.invalid nullable h i rest e = absurd e
number-RoundTrips ValueKind.ref nullable h i rest e = abstract-RoundTrips nullable h i rest e
number-RoundTrips _ nullable h i rest (a, b, c) = ground arith

-- Every encodable value type is written, and read back from what was written, whatever follows.
pub decode_value_type-encode :
    (vt : ValueType) (rest : List ℕ)
    → IsEncodable vt
    → ((encode_value_type vt).1 ≡ true)
      × (decode_value_type_from_reader ((encode_value_type vt).0 ++ rest) ≡ ok (vt, rest))
decode_value_type-encode vt rest e =
    number-RoundTrips vt.kind vt.nullable vt.heap_type.kind vt.heap_type.index rest e

heap-IsEncodable :
    (t : ℕ) (nullable : Bool) (vt : ValueType)
    → decode_heap_type_immediate t nullable ≡ ok vt
    → IsEncodable vt
unfolding decode_heap_type_immediate
heap-IsEncodable t nullable vt e = ground arith

short-IsEncodable : (b : ℕ) (vt : ValueType) → decode_value_type b ≡ some vt → IsEncodable vt
unfolding decode_value_type
short-IsEncodable b vt e = ground arith

read_heap_index-IsEncodable :
    (nullable : Bool) (src : List ℕ) (vt : ValueType) (rest : List ℕ)
    → read_heap_index nullable src ≡ ok (vt, rest)
    → IsEncodable vt
unfolding read_heap_index
read_heap_index-IsEncodable nullable src vt rest e =
    let ((t, rest₁), _, e₁) = >>=-ok (read_s33 src) _ e in
    let (vt₁, e₂, e₃) = >>=-ok (decode_heap_type_immediate t nullable) _ e₁ in
    let same : vt₁ ≡ vt = cc in rw same at (heap-IsEncodable t nullable vt₁ e₂)

supported-IsEncodable :
    (found : Option ValueType) (src : List ℕ) (vt : ValueType) (rest : List ℕ)
    → supported found src ≡ ok (vt, rest)
    → found ≡ some vt
supported-IsEncodable none src vt rest e = cc
supported-IsEncodable (some v) src vt rest e = cc

leading-IsEncodable :
    (b : ℕ) (r : List ℕ) (vt : ValueType) (rest : List ℕ)
    → decode_value_type_from_leading_byte b r ≡ ok (vt, rest)
    → IsEncodable vt
unfolding decode_value_type_from_leading_byte
leading-IsEncodable b r vt rest e = elim (Bool-cases (b == 0x63 || (b == 0x64))) [
  | inl h ↦ read_heap_index-IsEncodable (b == 0x63) r vt rest (rw h at e)
  | inr h ↦
      short-IsEncodable b vt (supported-IsEncodable (decode_value_type b) r vt rest (rw h at e))
]

-- Every value type that is read, from any input, is encodable.
pub decode_value_type-IsEncodable :
    (src : List ℕ) (vt : ValueType) (rest : List ℕ)
    → decode_value_type_from_reader src ≡ ok (vt, rest)
    → IsEncodable vt
unfolding decode_value_type_from_reader
decode_value_type-IsEncodable [] vt rest e = cc
decode_value_type-IsEncodable (b ∷ r) vt rest e = leading-IsEncodable b r vt rest e
