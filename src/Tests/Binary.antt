-- ===== src/Tests/Binary.antt =====
-- The theorems on the binary format at concrete bytes.
use watgo.Common.{
  ℕ, ◌^◌, ◌<◌, ◌≡◌, ◌↔◌, inl, inr, refl, arith, true, false, List, [], ◌∷◌, ◌++◌, ok, All,
}
use watgo.Common.Int.{negsuc, to_bits}
use watgo.Wasmir.{HeapKind, ref_type, ref_type_indexed}
use watgo.Binary.Reader.{IsByte}
use watgo.Binary.Leb.{
  read_uleb128, read_sleb128, write_sleb128, write_uleb128, write_uleb64, read_u32, read_u64,
}
use watgo.Binary.Leb.Encodes.{Read}
use watgo.Binary.Leb.Unsigned.{read_uleb128_iff, read_u32-write_uleb128, read_u64-write_uleb64}
use watgo.Binary.Leb.Signed.{SignedRead, read_sleb128_iff, read_sleb128-write}
use watgo.Binary.Types.{encode_value_type, decode_value_type, decode_value_type_from_reader}
use watgo.Binary.Types.RoundTrip.{
  IsEncodable, decode_value_type-encode, decode_value_type-IsEncodable,
}

abbrev leb_bytes : List ℕ
leb_bytes = 0xe5 ∷ 0x8e ∷ 0x26 ∷ 7 ∷ []

leb_bytes-All : All IsByte leb_bytes
leb_bytes-All = (omega arith, (omega arith, (omega arith, (omega arith, tt))))

read_uleb128_iff_example :
    (read_uleb128 32 leb_bytes ≡ ok (624485, 7 ∷ []))
    ↔ (Read 32 5 leb_bytes 624485 (7 ∷ []) × (624485 < 2 ^ 32))
read_uleb128_iff_example = read_uleb128_iff 32 leb_bytes 624485 (7 ∷ []) (omega arith) leb_bytes-All

read_sleb128_iff_example :
    (read_sleb128 32 leb_bytes ≡ ok (624485, 7 ∷ [])) ↔ SignedRead 32 leb_bytes 624485 (7 ∷ [])
read_sleb128_iff_example = read_sleb128_iff 32 leb_bytes 624485 (7 ∷ []) (inl refl) leb_bytes-All

read_sleb128-write_example :
    read_sleb128 33 (write_sleb128 (to_bits 64 (negsuc 127)) ++ (1 ∷ []))
    ≡ ok (to_bits 64 (negsuc 127), 1 ∷ [])
read_sleb128-write_example =
    read_sleb128-write 33 (negsuc 127) (1 ∷ []) (inr (inl refl)) (omega arith)

read_u32-write_uleb128_example : read_u32 (write_uleb128 624485 ++ (1 ∷ [])) ≡ ok (624485, 1 ∷ [])
read_u32-write_uleb128_example = read_u32-write_uleb128 624485 (1 ∷ []) (omega arith)

read_u64-write_uleb64_example :
    read_u64 (write_uleb64 18446744073709551615 ++ []) ≡ ok (18446744073709551615, [])
read_u64-write_uleb64_example = read_u64-write_uleb64 18446744073709551615 [] (omega arith)

decode_value_type-encode_example :
    ((encode_value_type (ref_type_indexed 300 false)).1 ≡ true)
    × (decode_value_type_from_reader
          ((encode_value_type (ref_type_indexed 300 false)).0 ++ (9 ∷ []))
        ≡ ok (ref_type_indexed 300 false, 9 ∷ []))
decode_value_type-encode_example =
    decode_value_type-encode (ref_type_indexed 300 false) (9 ∷ []) (omega arith)

decode_value_type-IsEncodable_example : IsEncodable (ref_type HeapKind.extern true)
unfolding decode_value_type_from_reader decode_value_type
decode_value_type-IsEncodable_example =
    decode_value_type-IsEncodable (0x6f ∷ 9 ∷ []) (ref_type HeapKind.extern true) (9 ∷ []) refl
