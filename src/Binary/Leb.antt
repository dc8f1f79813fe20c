-- ===== src/Binary/Leb.antt =====
-- LEB128 integers: `writeULEB128`, `writeULEB64` and `writeSLEB128` of
-- internal/binaryformat/encode.go, `readULEB128`, `readSLEB128` and the readers over them of
-- internal/binaryformat/decode.go. An int64 is its bit pattern, a number below 2 ^ 64.
pub mod Encodes
pub mod Rounds
pub mod Unsigned
pub mod SignedRead
pub mod SignedWrite
pub mod SignedFinish
pub mod Signed
use watgo.Common.{ℕ, zero, suc, ◌+◌, ◌-◌, ◌*◌, ◌/◌, ◌%◌, ◌^◌, ◌<◌, bit_and, bit_or}
use watgo.Common.{Bool, true, false, ◌&&◌, ◌||◌, not, List, [], ◌∷◌, Result, ok, err, ◌>>=◌}
use watgo.Common.{ltb, leb, ◌==◌, if◌then◌else◌}
use watgo.Common.Int.{shift_right_signed, ltb_signed}
use watgo.Binary.Reader.{Error, Decoder}

-- `binary.PutUvarint` of Go's standard library, which both unsigned writers call. A uint64 has at
-- most ten groups of seven bits.
unfoldable pub put_uvarint_loop : ℕ → ℕ → List ℕ
put_uvarint_loop zero v = []
put_uvarint_loop (suc fuel) v =
    let rest = put_uvarint_loop fuel (v / 128) in
    if ltb v 128 then v % 256 ∷ [] else bit_or (v % 256) 0x80 ∷ rest

unfoldable pub write_uleb64 : ℕ → List ℕ
write_uleb64 v = put_uvarint_loop 10 v

-- The conversion from uint32 to uint64 keeps the number.
unfoldable pub write_uleb128 : ℕ → List ℕ
write_uleb128 v = write_uleb64 v

-- `left` is `maxBytes - count`.
unfoldable pub read_uleb_loop : (bits left result shift : ℕ) → Decoder ℕ
read_uleb_loop bits zero result shift r = err Error.too_long
read_uleb_loop bits (suc left) result shift [] = err Error.unexpected_eof
read_uleb_loop bits (suc left) result shift (b ∷ r) =
    let payload = bit_and b 0x7f in
    let shifted = payload * 2 ^ shift % 2 ^ 64 in
    let result' = bit_or result shifted in
    let more = read_uleb_loop bits left result' (shift + 7) r in
    if leb 64 shift || not (shifted / 2 ^ shift == payload)
    then err Error.overflow_64
    else if bit_and b 0x80 == 0
    then if ltb bits 64 && leb (2 ^ bits) result' then err Error.overflow else ok (result', r)
    else more

unfoldable pub read_uleb128 : ℕ → Decoder ℕ
read_uleb128 bits r = read_uleb_loop bits ((bits + 6) / 7) 0 0 r

unfoldable pub read_u32 : Decoder ℕ
read_u32 r = do (v, rest) ← read_uleb128 32 r; ok (v % 2 ^ 32, rest)

unfoldable pub read_u64 : Decoder ℕ
read_u64 r = read_uleb128 64 r

-- `v` is an int64; ten groups of seven bits are enough.
unfoldable pub write_sleb_loop : ℕ → ℕ → List ℕ
write_sleb_loop zero v = []
write_sleb_loop (suc fuel) v =
    let b = bit_and v 0x7f % 256 in
    let v' = shift_right_signed 64 v 7 in
    let sign_bit_set = not (bit_and b 0x40 == 0) in
    let rest = write_sleb_loop fuel v' in
    if (v' == 0 && not sign_bit_set) || (v' == 2 ^ 64 - 1 && sign_bit_set)
    then b ∷ []
    else bit_or b 0x80 ∷ rest

unfoldable pub write_sleb128 : ℕ → List ℕ
write_sleb128 v = write_sleb_loop 10 v

-- The variables of `readSLEB128` when its loop ends; `left` is `maxBytes - count`.
pub record Groups : Type 0 where
  pub result : ℕ
  pub shift : ℕ
  pub b : ℕ
  pub left : ℕ

unfoldable pub read_sleb_loop : (left result shift : ℕ) → Decoder Groups
read_sleb_loop zero result shift r = err Error.too_long
read_sleb_loop (suc left) result shift [] = err Error.unexpected_eof
read_sleb_loop (suc left) result shift (b ∷ r) =
    let result' = bit_or result (bit_and b 0x7f * 2 ^ shift % 2 ^ 64) in
    let more = read_sleb_loop left result' (shift + 7) r in
    if bit_and b 0x80 == 0
    then ok (record { result = result'; shift = shift + 7; b = b; left = left }, r)
    else more

sign_extend : Groups → ℕ
sign_extend g =
    if ltb g.shift 64 && not (bit_and g.b 0x40 == 0)
    then bit_or g.result (2 ^ 64 - 2 ^ g.shift)
    else g.result

-- The bits of the last of `maxBytes` bytes above the width repeat the sign.
padding_ok : ℕ → Groups → ℕ → Bool
padding_ok bits g result =
    let used_bits = bits - 7 * ((bits + 6) / 7 - 1) in
    let top_bits = bit_and g.b 0x7f / 2 ^ used_bits in
    let expected = if ltb_signed 64 result 0 then 2 ^ (7 - used_bits) - 1 else 0 in
    not (g.left == 0) || leb 7 used_bits || (top_bits == expected)

-- For 64 bits Go's shifts wrap round to the bounds that the source names.
in_range : ℕ → ℕ → Bool
in_range bits result =
    not (ltb_signed 64 result (2 ^ 64 - 2 ^ (bits - 1)))
    && not (ltb_signed 64 (2 ^ (bits - 1) - 1) result)

unfoldable pub finish_sleb : ℕ → Groups → Result Error ℕ
unfolding sign_extend padding_ok in_range
finish_sleb bits g =
    let result = sign_extend g in
    if padding_ok bits g result && in_range bits result then ok result else err Error.overflow

abbrev pub with_rest : List ℕ → Result Error ℕ → Result Error (ℕ × List ℕ)
with_rest rest m = m >>= λ v. ok (v, rest)

unfoldable pub read_sleb128 : ℕ → Decoder ℕ
read_sleb128 bits r = do
  (g, rest) ← read_sleb_loop ((bits + 6) / 7) 0 0 r
  with_rest rest (finish_sleb bits g)

-- `int32(v)` keeps the low bits.
unfoldable pub read_s32 : Decoder ℕ
read_s32 r = do (v, rest) ← read_sleb128 32 r; ok (v % 2 ^ 32, rest)

unfoldable pub read_s33 : Decoder ℕ
read_s33 r = read_sleb128 33 r

unfoldable pub read_s64 : Decoder ℕ
read_s64 r = read_sleb128 64 r
