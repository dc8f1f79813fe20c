-- ===== src/Binary/Leb/Signed.antt =====
-- `readSLEB128` accepts exactly the encodings whose signed value fits the width, and reads back
-- what `writeSLEB128` writes.
use watgo.Common.{ℕ, suc, ◌+◌, ◌-◌, ◌*◌, ◌/◌, ◌^◌, ◌≤◌, ◌≡◌, ap, ◌↔◌, arith}
use watgo.Common.{List, ◌++◌, length, All, Result, ok, err, >>=-ok, inl, inr}
use watgo.Common.Int.{ℤ, pos, negsuc, InSigned, to_bits}
use watgo.Binary.Reader.{IsByte, Error}
use watgo.Binary.Leb.{Groups, read_sleb_loop, finish_sleb, read_sleb128, write_sleb128}
use watgo.Binary.Leb.{with_rest}
use watgo.Binary.Leb.Encodes.{Encodes, Read}
use watgo.Binary.Leb.SignedRead.{
  ended, final_byte, Final, Encodes-Final, groups_accept, groups_accepted,
}
use watgo.Binary.Leb.SignedFinish.{IsWidth, sleb_value, checked, finish_sleb-checked}
use watgo.Binary.Leb.SignedWrite.{
  PosWritten, NegWritten, write_sleb128-PosWritten, write_sleb128-NegWritten,
}

finish_Final :
    (bits : ℕ) (bs : List ℕ) (u : ℕ)
    → IsWidth bits
    → length bs ≤ (bits + 6) / 7
    → Final bs u
    → finish_sleb bits (ended 0 0 u (length bs) (final_byte bs) ((bits + 6) / 7 - length bs))
      ≡ checked bits (sleb_value (length bs) u)
finish_Final bits bs u hw hl (m, low, len, small, top, value) =
    rw (len, value)
      (finish_sleb-checked bits m low (final_byte bs) ((bits + 6) / 7 - suc m) hw (omega arith) top
        small)

-- On an encoding of at most `maxBytes` bytes the reader gives its signed value, or refuses it.
read_sleb128-Encodes :
    (bits : ℕ) {bs : List ℕ} {u : ℕ} (rest : List ℕ)
    → IsWidth bits
    → Encodes bs u
    → length bs ≤ (bits + 6) / 7
    → read_sleb128 bits (bs ++ rest) ≡ with_rest rest (checked bits (sleb_value (length bs) u))
unfolding read_sleb128
read_sleb128-Encodes bits {bs} {u} rest hw enc hl = rw (
  groups_accept enc ((bits + 6) / 7) 0 0 rest hl (omega arith) (omega arith),
  finish_Final bits bs u hw hl (Encodes-Final enc),
)

checked_iff : (w : ℕ) (z : ℤ) (v : ℕ) → (checked w z ≡ ok v) ↔ (InSigned w z × (v ≡ to_bits 64 z))
checked_iff w (pos n) v = (λ h. ground arith, λ h. ground arith)
checked_iff w (negsuc n) v = (λ h. ground arith, λ h. ground arith)

-- What a successful signed read says: an encoding in front of `rest`, and its value in range.
abbrev pub SignedRead : (bits : ℕ) (src : List ℕ) (v : ℕ) (rest : List ℕ) → Type 0
SignedRead bits src v rest =
    (bs : List ℕ) × (u : ℕ) × (src ≡ bs ++ rest)
    × Encodes bs u
    × (length bs ≤ (bits + 6) / 7)
    × InSigned bits (sleb_value (length bs) u)
    × (v ≡ to_bits 64 (sleb_value (length bs) u))

with_rest-eq-ok :
    (m : Result Error ℕ) {r rest : List ℕ} {v : ℕ}
    → with_rest r m ≡ ok (v, rest)
    → (m ≡ ok v) × (r ≡ rest)
with_rest-eq-ok (ok w) h = (cc, cc)
with_rest-eq-ok (err e) h = cc

module _ (bits : ℕ) (src : List ℕ) (v : ℕ) (rest : List ℕ) (hw : IsWidth bits) where
  finished-SignedRead :
      (g : Groups) (r : List ℕ)
      → read_sleb_loop ((bits + 6) / 7) 0 0 src ≡ ok (g, r)
      → (finish_sleb bits g ≡ ok v) × (r ≡ rest)
      → (u : ℕ) × Read 0 ((bits + 6) / 7) src u r
      → SignedRead bits src v rest
  finished-SignedRead g r looped (value, e) (u, (bs, split, enc, len)) =
      let accept = groups_accept enc ((bits + 6) / 7) 0 0 r len (omega arith) (omega arith) in
      let state : g ≡ ended 0 0 u (length bs) (final_byte bs) ((bits + 6) / 7 - length bs) =
        cc (looped, accept, split) in
      let (fits, same) =
        (checked_iff bits (sleb_value (length bs) u) v).0
          (cc (finish_Final bits bs u hw len (Encodes-Final enc), value, state)) in
      (bs, u, cc, enc, len, fits, same)

  read_sleb128-SignedRead :
      All IsByte src → read_sleb128 bits src ≡ ok (v, rest) → SignedRead bits src v rest
  unfolding read_sleb128
  read_sleb128-SignedRead bytes e = go (>>=-ok (read_sleb_loop ((bits + 6) / 7) 0 0 src) _ e)
    where
      go :
          (p : Groups × List ℕ) × (read_sleb_loop ((bits + 6) / 7) 0 0 src ≡ ok p)
            × (with_rest p.1 (finish_sleb bits p.0) ≡ ok (v, rest))
          → SignedRead bits src v rest
      go ((g, r), looped, finished) =
          finished-SignedRead g r looped (with_rest-eq-ok (finish_sleb bits g) finished)
            (groups_accepted ((bits + 6) / 7) 0 0 src g r bytes (omega arith) (omega arith) looped)

-- For the widths 32, 33 and 64 and every input of bytes, `readSLEB128` returns `v` and leaves
-- `rest` exactly when the input is an encoding of at most (bits + 6) / 7 bytes, followed by
-- `rest`, whose two's complement value fits the width, and `v` is the int64 pattern of that value.
pub read_sleb128_iff :
    (bits : ℕ) (src : List ℕ) (v : ℕ) (rest : List ℕ)
    → IsWidth bits
    → All IsByte src
    → (read_sleb128 bits src ≡ ok (v, rest)) ↔ SignedRead bits src v rest
read_sleb128_iff bits src v rest hw bytes = (read_sleb128-SignedRead bits src v rest hw bytes, from)
  where
    from : SignedRead bits src v rest → read_sleb128 bits src ≡ ok (v, rest)
    from (bs, u, split, enc, len, fits, value) =
        rw
          (split, read_sleb128-Encodes bits rest hw enc len, (checked_iff bits _ v).1 (fits, value))

module _ (bits k : ℕ) (bs : List ℕ) (n : ℕ) (rest : List ℕ) (hw : IsWidth bits) where
  read-PosWritten :
      suc k ≤ (bits + 6) / 7
      → InSigned bits (pos n)
      → PosWritten k bs n
      → read_sleb128 bits (bs ++ rest) ≡ ok (to_bits 64 (pos n), rest)
  read-PosWritten hk fits (len, enc, e, few, top) =
      rw (read_sleb128-Encodes bits rest hw enc (omega arith))
        (ground (arith, ap (λ (t : ℕ). 2 ^ (7 * t)) e))

  read-NegWritten :
      suc k ≤ (bits + 6) / 7
      → InSigned bits (negsuc n)
      → NegWritten k bs n
      → read_sleb128 bits (bs ++ rest) ≡ ok (to_bits 64 (negsuc n), rest)
  read-NegWritten hk fits (len, u, enc, e, few, sum, top) =
      rw (read_sleb128-Encodes bits rest hw enc (omega arith))
        (ground (arith, ap (λ (t : ℕ). 2 ^ (7 * t)) e))

-- The bytes that a width allows hold its integers.
IsWidth-bytes :
    (bits : ℕ)
    → IsWidth bits
    → (k : ℕ) × (suc k ≤ (bits + 6) / 7)
      × (k ≤ 9)
      × (2 ^ (bits - 1) ≤ 64 * 128 ^ k)
      × (2 ^ (bits - 1) ≤ 2 ^ 63)
IsWidth-bytes bits (inl e) = rw e (4, omega arith, omega arith, omega arith, omega arith)
IsWidth-bytes bits (inr (inl e)) = rw e (4, omega arith, omega arith, omega arith, omega arith)
IsWidth-bytes bits (inr (inr e)) = rw e (9, omega arith, omega arith, omega arith, omega arith)

-- An integer of 32, 33 or 64 bits is read back, at that width, from what `writeSLEB128` wrote for
-- it, and what follows is kept.
pub read_sleb128-write :
    (bits : ℕ) (z : ℤ) (rest : List ℕ)
    → IsWidth bits
    → InSigned bits z
    → read_sleb128 bits (write_sleb128 (to_bits 64 z) ++ rest) ≡ ok (to_bits 64 z, rest)
read_sleb128-write bits (pos n) rest hw h =
    let (k, few, ten, holds, wide) = IsWidth-bytes bits hw in
    read-PosWritten bits k _ n rest hw few h
      (write_sleb128-PosWritten k n ten (omega (arith, holds)) (omega (arith, wide)))
read_sleb128-write bits (negsuc n) rest hw h =
    let (k, few, ten, holds, wide) = IsWidth-bytes bits hw in
    read-NegWritten bits k _ n rest hw few h
      (write_sleb128-NegWritten k n ten (omega (arith, holds)) (omega (arith, wide)))
