-- ===== src/Binary/Leb/Unsigned.antt =====
-- The unsigned reader accepts exactly the encodings that fit, and reads back what the writers write.
use watgo.Common.{ℕ, zero, suc, ◌+◌, ◌*◌, ◌/◌, ◌%◌, ◌^◌, ◌≤◌, ◌<◌, ◌≡◌, refl, ap, ◌∙◌, ◌↔◌}
use mathlib.Core.Path.{subst}
use watgo.Common.{List, [], ◌∷◌, ◌++◌, ok, length, All, arith, inr, ◌⊎◌}
use watgo.Common.Powers.{fields-lt, two_pow_mono}
use watgo.Common.Bits.{set_bit_seven}
use watgo.Binary.Reader.{IsByte}
use watgo.Binary.Leb.Encodes.{
  Encodes, last, more, Encodes-positive, group_below, split_group, Read, Room,
}
use watgo.Binary.Leb.Rounds.{last_round, inner_round, over_round}
use watgo.Binary.Leb.{put_uvarint_loop, write_uleb64, read_uleb_loop, read_uleb128}
use watgo.Binary.Leb.{write_uleb128, read_u32, read_u64}
use native.Mathlib.Nat.{pow-suc}
use native.Mathlib.Decide.{dec_lt}

accept :
    {bs : List ℕ} {v : ℕ} (e : Encodes bs v) (bits left acc s : ℕ) (r : List ℕ)
    → length bs ≤ left
    → Room left s
    → acc < 2 ^ s
    → acc + v * 2 ^ s < 2 ^ 64
    → (64 ≤ bits) ⊎ (acc + v * 2 ^ s < 2 ^ bits)
    → read_uleb_loop bits left acc s (bs ++ r) ≡ ok (acc + v * 2 ^ s, r)
accept (last h) bits zero acc s r hl room ha fits small = absurd (omega arith)
accept (last {b} h) bits (suc left) acc s r hl room ha fits small =
    ground (arith, last_round bits left acc s b r)
accept (more h k e q) bits zero acc s r hl room ha fits small = absurd (omega arith)
accept (more {b} {bs} {v} {w} h k e q) bits (suc left) acc s r hl room ha fits small = ground (
  arith,
  inner_round bits left acc s b (bs ++ r),
  split_group b v w s q,
  group_below b s,
  Encodes-positive e,
  accept e bits left (acc + b % 128 * 2 ^ s) (s + 7) r,
)

accepted :
    (bits left acc s : ℕ) (src : List ℕ) (v : ℕ) (rest : List ℕ)
    → All IsByte src
    → Room left s
    → acc < 2 ^ s
    → read_uleb_loop bits left acc s src ≡ ok (v, rest)
    → (u : ℕ) × Read bits left src u rest
      × (v ≡ acc + u * 2 ^ s)
      × (v < 2 ^ 64)
      × ((64 ≤ bits) ⊎ (v < 2 ^ bits))
accepted bits zero acc s src v rest bytes room ha e = unfold read_uleb_loop in cc
accepted bits (suc left) acc s [] v rest bytes room ha e = unfold read_uleb_loop in cc
accepted bits (suc left) acc s (b ∷ r) v rest (hb, bytes) room ha e =
    elim (dec_lt (b % 128 * 2 ^ s) (2 ^ 64)) [
      | no over ↦ absurd (ground (arith, over_round bits left acc s b r))
      | yes fits ↦ elim (dec_lt b 128) [
        | yes h ↦ (
          b,
          (b ∷ [], ground (arith, last_round bits left acc s b r), last h, omega arith),
          ground (arith, last_round bits left acc s b r),
          ground (arith, last_round bits left acc s b r, fields-lt 64 s acc (b % 128)),
          ground (arith, last_round bits left acc s b r),
        )
        | no h ↦
            let (u, (bs, split, enc, len), value, wide, narrow) =
              accepted bits left (acc + b % 128 * 2 ^ s) (s + 7) r v rest bytes (omega arith)
                (omega (arith, group_below b s))
                (ground (arith, inner_round bits left acc s b r)) in
            (
              b % 128 + u * 128,
              (b ∷ bs, ap (λ t. b ∷ t) split, more (omega arith) hb enc refl, omega arith),
              omega (arith, split_group b u (b % 128 + u * 128) s refl),
              wide,
              narrow,
            )
      ]
    ]

put_small : (fuel v : ℕ) → v < 128 → put_uvarint_loop (suc fuel) v ≡ v ∷ []
unfolding put_uvarint_loop
put_small fuel v h = ground arith

put_large :
    (fuel v : ℕ)
    → 128 ≤ v
    → put_uvarint_loop (suc fuel) v ≡ (v % 128 + 128) ∷ put_uvarint_loop fuel (v / 128)
unfolding put_uvarint_loop
put_large fuel v h = ground (arith, set_bit_seven (v % 256))

-- What `put_uvarint_loop` writes is an encoding, of no more groups than the number needs.
put_uvarint_loop-Encodes :
    (n fuel v : ℕ)
    → n ≤ fuel
    → v < 128 ^ suc n
    → Encodes (put_uvarint_loop (suc fuel) v) v × (length (put_uvarint_loop (suc fuel) v) ≤ suc n)
put_uvarint_loop-Encodes zero fuel v hn h =
    rw (put_small fuel v (omega arith)) (last (omega arith), omega arith)
put_uvarint_loop-Encodes (suc n) zero v hn h = absurd (omega arith)
put_uvarint_loop-Encodes (suc n) (suc fuel) v hn h = elim (dec_lt v 128) [
  | yes small ↦ rw (put_small (suc fuel) v small) (last small, omega arith)
  | no large ↦
      let (enc, len) =
        put_uvarint_loop-Encodes n fuel (v / 128) (omega arith)
          (omega (arith, pow-suc 128 (suc n))) in
      rw (put_large (suc fuel) v (omega arith))
        (more (omega arith) (omega arith) enc (omega arith), omega arith)
]

-- For every width from 1 to 64 and every input of bytes, `readULEB128` returns `v` and leaves
-- `rest` exactly when the input is an encoding of `v` (also one with padding) of at most
-- (bits + 6) / 7 bytes, followed by `rest`, and `v` fits the width. All else is an error.
pub read_uleb128_iff :
    (bits : ℕ) (src : List ℕ) (v : ℕ) (rest : List ℕ)
    → bits ≤ 64
    → All IsByte src
    → (read_uleb128 bits src ≡ ok (v, rest))
      ↔ (Read bits ((bits + 6) / 7) src v rest × (v < 2 ^ bits))
unfolding read_uleb128
read_uleb128_iff bits src v rest hb bytes = (to, from)
  where
    to :
        read_uleb_loop bits ((bits + 6) / 7) 0 0 src ≡ ok (v, rest)
        → Read bits ((bits + 6) / 7) src v rest × (v < 2 ^ bits)
    to e =
        let (u, r, value, wide, narrow) =
          accepted bits ((bits + 6) / 7) 0 0 src v rest bytes (omega arith) (omega arith) e in
        let same : u ≡ v = omega arith in
        (
          subst (λ t. Read bits ((bits + 6) / 7) src t rest) same r,
          ground (arith, two_pow_mono 64 bits),
        )

    from :
        Read bits ((bits + 6) / 7) src v rest × (v < 2 ^ bits)
        → read_uleb_loop bits ((bits + 6) / 7) 0 0 src ≡ ok (v, rest)
    from ((bs, split, enc, len), small) = rw split (
        accept enc bits ((bits + 6) / 7) 0 0 rest len (omega arith) (omega arith)
          (omega (arith, two_pow_mono bits 64 hb)) (inr (omega arith))
        ∙ ground arith)

write-round_trip :
    (n bits v : ℕ) (rest : List ℕ)
    → n ≤ 9
    → suc n ≡ (bits + 6) / 7
    → bits ≤ 64
    → v < 128 ^ suc n
    → v < 2 ^ bits
    → read_uleb128 bits (write_uleb64 v ++ rest) ≡ ok (v, rest)
unfolding write_uleb64 read_uleb128
write-round_trip n bits v rest hn hl hb hv k =
    let (enc, len) = put_uvarint_loop-Encodes n 9 v hn hv in
    accept enc bits ((bits + 6) / 7) 0 0 rest (omega arith) (omega arith) (omega arith)
      (omega (arith, two_pow_mono bits 64 hb)) (inr (omega arith))
    ∙ ground arith

-- What `writeULEB128` writes for a uint32 is read back by `readU32`, and what follows is kept.
pub read_u32-write_uleb128 :
    (v : ℕ) (rest : List ℕ) → v < 2 ^ 32 → read_u32 (write_uleb128 v ++ rest) ≡ ok (v, rest)
unfolding read_u32 write_uleb128
read_u32-write_uleb128 v rest h =
    ground (arith, write-round_trip 4 32 v rest (omega arith) refl (omega arith) (omega arith) h)

-- What `writeULEB64` writes for a uint64 is read back by `readU64`, and what follows is kept.
pub read_u64-write_uleb64 :
    (v : ℕ) (rest : List ℕ) → v < 2 ^ 64 → read_u64 (write_uleb64 v ++ rest) ≡ ok (v, rest)
unfolding read_u64
read_u64-write_uleb64 v rest h =
    write-round_trip 9 64 v rest (omega arith) refl (omega arith) (omega arith) h
