-- ===== src/Binary/Leb/SignedRead.antt =====
-- The loop of `readSLEB128`, in plain arithmetic.
use watgo.Common.{ℕ, zero, suc, ◌+◌, ◌-◌, ◌*◌, ◌/◌, ◌%◌, ◌^◌, ◌≤◌, ◌<◌, ◌≡◌, refl, ap, arith}
use watgo.Common.{List, [], ◌∷◌, ◌++◌, length, All, ok, bit_or}
use watgo.Common.Powers.{
  mul_mono, fields-lt, two_pow_split, two_pow_pos, two_pow_seven, two_pow_mono,
}
use watgo.Common.Bits.{low_seven, bit_seven, bit_or_disjoint}
use watgo.Binary.Reader.{IsByte}
use watgo.Binary.Leb.{Groups, read_sleb_loop}
use watgo.Binary.Leb.Encodes.{
  Encodes, last, more, Encodes-positive, group_below, split_group, Read, Room,
}
use native.Mathlib.Decide.{dec_lt}
use native.Mathlib.Nat.{div-add-mod, mod-lt}

-- `int64(p) << s` cuts off what passes bit 63.
cut_group : (p s : ℕ) → s ≤ 64 → p * 2 ^ s % 2 ^ 64 ≡ p % 2 ^ (64 - s) * 2 ^ s
cut_group p s h =
    let q = 2 ^ (64 - s) in
    omega (
      arith,
      ap (λ (t : ℕ). t * 2 ^ s) (div-add-mod p q),
      ap (λ (t : ℕ). t * (p / q)) (two_pow_split 64 s h),
      mul_mono (suc (p % q)) q (2 ^ s) (mod-lt p (two_pow_pos (64 - s))),
      two_pow_split 64 s h,
      two_pow_pos s,
    )

add_cut_group :
    (acc p s : ℕ)
    → s ≤ 64
    → acc < 2 ^ s
    → bit_or acc (p * 2 ^ s % 2 ^ 64) ≡ (acc + p * 2 ^ s) % 2 ^ 64
add_cut_group acc p s h ha =
    rw (cut_group p s h, bit_or_disjoint s acc (p % 2 ^ (64 - s)) ha)
      (omega (
        arith,
        cut_group p s h,
        fields-lt 64 s acc (p % 2 ^ (64 - s)) h ha (omega (arith, cut_group p s h)),
      ))

-- What the loop has when it ends, for an encoding `bs` of `u`, and the last byte of `bs`.
pub final_byte : List ℕ → ℕ
final_byte [] = 0
final_byte (b ∷ []) = b
final_byte (b ∷ c ∷ bs) = final_byte (c ∷ bs)

module _ (left acc s b : ℕ) (r : List ℕ) (hs : s < 64) (ha : acc < 2 ^ s) (hb : b < 256) where
  last_groups :
      b < 128
      → read_sleb_loop (suc left) acc s (b ∷ r)
        ≡ ok (record { result = (acc + b * 2 ^ s) % 2 ^ 64; shift = s + 7; b = b; left = left }, r)
  unfolding read_sleb_loop
  last_groups h = ground (arith, low_seven b hb, bit_seven b hb, add_cut_group acc b s)

  inner_groups :
      128 ≤ b
      → s ≤ 56
      → read_sleb_loop (suc left) acc s (b ∷ r)
        ≡ read_sleb_loop left (acc + b % 128 * 2 ^ s) (s + 7) r
  unfolding read_sleb_loop
  inner_groups h k = ground (
    arith,
    low_seven b hb,
    bit_seven b hb,
    add_cut_group acc (b % 128) s,
    group_below b s,
    two_pow_mono (s + 7) 63,
  )

final_byte-cons : (b : ℕ) (bs : List ℕ) → 1 ≤ length bs → final_byte (b ∷ bs) ≡ final_byte bs
unfolding final_byte
final_byte-cons b [] h = absurd (omega arith)
final_byte-cons b (c ∷ bs) h = refl

abbrev pub ended : (acc s u n b left : ℕ) → Groups
ended acc s u n b left = record {
  result = (acc + u * 2 ^ s) % 2 ^ 64;
  shift = s + 7 * n;
  b = b;
  left = left;
}

pub groups_accept :
    {bs : List ℕ} {u : ℕ} (e : Encodes bs u) (left acc s : ℕ) (r : List ℕ)
    → length bs ≤ left
    → Room left s
    → acc < 2 ^ s
    → read_sleb_loop left acc s (bs ++ r)
      ≡ ok (ended acc s u (length bs) (final_byte bs) (left - length bs), r)
groups_accept (last h) zero acc s r hl room ha = absurd (omega arith)
groups_accept (last {b} h) (suc left) acc s r hl room ha =
    unfold final_byte in ground (arith, last_groups left acc s b r)
groups_accept (more h k e q) zero acc s r hl room ha = absurd (omega arith)
groups_accept (more {b} {bs} {v} {w} h k e q) (suc left) acc s r hl room ha = ground (
  arith,
  Encodes-positive e,
  final_byte-cons b bs,
  inner_groups left acc s b (bs ++ r),
  group_below b s,
  split_group b v w s q,
  groups_accept e left (acc + b % 128 * 2 ^ s) (s + 7) r,
)

pub groups_accepted :
    (left acc s : ℕ) (src : List ℕ) (g : Groups) (rest : List ℕ)
    → All IsByte src
    → Room left s
    → acc < 2 ^ s
    → read_sleb_loop left acc s src ≡ ok (g, rest)
    → (u : ℕ) × Read 0 left src u rest
groups_accepted zero acc s src g rest bytes room ha e = unfold read_sleb_loop in cc
groups_accepted (suc left) acc s [] g rest bytes room ha e = unfold read_sleb_loop in cc
groups_accepted (suc zero) acc s (b ∷ r) g rest (hb, bytes) room ha e =
    let h : b < 128 = unfold read_sleb_loop in ground (arith, bit_seven b hb) in
    (b, (b ∷ [], ground (arith, last_groups zero acc s b r), last h, omega arith))
groups_accepted (suc (suc left)) acc s (b ∷ r) g rest (hb, bytes) room ha e = elim (dec_lt b 128) [
  | yes h ↦ (b, (b ∷ [], ground (arith, last_groups (suc left) acc s b r), last h, omega arith))
  | no h ↦
      let (u, (bs, split, enc, len)) =
        groups_accepted (suc left) (acc + b % 128 * 2 ^ s) (s + 7) r g rest bytes (omega arith)
          (omega (arith, group_below b s)) (ground (arith, inner_groups (suc left) acc s b r)) in
      (
        b % 128 + u * 128,
        (b ∷ bs, ap (λ t. b ∷ t) split, more (omega arith) hb enc refl, omega arith),
      )
]

-- The highest group of an encoding of `suc m` bytes.
abbrev pub Final : List ℕ → ℕ → Type 0
Final bs u =
    (m : ℕ) × (low : ℕ) × (length bs ≡ suc m)
    × (low < 2 ^ (7 * m))
    × (final_byte bs < 128)
    × (u ≡ low + final_byte bs * 2 ^ (7 * m))

Final-cons :
    (b w : ℕ) {bs : List ℕ} {v : ℕ}
    → Encodes bs v
    → w ≡ b % 128 + v * 128
    → Final bs v
    → Final (b ∷ bs) w
Final-cons b w {bs} e q (m, low, len, hl, hf, hv) = rw (final_byte-cons b bs (Encodes-positive e)) (
  suc m,
  b % 128 + low * 128,
  ap suc len,
  omega (arith, two_pow_seven m),
  hf,
  omega (arith, ap (λ (t : ℕ). final_byte bs * t) (two_pow_seven m)),
)

pub Encodes-Final : {bs : List ℕ} {u : ℕ} → Encodes bs u → Final bs u
unfolding final_byte
Encodes-Final (last h) = (0, 0, refl, omega arith, h, omega arith)
Encodes-Final (more {b} {bs} {v} {w} h k e q) = Final-cons b w e q (Encodes-Final e)
