-- ===== src/Binary/Leb/Encodes.antt =====
-- The byte sequences that are LEB128 encodings of a number, of any length.
use watgo.Common.{ℕ, ◌+◌, ◌*◌, ◌%◌, ◌^◌, ◌≤◌, ◌<◌, ◌≡◌, ap, List, [], ◌∷◌, ◌++◌, length, arith}
use watgo.Common.Powers.{mul_mono}
use native.Mathlib.Numerals.{towards_suc}

-- `bs` is an encoding of `v`: groups of seven bits, lowest first, the top bit set on all but the last.
pub data Encodes : List ℕ → ℕ → Type 0 where
  last : {b : ℕ} → b < 128 → Encodes (b ∷ []) b
  more :
      {b : ℕ} {bs : List ℕ} {v w : ℕ}
      → 128 ≤ b
      → b < 256
      → Encodes bs v
      → w ≡ b % 128 + v * 128
      → Encodes (b ∷ bs) w

pub two_pow_shift : (s : ℕ) → 2 ^ (s + 7) ≡ 128 * 2 ^ s
two_pow_shift s = simp towards_suc (omega arith)

pub Encodes-positive : {bs : List ℕ} {v : ℕ} → Encodes bs v → 1 ≤ length bs
Encodes-positive (last h) = omega arith
Encodes-positive (more h k e q) = omega arith

pub group_below : (b s : ℕ) → b % 128 * 2 ^ s + 2 ^ s ≤ 2 ^ (s + 7)
group_below b s = rw two_pow_shift (grind (arith, mul_mono (b % 128) 127 (2 ^ s)))

pub split_group :
    (b v w s : ℕ) → w ≡ b % 128 + v * 128 → w * 2 ^ s ≡ b % 128 * 2 ^ s + v * 2 ^ (s + 7)
split_group b v w s q =
    omega (arith, ap (λ (t : ℕ). t * 2 ^ s) q, ap (λ (t : ℕ). v * t) (two_pow_shift s))

-- `src` begins with an encoding of a number that fits, and `rest` follows it.
abbrev pub Read : (bits left : ℕ) (src : List ℕ) (u : ℕ) (rest : List ℕ) → Type 0
Read bits left src u rest = (bs : List ℕ) × (src ≡ bs ++ rest) × Encodes bs u × (length bs ≤ left)

-- What is left to read fits above the bits that have been read.
abbrev pub Room : ℕ → ℕ → Type 0
Room left s = s + 7 * left ≤ 70
