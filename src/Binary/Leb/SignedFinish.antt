-- ===== src/Binary/Leb/SignedFinish.antt =====
-- The checks at the end of `readSLEB128`: they let through exactly the values that fit the width.
use watgo.Common.{ℕ, zero, suc, ◌+◌, ◌-◌, ◌*◌, ◌/◌, ◌^◌, ◌≤◌, ◌<◌, ◌≡◌, arith}
use watgo.Common.{Bool, Result, ok, err, ◌⊎◌, inl, inr, ltb, lt→ltb, ltb-false, if◌then◌else◌}
use watgo.Common.Powers.{mul_mono, two_pow_seven, two_pow_mono, two_pow_split, two_pow_pos}
use watgo.Common.Bits.{low_seven, bit_six, bit_or_disjoint}
use watgo.Common.Int.{ℤ, pos, negsuc, to_bits}
use watgo.Binary.Reader.{Error}
use watgo.Binary.Leb.{Groups, sign_extend, padding_ok, in_range, finish_sleb}
use native.Mathlib.Decide.{dec_lt}
use watgo.Binary.Leb.SignedRead.{ended}

-- The signed value of an encoding of `u` in `n` bytes.
abbrev pub sleb_value : ℕ → ℕ → ℤ
sleb_value n u = if ltb (2 * u) (2 ^ (7 * n)) then pos u else negsuc (2 ^ (7 * n) - u - 1)

abbrev pub in_signed : ℕ → ℤ → Bool
in_signed w (pos n) = ltb n (2 ^ (w - 1))
in_signed w (negsuc n) = ltb n (2 ^ (w - 1))

abbrev pub checked : ℕ → ℤ → Result Error ℕ
checked w z = if in_signed w z then ok (to_bits 64 z) else err Error.overflow

mul_pred : (x y : ℕ) → (x - 1) * y ≡ x * y - y
mul_pred zero y = omega arith
mul_pred (suc x) y = grind arith

-- `in_range` on a number and on the pattern of a negative one.
module _ (bits : ℕ) (hw : bits ≤ 64) where
  in_range-pos : (u : ℕ) → u < 2 ^ 63 → in_range bits u ≡ ltb u (2 ^ (bits - 1))
  unfolding in_range
  in_range-pos u h = ground (arith, two_pow_mono (bits - 1) 63, two_pow_pos (bits - 1))

  in_range-neg : (k : ℕ) → k < 2 ^ 63 → in_range bits (2 ^ 64 - 1 - k) ≡ ltb k (2 ^ (bits - 1))
  unfolding in_range
  in_range-neg k h = ground (arith, two_pow_mono (bits - 1) 63, two_pow_pos (bits - 1))

-- The highest group decides the sign.
module _ (m low b : ℕ) (hb : b < 128) (hl : low < 2 ^ (7 * m)) where
  abbrev groups_value : ℕ
  groups_value = low + b * 2 ^ (7 * m)

  value-lt : groups_value < 2 ^ (7 * suc m)
  value-lt = omega (arith, two_pow_seven m, mul_mono b 127 (2 ^ (7 * m)) (omega arith))

  value_pos : b < 64 → 2 * groups_value < 2 ^ (7 * suc m)
  value_pos h = omega (arith, two_pow_seven m, mul_mono b 63 (2 ^ (7 * m)) (omega arith))

  value_neg : 64 ≤ b → 2 ^ (7 * suc m) ≤ 2 * groups_value
  value_neg h = omega (arith, two_pow_seven m, mul_mono 64 b (2 ^ (7 * m)) h)

  abbrev early : ℕ → Groups
  early left = ended 0 0 groups_value (suc m) b left

  sign_extend-pos : (left : ℕ) → m ≤ 8 → b < 64 → sign_extend (early left) ≡ groups_value
  unfolding sign_extend
  sign_extend-pos left hm h = ground (arith, bit_six b, value-lt, two_pow_mono (7 * suc m) 63)

  sign_extend-neg :
      (left : ℕ)
      → m ≤ 8
      → 64 ≤ b
      → sign_extend (early left) ≡ 2 ^ 64 - 1 - (2 ^ (7 * suc m) - groups_value - 1)
  unfolding sign_extend
  sign_extend-neg left hm h = ground (
    arith,
    bit_six b,
    value-lt,
    two_pow_mono (7 * suc m) 63,
    two_pow_split 64 (7 * suc m),
    bit_or_disjoint (7 * suc m) groups_value (2 ^ (64 - 7 * suc m) - 1),
    mul_pred (2 ^ (64 - 7 * suc m)) (2 ^ (7 * suc m)),
  )

  -- With fewer bytes than the width allows only the range is tested.
  finish_early :
      (bits left : ℕ)
      → bits ≤ 64
      → m ≤ 8
      → finish_sleb bits (early (suc left)) ≡ checked bits (sleb_value (suc m) groups_value)
  unfolding finish_sleb padding_ok
  finish_early bits left hw hm = elim (dec_lt b 64) [
    | yes h ↦
        rw (sign_extend-pos (suc left) hm h, lt→ltb _ _ (value_pos h))
          (ground (arith, in_range-pos bits hw groups_value, value-lt, two_pow_mono (7 * suc m) 63))
    | no h ↦
        rw (sign_extend-neg (suc left) hm (omega arith), ltb-false _ _ (value_neg (omega arith)))
          (ground (
            arith,
            in_range-neg bits hw (2 ^ (7 * suc m) - groups_value - 1),
            value-lt,
            value_neg,
            two_pow_mono (7 * suc m) 63,
          ))
  ]

-- With the last byte that the width allows its unused bits are tested too.
module _ (low b : ℕ) (hb : b < 128) where
  finish_32 :
      low < 2 ^ 28
      → finish_sleb 32 (ended 0 0 (low + b * 2 ^ 28) 5 b 0)
        ≡ checked 32 (sleb_value 5 (low + b * 2 ^ 28))
  unfolding finish_sleb
  finish_32 h =
      ground (arith, low_seven b, bit_six b, bit_or_disjoint 35 (low + b * 2 ^ 28) (2 ^ 29 - 1))

  finish_33 :
      low < 2 ^ 28
      → finish_sleb 33 (ended 0 0 (low + b * 2 ^ 28) 5 b 0)
        ≡ checked 33 (sleb_value 5 (low + b * 2 ^ 28))
  unfolding finish_sleb
  finish_33 h =
      ground (arith, low_seven b, bit_six b, bit_or_disjoint 35 (low + b * 2 ^ 28) (2 ^ 29 - 1))

  finish_64 :
      low < 2 ^ 63
      → finish_sleb 64 (ended 0 0 (low + b * 2 ^ 63) 10 b 0)
        ≡ checked 64 (sleb_value 10 (low + b * 2 ^ 63))
  unfolding finish_sleb
  finish_64 h = ground (arith, low_seven b, bit_six b)

-- The widths that the decoder reads.
abbrev pub IsWidth : ℕ → Type 0
IsWidth bits = (bits ≡ 32) ⊎ ((bits ≡ 33) ⊎ (bits ≡ 64))

finish_last :
    (bits m low b : ℕ)
    → IsWidth bits
    → suc m ≡ (bits + 6) / 7
    → b < 128
    → low < 2 ^ (7 * m)
    → finish_sleb bits (ended 0 0 (low + b * 2 ^ (7 * m)) (suc m) b 0)
      ≡ checked bits (sleb_value (suc m) (low + b * 2 ^ (7 * m)))
finish_last bits m low b (inl e) hn hb hl =
    let four : m ≡ 4 = omega arith in rw (e, four) (finish_32 low b hb (rw four at hl))
finish_last bits m low b (inr (inl e)) hn hb hl =
    let four : m ≡ 4 = omega arith in rw (e, four) (finish_33 low b hb (rw four at hl))
finish_last bits m low b (inr (inr e)) hn hb hl =
    let nine : m ≡ 9 = omega arith in rw (e, nine) (finish_64 low b hb (rw nine at hl))

-- At every width the checks let through exactly the values that fit it.
pub finish_sleb-checked :
    (bits m low b left : ℕ)
    → IsWidth bits
    → suc m + left ≡ (bits + 6) / 7
    → b < 128
    → low < 2 ^ (7 * m)
    → finish_sleb bits (ended 0 0 (low + b * 2 ^ (7 * m)) (suc m) b left)
      ≡ checked bits (sleb_value (suc m) (low + b * 2 ^ (7 * m)))
finish_sleb-checked bits m low b zero hw hn hb hl = finish_last bits m low b hw (omega arith) hb hl
finish_sleb-checked bits m low b (suc left) hw hn hb hl =
    finish_early m low b hb hl bits left (omega arith) (omega arith)
