-- ===== src/Binary/Leb/Rounds.antt =====
-- One round of the unsigned reader's loop, in plain arithmetic.
use watgo.Common.{ℕ, suc, ◌+◌, ◌*◌, ◌/◌, ◌%◌, ◌^◌, ◌≤◌, ◌<◌, ◌≡◌, refl, ap}
use watgo.Common.{List, ◌∷◌, ok, err, arith, Bool-cases, lt→ltb, ==_iff, inl, inr}
use watgo.Common.Powers.{mul_div_two_pow}
use watgo.Common.Bits.{low_seven, bit_seven, bit_or_disjoint}
use watgo.Common.{◌&&◌, ltb, leb, ◌==◌, if◌then◌else◌}
use watgo.Binary.Reader.{Error}
use watgo.Binary.Leb.{read_uleb_loop}
use native.Mathlib.Nat.{div-add-mod}

-- The test `payload<<shift>>shift != payload`.
shift_back : (p s : ℕ) → ((p * 2 ^ s % 2 ^ 64 / 2 ^ s) == p) ≡ ltb (p * 2 ^ s) (2 ^ 64)
shift_back p s = elim (Bool-cases (back == p)) [
  | inl e ↦ rw (e, lt→ltb _ _ (small ((==_iff _ _).0 e))) refl
  | inr ne ↦ ground (arith, ne, mul_div_two_pow p s)
]
  where
    back : ℕ
    back = p * 2 ^ s % 2 ^ 64 / 2 ^ s

    small : back ≡ p → p * 2 ^ s < 2 ^ 64
    small e = omega (arith, div-add-mod (p * 2 ^ s % 2 ^ 64) (2 ^ s), ap (λ (t : ℕ). t * 2 ^ s) e)

module _ (bits left acc s b : ℕ) (r : List ℕ) (hs : s < 64) (ha : acc < 2 ^ s) (hb : b < 256) where
  abbrev pub after : ℕ
  after = acc + b % 128 * 2 ^ s

  -- One round that meets no overflow.
  pub last_round :
      b < 128
      → b % 128 * 2 ^ s < 2 ^ 64
      → read_uleb_loop bits (suc left) acc s (b ∷ r)
        ≡ (if ltb bits 64 && leb (2 ^ bits) after then err Error.overflow else ok (after, r))
  unfolding read_uleb_loop
  last_round h fits = ground (
    arith,
    low_seven b hb,
    bit_seven b hb,
    shift_back (b % 128) s,
    bit_or_disjoint s acc (b % 128) ha,
  )

  pub inner_round :
      128 ≤ b
      → b % 128 * 2 ^ s < 2 ^ 64
      → read_uleb_loop bits (suc left) acc s (b ∷ r) ≡ read_uleb_loop bits left after (s + 7) r
  unfolding read_uleb_loop
  inner_round h fits = ground (
    arith,
    low_seven b hb,
    bit_seven b hb,
    shift_back (b % 128) s,
    bit_or_disjoint s acc (b % 128) ha,
  )

  pub over_round :
      2 ^ 64 ≤ b % 128 * 2 ^ s
      → read_uleb_loop bits (suc left) acc s (b ∷ r) ≡ err Error.overflow_64
  unfolding read_uleb_loop
  over_round fits = ground (arith, low_seven b hb, shift_back (b % 128) s)
