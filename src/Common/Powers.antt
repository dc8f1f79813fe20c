-- ===== src/Common/Powers.antt =====
-- Powers of two with a variable exponent, and their multiples.
use Prim.Native.Nat.{ℕ, zero, suc, ◌+◌, ◌-◌, ◌*◌, ◌/◌, ◌^◌, ◌≤◌, ◌<◌}
use mathlib.Core.Path.{◌≡◌, refl, ap}
use native.Mathlib.Nat.{one-le-pow, pow-suc}
use native.Mathlib.Omega.{arith}

pub mul_mono : (x y z : ℕ) → x ≤ y → x * z ≤ y * z
mul_mono x y z h = grind arith

pub mul_cancel_lt : (x y z : ℕ) → x * z < y * z → x < y
mul_cancel_lt x y z h = grind arith

pub two_pow_add : (d s : ℕ) {k : ℕ} → k ≡ d + s → 2 ^ k ≡ 2 ^ d * 2 ^ s
two_pow_add d zero {k} e = let e' : k ≡ d = omega arith in omega (arith, ap (λ (t : ℕ). 2 ^ t) e')
two_pow_add d (suc s) {k} e =
    let e' : k ≡ suc (d + s) = omega arith in
    omega (
      arith,
      ap (λ (t : ℕ). 2 ^ t) e',
      pow-suc 2 (d + s),
      two_pow_add d s refl,
      ap (λ (t : ℕ). 2 ^ d * t) (pow-suc 2 s),
    )

pub two_pow_split : (k s : ℕ) → s ≤ k → 2 ^ k ≡ 2 ^ (k - s) * 2 ^ s
two_pow_split k s h = two_pow_add (k - s) s (omega arith)

pub two_pow_pos : (s : ℕ) → 1 ≤ 2 ^ s
two_pow_pos s = one-le-pow s 2 (omega arith)

pub two_pow_mono : (s k : ℕ) → s ≤ k → 2 ^ s ≤ 2 ^ k
two_pow_mono s k h =
    omega (arith, two_pow_split k s h, mul_mono 1 (2 ^ (k - s)) (2 ^ s) (two_pow_pos (k - s)))

pub mul_div_two_pow : (p s : ℕ) → p * 2 ^ s / 2 ^ s ≡ p
mul_div_two_pow p s = grind (arith, one-le-pow s 2)

-- Below a multiple of 2 ^ s, a smaller multiple leaves room for s bits.
pub fields-lt :
    (k s low high : ℕ) → s ≤ k → low < 2 ^ s → high * 2 ^ s < 2 ^ k → low + high * 2 ^ s < 2 ^ k
fields-lt k s low high h l m =
    let split = two_pow_split k s h in
    let below = mul_cancel_lt high (2 ^ (k - s)) (2 ^ s) (omega arith) in
    omega (arith, mul_mono (suc high) (2 ^ (k - s)) (2 ^ s) below)

-- One more group of seven bits.
pub two_pow_seven : (n : ℕ) → 2 ^ (7 * suc n) ≡ 128 * 2 ^ (7 * n)
two_pow_seven n = two_pow_add 7 (7 * n) (omega arith)
