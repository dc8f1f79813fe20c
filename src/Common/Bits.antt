-- ===== src/Common/Bits.antt =====
-- Bit operations as arithmetic: `|` of disjoint fields, `&` with a mask, and their ranges.
use Prim.Native.Nat.{ℕ, zero, suc, ◌+◌, ◌-◌, ◌*◌, ◌/◌, ◌%◌, ◌^◌, ◌≤◌, ◌<◌, min, max}
use Prim.Native.Nat.{bit_and, bit_or, bit_xor, digits, bitwise, differ}
use Prim.Native.Nat.{bit_and-bitwise, bit_or-bitwise, bit_xor-bitwise}
use mathlib.Core.Path.{◌≡◌, refl, ap}
use mathlib.Core.Bool.{Bool, true, ◌&&◌}
use native.Mathlib.Nat.{pow-suc, div-add-mod, one-le-pow}
use native.Mathlib.Omega.{arith}
use watgo.Common.Tests.{◌==◌}

-- Any fuel from the first operand on gives the same digits.
module _ (rest : ℕ → ℕ) (f : ℕ → ℕ → ℕ) where
  digits_enough : (m n a b : ℕ) → a ≤ m → a ≤ n → digits rest f m a b ≡ digits rest f n a b
  digits_enough zero zero zero b h k = refl
  digits_enough zero (suc n) zero b h k = refl
  digits_enough (suc m) zero zero b h k = refl
  digits_enough (suc m) (suc n) zero b h k = refl
  digits_enough zero n (suc a) b h k = absurd (omega arith)
  digits_enough (suc m) zero (suc a) b h k = absurd (omega arith)
  digits_enough (suc m) (suc n) (suc a) b h k =
      ap (λ t. t * 2 + f (suc a % 2) (b % 2))
        (digits_enough m n (suc a / 2) (b / 2) (omega arith) (omega arith))

  bitwise_step_suc :
      (a b : ℕ)
      → bitwise rest f (suc a) b ≡ bitwise rest f (suc a / 2) (b / 2) * 2 + f (suc a % 2) (b % 2)
  bitwise_step_suc a b =
      ap (λ t. t * 2 + f (suc a % 2) (b % 2))
        (digits_enough a (suc a / 2) (suc a / 2) (b / 2) (omega arith) (omega arith))

pub bit_and_step : (x y : ℕ) → bit_and x y ≡ bit_and (x / 2) (y / 2) * 2 + min (x % 2) (y % 2)
bit_and_step zero y = omega (arith, bit_and-bitwise 0 y, bit_and-bitwise 0 (y / 2))
bit_and_step (suc x) y = simp bit_and-bitwise (bitwise_step_suc (λ _. 0) min x y)

pub bit_or_step : (a b : ℕ) → bit_or a b ≡ bit_or (a / 2) (b / 2) * 2 + max (a % 2) (b % 2)
bit_or_step zero b = omega (arith, bit_or-bitwise 0 b, bit_or-bitwise 0 (b / 2))
bit_or_step (suc a) b = simp bit_or-bitwise (bitwise_step_suc (λ y. y) max a b)

pub bit_xor_step : (a b : ℕ) → bit_xor a b ≡ bit_xor (a / 2) (b / 2) * 2 + differ (a % 2) (b % 2)
bit_xor_step zero b = ground (arith, bit_xor-bitwise 0 b, bit_xor-bitwise 0 (b / 2))
bit_xor_step (suc a) b = simp bit_xor-bitwise (bitwise_step_suc (λ y. y) differ a b)

-- `|` with a field that begins above the bits of `a` is a sum.
bit_or_zero_left : (b : ℕ) → bit_or 0 b ≡ b
bit_or_zero_left b = omega (arith, bit_or-bitwise 0 b)

pub bit_or_disjoint : (s a p : ℕ) → a < 2 ^ s → bit_or a (p * 2 ^ s) ≡ a + p * 2 ^ s
bit_or_disjoint zero a p h = ground (arith, bit_or_zero_left (p * 2 ^ 0))
bit_or_disjoint (suc s) a p h = ground (
  arith,
  bit_or_step a (p * 2 ^ suc s),
  ap (λ (t : ℕ). p * t) (pow-suc 2 s),
  pow-suc 2 s,
  bit_or_disjoint s (a / 2) p,
)

-- `&` with `k` ones keeps the low bits.
bit_and_zero_right : (fuel a : ℕ) → a ≤ fuel → bit_and a 0 ≡ 0
bit_and_zero_right fuel zero h = bit_and-bitwise 0 0
bit_and_zero_right zero (suc a) h = absurd (omega arith)
bit_and_zero_right (suc fuel) (suc a) h =
    omega (arith, bit_and_step (suc a) 0, bit_and_zero_right fuel (suc a / 2) (omega arith))

bit_and_ones : (k low high : ℕ) → low < 2 ^ k → bit_and (low + high * 2 ^ k) (2 ^ k - 1) ≡ low
bit_and_ones zero low high h = ground (arith, bit_and_zero_right (low + high) (low + high))
bit_and_ones (suc k) low high h = ground (
  arith,
  bit_and_step (low + high * 2 ^ suc k) (2 ^ suc k - 1),
  pow-suc 2 k,
  ap (λ (t : ℕ). high * t) (pow-suc 2 k),
  bit_and_ones k (low / 2) high,
)

pub bit_and_mask : (k a : ℕ) → bit_and a (2 ^ k - 1) ≡ a % 2 ^ k
bit_and_mask k a =
    ground (arith, bit_and_ones k (a % 2 ^ k) (a / 2 ^ k), div-add-mod a (2 ^ k), one-le-pow k 2)

pub bit_and-lt : (k a b : ℕ) → a < 2 ^ k → b < 2 ^ k → bit_and a b < 2 ^ k
bit_and-lt zero a b h k = ground (arith, bit_and-bitwise 0 b)
bit_and-lt (suc n) a b h k =
    ground (arith, bit_and_step a b, pow-suc 2 n, bit_and-lt n (a / 2) (b / 2))

pub bit_or-lt : (k a b : ℕ) → a < 2 ^ k → b < 2 ^ k → bit_or a b < 2 ^ k
bit_or-lt zero a b h k = ground (arith, bit_or-bitwise 0 b)
bit_or-lt (suc n) a b h k =
    ground (arith, bit_or_step a b, pow-suc 2 n, bit_or-lt n (a / 2) (b / 2))

differ-lt : (a b : ℕ) → a < 2 → b < 2 → differ a b < 2
differ-lt zero b h k = k
differ-lt (suc a) zero h k = h
differ-lt (suc a) (suc b) h k = ground arith

pub bit_xor-lt : (k a b : ℕ) → a < 2 ^ k → b < 2 ^ k → bit_xor a b < 2 ^ k
bit_xor-lt zero a b h k = ground (arith, bit_xor-bitwise 0 b)
bit_xor-lt (suc n) a b h k =
    ground (
      arith,
      bit_xor_step a b,
      pow-suc 2 n,
      bit_xor-lt n (a / 2) (b / 2),
      differ-lt (a % 2) (b % 2),
    )

-- Over a byte a law is a table.
below : ℕ → (ℕ → Bool) → Bool
below zero p = true
below (suc n) p = p n && below n p

below_sound : (n : ℕ) (p : ℕ → Bool) (x : ℕ) → below n p ≡ true → x < n → p x ≡ true
unfolding below
below_sound zero p x h lt = absurd (omega arith)
below_sound (suc n) p x h lt = ground (arith, below_sound n p x)

module _ (b : ℕ) (h : b < 256) where
  pub low_seven : bit_and b 0x7f ≡ b % 128
  unfolding below
  low_seven = ground (arith, below_sound 256 (λ x. bit_and x 0x7f == x % 128) b refl h)

  pub bit_seven : bit_and b 0x80 ≡ b / 128 * 128
  unfolding below
  bit_seven = ground (arith, below_sound 256 (λ x. bit_and x 0x80 == x / 128 * 128) b refl h)

  pub bit_six : bit_and b 0x40 ≡ b / 64 % 2 * 64
  unfolding below
  bit_six = ground (arith, below_sound 256 (λ x. bit_and x 0x40 == x / 64 % 2 * 64) b refl h)

  pub set_bit_seven : bit_or b 0x80 ≡ b % 128 + 128
  unfolding below
  set_bit_seven = ground (arith, below_sound 256 (λ x. bit_or x 0x80 == x % 128 + 128) b refl h)
