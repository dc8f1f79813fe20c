-- ===== src/Common/Int.antt =====
-- Signed integers over the native numbers, and the bit patterns of Go's intN types.
use Prim.Native.Nat.{ℕ, ◌+◌, ◌-◌, ◌/◌, ◌%◌, ◌^◌, ◌<◌}
use mathlib.Core.Bool.{Bool}
use watgo.Common.Tests.{ltb, leb, if◌then◌else◌}

-- `negsuc n` is -(n + 1).
pub data ℤ : Type 0 where
  pos : ℕ → ℤ
  negsuc : ℕ → ℤ

-- The range of a w-bit signed integer.
abbrev pub InSigned : ℕ → ℤ → Type 0
InSigned w (pos n) = n < 2 ^ (w - 1)
InSigned w (negsuc n) = n < 2 ^ (w - 1)

-- The w-bit pattern of an integer, and the integer that a pattern stands for.
abbrev pub to_bits : ℕ → ℤ → ℕ
to_bits w (pos n) = n % 2 ^ w
to_bits w (negsuc n) = 2 ^ w - 1 - n % 2 ^ w

abbrev pub signed : ℕ → ℕ → ℤ
signed w x = if ltb x (2 ^ (w - 1)) then pos x else negsuc (2 ^ w - x - 1)

-- `a < b` on patterns of w-bit signed integers.
abbrev pub ltb_signed : ℕ → ℕ → ℕ → Bool
ltb_signed w a b = ltb ((a + 2 ^ (w - 1)) % 2 ^ w) ((b + 2 ^ (w - 1)) % 2 ^ w)

-- `x >> k` on patterns of w-bit signed integers: the sign is shifted in.
abbrev pub shift_right_signed : ℕ → ℕ → ℕ → ℕ
shift_right_signed w x k =
    if ltb x (2 ^ (w - 1)) then x / 2 ^ k else x / 2 ^ k + (2 ^ w - 2 ^ (w - k))

abbrev pub leb_signed : ℕ → ℕ → ℕ → Bool
leb_signed w a b = leb ((a + 2 ^ (w - 1)) % 2 ^ w) ((b + 2 ^ (w - 1)) % 2 ^ w)
