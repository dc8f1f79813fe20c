-- ===== src/Vm/Integers/Counts.antt =====
-- What the counts of leading zeros, trailing zeros and ones say of a pattern.
use watgo.Common.{ℕ, zero, suc, ◌-◌, ◌^◌, ◌<◌, ◌≤◌, arith}
use watgo.Vm.Integers.{leading_zeros}

leading_zeros-le : (n x : ℕ) → leading_zeros n x ≤ n
unfolding leading_zeros
leading_zeros-le zero x = omega arith
leading_zeros-le (suc n) x = ground (arith, leading_zeros-le n x)

-- The count of leading zeros places a pattern between two neighbouring powers of two.
pub leading_zeros-bounds :
    (n x : ℕ)
    → 1 ≤ x
    → x < 2 ^ n
    → (leading_zeros n x < n)
      × (2 ^ (n - 1 - leading_zeros n x) ≤ x)
      × (x < 2 ^ (n - leading_zeros n x))
unfolding leading_zeros
leading_zeros-bounds zero x h b = absurd (omega arith)
leading_zeros-bounds (suc n) x h b =
    ground (arith, leading_zeros-bounds n x h, leading_zeros-le n x)
