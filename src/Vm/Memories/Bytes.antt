-- ===== src/Vm/Memories/Bytes.antt =====
-- Little-endian bytes are read back as the number they hold, modulo its size.
use watgo.Common.{ℕ, zero, suc, ◌+◌, ◌*◌, ◌/◌, ◌%◌, ◌^◌, ◌<◌, ◌≤◌, ◌≡◌, refl, ap, sym, ◌∙◌, arith}
use watgo.Common.{length, All}
use watgo.Binary.Reader.{IsByte}
use native.Mathlib.Nat.{
  one-le-pow, pow-suc, mul_comm, div-add-mod, mul-add-mod_self_left, mod-eq_of_lt,
}
use watgo.Vm.Memories.{from_le, to_le}

-- The digits of a number in base 256, low digit first.
low_digit : (p v : ℕ) → 1 ≤ p → v % 256 + 256 * (v / 256 % p) ≡ v % (256 * p)
low_digit p v h =
    let bound : v % 256 + 256 * (v / 256 % p) < 256 * p = omega arith in
    let parts : v ≡ 256 * p * (v / 256 / p) + (v % 256 + 256 * (v / 256 % p)) =
      grind (arith, div-add-mod (v / 256) p) in
    sym (
      ap (λ (t : ℕ). t % (256 * p)) parts
      ∙ mul-add-mod_self_left (256 * p) (v / 256 / p) (v % 256 + 256 * (v / 256 % p))
      ∙ mod-eq_of_lt bound)

pub from_le-to_le : (n v : ℕ) → from_le (to_le n v) ≡ v % 256 ^ n
from_le-to_le zero v = ground arith
from_le-to_le (suc n) v = ground (
  arith,
  from_le-to_le n (v / 256),
  low_digit (256 ^ n) v (one-le-pow n 256 (omega arith)),
  ap (λ (t : ℕ). v % t) (pow-suc 256 n),
  ap (λ (t : ℕ). v % t) (mul_comm (256 ^ n) 256),
)

pub length-to_le : (n v : ℕ) → length (to_le n v) ≡ n
length-to_le zero v = refl
length-to_le (suc n) v = omega (arith, length-to_le n (v / 256))

pub to_le-All : (n v : ℕ) → All IsByte (to_le n v)
to_le-All zero v = tt
to_le-All (suc n) v = (omega arith, to_le-All n (v / 256))
