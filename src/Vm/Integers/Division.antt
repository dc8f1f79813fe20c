-- ===== src/Vm/Integers/Division.antt =====
-- internal/vm/execute.go: the signed quotient and remainder against multiplication and addition.
use watgo.Common.{ℕ, suc, ◌+◌, ◌*◌, ◌/◌, ◌%◌, ◌^◌, ◌-◌, ◌<◌, ◌≤◌, ◌≡◌, arith, ap, sym, ◌∙◌}
use watgo.Common.{zero, Bool-cases, inl, inr, true, false, if◌then◌else◌}
use mathlib.Core.Path.{subst}
use native.Mathlib.Nat.{mod-add-mod, add-mod-mod, mod-eq_of_lt, div-add-mod', mod-lt, div-le_self}
use native.Mathlib.Nat.{
  mul-add-mod_self_right, mod-le, mul-add, add-mul, mul_comm, pow-suc, mod_self,
}
use native.Mathlib.Decide.{dec_lt}
use watgo.Common.Powers.{two_pow_pos}
use watgo.Vm.Integers.{quotient, remainder, magnitude, is_negative, negate}

mod-mul : (n p b : ℕ) → p % n * b % n ≡ p * b % n
mod-mul n p b =
    let whole : p * b ≡ p / n * b * n + p % n * b =
      ap (λ t. t * b) (sym (div-add-mod' p n))
      ∙ add-mul (p / n * n) (p % n) b
      ∙ ap (λ t. t + p % n * b) (grind arith) in
    sym (ap (λ t. t % n) whole ∙ mul-add-mod_self_right (p / n * b) n (p % n * b))

module _ (n : ℕ) where
  remains : (total k m : ℕ) → total ≡ k * n + m → m < n → total % n ≡ m
  remains total k m e h = ap (λ t. t % n) e ∙ mul-add-mod_self_right k n m ∙ mod-eq_of_lt h

  -- The remainder by `n` of a sum of a product, whose parts are remainders themselves.
  sum-mod : (p b r : ℕ) → (p % n * b % n + r % n) % n ≡ (p * b + r) % n
  sum-mod p b r =
      ap (λ t. (t + r % n) % n) (mod-mul n p b)
      ∙ mod-add-mod (p * b) n (r % n)
      ∙ add-mod-mod (p * b) r n

  neg-pos :
      (u b v a : ℕ)
      → u * b + v ≡ a
      → 0 < a
      → a ≤ n
      → u ≤ n
      → v ≤ n
      → ((n - u) * b + (n - v)) % n ≡ n - a
  neg-pos u b v a e pos ha hu hv =
      let whole : (n - u) + u ≡ n = omega arith in
      let product = ap (λ t. t * b) whole in
      remains _ b (n - a) (omega (arith, add-mul (n - u) u b, product, mul_comm n b)) (omega arith)

  pos-neg : (u b v a : ℕ) → u * b + v ≡ a → a < n → u + b ≤ n → ((n - u) * (n - b) + v) % n ≡ a
  pos-neg u b v a e ha hub =
      let left : (n - u) + u ≡ n = omega arith in
      let right : (n - b) + b ≡ n = omega arith in
      let rest : (n - b - u) + u ≡ n - b = omega arith in
      remains _ (n - b - u) a
        (omega (
          arith,
          add-mul (n - u) u (n - b),
          ap (λ t. t * (n - b)) left,
          mul-add u (n - b) b,
          ap (λ t. u * t) right,
          mul-add n (n - b - u) u,
          ap (λ t. n * t) rest,
          mul_comm n u,
          mul_comm n (n - b - u),
        ))
        ha

  neg-neg :
      (u b v a : ℕ)
      → u * b + v ≡ a
      → 0 < a
      → a ≤ n
      → b ≤ n
      → v ≤ n
      → (u * (n - b) + (n - v)) % n ≡ n - a
  neg-neg u b v a e pos ha hb hv =
      let right : (n - b) + b ≡ n = omega arith in
      remains _ u (n - a) (omega (arith, mul-add u (n - b) b, ap (λ t. u * t) right)) (omega arith)

-- The patterns of a width are twice as many as those that are not negative.
two_halves : (w : ℕ) → 1 ≤ w → 2 ^ w ≡ 2 * 2 ^ (w - 1)
two_halves zero h = absurd (omega arith)
two_halves (suc w) h =
    let same : suc w - 1 ≡ w = omega arith in omega (arith, pow-suc 2 w, ap (λ (k : ℕ). 2 ^ k) same)

module _ (w : ℕ) (hw : 1 ≤ w) where
  magnitude_small : (v : ℕ) → v < 2 ^ (w - 1) → magnitude w v ≡ v
  magnitude_small v h = ground (arith, h)

  magnitude_negated : (v : ℕ) → v < 2 ^ (w - 1) → magnitude w (negate w v) ≡ v
  magnitude_negated v h = elim (dec_lt 0 v) [
    | yes positive ↦
        let same : negate w v ≡ 2 ^ w - v = mod-eq_of_lt (omega (arith, two_halves w hw)) in
        ap (magnitude w) same ∙ ground (arith, two_halves w hw)
    | no nothing ↦
        let none : v ≡ 0 = omega arith in
        let whole : 2 ^ w - v ≡ 2 ^ w = omega arith in
        let same = ap (λ t. t % 2 ^ w) whole ∙ mod_self (2 ^ w) in
        ap (magnitude w) same ∙ rw none (ground (arith, two_pow_pos (w - 1)))
  ]

  magnitude_bound :
      (y : ℕ) → 0 < y → y < 2 ^ w → (0 < magnitude w y) × (magnitude w y ≤ 2 ^ (w - 1))
  magnitude_bound y hz hy = ground (arith, two_halves w hw)

  pub magnitude-remainder :
      (x y : ℕ) → 0 < y → y < 2 ^ w → magnitude w (remainder w x y) < magnitude w y
  unfolding remainder
  magnitude-remainder x y hz hy =
      let v = magnitude w x % magnitude w y in
      let (positive, bound) = magnitude_bound y hz hy in
      let below : v < magnitude w y = mod-lt (magnitude w x) positive in
      let small : v < 2 ^ (w - 1) = omega arith in
      let plain = magnitude_small v small in
      let negated = magnitude_negated v small in
      elim (Bool-cases (is_negative w x)) [
        | inl p ↦
            let same : remainder w x y ≡ negate w v = ap (λ b. if b then negate w v else v) p in
            subst (λ t. t < magnitude w y) (sym (ap (magnitude w) same ∙ negated)) below
        | inr p ↦
            let same : remainder w x y ≡ v = ap (λ b. if b then negate w v else v) p in
            subst (λ t. t < magnitude w y) (sym (ap (magnitude w) same ∙ plain)) below
      ]

module _ (w x y : ℕ) (hw : 1 ≤ w) (hx : x < 2 ^ w) (hy : y < 2 ^ w) (hz : 0 < y) where
  abbrev Identity : Type 0
  Identity = (quotient w x y * y % 2 ^ w + remainder w x y) % 2 ^ w ≡ x

  negative_dividend : is_negative w x ≡ true → Identity
  unfolding quotient remainder
  negative_dividend p =
      let n = 2 ^ w in
      let a = n - x in
      let b = n - y in
      let back : n - b ≡ y = omega arith in
      elim (Bool-cases (is_negative w y)) [
        | inl q ↦
            rw (p, q)
              (sum-mod n (a / b) y (n - a % b)
                ∙ ap (λ t. (a / b * t + (n - a % b)) % n) (sym back)
                ∙ neg-neg n (a / b) b (a % b) a (div-add-mod' a b) (omega arith) (omega arith)
                    (omega arith) (omega (arith, mod-le a b))
                ∙ omega arith)
        | inr q ↦
            rw (p, q)
              (sum-mod n (n - a / y) y (n - a % y)
                ∙ neg-pos n (a / y) y (a % y) a (div-add-mod' a y) (omega arith) (omega arith)
                    (omega (arith, div-le_self a y)) (omega (arith, mod-le a y))
                ∙ omega arith)
      ]

  positive_dividend : is_negative w x ≡ false → Identity
  unfolding quotient remainder
  positive_dividend p =
      let n = 2 ^ w in
      let b = n - y in
      let back : n - b ≡ y = omega arith in
      let low : x < 2 ^ (w - 1) = ground (arith, p) in
      elim (Bool-cases (is_negative w y)) [
        | inl q ↦
            let high : 2 ^ (w - 1) ≤ y = ground (arith, q) in
            let small : x % b < n = omega (arith, mod-le x b) in
            rw (p, q)
              (ap (λ t. ((n - x / b) % n * y % n + t) % n) (sym (mod-eq_of_lt small))
                ∙ sum-mod n (n - x / b) y (x % b)
                ∙ ap (λ t. ((n - x / b) * t + x % b) % n) (sym back)
                ∙ pos-neg n (x / b) b (x % b) x (div-add-mod' x b) hx
                    (omega (arith, div-le_self x b, two_halves w hw)))
        | inr q ↦
            let small : x % y < n = omega (arith, mod-le x y) in
            rw (p, q)
              (ap (λ t. (x / y % n * y % n + t) % n) (sym (mod-eq_of_lt small))
                ∙ sum-mod n (x / y) y (x % y)
                ∙ ap (λ t. t % n) (div-add-mod' x y)
                ∙ mod-eq_of_lt hx)
      ]

  -- The quotient times the divisor, with the remainder, is the dividend.
  pub quotient_times : Identity
  quotient_times = elim (Bool-cases (is_negative w x)) [
    | inl p ↦ negative_dividend p
    | inr p ↦ positive_dividend p
  ]
