-- ===== src/Vm/Integers/Signs.antt =====
-- The signed comparisons and extensions agree with the integers that the patterns stand for.
use watgo.Common.{ℕ, ◌+◌, ◌-◌, ◌*◌, ◌%◌, ◌^◌, ◌<◌, ◌≤◌, ◌≡◌, ◌⊎◌, ◌↔◌, inl, inr, ap, ◌∙◌, arith}
use watgo.Common.{ltb, ltb→lt, Bool-cases, true}
use watgo.Common.Powers.{two_pow_pos, two_pow_split, two_pow_mono}
use watgo.Common.Int.{ℤ, pos, negsuc, signed, ltb_signed, leb_signed}
use watgo.Vm.Integers.{CompareOp, eval_compare, extend_signed}
use native.Mathlib.Nat.{add-mod_left, mod-eq_of_lt}

abbrev pub LtInt : ℤ → ℤ → Type 0
LtInt (pos a) (pos b) = a < b
LtInt (pos a) (negsuc b) = ⊥
LtInt (negsuc a) (pos b) = Unit
LtInt (negsuc a) (negsuc b) = b < a

half : (w : ℕ) → 1 ≤ w → 2 ^ w ≡ 2 * 2 ^ (w - 1)
half w h = ground (arith, two_pow_split w 1 h, two_pow_split w (w - 1))

biased_low : (w x : ℕ) → 1 ≤ w → x < 2 ^ (w - 1) → (x + 2 ^ (w - 1)) % 2 ^ w ≡ x + 2 ^ (w - 1)
biased_low w x h k = mod-eq_of_lt (omega (arith, half w h))

biased_high :
    (w x : ℕ) → 1 ≤ w → x < 2 ^ w → 2 ^ (w - 1) ≤ x → (x + 2 ^ (w - 1)) % 2 ^ w ≡ x - 2 ^ (w - 1)
biased_high w x h b k =
    let split : x + 2 ^ (w - 1) ≡ 2 ^ w + (x - 2 ^ (w - 1)) = omega (arith, half w h) in
    ap (λ (t : ℕ). t % 2 ^ w) split
    ∙ add-mod_left (2 ^ w) (x - 2 ^ (w - 1))
    ∙ mod-eq_of_lt (omega arith)

-- What a pattern stands for, and where adding half the modulus puts it.
signed-cases :
    (w x : ℕ)
    → 1 ≤ w
    → x < 2 ^ w
    → ((x < 2 ^ (w - 1)) × (signed w x ≡ pos x) × ((x + 2 ^ (w - 1)) % 2 ^ w ≡ x + 2 ^ (w - 1)))
      ⊎ ((2 ^ (w - 1) ≤ x)
          × (signed w x ≡ negsuc (2 ^ w - x - 1))
          × ((x + 2 ^ (w - 1)) % 2 ^ w ≡ x - 2 ^ (w - 1)))
signed-cases w x h b = elim (Bool-cases (ltb x (2 ^ (w - 1)))) [
  | inl e ↦ let k = ltb→lt x (2 ^ (w - 1)) e in inl (k, ground arith, biased_low w x h k)
  | inr e ↦ let k : 2 ^ (w - 1) ≤ x = ground arith in inr (k, ground arith, biased_high w x h b k)
]

ltb_signed_iff :
    (w a b : ℕ)
    → 1 ≤ w
    → a < 2 ^ w
    → b < 2 ^ w
    → (ltb_signed w a b ≡ true) ↔ LtInt (signed w a) (signed w b)
ltb_signed_iff w a b h ha hb = elim (signed-cases w a h ha) [
  | inl (ka, ea, ma) ↦ elim (signed-cases w b h hb) [
    | inl (kb, eb, mb) ↦ rw (ea, eb, ma, mb) (ground arith)
    | inr (kb, eb, mb) ↦ rw (ea, eb, ma, mb) (ground (arith, half w h))
  ]
  | inr (ka, ea, ma) ↦ elim (signed-cases w b h hb) [
    | inl (kb, eb, mb) ↦ rw (ea, eb, ma, mb) (ground (arith, half w h))
    | inr (kb, eb, mb) ↦ rw (ea, eb, ma, mb) (ground (arith, half w h))
  ]
]

leb_signed_iff :
    (w a b : ℕ)
    → 1 ≤ w
    → a < 2 ^ w
    → b < 2 ^ w
    → (leb_signed w a b ≡ true) ↔ (¬ LtInt (signed w b) (signed w a))
leb_signed_iff w a b h ha hb = elim (signed-cases w a h ha) [
  | inl (ka, ea, ma) ↦ elim (signed-cases w b h hb) [
    | inl (kb, eb, mb) ↦ rw (ea, eb, ma, mb) (ground arith)
    | inr (kb, eb, mb) ↦ rw (ea, eb, ma, mb) (ground (arith, half w h))
  ]
  | inr (ka, ea, ma) ↦ elim (signed-cases w b h hb) [
    | inl (kb, eb, mb) ↦ rw (ea, eb, ma, mb) (ground (arith, half w h))
    | inr (kb, eb, mb) ↦ rw (ea, eb, ma, mb) (ground (arith, half w h))
  ]
]

-- The signed comparisons hold exactly where the order of the integers that the patterns stand for
-- does.
pub eval_compare-signed :
    (w a b : ℕ)
    → 1 ≤ w
    → a < 2 ^ w
    → b < 2 ^ w
    → ((eval_compare w CompareOp.lt_s a b ≡ true) ↔ LtInt (signed w a) (signed w b))
      × ((eval_compare w CompareOp.gt_s a b ≡ true) ↔ LtInt (signed w b) (signed w a))
      × ((eval_compare w CompareOp.le_s a b ≡ true) ↔ (¬ LtInt (signed w b) (signed w a)))
      × ((eval_compare w CompareOp.ge_s a b ≡ true) ↔ (¬ LtInt (signed w a) (signed w b)))
unfolding eval_compare
eval_compare-signed w a b h ha hb = (
  ltb_signed_iff w a b h ha hb,
  ltb_signed_iff w b a h hb ha,
  leb_signed_iff w a b h ha hb,
  leb_signed_iff w b a h hb ha,
)

-- A sign extension stands for the integer that the low bits stood for.
pub extend_signed-signed :
    (w k x : ℕ) → 1 ≤ k → k ≤ w → signed w (extend_signed w k x) ≡ signed k (x % 2 ^ k)
unfolding extend_signed
extend_signed-signed w k x h b = ground (
  arith,
  half w (omega arith),
  half k h,
  two_pow_mono k w b,
  two_pow_mono (k - 1) (w - 1) (omega arith),
  two_pow_pos k,
)
