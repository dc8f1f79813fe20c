-- ===== src/Binary/Leb/SignedWrite.antt =====
-- What `writeSLEB128` writes: an encoding whose highest bit is the sign.
use watgo.Common.{refl, ap, ℕ, zero, suc, ◌+◌, ◌-◌, ◌*◌, ◌/◌, ◌%◌, ◌^◌, ◌≤◌, ◌<◌, ◌≡◌, arith}
use watgo.Common.{List, [], ◌∷◌, length}
use watgo.Common.Powers.{two_pow_seven}
use watgo.Common.Bits.{bit_six, set_bit_seven, bit_and_mask}
use watgo.Common.{◌⊎◌, inl, inr}
use watgo.Common.Int.{pos, negsuc, to_bits}
use watgo.Binary.Leb.{write_sleb_loop, write_sleb128}
use watgo.Binary.Leb.Encodes.{Encodes, last, more}
use native.Mathlib.Nat.{pow-suc}
use native.Mathlib.Decide.{dec_lt}

-- One round, on a number below 2 ^ 63 and on the pattern of a negative one.
module _ (fuel : ℕ) where
  pos_last : (v : ℕ) → v < 64 → write_sleb_loop (suc fuel) v ≡ v ∷ []
  unfolding write_sleb_loop
  pos_last v h = ground (arith, bit_and_mask 7 v, bit_six v)

  pos_more :
      (v : ℕ)
      → 64 ≤ v
      → v < 2 ^ 63
      → write_sleb_loop (suc fuel) v ≡ (v % 128 + 128) ∷ write_sleb_loop fuel (v / 128)
  unfolding write_sleb_loop
  pos_more v h k = ground (arith, bit_and_mask 7 v, bit_six (v % 128), set_bit_seven (v % 128))

  neg_last : (m : ℕ) → m < 64 → write_sleb_loop (suc fuel) (2 ^ 64 - 1 - m) ≡ (127 - m) ∷ []
  unfolding write_sleb_loop
  neg_last m h = ground (arith, bit_and_mask 7 (2 ^ 64 - 1 - m), bit_six (127 - m))

  neg_more :
      (m : ℕ)
      → 64 ≤ m
      → m < 2 ^ 63
      → write_sleb_loop (suc fuel) (2 ^ 64 - 1 - m)
        ≡ (255 - m % 128) ∷ write_sleb_loop fuel (2 ^ 64 - 1 - m / 128)
  unfolding write_sleb_loop
  neg_more m h k = ground (
    arith,
    bit_and_mask 7 (2 ^ 64 - 1 - m),
    bit_six (127 - m % 128),
    set_bit_seven (127 - m % 128),
  )

-- The groups that are written for a number, and for the complement of a negative number.
abbrev pub PosWritten : ℕ → List ℕ → ℕ → Type 0
PosWritten k bs v =
    (n : ℕ) × Encodes bs v × (length bs ≡ n) × (n ≤ suc k) × (2 * v + 2 ≤ 2 ^ (7 * n))

abbrev pub NegWritten : ℕ → List ℕ → ℕ → Type 0
NegWritten k bs m =
    (n : ℕ) × (u : ℕ) × Encodes bs u
    × (length bs ≡ n)
    × (n ≤ suc k)
    × (u + m + 1 ≡ 2 ^ (7 * n))
    × (2 * m + 2 ≤ 2 ^ (7 * n))

pos_last-PosWritten : (k fuel v : ℕ) → v < 64 → PosWritten k (write_sleb_loop (suc fuel) v) v
pos_last-PosWritten k fuel v h =
    rw (pos_last fuel v h) (1, last (omega arith), refl, omega arith, omega arith)

neg_last-NegWritten :
    (k fuel m : ℕ) → m < 64 → NegWritten k (write_sleb_loop (suc fuel) (2 ^ 64 - 1 - m)) m
neg_last-NegWritten k fuel m h =
    rw (neg_last fuel m h)
      (1, 127 - m, last (omega arith), refl, omega arith, omega arith, omega arith)

pos_more-PosWritten :
    (k fuel v : ℕ)
    → 64 ≤ v
    → v < 2 ^ 63
    → PosWritten k (write_sleb_loop (suc fuel) (v / 128)) (v / 128)
    → PosWritten (suc k) (write_sleb_loop (suc (suc fuel)) v) v
pos_more-PosWritten k fuel v h w (n, enc, len, few, top) = rw (pos_more (suc fuel) v h w) (
  suc n,
  more (omega arith) (omega arith) enc (omega arith),
  ap suc len,
  omega arith,
  omega (arith, two_pow_seven n),
)

neg_more-NegWritten :
    (k fuel m : ℕ)
    → 64 ≤ m
    → m < 2 ^ 63
    → NegWritten k (write_sleb_loop (suc fuel) (2 ^ 64 - 1 - m / 128)) (m / 128)
    → NegWritten (suc k) (write_sleb_loop (suc (suc fuel)) (2 ^ 64 - 1 - m)) m
neg_more-NegWritten k fuel m h w (n, u, enc, len, few, sum, top) = rw (neg_more (suc fuel) m h w) (
  suc n,
  127 - m % 128 + u * 128,
  more (omega arith) (omega arith) enc (omega arith),
  ap suc len,
  omega arith,
  omega (arith, two_pow_seven n),
  omega (arith, two_pow_seven n),
)

pos_written :
    (k fuel v : ℕ)
    → k ≤ fuel
    → v < 64 * 128 ^ k
    → v < 2 ^ 63
    → PosWritten k (write_sleb_loop (suc fuel) v) v
pos_written zero fuel v hk h w = pos_last-PosWritten zero fuel v (omega arith)
pos_written (suc k) zero v hk h w = absurd (omega arith)
pos_written (suc k) (suc fuel) v hk h w = elim (dec_lt v 64) [
  | yes small ↦ pos_last-PosWritten (suc k) (suc fuel) v small
  | no large ↦
      pos_more-PosWritten k fuel v (omega arith) w
        (pos_written k fuel (v / 128) (omega arith) (omega (arith, pow-suc 128 k)) (omega arith))
]

neg_written :
    (k fuel m : ℕ)
    → k ≤ fuel
    → m < 64 * 128 ^ k
    → m < 2 ^ 63
    → NegWritten k (write_sleb_loop (suc fuel) (2 ^ 64 - 1 - m)) m
neg_written zero fuel m hk h w = neg_last-NegWritten zero fuel m (omega arith)
neg_written (suc k) zero m hk h w = absurd (omega arith)
neg_written (suc k) (suc fuel) m hk h w = elim (dec_lt m 64) [
  | yes small ↦ neg_last-NegWritten (suc k) (suc fuel) m small
  | no large ↦
      neg_more-NegWritten k fuel m (omega arith) w
        (neg_written k fuel (m / 128) (omega arith) (omega (arith, pow-suc 128 k)) (omega arith))
]

-- Five bytes hold a number of 34 bits, ten any number of 63.
pub write_sleb128-PosWritten :
    (k n : ℕ)
    → k ≤ 9
    → n < 64 * 128 ^ k
    → n < 2 ^ 63
    → PosWritten k (write_sleb128 (to_bits 64 (pos n))) n
unfolding write_sleb128
write_sleb128-PosWritten k n hk h w =
    let same : n % 2 ^ 64 ≡ n = omega arith in rw same (pos_written k 9 n hk h w)

pub write_sleb128-NegWritten :
    (k m : ℕ)
    → k ≤ 9
    → m < 64 * 128 ^ k
    → m < 2 ^ 63
    → NegWritten k (write_sleb128 (to_bits 64 (negsuc m))) m
unfolding write_sleb128
write_sleb128-NegWritten k m hk h w =
    let same : m % 2 ^ 64 ≡ m = omega arith in rw same (neg_written k 9 m hk h w)

-- The first byte written for an index is no code of a type: it is below 64 or has its top bit set.
pub write_sleb128-head :
    (v : ℕ)
    → v < 2 ^ 63
    → (b : ℕ) × (bs : List ℕ) × (write_sleb128 v ≡ b ∷ bs) × ((b < 64) ⊎ (128 ≤ b))
unfolding write_sleb128
write_sleb128-head v h = elim (dec_lt v 64) [
  | yes small ↦ (v, [], pos_last 9 v small, inl small)
  | no large ↦
      (v % 128 + 128, write_sleb_loop 9 (v / 128), pos_more 9 v (omega arith) h, inr (omega arith))
]
