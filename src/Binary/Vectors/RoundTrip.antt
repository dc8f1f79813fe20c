-- ===== src/Binary/Vectors/RoundTrip.antt =====
-- A vector is read back when each of its items is.
use watgo.Common.{ℕ, ◌%◌, ◌^◌, ◌<◌, ◌≤◌, ◌≡◌, refl, arith}
use watgo.Common.{List, [], ◌∷◌, ◌++◌, ok, err, All, length, length-append}
use watgo.Binary.Reader.{Error, Decoder}
use watgo.Binary.Leb.{write_uleb128}
use watgo.Binary.Leb.Unsigned.{read_u32-write_uleb128}
use watgo.Binary.Vectors.{bounded_vector_capacity, read_items, read_vector}
use watgo.Binary.Vectors.{write_items, write_vector}
use mathlib.Core.List.{append_assoc, append-nil}

module _ {A : Type 0} (Fits : A → Type 0) (item : Decoder A) (write : A → List ℕ)
    (nothing : (e : Error) × (item [] ≡ err e))
    (round_trip : (v : A) (rest : List ℕ) → Fits v → item (write v ++ rest) ≡ ok (v, rest)) where
  read_items-write :
      (vs : List A) (rest : List ℕ)
      → All Fits vs
      → read_items item (length vs) (write_items write vs ++ rest) ≡ ok (vs, rest)
  unfolding read_items write_items
  read_items-write [] rest h = refl
  read_items-write (v ∷ vs) rest (fits, h) =
      rw (append_assoc (write v) (write_items write vs) rest) (
        rw (round_trip v (write_items write vs ++ rest) fits)
          (rw (read_items-write vs rest h) refl))

  bytes-positive : (v : A) (bytes : List ℕ) → item bytes ≡ ok (v, []) → 1 ≤ length bytes
  bytes-positive v [] h = let (e, failed) = nothing in cc
  bytes-positive v (b ∷ bytes) h = omega arith

  write-positive : (v : A) → Fits v → 1 ≤ length (write v)
  write-positive v fits =
      bytes-positive v (write v) (rw (append-nil (write v)) at (round_trip v [] fits))

  length-write_items :
      (vs : List A) (rest : List ℕ)
      → All Fits vs
      → length vs ≤ length (write_items write vs ++ rest)
  unfolding write_items
  length-write_items [] rest h = omega arith
  length-write_items (v ∷ vs) rest (fits, h) =
      rw (append_assoc (write v) (write_items write vs) rest) (
        rw (length-append (write v) (write_items write vs ++ rest))
          (omega (arith, write-positive v fits, length-write_items vs rest h)))

  -- A vector of at most 2 ^ 32 - 1 items, each of which is read back from what is written for it,
  -- is read back from its count and its items, and what follows is kept.
  pub read_vector-write :
      (vs : List A) (rest : List ℕ)
      → All Fits vs
      → length vs < 2 ^ 32
      → read_vector item (write_vector write vs ++ rest) ≡ ok (vs, rest)
  unfolding read_vector write_vector bounded_vector_capacity
  read_vector-write vs rest h small =
      let count : length vs % 2 ^ 32 ≡ length vs = omega arith in
      rw count (
        rw (append_assoc (write_uleb128 (length vs)) (write_items write vs) rest) (
          ground (
            arith,
            read_u32-write_uleb128 (length vs) (write_items write vs ++ rest) small,
            length-write_items vs rest h,
            read_items-write vs rest h,
          )))
