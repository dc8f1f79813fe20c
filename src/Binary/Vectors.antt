-- ===== src/Binary/Vectors.antt =====
-- Vectors of internal/binaryformat: `boundedVectorCapacity` of decode.go, and the loops over a
-- count that the decoders and the encoders share, over the decoder or the writer of one item.
pub mod RoundTrip
use watgo.Common.{ℕ, zero, suc, ◌%◌, ◌^◌, List, [], ◌∷◌, ◌++◌, Result, ok, err, ◌>>=◌}
use watgo.Common.{length, ltb, if◌then◌else◌}
use watgo.Binary.Reader.{Error, Decoder}
use watgo.Binary.Leb.{write_uleb128, read_u32}

unfoldable pub bounded_vector_capacity : List ℕ → ℕ → Result Error ℕ
bounded_vector_capacity r n = if ltb (length r) n then err Error.length_bounds else ok n

unfoldable pub read_items : {A : Type 0} → Decoder A → ℕ → Decoder (List A)
read_items item zero r = ok ([], r)
read_items item (suc n) r = do
  (v, r₁) ← item r
  (vs, rest) ← read_items item n r₁
  ok (v ∷ vs, rest)

unfoldable pub read_vector : {A : Type 0} → Decoder A → Decoder (List A)
read_vector item r = do
  (n, rest) ← read_u32 r
  count ← bounded_vector_capacity rest n
  read_items item count rest

unfoldable pub write_items : {A : Type 0} → (A → List ℕ) → List A → List ℕ
write_items write [] = []
write_items write (v ∷ vs) = write v ++ write_items write vs

-- The count is converted to uint32.
unfoldable pub write_vector : {A : Type 0} → (A → List ℕ) → List A → List ℕ
write_vector write vs = write_uleb128 (length vs % 2 ^ 32) ++ write_items write vs
