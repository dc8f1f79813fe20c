-- ===== src/Binary/Reader.antt =====
-- internal/binaryformat/decode.go, `readByte`, `readN` and the fixed-width integers of both files.
-- A `bytes.Reader` is the list of its unread bytes; what is written is the list of the bytes added.
use watgo.Common.{ℕ, ◌<◌, List, [], ◌∷◌, Result, ok, err}
use watgo.Common.{length, take, drop, ltb, if◌then◌else◌}

-- One constructor for each message that the decoder gives.
pub data Error : Type 0 where
  unexpected_eof too_long overflow_64 overflow : Error
  unsupported_value_type unsupported_heap_type not_a_reference : Error
  unsupported_limits_flags alignment_range mutability : Error
  length_bounds type_form : Error

abbrev pub Decoder : Type 0 → Type 0
Decoder A = List ℕ → Result Error (A × List ℕ)

abbrev pub IsByte : ℕ → Type 0
IsByte b = b < 256

abbrev pub read_byte : Decoder ℕ
read_byte [] = err Error.unexpected_eof
read_byte (b ∷ r) = ok (b, r)

-- `n` is a length, so the test for a negative one is never met.
unfoldable pub read_n : ℕ → Decoder (List ℕ)
read_n n r = if ltb (length r) n then err Error.unexpected_eof else ok (take n r, drop n r)
