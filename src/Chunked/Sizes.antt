-- ===== src/Chunked/Sizes.antt =====
-- `parse_chunk_size` against the number that the digits stand for.
use web_frame.Prelude.{
  ℕ, suc, ◌+◌, ◌*◌, ◌^◌, ◌≡◌, Option, none, some, [], ◌∷◌, if◌then◌else◌, ltb, arith, length,
}
use native.Mathlib.Nat.{pow-suc}
use web_frame.Prelude.Text.{Text}
use web_frame.Chunked.Codec.{ChunkSize, hex_value, size, overflow}

abbrev pub IsHexDigit : ℕ → Type 0
IsHexDigit c = (d : ℕ) × (hex_value c ≡ some d)

abbrev digit_of : Option ℕ → ℕ
digit_of none = 0
digit_of (some d) = d

-- Each digit counts by its place.
unfoldable pub hex_number : Text → ℕ
hex_number [] = 0
hex_number (c ∷ s) = digit_of (hex_value c) * 16 ^ length s + hex_number s

-- A result of 64 bits, or the overflow.
abbrev pub checked : ℕ → ChunkSize
checked n = if ltb n (2 ^ 63) then size n else overflow

places : (v d n rest : ℕ) → (v * 16 + d) * 16 ^ n + rest ≡ v * 16 ^ suc n + (d * 16 ^ n + rest)
places v d n rest = rw (pow-suc 16 n) (grind arith)
