-- ===== src/Chunked/Codec.antt =====
-- src/core/chunked.cpp: chunks as text, and the size that a chunk's first line announces.
use web_frame.Prelude.{
  ℕ, zero, suc, ◌+◌, ◌-◌, ◌*◌, ◌/◌, ◌%◌, ◌^◌, ◌&&◌, true, false, Option, none, some, List, [], ◌∷◌,
  ◌++◌, if◌then◌else◌, ltb, leb, length, take,
}
use web_frame.Prelude.Bytes.{codes}
use web_frame.Prelude.Text.{Text, is_empty, trim, find_char, crlf}

abbrev pub hex_char : ℕ → ℕ
hex_char d = if ltb d 10 then b'0' + d else b'a' + (d - 10)

-- `std::hex` of a `size_t`; each round takes a digit, so the number and one more is enough fuel.
unfoldable pub hex_from : ℕ → ℕ → Text → Text
hex_from zero n acc = acc
hex_from (suc fuel) n acc =
    let more = hex_from fuel (n / 16) (hex_char (n % 16) ∷ acc) in
    if ltb n 16 then hex_char n ∷ acc else more

unfoldable pub to_hex : ℕ → Text
unfolding hex_from
to_hex n = hex_from (suc n) n []

unfoldable pub encode_chunk : Text → Text
encode_chunk [] = []
encode_chunk (c ∷ content) = to_hex (length (c ∷ content)) ++ (crlf ++ ((c ∷ content) ++ crlf))

abbrev pub trailer_line : Text × Text → Text
trailer_line (key, value) = key ++ (codes ": " ++ value)

unfoldable pub trailer_lines : List (Text × Text) → Text
trailer_lines [] = []
trailer_lines (t ∷ ts) = trailer_line t ++ (crlf ++ trailer_lines ts)

unfoldable pub encode_final_chunk : List (Text × Text) → Text
encode_final_chunk trailers = b'0' ∷ (crlf ++ (trailer_lines trailers ++ crlf))

-- A negative result is `invalid`; `overflow` is that of the signed arithmetic, which C++ leaves
-- undefined.
pub data ChunkSize : Type 0 where
  size : ℕ → ChunkSize
  invalid overflow : ChunkSize

abbrev pub hex_value : ℕ → Option ℕ
hex_value c =
    if leb b'0' c && leb c b'9'
    then some (c - b'0')
    else if leb b'a' c && leb c b'f'
    then some (c - b'a' + 10)
    else if leb b'A' c && leb c b'F'
    then some (c - b'A' + 10)
    else none

-- The product is a multiple of 16 below 2^63: to add a digit does not overflow.
unfoldable pub parse_digits : ℕ → Text → ChunkSize
parse_digits result [] = size result
parse_digits result (c ∷ s) = elim (ltb (result * 16) (2 ^ 63)) [
  | true ↦ elim (hex_value c) [ none ↦ invalid | some d ↦ parse_digits (result * 16 + d) s ]
  | false ↦ overflow
]

abbrev cut_at : Text → Option ℕ → Text
cut_at s none = s
cut_at s (some semicolon) = take semicolon s

abbrev pub without_extensions : Text → Text
without_extensions s = cut_at s (find_char b';' s)

unfoldable pub parse_chunk_size : Text → ChunkSize
unfolding parse_digits
parse_chunk_size hex_size =
    let digits = without_extensions (trim hex_size) in
    if is_empty digits then invalid else parse_digits 0 digits
