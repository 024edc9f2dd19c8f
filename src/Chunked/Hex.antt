-- ===== src/Chunked/Hex.antt =====
-- The size of a chunk is read back from the digits that `std::hex` prints.
use web_frame.Prelude.{
  ℕ, zero, suc, ◌+◌, ◌*◌, ◌/◌, ◌%◌, ◌^◌, ◌<◌, ◌≤◌, ◌≡◌, ◌≢◌, refl, ap, ◌∙◌, some, [], ◌∷◌, ltb,
  Bool-cases, inl, inr, arith, All, All-mono, length,
}
use native.Mathlib.Nat.{pow-suc}
use web_frame.Prelude.Text.{Text}
use web_frame.Prelude.Search.{trim_visible, is_empty_text, find_char-none}
use web_frame.Chunked.Codec.{
  hex_char, hex_value, hex_from, to_hex, size, parse_digits, parse_chunk_size,
}

-- What stands between the first digit and the last letter, without the semicolon.
abbrev pub IsHex : ℕ → Type 0
IsHex c = (48 ≤ c) × (c ≤ 102) × (c ≢ b';')

hex_char-IsHex : (d : ℕ) → d < 16 → IsHex (hex_char d)
hex_char-IsHex d h = ground arith

hex_value-hex_char : (d : ℕ) → d < 16 → hex_value (hex_char d) ≡ some d
hex_value-hex_char d h = ground arith

hex_from-IsHex : (fuel n : ℕ) (acc : Text) → All IsHex acc → All IsHex (hex_from fuel n acc)
unfolding hex_from
hex_from-IsHex zero n acc h = h
hex_from-IsHex (suc fuel) n acc h = elim (Bool-cases (ltb n 16)) [
  | inl small ↦ rw small (hex_char-IsHex n (ground arith), h)
  | inr large ↦ rw large (
      hex_from-IsHex fuel (n / 16) (hex_char (n % 16) ∷ acc)
        (hex_char-IsHex (n % 16) (omega arith), h))
]

pub to_hex-IsHex : (n : ℕ) → All IsHex (to_hex n)
unfolding to_hex
to_hex-IsHex n = hex_from-IsHex (suc n) n [] tt

length-hex_from : (fuel n : ℕ) (acc : Text) → length acc ≤ length (hex_from fuel n acc)
unfolding hex_from
length-hex_from zero n acc = omega arith
length-hex_from (suc fuel) n acc =
    let rec = length-hex_from fuel (n / 16) (hex_char (n % 16) ∷ acc) in ground arith

pub length-to_hex : (n : ℕ) → 1 ≤ length (to_hex n)
unfolding to_hex hex_from
length-to_hex n = let rec = length-hex_from n (n / 16) (hex_char (n % 16) ∷ []) in ground arith

-- At most a digit for each factor of 16.
length-hex_from_le :
    (k fuel n : ℕ) (acc : Text) → n < 16 ^ suc k → length (hex_from fuel n acc) ≤ suc k + length acc
unfolding hex_from
length-hex_from_le k zero n acc h = omega arith
length-hex_from_le zero (suc fuel) n acc h = ground arith
length-hex_from_le (suc k) (suc fuel) n acc h =
    let small : n / 16 < 16 ^ suc k = omega (arith, pow-suc 16 (suc k)) in
    elim (Bool-cases (ltb n 16)) [
      | inl one ↦ rw one (omega arith)
      | inr large ↦
          rw large
            (omega (arith, length-hex_from_le k fuel (n / 16) (hex_char (n % 16) ∷ acc) small))
    ]

parse_digits-hex_char :
    (v d : ℕ) (s : Text)
    → d < 16
    → v * 16 < 2 ^ 63
    → parse_digits v (hex_char d ∷ s) ≡ parse_digits (v * 16 + d) s
unfolding parse_digits
parse_digits-hex_char v d s h k = ground (arith, hex_value-hex_char d h)

parse_digits-hex_from :
    (fuel n : ℕ) (acc : Text)
    → n < fuel
    → n < 2 ^ 63
    → parse_digits 0 (hex_from fuel n acc) ≡ parse_digits n acc
unfolding hex_from
parse_digits-hex_from zero n acc h k = absurd (omega arith)
parse_digits-hex_from (suc fuel) n acc h k = elim (Bool-cases (ltb n 16)) [
  | inl small ↦ rw small (
      parse_digits-hex_char 0 n acc (ground arith) (omega arith)
      ∙ ap (λ v. parse_digits v acc) (omega arith))
  | inr large ↦ rw large (
      parse_digits-hex_from fuel (n / 16) (hex_char (n % 16) ∷ acc) (ground arith) (omega arith)
      ∙ parse_digits-hex_char (n / 16) (n % 16) acc (omega arith) (omega arith)
      ∙ ap (λ v. parse_digits v acc) (omega arith))
]

-- A size below 2^63 is read back from its digits.
pub parse_chunk_size-to_hex : (n : ℕ) → n < 2 ^ 63 → parse_chunk_size (to_hex n) ≡ size n
unfolding parse_chunk_size to_hex
parse_chunk_size-to_hex n h =
    let hex = to_hex-IsHex n in
    rw
      (
        trim_visible (to_hex n) (All-mono (λ c i. omega arith) (to_hex n) hex),
        find_char-none b';' (to_hex n) (All-mono (λ c i. i.2) (to_hex n) hex),
        is_empty_text (to_hex n) (length-to_hex n),
      )
      (parse_digits-hex_from (suc n) n [] (omega arith) h ∙ unfold parse_digits in refl)

-- Sixteen digits are enough for 64 bits.
pub length-to_hex_le : (n : ℕ) → n < 2 ^ 64 → length (to_hex n) ≤ 16
unfolding to_hex
length-to_hex_le n h = omega (arith, length-hex_from_le 15 (suc n) n [] h)
