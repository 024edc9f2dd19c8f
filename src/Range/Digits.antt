-- ===== src/Range/Digits.antt =====
-- `std::stoll` of <string>, and that it reads back what `std::to_string` prints.
use web_frame.Prelude.{
  ℕ, zero, suc, ◌+◌, ◌-◌, ◌*◌, ◌/◌, ◌%◌, ◌^◌, ◌<◌, ◌≤◌, ◌≡◌, Bool, true, false, Option, none, some,
  [], ◌∷◌, ltb, ◌==◌, if◌then◌else◌, arith, All, Bool-cases, inl, inr, ap, ◌∙◌, length,
}
use web_frame.Prelude.Int.{ℤ, pos, negsuc}
use web_frame.Prelude.Text.{Text, is_digit, trim_front, to_decimal, decimal_from}

-- The digits at the front, read on from a value.
unfoldable pub read_digits : ℕ → Text → ℕ
read_digits value [] = value
read_digits value (c ∷ s) = if is_digit c then read_digits (value * 10 + (c - b'0')) s else value

-- `out_of_range` is thrown outside the range of 64 bits.
abbrev pub positive64 : ℕ → Option ℤ
positive64 n = if ltb n (2 ^ 63) then some (pos n) else none

abbrev pub negative64 : ℕ → Option ℤ
negative64 zero = some (pos 0)
negative64 (suc n) = if ltb n (2 ^ 63) then some (negsuc n) else none

-- `invalid_argument` is thrown where no digit stands.
abbrev starts_with_digit : Text → Bool
starts_with_digit [] = false
starts_with_digit (c ∷ s) = is_digit c

unfoldable pub read_unsigned : (ℕ → Option ℤ) → Text → Option ℤ
unfolding read_digits
read_unsigned sign s = if starts_with_digit s then sign (read_digits 0 s) else none

unfoldable pub read_signed : Text → Option ℤ
unfolding read_unsigned
read_signed [] = none
read_signed (c ∷ s) =
    if c == b'-'
    then read_unsigned negative64 s
    else if c == b'+'
    then read_unsigned positive64 s
    else read_unsigned positive64 (c ∷ s)

-- `none` stands for an exception.
unfoldable pub stoll : Text → Option ℤ
unfolding read_signed trim_front
stoll s = read_signed (trim_front s)

abbrev pub IsDigit : ℕ → Type 0
IsDigit c = (b'0' ≤ c) × (c ≤ b'9')

pub decimal_from-IsDigit :
    (fuel n : ℕ) (acc : Text) → All IsDigit acc → All IsDigit (decimal_from fuel n acc)
unfolding decimal_from
decimal_from-IsDigit zero n acc h = h
decimal_from-IsDigit (suc fuel) n acc h =
    let rec = decimal_from-IsDigit fuel (n / 10) ((b'0' + n % 10) ∷ acc) (ground arith, h) in
    ground arith

-- The text begins with a digit: at least one is printed.
pub length-decimal_from : (fuel n : ℕ) (acc : Text) → length acc ≤ length (decimal_from fuel n acc)
unfolding decimal_from
length-decimal_from zero n acc = omega arith
length-decimal_from (suc fuel) n acc =
    let rec = length-decimal_from fuel (n / 10) ((b'0' + n % 10) ∷ acc) in ground arith

pub to_decimal-IsDigit : (n : ℕ) → All IsDigit (to_decimal n)
unfolding to_decimal
to_decimal-IsDigit n = decimal_from-IsDigit (suc n) n [] tt

pub length-to_decimal : (n : ℕ) → 1 ≤ length (to_decimal n)
unfolding to_decimal decimal_from
length-to_decimal n =
    let rec = length-decimal_from n (n / 10) ((b'0' + n % 10) ∷ []) in ground arith

-- A digit that is printed is read.
read_digits-digit :
    (v d : ℕ) (s : Text) → d < 10 → read_digits v ((b'0' + d) ∷ s) ≡ read_digits (v * 10 + d) s
unfolding read_digits
read_digits-digit v d s h =
    let digit : is_digit (b'0' + d) ≡ true = ground arith in
    rw digit (ap (λ x. read_digits (v * 10 + x) s) (omega arith))

read_digits-decimal_from :
    (fuel n : ℕ) (acc : Text)
    → n < fuel
    → read_digits 0 (decimal_from fuel n acc) ≡ read_digits n acc
unfolding read_digits decimal_from
read_digits-decimal_from zero n acc h = omega arith
read_digits-decimal_from (suc fuel) n acc h =
    let rec = read_digits-decimal_from fuel (n / 10) ((b'0' + n % 10) ∷ acc) in
    elim (Bool-cases (ltb n 10)) [
      | inl small ↦
          rw small
            (read_digits-digit 0 n acc (ground arith) ∙ ap (λ v. read_digits v acc) (omega arith))
      | inr large ↦
          rw (large, rec (ground arith), read_digits-digit (n / 10) (n % 10) acc (omega arith))
            (ap (λ v. read_digits v acc) (omega arith))
    ]

read_digits-to_decimal : (n : ℕ) → read_digits 0 (to_decimal n) ≡ n
unfolding to_decimal read_digits
read_digits-to_decimal n = read_digits-decimal_from (suc n) n [] (omega arith)

read_signed_digits :
    (s : Text) → All IsDigit s → 1 ≤ length s → stoll s ≡ positive64 (read_digits 0 s)
unfolding read_unsigned read_signed stoll trim_front
read_signed_digits [] h p = ground arith
read_signed_digits (c ∷ s) h p = ground arith

pub stoll-to_decimal : (n : ℕ) → n < 2 ^ 63 → stoll (to_decimal n) ≡ some (pos n)
stoll-to_decimal n h =
    rw
      (
        read_signed_digits (to_decimal n) (to_decimal-IsDigit n) (length-to_decimal n),
        read_digits-to_decimal n,
      )
      (ground arith)
