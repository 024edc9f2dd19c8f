-- ===== src/Forms/Url.antt =====
-- src/core/form.cpp, `url_decode` and `url_encode`: the first reads back what the second prints.
use web_frame.Prelude.{
  ℕ, ◌+◌, ◌-◌, ◌*◌, ◌/◌, ◌%◌, ◌<◌, ◌≡◌, ◌≢◌, refl, ap, ◌∙◌, Bool, ◌&&◌, ◌||◌, Option, none, some,
  [], ◌∷◌, ◌++◌, leb, ltb, ◌==◌, ne→==, if◌then◌else◌, Bool-cases, inl, inr, All, All-append, arith,
}
use web_frame.Prelude.Bytes.{IsByte}
use web_frame.Prelude.Text.{Text, is_upper, is_digit}

abbrev pub hex_digit : ℕ → Option ℕ
hex_digit c =
    if leb b'0' c && leb c b'9'
    then some (c - b'0')
    else if leb b'a' c && leb c b'f'
    then some (c - b'a' + 10)
    else if leb b'A' c && leb c b'F'
    then some (c - b'A' + 10)
    else none

-- `(hi << 4) | lo`.
abbrev both_digits : Option ℕ → Option ℕ → Option ℕ
both_digits (some hi) (some lo) = some (hi * 16 + lo)
both_digits _ _ = none

-- What a `%` and the two characters behind it stand for.
abbrev pub escaped : ℕ → ℕ → ℕ → Option ℕ
escaped c h l = if c == b'%' then both_digits (hex_digit h) (hex_digit l) else none

abbrev pub plain : ℕ → ℕ
plain c = if c == b'+' then b' ' else c

unfoldable pub url_decode : Text → Text
url_decode [] = []
url_decode (c ∷ []) = plain c ∷ []
url_decode (c ∷ h ∷ []) = plain c ∷ plain h ∷ []
url_decode (c ∷ h ∷ l ∷ s) = elim (escaped c h l) [
  | some b ↦ b ∷ url_decode s
  | none ↦ plain c ∷ url_decode (h ∷ l ∷ s)
]

abbrev is_unreserved : ℕ → Bool
is_unreserved c =
    is_digit c
    || is_upper c
    || leb b'a' c && leb c b'z'
    || c == b'-'
    || c == b'_'
    || c == b'.'
    || c == b'~'

abbrev pub upper_hex : ℕ → ℕ
upper_hex d = if ltb d 10 then b'0' + d else b'A' + (d - 10)

abbrev pub encode_byte : ℕ → Text
encode_byte c =
    if is_unreserved c
    then c ∷ []
    else if c == b' '
    then b'+' ∷ []
    else b'%' ∷ upper_hex (c / 16) ∷ upper_hex (c % 16) ∷ []

unfoldable pub url_encode : Text → Text
url_encode [] = []
url_encode (c ∷ s) = encode_byte c ++ url_encode s

url_decode-plain : (c : ℕ) (s : Text) → c ≢ b'%' → url_decode (c ∷ s) ≡ plain c ∷ url_decode s
unfolding url_decode
url_decode-plain c [] h = refl
url_decode-plain c (d ∷ []) h = refl
url_decode-plain c (d ∷ e ∷ s) h = rw (url_decode, ne→== c b'%' h) refl

hex_digit-upper_hex : (d : ℕ) → d < 16 → hex_digit (upper_hex d) ≡ some d
hex_digit-upper_hex d h = ground arith

url_decode-escaped :
    (hi lo : ℕ) (s : Text)
    → hi < 16
    → lo < 16
    → url_decode (b'%' ∷ upper_hex hi ∷ upper_hex lo ∷ s) ≡ (hi * 16 + lo) ∷ url_decode s
unfolding url_decode
url_decode-escaped hi lo s h k = ground (arith, hex_digit-upper_hex hi h, hex_digit-upper_hex lo k)

url_decode-encode_byte :
    (c : ℕ) (s : Text) → IsByte c → url_decode (encode_byte c ++ s) ≡ c ∷ url_decode s
url_decode-encode_byte c s h = elim (Bool-cases (is_unreserved c)) [
  | inl yes_it_is ↦
      rw yes_it_is (url_decode-plain c s (ground arith) ∙ ap (λ d. d ∷ url_decode s) (ground arith))
  | inr other ↦ elim (Bool-cases (c == b' ')) [
    | inl space ↦
        rw (other, space)
          (url_decode-plain b'+' s (λ e. omega arith) ∙ ap (λ d. d ∷ url_decode s) (ground arith))
    | inr escape ↦
        rw (other, escape)
          (url_decode-escaped (c / 16) (c % 16) s (omega arith) (omega arith)
            ∙ ap (λ d. d ∷ url_decode s) (omega arith))
  ]
]

-- A text of bytes is decoded from its encoding.
pub url_decode-url_encode : (s : Text) → All IsByte s → url_decode (url_encode s) ≡ s
unfolding url_encode
url_decode-url_encode [] h = unfold url_decode in refl
url_decode-url_encode (c ∷ s) (b, h) =
    url_decode-encode_byte c (url_encode s) b ∙ ap (λ t. c ∷ t) (url_decode-url_encode s h)

-- What separates names, values and fields does not stand in an encoding.
abbrev pub IsWithinPair : ℕ → Type 0
IsWithinPair c = (c ≢ b'&') × (c ≢ b'=')

upper_hex-IsWithinPair : (d : ℕ) → d < 16 → IsWithinPair (upper_hex d)
upper_hex-IsWithinPair d h = ground arith

encode_byte-IsWithinPair : (c : ℕ) → IsByte c → All IsWithinPair (encode_byte c)
encode_byte-IsWithinPair c h = elim (Bool-cases (is_unreserved c)) [
  | inl kept ↦ rw kept (ground arith, tt)
  | inr other ↦ elim (Bool-cases (c == b' ')) [
    | inl space ↦ rw (other, space) (((λ e. omega arith), (λ e. omega arith)), tt)
    | inr escape ↦
        rw (other, escape)
          (
            ground arith,
            (
              upper_hex-IsWithinPair (c / 16) (omega arith),
              (upper_hex-IsWithinPair (c % 16) (omega arith), tt),
            ),
          )
  ]
]

pub url_encode-IsWithinPair : (s : Text) → All IsByte s → All IsWithinPair (url_encode s)
unfolding url_encode
url_encode-IsWithinPair [] h = tt
url_encode-IsWithinPair (c ∷ s) (b, h) =
    All-append IsWithinPair (encode_byte c) (url_encode s) (encode_byte-IsWithinPair c b)
      (url_encode-IsWithinPair s h)
