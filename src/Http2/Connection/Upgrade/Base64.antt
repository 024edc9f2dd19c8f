-- ===== src/Http2/Connection/Upgrade/Base64.antt =====
-- `base64url_decode` of src/http2/connection.cpp.
use web_frame.Prelude.{
  ℕ, ◌+◌, ◌-◌, ◌*◌, ◌/◌, ◌%◌, ◌^◌, ◌<◌, ◌≡◌, refl, ap, ◌∙◌, true, false, ◌&&◌, ◌||◌, Option, none,
  some, List, [], ◌∷◌, arith, ltb, leb, ◌==◌, if◌then◌else◌, All,
}
use web_frame.Prelude.Bytes.{IsByte}

-- The value of a character, `none` for one that is skipped.
unfoldable pub sextet : ℕ → Option ℕ
sextet c =
    if leb b'A' c && leb c b'Z'
    then some (c - b'A')
    else if leb b'a' c && leb c b'z'
    then some (c - b'a' + 26)
    else if leb b'0' c && leb c b'9'
    then some (c - b'0' + 52)
    else if c == b'-' || c == b'+'
    then some 62
    else if c == b'_' || c == b'/'
    then some 63
    else none

-- The loop: `val` as a pattern of 32 bits, and `bits` for `valb + 8`.
unfoldable pub decode_from : (val bits : ℕ) → List ℕ → List ℕ
decode_from val bits [] = []
decode_from val bits (c ∷ cs) = elim (sextet c) [
  | none ↦ decode_from val bits cs
  | some d ↦
      let val' = (val * 64 + d) % 2 ^ 32 in
      elim (leb 2 bits) [
        | true ↦ val' / 2 ^ (bits - 2) % 256 ∷ decode_from val' (bits - 2) cs
        | false ↦ decode_from val' (bits + 6) cs
      ]
]

unfoldable pub base64url_decode : List ℕ → List ℕ
unfolding decode_from sextet
base64url_decode input = decode_from 0 0 input

-- The alphabet of RFC 4648, section 5, and the encoding without padding.
unfoldable pub character : ℕ → ℕ
character d =
    if ltb d 26
    then b'A' + d
    else if ltb d 52
    then b'a' + (d - 26)
    else if ltb d 62
    then b'0' + (d - 52)
    else if d == 62
    then b'-'
    else b'_'

unfoldable pub base64url_encode : List ℕ → List ℕ
base64url_encode [] = []
base64url_encode (b0 ∷ []) = character (b0 / 4) ∷ character (b0 % 4 * 16) ∷ []
base64url_encode (b0 ∷ b1 ∷ []) =
    character (b0 / 4) ∷ character (b0 % 4 * 16 + b1 / 16) ∷ character (b1 % 16 * 4) ∷ []
base64url_encode (b0 ∷ b1 ∷ b2 ∷ rest) =
    character (b0 / 4)
    ∷ character (b0 % 4 * 16 + b1 / 16)
    ∷ character (b1 % 16 * 4 + b2 / 64)
    ∷ character (b2 % 64)
    ∷ base64url_encode rest

sextet-character : (d : ℕ) → d < 64 → sextet (character d) ≡ some d
unfolding sextet character
sextet-character d h = ground arith

abbrev next_val : ℕ → ℕ → ℕ
next_val val d = (val * 64 + d) % 2 ^ 32

decode_from-character :
    (val bits d : ℕ) (cs : List ℕ)
    → d < 64
    → decode_from val bits (character d ∷ cs) ≡ (elim (leb 2 bits) [
      | true ↦ next_val val d / 2 ^ (bits - 2) % 256 ∷ decode_from (next_val val d) (bits - 2) cs
      | false ↦ decode_from (next_val val d) (bits + 6) cs
    ])
unfolding decode_from
decode_from-character val bits d cs h = rw (decode_from, sextet-character d h) refl

first_byte :
    (val d0 d1 : ℕ)
    → d0 < 64
    → d1 < 64
    → next_val (next_val val d0) d1 / 2 ^ 4 % 256 ≡ d0 * 4 + d1 / 16
first_byte val d0 d1 h k = omega arith

second_byte :
    (val d1 d2 : ℕ)
    → d1 < 64
    → d2 < 64
    → next_val (next_val val d1) d2 / 2 ^ 2 % 256 ≡ d1 % 16 * 16 + d2 / 4
second_byte val d1 d2 h k = omega arith

third_byte :
    (val d2 d3 : ℕ)
    → d2 < 64
    → d3 < 64
    → next_val (next_val val d2) d3 / 2 ^ 0 % 256 ≡ d2 % 4 * 64 + d3
third_byte val d2 d3 h k = omega arith

-- A group of four characters.
decode_from-group :
    (val d0 d1 d2 d3 : ℕ) (cs : List ℕ)
    → d0 < 64
    → d1 < 64
    → d2 < 64
    → d3 < 64
    → decode_from val 0 (character d0 ∷ character d1 ∷ character d2 ∷ character d3 ∷ cs)
      ≡ (d0 * 4 + d1 / 16)
        ∷ (d1 % 16 * 16 + d2 / 4)
        ∷ (d2 % 4 * 64 + d3)
        ∷ decode_from (next_val (next_val (next_val (next_val val d0) d1) d2) d3) 0 cs
decode_from-group val d0 d1 d2 d3 cs h0 h1 h2 h3 =
    let v0 = next_val val d0 in
    let v1 = next_val v0 d1 in
    let v2 = next_val v1 d2 in
    let v3 = next_val v2 d3 in
    decode_from-character val 0 d0 (character d1 ∷ character d2 ∷ character d3 ∷ cs) h0
    ∙ decode_from-character v0 6 d1 (character d2 ∷ character d3 ∷ cs) h1
    ∙ ap (λ rest. v1 / 2 ^ 4 % 256 ∷ rest)
        (decode_from-character v1 4 d2 (character d3 ∷ cs) h2
          ∙ ap (λ rest. v2 / 2 ^ 2 % 256 ∷ rest) (decode_from-character v2 2 d3 cs h3))
    ∙ ap (λ x. x ∷ v2 / 2 ^ 2 % 256 ∷ v3 / 2 ^ 0 % 256 ∷ decode_from v3 0 cs)
        (first_byte val d0 d1 h0 h1)
    ∙ ap (λ x. (d0 * 4 + d1 / 16) ∷ x ∷ v3 / 2 ^ 0 % 256 ∷ decode_from v3 0 cs)
        (second_byte v0 d1 d2 h1 h2)
    ∙ ap (λ x. (d0 * 4 + d1 / 16) ∷ (d1 % 16 * 16 + d2 / 4) ∷ x ∷ decode_from v3 0 cs)
        (third_byte v1 d2 d3 h2 h3)

-- The last two characters, for one byte, and the last three, for two.
decode_from-two :
    (val d0 d1 : ℕ)
    → d0 < 64
    → d1 < 64
    → decode_from val 0 (character d0 ∷ character d1 ∷ []) ≡ (d0 * 4 + d1 / 16) ∷ []
unfolding decode_from
decode_from-two val d0 d1 h0 h1 =
    decode_from-character val 0 d0 (character d1 ∷ []) h0
    ∙ decode_from-character (next_val val d0) 6 d1 [] h1
    ∙ ap (λ x. x ∷ []) (first_byte val d0 d1 h0 h1)

decode_from-three :
    (val d0 d1 d2 : ℕ)
    → d0 < 64
    → d1 < 64
    → d2 < 64
    → decode_from val 0 (character d0 ∷ character d1 ∷ character d2 ∷ [])
      ≡ (d0 * 4 + d1 / 16) ∷ (d1 % 16 * 16 + d2 / 4) ∷ []
unfolding decode_from
decode_from-three val d0 d1 d2 h0 h1 h2 =
    let v0 = next_val val d0 in
    let v1 = next_val v0 d1 in
    decode_from-character val 0 d0 (character d1 ∷ character d2 ∷ []) h0
    ∙ decode_from-character v0 6 d1 (character d2 ∷ []) h1
    ∙ ap (λ rest. v1 / 2 ^ 4 % 256 ∷ rest) (decode_from-character v1 4 d2 [] h2)
    ∙ ap (λ x. x ∷ next_val v1 d2 / 2 ^ 2 % 256 ∷ []) (first_byte val d0 d1 h0 h1)
    ∙ ap (λ x. (d0 * 4 + d1 / 16) ∷ x ∷ []) (second_byte v0 d1 d2 h1 h2)

decode_from-base64url_encode :
    (bytes : List ℕ) (val : ℕ)
    → All IsByte bytes
    → decode_from val 0 (base64url_encode bytes) ≡ bytes
unfolding base64url_encode decode_from
decode_from-base64url_encode [] val h = refl
decode_from-base64url_encode (b0 ∷ []) val h =
    decode_from-two val (b0 / 4) (b0 % 4 * 16) (omega arith) (omega arith)
    ∙ ap (λ x. x ∷ []) (omega arith)
decode_from-base64url_encode (b0 ∷ b1 ∷ []) val h =
    decode_from-three val (b0 / 4) (b0 % 4 * 16 + b1 / 16) (b1 % 16 * 4) (omega arith) (omega arith)
      (omega arith)
    ∙ ap (λ x. x ∷ ((b0 % 4 * 16 + b1 / 16) % 16 * 16 + b1 % 16 * 4 / 4) ∷ []) (omega arith)
    ∙ ap (λ x. b0 ∷ x ∷ []) (omega arith)
decode_from-base64url_encode (b0 ∷ b1 ∷ b2 ∷ rest) val (h0, (h1, (h2, h))) =
    let d1 = b0 % 4 * 16 + b1 / 16 in
    let d2 = b1 % 16 * 4 + b2 / 64 in
    decode_from-group val (b0 / 4) d1 d2 (b2 % 64) (base64url_encode rest) (omega arith)
      (omega arith) (omega arith) (omega arith)
    ∙ ap
        (λ bytes.
          (b0 / 4 * 4 + d1 / 16) ∷ (d1 % 16 * 16 + d2 / 4) ∷ (d2 % 4 * 64 + b2 % 64) ∷ bytes)
        (decode_from-base64url_encode rest _ h)
    ∙ ap (λ x. x ∷ (d1 % 16 * 16 + d2 / 4) ∷ (d2 % 4 * 64 + b2 % 64) ∷ rest) (omega arith)
    ∙ ap (λ x. b0 ∷ x ∷ (d2 % 4 * 64 + b2 % 64) ∷ rest) (omega arith)
    ∙ ap (λ x. b0 ∷ b1 ∷ x ∷ rest) (omega arith)

-- Every list of bytes is decoded back from its base64url encoding without padding.
pub base64url_decode-base64url_encode :
    (bytes : List ℕ) → All IsByte bytes → base64url_decode (base64url_encode bytes) ≡ bytes
unfolding base64url_decode
base64url_decode-base64url_encode bytes h = decode_from-base64url_encode bytes 0 h
