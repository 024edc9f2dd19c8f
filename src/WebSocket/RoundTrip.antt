-- ===== src/WebSocket/RoundTrip.antt =====
-- A serialized frame header is parsed back.
use web_frame.Prelude.{
  ℕ, ◌+◌, ◌*◌, ◌%◌, ◌^◌, ◌<◌, ◌≡◌, refl, Bool, true, false, some, List, [], ◌∷◌, ◌++◌,
  if◌then◌else◌, leb, length, arith, Bool-cases, inl, inr, ap, ◌∙◌,
}
use web_frame.Prelude.Bytes.{be32, byte_at, be16-byte_at}
use web_frame.WebSocket.Frame.{
  FrameHeader, opcode_of, opcode_code, bit, bit_of, first_byte, no_mask, header_of, length_field,
  with_length, serialize_length, serialize_frame_header, parse_frame_header,
}

-- What the wire format can hold: an opcode of four bits, a length of 64, a mask of four bytes or none.
abbrev pub IsMask : Bool → List ℕ → Type 0
IsMask true mask = length mask ≡ 4
IsMask false mask = mask ≡ no_mask

pub record IsValid (h : FrameHeader) : Type 0 where
  pub opcode_small : opcode_code h.opcode < 16
  pub known_opcode : opcode_of (opcode_code h.opcode) ≡ h.opcode
  pub length_64 : h.payload_length < 2 ^ 64
  pub mask_fits : IsMask h.masked h.mask_key

-- The bits of the first byte.
first_byte-bits :
    (f r s t : Bool) (n : ℕ)
    → n < 16
    → (let b = bit_of 7 f + bit_of 6 r + bit_of 5 s + bit_of 4 t + n in
        (bit 7 b ≡ f) × (bit 6 b ≡ r) × (bit 5 b ≡ s) × (bit 4 b ≡ t) × (b % 16 ≡ n))
first_byte-bits true true true true n h = ground arith
first_byte-bits true true true false n h = ground arith
first_byte-bits true true false t n h = ground arith
first_byte-bits true false s t n h = ground arith
first_byte-bits false r s t n h = ground arith

header_of-first_byte :
    (h : FrameHeader) (b1 : ℕ)
    → IsValid h
    → bit 7 b1 ≡ h.masked
    → header_of (first_byte h) b1 h.payload_length h.mask_key ≡ h
header_of-first_byte h b1 v m =
    let (e, e1, e2, e3, code) =
      first_byte-bits h.fin h.rsv1 h.rsv2 h.rsv3 (opcode_code h.opcode) v.opcode_small in
    rw (e, e1, e2, e3, code, m, v.known_opcode) refl

-- The mask, if there is one.
with_length-mask :
    (b0 b1 n size : ℕ) (masked : Bool) (mask rest : List ℕ)
    → IsMask masked mask
    → bit 7 b1 ≡ masked
    → with_length b0 b1 (some (n, size, (if masked then mask else []) ++ rest))
      ≡ some ((if masked then size + 4 else size), header_of b0 b1 n mask)
with_length-mask b0 b1 n size false mask rest h e = rw (e, h) refl
with_length-mask b0 b1 n size true (m0 ∷ m1 ∷ m2 ∷ m3 ∷ []) rest h e = rw e refl
with_length-mask b0 b1 n size true (m0 ∷ m1 ∷ m2 ∷ m3 ∷ m4 ∷ ms) rest h e = ground arith
with_length-mask b0 b1 n size true [] rest h e = ground arith
with_length-mask b0 b1 n size true (m0 ∷ []) rest h e = ground arith
with_length-mask b0 b1 n size true (m0 ∷ m1 ∷ []) rest h e = ground arith
with_length-mask b0 b1 n size true (m0 ∷ m1 ∷ m2 ∷ []) rest h e = ground arith

-- The mask is after the length, and ends the header.
with_length-header :
    (h : FrameHeader) (b1 size : ℕ) (rest : List ℕ)
    → IsValid h
    → bit 7 b1 ≡ h.masked
    → with_length
        (first_byte h)
        b1
        (some (h.payload_length, size, (if h.masked then h.mask_key else []) ++ rest))
      ≡ some ((if h.masked then size + 4 else size), h)
with_length-header h b1 size rest v m =
    with_length-mask (first_byte h) b1 h.payload_length size h.masked h.mask_key rest v.mask_fits m
    ∙ ap (λ k. some ((if h.masked then size + 4 else size), k)) (header_of-first_byte h b1 v m)

second_byte :
    (m : Bool) (n : ℕ) → n < 128 → (bit 7 (bit_of 7 m + n) ≡ m) × ((bit_of 7 m + n) % 128 ≡ n)
second_byte true n h = ground arith
second_byte false n h = ground arith

be64-byte_at :
    (n : ℕ)
    → n < 2 ^ 64
    → be32 (byte_at 56 n) (byte_at 48 n) (byte_at 40 n) (byte_at 32 n) * 2 ^ 32
        + be32 (byte_at 24 n) (byte_at 16 n) (byte_at 8 n) (n % 256)
      ≡ n
be64-byte_at n h = omega arith

-- The size of a header.
abbrev pub length_size : ℕ → ℕ
length_size n = if leb n 125 then 2 else if leb n 65535 then 4 else 10

abbrev pub header_size : FrameHeader → ℕ
header_size h = if h.masked then length_size h.payload_length + 4 else length_size h.payload_length

-- The header, followed by anything, is read back with its size.
pub parse_frame_header-serialize_frame_header :
    (h : FrameHeader) (rest : List ℕ)
    → IsValid h
    → parse_frame_header (serialize_frame_header h ++ rest) ≡ some (header_size h, h)
unfolding parse_frame_header serialize_frame_header serialize_length length_field
parse_frame_header-serialize_frame_header h rest v =
    let n = h.payload_length in
    let tail = (if h.masked then h.mask_key else []) in
    elim (Bool-cases (leb n 125)) [
      | inl small ↦
          let (m, l) = second_byte h.masked n (ground arith) in
          rw (small, l, small) (with_length-header h (bit_of 7 h.masked + n) 2 rest v m)
      | inr large ↦ elim (Bool-cases (leb n 65535)) [
        | inl medium ↦
            let (m, l) = second_byte h.masked 126 (omega arith) in
            rw (large, medium, l, be16-byte_at n (ground arith))
              (with_length-header h (bit_of 7 h.masked + 126) 4 rest v m)
        | inr huge ↦
            let (m, l) = second_byte h.masked 127 (omega arith) in
            rw (large, huge, l, be64-byte_at n v.length_64)
              (with_length-header h (bit_of 7 h.masked + 127) 10 rest v m)
      ]
    ]

length-mask :
    (masked : Bool) (mask : List ℕ) (size : ℕ)
    → IsMask masked mask
    → size + length (if masked then mask else []) ≡ (if masked then size + 4 else size)
length-mask true mask size h = omega arith
length-mask false mask size h = omega arith

pub length-serialize_frame_header :
    (h : FrameHeader) → IsValid h → length (serialize_frame_header h) ≡ header_size h
unfolding serialize_frame_header serialize_length
length-serialize_frame_header h v = elim (Bool-cases (leb h.payload_length 125)) [
  | inl small ↦ rw small (let l = length-mask h.masked h.mask_key 2 v.mask_fits in omega arith)
  | inr large ↦ elim (Bool-cases (leb h.payload_length 65535)) [
    | inl medium ↦
        rw (large, medium) (let l = length-mask h.masked h.mask_key 4 v.mask_fits in omega arith)
    | inr huge ↦
        rw (large, huge) (let l = length-mask h.masked h.mask_key 10 v.mask_fits in omega arith)
  ]
]
