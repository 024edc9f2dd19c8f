-- ===== src/WebSocket/Frame.antt =====
-- src/net/websocket.cpp: the header of a frame, and the mask on its payload.
use web_frame.Prelude.{
  ℕ, zero, suc, ◌+◌, ◌*◌, ◌/◌, ◌%◌, ◌^◌, ◌<◌, ◌≡◌, refl, Bool, true, false, Option, none, some,
  List, [], ◌∷◌, ◌++◌, if◌then◌else◌, leb, ◌==◌, get_or, length, All, arith,
}
use native.Mathlib.Nat.{pow-suc}
use web_frame.Prelude.Bytes.{be16, be32, byte_at, IsByte}

-- The values that have no name are kept with their number.
pub data WebSocketOpcode : Type 0 where
  continuation text binary close ping pong : WebSocketOpcode
  reserved : ℕ → WebSocketOpcode

unfoldable pub opcode_of : ℕ → WebSocketOpcode
opcode_of n =
    if n == 0
    then continuation
    else if n == 1
    then text
    else if n == 2
    then binary
    else if n == 8
    then close
    else if n == 9
    then ping
    else if n == 10
    then pong
    else reserved n

unfoldable pub opcode_code : WebSocketOpcode → ℕ
opcode_code continuation = 0
opcode_code text = 1
opcode_code binary = 2
opcode_code close = 8
opcode_code ping = 9
opcode_code pong = 10
opcode_code (reserved n) = n

pub record FrameHeader : Type 0 where
  pub fin : Bool
  pub rsv1 : Bool
  pub rsv2 : Bool
  pub rsv3 : Bool
  pub opcode : WebSocketOpcode
  pub masked : Bool
  pub payload_length : ℕ
  pub mask_key : List ℕ

-- `(b & (1 << k)) != 0`.
abbrev pub bit : ℕ → ℕ → Bool
bit k b = b / 2 ^ k % 2 == 1

abbrev pub bit_of : ℕ → Bool → ℕ
bit_of k true = 2 ^ k
bit_of k false = 0

abbrev pub no_mask : List ℕ
no_mask = 0 ∷ 0 ∷ 0 ∷ 0 ∷ []

-- The length, the size of the header so far, and what follows; `none` if bytes are missing.
abbrev pub medium_length : List ℕ → Option (ℕ × ℕ × List ℕ)
medium_length (d2 ∷ d3 ∷ rest) = some (be16 d2 d3, 4, rest)
medium_length _ = none

abbrev pub long_length : List ℕ → Option (ℕ × ℕ × List ℕ)
long_length (d2 ∷ d3 ∷ d4 ∷ d5 ∷ d6 ∷ d7 ∷ d8 ∷ d9 ∷ rest) =
    some (be32 d2 d3 d4 d5 * 2 ^ 32 + be32 d6 d7 d8 d9, 10, rest)
long_length _ = none

unfoldable pub length_field : ℕ → List ℕ → Option (ℕ × ℕ × List ℕ)
length_field n rest =
    if leb n 125
    then some (n, 2, rest)
    else if n == 126
    then medium_length rest
    else long_length rest

abbrev pub header_of : ℕ → ℕ → ℕ → List ℕ → FrameHeader
header_of b0 b1 payload_length mask_key = record {
  fin = bit 7 b0;
  rsv1 = bit 6 b0;
  rsv2 = bit 5 b0;
  rsv3 = bit 4 b0;
  opcode = opcode_of (b0 % 16);
  masked = bit 7 b1;
  payload_length = payload_length;
  mask_key = mask_key;
}

-- The mask follows the length.
abbrev pub with_mask : ℕ → ℕ → ℕ → ℕ → List ℕ → Option (ℕ × FrameHeader)
with_mask b0 b1 n size (m0 ∷ m1 ∷ m2 ∷ m3 ∷ rest) =
    some (size + 4, header_of b0 b1 n (m0 ∷ m1 ∷ m2 ∷ m3 ∷ []))
with_mask b0 b1 n size _ = none

abbrev pub with_length : ℕ → ℕ → Option (ℕ × ℕ × List ℕ) → Option (ℕ × FrameHeader)
with_length b0 b1 none = none
with_length b0 b1 (some (n, size, rest)) =
    if bit 7 b1 then with_mask b0 b1 n size rest else some (size, header_of b0 b1 n no_mask)

-- The size of the header, and the header; `none` stands for 0, not enough bytes.
unfoldable pub parse_frame_header : List ℕ → Option (ℕ × FrameHeader)
unfolding length_field opcode_of
parse_frame_header (b0 ∷ b1 ∷ rest) = with_length b0 b1 (length_field (b1 % 128) rest)
parse_frame_header _ = none

-- `|=` of bits that are not set yet adds them.
abbrev pub first_byte : FrameHeader → ℕ
first_byte h =
    bit_of 7 h.fin + bit_of 6 h.rsv1 + bit_of 5 h.rsv2 + bit_of 4 h.rsv3 + opcode_code h.opcode

unfoldable pub serialize_length : Bool → ℕ → List ℕ
serialize_length masked n =
    if leb n 125
    then (bit_of 7 masked + n) ∷ []
    else if leb n 65535
    then (bit_of 7 masked + 126) ∷ byte_at 8 n ∷ n % 256 ∷ []
    else (bit_of 7 masked + 127)
      ∷ byte_at 56 n
      ∷ byte_at 48 n
      ∷ byte_at 40 n
      ∷ byte_at 32 n
      ∷ byte_at 24 n
      ∷ byte_at 16 n
      ∷ byte_at 8 n
      ∷ n % 256
      ∷ []

unfoldable pub serialize_frame_header : FrameHeader → List ℕ
unfolding serialize_length opcode_code
serialize_frame_header h =
    (first_byte h ∷ serialize_length h.masked h.payload_length)
    ++ (if h.masked then h.mask_key else [])

-- `^` of numbers of so many bits.
unfoldable pub xor_bits : ℕ → ℕ → ℕ → ℕ
xor_bits zero a b = 0
xor_bits (suc k) a b = (a + b) % 2 + 2 * xor_bits k (a / 2) (b / 2)

-- The loop, from the index `i` on.
unfoldable pub mask_from : ℕ → List ℕ → List ℕ → List ℕ
unfolding xor_bits
mask_from i mask [] = []
mask_from i mask (x ∷ xs) = xor_bits 8 x (get_or mask (i % 4) 0) ∷ mask_from (suc i) mask xs

unfoldable pub apply_mask : List ℕ → List ℕ → List ℕ
unfolding mask_from
apply_mask mask payload = mask_from 0 mask payload

pub xor_bits-xor_bits : (k a b : ℕ) → a < 2 ^ k → xor_bits k (xor_bits k a b) b ≡ a
unfolding xor_bits
xor_bits-xor_bits zero a b h = omega arith
xor_bits-xor_bits (suc k) a b h =
    let small : a / 2 < 2 ^ k = omega (arith, pow-suc 2 k) in
    let half : ((a + b) % 2 + 2 * xor_bits k (a / 2) (b / 2)) / 2 ≡ xor_bits k (a / 2) (b / 2) =
      omega arith in
    rw (half, xor_bits-xor_bits k (a / 2) (b / 2) small) (omega arith)

length-mask_from : (i : ℕ) (mask xs : List ℕ) → length (mask_from i mask xs) ≡ length xs
unfolding mask_from
length-mask_from i mask [] = refl
length-mask_from i mask (x ∷ xs) = omega (arith, length-mask_from (suc i) mask xs)

pub length-apply_mask : (mask xs : List ℕ) → length (apply_mask mask xs) ≡ length xs
unfolding apply_mask
length-apply_mask mask xs = length-mask_from 0 mask xs

mask_from-mask_from :
    (i : ℕ) (mask xs : List ℕ) → All IsByte xs → mask_from i mask (mask_from i mask xs) ≡ xs
unfolding mask_from
mask_from-mask_from i mask [] h = refl
mask_from-mask_from i mask (x ∷ xs) (p, h) =
    rw (xor_bits-xor_bits 8 x (get_or mask (i % 4) 0) p, mask_from-mask_from (suc i) mask xs h) refl

-- A mask that is applied twice is removed.
pub apply_mask-apply_mask :
    (mask xs : List ℕ) → All IsByte xs → apply_mask mask (apply_mask mask xs) ≡ xs
unfolding apply_mask
apply_mask-apply_mask mask xs h = mask_from-mask_from 0 mask xs h
