-- ===== src/WebSocket/Clients.antt =====
-- A frame that a client sends, as RFC 6455 has it, is taken whole by a round of `receive`.
use web_frame.Prelude.{
  ℕ, ◌+◌, ◌-◌, ◌^◌, ◌≤◌, ◌<◌, ◌≡◌, refl, sym, ap, ◌∙◌, Bool, true, false, some, List, ◌++◌, length,
  take, drop, length-append, take-append, drop-append, le→leb, le→ltb, arith, All,
}
use mathlib.Core.List.{append_assoc}
use web_frame.Prelude.Bytes.{IsByte}
use web_frame.WebSocket.Frame.{
  WebSocketOpcode, opcode_of, opcode_code, FrameHeader, serialize_frame_header, apply_mask,
  apply_mask-apply_mask, length-apply_mask,
}
use web_frame.WebSocket.Masking.{client_mask, apply_mask-client_mask}
use web_frame.WebSocket.RoundTrip.{IsValid, length-serialize_frame_header}
use web_frame.WebSocket.Overflow.{receive_step-parsed, header_size_bound}
use web_frame.WebSocket.Connection.{
  WebSocketConnection, handle_frame, take_frame, unmask, frame_end, with_parsed, receive_step,
}

-- A part of a message, with the mask that the client chose for it.
pub record Piece : Type 0 where
  pub mask : List ℕ
  pub payload : List ℕ

pub record IsPiece (p : Piece) : Type 0 where
  pub mask_4 : length p.mask ≡ 4
  pub payload_bytes : All IsByte p.payload
  pub payload_63 : length p.payload < 2 ^ 63

abbrev pub client_header : Bool → WebSocketOpcode → Piece → FrameHeader
client_header fin opcode p = record {
  fin = fin;
  rsv1 = false;
  rsv2 = false;
  rsv3 = false;
  opcode = opcode;
  masked = true;
  payload_length = length p.payload;
  mask_key = p.mask;
}

-- A frame as RFC 6455 has a client send it.
unfoldable pub client_frame : Bool → WebSocketOpcode → Piece → List ℕ
client_frame fin opcode p =
    serialize_frame_header (client_header fin opcode p) ++ client_mask p.mask p.payload

client_header-IsValid :
    (fin : Bool) (opcode : WebSocketOpcode) (p : Piece)
    → opcode_code opcode < 16
    → opcode_of (opcode_code opcode) ≡ opcode
    → IsPiece p
    → IsValid (client_header fin opcode p)
client_header-IsValid fin opcode p small known i = record {
  opcode_small = small;
  known_opcode = known;
  length_64 = let l = i.payload_63 in omega arith;
  mask_fits = i.mask_4;
}

take_slice :
    (hs ms rest : List ℕ)
    → take (length hs + length ms - length hs) (drop (length hs) (hs ++ (ms ++ rest))) ≡ ms
take_slice hs ms rest =
    let n : length hs + length ms - length hs ≡ length ms = omega arith in
    rw (drop-append hs (ms ++ rest), n) (take-append ms rest)

drop_slice : (hs ms rest : List ℕ) → drop (length hs + length ms) (hs ++ (ms ++ rest)) ≡ rest
drop_slice hs ms rest =
    rw (← append_assoc hs ms rest, ← length-append hs ms) (drop-append (hs ++ ms) rest)

-- A header whose payload stands behind it.
pub with_parsed-whole :
    (h : FrameHeader) (hs ms rest : List ℕ) (c : WebSocketConnection)
    → h.payload_length ≡ length ms
    → length hs + length ms < 2 ^ 64
    → c.read_buffer ≡ hs ++ (ms ++ rest)
    → with_parsed c (some (length hs, h))
      ≡ handle_frame h.opcode h (unmask h ms) (record c { read_buffer = rest })
unfolding take_frame
with_parsed-whole h hs ms rest c n small e =
    let ends : frame_end (length hs) h ≡ length hs + length ms = rw n (omega arith) in
    let l = length-append hs (ms ++ rest) in
    let l' = length-append ms rest in
    let within : length hs + length ms ≤ length c.read_buffer = rw e (omega arith) in
    let ordered : length hs ≤ length hs + length ms = omega arith in
    let payload : take (length hs + length ms - length hs) (drop (length hs) c.read_buffer) ≡ ms =
      rw e (take_slice hs ms rest) in
    let after : drop (length hs + length ms) c.read_buffer ≡ rest = rw e (drop_slice hs ms rest) in
    rw (ends, le→leb _ _ within, take_frame, le→ltb _ _ ordered, payload, after) refl

-- A whole frame at the front of the buffer is taken, and its payload is what was sent.
pub receive_step-client_frame :
    (fin : Bool) (opcode : WebSocketOpcode) (p : Piece) (rest : List ℕ) (c : WebSocketConnection)
    → opcode_code opcode < 16
    → opcode_of (opcode_code opcode) ≡ opcode
    → IsPiece p
    → c.is_open ≡ true
    → c.read_buffer ≡ client_frame fin opcode p ++ rest
    → receive_step c
      ≡ handle_frame opcode (client_header fin opcode p) p.payload (record c { read_buffer = rest })
unfolding client_frame take_frame
receive_step-client_frame fin opcode p rest c small known i open_still e =
    let h = client_header fin opcode p in
    let v = client_header-IsValid fin opcode p small known i in
    let e : c.read_buffer ≡ (serialize_frame_header h ++ apply_mask p.mask p.payload) ++ rest =
      e
      ∙ ap (λ q. (serialize_frame_header h ++ q) ++ rest)
          (sym (apply_mask-client_mask p.mask p.payload)) in
    let parsed =
      receive_step-parsed h (apply_mask p.mask p.payload ++ rest) c v open_still
        (e ∙ append_assoc (serialize_frame_header h) (apply_mask p.mask p.payload) rest) in
    let size = length-serialize_frame_header h v in
    let masked = length-apply_mask p.mask p.payload in
    let bound = header_size_bound h in
    let l = i.payload_63 in
    let whole =
      with_parsed-whole h (serialize_frame_header h) (apply_mask p.mask p.payload) rest c
        (sym masked) (omega arith)
        (e ∙ append_assoc (serialize_frame_header h) (apply_mask p.mask p.payload) rest) in
    parsed
    ∙ ap (λ n. with_parsed c (some (n, h))) (sym size)
    ∙ whole
    ∙ ap (λ q. handle_frame opcode h q (record c { read_buffer = rest }))
        (apply_mask-apply_mask p.mask p.payload i.payload_bytes)
