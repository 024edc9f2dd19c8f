-- ===== src/WebSocket/Overflow.antt =====
-- A length near 2^64: the end of the frame wraps around and stands before its start.
use web_frame.Prelude.{
  ℕ, ◌+◌, ◌%◌, ◌^◌, ◌≤◌, ◌<◌, ◌≡◌, refl, true, some, List, ◌++◌, length, length-append, le→leb,
  lt→ltb, arith,
}
use web_frame.WebSocket.Frame.{FrameHeader, serialize_frame_header}
use web_frame.WebSocket.RoundTrip.{
  IsValid, header_size, parse_frame_header-serialize_frame_header, length-serialize_frame_header,
}
use web_frame.WebSocket.Connection.{
  WebSocketConnection, take_frame, frame_end, with_parsed, receive_step, exception, receive_loop,
  receive,
}

-- What a round does with a parsed header.
pub receive_step-parsed :
    (h : FrameHeader) (rest : List ℕ) (c : WebSocketConnection)
    → IsValid h
    → c.is_open ≡ true
    → c.read_buffer ≡ serialize_frame_header h ++ rest
    → receive_step c ≡ with_parsed c (some (header_size h, h))
unfolding receive_step
receive_step-parsed h rest c v open_still e =
    simp (receive_step, open_still, e, parse_frame_header-serialize_frame_header h rest v) refl

pub header_size_bound : (h : FrameHeader) → header_size h ≤ 14
header_size_bound h = ground arith

wraps : (s n : ℕ) → s ≤ 14 → n < 2 ^ 64 → 2 ^ 64 ≤ s + n → (s + n) % 2 ^ 64 < s
wraps s n h k l = omega arith

within_longer : (a s n : ℕ) → a < s → s ≤ n → a ≤ n
within_longer a s n h k = omega arith

-- The header of an open connection's next frame has a length that, with the size of the header, is
-- 2^64 or more: `receive` throws.
pub receive-overflow :
    (h : FrameHeader) (rest : List ℕ) (c : WebSocketConnection)
    → IsValid h
    → 2 ^ 64 ≤ header_size h + h.payload_length
    → c.is_open ≡ true
    → c.read_buffer ≡ serialize_frame_header h ++ rest
    → receive c ≡ exception
unfolding receive receive_loop take_frame
receive-overflow h rest c v large open_still e =
    let before : frame_end (header_size h) h < header_size h =
      wraps (header_size h) h.payload_length (header_size_bound h) v.length_64 large in
    let within : frame_end (header_size h) h ≤ length c.read_buffer = rw e (
      let l = length-append (serialize_frame_header h) rest in
      let k = length-serialize_frame_header h v in
      within_longer (frame_end (header_size h) h) (header_size h)
        (length (serialize_frame_header h ++ rest)) before (omega arith)) in
    rw
      (
        receive_loop,
        receive_step-parsed h rest c v open_still e,
        le→leb _ _ within,
        take_frame,
        lt→ltb _ _ before,
      )
      refl
