-- ===== src/Http2/Connection/Headers.antt =====
-- HEADERS and CONTINUATION: padding and priority, the header block, and the stream that it opens.
use web_frame.Prelude.{
  ℕ, zero, suc, ◌+◌, ◌-◌, Bool, true, false, not, ◌&&◌, Option, none, some, List, ◌++◌, ltb, leb,
  ◌==◌, if◌then◌else◌, length, take, drop, get_or, String,
}
use web_frame.Prelude.Dict.{nat_eq}
use web_frame.Prelude.Expected.{Expected, ok, unexpected, io, invalid_argument, connection_reset}
use web_frame.Http2.Frame.{
  FrameHeader, parse, has_end_stream, has_end_headers, has_padded, has_priority,
}
use web_frame.Http2.Frame.Codes.{
  protocol_error, refused_stream, compression_error, FrameType, continuation,
}
use web_frame.Http2.Hpack.{Header, Hpack, validate_request_headers}
use web_frame.Http2.Stream.{Stream, receive_headers}
use web_frame.Http2.Connection.State.{
  supply, Http2Connection, no_fuel, M, pure, ◌>>=◌, ◌>>◌, attempt, modify_state, with_state, crash,
}
use web_frame.Http2.Connection.Socket.{fill, get_stream, create_stream, on_stream}
use web_frame.Http2.Connection.Handlers.{go_away, send_rst_stream, start_if_complete}

-- The header block of HEADERS without padding and priority; `none` if they do not fit.
unfoldable pub unpad_headers : FrameHeader → List ℕ → Option (List ℕ)
unpad_headers header payload =
    let padded = has_padded header && ltb 0 (length payload) in
    let pad_length = if padded then get_or payload 0 0 else 0 in
    let offset = (if padded then 1 else 0) + (if has_priority header then 5 else 0) in
    if ltb (length payload) (offset + pad_length)
    then none
    else some (take (length payload - offset - pad_length) (drop offset payload))

module _ {E D : Type 0} where
  -- `stream = create_stream(id); last_stream_id_ = id`.
  unfoldable pub admit_stream : ℕ → M (Http2Connection E D) (Unit {0})
  unfolding create_stream
  admit_stream stream_id = do
    create_stream stream_id
    modify_state λ c. record c { last_stream_id = stream_id }

  -- The headers go to their stream, or to a new one whose identifier is above all before it.
  unfoldable pub deliver_headers :
      FrameHeader → List Header → Option Stream → M (Http2Connection E D) (Unit {0})
  deliver_headers header hs (some s) = do
    on_stream header.stream_id (receive_headers hs (has_end_stream header))
    start_if_complete header.stream_id
  deliver_headers header hs none = with_state λ c.
      if leb header.stream_id c.last_stream_id
      then go_away protocol_error "Stream ID not increasing"
          (io invalid_argument "Invalid stream ID")
      else if leb c.local_settings.concurrent_streams c.active_streams
      then send_rst_stream header.stream_id refused_stream
      else (do
        admit_stream header.stream_id
        on_stream header.stream_id (receive_headers hs (has_end_stream header))
        start_if_complete header.stream_id)

  -- `while (read_buffer_.size() < n)` within a header block: the end of the connection is an error.
  unfoldable pub check_filled : String → Expected Bool → M (Http2Connection E D) (Unit {0})
  check_filled message (ok true) = pure tt
  check_filled message (ok false) =
      go_away protocol_error message (io connection_reset "Connection closed")
  check_filled message (unexpected e) =
      go_away protocol_error message (io connection_reset "Connection closed")

  unfoldable pub need : ℕ → String → M (Http2Connection E D) (Unit {0})
  unfolding check_filled
  need n message = do enough ← attempt (fill n); check_filled message enough

abbrev pub is_continuation : FrameType → Bool
is_continuation continuation = true
is_continuation _ = false

module _ {E D : Type 0} where
  -- The payload of a CONTINUATION frame goes to the block; its frame leaves the buffer.
  unfoldable pub collect : FrameHeader → List ℕ → M (Http2Connection E D) (List ℕ × Bool)
  collect next collected = do
    need (9 + next.length) "Connection closed reading CONTINUATION payload"
    with_state λ c. do
      modify_state λ c'. record c' { read_buffer = drop (9 + next.length) c'.read_buffer }
      pure (collected ++ take next.length (drop 9 c.read_buffer), has_end_headers next)

  -- The next frame of the block, whose type was compared with CONTINUATION.
  unfoldable pub check_next :
      FrameHeader
      → List ℕ
      → FrameHeader
      → (continues : Bool) → M (Http2Connection E D) (List ℕ × Bool)
  check_next header collected next false =
      go_away protocol_error "Expected CONTINUATION frame"
        (io invalid_argument "Expected CONTINUATION")
  check_next header collected next true = with_state λ c.
      if not (next.stream_id == header.stream_id)
      then go_away protocol_error "CONTINUATION frame stream ID mismatch"
          (io invalid_argument "CONTINUATION stream mismatch")
      else if ltb c.local_settings.header_list_size (length collected + next.length)
      then go_away protocol_error "Header list too large"
          (io invalid_argument "Header list too large")
      else collect next collected

  unfoldable pub check_continuation :
      FrameHeader → List ℕ → Expected FrameHeader → M (Http2Connection E D) (List ℕ × Bool)
  unfolding check_next
  check_continuation header collected (unexpected e) =
      go_away protocol_error "Invalid frame header during CONTINUATION"
        (io invalid_argument "Invalid frame header")
  check_continuation header collected (ok next) =
      check_next header collected next (is_continuation next.type)

  -- One round of the loop over CONTINUATION frames: the block so far, and whether it has ended.
  unfoldable pub next_fragment : FrameHeader → List ℕ → M (Http2Connection E D) (List ℕ × Bool)
  next_fragment header collected = do
    need 9 "Connection closed pending CONTINUATION"
    with_state λ c. check_continuation header collected (parse c.read_buffer)

module _ {E D : Type 0} (hpack : Hpack E D) where
  -- What follows the decoding of the header block, whole or collected.
  unfoldable pub accept_headers : FrameHeader → List Header → M (Http2Connection E D) (Unit {0})
  accept_headers header hs =
      if validate_request_headers hs
      then (do found ← get_stream header.stream_id; deliver_headers header hs found)
      else send_rst_stream header.stream_id protocol_error

  unfoldable pub with_decoded :
      FrameHeader → Expected (List Header) → M (Http2Connection E D) (Unit {0})
  with_decoded header (unexpected e) = go_away compression_error "HPACK decode failed" e
  with_decoded header (ok hs) = accept_headers header hs

  unfoldable pub decode_headers : FrameHeader → List ℕ → M (Http2Connection E D) (Unit {0})
  decode_headers header block = with_state λ c. do
    modify_state λ c'. record c' { decoder = (hpack.decode c.decoder block).0 }
    with_decoded header (hpack.decode c.decoder block).1

  -- The loop, on fuel, with the block that is collected so far.
  unfoldable pub continue_headers : ℕ → FrameHeader → List ℕ → M (Http2Connection E D) (Unit {0})
  continue_headers zero header collected = crash no_fuel
  continue_headers (suc fuel) header collected = do
    round ← next_fragment header collected
    if round.1 then decode_headers header round.0 else continue_headers fuel header round.0

  unfoldable pub with_block : FrameHeader → Option (List ℕ) → M (Http2Connection E D) (Unit {0})
  with_block header none =
      go_away protocol_error "Invalid padding/priority"
        (io invalid_argument "Invalid padding/priority")
  with_block header (some block) =
      if has_end_headers header
      then decode_headers header block
      else with_state λ c. continue_headers (suc (supply c)) header block

  unfoldable pub process_headers_frame : FrameHeader → List ℕ → M (Http2Connection E D) (Unit {0})
  process_headers_frame header payload =
      if header.stream_id == 0
      then go_away protocol_error "HEADERS on stream 0" (io invalid_argument "HEADERS on stream 0")
      else with_block header (unpad_headers header payload)
