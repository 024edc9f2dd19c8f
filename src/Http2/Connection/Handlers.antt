-- ===== src/Http2/Connection/Handlers.antt =====
-- The handlers of frames, and the two halves of `handle_stream_request`.
use web_frame.Prelude.{
  ℕ, ◌+◌, ◌-◌, ◌&&◌, Option, none, some, List, [], ◌∷◌, leb, ◌==◌, if◌then◌else◌, length, take,
  String,
}
use web_frame.Prelude.Int.{pos, pos_part, ltb_ℤ, to_int32, add32, sub32}
use web_frame.Prelude.Bytes.{codes}
use web_frame.Prelude.Dict.{nat_eq}
use web_frame.Prelude.Expected.{Expected, ok, unexpected, Error, io, invalid_argument}
use web_frame.Core.Request.{Request}
use web_frame.Http2.Frame.{
  FrameHeader, has_end_stream, has_padded, serialize_window_update_frame,
  serialize_rst_stream_frame,
}
use web_frame.Http2.Frame.Codes.{ErrorCode, protocol_error, stream_closed}
use web_frame.Http2.Stream.{
  Stream, receive_data, is_request_complete, update_local_window, build_request, reset,
}
use web_frame.Http2.Connection.State.{
  Http2Connection, M, pure, throw, ◌>>=◌, ◌>>◌, attempt, modify_state, with_state,
}
use web_frame.Http2.Connection.Socket.{
  send_frame, send_goaway, get_stream, remove_stream, on_stream, deref,
}

-- The payload of DATA without its padding; `none` if the padding is as long as the payload.
unfoldable pub unpad_data : FrameHeader → List ℕ → Option (List ℕ)
unpad_data header [] = some []
unpad_data header (pad_length ∷ payload) =
    if has_padded header
    then if leb (length payload + 1) pad_length
      then none
      else some (take (length payload - pad_length) payload)
    else some (pad_length ∷ payload)

module _ {E D : Type 0} where
  -- `co_await send_goaway(code, message); co_return unexpected(error)`.
  unfoldable pub go_away : {A : Type 0} → ErrorCode → String → Error → M (Http2Connection E D) A
  unfolding send_goaway
  go_away code message error = do _ ← attempt (send_goaway code (codes message)); throw error

  -- `co_await send_frame(rst); co_return {}`.
  unfoldable pub send_rst_stream : ℕ → ErrorCode → M (Http2Connection E D) (Unit {0})
  send_rst_stream stream_id code = do
    _ ← attempt (send_frame (serialize_rst_stream_frame stream_id code))
    pure tt

  -- `handle_stream_request` up to the call of the handler.
  unfoldable pub with_request : ℕ → Expected Request → M (Http2Connection E D) (Unit {0})
  with_request stream_id (unexpected e) = do on_stream stream_id reset; remove_stream stream_id
  with_request stream_id (ok request) =
      modify_state λ c. record c { calls = (stream_id, request) ∷ c.calls }

  unfoldable pub start_found : ℕ → Option Stream → M (Http2Connection E D) (Unit {0})
  start_found stream_id none = pure tt
  start_found stream_id (some s) =
      with_state λ c. if c.has_handler then with_request stream_id (build_request s) else pure tt

  unfoldable pub start_request : ℕ → M (Http2Connection E D) (Unit {0})
  start_request stream_id = do found ← get_stream stream_id; start_found stream_id found

  -- `if (stream->is_request_complete() && handler_) handle_stream_request(...).start_detached()`.
  unfoldable pub start_if_complete : ℕ → M (Http2Connection E D) (Unit {0})
  start_if_complete stream_id = do
    s ← deref stream_id
    with_state
        λ c. if is_request_complete s && c.has_handler then start_request stream_id else pure tt

  -- The receive window is filled up when less than half of it is left.
  unfoldable pub refill_window : M (Http2Connection E D) (Unit {0})
  refill_window = with_state λ c.
      if ltb_ℤ c.local_window_size (pos 32767)
      then (do
        _ ← attempt (
            send_frame
              (serialize_window_update_frame 0 (pos_part (sub32 (pos 65535) c.local_window_size))))
        modify_state λ c'. record c' {
          local_window_size = add32 c'.local_window_size (sub32 (pos 65535) c.local_window_size);
        })
      else pure tt

  -- DATA for a stream that exists, once its padding is off.
  unfoldable pub deliver_data :
      FrameHeader → (size : ℕ) → Option (List ℕ) → M (Http2Connection E D) (Unit {0})
  deliver_data header size none =
      go_away protocol_error "Invalid padding" (io invalid_argument "Invalid padding")
  deliver_data header size (some body) = do
    on_stream header.stream_id (receive_data body (has_end_stream header))
    modify_state λ c. record c { local_window_size = sub32 c.local_window_size (to_int32 size) }
    on_stream header.stream_id (update_local_window (sub32 (pos 0) (to_int32 size)))
    refill_window
    start_if_complete header.stream_id

  unfoldable pub data_for :
      FrameHeader → List ℕ → Option Stream → M (Http2Connection E D) (Unit {0})
  data_for header payload none = send_rst_stream header.stream_id stream_closed
  data_for header payload (some s) =
      deliver_data header (length payload) (unpad_data header payload)

  unfoldable pub process_data_frame : FrameHeader → List ℕ → M (Http2Connection E D) (Unit {0})
  process_data_frame header payload =
      if header.stream_id == 0
      then go_away protocol_error "DATA on stream 0" (io invalid_argument "DATA on stream 0")
      else (do found ← get_stream header.stream_id; data_for header payload found)
