-- ===== src/Http2/Connection/Loop.antt =====
-- The main coroutine: dispatch of frames, `run`, and the return of a handler.
use web_frame.Prelude.{ℕ, zero, suc, ◌+◌, Bool, true, false, List, ltb, take, drop}
use web_frame.Prelude.Bytes.{codes}
use web_frame.Prelude.Dict.{nat_eq, erase}
use web_frame.Prelude.Expected.{Expected, ok, unexpected, io, invalid_argument}
use web_frame.Core.Response.{Response}
use web_frame.Http2.Frame.{FrameHeader, parse}
use web_frame.Http2.Frame.Codes.{
  protocol_error, frame_size_error, FrameType, data_frame, headers, priority, rst_stream, settings,
  push_promise, ping, goaway, window_update, continuation, other_type,
}
use web_frame.Http2.Hpack.{Hpack}
use web_frame.Http2.Connection.State.{
  supply, Http2Connection, done, no_fuel, M, pure, ◌>>=◌, ◌>>◌, attempt, modify_state, with_state,
  crash,
}
use web_frame.Http2.Connection.Socket.{send_goaway, fill}
use web_frame.Http2.Connection.Sending.{send_response, after_response}
use web_frame.Http2.Connection.Handlers.{go_away, process_data_frame}
use web_frame.Http2.Connection.Headers.{process_headers_frame}
use web_frame.Http2.Connection.Control.{
  process_settings_frame, process_ping_frame, process_goaway_frame, process_window_update_frame,
  process_rst_stream_frame,
}
use web_frame.Http2.Connection.Preface.{exchange_prefaces}

-- How a round of the main loop ends.
pub data Next : Type 0 where
  go_on stop : Next

module _ {E D : Type 0} (hpack : Hpack E D) where
  -- The switch of `process_frame`.
  unfoldable pub dispatch : FrameType → FrameHeader → List ℕ → M (Http2Connection E D) (Unit {0})
  dispatch data_frame header payload = process_data_frame header payload
  dispatch headers header payload = process_headers_frame hpack header payload
  dispatch settings header payload = process_settings_frame hpack header payload
  dispatch ping header payload = process_ping_frame header payload
  dispatch goaway header payload = process_goaway_frame header payload
  dispatch window_update header payload = process_window_update_frame header payload
  dispatch rst_stream header payload = process_rst_stream_frame header payload
  dispatch priority header payload = pure tt
  dispatch push_promise header payload =
      go_away protocol_error "PUSH_PROMISE not allowed from client"
        (io invalid_argument "PUSH_PROMISE not supported")
  dispatch continuation header payload =
      go_away protocol_error "Unexpected CONTINUATION"
        (io invalid_argument "Unexpected CONTINUATION")
  dispatch (other_type n) header payload = pure tt

  unfoldable pub process_frame : FrameHeader → List ℕ → M (Http2Connection E D) (Unit {0})
  unfolding dispatch
  process_frame header payload = dispatch header.type header payload

  abbrev close_and_stop : M (Http2Connection E D) Next
  close_and_stop c = done (ok stop) (record c { is_open = false })

  -- A frame that was processed is removed from the buffer; after an error the loop ends.
  unfoldable pub remove_processed : FrameHeader → Expected (Unit {0}) → M (Http2Connection E D) Next
  remove_processed header (unexpected e) = pure stop
  remove_processed header (ok _) =
      with_state λ c.
        λ _. done (ok go_on) (record c { read_buffer = drop (9 + header.length) c.read_buffer })

  -- The frame at the front of the buffer is processed, and then removed.
  unfoldable pub process_buffered : FrameHeader → M (Http2Connection E D) Next
  unfolding remove_processed
  process_buffered header = with_state λ c. do
    result ← attempt (process_frame header (take header.length (drop 9 c.read_buffer)))
    remove_processed header result

  unfoldable pub with_payload : FrameHeader → Expected Bool → M (Http2Connection E D) Next
  with_payload header (unexpected e) = close_and_stop
  with_payload header (ok false) = close_and_stop
  with_payload header (ok true) = process_buffered header

  -- The size of the frame was compared with the limit.
  unfoldable pub with_size : FrameHeader → (too_large : Bool) → M (Http2Connection E D) Next
  unfolding with_payload
  with_size header true = do
    _ ← attempt (send_goaway frame_size_error (codes "Frame too large"))
    pure stop
  with_size header false = do whole ← attempt (fill (9 + header.length)); with_payload header whole

  unfoldable pub with_header : Expected FrameHeader → M (Http2Connection E D) Next
  unfolding with_size
  with_header (unexpected e) = do
    _ ← attempt (send_goaway protocol_error (codes "Invalid frame header"))
    pure stop
  with_header (ok header) =
      with_state λ c. with_size header (ltb c.local_settings.frame_size header.length)

  unfoldable pub with_nine : Expected Bool → M (Http2Connection E D) Next
  unfolding with_header
  with_nine (unexpected e) = close_and_stop
  with_nine (ok false) = close_and_stop
  with_nine (ok true) = with_state λ c. with_header (parse c.read_buffer)

  unfoldable pub round : (is_open : Bool) → M (Http2Connection E D) Next
  unfolding with_nine
  round false = pure stop
  round true = do enough ← attempt (fill 9); with_nine enough

  -- One round of the main loop of `run`.
  unfoldable pub run_step : M (Http2Connection E D) Next
  unfolding round
  run_step c = round c.is_open c

  abbrev pub after_step :
      M (Http2Connection E D) (Unit {0}) → Next → M (Http2Connection E D) (Unit {0})
  after_step k stop = pure tt
  after_step k go_on = k

  unfoldable pub run_loop : ℕ → M (Http2Connection E D) (Unit {0})
  run_loop zero = crash no_fuel
  run_loop (suc fuel) = do next ← run_step; after_step (run_loop fuel) next

  -- Each round takes nine bytes at least.
  unfoldable pub run : M (Http2Connection E D) (Unit {0})
  run = do exchange_prefaces; with_state λ c. run_loop (suc (supply c))

  -- The handler of a request has returned: the rest of `handle_stream_request`, which may come
  -- after any number of further frames. `Stream*` is the one from before the handler ran.
  unfoldable pub handler_returns : ℕ → Response → M (Http2Connection E D) (Unit {0})
  handler_returns stream_id response = do
    modify_state λ c. record c { calls = erase stream_id c.calls }
    outcome ← attempt (send_response hpack stream_id response)
    after_response stream_id outcome
