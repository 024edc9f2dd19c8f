-- ===== src/Http2/Connection/Kept/Loop.antt =====
-- `process_frame`, a round of the main loop, the return of a handler and `shutdown` keep what the writes to
-- the stream map keep.
use web_frame.Prelude.{length, ◌+◌, ℕ, Bool, true, false, List}
use web_frame.Prelude.Expected.{Expected, ok, unexpected}
use web_frame.Http2.Frame.{FrameHeader, parse}
use web_frame.Http2.Frame.Codes.{ErrorCode}
use web_frame.Http2.Hpack.{Hpack}
use web_frame.Http2.Connection.State.{Http2Connection, pure, modify_state}
use web_frame.Http2.Connection.Keeps.{Keeps, Keeps-bind, Keeps-then, Keeps-attempt, Keeps-if}
use web_frame.Http2.Connection.Kept.{Shape, Kept, P, send_frame-kept, send_goaway-kept, fill-kept}
use web_frame.Http2.Connection.Kept.Data.{go_away-kept, process_data_frame-kept}
use web_frame.Prelude.Text.{Text}
use web_frame.Core.Response.{Response}
use web_frame.Http2.Frame.Codes.{
  FrameType, data_frame, headers, priority, rst_stream, settings, push_promise, ping, goaway,
  window_update, continuation, other_type,
}
use web_frame.Http2.Connection.Preface.{
  client_preface, send_preface, receive_preface, exchange_prefaces, check_preface, shutdown,
}
use web_frame.Http2.Connection.Loop.{
  dispatch, process_frame, remove_processed, process_buffered, with_payload, with_size, with_header,
  with_nine, round, run_step, handler_returns,
}
use web_frame.Http2.Connection.Kept.Sending.{send_response-kept, after_response-kept}
use web_frame.Http2.Connection.Kept.Headers.{process_headers_frame-kept}
use web_frame.Http2.Connection.Kept.Control.{
  process_settings_frame-kept, process_ping_frame-kept, process_goaway_frame-kept,
  process_window_update_frame-kept, process_rst_stream_frame-kept,
}

module _ {E D : Type 0} {Inv : Shape} (kept : Kept Inv) (hpack : Hpack E D) where
  abbrev L : Http2Connection E D → Type 0
  L = P kept

  dispatch-kept :
      (type : FrameType) (header : FrameHeader) (payload : List ℕ)
      → Keeps L (dispatch hpack type header payload)
  unfolding dispatch
  dispatch-kept data_frame header payload = process_data_frame-kept kept header payload
  dispatch-kept headers header payload = process_headers_frame-kept kept hpack header payload
  dispatch-kept settings header payload = process_settings_frame-kept kept hpack header payload
  dispatch-kept ping header payload = process_ping_frame-kept kept header payload
  dispatch-kept goaway header payload = process_goaway_frame-kept kept header payload
  dispatch-kept window_update header payload = process_window_update_frame-kept kept header payload
  dispatch-kept rst_stream header payload = process_rst_stream_frame-kept kept header payload
  dispatch-kept priority header payload = λ c p. p
  dispatch-kept push_promise header payload = go_away-kept kept _ _ _ _
  dispatch-kept continuation header payload = go_away-kept kept _ _ _ _
  dispatch-kept (other_type n) header payload = λ c p. p

  -- A frame, whatever it holds and however its processing ends.
  pub process_frame-kept :
      (header : FrameHeader) (payload : List ℕ) → Keeps L (process_frame hpack header payload)
  unfolding process_frame
  process_frame-kept header payload = dispatch-kept header.type header payload

  remove_processed-kept :
      (header : FrameHeader) (result : Expected (Unit {0}))
      → Keeps L (remove_processed hpack header result)
  unfolding remove_processed
  remove_processed-kept header (unexpected e) = λ c p. p
  remove_processed-kept header (ok _) = λ c p. kept.drop_kept (9 + header.length) _ _ _ _ _ _ _ p

  process_buffered-kept : (header : FrameHeader) → Keeps L (process_buffered hpack header)
  unfolding process_buffered
  process_buffered-kept header = λ c.
      Keeps-bind _ _ (Keeps-attempt _ (process_frame-kept header _)) (remove_processed-kept header)
        c

  with_payload-kept :
      (header : FrameHeader) (whole : Expected Bool) → Keeps L (with_payload hpack header whole)
  unfolding with_payload
  with_payload-kept header (unexpected e) = λ c p. p
  with_payload-kept header (ok false) = λ c p. p
  with_payload-kept header (ok true) = process_buffered-kept header

  with_size-kept :
      (header : FrameHeader) (too_large : Bool) → Keeps L (with_size hpack header too_large)
  unfolding with_size
  with_size-kept header true =
      Keeps-bind _ _ (Keeps-attempt _ (send_goaway-kept kept _ _)) λ _ c p. p
  with_size-kept header false =
      Keeps-bind _ _ (Keeps-attempt _ (fill-kept kept _)) (with_payload-kept header)

  with_header-kept : (header : Expected FrameHeader) → Keeps L (with_header hpack header)
  unfolding with_header
  with_header-kept (unexpected e) =
      Keeps-bind _ _ (Keeps-attempt _ (send_goaway-kept kept _ _)) λ _ c p. p
  with_header-kept (ok header) = λ c. with_size-kept header _ c

  with_nine-kept : (enough : Expected Bool) → Keeps L (with_nine hpack enough)
  unfolding with_nine
  with_nine-kept (unexpected e) = λ c p. p
  with_nine-kept (ok false) = λ c p. p
  with_nine-kept (ok true) = λ c. with_header-kept (parse c.read_buffer) c

  round-kept : (is_open : Bool) → Keeps L (round hpack is_open)
  unfolding round
  round-kept false = λ c p. p
  round-kept true = Keeps-bind _ _ (Keeps-attempt _ (fill-kept kept 9)) with_nine-kept

  pub run_step-kept : Keeps L (run_step hpack)
  unfolding run_step
  run_step-kept c = round-kept c.is_open c

  check_preface-kept : (enough : Bool) → Keeps L (check_preface enough)
  unfolding check_preface
  check_preface-kept false = λ c p. p
  check_preface-kept true = λ c.
      Keeps-if _ (modify_state _) _ (λ c' p. kept.drop_kept (length client_preface) _ _ _ _ _ _ _ p)
        (go_away-kept kept _ _ _ _) c

  pub exchange_prefaces-kept : Keeps L exchange_prefaces
  unfolding exchange_prefaces send_preface receive_preface
  exchange_prefaces-kept =
      Keeps-then _ _ (λ c. send_frame-kept kept _ c)
        (Keeps-bind _ _ (fill-kept kept _) check_preface-kept)

  pub shutdown-kept : (error : ErrorCode) (debug : Text) → Keeps L (shutdown error debug)
  unfolding shutdown
  shutdown-kept error debug = λ c.
      Keeps-if c.goaway_sent (pure tt) _ (λ c' p. p)
        (Keeps-bind _ _ (Keeps-attempt _ (send_goaway-kept kept error debug)) λ _ c' p. p) c

  pub handler_returns-kept :
      (id : ℕ) (response : Response) → Keeps L (handler_returns hpack id response)
  unfolding handler_returns
  handler_returns-kept id response =
      Keeps-then _ _ (λ c p. p)
        (Keeps-bind _ _ (Keeps-attempt _ (send_response-kept kept hpack id response))
          (after_response-kept kept id))
