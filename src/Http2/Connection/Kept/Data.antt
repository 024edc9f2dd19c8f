-- ===== src/Http2/Connection/Kept/Data.antt =====
-- DATA, and starting a request, keep what the writes to the stream map keep; so does the admission of
-- a stream under its guards.
use web_frame.Prelude.{
  ℕ, ◌≡◌, false, Option, none, some, List, ◌&&◌, leb, String, arith, Bool-cases, inl, inr,
}
use web_frame.Prelude.Bytes.{codes}
use web_frame.Prelude.Int.{pos, ltb_ℤ}
use web_frame.Prelude.Expected.{Expected, ok, unexpected, Error}
use web_frame.Core.Request.{Request}
use web_frame.Http2.Frame.{FrameHeader}
use web_frame.Http2.Frame.Codes.{ErrorCode}
use web_frame.Http2.Stream.{Stream, is_request_complete, build_request}
use web_frame.Http2.Connection.State.{Http2Connection, pure, ◌>>=◌}
use web_frame.Http2.Connection.Socket.{create_stream}
use web_frame.Http2.Connection.Handlers.{
  go_away, send_rst_stream, with_request, start_found, start_request, start_if_complete,
  refill_window, deliver_data, data_for, process_data_frame,
}
use web_frame.Http2.Connection.Headers.{admit_stream}
use web_frame.Http2.Connection.Keeps.{
  Holds, Gives, Gives-after, Keeps, Keeps-bind, Keeps-then, Keeps-attempt, Keeps-if,
}
use web_frame.Http2.Connection.Kept.{
  Shape, Kept, P, send_frame-kept, send_goaway-kept, get_stream-kept, deref-kept, on_stream-kept,
  remove_stream-kept,
}

module _ {E D : Type 0} {Inv : Shape} (kept : Kept Inv) where
  abbrev pub F : Http2Connection E D → Type 0
  F = P kept

  pub go_away-kept :
      (A : Type 0) (code : ErrorCode) (message : String) (error : Error)
      → Keeps F (go_away {A = A} code message error)
  unfolding go_away
  go_away-kept A code message error =
      Keeps-bind _ _ (Keeps-attempt _ (send_goaway-kept kept code (codes message))) λ _ c p. p

  -- It never succeeds.
  pub go_away-Gives :
      (A : Type 0) (R : A → Http2Connection E D → Type 0) (code : ErrorCode) (message : String)
      (error : Error) (c : Http2Connection E D)
      → Gives R (go_away {A = A} code message error c)
  unfolding go_away
  go_away-Gives A R code message error c = Gives-after R _ _ c λ _ _. tt

  pub send_rst_stream-kept : (id : ℕ) (code : ErrorCode) → Keeps F (send_rst_stream id code)
  unfolding send_rst_stream
  send_rst_stream-kept id code =
      Keeps-bind _ _ (Keeps-attempt _ (send_frame-kept kept _)) λ _ c p. p

  with_request-kept : (id : ℕ) (request : Expected Request) → Keeps F (with_request id request)
  unfolding with_request
  with_request-kept id (unexpected e) =
      Keeps-bind _ _ (on_stream-kept kept id _) λ _. remove_stream-kept kept id
  with_request-kept id (ok request) = λ c p. p

  start_found-kept : (id : ℕ) (found : Option Stream) → Keeps F (start_found id found)
  unfolding start_found
  start_found-kept id none = λ c p. p
  start_found-kept id (some s) =
      λ c. Keeps-if c.has_handler _ (pure tt) (with_request-kept id (build_request s)) (λ c' p. p) c

  start_request-kept : (id : ℕ) → Keeps F (start_request id)
  unfolding start_request
  start_request-kept id = Keeps-bind _ _ (get_stream-kept kept id) (start_found-kept id)

  pub start_if_complete-kept : (id : ℕ) → Keeps F (start_if_complete id)
  unfolding start_if_complete
  start_if_complete-kept id = Keeps-bind _ _ (deref-kept kept id) λ s c.
      Keeps-if (is_request_complete s && c.has_handler) _ (pure tt) (start_request-kept id)
        (λ c' p. p) c

  refill_window-kept : Keeps F refill_window
  unfolding refill_window
  refill_window-kept c =
      Keeps-if (ltb_ℤ c.local_window_size (pos 32767)) _ (pure tt)
        (Keeps-bind _ _ (Keeps-attempt _ (send_frame-kept kept _)) λ _ c' p. p) (λ c' p. p) c

  deliver_data-kept :
      (header : FrameHeader) (size : ℕ) (body : Option (List ℕ))
      → Keeps F (deliver_data header size body)
  unfolding deliver_data
  deliver_data-kept header size none = go_away-kept _ _ _ _
  deliver_data-kept header size (some body) =
      Keeps-then _ _ (on_stream-kept kept header.stream_id _) (
        Keeps-then _ _ (λ c p. p)
          (Keeps-then _ _ (on_stream-kept kept header.stream_id _)
            (Keeps-then _ _ refill_window-kept (start_if_complete-kept header.stream_id))))

  data_for-kept :
      (header : FrameHeader) (payload : List ℕ) (found : Option Stream)
      → Keeps F (data_for header payload found)
  unfolding data_for
  data_for-kept header payload none = send_rst_stream-kept _ _
  data_for-kept header payload (some s) = deliver_data-kept header _ _

  pub process_data_frame-kept :
      (header : FrameHeader) (payload : List ℕ) → Keeps F (process_data_frame header payload)
  unfolding process_data_frame
  process_data_frame-kept header payload =
      Keeps-if _ _ _ (go_away-kept _ _ _ _)
        (Keeps-bind _ _ (get_stream-kept kept header.stream_id) (data_for-kept header payload))

  pub admit_stream-kept :
      (id : ℕ) (c : Http2Connection E D)
      → leb id c.last_stream_id ≡ false
      → leb c.local_settings.concurrent_streams c.active_streams ≡ false
      → F c
      → Holds F (admit_stream id c)
  unfolding admit_stream create_stream ◌>>=◌
  admit_stream-kept id c new free p = elim (Bool-cases c.streams_locked) [
    | inl locked ↦ rw locked tt
    | inr free_lock ↦
        rw free_lock (kept.admit_kept id _ _ _ _ _ _ _ _ (ground arith) (ground arith) p)
  ]
