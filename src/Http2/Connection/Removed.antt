-- ===== src/Http2/Connection/Removed.antt =====
-- A stream that the peer resets while its handler runs: src/http2/connection.cpp keeps the
-- `Stream*` from before the handler ran.
use web_frame.Prelude.{
  ℕ, suc, ◌^◌, ◌<◌, ◌≤◌, ◌≡◌, ◌∙◌, refl, true, false, none, some, List, ◌++◌, arith, length,
}
use web_frame.Prelude.Dict.{nat_eq, find, IsMap}
use web_frame.Prelude.Expected.{ok}
use web_frame.Core.Response.{Response}
use web_frame.Http2.Frame.{serialize_rst_stream_frame}
use web_frame.Http2.Frame.Codes.{ErrorCode}
use web_frame.Http2.Hpack.{Hpack}
use web_frame.Http2.Stream.{Stream}
use web_frame.Http2.Connection.State.{
  Http2Connection, done, stuck, dangling, bind-ok, bind-stuck, attempt-stuck, attempt, modify_state,
}
use web_frame.Http2.Connection.Sending.{send_response, after_response}
use web_frame.Http2.Connection.Loop.{run_step, go_on, handler_returns}
use web_frame.Http2.Connection.Windows.{deref-none}
use web_frame.Http2.Connection.Delivery.{run_step-serialize_rst_stream_frame}

module _ {E D : Type 0} (hpack : Hpack E D) where
  handler_returns-missing :
      (id : ℕ) (response : Response) (c : Http2Connection E D)
      → find id c.streams ≡ none
      → handler_returns hpack id response c ≡ stuck dangling
  unfolding handler_returns send_response
  handler_returns-missing id response c gone =
      bind-ok (modify_state _) _ refl
      ∙ bind-stuck (attempt (send_response hpack id response)) (after_response id)
          (attempt-stuck (send_response hpack id response) (bind-stuck _ _ (deref-none id _ gone)))

  -- Where a round of the main loop processes the RST_STREAM of a stream of the map, as on a
  -- connection with correct bookkeeping and a free mutex, the later return of the handler of that
  -- stream uses the stream after it was destroyed.
  pub handler_returns-run_step :
      (id : ℕ) (error : ErrorCode) (response : Response) (rest : List ℕ) (s : Stream)
      (c : Http2Connection E D)
      → 0 < id
      → id < 2 ^ 31
      → c.is_open ≡ true
      → c.streams_locked ≡ false
      → IsMap c.streams
      → find id c.streams ≡ some s
      → c.active_streams ≡ length c.streams
      → length c.streams < 2 ^ 64
      → c.read_buffer ≡ serialize_rst_stream_frame id error ++ rest
      → 4 ≤ c.local_settings.frame_size
      → (c' : Http2Connection E D) × (run_step hpack c ≡ done (ok go_on) c')
        × (handler_returns hpack id response c' ≡ stuck dangling)
  handler_returns-run_step id error response rest s c p q o free m found n k b z =
      let (c', stepped, gone, others, count, left, silent) =
        run_step-serialize_rst_stream_frame hpack id (suc id) error rest s c (λ e. omega arith) p q
          o free m found n k b z in
      (c', stepped, handler_returns-missing id response c' gone)
