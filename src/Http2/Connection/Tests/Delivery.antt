-- ===== src/Http2/Connection/Tests/Delivery.antt =====
-- The theorems on rounds of the main loop and on an overflow, at a PING, a GOAWAY, an RST_STREAM and a
-- WINDOW_UPDATE.
use web_frame.Prelude.{ℕ, ◌≡◌, refl, false, List, [], ◌∷◌, ◌++◌, arith}
use web_frame.Prelude.{some, none, ◌+◌}
use web_frame.Prelude.Int.{pos, negsuc}
use web_frame.Http2.Stream.{Stream, new_stream}
use web_frame.Http2.Connection.Control.{update_window}
use web_frame.Http2.Connection.Overflow.{update_window-overflow}
use web_frame.Prelude.Dict.{nat_eq, find}
use web_frame.Core.Response.{empty_response}
use web_frame.Http2.Connection.Removed.{handler_returns-run_step}
use web_frame.Prelude.Expected.{ok}
use web_frame.Http2.Frame.{serialize_ping_frame, serialize_goaway_frame, serialize_rst_stream_frame}
use web_frame.Http2.Frame.Codes.{error_code, error_code_of, enhance_your_calm, cancel}
use web_frame.Http2.Connection.State.{Http2Connection, done, stuck, dangling}
use web_frame.Http2.Connection.Preface.{new_connection}
use web_frame.Http2.Connection.Loop.{run_step, go_on, handler_returns}
use web_frame.Http2.Connection.Delivery.{
  run_step-serialize_goaway_frame, run_step-serialize_rst_stream_frame,
}
use web_frame.Http2.Connection.Tests.{idle_connection, constant_hpack, with_waiting, waiting}

abbrev eight : List ℕ
eight = 1 ∷ 2 ∷ 3 ∷ 4 ∷ 5 ∷ 6 ∷ 7 ∷ 8 ∷ []

abbrev pinged : Http2Connection Unit Unit
pinged = record (idle_connection []) { read_buffer = serialize_ping_frame eight false ++ 0 ∷ [] }

abbrev sent_away : Http2Connection Unit Unit
sent_away = record (idle_connection []) {
  read_buffer = serialize_goaway_frame 7 enhance_your_calm (104 ∷ []) ++ [];
}

run_step-serialize_goaway_frame_example :
    run_step constant_hpack sent_away
    ≡ done
        (ok go_on)
        (record sent_away { read_buffer = []; goaway_error = enhance_your_calm; is_open = false })
unfolding new_connection error_code error_code_of
run_step-serialize_goaway_frame_example =
    run_step-serialize_goaway_frame constant_hpack 7 enhance_your_calm (104 ∷ []) [] sent_away
      (omega arith) refl (omega arith) refl refl (omega arith)

abbrev reset_by_peer : Http2Connection Unit Unit
reset_by_peer = record (with_waiting (pos 9)) {
  read_buffer = serialize_rst_stream_frame 1 cancel ++ [];
}

run_step-serialize_rst_stream_frame_example :
    (c' : Http2Connection Unit Unit) × (run_step constant_hpack reset_by_peer ≡ done (ok go_on) c')
    × (find 1 c'.streams ≡ none)
    × (find 3 c'.streams ≡ find 3 reset_by_peer.streams)
    × (c'.active_streams + 1 ≡ reset_by_peer.active_streams)
    × (c'.read_buffer ≡ [])
    × (c'.outgoing ≡ reset_by_peer.outgoing)
unfolding new_connection find
run_step-serialize_rst_stream_frame_example =
    run_step-serialize_rst_stream_frame constant_hpack 1 3 cancel [] (waiting (pos 9)) reset_by_peer
      (λ e. omega arith) (omega arith) (omega arith) refl refl (tt, tt) refl refl (omega arith) refl
      (omega arith)

handler_returns-run_step_example :
    (c' : Http2Connection Unit Unit) × (run_step constant_hpack reset_by_peer ≡ done (ok go_on) c')
    × (handler_returns constant_hpack 1 empty_response c' ≡ stuck dangling)
unfolding new_connection find
handler_returns-run_step_example =
    handler_returns-run_step constant_hpack 1 cancel empty_response [] (waiting (pos 9))
      reset_by_peer (omega arith) (omega arith) refl refl (tt, tt) refl refl (omega arith) refl
      (omega arith)

abbrev full_window : Http2Connection Unit Unit
full_window = record (idle_connection []) {
  streams = (1, new_stream 1 (pos 2147483647)) ∷ [];
  active_streams = 1;
  last_stream_id = 1;
}

update_window-overflow_example :
    (c' : Http2Connection Unit Unit) × (s' : Stream) × (update_window 1 1 full_window
      ≡ done (ok tt) c')
    × (c'.outgoing ≡ full_window.outgoing)
    × (find 1 c'.streams ≡ some s')
    × (s'.remote_window_size ≡ negsuc 2147483647)
unfolding new_connection new_stream find
update_window-overflow_example =
    update_window-overflow 1 1 2147483647 (new_stream 1 (pos 2147483647)) full_window
      (λ e. omega arith) (λ e. omega arith) (omega arith) (omega arith) (omega arith) refl refl refl
      refl
