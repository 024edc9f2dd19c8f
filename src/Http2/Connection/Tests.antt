-- ===== src/Http2/Connection/Tests.antt =====
-- The theorems on a connection at concrete states of it.
mod Sending
mod Delivery
mod Upgrade
use web_frame.Prelude.{
  concat, ℕ, ◌≡◌, refl, true, Option, none, some, List, [], ◌∷◌, arith, length, if◌then◌else◌,
}
use web_frame.Prelude.Int.{ℤ, pos, to_int32, add32, sub32}
use web_frame.Prelude.Bytes.{codes}
use web_frame.Prelude.Dict.{nat_eq, find}
use web_frame.Prelude.Expected.{ok}
use web_frame.Http2.Frame.{FrameHeader, SettingsEntry, parse, serialize_entries}
use web_frame.Http2.Frame.Codes.{frame_type_of, headers, enable_push, initial_window_size}
use web_frame.Http2.Hpack.{Header, Hpack}
use web_frame.Http2.Stream.{Stream, WindowWaiter, new_stream}
use web_frame.Http2.Connection.State.{
  Http2Connection, Read, chunk, Run, done, stuck, deadlock, dangling, ◌>>◌,
}
use web_frame.Http2.Connection.Preface.{new_connection, client_preface, exchange_prefaces}
use web_frame.Http2.Connection.Loop.{run_step, stop}
use web_frame.Http2.Connection.Headers.{unpad_headers}
use web_frame.Http2.Connection.Control.{apply_settings}
use web_frame.Http2.Connection.Socket.{create_stream}
use web_frame.Http2.Connection.Settings.{window_setting, create_stream-apply_settings}
use web_frame.Http2.Connection.Fragments.{run_step-fragmented}
use web_frame.Core.Response.{Response, empty_response}
use web_frame.Http2.Connection.Reachable.{Reachable}
use web_frame.Prelude.{All, length, ◌<◌}
use web_frame.Http2.Connection.Sending.{send_data}
use web_frame.Http2.Connection.Chunks.{pieces, push_frames}
use web_frame.Core.Request.{Request, empty_request, header}
use web_frame.Http2.Frame.{serialize_entry}
use web_frame.Http2.Connection.Upgrade.{upgrade_to_http2}
use web_frame.Http2.Connection.Upgrade.Base64.{
  base64url_decode, base64url_encode, base64url_decode-base64url_encode,
}
use web_frame.Http2.Connection.Upgrade.FrameSize.{
  frame_size_setting, send_rest-endless, upgrade_to_http2-frame_size,
}
use web_frame.Http2.Connection.Sending.{
  notify_window_update, send_chunk, send_rest, complete_response, resume_sending, complete,
  suspended,
}

-- An HPACK codec that writes nothing and reads one request from every block.
abbrev field : List ℕ → List ℕ → Header
field name value = record { name = name; value = value }

abbrev get_root : List Header
get_root =
    field (codes ":method") (codes "GET")
    ∷ field (codes ":scheme") (codes "https")
    ∷ field (codes ":path") (codes "/")
    ∷ []

abbrev constant_hpack : Hpack Unit Unit
constant_hpack = record {
  encode = λ e hs. (e, ok []);
  set_max_table_size = λ e n. e;
  decode = λ d block. (d, ok get_root);
}

abbrev two_settings : List SettingsEntry
two_settings =
    record { id = initial_window_size; value = 100 } ∷ record { id = enable_push; value = 0 } ∷ []

abbrev idle_connection : List Read → Http2Connection Unit Unit
idle_connection reads = new_connection tt tt true reads []

create_stream-apply_settings_example :
    (c' : Http2Connection Unit Unit) × ((apply_settings (serialize_entries (window_setting 100))
          >> create_stream 1)
        (idle_connection [])
      ≡ done (ok tt) c')
    × (c'.remote_settings.initial_window ≡ 100)
    × (find 1 c'.streams
        ≡ some (new_stream 1 (to_int32 (idle_connection []).local_settings.initial_window)))
unfolding new_connection
create_stream-apply_settings_example =
    create_stream-apply_settings 100 1 (idle_connection []) (omega arith) refl refl

-- HEADERS of one byte without END_HEADERS, and the CONTINUATION that ends the block.
abbrev open_headers : FrameHeader
open_headers = record { length = 1; type = headers; flags = 1; stream_id = 1 }

abbrev fragmented : Http2Connection Unit Unit
fragmented = record (idle_connection []) {
  read_buffer =
      0 ∷ 0 ∷ 1 ∷ 1 ∷ 1 ∷ 0 ∷ 0 ∷ 0 ∷ 1 ∷ 130 ∷ 0 ∷ 0 ∷ 1 ∷ 9 ∷ 4 ∷ 0 ∷ 0 ∷ 0 ∷ 1 ∷ 132 ∷ [];
}

parse_fragmented : parse fragmented.read_buffer ≡ ok open_headers
unfolding parse frame_type_of
parse_fragmented = refl

run_step-fragmented_example :
    (c' : Http2Connection Unit Unit) × (run_step constant_hpack fragmented ≡ done (ok stop) c')
    × (c'.goaway_sent ≡ true)
    × (c'.calls ≡ [])
    × (c'.streams ≡ [])
unfolding new_connection unpad_headers
run_step-fragmented_example =
    run_step-fragmented constant_hpack open_headers (130 ∷ []) fragmented refl parse_fragmented
      (omega arith) (omega arith) refl refl (λ e. cc) refl

-- The preface, SETTINGS and a request without a body.
abbrev greeting : List Read
greeting =
    chunk client_preface
    ∷ chunk (0 ∷ 0 ∷ 0 ∷ 4 ∷ 0 ∷ 0 ∷ 0 ∷ 0 ∷ 0 ∷ [])
    ∷ chunk (0 ∷ 0 ∷ 1 ∷ 1 ∷ 5 ∷ 0 ∷ 0 ∷ 0 ∷ 1 ∷ 130 ∷ [])
    ∷ []

abbrev state_of : {A : Type 0} → Run (Http2Connection Unit Unit) A → Http2Connection Unit Unit
state_of (done r c) = c
state_of (stuck fault) = idle_connection []

abbrev greeted : Http2Connection Unit Unit
greeted = state_of (exchange_prefaces (idle_connection greeting))

abbrev requested : Http2Connection Unit Unit
requested = state_of (run_step constant_hpack (state_of (run_step constant_hpack greeted)))

abbrev ok_response : Response
ok_response = record empty_response { body = codes "hello" }

-- A response of which five bytes are left, on a stream with a window.
abbrev five_left : WindowWaiter
five_left = record {
  needed = pos 1;
  rest = 1 ∷ 2 ∷ 3 ∷ 4 ∷ 5 ∷ [];
  chunk_size = 5;
  end_stream = true;
}

abbrev waiting : ℤ → Stream
waiting window = record (new_stream 1 window) { window_waiters = five_left ∷ [] }

abbrev with_waiting : ℤ → Http2Connection Unit Unit
with_waiting window = record (idle_connection []) {
  streams = (1, waiting window) ∷ [];
  active_streams = 1;
  last_stream_id = 1;
}

abbrev resumed : ℤ → Http2Connection Unit Unit
resumed window = state_of (resume_sending 1 five_left (with_waiting window))

abbrev stream_of : Option Stream → Stream
stream_of none = waiting (pos 0)
stream_of (some s) = s
