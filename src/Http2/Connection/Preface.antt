-- ===== src/Http2/Connection/Preface.antt =====
-- The ends of a connection: its constructor, the two prefaces and `shutdown`.
use web_frame.Prelude.{
  ℕ, Bool, true, false, Option, List, [], ◌∷◌, ◌++◌, ltb, if◌then◌else◌, length, take, drop,
  eq_list,
}
use web_frame.Prelude.Int.{pos}
use web_frame.Prelude.Bytes.{codes}
use web_frame.Prelude.Text.{Text}
use web_frame.Prelude.Dict.{nat_eq}
use web_frame.Prelude.Expected.{Error, io, invalid_argument, connection_reset}
use web_frame.Http2.Frame.{serialize_settings_frame}
use web_frame.Http2.Frame.Codes.{
  ErrorCode, protocol_error, no_error, enable_push, max_concurrent_streams, initial_window_size,
  max_frame_size, max_header_list_size,
}
use web_frame.Http2.Connection.State.{
  Http2Connection, Read, default_settings, M, pure, throw, ◌>>=◌, ◌>>◌, attempt, modify_state,
  with_state,
}
use web_frame.Http2.Connection.Socket.{send_frame, send_goaway, fill}
use web_frame.Http2.Connection.Handlers.{go_away}

-- The constructor, over what the socket will answer.
unfoldable pub new_connection :
    {E D : Type 0} → E → D → Bool → List Read → List (Option Error) → Http2Connection E D
new_connection encoder decoder has_handler incoming writes = record {
  encoder = encoder;
  decoder = decoder;
  local_settings = default_settings;
  remote_settings = default_settings;
  local_window_size = pos 65535;
  remote_window_size = pos 65535;
  streams = [];
  last_stream_id = 0;
  active_streams = 0;
  is_open = true;
  preface_received = false;
  settings_ack_received = false;
  goaway_sent = false;
  goaway_error = no_error;
  read_buffer = [];
  has_handler = has_handler;
  streams_locked = false;
  calls = [];
  incoming = incoming;
  writes = writes;
  outgoing = [];
}

-- `PRI * HTTP/2.0\r\n\r\nSM\r\n\r\n`.
abbrev pub client_preface : List ℕ
client_preface = codes "PRI * HTTP/2.0" ++ 13 ∷ 10 ∷ 13 ∷ 10 ∷ b'S' ∷ b'M' ∷ 13 ∷ 10 ∷ 13 ∷ 10 ∷ []

unfoldable pub is_http2_preface : List ℕ → Bool
is_http2_preface bytes =
    if ltb (length bytes) (length client_preface)
    then false
    else eq_list (take (length client_preface) bytes) client_preface

module _ {E D : Type 0} where
  unfoldable pub send_preface : M (Http2Connection E D) (Unit {0})
  send_preface c =
      send_frame
        (serialize_settings_frame
          (record { id = max_concurrent_streams; value = c.local_settings.concurrent_streams }
            ∷ record { id = initial_window_size; value = c.local_settings.initial_window }
            ∷ record { id = max_frame_size; value = c.local_settings.frame_size }
            ∷ record { id = max_header_list_size; value = c.local_settings.header_list_size }
            ∷ record { id = enable_push; value = 0 }
            ∷ [])
          false)
        c

  unfoldable pub check_preface : (enough : Bool) → M (Http2Connection E D) (Unit {0})
  check_preface false = throw (io connection_reset "Connection closed during preface")
  check_preface true = with_state λ c.
      if eq_list (take (length client_preface) c.read_buffer) client_preface
      then modify_state (λ c'. record c' {
        read_buffer = drop (length client_preface) c'.read_buffer;
        preface_received = true;
      })
      else go_away protocol_error "Invalid connection preface"
          (io invalid_argument "Invalid HTTP/2 preface")

  unfoldable pub receive_preface : M (Http2Connection E D) (Unit {0})
  unfolding check_preface
  receive_preface = do enough ← fill (length client_preface); check_preface enough

  -- What `run` does before its loop.
  unfoldable pub exchange_prefaces : M (Http2Connection E D) (Unit {0})
  unfolding send_preface receive_preface
  exchange_prefaces = do send_preface; receive_preface

  unfoldable pub shutdown : ErrorCode → Text → M (Http2Connection E D) (Unit {0})
  shutdown error debug = with_state λ c. if c.goaway_sent then pure tt else (do
    _ ← attempt (send_goaway error debug)
    modify_state λ c'. record c' { is_open = false })
