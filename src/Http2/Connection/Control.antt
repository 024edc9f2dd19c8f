-- ===== src/Http2/Connection/Control.antt =====
-- The handlers of the frames that steer the connection: SETTINGS, PING, GOAWAY, WINDOW_UPDATE and
-- RST_STREAM.
use web_frame.Prelude.{
  ℕ, ◌+◌, ◌-◌, ◌%◌, ◌^◌, true, false, not, ◌||◌, Option, none, some, List, [], ◌∷◌, map, ltb, ◌==◌,
  if◌then◌else◌, length, get_or,
}
use web_frame.Prelude.Int.{pos, ltb_ℤ, to_int32, sub32, ◌+ℤ◌}
use web_frame.Prelude.Bytes.{be16, be32, codes}
use web_frame.Prelude.Expected.{ok, io, invalid_argument}
use web_frame.Http2.Frame.{FrameHeader, has_ack, serialize_settings_ack, serialize_ping_frame}
use web_frame.Http2.Frame.Codes.{
  protocol_error, flow_control_error, frame_size_error, SettingsId, enable_push,
  initial_window_size, max_frame_size, settings_id_of, error_code_of,
}
use web_frame.Http2.Hpack.{Hpack}
use web_frame.Http2.Stream.{Stream}
use web_frame.Http2.Connection.State.{
  Http2Connection, apply, done, stuck, deadlock, M, pure, throw, ◌>>=◌, ◌>>◌, attempt, modify_state,
  with_state,
}
use web_frame.Http2.Connection.Socket.{send_frame, send_goaway, get_stream, remove_stream}
use web_frame.Http2.Connection.Sending.{update_remote_window, notify_window_update}
use web_frame.Http2.Connection.Handlers.{go_away, send_rst_stream}

-- The 32-bit number at a place.
abbrev pub u32_at : List ℕ → ℕ → ℕ
u32_at payload i =
    be32 (get_or payload i 0) (get_or payload (i + 1) 0) (get_or payload (i + 2) 0)
      (get_or payload (i + 3) 0)

abbrev pub keys : List (ℕ × Stream) → List ℕ
keys = map λ entry. entry.0

module _ {E D : Type 0} where
  abbrev pub lock : M (Http2Connection E D) (Unit {0})
  lock c =
      if c.streams_locked then stuck deadlock else done (ok tt) (record c { streams_locked = true })

  abbrev pub unlock : M (Http2Connection E D) (Unit {0})
  unlock c = done (ok tt) (record c { streams_locked = false })

  -- A loop over the stream map.
  unfoldable pub for_each :
      List ℕ → (ℕ → M (Http2Connection E D) (Unit {0})) → M (Http2Connection E D) (Unit {0})
  for_each [] body = pure tt
  for_each (id ∷ ids) body = do body id; for_each ids body

  -- The switch that validates one setting, with what it does at once for a new initial window.
  unfoldable pub check_setting : SettingsId → ℕ → M (Http2Connection E D) (Unit {0})
  check_setting enable_push value =
      if ltb 1 value
      then go_away protocol_error "Invalid ENABLE_PUSH value"
          (io invalid_argument "Invalid ENABLE_PUSH")
      else pure tt
  check_setting initial_window_size value =
      if ltb (2 ^ 31 - 1) value
      then go_away flow_control_error "Window size too large"
          (io invalid_argument "Window too large")
      else (do
        lock
        with_state λ c. for_each (keys c.streams) λ id.
            update_remote_window id
              (sub32 (to_int32 value) (to_int32 c.remote_settings.initial_window))
        unlock)
  check_setting max_frame_size value =
      if ltb value 16384 || ltb 16777215 value
      then go_away protocol_error "Invalid MAX_FRAME_SIZE"
          (io invalid_argument "Invalid MAX_FRAME_SIZE")
      else pure tt
  check_setting _ value = pure tt

  abbrev pub set_remote : SettingsId → ℕ → Http2Connection E D → Http2Connection E D
  set_remote id value c = record c { remote_settings = apply id value c.remote_settings }

  -- The loop over the entries of six bytes.
  unfoldable pub apply_settings : List ℕ → M (Http2Connection E D) (Unit {0})
  apply_settings (p0 ∷ p1 ∷ p2 ∷ p3 ∷ p4 ∷ p5 ∷ rest) = do
    check_setting (settings_id_of (be16 p0 p1)) (be32 p2 p3 p4 p5)
    modify_state (set_remote (settings_id_of (be16 p0 p1)) (be32 p2 p3 p4 p5))
    apply_settings rest
  apply_settings _ = pure tt

  unfoldable pub process_ping_frame : FrameHeader → List ℕ → M (Http2Connection E D) (Unit {0})
  process_ping_frame header payload =
      if not (header.stream_id == 0)
      then go_away protocol_error "PING on non-zero stream"
          (io invalid_argument "PING on non-zero stream")
      else if not (length payload == 8)
      then go_away frame_size_error "Invalid PING size" (io invalid_argument "Invalid PING size")
      else if has_ack header
      then pure tt
      else send_frame (serialize_ping_frame payload true)

  unfoldable pub receive_goaway : List ℕ → M (Http2Connection E D) (Unit {0})
  receive_goaway payload =
      if ltb (length payload) 8
      then throw (io invalid_argument "Invalid GOAWAY size")
      else modify_state
          (λ c. record c { goaway_error = error_code_of (u32_at payload 4); is_open = false })

  unfoldable pub process_goaway_frame : FrameHeader → List ℕ → M (Http2Connection E D) (Unit {0})
  process_goaway_frame header payload =
      if not (header.stream_id == 0)
      then go_away protocol_error "GOAWAY on non-zero stream"
          (io invalid_argument "GOAWAY on non-zero stream")
      else receive_goaway payload

  abbrev pub notify_all : M (Http2Connection E D) (Unit {0})
  notify_all = do lock; with_state λ c. for_each (keys c.streams) notify_window_update; unlock

  -- The part of WINDOW_UPDATE that opens the window of the whole connection.
  unfoldable pub open_connection_window : ℕ → M (Http2Connection E D) (Unit {0})
  open_connection_window increment = with_state λ c.
      if ltb_ℤ (pos (2 ^ 31 - 1)) (c.remote_window_size +ℤ pos increment)
      then go_away flow_control_error "Window overflow" (io invalid_argument "Window overflow")
      else (do
        modify_state λ c'. record c' { remote_window_size = c.remote_window_size +ℤ pos increment }
        notify_all)

  -- The part that opens the window of a stream, if it still exists.
  unfoldable pub open_stream_window : ℕ → ℕ → Option Stream → M (Http2Connection E D) (Unit {0})
  open_stream_window stream_id increment none = pure tt
  open_stream_window stream_id increment (some s) =
      update_remote_window stream_id (to_int32 increment)

  -- An increment of zero is an error, but not one that ends the connection.
  unfoldable pub update_window : ℕ → (increment : ℕ) → M (Http2Connection E D) (Unit {0})
  update_window stream_id increment =
      if increment == 0
      then if stream_id == 0
        then (do
          _ ← attempt (send_goaway protocol_error (codes "Zero WINDOW_UPDATE increment"))
          pure tt)
        else send_rst_stream stream_id protocol_error
      else if stream_id == 0
      then open_connection_window increment
      else (do found ← get_stream stream_id; open_stream_window stream_id increment found)

  unfoldable pub process_window_update_frame :
      FrameHeader → List ℕ → M (Http2Connection E D) (Unit {0})
  process_window_update_frame header payload =
      if not (length payload == 4)
      then go_away frame_size_error "Invalid WINDOW_UPDATE size"
          (io invalid_argument "Invalid WINDOW_UPDATE size")
      else update_window header.stream_id (
          be32 (get_or payload 0 0 % 128) (get_or payload 1 0) (get_or payload 2 0)
            (get_or payload 3 0))

  unfoldable pub process_rst_stream_frame :
      FrameHeader → List ℕ → M (Http2Connection E D) (Unit {0})
  process_rst_stream_frame header payload =
      if header.stream_id == 0
      then go_away protocol_error "RST_STREAM on stream 0"
          (io invalid_argument "RST_STREAM on stream 0")
      else if not (length payload == 4)
      then go_away frame_size_error "Invalid RST_STREAM size"
          (io invalid_argument "Invalid RST_STREAM size")
      else remove_stream header.stream_id

module _ {E D : Type 0} (hpack : Hpack E D) where
  unfoldable pub process_settings_frame : FrameHeader → List ℕ → M (Http2Connection E D) (Unit {0})
  process_settings_frame header payload =
      if not (header.stream_id == 0)
      then go_away protocol_error "SETTINGS on non-zero stream"
          (io invalid_argument "SETTINGS on non-zero stream")
      else if has_ack header
      then if not (length payload == 0)
        then go_away frame_size_error "SETTINGS ACK with payload"
            (io invalid_argument "SETTINGS ACK with payload")
        else modify_state (λ c. record c { settings_ack_received = true })
      else if not (length payload % 6 == 0)
      then go_away frame_size_error "Invalid SETTINGS size"
          (io invalid_argument "Invalid SETTINGS size")
      else (do
        apply_settings payload
        modify_state λ c. record c {
          encoder = hpack.set_max_table_size c.encoder c.remote_settings.header_table;
        }
        send_frame serialize_settings_ack)
