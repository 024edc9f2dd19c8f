-- ===== src/Http2/Connection/Kept/Control.antt =====
-- The frames that steer the connection keep what the writes to the stream map keep.
use web_frame.Prelude.{
  ℕ, true, false, Option, none, some, List, [], ◌∷◌, length, ltb, Bool-cases, inl, inr, not,
}
use web_frame.Prelude.Expected.{io, invalid_argument}
use web_frame.Http2.Frame.{FrameHeader}
use web_frame.Http2.Hpack.{Hpack}
use web_frame.Http2.Stream.{Stream}
use web_frame.Http2.Connection.State.{Http2Connection, apply, M, pure, throw, modify_state}
use web_frame.Http2.Connection.Keeps.{
  Gives, Gives-any, Holds-bind, Holds-bind_Gives, Keeps, Keeps-bind, Keeps-then, Keeps-attempt,
  Keeps-if,
}
use web_frame.Http2.Connection.Kept.{
  Shape, Kept, P, send_frame-kept, send_goaway-kept, get_stream-kept, remove_stream-kept,
}
use web_frame.Http2.Connection.Kept.Data.{go_away-kept, go_away-Gives, send_rst_stream-kept}
use web_frame.Prelude.Bytes.{be16, be32}
use web_frame.Prelude.{arith, ◌≤◌, ◌||◌, ◌==◌, ◌%◌}
use web_frame.Http2.Frame.{has_ack}
use web_frame.Http2.Frame.Codes.{
  settings_id_of, error_code_of, SettingsId, header_table_size, enable_push, max_concurrent_streams,
  initial_window_size, max_frame_size, max_header_list_size, other_setting,
}
use web_frame.Http2.Connection.Kept.Sending.{notify_window_update-kept, update_remote_window-kept}
use web_frame.Http2.Connection.Control.{
  set_remote, keys, lock, unlock, for_each, check_setting, apply_settings, process_ping_frame,
  receive_goaway, process_goaway_frame, open_connection_window, open_stream_window, notify_all,
  u32_at, update_window, process_window_update_frame, process_rst_stream_frame,
  process_settings_frame,
}

-- A frame size that is accepted is in range.
abbrev IsAccepted : SettingsId → ℕ → Type 0
IsAccepted max_frame_size value = 16384 ≤ value
IsAccepted _ value = Unit

module _ {E D : Type 0} {Inv : Shape} (kept : Kept Inv) where
  abbrev C : Http2Connection E D → Type 0
  C = P kept

  lock-kept : Keeps C lock
  lock-kept c p = elim (Bool-cases c.streams_locked) [
    | inl locked ↦ rw locked tt
    | inr free ↦ rw free p
  ]

  for_each-kept :
      (ids : List ℕ) (body : ℕ → M (Http2Connection E D) (Unit {0}))
      → ((id : ℕ) → Keeps C (body id))
      → Keeps C (for_each ids body)
  unfolding for_each
  for_each-kept [] body k = λ c p. p
  for_each-kept (id ∷ ids) body k = Keeps-then _ _ (k id) (for_each-kept ids body k)

  check_setting-kept : (id : SettingsId) (value : ℕ) → Keeps C (check_setting id value)
  unfolding check_setting
  check_setting-kept enable_push value =
      Keeps-if (ltb 1 value) _ (pure tt) (go_away-kept kept _ _ _ _) λ c p. p
  check_setting-kept initial_window_size value = Keeps-if _ _ _ (go_away-kept kept _ _ _ _) (
      Keeps-then _ _ lock-kept (
        Keeps-then _ unlock
          (λ c. for_each-kept (keys c.streams) _ (λ id. update_remote_window-kept kept id _) c)
          λ c p. p))
  check_setting-kept max_frame_size value =
      Keeps-if (ltb value 16384 || ltb 16777215 value) _ (pure tt) (go_away-kept kept _ _ _ _)
        λ c p. p
  check_setting-kept header_table_size value = λ c p. p
  check_setting-kept max_concurrent_streams value = λ c p. p
  check_setting-kept max_header_list_size value = λ c p. p
  check_setting-kept (other_setting n) value = λ c p. p

  check_setting-Gives :
      (id : SettingsId) (value : ℕ) (c : Http2Connection E D)
      → Gives
          (λ (u : Unit {0}) (c' : Http2Connection E D). IsAccepted id value)
          (check_setting id value c)
  unfolding check_setting
  check_setting-Gives max_frame_size value c =
      elim (Bool-cases (ltb value 16384 || ltb 16777215 value)) [
        | inl out ↦ rw out (go_away-Gives kept _ _ _ _ _ c)
        | inr within ↦ rw within (ground arith)
      ]
  check_setting-Gives enable_push value c = Gives-any _
  check_setting-Gives initial_window_size value c = Gives-any _
  check_setting-Gives header_table_size value c = tt
  check_setting-Gives max_concurrent_streams value c = tt
  check_setting-Gives max_header_list_size value c = tt
  check_setting-Gives (other_setting n) value c = tt

  set_remote-kept :
      (id : SettingsId) (value : ℕ) (c : Http2Connection E D)
      → C c
      → IsAccepted id value
      → C (set_remote id value c)
  unfolding apply
  set_remote-kept max_frame_size value c p h = kept.size_kept value _ _ _ _ _ _ _ h p
  set_remote-kept enable_push value c p h = p
  set_remote-kept initial_window_size value c p h = p
  set_remote-kept header_table_size value c p h = p
  set_remote-kept max_concurrent_streams value c p h = p
  set_remote-kept max_header_list_size value c p h = p
  set_remote-kept (other_setting n) value c p h = p

  apply_settings-kept : (payload : List ℕ) → Keeps C (apply_settings payload)
  unfolding apply_settings
  apply_settings-kept (p0 ∷ p1 ∷ p2 ∷ p3 ∷ p4 ∷ p5 ∷ rest) = λ c p.
      let id = settings_id_of (be16 p0 p1) in
      let value = be32 p2 p3 p4 p5 in
      Holds-bind_Gives (λ u c'. IsAccepted id value) _ _ c (check_setting-kept id value c p)
        (check_setting-Gives id value c)
        (λ u c' p' accepted.
          Holds-bind _ _ c' (set_remote-kept id value c' p' accepted) λ _. apply_settings-kept rest)
  apply_settings-kept [] = λ c p. p
  apply_settings-kept (p0 ∷ []) = λ c p. p
  apply_settings-kept (p0 ∷ p1 ∷ []) = λ c p. p
  apply_settings-kept (p0 ∷ p1 ∷ p2 ∷ []) = λ c p. p
  apply_settings-kept (p0 ∷ p1 ∷ p2 ∷ p3 ∷ []) = λ c p. p
  apply_settings-kept (p0 ∷ p1 ∷ p2 ∷ p3 ∷ p4 ∷ []) = λ c p. p

  pub process_ping_frame-kept :
      (header : FrameHeader) (payload : List ℕ) → Keeps C (process_ping_frame header payload)
  unfolding process_ping_frame
  process_ping_frame-kept header payload =
      Keeps-if (not (header.stream_id == 0)) _ _ (go_away-kept kept _ _ _ _) (
        Keeps-if (not (length payload == 8)) _ _ (go_away-kept kept _ _ _ _)
          (Keeps-if (has_ack header) (pure tt) _ (λ c p. p) (send_frame-kept kept _)))

  pub process_rst_stream_frame-kept :
      (header : FrameHeader) (payload : List ℕ) → Keeps C (process_rst_stream_frame header payload)
  unfolding process_rst_stream_frame
  process_rst_stream_frame-kept header payload =
      Keeps-if (header.stream_id == 0) _ _ (go_away-kept kept _ _ _ _) (
        Keeps-if (not (length payload == 4)) _ _ (go_away-kept kept _ _ _ _)
          (remove_stream-kept kept header.stream_id))

  open_connection_window-kept : (increment : ℕ) → Keeps C (open_connection_window increment)
  unfolding open_connection_window
  open_connection_window-kept increment = λ c.
      Keeps-if _ _ _ (go_away-kept kept _ _ _ _)
        (Keeps-then _ notify_all (λ c' p. p)
          (Keeps-then _ _ lock-kept (
            Keeps-then _ unlock
              (λ c'. for_each-kept (keys c'.streams) _ (notify_window_update-kept kept) c')
              λ c' p. p)))
        c

  open_stream_window-kept :
      (id increment : ℕ) (found : Option Stream) → Keeps C (open_stream_window id increment found)
  unfolding open_stream_window
  open_stream_window-kept id increment none = λ c p. p
  open_stream_window-kept id increment (some s) = update_remote_window-kept kept id _

  update_window-kept : (id increment : ℕ) → Keeps C (update_window id increment)
  unfolding update_window
  update_window-kept id increment =
      Keeps-if (increment == 0) _ _
        (Keeps-if (id == 0) _ _
          (Keeps-bind _ _ (Keeps-attempt _ (send_goaway-kept kept _ _)) λ _ c p. p)
          (send_rst_stream-kept kept _ _))
        (Keeps-if (id == 0) _ _ (open_connection_window-kept increment)
          (Keeps-bind _ _ (get_stream-kept kept id) (open_stream_window-kept id increment)))

  pub process_window_update_frame-kept :
      (header : FrameHeader) (payload : List ℕ)
      → Keeps C (process_window_update_frame header payload)
  unfolding process_window_update_frame
  process_window_update_frame-kept header payload =
      Keeps-if _ _ _ (go_away-kept kept _ _ _ _) (update_window-kept header.stream_id _)

  receive_goaway-kept : (payload : List ℕ) → Keeps C (receive_goaway payload)
  unfolding receive_goaway
  receive_goaway-kept payload =
      Keeps-if (ltb (length payload) 8) (throw (io invalid_argument "Invalid GOAWAY size"))
        (modify_state
          λ c. record c { goaway_error = error_code_of (u32_at payload 4); is_open = false })
        (λ c p. p) (λ c p. p)

  pub process_goaway_frame-kept :
      (header : FrameHeader) (payload : List ℕ) → Keeps C (process_goaway_frame header payload)
  unfolding process_goaway_frame
  process_goaway_frame-kept header payload =
      Keeps-if _ _ _ (go_away-kept kept _ _ _ _) (receive_goaway-kept payload)

  pub process_settings_frame-kept :
      (hpack : Hpack E D) (header : FrameHeader) (payload : List ℕ)
      → Keeps C (process_settings_frame hpack header payload)
  unfolding process_settings_frame
  process_settings_frame-kept hpack header payload =
      Keeps-if (not (header.stream_id == 0)) _ _ (go_away-kept kept _ _ _ _) (
        Keeps-if (has_ack header) _ _
          (Keeps-if (not (length payload == 0)) _
            (modify_state λ c. record c { settings_ack_received = true })
            (go_away-kept kept _ _ _ _) λ c p. p)
          (Keeps-if (not (length payload % 6 == 0)) _ _ (go_away-kept kept _ _ _ _) (
            Keeps-then _ _ (apply_settings-kept payload)
              (Keeps-then _ _ (λ c p. p) (send_frame-kept kept _)))))
