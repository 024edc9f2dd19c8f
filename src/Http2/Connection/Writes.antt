-- ===== src/Http2/Connection/Writes.antt =====
-- What writing to the socket leaves alone: everything but the schedule of writes and the frames
-- written, and for GOAWAY its flag.
use web_frame.Prelude.{
  ℕ, ◌≡◌, refl, inl, inr, true, Option, none, some, List, [], ◌∷◌, arith, String, Bool-cases,
}
use web_frame.Prelude.Bytes.{codes}
use web_frame.Prelude.Text.{Text}
use web_frame.Prelude.Expected.{Expected, ok, unexpected, Error}
use web_frame.Http2.Frame.{serialize_goaway_frame}
use web_frame.Http2.Frame.Codes.{ErrorCode}
use web_frame.Http2.Connection.State.{Http2Connection, done, throw, bind-ok, attempt-done, attempt}
use web_frame.Http2.Connection.Socket.{send_frame, send_goaway}
use web_frame.Http2.Connection.Handlers.{go_away}

module _ {E D : Type 0} where
  pub record Written (c c' : Http2Connection E D) : Type 0 where
    pub encoder : c'.encoder ≡ c.encoder
    pub decoder : c'.decoder ≡ c.decoder
    pub local_settings : c'.local_settings ≡ c.local_settings
    pub remote_settings : c'.remote_settings ≡ c.remote_settings
    pub local_window : c'.local_window_size ≡ c.local_window_size
    pub remote_window : c'.remote_window_size ≡ c.remote_window_size
    pub streams : c'.streams ≡ c.streams
    pub last_stream : c'.last_stream_id ≡ c.last_stream_id
    pub active : c'.active_streams ≡ c.active_streams
    pub open_flag : c'.is_open ≡ c.is_open
    pub handler : c'.has_handler ≡ c.has_handler
    pub locked : c'.streams_locked ≡ c.streams_locked
    pub calls : c'.calls ≡ c.calls
    pub buffer : c'.read_buffer ≡ c.read_buffer
    pub reads : c'.incoming ≡ c.incoming

  send_frame_cases :
      (frame : List ℕ) (c : Http2Connection E D) (ws : List (Option Error))
      → c.writes ≡ ws
      → (r : Expected (Unit {0})) × (c' : Http2Connection E D) × (send_frame frame c ≡ done r c')
        × Written c c'
        × (c'.goaway_sent ≡ c.goaway_sent)
  unfolding send_frame
  send_frame_cases frame c [] e =
      (ok tt, record c { outgoing = frame ∷ c.outgoing }, ground arith, ground arith, refl)
  send_frame_cases frame c (none ∷ ws) e = (
    ok tt,
    record c { writes = ws; outgoing = frame ∷ c.outgoing },
    ground arith,
    ground arith,
    refl,
  )
  send_frame_cases frame c (some x ∷ ws) e =
      (unexpected x, record c { writes = ws }, ground arith, ground arith, refl)

  -- A write ends, with some result, and leaves the rest of the connection alone.
  pub send_frame_ends :
      (frame : List ℕ) (c : Http2Connection E D)
      → (r : Expected (Unit {0})) × (c' : Http2Connection E D) × (send_frame frame c ≡ done r c')
        × Written c c'
        × (c'.goaway_sent ≡ c.goaway_sent)
  send_frame_ends frame c = send_frame_cases frame c c.writes refl

  pub send_goaway_ends :
      (code : ErrorCode) (debug : Text) (c : Http2Connection E D)
      → (r : Expected (Unit {0})) × (c' : Http2Connection E D) × (send_goaway code debug c
          ≡ done r c')
        × Written c c'
        × (c'.goaway_sent ≡ true)
  unfolding send_goaway
  send_goaway_ends code debug c = elim (Bool-cases c.goaway_sent) [
    | inl sent ↦ (ok tt, c, ground arith, ground arith, sent)
    | inr fresh ↦
        let (r, c', e, w, g) =
          send_frame_ends (serialize_goaway_frame c.last_stream_id code debug)
            (record c { goaway_sent = true }) in
        (r, c', ground (arith, e), ground (arith, w), g)
  ]

  -- A connection error: the error is returned and GOAWAY is marked as sent.
  pub go_away_ends :
      {A : Type 0} (code : ErrorCode) (message : String) (error : Error) (c : Http2Connection E D)
      → (c' : Http2Connection E D) × (go_away {A = A} code message error c
          ≡ done (unexpected error) c')
        × Written c c'
        × (c'.goaway_sent ≡ true)
  unfolding go_away
  go_away_ends {A} code message error c =
      let (r, c', e, w, g) = send_goaway_ends code (codes message) c in
      (
        c',
        bind-ok (attempt (send_goaway code (codes message))) (λ _. throw {A = A} error)
            (attempt-done (send_goaway code (codes message)) e),
        w,
        g,
      )
