-- ===== src/Http2/Connection/Overflow.antt =====
-- WINDOW_UPDATE for a stream, in src/http2/connection.cpp and src/http2/stream.cpp: no check that the
-- window stays below 2^31.
use web_frame.Prelude.{
  ℕ, ◌+◌, ◌-◌, ◌^◌, ◌<◌, ◌≤◌, ◌≡◌, ◌≢◌, ◌∙◌, ap, refl, false, some, [], arith, if◌then◌else◌, ne→==,
  lt→ltb,
}
use web_frame.Prelude.Int.{pos, negsuc, to_int32, add32, wrap32, ◌+ℤ◌, ltb_ℤ}
use web_frame.Prelude.Dict.{nat_eq, find, modify, find-modify_self}
use web_frame.Prelude.Expected.{ok}
use web_frame.Http2.Stream.{Stream}
use web_frame.Http2.Connection.State.{Http2Connection, done, bind-ok}
use web_frame.Http2.Connection.Socket.{get_stream, deref, on_stream}
use web_frame.Http2.Connection.Sending.{notify_each, notify_window_update, update_remote_window}
use web_frame.Http2.Connection.Control.{open_stream_window, update_window}
use web_frame.Http2.Connection.Windows.{deref-some, on_stream-some}

to_int32-pos : (n : ℕ) → n < 2 ^ 31 → to_int32 n ≡ pos n
to_int32-pos n h = ground arith

add32-overflow :
    (a n : ℕ)
    → a < 2 ^ 31
    → n < 2 ^ 31
    → 2 ^ 31 ≤ a + n
    → add32 (pos a) (to_int32 n) ≡ negsuc (2 ^ 32 - 1 - (a + n))
unfolding add32 wrap32 ◌+ℤ◌
add32-overflow a n h k l = ground (arith, to_int32-pos n k)

abbrev set_window : ℕ → Stream → Stream
set_window n s = record s { remote_window_size = add32 s.remote_window_size (to_int32 n) }

abbrev no_waiters : Stream → Stream
no_waiters s = record s { window_waiters = [] }

module _ {E D : Type 0} where
  get_stream-some :
      (id : ℕ) (s : Stream) (c : Http2Connection E D)
      → c.streams_locked ≡ false
      → find id c.streams ≡ some s
      → get_stream id c ≡ done (ok (some s)) c
  unfolding get_stream
  get_stream-some id s c free e = ground arith

  -- On a connection whose mutex is free, an increment for a stream without waiters that takes its
  -- window to 2^31 or above is accepted: nothing is sent, the handler succeeds, and the window wraps
  -- around to a negative number.
  pub update_window-overflow :
      (id n a : ℕ) (s : Stream) (c : Http2Connection E D)
      → id ≢ 0
      → n ≢ 0
      → n < 2 ^ 31
      → a < 2 ^ 31
      → 2 ^ 31 ≤ a + n
      → c.streams_locked ≡ false
      → find id c.streams ≡ some s
      → s.remote_window_size ≡ pos a
      → s.window_waiters ≡ []
      → (c' : Http2Connection E D) × (s' : Stream) × (update_window id n c ≡ done (ok tt) c')
        × (c'.outgoing ≡ c.outgoing)
        × (find id c'.streams ≡ some s')
        × (s'.remote_window_size ≡ negsuc (2 ^ 32 - 1 - (a + n)))
  unfolding update_window open_stream_window update_remote_window notify_window_update notify_each
  update_window-overflow id n a s c i z k l o free e w none_waits =
      let c₁ : Http2Connection E D = record c { streams = modify id (set_window n) c.streams } in
      let e₁ = find-modify_self id (set_window n) c.streams s e in
      (
        record c₁ { streams = modify id no_waiters c₁.streams },
        no_waiters (set_window n s),
        rw (ne→== n 0 z, ne→== id 0 i)
            (bind-ok (get_stream id) (open_stream_window id n) (get_stream-some id s c free e)
              ∙ bind-ok (on_stream id (set_window n)) _ (on_stream-some id (set_window n) s c e)
              ∙ ap
                  (λ delta.
                    (if ltb_ℤ (pos 0) delta then notify_window_update id else λ c'. done (ok tt) c')
                      c₁)
                  (to_int32-pos n k)
              ∙ ap (λ b. (if b then notify_window_update id else λ c'. done (ok tt) c') c₁)
                  (lt→ltb (0 + 0) (n + 0) (omega arith))
              ∙ bind-ok (deref id) _ (deref-some id (set_window n s) c₁ e₁)
              ∙ ap (λ ws. notify_each id ws [] c₁) none_waits
              ∙ on_stream-some id no_waiters (set_window n s) c₁ e₁),
        refl,
        find-modify_self id no_waiters c₁.streams (set_window n s) e₁,
        ap (λ v. add32 v (to_int32 n)) w ∙ add32-overflow a n l k o,
      )
