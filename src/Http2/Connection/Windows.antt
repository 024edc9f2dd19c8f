-- ===== src/Http2/Connection/Windows.antt =====
-- `notify_window_update` of src/http2/stream.cpp: what becomes of a suspended `send_data` that it
-- resumes.
use web_frame.Prelude.{ℕ, ◌≡◌, refl, none, some}
use web_frame.Prelude.Dict.{nat_eq, find, modify}
use web_frame.Prelude.Expected.{ok}
use web_frame.Http2.Stream.{Stream}
use web_frame.Http2.Connection.State.{Http2Connection, done, stuck, dangling}
use web_frame.Http2.Connection.Socket.{deref, on_stream}

module _ {E D : Type 0} where
  pub deref-some :
      (id : ℕ) (s : Stream) (c : Http2Connection E D)
      → find id c.streams ≡ some s
      → deref id c ≡ done (ok s) c
  unfolding deref
  deref-some id s c e = rw (e, deref) refl

  pub deref-none :
      (id : ℕ) (c : Http2Connection E D) → find id c.streams ≡ none → deref id c ≡ stuck dangling
  unfolding deref
  deref-none id c e = rw (e, deref) refl

  pub on_stream-some :
      (id : ℕ) (f : Stream → Stream) (s : Stream) (c : Http2Connection E D)
      → find id c.streams ≡ some s
      → on_stream id f c ≡ done (ok tt) (record c { streams = modify id f c.streams })
  unfolding on_stream
  on_stream-some id f s c e = rw (e, on_stream) refl
