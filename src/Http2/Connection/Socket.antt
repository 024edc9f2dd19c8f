-- ===== src/Http2/Connection/Socket.antt =====
-- The socket and the stream map of a connection: writing frames, GOAWAY, reading into the buffer,
-- and the operations on the map, each of which takes the mutex.
use web_frame.Prelude.{
  ℕ, ◌+◌, ◌-◌, ◌%◌, ◌^◌, Bool, true, false, Option, none, some, List, [], ◌∷◌, ◌++◌, leb, length,
  if◌then◌else◌,
}
use web_frame.Prelude.Int.{to_int32}
use web_frame.Prelude.Text.{Text}
use web_frame.Prelude.Dict.{nat_eq, find, modify, erase, insert}
use web_frame.Prelude.Expected.{ok, unexpected}
use web_frame.Http2.Frame.{serialize_goaway_frame}
use web_frame.Http2.Frame.Codes.{ErrorCode}
use web_frame.Http2.Stream.{Stream, new_stream}
use web_frame.Http2.Connection.State.{
  Http2Connection, Read, chunk, broken, done, stuck, deadlock, dangling, M,
}

module _ {E D : Type 0} where
  unfoldable pub send_frame : List ℕ → M (Http2Connection E D) (Unit {0})
  send_frame frame c = elim c.writes [
    | [] ↦ done (ok tt) (record c { outgoing = frame ∷ c.outgoing })
    | w ∷ ws ↦ elim w [
      | none ↦ done (ok tt) (record c { writes = ws; outgoing = frame ∷ c.outgoing })
      | some e ↦ done (unexpected e) (record c { writes = ws })
    ]
  ]

  unfoldable pub send_goaway : ErrorCode → Text → M (Http2Connection E D) (Unit {0})
  send_goaway error debug c =
      if c.goaway_sent
      then done (ok tt) c
      else send_frame (serialize_goaway_frame c.last_stream_id error debug)
          (record c { goaway_sent = true })

  -- `while (read_buffer_.size() < n) read_more()`, over the reads that are left: `false` means that
  -- the connection was closed.
  unfoldable pub fill_from : List Read → ℕ → M (Http2Connection E D) Bool
  fill_from [] n c =
      if leb n (length c.read_buffer)
      then done (ok true) (record c { incoming = [] })
      else done (ok false) (record c { incoming = [] })
  fill_from (chunk [] ∷ reads) n c =
      if leb n (length c.read_buffer)
      then done (ok true) (record c { incoming = chunk [] ∷ reads })
      else done (ok false) (record c { incoming = reads })
  fill_from (chunk (b ∷ bs) ∷ reads) n c =
      if leb n (length c.read_buffer)
      then done (ok true) (record c { incoming = chunk (b ∷ bs) ∷ reads })
      else fill_from reads n (record c { read_buffer = c.read_buffer ++ b ∷ bs })
  fill_from (broken e ∷ reads) n c =
      if leb n (length c.read_buffer)
      then done (ok true) (record c { incoming = broken e ∷ reads })
      else done (unexpected e) (record c { incoming = reads })

  unfoldable pub fill : ℕ → M (Http2Connection E D) Bool
  unfolding fill_from
  fill n c = fill_from c.incoming n c

  -- `std::lock_guard lock(streams_mutex_)` around one step.
  unfoldable pub get_stream : ℕ → M (Http2Connection E D) (Option Stream)
  get_stream stream_id c =
      if c.streams_locked then stuck deadlock else done (ok (find stream_id c.streams)) c

  -- Both windows of the new stream start at the local setting.
  unfoldable pub create_stream : ℕ → M (Http2Connection E D) (Unit {0})
  unfolding new_stream
  create_stream stream_id c =
      if c.streams_locked
      then stuck deadlock
      else done (ok tt) (record c {
        streams =
            insert stream_id (new_stream stream_id (to_int32 c.local_settings.initial_window))
              c.streams;
        active_streams = (c.active_streams + 1) % 2 ^ 64;
      })

  unfoldable pub remove_stream : ℕ → M (Http2Connection E D) (Unit {0})
  remove_stream stream_id c =
      if c.streams_locked then stuck deadlock else elim (find stream_id c.streams) [
        | none ↦ done (ok tt) c
        | some s ↦ done (ok tt) (record c {
          streams = erase stream_id c.streams;
          active_streams = (c.active_streams + (2 ^ 64 - 1)) % 2 ^ 64;
        })
      ]

  -- Reading through a `Stream*`: the stream must still be there.
  unfoldable pub deref : ℕ → M (Http2Connection E D) Stream
  deref stream_id c = elim (find stream_id c.streams) [
    | none ↦ stuck dangling
    | some s ↦ done (ok s) c
  ]

  -- Writing through a `Stream*`.
  unfoldable pub on_stream : ℕ → (Stream → Stream) → M (Http2Connection E D) (Unit {0})
  on_stream stream_id f c = elim (find stream_id c.streams) [
    | none ↦ stuck dangling
    | some s ↦ done (ok tt) (record c { streams = modify stream_id f c.streams })
  ]
