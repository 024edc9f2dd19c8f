-- ===== src/Http2/Connection/Delivery.antt =====
-- From the bytes of a frame to its effect: a round of the main loop of src/http2/connection.cpp on
-- frames that the serializers of src/http2/frame.cpp wrote.
use web_frame.Prelude.{
  ℕ, suc, ◌+◌, ◌%◌, ◌^◌, ◌≤◌, ◌<◌, ◌≡◌, refl, ap, ◌∙◌, true, false, List, ◌++◌, arith, length, take,
  drop, take-append, drop-append, length-append, le→ltb,
}
use web_frame.Prelude.{◌≢◌, ◌-◌, ne→==, some, none}
use web_frame.Prelude.Dict.{
  nat_eq, find, erase, IsMap, find-erase_self, find-erase_ne, length-erase_found,
}
use web_frame.Http2.Stream.{Stream}
use web_frame.Prelude.Expected.{ok}
use web_frame.Http2.Frame.{
  FrameHeader, serialize, parse, serialize_goaway_frame, serialize_rst_stream_frame, u31_bytes,
  u32_bytes,
}
use web_frame.Http2.Frame.Codes.{ErrorCode, error_code, error_code_of, ping, goaway, rst_stream}
use web_frame.Http2.Frame.RoundTrip.{IsValid, parse-serialize}
use web_frame.Http2.Hpack.{Hpack}
use web_frame.Http2.Connection.State.{Http2Connection, done, bind-ok, attempt-done, attempt}
use web_frame.Http2.Connection.Socket.{remove_stream}
use web_frame.Http2.Connection.Control.{
  process_rst_stream_frame, process_goaway_frame, receive_goaway,
}
use web_frame.Http2.Connection.Loop.{
  dispatch, process_frame, process_buffered, remove_processed, run_step, go_on,
}
use web_frame.Http2.Connection.Fragments.{run_step-buffered}
use web_frame.Http2.Connection.Settings.{be32-quotient}

length-serialize : (h : FrameHeader) → length (serialize h) ≡ 9
unfolding serialize
length-serialize h = refl

drop_nine : (n : ℕ) (h : FrameHeader) (xs : List ℕ) → drop (9 + n) (serialize h ++ xs) ≡ drop n xs
unfolding serialize
drop_nine n h xs = ap (λ k. drop k (serialize h ++ xs)) (nine n)
  where
    nine : (n : ℕ) → 9 + n ≡ suc (suc (suc (suc (suc (suc (suc (suc (suc n))))))))
    nine n = omega arith

drop-serialize : (h : FrameHeader) (xs : List ℕ) → drop 9 (serialize h ++ xs) ≡ xs
unfolding serialize
drop-serialize h xs = refl

append-serialize :
    (h : FrameHeader) (xs ys : List ℕ) → (serialize h ++ xs) ++ ys ≡ serialize h ++ (xs ++ ys)
unfolding serialize
append-serialize h xs ys = refl

abbrev goaway_header : List ℕ → FrameHeader
goaway_header debug = record {
  length = (8 + length debug) % 2 ^ 32;
  type = goaway;
  flags = 0;
  stream_id = 0;
}

abbrev rst_stream_header : ℕ → FrameHeader
rst_stream_header id = record { length = 4; type = rst_stream; flags = 0; stream_id = id }

abbrev ping_header : FrameHeader
ping_header = record { length = 8; type = ping; flags = 0; stream_id = 0 }

-- The buffer holds a whole frame, and more.
abbrev pub holds_frame : FrameHeader → List ℕ → List ℕ → List ℕ
holds_frame header payload rest = serialize header ++ (payload ++ rest)

payload_of_buffer :
    (header : FrameHeader) (payload rest : List ℕ)
    → header.length ≡ length payload
    → take header.length (drop 9 (holds_frame header payload rest)) ≡ payload
payload_of_buffer header payload rest e =
    ap (take header.length) (drop-serialize header (payload ++ rest))
    ∙ ap (λ n. take n (payload ++ rest)) e
    ∙ take-append payload rest

rest_of_buffer :
    (header : FrameHeader) (payload rest : List ℕ)
    → header.length ≡ length payload
    → drop (9 + header.length) (holds_frame header payload rest) ≡ rest
rest_of_buffer header payload rest e =
    drop_nine header.length header (payload ++ rest)
    ∙ ap (λ n. drop n (payload ++ rest)) e
    ∙ drop-append payload rest

module _ {E D : Type 0} where
  receive_goaway-payload :
      (last_stream_id : ℕ) (error : ErrorCode) (debug : List ℕ) (c : Http2Connection E D)
      → error_code error < 2 ^ 32
      → error_code_of (error_code error) ≡ error
      → receive_goaway (u31_bytes last_stream_id ++ (u32_bytes (error_code error) ++ debug)) c
        ≡ done (ok tt) (record c { goaway_error = error; is_open = false })
  unfolding receive_goaway
  receive_goaway-payload last_stream_id error debug c e f =
      rw
        (le→ltb (length (u31_bytes last_stream_id ++ (u32_bytes (error_code error) ++ debug))) 8
          (omega arith))
        (ap (λ n. done (ok tt) (record c { goaway_error = error_code_of n; is_open = false }))
            (be32-quotient (error_code error) e)
          ∙ ap (λ code. done (ok tt) (record c { goaway_error = code; is_open = false })) f)

  -- The connection without a stream of its map.
  abbrev without : ℕ → Http2Connection E D → Http2Connection E D
  without id c = record c {
    streams = erase id c.streams;
    active_streams = (c.active_streams + (2 ^ 64 - 1)) % 2 ^ 64;
  }

  remove_stream-found :
      (id : ℕ) (s : Stream) (c : Http2Connection E D)
      → c.streams_locked ≡ false
      → find id c.streams ≡ some s
      → remove_stream id c ≡ done (ok tt) (without id c)
  unfolding remove_stream
  remove_stream-found id s c free found = simp (free, found)

module _ {E D : Type 0} (hpack : Hpack E D) where
  -- A round on a whole frame that is in the buffer, if its processing succeeds and leaves the buffer.
  run_step-frame :
      (header : FrameHeader) (payload rest : List ℕ) (c c' : Http2Connection E D)
      → IsValid header
      → header.length ≡ length payload
      → c.is_open ≡ true
      → c.read_buffer ≡ holds_frame header payload rest
      → header.length ≤ c.local_settings.frame_size
      → process_frame hpack header payload c ≡ done (ok tt) c'
      → c'.read_buffer ≡ c.read_buffer
      → run_step hpack c ≡ done (ok go_on) (record c' { read_buffer = rest })
  unfolding process_buffered remove_processed
  run_step-frame header payload rest c c' v l o b s p k =
      run_step-buffered hpack header c o (ap parse b ∙ parse-serialize header (payload ++ rest) v)
        (omega (
          arith,
          ap length b,
          length-append (serialize header) (payload ++ rest),
          length-serialize header,
          length-append payload rest,
        ))
        s
      ∙ bind-ok (attempt (process_frame hpack header (take header.length (drop 9 c.read_buffer))))
          (remove_processed hpack header)
          (attempt-done (process_frame hpack header (take header.length (drop 9 c.read_buffer))) (
            ap (λ bytes. process_frame hpack header (take header.length (drop 9 bytes)) c) b
            ∙ ap (λ bytes. process_frame hpack header bytes c)
                (payload_of_buffer header payload rest l)
            ∙ p))
      ∙ ap (λ bytes. done (ok go_on) (record c' { read_buffer = drop (9 + header.length) bytes }))
          (k ∙ b)
      ∙ ap (λ bytes. done (ok go_on) (record c' { read_buffer = bytes }))
          (rest_of_buffer header payload rest l)

  -- On an open connection, a GOAWAY that the peer's serializer wrote, at the front of the buffer and
  -- of a permitted size, stores the error that was sent, closes the connection and leaves the buffer;
  -- nothing else changes and nothing is sent.
  pub run_step-serialize_goaway_frame :
      (last_stream_id : ℕ) (error : ErrorCode) (debug rest : List ℕ) (c : Http2Connection E D)
      → error_code error < 2 ^ 32
      → error_code_of (error_code error) ≡ error
      → 8 + length debug < 2 ^ 24
      → c.is_open ≡ true
      → c.read_buffer ≡ serialize_goaway_frame last_stream_id error debug ++ rest
      → 8 + length debug ≤ c.local_settings.frame_size
      → run_step hpack c
        ≡ done (ok go_on) (record c { read_buffer = rest; goaway_error = error; is_open = false })
  unfolding serialize_goaway_frame process_frame process_goaway_frame dispatch
  run_step-serialize_goaway_frame last_stream_id error debug rest c e f m o b s =
      let h = goaway_header debug in
      let payload = u31_bytes last_stream_id ++ (u32_bytes (error_code error) ++ debug) in
      run_step-frame h payload rest c (record c { goaway_error = error; is_open = false })
        (record {
          length_24 = omega arith;
          known_type = tt;
          flags_8 = omega arith;
          stream_31 = omega arith;
        })
        (omega arith) o (b ∙ append-serialize h payload rest) (omega arith)
        (receive_goaway-payload last_stream_id error debug c e f) refl

  -- On an open connection with one entry for a stream and a free mutex, an RST_STREAM that the peer's
  -- serializer wrote for a stream of the map, at the front of the buffer, removes that stream and no
  -- other from the map, lowers the count of active streams by one and leaves the buffer; nothing is
  -- sent.
  pub run_step-serialize_rst_stream_frame :
      (id j : ℕ) (error : ErrorCode) (rest : List ℕ) (s : Stream) (c : Http2Connection E D)
      → j ≢ id
      → 0 < id
      → id < 2 ^ 31
      → c.is_open ≡ true
      → c.streams_locked ≡ false
      → IsMap c.streams
      → find id c.streams ≡ some s
      → c.active_streams ≡ length c.streams
      → length c.streams < 2 ^ 64
      → c.read_buffer ≡ serialize_rst_stream_frame id error ++ rest
      → 4 ≤ c.local_settings.frame_size
      → (c' : Http2Connection E D) × (run_step hpack c ≡ done (ok go_on) c')
        × (find id c'.streams ≡ none)
        × (find j c'.streams ≡ find j c.streams)
        × (c'.active_streams + 1 ≡ c.active_streams)
        × (c'.read_buffer ≡ rest)
        × (c'.outgoing ≡ c.outgoing)
  unfolding serialize_rst_stream_frame process_frame process_rst_stream_frame dispatch
  run_step-serialize_rst_stream_frame id j error rest s c other p q o free m found n k b z =
      let payload = u32_bytes (error_code error) in
      let c₁ : Http2Connection E D = without id c in
      (
        record c₁ { read_buffer = rest },
        run_step-frame (rst_stream_header id) payload rest c c₁
            (record {
              length_24 = omega arith;
              known_type = tt;
              flags_8 = omega arith;
              stream_31 = q;
            })
            refl o (b ∙ append-serialize (rst_stream_header id) payload rest) z
            (rw (ne→== id 0 (λ e. omega arith)) (remove_stream-found id s c free found)) refl,
        find-erase_self id c.streams m,
        find-erase_ne id j c.streams other,
        omega (arith, length-erase_found id c.streams s found),
        refl,
        refl,
      )
