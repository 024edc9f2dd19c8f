-- ===== src/Http2/Connection/Fragments.antt =====
-- Header blocks in several frames. `process_frame` is called while its frame still stands at the
-- front of the buffer, and the loop over CONTINUATION frames parses the front of the buffer.
use web_frame.Prelude.{
  ℕ, ◌+◌, ◌≤◌, ◌≡◌, refl, ap, ◌≢◌, ◌∙◌, Bool, true, false, some, List, [], ◌∷◌, arith, length, take,
  drop, String, ne→==, le→ltb,
}
use web_frame.Prelude.Expected.{ok, unexpected, Error, io, invalid_argument}
use web_frame.Http2.Frame.{FrameHeader, parse, has_end_headers}
use web_frame.Http2.Frame.Codes.{headers, protocol_error}
use web_frame.Http2.Hpack.{Hpack}
use web_frame.Http2.Connection.State.{
  Http2Connection, Read, chunk, broken, done, bind-ok, bind-unexpected, attempt-done, attempt,
  with_state,
}
use web_frame.Http2.Connection.Socket.{fill, fill_from}
use web_frame.Http2.Connection.Handlers.{go_away}
use web_frame.Http2.Connection.Headers.{
  unpad_headers, need, next_fragment, check_next, is_continuation, check_continuation,
  continue_headers, with_block, process_headers_frame,
}
use web_frame.Http2.Connection.Writes.{Written, go_away_ends}
use web_frame.Http2.Connection.Loop.{
  dispatch, process_frame, process_buffered, run_step, stop, round, with_nine, with_header,
  with_size, with_payload, remove_processed,
}

module _ {E D : Type 0} where
  fill_from_enough :
      (reads : List Read) (n : ℕ) (c : Http2Connection E D)
      → c.incoming ≡ reads
      → n ≤ length c.read_buffer
      → fill_from reads n c ≡ done (ok true) c
  unfolding fill_from
  fill_from_enough [] n c e h = ground arith
  fill_from_enough (chunk [] ∷ reads) n c e h = ground arith
  fill_from_enough (chunk (b ∷ bs) ∷ reads) n c e h = ground arith
  fill_from_enough (broken x ∷ reads) n c e h = ground arith

  -- Nothing is read while the buffer holds enough.
  pub fill_enough :
      (n : ℕ) (c : Http2Connection E D) → n ≤ length c.read_buffer → fill n c ≡ done (ok true) c
  unfolding fill
  fill_enough n c h = fill_from_enough c.incoming n c refl h

  need_enough :
      (n : ℕ) (message : String) (c : Http2Connection E D)
      → n ≤ length c.read_buffer
      → need n message c ≡ done (ok tt) c
  unfolding need
  need_enough n message c h =
      bind-ok (attempt (fill n)) _ (attempt-done (fill n) (fill_enough n c h))

  -- The first frame that the loop sees is the HEADERS frame itself.
  next_fragment_stops :
      (header : FrameHeader) (block : List ℕ) (c : Http2Connection E D)
      → header.type ≡ headers
      → parse c.read_buffer ≡ ok header
      → 9 ≤ length c.read_buffer
      → next_fragment header block c
        ≡ go_away protocol_error "Expected CONTINUATION frame"
            (io invalid_argument "Expected CONTINUATION")
            c
  unfolding next_fragment check_continuation
  next_fragment_stops header block c t p h =
      bind-ok (need 9 "Connection closed pending CONTINUATION")
        (λ _. with_state λ c'. check_continuation header block (parse c'.read_buffer))
        (need_enough 9 "Connection closed pending CONTINUATION" c h)
      ∙ ap (λ r. check_continuation header block r c) p
      ∙ ap (λ type. check_next header block header (is_continuation type) c) t

module _ {E D : Type 0} (hpack : Hpack E D) where
  -- What the handler of HEADERS makes of a header block without END_HEADERS.
  process_headers_stops :
      (header : FrameHeader) (payload block : List ℕ) (c : Http2Connection E D)
      → header.type ≡ headers
      → has_end_headers header ≡ false
      → header.stream_id ≢ 0
      → unpad_headers header payload ≡ some block
      → parse c.read_buffer ≡ ok header
      → 9 ≤ length c.read_buffer
      → (c' : Http2Connection E D) × (process_headers_frame hpack header payload c
          ≡ done (unexpected (io invalid_argument "Expected CONTINUATION")) c')
        × Written c c'
        × (c'.goaway_sent ≡ true)
  unfolding process_headers_frame with_block continue_headers
  process_headers_stops header payload block c t e n u p h =
      let (c', failed, written, sent) =
        go_away_ends {A = List ℕ × Bool} protocol_error "Expected CONTINUATION frame"
          (io invalid_argument "Expected CONTINUATION") c in
      (
        c',
        rw (ne→== _ _ n) (
            ap (λ b. with_block hpack header b c) u
            ∙ rw (e, with_state)
                (bind-unexpected (next_fragment header block) _
                  (next_fragment_stops header block c t p h ∙ failed))),
        written,
        sent,
      )

  -- A round of the main loop whose frame is already in the buffer.
  pub run_step-buffered :
      (header : FrameHeader) (c : Http2Connection E D)
      → c.is_open ≡ true
      → parse c.read_buffer ≡ ok header
      → 9 + header.length ≤ length c.read_buffer
      → header.length ≤ c.local_settings.frame_size
      → run_step hpack c ≡ process_buffered hpack header c
  unfolding run_step
  run_step-buffered header c o p h s =
      ap (λ b. round hpack b c) o
      ∙ bind-ok (attempt (fill 9)) (with_nine hpack)
          (attempt-done (fill 9) (fill_enough 9 c (omega arith)))
      ∙ ap (λ r. with_header hpack r c) p
      ∙ ap (λ b. with_size hpack header b c) (le→ltb c.local_settings.frame_size header.length s)
      ∙ bind-ok (attempt (fill (9 + header.length))) (with_payload hpack header)
          (attempt-done (fill (9 + header.length)) (fill_enough (9 + header.length) c h))

  process_buffered-unexpected :
      (header : FrameHeader) (c c' : Http2Connection E D) (x : Error)
      → process_frame hpack header (take header.length (drop 9 c.read_buffer)) c
        ≡ done (unexpected x) c'
      → process_buffered hpack header c ≡ done (ok stop) c'
  unfolding process_buffered
  process_buffered-unexpected header c c' x e =
      bind-ok (attempt (process_frame hpack header (take header.length (drop 9 c.read_buffer))))
        (remove_processed hpack header)
        (attempt-done (process_frame hpack header (take header.length (drop 9 c.read_buffer))) e)

  -- On an open connection, a whole HEADERS frame at the front of the buffer, of a permitted size, for
  -- a stream other than 0, with padding that fits and without END_HEADERS, ends the connection,
  -- whatever follows it, the CONTINUATION frame that completes its header block too: the loop stops,
  -- GOAWAY is marked as sent, and neither the requests that run nor the streams change.
  pub run_step-fragmented :
      (header : FrameHeader) (block : List ℕ) (c : Http2Connection E D)
      → c.is_open ≡ true
      → parse c.read_buffer ≡ ok header
      → 9 + header.length ≤ length c.read_buffer
      → header.length ≤ c.local_settings.frame_size
      → header.type ≡ headers
      → has_end_headers header ≡ false
      → header.stream_id ≢ 0
      → unpad_headers header (take header.length (drop 9 c.read_buffer)) ≡ some block
      → (c' : Http2Connection E D) × (run_step hpack c ≡ done (ok stop) c')
        × (c'.goaway_sent ≡ true)
        × (c'.calls ≡ c.calls)
        × (c'.streams ≡ c.streams)
  unfolding process_frame
  run_step-fragmented header block c o p h s t e n u =
      let payload = take header.length (drop 9 c.read_buffer) in
      let (c', failed, written, sent) =
        process_headers_stops header payload block c t e n u p (omega arith) in
      (
        c',
        run_step-buffered header c o p h s
            ∙ process_buffered-unexpected header c c' _
                (ap (λ type. dispatch hpack type header payload c) t ∙ failed),
        sent,
        written.calls,
        written.streams,
      )
