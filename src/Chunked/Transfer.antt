-- ===== src/Chunked/Transfer.antt =====
-- What a `ChunkedResponse` writes, a `ChunkedBodyReader` reads.
use web_frame.Prelude.{
  ℕ, zero, suc, ◌+◌, ◌^◌, ◌<◌, ◌≤◌, ◌≡◌, refl, sym, ap, ◌∙◌, Bool, true, false, List, [], ◌∷◌, ◌++◌,
  if◌then◌else◌, length, concat, drop, drop-append, All, arith, le→ltb, length-append,
}
use mathlib.Core.List.{append_assoc, append-nil}
use web_frame.Prelude.Expected.{ok}
use web_frame.Prelude.Text.{Text, crlf}
use web_frame.Prelude.Search.{is_empty_text}
use web_frame.Prelude.Socket.{Input, OnlyReceived, bytes_of}
use web_frame.Chunked.Codec.{to_hex, encode_chunk, encode_final_chunk}
use web_frame.Chunked.Reader.{
  ChunkedBodyReader, Outcome, done, bind, new_reader, next_chunk, read_chunk, read_all_loop,
  read_all, left,
}
use web_frame.Chunked.Lines.{IsStream, Gives}
use web_frame.Chunked.Chunks.{
  IsTrailer, IsStream-eq, Gives-trailers, length-IsStream, encode_chunks, read_chunk-Gives,
  read_chunk-final,
}
use web_frame.Chunked.Writer.{ChunkedResponse, Sent, and_then, header_data, write, finish}

next_chunk-more :
    (max_size : ℕ) (more : Text → ChunkedBodyReader → Outcome Text) (result p : Text)
    (c : ChunkedBodyReader)
    → 1 ≤ length p
    → length result + length p ≤ max_size
    → next_chunk max_size more result p c ≡ more (result ++ p) c
unfolding next_chunk
next_chunk-more max_size more result p c h l = rw (is_empty_text p h, le→ltb _ _ l) refl

read_all_loop_unfinished :
    (fuel max_size : ℕ) (result : Text) (c : ChunkedBodyReader)
    → c.finished ≡ false
    → read_all_loop (suc fuel) max_size result c
      ≡ bind (read_chunk c) (next_chunk max_size (read_all_loop fuel max_size) result)
unfolding read_all_loop
read_all_loop_unfinished fuel max_size result c h =
    ap
      (λ (b : Bool).
        if b
        then done (ok result) c
        else bind (read_chunk c) (next_chunk max_size (read_all_loop fuel max_size) result))
      h

module _ (max_size : ℕ) (ts : List (Text × Text)) (rest : Text) (plain : All IsTrailer ts) where
  read_all_loop-final :
      (fuel : ℕ) (result : Text) (c : ChunkedBodyReader)
      → c.finished ≡ false
      → IsStream c (encode_final_chunk ts ++ rest)
      → Gives (read_all_loop (suc fuel) max_size result c) result rest (c.trailers ++ ts) true
  unfolding next_chunk
  read_all_loop-final fuel result c unfinished s =
      let g = read_chunk-final ts rest c plain unfinished s in
      rw (read_all_loop_unfinished fuel max_size result c unfinished, g.result)
        (record {
          after = g.after;
          result = refl;
          stream = g.stream;
          trailers_are = g.trailers_are;
          finished_is = g.finished_is;
        })

  -- The chunks that are left are read behind `result`; pieces of no bytes are not in the stream.
  read_all_loop-Gives :
      (ps : List Text) (fuel : ℕ) (result : Text) (c : ChunkedBodyReader)
      → length (encode_chunks ps) < fuel
      → All (λ p. length p < 2 ^ 63) ps
      → length result + length (concat ps) ≤ max_size
      → c.finished ≡ false
      → IsStream c (encode_chunks ps ++ (encode_final_chunk ts ++ rest))
      → Gives
          (read_all_loop fuel max_size result c)
          (result ++ concat ps)
          rest
          (c.trailers ++ ts)
          true
  unfolding encode_chunks encode_chunk
  read_all_loop-Gives ps zero result c h small m u s = absurd (omega arith)
  read_all_loop-Gives [] (suc fuel) result c h small m u s =
      rw (append-nil result) (read_all_loop-final fuel result c u s)
  read_all_loop-Gives ([] ∷ ps) (suc fuel) result c h (p, small) m u s =
      read_all_loop-Gives ps (suc fuel) result c h small m u s
  read_all_loop-Gives ((x ∷ xs) ∷ ps) (suc fuel) result c h (p, small) m u s =
      let later = encode_chunks ps ++ (encode_final_chunk ts ++ rest) in
      let g =
        read_chunk-Gives (x ∷ xs) later c (omega arith, p) u
          (IsStream-eq
            (append_assoc (encode_chunk (x ∷ xs)) (encode_chunks ps)
              (encode_final_chunk ts ++ rest))
            s) in
      let l = length-append (x ∷ xs) (concat ps) in
      let fits : length (encode_chunks ps) < fuel = omega (
        arith,
        length-append (encode_chunk (x ∷ xs)) (encode_chunks ps),
        length-append (to_hex (length (x ∷ xs))) (crlf ++ ((x ∷ xs) ++ crlf)),
      ) in
      let l' = length-append result (x ∷ xs) in
      rw
        (
          read_all_loop_unfinished fuel max_size result c u,
          g.result,
          next_chunk-more max_size (read_all_loop fuel max_size) result (x ∷ xs) g.after
              (omega arith) (omega arith),
          sym (append_assoc result (x ∷ xs) (concat ps)),
        )
        (Gives-trailers (ap (λ us. us ++ ts) g.trailers_are) (
          read_all_loop-Gives ps fuel (result ++ x ∷ xs) g.after fits small (omega arith)
            (g.finished_is ∙ u) g.stream))

  -- However the encoded body is cut into reads, `read_all` gives the pieces put together.
  pub read_all-Gives :
      (ps : List Text) (is : List Input)
      → All (λ p. length p < 2 ^ 63) ps
      → length (concat ps) ≤ max_size
      → OnlyReceived is
      → bytes_of is ≡ encode_chunks ps ++ (encode_final_chunk ts ++ rest)
      → Gives (read_all max_size (new_reader is)) (concat ps) rest ts true
  unfolding read_all
  read_all-Gives ps is small m o e =
      let s : IsStream (new_reader is) (encode_chunks ps ++ (encode_final_chunk ts ++ rest)) =
        record { stands = e; open_still = o } in
      let l = length-IsStream (new_reader is) _ s in
      read_all_loop-Gives ps (suc (left (new_reader is))) [] (new_reader is)
        (omega (arith, length-append (encode_chunks ps) (encode_final_chunk ts ++ rest))) small
        (omega arith) refl s

-- The writes of a handler, one after another, and the end of the response.
unfoldable pub write_each : List Text → ChunkedResponse → Sent
write_each [] c = (ok tt, c)
write_each (p ∷ ps) c = and_then (write p c) (write_each ps)

unfoldable pub respond : List Text → ChunkedResponse → Sent
unfolding write_each
respond ps c = and_then (write_each ps c) finish

-- A response that is not finished, on a connection whose writes succeed.
abbrev pub open_response :
    ℕ → (headers trailers : List (Text × Text)) → (headers_sent : Bool) → Text → ChunkedResponse
open_response status headers trailers headers_sent outgoing = record {
  status = status;
  headers = headers;
  trailers = trailers;
  headers_sent = headers_sent;
  finished = false;
  connected = true;
  writes = [];
  outgoing = outgoing;
}

module _ (status : ℕ) (headers trailers : List (Text × Text)) where
  -- The status line and the headers of the response.
  abbrev pub head : Text
  head = header_data (open_response status headers trailers false [])

  abbrev head_unless : Bool → Text
  head_unless true = []
  head_unless false = head

  write_lem :
      (p : Text) (sent : Bool) (out : Text)
      → write p (open_response status headers trailers sent out) ≡ (
        ok tt,
        open_response status headers trailers true ((out ++ head_unless sent) ++ encode_chunk p),
      )
  unfolding write encode_chunk
  write_lem [] true out =
      ap (λ t. (ok tt, open_response status headers trailers true t))
        (sym (append-nil (out ++ []) ∙ append-nil out))
  write_lem [] false out =
      ap (λ t. (ok tt, open_response status headers trailers true t))
        (sym (append-nil (out ++ head)))
  write_lem (x ∷ p) true out =
      ap (λ t. (ok tt, open_response status headers trailers true (t ++ encode_chunk (x ∷ p))))
        (sym (append-nil out))
  write_lem (x ∷ p) false out = refl

  write_each-written :
      (ps : List Text) (out : Text)
      → write_each ps (open_response status headers trailers true out)
        ≡ (ok tt, open_response status headers trailers true (out ++ encode_chunks ps))
  unfolding write_each encode_chunks
  write_each-written [] out =
      ap (λ t. (ok tt, open_response status headers trailers true t)) (sym (append-nil out))
  write_each-written (p ∷ ps) out = rw (write_lem p true out) (
      write_each-written ps ((out ++ []) ++ encode_chunk p)
      ∙ ap (λ t. (ok tt, open_response status headers trailers true t))
          (ap (λ t. (t ++ encode_chunk p) ++ encode_chunks ps) (append-nil out)
            ∙ append_assoc out (encode_chunk p) (encode_chunks ps)))

  -- What a response has written at its end.
  abbrev pub written : List Text → Text
  written ps = head ++ (encode_chunks ps ++ encode_final_chunk trailers)

  finish_lem :
      (sent : Bool) (out : Text)
      → finish (open_response status headers trailers sent out) ≡ (
        ok tt,
        record (open_response status headers trailers true
            ((out ++ head_unless sent) ++ encode_final_chunk trailers)) { finished = true },
      )
  unfolding finish
  finish_lem true out =
      ap
        (λ t. (
          ok tt,
          record (open_response status headers trailers true (t ++ encode_final_chunk trailers)) {
            finished = true;
          },
        ))
        (sym (append-nil out))
  finish_lem false out = refl

  pub respond-written :
      (ps : List Text)
      → respond ps (open_response status headers trailers false []) ≡ (
        ok tt,
        record (open_response status headers trailers true (written ps)) { finished = true },
      )
  unfolding respond write_each encode_chunks
  respond-written [] = finish_lem false []
  respond-written (p ∷ ps) =
      rw
        (
          write_lem p false [],
          write_each-written ps (head ++ encode_chunk p),
          finish_lem true ((head ++ encode_chunk p) ++ encode_chunks ps),
        )
        (ap
          (λ t. (ok tt, record (open_response status headers trailers true t) { finished = true }))
          (simp (append-nil, append_assoc)))

  -- A response writes any pieces and finishes, on a connection whose writes succeed. A reader that is
  -- given what stands behind the head, with anything after it, however it is cut into reads, returns the
  -- pieces put together, has the trailers of the response, is finished, and leaves what is after: if
  -- each piece is shorter than 2^63, they are within `max_size`, and the trailers can stand on lines.
  pub read_all-respond :
      (ps : List Text) (is : List Input) (max_size : ℕ) (rest : Text)
      → All (λ p. length p < 2 ^ 63) ps
      → length (concat ps) ≤ max_size
      → All IsTrailer trailers
      → OnlyReceived is
      → bytes_of is
        ≡ drop
            (length head)
            (respond ps (open_response status headers trailers false [])).1.outgoing
          ++ rest
      → Gives (read_all max_size (new_reader is)) (concat ps) rest trailers true
  read_all-respond ps is max_size rest small m i o e =
      let body = encode_chunks ps ++ encode_final_chunk trailers in
      let sent : bytes_of is ≡ encode_chunks ps ++ (encode_final_chunk trailers ++ rest) =
        e
        ∙ ap (λ (r : Sent). drop (length head) r.1.outgoing ++ rest) (respond-written ps)
        ∙ ap (λ t. t ++ rest) (drop-append head body)
        ∙ append_assoc (encode_chunks ps) (encode_final_chunk trailers) rest in
      read_all-Gives max_size trailers rest i ps is small m o sent
