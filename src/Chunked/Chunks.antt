-- ===== src/Chunked/Chunks.antt =====
-- A chunk, and the final chunk with its trailers, are read back as they were encoded.
use web_frame.Prelude.{
  ℕ, zero, suc, ◌+◌, ◌-◌, ◌^◌, ◌<◌, ◌≤◌, ◌≡◌, ◌≢◌, refl, sym, ap, ◌∙◌, Bool, true, false, none,
  some, List, [], ◌∷◌, ◌++◌, if◌then◌else◌, length, take, drop, All, All-append, All-mono, arith,
  length-append, take-append, ne→==,
}
use mathlib.Core.List.{append_assoc, append-nil}
use web_frame.Prelude.Expected.{ok}
use web_frame.Prelude.Text.{Text, is_empty, trim_front, find_char, crlf}
use web_frame.Prelude.Search.{NoReturn, find_char-append, drop_after, is_empty_text}
use web_frame.Prelude.Socket.{bytes_of, length-bytes_of}
use web_frame.Chunked.Codec.{
  to_hex, encode_chunk, trailer_line, trailer_lines, encode_final_chunk, size, parse_chunk_size,
}
use web_frame.Chunked.Hex.{to_hex-IsHex, length-to_hex_le, parse_chunk_size-to_hex}
use web_frame.Chunked.Reader.{
  ChunkedBodyReader, Outcome, done, bind, read_line, add_trailer, next_trailer, read_trailers, left,
  read_chunk_of, read_sized, read_chunk,
}
use web_frame.Chunked.Lines.{IsStream, Gives, read_line-Gives}
use web_frame.Chunked.Reading.{read_bytes-Gives}

-- A name and a value that stand on a line of their own, the value without space before it.
pub record IsTrailer (t : Text × Text) : Type 0 where
  pub name_plain : All (λ c. (c ≢ 13) × (c ≢ b':')) t.0
  pub value_plain : NoReturn t.1
  pub value_trimmed : trim_front t.1 ≡ t.1
  pub short : length (trailer_line t) ≤ 8191

line_plain : (key value : Text) → IsTrailer (key, value) → NoReturn (trailer_line (key, value))
line_plain key value i =
    All-append (λ c. c ≢ 13) key (b':' ∷ 32 ∷ value) (All-mono (λ c h. h.0) key i.name_plain)
      ((λ e. omega arith), ((λ e. omega arith), i.value_plain))

add_trailer-trailer_line :
    (t : Text × Text) (c : ChunkedBodyReader)
    → IsTrailer t
    → add_trailer (trailer_line t) c ≡ record c { trailers = c.trailers ++ t ∷ [] }
unfolding add_trailer trim_front
add_trailer-trailer_line (key, value) c i =
    rw
      (
        find_char-append b':' key (32 ∷ value) (All-mono (λ c h. h.1) key i.name_plain),
        take-append key (b':' ∷ 32 ∷ value),
        drop_after key (32 ∷ value) b':',
        i.value_trimmed,
      )
      refl

next_trailer-line :
    (more : ChunkedBodyReader → Outcome Text) (line : Text) (c : ChunkedBodyReader)
    → 1 ≤ length line
    → next_trailer more line c ≡ more (add_trailer line c)
unfolding next_trailer
next_trailer-line more line c h = rw (is_empty_text line h) refl

pub Gives-trailers :
    {m : Outcome Text} {a rest : Text} {ts us : List (Text × Text)} {finished : Bool}
    → ts ≡ us
    → Gives m a rest ts finished
    → Gives m a rest us finished
Gives-trailers e g = record {
  after = g.after;
  result = g.result;
  stream = g.stream;
  trailers_are = g.trailers_are ∙ e;
  finished_is = g.finished_is;
}

pub IsStream-eq : {c : ChunkedBodyReader} {s t : Text} → s ≡ t → IsStream c s → IsStream c t
IsStream-eq e i = record { stands = i.stands ∙ e; open_still = i.open_still }

read_trailers-Gives :
    (fuel : ℕ) (ts : List (Text × Text)) (rest : Text) (c : ChunkedBodyReader)
    → length ts < fuel
    → All IsTrailer ts
    → IsStream c (trailer_lines ts ++ (crlf ++ rest))
    → Gives (read_trailers fuel c) [] rest (c.trailers ++ ts) true
unfolding trailer_lines read_trailers
read_trailers-Gives zero ts rest c h i s = absurd (omega arith)
read_trailers-Gives (suc fuel) [] rest c h i s =
    let g = read_line-Gives [] rest tt (omega arith) c s in
    rw (read_trailers, g.result)
      (record {
        after = record (g.after) { finished = true };
        result = refl;
        stream = record { stands = g.stream.stands; open_still = g.stream.open_still };
        trailers_are = g.trailers_are ∙ sym (append-nil c.trailers);
        finished_is = refl;
      })
read_trailers-Gives (suc fuel) ((key, value) ∷ ts) rest c h (i, is) s =
    let line = trailer_line (key, value) in
    let later = trailer_lines ts ++ (crlf ++ rest) in
    let s' : IsStream c (line ++ (crlf ++ later)) =
      IsStream-eq (append_assoc line (crlf ++ trailer_lines ts) (crlf ++ rest)) s in
    let g = read_line-Gives line later (line_plain key value i) i.short c s' in
    let c' : ChunkedBodyReader = record (g.after) {
      trailers = g.after.trailers ++ (key, value) ∷ [];
    } in
    let s'' : IsStream c' later = record {
      stands = g.stream.stands;
      open_still = g.stream.open_still;
    } in
    rw
      (
        read_trailers,
        g.result,
        next_trailer-line (read_trailers fuel) line g.after
            (omega (arith, length-append key (b':' ∷ 32 ∷ value))),
        add_trailer-trailer_line (key, value) g.after i,
      )
      (Gives-trailers
        (ap (λ us. (us ++ (key, value) ∷ []) ++ ts) g.trailers_are
          ∙ append_assoc c.trailers ((key, value) ∷ []) ts)
        (read_trailers-Gives fuel ts rest c' (omega arith) is s''))

length-trailer_lines : (ts : List (Text × Text)) → length ts ≤ length (trailer_lines ts)
unfolding trailer_lines
length-trailer_lines [] = omega arith
length-trailer_lines (t ∷ ts) =
    omega
      (arith, length-append (trailer_line t) (crlf ++ trailer_lines ts), length-trailer_lines ts)

pub length-IsStream :
    (c : ChunkedBodyReader) (bytes : Text) → IsStream c bytes → length bytes ≤ left c
unfolding left
length-IsStream c bytes s =
    let l = ap length s.stands in
    omega (arith, length-append c.buffer (bytes_of c.inputs), length-bytes_of c.inputs)

-- The chunks of a body, and what ends it.
unfoldable pub encode_chunks : List Text → Text
encode_chunks [] = []
encode_chunks (p ∷ ps) = encode_chunk p ++ encode_chunks ps

abbrev pub IsChunk : Text → Type 0
IsChunk p = (1 ≤ length p) × (length p < 2 ^ 63)

read_sized-Gives :
    (p rest : Text) (c : ChunkedBodyReader)
    → IsChunk p
    → IsStream c (p ++ (crlf ++ rest))
    → Gives (read_sized (size (length p)) c) p rest c.trailers c.finished
unfolding read_chunk_of
read_sized-Gives p rest c (some_bytes, small) s =
    let g = read_bytes-Gives p (crlf ++ rest) c s in
    let g' = read_bytes-Gives crlf rest g.after g.stream in
    rw (ne→== (length p) 0 (λ e. omega arith), g.result, g'.result)
      (record {
        after = g'.after;
        result = refl;
        stream = g'.stream;
        trailers_are = g'.trailers_are ∙ g.trailers_are;
        finished_is = g'.finished_is ∙ g.finished_is;
      })

hex_line : (n : ℕ) → NoReturn (to_hex n)
hex_line n = All-mono (λ c h e. omega arith) (to_hex n) (to_hex-IsHex n)

encode_chunk-append :
    (p rest : Text)
    → 1 ≤ length p
    → encode_chunk p ++ rest ≡ to_hex (length p) ++ (crlf ++ (p ++ (crlf ++ rest)))
unfolding encode_chunk
encode_chunk-append [] rest h = absurd (omega arith)
encode_chunk-append (x ∷ p) rest h =
    append_assoc (to_hex (length (x ∷ p))) (crlf ++ ((x ∷ p) ++ crlf)) rest
    ∙ ap (λ t. to_hex (length (x ∷ p)) ++ (crlf ++ t)) (append_assoc (x ∷ p) crlf rest)

read_chunk_unfinished :
    (c : ChunkedBodyReader)
    → c.finished ≡ false
    → read_chunk c ≡ bind (read_line c) (λ line c'. read_sized (parse_chunk_size line) c')
unfolding read_chunk
read_chunk_unfinished c h =
    ap
      (λ (b : Bool).
        if b
        then done (ok []) c
        else bind (read_line c) (λ line c'. read_sized (parse_chunk_size line) c'))
      h

-- A chunk of one byte or more, and of less than 2^63, is read back.
pub read_chunk-Gives :
    (p rest : Text) (c : ChunkedBodyReader)
    → IsChunk p
    → c.finished ≡ false
    → IsStream c (encode_chunk p ++ rest)
    → Gives (read_chunk c) p rest c.trailers c.finished
read_chunk-Gives p rest c (some_bytes, small) unfinished s =
    let line = to_hex (length p) in
    let g =
      read_line-Gives line (p ++ (crlf ++ rest)) (hex_line (length p))
        (omega (arith, length-to_hex_le (length p) (omega arith))) c
        (IsStream-eq (encode_chunk-append p rest some_bytes) s) in
    let g' = read_sized-Gives p rest g.after (some_bytes, small) g.stream in
    rw
      (
        read_chunk_unfinished c unfinished,
        g.result,
        parse_chunk_size-to_hex (length p) small,
        g'.result,
      )
      (record {
        after = g'.after;
        result = refl;
        stream = g'.stream;
        trailers_are = g'.trailers_are ∙ g.trailers_are;
        finished_is = g'.finished_is ∙ g.finished_is;
      })

parse_zero : parse_chunk_size (b'0' ∷ []) ≡ size 0
unfolding parse_chunk_size find_char web_frame.Prelude.Text.trim
parse_zero = refl

-- The final chunk gives no bytes and its trailers.
pub read_chunk-final :
    (ts : List (Text × Text)) (rest : Text) (c : ChunkedBodyReader)
    → All IsTrailer ts
    → c.finished ≡ false
    → IsStream c (encode_final_chunk ts ++ rest)
    → Gives (read_chunk c) [] rest (c.trailers ++ ts) true
unfolding encode_final_chunk
read_chunk-final ts rest c i unfinished s =
    let later = trailer_lines ts ++ (crlf ++ rest) in
    let g =
      read_line-Gives (b'0' ∷ []) later ((λ e. omega arith), tt) (omega arith) c
        (IsStream-eq (ap (λ t. b'0' ∷ (crlf ++ t)) (append_assoc (trailer_lines ts) crlf rest))
          s) in
    let l = length-IsStream g.after later g.stream in
    let fits : length ts < suc (left g.after) =
      omega (arith, length-append (trailer_lines ts) (crlf ++ rest), length-trailer_lines ts) in
    let g' = read_trailers-Gives (suc (left g.after)) ts rest g.after fits i g.stream in
    rw (read_chunk_unfinished c unfinished, g.result, parse_zero, g'.result)
      (record {
        after = g'.after;
        result = refl;
        stream = g'.stream;
        trailers_are = g'.trailers_are ∙ ap (λ us. us ++ ts) g.trailers_are;
        finished_is = g'.finished_is;
      })
