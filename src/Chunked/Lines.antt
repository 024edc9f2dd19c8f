-- ===== src/Chunked/Lines.antt =====
-- However the bytes of a connection are cut into reads, `read_line` gives the line up to its CRLF.
use web_frame.Prelude.{
  ℕ, zero, suc, ◌+◌, ◌<◌, ◌≤◌, ◌≡◌, refl, sym, ap, ◌∙◌, String, Bool, none, some, List, ◌++◌,
  length, take, drop, arith, Option-cases, inl, inr, length-append, take-append, take_front,
  drop_front, le→ltb,
}
use mathlib.Core.List.{append_assoc}
use native.Mathlib.Decide.{dec_lt}
use web_frame.Prelude.Expected.{ok}
use web_frame.Prelude.Text.{Text, find_text, crlf}
use web_frame.Prelude.Search.{
  NoReturn, find_text-crlf, drop_line, find_text_bounds, find_text-append, find_text_front,
}
use web_frame.Prelude.Socket.{inputs_left, OnlyReceived, bytes_of, Takes, async_read-Takes}
use web_frame.Chunked.Reader.{
  ChunkedBodyReader, Outcome, done, read_some, take_line, next_line, read_line_loop, read_line,
}

-- What the reader has yet to give, whether it stands in the buffer or comes from the connection.
abbrev pub pending : ChunkedBodyReader → Text
pending c = c.buffer ++ bytes_of c.inputs

pub record IsStream (c : ChunkedBodyReader) (bytes : Text) : Type 0 where
  pub stands : pending c ≡ bytes
  pub open_still : OnlyReceived c.inputs

-- A call gives `a` and leaves `rest` to be read.
pub record Gives (m : Outcome Text) (a rest : Text) (trailers : List (Text × Text))
    (finished : Bool) : Type 0 where
  pub after : ChunkedBodyReader
  pub result : m ≡ done (ok a) after
  pub stream : IsStream after rest
  pub trailers_are : after.trailers ≡ trailers
  pub finished_is : after.finished ≡ finished

-- The place of the first CRLF in a front of the text.
crlf_at :
    (front back line rest : Text) (i : ℕ)
    → NoReturn line
    → front ++ back ≡ line ++ (crlf ++ rest)
    → find_text crlf front ≡ some i
    → i ≡ length line
crlf_at front back line rest i n e f =
    let whole = find_text-append crlf front back i f (omega arith) in
    let there = rw e at whole in cc (find_text-crlf line rest n)

crlf_beyond :
    (front back line rest : Text)
    → NoReturn line
    → front ++ back ≡ line ++ (crlf ++ rest)
    → find_text crlf front ≡ none
    → length front ≤ suc (length line)
crlf_beyond front back line rest n e f = elim (dec_lt (suc (length line)) (length front)) [
  | no small ↦ omega arith
  | yes large ↦
      let there : find_text crlf (front ++ back) ≡ some (length line) =
        rw e (find_text-crlf line rest n) in
      let held = find_text_front crlf front back (length line) there (omega arith) (omega arith) in
      absurd (cc)
]

pub read_some-Takes :
    (message : String) (k : ℕ) (c : ChunkedBodyReader) (t : Takes k c.inputs)
    → read_some message k c ≡ done (ok t.bytes) (record c { inputs = t.after })
unfolding read_some
read_some-Takes message k c t = rw (read_some, t.reads, t.some_bytes) refl

next_line-none :
    (more : ChunkedBodyReader → Outcome Text) (c : ChunkedBodyReader)
    → find_text crlf c.buffer ≡ none
    → length c.buffer ≤ 8192
    → next_line more c ≡ more c
unfolding next_line
next_line-none more c e h = rw (next_line, take_line, e, le→ltb _ _ h) refl

next_line-some :
    (more : ChunkedBodyReader → Outcome Text) (c : ChunkedBodyReader) (i : ℕ)
    → find_text crlf c.buffer ≡ some i
    → next_line more c ≡ done (ok (take i c.buffer)) (record c { buffer = drop (i + 2) c.buffer })
unfolding next_line
next_line-some more c i e = rw (next_line, take_line, e) refl

module _ (line rest : Text) (plain : NoReturn line) (short : length line ≤ 8191) where
  line_there :
      (c : ChunkedBodyReader) (i : ℕ)
      → IsStream c (line ++ (crlf ++ rest))
      → find_text crlf c.buffer ≡ some i
      → Gives
          (done (ok (take i c.buffer)) (record c { buffer = drop (i + 2) c.buffer }))
          line
          rest
          c.trailers
          c.finished
  line_there c i s f =
      let e = crlf_at c.buffer (bytes_of c.inputs) line rest i plain s.stands f in
      let bound = find_text_bounds crlf c.buffer i f in
      let given : take i c.buffer ≡ line =
        sym (take_front i c.buffer (bytes_of c.inputs) (omega arith))
        ∙ ap (take i) s.stands
        ∙ ap (λ k. take k (line ++ (crlf ++ rest))) e
        ∙ take-append line (crlf ++ rest) in
      let stands =
        sym (drop_front (i + 2) c.buffer (bytes_of c.inputs) (omega arith))
        ∙ ap (drop (i + 2)) s.stands
        ∙ ap (λ k. drop (k + 2) (line ++ (crlf ++ rest))) e
        ∙ drop_line line rest in
      let c' : ChunkedBodyReader = record c { buffer = drop (i + 2) c.buffer } in
      record {
        after = c';
        result = ap (λ t. done (ok t) c') given;
        stream = record { stands = stands; open_still = s.open_still };
        trailers_are = refl;
        finished_is = refl;
      }

  -- Some of the line is still to come.
  more_to_come :
      (c : ChunkedBodyReader)
      → IsStream c (line ++ (crlf ++ rest))
      → find_text crlf c.buffer ≡ none
      → Takes 1024 c.inputs
  more_to_come c s f =
      let l = ap length s.stands in
      let l' = length-append c.buffer (bytes_of c.inputs) in
      let l'' = length-append line (crlf ++ rest) in
      let k = crlf_beyond c.buffer (bytes_of c.inputs) line rest plain s.stands f in
      async_read-Takes 1024 c.inputs s.open_still (omega arith) (omega arith)

  read_line_loop-Gives :
      (fuel : ℕ) (c : ChunkedBodyReader)
      → inputs_left c.inputs < fuel
      → IsStream c (line ++ (crlf ++ rest))
      → find_text crlf c.buffer ≡ none
      → Gives (read_line_loop fuel c) line rest c.trailers c.finished
  unfolding read_line_loop
  read_line_loop-Gives zero c h s f = absurd (omega arith)
  read_line_loop-Gives (suc fuel) c h s f =
      let t = more_to_come c s f in
      let c' : ChunkedBodyReader = record c { inputs = t.after; buffer = c.buffer ++ t.bytes } in
      let s' : IsStream c' (line ++ (crlf ++ rest)) = record {
        stands =
            append_assoc c.buffer t.bytes (bytes_of t.after)
            ∙ ap (λ x. c.buffer ++ x) (sym t.front)
            ∙ s.stands;
        open_still = t.still;
      } in
      rw (read_line_loop, read_some-Takes "Connection closed while reading chunk" 1024 c t)
        (elim (Option-cases (find_text crlf (c.buffer ++ t.bytes))) [
          | inl e ↦
              let k = crlf_beyond c'.buffer (bytes_of c'.inputs) line rest plain s'.stands e in
              rw (next_line-none (read_line_loop fuel) c' e (omega arith))
                (read_line_loop-Gives fuel c' (omega (arith, t.falls)) s' e)
          | inr (i, e) ↦ rw (next_line-some (read_line_loop fuel) c' i e) (line_there c' i s' e)
        ])

  pub read_line-Gives :
      (c : ChunkedBodyReader)
      → IsStream c (line ++ (crlf ++ rest))
      → Gives (read_line c) line rest c.trailers c.finished
  unfolding read_line
  read_line-Gives c s = elim (Option-cases (find_text crlf c.buffer)) [
    | inl e ↦
        rw (read_line, take_line, e)
          (read_line_loop-Gives (suc (inputs_left c.inputs)) c (omega arith) s e)
    | inr (i, e) ↦ rw (read_line, take_line, e) (line_there c i s e)
  ]
