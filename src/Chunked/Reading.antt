-- ===== src/Chunked/Reading.antt =====
-- What `read_bytes`, `read_trailers` and `read_chunk` take off a stream.
use web_frame.Prelude.{
  ℕ, zero, suc, ◌-◌, ◌<◌, ◌≡◌, refl, sym, ap, ◌∙◌, [], ◌∷◌, ◌++◌, min, length, take, drop, arith,
  length-append, take-append, take_beyond, drop_beyond, cut_later, le→ltb, lt→ltb,
}
use mathlib.Core.List.{append_assoc, append-nil}
use native.Mathlib.Decide.{dec_lt}
use web_frame.Prelude.Expected.{ok}
use web_frame.Prelude.Text.{Text}
use web_frame.Prelude.Socket.{inputs_left, bytes_of, Takes, async_read-Takes}
use web_frame.Chunked.Reader.{ChunkedBodyReader, done, read_bytes_loop, read_bytes}
use web_frame.Chunked.Lines.{IsStream, Gives, read_some-Takes}

module _ (content rest : Text) where
  -- `result` is read, `more` is to come; the buffer is spent, if there is more to come.
  read_bytes_loop-Gives :
      (fuel : ℕ) (result more : Text) (c : ChunkedBodyReader)
      → inputs_left c.inputs < fuel
      → content ≡ result ++ more
      → IsStream c (more ++ rest)
      → (length result < length content → c.buffer ≡ [])
      → Gives (read_bytes_loop fuel (length content) result c) content rest c.trailers c.finished
  unfolding read_bytes_loop
  read_bytes_loop-Gives zero result more c h e s spent = absurd (omega arith)
  read_bytes_loop-Gives (suc fuel) result [] c h e s spent =
      let whole : content ≡ result = e ∙ append-nil result in
      rw (read_bytes_loop, le→ltb (length result) (length content) (omega (arith, ap length whole)))
        (record {
          after = c;
          result = ap (λ t. done (ok t) c) (sym whole);
          stream = s;
          trailers_are = refl;
          finished_is = refl;
        })
  read_bytes_loop-Gives (suc fuel) result (x ∷ more) c h e s spent =
      let l = ap length e in
      let l' = length-append result (x ∷ more) in
      let short : length result < length content = omega arith in
      let empty = spent short in
      let stands : bytes_of c.inputs ≡ (x ∷ more) ++ rest =
        sym (ap (λ b. b ++ bytes_of c.inputs) empty) ∙ s.stands in
      let l'' = ap length stands in
      let k = min 4096 (length content - length result) in
      let t : Takes (min 4096 (length content - length result)) c.inputs =
        async_read-Takes (min 4096 (length content - length result)) c.inputs s.open_still
          (omega arith) (omega arith) in
      let (p, q) =
        cut_later t.bytes (bytes_of t.after) (x ∷ more) rest (sym t.front ∙ stands)
          (omega (arith, t.at_most)) in
      let more' = drop (length t.bytes) (x ∷ more) in
      let c' : ChunkedBodyReader = record c { inputs = t.after } in
      let s' : IsStream c' (more' ++ rest) = record {
        stands = ap (λ b. b ++ bytes_of t.after) empty ∙ q;
        open_still = t.still;
      } in
      rw
        (
          read_bytes_loop,
          lt→ltb (length result) (length content) short,
          read_some-Takes "Connection closed while reading chunk data"
              (min 4096 (length content - length result)) c t,
        )
        (read_bytes_loop-Gives fuel (result ++ t.bytes) more' c' (omega (arith, t.falls))
          (e ∙ ap (λ z. result ++ z) p ∙ sym (append_assoc result t.bytes more')) s' (λ _. empty))

  pub read_bytes-Gives :
      (c : ChunkedBodyReader)
      → IsStream c (content ++ rest)
      → Gives (read_bytes (length content) c) content rest c.trailers c.finished
  unfolding read_bytes
  read_bytes-Gives c s = elim (dec_lt (length c.buffer) (length content)) [
    | yes short ↦
        let (p, q) = cut_later c.buffer (bytes_of c.inputs) content rest s.stands (omega arith) in
        rw
          (
            take_beyond (length content) c.buffer (omega arith),
            drop_beyond (length content) c.buffer (omega arith),
          )
          (read_bytes_loop-Gives (suc (inputs_left c.inputs)) c.buffer
            (drop (length c.buffer) content) (record c { buffer = [] }) (omega arith) p
            (record { stands = q; open_still = s.open_still }) (λ _. refl))
    | no long ↦
        let (p, q) =
          cut_later content rest c.buffer (bytes_of c.inputs) (sym s.stands) (omega arith) in
        let given : take (length content) c.buffer ≡ content =
          ap (take (length content)) p ∙ take-append content (drop (length content) c.buffer) in
        rw given (
          read_bytes_loop-Gives (suc (inputs_left c.inputs)) content []
            (record c { buffer = drop (length content) c.buffer }) (omega arith)
            (sym (append-nil content)) (record { stands = sym q; open_still = s.open_still })
            (λ h. absurd (omega arith)))
  ]
