-- ===== src/Chunked/Ends.antt =====
-- The coroutines of the reader end, whatever the peer sends: each round leaves less to read.
use web_frame.Prelude.{
  ℕ, zero, suc, ◌+◌, ◌-◌, ◌<◌, ◌≤◌, ◌≡◌, ◌≢◌, refl, ap, String, Bool, true, false, some, [], ◌∷◌,
  ◌++◌, min, if◌then◌else◌, ltb, ◌==◌, length, take, drop, arith, Bool-cases, Option-cases, inl,
  inr, length-append, length-drop, take-append-drop, eq_list,
}
use web_frame.Prelude.Expected.{ok, unexpected, Error}
use web_frame.Prelude.Text.{Text, is_empty, find_text, crlf}
use web_frame.Prelude.Search.{find_text_bounds}
use web_frame.Prelude.Socket.{
  ReadResult, got, error, inputs_left, async_read, async_read-inputs_left,
}
use web_frame.Chunked.Codec.{ChunkSize, size, invalid, overflow, parse_chunk_size}
use web_frame.Chunked.Reader.{
  ChunkedBodyReader, Outcome, done, undefined, no_fuel, bind, read_some, take_line, next_line,
  read_line_loop, read_line, read_bytes_loop, read_bytes, add_trailer, next_trailer, read_trailers,
  left, read_chunk_of, read_sized, read_chunk, next_chunk, read_all_loop, read_all,
}

-- The call ends, and `P` holds of what it gives, if it gives something.
data Ends (P : Text → ChunkedBodyReader → Type 0) : Outcome Text → Type 0 where
  gives : {a : Text} {c : ChunkedBodyReader} → P a c → Ends P (done (ok a) c)
  fails : {e : Error} {c : ChunkedBodyReader} → Ends P (done (unexpected e) c)
  overflows : Ends P undefined

Ends-ne-no_fuel :
    {P : Text → ChunkedBodyReader → Type 0} {m : Outcome Text} → Ends P m → m ≢ no_fuel
Ends-ne-no_fuel (gives p) = cc
Ends-ne-no_fuel fails = cc
Ends-ne-no_fuel overflows = cc

Ends-bind :
    {P Q : Text → ChunkedBodyReader → Type 0} {m : Outcome Text}
    {f : Text → ChunkedBodyReader → Outcome Text}
    → Ends P m
    → ((a : Text) (c : ChunkedBodyReader) → P a c → Ends Q (f a c))
    → Ends Q (bind m f)
Ends-bind (gives {a} {c} p) k = k a c p
Ends-bind fails k = fails
Ends-bind overflows k = overflows

Ends-mono :
    {P Q : Text → ChunkedBodyReader → Type 0} {m : Outcome Text}
    → ((a : Text) (c : ChunkedBodyReader) → P a c → Q a c)
    → Ends P m
    → Ends Q m
Ends-mono k (gives {a} {c} p) = gives (k a c p)
Ends-mono k fails = fails
Ends-mono k overflows = overflows

Ends-if :
    {P : Text → ChunkedBodyReader → Type 0} (b : Bool) {x y : Outcome Text}
    → (b ≡ true → Ends P x)
    → (b ≡ false → Ends P y)
    → Ends P (if b then x else y)
Ends-if true hx hy = hx refl
Ends-if false hx hy = hy refl

some_length : (s : Text) → is_empty s ≡ false → 1 ≤ length s
some_length [] h = absurd (cc)
some_length (x ∷ s) h = omega arith

-- A read takes what it gives off the connection, and leaves the buffer.
abbrev Taken : ChunkedBodyReader → Text → ChunkedBodyReader → Type 0
Taken c a c' =
    (1 ≤ length a)
    × (length a + inputs_left c'.inputs ≤ inputs_left c.inputs)
    × (c'.buffer ≡ c.buffer)

read_some-Taken :
    (message : String) (k : ℕ) (c : ChunkedBodyReader) → Ends (Taken c) (read_some message k c)
unfolding read_some
read_some-Taken message k c = go (async_read k c.inputs) refl
  where
    go : (r : ReadResult) → async_read k c.inputs ≡ r → Ends (Taken c) (read_some message k c)
    go (error e is) h = rw (read_some, h) fails
    go (got bytes is) h =
        rw (read_some, h)
          (Ends-if (is_empty bytes) (λ _. fails)
            (λ n. gives (
              some_length bytes n,
              async_read-inputs_left k c.inputs bytes is h (some_length bytes n),
              refl,
            )))

-- A call leaves `n` fewer at least.
abbrev Falls : ℕ → ChunkedBodyReader → Text → ChunkedBodyReader → Type 0
Falls n c a c' = left c' + n ≤ left c

line_Falls :
    (c : ChunkedBodyReader) (i : ℕ)
    → find_text crlf c.buffer ≡ some i
    → Falls 2 c (take i c.buffer) (record c { buffer = drop (i + 2) c.buffer })
unfolding left
line_Falls c i e = omega (arith, find_text_bounds crlf c.buffer i e, length-drop (i + 2) c.buffer)

next_line-Falls :
    (more : ChunkedBodyReader → Outcome Text) (c d : ChunkedBodyReader)
    → left c ≤ left d
    → Ends (Falls 2 c) (more c)
    → Ends (Falls 2 d) (next_line more c)
unfolding next_line left
next_line-Falls more c d h k = elim (Option-cases (find_text crlf c.buffer)) [
  | inl e ↦
      rw (next_line, take_line, e)
        (Ends-if (ltb 8192 (length c.buffer)) (λ _. fails)
          (λ _. Ends-mono (λ a c' (f : Falls 2 c a c'). omega arith) k))
  | inr (i, e) ↦ rw (next_line, take_line, e) (gives (omega (arith, line_Falls c i e)))
]

read_line_loop-Falls :
    (fuel : ℕ) (c : ChunkedBodyReader)
    → inputs_left c.inputs < fuel
    → Ends (Falls 2 c) (read_line_loop fuel c)
unfolding read_line_loop left
read_line_loop-Falls zero c h = absurd (omega arith)
read_line_loop-Falls (suc fuel) c h =
    Ends-bind (read_some-Taken "Connection closed while reading chunk" 1024 c) λ bytes c' t.
      let c'' : ChunkedBodyReader = record c' { buffer = c'.buffer ++ bytes } in
      let l = length-append c'.buffer bytes in
      let l' = ap length t.2 in
      let within : left c'' ≤ left c = omega (arith, t.1) in
      next_line-Falls (read_line_loop fuel) c'' c within
        (read_line_loop-Falls fuel c'' (omega (arith, t.0, t.1)))

read_line-Falls : (c : ChunkedBodyReader) → Ends (Falls 2 c) (read_line c)
unfolding read_line
read_line-Falls c = elim (Option-cases (find_text crlf c.buffer)) [
  | inl e ↦
      rw (read_line, take_line, e)
        (read_line_loop-Falls (suc (inputs_left c.inputs)) c (omega arith))
  | inr (i, e) ↦ rw (read_line, take_line, e) (gives (line_Falls c i e))
]

read_bytes_loop-Falls :
    (n fuel : ℕ) (result : Text) (c : ChunkedBodyReader)
    → inputs_left c.inputs < fuel
    → Ends (λ a c'. left c' + n ≤ left c + length result) (read_bytes_loop fuel n result c)
unfolding read_bytes_loop left
read_bytes_loop-Falls n zero result c h = absurd (omega arith)
read_bytes_loop-Falls n (suc fuel) result c h = elim (Bool-cases (ltb (length result) n)) [
  | inr enough ↦ rw (read_bytes_loop, enough) (gives (ground arith))
  | inl short ↦
      rw (read_bytes_loop, short)
        (Ends-bind
          (read_some-Taken "Connection closed while reading chunk data"
            (min 4096 (n - length result)) c)
          λ bytes c' t.
            let l = length-append result bytes in
            let l' = ap length t.2 in
            let fewer : inputs_left c'.inputs < fuel = omega (arith, t.0, t.1) in
            Ends-mono
              (λ a d (f : left d + n ≤ left c' + length (result ++ bytes)). omega (arith, t.1))
              (read_bytes_loop-Falls n fuel (result ++ bytes) c' fewer))
]

read_bytes-Falls : (n : ℕ) (c : ChunkedBodyReader) → Ends (Falls n c) (read_bytes n c)
unfolding read_bytes left
read_bytes-Falls n c =
    let l = ap length (take-append-drop n c.buffer) in
    let l' = length-append (take n c.buffer) (drop n c.buffer) in
    let c' : ChunkedBodyReader = record c { buffer = drop n c.buffer } in
    Ends-mono (λ a d (f : left d + n ≤ left c' + length (take n c.buffer)). omega arith)
      (read_bytes_loop-Falls n (suc (inputs_left c.inputs)) (take n c.buffer) c' (omega arith))

read_trailers-Falls :
    (fuel : ℕ) (c : ChunkedBodyReader) → left c < fuel → Ends (Falls 2 c) (read_trailers fuel c)
unfolding read_trailers next_trailer left
read_trailers-Falls zero c h = absurd (omega arith)
read_trailers-Falls (suc fuel) c h = Ends-bind (read_line-Falls c) λ line c' f.
    Ends-if (is_empty line) (λ _. gives (omega (arith, f)))
      (λ _.
        Ends-mono (λ a d (g : Falls 2 (add_trailer line c') a d). omega (arith, f, g))
          (read_trailers-Falls fuel (add_trailer line c') (omega (arith, f))))

read_chunk_of-Falls : (n : ℕ) (c : ChunkedBodyReader) → Ends (Falls 0 c) (read_chunk_of n c)
unfolding read_chunk_of
read_chunk_of-Falls n c = Ends-bind (read_bytes-Falls n c) λ content c' f.
    Ends-bind (read_bytes-Falls 2 c')
      λ end c'' g. Ends-if (eq_list end crlf) (λ _. gives (omega (arith, f, g))) (λ _. fails)

read_sized-Falls : (n : ChunkSize) (c : ChunkedBodyReader) → Ends (Falls 0 c) (read_sized n c)
read_sized-Falls invalid c = fails
read_sized-Falls overflow c = overflows
read_sized-Falls (size n) c =
    Ends-if (n == 0)
      (λ _.
        Ends-mono (λ a d (f : Falls 2 c a d). omega arith)
          (read_trailers-Falls (suc (left c)) c (omega arith)))
      (λ _. read_chunk_of-Falls n c)

-- A chunk that is not empty was read from what is left.
abbrev FallsUnlessEmpty : ChunkedBodyReader → Text → ChunkedBodyReader → Type 0
FallsUnlessEmpty c a c' = is_empty a ≡ false → left c' < left c

read_chunk-Falls : (c : ChunkedBodyReader) → Ends (FallsUnlessEmpty c) (read_chunk c)
unfolding read_chunk
read_chunk-Falls c =
    Ends-if c.finished (λ _. gives (λ e. absurd (cc)))
      (λ _. Ends-bind (read_line-Falls c) λ line c' f.
        Ends-mono (λ a d (g : Falls 0 c' a d) _. omega (arith, f, g))
          (read_sized-Falls (parse_chunk_size line) c'))

read_all_loop-Ends :
    (max_size fuel : ℕ) (result : Text) (c : ChunkedBodyReader)
    → left c < fuel
    → Ends (λ a d. Unit {0}) (read_all_loop fuel max_size result c)
unfolding read_all_loop next_chunk
read_all_loop-Ends max_size zero result c h = absurd (omega arith)
read_all_loop-Ends max_size (suc fuel) result c h =
    Ends-if c.finished (λ _. gives tt)
      (λ _. Ends-bind (read_chunk-Falls c) λ chunk c' f.
        Ends-if (is_empty chunk) (λ _. gives tt)
          (λ some_bytes.
            Ends-if (ltb max_size (length result + length chunk)) (λ _. fails)
              (λ _.
                read_all_loop-Ends max_size fuel (result ++ chunk) c'
                  (omega (arith, f some_bytes)))))

-- From any state of the reader, whatever the peer sends, `read_all` ends with a body or an error, or in
-- the overflow of a chunk's size: it does not run out of fuel.
pub read_all-ne-no_fuel : (max_size : ℕ) (c : ChunkedBodyReader) → read_all max_size c ≢ no_fuel
unfolding read_all
read_all-ne-no_fuel max_size c =
    Ends-ne-no_fuel (read_all_loop-Ends max_size (suc (left c)) [] c (omega arith))
