-- ===== src/Chunked/Reader.antt =====
-- src/core/chunked.cpp, `ChunkedBodyReader`: the coroutines that read a body from the connection.
use web_frame.Prelude.{
  ℕ, zero, suc, ◌+◌, ◌-◌, String, Bool, true, false, Option, none, some, List, [], ◌∷◌, ◌++◌, min,
  if◌then◌else◌, ltb, ◌==◌, length, take, drop, eq_list,
}
use web_frame.Prelude.Expected.{Expected, ok, unexpected, Error, http}
use web_frame.Prelude.Expected
use web_frame.Prelude.Text.{Text, is_empty, trim_front, find_char, find_text, crlf}
use web_frame.Prelude.Socket.{Input, inputs_left, got, error, async_read}
use web_frame.Chunked.Codec.{ChunkSize, size, invalid, overflow, parse_chunk_size}

-- The members, and what the connection will have to read.
pub record ChunkedBodyReader : Type 0 where
  pub finished : Bool
  pub trailers : List (Text × Text)
  pub buffer : Text
  pub inputs : List Input

abbrev pub new_reader : List Input → ChunkedBodyReader
new_reader inputs = record { finished = false; trailers = []; buffer = []; inputs = inputs }

-- How a coroutine ends: with a result, in an overflow of signed arithmetic, which is undefined, or
-- for want of fuel, which none of the program's does.
pub data Outcome (A : Type 0) : Type 0 where
  done : Expected A → ChunkedBodyReader → Outcome A
  undefined no_fuel : Outcome A

abbrev pub bind : {A B : Type 0} → Outcome A → (A → ChunkedBodyReader → Outcome B) → Outcome B
bind (done (ok a) c) f = f a c
bind (done (unexpected e) c) f = done (unexpected e) c
bind undefined f = undefined
bind no_fuel f = no_fuel

abbrev pub bad_request : String → ChunkedBodyReader → Outcome Text
bad_request message c = done (unexpected (http Expected.bad_request message)) c

-- A read of at most `k` bytes, with the error of a connection that was closed.
unfoldable pub read_some : String → ℕ → ChunkedBodyReader → Outcome Text
read_some message k c = elim (async_read k c.inputs) [
  | error e is ↦ done (unexpected e) (record c { inputs = is })
  | got bytes is ↦
      if is_empty bytes
      then bad_request message (record c { inputs = is })
      else done (ok bytes) (record c { inputs = is })
]

-- The first line of the buffer, if it is whole.
abbrev pub line_at : ChunkedBodyReader → Option ℕ → Option (Text × ChunkedBodyReader)
line_at c none = none
line_at c (some i) = some (take i c.buffer, record c { buffer = drop (i + 2) c.buffer })

unfoldable pub take_line : ChunkedBodyReader → Option (Text × ChunkedBodyReader)
take_line c = line_at c (find_text crlf c.buffer)

abbrev pub line_or : Option (Text × ChunkedBodyReader) → Outcome Text → Outcome Text
line_or (some (line, c)) more = done (ok line) c
line_or none more = more

-- After a read: the line, if it is whole, or a further round.
unfoldable pub next_line : (ChunkedBodyReader → Outcome Text) → ChunkedBodyReader → Outcome Text
unfolding take_line
next_line more c =
    line_or (take_line c)
      (if ltb 8192 (length c.buffer) then bad_request "Chunk size line too long" c else more c)

unfoldable pub read_line_loop : ℕ → ChunkedBodyReader → Outcome Text
unfolding read_some next_line
read_line_loop zero c = no_fuel
read_line_loop (suc fuel) c =
    bind (read_some "Connection closed while reading chunk" 1024 c)
      λ bytes c'. next_line (read_line_loop fuel) (record c' { buffer = c'.buffer ++ bytes })

unfoldable pub read_line : ChunkedBodyReader → Outcome Text
unfolding take_line read_line_loop
read_line c = line_or (take_line c) (read_line_loop (suc (inputs_left c.inputs)) c)

unfoldable pub read_bytes_loop : ℕ → ℕ → Text → ChunkedBodyReader → Outcome Text
unfolding read_some
read_bytes_loop zero n result c = no_fuel
read_bytes_loop (suc fuel) n result c = elim (ltb (length result) n) [
  | false ↦ done (ok result) c
  | true ↦
      bind (read_some "Connection closed while reading chunk data" (min 4096 (n - length result)) c)
        λ bytes c'. read_bytes_loop fuel n (result ++ bytes) c'
]

unfoldable pub read_bytes : ℕ → ChunkedBodyReader → Outcome Text
unfolding read_bytes_loop
read_bytes n c =
    read_bytes_loop (suc (inputs_left c.inputs)) n (take n c.buffer)
      (record c { buffer = drop n c.buffer })

abbrev pub split_trailer : Text → Option ℕ → List (Text × Text)
split_trailer line none = []
split_trailer line (some colon) = (take colon line, trim_front (drop (colon + 1) line)) ∷ []

unfoldable pub add_trailer : Text → ChunkedBodyReader → ChunkedBodyReader
add_trailer line c = record c { trailers = c.trailers ++ split_trailer line (find_char b':' line) }

-- An empty line ends the trailers.
unfoldable pub next_trailer :
    (ChunkedBodyReader → Outcome Text) → Text → ChunkedBodyReader → Outcome Text
unfolding add_trailer
next_trailer more line c =
    if is_empty line then done (ok []) (record c { finished = true }) else more (add_trailer line c)

unfoldable pub read_trailers : ℕ → ChunkedBodyReader → Outcome Text
unfolding next_trailer
read_trailers zero c = no_fuel
read_trailers (suc fuel) c = bind (read_line c) (next_trailer (read_trailers fuel))

-- What is left to read: the buffer, and what the connection has.
unfoldable pub left : ChunkedBodyReader → ℕ
left c = length c.buffer + inputs_left c.inputs

unfoldable pub read_chunk_of : ℕ → ChunkedBodyReader → Outcome Text
unfolding read_bytes
read_chunk_of n c = bind (read_bytes n c) λ content c'. bind (read_bytes 2 c') λ end c''.
    if eq_list end crlf
    then done (ok content) c''
    else bad_request "Missing CRLF after chunk data" c''

abbrev pub read_sized : ChunkSize → ChunkedBodyReader → Outcome Text
read_sized invalid c = bad_request "Invalid chunk size" c
read_sized overflow c = undefined
read_sized (size n) c = if n == 0 then read_trailers (suc (left c)) c else read_chunk_of n c

unfoldable pub read_chunk : ChunkedBodyReader → Outcome Text
unfolding read_chunk_of read_trailers left
read_chunk c =
    if c.finished
    then done (ok []) c
    else bind (read_line c) (λ line c'. read_sized (parse_chunk_size line) c')

abbrev pub too_large : Error
too_large = http Expected.payload_too_large "Chunked body too large"

unfoldable pub next_chunk :
    ℕ → (Text → ChunkedBodyReader → Outcome Text) → Text → Text → ChunkedBodyReader → Outcome Text
next_chunk max_size more result chunk c =
    if is_empty chunk
    then done (ok result) c
    else if ltb max_size (length result + length chunk)
    then done (unexpected too_large) c
    else more (result ++ chunk) c

unfoldable pub read_all_loop : ℕ → ℕ → Text → ChunkedBodyReader → Outcome Text
unfolding next_chunk
read_all_loop zero max_size result c = no_fuel
read_all_loop (suc fuel) max_size result c =
    let rest = bind (read_chunk c) (next_chunk max_size (read_all_loop fuel max_size) result) in
    if c.finished then done (ok result) c else rest

unfoldable pub read_all : ℕ → ChunkedBodyReader → Outcome Text
unfolding read_all_loop left
read_all max_size c = read_all_loop (suc (left c)) max_size [] c
