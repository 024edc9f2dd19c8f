-- ===== src/Chunked/Writer.antt =====
-- src/core/chunked.cpp, `ChunkedResponse`: the coroutines that write a response in chunks.
use web_frame.Prelude.{
  ℕ, zero, suc, ◌==◌, ◌||◌, Bool, true, false, not, Option, none, some, List, [], ◌∷◌, ◌++◌,
  if◌then◌else◌, eq_list,
}
use web_frame.Prelude.Bytes.{codes}
use web_frame.Prelude.Expected.{Expected, ok, unexpected, Error, http, internal}
use web_frame.Prelude.Text.{Text, is_empty, to_decimal, crlf}
use web_frame.Core.Response.{Response, empty_response, internal_error, set_status}
use web_frame.Chunked.Codec.{encode_chunk, encode_final_chunk}

-- The members, and the connection: whether there is one, what its writes will answer, beyond which
-- they succeed, and the bytes that were written to it.
pub record ChunkedResponse : Type 0 where
  pub status : ℕ
  pub headers : List (Text × Text)
  pub trailers : List (Text × Text)
  pub headers_sent : Bool
  pub finished : Bool
  pub connected : Bool
  pub writes : List (Option Error)
  pub outgoing : Text

abbrev pub new_response : List (Option Error) → ChunkedResponse
new_response writes = record {
  status = 200;
  headers = [];
  trailers = [];
  headers_sent = false;
  finished = false;
  connected = true;
  writes = writes;
  outgoing = [];
}

abbrev pub header : Text → Text → ChunkedResponse → ChunkedResponse
header key value c = record c { headers = c.headers ++ (key, value) ∷ [] }

abbrev pub content_type : Text → ChunkedResponse → ChunkedResponse
content_type type c = header (codes "Content-Type") type c

abbrev pub trailer : Text → Text → ChunkedResponse → ChunkedResponse
trailer key value c = record c { trailers = c.trailers ++ (key, value) ∷ [] }

abbrev pub Sent : Type 0
Sent = Expected (Unit {0}) × ChunkedResponse

abbrev pub and_then : Sent → (ChunkedResponse → Sent) → Sent
and_then (unexpected e, c) k = (unexpected e, c)
and_then (ok u, c) k = k c

-- `async_write_all`.
unfoldable pub write_all : Text → ChunkedResponse → Sent
write_all bytes c = elim c.writes [
  | [] ↦ (ok tt, record c { outgoing = c.outgoing ++ bytes })
  | w ∷ ws ↦ elim w [
    | none ↦ (ok tt, record c { writes = ws; outgoing = c.outgoing ++ bytes })
    | some e ↦ (unexpected e, record c { writes = ws })
  ]
]

unfoldable pub status_text : ℕ → Text
status_text status =
    if status == 200
    then codes "OK"
    else if status == 201
    then codes "Created"
    else if status == 204
    then codes "No Content"
    else if status == 400
    then codes "Bad Request"
    else if status == 404
    then codes "Not Found"
    else if status == 500
    then codes "Internal Server Error"
    else codes "Unknown"

-- The names of the trailers, with a comma before each but the first.
abbrev pub more_names : List (Text × Text) → Text
more_names [] = []
more_names ((key, value) ∷ ts) = codes ", " ++ (key ++ more_names ts)

abbrev pub trailer_header : List (Text × Text) → Text
trailer_header [] = []
trailer_header ((key, value) ∷ ts) = codes "Trailer: " ++ (key ++ (more_names ts ++ crlf))

abbrev pub user_headers : List (Text × Text) → Text
user_headers [] = []
user_headers ((key, value) ∷ hs) =
    if eq_list key (codes "Content-Length") || eq_list key (codes "Transfer-Encoding")
    then user_headers hs
    else key ++ (codes ": " ++ (value ++ (crlf ++ user_headers hs)))

unfoldable pub header_data : ChunkedResponse → Text
unfolding status_text
header_data c =
    codes "HTTP/1.1 "
    ++ (to_decimal c.status
        ++ (codes " "
            ++ (status_text c.status
                ++ (crlf
                    ++ (codes "Transfer-Encoding: chunked"
                        ++ (crlf
                            ++ (trailer_header c.trailers ++ (user_headers c.headers ++ crlf))))))))

abbrev pub no_connection : Error
no_connection = http internal "No connection set"

unfoldable pub send_headers : ChunkedResponse → Sent
unfolding write_all header_data
send_headers c =
    if not c.connected
    then (unexpected no_connection, c)
    else if c.headers_sent
    then (ok tt, c)
    else and_then (write_all (header_data c) c) (λ c'. (ok tt, record c' { headers_sent = true }))

abbrev pub send_headers_first : ChunkedResponse → Sent
send_headers_first c = if c.headers_sent then (ok tt, c) else send_headers c

unfoldable pub write : Text → ChunkedResponse → Sent
unfolding send_headers
write content c =
    if not c.connected
    then (unexpected no_connection, c)
    else if c.finished
    then (unexpected (http internal "Response already finished"), c)
    else and_then (send_headers_first c)
        (λ c'. if is_empty content then (ok tt, c') else write_all (encode_chunk content) c')

unfoldable pub finish : ChunkedResponse → Sent
unfolding send_headers
finish c =
    if not c.connected
    then (unexpected no_connection, c)
    else if c.finished
    then (ok tt, c)
    else and_then (send_headers_first c) (λ c'.
      and_then (write_all (encode_final_chunk c'.trailers) c')
        (λ c''. (ok tt, record c'' { finished = true })))

-- The end of `streaming_response`.
abbrev pub streamed : Sent → Response × ChunkedResponse
streamed (unexpected e, c) = (internal_error (codes "Streaming error"), c)
streamed (ok u, c) = (set_status 0 empty_response, c)

-- The callback has a state of its own, and says whether it is to be called again; `none` is for want
-- of fuel, as the number of its calls is its own affair.
module _ {S : Type 0} (callback : S → ChunkedResponse → Bool × S × ChunkedResponse) where
  unfoldable pub stream_loop : ℕ → S → ChunkedResponse → Option ChunkedResponse
  stream_loop zero s c = none
  stream_loop (suc fuel) s c =
      let called = callback s c in
      let rest = stream_loop fuel called.1 called.2 in if called.0 then rest else some called.2

  unfoldable pub streaming_response :
      ℕ → S → Text → List (Option Error) → Option (Response × ChunkedResponse)
  unfolding stream_loop
  streaming_response fuel s type writes =
      elim (stream_loop fuel s (content_type type (new_response writes))) [
        | none ↦ none
        | some c ↦ some (streamed (finish c))
      ]
