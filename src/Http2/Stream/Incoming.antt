-- ===== src/Http2/Stream/Incoming.antt =====
-- A request that arrives in pieces, as include/coroute/http2/stream.hpp and src/http2/stream.cpp
-- put it together.
use mathlib.Core.List.{append_assoc, append-nil}
use web_frame.Prelude.{concat, ℕ, ◌≡◌, refl, true, false, List, [], ◌∷◌, ◌++◌, ap, ◌∙◌}
use web_frame.Prelude.{sym}
use web_frame.Prelude.Int.{ℤ}
use web_frame.Http2.Hpack.{Header}
use web_frame.Http2.Stream.{
  Stream, half_closed_remote, new_stream, receive_data, receive_headers, is_request_complete,
}

-- A body in pieces, none of which carries END_STREAM.
unfoldable pub receive_pieces : List (List ℕ) → Stream → Stream
receive_pieces [] s = s
receive_pieces (b ∷ bs) s = receive_pieces bs (receive_data b false s)

-- What the pieces change is the body.
receive_pieces_lem :
    (bs : List (List ℕ)) (s : Stream)
    → receive_pieces bs s ≡ record s { request_body = s.request_body ++ concat bs }
unfolding receive_pieces receive_data
receive_pieces_lem [] s =
    ap (λ body. record s { request_body = body }) (sym (append-nil s.request_body))
receive_pieces_lem (b ∷ bs) s =
    receive_pieces_lem bs (receive_data b false s)
    ∙ ap (λ body. record s { request_body = body }) (append_assoc s.request_body b (concat bs))

-- A request whose headers come first and whose body comes in pieces, the last with END_STREAM, is
-- complete when the last piece is there and not before; its body is the pieces in order, its
-- headers are those that came, and the stream is then half closed.
pub receive_data-receive_pieces :
    (id : ℕ) (window : ℤ) (hs : List Header) (bs : List (List ℕ)) (last : List ℕ)
    → let before = receive_pieces bs (receive_headers hs false (new_stream id window)) in
      let s = receive_data last true before in
      (is_request_complete before ≡ false)
      × (is_request_complete s ≡ true)
      × (s.request_body ≡ concat bs ++ last)
      × (s.request_headers ≡ hs)
      × (s.state ≡ half_closed_remote)
unfolding receive_data receive_headers new_stream
receive_data-receive_pieces id window hs bs last =
    rw (receive_pieces_lem bs (receive_headers hs false (new_stream id window)))
      (refl, refl, refl, refl, refl)
