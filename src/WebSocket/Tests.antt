-- ===== src/WebSocket/Tests.antt =====
-- WebSocket frames and messages at concrete bytes.
use web_frame.Prelude.{
  ℕ, ◌-◌, ◌^◌, ◌≡◌, ◌≢◌, refl, true, false, none, some, List, [], ◌∷◌, ◌++◌, arith,
}
use web_frame.Prelude.Bytes.{codes}
use web_frame.Prelude.Expected.{ok}
use web_frame.Core.Request.{Request, empty_request, add_header, header}
use web_frame.WebSocket.Handshake.{is_websocket_upgrade, upgrade_to_websocket}
use web_frame.WebSocket.Opening.{opening, upgrade_to_websocket-opening}
use web_frame.WebSocket.Frame.{
  FrameHeader, ping, text, opcode_of, opcode_code, serialize_frame_header, parse_frame_header,
}
use web_frame.WebSocket.RoundTrip.{IsValid, header_size, parse_frame_header-serialize_frame_header}
use web_frame.WebSocket.Connection.{
  WebSocketConnection, new_websocket, receive, result, exception, no_fuel, message,
}
use web_frame.WebSocket.Ends.{receive-ne-no_fuel}
use web_frame.WebSocket.Overflow.{receive-overflow}
use web_frame.WebSocket.Clients.{Piece, IsPiece}
use web_frame.WebSocket.Messages.{client_message, contents, receive-client_message}

abbrev masked_header : ℕ → FrameHeader
masked_header size = record {
  fin = true;
  rsv1 = false;
  rsv2 = false;
  rsv3 = false;
  opcode = ping;
  masked = true;
  payload_length = size;
  mask_key = 1 ∷ 2 ∷ 3 ∷ 4 ∷ [];
}

abbrev longest : ℕ
longest = 2 ^ 64 - 1

medium-IsValid : IsValid (masked_header 300)
unfolding opcode_code opcode_of
medium-IsValid = record {
  opcode_small = omega arith;
  known_opcode = refl;
  length_64 = omega arith;
  mask_fits = refl;
}

longest-IsValid : IsValid (masked_header longest)
unfolding opcode_code opcode_of
longest-IsValid = record {
  opcode_small = omega arith;
  known_opcode = refl;
  length_64 = omega arith;
  mask_fits = refl;
}

parse_frame_header-serialize_frame_header_example :
    parse_frame_header (serialize_frame_header (masked_header 300) ++ 9 ∷ [])
    ≡ some (header_size (masked_header 300), masked_header 300)
parse_frame_header-serialize_frame_header_example =
    parse_frame_header-serialize_frame_header (masked_header 300) (9 ∷ []) medium-IsValid

abbrev with_buffer : List ℕ → WebSocketConnection
with_buffer bytes = record (new_websocket [] []) { read_buffer = bytes }

receive-ne-no_fuel_example : receive (with_buffer (137 ∷ 0 ∷ [])) ≢ no_fuel
receive-ne-no_fuel_example = receive-ne-no_fuel (with_buffer (137 ∷ 0 ∷ []))

receive-overflow_example :
    receive (with_buffer (serialize_frame_header (masked_header longest) ++ [])) ≡ exception
receive-overflow_example =
    receive-overflow (masked_header longest) []
      (with_buffer (serialize_frame_header (masked_header longest) ++ [])) longest-IsValid
      (ground arith) refl refl

abbrev piece : List ℕ → Piece
piece payload = record { mask = 17 ∷ 34 ∷ 51 ∷ 68 ∷ []; payload = payload }

hello-IsPiece : IsPiece (piece (codes "hello "))
hello-IsPiece = record { mask_4 = refl; payload_bytes = ground arith; payload_63 = ground arith }

world-IsPiece : IsPiece (piece (codes "world"))
world-IsPiece = record { mask_4 = refl; payload_bytes = ground arith; payload_63 = ground arith }

abbrev fragments : List ℕ
fragments = client_message false (piece (codes "hello ")) [] (piece (codes "world")) ++ 7 ∷ []

receive-client_message_example :
    receive (with_buffer fragments)
    ≡ result
        (ok (message text (codes "hello " ++ contents [] (piece (codes "world")))))
        (record (with_buffer fragments) {
          read_buffer = 7 ∷ [];
          fragment_opcode = text;
          fragment_buffer = [];
        })
unfolding contents
receive-client_message_example =
    receive-client_message false (piece (codes "hello ")) [] (piece (codes "world")) (7 ∷ [])
      (with_buffer fragments) hello-IsPiece tt world-IsPiece refl refl refl (ground arith)

abbrev sample_key : List ℕ
sample_key = codes "dGhlIHNhbXBsZSBub25jZQ=="

abbrev handshake : Request
handshake = add_header (codes "Upgrade") (codes "websocket") (
    add_header (codes "Connection") (codes "Upgrade") (
      add_header (codes "Sec-WebSocket-Key") sample_key
        (add_header (codes "Sec-WebSocket-Version") (codes "13") empty_request)))

handshake-upgrade : is_websocket_upgrade handshake ≡ true
unfolding is_websocket_upgrade header add_header web_frame.Prelude.Dict.find
    web_frame.Prelude.Dict.insert web_frame.Prelude.Text.contains web_frame.Prelude.Text.to_lower
handshake-upgrade = refl

handshake-key : header handshake (codes "Sec-WebSocket-Key") ≡ some sample_key
unfolding header add_header web_frame.Prelude.Dict.find web_frame.Prelude.Dict.insert
handshake-key = refl

handshake-protocol : header handshake (codes "Sec-WebSocket-Protocol") ≡ none
unfolding header add_header web_frame.Prelude.Dict.find web_frame.Prelude.Dict.insert
handshake-protocol = refl

-- Functions in the place of OpenSSL's.
abbrev digest : List ℕ → List ℕ
digest xs = xs

abbrev encoding : List ℕ → List ℕ
encoding xs = 61 ∷ xs

upgrade_to_websocket-opening_example :
    upgrade_to_websocket digest encoding handshake [] []
    ≡ ok (record (new_websocket [] []) {
      outgoing =
          opening (encoding (digest (sample_key ++ codes "258EAFA5-E914-47DA-95CA-C5AB0DC85B11")))
          ∷ [];
    })
upgrade_to_websocket-opening_example =
    upgrade_to_websocket-opening digest encoding handshake sample_key [] handshake-upgrade
      handshake-key handshake-protocol
