-- ===== src/WebSocket/Opening.antt =====
-- What a server writes to open a connection, as RFC 6455 section 4.2.2 has it.
use web_frame.Prelude.{ℕ, ◌≡◌, refl, ap, true, none, some, List, [], ◌∷◌, ◌++◌}
use mathlib.Core.List.{append-nil}
use web_frame.Prelude.Bytes.{codes}
use web_frame.Prelude.Text.{Text, to_decimal}
use web_frame.Prelude.Expected.{ok}
use web_frame.Core.Request.{Request, header}
use web_frame.Core.Response.{set_header, set_entry, set_status, default_status_text, pick_text}
use web_frame.Prelude.Socket.{Input}
use web_frame.WebSocket.Connection.{new_websocket, write_all}
use web_frame.WebSocket.Handshake.{
  is_websocket_upgrade, upgrade_to_websocket, create_upgrade_response, compute_accept_key,
  response_head, header_lines, crlf,
}

-- The lines of the answer, with the value of `Sec-WebSocket-Accept`.
unfoldable pub opening : Text → Text
opening accept =
    codes "HTTP/1.1 101 Switching Protocols"
    ++ crlf
    ++ codes "Upgrade: websocket"
    ++ crlf
    ++ codes "Connection: Upgrade"
    ++ crlf
    ++ codes "Sec-WebSocket-Accept: "
    ++ accept
    ++ crlf
    ++ crlf

module _ (sha1 base64_encode : List ℕ → Text) where
  response_head-opening :
      (req : Request) (key : Text)
      → header req (codes "Sec-WebSocket-Key") ≡ some key
      → header req (codes "Sec-WebSocket-Protocol") ≡ none
      → response_head (create_upgrade_response sha1 base64_encode req)
        ≡ opening (base64_encode (sha1 (key ++ codes "258EAFA5-E914-47DA-95CA-C5AB0DC85B11")))
  unfolding response_head create_upgrade_response opening compute_accept_key header_lines set_header
      to_decimal set_entry set_status default_status_text pick_text
  response_head-opening req key k p =
      let accept = base64_encode (sha1 (key ++ codes "258EAFA5-E914-47DA-95CA-C5AB0DC85B11")) in
      rw (create_upgrade_response, k, p)
        (ap
          (λ t.
            codes "HTTP/1.1 101 Switching Protocols"
            ++ crlf
            ++ codes "Upgrade: websocket"
            ++ crlf
            ++ codes "Connection: Upgrade"
            ++ crlf
            ++ codes "Sec-WebSocket-Accept: "
            ++ (t ++ crlf))
          (append-nil (accept ++ crlf)))

  -- If `is_websocket_upgrade` accepts the request, it has a key and asks for no protocol, and the write
  -- succeeds, `upgrade_to_websocket` writes the status line 101 and the headers Upgrade, Connection and
  -- Sec-WebSocket-Accept, whose value is the Base64 of the SHA-1 of the key followed by the text that
  -- RFC 6455 fixes, and returns a new connection.
  pub upgrade_to_websocket-opening :
      (req : Request) (key : Text) (inputs : List Input)
      → is_websocket_upgrade req ≡ true
      → header req (codes "Sec-WebSocket-Key") ≡ some key
      → header req (codes "Sec-WebSocket-Protocol") ≡ none
      → upgrade_to_websocket sha1 base64_encode req inputs []
        ≡ ok (record (new_websocket inputs []) {
          outgoing =
              opening (base64_encode (sha1 (key ++ codes "258EAFA5-E914-47DA-95CA-C5AB0DC85B11")))
              ∷ [];
        })
  unfolding upgrade_to_websocket write_all
  upgrade_to_websocket-opening req key inputs u k p = rw (u, response_head-opening req key k p) refl
