-- ===== src/WebSocket/Handshake.antt =====
-- src/net/websocket.cpp: the handshake. OpenSSL's SHA-1 and Base64 are parameters.
use web_frame.Prelude.{
  ℕ, Bool, false, ◌&&◌, not, Option, none, some, List, [], ◌∷◌, ◌++◌, map, if◌then◌else◌, eq_list,
  take,
}
use web_frame.Prelude.Bytes.{codes}
use web_frame.Prelude.Text.{Text, to_lower, contains, find_char, to_decimal}
use web_frame.Prelude.Expected.{Expected, ok, unexpected, Error, io, invalid_argument}
use web_frame.Core.Request.{Request, header}
use web_frame.Core.Response.{Response, empty_response, bad_request, set_status, set_header}
use web_frame.Prelude.Socket.{Input}
use web_frame.WebSocket.Connection.{WebSocketConnection, new_websocket, write_all, Sent}

abbrev upgrade_values : Option Text → Option Text → Option Text → Option Text → Bool
upgrade_values (some connection) (some upgrade) (some ws_key) (some ws_version) =
    contains (codes "upgrade") (map to_lower connection)
    && eq_list (map to_lower upgrade) (codes "websocket")
    && eq_list ws_version (codes "13")
upgrade_values _ _ _ _ = false

unfoldable pub is_websocket_upgrade : Request → Bool
is_websocket_upgrade req =
    upgrade_values (header req (codes "Connection")) (header req (codes "Upgrade"))
      (header req (codes "Sec-WebSocket-Key")) (header req (codes "Sec-WebSocket-Version"))

abbrev ws_magic_guid : Text
ws_magic_guid = codes "258EAFA5-E914-47DA-95CA-C5AB0DC85B11"

abbrev first_protocol : Text → Option ℕ → Text
first_protocol protocols none = protocols
first_protocol protocols (some comma) = take comma protocols

abbrev set_protocol : Option Text → Response → Response
set_protocol none r = r
set_protocol (some protocols) r =
    set_header (codes "Sec-WebSocket-Protocol")
      (first_protocol protocols (find_char b',' protocols)) r

abbrev pub crlf : Text
crlf = 13 ∷ 10 ∷ []

unfoldable pub header_lines : List (Text × Text) → Text
header_lines [] = []
header_lines ((name, value) ∷ hs) = name ++ codes ": " ++ value ++ crlf ++ header_lines hs

-- The status line and the headers.
unfoldable pub response_head : Response → Text
response_head r =
    codes "HTTP/1.1 "
    ++ to_decimal r.status
    ++ codes " "
    ++ r.status_text
    ++ crlf
    ++ header_lines r.headers
    ++ crlf

abbrev upgraded : Sent → Expected WebSocketConnection
upgraded (unexpected e, c) = unexpected e
upgraded (ok u, c) = ok c

module _ (sha1 base64_encode : List ℕ → Text) where
  unfoldable pub compute_accept_key : Text → Text
  compute_accept_key client_key = base64_encode (sha1 (client_key ++ ws_magic_guid))

  abbrev switching : Request → Text → Response
  switching req ws_key = set_protocol (header req (codes "Sec-WebSocket-Protocol")) (
      set_header (codes "Sec-WebSocket-Accept") (compute_accept_key ws_key) (
        set_header (codes "Connection") (codes "Upgrade")
          (set_header (codes "Upgrade") (codes "websocket") (set_status 101 empty_response))))

  unfoldable pub create_upgrade_response : Request → Response
  create_upgrade_response req = elim (header req (codes "Sec-WebSocket-Key")) [
    | none ↦ bad_request (codes "Missing Sec-WebSocket-Key header")
    | some ws_key ↦ switching req ws_key
  ]

  -- The connection, over what its socket will give and answer.
  unfoldable pub upgrade_to_websocket :
      Request → List Input → List (Option Error) → Expected WebSocketConnection
  upgrade_to_websocket req inputs writes =
      if not (is_websocket_upgrade req)
      then unexpected (io invalid_argument "Not a WebSocket upgrade request")
      else upgraded
          (write_all (response_head (create_upgrade_response req)) (new_websocket inputs writes))
