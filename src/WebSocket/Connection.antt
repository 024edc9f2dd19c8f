-- ===== src/WebSocket/Connection.antt =====
-- src/net/websocket.cpp: the connection, which receives messages from frames and answers control
-- frames.
use web_frame.Prelude.{
  ℕ, zero, suc, ◌+◌, ◌-◌, ◌%◌, ◌^◌, Bool, true, false, Option, none, some, List, [], ◌∷◌, ◌++◌,
  if◌then◌else◌, leb, ltb, ◌==◌, length, take, drop,
}
use web_frame.Prelude.Bytes.{codes, be16, byte_at}
use web_frame.Prelude.Text.{Text, is_empty}
use web_frame.Prelude.Expected.{Expected, ok, unexpected, Error, io, connection_reset, IoError}
use web_frame.Prelude.Expected
use web_frame.Prelude.Socket.{Input, received, failed, inputs_left}
use web_frame.WebSocket.Frame.{
  WebSocketOpcode, continuation, text, binary, close, ping, pong, reserved, opcode_code,
  FrameHeader, no_mask, parse_frame_header, serialize_frame_header, apply_mask,
}

-- The members, and the socket: what its reads will give, beyond which the connection is closed; what
-- its writes will answer, beyond which they succeed; and what was written, the newest first.
pub record WebSocketConnection : Type 0 where
  pub read_buffer : List ℕ
  pub fragment_buffer : List ℕ
  pub fragment_opcode : WebSocketOpcode
  pub is_open : Bool
  pub max_message_size : ℕ
  pub inputs : List Input
  pub writes : List (Option Error)
  pub outgoing : List (List ℕ)

abbrev pub new_websocket : List Input → List (Option Error) → WebSocketConnection
new_websocket inputs writes = record {
  read_buffer = [];
  fragment_buffer = [];
  fragment_opcode = text;
  is_open = true;
  max_message_size = 16777216;
  inputs = inputs;
  writes = writes;
  outgoing = [];
}

pub record WebSocketMessage : Type 0 where
  pub opcode : WebSocketOpcode
  pub content : List ℕ

abbrev pub message : WebSocketOpcode → List ℕ → WebSocketMessage
message opcode content = record { opcode = opcode; content = content }

abbrev pub code_or : ℕ → List ℕ → ℕ
code_or default (b0 ∷ b1 ∷ bs) = be16 b0 b1
code_or default _ = default

abbrev is_opcode : WebSocketOpcode → WebSocketMessage → Bool
is_opcode k m = opcode_code m.opcode == opcode_code k

abbrev is_text : WebSocketMessage → Bool
is_text m = is_opcode text m

abbrev is_binary : WebSocketMessage → Bool
is_binary m = is_opcode binary m

abbrev is_close : WebSocketMessage → Bool
is_close m = is_opcode close m

abbrev is_ping : WebSocketMessage → Bool
is_ping m = is_opcode ping m

abbrev is_pong : WebSocketMessage → Bool
is_pong m = is_opcode pong m

unfoldable pub close_code : WebSocketMessage → ℕ
close_code m = code_or 1005 m.content

unfoldable pub close_reason : WebSocketMessage → Text
close_reason m = drop 2 m.content

abbrev pub Sent : Type 0
Sent = Expected (Unit {0}) × WebSocketConnection

-- `async_write_all`.
unfoldable pub write_all : List ℕ → WebSocketConnection → Sent
write_all bytes c = elim c.writes [
  | [] ↦ (ok tt, record c { outgoing = bytes ∷ c.outgoing })
  | w ∷ ws ↦ elim w [
    | none ↦ (ok tt, record c { writes = ws; outgoing = bytes ∷ c.outgoing })
    | some e ↦ (unexpected e, record c { writes = ws })
  ]
]

abbrev pub server_header : WebSocketOpcode → ℕ → FrameHeader
server_header opcode size = record {
  fin = true;
  rsv1 = false;
  rsv2 = false;
  rsv3 = false;
  opcode = opcode;
  masked = false;
  payload_length = size;
  mask_key = no_mask;
}

abbrev pub write_payload : List ℕ → Sent → Sent
write_payload payload (unexpected e, c) = (unexpected e, c)
write_payload payload (ok u, c) = if ltb 0 (length payload) then write_all payload c else (ok tt, c)

unfoldable pub send_frame : WebSocketOpcode → List ℕ → WebSocketConnection → Sent
unfolding write_all
send_frame opcode payload c =
    write_payload payload
      (write_all (serialize_frame_header (server_header opcode (length payload))) c)

abbrev send_text : Text → WebSocketConnection → Sent
send_text content c = send_frame text content c

abbrev send_binary : List ℕ → WebSocketConnection → Sent
send_binary payload c = send_frame binary payload c

abbrev send_ping : List ℕ → WebSocketConnection → Sent
send_ping payload c = send_frame ping payload c

abbrev pub send_pong : List ℕ → WebSocketConnection → Sent
send_pong payload c = send_frame pong payload c

unfoldable pub send_close_frame : ℕ → Text → WebSocketConnection → Sent
unfolding send_frame
send_close_frame code reason c = send_frame close (byte_at 8 code ∷ code % 256 ∷ reason) c

unfoldable pub close_connection : ℕ → Text → WebSocketConnection → Sent
unfolding send_close_frame
close_connection code reason c =
    if c.is_open then send_close_frame code reason (record c { is_open = false }) else (ok tt, c)

-- How a round of `receive` ends: it goes on, it returns, or the construction of the payload throws,
-- since the range that it is given ends before it starts.
pub data Round : Type 0 where
  again : WebSocketConnection → Round
  returned : Expected WebSocketMessage → WebSocketConnection → Round
  thrown : Round

abbrev pub closed_error : Error
closed_error = io connection_reset "Connection closed"

unfoldable pub take_message : FrameHeader → List ℕ → WebSocketConnection → Round
take_message h payload c =
    if is_empty c.fragment_buffer
    then if h.fin
      then returned (ok (message h.opcode payload)) c
      else again (record c { fragment_opcode = h.opcode; fragment_buffer = payload })
    else returned (unexpected (io Expected.unknown "Protocol error"))
        (close_connection 1002 (codes "Incomplete fragmented message") c).1

unfoldable pub take_fragment : FrameHeader → WebSocketConnection → Round
take_fragment h c =
    if ltb c.max_message_size (length c.fragment_buffer)
    then returned (unexpected (io Expected.unknown "Message too large"))
        (close_connection 1009 (codes "Message too large") c).1
    else if h.fin
    then returned (ok (message c.fragment_opcode c.fragment_buffer))
        (record c { fragment_buffer = [] })
    else again c

-- A frame, its payload unmasked.
unfoldable pub handle_frame : WebSocketOpcode → FrameHeader → List ℕ → WebSocketConnection → Round
handle_frame ping h payload c = again (send_pong payload c).1
handle_frame pong h payload c = again c
handle_frame close h payload c =
    returned (ok (message close payload))
      (send_close_frame (code_or 1000 payload) (drop 2 payload) (record c { is_open = false })).1
handle_frame continuation h payload c =
    take_fragment h (record c { fragment_buffer = c.fragment_buffer ++ payload })
handle_frame text h payload c = take_message h payload c
handle_frame binary h payload c = take_message h payload c
handle_frame (reserved n) h payload c = take_message h payload c

abbrev pub unmask : FrameHeader → List ℕ → List ℕ
unmask h payload = if h.masked then apply_mask h.mask_key payload else payload

-- The payload stands from `start` to `end` in the buffer.
unfoldable pub take_frame : FrameHeader → (start end : ℕ) → WebSocketConnection → Round
unfolding handle_frame
take_frame h start end c =
    if ltb end start
    then thrown
    else handle_frame h.opcode h (unmask h (take (end - start) (drop start c.read_buffer)))
        (record c { read_buffer = drop end c.read_buffer })

unfoldable pub read_more : WebSocketConnection → Round
read_more c = elim c.inputs [
  | [] ↦ returned (unexpected closed_error) (record c { is_open = false })
  | i ∷ is ↦ elim i [
    | received bytes ↦
        if is_empty bytes
        then returned (unexpected closed_error) (record c { is_open = false; inputs = is })
        else again (record c { read_buffer = c.read_buffer ++ bytes; inputs = is })
    | failed e ↦ returned (unexpected e) (record c { is_open = false; inputs = is })
  ]
]

-- `header_size + payload_length` is a sum of 64 bits.
abbrev pub frame_end : ℕ → FrameHeader → ℕ
frame_end size h = (size + h.payload_length) % 2 ^ 64

abbrev pub with_parsed : WebSocketConnection → Option (ℕ × FrameHeader) → Round
with_parsed c none = read_more c
with_parsed c (some (size, h)) =
    if leb (frame_end size h) (length c.read_buffer)
    then take_frame h size (frame_end size h) c
    else read_more c

-- One round of the loop of `receive`.
unfoldable pub receive_step : WebSocketConnection → Round
receive_step c =
    if c.is_open
    then with_parsed c (parse_frame_header c.read_buffer)
    else returned (unexpected closed_error) c

-- How `receive` ends; `no_fuel` is none of the program's.
pub data Received : Type 0 where
  result : Expected WebSocketMessage → WebSocketConnection → Received
  exception no_fuel : Received

unfoldable pub receive_loop : ℕ → WebSocketConnection → Received
receive_loop zero c = no_fuel
receive_loop (suc fuel) c = elim (receive_step c) [
  | again c' ↦ receive_loop fuel c'
  | returned r c' ↦ result r c'
  | thrown ↦ exception
]

unfoldable pub left : WebSocketConnection → ℕ
left c = length c.read_buffer + inputs_left c.inputs

unfoldable pub receive : WebSocketConnection → Received
receive c = receive_loop (suc (left c)) c
