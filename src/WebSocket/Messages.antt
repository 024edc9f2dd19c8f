-- ===== src/WebSocket/Messages.antt =====
-- A message that a client sends in masked fragments is received whole.
use web_frame.Prelude.{
  ℕ, zero, suc, ◌+◌, ◌≤◌, ◌<◌, ◌≡◌, refl, ap, ◌∙◌, Bool, true, false, List, [], ◌∷◌, ◌++◌, length,
  length-append, le→ltb, arith, All,
}
use mathlib.Core.List.{append_assoc}
use web_frame.Prelude.Expected.{ok}
use web_frame.WebSocket.Frame.{WebSocketOpcode, continuation, text, binary, opcode_of, opcode_code}
use web_frame.WebSocket.Ends.{receive_step-Falls}
use web_frame.WebSocket.Connection.{
  WebSocketConnection, message, again, returned, take_message, take_fragment, handle_frame,
  receive_step, result, receive_loop, left, receive,
}
use web_frame.WebSocket.Clients.{
  Piece, IsPiece, client_header, client_frame, receive_step-client_frame,
}

-- The frames that go on with a message, of which the last has FIN.
unfoldable pub client_rest : List Piece → Piece → List ℕ
client_rest [] last = client_frame true continuation last
client_rest (p ∷ ps) last = client_frame false continuation p ++ client_rest ps last

unfoldable pub contents : List Piece → Piece → List ℕ
contents [] last = last.payload
contents (p ∷ ps) last = p.payload ++ contents ps last

-- The loop over a round that goes on, and over one that returns.
receive_loop-again :
    (fuel : ℕ) (c c' : WebSocketConnection)
    → receive_step c ≡ again c'
    → receive_loop (suc fuel) c ≡ receive_loop fuel c'
unfolding receive_loop
receive_loop-again fuel c c' e = rw (receive_loop, e) refl

receive_loop-returned :
    (fuel : ℕ) (c c' : WebSocketConnection) (r : _)
    → receive_step c ≡ returned r c'
    → receive_loop (suc fuel) c ≡ result r c'
unfolding receive_loop
receive_loop-returned fuel c c' r e = rw (receive_loop, e) refl

-- Less is left after a round that goes on.
left-again : (c c' : WebSocketConnection) → receive_step c ≡ again c' → left c' < left c
left-again c c' e = rw e at (receive_step-Falls c)

take_fragment-more :
    (p : Piece) (c : WebSocketConnection)
    → length c.fragment_buffer ≤ c.max_message_size
    → take_fragment (client_header false continuation p) c ≡ again c
unfolding take_fragment
take_fragment-more p c h = rw (le→ltb _ _ h) refl

take_fragment-last :
    (p : Piece) (c : WebSocketConnection)
    → length c.fragment_buffer ≤ c.max_message_size
    → take_fragment (client_header true continuation p) c
      ≡ returned
          (ok (message c.fragment_opcode c.fragment_buffer))
          (record c { fragment_buffer = [] })
unfolding take_fragment
take_fragment-last p c h = rw (le→ltb _ _ h) refl

-- The state after a fragment is taken.
abbrev collected : List ℕ → List ℕ → WebSocketConnection → WebSocketConnection
collected payload rest c = record c {
  read_buffer = rest;
  fragment_buffer = c.fragment_buffer ++ payload;
}

receive_step-fragment :
    (fin : Bool) (p : Piece) (rest : List ℕ) (c : WebSocketConnection)
    → IsPiece p
    → c.is_open ≡ true
    → c.read_buffer ≡ client_frame fin continuation p ++ rest
    → receive_step c ≡ take_fragment (client_header fin continuation p) (collected p.payload rest c)
unfolding handle_frame opcode_of opcode_code
receive_step-fragment fin p rest c i o e =
    receive_step-client_frame fin continuation p rest c (omega arith) refl i o e

-- What is left of a message that has begun.
receive_loop-client_rest :
    (fuel : ℕ) (ps : List Piece) (last : Piece) (rest : List ℕ) (c : WebSocketConnection)
    → left c < fuel
    → All IsPiece ps
    → IsPiece last
    → c.is_open ≡ true
    → c.read_buffer ≡ client_rest ps last ++ rest
    → length c.fragment_buffer + length (contents ps last) ≤ c.max_message_size
    → receive_loop fuel c
      ≡ result
          (ok (message c.fragment_opcode (c.fragment_buffer ++ contents ps last)))
          (record c { read_buffer = rest; fragment_buffer = [] })
unfolding client_rest contents
receive_loop-client_rest zero ps last rest c h hs i o e m = absurd (omega arith)
receive_loop-client_rest (suc fuel) [] last rest c h hs i o e m =
    let l = length-append c.fragment_buffer last.payload in
    receive_loop-returned fuel c _ _ (
      receive_step-fragment true last rest c i o e
      ∙ take_fragment-last last (collected last.payload rest c) (omega arith))
receive_loop-client_rest (suc fuel) (p ∷ ps) last rest c h (ip, hs) i o e m =
    let tail = client_rest ps last ++ rest in
    let l = length-append c.fragment_buffer p.payload in
    let l' = length-append p.payload (contents ps last) in
    let c' = collected p.payload tail c in
    let step : receive_step c ≡ again c' =
      receive_step-fragment false p tail c ip o
        (e ∙ append_assoc (client_frame false continuation p) (client_rest ps last) rest)
      ∙ take_fragment-more p c' (omega arith) in
    let fell = left-again c c' step in
    receive_loop-again fuel c c' step
    ∙ receive_loop-client_rest fuel ps last rest c' (omega arith) hs i o refl (omega arith)
    ∙ ap
        (λ t.
          result (ok (message c.fragment_opcode t))
            (record c { read_buffer = rest; fragment_buffer = [] }))
        (append_assoc c.fragment_buffer p.payload (contents ps last))

abbrev pub data_opcode : Bool → WebSocketOpcode
data_opcode true = binary
data_opcode false = text

unfoldable pub client_message : Bool → Piece → List Piece → Piece → List ℕ
client_message is_binary first ps last =
    client_frame false (data_opcode is_binary) first ++ client_rest ps last

receive_step-first :
    (is_binary : Bool) (p : Piece) (rest : List ℕ) (c : WebSocketConnection)
    → IsPiece p
    → c.is_open ≡ true
    → c.fragment_buffer ≡ []
    → c.read_buffer ≡ client_frame false (data_opcode is_binary) p ++ rest
    → receive_step c
      ≡ again (record c {
        read_buffer = rest;
        fragment_opcode = data_opcode is_binary;
        fragment_buffer = p.payload;
      })
unfolding handle_frame opcode_of opcode_code take_message
receive_step-first true p rest c i o empty e =
    receive_step-client_frame false binary p rest c (omega arith) refl i o e ∙ rw empty refl
receive_step-first false p rest c i o empty e =
    receive_step-client_frame false text p rest c (omega arith) refl i o e ∙ rw empty refl

-- At an open connection that is within no message, with a message in the buffer that a client sent in
-- fragments, each under its own mask, `receive` returns the kind of the message and its contents, the
-- fragments in order without the masks, and leaves what follows it in the buffer, if the contents are
-- within `max_message_size_`.
pub receive-client_message :
    (is_binary : Bool) (first : Piece) (ps : List Piece) (last : Piece) (rest : List ℕ)
    (c : WebSocketConnection)
    → IsPiece first
    → All IsPiece ps
    → IsPiece last
    → c.is_open ≡ true
    → c.fragment_buffer ≡ []
    → c.read_buffer ≡ client_message is_binary first ps last ++ rest
    → length (first.payload ++ contents ps last) ≤ c.max_message_size
    → receive c
      ≡ result
          (ok (message (data_opcode is_binary) (first.payload ++ contents ps last)))
          (record c {
            read_buffer = rest;
            fragment_opcode = data_opcode is_binary;
            fragment_buffer = [];
          })
unfolding receive client_message
receive-client_message is_binary first ps last rest c i hs j o empty e m =
    let tail = client_rest ps last ++ rest in
    let c' : WebSocketConnection = record c {
      read_buffer = tail;
      fragment_opcode = data_opcode is_binary;
      fragment_buffer = first.payload;
    } in
    let step = receive_step-first is_binary first tail c i o empty (
      e
      ∙ append_assoc (client_frame false (data_opcode is_binary) first) (client_rest ps last)
          rest) in
    let fell = left-again c c' step in
    let l = length-append first.payload (contents ps last) in
    receive_loop-again (left c) c c' step
    ∙ receive_loop-client_rest (left c) ps last rest c' (omega arith) hs j o refl (omega arith)
