-- ===== src/WebSocket/Ends.antt =====
-- `receive` ends: each round that goes on leaves less to read.
use web_frame.Prelude.{
  ℕ, zero, suc, ◌≤◌, ◌<◌, ◌%◌, ◌==◌, ◌≡◌, ◌≢◌, refl, Bool, true, false, Option, none, some, List,
  [], ◌∷◌, if◌then◌else◌, leb, ltb, length, drop, length-append, length-drop, leb→le, ltb→le, arith,
  Bool-cases, inl, inr, ◌∙◌,
}
use web_frame.Prelude.Expected.{ok, unexpected, Error}
use web_frame.WebSocket.Frame.{
  WebSocketOpcode, FrameHeader, continuation, text, binary, close, ping, pong, reserved,
  parse_frame_header, with_length, bit, with_mask, length_field, medium_length, long_length,
}
use web_frame.Prelude.Socket.{Input, received, failed}
use web_frame.WebSocket.Connection.{
  WebSocketConnection, Sent, write_all, write_payload, send_frame, Round, again, returned, thrown,
  take_message, take_fragment, handle_frame, take_frame, read_more, frame_end, with_parsed,
  receive_step, Received, result, exception, no_fuel, receive_loop, left, receive,
}

write_all-left : (bytes : List ℕ) (c : WebSocketConnection) → left (write_all bytes c).1 ≡ left c
unfolding write_all left
write_all-left bytes c = any_writes c.writes
  where
    any_writes :
        (ws : List (Option Error))
        → left (write_all bytes (record c { writes = ws })).1 ≡ left (record c { writes = ws })
    any_writes [] = refl
    any_writes (none ∷ ws) = refl
    any_writes (some e ∷ ws) = refl

write_payload-left :
    (payload : List ℕ) (sent : Sent) → left (write_payload payload sent).1 ≡ left sent.1
write_payload-left payload (unexpected e, c) = refl
write_payload-left payload (ok u, c) = elim (Bool-cases (ltb 0 (length payload))) [
  | inl some_bytes ↦ rw some_bytes (write_all-left payload c)
  | inr no_bytes ↦ rw no_bytes refl
]

send_frame-left :
    (opcode : WebSocketOpcode) (payload : List ℕ) (c : WebSocketConnection)
    → left (send_frame opcode payload c).1 ≡ left c
unfolding send_frame
send_frame-left opcode payload c = write_payload-left payload (write_all _ c) ∙ write_all-left _ c

-- A round that goes on leaves less than `n`.
abbrev pub Falls : ℕ → Round → Type 0
Falls n (again c) = left c < n
Falls n (returned r c) = Unit
Falls n thrown = Unit

take_message-Falls :
    (n : ℕ) (h : FrameHeader) (payload : List ℕ) (c : WebSocketConnection)
    → left c < n
    → Falls n (take_message h payload c)
unfolding take_message left
take_message-Falls n h payload c l = ground arith

take_fragment-Falls :
    (n : ℕ) (h : FrameHeader) (c : WebSocketConnection) → left c < n → Falls n (take_fragment h c)
unfolding take_fragment left
take_fragment-Falls n h c l = ground arith

handle_frame-Falls :
    (n : ℕ) (opcode : WebSocketOpcode) (h : FrameHeader) (payload : List ℕ)
    (c : WebSocketConnection)
    → left c < n
    → Falls n (handle_frame opcode h payload c)
unfolding handle_frame left
handle_frame-Falls n ping h payload c l = rw (send_frame-left pong payload c) l
handle_frame-Falls n pong h payload c l = l
handle_frame-Falls n close h payload c l = tt
handle_frame-Falls n continuation h payload c l = take_fragment-Falls n h _ l
handle_frame-Falls n text h payload c l = take_message-Falls n h payload c l
handle_frame-Falls n binary h payload c l = take_message-Falls n h payload c l
handle_frame-Falls n (reserved k) h payload c l = take_message-Falls n h payload c l

-- A header has two bytes at least.
abbrev HasSize : Option (ℕ × FrameHeader) → Type 0
HasSize none = Unit
HasSize (some (size, h)) = 2 ≤ size

abbrev HasLengthSize : Option (ℕ × ℕ × List ℕ) → Type 0
HasLengthSize none = Unit
HasLengthSize (some (n, size, rest)) = 2 ≤ size

medium_length-HasLengthSize : (rest : List ℕ) → HasLengthSize (medium_length rest)
medium_length-HasLengthSize [] = tt
medium_length-HasLengthSize (d2 ∷ []) = tt
medium_length-HasLengthSize (d2 ∷ d3 ∷ rest) = omega arith

long_length-HasLengthSize : (rest : List ℕ) → HasLengthSize (long_length rest)
long_length-HasLengthSize [] = tt
long_length-HasLengthSize (d2 ∷ []) = tt
long_length-HasLengthSize (d2 ∷ d3 ∷ []) = tt
long_length-HasLengthSize (d2 ∷ d3 ∷ d4 ∷ []) = tt
long_length-HasLengthSize (d2 ∷ d3 ∷ d4 ∷ d5 ∷ []) = tt
long_length-HasLengthSize (d2 ∷ d3 ∷ d4 ∷ d5 ∷ d6 ∷ []) = tt
long_length-HasLengthSize (d2 ∷ d3 ∷ d4 ∷ d5 ∷ d6 ∷ d7 ∷ []) = tt
long_length-HasLengthSize (d2 ∷ d3 ∷ d4 ∷ d5 ∷ d6 ∷ d7 ∷ d8 ∷ []) = tt
long_length-HasLengthSize (d2 ∷ d3 ∷ d4 ∷ d5 ∷ d6 ∷ d7 ∷ d8 ∷ d9 ∷ rest) = omega arith

length_field-HasLengthSize : (n : ℕ) (rest : List ℕ) → HasLengthSize (length_field n rest)
unfolding length_field
length_field-HasLengthSize n rest = elim (Bool-cases (leb n 125)) [
  | inl small ↦ rw small (omega arith)
  | inr large ↦ elim (Bool-cases (n == 126)) [
    | inl medium ↦ rw (large, medium) (medium_length-HasLengthSize rest)
    | inr huge ↦ rw (large, huge) (long_length-HasLengthSize rest)
  ]
]

with_mask-HasSize :
    (b0 b1 n size : ℕ) (rest : List ℕ) → 2 ≤ size → HasSize (with_mask b0 b1 n size rest)
with_mask-HasSize b0 b1 n size [] h = tt
with_mask-HasSize b0 b1 n size (m0 ∷ []) h = tt
with_mask-HasSize b0 b1 n size (m0 ∷ m1 ∷ []) h = tt
with_mask-HasSize b0 b1 n size (m0 ∷ m1 ∷ m2 ∷ []) h = tt
with_mask-HasSize b0 b1 n size (m0 ∷ m1 ∷ m2 ∷ m3 ∷ rest) h = omega arith

with_length-HasSize :
    (b0 b1 : ℕ) (o : Option (ℕ × ℕ × List ℕ)) → HasLengthSize o → HasSize (with_length b0 b1 o)
with_length-HasSize b0 b1 none h = tt
with_length-HasSize b0 b1 (some (n, size, rest)) h = elim (Bool-cases (bit 7 b1)) [
  | inl masked ↦ rw masked (with_mask-HasSize b0 b1 n size rest h)
  | inr plain ↦ rw plain h
]

parse_frame_header-HasSize : (bytes : List ℕ) → HasSize (parse_frame_header bytes)
unfolding parse_frame_header
parse_frame_header-HasSize [] = tt
parse_frame_header-HasSize (b0 ∷ []) = tt
parse_frame_header-HasSize (b0 ∷ b1 ∷ rest) =
    with_length-HasSize b0 b1 (length_field (b1 % 128) rest)
      (length_field-HasLengthSize (b1 % 128) rest)

read_more-Falls : (c : WebSocketConnection) → Falls (left c) (read_more c)
unfolding read_more left
read_more-Falls c = any_inputs c.inputs
  where
    any_inputs :
        (is : List Input)
        → Falls (left (record c { inputs = is })) (read_more (record c { inputs = is }))
    any_inputs [] = tt
    any_inputs (failed e ∷ is) = tt
    any_inputs (received [] ∷ is) = tt
    any_inputs (received (b ∷ bs) ∷ is) = omega (arith, length-append c.read_buffer (b ∷ bs))

take_frame-Falls :
    (h : FrameHeader) (start end : ℕ) (c : WebSocketConnection)
    → 2 ≤ start
    → end ≤ length c.read_buffer
    → Falls (left c) (take_frame h start end c)
unfolding take_frame left
take_frame-Falls h start end c two fits = elim (Bool-cases (ltb end start)) [
  | inl before ↦ rw before tt
  | inr after ↦ rw after (
      handle_frame-Falls (left c) h.opcode h _ (record c { read_buffer = drop end c.read_buffer })
        (let order = ltb→le end start after in omega (arith, length-drop end c.read_buffer)))
]

with_parsed-Falls :
    (c : WebSocketConnection) (parsed : Option (ℕ × FrameHeader))
    → HasSize parsed
    → Falls (left c) (with_parsed c parsed)
with_parsed-Falls c none h = read_more-Falls c
with_parsed-Falls c (some (size, header)) h =
    elim (Bool-cases (leb (frame_end size header) (length c.read_buffer))) [
      | inl whole ↦ rw whole (
          take_frame-Falls header size (frame_end size header) c h
            (leb→le (frame_end size header) (length c.read_buffer) whole))
      | inr partial ↦ rw partial (read_more-Falls c)
    ]

if-Falls :
    (n : ℕ) (b : Bool) (r r' : Round) → Falls n r → Falls n r' → Falls n (if b then r else r')
if-Falls n true r r' h h' = h
if-Falls n false r r' h h' = h'

pub receive_step-Falls : (c : WebSocketConnection) → Falls (left c) (receive_step c)
unfolding receive_step
receive_step-Falls c =
    if-Falls (left c) c.is_open _ _
      (with_parsed-Falls c (parse_frame_header c.read_buffer)
        (parse_frame_header-HasSize c.read_buffer))
      tt

abbrev next_round : ℕ → Round → Received
next_round fuel (again c) = receive_loop fuel c
next_round fuel (returned r c) = result r c
next_round fuel thrown = exception

next_round-ne-no_fuel :
    (fuel n : ℕ) (round : Round)
    → ((c : WebSocketConnection) → left c < n → receive_loop fuel c ≢ no_fuel)
    → Falls n round
    → next_round fuel round ≢ no_fuel
next_round-ne-no_fuel fuel n (again c) ih fell = ih c fell
next_round-ne-no_fuel fuel n (returned r c) ih fell = λ e. ground arith
next_round-ne-no_fuel fuel n thrown ih fell = λ e. ground arith

receive_loop-ne-no_fuel :
    (fuel : ℕ) (c : WebSocketConnection) → left c < fuel → receive_loop fuel c ≢ no_fuel
unfolding receive_loop
receive_loop-ne-no_fuel zero c h = absurd (omega arith)
receive_loop-ne-no_fuel (suc fuel) c h =
    next_round-ne-no_fuel fuel (left c) (receive_step c)
      (λ c' fell. receive_loop-ne-no_fuel fuel c' (omega arith)) (receive_step-Falls c)

-- From any state of the connection, `receive` returns a message or an error or throws, whatever the
-- peer sends: it does not run out of fuel.
pub receive-ne-no_fuel : (c : WebSocketConnection) → receive c ≢ no_fuel
unfolding receive
receive-ne-no_fuel c = receive_loop-ne-no_fuel (suc (left c)) c (omega arith)
