-- ===== src/Http2/Connection/Sending.antt =====
-- Sending: frames, GOAWAY, and the coroutines of a stream that send a response under flow control.
use web_frame.Prelude.{
  ℕ, zero, suc, Bool, true, false, not, ◌&&◌, ◌||◌, Option, none, some, List, [], ◌∷◌, ◌++◌, map,
  min, leb, if◌then◌else◌, length, take, drop, eq_list,
}
use web_frame.Prelude.Int.{ℤ, pos, pos_part, ltb_ℤ, leb_ℤ, min_ℤ, to_int32, add32, sub32}
use web_frame.Prelude.Bytes.{codes}
use web_frame.Prelude.Text.{Text, is_empty, to_lower, to_decimal}
use web_frame.Prelude.Expected.{Expected, ok, unexpected, io, invalid_argument}
use web_frame.Core.Response.{Response}
use web_frame.Http2.Frame.{serialize_headers_frame, serialize_data_frame}
use web_frame.Http2.Hpack.{Header, Hpack}
use web_frame.Http2.Stream.{Stream, WindowWaiter, closed}
use web_frame.Http2.Connection.Socket.{send_frame, remove_stream, deref, on_stream}
use web_frame.Http2.Connection.State.{
  Http2Connection, done, no_fuel, M, pure, throw, ◌>>=◌, ◌>>◌, attempt, modify_state, with_state,
  crash,
}

-- The headers that a response has in HTTP/2: the names in lower case, without those that HTTP/2
-- forbids.
abbrev is_connection_specific : Text → Bool
is_connection_specific name =
    eq_list name (codes "connection")
    || eq_list name (codes "keep-alive")
    || eq_list name (codes "transfer-encoding")
    || eq_list name (codes "upgrade")

unfoldable pub regular_headers : List (Text × Text) → List Header
regular_headers [] = []
regular_headers ((name, value) ∷ hs) =
    let lower_name = map to_lower name in
    if is_connection_specific lower_name
    then regular_headers hs
    else record { name = lower_name; value = value } ∷ regular_headers hs

unfoldable pub has_content_length : List Header → Bool
has_content_length [] = false
has_content_length (h ∷ hs) = eq_list h.name (codes "content-length") || has_content_length hs

unfoldable pub response_headers : Response → List Header
unfolding regular_headers has_content_length
response_headers r =
    let headers =
      record { name = codes ":status"; value = to_decimal r.status } ∷ regular_headers r.headers in
    if not (has_content_length headers) && not (is_empty r.body)
    then headers
      ++ record { name = codes "content-length"; value = to_decimal (length r.body) } ∷ []
    else headers

-- How `send_data` leaves: it sent all, or it waits for the window.
pub data Progress : Type 0 where
  complete suspended : Progress

-- The inner loop of `send_data`: the size of the next chunk, or `none` if no window is open.
unfoldable pub choose_chunk : ℤ → ℤ → ℕ → Option ℕ
choose_chunk stream_window connection_window chunk_size =
    let needed = to_int32 chunk_size in
    let available = min_ℤ stream_window connection_window in
    if ltb_ℤ stream_window needed || ltb_ℤ connection_window needed
    then if ltb_ℤ (pos 0) available then some (min chunk_size (pos_part available)) else none
    else some chunk_size

-- The windows after a chunk of `n` bytes.
abbrev pub spend_stream : ℕ → Stream → Stream
spend_stream n s = record s { remote_window_size = sub32 s.remote_window_size (to_int32 n) }

abbrev pub keep_waiting : WindowWaiter → Stream → Stream
keep_waiting w s = record s { window_waiters = s.window_waiters ++ w ∷ [] }

module _ {E D : Type 0} where
  -- A chunk of the chosen size is sent, and the windows are lowered before; with no chunk the
  -- coroutine waits for one byte of window. The result is what is left to send.
  unfoldable pub send_chosen :
      ℕ → List ℕ → ℕ → Bool → Option ℕ → M (Http2Connection E D) (Option (List ℕ))
  send_chosen stream_id rest chunk_size end_stream none = do
    on_stream stream_id (
        keep_waiting (record {
          needed = pos 1;
          rest = rest;
          chunk_size = chunk_size;
          end_stream = end_stream;
        }))
    pure none
  send_chosen stream_id rest chunk_size end_stream (some n) = do
    on_stream stream_id (spend_stream n)
    modify_state λ c. record c {
      remote_window_size = add32 c.remote_window_size (sub32 (pos 0) (to_int32 n));
    }
    send_frame (serialize_data_frame stream_id (take n rest) (end_stream && leb (length rest) n))
    pure (some (drop n rest))

  -- One round of the outer loop of `send_data`, from the choice of the chunk on.
  unfoldable pub send_chunk : ℕ → List ℕ → ℕ → Bool → M (Http2Connection E D) (Option (List ℕ))
  unfolding choose_chunk send_chosen
  send_chunk stream_id rest chunk_size end_stream = do
    s ← deref stream_id
    with_state λ c.
        send_chosen stream_id rest chunk_size end_stream
          (choose_chunk s.remote_window_size c.remote_window_size chunk_size)

  abbrev pub go_on_with :
      (List ℕ → M (Http2Connection E D) Progress)
      → Option (List ℕ)
      → M (Http2Connection E D) Progress
  go_on_with k none = pure suspended
  go_on_with k (some rest) = k rest

  -- The outer loop, on fuel.
  unfoldable pub send_rest : ℕ → ℕ → List ℕ → Bool → M (Http2Connection E D) Progress
  send_rest fuel stream_id [] end_stream = pure complete
  send_rest zero stream_id (b ∷ bs) end_stream = crash no_fuel
  send_rest (suc fuel) stream_id (b ∷ bs) end_stream = with_state λ c. do
    left ←
        send_chunk stream_id (b ∷ bs) (min (length (b ∷ bs)) c.remote_settings.frame_size)
          end_stream
    go_on_with (λ rest. send_rest fuel stream_id rest end_stream) left

  unfoldable pub send_data : ℕ → List ℕ → Bool → M (Http2Connection E D) Progress
  unfolding send_rest
  send_data stream_id payload end_stream = send_rest (length payload) stream_id payload end_stream

  -- The end of `send_response`.
  unfoldable pub complete_response : ℕ → Progress → M (Http2Connection E D) Progress
  complete_response stream_id suspended = pure suspended
  complete_response stream_id complete = do
    on_stream stream_id λ s. record s { response_complete = true; state = closed }
    pure complete

  -- The end of `handle_stream_request`: whatever `send_response` returned, the stream goes.
  unfoldable pub after_response : ℕ → Expected Progress → M (Http2Connection E D) (Unit {0})
  after_response stream_id (ok suspended) = pure tt
  after_response stream_id (ok complete) = remove_stream stream_id
  after_response stream_id (unexpected e) = remove_stream stream_id

  -- `send_data` goes on in its inner loop when it is resumed, and then `send_response`.
  unfoldable pub resume_sending : ℕ → WindowWaiter → M (Http2Connection E D) Progress
  resume_sending stream_id w = do
    left ← send_chunk stream_id w.rest w.chunk_size w.end_stream
    progress ← go_on_with (λ rest. send_rest (length rest) stream_id rest w.end_stream) left
    complete_response stream_id progress

  unfoldable pub resume : ℕ → WindowWaiter → M (Http2Connection E D) (Unit {0})
  unfolding resume_sending
  resume stream_id w = do
    outcome ← attempt (resume_sending stream_id w)
    after_response stream_id outcome

  abbrev pub is_ready : WindowWaiter → Stream → Http2Connection E D → Bool
  is_ready w s c = leb_ℤ w.needed s.remote_window_size && leb_ℤ w.needed c.remote_window_size

  -- The loop of `notify_window_update` over the waiters, with those that go on waiting. The stream
  -- is used again after each resumption, and its waiters are overwritten at the end.
  unfoldable pub notify_each :
      ℕ → List WindowWaiter → List WindowWaiter → M (Http2Connection E D) (Unit {0})
  notify_each stream_id [] remaining =
      on_stream stream_id λ s. record s { window_waiters = remaining }
  notify_each stream_id (w ∷ ws) remaining = do
    s ← deref stream_id
    with_state λ c.
        if is_ready w s c
        then (do resume stream_id w; notify_each stream_id ws remaining)
        else notify_each stream_id ws (remaining ++ w ∷ [])

  unfoldable pub notify_window_update : ℕ → M (Http2Connection E D) (Unit {0})
  notify_window_update stream_id = do s ← deref stream_id; notify_each stream_id s.window_waiters []

  unfoldable pub update_remote_window : ℕ → ℤ → M (Http2Connection E D) (Unit {0})
  update_remote_window stream_id delta = do
    on_stream stream_id λ s. record s { remote_window_size = add32 s.remote_window_size delta }
    if ltb_ℤ (pos 0) delta then notify_window_update stream_id else pure tt

-- What needs the encoder.
module _ {E D : Type 0} (hpack : Hpack E D) where
  unfoldable pub send_headers : ℕ → List Header → Bool → M (Http2Connection E D) (Unit {0})
  send_headers stream_id headers end_stream = with_state λ c. do
    modify_state λ c'. record c' { encoder = (hpack.encode c.encoder headers).0 }
    block ← done (hpack.encode c.encoder headers).1
    send_frame (serialize_headers_frame stream_id block end_stream true)

  unfoldable pub send_unsent : ℕ → Response → Bool → M (Http2Connection E D) Progress
  unfolding response_headers send_headers
  send_unsent stream_id response true = throw (io invalid_argument "Response already sent")
  send_unsent stream_id response false = do
    send_headers stream_id (response_headers response) (is_empty response.body)
    on_stream stream_id λ s. record s { response_headers_sent = true }
    progress ← send_data stream_id response.body true
    complete_response stream_id progress

  unfoldable pub send_response : ℕ → Response → M (Http2Connection E D) Progress
  unfolding send_unsent
  send_response stream_id response = do
    s ← deref stream_id
    send_unsent stream_id response s.response_headers_sent
