-- ===== src/Http2/Connection/Kept/Sending.antt =====
-- The coroutines that send a response keep what the writes to the stream map keep.
use web_frame.Prelude.{
  ℕ, zero, suc, Bool, true, false, Option, none, some, List, [], ◌∷◌, ◌++◌, length, length-drop,
  drop, min, ◌≤◌, ◌<◌, arith,
}
use web_frame.Prelude.Int.{ℤ, pos, ltb_ℤ}
use web_frame.Prelude.Dict.{nat_eq}
use web_frame.Prelude.Expected.{Expected, ok, unexpected}
use web_frame.Core.Response.{Response}
use web_frame.Http2.Hpack.{Header, Hpack}
use web_frame.Http2.Stream.{WindowWaiter}
use web_frame.Http2.Connection.State.{Http2Connection, M}
use web_frame.Http2.Connection.Sending.{
  Progress, complete, suspended, choose_chunk, send_chosen, send_chunk, go_on_with, send_rest,
  send_data, complete_response, after_response, resume_sending, resume, notify_each,
  notify_window_update, update_remote_window, send_headers, send_unsent, send_response,
}
use web_frame.Http2.Connection.Keeps.{
  Holds, Gives, Gives-after, Holds-bind_Gives, Keeps, Keeps-bind, Keeps-then, Keeps-attempt,
  Keeps-if,
}
use web_frame.Http2.Connection.Kept.{
  Shape, Kept, P, send_frame-kept, deref-kept, on_stream-kept, remove_stream-kept,
}

-- A chunk that is chosen is not empty.
abbrev IsChunk : Option ℕ → Type 0
IsChunk none = Unit
IsChunk (some n) = 1 ≤ n

choose_chunk-IsChunk :
    (stream_window connection_window : ℤ) (chunk_size : ℕ)
    → 1 ≤ chunk_size
    → IsChunk (choose_chunk stream_window connection_window chunk_size)
unfolding choose_chunk
choose_chunk-IsChunk stream_window connection_window chunk_size h = ground arith

module _ {E D : Type 0} {Inv : Shape} (kept : Kept Inv) where
  abbrev pub Q : Http2Connection E D → Type 0
  Q = P kept

  send_chosen-kept :
      (id : ℕ) (rest : List ℕ) (size : ℕ) (end_stream : Bool) (n : Option ℕ)
      → Keeps Q (send_chosen id rest size end_stream n)
  unfolding send_chosen
  send_chosen-kept id rest size end_stream none =
      Keeps-bind _ _ (on_stream-kept kept id _) λ _ c p. p
  send_chosen-kept id rest size end_stream (some n) =
      Keeps-then _ _ (on_stream-kept kept id _)
        (Keeps-then _ _ (λ c p. p) (Keeps-then _ _ (send_frame-kept kept _) λ c p. p))

  send_chunk-kept :
      (id : ℕ) (rest : List ℕ) (size : ℕ) (end_stream : Bool)
      → Keeps Q (send_chunk id rest size end_stream)
  unfolding send_chunk
  send_chunk-kept id rest size end_stream =
      Keeps-bind _ _ (deref-kept kept id) λ s c. send_chosen-kept id rest size end_stream _ c

  -- What is left after a chunk is shorter, as chunks are not empty.
  Shorter : List ℕ → Option (List ℕ) → Http2Connection E D → Type 0
  Shorter rest none c = Unit
  Shorter rest (some left) c = length left < length rest

  send_chosen-Shorter :
      (id : ℕ) (rest : List ℕ) (size : ℕ) (end_stream : Bool) (n : Option ℕ)
      (c : Http2Connection E D)
      → IsChunk n
      → 1 ≤ length rest
      → Gives (Shorter rest) (send_chosen id rest size end_stream n c)
  unfolding send_chosen Shorter
  send_chosen-Shorter id rest size end_stream none c h l =
      Gives-after (Shorter rest) _ _ c λ _ c'. tt
  send_chosen-Shorter id rest size end_stream (some n) c h l =
      let shorter : length (drop n rest) < length rest = omega (arith, length-drop n rest) in
      Gives-after (Shorter rest) _ _ c λ _ c₁.
        Gives-after (Shorter rest) _ _ c₁ λ _ c₂. Gives-after (Shorter rest) _ _ c₂ λ _ c₃. shorter

  send_chunk-Shorter :
      (id : ℕ) (rest : List ℕ) (size : ℕ) (end_stream : Bool) (c : Http2Connection E D)
      → 1 ≤ size
      → 1 ≤ length rest
      → Gives (Shorter rest) (send_chunk id rest size end_stream c)
  unfolding send_chunk
  send_chunk-Shorter id rest size end_stream c h l = Gives-after (Shorter rest) _ _ c λ s c'.
      send_chosen-Shorter id rest size end_stream _ c'
        (choose_chunk-IsChunk s.remote_window_size c'.remote_window_size size h) l

  go_on_with-Shorter :
      (k : List ℕ → M (Http2Connection E D) Progress) (rest : List ℕ)
      → ((left : List ℕ) → length left < length rest → Keeps Q (k left))
      → (left : Option (List ℕ)) (c : Http2Connection E D) → Q c
      → Shorter rest left c
      → Holds Q (go_on_with k left c)
  unfolding Shorter
  go_on_with-Shorter k rest h none c p s = p
  go_on_with-Shorter k rest h (some left) c p s = h left s c p

  -- The loop does not run out of fuel: the peer's frame size is not zero.
  send_rest-kept :
      (fuel id : ℕ) (rest : List ℕ) (end_stream : Bool)
      → length rest ≤ fuel
      → Keeps Q (send_rest fuel id rest end_stream)
  unfolding send_rest Shorter
  send_rest-kept fuel id [] end_stream h = λ c p. p
  send_rest-kept zero id (b ∷ bs) end_stream h = λ c p. absurd (omega arith)
  send_rest-kept (suc fuel) id (b ∷ bs) end_stream h = λ c p.
      let size = min (length (b ∷ bs)) c.remote_settings.frame_size in
      let bound = kept.size_bound _ _ _ _ _ _ _ p in
      Holds-bind_Gives (Shorter (b ∷ bs)) _ _ c (send_chunk-kept id (b ∷ bs) size end_stream c p)
        (send_chunk-Shorter id (b ∷ bs) size end_stream c (omega arith) (omega arith))
        (go_on_with-Shorter _ (b ∷ bs)
          λ rest l. send_rest-kept fuel id rest end_stream (omega arith))

  pub send_data-kept :
      (id : ℕ) (body : List ℕ) (end_stream : Bool) → Keeps Q (send_data id body end_stream)
  unfolding send_data
  send_data-kept id body end_stream = send_rest-kept (length body) id body end_stream (omega arith)

  go_on_with-kept :
      (id : ℕ) (end_stream : Bool) (left : Option (List ℕ))
      → Keeps Q (go_on_with (λ rest. send_rest (length rest) id rest end_stream) left)
  go_on_with-kept id end_stream none = λ c p. p
  go_on_with-kept id end_stream (some rest) =
      send_rest-kept (length rest) id rest end_stream (omega arith)

  complete_response-kept : (id : ℕ) (progress : Progress) → Keeps Q (complete_response id progress)
  unfolding complete_response
  complete_response-kept id suspended = λ c p. p
  complete_response-kept id complete = Keeps-bind _ _ (on_stream-kept kept id _) λ _ c p. p

  pub after_response-kept :
      (id : ℕ) (outcome : Expected Progress) → Keeps Q (after_response id outcome)
  unfolding after_response
  after_response-kept id (ok suspended) = λ c p. p
  after_response-kept id (ok complete) = remove_stream-kept kept id
  after_response-kept id (unexpected e) = remove_stream-kept kept id

  resume_sending-kept : (id : ℕ) (w : WindowWaiter) → Keeps Q (resume_sending id w)
  unfolding resume_sending
  resume_sending-kept id w =
      Keeps-bind _ _ (send_chunk-kept id w.rest w.chunk_size w.end_stream)
        λ left. Keeps-bind _ _ (go_on_with-kept id w.end_stream left) (complete_response-kept id)

  resume-kept : (id : ℕ) (w : WindowWaiter) → Keeps Q (resume id w)
  unfolding resume
  resume-kept id w =
      Keeps-bind _ _ (Keeps-attempt _ (resume_sending-kept id w)) (after_response-kept id)

  notify_each-kept :
      (id : ℕ) (ws remaining : List WindowWaiter) → Keeps Q (notify_each id ws remaining)
  unfolding notify_each
  notify_each-kept id [] remaining = on_stream-kept kept id _
  notify_each-kept id (w ∷ ws) remaining = Keeps-bind _ _ (deref-kept kept id) λ s c.
      Keeps-if _ _ _ (Keeps-then _ _ (resume-kept id w) (notify_each-kept id ws remaining))
        (notify_each-kept id ws (remaining ++ w ∷ [])) c

  pub notify_window_update-kept : (id : ℕ) → Keeps Q (notify_window_update id)
  unfolding notify_window_update
  notify_window_update-kept id =
      Keeps-bind _ _ (deref-kept kept id) λ s. notify_each-kept id s.window_waiters []

  pub update_remote_window-kept : (id : ℕ) (delta : ℤ) → Keeps Q (update_remote_window id delta)
  unfolding update_remote_window
  update_remote_window-kept id delta =
      Keeps-bind _ _ (on_stream-kept kept id _)
        λ _. Keeps-if (ltb_ℤ (pos 0) delta) _ _ (notify_window_update-kept id) λ c p. p

  module _ (hpack : Hpack E D) where
    send_headers-kept :
        (id : ℕ) (hs : List Header) (end_stream : Bool)
        → Keeps Q (send_headers hpack id hs end_stream)
    unfolding send_headers
    send_headers-kept id hs end_stream c =
        Keeps-then _ _ (λ c' p. p) (Keeps-bind _ _ (λ c' p. p) λ block. send_frame-kept kept _) c

    send_unsent-kept :
        (id : ℕ) (response : Response) (sent : Bool) → Keeps Q (send_unsent hpack id response sent)
    unfolding send_unsent
    send_unsent-kept id response true = λ c p. p
    send_unsent-kept id response false = Keeps-then _ _ (send_headers-kept id _ _) (
        Keeps-then _ _ (on_stream-kept kept id _)
          (Keeps-bind _ _ (send_data-kept id response.body true) (complete_response-kept id)))

    pub send_response-kept :
        (id : ℕ) (response : Response) → Keeps Q (send_response hpack id response)
    unfolding send_response
    send_response-kept id response =
        Keeps-bind _ _ (deref-kept kept id)
          λ s. send_unsent-kept id response s.response_headers_sent
