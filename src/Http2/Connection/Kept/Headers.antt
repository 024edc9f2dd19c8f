-- ===== src/Http2/Connection/Kept/Headers.antt =====
-- HEADERS and CONTINUATION keep what the writes to the stream map keep.
use web_frame.Prelude.{
  ℕ, zero, suc, ◌+◌, ◌<◌, arith, Bool, true, false, Option, none, some, List, length, leb, ltb,
  ◌==◌, String, Bool-cases, inl, inr, not,
}
use web_frame.Prelude.Expected.{Expected, ok, unexpected}
use web_frame.Http2.Frame.{FrameHeader}
use web_frame.Http2.Hpack.{Header, Hpack}
use web_frame.Http2.Stream.{Stream}
use web_frame.Http2.Connection.State.{supply, Http2Connection, with_state}
use web_frame.Http2.Connection.Headers.{
  deliver_headers, check_filled, need, collect, check_next, check_continuation, next_fragment,
  accept_headers, with_decoded, decode_headers, continue_headers, with_block, process_headers_frame,
}
use web_frame.Http2.Connection.Keeps.{
  Holds, Holds-bind_Gives, Keeps, Keeps-bind, Keeps-then, Holds-bind, Keeps-attempt, Keeps-if,
}
use web_frame.Http2.Connection.Kept.{Shape, Kept, P, fill-kept, get_stream-kept, on_stream-kept}
use web_frame.Http2.Connection.Kept.Supply.{Falls, next_fragment-Falls}
use web_frame.Http2.Connection.Kept.Data.{
  go_away-kept, send_rst_stream-kept, start_if_complete-kept, admit_stream-kept,
}

module _ {E D : Type 0} {Inv : Shape} (kept : Kept Inv) where
  abbrev H : Http2Connection E D → Type 0
  H = P kept

  deliver_headers-kept :
      (header : FrameHeader) (hs : List Header) (found : Option Stream)
      → Keeps H (deliver_headers header hs found)
  unfolding deliver_headers
  deliver_headers-kept header hs (some s) =
      Keeps-bind _ _ (on_stream-kept kept header.stream_id _)
        λ _. start_if_complete-kept kept header.stream_id
  deliver_headers-kept header hs none = λ c p.
      elim (Bool-cases (leb header.stream_id c.last_stream_id)) [
        | inl old ↦ rw (with_state, old) (go_away-kept kept _ _ _ _ c p)
        | inr new ↦ elim (Bool-cases (leb c.local_settings.concurrent_streams c.active_streams)) [
          | inl full ↦ rw (with_state, new, full) (send_rst_stream-kept kept _ _ c p)
          | inr free ↦
              rw (with_state, new, free)
                (Holds-bind _ _ c (admit_stream-kept kept header.stream_id c new free p) λ _.
                  Keeps-then _ _ (on_stream-kept kept header.stream_id _)
                    (start_if_complete-kept kept header.stream_id))
        ]
      ]

  check_filled-kept :
      (message : String) (enough : Expected Bool) → Keeps H (check_filled message enough)
  unfolding check_filled
  check_filled-kept message (ok true) = λ c p. p
  check_filled-kept message (ok false) = go_away-kept kept _ _ _ _
  check_filled-kept message (unexpected e) = go_away-kept kept _ _ _ _

  need-kept : (n : ℕ) (message : String) → Keeps H (need n message)
  unfolding need
  need-kept n message =
      Keeps-bind _ _ (Keeps-attempt _ (fill-kept kept n)) (check_filled-kept message)

  collect-kept : (next : FrameHeader) (block : List ℕ) → Keeps H (collect next block)
  unfolding collect
  collect-kept next block =
      Keeps-bind _ _ (need-kept _ _)
        λ _ c p. Holds-bind _ _ c (kept.drop_kept (9 + next.length) _ _ _ _ _ _ _ p) λ _ c' p'. p'

  check_next-kept :
      (header : FrameHeader) (block : List ℕ) (next : FrameHeader) (continues : Bool)
      → Keeps H (check_next header block next continues)
  unfolding check_next
  check_next-kept header block next false = go_away-kept kept _ _ _ _
  check_next-kept header block next true = λ c.
      Keeps-if (not (next.stream_id == header.stream_id)) _ _ (go_away-kept kept _ _ _ _)
        (Keeps-if (ltb c.local_settings.header_list_size (length block + next.length)) _ _
          (go_away-kept kept _ _ _ _) (collect-kept next block))
        c

  check_continuation-kept :
      (header : FrameHeader) (block : List ℕ) (next : Expected FrameHeader)
      → Keeps H (check_continuation header block next)
  unfolding check_continuation
  check_continuation-kept header block (unexpected e) = go_away-kept kept _ _ _ _
  check_continuation-kept header block (ok next) = check_next-kept header block next _

  next_fragment-kept :
      (header : FrameHeader) (block : List ℕ) → Keeps H (next_fragment header block)
  unfolding next_fragment
  next_fragment-kept header block =
      Keeps-bind _ _ (need-kept _ _) λ _ c. check_continuation-kept header block _ c

  module _ (hpack : Hpack E D) where
    accept_headers-kept :
        (header : FrameHeader) (hs : List Header) → Keeps H (accept_headers hpack header hs)
    unfolding accept_headers
    accept_headers-kept header hs =
        Keeps-if _ _ _
          (Keeps-bind _ _ (get_stream-kept kept header.stream_id) (deliver_headers-kept header hs))
          (send_rst_stream-kept kept _ _)

    with_decoded-kept :
        (header : FrameHeader) (hs : Expected (List Header))
        → Keeps H (with_decoded hpack header hs)
    unfolding with_decoded
    with_decoded-kept header (unexpected e) = go_away-kept kept _ _ _ _
    with_decoded-kept header (ok hs) = accept_headers-kept header hs

    decode_headers-kept :
        (header : FrameHeader) (block : List ℕ) → Keeps H (decode_headers hpack header block)
    unfolding decode_headers
    decode_headers-kept header block c =
        Keeps-bind _ _ (λ c' p. p) (λ _. with_decoded-kept header _) c

    -- Each round takes bytes, so the loop ends before its fuel does.
    continue_headers-kept :
        (fuel : ℕ) (header : FrameHeader) (block : List ℕ) (c : Http2Connection E D)
        → supply c < fuel
        → H c
        → Holds H (continue_headers hpack fuel header block c)
    unfolding continue_headers
    continue_headers-kept zero header block c h p = absurd (omega arith)
    continue_headers-kept (suc fuel) header block c h p =
        Holds-bind_Gives (Falls fuel) _ _ c (next_fragment-kept header block c p)
          (next_fragment-Falls header block fuel c (omega arith))
          λ round c' p' fell. elim (Bool-cases round.1) [
            | inl ended ↦ rw ended (decode_headers-kept header round.0 c' p')
            | inr open_still ↦ rw open_still (continue_headers-kept fuel header round.0 c' fell p')
          ]

    with_block-kept :
        (header : FrameHeader) (block : Option (List ℕ)) → Keeps H (with_block hpack header block)
    unfolding with_block
    with_block-kept header none = go_away-kept kept _ _ _ _
    with_block-kept header (some block) =
        Keeps-if _ _ _ (decode_headers-kept header block)
          λ c p. continue_headers-kept (suc (supply c)) header block c (omega arith) p

    pub process_headers_frame-kept :
        (header : FrameHeader) (payload : List ℕ)
        → Keeps H (process_headers_frame hpack header payload)
    unfolding process_headers_frame
    process_headers_frame-kept header payload =
        Keeps-if _ _ _ (go_away-kept kept _ _ _ _) (with_block-kept header _)
