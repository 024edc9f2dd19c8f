-- ===== src/Http2/Connection/Kept/Supply.antt =====
-- Reading moves bytes from the socket to the buffer and never adds any; a CONTINUATION frame that is
-- collected takes nine bytes at least.
use web_frame.Prelude.{
  ℕ, ◌+◌, ◌≤◌, ◌<◌, Bool, true, false, List, [], ◌∷◌, ◌++◌, leb, ltb, ◌==◌, length, drop,
  length-append, length-drop, leb→le, String, arith, Bool-cases, inl, inr,
}
use web_frame.Prelude.Expected.{Expected, ok, unexpected}
use web_frame.Http2.Frame.{FrameHeader}
use web_frame.Http2.Connection.State.{Http2Connection, Read, chunk, broken, incoming_bytes, supply}
use web_frame.Http2.Connection.Socket.{fill, fill_from}
use web_frame.Http2.Connection.Handlers.{go_away}
use web_frame.Http2.Connection.Headers.{
  check_filled, need, collect, check_next, check_continuation, next_fragment,
}
use web_frame.Http2.Connection.Keeps.{Gives, OnOk, Gives-bind, Gives-after, Gives-attempt}

module _ {E D : Type 0} where
  -- At most `m` bytes are left, and the buffer has `n` if that is what the read said.
  abbrev pub Filled : ℕ → ℕ → Bool → Http2Connection E D → Type 0
  Filled n m true c = (n ≤ length c.read_buffer) × (supply c ≤ m)
  Filled n m false c = supply c ≤ m

  fill_from-Filled :
      (reads : List Read) (n m : ℕ) (c : Http2Connection E D)
      → length c.read_buffer + incoming_bytes reads ≤ m
      → Gives (Filled n m) (fill_from reads n c)
  unfolding fill_from supply
  fill_from-Filled [] n m c h = elim (Bool-cases (leb n (length c.read_buffer))) [
    | inl enough ↦ rw enough (leb→le n (length c.read_buffer) enough, h)
    | inr short ↦ rw short h
  ]
  fill_from-Filled (chunk [] ∷ reads) n m c h = elim (Bool-cases (leb n (length c.read_buffer))) [
    | inl enough ↦ rw enough (leb→le n (length c.read_buffer) enough, h)
    | inr short ↦ rw short (omega arith)
  ]
  fill_from-Filled (chunk (b ∷ bs) ∷ reads) n m c h =
      elim (Bool-cases (leb n (length c.read_buffer))) [
        | inl enough ↦ rw enough (leb→le n (length c.read_buffer) enough, h)
        | inr short ↦ rw short (
            fill_from-Filled reads n m (record c { read_buffer = c.read_buffer ++ b ∷ bs })
              (omega (arith, length-append c.read_buffer (b ∷ bs))))
      ]
  fill_from-Filled (broken e ∷ reads) n m c h = elim (Bool-cases (leb n (length c.read_buffer))) [
    | inl enough ↦ rw enough (leb→le n (length c.read_buffer) enough, h)
    | inr short ↦ rw short tt
  ]

  pub fill-Filled :
      (n m : ℕ) (c : Http2Connection E D) → supply c ≤ m → Gives (Filled n m) (fill n c)
  unfolding fill supply
  fill-Filled n m c h = fill_from-Filled c.incoming n m c h

  go_away-Gives :
      {A : Type 0} (R : A → Http2Connection E D → Type 0) (code : _) (message : String) (error : _)
      (c : Http2Connection E D)
      → Gives R (go_away code message error c)
  unfolding go_away
  go_away-Gives R code message error c = Gives-after R _ _ c λ _ _. tt

  -- Enough is read, or the connection ends.
  abbrev Needed : ℕ → ℕ → Unit {0} → Http2Connection E D → Type 0
  Needed n m u c = (n ≤ length c.read_buffer) × (supply c ≤ m)

  check_filled-Needed :
      (n m : ℕ) (message : String) (enough : Expected Bool) (c : Http2Connection E D)
      → OnOk (Filled n m) enough c
      → Gives (Needed n m) (check_filled message enough c)
  unfolding check_filled
  check_filled-Needed n m message (ok true) c h = h
  check_filled-Needed n m message (ok false) c h = go_away-Gives (Needed n m) _ _ _ c
  check_filled-Needed n m message (unexpected e) c h = go_away-Gives (Needed n m) _ _ _ c

  need-Needed :
      (n m : ℕ) (message : String) (c : Http2Connection E D)
      → supply c ≤ m
      → Gives (Needed n m) (need n message c)
  unfolding need
  need-Needed n m message c h =
      Gives-bind (OnOk (Filled n m)) (Needed n m) _ _ c
        (Gives-attempt (Filled n m) (fill n) c (fill-Filled n m c h))
        (check_filled-Needed n m message)

  -- Fewer bytes are left than before.
  abbrev pub Falls : ℕ → List ℕ × Bool → Http2Connection E D → Type 0
  Falls m round c = supply c < m

  supply-drop :
      (n m : ℕ) (c : Http2Connection E D)
      → 1 ≤ n
      → n ≤ length c.read_buffer
      → supply c ≤ m
      → supply (record c { read_buffer = drop n c.read_buffer }) < m
  unfolding supply
  supply-drop n m c one h k = omega (arith, length-drop n c.read_buffer)

  collect-Falls :
      (next : FrameHeader) (block : List ℕ) (m : ℕ) (c : Http2Connection E D)
      → supply c ≤ m
      → Gives (Falls m) (collect next block c)
  unfolding collect
  collect-Falls next block m c h =
      Gives-bind (Needed (9 + next.length) m) (Falls m) _ _ c
        (need-Needed (9 + next.length) m _ c h)
        λ u c' (enough, left).
          Gives-bind (λ _ s. supply s < m) (Falls m) _ _ c'
            (supply-drop (9 + next.length) m c' (omega arith) enough left) λ _ s fell. fell

  check_next-Falls :
      (header : FrameHeader) (block : List ℕ) (next : FrameHeader) (continues : Bool) (m : ℕ)
      (c : Http2Connection E D)
      → supply c ≤ m
      → Gives (Falls m) (check_next header block next continues c)
  unfolding check_next
  check_next-Falls header block next false m c h = go_away-Gives (Falls m) _ _ _ c
  check_next-Falls header block next true m c h =
      elim (Bool-cases (next.stream_id == header.stream_id)) [
        | inr other ↦ rw other (go_away-Gives (Falls m) _ _ _ c)
        | inl same ↦
            elim (Bool-cases (ltb c.local_settings.header_list_size (length block + next.length))) [
              | inl large ↦ rw (same, large) (go_away-Gives (Falls m) _ _ _ c)
              | inr fits ↦ rw (same, fits) (collect-Falls next block m c h)
            ]
      ]

  check_continuation-Falls :
      (header : FrameHeader) (block : List ℕ) (next : Expected FrameHeader) (m : ℕ)
      (c : Http2Connection E D)
      → supply c ≤ m
      → Gives (Falls m) (check_continuation header block next c)
  unfolding check_continuation
  check_continuation-Falls header block (unexpected e) m c h = go_away-Gives (Falls m) _ _ _ c
  check_continuation-Falls header block (ok next) m c h = check_next-Falls header block next _ m c h

  pub next_fragment-Falls :
      (header : FrameHeader) (block : List ℕ) (m : ℕ) (c : Http2Connection E D)
      → supply c ≤ m
      → Gives (Falls m) (next_fragment header block c)
  unfolding next_fragment
  next_fragment-Falls header block m c h =
      Gives-bind (Needed 9 m) (Falls m) _ _ c (need-Needed 9 m _ c h)
        λ u c' (enough, left). check_continuation-Falls header block _ m c' left
