-- ===== src/Http2/Connection/Kept/Rounds.antt =====
-- A round of the main loop that goes on takes bytes from what is left to read, so `run` ends before its
-- fuel does, and keeps what every round keeps.
use web_frame.Prelude.{
  ℕ, zero, suc, ◌+◌, ◌≤◌, ◌<◌, ◌⊎◌, inr, Bool, true, false, List, ◌∷◌, length, length-append,
  length-drop, arith,
}
use web_frame.Prelude.Expected.{Expected, ok, unexpected}
use web_frame.Http2.Frame.{FrameHeader, parse}
use web_frame.Http2.Hpack.{Hpack}
use web_frame.Http2.Connection.State.{
  Http2Connection, Read, chunk, broken, incoming_bytes, supply, M,
}
use web_frame.Http2.Connection.Socket.{fill}
use web_frame.Http2.Connection.Keeps.{
  Gives-and, Holds, Keeps, Keeps-then, Gives, OnOk, Gives-bind, Gives-after, Gives-attempt,
  Holds-Gives, Holds-bind_Gives,
}
use web_frame.Http2.Connection.Kept.{Shape, Kept, P, Of, fill-kept}
use web_frame.Http2.Connection.Kept.Supply.{Filled, fill-Filled}
use web_frame.Http2.Connection.Kept.Loop.{process_frame-kept, run_step-kept, exchange_prefaces-kept}
use web_frame.Http2.Connection.Loop.{
  Next, go_on, stop, process_frame, remove_processed, process_buffered, with_payload, with_size,
  with_header, with_nine, round, run_step, run_loop, run, after_step,
}

-- Fewer than `n` bytes are left, or `n` of which one is in the buffer.
abbrev Buffered : ℕ → Shape
Buffered n streams active last limit size buffer reads =
    (16384 ≤ size)
    × ((length buffer + incoming_bytes reads < n)
        ⊎ ((length buffer + incoming_bytes reads ≤ n) × (1 ≤ length buffer)))

incoming_bytes-cons :
    (r : Read) (reads : List Read) → incoming_bytes reads ≤ incoming_bytes (r ∷ reads)
incoming_bytes-cons (chunk bs) reads = omega arith
incoming_bytes-cons (broken e) reads = omega arith

-- The peer's frame size is in range.
abbrev pub Sized : Shape
Sized streams active last limit size buffer reads = 16384 ≤ size

pub Sized-Kept : Kept Sized
Sized-Kept = record {
  modify_kept = λ id f streams active last limit size buffer reads h. h;
  erase_kept = λ id s streams active last limit size buffer reads found h. h;
  admit_kept = λ id s streams active last limit size buffer reads new free h. h;
  size_kept = λ value streams active last limit size buffer reads range h. range;
  size_bound = λ streams active last limit size buffer reads h. h;
  chunk_kept = λ bs streams active last limit size buffer reads h. h;
  read_kept = λ r streams active last limit size buffer reads h. h;
  drop_kept = λ k streams active last limit size buffer reads h. h;
}

Buffered-Kept : (n : ℕ) → Kept (Buffered n)
Buffered-Kept n = record {
  modify_kept = λ id f streams active last limit size buffer reads h. h;
  erase_kept = λ id s streams active last limit size buffer reads found h. h;
  admit_kept = λ id s streams active last limit size buffer reads new free h. h;
  size_kept = λ value streams active last limit size buffer reads range (bound, h). (range, h);
  size_bound = λ streams active last limit size buffer reads (bound, h). bound;
  chunk_kept = λ bs streams active last limit size buffer reads (bound, h).
      let l = length-append buffer bs in (bound, ground arith);
  read_kept = λ r streams active last limit size buffer reads (bound, h).
      let l = incoming_bytes-cons r reads in (bound, ground arith);
  drop_kept = λ k streams active last limit size buffer reads (bound, h).
      let l = length-drop k buffer in (bound, ground arith);
}

-- What a round leaves to read, if the loop goes on.
abbrev pub Shrinks : {E D : Type 0} → ℕ → Next → Http2Connection E D → Type 0
Shrinks n stop c = Unit
Shrinks n go_on c = supply c < n

module _ {E D : Type 0} (hpack : Hpack E D) where
  -- What a read of up to `m` bytes gives where `n` are left.
  abbrev AfterRead : ℕ → ℕ → Bool → Http2Connection E D → Type 0
  AfterRead m n enough c = Filled m n enough c × Of Sized c

  fill-AfterRead :
      (m n : ℕ) (c : Http2Connection E D)
      → supply c ≤ n
      → Of Sized c
      → Gives (AfterRead m n) (fill m c)
  fill-AfterRead m n c h k =
      Gives-and (Filled m n) (λ _ c'. Of Sized c') (fill m) c (fill-Filled m n c h)
        (Holds-Gives (Of Sized) (fill m) c (fill-kept Sized-Kept m c k))

  remove_processed-Shrinks :
      (n : ℕ) (header : FrameHeader) (result : Expected (Unit {0})) (c : Http2Connection E D)
      → OnOk (λ _ c'. Of (Buffered n) c') result c
      → Gives (Shrinks n) (remove_processed hpack header result c)
  unfolding remove_processed supply
  remove_processed-Shrinks n header (unexpected e) c h = tt
  remove_processed-Shrinks n header (ok u) c (bound, h) =
      let l = length-drop (9 + header.length) c.read_buffer in ground arith

  process_buffered-Shrinks :
      (n : ℕ) (header : FrameHeader) (c : Http2Connection E D)
      → Of (Buffered n) c
      → Gives (Shrinks n) (process_buffered hpack header c)
  unfolding process_buffered
  process_buffered-Shrinks n header c h =
      Gives-bind (OnOk (λ _ c'. Of (Buffered n) c')) (Shrinks n) _ _ c
        (Gives-attempt (λ _ c'. Of (Buffered n) c') (process_frame hpack header _) c
          (Holds-Gives (Of (Buffered n)) (process_frame hpack header _) c
            (process_frame-kept (Buffered-Kept n) hpack header _ c h)))
        (remove_processed-Shrinks n header)

  with_payload-Shrinks :
      (m n : ℕ) (header : FrameHeader) (whole : Expected Bool) (c : Http2Connection E D)
      → 1 ≤ m
      → OnOk (AfterRead m n) whole c
      → Gives (Shrinks n) (with_payload hpack header whole c)
  unfolding with_payload supply
  with_payload-Shrinks m n header (unexpected e) c one h = tt
  with_payload-Shrinks m n header (ok false) c one h = tt
  with_payload-Shrinks m n header (ok true) c one ((enough, left), bound) =
      process_buffered-Shrinks n header c (bound, inr (left, omega arith))

  with_size-Shrinks :
      (n : ℕ) (header : FrameHeader) (too_large : Bool) (c : Http2Connection E D)
      → supply c ≤ n
      → Of Sized c
      → Gives (Shrinks n) (with_size hpack header too_large c)
  unfolding with_size
  with_size-Shrinks n header true c h k = Gives-after (Shrinks n) _ _ c λ _ c'. tt
  with_size-Shrinks n header false c h k =
      Gives-bind (OnOk (AfterRead (9 + header.length) n)) (Shrinks n) _ _ c
        (Gives-attempt (AfterRead (9 + header.length) n) (fill (9 + header.length)) c
          (fill-AfterRead (9 + header.length) n c h k))
        λ whole c' r. with_payload-Shrinks (9 + header.length) n header whole c' (omega arith) r

  with_header-Shrinks :
      (n : ℕ) (header : Expected FrameHeader) (c : Http2Connection E D)
      → supply c ≤ n
      → Of Sized c
      → Gives (Shrinks n) (with_header hpack header c)
  unfolding with_header
  with_header-Shrinks n (unexpected e) c h k = Gives-after (Shrinks n) _ _ c λ _ c'. tt
  with_header-Shrinks n (ok header) c h k = with_size-Shrinks n header _ c h k

  with_nine-Shrinks :
      (n : ℕ) (enough : Expected Bool) (c : Http2Connection E D)
      → OnOk (AfterRead 9 n) enough c
      → Gives (Shrinks n) (with_nine hpack enough c)
  unfolding with_nine
  with_nine-Shrinks n (unexpected e) c h = tt
  with_nine-Shrinks n (ok false) c h = tt
  with_nine-Shrinks n (ok true) c ((enough, left), bound) =
      with_header-Shrinks n (parse c.read_buffer) c left bound

  round-Shrinks :
      (n : ℕ) (is_open : Bool) (c : Http2Connection E D)
      → supply c ≤ n
      → Of Sized c
      → Gives (Shrinks n) (round hpack is_open c)
  unfolding round
  round-Shrinks n false c h k = tt
  round-Shrinks n true c h k =
      Gives-bind (OnOk (AfterRead 9 n)) (Shrinks n) _ _ c
        (Gives-attempt (AfterRead 9 n) (fill 9) c (fill-AfterRead 9 n c h k)) (with_nine-Shrinks n)

  -- A round that goes on leaves fewer bytes to read than there were.
  pub run_step-Shrinks :
      (c : Http2Connection E D) → Of Sized c → Gives (Shrinks (supply c)) (run_step hpack c)
  unfolding run_step
  run_step-Shrinks c k = round-Shrinks (supply c) c.is_open c (omega arith) k

module _ {E D : Type 0} {Inv : Shape} (kept : Kept Inv) (hpack : Hpack E D) where
  abbrev R : Http2Connection E D → Type 0
  R = P kept

  after_step-kept :
      (k : M (Http2Connection E D) (Unit {0})) (n : ℕ)
      → ((c : Http2Connection E D) → supply c < n → R c → Holds R (k c))
      → (next : Next) (c : Http2Connection E D) → R c
      → Shrinks n next c
      → Holds R (after_step hpack k next c)
  after_step-kept k n h stop c p s = p
  after_step-kept k n h go_on c p s = h c s p

  -- The loop with more fuel than bytes that are left.
  run_loop-kept :
      (fuel : ℕ) (c : Http2Connection E D) → supply c < fuel → R c → Holds R (run_loop hpack fuel c)
  unfolding run_loop
  run_loop-kept zero c h p = absurd (omega arith)
  run_loop-kept (suc fuel) c h p =
      Holds-bind_Gives (Shrinks (supply c)) _ _ c (run_step-kept kept hpack c p)
        (run_step-Shrinks hpack c (kept.size_bound _ _ _ _ _ _ _ p))
        (after_step-kept (run_loop hpack fuel) (supply c)
          λ c' fell p'. run_loop-kept fuel c' (omega arith) p')

  pub run-kept : Keeps R (run hpack)
  unfolding run
  run-kept =
      Keeps-then _ _ (exchange_prefaces-kept kept hpack)
        λ c p. run_loop-kept (suc (supply c)) c (omega arith) p
