-- ===== src/Http2/Connection/Kept.antt =====
-- Every step of a connection keeps a property that the writes to the stream map, the peer's frame
-- size and the read buffer keep: writing through a `Stream*`, removing a stream, admitting a stream
-- under its guards, a frame size in range, reads, and bytes that leave the buffer.
pub mod Sending
pub mod Data
pub mod Supply
pub mod Headers
pub mod Control
pub mod Loop
pub mod Rounds
use web_frame.Prelude.{
  ℕ, zero, suc, ◌+◌, ◌-◌, ◌%◌, ◌^◌, ◌<◌, ◌≤◌, ◌≡◌, refl, Bool, true, false, Option, none, some,
  List, [], ◌∷◌, if◌then◌else◌, arith, Bool-cases, inl, inr,
}
use web_frame.Prelude.Dict.{nat_eq, find, modify, erase, insert}
use web_frame.Prelude.Expected.{Expected, ok, unexpected, Error}
use web_frame.Prelude.{drop, ◌++◌, leb, length, Option-cases}
use web_frame.Prelude.Text.{Text}
use web_frame.Http2.Frame.{serialize_goaway_frame}
use web_frame.Http2.Frame.Codes.{ErrorCode}
use web_frame.Http2.Stream.{Stream}
use web_frame.Http2.Connection.State.{
  Http2Connection, Read, chunk, broken, Run, done, stuck, Fault, M, pure, throw, ◌>>=◌, ◌>>◌,
  attempt, with_state, modify_state, crash,
}
use web_frame.Http2.Connection.Socket.{
  send_frame, send_goaway, fill, fill_from, get_stream, remove_stream, deref, on_stream,
}
use web_frame.Http2.Connection.Keeps.{
  Holds, Keeps, Keeps-bind, Keeps-attempt, Keeps-with_state, Keeps-if,
}

-- A property of the stream map, `active_streams_`, `last_stream_id_`, the limit on streams, the
-- peer's frame size, the read buffer and what the socket will give.
abbrev pub Shape : Type 1
Shape = List (ℕ × Stream) → ℕ → ℕ → ℕ → ℕ → List ℕ → List Read → Type 0

-- The laws that let every step keep it, and keep its loops going.
pub record Kept (Inv : Shape) : Type 0 where
  pub modify_kept :
      (id : ℕ) (f : Stream → Stream) (streams : List (ℕ × Stream)) (active last limit size : ℕ)
      (buffer : List ℕ) (reads : List Read)
      → Inv streams active last limit size buffer reads
      → Inv (modify id f streams) active last limit size buffer reads
  pub erase_kept :
      (id : ℕ) (s : Stream) (streams : List (ℕ × Stream)) (active last limit size : ℕ)
      (buffer : List ℕ) (reads : List Read)
      → find id streams ≡ some s
      → Inv streams active last limit size buffer reads
      → Inv (erase id streams) ((active + (2 ^ 64 - 1)) % 2 ^ 64) last limit size buffer reads
  pub admit_kept :
      (id : ℕ) (s : Stream) (streams : List (ℕ × Stream)) (active last limit size : ℕ)
      (buffer : List ℕ) (reads : List Read)
      → last < id
      → active < limit
      → Inv streams active last limit size buffer reads
      → Inv (insert id s streams) ((active + 1) % 2 ^ 64) id limit size buffer reads
  pub size_kept :
      (value : ℕ) (streams : List (ℕ × Stream)) (active last limit size : ℕ) (buffer : List ℕ)
      (reads : List Read)
      → 16384 ≤ value
      → Inv streams active last limit size buffer reads
      → Inv streams active last limit value buffer reads
  pub size_bound :
      (streams : List (ℕ × Stream)) (active last limit size : ℕ) (buffer : List ℕ)
      (reads : List Read)
      → Inv streams active last limit size buffer reads
      → 16384 ≤ size
  -- A chunk that is read, a read without bytes, bytes that leave the buffer.
  pub chunk_kept :
      (bs : List ℕ) (streams : List (ℕ × Stream)) (active last limit size : ℕ) (buffer : List ℕ)
      (reads : List Read)
      → Inv streams active last limit size buffer (chunk bs ∷ reads)
      → Inv streams active last limit size (buffer ++ bs) reads
  pub read_kept :
      (r : Read) (streams : List (ℕ × Stream)) (active last limit size : ℕ) (buffer : List ℕ)
      (reads : List Read)
      → Inv streams active last limit size buffer (r ∷ reads)
      → Inv streams active last limit size buffer reads
  pub drop_kept :
      (n : ℕ) (streams : List (ℕ × Stream)) (active last limit size : ℕ) (buffer : List ℕ)
      (reads : List Read)
      → Inv streams active last limit size buffer reads
      → Inv streams active last limit size (drop n buffer) reads

-- The property, of a connection.
abbrev pub Of : {E D : Type 0} → Shape → Http2Connection E D → Type 0
Of Inv c =
    Inv c.streams c.active_streams c.last_stream_id c.local_settings.concurrent_streams
      c.remote_settings.frame_size c.read_buffer c.incoming

module _ {E D : Type 0} {Inv : Shape} (kept : Kept Inv) where
  abbrev pub P : Http2Connection E D → Type 0
  P = Of Inv

  send_frame_cases :
      (frame : List ℕ) (c : Http2Connection E D) (ws : List (Option Error))
      → c.writes ≡ ws
      → P c
      → Holds P (send_frame frame c)
  unfolding send_frame
  send_frame_cases frame c [] e p = rw e p
  send_frame_cases frame c (none ∷ ws) e p = rw e p
  send_frame_cases frame c (some x ∷ ws) e p = rw e p

  pub send_frame-kept : (frame : List ℕ) → Keeps P (send_frame frame)
  send_frame-kept frame c p = send_frame_cases frame c c.writes refl p

  pub send_goaway-kept : (code : ErrorCode) (debug : Text) → Keeps P (send_goaway code debug)
  unfolding send_goaway
  send_goaway-kept code debug c p = elim (Bool-cases c.goaway_sent) [
    | inl sent ↦ rw sent p
    | inr fresh ↦ rw fresh (
        send_frame-kept (serialize_goaway_frame c.last_stream_id code debug)
          (record c { goaway_sent = true }) p)
  ]

  -- The connection whose socket will give these reads.
  abbrev With : List Read → Http2Connection E D → Type 0
  With reads c = P (record c { incoming = reads })

  fill_from-kept :
      (reads : List Read) (n : ℕ) (c : Http2Connection E D)
      → With reads c
      → Holds P (fill_from reads n c)
  unfolding fill_from
  fill_from-kept [] n c p = elim (Bool-cases (leb n (length c.read_buffer))) [
    | inl enough ↦ rw enough p
    | inr short ↦ rw short p
  ]
  fill_from-kept (chunk [] ∷ reads) n c p = elim (Bool-cases (leb n (length c.read_buffer))) [
    | inl enough ↦ rw enough p
    | inr short ↦ rw short (kept.read_kept _ _ _ _ _ _ _ _ p)
  ]
  fill_from-kept (chunk (b ∷ bs) ∷ reads) n c p = elim (Bool-cases (leb n (length c.read_buffer))) [
    | inl enough ↦ rw enough p
    | inr short ↦ rw short (
        fill_from-kept reads n (record c { read_buffer = c.read_buffer ++ b ∷ bs })
          (kept.chunk_kept (b ∷ bs) _ _ _ _ _ _ _ p))
  ]
  fill_from-kept (broken e ∷ reads) n c p = elim (Bool-cases (leb n (length c.read_buffer))) [
    | inl enough ↦ rw enough p
    | inr short ↦ rw short (kept.read_kept _ _ _ _ _ _ _ _ p)
  ]

  pub fill-kept : (n : ℕ) → Keeps P (fill n)
  unfolding fill
  fill-kept n c p = fill_from-kept c.incoming n c p

  pub get_stream-kept : (id : ℕ) → Keeps P (get_stream id)
  unfolding get_stream
  get_stream-kept id c p = elim (Bool-cases c.streams_locked) [
    | inl locked ↦ rw locked tt
    | inr free ↦ rw free p
  ]

  pub deref-kept : (id : ℕ) → Keeps P (deref id)
  unfolding deref
  deref-kept id c p = elim (Option-cases (find id c.streams)) [
    | inl missing ↦ rw (Holds, missing) tt
    | inr (s, found) ↦ rw (Holds, found) p
  ]

  pub on_stream-kept : (id : ℕ) (f : Stream → Stream) → Keeps P (on_stream id f)
  unfolding on_stream
  on_stream-kept id f c p = elim (Option-cases (find id c.streams)) [
    | inl missing ↦ rw (Holds, missing) tt
    | inr (s, found) ↦ rw (Holds, found) (kept.modify_kept id f _ _ _ _ _ _ _ p)
  ]

  pub remove_stream-kept : (id : ℕ) → Keeps P (remove_stream id)
  unfolding remove_stream
  remove_stream-kept id c p = elim (Bool-cases c.streams_locked) [
    | inl locked ↦ rw locked tt
    | inr free ↦ rw free (elim (Option-cases (find id c.streams)) [
      | inl missing ↦ rw (Holds, missing) p
      | inr (s, found) ↦ rw (Holds, found) (kept.erase_kept id s _ _ _ _ _ _ _ found p)
    ])
  ]
