-- ===== src/Http2/Connection/Chunks.antt =====
-- `send_data` of src/http2/stream.cpp where the windows are open: the frames that it writes.
use web_frame.Prelude.{
  ℕ, zero, suc, ◌-◌, ◌≤◌, ◌<◌, ◌^◌, ◌≡◌, refl, ap, ◌∙◌, Bool, true, false, ◌&&◌, some, List, [],
  ◌∷◌, arith, min, leb, length, take, drop,
}
use web_frame.Prelude.Int.{pos, to_int32, add32, sub32, wrap32, ◌-ℤ◌, ◌+ℤ◌}
use web_frame.Prelude.Dict.{nat_eq, find, modify}
use web_frame.Prelude.Expected.{ok}
use web_frame.Http2.Frame.{serialize_data_frame}
use web_frame.Http2.Stream.{Stream}
use web_frame.Http2.Connection.State.{Http2Connection, done, bind-ok, modify_state}
use web_frame.Http2.Connection.Socket.{send_frame, deref, on_stream}
use web_frame.Http2.Connection.Sending.{choose_chunk, spend_stream, send_chosen, send_chunk}
use web_frame.Http2.Connection.Windows.{deref-some, on_stream-some}

-- The body cut into pieces of `size` bytes, the last of which may be shorter.
abbrev pub pieces : (fuel size : ℕ) → List ℕ → List (List ℕ)
pieces fuel size [] = []
pieces zero size (b ∷ bs) = []
pieces (suc fuel) size (b ∷ bs) =
    let n = min (length (b ∷ bs)) size in take n (b ∷ bs) ∷ pieces fuel size (drop n (b ∷ bs))

abbrev pub is_last : List (List ℕ) → Bool
is_last [] = true
is_last (p ∷ ps) = false

-- The frames of the pieces, the newest first, on top of those written before.
abbrev pub push_frames : ℕ → Bool → List (List ℕ) → List (List ℕ) → List (List ℕ)
push_frames id end_stream [] out = out
push_frames id end_stream (p ∷ ps) out =
    push_frames id end_stream ps (serialize_data_frame id p (end_stream && is_last ps) ∷ out)

to_int32_small : (n : ℕ) → n < 2 ^ 31 → to_int32 n ≡ pos n
to_int32_small n h = ground arith

pub sub32-pos : (a n : ℕ) → n ≤ a → a < 2 ^ 31 → sub32 (pos a) (to_int32 n) ≡ pos (a - n)
unfolding sub32 wrap32 ◌-ℤ◌
sub32-pos a n h l = ground (arith, to_int32_small n)

pub add32-sub32 :
    (b n : ℕ) → n ≤ b → b < 2 ^ 31 → add32 (pos b) (sub32 (pos 0) (to_int32 n)) ≡ pos (b - n)
unfolding add32 sub32 wrap32 ◌-ℤ◌ ◌+ℤ◌
add32-sub32 b n h l = ground (arith, to_int32_small n)

choose_chunk-open :
    (a b n : ℕ) → n ≤ a → n ≤ b → a < 2 ^ 31 → choose_chunk (pos a) (pos b) n ≡ some n
unfolding choose_chunk
choose_chunk-open a b n h k l = ground (arith, to_int32_small n)

module _ {E D : Type 0} where
  pub send_frame-open :
      (frame : List ℕ) (c : Http2Connection E D)
      → c.writes ≡ []
      → send_frame frame c ≡ done (ok tt) (record c { outgoing = frame ∷ c.outgoing })
  unfolding send_frame
  send_frame-open frame c w = ground arith

  -- The connection after a chunk of `n` bytes.
  abbrev pub after_chunk : ℕ → List ℕ → ℕ → Bool → Http2Connection E D → Http2Connection E D
  after_chunk id rest n end_stream c = record c {
    streams = modify id (spend_stream n) c.streams;
    remote_window_size = add32 c.remote_window_size (sub32 (pos 0) (to_int32 n));
    outgoing =
        serialize_data_frame id (take n rest) (end_stream && leb (length rest) n) ∷ c.outgoing;
  }

  pub send_chunk-open :
      (id : ℕ) (rest : List ℕ) (n : ℕ) (end_stream : Bool) (s : Stream) (a b : ℕ)
      (c : Http2Connection E D)
      → find id c.streams ≡ some s
      → s.remote_window_size ≡ pos a
      → c.remote_window_size ≡ pos b
      → n ≤ a
      → n ≤ b
      → a < 2 ^ 31
      → c.writes ≡ []
      → send_chunk id rest n end_stream c
        ≡ done (ok (some (drop n rest))) (after_chunk id rest n end_stream c)
  unfolding send_chunk send_chosen
  send_chunk-open id rest n end_stream s a b c e sa cb na nb l w =
      bind-ok (deref id) _ (deref-some id s c e)
      ∙ ap (λ z. send_chosen id rest n end_stream (choose_chunk z c.remote_window_size n) c) sa
      ∙ ap (λ z. send_chosen id rest n end_stream (choose_chunk (pos a) z n) c) cb
      ∙ ap (λ z. send_chosen id rest n end_stream z c) (choose_chunk-open a b n na nb l)
      ∙ bind-ok (on_stream id (spend_stream n)) _ (on_stream-some id (spend_stream n) s c e)
      ∙ bind-ok (modify_state _) _ refl
      ∙ bind-ok (send_frame _) _ (send_frame-open _ _ w)
