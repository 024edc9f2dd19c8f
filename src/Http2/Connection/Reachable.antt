-- ===== src/Http2/Connection/Reachable.antt =====
-- The states that a connection reaches, and the bookkeeping of its streams that holds in all.
use web_frame.Prelude.{ℕ, ◌<◌, ◌≤◌, ◌≡◌, refl, Bool, Option, none, List, [], ◌∷◌, arith, length}
use web_frame.Prelude.Dict.{
  nat_eq, find, modify, erase, insert, IsMap, modify-IsMap, erase-IsMap, insert-IsMap,
  length-modify, length-erase_found, length-insert_new,
}
use web_frame.Prelude.Text.{Text}
use web_frame.Prelude.Expected.{Expected, Error}
use web_frame.Core.Response.{Response}
use web_frame.Http2.Frame.Codes.{ErrorCode}
use web_frame.Http2.Hpack.{Hpack}
use web_frame.Http2.Stream.{Stream}
use web_frame.Http2.Connection.State.{Http2Connection, Read, done}
use web_frame.Http2.Connection.Keeps.{Holds-done}
use web_frame.Http2.Connection.Kept.{Kept, Of}
use web_frame.Http2.Connection.Kept.Loop.{
  exchange_prefaces-kept, shutdown-kept, run_step-kept, handler_returns-kept,
}
use web_frame.Http2.Connection.Preface.{new_connection, exchange_prefaces, shutdown}
use web_frame.Http2.Connection.Loop.{Next, run_step, handler_returns}

-- Every identifier in the map is at most `last`.
abbrev pub Below : ℕ → List (ℕ × Stream) → Type 0
Below last [] = Unit
Below last ((id, s) ∷ streams) = (id ≤ last) × Below last streams

-- The map has one entry for a stream, `active_streams_` counts them, none has an identifier above
-- `last_stream_id_`, and there are at most as many as SETTINGS_MAX_CONCURRENT_STREAMS allows.
unfoldable pub AreCounted : List (ℕ × Stream) → ℕ → ℕ → ℕ → ℕ → List ℕ → List Read → Type 0
AreCounted streams active last limit size buffer reads =
    IsMap streams
    × (active ≡ length streams)
    × Below last streams
    × (length streams ≤ limit)
    × (limit ≡ 100)
    × (16384 ≤ size)

Below-modify :
    (id : ℕ) (f : Stream → Stream) (last : ℕ) (streams : List (ℕ × Stream))
    → Below last streams
    → Below last (modify id f streams)
unfolding modify
Below-modify id f last [] b = tt
Below-modify id f last ((i, s) ∷ streams) b = ground (arith, Below-modify id f last streams b.1)

Below-erase :
    (id last : ℕ) (streams : List (ℕ × Stream)) → Below last streams → Below last (erase id streams)
unfolding erase
Below-erase id last [] b = tt
Below-erase id last ((i, s) ∷ streams) b = ground (arith, Below-erase id last streams b.1)

Below-insert :
    (id : ℕ) (s : Stream) (last : ℕ) (streams : List (ℕ × Stream))
    → last < id
    → Below last streams
    → Below id (insert id s streams)
unfolding insert
Below-insert id s last [] l b = (omega arith, tt)
Below-insert id s last ((i, t) ∷ streams) l b =
    ground (arith, Below-insert id s last streams l b.1, Below-weaken id last streams l b.1)
  where
    Below-weaken :
        (id last : ℕ) (streams : List (ℕ × Stream))
        → last < id
        → Below last streams
        → Below id streams
    Below-weaken id last [] l b = tt
    Below-weaken id last ((i, s) ∷ streams) l b = (omega arith, Below-weaken id last streams l b.1)

find_of_Below :
    (id last : ℕ) (streams : List (ℕ × Stream))
    → last < id
    → Below last streams
    → find id streams ≡ none
unfolding find
find_of_Below id last [] l b = refl
find_of_Below id last ((i, s) ∷ streams) l b = ground (arith, find_of_Below id last streams l b.1)

pub AreCounted-Kept : Kept AreCounted
unfolding AreCounted
AreCounted-Kept = record {
  modify_kept = λ id f streams active last limit size buffer reads (m, n, b, k, e, z). (
    modify-IsMap id f streams m,
    rw (length-modify id f streams) n,
    Below-modify id f last streams b,
    rw (length-modify id f streams) k,
    e,
    z,
  );
  erase_kept = λ id s streams active last limit size buffer reads found (m, n, b, k, e, z).
      let l = length-erase_found id streams s found in
      (erase-IsMap id streams m, omega arith, Below-erase id last streams b, omega arith, e, z);
  admit_kept = λ id s streams active last limit size buffer reads new free (m, n, b, k, e, z).
      let l = length-insert_new id s streams (find_of_Below id last streams new b) in
      (
        insert-IsMap id s streams m,
        omega arith,
        Below-insert id s last streams new b,
        omega arith,
        e,
        z,
      );
  size_kept = λ value streams active last limit size buffer reads range (m, n, b, k, e, z).
      (m, n, b, k, e, range);
  size_bound = λ streams active last limit size buffer reads (m, n, b, k, e, z). z;
  chunk_kept = λ bs streams active last limit size buffer reads h. h;
  read_kept = λ r streams active last limit size buffer reads h. h;
  drop_kept = λ n streams active last limit size buffer reads h. h;
}

module _ {E D : Type 0} (hpack : Hpack E D) where
  -- A connection is set up; `run` goes through rounds of its loop, and between them handlers return.
  -- That such a handler was started is not asked for: the relation has more states than the program.
  pub data Reachable : Http2Connection E D → Type 0 where
    accepted :
        (encoder : E) (decoder : D) (has_handler : Bool) (incoming : List Read)
        (writes : List (Option Error))
        → Reachable (new_connection encoder decoder has_handler incoming writes)
    preface_exchanged :
        {c c' : Http2Connection E D} {r : Expected (Unit {0})}
        → Reachable c
        → exchange_prefaces c ≡ done r c'
        → Reachable c'
    round_made :
        {c c' : Http2Connection E D} {r : Expected Next}
        → Reachable c
        → run_step hpack c ≡ done r c'
        → Reachable c'
    handler_returned :
        {c c' : Http2Connection E D} {r : Expected (Unit {0})} (id : ℕ) (response : Response)
        → Reachable c
        → handler_returns hpack id response c ≡ done r c'
        → Reachable c'
    shut_down :
        {c c' : Http2Connection E D} {r : Expected (Unit {0})} (error : ErrorCode) (debug : Text)
        → Reachable c
        → shutdown error debug c ≡ done r c'
        → Reachable c'

  abbrev pub Counted : Http2Connection E D → Type 0
  Counted = Of AreCounted

  pub counted : (c : Http2Connection E D) → Reachable c → Counted c
  unfolding new_connection AreCounted
  counted c (accepted encoder decoder has_handler incoming writes) =
      (tt, refl, tt, omega arith, refl, omega arith)
  counted c (preface_exchanged {c = c₀} reached e) =
      Holds-done exchange_prefaces (exchange_prefaces-kept AreCounted-Kept hpack)
        (counted c₀ reached) e
  counted c (round_made {c = c₀} reached e) =
      Holds-done (run_step hpack) (run_step-kept AreCounted-Kept hpack) (counted c₀ reached) e
  counted c (handler_returned {c = c₀} id response reached e) =
      Holds-done (handler_returns hpack id response)
        (handler_returns-kept AreCounted-Kept hpack id response) (counted c₀ reached) e
  counted c (shut_down {c = c₀} error debug reached e) =
      Holds-done (shutdown error debug) (shutdown-kept AreCounted-Kept hpack error debug)
        (counted c₀ reached) e
