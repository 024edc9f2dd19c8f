-- ===== src/Http2/Connection/State.antt =====
-- The fields of `Http2Connection`, its socket as a schedule of reads and writes, and the monad in
-- which the coroutines run.
use web_frame.Prelude.{ℕ, ◌+◌, ◌≡◌, refl, Bool, Option, List, [], ◌∷◌, length}
use web_frame.Prelude.Int.{ℤ}
use web_frame.Prelude.Dict.{nat_eq}
use web_frame.Prelude.Expected.{Expected, ok, unexpected, Error}
use web_frame.Core.Request.{Request}
use web_frame.Http2.Frame.Codes.{
  ErrorCode, SettingsId, header_table_size, enable_push, max_concurrent_streams,
  initial_window_size, max_frame_size, max_header_list_size, other_setting,
}
use web_frame.Http2.Stream.{Stream}

pub record ConnectionSettings : Type 0 where
  pub header_table : ℕ
  pub push : ℕ
  pub concurrent_streams : ℕ
  pub initial_window : ℕ
  pub frame_size : ℕ
  pub header_list_size : ℕ

-- The defaults of frame.hpp's `Constants`.
abbrev pub default_settings : ConnectionSettings
default_settings = record {
  header_table = 4096;
  push = 1;
  concurrent_streams = 100;
  initial_window = 65535;
  frame_size = 16384;
  header_list_size = 8192;
}

unfoldable pub apply : SettingsId → ℕ → ConnectionSettings → ConnectionSettings
apply header_table_size value s = record s { header_table = value }
apply enable_push value s = record s { push = value }
apply max_concurrent_streams value s = record s { concurrent_streams = value }
apply initial_window_size value s = record s { initial_window = value }
apply max_frame_size value s = record s { frame_size = value }
apply max_header_list_size value s = record s { header_list_size = value }
apply (other_setting n) value s = s

-- One result of `async_read`; a chunk of no bytes is the end of the connection.
pub data Read : Type 0 where
  chunk : List ℕ → Read
  broken : Error → Read

-- `incoming` and `writes` are what the socket will answer: reads beyond the first find the
-- connection closed, and writes beyond the second succeed. `outgoing` is what was written, the
-- newest frame first, and `calls` the requests whose handler has not returned. `next_server_stream_id_`
-- is used by no code and left out.
pub record Http2Connection (E D : Type 0) : Type 0 where
  pub encoder : E
  pub decoder : D
  pub local_settings : ConnectionSettings
  pub remote_settings : ConnectionSettings
  pub local_window_size : ℤ
  pub remote_window_size : ℤ
  pub streams : List (ℕ × Stream)
  pub last_stream_id : ℕ
  pub active_streams : ℕ
  pub is_open : Bool
  pub preface_received : Bool
  pub settings_ack_received : Bool
  pub goaway_sent : Bool
  pub goaway_error : ErrorCode
  pub read_buffer : List ℕ
  pub has_handler : Bool
  pub streams_locked : Bool
  pub calls : List (ℕ × Request)
  pub incoming : List Read
  pub writes : List (Option Error)
  pub outgoing : List (List ℕ)

-- The bytes that the connection has read or may still read.
abbrev pub incoming_bytes : List Read → ℕ
incoming_bytes [] = 0
incoming_bytes (chunk bs ∷ reads) = length bs + incoming_bytes reads
incoming_bytes (broken e ∷ reads) = incoming_bytes reads

unfoldable pub supply : {E D : Type 0} → Http2Connection E D → ℕ
supply c = length c.read_buffer + incoming_bytes c.incoming

-- What stops the program: a mutex that its own thread holds is locked again, a destroyed stream is
-- used. `no_fuel` is none of C++'s: a loop of the model ran out of fuel.
pub data Fault : Type 0 where
  deadlock dangling no_fuel : Fault

pub data Run (S A : Type 0) : Type 0 where
  done : Expected A → S → Run S A
  stuck : Fault → Run S A

-- A coroutine that returns `expected<A, Error>`, run to its next suspension.
abbrev pub M : Type 0 → Type 0 → Type 0
M S A = S → Run S A

abbrev pub pure : {S A : Type 0} → A → M S A
pure a s = done (ok a) s

-- `co_return unexpected(e)`.
abbrev pub throw : {S A : Type 0} → Error → M S A
throw e s = done (unexpected e) s

abbrev resume_with : {S A B : Type 0} → Expected A → (A → M S B) → M S B
resume_with (ok a) f s = f a s
resume_with (unexpected e) f s = done (unexpected e) s

-- `if (!result) co_return unexpected(result.error())`, and go on with the value.
infixl 5 ◌>>=◌ ◌>>◌
unfoldable pub ◌>>=◌ : {S A B : Type 0} → M S A → (A → M S B) → M S B
◌>>=◌ m f s = elim (m s) [ done r s' ↦ resume_with r f s' | stuck fault ↦ stuck fault ]

abbrev pub ◌>>◌ : {S B : Type 0} → M S (Unit {0}) → M S B → M S B
m >> k = m >>= λ _. k

-- The call of which the result is looked at, or ignored.
unfoldable pub attempt : {S A : Type 0} → M S A → M S (Expected A)
attempt m s = elim (m s) [ done r s' ↦ done (ok r) s' | stuck fault ↦ stuck fault ]

abbrev pub modify_state : {S : Type 0} → (S → S) → M S (Unit {0})
modify_state f s = done (ok tt) (f s)

-- A step that reads the state.
abbrev pub with_state : {S A : Type 0} → (S → M S A) → M S A
with_state f s = f s s

abbrev pub crash : {S A : Type 0} → Fault → M S A
crash fault s = stuck fault

-- What a step in sequence does, from what its first part did.
module _ {S A : Type 0} where
  pub bind-ok :
      {B : Type 0} (m : M S A) (f : A → M S B) {s s' : S} {a : A}
      → m s ≡ done (ok a) s'
      → (m >>= f) s ≡ f a s'
  unfolding ◌>>=◌
  bind-ok m f e = rw (◌>>=◌, e) refl

  pub bind-unexpected :
      {B : Type 0} (m : M S A) (f : A → M S B) {s s' : S} {x : Error}
      → m s ≡ done (unexpected x) s'
      → (m >>= f) s ≡ done (unexpected x) s'
  unfolding ◌>>=◌
  bind-unexpected m f e = rw (◌>>=◌, e) refl

  pub bind-stuck :
      {B : Type 0} (m : M S A) (f : A → M S B) {s : S} {x : Fault}
      → m s ≡ stuck x
      → (m >>= f) s ≡ stuck x
  unfolding ◌>>=◌
  bind-stuck m f e = rw (◌>>=◌, e) refl

  pub attempt-done :
      (m : M S A) {s s' : S} {r : Expected A} → m s ≡ done r s' → attempt m s ≡ done (ok r) s'
  unfolding attempt
  attempt-done m e = rw (attempt, e) refl

  pub attempt-stuck : (m : M S A) {s : S} {x : Fault} → m s ≡ stuck x → attempt m s ≡ stuck x
  unfolding attempt
  attempt-stuck m e = rw (attempt, e) refl
