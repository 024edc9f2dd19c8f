-- ===== src/Pools/Tests.antt =====
-- Pools at concrete calls.
use web_frame.Prelude.{ℕ, ◌+◌, ◌-◌, ◌^◌, ◌≤◌, ◌≡◌, refl, none, some, List, [], ◌∷◌, arith, All}
use web_frame.Pools.Objects.{ObjectPool, size, apply_reset, new_buffer_pool}
use web_frame.Pools.Bags.{
  Call, Steps, acquire_call, release_call, reserve_call, perform_all, idle, perform_all-Steps,
  perform_all-size,
}
use web_frame.Pools.Buffers
use web_frame.Pools.Buffers.{BufferCall, serve, Fits, serve-new_buffer_pool}
use web_frame.Pools.Connections.{
  ConnectionPool, default_config, acquire_connection, release_connection,
}
use web_frame.Pools.Counters
use web_frame.Pools.Counters.{ConnectionCall, release-acquire_empty}

abbrev pool_of_two : ObjectPool ℕ
pool_of_two = record { pool = 7 ∷ 8 ∷ []; max_size = 2; reset_func = some (λ n. n + 1) }

abbrev calls : List (Call ℕ)
calls = acquire_call ∷ release_call (some 9) ∷ release_call (some 5) ∷ reserve_call 3 ∷ []

perform_all-Steps_example :
    Steps 0
      (apply_reset pool_of_two.reset_func)
      pool_of_two.max_size
      (idle 0 pool_of_two)
      calls
      (perform_all 0 calls pool_of_two).0
      (idle 0 (perform_all 0 calls pool_of_two).1)
perform_all-Steps_example = perform_all-Steps 0 calls pool_of_two

perform_all-size_test : size (perform_all 0 calls pool_of_two).1 ≤ 2
perform_all-size_test = perform_all-size 0 calls pool_of_two (ground arith)

abbrev buffer_calls : List BufferCall
buffer_calls =
    Buffers.take 100
    ∷ Buffers.give (some (record { held = 1 ∷ 2 ∷ []; capacity = 100 }))
    ∷ Buffers.take 50
    ∷ []

grow_exactly : (n : ℕ) → n ≤ n
grow_exactly n = omega arith

serve-new_buffer_pool_example : All Fits (serve (λ n. n) buffer_calls (new_buffer_pool 4096 256))
serve-new_buffer_pool_example = serve-new_buffer_pool (λ n. n) grow_exactly 4096 256 buffer_calls

abbrev connection_calls : List (ConnectionCall ℕ)
connection_calls =
    Counters.populate_call (λ i. some i) 2
    ∷ Counters.acquire_call
    ∷ Counters.acquire_call
    ∷ Counters.acquire_call
    ∷ Counters.release_call (some 1)
    ∷ []

abbrev empty_pool : ConnectionPool ℕ
empty_pool = record {
  pool = [];
  config = default_config;
  resetter = none;
  active_count = 0;
  total_acquired = 0;
  total_reused = 0;
}

release-acquire_empty_test :
    ((acquire_connection empty_pool).0 ≡ none)
    × ((release_connection (some 4) (acquire_connection empty_pool).1).active_count ≡ 2 ^ 64 - 1)
release-acquire_empty_test = release-acquire_empty 4 empty_pool refl refl refl
