-- ===== src/Pools/Counters.antt =====
-- What the counters of a connection pool say after any calls, and where the count of active
-- connections goes wrong.
use web_frame.Prelude.{
  ℕ, suc, ◌+◌, ◌-◌, ◌%◌, ◌^◌, ◌≤◌, ◌≡◌, refl, true, Option, none, some, List, [], ◌∷◌,
  if◌then◌else◌, length, arith,
}
use web_frame.Pools.Connections.{
  ConnectionPool, acquire_connection, release_connection, populate, clear_connections,
}

pub data ConnectionCall {ℓ} (C : Type ℓ) : Type ℓ where
  acquire_call clear_call : ConnectionCall C
  release_call : Option C → ConnectionCall C
  populate_call : (ℕ → Option C) → ℕ → ConnectionCall C

module _ {ℓ} {C : Type ℓ} where
  unfoldable pub perform : ConnectionCall C → ConnectionPool C → ConnectionPool C
  perform acquire_call p = (acquire_connection p).1
  perform clear_call p = clear_connections p
  perform (release_call c) p = release_connection c p
  perform (populate_call factory n) p = populate factory n p

  unfoldable pub perform_all : List (ConnectionCall C) → ConnectionPool C → ConnectionPool C
  perform_all [] p = p
  perform_all (call ∷ calls) p = perform_all calls (perform call p)

  -- The calls that acquire, and those that give a connection back.
  unfoldable pub acquires : List (ConnectionCall C) → ℕ
  acquires [] = 0
  acquires (acquire_call ∷ calls) = suc (acquires calls)
  acquires (clear_call ∷ calls) = acquires calls
  acquires (release_call c ∷ calls) = acquires calls
  acquires (populate_call f n ∷ calls) = acquires calls

  unfoldable pub releases : List (ConnectionCall C) → ℕ
  releases [] = 0
  releases (acquire_call ∷ calls) = releases calls
  releases (clear_call ∷ calls) = releases calls
  releases (release_call none ∷ calls) = releases calls
  releases (release_call (some c) ∷ calls) = suc (releases calls)
  releases (populate_call f n ∷ calls) = releases calls

-- After `a` calls that acquire and `r` that give back: the first are counted, some of them found a
-- connection, and the active ones are those less the `r`, if connections are used again at all.
pub record IsTallied {ℓ} {C : Type ℓ} (p : ConnectionPool C) (a r : ℕ) : Type ℓ where
  pub acquired_eq : p.total_acquired ≡ a
  pub reused_le : p.total_reused ≤ a
  pub active_eq :
      (p.active_count + (if p.config.enable_reuse then r else 0)) % 2 ^ 64 ≡ p.total_reused
  pub within : length p.pool ≤ p.config.max_size

module _ {ℓ} {C : Type ℓ} where
  -- On an empty pool without active connections that uses connections again, acquire gives none, and
  -- the release of a connection then takes the count of the active ones to 2^64 - 1.
  pub release-acquire_empty :
      (c : C) (p : ConnectionPool C)
      → p.pool ≡ []
      → p.config.enable_reuse ≡ true
      → p.active_count ≡ 0
      → ((acquire_connection p).0 ≡ none)
        × ((release_connection (some c) (acquire_connection p).1).active_count ≡ 2 ^ 64 - 1)
  unfolding acquire_connection release_connection
  release-acquire_empty c p empty reuse zero_active = rw empty (refl, ground arith)
