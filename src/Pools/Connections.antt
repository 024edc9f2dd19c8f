-- ===== src/Pools/Connections.antt =====
-- include/coroute/net/connection_pool.hpp: the pool of connections and its counters.
use web_frame.Prelude.{
  ℕ, zero, suc, ◌+◌, ◌-◌, ◌%◌, ◌^◌, Bool, true, not, Option, none, some, List, [], ◌∷◌,
  if◌then◌else◌, length, ltb,
}
use web_frame.Pools.Objects.{apply_reset}

pub record ConnectionPoolConfig : Type 0 where
  pub initial_size : ℕ
  pub max_size : ℕ
  pub pre_accept_count : ℕ
  pub enable_reuse : Bool

abbrev pub default_config : ConnectionPoolConfig
default_config = record {
  initial_size = 16;
  max_size = 256;
  pre_accept_count = 4;
  enable_reuse = true;
}

-- The vector has its back first. The counters are of 64 bits and wrap around.
pub record ConnectionPool {ℓ} (C : Type ℓ) : Type ℓ where
  pub pool : List C
  pub config : ConnectionPoolConfig
  pub resetter : Option (C → C)
  pub active_count : ℕ
  pub total_acquired : ℕ
  pub total_reused : ℕ

abbrev pub fetch_add : ℕ → ℕ
fetch_add n = (n + 1) % 2 ^ 64

abbrev pub fetch_sub : ℕ → ℕ
fetch_sub n = (n + (2 ^ 64 - 1)) % 2 ^ 64

module _ {ℓ} {C : Type ℓ} where
  unfoldable pub new_connection_pool : ConnectionPoolConfig → ConnectionPool C
  new_connection_pool config = record {
    pool = [];
    config = config;
    resetter = none;
    active_count = 0;
    total_acquired = 0;
    total_reused = 0;
  }

  unfoldable pub set_resetter : (C → C) → ConnectionPool C → ConnectionPool C
  set_resetter resetter p = record p { resetter = some resetter }

  -- The back of the vector, counted as reused and active; null if there is none.
  abbrev pub take_idle : List C → ConnectionPool C → Option C × ConnectionPool C
  take_idle [] p = (none, p)
  take_idle (c ∷ cs) p = (
    some c,
    record p {
      total_reused = fetch_add p.total_reused;
      pool = cs;
      active_count = fetch_add p.active_count;
    },
  )

  unfoldable pub acquire_connection : ConnectionPool C → Option C × ConnectionPool C
  acquire_connection p = take_idle p.pool (record p { total_acquired = fetch_add p.total_acquired })

  abbrev pub keep_connection : C → ConnectionPool C → ConnectionPool C
  keep_connection c p =
      if ltb (length p.pool) p.config.max_size
      then record p { pool = apply_reset p.resetter c ∷ p.pool }
      else p

  unfoldable pub release_connection : Option C → ConnectionPool C → ConnectionPool C
  release_connection none p = p
  release_connection (some c) p =
      if not p.config.enable_reuse
      then p
      else keep_connection c (record p { active_count = fetch_sub p.active_count })

  abbrev pub add_made : Option C → ConnectionPool C → ConnectionPool C
  add_made none p = p
  add_made (some c) p = record p { pool = c ∷ p.pool }

  -- The loop of `populate`, from the index `i` on; `factory i` is what the call of that index makes.
  -- The fuel is what is left of the count.
  unfoldable pub populate_from : ℕ → (ℕ → Option C) → ℕ → ConnectionPool C → ConnectionPool C
  populate_from zero factory i p = p
  populate_from (suc left) factory i p =
      let rest = populate_from left factory (suc i) (add_made (factory i) p) in
      if ltb (length p.pool) p.config.max_size then rest else p

  unfoldable pub populate : (ℕ → Option C) → ℕ → ConnectionPool C → ConnectionPool C
  populate factory count p = populate_from count factory 0 p

  unfoldable pub clear_connections : ConnectionPool C → ConnectionPool C
  clear_connections p = record p { pool = [] }
