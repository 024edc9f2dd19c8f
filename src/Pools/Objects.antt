-- ===== src/Pools/Objects.antt =====
-- include/coroute/util/object_pool.hpp: pools of objects. The mutex is held through each operation,
-- so an operation is one step. A pointer that may be null is an option.
use web_frame.Prelude.{
  ℕ, zero, suc, ◌&&◌, Option, none, some, List, [], ◌∷◌, if◌then◌else◌, length, ltb,
}

-- The vector has its back first: `push_back` is `∷`.
pub record ObjectPool {ℓ} (T : Type ℓ) : Type ℓ where
  pub pool : List T
  pub max_size : ℕ
  pub reset_func : Option (T → T)

module _ {ℓ} {T : Type ℓ} where
  unfoldable pub new_pool : ℕ → Option (T → T) → ObjectPool T
  new_pool max_size reset_func = record { pool = []; max_size = max_size; reset_func = reset_func }

  abbrev pub size : ObjectPool T → ℕ
  size p = length p.pool

  abbrev pub push_back : T → ObjectPool T → ObjectPool T
  push_back x p = record p { pool = x ∷ p.pool }

  -- The loop of `reserve`, with the new object that `make_unique` gives. The fuel is the count: each
  -- round adds an object.
  unfoldable pub reserve_loop : ℕ → T → ℕ → ObjectPool T → ObjectPool T
  reserve_loop zero fresh count p = p
  reserve_loop (suc fuel) fresh count p =
      let rest = reserve_loop fuel fresh count (push_back fresh p) in
      if ltb (size p) count && ltb (size p) p.max_size then rest else p

  unfoldable pub reserve : T → ℕ → ObjectPool T → ObjectPool T
  reserve fresh count p = reserve_loop count fresh count p

  abbrev pub take_back : T → List T → T × List T
  take_back fresh [] = (fresh, [])
  take_back fresh (x ∷ xs) = (x, xs)

  -- The back of the vector, or a new object.
  unfoldable pub acquire : T → ObjectPool T → T × ObjectPool T
  acquire fresh p = ((take_back fresh p.pool).0, record p { pool = (take_back fresh p.pool).1 })

  abbrev pub apply_reset : Option (T → T) → T → T
  apply_reset none x = x
  apply_reset (some reset) x = reset x

  -- If the pool is full, the object is destroyed.
  unfoldable pub release : Option T → ObjectPool T → ObjectPool T
  release none p = p
  release (some x) p =
      if ltb (size p) p.max_size then push_back (apply_reset p.reset_func x) p else p

  unfoldable pub clear : ObjectPool T → ObjectPool T
  clear p = record p { pool = [] }

-- A pool of one thread: there is no reset, and the bound can be changed.
pub record LocalPool {ℓ} (T : Type ℓ) : Type ℓ where
  pub local : List T
  pub local_max : ℕ

module _ {ℓ} {T : Type ℓ} where
  unfoldable pub new_local : LocalPool T
  new_local = record { local = []; local_max = 64 }

  unfoldable pub set_max_size : ℕ → LocalPool T → LocalPool T
  set_max_size max_size p = record p { local_max = max_size }

  unfoldable pub acquire_local : T → LocalPool T → T × LocalPool T
  acquire_local fresh p =
      ((take_back fresh p.local).0, record p { local = (take_back fresh p.local).1 })

  unfoldable pub release_local : Option T → LocalPool T → LocalPool T
  release_local none p = p
  release_local (some x) p =
      if ltb (length p.local) p.local_max then record p { local = x ∷ p.local } else p

-- A buffer: what it holds, and its capacity.
pub record Buffer : Type 0 where
  pub held : List ℕ
  pub capacity : ℕ

abbrev pub empty_buffer : Buffer
empty_buffer = record { held = []; capacity = 0 }

-- `clear` keeps the capacity.
unfoldable pub clear_buffer : Buffer → Buffer
clear_buffer b = record b { held = [] }

pub record BufferPool : Type 0 where
  pub buffers : ObjectPool Buffer
  pub default_buffer_size : ℕ

unfoldable pub new_buffer_pool : ℕ → ℕ → BufferPool
new_buffer_pool default_size max_buffers = record {
  buffers = new_pool max_buffers (some clear_buffer);
  default_buffer_size = default_size;
}

-- The capacity after `reserve(n)` is `grow n`.
module _ (grow : ℕ → ℕ) where
  abbrev pub ensure : ℕ → Buffer → Buffer
  ensure n b = if ltb b.capacity n then record b { capacity = grow n } else b

  unfoldable pub acquire_buffer : ℕ → BufferPool → Buffer × BufferPool
  acquire_buffer min_size p = (
    ensure min_size (acquire empty_buffer p.buffers).0,
    record p { buffers = (acquire empty_buffer p.buffers).1 },
  )

  unfoldable pub acquire_default : BufferPool → Buffer × BufferPool
  acquire_default p = acquire_buffer p.default_buffer_size p

unfoldable pub release_buffer : Option Buffer → BufferPool → BufferPool
release_buffer b p = record p { buffers = release b p.buffers }
