-- ===== src/Pools/Buffers.antt =====
-- What a buffer pool hands out: empty buffers of the capacity that was asked for, whatever was given
-- back before.
use web_frame.Prelude.{
  ℕ, ◌≤◌, ◌≡◌, refl, Option, none, some, List, [], ◌∷◌, ltb, All, Bool-cases, inl, inr, ltb→le,
}
use web_frame.Pools.Objects.{
  Buffer, BufferPool, new_buffer_pool, new_pool, acquire, release, take_back, size, ensure,
  empty_buffer, acquire_buffer, release_buffer, clear_buffer,
}

pub data BufferCall : Type 0 where
  take : ℕ → BufferCall
  give : Option Buffer → BufferCall

-- The buffers that a client gets, each with the capacity it asked for.
module _ (grow : ℕ → ℕ) where
  unfoldable pub serve : List BufferCall → BufferPool → List (ℕ × Buffer)
  serve [] p = []
  serve (take n ∷ calls) p = let (b, q) = acquire_buffer grow n p in (n, b) ∷ serve calls q
  serve (give b ∷ calls) p = serve calls (release_buffer b p)

abbrev pub Fits : ℕ × Buffer → Type 0
Fits (n, b) = (b.held ≡ []) × (n ≤ b.capacity)

-- The idle buffers are empty, and a buffer that is given back is cleared.
record IsClean (p : BufferPool) : Type 0 where
  all_empty : All (λ (b : Buffer). b.held ≡ []) p.buffers.pool
  clears : p.buffers.reset_func ≡ some clear_buffer

module _ (grow : ℕ → ℕ) (grows : (n : ℕ) → n ≤ grow n) where
  ensure-Fits : (n : ℕ) (b : Buffer) → b.held ≡ [] → Fits (n, ensure grow n b)
  ensure-Fits n b h = elim (Bool-cases (ltb b.capacity n)) [
    | inl small ↦ rw small (h, grows n)
    | inr large ↦ rw large (h, ltb→le b.capacity n large)
  ]

  take_back-empty :
      (bs : List Buffer)
      → All (λ (b : Buffer). b.held ≡ []) bs
      → ((take_back empty_buffer bs).0.held ≡ [])
        × All (λ (b : Buffer). b.held ≡ []) (take_back empty_buffer bs).1
  take_back-empty [] h = (refl, tt)
  take_back-empty (b ∷ bs) h = h

  acquire_buffer-IsClean :
      (n : ℕ) (p : BufferPool)
      → IsClean p
      → Fits (n, (acquire_buffer grow n p).0) × IsClean (acquire_buffer grow n p).1
  unfolding acquire_buffer acquire
  acquire_buffer-IsClean n p h =
      let (e, es) = take_back-empty p.buffers.pool h.all_empty in
      (
        ensure-Fits n (take_back empty_buffer p.buffers.pool).0 e,
        record { all_empty = es; clears = h.clears },
      )

  release_buffer-IsClean :
      (b : Option Buffer) (p : BufferPool) → IsClean p → IsClean (release_buffer b p)
  unfolding release_buffer release clear_buffer
  release_buffer-IsClean none p h = h
  release_buffer-IsClean (some b) p h =
      elim (Bool-cases (ltb (size p.buffers) p.buffers.max_size)) [
        | inl room ↦ rw (room, h.clears) (record { all_empty = (refl, h.all_empty); clears = refl })
        | inr full ↦ rw full h
      ]

  serve-Fits :
      (calls : List BufferCall) (p : BufferPool) → IsClean p → All Fits (serve grow calls p)
  unfolding serve
  serve-Fits [] p h = tt
  serve-Fits (take n ∷ calls) p h =
      let (fits, clean) = acquire_buffer-IsClean n p h in
      (fits, serve-Fits calls (acquire_buffer grow n p).1 clean)
  serve-Fits (give b ∷ calls) p h =
      serve-Fits calls (release_buffer b p) (release_buffer-IsClean b p h)

  -- Over any calls on a new buffer pool, each buffer that is handed out is empty and has at least the
  -- capacity that was asked for, where a buffer has at least the capacity that was reserved.
  pub serve-new_buffer_pool :
      (default_size max_buffers : ℕ) (calls : List BufferCall)
      → All Fits (serve grow calls (new_buffer_pool default_size max_buffers))
  unfolding new_buffer_pool new_pool
  serve-new_buffer_pool default_size max_buffers calls =
      serve-Fits calls (new_buffer_pool default_size max_buffers)
        (record { all_empty = tt; clears = refl })
