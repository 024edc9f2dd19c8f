-- ===== src/Pools/Bags.antt =====
-- What an object pool promises, with the order of its objects forgotten: a bag of idle objects, of
-- which one is handed out if there is one. The pool refines it over any sequence of calls.
use web_frame.Prelude.{
  ℕ, zero, suc, ◌-◌, ◌≤◌, ◌<◌, ◌≡◌, refl, ap, ◌∙◌, ◌&&◌, Option, none, some, List, [], ◌∷◌, length,
  ltb, min, arith, Bool-cases, inl, inr, ltb→lt, ltb→le,
}
use native.Mathlib.Nat.{ℕ_set}
use mathlib.Core.Quot
use mathlib.Core.Quot.{Quot, Quot-set}
use mathlib.Core.List.{Permᴰ}
use web_frame.Pools.Objects.{
  ObjectPool, size, reserve, reserve_loop, acquire, release, clear, apply_reset, take_back,
  push_back,
}

pub length-Permᴰ {ℓ} : {A : Type ℓ} {xs ys : List A} → Permᴰ xs ys → length xs ≡ length ys
length-Permᴰ Permᴰ.nil = refl
length-Permᴰ (Permᴰ.cons e h) = omega (arith, length-Permᴰ h)
length-Permᴰ (Permᴰ.swap e f) = refl
length-Permᴰ (Permᴰ.trans h k) = length-Permᴰ h ∙ length-Permᴰ k

abbrev pub Bag {ℓ} : Type ℓ → Type ℓ
Bag T = Quot {α = List T} Permᴰ

module _ {ℓ} {T : Type ℓ} where
  abbrev pub bag_of : List T → Bag T
  bag_of xs = Quot.mk xs

  unfoldable pub put : T → Bag T → Bag T
  put x = Quot.lift Quot-set (λ xs. Quot.mk (x ∷ xs)) (λ xs ys h. Quot.sound (Permᴰ.cons refl h))

  unfoldable pub count : Bag T → ℕ
  count = Quot.lift ℕ_set length (λ xs ys h. length-Permᴰ h)

  abbrev pub put_many : ℕ → T → Bag T → Bag T
  put_many zero x b = b
  put_many (suc n) x b = put x (put_many n x b)

  -- The order in which objects were given back is forgotten.
  pub put_comm : (x y : T) (b : Bag T) → put x (put y b) ≡ put y (put x b)
  unfolding put
  put_comm x y = Quot.ind (λ b. Quot-set _ _) (λ xs. Quot.sound (Permᴰ.swap refl refl))

-- The calls of a client, and what it sees of each.
pub data Call {ℓ} (T : Type ℓ) : Type ℓ where
  acquire_call clear_call : Call T
  reserve_call : ℕ → Call T
  release_call : Option T → Call T

pub data Event {ℓ} (T : Type ℓ) : Type ℓ where
  acquired : T → Event T
  nothing_seen : Event T

module _ {ℓ} {T : Type ℓ} (fresh : T) (reset : T → T) (max_size : ℕ) where
  -- An object is handed out that was idle, or a new one if none was; one that is given back is
  -- reset and idle again while there is room.
  pub data Step : Bag T → Call T → Event T → Bag T → Type ℓ where
    acquire_new : Step (bag_of []) acquire_call (acquired fresh) (bag_of [])
    acquire_idle : (x : T) (b : Bag T) → Step (put x b) acquire_call (acquired x) b
    release_null : (b : Bag T) → Step b (release_call none) nothing_seen b
    release_kept :
        (x : T) (b : Bag T)
        → count b < max_size
        → Step b (release_call (some x)) nothing_seen (put (reset x) b)
    release_full :
        (x : T) (b : Bag T) → max_size ≤ count b → Step b (release_call (some x)) nothing_seen b
    clear_all : (b : Bag T) → Step b clear_call nothing_seen (bag_of [])
    reserved :
        (n k : ℕ) (b : Bag T)
        → k ≡ min n max_size - count b
        → Step b (reserve_call n) nothing_seen (put_many k fresh b)

  pub data Steps : Bag T → List (Call T) → List (Event T) → Bag T → Type ℓ where
    no_step : (b : Bag T) → Steps b [] [] b
    and_then :
        (b c d : Bag T) (call : Call T) (event : Event T) (calls : List (Call T))
        (events : List (Event T))
        → Step b call event c
        → Steps c calls events d
        → Steps b (call ∷ calls) (event ∷ events) d

module _ {ℓ} {T : Type ℓ} (fresh : T) where
  -- One call, and any sequence of them, on the pool.
  unfoldable pub perform : Call T → ObjectPool T → Event T × ObjectPool T
  perform acquire_call p = (acquired (acquire fresh p).0, (acquire fresh p).1)
  perform clear_call p = (nothing_seen, clear p)
  perform (reserve_call n) p = (nothing_seen, reserve fresh n p)
  perform (release_call x) p = (nothing_seen, release x p)

  unfoldable pub perform_all : List (Call T) → ObjectPool T → List (Event T) × ObjectPool T
  perform_all [] p = ([], p)
  perform_all (call ∷ calls) p =
      let (event, q) = perform call p in
      let (events, r) = perform_all calls q in (event ∷ events, r)

  abbrev pub idle : ObjectPool T → Bag T
  idle p = bag_of p.pool

  put_many-put :
      (k : ℕ) (b : Bag T) → put_many k fresh (put fresh b) ≡ put fresh (put_many k fresh b)
  put_many-put zero b = refl
  put_many-put (suc k) b = ap (put fresh) (put_many-put k b)

  -- The loop fills the pool up to the count, as far as there is room.
  reserve_loop-put_many :
      (fuel n : ℕ) (p : ObjectPool T)
      → n - size p ≤ fuel
      → idle (reserve_loop fuel fresh n p) ≡ put_many (min n p.max_size - size p) fresh (idle p)
  unfolding reserve_loop put
  reserve_loop-put_many zero n p h =
      let no_more : 0 ≡ min n p.max_size - size p = omega arith in
      ap (λ k. put_many k fresh (idle p)) no_more
  reserve_loop-put_many (suc fuel) n p h =
      elim (Bool-cases (ltb (size p) n && ltb (size p) p.max_size)) [
        | inl room ↦
            let rec = reserve_loop-put_many fuel n (push_back fresh p) (ground arith) in
            let more : suc (min n p.max_size - suc (size p)) ≡ min n p.max_size - size p =
              ground arith in
            rw room (
              rec
              ∙ put_many-put (min n p.max_size - suc (size p)) (idle p)
              ∙ ap (λ k. put_many k fresh (idle p)) more)
        | inr full ↦
            let no_more : 0 ≡ min n p.max_size - size p = ground arith in
            rw full (ap (λ k. put_many k fresh (idle p)) no_more)
      ]

  acquire-Step :
      (reset : T → T) (max : ℕ) (xs : List T)
      → Step fresh reset max
          (bag_of xs)
          acquire_call
          (acquired (take_back fresh xs).0)
          (bag_of (take_back fresh xs).1)
  unfolding put
  acquire-Step reset max [] = acquire_new
  acquire-Step reset max (x ∷ xs) = acquire_idle x (bag_of xs)

  perform-Step :
      (call : Call T) (p : ObjectPool T)
      → Step fresh
          (apply_reset p.reset_func)
          p.max_size
          (idle p)
          call
          (perform call p).0
          (idle (perform call p).1)
  unfolding perform acquire clear reserve release put count
  perform-Step acquire_call p = acquire-Step (apply_reset p.reset_func) p.max_size p.pool
  perform-Step clear_call p = clear_all (idle p)
  perform-Step (reserve_call n) p =
      rw (reserve_loop-put_many n n p (omega arith))
        (reserved n (min n p.max_size - size p) (idle p) refl)
  perform-Step (release_call none) p = release_null (idle p)
  perform-Step (release_call (some x)) p = elim (Bool-cases (ltb (size p) p.max_size)) [
    | inl room ↦ rw room (release_kept x (idle p) (ltb→lt (size p) p.max_size room))
    | inr full ↦ rw full (release_full x (idle p) (ltb→le (size p) p.max_size full))
  ]

  reserve_loop_fixed :
      (fuel n : ℕ) (p : ObjectPool T)
      → ((reserve_loop fuel fresh n p).max_size ≡ p.max_size)
        × ((reserve_loop fuel fresh n p).reset_func ≡ p.reset_func)
  unfolding reserve_loop
  reserve_loop_fixed zero n p = (refl, refl)
  reserve_loop_fixed (suc fuel) n p =
      let rest = reserve_loop_fixed fuel n (push_back fresh p) in ground arith

  -- The bound and the reset do not change.
  perform_fixed :
      (call : Call T) (p : ObjectPool T)
      → ((perform call p).1.max_size ≡ p.max_size) × ((perform call p).1.reset_func ≡ p.reset_func)
  unfolding perform acquire clear reserve release
  perform_fixed acquire_call p = (refl, refl)
  perform_fixed clear_call p = (refl, refl)
  perform_fixed (reserve_call n) p = reserve_loop_fixed n n p
  perform_fixed (release_call none) p = (refl, refl)
  perform_fixed (release_call (some x)) p = ground arith

  -- Any calls on an object pool are steps of the bag of its idle objects, in which their order is
  -- forgotten: the client sees an idle object, or a new one if there is none, what is given back is
  -- reset and kept while there is room, and a reserve fills up to the count or the bound.
  pub perform_all-Steps :
      (calls : List (Call T)) (p : ObjectPool T)
      → Steps fresh
          (apply_reset p.reset_func)
          p.max_size
          (idle p)
          calls
          (perform_all calls p).0
          (idle (perform_all calls p).1)
  unfolding perform_all
  perform_all-Steps [] p = no_step (idle p)
  perform_all-Steps (call ∷ calls) p =
      let (max_eq, reset_eq) = perform_fixed call p in
      let rest = perform_all-Steps calls (perform call p).1 in
      and_then (idle p) (idle (perform call p).1) _ call (perform call p).0 calls _
        (perform-Step call p) (rw (max_eq, reset_eq) at rest)

  reserve_loop-size :
      (fuel n : ℕ) (p : ObjectPool T)
      → size p ≤ p.max_size
      → size (reserve_loop fuel fresh n p) ≤ p.max_size
  unfolding reserve_loop
  reserve_loop-size zero n p h = h
  reserve_loop-size (suc fuel) n p h =
      let rest = reserve_loop-size fuel n (push_back fresh p) in ground arith

  acquire-size : (p : ObjectPool T) → size (acquire fresh p).1 ≤ size p
  unfolding acquire
  acquire-size p = shorter p.pool
    where
      shorter : (xs : List T) → length (take_back fresh xs).1 ≤ length xs
      shorter [] = omega arith
      shorter (x ∷ xs) = omega arith

  perform-size :
      (call : Call T) (p : ObjectPool T)
      → size p ≤ p.max_size
      → size (perform call p).1 ≤ p.max_size
  unfolding perform clear reserve release
  perform-size acquire_call p h = omega (arith, acquire-size p)
  perform-size clear_call p h = omega arith
  perform-size (reserve_call n) p h = reserve_loop-size n n p h
  perform-size (release_call none) p h = h
  perform-size (release_call (some x)) p h = ground arith

  -- A pool that holds at most as many idle objects as its bound does so after any calls.
  pub perform_all-size :
      (calls : List (Call T)) (p : ObjectPool T)
      → size p ≤ p.max_size
      → size (perform_all calls p).1 ≤ p.max_size
  unfolding perform_all
  perform_all-size [] p h = h
  perform_all-size (call ∷ calls) p h =
      let bound = perform-size call p h in
      let fixed = (perform_fixed call p).0 in
      let rest = perform_all-size calls (perform call p).1 (omega arith) in omega arith
