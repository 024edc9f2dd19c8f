-- ===== src/Pools/Handles.antt =====
-- include/coroute/util/object_pool.hpp: handles that give their object back when they end.
use web_frame.Prelude.{◌≡◌, refl, Bool, false, Option, none, if◌then◌else◌}
use web_frame.Pools.Objects.{ObjectPool, release}

-- Whether `pool_` is the pool, or null.
pub record PooledObject {ℓ} (T : Type ℓ) : Type ℓ where
  pub obj : Option T
  pub attached : Bool

module _ {ℓ} {T : Type ℓ} where
  abbrev pub handle : Option T → Bool → PooledObject T
  handle obj attached = record { obj = obj; attached = attached }

  -- The end of a handle.
  unfoldable pub destroy : PooledObject T → ObjectPool T → ObjectPool T
  destroy h p = if h.attached then release h.obj p else p

  -- The handle that is made, and what is left of the other one.
  unfoldable pub move : PooledObject T → PooledObject T × PooledObject T
  move other = (other, handle none false)

  -- An assignment to another handle than itself: the handle that is assigned to, the other one, and
  -- the pool.
  unfoldable pub move_assign :
      PooledObject T
      → PooledObject T
      → ObjectPool T
      → PooledObject T × PooledObject T × ObjectPool T
  move_assign this other p = (other, handle none false, destroy this p)

  -- The object leaves the handle and does not go back.
  unfoldable pub release_ownership : PooledObject T → Option T × PooledObject T
  release_ownership h = (h.obj, handle none false)

  -- When both handles have ended, the pool is as if nothing had moved.
  pub destroy-move :
      (h : PooledObject T) (p : ObjectPool T)
      → destroy (move h).1 (destroy (move h).0 p) ≡ destroy h p
  unfolding move destroy
  destroy-move h p = refl

  pub destroy-move_assign :
      (this other : PooledObject T) (p : ObjectPool T)
      → (let (this', other', p') = move_assign this other p in destroy other' (destroy this' p'))
        ≡ destroy other (destroy this p)
  unfolding move_assign destroy
  destroy-move_assign this other p = refl
