-- ===== src/Http2/Connection/Keeps.antt =====
-- Steps that keep a property of the state, however they end, and that do not run out of fuel; and
-- what a step gives when it succeeds.
use web_frame.Prelude.{◌≡◌, ◌≢◌, Bool, true, false, if◌then◌else◌}
use web_frame.Prelude.Expected.{Expected, ok, unexpected}
use web_frame.Http2.Connection.State.{
  Run, done, stuck, Fault, deadlock, dangling, no_fuel, M, ◌>>=◌, ◌>>◌, attempt, with_state,
}

-- A fault of the program, and not one of the model's loops.
abbrev pub IsFault : Fault → Type 0
IsFault deadlock = Unit
IsFault dangling = Unit
IsFault no_fuel = ⊥

module _ {S : Type 0} (P : S → Type 0) where
  -- The state that a run ends in has the property; a run that stops has no state.
  abbrev pub Holds : {A : Type 0} → Run S A → Type 0
  Holds (done r s) = P s
  Holds (stuck fault) = IsFault fault

  abbrev pub Keeps : {A : Type 0} → M S A → Type 0
  Keeps m = (s : S) → P s → Holds (m s)

  Holds-attempt : {A : Type 0} (r : Run S A) (s₀ : S) → Holds r → Holds (attempt (λ _. r) s₀)
  unfolding attempt
  Holds-attempt (done r s) s₀ h = h
  Holds-attempt (stuck fault) s₀ h = h

module _ {S : Type 0} {P : S → Type 0} where
  Holds-result :
      {A B : Type 0} (r : Run S A) (f : A → M S B) (s₀ : S)
      → Holds P r
      → ((a : A) → Keeps P (f a))
      → Holds P (((λ _. r) >>= f) s₀)
  unfolding ◌>>=◌
  Holds-result (done (ok a) s) f s₀ h k = k a s h
  Holds-result (done (unexpected e) s) f s₀ h k = h
  Holds-result (stuck fault) f s₀ h k = h

  -- The same from one state, of which more may be known.
  pub Holds-bind :
      {A B : Type 0} (m : M S A) (f : A → M S B) (s : S)
      → Holds P (m s)
      → ((a : A) → Keeps P (f a))
      → Holds P ((m >>= f) s)
  unfolding ◌>>=◌
  Holds-bind m f s h k = Holds-result (m s) f s h k

  pub Keeps-bind :
      {A B : Type 0} (m : M S A) (f : A → M S B)
      → Keeps P m
      → ((a : A) → Keeps P (f a))
      → Keeps P (m >>= f)
  unfolding ◌>>=◌
  Keeps-bind m f h k s p = Holds-result (m s) f s (h s p) k

  -- What the state has where a run ends.
  pub Holds-done :
      {A : Type 0} (m : M S A) {s s' : S} {r : Expected A}
      → Keeps P m
      → P s
      → m s ≡ done r s'
      → P s'
  Holds-done m {s} k p e = rw e at (k s p)

  pub Keeps-then :
      {B : Type 0} (m : M S (Unit {0})) (k : M S B) → Keeps P m → Keeps P k → Keeps P (m >> k)
  Keeps-then m k h h' = Keeps-bind m (λ _. k) h λ _. h'

  pub Keeps-attempt : {A : Type 0} (m : M S A) → Keeps P m → Keeps P (attempt m)
  unfolding attempt
  Keeps-attempt m k s p = Holds-attempt P (m s) s (k s p)

  pub Keeps-with_state :
      {A : Type 0} (f : S → M S A) → ((s : S) → Keeps P (f s)) → Keeps P (with_state f)
  Keeps-with_state f k s = k s s

  pub Keeps-if :
      {A : Type 0} (b : Bool) (m m' : M S A)
      → Keeps P m
      → Keeps P m'
      → Keeps P (if b then m else m')
  Keeps-if true m m' k k' = k
  Keeps-if false m m' k k' = k'

-- A run after which a property holds did not run out of fuel.
pub Holds-ne-no_fuel : {S A : Type 0} (P : S → Type 0) (r : Run S A) → Holds P r → r ≢ stuck no_fuel
Holds-ne-no_fuel P r h e = rw e at h

-- A run that succeeds gives a result and a state that are related; one that does not, nothing.
abbrev pub Gives : {S A : Type 0} → (A → S → Type 0) → Run S A → Type 0
Gives R (done (ok a) s) = R a s
Gives R (done (unexpected e) s) = Unit
Gives R (stuck fault) = Unit

-- The relation where a result that was looked at is a success.
abbrev pub OnOk : {S A : Type 0} → (A → S → Type 0) → Expected A → S → Type 0
OnOk R (ok a) s = R a s
OnOk R (unexpected e) s = Unit

module _ {S A : Type 0} (R : A → S → Type 0) where
  Gives-result :
      {B : Type 0} (R' : B → S → Type 0) (r : Run S A) (f : A → M S B) (s₀ : S)
      → Gives R r
      → ((a : A) (s : S) → R a s → Gives R' (f a s))
      → Gives R' (((λ _. r) >>= f) s₀)
  unfolding ◌>>=◌
  Gives-result R' (done (ok a) s) f s₀ h k = k a s h
  Gives-result R' (done (unexpected e) s) f s₀ h k = tt
  Gives-result R' (stuck fault) f s₀ h k = tt

  pub Gives-bind :
      {B : Type 0} (R' : B → S → Type 0) (m : M S A) (f : A → M S B) (s : S)
      → Gives R (m s)
      → ((a : A) (s' : S) → R a s' → Gives R' (f a s'))
      → Gives R' ((m >>= f) s)
  unfolding ◌>>=◌
  Gives-bind R' m f s h k = Gives-result R' (m s) f s h k

  Gives-attempt_result : (r : Run S A) (s₀ : S) → Gives R r → Gives (OnOk R) (attempt (λ _. r) s₀)
  unfolding attempt
  Gives-attempt_result (done (ok a) s) s₀ h = h
  Gives-attempt_result (done (unexpected e) s) s₀ h = tt
  Gives-attempt_result (stuck fault) s₀ h = tt

  pub Gives-attempt : (m : M S A) (s : S) → Gives R (m s) → Gives (OnOk R) (attempt m s)
  unfolding attempt
  Gives-attempt m s h = Gives-attempt_result (m s) s h

  Holds-Gives_result :
      {B : Type 0} {P : S → Type 0} (r : Run S A) (f : A → M S B) (s₀ : S)
      → Holds P r
      → Gives R r
      → ((a : A) (s : S) → P s → R a s → Holds P (f a s))
      → Holds P (((λ _. r) >>= f) s₀)
  unfolding ◌>>=◌
  Holds-Gives_result (done (ok a) s) f s₀ p h k = k a s p h
  Holds-Gives_result (done (unexpected e) s) f s₀ p h k = p
  Holds-Gives_result (stuck fault) f s₀ p h k = p

  -- A sequence keeps a property if what its first part gives makes the second keep it.
  pub Holds-bind_Gives :
      {B : Type 0} {P : S → Type 0} (m : M S A) (f : A → M S B) (s : S)
      → Holds P (m s)
      → Gives R (m s)
      → ((a : A) (s' : S) → P s' → R a s' → Holds P (f a s'))
      → Holds P ((m >>= f) s)
  unfolding ◌>>=◌
  Holds-bind_Gives m f s p h k = Holds-Gives_result (m s) f s p h k

module _ {S A : Type 0} (P : S → Type 0) where
  Holds-Gives_of : (r : Run S A) → Holds P r → Gives (λ a s. P s) r
  Holds-Gives_of (done (ok a) s) h = h
  Holds-Gives_of (done (unexpected e) s) h = tt
  Holds-Gives_of (stuck fault) h = tt

  pub Holds-Gives : (m : M S A) (s : S) → Holds P (m s) → Gives (λ a s'. P s') (m s)
  Holds-Gives m s h = Holds-Gives_of (m s) h

-- Of any run.
pub Gives-any : {S A : Type 0} (r : Run S A) → Gives (λ a s. Unit {0}) r
Gives-any (done (ok a) s) = tt
Gives-any (done (unexpected e) s) = tt
Gives-any (stuck fault) = tt

-- A sequence gives what its second part gives, whatever its first part did.
pub Gives-after :
    {S A B : Type 0} (R : B → S → Type 0) (m : M S A) (f : A → M S B) (s : S)
    → ((a : A) (s' : S) → Gives R (f a s'))
    → Gives R ((m >>= f) s)
Gives-after R m f s k = Gives-bind (λ a s'. Unit {0}) R m f s (Gives-any (m s)) λ a s' _. k a s'

Gives-and_result :
    {S A : Type 0} (R R' : A → S → Type 0) (r : Run S A)
    → Gives R r
    → Gives R' r
    → Gives (λ a s. R a s × R' a s) r
Gives-and_result R R' (done (ok a) s) h k = (h, k)
Gives-and_result R R' (done (unexpected e) s) h k = tt
Gives-and_result R R' (stuck fault) h k = tt

pub Gives-and :
    {S A : Type 0} (R R' : A → S → Type 0) (m : M S A) (s : S)
    → Gives R (m s)
    → Gives R' (m s)
    → Gives (λ a s'. R a s' × R' a s') (m s)
Gives-and R R' m s h k = Gives-and_result R R' (m s) h k
