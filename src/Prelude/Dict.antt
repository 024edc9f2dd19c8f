-- ===== src/Prelude/Dict.antt =====
-- `std::unordered_map` as an association list: a key stands in it once, and the order of the
-- entries is not observed. `insert` is `operator[]` followed by an assignment.
use Prim.Native.Nat.{ℕ, ◌+◌}
use mathlib.Core.Path.{◌≡◌, refl}
use mathlib.Core.Logic.{◌↔◌, ◌≢◌, inl, inr}
use mathlib.Core.Bool.{Bool, true}
use mathlib.Core.Option.{Option, none, some}
use mathlib.Core.List.{List, [], ◌∷◌}
use native.Mathlib.Omega.{arith}
use web_frame.Prelude.Tests.{◌==◌, if◌then◌else◌, ==_iff, Bool-cases}
use web_frame.Prelude.Lists.{length, eq_list, eq_list_refl, eq_list→eq}

pub record Eq {ℓ} (A : Type ℓ) : Type ℓ where
  pub beq : A → A → Bool
  pub beq_iff : (a b : A) → (beq a b ≡ true) ↔ (a ≡ b)

instance abbrev pub nat_eq : Eq ℕ
nat_eq = record { beq = ◌==◌; beq_iff = ==_iff }

pub eq_list_iff : (xs ys : List ℕ) → (eq_list xs ys ≡ true) ↔ (xs ≡ ys)
eq_list_iff xs ys = (eq_list→eq xs ys, λ e. rw e (eq_list_refl ys))

instance abbrev pub text_eq : Eq (List ℕ)
text_eq = record { beq = eq_list; beq_iff = eq_list_iff }

module _ {ℓ κ} {K : Type ℓ} {V : Type κ} ⦃e : Eq K⦄ where
  unfoldable pub find : K → List (K × V) → Option V
  find k [] = none
  find k ((j, v) ∷ m) = if e.beq j k then some v else find k m

  unfoldable pub insert : K → V → List (K × V) → List (K × V)
  insert k v [] = (k, v) ∷ []
  insert k v ((j, w) ∷ m) = if e.beq j k then (k, v) ∷ m else (j, w) ∷ insert k v m

  unfoldable pub erase : K → List (K × V) → List (K × V)
  erase k [] = []
  erase k ((j, v) ∷ m) = if e.beq j k then m else (j, v) ∷ erase k m

  -- The value under a key is changed in place.
  unfoldable pub modify : K → (V → V) → List (K × V) → List (K × V)
  modify k f [] = []
  modify k f ((j, v) ∷ m) = if e.beq j k then (j, f v) ∷ m else (j, v) ∷ modify k f m

  abbrev pub Absent : K → List (K × V) → Type ℓ
  Absent k [] = Unit
  Absent k ((j, v) ∷ m) = (j ≢ k) × Absent k m

  -- No key stands twice.
  abbrev pub IsMap : List (K × V) → Type ℓ
  IsMap [] = Unit
  IsMap ((j, v) ∷ m) = Absent j m × IsMap m

  pub find-insert :
      (k j : K) (v : V) (m : List (K × V))
      → find j (insert k v m) ≡ (if e.beq k j then some v else find j m)
  unfolding find insert
  find-insert k j v [] = refl
  find-insert k j v ((i, w) ∷ m) =
      ground (arith, e.beq_iff k j, e.beq_iff i k, e.beq_iff i j, find-insert k j v m)

  pub find_of_Absent : (k : K) (m : List (K × V)) → Absent k m → find k m ≡ none
  unfolding find
  find_of_Absent k [] h = refl
  find_of_Absent k ((j, v) ∷ m) h = ground (arith, e.beq_iff j k, find_of_Absent k m h.1)

  pub Absent-find : (k : K) (m : List (K × V)) → find k m ≡ none → Absent k m
  unfolding find
  Absent-find k [] h = tt
  Absent-find k ((j, v) ∷ m) h = ground (arith, e.beq_iff j k, Absent-find k m)

  pub Absent-erase : (k j : K) (m : List (K × V)) → Absent k m → Absent k (erase j m)
  unfolding erase
  Absent-erase k j [] h = tt
  Absent-erase k j ((i, v) ∷ m) h = ground (arith, Absent-erase k j m h.1)

  pub Absent-modify :
      (k j : K) (f : V → V) (m : List (K × V)) → Absent k m → Absent k (modify j f m)
  unfolding modify
  Absent-modify k j f [] h = tt
  Absent-modify k j f ((i, v) ∷ m) h = ground (arith, Absent-modify k j f m h.1)

  pub Absent-insert :
      (k j : K) (v : V) (m : List (K × V)) → j ≢ k → Absent k m → Absent k (insert j v m)
  unfolding insert
  Absent-insert k j v [] n h = (n, tt)
  Absent-insert k j v ((i, w) ∷ m) n h = ground (arith, Absent-insert k j v m n h.1)

  pub insert-IsMap : (k : K) (v : V) (m : List (K × V)) → IsMap m → IsMap (insert k v m)
  unfolding insert
  insert-IsMap k v [] h = (tt, tt)
  insert-IsMap k v ((j, w) ∷ m) (a, h) = elim (Bool-cases (e.beq j k)) [
    | inl same ↦ rw same (let j_k : j ≡ k = (e.beq_iff j k).0 same in rw (← j_k) (a, h))
    | inr other ↦
        rw other
          (Absent-insert j k v m (λ p. ground (arith, e.beq_iff j k)) a, insert-IsMap k v m h)
  ]

  pub erase-IsMap : (k : K) (m : List (K × V)) → IsMap m → IsMap (erase k m)
  unfolding erase
  erase-IsMap k [] h = tt
  erase-IsMap k ((j, v) ∷ m) (a, h) = ground (arith, Absent-erase j k m a, erase-IsMap k m h)

  pub modify-IsMap : (k : K) (f : V → V) (m : List (K × V)) → IsMap m → IsMap (modify k f m)
  unfolding modify
  modify-IsMap k f [] h = tt
  modify-IsMap k f ((j, v) ∷ m) (a, h) =
      ground (arith, Absent-modify j k f m a, modify-IsMap k f m h)

  pub find-erase_self : (k : K) (m : List (K × V)) → IsMap m → find k (erase k m) ≡ none
  unfolding find erase
  find-erase_self k [] h = refl
  find-erase_self k ((j, v) ∷ m) (a, h) = elim (Bool-cases (e.beq j k)) [
    | inl same ↦ rw same (find_of_Absent k m (rw ((e.beq_iff j k).0 same) at a))
    | inr other ↦ rw (other, other) (find-erase_self k m h)
  ]

  pub find-erase_ne : (k j : K) (m : List (K × V)) → j ≢ k → find j (erase k m) ≡ find j m
  unfolding find erase
  find-erase_ne k j [] n = refl
  find-erase_ne k j ((i, v) ∷ m) n =
      ground (arith, e.beq_iff i k, e.beq_iff i j, find-erase_ne k j m n)

  pub find-modify_self :
      (k : K) (f : V → V) (m : List (K × V)) (v : V)
      → find k m ≡ some v
      → find k (modify k f m) ≡ some (f v)
  unfolding find modify
  find-modify_self k f [] v h = cc
  find-modify_self k f ((j, w) ∷ m) v h = elim (Bool-cases (e.beq j k)) [
    | inl same ↦ rw (same, same) (ground arith)
    | inr other ↦ rw (other, other) (find-modify_self k f m v (ground arith))
  ]

  pub find-modify_ne :
      (k j : K) (f : V → V) (m : List (K × V)) → j ≢ k → find j (modify k f m) ≡ find j m
  unfolding find modify
  find-modify_ne k j f [] n = refl
  find-modify_ne k j f ((i, v) ∷ m) n =
      ground (arith, e.beq_iff i k, e.beq_iff i j, find-modify_ne k j f m n)

  pub length-modify : (k : K) (f : V → V) (m : List (K × V)) → length (modify k f m) ≡ length m
  unfolding modify
  length-modify k f [] = refl
  length-modify k f ((j, v) ∷ m) = ground (arith, length-modify k f m)

  pub length-insert_new :
      (k : K) (v : V) (m : List (K × V)) → find k m ≡ none → length (insert k v m) ≡ length m + 1
  unfolding find insert
  length-insert_new k v [] h = omega arith
  length-insert_new k v ((j, w) ∷ m) h = ground (arith, length-insert_new k v m)

  pub length-erase_found :
      (k : K) (m : List (K × V)) (v : V) → find k m ≡ some v → length (erase k m) + 1 ≡ length m
  unfolding find erase
  length-erase_found k [] v h = cc
  length-erase_found k ((j, w) ∷ m) v h = ground (arith, length-erase_found k m v)

  pub erase_of_none : (k : K) (m : List (K × V)) → find k m ≡ none → erase k m ≡ m
  unfolding find erase
  erase_of_none k [] h = refl
  erase_of_none k ((j, w) ∷ m) h = ground (arith, erase_of_none k m)
