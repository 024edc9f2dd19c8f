-- ===== src/Range/Pick.antt =====
-- The bytes of a content at the positions that a test accepts, and slices as such.
use web_frame.Prelude.{
  ℕ, zero, suc, ◌+◌, ◌≡◌, refl, Bool, false, ◌&&◌, [], ◌∷◌, if◌then◌else◌, take, drop, leb, ltb,
  lt→ltb, ap, ◌∙◌, arith,
}
use web_frame.Prelude.Text.{Text}

-- The bytes at the positions that a test accepts.
abbrev pub pick : (ℕ → Bool) → Text → Text
pick f [] = []
pick f (x ∷ xs) = if f 0 then x ∷ pick (λ i. f (suc i)) xs else pick (λ i. f (suc i)) xs

pub pick-ext : (f g : ℕ → Bool) (xs : Text) → ((i : ℕ) → f i ≡ g i) → pick f xs ≡ pick g xs
pick-ext f g [] e = refl
pick-ext f g (x ∷ xs) e =
    rw (e 0, pick-ext (λ i. f (suc i)) (λ i. g (suc i)) xs (λ i. e (suc i))) refl

pub pick_none : (f : ℕ → Bool) (xs : Text) → ((i : ℕ) → f i ≡ false) → pick f xs ≡ []
pick_none f [] e = refl
pick_none f (x ∷ xs) e = rw (e 0) (pick_none (λ i. f (suc i)) xs (λ i. e (suc i)))

-- A slice is what stands from one position to another.
pub pick_slice :
    (a n : ℕ) (xs : Text) → pick (λ i. leb a i && ltb i (a + n)) xs ≡ take n (drop a xs)
pick_slice zero zero xs = pick_none (λ i. leb 0 i && ltb i 0) xs (λ i. ground arith)
pick_slice zero (suc n) [] = refl
pick_slice zero (suc n) (x ∷ xs) = rw (lt→ltb 0 (0 + suc n) (omega arith)) (
    ap (λ t. x ∷ t)
      (pick-ext (λ i. leb 0 (suc i) && ltb (suc i) (0 + suc n)) (λ i. leb 0 i && ltb i (0 + n)) xs
          (λ i. ground arith)
        ∙ pick_slice zero n xs))
pick_slice (suc a) zero [] = refl
pick_slice (suc a) (suc n) [] = refl
pick_slice (suc a) n (x ∷ xs) =
    let before : leb (suc a) 0 ≡ false = ground arith in
    rw before (
      pick-ext (λ i. leb (suc a) (suc i) && ltb (suc i) (suc a + n)) (λ i. leb a i && ltb i (a + n))
        xs (λ i. ground arith)
      ∙ pick_slice a n xs)
