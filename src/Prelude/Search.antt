-- ===== src/Prelude/Search.antt =====
-- Searching and trimming texts.
use Prim.Native.Nat.{ℕ, suc, ◌+◌, ◌≤◌}
use mathlib.Core.Path.{◌≡◌, refl, sym, ap, ◌∙◌}
use mathlib.Core.Logic.{◌≢◌, inl, inr}
use mathlib.Core.Bool.{true, false}
use mathlib.Core.Option.{none, some}
use mathlib.Core.List.{[], ◌∷◌, ◌++◌, reverse, reverse-reverse, reverse_aux}
use native.Mathlib.Omega.{arith}
use web_frame.Prelude.Tests.{Option-cases}
use web_frame.Prelude.Lists.{length, drop, All}
use web_frame.Prelude.Text.{
  Text, is_empty, trim, trim_front, starts_with, crlf, find_char, find_text,
}

pub plus_one : (i : ℕ) → i + 1 ≡ suc i
plus_one i = omega arith

pub is_empty_text : (s : Text) → 1 ≤ length s → is_empty s ≡ false
is_empty_text [] h = ground arith
is_empty_text (c ∷ s) h = refl

abbrev pub IsVisible : ℕ → Type 0
IsVisible c = 33 ≤ c

pub trim_front_visible : (s : Text) → All IsVisible s → trim_front s ≡ s
unfolding trim_front
trim_front_visible [] h = refl
trim_front_visible (c ∷ s) h = ground arith

pub reverse_aux-IsVisible :
    (s acc : Text) → All IsVisible s → All IsVisible acc → All IsVisible (reverse_aux s acc)
reverse_aux-IsVisible [] acc h k = k
reverse_aux-IsVisible (c ∷ s) acc (p, h) k = reverse_aux-IsVisible s (c ∷ acc) h (p, k)

pub trim_visible : (s : Text) → All IsVisible s → trim s ≡ s
unfolding trim
trim_visible s h =
    rw (trim_front_visible s h, trim_front_visible (reverse s) (reverse_aux-IsVisible s [] h tt))
      (reverse-reverse s)

pub find_char-append :
    (c : ℕ) (s t : Text) → All (λ d. d ≢ c) s → find_char c (s ++ c ∷ t) ≡ some (length s)
unfolding find_char
find_char-append c [] t h = ground arith
find_char-append c (d ∷ s) t (n, h) = ground (arith, find_char-append c s t h)

pub drop_after : (s t : Text) (c : ℕ) → drop (length s + 1) (s ++ c ∷ t) ≡ t
drop_after [] t c = refl
drop_after (d ∷ s) t c =
    ap (λ k. drop k (d ∷ s ++ c ∷ t)) (plus_one (suc (length s)))
    ∙ ap (λ k. drop k (s ++ c ∷ t)) (sym (plus_one (length s)))
    ∙ drop_after s t c

pub starts_with-append : (p a b : Text) → starts_with p a ≡ true → starts_with p (a ++ b) ≡ true
starts_with-append [] a b h = refl
starts_with-append (x ∷ p) [] b h = ground arith
starts_with-append (x ∷ p) (y ∷ a) b h = ground (arith, starts_with-append p a b)

starts_with-unappend :
    (p a b : Text) → length p ≤ length a → starts_with p (a ++ b) ≡ starts_with p a
starts_with-unappend [] a b h = refl
starts_with-unappend (x ∷ p) [] b h = absurd (omega arith)
starts_with-unappend (x ∷ p) (y ∷ a) b h = ground (arith, starts_with-unappend p a b)

length-starts_with : (p a : Text) → starts_with p a ≡ true → length p ≤ length a
length-starts_with [] a h = omega arith
length-starts_with (x ∷ p) [] h = ground arith
length-starts_with (x ∷ p) (y ∷ a) h = ground (arith, length-starts_with p a)

-- What is found lies within the text.
pub find_text_bounds : (p a : Text) (i : ℕ) → find_text p a ≡ some i → i + length p ≤ length a
unfolding find_text
find_text_bounds [] [] i h = ground arith
find_text_bounds (x ∷ p) [] i h = ground arith
find_text_bounds p (y ∷ a) i h = elim (Option-cases (find_text p a)) [
  | inl e ↦ ground (arith, length-starts_with p (y ∷ a))
  | inr (j, e) ↦ ground (arith, length-starts_with p (y ∷ a), find_text_bounds p a j e)
]

-- More text behind does not change what is found.
pub find_text-append :
    (p a b : Text) (i : ℕ) → find_text p a ≡ some i → 1 ≤ length p → find_text p (a ++ b) ≡ some i
unfolding find_text
find_text-append [] a b i h l = absurd (omega arith)
find_text-append (x ∷ p) [] b i h l = ground arith
find_text-append (x ∷ p) (y ∷ a) b i h l = elim (Option-cases (find_text (x ∷ p) a)) [
  | inl e ↦ ground (arith, starts_with-append (x ∷ p) (y ∷ a) b)
  | inr (j, e) ↦
      let bound = find_text_bounds (x ∷ p) a j e in
      ground (
        arith,
        starts_with-append (x ∷ p) (y ∷ a) b,
        starts_with-unappend (x ∷ p) (y ∷ a) b,
        find_text-append (x ∷ p) a b j e l,
      )
]

-- What is found in a longer text is found in a front that holds all of it.
pub find_text_front :
    (p a b : Text) (i : ℕ)
    → find_text p (a ++ b) ≡ some i
    → i + length p ≤ length a
    → 1 ≤ length p
    → find_text p a ≡ some i
unfolding find_text
find_text_front p [] b i h l k = absurd (omega arith)
find_text_front p (y ∷ a) b i h l k = elim (Option-cases (find_text p (a ++ b))) [
  | inl e ↦ ground (arith, starts_with-append p (y ∷ a) b, starts_with-unappend p (y ∷ a) b)
  | inr (j, e) ↦ ground (
    arith,
    starts_with-append p (y ∷ a) b,
    starts_with-unappend p (y ∷ a) b,
    find_text_front p a b j e,
  )
]

pub find_char-none : (c : ℕ) (s : Text) → All (λ d. d ≢ c) s → find_char c s ≡ none
unfolding find_char
find_char-none c [] h = refl
find_char-none c (d ∷ s) (n, h) = ground (arith, find_char-none c s h)

abbrev pub NoReturn : Text → Type 0
NoReturn = All (λ c. c ≢ 13)

pub find_text-crlf :
    (line rest : Text)
    → NoReturn line
    → find_text crlf (line ++ (crlf ++ rest)) ≡ some (length line)
unfolding find_text
find_text-crlf [] rest h = refl
find_text-crlf (c ∷ line) rest (n, h) = ground (arith, find_text-crlf line rest h)

pub drop_line : (line rest : Text) → drop (length line + 2) (line ++ (crlf ++ rest)) ≡ rest
drop_line [] rest = refl
drop_line (c ∷ line) rest =
    let e : length line + 2 ≡ suc (suc (length line)) = omega arith in
    let e' : length (c ∷ line) + 2 ≡ suc (suc (suc (length line))) = omega arith in
    rw e' (rw e at (drop_line line rest))
