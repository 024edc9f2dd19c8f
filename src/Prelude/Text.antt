-- ===== src/Prelude/Text.antt =====
-- Texts as lists of bytes, and what the code uses of <cctype> and std::string: the "C" locale's
-- classes, find, trimming and decimal printing.
use Prim.Native.Nat.{ℕ, zero, suc, ◌+◌, ◌/◌, ◌%◌}
use mathlib.Core.Path.{◌≡◌, refl}
use mathlib.Core.Bool.{Bool, true, false, ◌&&◌, ◌||◌}
use mathlib.Core.Option.{Option, none, some}
use mathlib.Core.List.{List, [], ◌∷◌, reverse}
use web_frame.Prelude.Int.{ℤ, pos, negsuc}
use web_frame.Prelude.Tests.{ltb, leb, ◌==◌, if◌then◌else◌}

abbrev pub Text : Type 0
Text = List ℕ

abbrev pub is_upper : ℕ → Bool
is_upper c = leb b'A' c && leb c b'Z'

abbrev pub is_digit : ℕ → Bool
is_digit c = leb b'0' c && leb c b'9'

-- Space, and the control characters from tab to carriage return.
abbrev pub is_space : ℕ → Bool
is_space c = c == 32 || leb 9 c && leb c 13

unfoldable pub to_lower : ℕ → ℕ
to_lower c = if is_upper c then c + 32 else c

abbrev pub is_empty : Text → Bool
is_empty [] = true
is_empty (c ∷ s) = false

-- `find(c)`: the position of the first `c`; `none` is `npos`.
unfoldable pub find_char : ℕ → Text → Option ℕ
find_char c [] = none
find_char c (d ∷ s) =
    if d == c then some 0 else elim (find_char c s) [ none ↦ none | some i ↦ some (suc i) ]

-- The loop that removes white space from the front.
unfoldable pub trim_front : Text → Text
trim_front [] = []
trim_front (c ∷ s) = if is_space c then trim_front s else c ∷ s

unfoldable pub trim : Text → Text
unfolding trim_front
trim s = reverse (trim_front (reverse (trim_front s)))

abbrev pub starts_with : Text → Text → Bool
starts_with [] s = true
starts_with (c ∷ p) [] = false
starts_with (c ∷ p) (d ∷ s) = d == c && starts_with p s

-- `find(p) != npos` for a text `p`.
unfoldable pub contains : Text → Text → Bool
contains p [] = is_empty p
contains p (c ∷ s) = starts_with p (c ∷ s) || contains p s

-- `find(p)` for a text `p`: where it stands first.
unfoldable pub find_text : Text → Text → Option ℕ
find_text p [] = if is_empty p then some 0 else none
find_text p (c ∷ s) =
    if starts_with p (c ∷ s)
    then some 0
    else elim (find_text p s) [ none ↦ none | some i ↦ some (suc i) ]

abbrev pub crlf : Text
crlf = 13 ∷ 10 ∷ []

-- `std::to_string` of a number that is not negative. The fuel is the number itself and one more:
-- each round divides by ten.
unfoldable pub decimal_from : ℕ → ℕ → Text → Text
decimal_from zero n acc = acc
decimal_from (suc fuel) n acc =
    let more = decimal_from fuel (n / 10) ((b'0' + n % 10) ∷ acc) in
    if ltb n 10 then (b'0' + n) ∷ acc else more

unfoldable pub to_decimal : ℕ → Text
unfolding decimal_from
to_decimal n = decimal_from (suc n) n []

-- Numbers below zero are printed with a sign.
abbrev pub print_ℤ : ℤ → Text
print_ℤ (pos n) = to_decimal n
print_ℤ (negsuc n) = b'-' ∷ to_decimal (suc n)

to_decimal_test : to_decimal 65535 ≡ b'6' ∷ b'5' ∷ b'5' ∷ b'3' ∷ b'5' ∷ []
unfolding to_decimal
to_decimal_test = refl
