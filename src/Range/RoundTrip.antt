-- ===== src/Range/RoundTrip.antt =====
-- The Range headers that a client prints are read back, and the parser's loop reads each of the
-- specs between the commas.
use web_frame.Prelude.{
  ℕ, zero, suc, ◌^◌, ◌<◌, ◌≤◌, ◌≡◌, ◌≢◌, refl, none, some, List, [], ◌∷◌, ◌++◌, ◌∙◌, ap,
  if◌then◌else◌, take, drop, length, map, ◌==◌, ne→==, length-append, Option-cases, inl, inr, arith,
  All, All-append, All-mono, length-drop, take-append,
}
use web_frame.Prelude.Int.{pos}
use web_frame.Prelude.Bytes.{codes}
use web_frame.Prelude.Text.{Text, trim, trim_front, find_char, to_decimal}
use web_frame.Prelude.Search.{
  is_empty_text, IsVisible, trim_visible, find_char-append, drop_after, plus_one,
}
use web_frame.Range.{ByteRange, bytes}
use web_frame.Range.Digits.{stoll-to_decimal, to_decimal-IsDigit, length-to_decimal}
use web_frame.Range.Parse.{
  header_of, non_empty, join_sides, parse_side, parse_trimmed, parse_range_spec, push, parse_specs,
  parse_header, parse,
}

-- The pieces of a text between its commas: one more than there are commas.
abbrev put_first : ℕ → List Text → List Text
put_first c [] = (c ∷ []) ∷ []
put_first c (p ∷ ps) = (c ∷ p) ∷ ps

unfoldable pub split_commas : Text → List Text
split_commas [] = [] ∷ []
split_commas (c ∷ s) = if c == b',' then [] ∷ split_commas s else put_first c (split_commas s)

-- The ranges of the pieces that can be read, in order.
unfoldable pub keep_ranges : List Text → List ByteRange
keep_ranges [] = []
keep_ranges (p ∷ ps) = push (parse_range_spec p) (keep_ranges ps)

split_commas-none : (s : Text) → find_char b',' s ≡ none → split_commas s ≡ s ∷ []
unfolding find_char split_commas
split_commas-none [] h = refl
split_commas-none (c ∷ s) h = ground (arith, split_commas-none s)

split_commas-some :
    (s : Text) (i : ℕ)
    → find_char b',' s ≡ some i
    → split_commas s ≡ take i s ∷ split_commas (drop (suc i) s)
unfolding find_char split_commas
split_commas-some [] i h = ground arith
split_commas-some (c ∷ s) zero h = ground arith
split_commas-some (c ∷ s) (suc i) h = ground (arith, split_commas-some s i)

parse_spec_empty : parse_range_spec [] ≡ none
unfolding parse_range_spec parse_trimmed trim trim_front
parse_spec_empty = refl

-- With at least as much fuel as there are bytes, the loop of `parse` gives the ranges of the pieces
-- between the commas that can be read, in order.
pub parse_specs-split_commas :
    (n : ℕ) (s : Text) → length s ≤ n → parse_specs n s ≡ keep_ranges (split_commas s)
unfolding parse_specs keep_ranges split_commas
parse_specs-split_commas zero [] h = rw parse_spec_empty refl
parse_specs-split_commas zero (c ∷ s) h = ground arith
parse_specs-split_commas (suc n) [] h = rw parse_spec_empty refl
parse_specs-split_commas (suc n) (c ∷ s) h = elim (Option-cases (find_char b',' (c ∷ s))) [
  | inl e ↦ rw (parse_specs, e, split_commas-none (c ∷ s) e) refl
  | inr (i, e) ↦
      rw (parse_specs, e, split_commas-some (c ∷ s) i e)
        (ap (push (parse_range_spec (take i (c ∷ s)))) (
          ap (λ k. parse_specs n (drop k (c ∷ s))) (plus_one i)
          ∙ parse_specs-split_commas n (drop i s) (omega (arith, length-drop i s))))
]

-- A range as a client asks for it.
pub data Spec : Type 0 where
  closed : ℕ → ℕ → Spec
  open_ended : ℕ → Spec
  suffix : ℕ → Spec

abbrev pub range_of : Spec → ByteRange
range_of (closed a b) = bytes (some (pos a)) (some (pos b))
range_of (open_ended a) = bytes (some (pos a)) none
range_of (suffix n) = bytes none (some (pos n))

abbrev pub print_spec : Spec → Text
print_spec (closed a b) = to_decimal a ++ b'-' ∷ to_decimal b
print_spec (open_ended a) = to_decimal a ++ b'-' ∷ []
print_spec (suffix n) = b'-' ∷ to_decimal n

-- Positions are numbers of 63 bits.
abbrev pub IsSpec : Spec → Type 0
IsSpec (closed a b) = (a < 2 ^ 63) × (b < 2 ^ 63)
IsSpec (open_ended a) = a < 2 ^ 63
IsSpec (suffix n) = n < 2 ^ 63

-- The characters of a printed spec: digits and dashes, so no white space and no comma.
abbrev IsPlain : ℕ → Type 0
IsPlain c = (b'-' ≤ c) × (c ≤ b'9')

visible : (s : Text) → All IsPlain s → All IsVisible s
visible = All-mono (λ c h. omega arith)

to_decimal-IsPlain : (n : ℕ) → All IsPlain (to_decimal n)
to_decimal-IsPlain n = All-mono (λ c h. ground arith) (to_decimal n) (to_decimal-IsDigit n)

dash-IsPlain : IsPlain b'-'
dash-IsPlain = ground arith

print_spec-IsPlain : (sp : Spec) → All IsPlain (print_spec sp)
print_spec-IsPlain (closed a b) =
    All-append IsPlain (to_decimal a) (b'-' ∷ to_decimal b) (to_decimal-IsPlain a)
      (dash-IsPlain, to_decimal-IsPlain b)
print_spec-IsPlain (open_ended a) =
    All-append IsPlain (to_decimal a) (b'-' ∷ []) (to_decimal-IsPlain a) (dash-IsPlain, tt)
print_spec-IsPlain (suffix n) = (dash-IsPlain, to_decimal-IsPlain n)

no_dash : (n : ℕ) → All (λ d. d ≢ b'-') (to_decimal n)
no_dash n = All-mono (λ c h e. omega arith) (to_decimal n) (to_decimal-IsDigit n)

-- One side of the dash is read back.
parse_side-to_decimal :
    (n : ℕ) → n < 2 ^ 63 → parse_side (trim (to_decimal n)) ≡ some (some (pos n))
unfolding parse_side
parse_side-to_decimal n h =
    rw
      (
        trim_visible (to_decimal n) (visible (to_decimal n) (to_decimal-IsPlain n)),
        parse_side,
        stoll-to_decimal n h,
        is_empty_text (to_decimal n) (length-to_decimal n),
      )
      refl

parse_side_nothing : parse_side (trim []) ≡ some none
unfolding parse_side trim trim_front
parse_side_nothing = refl

-- A text with a dash after its first part.
parse_at_first_dash :
    (s t : Text)
    → All (λ d. d ≢ b'-') s
    → All IsPlain (s ++ b'-' ∷ t)
    → parse_range_spec (s ++ b'-' ∷ t) ≡ join_sides (parse_side (trim s)) (parse_side (trim t))
unfolding parse_range_spec parse_trimmed
parse_at_first_dash s t n h =
    rw
      (
        trim_visible (s ++ b'-' ∷ t) (visible (s ++ b'-' ∷ t) h),
        parse_trimmed,
        is_empty_text (s ++ b'-' ∷ t) (omega (arith, length-append s (b'-' ∷ t))),
        find_char-append b'-' s t n,
        take-append s (b'-' ∷ t),
        drop_after s t b'-',
      )
      refl

parse_range_spec-print_spec :
    (sp : Spec) → IsSpec sp → parse_range_spec (print_spec sp) ≡ some (range_of sp)
parse_range_spec-print_spec (closed a b) (h, k) =
    rw
      (
        parse_at_first_dash (to_decimal a) (to_decimal b) (no_dash a)
            (print_spec-IsPlain (closed a b)),
        parse_side-to_decimal a h,
        parse_side-to_decimal b k,
      )
      refl
parse_range_spec-print_spec (open_ended a) h =
    rw
      (
        parse_at_first_dash (to_decimal a) [] (no_dash a) (print_spec-IsPlain (open_ended a)),
        parse_side-to_decimal a h,
        parse_side_nothing,
      )
      refl
parse_range_spec-print_spec (suffix n) h =
    rw
      (
        parse_at_first_dash [] (to_decimal n) tt (print_spec-IsPlain (suffix n)),
        parse_side_nothing,
        parse_side-to_decimal n h,
      )
      refl

abbrev pub print_specs : Spec → List Spec → Text
print_specs sp [] = print_spec sp
print_specs sp (sq ∷ sps) = print_spec sp ++ b',' ∷ print_specs sq sps

-- A text without a comma is one piece; a comma ends it.
split_commas_plain : (s : Text) → All IsPlain s → split_commas s ≡ s ∷ []
unfolding split_commas
split_commas_plain [] h = refl
split_commas_plain (c ∷ s) (p, h) =
    rw (ne→== c b',' (λ e. omega arith), split_commas_plain s h) refl

split_commas-append :
    (s t : Text) → All IsPlain s → split_commas (s ++ b',' ∷ t) ≡ s ∷ split_commas t
unfolding split_commas
split_commas-append [] t h = refl
split_commas-append (c ∷ s) t (p, h) =
    rw (ne→== c b',' (λ e. omega arith), split_commas-append s t h) refl

keep_ranges-print_specs :
    (sp : Spec) (sps : List Spec)
    → IsSpec sp
    → All IsSpec sps
    → keep_ranges (split_commas (print_specs sp sps)) ≡ map range_of (sp ∷ sps)
unfolding keep_ranges
keep_ranges-print_specs sp [] h hs =
    rw
      (
        split_commas_plain (print_spec sp) (print_spec-IsPlain sp),
        keep_ranges,
        parse_range_spec-print_spec sp h,
      )
      refl
keep_ranges-print_specs sp (sq ∷ sps) h (k, hs) =
    rw
      (
        split_commas-append (print_spec sp) (print_specs sq sps) (print_spec-IsPlain sp),
        keep_ranges,
        parse_range_spec-print_spec sp h,
      )
      (ap (λ rs. range_of sp ∷ rs) (keep_ranges-print_specs sq sps k hs))

print_specs-IsVisible : (sp : Spec) (sps : List Spec) → All IsVisible (print_specs sp sps)
print_specs-IsVisible sp [] = visible (print_spec sp) (print_spec-IsPlain sp)
print_specs-IsVisible sp (sq ∷ sps) =
    All-append IsVisible (print_spec sp) (b',' ∷ print_specs sq sps)
      (visible (print_spec sp) (print_spec-IsPlain sp)) (ground arith, print_specs-IsVisible sq sps)

parse_header_bytes :
    (specs : Text)
    → parse_header (codes "bytes=" ++ specs)
      ≡ non_empty (header_of (codes "bytes") (parse_specs (length specs) specs))
unfolding parse_header find_char trim trim_front
parse_header_bytes specs = refl

bytes-IsVisible : All IsVisible (codes "bytes=")
bytes-IsVisible = ground arith

-- A Range header with any specs whose positions have 63 bits is read back as their ranges, in
-- order.
pub parse-print_specs :
    (sp : Spec) (sps : List Spec)
    → IsSpec sp
    → All IsSpec sps
    → parse (codes "bytes=" ++ print_specs sp sps)
      ≡ some (header_of (codes "bytes") (map range_of (sp ∷ sps)))
unfolding parse
parse-print_specs sp sps h hs =
    rw
      (
        trim_visible (codes "bytes=" ++ print_specs sp sps) (
            All-append IsVisible (codes "bytes=") (print_specs sp sps) bytes-IsVisible
              (print_specs-IsVisible sp sps)),
        parse_header_bytes (print_specs sp sps),
        parse_specs-split_commas (length (print_specs sp sps)) (print_specs sp sps) (omega arith),
        keep_ranges-print_specs sp sps h hs,
      )
      refl
