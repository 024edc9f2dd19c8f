-- ===== src/Range/Parse.antt =====
-- src/core/range.cpp: the parser of the Range header.
use web_frame.Prelude.{
  ℕ, zero, suc, ◌+◌, ◌≡◌, refl, Bool, true, false, ◌&&◌, Option, none, some, List, [], ◌∷◌,
  if◌then◌else◌, take, drop, length, eq_list, not, ◌==◌,
}
use web_frame.Prelude.Int.{ℤ, pos}
use web_frame.Prelude.Bytes.{codes}
use web_frame.Prelude.Text.{Text, is_empty, trim, trim_front, find_char}
use web_frame.Range.{ByteRange, bytes}
use web_frame.Range.Digits.{stoll, read_signed, read_unsigned, read_digits}

pub record RangeHeader : Type 0 where
  pub unit : Text
  pub ranges : List ByteRange

abbrev range_list_is_empty : List ByteRange → Bool
range_list_is_empty [] = true
range_list_is_empty (r ∷ rs) = false

unfoldable pub is_valid : RangeHeader → Bool
is_valid h = eq_list h.unit (codes "bytes") && not (range_list_is_empty h.ranges)

unfoldable pub is_single_range : RangeHeader → Bool
is_single_range h = length h.ranges == 1

-- One side of the dash: nothing, or a number; the outer `none` is an exception that is caught.
unfoldable pub parse_side : Text → Option (Option ℤ)
parse_side s =
    if is_empty s then some none else elim (stoll s) [ none ↦ none | some n ↦ some (some n) ]

-- At least one of the two sides stands.
abbrev pub both_sides : Option ℤ → Option ℤ → Option ByteRange
both_sides none none = none
both_sides start end = some (bytes start end)

abbrev pub join_sides : Option (Option ℤ) → Option (Option ℤ) → Option ByteRange
join_sides none _ = none
join_sides (some start) none = none
join_sides (some start) (some end) = both_sides start end

abbrev parse_at_dash : Text → Option ℕ → Option ByteRange
parse_at_dash spec none = none
parse_at_dash spec (some dash) =
    join_sides (parse_side (trim (take dash spec))) (parse_side (trim (drop (dash + 1) spec)))

unfoldable pub parse_trimmed : Text → Option ByteRange
parse_trimmed spec = if is_empty spec then none else parse_at_dash spec (find_char b'-' spec)

unfoldable pub parse_range_spec : Text → Option ByteRange
parse_range_spec spec = parse_trimmed (trim spec)

abbrev pub push : Option ByteRange → List ByteRange → List ByteRange
push none rs = rs
push (some r) rs = r ∷ rs

-- The loop over the specs that commas separate; `specs` is what stands from `start` on. The fuel
-- is at most the number of bytes: each round drops one.
unfoldable pub parse_specs : ℕ → Text → List ByteRange
parse_specs zero specs = []
parse_specs (suc fuel) [] = []
parse_specs (suc fuel) (c ∷ specs) = elim (find_char b',' (c ∷ specs)) [
  | none ↦ push (parse_range_spec (c ∷ specs)) []
  | some comma ↦
      push (parse_range_spec (take comma (c ∷ specs)))
        (parse_specs fuel (drop (comma + 1) (c ∷ specs)))
]

abbrev pub non_empty : RangeHeader → Option RangeHeader
non_empty h = if range_list_is_empty h.ranges then none else some h

abbrev pub header_of : Text → List ByteRange → RangeHeader
header_of unit ranges = record { unit = unit; ranges = ranges }

abbrev parse_unit : Text → Text → Option RangeHeader
parse_unit unit specs =
    if eq_list unit (codes "bytes")
    then non_empty (header_of unit (parse_specs (length specs) specs))
    else none

unfoldable pub parse_header : Text → Option RangeHeader
parse_header header = if is_empty header then none else elim (find_char b'=' header) [
  | none ↦ none
  | some eq ↦ parse_unit (trim (take eq header)) (drop (eq + 1) header)
]

unfoldable pub parse : Text → Option RangeHeader
parse header = parse_header (trim header)

parse_test :
    parse (codes "bytes=0-0, -5,x")
    ≡ some (
        header_of
          (codes "bytes")
          (bytes (some (pos 0)) (some (pos 0)) ∷ bytes none (some (pos 5)) ∷ []))
unfolding parse parse_header parse_specs parse_range_spec parse_trimmed parse_side stoll read_signed
    read_unsigned read_digits find_char trim trim_front
parse_test = refl
