-- ===== src/Range.antt =====
-- include/coroute/core/range.hpp and src/core/range.cpp: byte ranges of a Range header and their
-- normalization against the size of the content.
mod Selection
mod Parse
mod Digits
mod RoundTrip
mod Builder
mod Pick
mod Answers
mod Lengths
mod Requests
mod Tests
use web_frame.Prelude.{ℕ, Bool, true, false, Option, none, some, if◌then◌else◌}
use web_frame.Prelude.Int.{ℤ, pos, negsuc, ◌+ℤ◌, ◌-ℤ◌, ltb_ℤ, leb_ℤ}

-- Both ends are inclusive; without a start, the end is the length of a suffix.
pub record ByteRange : Type 0 where
  pub start : Option ℤ
  pub end : Option ℤ

abbrev pub bytes : Option ℤ → Option ℤ → ByteRange
bytes start end = record { start = start; end = end }

-- `value_or`.
abbrev pub value_or : Option ℤ → ℤ → ℤ
value_or none d = d
value_or (some a) d = a

abbrev pub get_start : ByteRange → ℤ
get_start r = value_or r.start (pos 0)

abbrev pub get_end : ByteRange → ℤ
get_end r = value_or r.end (pos 0)

unfoldable pub size_of : ByteRange → ℤ
size_of r = get_end r -ℤ get_start r +ℤ pos 1

-- The result, and the range as it is left.
unfoldable pub normalize_suffix : ℤ → ByteRange → ℤ → Bool × ByteRange
normalize_suffix suffix_length r total_size =
    if leb_ℤ suffix_length (pos 0)
    then (false, r)
    else if leb_ℤ total_size suffix_length
    then (true, bytes (some (pos 0)) (some (total_size -ℤ pos 1)))
    else (true, bytes (some (total_size -ℤ suffix_length)) (some (total_size -ℤ pos 1)))

unfoldable pub normalize_end : ℤ → Option ℤ → ByteRange → ℤ → Bool × ByteRange
normalize_end s none r total_size = (true, bytes (some s) (some (total_size -ℤ pos 1)))
normalize_end s (some e) r total_size =
    if ltb_ℤ e s
    then (false, r)
    else if leb_ℤ total_size e
    then (true, bytes (some s) (some (total_size -ℤ pos 1)))
    else (true, r)

unfoldable pub normalize_ends : Option ℤ → Option ℤ → ByteRange → ℤ → Bool × ByteRange
unfolding normalize_suffix normalize_end
normalize_ends none (some e) r total_size = normalize_suffix e r total_size
normalize_ends none none r total_size = (false, r)
normalize_ends (some s) e r total_size =
    if leb_ℤ total_size s
    then (false, r)
    else if ltb_ℤ s (pos 0)
    then (false, r)
    else normalize_end s e r total_size

unfoldable pub normalize : ByteRange → ℤ → Bool × ByteRange
unfolding normalize_ends
normalize r total_size =
    if leb_ℤ total_size (pos 0) then (false, r) else normalize_ends r.start r.end r total_size
