-- ===== src/Range/Tests.antt =====
-- Range requests at concrete contents.
use web_frame.Prelude.{ℕ, ◌≡◌, ◌&&◌, refl, true, none, some, [], ◌∷◌, ◌++◌, map, arith}
use web_frame.Prelude.Int.{pos, leb_ℤ}
use web_frame.Prelude.Bytes.{codes}
use web_frame.Prelude.Text.{Text}
use web_frame.Prelude.Dict.{text_eq, find, insert}
use web_frame.Core.Request.{Request, empty_request, add_header, header}
use web_frame.Core.Response.{Response}
use web_frame.Range.{bytes, get_start, get_end, normalize, normalize_ends, normalize_end}
use web_frame.Range.Selection.{selects, selects-normalize, IsWithin, normalize-IsWithin}
use web_frame.Range.Parse.{parse, parse_specs, header_of}
use web_frame.Range.RoundTrip.{
  closed, suffix, print_specs, range_of, parse-print_specs, keep_ranges, split_commas,
  parse_specs-split_commas,
}
use web_frame.Range.Builder.{Outside, RangeResponseBuilder, new_builder, build}
use web_frame.Range.Answers.{IsAnswer}
use web_frame.Range.Lengths.{Answers, build-Answers}
use web_frame.Range.Requests.{build-print_spec}

-- No file can be opened, no date is read.
abbrev nothing_outside : Outside ℕ
nothing_outside = record {
  disk = λ path. none;
  get_time = λ date. none;
  timegm = λ tm. pos tm;
  draw = λ i. i;
}

abbrev ten : Text
ten = codes "0123456789"

abbrev builder : RangeResponseBuilder
builder = record new_builder { content = ten }

abbrev last_three : Request
last_three = add_header (codes "Range") (codes "bytes=" ++ print_specs (suffix 3) []) empty_request

selects-normalize_example :
    selects (bytes none (some (pos 3))) 10 8
    ≡ (normalize (bytes none (some (pos 3))) (pos 10)).0
      && leb_ℤ (get_start (normalize (bytes none (some (pos 3))) (pos 10)).1) (pos 8)
      && leb_ℤ (pos 8) (get_end (normalize (bytes none (some (pos 3))) (pos 10)).1)
selects-normalize_example = selects-normalize (bytes none (some (pos 3))) 10 8

normalize_closed : (normalize (bytes (some (pos 2)) (some (pos 40))) (pos 10)).0 ≡ true
unfolding normalize normalize_ends normalize_end
normalize_closed = refl

normalize-IsWithin_test : IsWithin (normalize (bytes (some (pos 2)) (some (pos 40))) (pos 10)).1 10
normalize-IsWithin_test =
    normalize-IsWithin (bytes (some (pos 2)) (some (pos 40))) 10 normalize_closed

parse-print_specs_example :
    parse (codes "bytes=" ++ print_specs (closed 0 0) (suffix 5 ∷ []))
    ≡ some (header_of (codes "bytes") (map range_of (closed 0 0 ∷ suffix 5 ∷ [])))
parse-print_specs_example =
    parse-print_specs (closed 0 0) (suffix 5 ∷ []) (ground arith, ground arith) (ground arith, tt)

build-Answers_example : Answers (build nothing_outside builder last_three)
build-Answers_example = build-Answers nothing_outside builder last_three (ground arith)

last_three_range :
    header last_three (codes "Range") ≡ some (codes "bytes=" ++ print_specs (suffix 3) [])
unfolding header add_header find insert
last_three_range = refl

last_three_if_range : header last_three (codes "If-Range") ≡ none
unfolding header add_header find insert
last_three_if_range = refl

build-print_spec_example :
    (resp : Response) × (build nothing_outside builder last_three ≡ some resp)
    × IsAnswer (range_of (suffix 3)) ten resp
build-print_spec_example =
    build-print_spec nothing_outside builder last_three ten (suffix 3) (ground arith) refl
      (ground arith) last_three_range last_three_if_range

parse_specs-split_commas_test :
    parse_specs 9 (codes "0-4,x,-2,") ≡ keep_ranges (split_commas (codes "0-4,x,-2,"))
parse_specs-split_commas_test = parse_specs-split_commas 9 (codes "0-4,x,-2,") (omega arith)
