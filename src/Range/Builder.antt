-- ===== src/Range/Builder.antt =====
-- src/core/range.cpp: If-Range, and the responses to a request with byte ranges. The files, the
-- dates that the C library reads and the random digits of a boundary are parameters.
use web_frame.Prelude.{
  ℕ, zero, suc, ◌-◌, ◌^◌, ◌%◌, Bool, true, false, ◌&&◌, ◌||◌, not, Option, none, some, List, [],
  ◌∷◌, ◌++◌, if◌then◌else◌, take, drop, length, eq_list, ltb, ◌==◌, get_or,
}
use web_frame.Prelude.Int.{ℤ, pos, negsuc}
use web_frame.Prelude.Bytes.{codes}
use web_frame.Prelude.Text.{print_ℤ, Text, is_empty, starts_with, to_decimal}
use web_frame.Core.Request.{Request, header}
use web_frame.Core.Response.{Response, empty_response, set_status, set_header, set_body, not_found}
use web_frame.Range.{ByteRange, bytes, get_start, get_end, size_of, normalize}
use web_frame.Range.Parse.{RangeHeader, is_valid, parse}

-- What the code finds outside: the bytes of the file at a path, if it can be opened; `get_time`
-- and `timegm` of the C library, as seconds; and the draws of the random device.
pub record Outside {ℓ} (Tm : Type ℓ) : Type ℓ where
  pub disk : Text → Option Text
  pub get_time : Text → Option Tm
  pub timegm : Tm → ℤ
  pub draw : ℕ → ℕ

unfoldable pub to_content_range : ByteRange → ℤ → Text
to_content_range r total_size =
    codes "bytes "
    ++ print_ℤ (get_start r)
    ++ codes "-"
    ++ print_ℤ (get_end r)
    ++ codes "/"
    ++ print_ℤ total_size

-- `static_cast<size_t>`.
abbrev pub to_size : ℤ → ℕ
to_size (pos n) = n % 2 ^ 64
to_size (negsuc n) = 2 ^ 64 - 1 - n % 2 ^ 64

-- `none` stands for `std::out_of_range`.
unfoldable pub substr : ℕ → ℕ → Text → Option Text
substr start count s = if ltb (length s) start then none else some (take count (drop start s))

-- The members of the builder.
pub record RangeResponseBuilder : Type 0 where
  pub content : Text
  pub content_type : Text
  pub etag : Text
  pub last_modified : Text
  pub file_path : Text
  pub use_file : Bool

abbrev pub new_builder : RangeResponseBuilder
new_builder = record {
  content = [];
  content_type = codes "application/octet-stream";
  etag = [];
  last_modified = [];
  file_path = [];
  use_file = false;
}

unfoldable pub set_content : Text → Text → RangeResponseBuilder → RangeResponseBuilder
set_content text content_type b = record b {
  content = text;
  content_type = content_type;
  use_file = false;
}

unfoldable pub set_file : Text → Text → RangeResponseBuilder → RangeResponseBuilder
set_file path content_type b = record b {
  file_path = path;
  content_type = content_type;
  use_file = true;
}

unfoldable pub set_etag : Text → RangeResponseBuilder → RangeResponseBuilder
set_etag value b = record b { etag = value }

unfoldable pub set_last_modified : Text → RangeResponseBuilder → RangeResponseBuilder
set_last_modified value b = record b { last_modified = value }

-- The status and the headers that a response of a content begins with.
abbrev pub set_if_given : Text → Text → Response → Response
set_if_given name value r = if is_empty value then r else set_header name value r

unfoldable pub range_not_satisfiable : ℤ → Response
range_not_satisfiable total_size = set_header (codes "Content-Length") (codes "0") (
    set_header (codes "Content-Range") (codes "bytes */" ++ print_ℤ total_size)
      (set_status 416 empty_response))

-- The body and its length.
abbrev pub finish : Text → Response → Response
finish body r = set_header (codes "Content-Length") (to_decimal (length body)) (set_body body r)

unfoldable pub partial_content : Text → ℤ → ℤ → ℤ → Text → Response
partial_content body start end total content_type = finish body (
    set_header (codes "Content-Range") (to_content_range (bytes (some start) (some end)) total) (
      set_header (codes "Accept-Ranges") (codes "bytes")
        (set_header (codes "Content-Type") content_type (set_status 206 empty_response))))

-- The validators that are given.
abbrev pub set_validators : RangeResponseBuilder → Response → Response
set_validators b r =
    set_if_given (codes "Last-Modified") b.last_modified (set_if_given (codes "ETag") b.etag r)

abbrev pub typed : ℕ → Text → Response
typed status content_type =
    set_header (codes "Accept-Ranges") (codes "bytes")
      (set_header (codes "Content-Type") content_type (set_status status empty_response))

-- The sixteen digits that are drawn, each of `count` more.
unfoldable pub boundary_digits : (ℕ → ℕ) → ℕ → ℕ → Text
boundary_digits draw i zero = []
boundary_digits draw i (suc count) =
    get_or (codes "0123456789abcdef") (draw i) 0 ∷ boundary_digits draw (suc i) count

unfoldable pub generate_boundary : (ℕ → ℕ) → Text
generate_boundary draw = codes "----corouteBoundary" ++ boundary_digits draw 0 16

abbrev crlf : Text
crlf = 13 ∷ 10 ∷ []

abbrev valid_time : ℤ → Option ℤ
valid_time (negsuc zero) = none
valid_time t = some t

abbrev same_second : Option ℤ → Option ℤ → Bool
same_second (some (pos a)) (some (pos b)) = a == b
same_second (some (negsuc a)) (some (negsuc b)) = a == b
same_second _ _ = false

-- The outer `none` is the exception of a string of a negative length; a position below zero
-- cannot be sought.
abbrev pub read_at : ℤ → ℤ → Text → Option (Option Text)
read_at (negsuc start) count text = some none
read_at (pos start) (negsuc count) text = none
read_at (pos start) (pos count) text = some (some (take count (drop start text)))

-- What cannot be read is left empty.
abbrev pub or_empty : Option (Option Text) → Option Text
or_empty none = none
or_empty (some none) = some []
or_empty (some (some text)) = some text

abbrev pub single_response : RangeResponseBuilder → ByteRange → ℤ → Text → Response
single_response b r total_size body = finish body (
    set_validators b (
      set_header (codes "Content-Range") (to_content_range r total_size)
        (typed 206 b.content_type)))

abbrev pub part : Text → RangeResponseBuilder → ByteRange → ℤ → Text → Text
part boundary b r total_size body =
    codes "--"
    ++ boundary
    ++ crlf
    ++ codes "Content-Type: "
    ++ b.content_type
    ++ crlf
    ++ codes "Content-Range: "
    ++ to_content_range r total_size
    ++ crlf
    ++ crlf
    ++ body
    ++ crlf

abbrev pub multipart_response : Text → RangeResponseBuilder → Text → Response
multipart_response boundary b body =
    finish body (set_validators b (typed 206 (codes "multipart/byteranges; boundary=" ++ boundary)))

abbrev pub keep_accepted : Bool × ByteRange → List ByteRange → List ByteRange
keep_accepted (accepted, r) rs = if accepted then r ∷ rs else rs

-- The loop that normalizes the ranges.
unfoldable pub valid_ranges : List ByteRange → ℤ → List ByteRange
valid_ranges [] total_size = []
valid_ranges (r ∷ rs) total_size =
    keep_accepted (normalize r total_size) (valid_ranges rs total_size)

unfoldable pub get_range : Request → Option RangeHeader
get_range req = elim (header req (codes "Range")) [ none ↦ none | some value ↦ parse value ]

module _ {ℓ} {Tm : Type ℓ} (o : Outside Tm) where
  unfoldable pub from_http_date : Text → Option ℤ
  from_http_date date = elim (o.get_time date) [ none ↦ none | some tm ↦ valid_time (o.timegm tm) ]

  unfoldable pub check_if_range : Request → Text → Text → Bool
  check_if_range req etag last_modified = elim (header req (codes "If-Range")) [
    | none ↦ true
    | some value ↦
        if starts_with (b'"' ∷ []) value || starts_with (codes "W/") value
        then not (is_empty etag) && eq_list value etag
        else same_second (from_http_date value) (from_http_date last_modified)
  ]

  unfoldable pub should_use_range : Request → Text → Text → Bool
  should_use_range req etag last_modified = elim (header req (codes "Range")) [
    | none ↦ false
    | some value ↦ check_if_range req etag last_modified
  ]

  unfoldable pub read_file_range : RangeResponseBuilder → ℤ → ℤ → Option (Option Text)
  read_file_range b start count = elim (o.disk b.file_path) [
    | none ↦ some none
    | some text ↦ read_at start count text
  ]

  unfoldable pub range_data : RangeResponseBuilder → ByteRange → Option Text
  range_data b r =
      if b.use_file
      then or_empty (read_file_range b (get_start r) (size_of r))
      else substr (to_size (get_start r)) (to_size (size_of r)) b.content

  abbrev pub full_body : RangeResponseBuilder → Text
  full_body b =
      if b.use_file then elim (o.disk b.file_path) [ none ↦ [] | some text ↦ text ] else b.content

  unfoldable pub build_full : RangeResponseBuilder → Response
  build_full b = finish (full_body b) (set_validators b (typed 200 b.content_type))

  unfoldable pub build_single_range : RangeResponseBuilder → ByteRange → ℤ → Option Response
  build_single_range b r total_size = elim (range_data b r) [
    | none ↦ none
    | some body ↦ some (single_response b r total_size body)
  ]

  -- The loop over the ranges, from the text that is written so far.
  unfoldable pub multipart_body :
      Text → RangeResponseBuilder → ℤ → List ByteRange → Text → Option Text
  multipart_body boundary b total_size [] written =
      some (written ++ codes "--" ++ boundary ++ codes "--" ++ crlf)
  multipart_body boundary b total_size (r ∷ rs) written = elim (range_data b r) [
    | none ↦ none
    | some body ↦
        multipart_body boundary b total_size rs (written ++ part boundary b r total_size body)
  ]

  unfoldable pub build_multipart_range : RangeResponseBuilder → List ByteRange → ℤ → Option Response
  build_multipart_range b rs total_size =
      elim (multipart_body (generate_boundary o.draw) b total_size rs []) [
        | none ↦ none
        | some body ↦ some (multipart_response (generate_boundary o.draw) b body)
      ]

  abbrev pub content_size : RangeResponseBuilder → Option ℤ
  content_size b =
      if b.use_file
      then elim (o.disk b.file_path) [ none ↦ none | some text ↦ some (pos (length text)) ]
      else some (pos (length b.content))

  unfoldable pub build_valid : RangeResponseBuilder → List ByteRange → ℤ → Option Response
  build_valid b [] total_size = some (range_not_satisfiable total_size)
  build_valid b (r ∷ []) total_size = build_single_range b r total_size
  build_valid b (r ∷ q ∷ rs) total_size = build_multipart_range b (r ∷ q ∷ rs) total_size

  unfoldable pub build_sized : RangeResponseBuilder → Request → ℤ → Option Response
  build_sized b req total_size = elim (get_range req) [
    | none ↦ some (build_full b)
    | some h ↦
        if not (is_valid h)
        then some (build_full b)
        else if not (check_if_range req b.etag b.last_modified)
        then some (build_full b)
        else build_valid b (valid_ranges h.ranges total_size) total_size
  ]

  -- `none` is an exception that leaves the function.
  unfoldable pub build : RangeResponseBuilder → Request → Option Response
  build b req = elim (content_size b) [
    | none ↦ some (not_found (codes "Not Found"))
    | some total_size ↦ build_sized b req total_size
  ]

  abbrev build_accepted : RangeResponseBuilder → ℤ → Bool × ByteRange → Option Response
  build_accepted b total_size (accepted, r) =
      if accepted
      then build_single_range b r total_size
      else some (range_not_satisfiable total_size)

  unfoldable pub build_range : RangeResponseBuilder → ℤ → ℤ → Option Response
  build_range b start end = elim (content_size b) [
    | none ↦ some (not_found (codes "Not Found"))
    | some total_size ↦
        build_accepted b total_size (normalize (bytes (some start) (some end)) total_size)
  ]
