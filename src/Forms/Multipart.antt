-- ===== src/Forms/Multipart.antt =====
-- src/core/form.cpp, `parse_multipart` and what it calls, `extract_boundary` and `parse`.
use web_frame.Prelude.{
  ℕ, zero, suc, ◌+◌, ◌-◌, ◌%◌, ◌^◌, not, ◌||◌, Option, none, some, [], ◌∷◌, ◌++◌, map, length, take,
  drop, eq_list, if◌then◌else◌,
}
use web_frame.Prelude.Bytes.{codes}
use web_frame.Prelude.Expected.{Expected, ok, unexpected, http, bad_request, unsupported_media_type}
use web_frame.Prelude.Text.{Text, is_empty, trim, to_lower, starts_with, find_char, find_text, crlf}
use web_frame.Core.Request.{Request, header}
use web_frame.Forms.Fields.{FormField, FormData, no_fields, add}
use web_frame.Forms.UrlEncoded.{parse_urlencoded}

abbrev pub up_to_quote : Text → Option ℕ → Text
up_to_quote t none = []
up_to_quote t (some end) = take end t

abbrev pub quoted_at : Text → Text → Option ℕ → Text
quoted_at marker t none = []
quoted_at marker t (some pos) =
    let rest = drop (pos + length marker) t in up_to_quote rest (find_char b'"' rest)

-- What stands in quotes behind the first `marker`.
unfoldable pub quoted : Text → Text → Text
quoted marker t = quoted_at marker t (find_text marker t)

abbrev pub name_marker : Text
name_marker = codes "name=\""

abbrev pub filename_marker : Text
filename_marker = codes "filename=\""

-- The name and the file name.
unfoldable pub parse_content_disposition : Text → Text × Text
unfolding quoted
parse_content_disposition t = (quoted name_marker t, quoted filename_marker t)

-- The two headers of a part that are read.
pub record PartHeaders : Type 0 where
  pub disposition : Text
  pub type_of : Text

abbrev pub no_headers : PartHeaders
no_headers = record { disposition = []; type_of = [] }

abbrev pub store_header : Text → Text → PartHeaders → PartHeaders
store_header name_lower value h =
    if eq_list name_lower (codes "content-disposition")
    then record h { disposition = value }
    else if eq_list name_lower (codes "content-type")
    then record h { type_of = value }
    else h

abbrev pub split_header : Text → PartHeaders → Option ℕ → PartHeaders
split_header line h none = h
split_header line h (some colon) =
    store_header (map to_lower (trim (take colon line))) (trim (drop (colon + 1) line)) h

unfoldable pub read_header : Text → PartHeaders → PartHeaders
read_header line h = split_header line h (find_char b':' line)

abbrev pub line_end : Text → Option ℕ → ℕ
line_end t none = length t
line_end t (some i) = i

-- The loop over the lines of the headers: each round takes two bytes.
unfoldable pub part_headers : ℕ → Text → PartHeaders → PartHeaders
unfolding read_header
part_headers zero t h = h
part_headers (suc fuel) t h =
    let end = line_end t (find_text crlf t) in
    let rest = part_headers fuel (drop (end + 2) t) (read_header (take end t) h) in
    if is_empty t then h else rest

abbrev pub blank_line : Text
blank_line = 13 ∷ 10 ∷ 13 ∷ 10 ∷ []

-- The content, up to a CRLF before the delimiter, which is found at `end`. A blank line stands before
-- the content: if the content is empty, its last CRLF is taken for that one, and the length of the
-- content wraps around below zero.
unfoldable pub content_before : ℕ → Text → Text
content_before end t =
    let seen = blank_line ++ take end t in
    if eq_list (drop (length seen - 2) seen) crlf
    then take ((end + 2 ^ 64 - 2) % 2 ^ 64) t
    else take end t

abbrev pub named_field : Text × Text → Text → Text → FormField
named_field (name, filename) type value = record {
  name = name;
  value = value;
  filename = filename;
  content_type = type;
  is_file = not (is_empty filename);
}

abbrev pub add_named : FormField → FormData → FormData
add_named f d = if is_empty f.name then d else add f d

unfoldable pub add_part : PartHeaders → Text → FormData → FormData
unfolding parse_content_disposition
add_part h value d =
    add_named (named_field (parse_content_disposition h.disposition) h.type_of value) d

-- The rest of a round: `headers` are those of the part, `t` stands behind them.
abbrev pub with_content :
    (Text → FormData → FormData) → Text → Text → FormData → Text → Option ℕ → FormData
with_content more delimiter headers d t none = d
with_content more delimiter headers d t (some end) =
    more (drop (end + length delimiter) t)
      (add_part (part_headers (length headers) headers no_headers) (content_before end t) d)

abbrev pub with_headers :
    (Text → FormData → FormData) → Text → FormData → Text → Option ℕ → FormData
with_headers more delimiter d t none = d
with_headers more delimiter d t (some end) =
    let rest = drop (end + 4) t in
    with_content more delimiter (take end t) d rest (find_text delimiter rest)

unfoldable pub parse_part : (Text → FormData → FormData) → Text → Text → FormData → FormData
unfolding part_headers content_before add_part
parse_part more delimiter t d = with_headers more delimiter d t (find_text blank_line t)

-- The loop over what stands behind a delimiter.
unfoldable pub parts_loop : ℕ → Text → Text → FormData → FormData
unfolding parse_part
parts_loop zero delimiter t d = d
parts_loop (suc fuel) delimiter t d =
    if is_empty t
    then d
    else if eq_list (take 2 t) crlf
    then parse_part (parts_loop fuel delimiter) delimiter (drop 2 t) d
    else if eq_list (take 2 t) (codes "--")
    then d
    else parse_part (parts_loop fuel delimiter) delimiter t d

abbrev pub delimiter_of : Text → Text
delimiter_of boundary = codes "--" ++ boundary

abbrev pub from_first : Text → Text → Option ℕ → Expected FormData
from_first delimiter body none = unexpected (http bad_request "Multipart boundary not found")
from_first delimiter body (some pos) =
    ok (parts_loop (length body) delimiter (drop (pos + length delimiter) body) no_fields)

unfoldable pub parse_multipart : Text → Text → Expected FormData
unfolding parts_loop
parse_multipart body boundary =
    if is_empty body || is_empty boundary
    then ok no_fields
    else from_first (delimiter_of boundary) body (find_text (delimiter_of boundary) body)

abbrev quoted_boundary : Text → Option ℕ → Option Text
quoted_boundary t none = none
quoted_boundary t (some end) = some (take end t)

abbrev boundary_from : Text → Option Text
boundary_from [] = some (trim [])
boundary_from (c ∷ t) =
    if eq_list (c ∷ []) (codes "\"")
    then quoted_boundary t (find_char b'"' t)
    else some (trim (take (line_end (c ∷ t) (find_char b';' (c ∷ t))) (c ∷ t)))

abbrev boundary_at : Text → Option ℕ → Option Text
boundary_at t none = none
boundary_at t (some pos) = boundary_from (drop (pos + 9) t)

unfoldable pub extract_boundary : Text → Option Text
extract_boundary content_type =
    boundary_at content_type (find_text (codes "boundary=") content_type)

abbrev pub with_boundary : Text → Option Text → Expected FormData
with_boundary body none = unexpected (http bad_request "Missing boundary in multipart Content-Type")
with_boundary body (some boundary) = parse_multipart body boundary

abbrev pub of_type : Text → Option Text → Expected FormData
of_type body none = unexpected (http bad_request "Missing Content-Type header")
of_type body (some content_type) =
    if starts_with (codes "application/x-www-form-urlencoded") content_type
    then ok (parse_urlencoded body)
    else if starts_with (codes "multipart/form-data") content_type
    then with_boundary body (extract_boundary content_type)
    else unexpected (http unsupported_media_type "Unsupported form content type")

unfoldable pub parse : Request → Expected FormData
unfolding extract_boundary parse_multipart
parse req = of_type req.body (header req (codes "Content-Type"))
