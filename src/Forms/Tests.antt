-- ===== src/Forms/Tests.antt =====
-- Forms at concrete bytes.
use web_frame.Prelude.{◌≡◌, refl, true, some, List, [], ◌∷◌, ◌++◌, arith}
use web_frame.Prelude.Bytes.{codes}
use web_frame.Prelude.Expected.{ok}
use web_frame.Prelude.Text.{Text, crlf, trim, find_text}
use web_frame.Prelude.Dict.{find}
use web_frame.Core.Request.{Request, empty_request, header}
use web_frame.Forms.Fields.{FormField, field, no_fields, get_fields, get_field, get, get_all}
use web_frame.Forms.Lookup.{named, add_each, get_fields-add_each}
use web_frame.Forms.Url.{url_decode, url_encode, url_decode-url_encode}
use web_frame.Forms.UrlEncoded.{
  parse_urlencoded, print_form, fields_of, get_fields-parse_urlencoded,
}
use web_frame.Forms.Multipart.{delimiter_of, parse_content_disposition, parse}
use web_frame.Forms.Disposition.{parse_content_disposition-filename}
use web_frame.Forms.Parts.{IsPart}
use web_frame.Forms.Requests.{IsBoundary, multipart_type, multipart_body, parse-multipart_body}

url_encode_test : url_encode (codes "a b&c=~") ≡ codes "a+b%26c%3D~"
unfolding url_encode
url_encode_test = refl

-- A `%` that two digits do not follow stands for itself.
url_decode_test : url_decode (codes "100%+%4x") ≡ codes "100% %4x"
unfolding url_decode
url_decode_test = refl

url_decode-url_encode_example : url_decode (url_encode (codes "50% & more")) ≡ codes "50% & more"
url_decode-url_encode_example = url_decode-url_encode (codes "50% & more") (ground arith)

abbrev pairs : List (Text × Text)
pairs = (codes "tag", codes "a&b") ∷ (codes "user", codes "x=y") ∷ (codes "tag", []) ∷ []

get_fields-parse_urlencoded_example :
    get_fields (parse_urlencoded (print_form pairs)) (codes "tag")
    ≡ named (codes "tag") (fields_of pairs)
get_fields-parse_urlencoded_example = get_fields-parse_urlencoded pairs (codes "tag") (
  record { named_something = omega arith; name_bytes = ground arith; value_bytes = ground arith },
  (
    record { named_something = omega arith; name_bytes = ground arith; value_bytes = ground arith },
    (record { named_something = omega arith; name_bytes = ground arith; value_bytes = tt }, tt),
  ),
)

abbrev text_field : FormField
text_field = field (codes "tag") (codes "one--two")

abbrev file_field : FormField
file_field = record {
  name = codes "file";
  value = codes "x" ++ (crlf ++ codes "--");
  filename = codes "a.txt";
  content_type = codes "text/plain";
  is_file = true;
}

abbrev sent : List FormField
sent = text_field ∷ file_field ∷ field (codes "tag") [] ∷ []

get_fields-add_each_example :
    (get_fields (add_each sent no_fields) (codes "tag") ≡ text_field ∷ field (codes "tag") [] ∷ [])
    × (get_field (add_each sent no_fields) (codes "tag") ≡ some text_field)
    × (get_all (add_each sent no_fields) (codes "tag") ≡ codes "one--two" ∷ [] ∷ [])
    × (get (add_each sent no_fields) (codes "tag") ≡ some (codes "one--two"))
unfolding named
get_fields-add_each_example = get_fields-add_each sent (codes "tag")

abbrev boundary : Text
boundary = codes "XyZ"

boundary-IsBoundary : IsBoundary boundary
unfolding trim
boundary-IsBoundary = record { something = omega arith; plain = ground arith; trimmed = refl }

text_field-IsPart : IsPart (delimiter_of boundary) text_field
unfolding find_text trim
text_field-IsPart = record {
  named_something = omega arith;
  name_free = ground arith;
  name_line = ground arith;
  filename_free = tt;
  filename_line = tt;
  type_line = tt;
  type_trimmed = refl;
  file_flag = refl;
  value_short = omega arith;
  value_free = refl;
}

empty_field-IsPart : IsPart (delimiter_of boundary) (field (codes "tag") [])
unfolding find_text trim
empty_field-IsPart = record {
  named_something = omega arith;
  name_free = ground arith;
  name_line = ground arith;
  filename_free = tt;
  filename_line = tt;
  type_line = tt;
  type_trimmed = refl;
  file_flag = refl;
  value_short = omega arith;
  value_free = refl;
}

file_field-IsPart : IsPart (delimiter_of boundary) file_field
unfolding find_text trim
file_field-IsPart = record {
  named_something = omega arith;
  name_free = ground arith;
  name_line = ground arith;
  filename_free = ground arith;
  filename_line = ground arith;
  type_line = ground arith;
  type_trimmed = refl;
  file_flag = refl;
  value_short = omega arith;
  value_free = refl;
}

abbrev upload : Request
upload = record empty_request {
  headers = (codes "Content-Type", multipart_type boundary) ∷ [];
  body = multipart_body boundary sent;
}

parse-multipart_body_example : parse upload ≡ ok (add_each sent no_fields)
unfolding header find
parse-multipart_body_example =
    parse-multipart_body upload boundary sent refl refl boundary-IsBoundary
      (text_field-IsPart, (file_field-IsPart, (empty_field-IsPart, tt)))

parse_content_disposition-filename_test :
    (parse_content_disposition (codes "form-data; filename=\"a.txt\"; name=\"file\"")).0
    ≡ codes "a.txt"
parse_content_disposition-filename_test =
    parse_content_disposition-filename (codes "a.txt") (codes "; name=\"file\"") (ground arith)
