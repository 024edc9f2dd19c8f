-- ===== src/Forms/Requests.antt =====
-- A request that carries a multipart form is answered with its fields.
use web_frame.Prelude.{
  ◌≤◌, ◌≡◌, ◌≢◌, ap, ◌∙◌, some, List, [], ◌∷◌, ◌++◌, length, take_all, All, All-mono, arith,
}
use web_frame.Prelude.Bytes.{codes}
use web_frame.Prelude.Expected.{ok}
use web_frame.Prelude.Text.{Text, trim, find_text}
use web_frame.Prelude.Search.{find_char-none}
use web_frame.Core.Request.{Request, header}
use web_frame.Forms.Fields.{FormField, no_fields}
use web_frame.Forms.Lookup.{add_each}
use web_frame.Forms.Multipart.{
  delimiter_of, extract_boundary, with_boundary, of_type, parse_multipart, parse,
}
use web_frame.Forms.Parts.{IsPart, print_parts, parse_multipart-print_parts}

-- A boundary that needs no quotes.
pub record IsBoundary (boundary : Text) : Type 0 where
  pub something : 1 ≤ length boundary
  pub plain : All (λ c. (c ≢ b';') × (c ≢ b'"')) boundary
  pub trimmed : trim boundary ≡ boundary

abbrev pub multipart_type : Text → Text
multipart_type boundary = codes "multipart/form-data; boundary=" ++ boundary

abbrev pub multipart_body : Text → List FormField → Text
multipart_body boundary fs = delimiter_of boundary ++ print_parts (delimiter_of boundary) fs

extract_boundary-multipart_type :
    (boundary : Text)
    → IsBoundary boundary
    → extract_boundary (multipart_type boundary) ≡ some boundary
unfolding extract_boundary find_text
extract_boundary-multipart_type [] b = absurd (omega (arith, b.something))
extract_boundary-multipart_type (c ∷ boundary) b =
    let plain : All (λ d. d ≢ b';') (c ∷ boundary) = All-mono (λ d q. q.0) (c ∷ boundary) b.plain in
    let whole = take_all (c ∷ boundary) in
    let none_found = find_char-none b';' (c ∷ boundary) plain in
    ground (arith, none_found, whole, b.trimmed)

-- The fields that a client wrote into a multipart body are added in order, where the request names the
-- boundary, which needs no quotes, in its Content-Type, and each field can be written as a part: its
-- name is not empty, its content does not hold the delimiter, and its other texts hold nothing that
-- ends them.
pub parse-multipart_body :
    (req : Request) (boundary : Text) (fs : List FormField)
    → header req (codes "Content-Type") ≡ some (multipart_type boundary)
    → req.body ≡ multipart_body boundary fs
    → IsBoundary boundary
    → All (IsPart (delimiter_of boundary)) fs
    → parse req ≡ ok (add_each fs no_fields)
unfolding parse
parse-multipart_body req boundary fs h e b p =
    ap (of_type req.body) h
    ∙ ap (with_boundary req.body) (extract_boundary-multipart_type boundary b)
    ∙ ap (λ body. parse_multipart body boundary) e
    ∙ parse_multipart-print_parts boundary fs b.something p
