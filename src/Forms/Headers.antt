-- ===== src/Forms/Headers.antt =====
-- The headers of a part are read back.
use web_frame.Prelude.{
  ℕ, zero, suc, ◌+◌, ◌≤◌, ◌≡◌, ◌≢◌, refl, sym, ap, ◌∙◌, false, none, [], ◌∷◌, ◌++◌, map, length,
  length-append, take-append, take_all, drop_beyond, All, All-append, arith,
}
use mathlib.Core.List.{append_assoc, reverse, reverse-reverse, reverse-append}
use web_frame.Prelude.Bytes.{codes}
use web_frame.Prelude.Text.{Text, is_space, trim, trim_front, to_lower, find_text, crlf}
use web_frame.Prelude.Search.{
  find_char-append, find_text-crlf, drop_line, drop_after, is_empty_text, NoReturn,
}
use web_frame.Forms.Multipart.{PartHeaders, no_headers, store_header, read_header, part_headers}
use web_frame.Forms.Disposition.{quote, file_part, disposition_of}

-- The headers that a client writes for a part: a type only if there is one.
abbrev pub disposition_line : Text → Text → Text
disposition_line name filename = codes "Content-Disposition: " ++ disposition_of name filename

abbrev pub type_line : Text → Text
type_line type = codes "Content-Type: " ++ type

abbrev pub section_of : Text → Text → Text → Text
section_of name filename [] = disposition_line name filename
section_of name filename (c ∷ type) =
    disposition_line name filename ++ (crlf ++ type_line (c ∷ type))

trim_front-ends : (c : ℕ) (t : Text) → is_space c ≡ false → trim_front (c ∷ t) ≡ c ∷ t
unfolding trim_front
trim_front-ends c t h = rw h refl

trim_ends :
    (c d : ℕ) (t : Text)
    → is_space c ≡ false
    → is_space d ≡ false
    → trim ((c ∷ t) ++ d ∷ []) ≡ (c ∷ t) ++ d ∷ []
unfolding trim
trim_ends c d t h k =
    rw
      (
        trim_front-ends c (t ++ d ∷ []) h,
        reverse-append (c ∷ t) (d ∷ []),
        trim_front-ends d (reverse (c ∷ t)) k,
      )
      (ap reverse (sym (reverse-append (c ∷ t) (d ∷ []))) ∙ reverse-reverse ((c ∷ t) ++ d ∷ []))

read_header-line :
    (key value : Text) (h : PartHeaders)
    → All (λ c. c ≢ b':') key
    → read_header (key ++ b':' ∷ 32 ∷ value) h
      ≡ store_header (map to_lower (trim key)) (trim value) h
unfolding read_header trim trim_front
read_header-line key value h n =
    rw
      (
        find_char-append b':' key (32 ∷ value) n,
        take-append key (b':' ∷ 32 ∷ value),
        drop_after key (32 ∷ value) b':',
      )
      refl

find_text-crlf-none : (line : Text) → NoReturn line → find_text crlf line ≡ none
unfolding find_text
find_text-crlf-none [] n = refl
find_text-crlf-none (c ∷ line) (p, n) = ground (arith, find_text-crlf-none line n)

part_headers-nil : (fuel : ℕ) (h : PartHeaders) → part_headers fuel [] h ≡ h
unfolding part_headers
part_headers-nil zero h = refl
part_headers-nil (suc fuel) h = refl

part_headers-last :
    (fuel : ℕ) (line : Text) (h : PartHeaders)
    → NoReturn line
    → 1 ≤ length line
    → part_headers (suc fuel) line h ≡ read_header line h
unfolding part_headers
part_headers-last fuel line h n p =
    rw
      (
        part_headers,
        find_text-crlf-none line n,
        take_all line,
        drop_beyond (length line + 2) line (omega arith),
        is_empty_text line p,
      )
      (part_headers-nil fuel (read_header line h))

part_headers-next :
    (fuel : ℕ) (line rest : Text) (h : PartHeaders)
    → NoReturn line
    → part_headers (suc fuel) (line ++ (crlf ++ rest)) h
      ≡ part_headers fuel rest (read_header line h)
unfolding part_headers
part_headers-next fuel line rest h n =
    rw
      (
        part_headers,
        find_text-crlf line rest n,
        take-append line (crlf ++ rest),
        drop_line line rest,
        is_empty_text (line ++ (crlf ++ rest)) (omega (arith, length-append line (crlf ++ rest))),
      )
      refl

part_headers_one :
    (fuel : ℕ) (line : Text) (h : PartHeaders)
    → 1 ≤ fuel
    → NoReturn line
    → 1 ≤ length line
    → part_headers fuel line h ≡ read_header line h
part_headers_one zero line h k n p = absurd (omega arith)
part_headers_one (suc fuel) line h k n p = part_headers-last fuel line h n p

part_headers_two :
    (fuel : ℕ) (line next : Text) (h : PartHeaders)
    → 2 ≤ fuel
    → NoReturn line
    → NoReturn next
    → 1 ≤ length next
    → part_headers fuel (line ++ (crlf ++ next)) h ≡ read_header next (read_header line h)
part_headers_two zero line next h k n m p = absurd (omega arith)
part_headers_two (suc fuel) line next h k n m p =
    part_headers-next fuel line next h n
    ∙ part_headers_one fuel next (read_header line h) (omega arith) m p

trim-disposition_of :
    (name filename : Text) → trim (disposition_of name filename) ≡ disposition_of name filename
trim-disposition_of name [] = trim_ends b'f' b'"' (codes "orm-data; name=\"" ++ name) refl refl
trim-disposition_of name (c ∷ filename) =
    let end = codes "\"; filename=\"" ++ (c ∷ filename) in
    let e : (name ++ end) ++ quote ≡ name ++ (end ++ quote) = append_assoc name end quote in
    rw e at (trim_ends b'f' b'"' (codes "orm-data; name=\"" ++ (name ++ end)) refl refl)

read_header-disposition_line :
    (name filename : Text) (h : PartHeaders)
    → read_header (disposition_line name filename) h
      ≡ record h { disposition = disposition_of name filename }
read_header-disposition_line name filename h =
    read_header-line (codes "Content-Disposition") (disposition_of name filename) h (ground arith)
    ∙ (unfold to_lower trim trim_front in rw (trim-disposition_of name filename) refl)

read_header-type_line :
    (type : Text) (h : PartHeaders)
    → trim type ≡ type
    → read_header (type_line type) h ≡ record h { type_of = type }
read_header-type_line type h e =
    read_header-line (codes "Content-Type") type h (ground arith)
    ∙ (unfold to_lower trim trim_front in rw e refl)

file_part-NoReturn : (filename : Text) → NoReturn filename → NoReturn (file_part filename)
file_part-NoReturn [] f = tt
file_part-NoReturn (c ∷ filename) f =
    All-append (λ c. c ≢ 13) (codes "; filename=\"") ((c ∷ filename) ++ quote) (ground arith)
      (All-append (λ c. c ≢ 13) (c ∷ filename) quote f (ground arith))

pub disposition_line-NoReturn :
    (name filename : Text)
    → NoReturn name
    → NoReturn filename
    → NoReturn (disposition_line name filename)
disposition_line-NoReturn name filename n f =
    All-append (λ c. c ≢ 13) (codes "Content-Disposition: form-data; name=\"")
      (name ++ (quote ++ file_part filename)) (ground arith)
      (All-append (λ c. c ≢ 13) name (quote ++ file_part filename) n
        (ground arith, file_part-NoReturn filename f))

pub type_line-NoReturn : (type : Text) → NoReturn type → NoReturn (type_line type)
type_line-NoReturn type n = All-append (λ c. c ≢ 13) (codes "Content-Type: ") type (ground arith) n

-- The headers that a client wrote are read.
pub part_headers-section_of :
    (name filename type : Text)
    → NoReturn name
    → NoReturn filename
    → NoReturn type
    → trim type ≡ type
    → part_headers
        (length (section_of name filename type))
        (section_of name filename type)
        no_headers
      ≡ record { disposition = disposition_of name filename; type_of = type }
part_headers-section_of name filename [] n f t e =
    let line = disposition_line name filename in
    part_headers_one (length line) line no_headers (omega arith)
      (disposition_line-NoReturn name filename n f) (omega arith)
    ∙ read_header-disposition_line name filename no_headers
part_headers-section_of name filename (c ∷ type) n f t e =
    let line = disposition_line name filename in
    let rest = type_line (c ∷ type) in
    part_headers_two (length (line ++ (crlf ++ rest))) line rest no_headers
      (omega (arith, length-append line (crlf ++ rest)))
      (disposition_line-NoReturn name filename n f) (type_line-NoReturn (c ∷ type) t) (omega arith)
    ∙ ap (read_header rest) (read_header-disposition_line name filename no_headers)
    ∙ read_header-type_line (c ∷ type)
        (record { disposition = disposition_of name filename; type_of = [] }) e
