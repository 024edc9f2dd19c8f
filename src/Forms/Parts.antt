-- ===== src/Forms/Parts.antt =====
-- The parts of a multipart body are read back.
use web_frame.Prelude.{
  ℕ, zero, suc, ◌+◌, ◌-◌, ◌%◌, ◌^◌, ◌<◌, ◌≤◌, ◌≡◌, refl, ap, ◌∙◌, true, not, some, List, [], ◌∷◌,
  ◌++◌, length, take, drop, length-append, take-append, drop-append, All, arith,
}
use mathlib.Core.List.{append_assoc}
use web_frame.Prelude.Bytes.{codes}
use web_frame.Prelude.Expected.{ok}
use web_frame.Prelude.Text.{Text, is_empty, trim, find_text, starts_with, crlf}
use web_frame.Prelude.Search.{find_text-append, is_empty_text, NoReturn}
use web_frame.Forms.Fields.{FormField, FormData, no_fields, add}
use web_frame.Forms.Multipart.{
  PartHeaders, no_headers, part_headers, blank_line, content_before, add_part, parse_part,
  parts_loop, delimiter_of, parse_multipart, with_headers, with_content, from_first, named_field,
  add_named,
}
use web_frame.Forms.Disposition.{
  disposition_of, IsName, NoQuote, parse_content_disposition-disposition_of,
}
use web_frame.Forms.Headers.{section_of, part_headers-section_of}
use web_frame.Forms.Sections.{find_text-section_of}
use web_frame.Forms.Lookup.{add_each}

-- A multipart body, as a client writes it.
abbrev pub section_for : FormField → Text
section_for f = section_of f.name f.filename f.content_type

unfoldable pub print_parts : Text → List FormField → Text
print_parts delimiter [] = codes "--" ++ crlf
print_parts delimiter (f ∷ fs) =
    crlf
    ++ (section_for f
        ++ (blank_line ++ (f.value ++ (crlf ++ (delimiter ++ print_parts delimiter fs)))))

-- A field that can be written as a part: the content does not hold the delimiter, and the other
-- texts hold nothing that ends them.
pub record IsPart (delimiter : Text) (f : FormField) : Type 0 where
  pub named_something : 1 ≤ length f.name
  pub name_free : IsName f.name
  pub name_line : NoReturn f.name
  pub filename_free : NoQuote f.filename
  pub filename_line : NoReturn f.filename
  pub type_line : NoReturn f.content_type
  pub type_trimmed : trim f.content_type ≡ f.content_type
  pub file_flag : f.is_file ≡ not (is_empty f.filename)
  pub value_short : length f.value < 2 ^ 64
  pub value_free : find_text delimiter (f.value ++ (crlf ++ delimiter)) ≡ some (length f.value + 2)

drop_past : (s m rest : Text) → drop (length s + length m) (s ++ (m ++ rest)) ≡ rest
drop_past s m rest = rw (← length-append s m, ← append_assoc s m rest) (drop-append (s ++ m) rest)

take_past : (s m rest : Text) → take (length s + length m) (s ++ (m ++ rest)) ≡ s ++ m
take_past s m rest = rw (← length-append s m, ← append_assoc s m rest) (take-append (s ++ m) rest)

content_before_lem :
    (value rest : Text)
    → length value < 2 ^ 64
    → content_before (length value + 2) (value ++ (crlf ++ rest)) ≡ value
unfolding content_before
content_before_lem value rest h =
    let m : (n : ℕ) → n + 2 - 2 ≡ n = λ n. omega arith in
    let seen = blank_line ++ (value ++ crlf) in
    let ends : drop (length seen - 2) seen ≡ crlf =
      ap (λ n. drop (n - 2) seen) (length-append (blank_line ++ value) crlf)
      ∙ ap (λ n. drop n seen) (m (length (blank_line ++ value)))
      ∙ drop-append (blank_line ++ value) crlf in
    let n : (length value + 2 + 2 ^ 64 - 2) % 2 ^ 64 ≡ length value = omega (arith, h) in
    rw (take_past value crlf rest, ends, n) (take-append value (crlf ++ rest))

add_part_lem :
    (delimiter : Text) (f : FormField) (d : FormData)
    → IsPart delimiter f
    → add_part
        (record { disposition = disposition_of f.name f.filename; type_of = f.content_type })
        f.value
        d
      ≡ add f d
unfolding add_part
add_part_lem delimiter f d p =
    let read =
      parse_content_disposition-disposition_of f.name f.filename p.name_free p.filename_free in
    ap (λ names. add_named (named_field names f.content_type f.value) d) read
    ∙ rw (is_empty_text f.name p.named_something, ← p.file_flag) refl

find_delimiter :
    (delimiter : Text) (f : FormField) (rest : Text)
    → 1 ≤ length delimiter
    → IsPart delimiter f
    → find_text delimiter (f.value ++ (crlf ++ (delimiter ++ rest))) ≡ some (length f.value + 2)
find_delimiter delimiter f rest l p =
    let e : (f.value ++ (crlf ++ delimiter)) ++ rest ≡ f.value ++ (crlf ++ (delimiter ++ rest)) =
      append_assoc f.value (crlf ++ delimiter) rest in
    rw e at (
      find_text-append delimiter (f.value ++ (crlf ++ delimiter)) rest (length f.value + 2)
        p.value_free l)

drop_delimiter :
    (delimiter value rest : Text)
    → drop (length value + 2 + length delimiter) (value ++ (crlf ++ (delimiter ++ rest))) ≡ rest
drop_delimiter delimiter value rest =
    let n : length value + 2 + length delimiter ≡ length value + length (crlf ++ delimiter) =
      omega arith in
    rw n (drop_past value (crlf ++ delimiter) rest)

-- One round: the part that a client wrote is added, and the next stands behind its delimiter.
parse_part_lem :
    (more : Text → FormData → FormData) (delimiter : Text) (f : FormField) (rest : Text)
    (d : FormData)
    → 1 ≤ length delimiter
    → IsPart delimiter f
    → parse_part more delimiter
        (section_for f ++ (blank_line ++ (f.value ++ (crlf ++ (delimiter ++ rest)))))
        d
      ≡ more rest (add f d)
unfolding parse_part
parse_part_lem more delimiter f rest d l p =
    let section = section_for f in
    let after = f.value ++ (crlf ++ (delimiter ++ rest)) in
    let whole = section ++ (blank_line ++ after) in
    let read : PartHeaders = record {
      disposition = disposition_of f.name f.filename;
      type_of = f.content_type;
    } in
    let found =
      find_text-section_of f.name f.filename f.content_type after p.name_line p.filename_line
        p.type_line in
    ap (with_headers more delimiter d whole) found
    ∙ ap
        (λ t. with_content more delimiter (take (length section) whole) d t (find_text delimiter t))
        (drop_past section blank_line after)
    ∙ ap (with_content more delimiter (take (length section) whole) d after)
        (find_delimiter delimiter f rest l p)
    ∙ ap (λ t. with_content more delimiter t d after (some (length f.value + 2)))
        (take-append section (blank_line ++ after))
    ∙ ap
        (λ t. more t (
          add_part (part_headers (length section) section no_headers)
            (content_before (length f.value + 2) after) d))
        (drop_delimiter delimiter f.value rest)
    ∙ ap (λ h. more rest (add_part h (content_before (length f.value + 2) after) d))
        (part_headers-section_of f.name f.filename f.content_type p.name_line p.filename_line
          p.type_line p.type_trimmed)
    ∙ ap (λ v. more rest (add_part read v d))
        (content_before_lem f.value (delimiter ++ rest) p.value_short)
    ∙ ap (more rest) (add_part_lem delimiter f d p)

parts_loop-print_parts :
    (fuel : ℕ) (delimiter : Text) (fs : List FormField) (d : FormData)
    → length fs < fuel
    → 1 ≤ length delimiter
    → All (IsPart delimiter) fs
    → parts_loop fuel delimiter (print_parts delimiter fs) d ≡ add_each fs d
unfolding parts_loop print_parts add_each
parts_loop-print_parts zero delimiter fs d k l p = absurd (omega arith)
parts_loop-print_parts (suc fuel) delimiter [] d k l p = refl
parts_loop-print_parts (suc fuel) delimiter (f ∷ fs) d k l (p, ps) =
    parse_part_lem (parts_loop fuel delimiter) delimiter f (print_parts delimiter fs) d l p
    ∙ parts_loop-print_parts fuel delimiter fs (add f d) (omega arith) l ps

length-print_parts :
    (delimiter : Text) (fs : List FormField) → length fs < length (print_parts delimiter fs)
unfolding print_parts
length-print_parts delimiter [] = omega arith
length-print_parts delimiter (f ∷ fs) =
    let more = print_parts delimiter fs in
    let after = f.value ++ (crlf ++ (delimiter ++ more)) in
    omega (
      arith,
      length-append (section_for f) (blank_line ++ after),
      length-append f.value (crlf ++ (delimiter ++ more)),
      length-append delimiter more,
      length-print_parts delimiter fs,
    )

starts_with_front : (s t : Text) → starts_with s (s ++ t) ≡ true
starts_with_front [] t = refl
starts_with_front (c ∷ s) t = ground (arith, starts_with_front s t)

find_text_front : (c : ℕ) (s t : Text) → find_text (c ∷ s) ((c ∷ s) ++ t) ≡ some 0
unfolding find_text
find_text_front c s t = rw (starts_with_front (c ∷ s) t) refl

-- A multipart body, as a client writes it, is read back: its fields are added in order.
pub parse_multipart-print_parts :
    (boundary : Text) (fs : List FormField)
    → 1 ≤ length boundary
    → All (IsPart (delimiter_of boundary)) fs
    → parse_multipart (delimiter_of boundary ++ print_parts (delimiter_of boundary) fs) boundary
      ≡ ok (add_each fs no_fields)
unfolding parse_multipart
parse_multipart-print_parts boundary fs l p =
    let delimiter = delimiter_of boundary in
    let rest = print_parts delimiter fs in
    let zero_plus : 0 + length delimiter ≡ length delimiter = omega arith in
    let behind : drop (0 + length delimiter) (delimiter ++ rest) ≡ rest =
      rw zero_plus (drop-append delimiter rest) in
    rw (is_empty_text boundary l) (
      ap (from_first delimiter (delimiter ++ rest)) (find_text_front b'-' (b'-' ∷ boundary) rest)
      ∙ ap (λ t. ok (parts_loop (length (delimiter ++ rest)) delimiter t no_fields)) behind
      ∙ ap ok (
          parts_loop-print_parts (length (delimiter ++ rest)) delimiter fs no_fields
            (omega (arith, length-append delimiter rest, length-print_parts delimiter fs))
            (omega arith) p))
