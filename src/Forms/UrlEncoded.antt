-- ===== src/Forms/UrlEncoded.antt =====
-- src/core/form.cpp, `parse_urlencoded`: the pairs of a body, and that those a client sends are read.
use web_frame.Prelude.{
  ℕ, zero, suc, ◌+◌, ◌≤◌, ◌≡◌, ◌≢◌, refl, ap, ◌∙◌, Option, none, some, List, [], ◌∷◌, ◌++◌, length,
  take, drop, length-append, take-append, take_all, drop_beyond, if◌then◌else◌, All, All-append,
  All-mono, arith,
}
use mathlib.Core.List.{append-nil}
use web_frame.Prelude.Bytes.{IsByte}
use web_frame.Prelude.Text.{Text, is_empty, find_char}
use web_frame.Prelude.Search.{find_char-append, find_char-none, drop_after, is_empty_text}
use web_frame.Forms.Fields.{FormField, field, FormData, no_fields, add, get_fields}
use web_frame.Forms.Lookup.{add_each, named, get_fields-add_each}
use web_frame.Forms.Url.{url_decode, url_encode, url_decode-url_encode, url_encode-IsWithinPair}

abbrev add_named : Text → Text → FormData → FormData
add_named name value d = if is_empty name then d else add (field name value) d

abbrev add_split : Text → FormData → Option ℕ → FormData
add_split pair d none = add_named (url_decode pair) [] d
add_split pair d (some eq) =
    add_named (url_decode (take eq pair)) (url_decode (drop (eq + 1) pair)) d

unfoldable pub add_pair : Text → FormData → FormData
add_pair pair d = add_split pair d (find_char b'=' pair)

-- Where a pair ends: at the separator, or at the end of the body.
abbrev pair_end : Text → Option ℕ → ℕ
pair_end body none = length body
pair_end body (some i) = i

-- The loop over what stands from `start` on. Each round takes a byte at least.
unfoldable pub parse_pairs : ℕ → Text → FormData → FormData
unfolding add_pair
parse_pairs zero body d = d
parse_pairs (suc fuel) body d =
    let end = pair_end body (find_char b'&' body) in
    let rest = parse_pairs fuel (drop (end + 1) body) (add_pair (take end body) d) in
    if is_empty body then d else rest

unfoldable pub parse_urlencoded : Text → FormData
unfolding parse_pairs
parse_urlencoded body = parse_pairs (length body) body no_fields

-- A form as a client sends it.
abbrev pub print_pair : Text × Text → Text
print_pair (name, value) = url_encode name ++ b'=' ∷ url_encode value

unfoldable pub more_pairs : List (Text × Text) → Text
more_pairs [] = []
more_pairs (p ∷ ps) = b'&' ∷ (print_pair p ++ more_pairs ps)

abbrev pub print_form : List (Text × Text) → Text
print_form [] = []
print_form (p ∷ ps) = print_pair p ++ more_pairs ps

pub record IsPair (p : Text × Text) : Type 0 where
  pub named_something : 1 ≤ length p.0
  pub name_bytes : All IsByte p.0
  pub value_bytes : All IsByte p.1

abbrev pub field_of : Text × Text → FormField
field_of (name, value) = field name value

unfoldable pub fields_of : List (Text × Text) → List FormField
fields_of [] = []
fields_of (p ∷ ps) = field_of p ∷ fields_of ps

print_pair-free : (p : Text × Text) → IsPair p → All (λ c. c ≢ b'&') (print_pair p)
print_pair-free (name, value) i =
    All-append (λ c. c ≢ b'&') (url_encode name) (b'=' ∷ url_encode value)
      (All-mono (λ c h. h.0) (url_encode name) (url_encode-IsWithinPair name i.name_bytes))
      (
        (λ e. omega arith),
        All-mono (λ c h. h.0) (url_encode value) (url_encode-IsWithinPair value i.value_bytes),
      )

add_pair-print_pair :
    (p : Text × Text) (d : FormData) → IsPair p → add_pair (print_pair p) d ≡ add (field_of p) d
unfolding add_pair
add_pair-print_pair (name, value) d i =
    let plain =
      All-mono (λ c h. h.1) (url_encode name) (url_encode-IsWithinPair name i.name_bytes) in
    rw
      (
        find_char-append b'=' (url_encode name) (url_encode value) plain,
        take-append (url_encode name) (b'=' ∷ url_encode value),
        drop_after (url_encode name) (url_encode value) b'=',
        url_decode-url_encode name i.name_bytes,
        url_decode-url_encode value i.value_bytes,
        is_empty_text name i.named_something,
      )
      refl

parse_pairs-nil : (fuel : ℕ) (d : FormData) → parse_pairs fuel [] d ≡ d
unfolding parse_pairs
parse_pairs-nil zero d = refl
parse_pairs-nil (suc fuel) d = refl

print_pair_some : (p : Text × Text) (s : Text) → 1 ≤ length (print_pair p ++ s)
print_pair_some (name, value) s = omega (
  arith,
  length-append (url_encode name ++ b'=' ∷ url_encode value) s,
  length-append (url_encode name) (b'=' ∷ url_encode value),
)

parse_pairs-last :
    (fuel : ℕ) (pair : Text) (d : FormData)
    → 1 ≤ length pair
    → All (λ c. c ≢ b'&') pair
    → parse_pairs (suc fuel) pair d ≡ add_pair pair d
unfolding parse_pairs
parse_pairs-last fuel pair d h n =
    rw
      (
        parse_pairs,
        find_char-none b'&' pair n,
        take_all pair,
        drop_beyond (length pair + 1) pair (omega arith),
        is_empty_text pair h,
      )
      (parse_pairs-nil fuel (add_pair pair d))

parse_pairs-next :
    (fuel : ℕ) (pair rest : Text) (d : FormData)
    → 1 ≤ length (pair ++ b'&' ∷ rest)
    → All (λ c. c ≢ b'&') pair
    → parse_pairs (suc fuel) (pair ++ b'&' ∷ rest) d ≡ parse_pairs fuel rest (add_pair pair d)
unfolding parse_pairs
parse_pairs-next fuel pair rest d h n =
    rw
      (
        parse_pairs,
        find_char-append b'&' pair rest n,
        take-append pair (b'&' ∷ rest),
        drop_after pair rest b'&',
        is_empty_text (pair ++ b'&' ∷ rest) h,
      )
      refl

parse_pairs-more_pairs :
    (fuel : ℕ) (p : Text × Text) (ps : List (Text × Text)) (d : FormData)
    → length (print_pair p ++ more_pairs ps) ≤ fuel
    → IsPair p
    → All IsPair ps
    → parse_pairs fuel (print_pair p ++ more_pairs ps) d ≡ add_each (field_of p ∷ fields_of ps) d
unfolding more_pairs add_each fields_of
parse_pairs-more_pairs zero p ps d h i is =
    absurd (omega (arith, print_pair_some p (more_pairs ps)))
parse_pairs-more_pairs (suc fuel) p [] d h i is = rw (append-nil (print_pair p)) (
    parse_pairs-last fuel (print_pair p) d
      (omega (arith, ap length (append-nil (print_pair p)), print_pair_some p []))
      (print_pair-free p i)
    ∙ add_pair-print_pair p d i)
parse_pairs-more_pairs (suc fuel) p (q ∷ qs) d h i (j, js) =
    let rest = print_pair q ++ more_pairs qs in
    let fits : length rest ≤ fuel = omega (arith, length-append (print_pair p) (b'&' ∷ rest)) in
    parse_pairs-next fuel (print_pair p) rest d (print_pair_some p (b'&' ∷ rest))
      (print_pair-free p i)
    ∙ ap (parse_pairs fuel rest) (add_pair-print_pair p d i)
    ∙ parse_pairs-more_pairs fuel q qs (add (field_of p) d) fits j js

-- A form whose names are not empty, of any bytes, is read back: under each name `get_fields` gives the
-- fields of that name with their values, in order.
pub get_fields-parse_urlencoded :
    (ps : List (Text × Text)) (name : Text)
    → All IsPair ps
    → get_fields (parse_urlencoded (print_form ps)) name ≡ named name (fields_of ps)
unfolding parse_urlencoded fields_of add_each
get_fields-parse_urlencoded [] name h = (get_fields-add_each [] name).0
get_fields-parse_urlencoded (p ∷ ps) name (i, is) =
    ap (λ d. get_fields d name)
      (parse_pairs-more_pairs (length (print_form (p ∷ ps))) p ps no_fields (omega arith) i is)
    ∙ (get_fields-add_each (field_of p ∷ fields_of ps) name).0
