-- ===== src/Forms/Disposition.antt =====
-- The name and the file name of a part are read back from its Content-Disposition.
use web_frame.Prelude.{
  ℕ, suc, ◌+◌, ◌≡◌, ◌≢◌, refl, sym, ap, ◌∙◌, false, Option, none, some, [], ◌∷◌, ◌++◌, length,
  length-append, take-append, drop-append, All, All-mono, arith,
}
use mathlib.Core.List.{append_assoc}
use web_frame.Prelude.Bytes.{codes}
use web_frame.Prelude.Text.{Text, find_text, starts_with}
use web_frame.Prelude.Search.{find_char-append}
use web_frame.Forms.Multipart.{
  quoted, quoted_at, name_marker, filename_marker, parse_content_disposition,
}

abbrev pub quote : Text
quote = b'"' ∷ []

-- What a client writes: the name, and the file name if there is one.
abbrev pub file_part : Text → Text
file_part [] = []
file_part (c ∷ filename) = codes "; filename=\"" ++ ((c ∷ filename) ++ quote)

abbrev pub disposition_of : Text → Text → Text
disposition_of name filename = codes "form-data; name=\"" ++ (name ++ (quote ++ file_part filename))

abbrev pub NoQuote : Text → Type 0
NoQuote = All (λ c. c ≢ b'"')

-- No `=` and no quote, so that no marker begins within it.
abbrev pub IsName : Text → Type 0
IsName = All (λ c. (c ≢ b'"') × (c ≢ b'='))

-- `find` from a place on.
abbrev further : ℕ → Option ℕ → Option ℕ
further k none = none
further k (some i) = some (k + i)

starts_with-quote :
    (q u t : Text)
    → NoQuote q
    → All (λ c. c ≢ b'=') u
    → starts_with (q ++ codes "=\"") (u ++ b'"' ∷ t) ≡ false
starts_with-quote [] [] t n h = refl
starts_with-quote [] (x ∷ u) t n (p, h) = ground arith
starts_with-quote (c ∷ q) [] t (m, n) h = ground arith
starts_with-quote (c ∷ q) (x ∷ u) t (m, n) (p, h) = ground (arith, starts_with-quote q u t n h)

further-zero : (o : Option ℕ) → o ≡ further 0 o
further-zero none = refl
further-zero (some i) = ap some (omega arith)

further-further : (n : ℕ) (o : Option ℕ) → further 1 (further n o) ≡ further (suc n) o
further-further n none = refl
further-further n (some i) = ap some (omega arith)

find_text-cons :
    (p : Text) (c : ℕ) (s : Text)
    → starts_with p (c ∷ s) ≡ false
    → find_text p (c ∷ s) ≡ further 1 (find_text p s)
unfolding find_text
find_text-cons p c s h = rw (find_text, h) (go (find_text p s))
  where
    go : (o : Option ℕ) → (elim o [ none ↦ none | some i ↦ some (suc i) ]) ≡ further 1 o
    go none = refl
    go (some i) = ap some (omega arith)

find_text-quote :
    (u t : Text)
    → IsName u
    → find_text filename_marker (u ++ b'"' ∷ t)
      ≡ further (length u) (find_text filename_marker (b'"' ∷ t))
find_text-quote [] t h = further-zero (find_text filename_marker (b'"' ∷ t))
find_text-quote (x ∷ u) t (p, h) =
    find_text-cons filename_marker x (u ++ b'"' ∷ t) (
      starts_with-quote (codes "filename") (x ∷ u) t (ground arith)
        (All-mono (λ c i. i.1) (x ∷ u) (p, h)))
    ∙ ap (further 1) (find_text-quote u t h)
    ∙ further-further (length u) (find_text filename_marker (b'"' ∷ t))

-- A text between quotes, behind the marker that stands at its place.
quoted_at_lem :
    (marker before text after : Text) (i : ℕ)
    → NoQuote text
    → i + length marker ≡ length before
    → quoted_at marker (before ++ (text ++ b'"' ∷ after)) (some i) ≡ text
quoted_at_lem marker before text after i n e =
    rw (e, drop-append before (text ++ b'"' ∷ after), find_char-append b'"' text after n)
      (take-append text (b'"' ∷ after))

quoted-name :
    (name filename : Text) → NoQuote name → quoted name_marker (disposition_of name filename) ≡ name
unfolding quoted find_text
quoted-name name filename n =
    quoted_at_lem name_marker (codes "form-data; name=\"") name (file_part filename) 11 n refl

no_further :
    (name t : Text)
    → IsName name
    → find_text filename_marker (b'"' ∷ t) ≡ none
    → find_text filename_marker (codes "form-data; name=\"" ++ (name ++ b'"' ∷ t)) ≡ none
unfolding find_text
no_further name t n h = rw (find_text-quote name t n ∙ ap (further (length name)) h) refl

some_further :
    (name t : Text) (i : ℕ)
    → IsName name
    → find_text filename_marker (b'"' ∷ t) ≡ some i
    → find_text filename_marker (codes "form-data; name=\"" ++ (name ++ b'"' ∷ t))
      ≡ some (17 + (length name + i))
unfolding find_text
some_further name t i n h =
    rw (find_text-quote name t n ∙ ap (further (length name)) h) (ap some (omega arith))

quoted-filename :
    (name filename : Text)
    → IsName name
    → NoQuote filename
    → quoted filename_marker (disposition_of name filename) ≡ filename
unfolding quoted
quoted-filename name [] n f =
    ap (quoted_at filename_marker (disposition_of name []))
      (no_further name [] n (unfold find_text in refl))
quoted-filename name (c ∷ filename) n f =
    let end = codes "\"; filename=\"" in
    let before = codes "form-data; name=\"" ++ (name ++ end) in
    let whole : disposition_of name (c ∷ filename) ≡ before ++ ((c ∷ filename) ++ quote) =
      ap (λ t. codes "form-data; name=\"" ++ t)
        (sym (append_assoc name end ((c ∷ filename) ++ quote))) in
    let l = length-append name end in
    ap (quoted_at filename_marker (disposition_of name (c ∷ filename))) (
      some_further name (codes "; filename=\"" ++ ((c ∷ filename) ++ quote)) 3 n
        (unfold find_text in refl))
    ∙ ap (λ t. quoted_at filename_marker t (some (17 + (length name + 3)))) whole
    ∙ quoted_at_lem filename_marker before (c ∷ filename) [] (17 + (length name + 3)) f
        (omega arith)

pub parse_content_disposition-disposition_of :
    (name filename : Text)
    → IsName name
    → NoQuote filename
    → parse_content_disposition (disposition_of name filename) ≡ (name, filename)
unfolding parse_content_disposition
parse_content_disposition-disposition_of name filename n f =
    rw (quoted-name name filename (All-mono (λ c i. i.0) name n), quoted-filename name filename n f)
      refl

-- A file name that stands before the name is taken for the name.
pub parse_content_disposition-filename :
    (filename rest : Text)
    → NoQuote filename
    → (parse_content_disposition (codes "form-data; filename=\"" ++ (filename ++ b'"' ∷ rest))).0
      ≡ filename
unfolding parse_content_disposition quoted find_text
parse_content_disposition-filename filename rest n =
    quoted_at_lem name_marker (codes "form-data; filename=\"") filename rest 15 n refl
