-- ===== src/Cookies/RoundTrip.antt =====
-- The cookies that a client sends are read back.
use web_frame.Prelude.{
  ℕ, zero, suc, ◌+◌, ◌≤◌, ◌≡◌, ◌≢◌, refl, ap, ◌∙◌, Option, none, some, List, [], ◌∷◌, ◌++◌, length,
  take-append, take_all, drop_beyond, eq_list, if◌then◌else◌, length-append, All, All-append,
  All-mono, arith,
}
use web_frame.Prelude.Text.{Text, trim, trim_front}
use web_frame.Prelude.Search.{
  is_empty_text, IsVisible, trim_visible, find_char-append, find_char-none, drop_after,
}
use web_frame.Prelude.Dict.{text_eq, find, insert, find-insert}
use mathlib.Core.List.{append-nil}
use web_frame.Cookies.{CookieJar, unquote, add_cookie, parse_cookies, parse, get}

abbrev pub print_cookie : Text × Text → Text
print_cookie (name, value) = name ++ b'=' ∷ value

-- What a client sends: the cookies with a semicolon and a space between them.
unfoldable pub more_cookies : List (Text × Text) → Text
more_cookies [] = []
more_cookies (c ∷ cs) = b';' ∷ 32 ∷ (print_cookie c ++ more_cookies cs)

abbrev pub print_cookies : List (Text × Text) → Text
print_cookies [] = []
print_cookies (c ∷ cs) = print_cookie c ++ more_cookies cs

abbrev IsNameChar : ℕ → Type 0
IsNameChar c = IsVisible c × (c ≢ b';') × (c ≢ b'=')

abbrev IsValueChar : ℕ → Type 0
IsValueChar c = IsVisible c × (c ≢ b';') × (c ≢ b'"')

pub record IsCookie (c : Text × Text) : Type 0 where
  pub named_something : 1 ≤ length c.0
  pub name_chars : All IsNameChar c.0
  pub value_chars : All IsValueChar c.1

unquote_lem : (value : Text) → All IsValueChar value → unquote value ≡ value
unquote_lem [] h = refl
unquote_lem (c ∷ value) (h, k) = ground (arith, h.2)

abbrev insert_cookie : Text × Text → CookieJar → CookieJar
insert_cookie (name, value) jar = insert name value jar

add_cookie-print_cookie :
    (c : Text × Text) (jar : CookieJar)
    → IsCookie c
    → add_cookie (print_cookie c) jar ≡ insert_cookie c jar
unfolding add_cookie
add_cookie-print_cookie (name, value) jar i =
    rw
      (
        find_char-append b'=' name value (All-mono (λ c h. h.2) name i.name_chars),
        take-append name (b'=' ∷ value),
        drop_after name value b'=',
        trim_visible name (All-mono (λ c h. h.0) name i.name_chars),
        trim_visible value (All-mono (λ c h. h.0) value i.value_chars),
        is_empty_text name i.named_something,
      )
      (ap (λ v. insert name v jar) (unquote_lem value i.value_chars))

print_cookie-IsVisible : (c : Text × Text) → IsCookie c → All IsVisible (print_cookie c)
print_cookie-IsVisible (name, value) i =
    All-append IsVisible name (b'=' ∷ value) (All-mono (λ c h. h.0) name i.name_chars)
      (ground arith, All-mono (λ c h. h.0) value i.value_chars)

print_cookie-free : (c : Text × Text) → IsCookie c → All (λ d. d ≢ b';') (print_cookie c)
print_cookie-free (name, value) i =
    All-append (λ d. d ≢ b';') name (b'=' ∷ value) (All-mono (λ c h. h.1) name i.name_chars)
      (ground arith, All-mono (λ c h. h.1) value i.value_chars)

parse_cookies-nil : (fuel : ℕ) (jar : CookieJar) → parse_cookies fuel [] jar ≡ jar
unfolding parse_cookies
parse_cookies-nil zero jar = refl
parse_cookies-nil (suc fuel) jar = refl

-- One cookie, with white space around it.
record IsPiece (s : Text) (c : Text × Text) : Type 0 where
  something : 1 ≤ length s
  free : All (λ d. d ≢ b';') s
  trimmed : trim s ≡ print_cookie c

parse_cookies-last :
    (fuel : ℕ) (s : Text) (c : Text × Text) (jar : CookieJar)
    → IsPiece s c
    → IsCookie c
    → parse_cookies (suc fuel) s jar ≡ insert_cookie c jar
unfolding parse_cookies
parse_cookies-last fuel s c jar p i =
    rw
      (
        parse_cookies,
        find_char-none b';' s p.free,
        take_all s,
        drop_beyond (length s + 1) s (omega arith),
        is_empty_text s p.something,
        p.trimmed,
        add_cookie-print_cookie c jar i,
      )
      (parse_cookies-nil fuel (insert_cookie c jar))

parse_cookies-next :
    (fuel : ℕ) (s rest : Text) (c : Text × Text) (jar : CookieJar)
    → IsPiece s c
    → IsCookie c
    → parse_cookies (suc fuel) (s ++ b';' ∷ rest) jar
      ≡ parse_cookies fuel rest (insert_cookie c jar)
unfolding parse_cookies
parse_cookies-next fuel s rest c jar p i =
    rw
      (
        parse_cookies,
        find_char-append b';' s rest p.free,
        take-append s (b';' ∷ rest),
        drop_after s rest b';',
        is_empty_text (s ++ b';' ∷ rest)
            (omega (arith, p.something, length-append s (b';' ∷ rest))),
        p.trimmed,
        add_cookie-print_cookie c jar i,
      )
      refl

first-IsPiece : (c : Text × Text) → IsCookie c → IsPiece (print_cookie c) c
first-IsPiece c i = record {
  something = ground (arith, length-append c.0 (b'=' ∷ c.1));
  free = print_cookie-free c i;
  trimmed = trim_visible (print_cookie c) (print_cookie-IsVisible c i);
}

next-IsPiece : (c : Text × Text) → IsCookie c → IsPiece (32 ∷ print_cookie c) c
unfolding trim trim_front
next-IsPiece c i = record {
  something = omega arith;
  free = (ground arith, print_cookie-free c i);
  trimmed = trim_visible (print_cookie c) (print_cookie-IsVisible c i);
}

-- The value that was sent last under a name, or the one before if none was sent.
unfoldable pub sent : Text → List (Text × Text) → Option Text → Option Text
sent name [] before = before
sent name ((n, value) ∷ cs) before = sent name cs (if eq_list n name then some value else before)

find-parse_cookies :
    (fuel : ℕ) (s name : Text) (c : Text × Text) (cs : List (Text × Text)) (jar : CookieJar)
    → length (s ++ more_cookies cs) ≤ fuel
    → IsPiece s c
    → All IsCookie (c ∷ cs)
    → find name (parse_cookies fuel (s ++ more_cookies cs) jar) ≡ sent name (c ∷ cs) (find name jar)
unfolding more_cookies sent
find-parse_cookies zero s name c cs jar h p i =
    absurd (omega (arith, p.something, length-append s (more_cookies cs)))
find-parse_cookies (suc fuel) s name c [] jar h p (i, _) =
    rw (append-nil s)
      (ap (find name) (parse_cookies-last fuel s c jar p i) ∙ find-insert c.0 name c.1 jar)
find-parse_cookies (suc fuel) s name c (c' ∷ cs) jar h p (i, is) =
    let rest = 32 ∷ (print_cookie c' ++ more_cookies cs) in
    ap (find name) (parse_cookies-next fuel s rest c jar p i)
    ∙ find-parse_cookies fuel (32 ∷ print_cookie c') name c' cs (insert_cookie c jar)
        (omega (arith, h, p.something, length-append s (b';' ∷ rest))) (next-IsPiece c' is.0) is
    ∙ ap (sent name (c' ∷ cs)) (find-insert c.0 name c.1 jar)

-- Cookies whose names are not empty, of visible characters without the separators of the header, and
-- without quotes in the values, are read back: under each name stands the value that was sent last.
pub get-print_cookies :
    (name : Text) (cs : List (Text × Text))
    → All IsCookie cs
    → get name (parse (print_cookies cs)) ≡ sent name cs none
unfolding get parse find
get-print_cookies name [] i = unfold sent in refl
get-print_cookies name (c ∷ cs) i =
    find-parse_cookies (length (print_cookies (c ∷ cs))) (print_cookie c) name c cs [] (omega arith)
      (first-IsPiece c i.0) i
