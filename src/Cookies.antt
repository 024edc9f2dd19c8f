-- ===== src/Cookies.antt =====
-- include/coroute/core/cookie.hpp and src/core/cookie.cpp: cookies of a request, and those that a
-- response sets. `put_date` is gmtime and put_time of the C library.
pub mod RoundTrip
mod Tests
use web_frame.Prelude.{
  ℕ, zero, suc, ◌+◌, ◌-◌, Bool, true, false, ◌&&◌, Option, none, some, List, [], ◌∷◌, ◌++◌, leb,
  length, take, drop, eq_list, if◌then◌else◌,
}
use web_frame.Prelude.Int.{ℤ, pos}
use web_frame.Prelude.Bytes.{codes}
use web_frame.Prelude.Text.{Text, is_empty, trim, starts_with, find_char, print_ℤ}
use web_frame.Prelude.Dict.{text_eq, find, insert}
use web_frame.Core.Request.{Request, header}
use web_frame.Core.Response.{Response, add_header}

pub data SameSite : Type 0 where
  any_site lax strict : SameSite

-- A time is the number of seconds since the epoch.
pub record Cookie : Type 0 where
  pub name : Text
  pub value : Text
  pub domain : Option Text
  pub path : Option Text
  pub max_age : Option ℤ
  pub expires : Option ℕ
  pub secure : Bool
  pub http_only : Bool
  pub same_site : SameSite

abbrev pub cookie : Text → Text → Cookie
cookie name value = record {
  name = name;
  value = value;
  domain = none;
  path = none;
  max_age = none;
  expires = none;
  secure = false;
  http_only = false;
  same_site = lax;
}

abbrev pub session_cookie : Text → Text → Cookie
session_cookie name value = record (cookie name value) {
  http_only = true;
  secure = true;
  same_site = strict;
  path = some (codes "/");
}

abbrev pub expired : Text → Cookie
expired name = record (cookie name []) { max_age = some (pos 0); expires = some 0 }

abbrev attribute {ℓ} : {A : Type ℓ} → Text → (A → Text) → Option A → Text
attribute label print none = []
attribute label print (some x) = label ++ print x

abbrev same_site_text : SameSite → Text
same_site_text any_site = codes "; SameSite=None"
same_site_text lax = codes "; SameSite=Lax"
same_site_text strict = codes "; SameSite=Strict"

abbrev flag : Text → Bool → Text
flag label set = if set then label else []

unfoldable pub to_header : (ℕ → Text) → Cookie → Text
to_header put_date c =
    c.name
    ++ (b'=' ∷ c.value
        ++ (attribute (codes "; Domain=") (λ t. t) c.domain
            ++ (attribute (codes "; Path=") (λ t. t) c.path
                ++ (attribute (codes "; Max-Age=") print_ℤ c.max_age
                    ++ (attribute (codes "; Expires=") put_date c.expires
                        ++ (flag (codes "; Secure") c.secure
                            ++ (flag (codes "; HttpOnly") c.http_only
                                ++ same_site_text c.same_site)))))))

abbrev pub CookieJar : Type 0
CookieJar = List (Text × Text)

-- Quotes around a value are removed.
abbrev pub unquote : Text → Text
unquote value =
    if leb 2 (length value)
      && (starts_with (b'"' ∷ []) value && eq_list (drop (length value - 1) value) (b'"' ∷ []))
    then take (length value - 2) (drop 1 value)
    else value

abbrev set_named : Text → Text → CookieJar → CookieJar
set_named name value jar = if is_empty name then jar else insert name value jar

abbrev add_split : Text → CookieJar → Option ℕ → CookieJar
add_split pair jar none = jar
add_split pair jar (some eq) =
    set_named (trim (take eq pair)) (unquote (trim (drop (eq + 1) pair))) jar

unfoldable pub add_cookie : Text → CookieJar → CookieJar
add_cookie pair jar = add_split pair jar (find_char b'=' pair)

abbrev cookie_end : Text → Option ℕ → ℕ
cookie_end t none = length t
cookie_end t (some i) = i

-- The loop over what stands from `start` on. Each round takes a byte at least.
unfoldable pub parse_cookies : ℕ → Text → CookieJar → CookieJar
unfolding add_cookie
parse_cookies zero t jar = jar
parse_cookies (suc fuel) t jar =
    let end = cookie_end t (find_char b';' t) in
    let rest = parse_cookies fuel (drop (end + 1) t) (add_cookie (trim (take end t)) jar) in
    if is_empty t then jar else rest

unfoldable pub parse : Text → CookieJar
unfolding parse_cookies
parse t = parse_cookies (length t) t []

abbrev pub parse_found : Option Text → CookieJar
parse_found none = []
parse_found (some t) = parse t

unfoldable pub from_request : Request → CookieJar
unfolding parse
from_request req = parse_found (header req (codes "Cookie"))

unfoldable pub get : Text → CookieJar → Option Text
get name jar = find name jar

abbrev is_some : Option Text → Bool
is_some none = false
is_some (some value) = true

unfoldable pub has : Text → CookieJar → Bool
has name jar = is_some (find name jar)

unfoldable pub set : Text → Text → CookieJar → CookieJar
set name value jar = insert name value jar

unfoldable pub set_cookie : (ℕ → Text) → Cookie → Response → Response
unfolding to_header
set_cookie put_date c resp = add_header (codes "Set-Cookie") (to_header put_date c) resp

unfoldable pub set_cookies : (ℕ → Text) → List Cookie → Response → Response
unfolding set_cookie
set_cookies put_date [] resp = resp
set_cookies put_date (c ∷ cs) resp = set_cookies put_date cs (set_cookie put_date c resp)

abbrev unless_empty : Text → Option Text
unless_empty [] = none
unless_empty (c ∷ t) = some (c ∷ t)

unfoldable pub delete_cookie : (ℕ → Text) → Text → Text → Text → Response → Response
unfolding set_cookie
delete_cookie put_date name path domain resp =
    set_cookie put_date
      (record (expired name) { path = unless_empty path; domain = unless_empty domain }) resp
