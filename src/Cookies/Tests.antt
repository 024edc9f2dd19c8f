-- ===== src/Cookies/Tests.antt =====
-- Cookies at concrete bytes.
use web_frame.Prelude.{◌≡◌, refl, some, List, [], ◌∷◌, arith}
use web_frame.Prelude.Bytes.{codes}
use web_frame.Prelude.Text.{Text, trim, find_char, to_decimal}
use web_frame.Prelude.Dict.{find, insert}
use web_frame.Cookies.{parse, get, to_header, session_cookie, expired}
use web_frame.Cookies.RoundTrip.{print_cookies, sent, get-print_cookies}

quoted_test : get (codes "a") (parse (codes "a=\"x y\"; b")) ≡ some (codes "x y")
unfolding parse get trim find find_char insert
quoted_test = refl

to_header_test :
    to_header (λ t. codes "epoch") (expired (codes "id"))
    ≡ codes "id=; Max-Age=0; Expires=epoch; SameSite=Lax"
unfolding to_header to_decimal
to_header_test = refl

session_cookie_test :
    to_header (λ t. []) (session_cookie (codes "id") (codes "7"))
    ≡ codes "id=7; Path=/; Secure; HttpOnly; SameSite=Strict"
unfolding to_header
session_cookie_test = refl

abbrev crumbs : List (Text × Text)
crumbs = (codes "a", codes "1") ∷ (codes "b", []) ∷ (codes "a", codes "x=2") ∷ []

get-print_cookies_example : get (codes "a") (parse (print_cookies crumbs)) ≡ some (codes "x=2")
unfolding sent
get-print_cookies_example = get-print_cookies (codes "a") crumbs (
  record { named_something = omega arith; name_chars = ground arith; value_chars = ground arith },
  (
    record { named_something = omega arith; name_chars = ground arith; value_chars = tt },
    (
      record {
        named_something = omega arith;
        name_chars = ground arith;
        value_chars = ground arith;
      },
      tt,
    ),
  ),
)
