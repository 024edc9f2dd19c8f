-- ===== src/Core/Response.antt =====
-- include/coroute/core/response.hpp and src/core/response.cpp: responses and their serialization.
use web_frame.Prelude.{
  ℕ, ◌≡◌, refl, Option, none, some, List, [], ◌∷◌, ◌++◌, eq_list, length, ◌==◌, if◌then◌else◌,
  arith,
}
use web_frame.Prelude.Dict.{eq_list_iff}
use web_frame.Prelude.Bytes.{codes}
use web_frame.Prelude.Text.{Text, to_decimal}

-- `file_info_` is left out: no modelled code sets it.
pub record Response : Type 0 where
  pub status : ℕ
  pub status_text : Text
  pub headers : List (Text × Text)
  pub body : Text

-- `Response()`.
abbrev pub empty_response : Response
empty_response = record { status = 200; status_text = codes "OK"; headers = []; body = [] }

-- The cases of the switch, in order.
abbrev status_texts : List (ℕ × Text)
status_texts =
    (100, codes "Continue")
    ∷ (101, codes "Switching Protocols")
    ∷ (200, codes "OK")
    ∷ (201, codes "Created")
    ∷ (202, codes "Accepted")
    ∷ (204, codes "No Content")
    ∷ (301, codes "Moved Permanently")
    ∷ (302, codes "Found")
    ∷ (303, codes "See Other")
    ∷ (304, codes "Not Modified")
    ∷ (307, codes "Temporary Redirect")
    ∷ (308, codes "Permanent Redirect")
    ∷ (400, codes "Bad Request")
    ∷ (401, codes "Unauthorized")
    ∷ (403, codes "Forbidden")
    ∷ (404, codes "Not Found")
    ∷ (405, codes "Method Not Allowed")
    ∷ (408, codes "Request Timeout")
    ∷ (409, codes "Conflict")
    ∷ (410, codes "Gone")
    ∷ (413, codes "Payload Too Large")
    ∷ (414, codes "URI Too Long")
    ∷ (415, codes "Unsupported Media Type")
    ∷ (422, codes "Unprocessable Entity")
    ∷ (429, codes "Too Many Requests")
    ∷ (500, codes "Internal Server Error")
    ∷ (501, codes "Not Implemented")
    ∷ (502, codes "Bad Gateway")
    ∷ (503, codes "Service Unavailable")
    ∷ (504, codes "Gateway Timeout")
    ∷ []

unfoldable pub pick_text : List (ℕ × Text) → ℕ → Text
pick_text [] status = codes "Unknown"
pick_text ((n, t) ∷ rest) status = if n == status then t else pick_text rest status

unfoldable pub default_status_text : ℕ → Text
unfolding pick_text
default_status_text status = pick_text status_texts status

-- The loop of `set_header`: the first entry of the name is updated, or a new one goes to the end.
unfoldable pub set_entry : Text → Text → List (Text × Text) → List (Text × Text)
set_entry key value [] = (key, value) ∷ []
set_entry key value ((k, v) ∷ hs) =
    if eq_list k key then (k, value) ∷ hs else (k, v) ∷ set_entry key value hs

unfoldable pub set_header : Text → Text → Response → Response
unfolding set_entry
set_header key value r = record r { headers = set_entry key value r.headers }

unfoldable pub add_header : Text → Text → Response → Response
add_header key value r = record r { headers = r.headers ++ (key, value) ∷ [] }

unfoldable pub set_status : ℕ → Response → Response
unfolding default_status_text
set_status status r = record r { status = status; status_text = default_status_text status }

-- The value under the first entry of a name.
unfoldable pub find_entry : Text → List (Text × Text) → Option Text
find_entry key [] = none
find_entry key ((k, v) ∷ hs) = if eq_list k key then some v else find_entry key hs

unfoldable pub header_value : Response → Text → Option Text
header_value r key = find_entry key r.headers

abbrev pub set_body : Text → Response → Response
set_body body r = record r { body = body }

-- A plain text with its length.
abbrev plain : ℕ → Text → Text → Response
plain status status_text body = record {
  status = status;
  status_text = status_text;
  headers =
      (codes "Content-Type", codes "text/plain")
      ∷ (codes "Content-Length", to_decimal (length body))
      ∷ [];
  body = body;
}

unfoldable pub not_found : Text → Response
not_found body = plain 404 (codes "Not Found") body

unfoldable pub bad_request : Text → Response
bad_request body = plain 400 (codes "Bad Request") body

unfoldable pub internal_error : Text → Response
internal_error body = plain 500 (codes "Internal Server Error") body

-- The header that is set is found; the others are as they were.
pub find_entry-set_entry :
    (key other value : Text) (hs : List (Text × Text))
    → find_entry other (set_entry key value hs)
      ≡ (if eq_list key other then some value else find_entry other hs)
unfolding find_entry set_entry
find_entry-set_entry key other value [] = refl
find_entry-set_entry key other value ((k, v) ∷ hs) = ground (
  arith,
  find_entry-set_entry key other value hs,
  eq_list_iff k key,
  eq_list_iff k other,
  eq_list_iff key other,
)
