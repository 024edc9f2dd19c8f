-- ===== src/Http2/Hpack.antt =====
-- src/http2/hpack.cpp and include/coroute/http2/hpack.hpp: header lists and their validation. The
-- compression itself is nghttp2's; `Hpack` is what the connection uses of the encoder and decoder.
pub mod Validation
pub mod Responses
pub mod Decoder
use web_frame.Prelude.{
  ℕ, Bool, true, false, not, ◌&&◌, ◌||◌, Option, none, some, List, [], ◌∷◌, eq_list, ◌==◌,
  if◌then◌else◌,
}
use web_frame.Prelude.Bytes.{codes}
use web_frame.Prelude.Expected.{Expected}
use web_frame.Prelude.Text.{Text, is_upper, to_lower}

pub record Header : Type 0 where
  pub name : Text
  pub value : Text

-- The first character is a colon.
abbrev pub has_colon : Text → Bool
has_colon [] = false
has_colon (c ∷ s) = c == b':'

abbrev pub is_pseudo : Header → Bool
is_pseudo h = has_colon h.name

-- The loop that compares two names of one length, letter case aside; of other lengths they differ.
unfoldable pub same_letters : Text → Text → Bool
same_letters [] [] = true
same_letters (c ∷ s) (d ∷ t) = to_lower c == to_lower d && same_letters s t
same_letters _ _ = false

unfoldable pub name_matches : Text → Text → Bool
unfolding same_letters
name_matches name given = if has_colon name then eq_list given name else same_letters given name

unfoldable pub find_header : List Header → Text → Option Header
unfolding name_matches
find_header [] name = none
find_header (h ∷ hs) name = if name_matches name h.name then some h else find_header hs name

-- `h ? h->value : {}`.
abbrev value_of : Option Header → Text
value_of none = []
value_of (some h) = h.value

unfoldable pub get_method : List Header → Text
unfolding find_header
get_method hs = value_of (find_header hs (codes ":method"))

unfoldable pub get_scheme : List Header → Text
unfolding find_header
get_scheme hs = value_of (find_header hs (codes ":scheme"))

unfoldable pub get_authority : List Header → Text
unfolding find_header
get_authority hs = value_of (find_header hs (codes ":authority"))

unfoldable pub get_path : List Header → Text
unfolding find_header
get_path hs = value_of (find_header hs (codes ":path"))

unfoldable pub get_status : List Header → Text
unfolding find_header
get_status hs = value_of (find_header hs (codes ":status"))

unfoldable pub any_upper : Text → Bool
any_upper [] = false
any_upper (c ∷ s) = is_upper c || any_upper s

-- The flags of the loops of the validators.
pub record Seen : Type 0 where
  pub has_method : Bool
  pub has_scheme : Bool
  pub has_path : Bool
  pub pseudo_ended : Bool

abbrev pub nothing_seen : Seen
nothing_seen = record {
  has_method = false;
  has_scheme = false;
  has_path = false;
  pseudo_ended = false;
}

-- The `else if` chain over the name of a pseudo-header; `none` is `return false`.
unfoldable pub see : Text → Seen → Option Seen
see name s =
    if eq_list name (codes ":method")
    then some (record s { has_method = true })
    else if eq_list name (codes ":scheme")
    then some (record s { has_scheme = true })
    else if eq_list name (codes ":path")
    then some (record s { has_path = true })
    else if eq_list name (codes ":authority")
    then some s
    else if eq_list name (codes ":status")
    then none
    else some s

unfoldable pub validate_from : Seen → List Header → Bool
validate_from s [] = s.has_method && s.has_scheme && s.has_path
validate_from s (h ∷ hs) = elim (is_pseudo h) [
  | true ↦
      if s.pseudo_ended
      then false
      else elim (see h.name s) [ none ↦ false | some s' ↦ validate_from s' hs ]
  | false ↦ if any_upper h.name then false else validate_from (record s { pseudo_ended = true }) hs
]

unfoldable pub validate_request_headers : List Header → Bool
unfolding validate_from see any_upper
validate_request_headers hs = validate_from nothing_seen hs

-- The loop of `validate_response_headers` with its two flags.
unfoldable pub validate_response_from : Bool → Bool → List Header → Bool
validate_response_from has_status pseudo_ended [] = has_status
validate_response_from has_status pseudo_ended (h ∷ hs) = elim (is_pseudo h) [
  | true ↦
      if pseudo_ended
      then false
      else if eq_list h.name (codes ":status")
      then validate_response_from true pseudo_ended hs
      else false
  | false ↦ if any_upper h.name then false else validate_response_from has_status true hs
]

unfoldable pub validate_response_headers : List Header → Bool
unfolding validate_response_from any_upper
validate_response_headers hs = validate_response_from false false hs

-- The operations of `HpackEncoder` and `HpackDecoder`, over their states `E` and `D`.
pub record Hpack (E D : Type 0) : Type 0 where
  pub encode : E → List Header → E × Expected (List ℕ)
  pub set_max_table_size : E → ℕ → E
  pub decode : D → List ℕ → D × Expected (List Header)
