-- ===== src/Core/Request.antt =====
-- include/coroute/core/request.hpp and src/core/request.cpp: methods and requests.
use web_frame.Prelude.{
  ◌≡◌, refl, Bool, true, false, Option, none, some, List, [], eq_list, if◌then◌else◌,
}
use web_frame.Prelude.Bytes.{codes}
use web_frame.Prelude.Text.{Text}
use web_frame.Prelude.Dict.{text_eq, find, insert}

pub data HttpMethod : Type 0 where
  get post put delete patch head options connect trace unknown : HttpMethod

unfoldable pub parse_method : Text → HttpMethod
parse_method method =
    if eq_list method (codes "GET")
    then get
    else if eq_list method (codes "POST")
    then post
    else if eq_list method (codes "PUT")
    then put
    else if eq_list method (codes "DELETE")
    then delete
    else if eq_list method (codes "PATCH")
    then patch
    else if eq_list method (codes "HEAD")
    then head
    else if eq_list method (codes "OPTIONS")
    then options
    else if eq_list method (codes "CONNECT")
    then connect
    else if eq_list method (codes "TRACE")
    then trace
    else unknown

unfoldable pub method_to_string : HttpMethod → Text
method_to_string get = codes "GET"
method_to_string post = codes "POST"
method_to_string put = codes "PUT"
method_to_string delete = codes "DELETE"
method_to_string patch = codes "PATCH"
method_to_string head = codes "HEAD"
method_to_string options = codes "OPTIONS"
method_to_string connect = codes "CONNECT"
method_to_string trace = codes "TRACE"
method_to_string unknown = codes "UNKNOWN"

-- The query parameters, the route parameters and the context of middleware are filled elsewhere.
pub record Request : Type 0 where
  pub method : HttpMethod
  pub path : Text
  pub query_string : Text
  pub http_version : Text
  pub headers : List (Text × Text)
  pub query_params : List (Text × Text)
  pub body : Text
  pub route_params : List Text

-- `Request()`.
abbrev pub empty_request : Request
empty_request = record {
  method = get;
  path = [];
  query_string = [];
  http_version = codes "HTTP/1.1";
  headers = [];
  query_params = [];
  body = [];
  route_params = [];
}

unfoldable pub add_header : Text → Text → Request → Request
add_header key value r = record r { headers = insert key value r.headers }

unfoldable pub header : Request → Text → Option Text
header r key = find key r.headers

unfoldable pub keep_alive : Request → Bool
keep_alive r = elim (header r (codes "Connection")) [
  | none ↦ eq_list r.http_version (codes "HTTP/1.1")
  | some conn ↦
      if eq_list conn (codes "close")
      then false
      else if eq_list conn (codes "keep-alive")
      then true
      else eq_list r.http_version (codes "HTTP/1.1")
]

-- Every method but `unknown` is read back from its name.
pub parse_method-method_to_string : (m : HttpMethod) → parse_method (method_to_string m) ≡ m
unfolding parse_method method_to_string
parse_method-method_to_string get = refl
parse_method-method_to_string _ = refl
