-- ===== src/Http2/Stream.antt =====
-- include/coroute/http2/stream.hpp and src/http2/stream.cpp: one stream's state, and the
-- operations that touch the stream alone. What sends frames is in the Connection modules.
pub mod Incoming
use web_frame.Prelude.{
  ℕ, ◌+◌, ◌/◌, ◌%◌, ◌≡◌, refl, Bool, true, false, not, ◌&&◌, ◌||◌, Option, none, some, List, [],
  ◌∷◌, ◌++◌, eq_list, ◌==◌, length, take, drop, if◌then◌else◌,
}
use web_frame.Prelude.Int.{ℤ, add32}
use web_frame.Prelude.Bytes.{codes}
use web_frame.Prelude.Text.{Text, is_empty, find_char}
use web_frame.Prelude.Expected.{Expected, ok, unexpected, Error, io, invalid_argument}
use web_frame.Core.Request.{
  HttpMethod, get, post, put, delete, head, options, patch, Request, empty_request, add_header,
}
use web_frame.Http2.Hpack.{Header, is_pseudo, get_method, get_path, get_authority}

pub data StreamState : Type 0 where
  idle reserved_local reserved_remote open_ half_closed_local half_closed_remote closed :
      StreamState

-- A suspended `send_data`: the window that it waits for, and the locals that it goes on with.
pub record WindowWaiter : Type 0 where
  pub needed : ℤ
  pub rest : List ℕ
  pub chunk_size : ℕ
  pub end_stream : Bool

pub record Stream : Type 0 where
  pub id : ℕ
  pub state : StreamState
  pub local_window_size : ℤ
  pub remote_window_size : ℤ
  pub request_headers : List Header
  pub request_body : List ℕ
  pub headers_complete : Bool
  pub body_complete : Bool
  pub response_headers_sent : Bool
  pub response_complete : Bool
  pub window_waiters : List WindowWaiter

-- The constructor.
unfoldable pub new_stream : ℕ → ℤ → Stream
new_stream id initial_window_size = record {
  id = id;
  state = idle;
  local_window_size = initial_window_size;
  remote_window_size = initial_window_size;
  request_headers = [];
  request_body = [];
  headers_complete = false;
  body_complete = false;
  response_headers_sent = false;
  response_complete = false;
  window_waiters = [];
}

unfoldable pub update_local_window : ℤ → Stream → Stream
update_local_window delta s = record s { local_window_size = add32 s.local_window_size delta }

abbrev pub is_open_state : StreamState → Bool
is_open_state open_ = true
is_open_state half_closed_local = true
is_open_state half_closed_remote = true
is_open_state _ = false

unfoldable pub receive_headers : List Header → Bool → Stream → Stream
receive_headers headers end_stream s =
    if end_stream
    then record s {
      request_headers = headers;
      headers_complete = true;
      body_complete = true;
      state = half_closed_remote;
    }
    else record s { request_headers = headers; headers_complete = true; state = open_ }

-- `if (state_ == Open) transition_to(HalfClosedRemote)`.
abbrev close_remote : StreamState → StreamState
close_remote open_ = half_closed_remote
close_remote st = st

unfoldable pub receive_data : List ℕ → Bool → Stream → Stream
receive_data bytes end_stream s =
    if end_stream
    then record s {
      request_body = s.request_body ++ bytes;
      body_complete = true;
      state = close_remote s.state;
    }
    else record s { request_body = s.request_body ++ bytes }

abbrev pub is_request_complete : Stream → Bool
is_request_complete s = s.headers_complete && s.body_complete

-- `reset` builds an RST_STREAM frame and drops it: nothing is sent.
unfoldable pub reset : Stream → Stream
reset s = record s { state = closed }

-- The chain of names in `build_request`; CONNECT and TRACE are not among them.
unfoldable pub request_method : Text → Option HttpMethod
request_method name =
    if eq_list name (codes "GET")
    then some get
    else if eq_list name (codes "POST")
    then some post
    else if eq_list name (codes "PUT")
    then some put
    else if eq_list name (codes "DELETE")
    then some delete
    else if eq_list name (codes "HEAD")
    then some head
    else if eq_list name (codes "OPTIONS")
    then some options
    else if eq_list name (codes "PATCH")
    then some patch
    else none

-- The path up to the first question mark, and the query after it.
unfoldable pub set_target : Text → Request → Request
set_target path r = elim (find_char b'?' path) [
  | none ↦ record r { path = path }
  | some i ↦ record r { path = take i path; query_string = drop (i + 1) path }
]

-- The loop that copies the regular headers.
unfoldable pub copy_headers : List Header → Request → Request
unfolding add_header
copy_headers [] r = r
copy_headers (h ∷ hs) r = copy_headers hs (if is_pseudo h then r else add_header h.name h.value r)

abbrev with_host : Text → Request → Request
with_host [] r = r
with_host (c ∷ authority) r = add_header (codes "Host") (c ∷ authority) r

unfoldable pub build_request : Stream → Expected Request
unfolding get_method get_path get_authority request_method set_target copy_headers
build_request s =
    let method = get_method s.request_headers in
    let path = get_path s.request_headers in
    let authority = get_authority s.request_headers in
    if not s.headers_complete
    then unexpected (io invalid_argument "Headers not complete")
    else if is_empty method
    then unexpected (io invalid_argument "Missing :method")
    else elim (request_method method) [
      | none ↦ unexpected (io invalid_argument "Unknown method")
      | some m ↦
          if is_empty path
          then unexpected (io invalid_argument "Missing :path")
          else ok
              (record (with_host authority (
                copy_headers s.request_headers
                  (set_target path (record empty_request { method = m })))) {
                    body = s.request_body;
                    http_version = codes "HTTP/2";
                  })
    ]

-- `stream_id::is_client_initiated`.
unfoldable pub is_client_initiated : ℕ → Bool
is_client_initiated id = not (id == 0) && id % 2 == 1

unfoldable pub is_server_initiated : ℕ → Bool
is_server_initiated id = not (id == 0) && id % 2 == 0
