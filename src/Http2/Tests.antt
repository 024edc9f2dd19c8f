-- ===== src/Http2/Tests.antt =====
-- The theorems on HTTP/2 at concrete frames, header lists and connections.
use web_frame.Prelude.{ℕ, ◌≡◌, ◌≢◌, refl, true, false, none, some, List, [], ◌∷◌, ◌++◌, ◌↔◌, arith}
use web_frame.Prelude.Int.{pos}
use web_frame.Prelude.Bytes.{codes}
use web_frame.Prelude.Dict.{nat_eq}
use web_frame.Prelude.Expected.{ok}
use web_frame.Core.Request.{parse_method, method_to_string, parse_method-method_to_string, post}
use web_frame.Http2.Frame.{FrameHeader, SettingsEntry, serialize, parse}
use web_frame.Http2.Frame.Codes.{frame_type_of, settings, enable_push, initial_window_size}
use web_frame.Http2.Frame.RoundTrip.{IsValid, parse-serialize, serialize-parse}
use web_frame.Http2.Hpack.{Header, validate_request_headers, validate_response_headers}
use web_frame.Http2.Hpack.Validation.{IsRequestList, validate_request_headers_iff}
use web_frame.Http2.Hpack.Responses.{IsResponseList, validate_response_headers_iff}
use web_frame.Http2.Hpack.Decoder
use web_frame.Http2.Hpack.Decoder.{Nghttp2, Inflated, inflated, decode-ne-none, Progresses}
use web_frame.Http2.Stream.{
  new_stream, receive_headers, receive_data, is_request_complete, half_closed_remote,
}
use web_frame.Http2.Stream.Incoming.{receive_pieces, receive_data-receive_pieces}

abbrev two_settings : List SettingsEntry
two_settings =
    record { id = initial_window_size; value = 100 } ∷ record { id = enable_push; value = 0 } ∷ []

abbrev settings_header : FrameHeader
settings_header = record { length = 12; type = settings; flags = 0; stream_id = 0 }

settings_header-IsValid : IsValid settings_header
settings_header-IsValid = record {
  length_24 = omega arith;
  known_type = tt;
  flags_8 = omega arith;
  stream_31 = omega arith;
}

parse-serialize_example : parse (serialize settings_header ++ 7 ∷ []) ≡ ok settings_header
parse-serialize_example = parse-serialize settings_header (7 ∷ []) settings_header-IsValid

parse_twelve : parse (0 ∷ 0 ∷ 12 ∷ 4 ∷ 0 ∷ 128 ∷ 0 ∷ 0 ∷ 0 ∷ []) ≡ ok settings_header
unfolding parse frame_type_of
parse_twelve = refl

serialize-parse_test : serialize settings_header ≡ 0 ∷ 0 ∷ 12 ∷ 4 ∷ 0 ∷ 0 ∷ 0 ∷ 0 ∷ 0 ∷ []
serialize-parse_test =
    serialize-parse 0 0 12 4 0 128 0 0 0 [] settings_header (ground arith) parse_twelve

abbrev field : List ℕ → List ℕ → Header
field name value = record { name = name; value = value }

abbrev get_root : List Header
get_root =
    field (codes ":method") (codes "GET")
    ∷ field (codes ":scheme") (codes "https")
    ∷ field (codes ":path") (codes "/")
    ∷ field (codes "accept") (codes "*/*")
    ∷ []

validate_request_headers_iff_example :
    (validate_request_headers get_root ≡ true) ↔ IsRequestList get_root
validate_request_headers_iff_example = validate_request_headers_iff get_root

abbrev status_list : List Header
status_list = field (codes ":status") (codes "200") ∷ field (codes "server") [] ∷ []

validate_response_headers_iff_test :
    (validate_response_headers status_list ≡ true) ↔ IsResponseList status_list
validate_response_headers_iff_test = validate_response_headers_iff status_list

-- An inflater that takes one byte at a time.
abbrev bytewise : Nghttp2 Unit Unit
bytewise = record {
  inflate = λ d bytes. (d, inflated 1 (some (field bytes [])) false);
  end_headers = λ d. d;
  deflate = λ e hs. (e, some []);
  change_table_size = λ e n. e;
}

bytewise-Progresses : Progresses bytewise
bytewise-Progresses d b bs consumed emit e = ground arith

decode-ne-none_test : Decoder.decode bytewise tt (130 ∷ 132 ∷ []) ≢ none
decode-ne-none_test = decode-ne-none bytewise bytewise-Progresses tt (130 ∷ 132 ∷ [])

receive_data-receive_pieces_example :
    let before =
      receive_pieces
        ((1 ∷ []) ∷ (2 ∷ 3 ∷ []) ∷ [])
        (receive_headers get_root false (new_stream 1 (pos 65535))) in
    let s = receive_data (4 ∷ []) true before in
    (is_request_complete before ≡ false)
    × (is_request_complete s ≡ true)
    × (s.request_body ≡ 1 ∷ 2 ∷ 3 ∷ 4 ∷ [])
    × (s.request_headers ≡ get_root)
    × (s.state ≡ half_closed_remote)
receive_data-receive_pieces_example =
    receive_data-receive_pieces 1 (pos 65535) get_root ((1 ∷ []) ∷ (2 ∷ 3 ∷ []) ∷ []) (4 ∷ [])

parse_method-method_to_string_test : parse_method (method_to_string post) ≡ post
parse_method-method_to_string_test = parse_method-method_to_string post
