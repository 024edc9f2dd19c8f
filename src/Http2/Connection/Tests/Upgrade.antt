-- ===== src/Http2/Connection/Tests/Upgrade.antt =====
-- The theorems on the h2c upgrade and on a frame size of zero.
use web_frame.Prelude.{◌≡◌, refl, true, [], ◌∷◌, arith}
use web_frame.Prelude.Int.{pos}
use web_frame.Prelude.Bytes.{codes}
use web_frame.Prelude.Dict.{nat_eq, find}
use web_frame.Prelude.Expected.{ok}
use web_frame.Http2.Stream.{new_stream}
use web_frame.Http2.Connection.State.{Http2Connection, done, stuck}
use web_frame.Http2.Connection.Preface.{new_connection}
use web_frame.Core.Request.{Request, empty_request, header}
use web_frame.Http2.Frame.{serialize_entry}
use web_frame.Http2.Connection.State.{no_fuel}
use web_frame.Http2.Connection.Upgrade.{upgrade_to_http2}
use web_frame.Http2.Connection.Upgrade.Base64.{
  base64url_decode, base64url_encode, base64url_decode-base64url_encode,
}
use web_frame.Http2.Connection.Upgrade.FrameSize.{
  frame_size_setting, send_rest-endless, upgrade_to_http2-frame_size,
}
use web_frame.Http2.Connection.Sending.{send_rest}
use web_frame.Http2.Connection.Tests.{constant_hpack, idle_connection, waiting, with_waiting}

abbrev zero_frame_size : Http2Connection Unit Unit
zero_frame_size = record (with_waiting (pos 9)) {
  remote_settings = record (with_waiting (pos 9)).remote_settings { frame_size = 0 };
}

send_rest-endless_test : send_rest 3 1 (1 ∷ 2 ∷ []) true zero_frame_size ≡ stuck no_fuel
unfolding find new_stream new_connection
send_rest-endless_test =
    send_rest-endless 3 1 1 (2 ∷ []) true (waiting (pos 9)) 9 65535 zero_frame_size refl refl refl
      (omega arith) (omega arith) refl refl

abbrev offer : Request
offer = record empty_request {
  headers =
      (codes "HTTP2-Settings", base64url_encode (serialize_entry (frame_size_setting 0))) ∷ [];
}

upgrade_to_http2-frame_size_test :
    (c' : Http2Connection Unit Unit) × (upgrade_to_http2 constant_hpack offer (idle_connection [])
      ≡ done (ok tt) c')
    × (c'.remote_settings.frame_size ≡ 0)
unfolding new_connection header find
upgrade_to_http2-frame_size_test =
    upgrade_to_http2-frame_size constant_hpack 0 offer (idle_connection []) (omega arith) refl refl

base64url_decode-base64url_encode_example :
    base64url_decode (base64url_encode (0 ∷ 5 ∷ 255 ∷ 7 ∷ [])) ≡ 0 ∷ 5 ∷ 255 ∷ 7 ∷ []
base64url_decode-base64url_encode_example =
    base64url_decode-base64url_encode (0 ∷ 5 ∷ 255 ∷ 7 ∷ [])
      (omega arith, (omega arith, (omega arith, (omega arith, tt))))
