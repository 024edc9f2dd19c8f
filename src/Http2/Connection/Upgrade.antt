-- ===== src/Http2/Connection/Upgrade.antt =====
-- The h2c upgrade at the end of src/http2/connection.cpp.
pub mod Base64
pub mod FrameSize
use web_frame.Prelude.{
  ℕ, zero, suc, ◌+◌, ◌-◌, ◌<◌, ◌^◌, ◌≡◌, refl, ap, ◌∙◌, Bool, true, false, not, ◌&&◌, ◌||◌, Option,
  none, some, List, [], ◌∷◌, ◌++◌, map, arith, eq_list, if◌then◌else◌, min, length, drop,
}
use web_frame.Prelude.Int.{ℤ, pos}
use web_frame.Prelude.Bytes.{be16, be32, codes}
use web_frame.Prelude.Text.{Text, to_lower, contains}
use web_frame.Prelude.Dict.{nat_eq, find, modify, find-modify_self}
use web_frame.Prelude.Expected.{Expected, ok, unexpected, Error}
use web_frame.Core.Request.{Request, header}
use web_frame.Http2.Frame.Codes.{settings_id_of}
use web_frame.Http2.Hpack.{Hpack}
use web_frame.Http2.Stream.{Stream}
use web_frame.Http2.Connection.State.{
  ConnectionSettings, Http2Connection, Read, apply, Run, done, stuck, no_fuel, M, bind-ok,
  bind-stuck, ◌>>=◌, ◌>>◌, pure, modify_state,
}
use web_frame.Http2.Connection.Socket.{send_frame}
use web_frame.Http2.Connection.Upgrade.Base64.{base64url_decode}

abbrev pub switching_protocols : List ℕ
switching_protocols =
    codes "HTTP/1.1 101 Switching Protocols"
    ++ 13 ∷ 10 ∷ codes "Connection: Upgrade"
    ++ 13 ∷ 10 ∷ codes "Upgrade: h2c"
    ++ 13 ∷ 10 ∷ 13 ∷ 10 ∷ []

unfoldable pub upgrade_offered : Option Text → Option Text → Option Text → Bool
upgrade_offered (some connection) (some upgrade) (some settings) =
    contains (codes "upgrade") (map to_lower connection)
    && contains (codes "http2-settings") (map to_lower connection)
    && eq_list (map to_lower upgrade) (codes "h2c")
upgrade_offered _ _ _ = false

unfoldable pub is_h2c_upgrade_request : Request → Bool
unfolding upgrade_offered header
is_h2c_upgrade_request r =
    upgrade_offered (header r (codes "Connection")) (header r (codes "Upgrade"))
      (header r (codes "HTTP2-Settings"))

-- The loop over the entries: each is applied, and none is checked.
unfoldable pub apply_unchecked : List ℕ → ConnectionSettings → ConnectionSettings
apply_unchecked (p0 ∷ p1 ∷ p2 ∷ p3 ∷ p4 ∷ p5 ∷ rest) s =
    apply_unchecked rest (apply (settings_id_of (be16 p0 p1)) (be32 p2 p3 p4 p5) s)
apply_unchecked _ s = s

module _ {E D : Type 0} (hpack : Hpack E D) where
  unfoldable pub accept_settings : Option Text → M (Http2Connection E D) (Unit {0})
  unfolding apply_unchecked base64url_decode
  accept_settings none = pure tt
  accept_settings (some text) = modify_state λ c. record c {
    remote_settings = apply_unchecked (base64url_decode text) c.remote_settings;
    encoder =
        hpack.set_max_table_size c.encoder
          (apply_unchecked (base64url_decode text) c.remote_settings).header_table;
  }

  -- The answer goes out on the socket of the request; the state is that of the new connection.
  unfoldable pub upgrade_to_http2 : Request → M (Http2Connection E D) (Unit {0})
  unfolding accept_settings
  upgrade_to_http2 request = do
    send_frame switching_protocols
    accept_settings (header request (codes "HTTP2-Settings"))
