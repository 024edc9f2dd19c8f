-- ===== src/Http2/Connection/Upgrade/FrameSize.antt =====
-- The h2c upgrade of src/http2/connection.cpp takes a frame size that SETTINGS may not have, and
-- what `send_data` of src/http2/stream.cpp makes of a frame size of zero.
use web_frame.Prelude.{
  ℕ, zero, suc, ◌-◌, ◌<◌, ◌^◌, ◌≡◌, refl, ap, ◌∙◌, Bool, some, List, [], ◌∷◌, arith, min, length,
  All,
}
use web_frame.Prelude.Int.{pos, to_int32, sub32, add32}
use web_frame.Prelude.Bytes.{IsByte}
use web_frame.Prelude.Bytes.{codes}
use web_frame.Prelude.Dict.{nat_eq, find, find-modify_self}
use web_frame.Prelude.Expected.{ok}
use web_frame.Core.Request.{Request, header}
use web_frame.Http2.Frame.{SettingsEntry, serialize_entry}
use web_frame.Http2.Frame.Codes.{max_frame_size, settings_id_of, settings_id_code}
use web_frame.Http2.Hpack.{Hpack}
use web_frame.Http2.Stream.{Stream}
use web_frame.Http2.Connection.State.{
  ConnectionSettings, Http2Connection, apply, done, stuck, no_fuel, bind-ok, ◌>>=◌,
}
use web_frame.Http2.Connection.Socket.{send_frame}
use web_frame.Http2.Connection.Sending.{spend_stream, send_chunk, go_on_with, send_rest}
use web_frame.Http2.Connection.Settings.{be32-quotient}
use web_frame.Http2.Connection.Chunks.{
  after_chunk, send_frame-open, send_chunk-open, sub32-pos, add32-sub32,
}
use web_frame.Http2.Connection.Upgrade.{
  switching_protocols, apply_unchecked, accept_settings, upgrade_to_http2,
}
use web_frame.Http2.Connection.Upgrade.Base64.{base64url_encode, base64url_decode-base64url_encode}

module _ {E D : Type 0} where
  -- With a frame size of zero, `send_data` of a body that is not empty never ends: whatever number
  -- of rounds its loop is allowed, it needs more, where the windows are not negative and all writes
  -- succeed.
  pub send_rest-endless :
      (fuel id x : ℕ) (xs : List ℕ) (end_stream : Bool) (s : Stream) (a b : ℕ)
      (c : Http2Connection E D)
      → find id c.streams ≡ some s
      → s.remote_window_size ≡ pos a
      → c.remote_window_size ≡ pos b
      → a < 2 ^ 31
      → b < 2 ^ 31
      → c.writes ≡ []
      → c.remote_settings.frame_size ≡ 0
      → send_rest fuel id (x ∷ xs) end_stream c ≡ stuck no_fuel
  unfolding send_rest
  send_rest-endless zero id x xs end_stream s a b c e sa cb la lb w z = refl
  send_rest-endless (suc fuel) id x xs end_stream s a b c e sa cb la lb w z =
      ap
        (λ size.
          (send_chunk id (x ∷ xs) (min (length (x ∷ xs)) size) end_stream
              >>= go_on_with λ rest. send_rest fuel id rest end_stream)
            c)
        z
      ∙ bind-ok (send_chunk id (x ∷ xs) (min (length (x ∷ xs)) 0) end_stream)
          (go_on_with λ rest. send_rest fuel id rest end_stream)
          (ap (λ n. send_chunk id (x ∷ xs) n end_stream c) (omega arith)
            ∙ send_chunk-open id (x ∷ xs) 0 end_stream s a b c e sa cb (omega arith) (omega arith)
                la w)
      ∙ send_rest-endless fuel id x xs end_stream (spend_stream 0 s) (a - 0) (b - 0)
          (after_chunk id (x ∷ xs) 0 end_stream c)
          (find-modify_self id (spend_stream 0) c.streams s e)
          (ap (λ v. sub32 v (to_int32 0)) sa ∙ sub32-pos a 0 (omega arith) la)
          (ap (λ v. add32 v (sub32 (pos 0) (to_int32 0))) cb ∙ add32-sub32 b 0 (omega arith) lb)
          (omega arith) (omega arith) w z

abbrev pub frame_size_setting : ℕ → SettingsEntry
frame_size_setting value = record { id = max_frame_size; value = value }

serialize_entry-IsByte :
    (value : ℕ) → value < 2 ^ 32 → All IsByte (serialize_entry (frame_size_setting value))
unfolding serialize_entry settings_id_code
serialize_entry-IsByte value h = ground arith

apply_unchecked-serialize_entry :
    (value : ℕ) (s : ConnectionSettings)
    → value < 2 ^ 32
    → apply_unchecked (serialize_entry (frame_size_setting value)) s
      ≡ record s { frame_size = value }
unfolding apply_unchecked serialize_entry apply settings_id_code settings_id_of
apply_unchecked-serialize_entry value s h =
    ap (λ v. record s { frame_size = v }) (be32-quotient value h)

module _ {E D : Type 0} (hpack : Hpack E D) where
  -- An h2c upgrade whose HTTP2-Settings header is the encoding of a frame size takes that frame size
  -- for the peer's, whatever it is, zero too: where the answer can be written it succeeds, and
  -- nothing is checked.
  pub upgrade_to_http2-frame_size :
      (value : ℕ) (request : Request) (c : Http2Connection E D)
      → value < 2 ^ 32
      → header request (codes "HTTP2-Settings")
        ≡ some (base64url_encode (serialize_entry (frame_size_setting value)))
      → c.writes ≡ []
      → (c' : Http2Connection E D) × (upgrade_to_http2 hpack request c ≡ done (ok tt) c')
        × (c'.remote_settings.frame_size ≡ value)
  unfolding upgrade_to_http2 accept_settings
  upgrade_to_http2-frame_size value request c h e w =
      let bytes = serialize_entry (frame_size_setting value) in
      (
        _,
        bind-ok (send_frame _) _ (send_frame-open _ c w)
            ∙ ap
                (λ t.
                  accept_settings hpack t
                    (record c { outgoing = switching_protocols ∷ c.outgoing }))
                e,
        ap (λ decoded. (apply_unchecked decoded c.remote_settings).frame_size)
              (base64url_decode-base64url_encode bytes (serialize_entry-IsByte value h))
            ∙ ap (λ s. s.frame_size) (apply_unchecked-serialize_entry value c.remote_settings h),
      )
