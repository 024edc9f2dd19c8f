-- ===== src/Http2/Connection/Settings.antt =====
-- SETTINGS from one end of a connection to the other: what the serializer of src/http2/frame.cpp
-- writes, `process_settings_frame` of src/http2/connection.cpp applies.
use web_frame.Prelude.{
  ℕ, ◌-◌, ◌/◌, ◌%◌, ◌^◌, ◌<◌, ◌≤◌, ◌≡◌, refl, sym, ap, ◌∙◌, false, some, List, [], ◌∷◌, ◌++◌, arith,
  All, le→ltb, ==_refl,
}
use mathlib.Core.Path.{subst}
use web_frame.Prelude.Int.{to_int32}
use web_frame.Prelude.Bytes.{be16, be32, byte_at}
use web_frame.Prelude.Dict.{nat_eq, find, insert}
use web_frame.Prelude.Expected.{ok}
use web_frame.Http2.Frame.{SettingsEntry, serialize_entry, serialize_entries}
use web_frame.Http2.Frame.Codes.{
  SettingsId, IsSettingsId, header_table_size, enable_push, max_concurrent_streams,
  initial_window_size, max_frame_size, max_header_list_size, other_setting, settings_id_of,
  settings_id_code, settings_id_of-settings_id_code, settings_id_code-lt,
}
use web_frame.Http2.Stream.{new_stream}
use web_frame.Http2.Connection.State.{
  ConnectionSettings, Http2Connection, apply, done, M, bind-ok, ◌>>=◌, ◌>>◌, modify_state,
}
use web_frame.Http2.Connection.Socket.{create_stream}
use web_frame.Http2.Connection.Control.{for_each, check_setting, apply_settings, set_remote}

-- The values that a setting may have.
abbrev IsAllowed : SettingsId → ℕ → Type 0
IsAllowed enable_push value = value ≤ 1
IsAllowed initial_window_size value = value ≤ 2 ^ 31 - 1
IsAllowed max_frame_size value = (16384 ≤ value) × (value ≤ 16777215)
IsAllowed _ value = value < 2 ^ 32

abbrev pub IsAcceptable : SettingsEntry → Type 0
IsAcceptable s = IsSettingsId s.id × IsAllowed s.id s.value

abbrev pub apply_all : List SettingsEntry → ConnectionSettings → ConnectionSettings
apply_all [] s = s
apply_all (e ∷ es) s = apply_all es (apply e.id e.value s)

value-lt : (id : SettingsId) (value : ℕ) → IsAllowed id value → value < 2 ^ 32
value-lt enable_push value h = omega arith
value-lt initial_window_size value h = omega arith
value-lt max_frame_size value h = omega arith
value-lt header_table_size value h = h
value-lt max_concurrent_streams value h = h
value-lt max_header_list_size value h = h
value-lt (other_setting n) value h = h

abbrev pub window_setting : ℕ → List SettingsEntry
window_setting value = record { id = initial_window_size; value = value } ∷ []

be16-quotient : (x : ℕ) → x < 65536 → be16 (x / 2 ^ 8) (x % 256) ≡ x
be16-quotient x h = omega arith

pub be32-quotient :
    (x : ℕ) → x < 2 ^ 32 → be32 (x / 2 ^ 24) (byte_at 16 x) (byte_at 8 x) (x % 256) ≡ x
be32-quotient x h = omega arith

module _ {E D : Type 0} where
  -- A connection without streams whose mutex is free.
  abbrev without_streams : Http2Connection E D → Http2Connection E D
  without_streams c = record c { streams = []; streams_locked = false }

  without_streams_lem :
      (c : Http2Connection E D) → c.streams ≡ [] → c.streams_locked ≡ false → without_streams c ≡ c
  without_streams_lem c s l =
      ap (λ streams. record c { streams = streams; streams_locked = false }) (sym s)
      ∙ ap (λ locked. record c { streams_locked = locked }) (sym l)

  check_setting-done :
      (id : SettingsId) (value : ℕ) (c : Http2Connection E D)
      → IsAllowed id value
      → check_setting id value (without_streams c) ≡ done (ok tt) (without_streams c)
  unfolding check_setting for_each ◌>>=◌
  check_setting-done enable_push value c h = rw (le→ltb 1 value h) refl
  check_setting-done initial_window_size value c h = rw (le→ltb (2 ^ 31 - 1) value h) refl
  check_setting-done max_frame_size value c h =
      rw (le→ltb value 16384 h.0, le→ltb 16777215 value h.1) refl
  check_setting-done header_table_size value c h = refl
  check_setting-done max_concurrent_streams value c h = refl
  check_setting-done max_header_list_size value c h = refl
  check_setting-done (other_setting n) value c h = refl

  abbrev apply_one : SettingsId → ℕ → List ℕ → M (Http2Connection E D) (Unit {0})
  apply_one id value rest = do
    check_setting id value
    modify_state (set_remote id value)
    apply_settings rest

  apply_settings-entry :
      (id : SettingsId) (value : ℕ) (rest : List ℕ) (c : Http2Connection E D)
      → IsSettingsId id
      → IsAllowed id value
      → apply_settings
          (serialize_entry (record { id = id; value = value }) ++ rest)
          (without_streams c)
        ≡ apply_settings rest (without_streams (set_remote id value c))
  unfolding apply_settings serialize_entry
  apply_settings-entry id value rest c i h =
      let read = be32 (value / 2 ^ 24) (byte_at 16 value) (byte_at 8 value) (value % 256) in
      ap (λ n. apply_one (settings_id_of n) read rest (without_streams c))
        (be16-quotient (settings_id_code id) (settings_id_code-lt id i))
      ∙ ap (λ id'. apply_one id' read rest (without_streams c))
          (settings_id_of-settings_id_code id i)
      ∙ ap (λ v. apply_one id v rest (without_streams c))
          (be32-quotient value (value-lt id value h))
      ∙ bind-ok (check_setting id value) _ (check_setting-done id value c h)
      ∙ bind-ok (modify_state (set_remote id value)) (λ _. apply_settings rest) refl

  apply_settings-apply_all :
      (ss : List SettingsEntry) (c : Http2Connection E D)
      → All IsAcceptable ss
      → apply_settings (serialize_entries ss) (without_streams c)
        ≡ done
            (ok tt)
            (record (without_streams c) { remote_settings = apply_all ss c.remote_settings })
  unfolding apply_settings serialize_entries
  apply_settings-apply_all [] c h = refl
  apply_settings-apply_all (s ∷ ss) c ((i, v), h) =
      apply_settings-entry s.id s.value (serialize_entries ss) c i v
      ∙ apply_settings-apply_all ss (set_remote s.id s.value c) h

  -- On a connection without streams whose mutex is free, an initial window that the peer announces,
  -- up to 2^31-1, becomes its setting but not the window of a stream that is created afterwards: that
  -- one starts with the window of the local setting.
  pub create_stream-apply_settings :
      (value id : ℕ) (c : Http2Connection E D)
      → value ≤ 2 ^ 31 - 1
      → c.streams ≡ []
      → c.streams_locked ≡ false
      → (c' : Http2Connection E D) × ((apply_settings (serialize_entries (window_setting value))
              >> create_stream id)
            c
          ≡ done (ok tt) c')
        × (c'.remote_settings.initial_window ≡ value)
        × (find id c'.streams ≡ some (new_stream id (to_int32 c.local_settings.initial_window)))
  unfolding create_stream find insert apply
  create_stream-apply_settings value id c h s l =
      subst
        (λ c'.
          (c₂ : Http2Connection E D) × ((apply_settings (serialize_entries (window_setting value))
                >> create_stream id)
              c'
            ≡ done (ok tt) c₂)
          × (c₂.remote_settings.initial_window ≡ value)
          × (find id c₂.streams ≡ some (new_stream id (to_int32 c.local_settings.initial_window))))
        (without_streams_lem c s l)
        (
          _,
          bind-ok (apply_settings (serialize_entries (window_setting value)))
              (λ _. create_stream id)
              (apply_settings-apply_all (window_setting value) c ((tt, h), tt)),
          refl,
          rw (==_refl id) refl,
        )
