-- ===== src/Http2/Frame.antt =====
-- src/http2/frame.cpp and include/coroute/http2/frame.hpp: the wire format of frames.
pub mod Codes
pub mod RoundTrip
use web_frame.Prelude.{
  ℕ, ◌+◌, ◌*◌, ◌/◌, ◌%◌, ◌^◌, Bool, true, false, ◌&&◌, List, [], ◌∷◌, ◌++◌, ltb, ◌==◌,
  if◌then◌else◌, length,
}
use web_frame.Prelude.Bytes.{be24, be32, byte_at, top7}
use web_frame.Prelude.Expected.{Expected, ok, unexpected, Error, io, IoError, invalid_argument}
use Codes.{FrameType, ErrorCode, SettingsId}
use Codes

pub record FrameHeader : Type 0 where
  pub length : ℕ
  pub type : FrameType
  pub flags : ℕ
  pub stream_id : ℕ

-- `flags & mask` for a mask of one bit.
abbrev pub has_bit : ℕ → ℕ → Bool
has_bit mask flags = flags / mask % 2 == 1

abbrev pub has_end_stream : FrameHeader → Bool
has_end_stream h = has_bit 0x01 h.flags

abbrev pub has_end_headers : FrameHeader → Bool
has_end_headers h = has_bit 0x04 h.flags

abbrev pub has_padded : FrameHeader → Bool
has_padded h = has_bit 0x08 h.flags

abbrev pub has_priority : FrameHeader → Bool
has_priority h = has_bit 0x20 h.flags

abbrev pub has_ack : FrameHeader → Bool
has_ack h = has_bit 0x01 h.flags

abbrev pub frame_header_size : ℕ
frame_header_size = 9

unfoldable pub serialize : FrameHeader → List ℕ
serialize h =
    byte_at 16 h.length
    ∷ byte_at 8 h.length
    ∷ h.length % 256
    ∷ Codes.frame_type_code h.type
    ∷ h.flags
    ∷ top7 h.stream_id
    ∷ byte_at 16 h.stream_id
    ∷ byte_at 8 h.stream_id
    ∷ h.stream_id % 256
    ∷ []

unfoldable pub parse : List ℕ → Expected FrameHeader
parse (d0 ∷ d1 ∷ d2 ∷ d3 ∷ d4 ∷ d5 ∷ d6 ∷ d7 ∷ d8 ∷ rest) = ok (record {
  length = be24 d0 d1 d2;
  type = Codes.frame_type_of d3;
  flags = d4;
  stream_id = be32 (d5 % 128) d6 d7 d8;
})
parse _ = unexpected (io invalid_argument "Frame header too short")

pub record SettingsEntry : Type 0 where
  pub id : SettingsId
  pub value : ℕ

-- Two bytes of identifier and four of value.
unfoldable pub serialize_entry : SettingsEntry → List ℕ
serialize_entry s =
    Codes.settings_id_code s.id / 2 ^ 8
    ∷ Codes.settings_id_code s.id % 256
    ∷ s.value / 2 ^ 24
    ∷ byte_at 16 s.value
    ∷ byte_at 8 s.value
    ∷ s.value % 256
    ∷ []

unfoldable pub serialize_entries : List SettingsEntry → List ℕ
serialize_entries [] = []
serialize_entries (s ∷ ss) = serialize_entry s ++ serialize_entries ss

unfoldable pub serialize_settings_frame : List SettingsEntry → Bool → List ℕ
serialize_settings_frame settings ack =
    serialize (record {
      length = (if ack then 0 else length settings * 6) % 2 ^ 32;
      type = Codes.settings;
      flags = if ack then 0x01 else 0;
      stream_id = 0;
    })
    ++ (if ack then [] else serialize_entries settings)

unfoldable pub serialize_settings_ack : List ℕ
unfolding serialize_settings_frame
serialize_settings_ack = serialize_settings_frame [] true

-- The caller passes a span of eight bytes.
unfoldable pub serialize_ping_frame : List ℕ → Bool → List ℕ
serialize_ping_frame opaque_data ack =
    serialize
      (record { length = 8; type = Codes.ping; flags = if ack then 0x01 else 0; stream_id = 0 })
    ++ opaque_data

abbrev pub u31_bytes : ℕ → List ℕ
u31_bytes x = top7 x ∷ byte_at 16 x ∷ byte_at 8 x ∷ x % 256 ∷ []

abbrev pub u32_bytes : ℕ → List ℕ
u32_bytes x = x / 2 ^ 24 ∷ byte_at 16 x ∷ byte_at 8 x ∷ x % 256 ∷ []

unfoldable pub serialize_goaway_frame : ℕ → ErrorCode → List ℕ → List ℕ
serialize_goaway_frame last_stream_id error_code debug_data =
    serialize (record {
      length = (8 + length debug_data) % 2 ^ 32;
      type = Codes.goaway;
      flags = 0;
      stream_id = 0;
    })
    ++ (u31_bytes last_stream_id ++ (u32_bytes (Codes.error_code error_code) ++ debug_data))

unfoldable pub serialize_window_update_frame : ℕ → ℕ → List ℕ
serialize_window_update_frame stream_id window_size_increment =
    serialize (record { length = 4; type = Codes.window_update; flags = 0; stream_id = stream_id })
    ++ u31_bytes window_size_increment

unfoldable pub serialize_rst_stream_frame : ℕ → ErrorCode → List ℕ
serialize_rst_stream_frame stream_id error_code =
    serialize (record { length = 4; type = Codes.rst_stream; flags = 0; stream_id = stream_id })
    ++ u32_bytes (Codes.error_code error_code)

unfoldable pub serialize_data_frame : ℕ → List ℕ → Bool → List ℕ
serialize_data_frame stream_id payload end_stream =
    serialize (record {
      length = length payload % 2 ^ 32;
      type = Codes.data_frame;
      flags = if end_stream then 0x01 else 0;
      stream_id = stream_id;
    })
    ++ payload

unfoldable pub serialize_headers_frame : ℕ → List ℕ → Bool → Bool → List ℕ
serialize_headers_frame stream_id header_block end_stream end_headers =
    serialize (record {
      length = length header_block % 2 ^ 32;
      type = Codes.headers;
      flags = (if end_stream then 0x01 else 0) + (if end_headers then 0x04 else 0);
      stream_id = stream_id;
    })
    ++ header_block
