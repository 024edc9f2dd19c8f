-- ===== src/Http2/Frame/Codes.antt =====
-- The enumerations of include/coroute/http2/frame.hpp with their underlying numbers. A C++ enum
-- holds any value of its underlying type, so each has a constructor for the values with no name.
use web_frame.Prelude.{ℕ, ◌≡◌, refl, ◌≤◌, ◌<◌, arith, ◌==◌, if◌then◌else◌}

pub data FrameType : Type 0 where
  data_frame headers priority rst_stream settings push_promise ping goaway : FrameType
  window_update continuation : FrameType
  other_type : ℕ → FrameType

unfoldable pub frame_type_code : FrameType → ℕ
frame_type_code data_frame = 0x0
frame_type_code headers = 0x1
frame_type_code priority = 0x2
frame_type_code rst_stream = 0x3
frame_type_code settings = 0x4
frame_type_code push_promise = 0x5
frame_type_code ping = 0x6
frame_type_code goaway = 0x7
frame_type_code window_update = 0x8
frame_type_code continuation = 0x9
frame_type_code (other_type n) = n

unfoldable pub frame_type_of : ℕ → FrameType
frame_type_of n =
    if n == 0x0
    then data_frame
    else if n == 0x1
    then headers
    else if n == 0x2
    then priority
    else if n == 0x3
    then rst_stream
    else if n == 0x4
    then settings
    else if n == 0x5
    then push_promise
    else if n == 0x6
    then ping
    else if n == 0x7
    then goaway
    else if n == 0x8
    then window_update
    else if n == 0x9
    then continuation
    else other_type n

-- A frame type that the header names, or an unnamed byte.
abbrev pub IsFrameType : FrameType → Type 0
IsFrameType (other_type n) = (10 ≤ n) × (n < 256)
IsFrameType _ = Unit

pub frame_type_of-frame_type_code :
    (t : FrameType) → IsFrameType t → frame_type_of (frame_type_code t) ≡ t
unfolding frame_type_of frame_type_code
frame_type_of-frame_type_code (other_type n) h = ground arith
frame_type_of-frame_type_code data_frame h = refl
frame_type_of-frame_type_code _ h = refl

pub frame_type_code-frame_type_of : (n : ℕ) → frame_type_code (frame_type_of n) ≡ n
unfolding frame_type_of frame_type_code
frame_type_code-frame_type_of n = ground arith

pub frame_type_code-lt : (t : FrameType) → IsFrameType t → frame_type_code t < 256
unfolding frame_type_code
frame_type_code-lt (other_type n) h = omega arith
frame_type_code-lt data_frame h = omega arith
frame_type_code-lt _ h = omega arith

pub data ErrorCode : Type 0 where
  no_error protocol_error internal_error flow_control_error settings_timeout : ErrorCode
  stream_closed frame_size_error refused_stream cancel compression_error : ErrorCode
  connect_error enhance_your_calm inadequate_security http11_required : ErrorCode
  other_error : ℕ → ErrorCode

unfoldable pub error_code : ErrorCode → ℕ
error_code no_error = 0x0
error_code protocol_error = 0x1
error_code internal_error = 0x2
error_code flow_control_error = 0x3
error_code settings_timeout = 0x4
error_code stream_closed = 0x5
error_code frame_size_error = 0x6
error_code refused_stream = 0x7
error_code cancel = 0x8
error_code compression_error = 0x9
error_code connect_error = 0xa
error_code enhance_your_calm = 0xb
error_code inadequate_security = 0xc
error_code http11_required = 0xd
error_code (other_error n) = n

-- `static_cast<ErrorCode>(n)`.
unfoldable pub error_code_of : ℕ → ErrorCode
error_code_of n =
    if n == 0x0
    then no_error
    else if n == 0x1
    then protocol_error
    else if n == 0x2
    then internal_error
    else if n == 0x3
    then flow_control_error
    else if n == 0x4
    then settings_timeout
    else if n == 0x5
    then stream_closed
    else if n == 0x6
    then frame_size_error
    else if n == 0x7
    then refused_stream
    else if n == 0x8
    then cancel
    else if n == 0x9
    then compression_error
    else if n == 0xa
    then connect_error
    else if n == 0xb
    then enhance_your_calm
    else if n == 0xc
    then inadequate_security
    else if n == 0xd
    then http11_required
    else other_error n

pub error_code-error_code_of : (n : ℕ) → error_code (error_code_of n) ≡ n
unfolding error_code error_code_of
error_code-error_code_of n = ground arith

pub data SettingsId : Type 0 where
  header_table_size enable_push max_concurrent_streams initial_window_size : SettingsId
  max_frame_size max_header_list_size : SettingsId
  other_setting : ℕ → SettingsId

unfoldable pub settings_id_code : SettingsId → ℕ
settings_id_code header_table_size = 0x1
settings_id_code enable_push = 0x2
settings_id_code max_concurrent_streams = 0x3
settings_id_code initial_window_size = 0x4
settings_id_code max_frame_size = 0x5
settings_id_code max_header_list_size = 0x6
settings_id_code (other_setting n) = n

unfoldable pub settings_id_of : ℕ → SettingsId
settings_id_of n =
    if n == 0x1
    then header_table_size
    else if n == 0x2
    then enable_push
    else if n == 0x3
    then max_concurrent_streams
    else if n == 0x4
    then initial_window_size
    else if n == 0x5
    then max_frame_size
    else if n == 0x6
    then max_header_list_size
    else other_setting n

-- An identifier that the header names, or an unnamed 16-bit number.
abbrev pub IsSettingsId : SettingsId → Type 0
IsSettingsId (other_setting n) = (settings_id_of n ≡ other_setting n) × (n < 65536)
IsSettingsId _ = Unit

pub settings_id_of-settings_id_code :
    (s : SettingsId) → IsSettingsId s → settings_id_of (settings_id_code s) ≡ s
unfolding settings_id_of settings_id_code
settings_id_of-settings_id_code (other_setting n) h = h.0
settings_id_of-settings_id_code header_table_size h = refl
settings_id_of-settings_id_code _ h = refl

pub settings_id_code-lt : (s : SettingsId) → IsSettingsId s → settings_id_code s < 65536
unfolding settings_id_code
settings_id_code-lt (other_setting n) h = h.1
settings_id_code-lt header_table_size h = omega arith
settings_id_code-lt _ h = omega arith
