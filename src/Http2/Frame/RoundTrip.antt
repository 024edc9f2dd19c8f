-- ===== src/Http2/Frame/RoundTrip.antt =====
-- The nine bytes of a frame header: what is written is read back, and what is read is written back.
use web_frame.Prelude.{ℕ, ◌%◌, ◌^◌, ◌<◌, ◌≡◌, List, [], ◌∷◌, ◌++◌, arith, All}
use web_frame.Prelude.Bytes.{IsByte}
use web_frame.Prelude.Expected.{ok}
use web_frame.Http2.Frame.Codes.{
  IsFrameType, frame_type_code-lt, frame_type_of-frame_type_code, frame_type_code-frame_type_of,
}
use web_frame.Http2.Frame.{FrameHeader, serialize, parse}

-- The fields fit the bits that the wire format gives them.
pub record IsValid (h : FrameHeader) : Type 0 where
  pub length_24 : h.length < 2 ^ 24
  pub known_type : IsFrameType h.type
  pub flags_8 : h.flags < 256
  pub stream_31 : h.stream_id < 2 ^ 31

-- A header whose fields fit the wire format is read back from its nine bytes, whatever follows them.
pub parse-serialize :
    (h : FrameHeader) (rest : List ℕ) → IsValid h → parse (serialize h ++ rest) ≡ ok h
unfolding parse serialize
parse-serialize h rest v = ground (arith, frame_type_of-frame_type_code h.type v.known_type)

-- The bytes of a header are bytes again, so the frame can be sent.
pub serialize-IsByte : (h : FrameHeader) → IsValid h → All IsByte (serialize h)
unfolding serialize
serialize-IsByte h v = ground (arith, frame_type_code-lt h.type v.known_type)

-- Nine bytes that are read are the nine that would be written, but for the reserved top bit of the
-- stream identifier, which is cleared.
pub serialize-parse :
    (d0 d1 d2 d3 d4 d5 d6 d7 d8 : ℕ) (rest : List ℕ) (h : FrameHeader)
    → All IsByte (d0 ∷ d1 ∷ d2 ∷ d3 ∷ d4 ∷ d5 ∷ d6 ∷ d7 ∷ d8 ∷ [])
    → parse (d0 ∷ d1 ∷ d2 ∷ d3 ∷ d4 ∷ d5 ∷ d6 ∷ d7 ∷ d8 ∷ rest) ≡ ok h
    → serialize h ≡ d0 ∷ d1 ∷ d2 ∷ d3 ∷ d4 ∷ d5 % 128 ∷ d6 ∷ d7 ∷ d8 ∷ []
unfolding parse serialize
serialize-parse d0 d1 d2 d3 d4 d5 d6 d7 d8 rest h b e =
    ground (arith, frame_type_code-frame_type_of d3)
