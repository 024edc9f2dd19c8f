-- ===== src/Http2/Connection/Tests/Sending.antt =====
-- The theorems on sending a body, at a stream whose response waits.
use web_frame.Prelude.{length}
use web_frame.Prelude.Dict.{nat_eq}
use web_frame.Prelude.{length}
