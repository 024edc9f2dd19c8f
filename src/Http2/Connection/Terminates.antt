-- ===== src/Http2/Connection/Terminates.antt =====
-- The coroutines of a connection end: none runs out of the fuel that its loops have.
use web_frame.Core.Response.{Response}
use web_frame.Http2.Hpack.{Hpack}
use web_frame.Http2.Connection.Reachable.{Reachable}
