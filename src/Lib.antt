-- ===== src/Lib.antt =====
-- WebFrame (Coroute): a model of the framework's HTTP/2 server, of its WebSocket connections, of its
-- answers to range requests, of its forms, cookies and sessions, and of its pools, with the theorems
-- on them.
--
-- The program. A connection is served by one coroutine, `Http2Connection::run`: it exchanges the
-- prefaces, then reads a frame at a time into `read_buffer_`, dispatches it by its type and erases
-- it. HEADERS creates a stream in the map of the connection, DATA adds to its body, and a complete
-- request starts a detached coroutine that calls the handler and sends the response under flow
-- control; WINDOW_UPDATE and SETTINGS resume the coroutines that wait for a window. A handler may
-- answer a request for byte ranges through `RangeResponseBuilder`, which parses the Range header,
-- normalizes its ranges against the size of the content and builds a response with the parts.
-- Objects, buffers and connections are kept in pools to be used again. A connection that was
-- upgraded to WebSocket receives messages in frames, which a client masks and may send in fragments,
-- and answers the control frames between them. A response of unknown length is written in chunks,
-- and a body in chunks is read as its bytes come. A handler may ask for the fields of a form, which
-- a body carries percent-encoded or in the parts of a multipart body; an index finds them by name. A
-- middleware finds the session of a client by the cookie of the request, calls the handler with it,
-- saves it and sets the cookie of a new one.
--
-- The files.
--   Prelude: shared names; numbers of 32 bits with their wrap-around, bytes, text, association
--     lists, `expected` with its errors.
--   Core/Request, Core/Response: include/coroute/core/request.hpp and response.hpp with their .cpp
--     files in src/core, as far as the other parts use them.
--   Http2/Frame and its children: src/http2/frame.cpp and include/coroute/http2/frame.hpp.
--   Http2/Hpack and its children: src/http2/hpack.cpp. nghttp2 is a parameter: `Nghttp2` in
--     Http2/Hpack/Decoder, and for the connection the record `Hpack`.
--   Http2/Stream: include/coroute/http2/stream.hpp and what src/http2/stream.cpp does to the stream
--     alone; Http2/Stream/Incoming has the theorem on requests in pieces.
--   Http2/Connection: src/http2/connection.cpp. State has the fields, the socket and the monad;
--     Socket the writes, the reads and the map of streams; Sending the coroutines of
--     src/http2/stream.cpp that send; Handlers, Headers and Control the `process_..._frame`
--     functions; Preface and Loop the rest of `run`. Keeps and Kept carry a property of the stream
--     map, of the peer's frame size and of the read buffer through all of them, Reachable is the relation of
--     reachable states and Terminates says that the coroutines end. Settings, Fragments,
--     Windows, Chunks, Delivery, Removed and Overflow have the theorems on settings, headers in
--     fragments, waiting for a window, bodies in frames, whole rounds of the loop, streams that go
--     while their handler runs, and windows that overflow; Writes says what writing leaves alone.
--     Upgrade with its children is the h2c upgrade and its decoding of base64url.
--   Range: include/coroute/core/range.hpp, the byte ranges and their normalization. Digits is the
--     `std::stoll` of the parser, Parse the parser, Builder the responses of src/core/range.cpp;
--     Selection, RoundTrip, Pick, Answers, Lengths and Requests have the theorems.
--   Pools: Objects and Handles are include/coroute/util/object_pool.hpp, Connections is
--     include/coroute/net/connection_pool.hpp; Bags, Buffers and Counters have the theorems.
--   WebSocket: src/net/websocket.cpp and include/coroute/net/websocket.hpp. Frame is the header of a
--     frame and the mask, Connection the loop of `receive` and what it sends, Handshake the upgrade;
--     RoundTrip, Messages, Ends, Opening and Overflow have the theorems, and Masking and Clients
--     describe what a client sends. The SHA-1 and Base64 of OpenSSL are
--     parameters.
--   Chunked: src/core/chunked.cpp and include/coroute/core/chunked.hpp. Codec is the coding of chunks,
--     Writer `ChunkedResponse`, Reader `ChunkedBodyReader`; Hex, Lines, Reading and Chunks have the lemmas
--     on the parts of a body, Transfer, Sizes and Ends the theorems. Prelude/Socket is the connection.
--   Forms: src/core/form.cpp and include/coroute/core/form.hpp. Fields is `FormData`, Url the percent
--     coding, UrlEncoded and Multipart the two kinds of body and `parse`; Lookup has the theorems on the
--     index, Disposition, Headers and Sections the lemmas on the headers of a part, Parts and Requests
--     those on whole bodies.
--   Cookies: src/core/cookie.cpp and include/coroute/core/cookie.hpp; RoundTrip has the theorem.
--   Sessions: src/core/session.cpp and include/coroute/core/session.hpp: the sessions, the store in
--     memory, and in Middleware `SessionMiddleware`; Store has the lemmas, Visits the theorems on two
--     requests of one client.
--
-- The form of the model. A coroutine that returns `expected<T, Error>` is a function from the
-- connection to a result and a connection, or to a fault: a mutex that its own thread locks again, a
-- stream that is used after it was destroyed. The socket is a list of what its reads will give and
-- one of what its writes will return. A handler of a request returns at any later time: its start is
-- an entry in `calls`, its return the step `handler_returns`. A suspended `send_data` is a value in
-- the list of waiters, with the locals that it goes on with. Frames and their payloads are lists of
-- numbers below 256; windows are integers that wrap around at 32 bits; `active_streams_` wraps
-- around at 64. Of a pool or a store, an operation under its mutex is one step; a pointer to a
-- session is an address, and the handler of a request is any function of it and of the store. For
-- range requests the files, the functions of the C library that read a date, and the random digits
-- of a boundary are the parameter `Outside`; a file has the same bytes whenever it is opened.
--
-- Fuel. `send_rest` has as much as there are bytes to send: each round sends one at least, where the
-- peer's frame size is not zero. The main loop has one round more than the bytes that were or may be
-- read, and each round that goes on removes nine at least; the loop over CONTINUATION frames has as
-- much. A run that ended for want of fuel would be the fault `no_fuel`; Kept/Supply, Kept/Rounds and
-- Terminates are about it. The loop over the specs of a Range header has as much as there are bytes,
-- the loops of the pools as much as they may add. `receive` of a WebSocket has a round for each byte
-- that was or may be read, and one for each read and for the last: a frame has two bytes at least.
-- The loops of a chunked reader have as much as there are reads, or bytes, left. The loops over the
-- bodies of forms, and over the headers of a part, have as much as there are bytes: each round takes
-- one at least.
--
-- Not modelled. Threads other than the one of the connection; the HTTP/1.1 server, the router,
-- static files, compression, and the event loops; the conversions of `FormData::get_as`; a session
-- store other than the one in memory. The stream map is an association list: its streams are
-- notified in the order of their creation, where the code has the order of its hash map.
pub mod Prelude
pub mod Core
pub mod Http2
pub mod Range
pub mod Pools
pub mod WebSocket
pub mod Chunked
pub mod Forms
pub mod Cookies
pub mod Sessions
