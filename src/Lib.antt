-- ===== src/Lib.antt =====
-- tornado, the web framework and asynchronous networking library (the package `tornado/`). The
-- development models the code that carries bytes between the socket and the handlers of an
-- application, the code that reads and writes the messages made of these bytes, the HTTP server on
-- top of it, and the parts of the web framework that find the handler of a request and shape the
-- response.
--
-- The parts, and how they work together. The io loop (`tornado/ioloop.py`) calls `_handle_events`
-- of a stream (`tornado/iostream.py`) when its socket is ready, and runs the callbacks that the
-- stream has queued. The stream keeps what it has received in a deque of chunks until the read
-- that is set up can complete, and what is to be sent until the socket takes it. The web socket
-- protocol (`tornado/websocket.py`) is a client of the stream: each of its read handlers asks for
-- a number of bytes and is called with them. The HTTP client (`tornado/simple_httpclient.py`) is
-- another: its connections read a response from their stream and parse its headers
-- (`tornado/httputil.py`), and its queue holds back the requests beyond a limit. The HTTP server
-- (`tornado/httpserver.py`) reads the requests of a connection from its stream one after the other
-- and hands each to the application, whose request handlers (`tornado/web.py`) write their
-- response on the connection of the request.
--
-- The files.
-- - Base: the tests on native numbers, lists, byte strings, and the rule set `tests`.
-- - Deque, Deque/Merge: `_merge_prefix` and `_double_prefix` of `tornado/iostream.py`, on a list
--   of byte strings.
-- - IoStream: the state of `BaseIOStream` and `IOStream` as the record `Stream` (its fields have
--   the attributes' names) with `_consume`, `_run_callback`, `close`, `_add_io_state` and
--   `_maybe_add_error_listener`. IoStream/Reading has `read_until_regex`, `read_until`,
--   `read_bytes`, `read_until_close`, `_try_inline_read`, `_read_to_buffer`, `_read_from_buffer`
--   and `_handle_read`; IoStream/Writing has `write`, `_handle_write`, `connect` and
--   `_handle_connect`; IoStream/Loop has `_handle_events`, the wrapper that `_run_callback`
--   queues, and the steps of the io loop. IoStream/Sound and its children prove the invariant,
--   IoStream/ Contract and its children what a client of the stream can rely on.
-- - IoLoop: the state of `PollIOLoop` of `tornado/ioloop.py`, `add_callback`, `add_timeout`,
--   `remove_timeout`, the handlers and `stop`; IoLoop/Start has the turns of `start`, and
--   IoLoop/Periodic `PeriodicCallback`. IoLoop/Sound, IoLoop/Callbacks, IoLoop/Timeouts and
--   IoLoop/Events prove, each about the part it is named for.
-- - HttpUtil: `HTTPHeaders` and `_NormalizedHeaderCache` of `tornado/httputil.py`, in
--   HttpUtil/Headers and HttpUtil/HeaderCache; the modules under Headers prove. HttpUtil/Ranges
--   has `_parse_request_range`, and HttpUtil/Ranges/Slices compares it with the meaning of the
--   header. HttpUtil/Params has `_parseparam` and `_parse_header`, with proofs in its children,
--   and HttpUtil/Bodies `parse_body_arguments` and `parse_multipart_form_data`, with its child
--   RoundTrip.
-- - HttpServer: the interface `Transport` to the stream, which HttpServer/StreamTransport fills
--   with IoStream; HttpServer/Requests has `HTTPRequest`, HttpServer/RequestHead,
--   HttpServer/Connection and its child Receiving the methods of `HTTPConnection`, and
--   HttpServer/Runs what can happen to a connection. HttpServer/Runs/Kept, Reacts and Asks,
--   HttpServer/Heads and Proxies prove.
-- - Web: Web/Handler has the state of `RequestHandler` of `tornado/web.py` and its methods on
--   headers, status and output, its child Response `finish`, `redirect`, `send_error` and
--   `_handle_request_exception`, its child Transforms `ChunkedTransferEncoding`, its child Cookies
--   `set_cookie`, and its child Life the calls of an application; Values, Clean, Splitting, Keeps,
--   Ends, Answers and Lengths prove. Web/Signed has the signed values of cookies, and Opens and
--   RoundTrip prove. Web/Routing has `Application.add_handlers` and `URLSpec.__init__`, its child
--   Dispatch `Application.__call__`, and Reverse `URLSpec._find_groups` and `reverse`; Meaning
--   says which route a request is meant for, and Order and Reverse/Fills prove.
-- - HttpClient: the queue of `SimpleAsyncHTTPClient` of `tornado/simple_httpclient.py`, with
--   HttpClient/Queue; HttpClient/Connection has the state of `_HTTPConnection`, its children
--   Response and Head the handlers of a response, which read headers with HttpUtil/Headers, and
--   Answers and Chunks prove.
-- - Utf8: decoding of UTF-8, a part of the Python language that the messages use.
-- - WebSocket: the state and the handlers of `WebSocketProtocol13`: WebSocket/Frame has
--   `_write_frame` and `_apply_mask`, WebSocket/Receive the handlers from `_receive_frame` to
--   `_on_frame_data`. WebSocket/Mask, WebSocket/RoundTrip and WebSocket/Closing prove.
--
-- What is outside. The socket is a list of what `recv` and `send` will return; an exhausted list
-- means that the call would block. For a stream, the io loop is the queue of callbacks and the
-- handler set for the file descriptor; for the io loop, callbacks and handlers are numbers with
-- the calls that they make, and the clock and `poll` are inputs of each turn. Regular expressions
-- are records named `Regex`, user callbacks are functions that say what they raise, the random
-- masks come from the parameter `urandom`. What the HTTP client uses of `int`, `re` and zlib is a
-- record `Python`, and so is what the server and the handlers use of the library. What the code of
-- an application does is the list of the calls that it makes. Exceptions are values: what a method
-- raises is `raised`, and the state it leaves is returned with it.
--
-- Fuel. The loop over the chunks has as much fuel as there are chunks, each step merging at least
-- two of them; the loop of `_handle_read` and that of `_handle_write` recur on what the socket
-- still returns. The loop over the timeouts runs on fuel, with a theorem that some amount is
-- enough; a timer looks for its next time with one unit for each unit of time that it is late; the
-- loop over the events has one unit for each event, and the queue of the client one for each
-- request in it. A web socket runs on the number of reads that it is given.
--
-- What is not modelled. Arguments, the reading of cookies, templates, gzip and static files of the
-- web framework, TLS and pipe streams, the WebSocket handshake, the requests that the HTTP client
-- sends, and the parts of the package that the list of files does not name. File descriptors,
-- signals and the platform's poll calls are bindings to the operating system.

pub mod Base
pub mod Deque
pub mod HttpClient
pub mod HttpServer
pub mod HttpUtil
pub mod IoLoop
pub mod IoStream
pub mod Utf8
pub mod Web
pub mod WebSocket
