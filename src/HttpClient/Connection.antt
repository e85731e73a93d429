-- ===== src/HttpClient/Connection.antt =====
-- tornado/simple_httpclient.py: how `_HTTPConnection` reads a response, answers its request and
-- frees its slot. The stream is what it was last asked to read; the socket's name lookup and the
-- request that is sent are outside.
pub mod Response
pub mod Head
pub mod Answers
pub mod Chunks
pub mod Tests
use tornado3_1_1_search.Base.{
  ℕ, Bool, true, false, Option, none, some, List, [], ◌∷◌, ◌++◌, Bytes, if◌then◌else◌,
}
use tornado3_1_1_search.HttpUtil.Headers.{Headers, no_headers}

-- "Content-Length"
abbrev pub content_length_name : Bytes
content_length_name =
    67 ∷ 111 ∷ 110 ∷ 116 ∷ 101 ∷ 110 ∷ 116 ∷ 45 ∷ 76 ∷ 101 ∷ 110 ∷ 103 ∷ 116 ∷ 104 ∷ []

-- "Transfer-Encoding"
abbrev pub transfer_encoding_name : Bytes
transfer_encoding_name =
    84 ∷ 114 ∷ 97 ∷ 110 ∷ 115 ∷ 102 ∷ 101 ∷ 114 ∷ 45 ∷ 69 ∷ 110 ∷ 99 ∷ 111 ∷ 100 ∷ 105 ∷ 110 ∷ 103
    ∷ []

-- "Content-Encoding"
abbrev pub content_encoding_name : Bytes
content_encoding_name =
    67 ∷ 111 ∷ 110 ∷ 116 ∷ 101 ∷ 110 ∷ 116 ∷ 45 ∷ 69 ∷ 110 ∷ 99 ∷ 111 ∷ 100 ∷ 105 ∷ 110 ∷ 103 ∷ []

-- "Location"
abbrev pub location_name : Bytes
location_name = 76 ∷ 111 ∷ 99 ∷ 97 ∷ 116 ∷ 105 ∷ 111 ∷ 110 ∷ []

-- "chunked"
abbrev pub chunked_text : Bytes
chunked_text = 99 ∷ 104 ∷ 117 ∷ 110 ∷ 107 ∷ 101 ∷ 100 ∷ []

-- "gzip"
abbrev pub gzip_text : Bytes
gzip_text = 103 ∷ 122 ∷ 105 ∷ 112 ∷ []

pub data Error : Type 0 where
  http_error : ℕ → Error
  assertion_error key_error index_error value_error attribute_error type_error zlib_error : Error

-- What the connection does to others, in order: it frees its slot, it answers with a status and a
-- body, or with an error, it hands the request on to another fetch, or it passes data on.
pub data Output : Type 0 where
  released : Output
  responded : ℕ → Bytes → Output
  failed : Error → Output
  -- The location, whether the request becomes a GET without a body, and whether there is a callback.
  fetched_again : Bytes → Bool → Bool → Output
  streamed : Bytes → Output
  header_line : Bytes → Output

-- What the stream was last asked to read.
pub data Ask : Type 0 where
  ask_headers ask_chunk_length ask_until_close ask_nothing : Ask
  ask_body ask_chunk : ℕ → Ask

-- What the connection reads of its request.
pub record Request : Type 0 where
  pub is_head : Bool
  pub follow_redirects : Bool
  pub max_redirects : ℕ
  pub use_gzip : Bool
  pub has_header_callback : Bool
  pub has_streaming_callback : Bool

-- The attributes; `release_callback`, `final_callback` and `timeout` say whether they are set.
pub record Connection (Z : Type 0) : Type 0 where
  pub request : Request
  pub release_callback : Bool
  pub final_callback : Bool
  pub timeout : Bool
  pub code : ℕ
  pub headers : Headers
  pub chunks : Option (List Bytes)
  pub decompressor : Option Z
  pub asked : Ask
  pub stream_closed : Bool
  pub log : List Output

-- What a method leaves, and what it raises.
pub data Result (Z : Type 0) : Type 0 where
  ok : Connection Z → Result Z
  raised : Error → Connection Z → Result Z

-- `__init__`, up to when the response is read.
pub init : {Z : Type 0} → Request → Connection Z
init request = record {
  request = request;
  release_callback = true;
  final_callback = true;
  timeout = true;
  code = 0;
  headers = no_headers;
  chunks = none;
  decompressor = none;
  asked = ask_headers;
  stream_closed = false;
  log = [];
}

module _ {Z : Type 0} where
  pub put : Output → Connection Z → Connection Z
  put output s = record s { log = s.log ++ output ∷ [] }

  pub remove_timeout : Connection Z → Connection Z
  remove_timeout s = record s { timeout = false }

  pub release : Connection Z → Connection Z
  unfolding put
  release s = if s.release_callback then put released (record s { release_callback = false }) else s

  -- `_run_callback`; the answer is queued on the io loop.
  pub run_callback : Output → Connection Z → Connection Z
  unfolding put release
  run_callback answer s =
      let s' = release s in
      if s'.final_callback then put answer (record s' { final_callback = false }) else s'

  pub on_end_request : Connection Z → Connection Z
  on_end_request s = record s { stream_closed = true }

  -- What is raised in any of the handlers comes here; when the request has been answered the
  -- exception is passed on, which changes nothing.
  pub handle_exception : Error → Connection Z → Connection Z
  unfolding remove_timeout run_callback on_end_request
  handle_exception e s =
      if s.final_callback then on_end_request (run_callback (failed e) (remove_timeout s)) else s

  pub on_timeout : Connection Z → Result Z
  on_timeout s =
      let s' = record s { timeout = false } in
      if s.final_callback then raised (http_error 599) s' else ok s'

  pub on_close : Connection Z → Result Z
  on_close s = if s.final_callback then raised (http_error 599) s else ok s

  pub handled : Result Z → Connection Z
  unfolding handle_exception
  handled (ok s) = s
  handled (raised e s) = handle_exception e s
