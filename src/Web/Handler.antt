-- ===== src/Web/Handler.antt =====
-- tornado/web.py: the state of `RequestHandler` and the methods that shape a response, up to what
-- they write on the connection. The transforms of the output are reached through an interface.
pub mod Transforms
pub mod Cookies
pub mod Values
pub mod Clean
pub mod Splitting
pub mod Response
pub mod Keeps
pub mod Ends
pub mod Answers
pub mod Lengths
mod Tests
pub mod Life
use tornado3_1_1_search.Base.{
  head_text, cr_lf_cr_lf_text, space_text, set_cookie_start_text, colon_space_text, cr_lf_text,
  ok_text, keep_alive_text, connection_text, server_version_text, server_text, html_type_text,
  content_type_text, date_text, keep_alive_capital_text, ℕ, ◌+◌, ◌<◌, ◌≡◌, ltb, Bool, true, false,
  not, ◌&&◌, ◌||◌, Option, none, some, is_some, List, [], ◌∷◌, ◌++◌, if◌then◌else◌, Bytes, bytes_eq,
  is_empty, map, lower, length, join, find, Each, Dict,
}
use tornado3_1_1_search.HttpUtil.Headers
use tornado3_1_1_search.HttpUtil.Headers.{
  Headers, no_headers, get_item, contains, set_item, add, del_item, get_all,
}
use tornado3_1_1_search.HttpServer.{HttpRequest}
use tornado3_1_1_search.HttpServer.Requests.{get_or, supports_http_1_1}

-- Whether no character is one that `_INVALID_HEADER_CHAR_RE` finds.
abbrev pub IsClean : Bytes → Type 0
IsClean value = Each (λ c. ltb c 32 ≡ false) value

-- What the Python library gives: the decimal digits of a number, the reasons of the status codes, the
-- hexadecimal SHA-1 of the parts of a body, the address that a relative one leads to, times in the
-- format of HTTP, the current time in seconds, and the line of a cookie (`Cookie.SimpleCookie`) with a
-- name, a value and attributes, none if it raises a `CookieError` for the name.
pub record Python : Type 0 where
  pub str_of : ℕ → Bytes
  pub responses : ℕ → Option Bytes
  pub sha1_hex : List Bytes → Bytes
  pub urljoin : Bytes → Bytes → Bytes
  pub format_timestamp : ℕ → Bytes
  pub now : ℕ
  pub cookie_text : Bytes → Bytes → List (Bytes × Bytes) → Option Bytes
  -- Digits and times have no control characters, and a cookie has those that it is given.
  pub str_of-IsClean : (n : ℕ) → IsClean (str_of n)
  pub format_timestamp-IsClean : (t : ℕ) → IsClean (format_timestamp t)
  pub cookie_text-IsClean :
      (name value : Bytes) (attributes : List (Bytes × Bytes)) (text : Bytes)
      → cookie_text name value attributes ≡ some text
      → IsClean name
      → IsClean value
      → Each (λ (attribute : Bytes × Bytes). IsClean attribute.1) attributes
      → IsClean text

-- An output transform with its state.
pub record TransformOps (T : Type 0) : Type 0 where
  pub first_chunk : T → ℕ → Headers → Bytes → Bool → T × (ℕ × (Headers × Bytes))
  pub chunk : T → Bytes → Bool → T × Bytes

pub data Error : Type 0 where
  value_error type_error runtime_error assertion_error cannot_redirect cookie_error : Error
  header_error : Headers.Error → Error

-- What goes to the request of the handler: data, its end, and the close callback that is cleared.
pub data Output : Type 0 where
  wrote : Bytes → Output
  request_finished close_callback_cleared : Output

pub record Handler (T : Type 0) : Type 0 where
  pub request : HttpRequest
  pub headers : Headers
  pub write_buffer : List Bytes
  pub status_code : ℕ
  pub reason : Bytes
  pub headers_written : Bool
  pub finished : Bool
  pub auto_finish : Bool
  pub transforms : List T
  -- `_new_cookie`: for each name what `OutputString` gives
  pub new_cookie : Dict Bytes
  pub log : List Output

-- What a method leaves, and what it raises.
pub data Result (T : Type 0) : Type 0 where
  ok : Handler T → Result T
  raised : Error → Handler T → Result T

-- A value for a header: a byte string, a number, a time, or something else.
pub data HeaderValue : Type 0 where
  bytes_value : Bytes → HeaderValue
  number : ℕ → HeaderValue
  time : ℕ → HeaderValue
  unsupported : HeaderValue

unfoldable pub has_invalid : Bytes → Bool
has_invalid [] = false
has_invalid (c ∷ value) = ltb c 32 || has_invalid value

pub data Converted : Type 0 where
  converted : Bytes → Converted
  refused : Error → Converted

module _ {T : Type 0} (python : Python) (ops : TransformOps T) where
  unfoldable pub after : Result T → (Handler T → Result T) → Result T
  after (ok s) next = next s
  after (raised e s) next = raised e s

  unfoldable pub put : Output → Handler T → Handler T
  put output s = record s { log = s.log ++ output ∷ [] }

  -- `_convert_header_value`
  unfoldable pub convert_header_value : HeaderValue → Converted
  unfolding has_invalid
  convert_header_value (bytes_value value) =
      if ltb 4000 (length value) || has_invalid value then refused value_error else converted value
  convert_header_value (number n) = converted (python.str_of n)
  convert_header_value (time t) = converted (python.format_timestamp t)
  convert_header_value unsupported = refused type_error

  unfoldable pub set_converted : Bytes → Converted → Handler T → Result T
  set_converted name (converted value) s = ok (record s { headers = set_item name value s.headers })
  set_converted name (refused e) s = raised e s

  unfoldable pub set_header : Bytes → HeaderValue → Handler T → Result T
  unfolding set_converted convert_header_value
  set_header name value s = set_converted name (convert_header_value value) s

  -- What a method of the headers leaves.
  unfoldable pub with_headers : Headers.Result → Handler T → Result T
  with_headers (Headers.ok h) s = ok (record s { headers = h })
  with_headers (Headers.raised e h) s = raised (header_error e) (record s { headers = h })

  unfoldable pub add_converted : Bytes → Converted → Handler T → Result T
  unfolding with_headers
  add_converted name (converted value) s = with_headers (add name value s.headers) s
  add_converted name (refused e) s = raised e s

  unfoldable pub add_header : Bytes → HeaderValue → Handler T → Result T
  unfolding add_converted convert_header_value
  add_header name value s = add_converted name (convert_header_value value) s

  unfoldable pub clear_header : Bytes → Handler T → Result T
  unfolding with_headers
  clear_header name s =
      if contains name s.headers then with_headers (del_item name s.headers) s else ok s

  unfoldable pub with_reason : ℕ → Option Bytes → Handler T → Result T
  with_reason code (some reason) s = ok (record s { status_code = code; reason = reason })
  with_reason code none s = raised value_error (record s { status_code = code })

  -- `set_status`, where a reason that is not given is looked up
  unfoldable pub set_status : ℕ → Option Bytes → Handler T → Result T
  unfolding with_reason
  set_status code (some reason) s = with_reason code (some reason) s
  set_status code none s = with_reason code (python.responses code) s

  -- The three headers of every response.
  unfoldable pub default_headers : Headers
  default_headers = set_item date_text (python.format_timestamp python.now) (
      set_item content_type_text html_type_text
        (set_item server_text server_version_text no_headers))

  -- Whether a client of HTTP/1.0 has asked to keep its connection.
  unfoldable pub asks_keep_alive : Bool → HttpRequest → Bool
  asks_keep_alive no_keep_alive request =
      not (supports_http_1_1 request)
      && (not no_keep_alive
          && bytes_eq (map lower (get_or connection_text [] request.headers)) keep_alive_text)

  -- `clear`, on a connection with this `no_keep_alive`
  unfoldable pub clear : Bool → Handler T → Handler T
  unfolding default_headers asks_keep_alive
  clear no_keep_alive s =
      let s' = record s {
        headers = default_headers;
        write_buffer = [];
        status_code = 200;
        reason = ok_text;
      } in
      if asks_keep_alive no_keep_alive s.request
      then record s' { headers = set_item connection_text keep_alive_capital_text default_headers }
      else s'

  -- `write`, for a chunk that is a byte string
  unfoldable pub write : Bytes → Handler T → Result T
  write chunk s =
      if s.finished
      then raised runtime_error s
      else ok (record s { write_buffer = s.write_buffer ++ chunk ∷ [] })

  -- The transforms of the first chunk, one after the other.
  unfoldable pub transform_first :
      List T → ℕ → Headers → Bytes → Bool → List T × (ℕ × (Headers × Bytes))
  transform_first [] code h chunk finishing = ([], (code, (h, chunk)))
  transform_first (t ∷ ts) code h chunk finishing =
      let one = ops.first_chunk t code h chunk finishing in
      let rest = transform_first ts one.1.0 one.1.1.0 one.1.1.1 finishing in
      (one.0 ∷ rest.0, rest.1)

  unfoldable pub transform_chunk : List T → Bytes → Bool → List T × Bytes
  transform_chunk [] chunk finishing = ([], chunk)
  transform_chunk (t ∷ ts) chunk finishing =
      let one = ops.chunk t chunk finishing in
      let rest = transform_chunk ts one.1 finishing in (one.0 ∷ rest.0, rest.1)

  -- The end of a line behind each header.
  unfoldable pub header_lines : List (Bytes × Bytes) → Bytes
  header_lines [] = []
  header_lines (entry ∷ entries) =
      cr_lf_text ++ entry.0 ++ colon_space_text ++ entry.1 ++ header_lines entries

  unfoldable pub cookie_lines : Dict Bytes → Bytes
  cookie_lines [] = []
  cookie_lines (cookie ∷ cookies) =
      cr_lf_text ++ set_cookie_start_text ++ cookie.1 ++ cookie_lines cookies

  -- `_generate_headers`
  unfoldable pub generate_headers : Handler T → Bytes
  unfolding header_lines cookie_lines
  generate_headers s =
      s.request.version
      ++ space_text
      ++ python.str_of s.status_code
      ++ space_text
      ++ s.reason
      ++ header_lines (get_all s.headers)
      ++ cookie_lines s.new_cookie
      ++ cr_lf_cr_lf_text

  -- What `flush` writes, once its data is transformed: only the headers of a HEAD request.
  unfoldable pub send : Bytes → Bytes → Handler T → Handler T
  unfolding put
  send headers chunk s =
      if bytes_eq s.request.method head_text
      then (if is_empty headers then s else put (wrote headers) s)
      else put (wrote (headers ++ chunk)) s

  unfoldable pub first_flush : Bool → Handler T → Handler T
  unfolding transform_first generate_headers send
  first_flush include_footers s =
      let t =
        transform_first s.transforms s.status_code s.headers (join s.write_buffer)
          include_footers in
      let s' = record s {
        write_buffer = [];
        headers_written = true;
        transforms = t.0;
        status_code = t.1.0;
        headers = t.1.1.0;
      } in
      send (generate_headers s') t.1.1.1 s'

  unfoldable pub next_flush : Bool → Handler T → Handler T
  unfolding transform_chunk send
  next_flush include_footers s =
      let t = transform_chunk s.transforms (join s.write_buffer) include_footers in
      send [] t.1 (record s { write_buffer = []; transforms = t.0 })

  -- `flush`, outside WSGI
  unfoldable pub flush : Bool → Handler T → Handler T
  unfolding first_flush next_flush
  flush include_footers s =
      if s.headers_written then next_flush include_footers s else first_flush include_footers s
