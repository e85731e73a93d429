-- ===== src/HttpServer/Requests.antt =====
-- tornado/httpserver.py: `HTTPRequest`, with `is_valid_ip` of tornado/netutil.py.
use tornado3_1_1_search.Base.{
  http_slash_1_dot_1_text, loopback_text, host_text, https_text, http_text, x_forwarded_proto_text,
  x_scheme_text, x_real_ip_text, x_forwarded_for_text, ltb, Bool, false, ◌||◌, none, some, List, [],
  ◌∷◌, ◌++◌, if◌then◌else◌, Bytes, bytes_eq, is_empty, split, strip, partition,
}
use tornado3_1_1_search.HttpUtil.Headers.{Headers, no_headers, get_item}
use tornado3_1_1_search.HttpServer.{
  AddressInfo, addresses, no_name, other_error, Python, Error, gaierror, HttpRequest, Options,
}

pub data Result {ℓ} (A : Type ℓ) : Type ℓ where
  ok : A → Result A
  raised : Error → Result A

valid_info : AddressInfo → Result Bool
valid_info (addresses n) = ok (ltb 0 n)
valid_info no_name = ok false
valid_info other_error = raised gaierror

-- `is_valid_ip`
unfoldable pub is_valid_ip : Python → Bytes → Result Bool
unfolding valid_info
is_valid_ip python ip = valid_info (python.getaddrinfo ip)

-- `headers.get(name, default)`
unfoldable pub get_or : Bytes → Bytes → Headers → Bytes
get_or name default headers = elim (get_item name headers) [ none ↦ default | some value ↦ value ]

-- `pieces[-1]`
unfoldable pub last_piece : Bytes → List Bytes → Bytes
last_piece first [] = first
last_piece first (piece ∷ pieces) = last_piece piece pieces

-- The address that the headers of a proxy give, or the socket's.
unfoldable pub forwarded_ip : Headers → Bytes → Bytes
unfolding get_or last_piece
forwarded_ip headers remote_ip =
    let ips = split 44 (get_or x_forwarded_for_text remote_ip headers) in
    get_or x_real_ip_text (strip (last_piece ips.0 ips.1)) headers

unfoldable pub forwarded_proto : Headers → Bytes → Bytes
unfolding get_or
forwarded_proto headers protocol =
    get_or x_scheme_text (get_or x_forwarded_proto_text protocol headers) headers

unfoldable pub is_http_proto : Bytes → Bool
is_http_proto proto = bytes_eq proto http_text || bytes_eq proto https_text

-- The block `if connection and connection.xheaders:`
unfoldable pub override : Headers → Result Bool → HttpRequest → Result HttpRequest
unfolding forwarded_ip forwarded_proto is_http_proto
override headers (raised e) request = raised e
override headers (ok valid) request =
    let ip = forwarded_ip headers request.remote_ip in
    let proto = forwarded_proto headers request.protocol in
    ok (record request {
      remote_ip = if valid then ip else request.remote_ip;
      protocol = if is_http_proto proto then proto else request.protocol;
    })

-- The protocol when no header overrides it.
unfoldable pub default_protocol : Options → Bytes
default_protocol options =
    if is_empty options.protocol
    then (if options.is_ssl then https_text else http_text)
    else options.protocol

-- `self.headers.get("Host") or "127.0.0.1"`
unfoldable pub host_of : Headers → Bytes
unfolding get_or
host_of headers =
    let host = get_or host_text [] headers in if is_empty host then loopback_text else host

-- `headers or HTTPHeaders()`
unfoldable pub headers_or : Headers → Headers
headers_or headers = if is_empty headers.dict then no_headers else headers

-- `HTTPRequest.__init__` as `_on_headers` calls it
unfoldable pub new_request :
    Python → Options → Bytes → Bytes → Bytes → Headers → Bytes → Result HttpRequest
unfolding override default_protocol host_of headers_or
new_request python options method uri version given remote_ip =
    let headers = headers_or given in
    let target = partition 63 uri in
    let request : HttpRequest = record {
      method = method;
      uri = uri;
      version = version;
      headers = headers;
      body = [];
      remote_ip = remote_ip;
      protocol = default_protocol options;
      host = host_of headers;
      path = target.0;
      query = target.1;
      arguments = python.parse_qs target.1;
      files = [];
    } in
    if options.xheaders
    then override headers (is_valid_ip python (forwarded_ip headers remote_ip)) request
    else ok request

unfoldable pub supports_http_1_1 : HttpRequest → Bool
supports_http_1_1 request = bytes_eq request.version http_slash_1_dot_1_text

unfoldable pub full_url : HttpRequest → Bytes
full_url request = request.protocol ++ (58 ∷ 47 ∷ 47 ∷ []) ++ request.host ++ request.uri
