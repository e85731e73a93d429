-- ===== src/HttpServer/RequestHead.antt =====
-- tornado/httpserver.py: what `_on_headers` reads of a request, and whether `_finish_request` closes its
-- connection.
use tornado3_1_1_search.Base.{
  keep_alive_text, content_length_text, close_text, get_text, head_text, connection_text,
  http_slash_text, any_address_text, cr_lf_text, ℕ, ◌-◌, ltb, Bool, true, false, not, ◌||◌, Option,
  none, some, List, [], ◌∷◌, if◌then◌else◌, Bytes, bytes_eq, map, lower, find, split, take, drop,
  length, starts_with, ℤ, pos, negsuc,
}
use mathlib.Core.Option
use tornado3_1_1_search.HttpUtil.Headers
use tornado3_1_1_search.HttpUtil.Headers.{get_item, contains, parse}
use tornado3_1_1_search.HttpServer.{Python, bad_request, header_error, HttpRequest, Options}
use tornado3_1_1_search.HttpServer.Requests
use tornado3_1_1_search.HttpServer.Requests.{get_or, new_request, supports_http_1_1}

unfoldable pub too_long : ℤ → ℕ → Bool
too_long (pos n) limit = ltb limit n
too_long (negsuc n) limit = false

-- The request line's words, or a bad request.
unfoldable pub three_words : Bytes × List Bytes → Option (Bytes × Bytes × Bytes)
three_words (method, uri ∷ version ∷ []) = some (method, uri, version)
three_words (method, other) = none

-- `data[:eol]` and `data[eol:]`
unfoldable pub cut : Bytes → Option ℕ → Bytes × Bytes
cut data_text none = (take (length data_text - 1) data_text, drop (length data_text - 1) data_text)
cut data_text (some eol) = (take eol data_text, drop eol data_text)

unfoldable pub at_eol : Bytes → Bytes × Bytes
unfolding cut
at_eol data_text = cut data_text (find cr_lf_text data_text)

unfoldable pub remote_ip_of : Options → Bytes
remote_ip_of options = if options.is_inet then options.address else any_address_text

-- The request once its headers are read.
unfoldable pub with_headers :
    Python → Options → Bytes × Bytes × Bytes → Headers.Result → Requests.Result HttpRequest
with_headers python options words (Headers.ok headers) =
    new_request python options words.0 words.1 words.2 headers (remote_ip_of options)
with_headers python options words (Headers.raised Headers.value_error h) =
    Requests.raised bad_request
with_headers python options words (Headers.raised e h) = Requests.raised (header_error e)

-- What follows the split of the request line.
unfoldable pub with_words :
    Python → Options → Bytes → Option (Bytes × Bytes × Bytes) → Requests.Result HttpRequest
unfolding with_headers
with_words python options rest none = Requests.raised bad_request
with_words python options rest (some words) =
    if starts_with http_slash_text words.2
    then with_headers python options words (parse rest)
    else Requests.raised bad_request

-- The part of `_on_headers` that reads the request line and the headers.
unfoldable pub parse_head : Python → Options → Bytes → Requests.Result HttpRequest
unfolding at_eol three_words with_words
parse_head python options data_text =
    let lines = at_eol data_text in
    with_words python options lines.1 (three_words (split 32 lines.0))

-- `header == text`, where a header that is missing is `None`
unfoldable pub header_is : Option Bytes → Bytes → Bool
header_is none text = false
header_is (some value) text = bytes_eq value text

-- Whether `_finish_request` closes the connection of this request.
unfoldable pub disconnects : HttpRequest → Bool
unfolding header_is
disconnects request =
    let connection_header = Option.map (map lower) (get_item connection_text request.headers) in
    let is_get = bytes_eq request.method head_text || bytes_eq request.method get_text in
    if supports_http_1_1 request
    then header_is connection_header close_text
    else (if contains content_length_text request.headers || is_get
        then not (header_is connection_header keep_alive_text)
        else true)
