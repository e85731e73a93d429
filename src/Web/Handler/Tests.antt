-- ===== src/Web/Handler/Tests.antt =====
-- A handler of tornado/web.py that answers a small request, and the theorems at it.
use tornado3_1_1_search.Base.{
  content_length_text, etag_text, ok_text, http_text, http_slash_1_dot_1_text, get_text, ◌≡◌, refl,
  Bool, true, false, Option, none, some, subst, ap, List, [], ◌∷◌, Bytes, lookup, bytes_eq,
}
use tornado3_1_1_search.HttpUtil.Headers.{no_headers, get_item, contains, set_item}
use tornado3_1_1_search.HttpServer.{HttpRequest}
use tornado3_1_1_search.HttpServer.Requests.{supports_http_1_1}
use tornado3_1_1_search.Web.Handler.{
  IsClean, Python, TransformOps, Handler, Result, ok, raised, assertion_error, bytes_value, after,
  set_status, with_reason, clear, default_headers, asks_keep_alive, write,
}
use tornado3_1_1_search.Web.Handler.Transforms.{chunked}
use tornado3_1_1_search.Web.Handler.Response.{
  finish, send_error, complete_headers, use_etag, use_length, write_last, finish_if_open,
  after_write_error, error_page,
}
use tornado3_1_1_search.Web.Handler.Life.{
  Op, op_write, op_flush, op_finish, op_set_header, op_exception, op_set_cookie, run,
}
use tornado3_1_1_search.Web.Handler.Ends.{FinishesOnce, run-FinishesOnce}
use tornado3_1_1_search.Web.Handler.Keeps.{finishes}
use tornado3_1_1_search.Web.Handler.Cookies.{CookieOptions}
use tornado3_1_1_search.Web.Handler.Answers.{Answered, send_error-Answered}
use tornado3_1_1_search.Web.Handler.Lengths.{HasLength, complete_headers-HasLength}

abbrev text_or : Option Bytes → Bytes
text_or none = []
text_or (some text) = text

abbrev small_python : Python
small_python = record {
  str_of = λ n. 48 ∷ [];
  responses = λ code. some (79 ∷ 75 ∷ []);
  sha1_hex = λ parts. 97 ∷ [];
  urljoin = λ base url. url;
  format_timestamp = λ t. 48 ∷ [];
  now = 0;
  cookie_text = λ name value attributes. some value;
  str_of-IsClean = λ n. (refl, tt);
  format_timestamp-IsClean = λ t. (refl, tt);
  cookie_text-IsClean =
      λ name value attributes text e n v a. subst IsClean (ap (λ o. text_or o) e) v;
}

abbrev small_chunked : TransformOps Bool
small_chunked = chunked (λ n. 48 ∷ [])

abbrev request : HttpRequest
request = record {
  method = get_text;
  uri = 47 ∷ [];
  version = http_slash_1_dot_1_text;
  headers = no_headers;
  body = [];
  remote_ip = [];
  protocol = http_text;
  host = [];
  path = 47 ∷ [];
  query = [];
  arguments = [];
  files = [];
}

abbrev fresh : Handler Bool
fresh = record {
  request = request;
  headers = no_headers;
  write_buffer = [];
  status_code = 200;
  reason = ok_text;
  headers_written = false;
  finished = false;
  auto_finish = true;
  transforms = true ∷ [];
  new_cookie = [];
  log = [];
}

abbrev calls : List Op
calls =
    op_set_header etag_text (bytes_value (97 ∷ []))
    ∷ op_write (104 ∷ 105 ∷ [])
    ∷ op_flush
    ∷ op_finish none
    ∷ op_exception none
    ∷ []

fresh-FinishesOnce : FinishesOnce small_python small_chunked false fresh
unfolding finishes
fresh-FinishesOnce = refl

run-FinishesOnce_example :
    FinishesOnce small_python small_chunked false (run small_python small_chunked false calls fresh)
run-FinishesOnce_example =
    run-FinishesOnce small_python small_chunked false calls fresh fresh-FinishesOnce

send_error-Answered_example :
    Answered small_python small_chunked (send_error small_python small_chunked false 404 none fresh)
send_error-Answered_example =
    send_error-Answered small_python small_chunked false 404 none fresh refl refl refl refl

no_length : contains content_length_text fresh.headers ≡ false
unfolding contains get_item lookup no_headers
no_length = refl

complete_headers-HasLength_example :
    HasLength small_python small_chunked (complete_headers small_python small_chunked fresh)
complete_headers-HasLength_example =
    complete_headers-HasLength small_python small_chunked fresh refl no_length

abbrev is_assertion : Result Bool → Bool
is_assertion (raised assertion_error s) = true
is_assertion r = false

abbrev is_finished : Result Bool → Bool
is_finished (ok s) = s.finished
is_finished (raised e s) = s.finished

-- An error with the status 304 is not answered: its page cannot be sent, and neither can the empty end.
error_304 : is_assertion (send_error small_python small_chunked false 304 none fresh) ≡ true
unfolding send_error clear default_headers set_item asks_keep_alive set_status with_reason finish
    write_last write complete_headers use_etag use_length after after_write_error finish_if_open
    error_page no_headers supports_http_1_1 bytes_eq
error_304 = refl

left_open_304 : is_finished (send_error small_python small_chunked false 304 none fresh) ≡ false
unfolding send_error clear default_headers set_item asks_keep_alive set_status with_reason finish
    write_last write complete_headers use_etag use_length after after_write_error finish_if_open
    error_page no_headers supports_http_1_1 bytes_eq
left_open_304 = refl

abbrev cookie_options : CookieOptions
cookie_options = record { domain = 104 ∷ []; path = 47 ∷ []; expires = 0; expires_days = some 1 }

-- A handler on which a cookie is set with a domain and a path, before the other calls.
abbrev cookie_calls : List Op
cookie_calls = op_set_cookie (97 ∷ []) (98 ∷ []) cookie_options ∷ calls
