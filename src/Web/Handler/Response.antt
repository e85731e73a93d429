-- ===== src/Web/Handler/Response.antt =====
-- tornado/web.py: `finish` with the entity tag and the length of a response, `redirect` and
-- `send_error`.
use tornado3_1_1_search.Base.{
  page_end_text, page_middle_text, colon_space_text, page_start_text, location_text, head_text,
  get_text, last_modified_text, content_type_text, content_range_text, content_md5_text,
  content_length_text, content_language_text, content_encoding_text, allow_text, if_none_match_text,
  etag_text, quote_text, ℕ, Bool, true, not, ◌&&◌, ◌||◌, ◌==◌, Option, none, some, is_some, List,
  [], ◌∷◌, ◌++◌, if◌then◌else◌, Bytes, bytes_eq, is_empty, length, join, has_text,
}
use tornado3_1_1_search.HttpUtil.Headers.{contains}
use tornado3_1_1_search.HttpServer.Requests.{get_or}
use tornado3_1_1_search.Web.Handler.{
  Python, TransformOps, runtime_error, assertion_error, cannot_redirect, request_finished,
  close_callback_cleared, Handler, Result, ok, raised, bytes_value, number, after, put, set_header,
  clear_header, set_status, clear, write, flush,
}

-- The headers that a response with the status 304 does not have.
abbrev pub entity_headers : List Bytes
entity_headers =
    allow_text ∷ content_encoding_text ∷ content_language_text ∷ content_length_text
    ∷ content_md5_text ∷ content_range_text ∷ content_type_text ∷ last_modified_text ∷ []

module _ {T : Type 0} (python : Python) (ops : TransformOps T) where
  -- `compute_etag`
  unfoldable pub compute_etag : Handler T → Bytes
  compute_etag s = quote_text ++ python.sha1_hex s.write_buffer ++ quote_text

  -- `set_etag_header`, for the entity tag that the class computes
  unfoldable pub set_etag_header : Handler T → Result T
  unfolding compute_etag
  set_etag_header s = set_header python ops etag_text (bytes_value (compute_etag s)) s

  unfoldable pub check_etag_header : Handler T → Bool
  check_etag_header s =
      let etag = get_or etag_text [] s.headers in
      let inm = get_or if_none_match_text [] s.request.headers in
      not (is_empty etag) && (not (is_empty inm) && has_text etag inm)

  unfoldable pub clear_all : List Bytes → Handler T → Result T
  clear_all [] s = ok s
  clear_all (name ∷ names) s =
      after python ops (clear_header python ops name s) (λ s'. clear_all names s')

  -- `_clear_headers_for_304`
  unfoldable pub clear_headers_for_304 : Handler T → Result T
  unfolding clear_all
  clear_headers_for_304 s = clear_all entity_headers s

  -- `if self.check_etag_header():`
  unfoldable pub not_modified : Handler T → Result T
  unfolding check_etag_header
  not_modified s =
      if check_etag_header s
      then set_status python ops 304 none (record s { write_buffer = [] })
      else ok s

  abbrev pub is_get : Handler T → Bool
  is_get s = bytes_eq s.request.method get_text || bytes_eq s.request.method head_text

  unfoldable pub use_etag : Handler T → Result T
  unfolding set_etag_header not_modified
  use_etag s =
      if s.status_code == 200 && (is_get s && not (contains etag_text s.headers))
      then after python ops (set_etag_header s) not_modified
      else ok s

  unfoldable pub use_length : Handler T → Result T
  unfolding clear_headers_for_304
  use_length s =
      if s.status_code == 304
      then (if is_empty s.write_buffer then clear_headers_for_304 s else raised assertion_error s)
      else (if contains content_length_text s.headers
          then ok s
          else set_header python ops content_length_text (number (length (join s.write_buffer))) s)

  -- The block `if not self._headers_written:` of `finish`
  unfoldable pub complete_headers : Handler T → Result T
  unfolding use_etag use_length
  complete_headers s = if s.headers_written then ok s else after python ops (use_etag s) use_length

  -- The end of `finish`
  unfoldable pub end_response : Handler T → Result T
  end_response s =
      let sent = flush python ops true (put python ops close_callback_cleared s) in
      ok (record (put python ops request_finished sent) { finished = true })

  unfoldable pub write_last : Option Bytes → Handler T → Result T
  write_last none s = ok s
  write_last (some chunk) s = write python ops chunk s

  unfoldable pub finish : Option Bytes → Handler T → Result T
  unfolding write_last complete_headers end_response
  finish chunk s =
      if s.finished
      then raised runtime_error s
      else after python ops (write_last chunk s)
          (λ s1. after python ops (complete_headers s1) end_response)

  -- `redirect`, without a status that is given
  unfoldable pub redirect : Bytes → Bool → Handler T → Result T
  unfolding finish
  redirect url permanent s =
      let code = if permanent then 301 else 302 in
      let location = bytes_value (python.urljoin s.request.uri url) in
      if s.headers_written
      then raised cannot_redirect s
      else after python ops (set_status python ops code none s) (λ s1.
        after python ops (set_header python ops location_text location s1) (λ s2. finish none s2))

  -- The page of `write_error`, without debugging
  unfoldable pub error_page : ℕ → Bytes → Bytes
  error_page code message =
      page_start_text
      ++ python.str_of code
      ++ colon_space_text
      ++ message
      ++ page_middle_text
      ++ python.str_of code
      ++ colon_space_text
      ++ message
      ++ page_end_text

  unfoldable pub finish_if_open : Handler T → Result T
  unfolding finish
  finish_if_open s = if s.finished then ok s else finish none s

  -- An exception of `write_error` is logged.
  unfoldable pub after_write_error : Result T → Result T
  unfolding finish_if_open
  after_write_error (ok s) = finish_if_open s
  after_write_error (raised e s) = finish_if_open s

  -- `send_error`, with the reason of the exception
  unfoldable pub send_error : Bool → ℕ → Option Bytes → Handler T → Result T
  unfolding error_page finish_if_open after_write_error
  send_error no_keep_alive code reason s =
      if s.headers_written
      then finish_if_open s
      else after python ops (set_status python ops code reason (clear python ops no_keep_alive s))
          (λ s1. after_write_error (finish (some (error_page code s1.reason)) s1))

  -- `_handle_request_exception`: an `HTTPError` with its code and reason, or another exception.
  unfoldable pub handle_http_error : Bool → ℕ → Option Bytes → Handler T → Result T
  unfolding send_error
  handle_http_error no_keep_alive code reason s =
      if not (is_some (python.responses code)) && not (is_some reason)
      then send_error no_keep_alive 500 none s
      else send_error no_keep_alive code reason s

  unfoldable pub handle_request_exception : Bool → Option (ℕ × Option Bytes) → Handler T → Result T
  unfolding handle_http_error send_error
  handle_request_exception no_keep_alive none s =
      if s.finished then ok s else send_error no_keep_alive 500 none s
  handle_request_exception no_keep_alive (some error) s =
      if s.finished then ok s else handle_http_error no_keep_alive error.0 error.1 s
