-- ===== src/Web/Handler/Keeps.antt =====
-- tornado/web.py: the methods of `RequestHandler` that do not finish its request.
use tornado3_1_1_search.Base.{
  Bytes, Option, none, some, ◌++◌, remove, if_intro, ℕ, suc, ◌+◌, ◌≡◌, refl, ◌∙◌, Bool, true, not,
  ◌&&◌, ◌==◌, Option, none, some, List, [], ◌∷◌, ◌++◌, Bytes, bytes_eq, is_empty, join, head_text,
  etag_text, content_length_text, if_intro, arith,
}
use tornado3_1_1_search.HttpUtil.Headers
use tornado3_1_1_search.HttpUtil.Headers.{contains, del_item, add, set_item}
use tornado3_1_1_search.Web.Handler.{
  Python, TransformOps, Output, wrote, request_finished, close_callback_cleared, Handler, Result,
  ok, raised, Converted, converted, refused, HeaderValue, after, put, convert_header_value,
  set_converted, set_header, with_headers, add_converted, add_header, clear_header, set_status,
  with_reason, clear, write, generate_headers, send, first_flush, next_flush, flush,
  transform_first, transform_chunk, asks_keep_alive,
}
use tornado3_1_1_search.Web.Handler.Cookies.{
  CookieOptions, has_space, attributes_of, store_cookie, set_cookie,
}
use tornado3_1_1_search.Web.Handler.Response.{
  is_get, entity_headers, set_etag_header, check_etag_header, clear_all, clear_headers_for_304,
  not_modified, use_etag, use_length, complete_headers,
}
use tornado3_1_1_search.Web.Handler.Life.{left}

-- How often a request has been finished.
unfoldable pub finishes : List Output → ℕ
finishes [] = 0
finishes (wrote bytes ∷ log) = finishes log
finishes (request_finished ∷ log) = suc (finishes log)
finishes (close_callback_cleared ∷ log) = finishes log

pub finishes-append :
    (left right : List Output) → finishes (left ++ right) ≡ finishes left + finishes right
unfolding finishes
finishes-append [] right = omega arith
finishes-append (wrote bytes ∷ log) right = finishes-append log right
finishes-append (request_finished ∷ log) right = omega (arith, finishes-append log right)
finishes-append (close_callback_cleared ∷ log) right = finishes-append log right

module _ {T : Type 0} (python : Python) (ops : TransformOps T) (no_keep_alive : Bool) where
  -- What a method leaves of the log and of `_finished`.
  pub record Same (s s' : Handler T) : Type 0 where
    pub finished : s'.finished ≡ s.finished
    pub log : finishes s'.log ≡ finishes s.log

  abbrev pub SameLeft : Handler T → Result T → Type 0
  SameLeft s r = Same s (left python ops no_keep_alive r)

  pub Same-refl : (s : Handler T) → Same s s
  Same-refl s = record { finished = refl; log = refl }

  pub Same-trans : (s t u : Handler T) → Same s t → Same t u → Same s u
  Same-trans s t u h k = record { finished = k.finished ∙ h.finished; log = k.log ∙ h.log }

  pub after-Same :
      (s : Handler T) (r : Result T) (f : Handler T → Result T)
      → SameLeft s r
      → ((t : Handler T) → SameLeft t (f t))
      → SameLeft s (after python ops r f)
  unfolding after left
  after-Same s (ok t) f h k = Same-trans s t _ h (k t)
  after-Same s (raised e t) f h k = h

  pub set_header-Same :
      (name : Bytes) (value : HeaderValue) (s : Handler T)
      → SameLeft s (set_header python ops name value s)
  unfolding set_header
  set_header-Same name value s = at (convert_header_value python ops value)
    where
      at : (c : Converted) → SameLeft s (set_converted python ops name c s)
      at (converted v) = unfold set_converted left in record { finished = refl; log = refl }
      at (refused e) = unfold set_converted left in record { finished = refl; log = refl }

  pub with_headers-Same :
      (h : Headers.Result) (s : Handler T) → SameLeft s (with_headers python ops h s)
  unfolding with_headers left
  with_headers-Same (Headers.ok h) s = record { finished = refl; log = refl }
  with_headers-Same (Headers.raised e h) s = record { finished = refl; log = refl }

  pub add_header-Same :
      (name : Bytes) (value : HeaderValue) (s : Handler T)
      → SameLeft s (add_header python ops name value s)
  unfolding add_header
  add_header-Same name value s = at (convert_header_value python ops value)
    where
      at : (c : Converted) → SameLeft s (add_converted python ops name c s)
      at (converted v) = unfold add_converted in with_headers-Same (add name v s.headers) s
      at (refused e) = unfold add_converted left in record { finished = refl; log = refl }

  pub clear_header-Same :
      (name : Bytes) (s : Handler T) → SameLeft s (clear_header python ops name s)
  unfolding clear_header left
  clear_header-Same name s =
      if_intro (SameLeft s) (contains name s.headers) _ (ok s)
        (λ e. with_headers-Same (del_item name s.headers) s) (λ e. Same-refl s)

  pub with_reason-Same :
      (code : ℕ) (reason : Option Bytes) (s : Handler T)
      → SameLeft s (with_reason python ops code reason s)
  unfolding with_reason left
  with_reason-Same code (some reason) s = record { finished = refl; log = refl }
  with_reason-Same code none s = record { finished = refl; log = refl }

  pub set_status-Same :
      (code : ℕ) (reason : Option Bytes) (s : Handler T)
      → SameLeft s (set_status python ops code reason s)
  unfolding set_status
  set_status-Same code (some reason) s = with_reason-Same code (some reason) s
  set_status-Same code none s = with_reason-Same code (python.responses code) s

  pub clear-Same : (s : Handler T) → Same s (clear python ops no_keep_alive s)
  unfolding clear
  clear-Same s =
      if_intro (Same s) (asks_keep_alive python ops no_keep_alive s.request) _ _
        (λ e. record { finished = refl; log = refl }) (λ e. record { finished = refl; log = refl })

  pub write-Same : (chunk : Bytes) (s : Handler T) → SameLeft s (write python ops chunk s)
  unfolding write left
  write-Same chunk s =
      if_intro (SameLeft s) s.finished _ _ (λ e. Same-refl s)
        (λ e. record { finished = refl; log = refl })

  store_cookie-Same :
      (name : Bytes) (text : Option Bytes) (s : Handler T)
      → SameLeft s (store_cookie python ops name text s)
  unfolding store_cookie left
  store_cookie-Same name none s = Same-refl s
  store_cookie-Same name (some text) s = record { finished = refl; log = refl }

  pub set_cookie-Same :
      (name value : Bytes) (options : CookieOptions) (s : Handler T)
      → SameLeft s (set_cookie python ops name value options s)
  unfolding set_cookie left
  set_cookie-Same name value options s =
      if_intro (SameLeft s) (has_space (name ++ value)) _ _ (λ e. Same-refl s)
        (λ e.
          let t = record s { new_cookie = remove name s.new_cookie } in
          let r =
            store_cookie python ops name
              (python.cookie_text name value (attributes_of python ops options)) t in
          Same-trans s t (left python ops no_keep_alive r) (record { finished = refl; log = refl })
            (store_cookie-Same name _ t))

  -- What is written is no end of the request.
  pub put_wrote-Same : (bytes : Bytes) (s : Handler T) → Same s (put python ops (wrote bytes) s)
  unfolding put finishes
  put_wrote-Same bytes s = record {
    finished = refl;
    log = finishes-append s.log (wrote bytes ∷ []) ∙ omega arith;
  }

  pub send-Same : (headers chunk : Bytes) (s : Handler T) → Same s (send python ops headers chunk s)
  unfolding send
  send-Same headers chunk s =
      if_intro (Same s) (bytes_eq s.request.method head_text) _ _
        (λ e.
          if_intro (Same s) (is_empty headers) s _ (λ f. Same-refl s)
            (λ f. put_wrote-Same headers s))
        (λ e. put_wrote-Same (headers ++ chunk) s)

  pub flush-Same : (footers : Bool) (s : Handler T) → Same s (flush python ops footers s)
  unfolding flush first_flush next_flush
  flush-Same footers s =
      if_intro (Same s) s.headers_written (next_flush python ops footers s)
        (first_flush python ops footers s)
        (λ e.
          let k =
            send-Same [] (transform_chunk python ops s.transforms (join s.write_buffer) footers).1
              (record s {
                write_buffer = [];
                transforms =
                    (transform_chunk python ops s.transforms (join s.write_buffer) footers).0;
              }) in
          record { finished = k.finished; log = k.log })
        (λ e.
          let t =
            transform_first python ops s.transforms s.status_code s.headers (join s.write_buffer)
              footers in
          let s' : Handler T = record s {
            write_buffer = [];
            headers_written = true;
            transforms = t.0;
            status_code = t.1.0;
            headers = t.1.1.0;
          } in
          let k = send-Same (generate_headers python ops s') t.1.1.1 s' in
          record { finished = k.finished; log = k.log })

  pub clear_all-Same :
      (names : List Bytes) (s : Handler T) → SameLeft s (clear_all python ops names s)
  unfolding clear_all left
  clear_all-Same [] s = Same-refl s
  clear_all-Same (name ∷ names) s =
      after-Same s (clear_header python ops name s) _ (clear_header-Same name s)
        (λ t. clear_all-Same names t)

  pub not_modified-Same : (s : Handler T) → SameLeft s (not_modified python ops s)
  unfolding not_modified left
  not_modified-Same s =
      if_intro (SameLeft s) (check_etag_header python ops s) _ (ok s)
        (λ e.
          let k = set_status-Same 304 none (record s { write_buffer = [] }) in
          record { finished = k.finished; log = k.log })
        (λ e. Same-refl s)

  pub use_etag-Same : (s : Handler T) → SameLeft s (use_etag python ops s)
  unfolding use_etag set_etag_header left
  use_etag-Same s =
      if_intro (SameLeft s)
        (s.status_code == 200 && (is_get python ops s && not (contains etag_text s.headers))) _
        (ok s)
        (λ e.
          after-Same s (set_etag_header python ops s) _ (set_header-Same etag_text _ s)
            not_modified-Same)
        (λ e. Same-refl s)

  pub use_length-Same : (s : Handler T) → SameLeft s (use_length python ops s)
  unfolding use_length clear_headers_for_304 left
  use_length-Same s =
      if_intro (SameLeft s) (s.status_code == 304) _ _
        (λ e.
          if_intro (SameLeft s) (is_empty s.write_buffer) _ _ (λ f. clear_all-Same entity_headers s)
            (λ f. Same-refl s))
        (λ e.
          if_intro (SameLeft s) (contains content_length_text s.headers) (ok s) _ (λ f. Same-refl s)
            (λ f. set_header-Same content_length_text _ s))

  pub complete_headers-Same : (s : Handler T) → SameLeft s (complete_headers python ops s)
  unfolding complete_headers left
  complete_headers-Same s =
      if_intro (SameLeft s) s.headers_written (ok s) _ (λ e. Same-refl s)
        (λ e. after-Same s (use_etag python ops s) _ (use_etag-Same s) use_length-Same)
