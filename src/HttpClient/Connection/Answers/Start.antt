-- ===== src/HttpClient/Connection/Answers/Start.antt =====
-- tornado/simple_httpclient.py: `_on_headers` answers once, and so does any sequence of callbacks.
use tornado3_1_1_search.Base.{
  ℕ, ◌+◌, refl, false, ◌&&◌, ◌||◌, Option, none, some, List, [], ◌∷◌, ◌++◌, ltb, leb, ◌==◌,
  if_intro, take, drop, is_empty, Bytes, bytes_eq, find, split, arith,
}
use tornado3_1_1_search.HttpUtil.Headers
use tornado3_1_1_search.HttpUtil.Headers.{get_item, contains, get_all, parse}
use tornado3_1_1_search.HttpClient.Connection.{
  content_length_name, transfer_encoding_name, content_encoding_name, chunked_text, gzip_text,
  ask_headers, ask_chunk_length, ask_until_close, ask_body, value_error, http_error, header_line,
  Request, init, Connection, Result, ok, raised, on_timeout, on_close, handled,
}
use tornado3_1_1_search.HttpClient.Connection.Response.{Python, all_equal, on_body}
use tornado3_1_1_search.HttpClient.Connection.Head.{
  header_lines, call_header_callback, read_body, is_text, use_decompressor, has_length, choose_body,
  with_length, check_length, with_headers, with_status, at_line_end, on_headers, Input, got_headers,
  got_body, got_chunk_length, got_chunk, stream_closed, timed_out, react, run,
}
use tornado3_1_1_search.HttpClient.Connection.Answers.{
  is_answer, is_released, answers, releases, count, AnswersOnce, left, put-AnswersOnce,
}
use tornado3_1_1_search.HttpClient.Connection.Answers.Body.{
  handle_exception-AnswersOnce, on_body-AnswersOnce, on_chunk_length-AnswersOnce,
  on_chunk_data-AnswersOnce,
}

module _ {Z : Type 0} (python : Python Z) where
  header_lines-AnswersOnce :
      (es : List (Bytes × Bytes)) (s : Connection Z)
      → AnswersOnce s
      → AnswersOnce (header_lines python es s)
  unfolding header_lines is_answer is_released
  header_lines-AnswersOnce [] s h = put-AnswersOnce (header_line (13 ∷ 10 ∷ [])) s refl refl h
  header_lines-AnswersOnce (e ∷ es) s h =
      header_lines-AnswersOnce es _
        (put-AnswersOnce (header_line (e.0 ++ (58 ∷ 32 ∷ e.1) ++ 13 ∷ 10 ∷ [])) s refl refl h)

  call_header_callback-AnswersOnce :
      (line : Bytes) (s : Connection Z)
      → AnswersOnce s
      → AnswersOnce (call_header_callback python line s)
  unfolding call_header_callback is_answer is_released
  call_header_callback-AnswersOnce line s h =
      if_intro AnswersOnce s.request.has_header_callback _ _
        (λ e.
          header_lines-AnswersOnce (get_all s.headers) _
            (put-AnswersOnce (header_line line) s refl refl h))
        (λ e. h)

  use_decompressor-AnswersOnce :
      (encoding : Option Bytes) (s : Connection Z)
      → AnswersOnce s
      → AnswersOnce (use_decompressor python encoding s)
  unfolding use_decompressor
  use_decompressor-AnswersOnce none s h = h
  use_decompressor-AnswersOnce (some encoding) s h =
      if_intro AnswersOnce (s.request.use_gzip && bytes_eq encoding gzip_text)
        (record s { decompressor = some python.new_decompressor }) s
        (λ e. record { facts = h.facts }) (λ e. h)

  read_body-AnswersOnce :
      (n : Option ℕ) (s : Connection Z) → AnswersOnce s → AnswersOnce (read_body python n s)
  unfolding read_body
  read_body-AnswersOnce n s h =
      if_intro AnswersOnce (is_text (get_item transfer_encoding_name s.headers) chunked_text)
        (record s { chunks = some []; asked = ask_chunk_length })
        (record s { asked = elim n [ none ↦ ask_until_close | some m ↦ ask_body m ] })
        (λ e. record { facts = h.facts }) (λ e. record { facts = h.facts })

  choose_body-AnswersOnce :
      (n : Option ℕ) (s : Connection Z)
      → AnswersOnce s
      → AnswersOnce (left (choose_body python n s))
  unfolding choose_body left
  choose_body-AnswersOnce n s h =
      if_intro (λ (r : Result Z). AnswersOnce (left r)) (s.request.is_head || s.code == 304) _ _
        (λ e. on_body-AnswersOnce python [] s h)
        (λ e.
          if_intro (λ (r : Result Z). AnswersOnce (left r)) (s.code == 204) _ _
            (λ e.
              if_intro (λ (r : Result Z). AnswersOnce (left r))
                (contains transfer_encoding_name s.headers || has_length python n)
                (raised value_error s) (on_body python [] s) (λ e. h)
                (λ e. on_body-AnswersOnce python [] s h))
            (λ e.
              read_body-AnswersOnce n _
                (use_decompressor-AnswersOnce (get_item content_encoding_name s.headers) s h)))

  with_length-AnswersOnce :
      (line : Bytes) (n : Option ℕ) (s : Connection Z)
      → AnswersOnce s
      → AnswersOnce (left (with_length python line n s))
  unfolding with_length left
  with_length-AnswersOnce line none s h = h
  with_length-AnswersOnce line (some n) s h =
      choose_body-AnswersOnce (some n) _ (call_header_callback-AnswersOnce line s h)

  check_length-AnswersOnce :
      (line : Bytes) (value : Option Bytes) (s : Connection Z)
      → AnswersOnce s
      → AnswersOnce (left (check_length python line value s))
  unfolding check_length left
  check_length-AnswersOnce line none s h =
      choose_body-AnswersOnce none _ (call_header_callback-AnswersOnce line s h)
  check_length-AnswersOnce line (some value) s h =
      if_intro (λ (r : Result Z). AnswersOnce (left r)) (is_empty (split 44 value).1) _ _
        (λ e. with_length-AnswersOnce line _ s h)
        (λ e.
          if_intro (λ (r : Result Z). AnswersOnce (left r))
            (all_equal (split 44 value).0 (split 44 value).1) _ _
            (λ e.
              with_length-AnswersOnce line (python.int_of 10 (split 44 value).0)
                (record s {
                  headers = Headers.set_item content_length_name (split 44 value).0 s.headers;
                })
                (record { facts = h.facts }))
            (λ e. h))

  with_headers-AnswersOnce :
      (line : Bytes) (code : ℕ) (r : Headers.Result) (s : Connection Z)
      → AnswersOnce s
      → AnswersOnce (left (with_headers python line code r s))
  unfolding with_headers left
  with_headers-AnswersOnce line code (Headers.raised e headers) s h = h
  with_headers-AnswersOnce line code (Headers.ok headers) s h =
      let s' = record s { headers = headers } in
      if_intro (λ (r : Result Z). AnswersOnce (left r)) (leb 100 code && ltb code 200)
        (ok (record s' { asked = ask_headers }))
        (check_length python line (get_item content_length_name headers)
          (record s' { code = code }))
        (λ e. record { facts = h.facts })
        (λ e.
          check_length-AnswersOnce line (get_item content_length_name headers) _
            (record { facts = h.facts }))

  with_status-AnswersOnce :
      (line text : Bytes) (code : Option ℕ) (s : Connection Z)
      → AnswersOnce s
      → AnswersOnce (left (with_status python line text code s))
  unfolding with_status left
  with_status-AnswersOnce line text none s h = h
  with_status-AnswersOnce line text (some code) s h =
      with_headers-AnswersOnce line code (parse text) s h

  at_line_end-AnswersOnce :
      (text : Bytes) (at : Option ℕ) (s : Connection Z)
      → AnswersOnce s
      → AnswersOnce (left (at_line_end python text at s))
  unfolding at_line_end
  at_line_end-AnswersOnce text none s h =
      with_status-AnswersOnce text [] (python.status_of text) s h
  at_line_end-AnswersOnce text (some at) s h =
      with_status-AnswersOnce (take (at + 1) text) (drop (at + 1) text)
        (python.status_of (take at text)) s h

  react-AnswersOnce :
      (input : Input) (s : Connection Z) → AnswersOnce s → AnswersOnce (left (react python input s))
  unfolding react on_headers on_close on_timeout left
  react-AnswersOnce (got_headers text) s h = at_line_end-AnswersOnce text (find (10 ∷ []) text) s h
  react-AnswersOnce (got_body text) s h = on_body-AnswersOnce python text s h
  react-AnswersOnce (got_chunk_length text) s h = on_chunk_length-AnswersOnce python text s h
  react-AnswersOnce (got_chunk text) s h = on_chunk_data-AnswersOnce python text s h
  react-AnswersOnce stream_closed s h =
      if_intro (λ (r : Result Z). AnswersOnce (left r)) s.final_callback (raised (http_error 599) s)
        (ok s) (λ e. h) (λ e. h)
  react-AnswersOnce timed_out s h =
      let s' = record s { timeout = false } in
      if_intro (λ (r : Result Z). AnswersOnce (left r)) s.final_callback
        (raised (http_error 599) s') (ok s') (λ e. record { facts = h.facts })
        (λ e. record { facts = h.facts })

  handled-AnswersOnce : (r : Result Z) → AnswersOnce (left r) → AnswersOnce (handled r)
  unfolding handled left
  handled-AnswersOnce (ok s) h = h
  handled-AnswersOnce (raised e s) h = handle_exception-AnswersOnce python e s h

  run_keeps :
      (inputs : List Input) (s : Connection Z) → AnswersOnce s → AnswersOnce (run python inputs s)
  unfolding run
  run_keeps [] s h = h
  run_keeps (input ∷ inputs) s h =
      run_keeps inputs _ (handled-AnswersOnce (react python input s) (react-AnswersOnce input s h))

  -- Whatever the stream and the io loop call, in any order, and whatever is raised, the request of a
  -- new connection is answered at most once and its slot is freed at most once; when it is answered,
  -- the slot has been freed. It is answered exactly when the final callback is no longer set. To
  -- hand the callback to the fetch of a redirect counts as the answer.
  pub run-AnswersOnce :
      (request : Request) (inputs : List Input) → AnswersOnce (run python inputs (init request))
  unfolding init answers releases count
  run-AnswersOnce request inputs =
      let fresh : AnswersOnce (init {Z = Z} request) = record {
        facts = record {
          released_once = refl;
          answered_once = refl;
          freed = λ e. ground (arith, e);
        };
      } in
      run_keeps inputs (init request) fresh
