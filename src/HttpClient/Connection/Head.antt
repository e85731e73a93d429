-- ===== src/HttpClient/Connection/Head.antt =====
-- tornado/simple_httpclient.py: `_HTTPConnection._on_headers`, and the handlers as one function.
use tornado3_1_1_search.Base.{
  ℕ, ◌+◌, Bool, false, not, ◌&&◌, ◌||◌, Option, none, some, List, [], ◌∷◌, ◌++◌, ltb, leb, ◌==◌,
  if◌then◌else◌, take, drop, is_empty, Bytes, bytes_eq, find, split,
}
use tornado3_1_1_search.HttpUtil.Headers
use tornado3_1_1_search.HttpUtil.Headers.{
  Headers, no_headers, get_item, contains, set_item, get_all, parse,
}
use tornado3_1_1_search.HttpClient.Connection.{
  content_length_name, transfer_encoding_name, content_encoding_name, chunked_text, gzip_text,
  Error, assertion_error, key_error, index_error, value_error, header_line, ask_headers,
  ask_chunk_length, ask_until_close, ask_body, Connection, Result, ok, raised, put, on_timeout,
  on_close, handled,
}
use tornado3_1_1_search.HttpClient.Connection.Response.{
  Python, all_equal, on_body, on_chunk_length, on_chunk_data,
}

unfoldable pub is_text : Option Bytes → Bytes → Bool
is_text none text = false
is_text (some value) text = bytes_eq value text

-- The callbacks of the stream and of the io loop.
pub data Input : Type 0 where
  got_headers got_body got_chunk_length got_chunk : Bytes → Input
  stream_closed timed_out : Input

module _ {Z : Type 0} (python : Python Z) where
  -- The header callback gets the first line, each header, and the line that ends them.
  unfoldable pub header_lines : List (Bytes × Bytes) → Connection Z → Connection Z
  unfolding put
  header_lines [] s = put (header_line (13 ∷ 10 ∷ [])) s
  header_lines (e ∷ es) s =
      header_lines es (put (header_line (e.0 ++ (58 ∷ 32 ∷ e.1) ++ 13 ∷ 10 ∷ [])) s)

  unfoldable pub call_header_callback : Bytes → Connection Z → Connection Z
  unfolding header_lines put
  call_header_callback first_line s =
      if s.request.has_header_callback
      then header_lines (get_all s.headers) (put (header_line first_line) s)
      else s

  -- What the connection asks of the stream for the body.
  unfoldable pub read_body : Option ℕ → Connection Z → Connection Z
  read_body content_length s =
      if is_text (get_item transfer_encoding_name s.headers) chunked_text
      then record s { chunks = some []; asked = ask_chunk_length }
      else record s { asked = elim content_length [ none ↦ ask_until_close | some n ↦ ask_body n ] }

  unfoldable pub use_decompressor : Option Bytes → Connection Z → Connection Z
  use_decompressor none s = s
  use_decompressor (some encoding) s =
      if s.request.use_gzip && bytes_eq encoding gzip_text
      then record s { decompressor = some python.new_decompressor }
      else s

  pub has_length : Option ℕ → Bool
  has_length none = false
  has_length (some n) = not (n == 0)

  -- The responses without a body, and the others.
  unfoldable pub choose_body : Option ℕ → Connection Z → Result Z
  unfolding read_body use_decompressor has_length
  choose_body content_length s =
      if s.request.is_head || s.code == 304
      then on_body python [] s
      else (if s.code == 204
          then (if contains transfer_encoding_name s.headers || has_length content_length
              then raised value_error s
              else on_body python [] s)
          else ok (
              read_body content_length
                (use_decompressor (get_item content_encoding_name s.headers) s)))

  unfoldable pub with_length : Bytes → Option ℕ → Connection Z → Result Z
  unfolding choose_body call_header_callback
  with_length first_line none s = raised value_error s
  with_length first_line (some n) s = choose_body (some n) (call_header_callback first_line s)

  -- A length that was given more than once has to be the same each time.
  unfoldable pub check_length : Bytes → Option Bytes → Connection Z → Result Z
  unfolding with_length choose_body call_header_callback
  check_length first_line none s = choose_body none (call_header_callback first_line s)
  check_length first_line (some value) s =
      let pieces = split 44 value in
      let single = record s { headers = set_item content_length_name pieces.0 s.headers } in
      if is_empty pieces.1
      then with_length first_line (python.int_of 10 value) s
      else (if all_equal pieces.0 pieces.1
          then with_length first_line (python.int_of 10 pieces.0) single
          else raised value_error s)

  unfoldable pub with_headers : Bytes → ℕ → Headers.Result → Connection Z → Result Z
  unfolding check_length
  with_headers first_line code (Headers.raised e h) s = raised (header_error e) s
    where
      header_error : Headers.Error → Error
      header_error Headers.key_error = key_error
      header_error Headers.index_error = index_error
      header_error Headers.value_error = value_error
  with_headers first_line code (Headers.ok h) s =
      let s' = record s { headers = h } in
      let final = record s' { code = code } in
      if leb 100 code && ltb code 200
      then ok (record s' { asked = ask_headers })
      else check_length first_line (get_item content_length_name h) final

  unfoldable pub with_status : Bytes → Bytes → Option ℕ → Connection Z → Result Z
  unfolding with_headers
  with_status first_line header_data none s = raised assertion_error s
  with_status first_line header_data (some code) s =
      with_headers first_line code (parse header_data) s

  -- `data.partition("\n")`: without an end of line there are no headers.
  unfoldable pub at_line_end : Bytes → Option ℕ → Connection Z → Result Z
  unfolding with_status
  at_line_end text none s = with_status text [] (python.status_of text) s
  at_line_end text (some at) s =
      with_status (take (at + 1) text) (drop (at + 1) text) (python.status_of (take at text)) s

  unfoldable pub on_headers : Bytes → Connection Z → Result Z
  unfolding at_line_end
  on_headers text s = at_line_end text (find (10 ∷ []) text) s

  unfoldable pub react : Input → Connection Z → Result Z
  react (got_headers text) s = on_headers text s
  react (got_body text) s = on_body python text s
  react (got_chunk_length text) s = on_chunk_length python text s
  react (got_chunk text) s = on_chunk_data python text s
  react stream_closed s = on_close s
  react timed_out s = on_timeout s

  -- The stack context catches what a callback raises.
  unfoldable pub run : List Input → Connection Z → Connection Z
  unfolding handled
  run [] s = s
  run (input ∷ inputs) s = run inputs (handled (react input s))
