-- ===== src/HttpClient/Connection/Response.antt =====
-- tornado/simple_httpclient.py: the handlers of `_HTTPConnection` for the head, the body and the
-- chunks of a response. `int`, the pattern of the status line and zlib are parameters.
use tornado3_1_1_search.Base.{
  ℕ, ◌+◌, ◌-◌, Bool, true, false, ◌&&◌, ◌||◌, Option, none, some, is_some, List, [], ◌∷◌, ◌++◌, ltb,
  ◌==◌, if◌then◌else◌, length, take, drop, join, is_empty, Bytes, bytes_eq, lstrip, strip,
}
use tornado3_1_1_search.HttpUtil.Headers.{get_item}
use tornado3_1_1_search.HttpClient.Connection.{
  location_name, assertion_error, key_error, value_error, attribute_error, type_error, zlib_error,
  responded, fetched_again, streamed, ask_chunk_length, ask_chunk, Connection, Result, ok, raised,
  put, remove_timeout, release, run_callback, on_end_request,
}

-- What the parameters are: `int(text, base)` for texts of numbers that are not negative, the code
-- in a status line, and zlib's decompression with its state.
pub record Python (Z : Type 0) : Type 0 where
  pub int_of : ℕ → Bytes → Option ℕ
  pub status_of : Bytes → Option ℕ
  pub new_decompressor : Z
  pub decompress : Z → Bytes → Option (Z × Bytes)
  pub flush : Z → Bytes

unfoldable pub is_redirect : ℕ → Bool
is_redirect code = code == 301 || code == 302 || code == 303 || code == 307

unfoldable pub all_equal : Bytes → List Bytes → Bool
all_equal first [] = true
all_equal first (piece ∷ pieces) = bytes_eq (lstrip piece) first && all_equal first pieces

module _ {Z : Type 0} (python : Python Z) where
  -- A redirect is handed on to the client.
  unfoldable pub redirect : Option Bytes → Connection Z → Result Z
  unfolding put release on_end_request
  redirect none s = raised key_error s
  redirect (some location) s = ok (
      on_end_request (
        put (fetched_again location (s.code == 302 || s.code == 303) s.final_callback)
          (release (record s { final_callback = false }))))

  -- The answer with a body that is decompressed.
  unfoldable pub answer : Bytes → Connection Z → Result Z
  unfolding put run_callback on_end_request
  answer body s =
      let s' = if is_some s.chunks then s else put (streamed body) s in
      if s.request.has_streaming_callback
      then ok (on_end_request (run_callback (responded s.code []) s'))
      else ok (on_end_request (run_callback (responded s.code body) s))

  unfoldable pub inflated : Option (Z × Bytes) → Connection Z → Result Z
  unfolding answer
  inflated none s = raised zlib_error s
  inflated (some p) s = answer (p.1 ++ python.flush p.0) s

  unfoldable pub decompressed : Bytes → Option Z → Connection Z → Result Z
  unfolding inflated answer
  decompressed body none s = answer body s
  decompressed body (some z) s = inflated (python.decompress z body) s

  unfoldable pub redirects : Connection Z → Bool
  unfolding is_redirect
  redirects s = s.request.follow_redirects && ltb 0 s.request.max_redirects && is_redirect s.code

  unfoldable pub on_body : Bytes → Connection Z → Result Z
  unfolding remove_timeout redirect decompressed redirects
  on_body body s =
      let s' = remove_timeout s in
      if redirects s'
      then redirect (get_item location_name s'.headers) s'
      else decompressed body s'.decompressor s'

  -- A chunk that is decompressed goes to the streaming callback, or to the chunks.
  unfoldable pub keep_chunk : Bytes → Option (List Bytes) → Connection Z → Result Z
  unfolding put
  keep_chunk chunk none s =
      if s.request.has_streaming_callback
      then ok (put (streamed chunk) s)
      else raised attribute_error s
  keep_chunk chunk (some chunks) s =
      if s.request.has_streaming_callback
      then ok (put (streamed chunk) s)
      else ok (record s { chunks = some (chunks ++ chunk ∷ []) })

  -- What the decompressor still has after the last chunk.
  unfoldable pub keep_tail : Option Z → Connection Z → Result Z
  unfolding keep_chunk
  keep_tail none s = ok s
  keep_tail (some z) s =
      let kept = keep_chunk (python.flush z) s.chunks s in
      if is_empty (python.flush z) then ok s else kept

  unfoldable pub join_chunks : Option (List Bytes) → Connection Z → Result Z
  unfolding on_body
  join_chunks none s = raised type_error s
  join_chunks (some chunks) s = on_body (join chunks) s

  unfoldable pub after_tail : Result Z → Result Z
  unfolding join_chunks
  after_tail (raised e s) = raised e s
  after_tail (ok s) = join_chunks s.chunks (record s { decompressor = none })

  unfoldable pub chunk_length : Option ℕ → Connection Z → Result Z
  unfolding keep_tail after_tail
  chunk_length none s = raised value_error s
  chunk_length (some length) s =
      if length == 0
      then after_tail (keep_tail s.decompressor s)
      else ok (record s { asked = ask_chunk (length + 2) })

  unfoldable pub on_chunk_length : Bytes → Connection Z → Result Z
  unfolding chunk_length
  on_chunk_length body s = chunk_length (python.int_of 16 (strip body)) s

  unfoldable pub inflated_chunk : Option (Z × Bytes) → Connection Z → Result Z
  unfolding keep_chunk
  inflated_chunk none s = raised zlib_error s
  inflated_chunk (some p) s = keep_chunk p.1 s.chunks (record s { decompressor = some p.0 })

  unfoldable pub decompress_chunk : Bytes → Option Z → Connection Z → Result Z
  unfolding inflated_chunk keep_chunk
  decompress_chunk chunk none s = keep_chunk chunk s.chunks s
  decompress_chunk chunk (some z) s = inflated_chunk (python.decompress z chunk) s

  unfoldable pub after_chunk : Result Z → Result Z
  after_chunk (raised e s) = raised e s
  after_chunk (ok s) = ok (record s { asked = ask_chunk_length })

  unfoldable pub on_chunk_data : Bytes → Connection Z → Result Z
  unfolding decompress_chunk after_chunk
  on_chunk_data body s =
      let size = length body - 2 in
      if bytes_eq (drop size body) (13 ∷ 10 ∷ [])
      then after_chunk (decompress_chunk (take size body) s.decompressor s)
      else raised assertion_error s
