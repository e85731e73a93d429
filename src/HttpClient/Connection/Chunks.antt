-- ===== src/HttpClient/Connection/Chunks.antt =====
-- tornado/simple_httpclient.py: a chunked body, and a redirect that comes after the timeout.
use tornado3_1_1_search.Base.{
  ℕ, ◌+◌, ◌≡◌, refl, ap, sym, subst, ◌∙◌, Bool, true, false, ◌||◌, Option, none, some, List, [],
  ◌∷◌, ◌++◌, append-nil, append_assoc, ltb, ◌==◌, length, take, drop, Bytes, bytes_eq, strip, arith,
  join,
}
use tornado3_1_1_search.HttpUtil.Headers.{get_item}
use tornado3_1_1_search.HttpClient.Connection.{
  location_name, http_error, Output, released, responded, failed, fetched_again, Connection, Ask,
  ask_chunk, ask_chunk_length, put, remove_timeout, release, run_callback, on_end_request,
  handle_exception, on_timeout, handled,
}
use tornado3_1_1_search.HttpClient.Connection.Response.{
  Python, redirect, answer, decompressed, redirects, on_body, keep_chunk, keep_tail, join_chunks,
  after_tail, chunk_length, on_chunk_length, decompress_chunk, after_chunk, on_chunk_data,
}
use tornado3_1_1_search.HttpClient.Connection.Head.{
  Input, got_body, got_chunk_length, got_chunk, timed_out, react, run,
}
use tornado3_1_1_search.HttpUtil.Headers.{Headers}
use tornado3_1_1_search.HttpClient.Connection.Response.{is_redirect}
use tornado3_1_1_search.Base.{length-append, ◌-◌, Each}

module _ {Z : Type 0} (python : Python Z) where
  -- A connection that waits for the rest of a response, without gzip or a streaming callback.
  abbrev pub receiving :
      Bool → ℕ → ℕ → Headers → Option (List Bytes) → Ask → List Output → Connection Z
  receiving follow max code headers chunks asked log = record {
    request = record {
      is_head = false;
      follow_redirects = follow;
      max_redirects = max;
      use_gzip = false;
      has_header_callback = false;
      has_streaming_callback = false;
    };
    release_callback = true;
    final_callback = true;
    timeout = true;
    code = code;
    headers = headers;
    chunks = chunks;
    decompressor = none;
    asked = asked;
    stream_closed = false;
    log = log;
  }

  -- When a response redirects a request that follows redirects, and its body comes after the request
  -- has timed out, the client is told of the timeout, and the redirect is still followed, by a fetch
  -- without a callback.
  pub late_redirect :
      (max code : ℕ) (headers : Headers) (location body : Bytes) (asked : Ask)
      → ltb 0 max ≡ true
      → is_redirect code ≡ true
      → get_item location_name headers ≡ some location
      → (run python
          (timed_out ∷ got_body body ∷ [])
          (receiving true max code headers none asked [])).log
        ≡ released
          ∷ failed (http_error 599)
          ∷ fetched_again location (code == 302 || code == 303) false
          ∷ []
  unfolding run react handled on_timeout handle_exception on_body redirects redirect remove_timeout
      run_callback release put on_end_request
  late_redirect max code headers location body asked some_left is there =
      rw (some_left, is, there) refl

  -- The lines and the data of a chunked body, up to the line of the last chunk.
  pub chunk_inputs : List (Bytes × Bytes) → Bytes → List Input
  chunk_inputs [] last = got_chunk_length last ∷ []
  chunk_inputs (c ∷ cs) last =
      got_chunk_length c.0 ∷ got_chunk (c.1 ++ 13 ∷ 10 ∷ []) ∷ chunk_inputs cs last

  pub chunks_of : List (Bytes × Bytes) → List Bytes
  chunks_of [] = []
  chunks_of (c ∷ cs) = c.1 ∷ chunks_of cs

  -- A line that says the length of the data behind it, which is not zero, as the line of every chunk
  -- but the last.
  pub record IsChunk (c : Bytes × Bytes) : Type 0 where
    pub read : python.int_of 16 (strip c.0) ≡ some (length c.1)
    pub more : (length c.1 == 0) ≡ false

  -- The stream is asked for what comes: a line, or as many bytes as there are.
  pub data IsAsked : Ask → Input → Type 0 where
    line : (text : Bytes) → IsAsked ask_chunk_length (got_chunk_length text)
    bytes : (data_text : Bytes) → IsAsked (ask_chunk (length data_text)) (got_chunk data_text)

  -- Each input is what the connection waits for when it comes.
  abbrev pub AreAsked : List Input → Connection Z → Type 0
  AreAsked [] s = Unit
  AreAsked (input ∷ inputs) s =
      IsAsked s.asked input × AreAsked inputs (handled (react python input s))

  take_chunk : (c : Bytes) → take (length (c ++ 13 ∷ 10 ∷ []) - 2) (c ++ 13 ∷ 10 ∷ []) ≡ c
  take_chunk c = rw size (take_all_of c)
    where
      size : length (c ++ 13 ∷ 10 ∷ []) - 2 ≡ length c
      size = omega (arith, length-append c (13 ∷ 10 ∷ []))

      take_all_of : (c : Bytes) → take (length c) (c ++ 13 ∷ 10 ∷ []) ≡ c
      take_all_of [] = refl
      take_all_of (b ∷ c) = ap (λ l. b ∷ l) (take_all_of c)

  drop_chunk :
      (c : Bytes) → drop (length (c ++ 13 ∷ 10 ∷ []) - 2) (c ++ 13 ∷ 10 ∷ []) ≡ 13 ∷ 10 ∷ []
  drop_chunk c = rw size (drop_all_of c)
    where
      size : length (c ++ 13 ∷ 10 ∷ []) - 2 ≡ length c
      size = omega (arith, length-append c (13 ∷ 10 ∷ []))

      drop_all_of : (c : Bytes) → drop (length c) (c ++ 13 ∷ 10 ∷ []) ≡ 13 ∷ 10 ∷ []
      drop_all_of [] = refl
      drop_all_of (b ∷ c) = drop_all_of c

  after_length :
      (follow : Bool) (max code : ℕ) (headers : Headers) (before : List Bytes) (asked : Ask)
      (log : List Output) (c : Bytes × Bytes) (w : IsChunk c)
      → handled (
          react python
            (got_chunk_length c.0)
            (receiving follow max code headers (some before) asked log))
        ≡ receiving follow max code headers (some before) (ask_chunk (length c.1 + 2)) log
  unfolding react handled on_chunk_length chunk_length
  after_length follow max code headers before asked log c w = rw (w.read, chunk_length, w.more) refl

  after_data :
      (follow : Bool) (max code : ℕ) (headers : Headers) (before : List Bytes) (asked : Ask)
      (log : List Output) (chunk : Bytes)
      → handled (
          react python
            (got_chunk (chunk ++ 13 ∷ 10 ∷ []))
            (receiving follow max code headers (some before) asked log))
        ≡ receiving follow max code headers (some (before ++ chunk ∷ [])) ask_chunk_length log
  unfolding react handled on_chunk_data decompress_chunk keep_chunk after_chunk bytes_eq
  after_data follow max code headers before asked log chunk =
      rw (drop_chunk chunk, take_chunk chunk) refl

  after_last :
      (max code : ℕ) (headers : Headers) (before : List Bytes) (asked : Ask) (last : Bytes)
      → python.int_of 16 (strip last) ≡ some 0
      → (handled (
          react python
            (got_chunk_length last)
            (receiving false max code headers (some before) asked []))).log
        ≡ released ∷ responded code (join before) ∷ []
  unfolding react handled on_chunk_length chunk_length keep_tail after_tail join_chunks on_body
      redirects decompressed answer remove_timeout run_callback release put on_end_request
  after_last max code headers before asked last zero_read = rw zero_read refl

  IsAsked-bytes_with_end :
      (data_text : Bytes)
      → IsAsked (ask_chunk (length data_text + 2)) (got_chunk (data_text ++ 13 ∷ 10 ∷ []))
  IsAsked-bytes_with_end data_text =
      let e : length (data_text ++ 13 ∷ 10 ∷ []) ≡ length data_text + 2 =
        omega (arith, length-append data_text (13 ∷ 10 ∷ [])) in
      subst (λ n. IsAsked (ask_chunk n) (got_chunk (data_text ++ 13 ∷ 10 ∷ []))) e
        (bytes (data_text ++ 13 ∷ 10 ∷ []))

  chunks-AreAsked :
      (max code : ℕ) (headers : Headers) (before : List Bytes) (cs : List (Bytes × Bytes))
      (last : Bytes)
      → Each IsChunk cs
      → AreAsked
          (chunk_inputs cs last)
          (receiving false max code headers (some before) ask_chunk_length [])
  unfolding chunk_inputs
  chunks-AreAsked max code headers before [] last ws = (line last, tt)
  chunks-AreAsked max code headers before (c ∷ cs) last ws =
      let first = after_length false max code headers before ask_chunk_length [] c ws.0 in
      let second = after_data false max code headers before (ask_chunk (length c.1 + 2)) [] c.1 in
      (
        line c.0,
        subst (λ t. AreAsked (got_chunk (c.1 ++ 13 ∷ 10 ∷ []) ∷ chunk_inputs cs last) t) (sym first)
            (
              IsAsked-bytes_with_end c.1,
              subst (λ t. AreAsked (chunk_inputs cs last) t) (sym second)
                  (chunks-AreAsked max code headers (before ++ c.1 ∷ []) cs last ws.1),
            ),
      )

  log_of_chunks :
      (max code : ℕ) (headers : Headers) (before : List Bytes) (asked : Ask)
      (cs : List (Bytes × Bytes)) (last : Bytes)
      → Each IsChunk cs
      → python.int_of 16 (strip last) ≡ some 0
      → (run python
          (chunk_inputs cs last)
          (receiving false max code headers (some before) asked [])).log
        ≡ released ∷ responded code (join (before ++ chunks_of cs)) ∷ []
  unfolding run chunk_inputs chunks_of
  log_of_chunks max code headers before asked [] last ws zero_read =
      rw (append-nil before) (after_last max code headers before asked last zero_read)
  log_of_chunks max code headers before asked (c ∷ cs) last ws zero_read =
      ap
        (λ (t : Connection Z).
          (run python (got_chunk (c.1 ++ 13 ∷ 10 ∷ []) ∷ chunk_inputs cs last) t).log)
        (after_length false max code headers before asked [] c ws.0)
      ∙ ap (λ (t : Connection Z). (run python (chunk_inputs cs last) t).log)
          (after_data false max code headers before (ask_chunk (length c.1 + 2)) [] c.1)
      ∙ log_of_chunks max code headers (before ++ c.1 ∷ []) ask_chunk_length cs last ws.1 zero_read
      ∙ ap (λ l. released ∷ responded code (join l) ∷ [])
          (append_assoc before (c.1 ∷ []) (chunks_of cs))

  -- The data of chunks, each behind a line that says its length, which is not zero, up to a line that
  -- says zero, without gzip, redirects and a streaming callback: the connection asks its stream
  -- for exactly what comes, a line or the data of a chunk and the end of its line, and the request is answered with
  -- the data of the chunks, joined in their order, after the slot is freed.
  pub run-chunks :
      (max code : ℕ) (headers : Headers) (before : List Bytes) (cs : List (Bytes × Bytes))
      (last : Bytes)
      → Each IsChunk cs
      → python.int_of 16 (strip last) ≡ some 0
      → AreAsked
          (chunk_inputs cs last)
          (receiving false max code headers (some before) ask_chunk_length [])
        × ((run python
              (chunk_inputs cs last)
              (receiving false max code headers (some before) ask_chunk_length [])).log
            ≡ released ∷ responded code (join (before ++ chunks_of cs)) ∷ [])
  run-chunks max code headers before cs last ws zero_read = (
    chunks-AreAsked max code headers before cs last ws,
    log_of_chunks max code headers before ask_chunk_length cs last ws zero_read,
  )
