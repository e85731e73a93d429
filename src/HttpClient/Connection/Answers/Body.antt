-- ===== src/HttpClient/Connection/Answers/Body.antt =====
-- tornado/simple_httpclient.py: the handlers of the body and of the chunks answer once.
use tornado3_1_1_search.Base.{
  ℕ, ◌-◌, refl, false, ◌||◌, Option, none, some, is_some, List, [], ◌∷◌, ◌++◌, ◌==◌, if◌then◌else◌,
  if_intro, length, take, drop, is_empty, Bytes, bytes_eq, strip, arith, join,
}
use tornado3_1_1_search.HttpUtil.Headers.{get_item}
use tornado3_1_1_search.HttpClient.Connection.{
  location_name, Error, assertion_error, responded, failed, fetched_again, streamed, Connection,
  Result, ok, raised, put, remove_timeout, release, on_end_request, handle_exception,
}
use tornado3_1_1_search.HttpClient.Connection.Response.{
  Python, redirect, answer, inflated, decompressed, redirects, on_body, keep_chunk, keep_tail,
  join_chunks, after_tail, chunk_length, on_chunk_length, inflated_chunk, decompress_chunk,
  after_chunk, on_chunk_data,
}
use tornado3_1_1_search.HttpClient.Connection.Answers.{
  is_answer, is_released, AnswersOnce, left, answers-concat, releases-concat, put-AnswersOnce,
  release-Freed, run_callback-AnswersOnce,
}

module _ {Z : Type 0} (python : Python Z) where
  pub handle_exception-AnswersOnce :
      (e : Error) (s : Connection Z) → AnswersOnce s → AnswersOnce (handle_exception e s)
  unfolding handle_exception remove_timeout on_end_request is_answer is_released
  handle_exception-AnswersOnce e s h =
      if_intro AnswersOnce s.final_callback _ _
        (λ set.
          let after =
            run_callback-AnswersOnce (failed e) (record s { timeout = false }) refl refl
              (record { facts = h.facts }) in
          record { facts = after.facts })
        (λ unset. h)

  redirect-AnswersOnce :
      (location : Option Bytes) (s : Connection Z)
      → AnswersOnce s
      → AnswersOnce (left (redirect python location s))
  unfolding redirect put on_end_request left is_answer is_released
  redirect-AnswersOnce none s h = h
  redirect-AnswersOnce (some location) s h =
      let before = record s { final_callback = false } in
      let r = release-Freed before h.facts.released_once in
      let output = fetched_again location (s.code == 302 || s.code == 303) s.final_callback in
      record {
        facts = record {
          released_once =
              ground (arith, releases-concat (release before).log output, r.released_once, r.gone);
          answered_once = ground (
            arith,
            answers-concat (release before).log output,
            r.answered,
            h.facts.answered_once,
            r.same,
          );
          freed = λ done. r.gone;
        };
      }

  answer-AnswersOnce :
      (body : Bytes) (s : Connection Z) → AnswersOnce s → AnswersOnce (left (answer python body s))
  unfolding answer on_end_request left is_answer is_released
  answer-AnswersOnce body s h =
      if_intro (λ (r : Result Z). AnswersOnce (left r)) s.request.has_streaming_callback _ _
        (λ e.
          let s' = if is_some s.chunks then s else put (streamed body) s in
          let h' =
            if_intro AnswersOnce (is_some s.chunks) s (put (streamed body) s) (λ e. h)
              (λ e. put-AnswersOnce (streamed body) s refl refl h) in
          record { facts = (run_callback-AnswersOnce (responded s.code []) s' refl refl h').facts })
        (λ e. record {
          facts = (run_callback-AnswersOnce (responded s.code body) s refl refl h).facts;
        })

  inflated-AnswersOnce :
      (r : Option (Z × Bytes)) (s : Connection Z)
      → AnswersOnce s
      → AnswersOnce (left (inflated python r s))
  unfolding inflated left
  inflated-AnswersOnce none s h = h
  inflated-AnswersOnce (some p) s h = answer-AnswersOnce (p.1 ++ python.flush p.0) s h

  decompressed-AnswersOnce :
      (body : Bytes) (z : Option Z) (s : Connection Z)
      → AnswersOnce s
      → AnswersOnce (left (decompressed python body z s))
  unfolding decompressed
  decompressed-AnswersOnce body none s h = answer-AnswersOnce body s h
  decompressed-AnswersOnce body (some z) s h = inflated-AnswersOnce (python.decompress z body) s h

  pub on_body-AnswersOnce :
      (body : Bytes) (s : Connection Z) → AnswersOnce s → AnswersOnce (left (on_body python body s))
  unfolding on_body remove_timeout
  on_body-AnswersOnce body s h =
      let s' = remove_timeout s in
      let h' : AnswersOnce s' = record { facts = h.facts } in
      if_intro (λ (r : Result Z). AnswersOnce (left r)) (redirects python s') _ _
        (λ e. redirect-AnswersOnce (get_item location_name s'.headers) s' h')
        (λ e. decompressed-AnswersOnce body s'.decompressor s' h')

  keep_chunk-AnswersOnce :
      (chunk : Bytes) (chunks : Option (List Bytes)) (s : Connection Z)
      → AnswersOnce s
      → AnswersOnce (left (keep_chunk python chunk chunks s))
  unfolding keep_chunk left is_answer is_released
  keep_chunk-AnswersOnce chunk none s h =
      if_intro (λ (r : Result Z). AnswersOnce (left r)) s.request.has_streaming_callback _ _
        (λ e. put-AnswersOnce (streamed chunk) s refl refl h) (λ e. h)
  keep_chunk-AnswersOnce chunk (some chunks) s h =
      if_intro (λ (r : Result Z). AnswersOnce (left r)) s.request.has_streaming_callback _ _
        (λ e. put-AnswersOnce (streamed chunk) s refl refl h) (λ e. record { facts = h.facts })

  keep_tail-AnswersOnce :
      (z : Option Z) (s : Connection Z) → AnswersOnce s → AnswersOnce (left (keep_tail python z s))
  unfolding keep_tail left
  keep_tail-AnswersOnce none s h = h
  keep_tail-AnswersOnce (some z) s h =
      if_intro (λ (r : Result Z). AnswersOnce (left r)) (is_empty (python.flush z)) _ _ (λ e. h)
        (λ e. keep_chunk-AnswersOnce (python.flush z) s.chunks s h)

  join_chunks-AnswersOnce :
      (chunks : Option (List Bytes)) (s : Connection Z)
      → AnswersOnce s
      → AnswersOnce (left (join_chunks python chunks s))
  unfolding join_chunks left
  join_chunks-AnswersOnce none s h = h
  join_chunks-AnswersOnce (some chunks) s h = on_body-AnswersOnce (join chunks) s h

  after_tail-AnswersOnce :
      (r : Result Z) → AnswersOnce (left r) → AnswersOnce (left (after_tail python r))
  unfolding after_tail left
  after_tail-AnswersOnce (raised e s) h = h
  after_tail-AnswersOnce (ok s) h = join_chunks-AnswersOnce s.chunks _ (record { facts = h.facts })

  chunk_length-AnswersOnce :
      (n : Option ℕ) (s : Connection Z)
      → AnswersOnce s
      → AnswersOnce (left (chunk_length python n s))
  unfolding chunk_length left
  chunk_length-AnswersOnce none s h = h
  chunk_length-AnswersOnce (some n) s h =
      if_intro (λ (r : Result Z). AnswersOnce (left r)) (n == 0) _ _
        (λ e.
          after_tail-AnswersOnce (keep_tail python s.decompressor s)
            (keep_tail-AnswersOnce s.decompressor s h))
        (λ e. record { facts = h.facts })

  pub on_chunk_length-AnswersOnce :
      (text : Bytes) (s : Connection Z)
      → AnswersOnce s
      → AnswersOnce (left (on_chunk_length python text s))
  unfolding on_chunk_length
  on_chunk_length-AnswersOnce text s h =
      chunk_length-AnswersOnce (python.int_of 16 (strip text)) s h

  inflated_chunk-AnswersOnce :
      (r : Option (Z × Bytes)) (s : Connection Z)
      → AnswersOnce s
      → AnswersOnce (left (inflated_chunk python r s))
  unfolding inflated_chunk left
  inflated_chunk-AnswersOnce none s h = h
  inflated_chunk-AnswersOnce (some p) s h =
      keep_chunk-AnswersOnce p.1 s.chunks _ (record { facts = h.facts })

  decompress_chunk-AnswersOnce :
      (chunk : Bytes) (z : Option Z) (s : Connection Z)
      → AnswersOnce s
      → AnswersOnce (left (decompress_chunk python chunk z s))
  unfolding decompress_chunk
  decompress_chunk-AnswersOnce chunk none s h = keep_chunk-AnswersOnce chunk s.chunks s h
  decompress_chunk-AnswersOnce chunk (some z) s h =
      inflated_chunk-AnswersOnce (python.decompress z chunk) s h

  after_chunk-AnswersOnce :
      (r : Result Z) → AnswersOnce (left r) → AnswersOnce (left (after_chunk python r))
  unfolding after_chunk left
  after_chunk-AnswersOnce (raised e s) h = h
  after_chunk-AnswersOnce (ok s) h = record { facts = h.facts }

  pub on_chunk_data-AnswersOnce :
      (text : Bytes) (s : Connection Z)
      → AnswersOnce s
      → AnswersOnce (left (on_chunk_data python text s))
  unfolding on_chunk_data left
  on_chunk_data-AnswersOnce text s h =
      let chunk = take (length text - 2) text in
      let kept = decompress_chunk python chunk s.decompressor s in
      if_intro (λ (r : Result Z). AnswersOnce (left r))
        (bytes_eq (drop (length text - 2) text) (13 ∷ 10 ∷ [])) (after_chunk python kept)
        (raised assertion_error s)
        (λ e. after_chunk-AnswersOnce kept (decompress_chunk-AnswersOnce chunk s.decompressor s h))
        (λ e. h)
