-- ===== src/HttpClient/Connection/Answers.antt =====
-- tornado/simple_httpclient.py: a request is answered once, and its slot is freed by then.
pub mod Body
pub mod Start
use tornado3_1_1_search.Base.{
  ℕ, ◌+◌, ◌≡◌, refl, ap, sym, ◌∙◌, Bool, true, false, not, ◌&&◌, ◌||◌, Option, none, some, is_some,
  List, [], ◌∷◌, ◌++◌, ltb, leb, ◌==◌, if◌then◌else◌, if_intro, option_intro, length, take, drop,
  is_empty, Bytes, bytes_eq, find, split, strip, arith, join,
}
use tornado3_1_1_search.HttpUtil.Headers
use tornado3_1_1_search.HttpUtil.Headers.{get_item, contains, get_all, parse}
use tornado3_1_1_search.HttpClient.Connection.{
  content_length_name, transfer_encoding_name, content_encoding_name, location_name, chunked_text,
  Error, http_error, Output, released, responded, failed, fetched_again, streamed, header_line,
  Connection, Result, ok, raised, put, remove_timeout, release, run_callback, on_end_request,
  handle_exception, on_timeout, on_close, handled,
}
use tornado3_1_1_search.HttpClient.Connection.Response.{
  Python, all_equal, redirect, answer, inflated, decompressed, redirects, on_body, keep_chunk,
  keep_tail, join_chunks, after_tail, chunk_length, on_chunk_length, inflated_chunk,
  decompress_chunk, after_chunk, on_chunk_data,
}
use tornado3_1_1_search.HttpClient.Connection.Head.{
  header_lines, call_header_callback, read_body, use_decompressor, has_length, choose_body,
  with_length, check_length, with_headers, with_status, at_line_end, on_headers, Input, got_headers,
  got_body, got_chunk_length, got_chunk, stream_closed, timed_out, react, run,
}

-- What ends the wait of the client: an answer, or another fetch with its callback.
pub is_answer : Output → Bool
is_answer (responded code body) = true
is_answer (failed e) = true
is_answer (fetched_again location as_get has_callback) = has_callback
is_answer output = false

pub is_released : Output → Bool
is_released released = true
is_released output = false

pub count : (Output → Bool) → List Output → ℕ
count test [] = 0
count test (output ∷ log) = (if test output then 1 else 0) + count test log

pub answers : List Output → ℕ
unfolding count is_answer
answers log = count is_answer log

pub releases : List Output → ℕ
unfolding count is_released
releases log = count is_released log

-- For the two callbacks and the log.
pub record Facts (release_callback final_callback : Bool) (log : List Output) : Type 0 where
  pub released_once : releases log ≡ (if release_callback then 0 else 1)
  pub answered_once : answers log ≡ (if final_callback then 0 else 1)
  pub freed : final_callback ≡ false → release_callback ≡ false

-- The slot is freed at most once and the request is answered at most once; the callbacks say
-- whether that has happened, and a request that was answered has freed its slot.
pub record AnswersOnce {Z : Type 0} (s : Connection Z) : Type 0 where
  pub facts : Facts s.release_callback s.final_callback s.log

pub left : {Z : Type 0} → Result Z → Connection Z
left (ok s) = s
left (raised e s) = s

count-concat :
    (test : Output → Bool) (log : List Output) (output : Output)
    → count test (log ++ output ∷ []) ≡ count test log + (if test output then 1 else 0)
unfolding count
count-concat test [] output = omega arith
count-concat test (x ∷ log) output = ground (arith, count-concat test log output)

answers-concat :
    (log : List Output) (output : Output)
    → answers (log ++ output ∷ []) ≡ answers log + (if is_answer output then 1 else 0)
unfolding answers
answers-concat log output = count-concat is_answer log output

releases-concat :
    (log : List Output) (output : Output)
    → releases (log ++ output ∷ []) ≡ releases log + (if is_released output then 1 else 0)
unfolding releases
releases-concat log output = count-concat is_released log output

module _ {Z : Type 0} where
  -- What is no answer and frees no slot changes nothing that counts.
  pub put-AnswersOnce :
      (output : Output) (s : Connection Z)
      → is_answer output ≡ false
      → is_released output ≡ false
      → AnswersOnce s
      → AnswersOnce (put output s)
  unfolding put
  put-AnswersOnce output s e f h = record {
    facts = record {
      released_once = ground (arith, releases-concat s.log output, h.facts.released_once, f);
      answered_once = ground (arith, answers-concat s.log output, h.facts.answered_once, e);
      freed = h.facts.freed;
    };
  }

  -- The facts after the slot is freed, without what the callbacks say of one another.
  record Freed (final : Bool) (s s' : Connection Z) : Type 0 where
    gone : s'.release_callback ≡ false
    same : s'.final_callback ≡ final
    released_once : releases s'.log ≡ 1
    answered : answers s'.log ≡ answers s.log

  release-Freed :
      (s : Connection Z)
      → releases s.log ≡ (if s.release_callback then 0 else 1)
      → Freed s.final_callback s (release s)
  unfolding release put is_answer is_released
  release-Freed s h =
      if_intro (Freed s.final_callback s) s.release_callback _ _
        (λ set. record {
          gone = refl;
          same = refl;
          released_once = ground (arith, releases-concat s.log released, h, set);
          answered = ground (arith, answers-concat s.log released);
        })
        (λ unset. record {
          gone = unset;
          same = refl;
          released_once = ground (arith, h, unset);
          answered = refl;
        })

  pub run_callback-AnswersOnce :
      (output : Output) (s : Connection Z)
      → is_answer output ≡ true
      → is_released output ≡ false
      → AnswersOnce s
      → AnswersOnce (run_callback output s)
  unfolding run_callback put
  run_callback-AnswersOnce output s e f h =
      let r = release-Freed s h.facts.released_once in
      if_intro AnswersOnce (release s).final_callback _ _
        (λ set. record {
          facts = record {
            released_once =
                ground (arith, releases-concat (release s).log output, r.released_once, r.gone, f);
            answered_once = ground (
              arith,
              answers-concat (release s).log output,
              r.answered,
              h.facts.answered_once,
              r.same,
              set,
              e,
            );
            freed = λ done. r.gone;
          };
        })
        (λ unset. record {
          facts = record {
            released_once = ground (arith, r.released_once, r.gone);
            answered_once = ground (arith, r.answered, h.facts.answered_once, r.same, unset);
            freed = λ done. r.gone;
          };
        })
