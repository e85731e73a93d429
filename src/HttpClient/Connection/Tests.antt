-- ===== src/HttpClient/Connection/Tests.antt =====
-- Responses to a connection of tornado/simple_httpclient.py, with small stand-ins for `int`, the
-- pattern of the status line and zlib.
use tornado3_1_1_search.Base.{
  ℕ, ◌+◌, ◌-◌, ◌≡◌, refl, true, false, Option, none, some, List, [], ◌∷◌, Bytes, join, lookup,
  bytes_eq, strip, lstrip, rstrip, keep, is_space, split, join_rest, capitalize, upper, lower,
}
use tornado3_1_1_search.HttpUtil.{normalize}
use tornado3_1_1_search.HttpUtil.Headers.{Headers, get_item, no_headers}
use tornado3_1_1_search.HttpClient.Connection.{
  location_name, http_error, released, responded, failed, fetched_again, ask_until_close,
  ask_chunk_length, Request, init,
}
use tornado3_1_1_search.HttpClient.Connection.Response.{Python, is_redirect}
use tornado3_1_1_search.HttpClient.Connection.Head.{
  Input, got_headers, got_body, stream_closed, timed_out, run,
}
use tornado3_1_1_search.HttpClient.Connection.Answers.{AnswersOnce}
use tornado3_1_1_search.HttpClient.Connection.Answers.Start.{run-AnswersOnce}
use tornado3_1_1_search.HttpClient.Connection.Chunks.{
  receiving, chunk_inputs, AreAsked, chunks_of, late_redirect, run-chunks,
}

-- A number of one digit.
abbrev digit : ℕ → Bytes → Option ℕ
digit base [] = none
digit base (c ∷ []) = some (c - 48)
digit base (c ∷ (d ∷ s)) = none

abbrev python : Python ℕ
python = record {
  int_of = digit;
  status_of = λ line. some 200;
  new_decompressor = 0;
  decompress = λ z body. some (z + 1, body);
  flush = λ z. [];
}

abbrev plain : Request
plain = record {
  is_head = false;
  follow_redirects = true;
  max_redirects = 5;
  use_gzip = false;
  has_header_callback = false;
  has_streaming_callback = false;
}

-- The response "HTTP/1.1 200 OK" without headers, whose body is read until the stream closes.
abbrev inputs : List Input
inputs =
    got_headers (72 ∷ 84 ∷ 84 ∷ 80 ∷ 13 ∷ 10 ∷ 13 ∷ 10 ∷ [])
    ∷ got_body (104 ∷ 105 ∷ [])
    ∷ timed_out
    ∷ stream_closed
    ∷ []

run-AnswersOnce_example : AnswersOnce (run python inputs (init plain))
run-AnswersOnce_example = run-AnswersOnce python plain inputs

-- "/a"
abbrev path : Bytes
path = 47 ∷ 97 ∷ []

abbrev located : Headers
located = record {
  dict = (location_name, path) ∷ [];
  as_list = (location_name, path ∷ []) ∷ [];
  last_key = none;
}

is_redirect-302 : is_redirect 302 ≡ true
unfolding is_redirect
is_redirect-302 = refl

located-path : get_item location_name located ≡ some path
unfolding get_item normalize lookup split join_rest capitalize upper lower bytes_eq
located-path = refl

late_redirect_example :
    (run python
      (timed_out ∷ got_body [] ∷ [])
      (receiving python true 5 302 located none ask_until_close [])).log
    ≡ released ∷ failed (http_error 599) ∷ fetched_again path true false ∷ []
late_redirect_example =
    late_redirect python 5 302 located path [] ask_until_close refl is_redirect-302 located-path

abbrev two_chunks : List (Bytes × Bytes)
two_chunks = (50 ∷ [], 104 ∷ 105 ∷ []) ∷ (49 ∷ [], 33 ∷ []) ∷ []

two_read : digit 16 (strip (50 ∷ [])) ≡ some 2
unfolding strip lstrip rstrip keep is_space
two_read = refl

one_read : digit 16 (strip (49 ∷ [])) ≡ some 1
unfolding strip lstrip rstrip keep is_space
one_read = refl

zero_read : digit 16 (strip (48 ∷ [])) ≡ some 0
unfolding strip lstrip rstrip keep is_space
zero_read = refl

run-chunks_example :
    AreAsked python
      (chunk_inputs python two_chunks (48 ∷ []))
      (receiving python false 5 200 no_headers (some []) ask_chunk_length [])
    × ((run python
          (chunk_inputs python two_chunks (48 ∷ []))
          (receiving python false 5 200 no_headers (some []) ask_chunk_length [])).log
        ≡ released ∷ responded 200 (join (chunks_of python two_chunks)) ∷ [])
run-chunks_example =
    run-chunks python 5 200 no_headers [] two_chunks (48 ∷ [])
      (record { read = two_read; more = refl }, (record { read = one_read; more = refl }, tt))
      zero_read
