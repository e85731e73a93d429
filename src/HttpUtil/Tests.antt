-- ===== src/HttpUtil/Tests.antt =====
-- Headers of a response through tornado/httputil.py, and the theorems at them.
use tornado3_1_1_search.Base.{
  ◌≡◌, refl, List, [], ◌∷◌, arith, Bytes, split, join_rest, capitalize, strip, is_space, is_break,
  lstrip, rstrip, keep, upper, lower,
}
use tornado3_1_1_search.HttpUtil.{normalize}
use tornado3_1_1_search.HttpUtil.HeaderCache.{
  Answers, get_normalized, look_up, empty_cache, get_normalized-Answers,
}
use tornado3_1_1_search.HttpUtil.Headers.{no_headers, add, parse, add_all}
use tornado3_1_1_search.HttpUtil.Headers.Keeps.{IsWellFormed}
use tornado3_1_1_search.HttpUtil.Headers.Lists.{Adds, add-Adds}
use tornado3_1_1_search.HttpUtil.Headers.Runs.{
  Op, op_add, op_set, op_del, op_line, run, run-IsWellFormed,
}
use tornado3_1_1_search.HttpUtil.Headers.Parse.{IsHeader, header_text, parse-header_text}

-- `set-cookie`, and the same in normal form.
abbrev set_cookie : Bytes
set_cookie = 115 ∷ 101 ∷ 116 ∷ 45 ∷ 99 ∷ 111 ∷ 111 ∷ 107 ∷ 105 ∷ 101 ∷ []

abbrev age : Bytes
age = 65 ∷ 71 ∷ 69 ∷ []

normalize-set_cookie :
    normalize set_cookie ≡ 83 ∷ 101 ∷ 116 ∷ 45 ∷ 67 ∷ 111 ∷ 111 ∷ 107 ∷ 105 ∷ 101 ∷ []
unfolding normalize split join_rest capitalize upper lower
normalize-set_cookie = refl

get_normalized-Answers_example :
    Answers 1 age (get_normalized age (look_up (age ∷ set_cookie ∷ []) (empty_cache 1)))
get_normalized-Answers_example = get_normalized-Answers 1 (age ∷ set_cookie ∷ []) age

abbrev calls : List Op
calls =
    op_add set_cookie (97 ∷ [])
    ∷ op_line (32 ∷ 98 ∷ [])
    ∷ op_add (normalize set_cookie) (99 ∷ [])
    ∷ op_set age (49 ∷ [])
    ∷ op_del age
    ∷ op_del age
    ∷ []

run-IsWellFormed_example : IsWellFormed (run calls no_headers)
run-IsWellFormed_example = run-IsWellFormed calls

add-Adds_example :
    Adds set_cookie
      (100 ∷ [])
      (run calls no_headers)
      (add set_cookie (100 ∷ []) (run calls no_headers))
add-Adds_example = add-Adds set_cookie (100 ∷ []) (run calls no_headers) (run-IsWellFormed calls)

abbrev entries : List (Bytes × Bytes)
entries = (age, 49 ∷ []) ∷ (set_cookie, 97 ∷ 32 ∷ 98 ∷ []) ∷ []

age-IsHeader : IsHeader (age, 49 ∷ [])
unfolding is_break is_space strip lstrip rstrip keep
age-IsHeader = record {
  starts = (65, (71 ∷ 69 ∷ [], (refl, refl)));
  name = (refl, (refl, (refl, tt)));
  name_line = (refl, (refl, (refl, tt)));
  value_line = (refl, tt);
  stripped = refl;
}

cookie-IsHeader : IsHeader (set_cookie, 97 ∷ 32 ∷ 98 ∷ [])
unfolding is_break is_space strip lstrip rstrip keep
cookie-IsHeader = record {
  starts = (115, (_, (refl, refl)));
  name = ground arith;
  name_line = ground arith;
  value_line = ground arith;
  stripped = refl;
}

parse-header_text_example : parse (header_text entries) ≡ add_all entries no_headers
parse-header_text_example = parse-header_text entries (age-IsHeader, (cookie-IsHeader, tt))
