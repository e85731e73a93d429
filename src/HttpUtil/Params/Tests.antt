-- ===== src/HttpUtil/Params/Tests.antt =====
-- Headers with parameters for tornado/httputil.py, and the theorems at them.
use tornado3_1_1_search.Base.{
  ◌≡◌, refl, [], ◌∷◌, Bytes, find, find_from, count, replace, split_on, split_from, join_rest,
  strip, lstrip, rstrip, keep, is_space, lower, set, bytes_eq, starts_with, ends_with,
}
use tornado3_1_1_search.HttpUtil.Params.{
  odd_quotes, end_loop, param_end, parseparam_loop, parseparam, unquote, add_param, add_params,
  with_key, parse_header,
}
use tornado3_1_1_search.HttpUtil.Params.Balance.{IsPlain}
use tornado3_1_1_search.HttpUtil.Params.RoundTrip.{
  IsName, IsWritable, params_text, put_all, parse_header-params_text,
}

abbrev name_text : Bytes
name_text = 78 ∷ 97 ∷ 109 ∷ 101 ∷ []

abbrev value_text : Bytes
value_text = 97 ∷ 59 ∷ 34 ∷ 98 ∷ []

abbrev form_data : Bytes
form_data = 102 ∷ 111 ∷ 114 ∷ 109 ∷ 45 ∷ 100 ∷ 97 ∷ 116 ∷ 97 ∷ []

name_text-IsName : IsName name_text
unfolding is_space
name_text-IsName = record {
  starts = (78, (97 ∷ 109 ∷ 101 ∷ [], (refl, refl)));
  no_equals = (refl, (refl, (refl, (refl, tt))));
}

name_text-IsWritable : IsWritable (name_text, value_text)
name_text-IsWritable = record {
  name = name_text-IsName;
  plain = ((refl, refl), ((refl, refl), ((refl, refl), ((refl, refl), tt))));
  ended = refl;
}

form_data-IsPlain : IsPlain form_data
form_data-IsPlain = (
  (refl, refl),
  (
    (refl, refl),
    (
      (refl, refl),
      (
        (refl, refl),
        ((refl, refl), ((refl, refl), ((refl, refl), ((refl, refl), ((refl, refl), tt))))),
      ),
    ),
  ),
)

parse_header-params_text_example :
    parse_header (params_text form_data ((name_text, value_text) ∷ []))
    ≡ (strip form_data, put_all ((name_text, value_text) ∷ []) [])
parse_header-params_text_example =
    parse_header-params_text form_data ((name_text, value_text) ∷ []) form_data-IsPlain
      (name_text-IsWritable, tt)

parsed : put_all ((name_text, value_text) ∷ []) [] ≡ (110 ∷ 97 ∷ 109 ∷ 101 ∷ [], value_text) ∷ []
unfolding strip lstrip rstrip keep is_space put_all set lower
parsed = refl

abbrev backslash_last : Bytes
backslash_last = 102 ∷ 59 ∷ 32 ∷ 97 ∷ 61 ∷ 34 ∷ 98 ∷ 92 ∷ 92 ∷ 34 ∷ 59 ∷ 32 ∷ 99 ∷ 61 ∷ 100 ∷ []

-- A quoted value that ends with a backslash takes the parameter behind it in: `f; a="b\\"; c=d`.
swallowed :
    parse_header backslash_last
    ≡ (102 ∷ [], (97 ∷ [], 34 ∷ 98 ∷ 92 ∷ 92 ∷ 34 ∷ 59 ∷ 32 ∷ 99 ∷ 61 ∷ 100 ∷ []) ∷ [])
unfolding parse_header with_key parseparam parseparam_loop param_end end_loop odd_quotes count
    split_on split_from starts_with add_params add_param find find_from unquote replace join_rest
    ends_with bytes_eq strip lstrip rstrip keep is_space set lower
swallowed = refl
