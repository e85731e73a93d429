-- ===== src/HttpUtil/Headers/Tests.antt =====
-- Headers with two values under one name, through tornado/httputil.py.
use tornado3_1_1_search.Base.{
  ◌≡◌, refl, [], ◌∷◌, false, none, Bytes, lookup, set, split, join_rest, capitalize, upper, lower,
  bytes_eq,
}
use tornado3_1_1_search.HttpUtil.{normalize}
use tornado3_1_1_search.HttpUtil.Headers.{
  Headers, no_headers, add, get_list, get_all, add_all, state, set_item, copy, contains, get_item,
  add_normal, append_value, after_line,
}

-- `set-cookie`, and the same in normal form.
abbrev set_cookie : Bytes
set_cookie = 115 ∷ 101 ∷ 116 ∷ 45 ∷ 99 ∷ 111 ∷ 111 ∷ 107 ∷ 105 ∷ 101 ∷ []

abbrev age : Bytes
age = 65 ∷ 71 ∷ 69 ∷ []

abbrev two_cookies : Headers
two_cookies = record {
  dict = (set_cookie, 97 ∷ 44 ∷ 98 ∷ []) ∷ [];
  as_list = (set_cookie, (97 ∷ []) ∷ (98 ∷ []) ∷ []) ∷ [];
  last_key = none;
}

pairs_of_two : get_all two_cookies ≡ (set_cookie, 97 ∷ []) ∷ (set_cookie, 98 ∷ []) ∷ []
unfolding get_all
pairs_of_two = refl

copy_of_two : get_list set_cookie (state (copy two_cookies)) ≡ (97 ∷ []) ∷ (98 ∷ []) ∷ []
unfolding copy get_all add_all get_list lookup set normalize split join_rest capitalize upper lower
    bytes_eq add add_normal get_item append_value set_item after_line no_headers
copy_of_two = refl

age_missing : contains age two_cookies ≡ false
unfolding contains get_item lookup normalize split join_rest capitalize upper lower bytes_eq
age_missing = refl
