-- ===== src/HttpUtil/Params.antt =====
-- tornado/httputil.py: `_parseparam` and `_parse_header`, for headers with parameters.
pub mod Split
pub mod Quoting
pub mod Balance
pub mod Written
pub mod RoundTrip
mod Tests
use tornado3_1_1_search.Base.{
  ℕ, zero, suc, ◌+◌, ◌-◌, ◌%◌, Bool, true, false, ◌&&◌, Option, none, some, List, [], ◌∷◌, ◌++◌,
  map, ltb, leb, ◌==◌, if◌then◌else◌, Bytes, Dict, set, length, take, drop, find, find_from, count,
  replace, strip, lower, starts_with, ends_with,
}

-- Whether a text has an odd number of quotes that no backslash stands before.
unfoldable pub odd_quotes : Bytes → Bool
odd_quotes s = (count (34 ∷ []) s - count (92 ∷ 34 ∷ []) s) % 2 == 1

-- The inner loop of `_parseparam`: the next semicolon that is outside quotes, `none` for -1.
unfoldable pub end_loop : ℕ → Bytes → Option ℕ → Option ℕ
unfolding odd_quotes
end_loop zero s end = end
end_loop (suc fuel) s none = none
end_loop (suc fuel) s (some end) =
    let rest = end_loop fuel s (find_from (59 ∷ []) (end + 1) s) in
    if ltb 0 end && odd_quotes (take end s) then rest else some end

-- `end`, with `len(s)` if there is none
unfoldable pub param_end : Bytes → ℕ
unfolding end_loop
param_end s = elim (end_loop (length s) s (find (59 ∷ []) s)) [ none ↦ length s | some end ↦ end ]

-- `_parseparam`, whose loop takes a character at least each time
unfoldable pub parseparam_loop : ℕ → Bytes → List Bytes
unfolding param_end
parseparam_loop zero s = []
parseparam_loop (suc fuel) [] = []
parseparam_loop (suc fuel) (c ∷ s) =
    let rest = parseparam_loop fuel (drop (param_end s) s) in
    if c == 59 then strip (take (param_end s) s) ∷ rest else []

unfoldable pub parseparam : Bytes → List Bytes
unfolding parseparam_loop
parseparam s = parseparam_loop (length s) s

-- `value` without its quotes and backslashes
unfoldable pub unquote : Bytes → Bytes
unquote value =
    if leb 2 (length value) && starts_with (34 ∷ []) value && ends_with (34 ∷ []) value
    then replace (92 ∷ 34 ∷ []) (34 ∷ [])
        (replace (92 ∷ 92 ∷ []) (92 ∷ []) (take (length value - 2) (drop 1 value)))
    else value

unfoldable pub add_param : Bytes → Dict Bytes → Dict Bytes
unfolding unquote
add_param p pdict = elim (find (61 ∷ []) p) [
  | none ↦ pdict
  | some i ↦ set (map lower (strip (take i p))) (unquote (strip (drop (i + 1) p))) pdict
]

unfoldable pub add_params : List Bytes → Dict Bytes → Dict Bytes
unfolding add_param
add_params [] pdict = pdict
add_params (p ∷ ps) pdict = add_params ps (add_param p pdict)

-- The first part is the key.
unfoldable pub with_key : List Bytes → Bytes × Dict Bytes
unfolding add_params
with_key [] = ([], [])
with_key (key ∷ ps) = (key, add_params ps [])

-- `_parse_header`
unfoldable pub parse_header : Bytes → Bytes × Dict Bytes
unfolding parseparam with_key
parse_header line = with_key (parseparam (59 ∷ line))
