-- ===== src/HttpUtil/Headers/Runs.antt =====
-- tornado/httputil.py: the lines that `HTTPHeaders` reads, and any sequence of its methods.
use tornado3_1_1_search.Base.{
  ◌+◌, ◌≡◌, refl, ap, ◌∙◌, Option, none, some, List, [], ◌∷◌, ◌++◌, Bytes, take, drop, find, Dict,
  lookup, set, is_space, lstrip, strip, option_intro, if_intro, arith,
}
use tornado3_1_1_search.HttpUtil.{normalize}
use tornado3_1_1_search.HttpUtil.Headers.{
  Headers, Result, ok, state, no_headers, get_item, set_item, del_item, add, extend_last,
  extend_item, extend_list, continue_header, new_header, parse_line, update,
}
use tornado3_1_1_search.HttpUtil.Headers.Keeps.{
  IsWellFormed, filled-extend_last, commas-extend_last, set-IsWellFormed, set_item-IsWellFormed,
  del_item-IsWellFormed, add-IsWellFormed,
}

extend_item-IsWellFormed :
    (key part v : Bytes) (values : List Bytes) (h : Headers)
    → IsWellFormed h
    → h.last_key ≡ some key
    → lookup key h.as_list ≡ some (v ∷ values)
    → IsWellFormed (
        state (
          extend_item key part
            (record h { as_list = set key (extend_last (v ∷ values) part) h.as_list })))
unfolding extend_item get_item
extend_item-IsWellFormed key part v values h w last here =
    option_intro (λ r. IsWellFormed (state r)) (lookup (normalize key) h.dict) _ _
      (λ absent. absurd (ground (arith, w.joined key, w.last key last)))
      (λ old found.
        set-IsWellFormed key (extend_last (v ∷ values) part) (old ++ part) h w
          (filled-extend_last part v values)
          (commas-extend_last part v values
            ∙ ap (λ t. t ++ part) (ground (arith, w.joined key, w.last key last))))

extend_list-IsWellFormed :
    (key part : Bytes) (values : List Bytes) (h : Headers)
    → IsWellFormed h
    → h.last_key ≡ some key
    → lookup key h.as_list ≡ some values
    → IsWellFormed (state (extend_list key part h values))
unfolding extend_list
extend_list-IsWellFormed key part [] h w last here = w
extend_list-IsWellFormed key part (v ∷ values) h w last here =
    extend_item-IsWellFormed key part v values h w last here

continue_header-IsWellFormed :
    (part : Bytes) (key : Option Bytes) (h : Headers)
    → IsWellFormed h
    → h.last_key ≡ key
    → IsWellFormed (state (continue_header part key h))
unfolding continue_header
continue_header-IsWellFormed part none h w last = w
continue_header-IsWellFormed part (some key) h w last =
    option_intro (λ r. IsWellFormed (state r)) (lookup key h.as_list) _ _ (λ absent. w)
      (λ values here. extend_list-IsWellFormed key part values h w last here)

new_header-IsWellFormed :
    (line : Bytes) (h : Headers) → IsWellFormed h → IsWellFormed (state (new_header line h))
unfolding new_header
new_header-IsWellFormed line h w =
    option_intro (λ r. IsWellFormed (state r)) (find (58 ∷ []) line) _ _ (λ absent. w)
      (λ colon here. add-IsWellFormed (take colon line) (strip (drop (colon + 1) line)) h w)

parse_line-IsWellFormed :
    (line : Bytes) (h : Headers) → IsWellFormed h → IsWellFormed (state (parse_line line h))
unfolding parse_line
parse_line-IsWellFormed [] h w = w
parse_line-IsWellFormed (c ∷ s) h w =
    if_intro (λ r. IsWellFormed (state r)) (is_space c) _ _
      (λ space. continue_header-IsWellFormed (32 ∷ lstrip (c ∷ s)) h.last_key h w refl)
      (λ text. new_header-IsWellFormed (c ∷ s) h w)

update-IsWellFormed :
    (entries : Dict Bytes) (h : Headers) → IsWellFormed h → IsWellFormed (update entries h)
unfolding update
update-IsWellFormed [] h w = w
update-IsWellFormed (entry ∷ entries) h w =
    update-IsWellFormed entries _ (set_item-IsWellFormed entry.0 entry.1 h w)

pub no_headers-IsWellFormed : IsWellFormed no_headers
unfolding no_headers lookup
no_headers-IsWellFormed = record {
  joined = λ k. refl;
  filled = λ k vs e. ground arith;
  last = λ k e. ground arith;
}

-- The methods of `HTTPHeaders` itself that change headers. Those that it inherits from `dict`, `pop`,
-- `clear` and `setdefault`, change the texts and not the lists.
pub data Op : Type 0 where
  op_add op_set : Bytes → Bytes → Op
  op_del op_line : Bytes → Op
  op_update : Dict Bytes → Op

pub apply : Op → Headers → Result
apply (op_add name value) h = add name value h
apply (op_set name value) h = ok (set_item name value h)
apply (op_del name) h = del_item name h
apply (op_line line) h = parse_line line h
apply (op_update entries) h = ok (update entries h)

-- A client that goes on after an exception.
pub run : List Op → Headers → Headers
run [] h = h
run (op ∷ ops) h = run ops (state (apply op h))

apply-IsWellFormed : (op : Op) (h : Headers) → IsWellFormed h → IsWellFormed (state (apply op h))
unfolding apply
apply-IsWellFormed (op_add name value) h w = add-IsWellFormed name value h w
apply-IsWellFormed (op_set name value) h w = set_item-IsWellFormed name value h w
apply-IsWellFormed (op_del name) h w = del_item-IsWellFormed name h w
apply-IsWellFormed (op_line line) h w = parse_line-IsWellFormed line h w
apply-IsWellFormed (op_update entries) h w = update-IsWellFormed entries h w

run_keeps : (ops : List Op) (h : Headers) → IsWellFormed h → IsWellFormed (run ops h)
unfolding run
run_keeps [] h w = w
run_keeps (op ∷ ops) h w = run_keeps ops _ (apply-IsWellFormed op h w)

-- Whatever methods that `HTTPHeaders` defines itself are called on new headers, whether or not they
-- raise, the text under each name is the name's list of values joined by commas, and no list is empty.
pub run-IsWellFormed : (ops : List Op) → IsWellFormed (run ops no_headers)
run-IsWellFormed ops = run_keeps ops no_headers no_headers-IsWellFormed
