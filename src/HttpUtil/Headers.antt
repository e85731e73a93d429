-- ===== src/HttpUtil/Headers.antt =====
-- tornado/httputil.py: `HTTPHeaders`. A name's normal form is `normalize`, which the file takes from
-- its cache.
pub mod Keeps
pub mod Runs
pub mod Lists
pub mod Parse
mod Tests
use tornado3_1_1_search.Base.{
  ℕ, ◌+◌, Bool, true, false, Option, none, some, is_some, List, [], ◌∷◌, ◌++◌, map, if◌then◌else◌,
  Bytes, take, drop, is_empty, find, Dict, lookup, set, remove, is_space, lstrip, strip, splitlines,
}
use tornado3_1_1_search.HttpUtil.{normalize}

pub data Error : Type 0 where
  key_error index_error value_error : Error

-- `dict` is the dictionary that the class is, with one text per name; `as_list` has a list of texts.
pub record Headers : Type 0 where
  pub dict : Dict Bytes
  pub as_list : Dict (List Bytes)
  pub last_key : Option Bytes

-- What a method leaves, and what it raises.
pub data Result : Type 0 where
  ok : Headers → Result
  raised : Error → Headers → Result

abbrev pub state : Result → Headers
state (ok h) = h
state (raised e h) = h

unfoldable pub no_headers : Headers
no_headers = record { dict = []; as_list = []; last_key = none }

-- `__getitem__`, where `none` is a `KeyError`, and `get` without a default.
unfoldable pub get_item : Bytes → Headers → Option Bytes
get_item name h = lookup (normalize name) h.dict

unfoldable pub contains : Bytes → Headers → Bool
unfolding get_item
contains name h = is_some (get_item name h)

unfoldable pub set_item : Bytes → Bytes → Headers → Headers
set_item name value h = record h {
  dict = set (normalize name) value h.dict;
  as_list = set (normalize name) (value ∷ []) h.as_list;
}

-- The second of the two deletions that `__delitem__` makes.
unfoldable pub del_list : Bytes → Headers → Result
del_list norm_name h = elim (lookup norm_name h.as_list) [
  | none ↦ raised key_error h
  | some values ↦ ok (record h { as_list = remove norm_name h.as_list })
]

unfoldable pub del_item : Bytes → Headers → Result
del_item name h = elim (lookup (normalize name) h.dict) [
  | none ↦ raised key_error h
  | some value ↦ del_list (normalize name) (record h { dict = remove (normalize name) h.dict })
]

-- `self._as_list[norm_name].append(value)`
unfoldable pub append_value : Bytes → Bytes → Headers → Result
append_value norm_name value h = elim (lookup norm_name h.as_list) [
  | none ↦ raised key_error h
  | some values ↦ ok (record h { as_list = set norm_name (values ++ value ∷ []) h.as_list })
]

-- `add` once `last_key` is set.
unfoldable pub add_normal : Bytes → Bytes → Headers → Result
unfolding get_item
add_normal norm_name value h = elim (get_item norm_name h) [
  | none ↦ ok (set_item norm_name value h)
  | some old ↦
      append_value norm_name value (record h { dict = set norm_name (old ++ (44 ∷ value)) h.dict })
]

unfoldable pub add : Bytes → Bytes → Headers → Result
add name value h = add_normal (normalize name) value (record h { last_key = some (normalize name) })

-- `_as_list.get(norm_name, [])`
pub get_list : Bytes → Headers → List Bytes
get_list name h = elim (lookup (normalize name) h.as_list) [ none ↦ [] | some values ↦ values ]

unfoldable pub pairs : Bytes → List Bytes → List (Bytes × Bytes)
pairs name values = map (λ value. (name, value)) values

unfoldable pub all_pairs : Dict (List Bytes) → List (Bytes × Bytes)
all_pairs [] = []
all_pairs (entry ∷ d) = pairs entry.0 entry.1 ++ all_pairs d

unfoldable pub get_all : Headers → List (Bytes × Bytes)
unfolding all_pairs pairs
get_all h = all_pairs h.as_list

-- `values[-1] += part` for a list that is not empty.
pub extend_last : List Bytes → Bytes → List Bytes
extend_last [] part = []
extend_last (value ∷ []) part = (value ++ part) ∷ []
extend_last (value ∷ (v ∷ values)) part = value ∷ extend_last (v ∷ values) part

-- `dict.__setitem__(self, key, self[key] + part)`
pub extend_item : Bytes → Bytes → Headers → Result
extend_item key part h = elim (get_item key h) [
  | none ↦ raised key_error h
  | some old ↦ ok (record h { dict = set key (old ++ part) h.dict })
]

pub extend_list : Bytes → Bytes → Headers → List Bytes → Result
extend_list key part h [] = raised index_error h
extend_list key part h (value ∷ values) =
    extend_item key part
      (record h { as_list = set key (extend_last (value ∷ values) part) h.as_list })

-- A line that continues the last header.
pub continue_header : Bytes → Option Bytes → Headers → Result
continue_header part none h = raised key_error h
continue_header part (some key) h = elim (lookup key h.as_list) [
  | none ↦ raised key_error h
  | some values ↦ extend_list key part h values
]

-- A line with a name and a value.
unfoldable pub new_header : Bytes → Headers → Result
new_header line h = elim (find (58 ∷ []) line) [
  | none ↦ raised value_error h
  | some colon ↦ add (take colon line) (strip (drop (colon + 1) line)) h
]

unfoldable pub parse_line : Bytes → Headers → Result
parse_line [] h = raised index_error h
parse_line (c ∷ s) h =
    if is_space c then continue_header (32 ∷ lstrip (c ∷ s)) h.last_key h else new_header (c ∷ s) h

unfoldable pub after_line : Result → (Headers → Result) → Result
after_line (ok h) next = next h
after_line (raised e h) next = raised e h

-- The loop of `parse`.
unfoldable pub parse_lines : List Bytes → Headers → Result
parse_lines [] h = ok h
parse_lines (line ∷ lines) h =
    if is_empty line
    then parse_lines lines h
    else after_line (parse_line line h) (λ h'. parse_lines lines h')

unfoldable pub parse : Bytes → Result
parse headers = parse_lines (splitlines headers) no_headers

-- The copy constructor.
unfoldable pub add_all : List (Bytes × Bytes) → Headers → Result
add_all [] h = ok h
add_all (entry ∷ entries) h = after_line (add entry.0 entry.1 h) (λ h'. add_all entries h')

pub copy : Headers → Result
copy h = add_all (get_all h) no_headers

-- `update`, with the entries of the dictionary in their order.
pub update : Dict Bytes → Headers → Headers
update [] h = h
update (entry ∷ entries) h = update entries (set_item entry.0 entry.1 h)
