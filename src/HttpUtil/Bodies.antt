-- ===== src/HttpUtil/Bodies.antt =====
-- tornado/httputil.py: `parse_body_arguments` and `parse_multipart_form_data`. `parse_qs` stands for
-- the library's parser of query strings; a warning in the log is left out.
pub mod RoundTrip
mod Tests
use tornado3_1_1_search.Base.{
  ℕ, ◌+◌, ◌-◌, ◌&&◌, ◌||◌, not, Option, none, some, List, [], ◌∷◌, ◌++◌, if◌then◌else◌, Bytes,
  bytes_eq, is_empty, Dict, lookup, set, length, take, drop, find, rfind, split_on, split,
  partition, strip, starts_with, ends_with,
}
use tornado3_1_1_search.Utf8.{decode}
use tornado3_1_1_search.HttpUtil.Headers
use tornado3_1_1_search.HttpUtil.Headers.{Headers, get_item}
use tornado3_1_1_search.HttpUtil.Params.{parse_header}

-- `HTTPFile`
pub record HttpFile : Type 0 where
  pub filename : Bytes
  pub body : Bytes
  pub content_type : Bytes

-- The two dictionaries that are filled in.
pub record Form : Type 0 where
  pub arguments : Dict (List Bytes)
  pub files : Dict (List HttpFile)

pub data Error : Type 0 where
  unicode_error : Error
  header_error : Headers.Error → Error

-- What a function leaves, and what it raises.
pub data Result : Type 0 where
  ok : Form → Result
  raised : Error → Form → Result

abbrev pub or_empty {ℓ} : {A : Type ℓ} → Option (List A) → List A
or_empty none = []
or_empty (some values) = values

-- `d.setdefault(name, []).extend(values)`
unfoldable pub extend {ℓ} : {A : Type ℓ} → Bytes → List A → Dict (List A) → Dict (List A)
extend name values d = set name (or_empty (lookup name d) ++ values) d

unfoldable pub add_argument : Bytes → List Bytes → Form → Form
unfolding extend
add_argument name values form = record form { arguments = extend name values form.arguments }

unfoldable pub add_file : Bytes → HttpFile → Form → Form
unfolding extend
add_file name file form = record form { files = extend name (file ∷ []) form.files }

-- `d.get(key, default)`
abbrev pub get_or : Option Bytes → Bytes → Bytes
get_or none default = default
get_or (some value) default = value

-- A part that has a name, as an argument or as a file.
unfoldable pub put_value : Bytes → Bytes → Bytes → Headers → Form → Form
unfolding add_argument add_file
put_value name filename value headers form =
    if is_empty filename
    then add_argument name (value ∷ []) form
    else add_file name
        (record {
          filename = filename;
          body = value;
          content_type =
              get_or
                (get_item (67 ∷ 111 ∷ 110 ∷ 116 ∷ 101 ∷ 110 ∷ 116 ∷ 45 ∷ 84 ∷ 121 ∷ 112 ∷ 101 ∷ [])
                  headers)
                (97 ∷ 112 ∷ 112 ∷ 108 ∷ 105 ∷ 99 ∷ 97 ∷ 116 ∷ 105 ∷ 111 ∷ 110 ∷ 47 ∷ 117 ∷ 110 ∷ 107
                  ∷ 110 ∷ 111 ∷ 119 ∷ 110 ∷ []);
        })
        form

-- What follows the headers of a part.
unfoldable pub put_part : Bytes → ℕ → Headers → Form → Form
unfolding put_value
put_part part eoh headers form =
    let (disposition, params) = parse_header (
      get_or
        (get_item
          (67 ∷ 111 ∷ 110 ∷ 116 ∷ 101 ∷ 110 ∷ 116 ∷ 45 ∷ 68 ∷ 105 ∷ 115 ∷ 112 ∷ 111 ∷ 115 ∷ 105
            ∷ 116 ∷ 105 ∷ 111 ∷ 110 ∷ [])
          headers)
        []) in
    let name = get_or (lookup (110 ∷ 97 ∷ 109 ∷ 101 ∷ []) params) [] in
    let value = take (length part - (eoh + 4) - 2) (drop (eoh + 4) part) in
    if not (bytes_eq disposition (102 ∷ 111 ∷ 114 ∷ 109 ∷ 45 ∷ 100 ∷ 97 ∷ 116 ∷ 97 ∷ []))
      || not (ends_with (13 ∷ 10 ∷ []) part)
    then form
    else (if is_empty name
        then form
        else put_value name
            (get_or (lookup (102 ∷ 105 ∷ 108 ∷ 101 ∷ 110 ∷ 97 ∷ 109 ∷ 101 ∷ []) params) []) value
            headers form)

unfoldable pub with_headers : Bytes → ℕ → Form → Headers.Result → Result
unfolding put_part
with_headers part eoh form (Headers.ok headers) = ok (put_part part eoh headers form)
with_headers part eoh form (Headers.raised e headers) = raised (header_error e) form

unfoldable pub with_text : Bytes → ℕ → Form → Option (List ℕ) → Result
unfolding with_headers
with_text part eoh form none = raised unicode_error form
with_text part eoh form (some text) = with_headers part eoh form (Headers.parse text)

-- One turn of the loop over the parts.
unfoldable pub parse_part : Bytes → Form → Result
unfolding with_text
parse_part part form =
    if is_empty part then ok form else elim (find (13 ∷ 10 ∷ 13 ∷ 10 ∷ []) part) [
      | none ↦ ok form
      | some eoh ↦ with_text part eoh form (decode (take eoh part))
    ]

abbrev pub after : Result → (Form → Result) → Result
after (ok form) next = next form
after (raised e form) next = raised e form

unfoldable pub parse_parts : List Bytes → Form → Result
unfolding parse_part
parse_parts [] form = ok form
parse_parts (part ∷ parts) form = after (parse_part part form) (λ form'. parse_parts parts form')

-- The boundary without its quotes: `boundary[1:-1]`
unfoldable pub bare_boundary : Bytes → Bytes
bare_boundary boundary =
    if starts_with (34 ∷ []) boundary && ends_with (34 ∷ []) boundary
    then take (length boundary - 2) (drop 1 boundary)
    else boundary

-- What follows `data.rfind`
unfoldable pub parse_up_to : Bytes → Bytes → Form → Option ℕ → Result
unfolding parse_parts
parse_up_to boundary data_text form none = ok form
parse_up_to boundary data_text form (some final_boundary_index) =
    let parts =
      split_on (45 ∷ 45 ∷ boundary ++ (13 ∷ 10 ∷ [])) (take final_boundary_index data_text) in
    parse_parts (parts.0 ∷ parts.1) form

unfoldable pub parse_bare : Bytes → Bytes → Form → Result
unfolding parse_up_to
parse_bare boundary data_text form =
    parse_up_to boundary data_text form (rfind (45 ∷ 45 ∷ boundary ++ (45 ∷ 45 ∷ [])) data_text)

unfoldable pub parse_multipart_form_data : Bytes → Bytes → Form → Result
unfolding parse_bare bare_boundary
parse_multipart_form_data boundary data_text form =
    parse_bare (bare_boundary boundary) data_text form

-- The loop over the fields of a content type: the first boundary that is not empty counts.
unfoldable pub find_boundary : List Bytes → Option Bytes
find_boundary [] = none
find_boundary (field ∷ fields) =
    let kv = partition 61 (strip field) in
    let rest = find_boundary fields in
    if bytes_eq kv.0 (98 ∷ 111 ∷ 117 ∷ 110 ∷ 100 ∷ 97 ∷ 114 ∷ 121 ∷ []) && not (is_empty kv.1)
    then some kv.1
    else rest

-- `arguments.setdefault(name, []).extend(values)` for the values of a query string
unfoldable pub add_query : Dict (List Bytes) → Form → Form
unfolding add_argument
add_query [] form = form
add_query (entry ∷ entries) form =
    add_query entries (if is_empty entry.1 then form else add_argument entry.0 entry.1 form)

-- `native_str(body)` as a query string; a body that is no UTF-8 raises.
unfoldable pub with_query : (Bytes → Dict (List Bytes)) → Form → Option Bytes → Result
unfolding add_query
with_query parse_qs form none = raised unicode_error form
with_query parse_qs form (some text) = ok (add_query (parse_qs text) form)

unfoldable pub parse_body_arguments : (Bytes → Dict (List Bytes)) → Bytes → Bytes → Form → Result
unfolding with_query parse_multipart_form_data find_boundary
parse_body_arguments parse_qs content_type body form =
    let fields = split 59 content_type in
    if starts_with
      (97 ∷ 112 ∷ 112 ∷ 108 ∷ 105 ∷ 99 ∷ 97 ∷ 116 ∷ 105 ∷ 111 ∷ 110 ∷ 47 ∷ 120 ∷ 45 ∷ 119 ∷ 119
        ∷ 119 ∷ 45 ∷ 102 ∷ 111 ∷ 114 ∷ 109 ∷ 45 ∷ 117 ∷ 114 ∷ 108 ∷ 101 ∷ 110 ∷ 99 ∷ 111 ∷ 100 ∷ 101
        ∷ 100 ∷ [])
      content_type
    then with_query parse_qs form (decode body)
    else (if starts_with
          (109 ∷ 117 ∷ 108 ∷ 116 ∷ 105 ∷ 112 ∷ 97 ∷ 114 ∷ 116 ∷ 47 ∷ 102 ∷ 111 ∷ 114 ∷ 109 ∷ 45
            ∷ 100 ∷ 97 ∷ 116 ∷ 97 ∷ [])
          content_type
        then elim (find_boundary (fields.0 ∷ fields.1)) [
          | none ↦ ok form
          | some v ↦ parse_multipart_form_data v body form
        ]
        else ok form)
