-- ===== src/HttpUtil/Bodies/Tests.antt =====
-- A form with one argument, and the theorem of HttpUtil/Bodies at it.
use tornado3_1_1_search.Base.{
  form_data_text, name_text, content_disposition_text, ◌≡◌, refl, Bool, true, not, ◌&&◌, arith,
  some, [], ◌∷◌, ◌++◌, Bytes, splitlines, is_break, put_first, upper, capitalize, split,
  starts_with, ends_with, bytes_eq, lookup, strip, find, rstrip, count, lstrip, is_space, keep, set,
  lower, replace, join_rest,
}
use tornado3_1_1_search.Utf8.{decode}
use tornado3_1_1_search.HttpUtil.Headers
use tornado3_1_1_search.HttpUtil.Headers.{Headers, get_item}
use tornado3_1_1_search.HttpUtil.{normalize}
use tornado3_1_1_search.HttpUtil.Params.{parse_header}
use tornado3_1_1_search.HttpUtil.Bodies.{Form, ok, bare_boundary, parse_multipart_form_data}
use tornado3_1_1_search.HttpUtil.Bodies.RoundTrip.{
  Part, IsFreeOf, IsReadable, blank_line, marker_of, body_text, put_parts, part_text,
  parse_multipart_form_data-body_text,
}

-- Whether the marker starts nowhere in a text.
free_of : Bytes → Bytes → Bytes → Bool
unfolding starts_with
free_of marker [] rest = true
free_of marker (c ∷ s) rest = not (starts_with marker (c ∷ s ++ rest)) && free_of marker s rest

free_of-IsFreeOf : (marker s rest : Bytes) → free_of marker s rest ≡ true → IsFreeOf marker s rest
unfolding free_of
free_of-IsFreeOf marker [] rest h = tt
free_of-IsFreeOf marker (c ∷ s) rest h =
    (ground (arith, h), free_of-IsFreeOf marker s rest (ground (arith, h)))

abbrev disposition : Bytes
disposition =
    102 ∷ 111 ∷ 114 ∷ 109 ∷ 45 ∷ 100 ∷ 97 ∷ 116 ∷ 97 ∷ 59 ∷ 32 ∷ 110 ∷ 97 ∷ 109 ∷ 101 ∷ 61 ∷ 34
    ∷ 110 ∷ 34 ∷ []

abbrev argument_headers : Headers
argument_headers = record {
  dict = (content_disposition_text, disposition) ∷ [];
  as_list = (content_disposition_text, disposition ∷ []) ∷ [];
  last_key = some content_disposition_text;
}

abbrev argument_part : Part
argument_part = record {
  head = content_disposition_text ++ (58 ∷ 32 ∷ disposition);
  value = 118 ∷ [];
  headers = argument_headers;
  params = (name_text, 110 ∷ []) ∷ [];
}

abbrev empty_form : Form
empty_form = record { arguments = []; files = [] }

argument_part-decoded : decode argument_part.head ≡ some argument_part.head
unfolding decode
argument_part-decoded = refl

argument_part-parsed : Headers.parse argument_part.head ≡ Headers.ok argument_headers
unfolding Headers.parse Headers.parse_lines splitlines is_break put_first Headers.after_line
    Headers.parse_line is_space Headers.new_header find Headers.add Headers.add_normal lookup
    Headers.no_headers Headers.set_item set normalize upper strip rstrip bytes_eq starts_with
    capitalize join_rest keep lower lstrip split
argument_part-parsed = refl

disposition-parsed : parse_header disposition ≡ (form_data_text, argument_part.params)
unfolding parse_header strip find rstrip count lstrip is_space keep set lower ends_with replace
    join_rest
disposition-parsed = refl

argument_part-IsReadable : IsReadable argument_part
unfolding free_of get_item starts_with lookup bytes_eq normalize upper lower
argument_part-IsReadable = record {
  decoded = (argument_part.head, (argument_part-decoded, argument_part-parsed));
  disposition = (disposition, (refl, disposition-parsed));
  no_blank =
      free_of-IsFreeOf blank_line argument_part.head
        (13 ∷ 10 ∷ 13 ∷ 10 ∷ (argument_part.value ++ 13 ∷ 10 ∷ [])) refl;
}

parse_multipart_form_data-body_text_example :
    parse_multipart_form_data (98 ∷ []) (body_text (98 ∷ []) (argument_part ∷ [])) empty_form
    ≡ ok (put_parts (argument_part ∷ []) empty_form)
unfolding free_of bare_boundary starts_with
parse_multipart_form_data-body_text_example =
    parse_multipart_form_data-body_text (98 ∷ []) (98 ∷ []) (argument_part ∷ []) empty_form refl
      (free_of-IsFreeOf (marker_of (98 ∷ [])) (part_text argument_part) [] refl, tt)
      (argument_part-IsReadable, tt)
