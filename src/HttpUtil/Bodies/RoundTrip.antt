-- ===== src/HttpUtil/Bodies/RoundTrip.antt =====
-- tornado/httputil.py: `parse_multipart_form_data` on a body that is written part by part.
use tornado3_1_1_search.Base.{
  set, content_type_text, name_text, filename_text, form_data_text, content_disposition_text, ℕ,
  suc, ◌≡◌, refl, ap, ◌∙◌, ◌-◌, ◌+◌, true, false, some, List, [], ◌∷◌, ◌++◌, append_assoc,
  append-nil, if◌then◌else◌, is_empty, length, Bytes, Each, subst, bytes_eq, Dict, lookup, map,
  take, drop, take-length, length-append, find, starts_with, ends_with, split_from-marker,
  rfind-end, ends_with-end, split_on, split_from, split_from-other, arith, cr_lf_text,
}
use tornado3_1_1_search.Utf8.{decode}
use tornado3_1_1_search.HttpUtil.Headers
use tornado3_1_1_search.HttpUtil.Headers.{Headers, get_item}
use tornado3_1_1_search.HttpUtil.Params.{parse_header}
use tornado3_1_1_search.HttpUtil.Bodies.{
  or_empty, add_argument, add_file, extend, Form, ok, get_or, put_value, put_part, with_text,
  with_headers, parse_part, parse_parts, bare_boundary, parse_bare, parse_multipart_form_data,
}

-- A part: its head as it is written and as it is read, and what is in it.
pub record Part : Type 0 where
  pub head : Bytes
  pub value : Bytes
  pub headers : Headers
  pub params : Dict Bytes

abbrev pub blank_line : Bytes
blank_line = 13 ∷ 10 ∷ 13 ∷ 10 ∷ []

abbrev pub part_text : Part → Bytes
part_text part = part.head ++ 13 ∷ 10 ∷ 13 ∷ 10 ∷ (part.value ++ cr_lf_text)

-- The parts, each behind the marker.
abbrev pub parts_text : Bytes → List Part → Bytes
parts_text marker [] = []
parts_text marker (part ∷ parts) = marker ++ (part_text part ++ parts_text marker parts)

-- The line that stands before a part, and the body: the last boundary has two more dashes.
abbrev pub marker_of : Bytes → Bytes
marker_of boundary = 45 ∷ 45 ∷ boundary ++ cr_lf_text

abbrev pub body_text : Bytes → List Part → Bytes
body_text boundary parts =
    parts_text (marker_of boundary) parts ++ (45 ∷ 45 ∷ boundary ++ 45 ∷ 45 ∷ [])

-- The marker starts nowhere in a text behind which another text stands.
abbrev pub IsFreeOf : Bytes → Bytes → Bytes → Type 0
IsFreeOf marker [] rest = Unit
IsFreeOf marker (c ∷ s) rest = (starts_with marker (c ∷ s ++ rest) ≡ false) × IsFreeOf marker s rest

-- No marker starts inside of a part.
abbrev pub AreApart : Bytes → List Part → Type 0
AreApart marker [] = Unit
AreApart marker (part ∷ parts) =
    IsFreeOf marker (part_text part) (parts_text marker parts) × AreApart marker parts

-- The head is what its headers are read from, they say that the part is form data, and the head
-- has no blank line in it.
pub record IsReadable (part : Part) : Type 0 where
  pub decoded :
      (text : List ℕ) × ((decode part.head ≡ some text)
        × (Headers.parse text ≡ Headers.ok part.headers))
  pub disposition :
      (value : Bytes) × ((get_item content_disposition_text part.headers ≡ some value)
        × (parse_header value ≡ (form_data_text, part.params)))
  pub no_blank : IsFreeOf blank_line part.head (13 ∷ 10 ∷ 13 ∷ 10 ∷ (part.value ++ cr_lf_text))

-- A value more in the list of a name
abbrev pub put_last {ℓ} : {A : Type ℓ} → Bytes → A → Dict (List A) → Dict (List A)
put_last name value d = set name (or_empty (lookup name d) ++ value ∷ []) d

-- The content type that the headers of a part name
abbrev pub type_of : Part → Bytes
type_of part = get_or (get_item content_type_text part.headers) (
    (97 ∷ 112 ∷ 112 ∷ 108 ∷ 105 ∷ 99 ∷ 97 ∷ 116 ∷ 105 ∷ 111 ∷ 110 ∷ 47 ∷ 117 ∷ 110 ∷ 107 ∷ 110 ∷ 111
      ∷ 119 ∷ 110 ∷ []))

-- What a part puts into the form: nothing without a name, its value among the arguments of the name
-- without a file name, and a file with this file name, its value and its content type with one.
abbrev pub put_named : Part → Bytes → Bytes → Form → Form
put_named part [] filename form = form
put_named part (c ∷ name) [] form = record form {
  arguments = put_last (c ∷ name) part.value form.arguments;
}
put_named part (c ∷ name) (d ∷ filename) form = record form {
  files =
      put_last (c ∷ name)
        (record { filename = d ∷ filename; body = part.value; content_type = type_of part })
        form.files;
}

abbrev pub put_parts : List Part → Form → Form
put_parts [] form = form
put_parts (part ∷ parts) form = put_parts parts (
    put_named part (get_or (lookup name_text part.params) [])
      (get_or (lookup filename_text part.params) []) form)

split_from-free :
    (sep s rest : Bytes)
    → IsFreeOf sep s rest
    → split_from sep 0 (s ++ rest) ≡ (s ++ (split_from sep 0 rest).0, (split_from sep 0 rest).1)
split_from-free sep [] rest h = refl
split_from-free sep (c ∷ s) rest h =
    split_from-other sep c (s ++ rest) h.0
    ∙ ap (λ (p : Bytes × List Bytes). (c ∷ p.0, p.1)) (split_from-free sep s rest h.1)

split_from-parts :
    (c : ℕ) (p : Bytes) (parts : List Part)
    → AreApart (c ∷ p) parts
    → split_from (c ∷ p) 0 (parts_text (c ∷ p) parts) ≡ ([], map part_text parts)
unfolding split_from
split_from-parts c p [] h = refl
split_from-parts c p (part ∷ parts) h =
    let rest : Bytes = parts_text (c ∷ p) parts in
    split_from-marker c p (part_text part ++ rest)
    ∙ ap (λ (q : Bytes × List Bytes). ([], q.0 ∷ q.1))
        (split_from-free (c ∷ p) (part_text part) rest h.0
          ∙ (ap (λ (q : Bytes × List Bytes). (part_text part ++ q.0, q.1))
                (split_from-parts c p parts h.1)
              ∙ ap (λ s. (s, map part_text parts)) (append-nil (part_text part))))

find-blank :
    (s rest : Bytes)
    → IsFreeOf blank_line s (13 ∷ 10 ∷ 13 ∷ 10 ∷ rest)
    → find blank_line (s ++ 13 ∷ 10 ∷ 13 ∷ 10 ∷ rest) ≡ some (length s)
unfolding find starts_with
find-blank [] rest h = refl
find-blank (c ∷ s) rest h = rw (h.0, find-blank s rest h.1) refl

drop_blank : (s rest : Bytes) → drop (length s + 4) (s ++ 13 ∷ 10 ∷ 13 ∷ 10 ∷ rest) ≡ rest
drop_blank [] rest = refl
drop_blank (c ∷ s) rest =
    let e : suc (length s) + 4 ≡ suc (length s + 4) = omega arith in rw e (drop_blank s rest)

part-ends : (part : Part) → ends_with cr_lf_text (part_text part) ≡ true
part-ends part =
    subst (λ s. ends_with cr_lf_text s ≡ true)
      (append_assoc part.head (13 ∷ 10 ∷ 13 ∷ 10 ∷ part.value) cr_lf_text)
      (ends_with-end cr_lf_text (part.head ++ 13 ∷ 10 ∷ 13 ∷ 10 ∷ part.value))

part-value :
    (part : Part)
    → take
        (length (part_text part) - (length part.head + 4) - 2)
        (drop (length part.head + 4) (part_text part))
      ≡ part.value
part-value part =
    let n : length (part_text part) - (length part.head + 4) - 2 ≡ length part.value = omega (
      arith,
      length-append part.head (13 ∷ 10 ∷ 13 ∷ 10 ∷ (part.value ++ cr_lf_text)),
      length-append part.value cr_lf_text,
    ) in
    rw (n, drop_blank part.head (part.value ++ cr_lf_text)) (take-length part.value cr_lf_text)

part_full : (part : Part) → is_empty (part_text part) ≡ false
part_full part = full part.head
  where
    full : (s : Bytes) → is_empty (s ++ 13 ∷ 10 ∷ 13 ∷ 10 ∷ (part.value ++ cr_lf_text)) ≡ false
    full [] = refl
    full (c ∷ s) = refl

put_value-named :
    (part : Part) (name filename : Bytes) (form : Form)
    → (if is_empty name then form else put_value name filename part.value part.headers form)
      ≡ put_named part name filename form
unfolding put_value add_argument add_file extend
put_value-named part [] filename form = refl
put_value-named part (c ∷ name) [] form = refl
put_value-named part (c ∷ name) (d ∷ filename) form = refl

put_part-named :
    (part : Part) (form : Form)
    → IsReadable part
    → put_part (part_text part) (length part.head) part.headers form
      ≡ put_named part
          (get_or (lookup name_text part.params) [])
          (get_or (lookup filename_text part.params) [])
          form
unfolding put_part bytes_eq
put_part-named part form w =
    rw (w.disposition.1.0, w.disposition.1.1, part-ends part, part-value part)
      (put_value-named part (get_or (lookup name_text part.params) [])
        (get_or (lookup filename_text part.params) []) form)

parse_part-text :
    (part : Part) (form : Form)
    → IsReadable part
    → parse_part (part_text part) form
      ≡ ok (
          put_named part
            (get_or (lookup name_text part.params) [])
            (get_or (lookup filename_text part.params) [])
            form)
unfolding parse_part with_text with_headers
parse_part-text part form w =
    rw
      (
        part_full part,
        find-blank part.head (part.value ++ cr_lf_text) w.no_blank,
        take-length part.head (13 ∷ 10 ∷ 13 ∷ 10 ∷ (part.value ++ cr_lf_text)),
        w.decoded.1.0,
        w.decoded.1.1,
      )
      (ap ok (put_part-named part form w))

parse_parts-texts :
    (parts : List Part) (form : Form)
    → Each IsReadable parts
    → parse_parts (map part_text parts) form ≡ ok (put_parts parts form)
unfolding parse_parts
parse_parts-texts [] form h = refl
parse_parts-texts (part ∷ parts) form h =
    rw (parse_part-text part form h.0) (parse_parts-texts parts _ h.1)

parse_bare-body_text :
    (boundary : Bytes) (parts : List Part) (form : Form)
    → AreApart (marker_of boundary) parts
    → Each IsReadable parts
    → parse_bare boundary (body_text boundary parts) form ≡ ok (put_parts parts form)
unfolding parse_bare split_on
parse_bare-body_text boundary parts form a w =
    let before : Bytes = parts_text (marker_of boundary) parts in
    let last : Bytes = 45 ∷ 45 ∷ boundary ++ 45 ∷ 45 ∷ [] in
    rw (rfind-end 45 (45 ∷ boundary ++ 45 ∷ 45 ∷ []) before) (
      rw (take-length before last) (
        rw (split_from-parts 45 (45 ∷ boundary ++ cr_lf_text) parts a)
          (parse_parts-texts parts form w)))

-- A body that is written part by part, each behind the boundary, with the boundary and two dashes
-- at its end, is read as these parts in their order: each is put under its name, as a file if it has a file name,
-- with its value to the byte. The boundary has no quotes around it and does not start inside of a
-- part, and the heads of the parts are those of form data.
pub parse_multipart_form_data-body_text :
    (quoted boundary : Bytes) (parts : List Part) (form : Form)
    → bare_boundary quoted ≡ boundary
    → AreApart (marker_of boundary) parts
    → Each IsReadable parts
    → parse_multipart_form_data quoted (body_text boundary parts) form ≡ ok (put_parts parts form)
unfolding parse_multipart_form_data
parse_multipart_form_data-body_text quoted boundary parts form b a w =
    rw b (parse_bare-body_text boundary parts form a w)
