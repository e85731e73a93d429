-- ===== src/HttpUtil/Headers/Parse.antt =====
-- tornado/httputil.py: `HTTPHeaders.parse` on headers as the client of tornado/simple_httpclient.py
-- writes them.
use tornado3_1_1_search.Base.{
  ℕ, ◌+◌, ◌≡◌, refl, ap, sym, ◌∙◌, false, some, List, [], ◌∷◌, ◌++◌, Bytes, take, drop, is_empty,
  find, is_space, lstrip, strip, splitlines, is_break, subst, option_intro, if_intro, arith, Each,
  length, ◌==◌, starts_with, put_first, Each-append, suc, append_assoc, append-nil,
}
use tornado3_1_1_search.HttpUtil.Headers.{
  Headers, Result, ok, raised, no_headers, add, new_header, parse_line, parse_lines, parse,
  after_line, add_all,
}

-- `name: value` and the end of a line for each header.
pub header_text : List (Bytes × Bytes) → Bytes
header_text [] = []
header_text (entry ∷ entries) = (entry.0 ++ 58 ∷ 32 ∷ entry.1) ++ 13 ∷ 10 ∷ header_text entries

-- A name and a value that can stand on a line: a name starts with a character that is no space and
-- has no colon, neither has the end of a line in it, and the value has no space at its ends.
pub record IsHeader (entry : Bytes × Bytes) : Type 0 where
  pub starts : (c : ℕ) × ((s : Bytes) × ((entry.0 ≡ c ∷ s) × (is_space c ≡ false)))
  pub name : Each (λ c. (c == 58) ≡ false) entry.0
  pub name_line : Each (λ c. is_break c ≡ false) entry.0
  pub value_line : Each (λ c. is_break c ≡ false) entry.1
  pub stripped : strip entry.1 ≡ entry.1

splitlines-line :
    (line rest : Bytes)
    → Each (λ c. is_break c ≡ false) line
    → splitlines (line ++ 13 ∷ 10 ∷ rest) ≡ line ∷ splitlines rest
unfolding splitlines is_break starts_with put_first
splitlines-line [] rest h = refl
splitlines-line (c ∷ line) rest h =
    let rest_line = splitlines-line line rest h.1 in let no_break = h.0 in ground (arith, put_first)

find_colon :
    (name rest : Bytes)
    → Each (λ c. (c == 58) ≡ false) name
    → find (58 ∷ []) (name ++ 58 ∷ rest) ≡ some (length name)
unfolding find starts_with
find_colon [] rest h = refl
find_colon (c ∷ name) rest h = ground (arith, find_colon name rest h.1, h.0)

take_name : (name rest : Bytes) → take (length name) (name ++ rest) ≡ name
take_name [] rest = refl
take_name (c ∷ name) rest = ap (λ s. c ∷ s) (take_name name rest)

drop_name : (name rest : Bytes) → drop (length name + 1) (name ++ 58 ∷ rest) ≡ rest
drop_name [] rest = refl
drop_name (c ∷ name) rest = rw longer (drop_name name rest)
  where
    longer : suc (length name) + 1 ≡ suc (length name + 1)
    longer = omega arith

strip-space : (v : Bytes) → strip (32 ∷ v) ≡ strip v
unfolding strip lstrip is_space
strip-space v = refl

new_header-header :
    (entry : Bytes × Bytes) (h : Headers)
    → IsHeader entry
    → new_header (entry.0 ++ 58 ∷ 32 ∷ entry.1) h ≡ add entry.0 entry.1 h
unfolding new_header
new_header-header entry h w =
    let line = entry.0 ++ 58 ∷ 32 ∷ entry.1 in
    let there = find_colon entry.0 (32 ∷ entry.1) w.name in
    option_intro (λ r. r ≡ add entry.0 entry.1 h) (find (58 ∷ []) line) _ _
      (λ absent. absurd (ground (arith, there)))
      (λ colon here.
        let at : colon ≡ length entry.0 = ground (arith, there) in
        rw (at, take_name entry.0 (58 ∷ 32 ∷ entry.1), drop_name entry.0 (32 ∷ entry.1))
          (ap (λ v. add entry.0 v h) (strip-space entry.1 ∙ w.stripped)))

parse_line-text :
    (c : ℕ) (s : Bytes) (h : Headers)
    → is_space c ≡ false
    → parse_line (c ∷ s) h ≡ new_header (c ∷ s) h
unfolding parse_line
parse_line-text c s h text =
    if_intro (λ r. r ≡ new_header (c ∷ s) h) (is_space c) _ _ (λ e. absurd (ground (arith, e)))
      (λ e. refl)

parse_line-header :
    (entry : Bytes × Bytes) (h : Headers)
    → IsHeader entry
    → parse_line (entry.0 ++ 58 ∷ 32 ∷ entry.1) h ≡ add entry.0 entry.1 h
parse_line-header entry h w =
    subst
      (λ name. parse_line (name ++ 58 ∷ 32 ∷ entry.1) h ≡ new_header (name ++ 58 ∷ 32 ∷ entry.1) h)
      (sym w.starts.1.1.0)
      (parse_line-text w.starts.0 (w.starts.1.0 ++ 58 ∷ 32 ∷ entry.1) h w.starts.1.1.1)
    ∙ new_header-header entry h w

line-no_break :
    (entry : Bytes × Bytes)
    → IsHeader entry
    → Each (λ c. is_break c ≡ false) (entry.0 ++ 58 ∷ 32 ∷ entry.1)
unfolding is_break
line-no_break entry w =
    Each-append (λ c. is_break c ≡ false) entry.0 (58 ∷ 32 ∷ entry.1)
      (w.name_line, (refl, (refl, w.value_line)))

line_full : (entry : Bytes × Bytes) → is_empty (entry.0 ++ 58 ∷ 32 ∷ entry.1) ≡ false
line_full entry = full entry.0
  where
    full : (name : Bytes) → is_empty (name ++ 58 ∷ 32 ∷ entry.1) ≡ false
    full [] = refl
    full (c ∷ name) = refl

after_line-same :
    (r : Result) (f g : Headers → Result)
    → ((h : Headers) → f h ≡ g h)
    → after_line r f ≡ after_line r g
unfolding after_line
after_line-same (ok h) f g same = same h
after_line-same (raised e h) f g same = refl

-- The lines that follow the headers are blank.
IsBlank : Bytes → Type 0
IsBlank rest = (h : Headers) → parse_lines (splitlines rest) h ≡ ok h

parse_lines-text :
    (entries : List (Bytes × Bytes)) (rest : Bytes) (h : Headers)
    → IsBlank rest
    → Each IsHeader entries
    → parse_lines (splitlines (header_text entries ++ rest)) h ≡ add_all entries h
unfolding parse_lines add_all header_text after_line IsBlank
parse_lines-text [] rest h blank w = blank h
parse_lines-text (entry ∷ entries) rest h blank w =
    let line = entry.0 ++ 58 ∷ 32 ∷ entry.1 in
    subst (λ text. parse_lines (splitlines text) h ≡ add_all (entry ∷ entries) h)
      (sym (append_assoc line (13 ∷ 10 ∷ header_text entries) rest))
      (rw
        (
          splitlines-line line (header_text entries ++ rest) (line-no_break entry w.0),
          line_full entry,
          parse_line-header entry h w.0,
        )
        (after_line-same (add entry.0 entry.1 h) _ _
          (λ h'. parse_lines-text entries rest h' blank w.1)))

-- Reading headers that were written one to a line, as `name: value`, is adding them one by one to
-- new headers, for names and values that can stand on a line.
pub parse-header_text :
    (entries : List (Bytes × Bytes))
    → Each IsHeader entries
    → parse (header_text entries) ≡ add_all entries no_headers
unfolding parse parse_lines splitlines IsBlank
parse-header_text entries w =
    subst (λ text. parse text ≡ add_all entries no_headers) (append-nil (header_text entries))
      (parse_lines-text entries [] no_headers (λ h. refl) w)

-- The same between the end of a first line and the blank line behind the headers.
pub parse-lines_between :
    (entries : List (Bytes × Bytes))
    → Each IsHeader entries
    → parse (13 ∷ 10 ∷ header_text entries ++ 13 ∷ 10 ∷ []) ≡ add_all entries no_headers
unfolding parse parse_lines splitlines IsBlank is_break starts_with
parse-lines_between entries w = parse_lines-text entries (13 ∷ 10 ∷ []) no_headers (λ h. refl) w
