-- ===== src/Web/Routing/Reverse/Fills.antt =====
-- tornado/web.py: what `URLSpec.reverse` makes of a pattern whose groups do not contain others.
use tornado3_1_1_search.Base.{
  ℕ, suc, ◌≡◌, refl, ap, ◌∙◌, ◌-◌, ◌+◌, false, ◌==◌, ==_refl, none, some, List, [], ◌∷◌, ◌++◌,
  length, Bytes, Each, map, drop, drop-length, take-length, length-append, join, split, split-piece,
  split-last, find, find-char, starts_with, ends_with, bytes_eq, arith, percent_s_text,
  close_paren_text, caret_text, dollar_text,
}
use tornado3_1_1_search.Web.Routing.{Library, Regex, Spec, Result, ok, raised}
use tornado3_1_1_search.Web.Routing.Reverse.{
  without_start, without_end, fragment_at, path_piece, groups_in, find_groups, prepend, format,
  fill, reverse,
}

-- A group's inside, the text behind the group, and the argument for the group.
abbrev pub Part : Type 0
Part = Bytes × Bytes × Bytes

-- No parenthesis, and outside of the groups no `%` either.
abbrev pub IsInside : ℕ → Type 0
IsInside c = ((c == 40) ≡ false) × ((41 == c) ≡ false)

abbrev pub IsOutside : ℕ → Type 0
IsOutside c = ((c == 40) ≡ false) × (((41 == c) ≡ false) × ((c == 37) ≡ false))

abbrev pub IsPart : Part → Type 0
IsPart part = Each IsInside part.0 × Each IsOutside part.1

abbrev pub pattern_text : Bytes → List Part → Bytes
pattern_text first [] = first
pattern_text first (part ∷ parts) = first ++ 40 ∷ pattern_text (part.0 ++ 41 ∷ part.1) parts

-- The groups replaced by their escaped arguments
abbrev pub filled : (Bytes → Bytes) → List Part → Bytes
filled escape [] = []
filled escape (part ∷ parts) = escape part.2 ++ (part.1 ++ filled escape parts)

abbrev fragment : Part → Bytes
fragment part = part.0 ++ 41 ∷ part.1

each_append :
    (xs ys : Bytes)
    → Each (λ c. (c == 40) ≡ false) xs
    → Each (λ c. (c == 40) ≡ false) ys
    → Each (λ c. (c == 40) ≡ false) (xs ++ ys)
each_append [] ys h k = k
each_append (x ∷ xs) ys h k = (h.0, each_append xs ys h.1 k)

inside-no_open : (s : Bytes) → Each IsInside s → Each (λ c. (c == 40) ≡ false) s
inside-no_open [] h = tt
inside-no_open (c ∷ s) h = (h.0.0, inside-no_open s h.1)

inside-no_close : (s : Bytes) → Each IsInside s → Each (λ c. (41 == c) ≡ false) s
inside-no_close [] h = tt
inside-no_close (c ∷ s) h = (h.0.1, inside-no_close s h.1)

outside-no_open : (s : Bytes) → Each IsOutside s → Each (λ c. (c == 40) ≡ false) s
outside-no_open [] h = tt
outside-no_open (c ∷ s) h = (h.0.0, outside-no_open s h.1)

find-missing : (s : Bytes) → Each IsOutside s → find close_paren_text s ≡ none
unfolding find starts_with
find-missing [] h = refl
find-missing (c ∷ s) h = rw (h.0.1.0, find-missing s h.1) refl

split-pattern :
    (first : Bytes) (parts : List Part)
    → Each (λ c. (c == 40) ≡ false) first
    → Each IsPart parts
    → split 40 (pattern_text first parts) ≡ (first, map fragment parts)
split-pattern first [] h k = split-last 40 first h
split-pattern first (part ∷ parts) h k =
    let rest : Bytes = pattern_text (fragment part) parts in
    let inner : Each (λ c. (c == 40) ≡ false) (fragment part) =
      each_append part.0 (41 ∷ part.1) (inside-no_open part.0 k.0.0)
        (refl, outside-no_open part.1 k.0.1) in
    split-piece 40 first rest h
    ∙ ap (λ pieces. (first, pieces.0 ∷ pieces.1)) (split-pattern (fragment part) parts inner k.1)

drop_past : (xs : Bytes) (c : ℕ) (ys : Bytes) → drop (length xs + 1) (xs ++ c ∷ ys) ≡ ys
drop_past [] c ys = refl
drop_past (x ∷ xs) c ys =
    let e : suc (length xs) + 1 ≡ suc (length xs + 1) = omega arith in rw e (drop_past xs c ys)

path_piece-first : (first : Bytes) → Each IsOutside first → path_piece first ≡ first
unfolding path_piece fragment_at
path_piece-first first h = rw (find-missing first h) refl

path_piece-fragment :
    (part : Part) → IsPart part → path_piece (fragment part) ≡ percent_s_text ++ part.1
unfolding path_piece fragment_at
path_piece-fragment part h =
    rw (find-char 41 part.0 part.1 (inside-no_close part.0 h.0))
      (ap (λ s. percent_s_text ++ s) (drop_past part.0 41 part.1))

without_end-end : (s : Bytes) → without_end (s ++ dollar_text) ≡ s
unfolding without_end ends_with bytes_eq
without_end-end s =
    let e : length (s ++ dollar_text) - 1 ≡ length s = omega (arith, length-append s dollar_text) in
    rw (e, drop-length s dollar_text, take-length s dollar_text) refl

abbrev conversions : List Part → Bytes
conversions [] = []
conversions (part ∷ parts) = percent_s_text ++ (part.1 ++ conversions parts)

join-pieces :
    (parts : List Part)
    → Each IsPart parts
    → join (map path_piece (map fragment parts)) ≡ conversions parts
join-pieces [] h = refl
join-pieces (part ∷ parts) h = rw (path_piece-fragment part h.0, join-pieces parts h.1) refl

length-map : (f : Part → Bytes) (parts : List Part) → length (map f parts) ≡ length parts
length-map f [] = refl
length-map f (part ∷ parts) = omega (arith, length-map f parts)

prepend-nil : (r : Result Bytes) → r ≡ prepend [] r
unfolding prepend
prepend-nil (ok s) = refl
prepend-nil (raised error) = refl

prepend-prepend :
    (c : ℕ) (s : Bytes) (r : Result Bytes) → prepend (c ∷ []) (prepend s r) ≡ prepend (c ∷ s) r
unfolding prepend
prepend-prepend c s (ok t) = refl
prepend-prepend c s (raised error) = refl

module _ (library : Library) where
  format-char :
      (c : ℕ) (s : Bytes) (args : List Bytes)
      → (c == 37) ≡ false
      → format library false (c ∷ s) args ≡ prepend (c ∷ []) (format library false s args)
  unfolding format
  format-char c s args e = rw (format, e) refl

  format-literal :
      (s rest : Bytes) (args : List Bytes)
      → Each IsOutside s
      → format library false (s ++ rest) args ≡ prepend s (format library false rest args)
  format-literal [] rest args h = prepend-nil (format library false rest args)
  format-literal (c ∷ s) rest args h =
      format-char c (s ++ rest) args h.0.1.1
      ∙ (ap (prepend (c ∷ [])) (format-literal s rest args h.1)
          ∙ prepend-prepend c s (format library false rest args))

  format-conversions :
      (parts : List Part)
      → Each IsPart parts
      → format library false
          (conversions parts)
          (map library.url_escape (map (λ part. part.2) parts))
        ≡ ok (filled library.url_escape parts)
  unfolding format prepend
  format-conversions [] h = refl
  format-conversions (part ∷ parts) h =
      let args : List Bytes = map library.url_escape (map (λ part. part.2) parts) in
      ap (prepend (library.url_escape part.2)) (
        format-literal part.1 (conversions parts) args h.0.1
        ∙ ap (prepend part.1) (format-conversions parts h.1))

  fill-parts :
      (first : Bytes) (parts : List Part)
      → Each IsOutside first
      → Each IsPart parts
      → fill library
          (map (λ part. part.2) parts)
          (some ((first ++ conversions parts), length parts))
        ≡ ok (first ++ filled library.url_escape parts)
  unfolding fill
  fill-parts first [] h k = refl
  fill-parts first (part ∷ parts) h k =
      let n = length-map (λ p. p.2) parts in
      rw (n, ==_refl (suc (length parts)))
        (format-literal first (conversions (part ∷ parts))
            (map library.url_escape (map (λ p. p.2) (part ∷ parts))) h
          ∙ ap (prepend first) (format-conversions (part ∷ parts) k))

groups_in-parts :
    (first : Bytes) (parts : List Part)
    → Each IsOutside first
    → Each IsPart parts
    → groups_in (first, map fragment parts) (length parts)
      ≡ some ((first ++ conversions parts), length parts)
unfolding groups_in
groups_in-parts first parts h k =
    rw
      (
        length-map fragment parts,
        ==_refl (length parts),
        path_piece-first first h,
        join-pieces parts k,
      )
      refl

find_groups-parts :
    (regex : Regex) (first : Bytes) (parts : List Part)
    → regex.pattern ≡ pattern_text first parts ++ dollar_text
    → starts_with caret_text regex.pattern ≡ false
    → regex.groups ≡ length parts
    → Each IsOutside first
    → Each IsPart parts
    → find_groups regex ≡ some ((first ++ conversions parts), length parts)
unfolding find_groups without_start
find_groups-parts regex first parts p c g h k =
    let e : without_end (without_start regex.pattern) ≡ pattern_text first parts =
      rw c (rw p (without_end-end (pattern_text first parts))) in
    ap (λ s. groups_in (split 40 s) regex.groups) e
    ∙ (ap (λ fragments. groups_in fragments regex.groups)
          (split-pattern first parts (outside-no_open first h) k)
        ∙ (ap (groups_in (first, map fragment parts)) g ∙ groups_in-parts first parts h k))

-- A pattern is a text without parentheses and `%`, then groups, each with a text behind it that is
-- such a text too, and then a `$`. It does not start with `^`, and no group contains parentheses.
-- Then `reverse` with an argument for each group gives the pattern without the `$`, each group
-- replaced by its escaped argument.
pub reverse-fills :
    (library : Library) (spec : Spec) (first : Bytes) (parts : List Part)
    → spec.regex.pattern ≡ pattern_text first parts ++ dollar_text
    → starts_with caret_text spec.regex.pattern ≡ false
    → spec.regex.groups ≡ length parts
    → Each IsOutside first
    → Each IsPart parts
    → reverse library spec (map (λ part. part.2) parts)
      ≡ ok (first ++ filled library.url_escape parts)
unfolding reverse
reverse-fills library spec first parts p c g h k =
    ap (fill library (map (λ part. part.2) parts))
      (find_groups-parts spec.regex first parts p c g h k)
    ∙ fill-parts library first parts h k
