-- ===== src/Web/Routing/Reverse.antt =====
-- tornado/web.py: the path of a named route, filled with arguments (`URLSpec._find_groups` and
-- `reverse`, `Application.reverse_url`). Arguments are bytes once they are converted.
pub mod Fills
use tornado3_1_1_search.Base.{
  percent_text, close_paren_text, percent_s_text, dollar_text, caret_text, ℕ, ◌-◌, ◌+◌, Bool, true,
  false, ◌==◌, Option, none, some, List, [], ◌∷◌, ◌++◌, if◌then◌else◌, Bytes, is_empty, length, map,
  take, drop, join, split, find, starts_with, ends_with, lookup,
}
use tornado3_1_1_search.Web.Routing.{
  Library, Regex, Spec, Application, Result, ok, raised, assertion_error, key_error, format_error,
}

unfoldable pub without_start : Bytes → Bytes
unfolding starts_with
without_start pattern = if starts_with caret_text pattern then drop 1 pattern else pattern

unfoldable pub without_end : Bytes → Bytes
unfolding ends_with
without_end pattern =
    if ends_with dollar_text pattern then take (length pattern - 1) pattern else pattern

-- `'%s' + fragment[paren_loc + 1:]`
unfoldable pub fragment_at : Bytes → Option ℕ → Bytes
fragment_at fragment none = fragment
fragment_at fragment (some paren_loc) = percent_s_text ++ drop (paren_loc + 1) fragment

unfoldable pub path_piece : Bytes → Bytes
unfolding fragment_at find
path_piece fragment = fragment_at fragment (find close_paren_text fragment)

-- The path with `%s` for each group, and the number of groups
unfoldable pub groups_in : Bytes × List Bytes → ℕ → Option (Bytes × ℕ)
unfolding path_piece
groups_in fragments groups =
    if groups == length fragments.1
    then some ((path_piece fragments.0 ++ join (map path_piece fragments.1)), groups)
    else none

unfoldable pub find_groups : Regex → Option (Bytes × ℕ)
unfolding groups_in without_start without_end split
find_groups regex = groups_in (split 40 (without_end (without_start regex.pattern))) regex.groups

unfoldable pub prepend : Bytes → Result Bytes → Result Bytes
prepend text (raised error) = raised error
prepend text (ok rest) = ok (text ++ rest)

unfoldable pub of_other : Option Bytes → Result Bytes
of_other none = raised format_error
of_other (some text) = ok text

module _ (library : Library) where
  -- `text % args`, from behind a `%` or not
  unfoldable pub format : Bool → Bytes → List Bytes → Result Bytes
  unfolding prepend of_other
  format false [] [] = ok []
  format false [] (arg ∷ args) = raised format_error
  format true [] args = raised format_error
  format false (c ∷ text) args = elim (c == 37) [
    | true ↦ format true text args
    | false ↦ prepend (c ∷ []) (format false text args)
  ]
  format true (c ∷ text) [] = elim (c == 37) [
    | true ↦ prepend percent_text (format false text [])
    | false ↦
        if c == 115 then raised format_error else of_other (library.format_other (c ∷ text) [])
  ]
  format true (c ∷ text) (arg ∷ args) = elim (c == 115) [
    | true ↦ prepend arg (format false text args)
    | false ↦ elim (c == 37) [
      | true ↦ prepend percent_text (format false text (arg ∷ args))
      | false ↦ of_other (library.format_other (c ∷ text) (arg ∷ args))
    ]
  ]

  unfoldable pub fill : List Bytes → Option (Bytes × ℕ) → Result Bytes
  unfolding format
  fill args none = raised assertion_error
  fill args (some found) =
      if length args == found.1
      then if is_empty args then ok found.0 else format false found.0 (map library.url_escape args)
      else raised assertion_error

  unfoldable pub reverse : Spec → List Bytes → Result Bytes
  unfolding fill find_groups
  reverse spec args = fill args (find_groups spec.regex)

  unfoldable pub reverse_found : List Bytes → Option Spec → Result Bytes
  unfolding reverse
  reverse_found args none = raised key_error
  reverse_found args (some spec) = reverse spec args

  unfoldable pub reverse_url : Application → Bytes → List Bytes → Result Bytes
  unfolding reverse_found lookup
  reverse_url app name args = reverse_found args (lookup name app.named_handlers)
