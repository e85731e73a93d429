-- ===== src/HttpUtil/Headers/Lists.antt =====
-- tornado/httputil.py: what `HTTPHeaders.add` does to the lists.
use tornado3_1_1_search.Base.{
  ◌≡◌, refl, ap, sym, ◌∙◌, none, some, List, [], ◌∷◌, ◌++◌, if◌then◌else◌, Bytes, lookup, set,
  lookup-set, option_intro, bytes_eq→eq, bytes_eq, arith,
}
use tornado3_1_1_search.HttpUtil.{normalize, normalize_twice}
use tornado3_1_1_search.HttpUtil.Headers.{
  Headers, Result, ok, state, get_item, set_item, append_value, add_normal, add, get_list,
}
use tornado3_1_1_search.HttpUtil.Headers.Keeps.{IsWellFormed, listed}

-- What `add` leaves: it does not raise, the value comes last in the list of every spelling of the
-- name, and the lists of the other names stay.
pub record Adds (name value : Bytes) (h : Headers) (r : Result) : Type 0 where
  pub returns : r ≡ ok (state r)
  pub lists :
      (other : Bytes)
      → get_list other (state r) ≡ (
          if bytes_eq (normalize other) (normalize name)
          then get_list other h ++ value ∷ []
          else get_list other h)

set_item-Adds :
    (name value : Bytes) (h : Headers)
    → lookup (normalize name) h.as_list ≡ none
    → Adds name value h
        (ok (set_item (normalize name) value (record h { last_key = some (normalize name) })))
unfolding set_item get_list
set_item-Adds name value h absent = record {
  returns = refl;
  lists = λ other. rw (normalize_twice name) (
      ground (
        arith,
        lookup-set (normalize other) (normalize name) (value ∷ []) h.as_list,
        bytes_eq→eq (normalize other) (normalize name),
      ));
}

append_value-Adds :
    (name value text : Bytes) (values : List Bytes) (h : Headers)
    → lookup (normalize name) h.as_list ≡ some values
    → Adds name value h (
        append_value
          (normalize name)
          value
          (record h { last_key = some (normalize name); dict = set (normalize name) text h.dict }))
unfolding append_value get_list
append_value-Adds name value text values h here =
    option_intro (Adds name value h) (lookup (normalize name) h.as_list) _ _
      (λ absent. absurd (ground (arith, here)))
      (λ vs found. record {
        returns = refl;
        lists = λ other. ground (
          arith,
          lookup-set (normalize other) (normalize name) (vs ++ value ∷ []) h.as_list,
          bytes_eq→eq (normalize other) (normalize name),
        );
      })

-- On headers that are well formed, adding a value puts it at the end of the list of the name, in
-- whatever case the name is asked for, and changes the list of no other name; it does not raise.
pub add-Adds :
    (name value : Bytes) (h : Headers) → IsWellFormed h → Adds name value h (add name value h)
unfolding add add_normal get_item
add-Adds name value h w =
    let key = normalize name in
    option_intro (Adds name value h) (lookup (normalize key) h.dict) _ _
      (λ absent.
        set_item-Adds name value h
          (unlisted key h w (ap (λ k. lookup k h.dict) (sym (normalize_twice name)) ∙ absent)))
      (λ old found.
        let l =
          listed key old h w (ap (λ k. lookup k h.dict) (sym (normalize_twice name)) ∙ found) in
        append_value-Adds name value (old ++ (44 ∷ value)) l.0 h l.1.0)
  where
    unlisted :
        (key : Bytes) (h : Headers)
        → IsWellFormed h
        → lookup key h.dict ≡ none
        → lookup key h.as_list ≡ none
    unlisted key h w absent = ground (arith, w.joined key)
