-- ===== src/Web/Handler/Values.antt =====
-- tornado/web.py: headers whose values cannot end their line.
use tornado3_1_1_search.Base.{
  ◌≡◌, false, Option, none, some, List, [], ◌∷◌, ◌++◌, Bytes, bytes_eq, if_intro, option_intro,
  arith, Dict, lookup, set, remove, Each, Each-append,
}
use tornado3_1_1_search.HttpUtil.{normalize}
use tornado3_1_1_search.HttpUtil.Headers
use tornado3_1_1_search.HttpUtil.Headers.{
  Headers, ok, raised, state, no_headers, get_item, set_item, add, add_normal, append_value,
  del_item, del_list, get_all, all_pairs, pairs,
}
use tornado3_1_1_search.Web.Handler.{IsClean, has_invalid}

-- Every value under every name is clean.
abbrev pub CleanLists : Dict (List Bytes) → Type 0
CleanLists d = Each (λ (entry : Bytes × List Bytes). Each IsClean entry.1) d

abbrev pub CleanHeaders : Headers → Type 0
CleanHeaders h = CleanLists h.as_list

pub has_invalid-IsClean : (value : Bytes) → has_invalid value ≡ false → IsClean value
unfolding has_invalid
has_invalid-IsClean [] e = tt
has_invalid-IsClean (c ∷ value) e =
    let rest : has_invalid value ≡ false = ground (arith, e) in
    (ground (arith, e), has_invalid-IsClean value rest)

set-CleanLists :
    (key : Bytes) (values : List Bytes) (d : Dict (List Bytes))
    → Each IsClean values
    → CleanLists d
    → CleanLists (set key values d)
unfolding set
set-CleanLists key values [] v h = (v, tt)
set-CleanLists key values (entry ∷ d) v h =
    if_intro CleanLists (bytes_eq key entry.0) _ _ (λ e. (v, h.1))
      (λ e. (h.0, set-CleanLists key values d v h.1))

remove-CleanLists : (key : Bytes) (d : Dict (List Bytes)) → CleanLists d → CleanLists (remove key d)
unfolding remove
remove-CleanLists key [] h = tt
remove-CleanLists key (entry ∷ d) h =
    if_intro CleanLists (bytes_eq key entry.0) _ _ (λ e. remove-CleanLists key d h.1)
      (λ e. (h.0, remove-CleanLists key d h.1))

abbrev CleanOption : Option (List Bytes) → Type 0
CleanOption none = Unit
CleanOption (some values) = Each IsClean values

lookup-clean : (key : Bytes) (d : Dict (List Bytes)) → CleanLists d → CleanOption (lookup key d)
unfolding lookup
lookup-clean key [] h = tt
lookup-clean key (entry ∷ d) h =
    if_intro CleanOption (bytes_eq key entry.0) _ _ (λ e. h.0) (λ e. lookup-clean key d h.1)

pub set_item-CleanHeaders :
    (name value : Bytes) (h : Headers)
    → IsClean value
    → CleanHeaders h
    → CleanHeaders (set_item name value h)
unfolding set_item
set_item-CleanHeaders name value h v k =
    set-CleanLists (normalize name) (value ∷ []) h.as_list (v, tt) k

append_value-clean :
    (name value : Bytes) (h : Headers)
    → IsClean value
    → CleanHeaders h
    → CleanHeaders (state (append_value name value h))
unfolding append_value
append_value-clean name value h v k = at (lookup name h.as_list) (lookup-clean name h.as_list k)
  where
    at :
        (o : Option (List Bytes))
        → CleanOption o
        → CleanHeaders (
            state (elim o [
              | none ↦ raised Headers.key_error h
              | some values ↦ ok (record h { as_list = set name (values ++ value ∷ []) h.as_list })
            ]))
    at none c = k
    at (some values) c =
        set-CleanLists name (values ++ value ∷ []) h.as_list
          (Each-append IsClean values (value ∷ []) (c, (v, tt))) k

pub add-CleanHeaders :
    (name value : Bytes) (h : Headers)
    → IsClean value
    → CleanHeaders h
    → CleanHeaders (state (add name value h))
unfolding add add_normal
add-CleanHeaders name value h v k =
    option_intro (λ r. CleanHeaders (state r))
      (get_item (normalize name) (record h { last_key = some (normalize name) })) _ _
      (λ e.
        set_item-CleanHeaders (normalize name) value (record h { last_key = some (normalize name) })
          v k)
      (λ old e. append_value-clean (normalize name) value _ v k)

del_list-clean :
    (name : Bytes) (h : Headers) → CleanHeaders h → CleanHeaders (state (del_list name h))
unfolding del_list
del_list-clean name h k =
    option_intro (λ r. CleanHeaders (state r)) (lookup name h.as_list) _ _ (λ e. k)
      (λ values e. remove-CleanLists name h.as_list k)

pub del_item-CleanHeaders :
    (name : Bytes) (h : Headers) → CleanHeaders h → CleanHeaders (state (del_item name h))
unfolding del_item
del_item-CleanHeaders name h k =
    option_intro (λ r. CleanHeaders (state r)) (lookup (normalize name) h.dict) _ _ (λ e. k)
      (λ value e.
        del_list-clean (normalize name) (record h { dict = remove (normalize name) h.dict }) k)

pairs-IsClean :
    (name : Bytes) (values : List Bytes)
    → Each IsClean values
    → Each (λ (e : Bytes × Bytes). IsClean e.1) (pairs name values)
unfolding pairs
pairs-IsClean name [] h = tt
pairs-IsClean name (value ∷ values) h = (h.0, pairs-IsClean name values h.1)

all_pairs-IsClean :
    (d : Dict (List Bytes)) → CleanLists d → Each (λ (e : Bytes × Bytes). IsClean e.1) (all_pairs d)
unfolding all_pairs
all_pairs-IsClean [] h = tt
all_pairs-IsClean (entry ∷ d) h =
    Each-append (λ (e : Bytes × Bytes). IsClean e.1) (pairs entry.0 entry.1) (all_pairs d)
      (pairs-IsClean entry.0 entry.1 h.0, all_pairs-IsClean d h.1)

pub get_all-IsClean :
    (h : Headers) → CleanHeaders h → Each (λ (e : Bytes × Bytes). IsClean e.1) (get_all h)
unfolding get_all
get_all-IsClean h k = all_pairs-IsClean h.as_list k
