-- ===== src/HttpUtil/Headers/Keeps.antt =====
-- tornado/httputil.py: the dictionary and the lists of `HTTPHeaders` agree, whatever is done to them.
use tornado3_1_1_search.Base.{
  ◌≡◌, refl, ap, sym, ◌∙◌, false, some, List, [], ◌∷◌, ◌++◌, append_assoc, append-nil, Bytes,
  is_empty, lookup, set, lookup-set, lookup-remove, Option-cases, inl, inr, option_intro, join_rest,
  arith,
}
use mathlib.Core.Option
use tornado3_1_1_search.HttpUtil.{normalize, normalize_twice}
use tornado3_1_1_search.HttpUtil.Headers.{
  Headers, state, get_item, set_item, del_item, del_list, append_value, add_normal, add,
  extend_last,
}

-- The values of a header in one text.
pub commas : List Bytes → Bytes
unfolding join_rest
commas [] = []
commas (value ∷ values) = value ++ join_rest (44 ∷ []) values

-- Each name has as its text the texts of its list, joined by commas; no list is empty; the key that
-- a continuation line would extend is a normal form.
pub record IsWellFormed (h : Headers) : Type 0 where
  pub joined : (key : Bytes) → lookup key h.dict ≡ Option.map commas (lookup key h.as_list)
  pub filled :
      (key : Bytes) (values : List Bytes)
      → lookup key h.as_list ≡ some values
      → is_empty values ≡ false
  pub last : (key : Bytes) → h.last_key ≡ some key → normalize key ≡ key

join_rest-concat :
    (sep v : Bytes) (vs : List Bytes)
    → join_rest sep (vs ++ v ∷ []) ≡ join_rest sep vs ++ (sep ++ v)
unfolding join_rest
join_rest-concat sep v [] = ap (λ x. sep ++ x) (append-nil v)
join_rest-concat sep v (w ∷ ws) = rw (join_rest-concat sep v ws, append_assoc, append_assoc) refl

pub filled-concat : (v : Bytes) (vs : List Bytes) → is_empty (vs ++ v ∷ []) ≡ false
filled-concat v [] = refl
filled-concat v (w ∷ ws) = refl

pub commas-concat :
    (v : Bytes) (vs : List Bytes)
    → is_empty vs ≡ false
    → commas (vs ++ v ∷ []) ≡ commas vs ++ (44 ∷ v)
unfolding commas
commas-concat v [] h = ground arith
commas-concat v (w ∷ ws) h = rw (join_rest-concat (44 ∷ []) v ws, append_assoc) refl

join_rest-extend_last :
    (sep part v : Bytes) (vs : List Bytes)
    → join_rest sep (extend_last (v ∷ vs) part) ≡ join_rest sep (v ∷ vs) ++ part
unfolding join_rest extend_last
join_rest-extend_last sep part v [] = rw (append-nil v, append-nil (v ++ part), append_assoc) refl
join_rest-extend_last sep part v (w ∷ ws) = simp (join_rest-extend_last sep part w ws, append_assoc)

pub commas-extend_last :
    (part v : Bytes) (vs : List Bytes)
    → commas (extend_last (v ∷ vs) part) ≡ commas (v ∷ vs) ++ part
unfolding commas extend_last
commas-extend_last part v [] = rw (append-nil v, append-nil (v ++ part)) refl
commas-extend_last part v (w ∷ ws) = simp (join_rest-extend_last (44 ∷ []) part w ws, append_assoc)

pub filled-extend_last :
    (part v : Bytes) (vs : List Bytes) → is_empty (extend_last (v ∷ vs) part) ≡ false
unfolding extend_last
filled-extend_last part v [] = refl
filled-extend_last part v (w ∷ ws) = refl

-- Writing a list, and the same in one text, under a key.
pub set-IsWellFormed :
    (key : Bytes) (values : List Bytes) (text : Bytes) (h : Headers)
    → IsWellFormed h
    → is_empty values ≡ false
    → commas values ≡ text
    → IsWellFormed (record h { dict = set key text h.dict; as_list = set key values h.as_list })
set-IsWellFormed key values text h w full same = record {
  joined = λ k.
      ground
        (arith, lookup-set k key text h.dict, lookup-set k key values h.as_list, w.joined k, same);
  filled = λ k vs found. ground (arith, lookup-set k key values h.as_list, w.filled k vs);
  last = w.last;
}

pub set_item-IsWellFormed :
    (name value : Bytes) (h : Headers) → IsWellFormed h → IsWellFormed (set_item name value h)
unfolding set_item commas join_rest
set_item-IsWellFormed name value h w =
    set-IsWellFormed (normalize name) (value ∷ []) value h w refl (append-nil value)

pub del_item-IsWellFormed :
    (name : Bytes) (h : Headers) → IsWellFormed h → IsWellFormed (state (del_item name h))
unfolding del_item del_list
del_item-IsWellFormed name h w =
    let key = normalize name in
    option_intro (λ r. IsWellFormed (state r)) (lookup key h.dict) _ _ (λ absent. w)
      (λ value found.
        option_intro (λ r. IsWellFormed (state r)) (lookup key h.as_list) _ _
          (λ absent. absurd (ground (arith, w.joined key)))
          (λ values listed. record {
            joined = λ k.
                ground
                  (arith, lookup-remove k key h.dict, lookup-remove k key h.as_list, w.joined k);
            filled = λ k vs here. ground (arith, lookup-remove k key h.as_list, w.filled k vs);
            last = w.last;
          }))

-- Where a key has a text, it has a list, and the other way round.
pub listed :
    (key text : Bytes) (h : Headers)
    → IsWellFormed h
    → lookup key h.dict ≡ some text
    → (values : List Bytes) × ((lookup key h.as_list ≡ some values) × (commas values ≡ text))
listed key text h w found = elim (Option-cases (lookup key h.as_list)) [
  | inl e ↦ absurd (ground (arith, w.joined key))
  | inr p ↦ (p.0, (p.1, ground (arith, w.joined key)))
]

append_value-IsWellFormed :
    (key value old : Bytes) (h : Headers)
    → IsWellFormed h
    → lookup key h.dict ≡ some old
    → IsWellFormed
        (state (append_value key value (record h { dict = set key (old ++ (44 ∷ value)) h.dict })))
unfolding append_value
append_value-IsWellFormed key value old h w found =
    let l = listed key old h w found in
    option_intro (λ r. IsWellFormed (state r)) (lookup key h.as_list) _ _
      (λ absent. absurd (ground (arith, l.1.0)))
      (λ values here.
        set-IsWellFormed key (values ++ value ∷ []) (old ++ (44 ∷ value)) h w
          (filled-concat value values)
          (commas-concat value values (w.filled key values here)
            ∙ ap (λ t. t ++ (44 ∷ value)) (ground (arith, here, l.1.0, l.1.1))))

pub add-IsWellFormed :
    (name value : Bytes) (h : Headers) → IsWellFormed h → IsWellFormed (state (add name value h))
unfolding add add_normal get_item
add-IsWellFormed name value h w =
    let key = normalize name in
    let h' : Headers = record h { last_key = some key } in
    let w' : IsWellFormed h' = record {
      joined = w.joined;
      filled = w.filled;
      last = λ k e. ground (arith, normalize_twice name, e);
    } in
    option_intro (λ r. IsWellFormed (state r)) (get_item key h') _ _
      (λ absent. set_item-IsWellFormed key value h' w')
      (λ old found.
        append_value-IsWellFormed key value old h' w'
          (ap (λ k. lookup k h.dict) (sym (normalize_twice name)) ∙ found))
