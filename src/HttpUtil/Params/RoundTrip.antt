-- ===== src/HttpUtil/Params/RoundTrip.antt =====
-- tornado/httputil.py: `_parse_header` reads back a header that is written with its parameters.
use tornado3_1_1_search.Base.{
  ℕ, suc, ◌+◌, ◌≡◌, refl, ap, sym, ◌∙◌, false, some, none, List, [], ◌∷◌, ◌++◌, map, ◌==◌, Option,
  Bytes, length, take, drop, take-length, subst, find, strip, is_space, Each, append_assoc, Dict,
  set, lower, find-char, strip-ends, lstrip, arith,
}
use tornado3_1_1_search.HttpUtil.Params.{unquote, add_param, add_params, with_key, parse_header}
use tornado3_1_1_search.HttpUtil.Params.Split.{IsParam, param_text, parseparam-param_text}
use tornado3_1_1_search.HttpUtil.Params.Balance.{IsPlain, IsEnded}
use tornado3_1_1_search.HttpUtil.Params.Written.{written-IsParam, plain-IsParam}
use tornado3_1_1_search.HttpUtil.Params.Quoting.{escape, quoted, unquote-quoted}

-- A name that can stand before an equals sign.
pub record IsName (name : Bytes) : Type 0 where
  pub starts : (c : ℕ) × ((s : Bytes) × ((name ≡ c ∷ s) × (is_space c ≡ false)))
  pub no_equals : Each (λ d. (61 == d) ≡ false) name

-- ` name="value"`
unfoldable pub piece : Bytes × Bytes → Bytes
piece entry = 32 ∷ entry.0 ++ 61 ∷ quoted entry.1

pub params_text : Bytes → List (Bytes × Bytes) → Bytes
params_text key entries = key ++ param_text (map piece entries)

-- The names in small letters, each with its value; a later one replaces an earlier one.
unfoldable pub put_all : List (Bytes × Bytes) → Dict Bytes → Dict Bytes
put_all [] pdict = pdict
put_all (entry ∷ entries) pdict = put_all entries (set (map lower (strip entry.0)) entry.1 pdict)

strip-quoted : (v : Bytes) → strip (quoted v) ≡ quoted v
unfolding quoted is_space
strip-quoted v = strip-ends 34 (escape v) 34 refl refl

strip-space : (s : Bytes) → strip (32 ∷ s) ≡ strip s
unfolding strip lstrip is_space
strip-space s = refl

strip-piece :
    (entry : Bytes × Bytes) → IsName entry.0 → strip (piece entry) ≡ entry.0 ++ 61 ∷ quoted entry.1
unfolding piece quoted is_space
strip-piece entry w =
    let c = w.starts.0 in
    let s = w.starts.1.0 in
    strip-space (entry.0 ++ 61 ∷ quoted entry.1)
    ∙ subst (λ name. strip (name ++ 61 ∷ quoted entry.1) ≡ name ++ 61 ∷ quoted entry.1)
        (sym w.starts.1.1.0)
        (subst (λ t. strip (c ∷ t) ≡ c ∷ t) (append_assoc s (61 ∷ 34 ∷ escape entry.1) (34 ∷ []))
          (strip-ends c (s ++ 61 ∷ 34 ∷ escape entry.1) 34 w.starts.1.1.1 refl))

abbrev at_equals : Bytes → Dict Bytes → Option ℕ → Dict Bytes
at_equals p pdict none = pdict
at_equals p pdict (some i) =
    set (map lower (strip (take i p))) (unquote (strip (drop (i + 1) p))) pdict

add_param-at_equals :
    (p : Bytes) (pdict : Dict Bytes) → add_param p pdict ≡ at_equals p pdict (find (61 ∷ []) p)
unfolding add_param
add_param-at_equals p pdict = at (find (61 ∷ []) p)
  where
    at :
        (o : Option ℕ)
        → (elim o [
          | none ↦ pdict
          | some i ↦ set (map lower (strip (take i p))) (unquote (strip (drop (i + 1) p))) pdict
        ])
          ≡ at_equals p pdict o
    at none = refl
    at (some i) = refl

drop-equals : (name value : Bytes) → drop (length name + 1) (name ++ 61 ∷ value) ≡ value
drop-equals [] value = refl
drop-equals (c ∷ name) value =
    let e : suc (length name) + 1 ≡ suc (length name + 1) = omega arith in
    ap (λ n. drop n (c ∷ name ++ 61 ∷ value)) e ∙ drop-equals name value

add_param-name :
    (name v : Bytes) (pdict : Dict Bytes)
    → Each (λ d. (61 == d) ≡ false) name
    → add_param (name ++ 61 ∷ quoted v) pdict ≡ set (map lower (strip name)) v pdict
add_param-name name v pdict w =
    add_param-at_equals (name ++ 61 ∷ quoted v) pdict
    ∙ ap (at_equals (name ++ 61 ∷ quoted v) pdict) (find-char 61 name (quoted v) w)
    ∙ ap
        (λ s.
          set (map lower (strip s))
            (unquote (strip (drop (length name + 1) (name ++ 61 ∷ quoted v)))) pdict)
        (take-length name (61 ∷ quoted v))
    ∙ ap (λ s. set (map lower (strip name)) s pdict)
        (ap (λ s. unquote (strip s)) (drop-equals name (quoted v))
          ∙ ap unquote (strip-quoted v)
          ∙ unquote-quoted v)

add_params-pieces :
    (entries : List (Bytes × Bytes)) (pdict : Dict Bytes)
    → Each (λ entry. IsName entry.0) entries
    → add_params (map strip (map piece entries)) pdict ≡ put_all entries pdict
unfolding add_params put_all
add_params-pieces [] pdict w = refl
add_params-pieces (entry ∷ entries) pdict w =
    ap (add_params (map strip (map piece entries))) (
      ap (λ p. add_param p pdict) (strip-piece entry w.0)
      ∙ add_param-name entry.0 entry.1 pdict w.0.no_equals)
    ∙ add_params-pieces entries _ w.1

-- A parameter that can be written: its name has no semicolon, no quote and no equals sign and starts
-- with no space, and its value does not end with a backslash.
pub record IsWritable (entry : Bytes × Bytes) : Type 0 where
  pub name : IsName entry.0
  pub plain : IsPlain entry.0
  pub ended : IsEnded entry.1

pieces-IsParam :
    (entries : List (Bytes × Bytes)) → Each IsWritable entries → Each IsParam (map piece entries)
unfolding piece
pieces-IsParam [] w = tt
pieces-IsParam (entry ∷ entries) w =
    (written-IsParam entry.0 entry.1 w.0.plain w.0.ended, pieces-IsParam entries w.1)

names-IsName :
    (entries : List (Bytes × Bytes))
    → Each IsWritable entries
    → Each (λ entry. IsName entry.0) entries
names-IsName [] w = tt
names-IsName (entry ∷ entries) w = (w.0.name, names-IsName entries w.1)

-- A header that is written as a key and parameters, each as `; name="value"` with a backslash before
-- the quotes and the backslashes of the value, is read back as the key without the spaces around it
-- and the values under the names in small letters, where a later one replaces an earlier one. The
-- key has no semicolon and no quote. Neither have the names, which start with no space and have no
-- equals sign. A value may have any characters in it, but it does not end with a backslash.
pub parse_header-params_text :
    (key : Bytes) (entries : List (Bytes × Bytes))
    → IsPlain key
    → Each IsWritable entries
    → parse_header (params_text key entries) ≡ (strip key, put_all entries [])
unfolding parse_header with_key params_text param_text
parse_header-params_text key entries k w =
    ap with_key (
      parseparam-param_text (key ∷ map piece entries)
        (plain-IsParam key k, pieces-IsParam entries w))
    ∙ ap (λ d. (strip key, d)) (add_params-pieces entries [] (names-IsName entries w))
