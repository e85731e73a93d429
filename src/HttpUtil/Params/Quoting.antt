-- ===== src/HttpUtil/Params/Quoting.antt =====
-- tornado/httputil.py: what `_parse_header` makes of parameters that are written with quotes.
use tornado3_1_1_search.Base.{
  take-length, drop-length, ℕ, suc, ◌-◌, ◌≡◌, refl, ap, ◌∙◌, true, false, List, [], ◌∷◌, ◌++◌, leb,
  ◌==◌, if◌then◌else◌, if_intro, Bytes, length, replace, split_from, split_on, join_rest,
  starts_with, split_from-here, split_from-other, ends_with, arith, length-append, bytes_eq,
}
use tornado3_1_1_search.HttpUtil.Params.{unquote}

-- A value with a backslash before each quote and each backslash.
unfoldable pub escape : Bytes → Bytes
escape [] = []
escape (c ∷ v) =
    if c == 92 then 92 ∷ 92 ∷ escape v else (if c == 34 then 92 ∷ 34 ∷ escape v else c ∷ escape v)

-- The value once the backslashes are undone.
half : Bytes → Bytes
half [] = []
half (c ∷ v) = if c == 34 then 92 ∷ 34 ∷ half v else c ∷ half v

starts_with_pair : (a b : ℕ) (s : Bytes) → starts_with (a ∷ b ∷ []) (a ∷ b ∷ s) ≡ true
unfolding starts_with
starts_with_pair a b s = ground arith

pieces_text : Bytes → Bytes × List Bytes → Bytes
unfolding join_rest
pieces_text new pieces = pieces.0 ++ join_rest new pieces.1

replace_pair :
    (a b n : ℕ) (s : Bytes)
    → replace (a ∷ b ∷ []) (n ∷ []) (a ∷ b ∷ s) ≡ n ∷ replace (a ∷ b ∷ []) (n ∷ []) s
unfolding replace split_on join_rest split_from pieces_text
replace_pair a b n s =
    ap (pieces_text (n ∷ [])) (split_from-here (a ∷ b ∷ []) a (b ∷ s) (starts_with_pair a b s))

replace_other :
    (a b n c : ℕ) (s : Bytes)
    → starts_with (a ∷ b ∷ []) (c ∷ s) ≡ false
    → replace (a ∷ b ∷ []) (n ∷ []) (c ∷ s) ≡ c ∷ replace (a ∷ b ∷ []) (n ∷ []) s
unfolding replace split_on pieces_text
replace_other a b n c s e = ap (pieces_text (n ∷ [])) (split_from-other (a ∷ b ∷ []) c s e)

replace_nil : (a b n : ℕ) → replace (a ∷ b ∷ []) (n ∷ []) [] ≡ []
unfolding replace split_on join_rest split_from
replace_nil a b n = refl

c_eq : (c d : ℕ) → (c == d) ≡ true → c ≡ d
c_eq c d e = ground (arith, e)

-- The first replacement undoes the backslashes of backslashes.
replace-escape : (v : Bytes) → replace (92 ∷ 92 ∷ []) (92 ∷ []) (escape v) ≡ half v
unfolding escape half starts_with
replace-escape [] = replace_nil 92 92 92
replace-escape (c ∷ v) =
    let rest = replace-escape v in
    if_intro (λ (s : Bytes). replace (92 ∷ 92 ∷ []) (92 ∷ []) s ≡ half (c ∷ v)) (c == 92) _ _
      (λ e. replace_pair 92 92 92 (escape v) ∙ ap (λ s. 92 ∷ s) rest ∙ rw (c_eq c 92 e) refl)
      (λ e.
        if_intro (λ (s : Bytes). replace (92 ∷ 92 ∷ []) (92 ∷ []) s ≡ half (c ∷ v)) (c == 34) _ _
          (λ q.
            replace_other 92 92 92 92 (34 ∷ escape v) refl
            ∙ ap (λ s. 92 ∷ s) (replace_other 92 92 92 34 (escape v) refl ∙ ap (λ s. 34 ∷ s) rest)
            ∙ rw (c_eq c 34 q) refl)
          (λ q.
            replace_other 92 92 92 c (escape v) (ground (arith, e))
            ∙ ap (λ s. c ∷ s) rest
            ∙ rw q refl))

half-no_quote : (v : Bytes) → starts_with (34 ∷ []) (half v) ≡ false
unfolding half starts_with
half-no_quote [] = refl
half-no_quote (c ∷ v) = ground arith

-- The second one undoes those of quotes.
replace-half : (v : Bytes) → replace (92 ∷ 34 ∷ []) (34 ∷ []) (half v) ≡ v
unfolding half starts_with
replace-half [] = replace_nil 92 34 34
replace-half (c ∷ v) =
    let rest = replace-half v in
    if_intro (λ (s : Bytes). replace (92 ∷ 34 ∷ []) (34 ∷ []) s ≡ c ∷ v) (c == 34) _ _
      (λ e. replace_pair 92 34 34 (half v) ∙ ap (λ s. 34 ∷ s) rest ∙ rw (c_eq c 34 e) refl)
      (λ e.
        replace_other 92 34 34 c (half v) (ground (arith, half-no_quote v)) ∙ ap (λ s. c ∷ s) rest)

unfoldable pub quoted : Bytes → Bytes
quoted v = 34 ∷ (escape v ++ 34 ∷ [])

ends_with_quote : (s : Bytes) → ends_with (34 ∷ []) (34 ∷ s ++ 34 ∷ []) ≡ true
unfolding ends_with bytes_eq
ends_with_quote s =
    let e : suc (length (s ++ 34 ∷ [])) - 1 ≡ length (34 ∷ s) =
      omega (arith, length-append s (34 ∷ [])) in
    rw (e, drop-length s (34 ∷ [])) refl

long_enough : (s : Bytes) → leb 2 (suc (length (s ++ 34 ∷ []))) ≡ true
long_enough s = ground (arith, length-append s (34 ∷ []))

-- The value between quotes, with a backslash before each quote and each backslash, is read back.
pub unquote-quoted : (v : Bytes) → unquote (quoted v) ≡ v
unfolding unquote quoted starts_with
unquote-quoted v =
    let e : suc (length (escape v ++ 34 ∷ [])) - 2 ≡ length (escape v) =
      omega (arith, length-append (escape v) (34 ∷ [])) in
    rw
      (
        long_enough (escape v),
        ends_with_quote (escape v),
        e,
        take-length (escape v) (34 ∷ []),
        replace-escape v,
      )
      (replace-half v)
