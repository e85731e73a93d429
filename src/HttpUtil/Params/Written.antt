-- ===== src/HttpUtil/Params/Written.antt =====
-- tornado/httputil.py: parameters that are written with quotes can stand between semicolons.
use tornado3_1_1_search.Base.{
  ℕ, zero, suc, ◌+◌, ◌-◌, ◌<◌, ◌≡◌, ◌≢◌, refl, ap, sym, ◌∙◌, true, false, ◌==◌, some, [], ◌∷◌, ◌++◌,
  append-nil, Bytes, take, get_elem?, count, split_on, split_from, starts_with, arith, subst,
}
use tornado3_1_1_search.HttpUtil.Params.{odd_quotes}
use tornado3_1_1_search.HttpUtil.Params.Split.{IsParam}
use tornado3_1_1_search.HttpUtil.Params.Quoting.{escape, quoted}
use tornado3_1_1_search.HttpUtil.Params.Balance.{
  quote, escaped, IsPlain, IsEnded, quotes, Kind, backslash, a_quote, other, to-Kind, escape_other,
  count-other, no_quote, count-quote-escape, count-escaped-escape, IsEnded-IsSafe, no_quote-IsSafe,
  opening, opening-quotes, opening-escaped,
}

-- Where a semicolon stands in a value with quotes, the text before it is escaped too.
abbrev Before : Bytes → ℕ → Type 0
Before t j = (v : Bytes) × (take j t ≡ escape v)

abbrev closing : Bytes → Bytes
closing v = escape v ++ 34 ∷ []

behind_other :
    (c : ℕ) (v t : Bytes) (j : ℕ)
    → (c == 92) ≡ false
    → (c == 34) ≡ false
    → t ≡ c ∷ escape v
    → ((j : ℕ) → get_elem? (closing v) j ≡ some 59 → Before (closing v) j)
    → get_elem? (t ++ 34 ∷ []) j ≡ some 59
    → Before (t ++ 34 ∷ []) j
behind_other c v t zero e f p rec h = ([], unfold escape in refl)
behind_other c v t (suc j) e f p rec h =
    let r = rec j (subst (λ t. get_elem? (t ++ 34 ∷ []) (suc j) ≡ some 59) p h) in
    (
      c ∷ r.0,
      subst (λ t. take (suc j) (t ++ 34 ∷ []) ≡ escape (c ∷ r.0)) (sym p)
          (ap (λ s. c ∷ s) r.1 ∙ sym (escape_other c r.0 e f)),
    )

behind :
    (c : ℕ) (v : Bytes)
    → Kind c
    → ((j : ℕ) → get_elem? (closing v) j ≡ some 59 → Before (closing v) j)
    → (j : ℕ) → get_elem? (closing (c ∷ v)) j ≡ some 59
    → Before (closing (c ∷ v)) j
unfolding escape
behind _ v backslash rec zero h = absurd (ground (arith, h))
behind _ v backslash rec (suc zero) h = absurd (ground (arith, h))
behind _ v backslash rec (suc (suc j)) h = let r = rec j h in (92 ∷ r.0, ap (λ s. 92 ∷ 92 ∷ s) r.1)
behind _ v a_quote rec zero h = absurd (ground (arith, h))
behind _ v a_quote rec (suc zero) h = absurd (ground (arith, h))
behind _ v a_quote rec (suc (suc j)) h = let r = rec j h in (34 ∷ r.0, ap (λ s. 92 ∷ 34 ∷ s) r.1)
behind _ v (other c e f) rec j h =
    behind_other c v (escape (c ∷ v)) j e f (escape_other c v e f) rec h

Before-closing : (v : Bytes) (j : ℕ) → get_elem? (closing v) j ≡ some 59 → Before (closing v) j
unfolding escape
Before-closing [] zero h = absurd (ground (arith, h))
Before-closing [] (suc j) h = absurd (ground (arith, h))
Before-closing (c ∷ v) j h = behind c v (to-Kind c) (Before-closing v) j h

-- A semicolon behind a plain text is in what follows it.
behind_plain :
    (name s : Bytes) (i : ℕ)
    → IsPlain name
    → get_elem? (name ++ s) i ≡ some 59
    → (j : ℕ) × ((get_elem? s j ≡ some 59) × (take i (name ++ s) ≡ name ++ take j s))
behind_plain [] s i w h = (i, (h, refl))
behind_plain (c ∷ name) s zero w h = absurd (ground (arith, h, w.0.0))
behind_plain (c ∷ name) s (suc i) w h =
    let r = behind_plain name s i w.1 h in (r.0, (r.1.0, ap (λ t. c ∷ t) r.1.1))

behind_equals :
    (s : Bytes) (j : ℕ)
    → get_elem? (61 ∷ 34 ∷ s) j ≡ some 59
    → (k : ℕ) × ((get_elem? s k ≡ some 59) × (take j (61 ∷ 34 ∷ s) ≡ 61 ∷ 34 ∷ take k s))
behind_equals s zero h = absurd (ground (arith, h))
behind_equals s (suc zero) h = absurd (ground (arith, h))
behind_equals s (suc (suc k)) h = (k, (h, refl))

count_nil : (sep : Bytes) → count sep [] ≡ 0
unfolding count split_on split_from
count_nil sep = refl

nothing_more : (n : ℕ) → n + 0 ≡ n
nothing_more n = omega arith

count_of :
    (sep u : Bytes)
    → count sep (escape u ++ []) ≡ quotes u + count sep []
    → count sep (escape u) ≡ quotes u
count_of sep u e =
    ap (count sep) (sym (append-nil (escape u)))
    ∙ e
    ∙ ap (λ n. quotes u + n) (count_nil sep)
    ∙ nothing_more (quotes u)

one_quote : count quote quote ≡ 1
unfolding count split_on split_from starts_with
one_quote = refl

no_escape : count escaped quote ≡ 0
unfolding count split_on split_from starts_with
no_escape = refl

module _ (name v : Bytes) (w : IsPlain name) (h : IsEnded v) where
  odd_quotes-opening : (u : Bytes) → odd_quotes (opening name (escape u) w) ≡ true
  unfolding odd_quotes
  odd_quotes-opening u =
      let q : count quote (opening name (escape u) w) ≡ suc (quotes u) =
        opening-quotes name (escape u) w ∙ ap suc (count_of quote u (count-quote-escape u [])) in
      let e : count escaped (opening name (escape u) w) ≡ quotes u =
        opening-escaped name (escape u) w
        ∙ count_of escaped u
            (count-escaped-escape u [] (no_quote-IsSafe u [] (unfold starts_with in refl))) in
      let one : suc (quotes u) - quotes u ≡ 1 = omega arith in rw (q, e, one) refl

  odd_quotes-closed : odd_quotes (opening name (closing v) w) ≡ false
  unfolding odd_quotes
  odd_quotes-closed =
      let q : count quote (opening name (closing v) w) ≡ suc (quotes v + 1) =
        opening-quotes name (closing v) w
        ∙ ap suc (count-quote-escape v quote ∙ ap (λ n. quotes v + n) one_quote) in
      let e : count escaped (opening name (closing v) w) ≡ quotes v =
        opening-escaped name (closing v) w
        ∙ count-escaped-escape v quote (IsEnded-IsSafe v quote h)
        ∙ ap (λ n. quotes v + n) no_escape
        ∙ nothing_more (quotes v) in
      let two : suc (quotes v + 1) - quotes v ≡ 2 = omega arith in rw (q, e, two) refl

  inside :
      (i : ℕ)
      → get_elem? (opening name (closing v) w) i ≡ some 59
      → (0 < i) × (odd_quotes (take i (opening name (closing v) w)) ≡ true)
  inside zero k = absurd (ground (arith, k))
  inside (suc i) k =
      let a = behind_plain name (61 ∷ 34 ∷ closing v) i w k in
      let b = behind_equals (closing v) a.0 a.1.0 in
      let c = Before-closing v b.0 b.1.0 in
      let e : take i (name ++ 61 ∷ 34 ∷ closing v) ≡ name ++ 61 ∷ 34 ∷ escape c.0 =
        a.1.1 ∙ ap (λ s. name ++ s) (b.1.1 ∙ ap (λ s. 61 ∷ 34 ∷ s) c.1) in
      (omega arith, ap (λ s. odd_quotes (32 ∷ s)) e ∙ odd_quotes-opening c.0)

  -- ` name="value"` can stand between semicolons.
  pub written-IsParam : IsParam (32 ∷ name ++ 61 ∷ quoted v)
  unfolding quoted
  written-IsParam = record { closed = odd_quotes-closed; inside = inside }

plain-no_quotes : (s : Bytes) → IsPlain s → count quote s ≡ 0
plain-no_quotes [] w = count_nil quote
plain-no_quotes (c ∷ s) w = count-other quote c s (no_quote c s w.0.1) ∙ plain-no_quotes s w.1

plain-no_semicolon : (s : Bytes) (i : ℕ) → IsPlain s → get_elem? s i ≢ some 59
plain-no_semicolon [] i w h = ground (arith, h)
plain-no_semicolon (c ∷ s) zero w h = ground (arith, h, w.0.0)
plain-no_semicolon (c ∷ s) (suc i) w h = plain-no_semicolon s i w.1 h

pub plain-IsParam : (s : Bytes) → IsPlain s → IsParam s
unfolding odd_quotes
plain-IsParam s w = record {
  closed =
      let none_left : 0 - count escaped s ≡ 0 = omega arith in
      rw (plain-no_quotes s w, none_left) refl;
  inside = λ i h. absurd (plain-no_semicolon s i w h);
}
