-- ===== src/HttpUtil/Params/Balance.antt =====
-- tornado/httputil.py: parameters that are written with quotes can stand between semicolons.
use tornado3_1_1_search.Base.{
  ℕ, suc, ◌+◌, ◌≡◌, refl, ap, sym, ◌∙◌, true, false, ◌==◌, List, [], ◌∷◌, ◌++◌, Bytes, length,
  count, split_on, split_from, split_from-here, split_from-other, starts_with, arith, Each, subst,
  if◌then◌else◌, Bool-cases, inl, inr,
}
use tornado3_1_1_search.HttpUtil.Params.Quoting.{escape}

abbrev pub quote : Bytes
quote = 34 ∷ []

abbrev pub escaped : Bytes
escaped = 92 ∷ 34 ∷ []

-- No semicolon and no quote
abbrev pub IsPlain : Bytes → Type 0
IsPlain s = Each (λ c. ((c == 59) ≡ false) × ((c == 34) ≡ false)) s

-- The last character is no backslash.
abbrev pub IsEnded : Bytes → Type 0
IsEnded [] = Unit
IsEnded (c ∷ []) = (c == 92) ≡ false
IsEnded (c ∷ d ∷ v) = IsEnded (d ∷ v)

pub quotes : Bytes → ℕ
quotes [] = 0
quotes (c ∷ v) = let rest = quotes v in if c == 34 then suc rest else rest

pub count-other :
    (sep : Bytes) (c : ℕ) (s : Bytes)
    → starts_with sep (c ∷ s) ≡ false
    → count sep (c ∷ s) ≡ count sep s
unfolding count split_on
count-other sep c s e = ap (λ (p : Bytes × List Bytes). length p.1) (split_from-other sep c s e)

count-quote : (s : Bytes) → count quote (34 ∷ s) ≡ suc (count quote s)
unfolding count split_on
count-quote s =
    ap (λ (p : Bytes × List Bytes). length p.1)
      (split_from-here quote 34 s (unfold starts_with in refl))

count-escaped : (s : Bytes) → count escaped (92 ∷ 34 ∷ s) ≡ suc (count escaped s)
unfolding count split_on split_from
count-escaped s =
    ap (λ (p : Bytes × List Bytes). length p.1)
      (split_from-here escaped 92 (34 ∷ s) (unfold starts_with in refl))

pub no_quote : (c : ℕ) (s : Bytes) → (c == 34) ≡ false → starts_with quote (c ∷ s) ≡ false
unfolding starts_with
no_quote c s e = ground (arith, e)

no_escaped : (c : ℕ) (s : Bytes) → (c == 92) ≡ false → starts_with escaped (c ∷ s) ≡ false
unfolding starts_with
no_escaped c s e = ground (arith, e)

no_quote_behind :
    (c : ℕ) (s : Bytes) → starts_with quote s ≡ false → starts_with escaped (c ∷ s) ≡ false
unfolding starts_with
no_quote_behind c [] e = ground arith
no_quote_behind c (d ∷ s) e = ground (arith, e)

plain-no_quote :
    (name s : Bytes)
    → IsPlain name
    → starts_with quote s ≡ false
    → starts_with quote (name ++ s) ≡ false
plain-no_quote [] s w e = e
plain-no_quote (c ∷ name) s w e = no_quote c (name ++ s) w.0.1

-- A plain text in front changes neither count.
count-quote_plain : (name s : Bytes) → IsPlain name → count quote (name ++ s) ≡ count quote s
count-quote_plain [] s w = refl
count-quote_plain (c ∷ name) s w =
    count-other quote c (name ++ s) (no_quote c (name ++ s) w.0.1) ∙ count-quote_plain name s w.1

count-escaped_plain :
    (name s : Bytes)
    → IsPlain name
    → starts_with quote s ≡ false
    → count escaped (name ++ s) ≡ count escaped s
count-escaped_plain [] s w e = refl
count-escaped_plain (c ∷ name) s w e =
    count-other escaped c (name ++ s) (no_quote_behind c (name ++ s) (plain-no_quote name s w.1 e))
    ∙ count-escaped_plain name s w.1 e

escape_quote : (v : Bytes) → escape (34 ∷ v) ≡ 92 ∷ 34 ∷ escape v
unfolding escape
escape_quote v = refl

escape_backslash : (v : Bytes) → escape (92 ∷ v) ≡ 92 ∷ 92 ∷ escape v
unfolding escape
escape_backslash v = refl

pub escape_other :
    (c : ℕ) (v : Bytes) → (c == 92) ≡ false → (c == 34) ≡ false → escape (c ∷ v) ≡ c ∷ escape v
unfolding escape
escape_other c v e f = rw (e, f) refl

-- What a character of a value is.
pub data Kind : ℕ → Type 0 where
  backslash : Kind 92
  a_quote : Kind 34
  other : (c : ℕ) → (c == 92) ≡ false → (c == 34) ≡ false → Kind c

pub to-Kind : (c : ℕ) → Kind c
to-Kind c = elim (Bool-cases (c == 92)) [
  | inl e ↦ let at : c ≡ 92 = ground (arith, e) in subst Kind (sym at) backslash
  | inr e ↦ elim (Bool-cases (c == 34)) [
    | inl f ↦ let at : c ≡ 34 = ground (arith, f) in subst Kind (sym at) a_quote
    | inr f ↦ other c e f
  ]
]

escape_head : (c : ℕ) (v tail : Bytes) → Kind c → starts_with quote (escape (c ∷ v) ++ tail) ≡ false
unfolding starts_with
escape_head _ v tail backslash = rw (escape_backslash v) refl
escape_head _ v tail a_quote = rw (escape_quote v) refl
escape_head _ v tail (other c e f) = rw (escape_other c v e f) (no_quote c (escape v ++ tail) f)

escape-no_quote :
    (v tail : Bytes) → starts_with quote tail ≡ false → starts_with quote (escape v ++ tail) ≡ false
unfolding escape
escape-no_quote [] tail e = e
escape-no_quote (c ∷ v) tail e = escape_head c v tail (to-Kind c)

count-quote_at :
    (c : ℕ) (v tail : Bytes) (n : ℕ)
    → Kind c
    → count quote (escape v ++ tail) ≡ quotes v + n
    → count quote (escape (c ∷ v) ++ tail) ≡ quotes (c ∷ v) + n
unfolding quotes
count-quote_at _ v tail n backslash e =
    let s = escape v ++ tail in
    rw (escape_backslash v) (
      count-other quote 92 (92 ∷ s) (no_quote 92 (92 ∷ s) refl)
      ∙ count-other quote 92 s (no_quote 92 s refl)
      ∙ e)
count-quote_at _ v tail n a_quote e =
    let s = escape v ++ tail in
    let more : suc (quotes v + n) ≡ suc (quotes v) + n = omega arith in
    rw (escape_quote v)
      (count-other quote 92 (34 ∷ s) (no_quote 92 (34 ∷ s) refl) ∙ count-quote s ∙ ap suc e ∙ more)
count-quote_at _ v tail n (other c b q) e =
    let s = escape v ++ tail in
    rw (escape_other c v b q) (count-other quote c s (no_quote c s q) ∙ e ∙ rw q refl)

pub count-quote-escape :
    (v tail : Bytes) → count quote (escape v ++ tail) ≡ quotes v + count quote tail
unfolding quotes escape
count-quote-escape [] tail = omega arith
count-quote-escape (c ∷ v) tail =
    count-quote_at c v tail (count quote tail) (to-Kind c) (count-quote-escape v tail)

-- No quote stands behind the backslashes of a backslash.
pub IsSafe : Bytes → Bytes → Type 0
IsSafe [] tail = Unit
IsSafe (c ∷ v) tail =
    ((c == 92) ≡ true → starts_with quote (escape v ++ tail) ≡ false) × IsSafe v tail

pub IsEnded-IsSafe : (v tail : Bytes) → IsEnded v → IsSafe v tail
unfolding IsSafe
IsEnded-IsSafe [] tail h = tt
IsEnded-IsSafe (c ∷ []) tail h = (λ e. absurd (ground (arith, e, h)), tt)
IsEnded-IsSafe (c ∷ d ∷ v) tail h =
    (λ e. escape_head d v tail (to-Kind d), IsEnded-IsSafe (d ∷ v) tail h)

pub no_quote-IsSafe : (v tail : Bytes) → starts_with quote tail ≡ false → IsSafe v tail
unfolding IsSafe
no_quote-IsSafe [] tail h = tt
no_quote-IsSafe (c ∷ v) tail h = (λ e. escape-no_quote v tail h, no_quote-IsSafe v tail h)

count-escaped_at :
    (c : ℕ) (v tail : Bytes) (n : ℕ)
    → Kind c
    → ((c == 92) ≡ true → starts_with quote (escape v ++ tail) ≡ false)
    → count escaped (escape v ++ tail) ≡ quotes v + n
    → count escaped (escape (c ∷ v) ++ tail) ≡ quotes (c ∷ v) + n
unfolding quotes
count-escaped_at _ v tail n backslash h e =
    let s = escape v ++ tail in
    rw (escape_backslash v) (
      count-other escaped 92 (92 ∷ s) (no_quote_behind 92 (92 ∷ s) (no_quote 92 s refl))
      ∙ count-other escaped 92 s (no_quote_behind 92 s (h refl))
      ∙ e)
count-escaped_at _ v tail n a_quote h e =
    let more : suc (quotes v + n) ≡ suc (quotes v) + n = omega arith in
    rw (escape_quote v) (count-escaped (escape v ++ tail) ∙ ap suc e ∙ more)
count-escaped_at _ v tail n (other c b q) h e =
    let s = escape v ++ tail in
    rw (escape_other c v b q) (count-other escaped c s (no_escaped c s b) ∙ e ∙ rw q refl)

pub count-escaped-escape :
    (v tail : Bytes)
    → IsSafe v tail
    → count escaped (escape v ++ tail) ≡ quotes v + count escaped tail
unfolding quotes escape IsSafe
count-escaped-escape [] tail h = omega arith
count-escaped-escape (c ∷ v) tail h =
    count-escaped_at c v tail (count escaped tail) (to-Kind c) h.0 (count-escaped-escape v tail h.1)

-- A name and the quote that opens its value
module _ (name s : Bytes) (w : IsPlain name) where
  abbrev pub opening : Bytes
  opening = 32 ∷ (name ++ 61 ∷ 34 ∷ s)

  pub opening-quotes : count quote opening ≡ suc (count quote s)
  opening-quotes =
      let t = 61 ∷ 34 ∷ s in
      count-other quote 32 (name ++ t) (no_quote 32 (name ++ t) refl)
      ∙ count-quote_plain name t w
      ∙ count-other quote 61 (34 ∷ s) (no_quote 61 (34 ∷ s) refl)
      ∙ count-quote s

  pub opening-escaped : count escaped opening ≡ count escaped s
  opening-escaped =
      let t = 61 ∷ 34 ∷ s in
      count-other escaped 32 (name ++ t) (no_escaped 32 (name ++ t) refl)
      ∙ count-escaped_plain name t w (no_quote 61 (34 ∷ s) refl)
      ∙ count-other escaped 61 (34 ∷ s) (no_escaped 61 (34 ∷ s) refl)
      ∙ count-other escaped 34 s (no_escaped 34 s refl)
