-- ===== src/HttpUtil/Params/Split.antt =====
-- tornado/httputil.py: `_parseparam` splits a header at the semicolons outside quotes.
use tornado3_1_1_search.Base.{
  take-length, drop-length, ℕ, zero, suc, ◌+◌, ◌-◌, ◌≤◌, ◌<◌, ◌≡◌, ◌≢◌, refl, ap, sym, ◌∙◌, true,
  false, ◌&&◌, Option, none, some, List, [], ◌∷◌, ◌++◌, map, ltb, ◌==◌, if_intro, Bytes, length,
  take, drop, get_elem?, find, find_from, strip, starts_with, arith, Each, take-append_le,
  length-append, Bool-cases, inl, inr, ◌⊎◌, lt→ltb, ltb→lt, ltb→le,
}
use mathlib.Core.Option
use tornado3_1_1_search.HttpUtil.Params.{
  odd_quotes, end_loop, param_end, parseparam_loop, parseparam,
}

-- A text that can stand between two semicolons: it has an even number of quotes, and each semicolon
-- in it is behind its first character and behind an odd number of quotes.
pub record IsParam (p : Bytes) : Type 0 where
  pub closed : odd_quotes p ≡ false
  pub inside : (i : ℕ) → get_elem? p i ≡ some 59 → (0 < i) × (odd_quotes (take i p) ≡ true)

-- The parameters, each behind a semicolon.
unfoldable pub param_text : List Bytes → Bytes
param_text [] = []
param_text (p ∷ ps) = 59 ∷ p ++ param_text ps

-- Where the first semicolon at or behind `start` is.
Next : ℕ → Bytes → Option ℕ → Type 0
Next start s none = (i : ℕ) → start ≤ i → get_elem? s i ≢ some 59
Next start s (some n) =
    (start ≤ n)
    × (get_elem? s n ≡ some 59)
    × ((i : ℕ) → start ≤ i → i < n → get_elem? s i ≢ some 59)

Next-suc :
    (c : ℕ) (s : Bytes) (o : Option ℕ)
    → (59 == c) ≡ false
    → Next 0 s o
    → Next 0 (c ∷ s) (Option.map suc o)
unfolding Next
Next-suc c s none e h = at
  where
    at : (i : ℕ) → 0 ≤ i → get_elem? (c ∷ s) i ≢ some 59
    at zero k q = ground (arith, e, q)
    at (suc i) k q = h i (omega arith) q
Next-suc c s (some n) e h = (omega arith, h.1, at)
  where
    at : (i : ℕ) → 0 ≤ i → i < suc n → get_elem? (c ∷ s) i ≢ some 59
    at zero k l q = ground (arith, e, q)
    at (suc i) k l q = h.2 i (omega arith) (omega arith) q

Next-here : (s : Bytes) → Next 0 (59 ∷ s) (some 0)
unfolding Next
Next-here s = (omega arith, refl, λ i k l q. absurd (omega arith))

find-Next : (s : Bytes) → Next 0 s (find (59 ∷ []) s)
unfolding find starts_with
find-Next [] = unfold Next in λ i k q. ground arith
find-Next (c ∷ s) =
    if_intro (λ (o : Option ℕ). Next 0 (c ∷ s) o) (59 == c && true) (some 0)
      (Option.map suc (find (59 ∷ []) s))
      (λ e. let at : c ≡ 59 = ground (arith, e) in rw at (Next-here s))
      (λ e. Next-suc c s (find (59 ∷ []) s) (ground (arith, e)) (find-Next s))

get_elem?-drop : (n : ℕ) (s : Bytes) (i : ℕ) → get_elem? (drop n s) i ≡ get_elem? s (n + i)
get_elem?-drop zero s i = let e : i ≡ 0 + i = omega arith in ap (get_elem? s) e
get_elem?-drop (suc n) [] i = refl
get_elem?-drop (suc n) (c ∷ s) i =
    let e : suc (n + i) ≡ suc n + i = omega arith in get_elem?-drop n s i ∙ ap (get_elem? (c ∷ s)) e

at-drop :
    (start i : ℕ) (s : Bytes) → start ≤ i → get_elem? (drop start s) (i - start) ≡ get_elem? s i
at-drop start i s k =
    let e : start + (i - start) ≡ i = omega arith in
    get_elem?-drop start s (i - start) ∙ ap (get_elem? s) e

Next-drop :
    (start : ℕ) (s : Bytes) (o : Option ℕ)
    → Next 0 (drop start s) o
    → Next start s (Option.map (λ i. start + i) o)
unfolding Next
Next-drop start s none h = λ i k q. h (i - start) (omega arith) (at-drop start i s k ∙ q)
Next-drop start s (some n) h = (
  omega arith,
  sym (get_elem?-drop start s n) ∙ h.1,
  λ i k l q. h.2 (i - start) (omega arith) (omega arith) (at-drop start i s k ∙ q),
)

find_from-Next : (start : ℕ) (s : Bytes) → Next start s (find_from (59 ∷ []) start s)
unfolding find_from
find_from-Next start s =
    Next-drop start s (find (59 ∷ []) (drop start s)) (find-Next (drop start s))

-- What follows a parameter: nothing, or a semicolon.
abbrev IsTail : Bytes → Type 0
IsTail tail = (tail ≡ []) ⊎ (get_elem? tail 0 ≡ some 59)

get_elem?-left : (p tail : Bytes) (i : ℕ) → i < length p → get_elem? (p ++ tail) i ≡ get_elem? p i
get_elem?-left [] tail i k = absurd (omega arith)
get_elem?-left (c ∷ p) tail zero k = refl
get_elem?-left (c ∷ p) tail (suc i) k = get_elem?-left p tail i (omega arith)

get_elem?-right : (p tail : Bytes) → get_elem? (p ++ tail) (length p) ≡ get_elem? tail 0
get_elem?-right [] tail = refl
get_elem?-right (c ∷ p) tail = get_elem?-right p tail

-- What `end_loop` gives for a parameter and what follows it.
Ends : Bytes → Bytes → Option ℕ → Type 0
Ends p tail none = tail ≡ []
Ends p tail (some n) = n ≡ length p

get_elem?-lt : (s : Bytes) (i c : ℕ) → get_elem? s i ≡ some c → i < length s
get_elem?-lt [] i c h = ground (arith, h)
get_elem?-lt (d ∷ s) zero c h = omega arith
get_elem?-lt (d ∷ s) (suc i) c h = omega (arith, get_elem?-lt s i c h)

module _ (p tail : Bytes) (w : IsParam p) (t : IsTail tail) where
  stop_le :
      (n : ℕ)
      → get_elem? (p ++ tail) n ≡ some 59
      → ((get_elem? tail 0 ≡ some 59) → n ≤ length p)
      → n ≤ length p
  stop_le n e f = elim t [
    | inl nil ↦ omega (arith, get_elem?-lt (p ++ tail) n 59 e, length-append p tail, ap length nil)
    | inr semicolon ↦ f semicolon
  ]

  first_le : (start n : ℕ) → start ≤ length p → Next start (p ++ tail) (some n) → n ≤ length p
  unfolding Next
  first_le start n k h = stop_le n h.1 (λ semicolon. elim (Bool-cases (ltb (length p) n)) [
    | inl e ↦ absurd (h.2 (length p) k (ltb→lt (length p) n e) (get_elem?-right p tail ∙ semicolon))
    | inr e ↦ ltb→le (length p) n e
  ])

  inside-true :
      (n : ℕ)
      → n < length p
      → get_elem? (p ++ tail) n ≡ some 59
      → (ltb 0 n && odd_quotes (take n (p ++ tail))) ≡ true
  inside-true n l e =
      let i = w.inside n (sym (get_elem?-left p tail n l) ∙ e) in
      rw (lt→ltb 0 n i.0) (ap odd_quotes (take-append_le n p tail (omega arith)) ∙ i.1)

  again :
      (n : ℕ) → n ≤ length p → (ltb 0 n && odd_quotes (take n (p ++ tail))) ≡ true → n < length p
  again n l e = elim (Bool-cases (ltb n (length p))) [
    | inl less ↦ ltb→lt n (length p) less
    | inr more ↦
        let at : n ≡ length p = omega (arith, ltb→le n (length p) more) in
        let whole : odd_quotes (take n (p ++ tail)) ≡ false =
          rw at (ap odd_quotes (take-length p tail) ∙ w.closed) in
        absurd (ground (arith, e, whole))
  ]

  end_loop-Ends :
      (fuel start : ℕ) (o : Option ℕ)
      → start ≤ length p
      → length p ≤ start + fuel
      → Next start (p ++ tail) o
      → Ends p tail (end_loop fuel (p ++ tail) o)
  unfolding end_loop Next Ends
  end_loop-Ends zero start none k l h = elim t [
    | inl e ↦ e
    | inr e ↦ absurd (h (length p) k (get_elem?-right p tail ∙ e))
  ]
  end_loop-Ends zero start (some n) k l h = omega (arith, first_le start n k h, h.0)
  end_loop-Ends (suc fuel) start none k l h = elim t [
    | inl e ↦ e
    | inr e ↦ absurd (h (length p) k (get_elem?-right p tail ∙ e))
  ]
  end_loop-Ends (suc fuel) start (some n) k l h =
      if_intro (Ends p tail) (ltb 0 n && odd_quotes (take n (p ++ tail))) _ (some n)
        (λ e.
          let inner : n < length p = again n (first_le start n k h) e in
          end_loop-Ends fuel (n + 1) (find_from (59 ∷ []) (n + 1) (p ++ tail)) (omega arith)
            (omega arith) (find_from-Next (n + 1) (p ++ tail)))
        (λ e. elim (Bool-cases (ltb n (length p))) [
          | inl less ↦ absurd (ground (arith, e, inside-true n (ltb→lt n (length p) less) h.1))
          | inr more ↦ omega (arith, ltb→le n (length p) more, first_le start n k h)
        ])

  ends :
      (o : Option ℕ)
      → Ends p tail o
      → (elim o [ none ↦ length (p ++ tail) | some end ↦ end ]) ≡ length p
  unfolding Ends
  ends none e = omega (arith, length-append p tail, ap length e)
  ends (some n) e = e

  param_end-IsParam : param_end (p ++ tail) ≡ length p
  unfolding param_end
  param_end-IsParam =
      ends (end_loop (length (p ++ tail)) (p ++ tail) (find (59 ∷ []) (p ++ tail))) (
        end_loop-Ends (length (p ++ tail)) 0 (find (59 ∷ []) (p ++ tail)) (omega arith)
          (omega (arith, length-append p tail)) (find-Next (p ++ tail)))

param_text-IsTail : (ps : List Bytes) → IsTail (param_text ps)
unfolding param_text
param_text-IsTail [] = inl refl
param_text-IsTail (p ∷ ps) = inr refl

parseparam_loop-text :
    (fuel : ℕ) (ps : List Bytes)
    → length (param_text ps) ≤ fuel
    → Each IsParam ps
    → parseparam_loop fuel (param_text ps) ≡ map strip ps
unfolding parseparam_loop param_text
parseparam_loop-text zero [] l w = refl
parseparam_loop-text zero (p ∷ ps) l w = absurd (omega arith)
parseparam_loop-text (suc fuel) [] l w = refl
parseparam_loop-text (suc fuel) (p ∷ ps) l w =
    let e = param_end-IsParam p (param_text ps) w.0 (param_text-IsTail ps) in
    rw (e, take-length p (param_text ps), drop-length p (param_text ps))
      (ap (λ qs. strip p ∷ qs)
        (parseparam_loop-text fuel ps (omega (arith, length-append p (param_text ps))) w.1))

-- Parameters that stand each behind a semicolon are split into these parameters, without the spaces
-- around them, if each has an even number of quotes that no backslash stands before, and each
-- semicolon in it is behind its first character and an odd number of such quotes.
pub parseparam-param_text :
    (ps : List Bytes) → Each IsParam ps → parseparam (param_text ps) ≡ map strip ps
unfolding parseparam
parseparam-param_text ps w = parseparam_loop-text (length (param_text ps)) ps (omega arith) w
