-- ===== src/Base/Pieces.antt =====
-- The methods of Python's `str` and `bytes` that look for a text of several characters.
use Prim.Native.Nat.{ℕ, zero, suc, ◌+◌, ◌-◌, ◌<◌}
use mathlib.Core.Path.{◌≡◌, ◌∙◌, refl, ap}
use mathlib.Core.Bool.{Bool, true, false}
use mathlib.Core.List.{List, [], ◌∷◌, ◌++◌}
use mathlib.Core.Option
use native.Mathlib.Omega.{arith}
use mathlib.Core.Option.{Option, none, some}
use tornado3_1_1_search.Base.Tests.{if◌then◌else◌, ◌==◌, ==_refl}
use tornado3_1_1_search.Base.Lists.{length, drop, drop-length, length-append, Each}
use tornado3_1_1_search.Base.ByteStrings.{Bytes, starts_with, find, bytes_eq, bytes_eq_refl}
use tornado3_1_1_search.Base.Texts.{join_rest, split, is_space, strip, lstrip, rstrip, keep}

-- `split` once `skip` characters of a separator are still to be left out.
unfoldable pub split_from : Bytes → ℕ → Bytes → Bytes × List Bytes
unfolding starts_with
split_from sep skip [] = ([], [])
split_from sep (suc skip) (c ∷ s) = split_from sep skip s
split_from sep zero (c ∷ s) =
    let here = starts_with sep (c ∷ s) in
    let rest = split_from sep (if here then length sep - 1 else 0) s in
    if here then ([], rest.0 ∷ rest.1) else (c ∷ rest.0, rest.1)

pub split_from-here :
    (sep : Bytes) (c : ℕ) (s : Bytes)
    → starts_with sep (c ∷ s) ≡ true
    → split_from sep 0 (c ∷ s)
      ≡ ([], (split_from sep (length sep - 1) s).0 ∷ (split_from sep (length sep - 1) s).1)
unfolding split_from
split_from-here sep c s e = rw e refl

pub split_from-other :
    (sep : Bytes) (c : ℕ) (s : Bytes)
    → starts_with sep (c ∷ s) ≡ false
    → split_from sep 0 (c ∷ s) ≡ (c ∷ (split_from sep 0 s).0, (split_from sep 0 s).1)
unfolding split_from
split_from-other sep c s e = rw e refl

-- `s.split(sep)`: the first piece, and those that follow.
unfoldable pub split_on : Bytes → Bytes → Bytes × List Bytes
unfolding split_from
split_on sep s = split_from sep 0 s

-- `s.count(sep)`
unfoldable pub count : Bytes → Bytes → ℕ
unfolding split_on
count sep s = length (split_on sep s).1

-- `s.replace(old, new)`
unfoldable pub replace : Bytes → Bytes → Bytes → Bytes
unfolding split_on
replace old new s = let pieces = split_on old s in pieces.0 ++ join_rest new pieces.1

-- `s.find(p, start)`
unfoldable pub find_from : Bytes → ℕ → Bytes → Option ℕ
unfolding find
find_from p start s = Option.map (λ i. start + i) (find p (drop start s))

-- `s.rfind(p)` for `p` that is not empty
unfoldable pub rfind : Bytes → Bytes → Option ℕ
unfolding starts_with
rfind p [] = none
rfind p (c ∷ s) = elim (Option.map suc (rfind p s)) [
  | none ↦ if starts_with p (c ∷ s) then some 0 else none
  | some i ↦ some i
]

-- `s.endswith(p)`
unfoldable pub ends_with : Bytes → Bytes → Bool
unfolding bytes_eq
ends_with p s = bytes_eq (drop (length s - length p) s) p

-- `sep in s`
unfoldable pub has_text : Bytes → Bytes → Bool
unfolding find
has_text p s = elim (find p s) [ none ↦ false | some i ↦ true ]

-- The first place of a character behind a text without it.
pub find-char :
    (c : ℕ) (s rest : Bytes)
    → Each (λ d. (c == d) ≡ false) s
    → find (c ∷ []) (s ++ c ∷ rest) ≡ some (length s)
unfolding find starts_with
find-char c [] rest h = rw (==_refl c) refl
find-char c (d ∷ s) rest h = ground (arith, find-char c s rest h.1, h.0)

pub rstrip-end : (s : Bytes) (c : ℕ) → is_space c ≡ false → rstrip (s ++ c ∷ []) ≡ s ++ c ∷ []
unfolding rstrip keep
rstrip-end [] c e = rw e refl
rstrip-end (d ∷ s) c e = rw (rstrip-end s c e) (at s)
  where
    at : (t : Bytes) → keep d (t ++ c ∷ []) ≡ d ∷ t ++ c ∷ []
    at [] = refl
    at (x ∷ t) = refl

-- A text that starts and ends with other characters than spaces, behind a space or not.
pub strip-ends :
    (b : ℕ) (s : Bytes) (c : ℕ)
    → is_space b ≡ false
    → is_space c ≡ false
    → strip (b ∷ s ++ c ∷ []) ≡ b ∷ s ++ c ∷ []
unfolding strip lstrip
strip-ends b s c e f = rw e (rstrip-end (b ∷ s) c f)

-- The split at a character behind a piece without it, and of a text without it.
pub split-piece :
    (c : ℕ) (s rest : Bytes)
    → Each (λ d. (d == c) ≡ false) s
    → split c (s ++ c ∷ rest) ≡ (s, (split c rest).0 ∷ (split c rest).1)
unfolding split
split-piece c [] rest h = rw (==_refl c) refl
split-piece c (d ∷ s) rest h = rw (h.0, split-piece c s rest h.1) refl

pub split-last : (c : ℕ) (s : Bytes) → Each (λ d. (d == c) ≡ false) s → split c s ≡ (s, [])
unfolding split
split-last c [] h = refl
split-last c (d ∷ s) h = rw (h.0, split-last c s h.1) refl

-- A separator at the start of a text, and a text at the end of another.
pub starts_with-append : (p rest : Bytes) → starts_with p (p ++ rest) ≡ true
unfolding starts_with
starts_with-append [] rest = refl
starts_with-append (c ∷ p) rest = rw (==_refl c) (starts_with-append p rest)

pub split_from-skip :
    (sep p rest : Bytes) → split_from sep (length p) (p ++ rest) ≡ split_from sep 0 rest
unfolding split_from
split_from-skip sep [] rest = refl
split_from-skip sep (c ∷ p) rest = split_from-skip sep p rest

pub split_from-marker :
    (c : ℕ) (p rest : Bytes)
    → split_from (c ∷ p) 0 (c ∷ p ++ rest)
      ≡ ([], (split_from (c ∷ p) 0 rest).0 ∷ (split_from (c ∷ p) 0 rest).1)
split_from-marker c p rest =
    let e : length (c ∷ p) - 1 ≡ length p = omega arith in
    split_from-here (c ∷ p) c (p ++ rest) (starts_with-append (c ∷ p) rest)
    ∙ ap (λ (q : Bytes × List Bytes). ([], q.0 ∷ q.1))
        (ap (λ n. split_from (c ∷ p) n (p ++ rest)) e ∙ split_from-skip (c ∷ p) p rest)

pub starts_with_self : (p : Bytes) → starts_with p p ≡ true
unfolding starts_with
starts_with_self [] = refl
starts_with_self (c ∷ p) = rw (==_refl c) (starts_with_self p)

starts_with-short : (p s : Bytes) → length s < length p → starts_with p s ≡ false
unfolding starts_with
starts_with-short [] s h = absurd (omega arith)
starts_with-short (d ∷ p) [] h = refl
starts_with-short (d ∷ p) (c ∷ s) h = ground (arith, starts_with-short p s (omega arith))

rfind-short : (p s : Bytes) → length s < length p → rfind p s ≡ none
unfolding rfind starts_with
rfind-short p [] h = refl
rfind-short p (c ∷ s) h =
    rw (rfind, rfind-short p s (omega arith)) (rw (starts_with-short p (c ∷ s) h) refl)

pub rfind-end : (c : ℕ) (p s : Bytes) → rfind (c ∷ p) (s ++ c ∷ p) ≡ some (length s)
unfolding rfind
rfind-end c p [] =
    rw (rfind, rfind-short (c ∷ p) p (omega arith)) (rw (starts_with_self (c ∷ p)) refl)
rfind-end c p (d ∷ s) = rw (rfind, rfind-end c p s) refl

pub ends_with-end : (e s : Bytes) → ends_with e (s ++ e) ≡ true
unfolding ends_with
ends_with-end e s =
    let n : length (s ++ e) - length e ≡ length s = omega (arith, length-append s e) in
    rw (n, drop-length s e) (bytes_eq_refl e)
