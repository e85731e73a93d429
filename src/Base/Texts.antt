-- ===== src/Base/Texts.antt =====
-- The methods of Python's `str` that the source calls, on texts as lists of code points. The change
-- of case is that of ASCII, the alphabet of header names.
use Prim.Native.Nat.{ℕ, ◌+◌, ◌-◌}
use mathlib.Core.Bool.{Bool, ◌&&◌, ◌||◌}
use mathlib.Core.List.{List, [], ◌∷◌, ◌++◌, map}
use tornado3_1_1_search.Base.Tests.{leb, ◌==◌, if◌then◌else◌}
use tornado3_1_1_search.Base.ByteStrings.{Bytes, starts_with}

between : ℕ → ℕ → ℕ → Bool
between low high c = leb low c && leb c high

unfoldable pub upper : ℕ → ℕ
unfolding between
upper c = if between 97 122 c then c - 32 else c

unfoldable pub lower : ℕ → ℕ
unfolding between
lower c = if between 65 90 c then c + 32 else c

unfoldable pub capitalize : Bytes → Bytes
capitalize [] = []
capitalize (c ∷ s) = upper c ∷ map lower s

-- `c.isspace()`
unfoldable pub is_space : ℕ → Bool
unfolding between
is_space c =
    between 9 13 c
    || between 28 32 c
    || c == 0x85
    || c == 0xa0
    || c == 0x1680
    || between 0x2000 0x200a c
    || between 0x2028 0x2029 c
    || c == 0x202f
    || c == 0x205f
    || c == 0x3000

-- The ends of lines that `splitlines` knows.
unfoldable pub is_break : ℕ → Bool
unfolding between
is_break c = between 10 13 c || between 28 30 c || c == 0x85 || between 0x2028 0x2029 c

unfoldable pub lstrip : Bytes → Bytes
lstrip [] = []
lstrip (c ∷ s) = let rest = lstrip s in if is_space c then rest else c ∷ s

-- A character before what is left of the text behind it: a space stays if something follows it.
unfoldable pub keep : ℕ → Bytes → Bytes
keep c [] = if is_space c then [] else c ∷ []
keep c (d ∷ s) = c ∷ d ∷ s

unfoldable pub rstrip : Bytes → Bytes
rstrip [] = []
rstrip (c ∷ s) = keep c (rstrip s)

unfoldable pub strip : Bytes → Bytes
strip s = rstrip (lstrip s)

unfoldable pub put_first : ℕ → List Bytes → List Bytes
put_first c [] = (c ∷ []) ∷ []
put_first c (w ∷ ws) = (c ∷ w) ∷ ws

-- `s.splitlines()`: the `\r` of `\r\n` ends no line of its own.
unfoldable pub splitlines : Bytes → List Bytes
splitlines [] = []
splitlines (c ∷ s) =
    let rest = splitlines s in
    if c == 13 && starts_with (10 ∷ []) s
    then rest
    else (if is_break c then [] ∷ rest else put_first c rest)

-- `s.split(sep)` for one character: the first piece, and those that follow.
unfoldable pub split : ℕ → Bytes → Bytes × List Bytes
split sep [] = ([], [])
split sep (c ∷ s) =
    let rest = split sep s in if c == sep then ([], rest.0 ∷ rest.1) else (c ∷ rest.0, rest.1)

-- `sep.join` of a first piece and those that follow.
unfoldable pub join_rest : Bytes → List Bytes → Bytes
join_rest sep [] = []
join_rest sep (w ∷ ws) = sep ++ (w ++ join_rest sep ws)

-- `s.partition(sep)` for one character, without the separator.
unfoldable pub partition : ℕ → Bytes → Bytes × Bytes
partition sep [] = ([], [])
partition sep (c ∷ s) =
    let rest = partition sep s in if c == sep then ([], s) else (c ∷ rest.0, rest.1)
