-- ===== src/Utf8.antt =====
-- Decoding of UTF-8, as the standard library's `bytes.decode("utf-8")` does it: shortest forms only,
-- no surrogates, nothing above U+10FFFF.
use tornado3_1_1_search.Base.{
  ℕ, ◌+◌, ◌-◌, ◌*◌, Bool, true, ◌&&◌, ◌||◌, List, [], ◌∷◌, Option, none, some, leb, if◌then◌else◌,
  Bytes,
}

abbrev within : ℕ → ℕ → ℕ → Bool
within lo hi b = leb lo b && leb b hi

abbrev is_tail : ℕ → Bool
is_tail b = within 0x80 0xbf b

abbrev cons_ok : Bool → ℕ → Option (List ℕ) → Option (List ℕ)
cons_ok ok c none = none
cons_ok ok c (some cs) = if ok then some (c ∷ cs) else none

-- The pairs of a lead byte and a second byte that may start three and four bytes.
abbrev three_ok : ℕ → ℕ → Bool
three_ok a b =
    (within 0xe0 0xe0 a && within 0xa0 0xbf b)
    || (within 0xe1 0xec a && is_tail b)
    || (within 0xed 0xed a && within 0x80 0x9f b)
    || (within 0xee 0xef a && is_tail b)

abbrev four_ok : ℕ → ℕ → Bool
four_ok a b =
    (within 0xf0 0xf0 a && within 0x90 0xbf b)
    || (within 0xf1 0xf3 a && is_tail b)
    || (within 0xf4 0xf4 a && within 0x80 0x8f b)

abbrev tail_of : ℕ → ℕ
tail_of b = b - 0x80

unfoldable pub decode : Bytes → Option (List ℕ)
decode [] = some []
decode (a ∷ []) = cons_ok (leb a 0x7f) a (some [])
decode (a ∷ b ∷ []) =
    let short = cons_ok true a (decode (b ∷ [])) in
    if leb a 0x7f
    then short
    else cons_ok (within 0xc2 0xdf a && is_tail b) ((a - 0xc0) * 64 + tail_of b) (some [])
decode (a ∷ b ∷ c ∷ []) =
    let short = cons_ok true a (decode (b ∷ c ∷ [])) in
    let two =
      cons_ok (within 0xc2 0xdf a && is_tail b) ((a - 0xc0) * 64 + tail_of b) (decode (c ∷ [])) in
    if leb a 0x7f
    then short
    else if leb a 0xdf
    then two
    else cons_ok (three_ok a b && is_tail c) ((a - 0xe0) * 4096 + tail_of b * 64 + tail_of c)
        (some [])
decode (a ∷ b ∷ c ∷ d ∷ rest) =
    let short = cons_ok true a (decode (b ∷ c ∷ d ∷ rest)) in
    let two =
      cons_ok (within 0xc2 0xdf a && is_tail b) ((a - 0xc0) * 64 + tail_of b)
        (decode (c ∷ d ∷ rest)) in
    let three =
      cons_ok (three_ok a b && is_tail c) ((a - 0xe0) * 4096 + tail_of b * 64 + tail_of c)
        (decode (d ∷ rest)) in
    let four =
      cons_ok (four_ok a b && is_tail c && is_tail d)
        ((a - 0xf0) * 262144 + tail_of b * 4096 + tail_of c * 64 + tail_of d) (decode rest) in
    if leb a 0x7f then short else if leb a 0xdf then two else if leb a 0xef then three else four
