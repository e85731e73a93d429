-- ===== src/HttpUtil.antt =====
-- tornado/httputil.py: the normal form of header names, and the modules of the file's other parts.
pub mod HeaderCache
pub mod Headers
pub mod Ranges
pub mod Params
pub mod Bodies
pub mod Tests
use tornado3_1_1_search.Base.{
  ℕ, ◌≡◌, refl, ap, sym, ◌∙◌, Bool, true, false, List, [], ◌∷◌, ◌++◌, map, ◌==◌, if◌then◌else◌,
  arith, Bytes, Bool-cases, inl, inr, upper, lower, capitalize, split, join_rest, append_assoc,
}

-- `"-".join([w.capitalize() for w in key.split("-")])`
unfoldable pub normalize : Bytes → Bytes
unfolding split join_rest capitalize
normalize key =
    let words = split 45 key in capitalize words.0 ++ join_rest (45 ∷ []) (map capitalize words.1)

-- One pass over the name that knows whether a word starts.
pub cased : Bool → Bytes → Bytes
cased starts [] = []
cased starts (c ∷ s) =
    let next = cased true s in
    let inside = cased false s in
    if c == 45 then 45 ∷ next else (if starts then upper c else lower c) ∷ inside

-- What `normalize` makes of the pieces, when the first one starts a word and when it does not.
join_pieces : Bool → Bytes × List Bytes → Bytes
unfolding join_rest capitalize
join_pieces starts words =
    (if starts then capitalize words.0 else map lower words.0)
    ++ join_rest (45 ∷ []) (map capitalize words.1)

join_pieces-split : (starts : Bool) (s : Bytes) → join_pieces starts (split 45 s) ≡ cased starts s
unfolding join_pieces split join_rest capitalize cased
join_pieces-split true [] = refl
join_pieces-split false [] = refl
join_pieces-split starts (c ∷ s) =
    let word = join_pieces-split true s in let inside = join_pieces-split false s in ground arith

pub normalize-eq-cased : (s : Bytes) → normalize s ≡ cased true s
unfolding normalize join_pieces
normalize-eq-cased s = join_pieces-split true s

cased_twice : (starts : Bool) (s : Bytes) → cased starts (cased starts s) ≡ cased starts s
unfolding cased upper lower
cased_twice starts [] = refl
cased_twice starts (c ∷ s) = ground (arith, cased_twice true s, cased_twice false s)

-- Normalizing a name that is in normal form leaves it as it is.
pub normalize_twice : (s : Bytes) → normalize (normalize s) ≡ normalize s
normalize_twice s =
    rw (normalize-eq-cased s, normalize-eq-cased (cased true s)) (cased_twice true s)
