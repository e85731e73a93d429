-- ===== src/Deque/Tests.antt =====
-- The doctests of `_merge_prefix`, and the theorems about it at concrete inputs.
use tornado3_1_1_search.Base.{◌≡◌, refl, List, [], ◌∷◌, Bytes, arith, join, Each}
use tornado3_1_1_search.Deque.{merge_prefix}
use tornado3_1_1_search.Deque.Merge.{NonEmpty, merge_prefix_splits}

abbrev letters : List Bytes
letters = (97 ∷ 98 ∷ 99 ∷ []) ∷ (100 ∷ 101 ∷ []) ∷ (102 ∷ 103 ∷ 104 ∷ 105 ∷ []) ∷ (106 ∷ []) ∷ []

merge_five :
    merge_prefix letters 5
    ≡ (97 ∷ 98 ∷ 99 ∷ 100 ∷ 101 ∷ []) ∷ (102 ∷ 103 ∷ 104 ∷ 105 ∷ []) ∷ (106 ∷ []) ∷ []
unfolding merge_prefix
merge_five = refl

merge_seven :
    merge_prefix
      ((97 ∷ 98 ∷ 99 ∷ 100 ∷ 101 ∷ []) ∷ (102 ∷ 103 ∷ 104 ∷ 105 ∷ []) ∷ (106 ∷ []) ∷ [])
      7
    ≡ (97 ∷ 98 ∷ 99 ∷ 100 ∷ 101 ∷ 102 ∷ 103 ∷ []) ∷ (104 ∷ 105 ∷ []) ∷ (106 ∷ []) ∷ []
unfolding merge_prefix
merge_seven = refl

merge_prefix_splits_example :
    (rest : List Bytes) × (merge_prefix letters 4 ≡ (97 ∷ 98 ∷ 99 ∷ 100 ∷ []) ∷ rest)
    × (join rest ≡ 101 ∷ 102 ∷ 103 ∷ 104 ∷ 105 ∷ 106 ∷ [])
    × Each NonEmpty rest
merge_prefix_splits_example = merge_prefix_splits letters 4 (omega arith) (omega arith)
