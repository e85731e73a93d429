-- ===== src/Deque/Merge.antt =====
-- What `_merge_prefix` and `_double_prefix` of tornado/iostream.py do to the bytes that a deque holds.
use tornado3_1_1_search.Base.{
  ℕ, zero, suc, ◌+◌, ◌-◌, ◌*◌, ◌<◌, ◌≤◌, max, ◌≡◌, refl, ap, List, [], ◌∷◌, append-nil, arith,
  length, take, drop, join, Each, Bytes, take-append_ge, take-append_le, drop-append_ge,
  drop-append_le, length-drop, take_all, take-append-drop,
}
use tornado3_1_1_search.Deque.{gather, merge_prefix, double_prefix}

abbrev pub NonEmpty : Bytes → Type 0
NonEmpty chunk = 0 < length chunk

gather-zero : (d : List Bytes) → ((gather 0 d).0 ≡ []) × ((gather 0 d).1 ≡ d)
unfolding gather
gather-zero [] = (refl, refl)
gather-zero (c ∷ d) = (refl, refl)

-- The prefix holds the first `n` bytes of the deque and what is left over holds the rest.
pub join-gather :
    (n : ℕ) (d : List Bytes)
    → (join (gather n d).0 ≡ take n (join d)) × (join (gather n d).1 ≡ drop n (join d))
unfolding gather
join-gather zero d = (ap join (gather-zero d).0, ap join (gather-zero d).1)
join-gather (suc n) [] = (refl, refl)
join-gather (suc n) (c ∷ d) = ground (
  arith,
  join-gather (suc n - length c) d,
  take-append_ge (suc n) c (join d),
  take-append_le (suc n) c (join d),
  drop-append_ge (suc n) c (join d),
  drop-append_le (suc n) c (join d),
  append-nil (take (suc n) c),
)

gather-NonEmpty : (n : ℕ) (d : List Bytes) → Each NonEmpty d → Each NonEmpty (gather n d).1
unfolding gather
gather-NonEmpty zero [] h = tt
gather-NonEmpty (suc n) [] h = tt
gather-NonEmpty zero (c ∷ d) h = h
gather-NonEmpty (suc n) (c ∷ d) h =
    ground (arith, gather-NonEmpty (suc n - length c) d h.1, length-drop (suc n) c)

-- After a merge to a positive size the first chunk is exactly the first `n` bytes.
pub merge_prefix_lem :
    (d : List Bytes) (n : ℕ) → 0 < n → merge_prefix d n ≡ take n (join d) ∷ (gather n d).1
unfolding merge_prefix
merge_prefix_lem d zero h = elim h [ ]
merge_prefix_lem [] (suc n) h = refl
merge_prefix_lem (c ∷ []) (suc n) h =
    ground (arith, take_all (suc n) c, append-nil c, append-nil (take (suc n) c))
merge_prefix_lem (c ∷ b ∷ d) (suc n) h = ground (arith, join-gather (suc n) (c ∷ b ∷ d))

-- On a deque without empty chunks, a merge to a positive size `n` puts exactly the first `n` bytes
-- (all of them, if there are fewer) into the first chunk; the other chunks hold the rest in order,
-- and none of them is empty.
pub merge_prefix_splits :
    (d : List Bytes) (n : ℕ)
    → 0 < n
    → Each NonEmpty d
    → (rest : List Bytes) × (merge_prefix d n ≡ take n (join d) ∷ rest)
      × (join rest ≡ drop n (join d))
      × Each NonEmpty rest
merge_prefix_splits d n h k =
    ((gather n d).1, merge_prefix_lem d n h, (join-gather n d).1, gather-NonEmpty n d k)

-- Merging never changes the bytes that the deque holds.
pub join-merge_prefix : (d : List Bytes) (n : ℕ) → join (merge_prefix d n) ≡ join d
join-merge_prefix [] zero = unfold merge_prefix gather in refl
join-merge_prefix (c ∷ []) zero = unfold merge_prefix gather in ground arith
join-merge_prefix (c ∷ b ∷ d) zero = unfold merge_prefix gather in refl
join-merge_prefix d (suc n) =
    rw (merge_prefix_lem d (suc n) (omega arith), (join-gather (suc n) d).1)
      (take-append-drop (suc n) (join d))

gather-length-le : (n : ℕ) (d : List Bytes) → length (gather n d).1 ≤ length d
unfolding gather
gather-length-le n [] = omega arith
gather-length-le n (c ∷ d) = ground (arith, gather-length-le (n - length c) d)

gather-length :
    (a b : Bytes) (d : List Bytes) (n : ℕ)
    → NonEmpty b
    → length a + length b ≤ n
    → length (gather n (a ∷ b ∷ d)).1 ≤ length d
unfolding gather
gather-length a b d n p h = ground (arith, gather-length-le (n - length a - length b) d)

pub record IsDoubled (first second : Bytes) (d : List Bytes) : Type 0 where
  pub rest : List Bytes
  pub size : ℕ
  pub merged : double_prefix (first ∷ second ∷ d) ≡ take size (join (first ∷ second ∷ d)) ∷ rest
  pub left : join rest ≡ drop size (join (first ∷ second ∷ d))
  pub chunks : Each NonEmpty rest
  pub fewer : length rest ≤ length d
  pub grows : length first < size

-- `_double_prefix` on a deque without empty chunks merges at least the first two of them.
pub double_prefix_lem : (a b : Bytes) (d : List Bytes) → Each NonEmpty (a ∷ b ∷ d) → IsDoubled a b d
unfolding double_prefix
double_prefix_lem a b d h =
    let n = max (length a * 2) (length a + length b) in
    record {
      rest = (gather n (a ∷ b ∷ d)).1;
      size = n;
      merged = merge_prefix_lem (a ∷ b ∷ d) n (omega arith);
      left = (join-gather n (a ∷ b ∷ d)).1;
      chunks = gather-NonEmpty n (a ∷ b ∷ d) h;
      fewer = gather-length a b d n h.1.0 (omega arith);
      grows = omega arith;
    }
