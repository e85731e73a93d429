-- ===== src/IoStream/Reading/Search.antt =====
-- The loops of `_read_from_buffer` that look for a delimiter in a growing prefix of the buffer.
use mathlib.Core.Bool.{false≢true}
use tornado3_1_1_search.Base.{
  ℕ, zero, suc, ◌+◌, ◌≤◌, ◌<◌, ◌≡◌, ◌≢◌, refl, ap, sym, ◌∙◌, true, List, [], ◌∷◌, ◌++◌, append-nil,
  Option, some, arith, inl, inr, Option-cases, length, take, join, take-append-drop, length-take,
  length-append, Each, Bytes, find, starts_with,
}
use tornado3_1_1_search.Deque.{double_prefix}
use tornado3_1_1_search.Deque.Merge.{NonEmpty, double_prefix_lem}
use tornado3_1_1_search.IoStream.{first_chunk}
use tornado3_1_1_search.IoStream.Reading.{search_loop, find_end}

-- Doubling keeps the bytes, leaves no empty chunk, and shortens the deque.
pub record Doubles (before after : List Bytes) : Type 0 where
  pub bytes : join after ≡ join before
  pub chunks : Each NonEmpty after
  pub shorter : length after < length before
  pub first : (n : ℕ) × (first_chunk after ≡ take n (join before))

pub double_prefix-Doubles :
    (a b : Bytes) (d : List Bytes)
    → Each NonEmpty (a ∷ b ∷ d)
    → Doubles (a ∷ b ∷ d) (double_prefix (a ∷ b ∷ d))
double_prefix-Doubles a b d h =
    let i = double_prefix_lem a b d h in
    let whole : List ℕ = join (a ∷ b ∷ d) in
    rw i.merged (record {
      bytes = rw i.left (take-append-drop i.size whole);
      chunks = (
        omega (arith, length-take i.size whole, length-append a (b ++ join d), h.0, i.grows),
        i.chunks,
      );
      shorter = omega (arith, i.fewer);
      first = (i.size, refl);
    })

-- The search moves bytes between chunks only.
pub join-search_loop :
    (matcher : Bytes → Option ℕ) (fuel : ℕ) (d : List Bytes)
    → Each NonEmpty d
    → (join (search_loop matcher fuel d).1 ≡ join d) × Each NonEmpty (search_loop matcher fuel d).1
unfolding search_loop
join-search_loop matcher zero d h = (refl, h)
join-search_loop matcher (suc fuel) [] h = (refl, h)
join-search_loop matcher (suc fuel) (c ∷ []) h = (refl, h)
join-search_loop matcher (suc fuel) (c ∷ b ∷ d) h = elim (Option-cases (matcher c)) [
  | inl e ↦
      (let i = double_prefix-Doubles c b d h in
        let r = join-search_loop matcher fuel (double_prefix (c ∷ b ∷ d)) i.chunks in
        rw (e, search_loop) (r.0 ∙ i.bytes, r.1))
  | inr (loc, e) ↦ rw (e, search_loop) (refl, h)
]

starts_with-append :
    (p s t : Bytes) → length p ≤ length s → starts_with p (s ++ t) ≡ starts_with p s
unfolding starts_with
starts_with-append [] s t h = refl
starts_with-append (c ∷ p) [] t h = absurd (omega arith)
starts_with-append (c ∷ p) (d ∷ s) t h = rw (starts_with-append p s t (omega arith))

starts_with-length : (p s : Bytes) → starts_with p s ≡ true → length p ≤ length s
unfolding starts_with
starts_with-length [] s h = omega arith
starts_with-length (c ∷ p) [] h = absurd (false≢true h)
starts_with-length (c ∷ p) (d ∷ s) h = ground (arith, starts_with-length p s)

find-le : (p s : Bytes) (i : ℕ) → find p s ≡ some i → i + length p ≤ length s
unfolding find
find-le [] [] i h = ground arith
find-le (c ∷ p) [] i h = ground arith
find-le p (c ∷ s) zero h = ground (arith, starts_with-length p (c ∷ s))
find-le p (c ∷ s) (suc i) h = ground (arith, starts_with-length p (c ∷ s), find-le p s i)

-- A first occurrence in a prefix of a text is the first occurrence in the text.
find-append : (p s t : Bytes) (i : ℕ) → find p s ≡ some i → find p (s ++ t) ≡ some i
unfolding find
find-append [] [] [] i h = h
find-append [] [] (d ∷ t) i h = h
find-append (c ∷ p) [] t i h = ground arith
find-append p (c ∷ s) t zero h =
    ground (arith, starts_with-append p (c ∷ s) t, starts_with-length p (c ∷ s))
find-append p (c ∷ s) t (suc i) h =
    ground (arith, starts_with-append p (c ∷ s) t, find-le p s i, find-append p s t i)

find_end-append : (p s t : Bytes) (i : ℕ) → find_end p s ≡ some i → find_end p (s ++ t) ≡ some i
unfolding find_end
find_end-append p s t i h = elim (Option-cases (find p s)) [
  | inl e ↦ ground arith
  | inr (j, e) ↦ rw (find-append p s t j e) (rw e at h)
]

pub find_end-le : (p s : Bytes) (i : ℕ) → find_end p s ≡ some i → i ≤ length s
unfolding find_end
find_end-le p s i h = elim (Option-cases (find p s)) [
  | inl e ↦ ground arith
  | inr (j, e) ↦ ground (arith, find-le p s j)
]

-- With as much fuel as there are chunks, the search of a growing prefix finds in a buffer without
-- empty chunks what a search of all its bytes would find, or nothing where that finds nothing.
pub search_loop-eq-find_end :
    (p : Bytes) (fuel : ℕ) (d : List Bytes)
    → Each NonEmpty d
    → d ≢ []
    → length d ≤ fuel
    → (search_loop (find_end p) fuel d).0 ≡ find_end p (join d)
unfolding search_loop
search_loop-eq-find_end p fuel [] h k l = absurd (k refl)
search_loop-eq-find_end p zero (c ∷ d) h k l = absurd (omega arith)
search_loop-eq-find_end p (suc fuel) (c ∷ []) h k l = rw (append-nil c)
search_loop-eq-find_end p (suc fuel) (c ∷ b ∷ d) h k l = elim (Option-cases (find_end p c)) [
  | inl e ↦
      (let i = double_prefix-Doubles c b d h in
        rw (e, search_loop)
          (search_loop-eq-find_end p fuel (double_prefix (c ∷ b ∷ d)) i.chunks
              (λ n. absurd (
                omega
                  (arith, ap length (sym i.bytes ∙ ap join n), length-append c (b ++ join d), h.0)))
              (omega (arith, i.shorter))
            ∙ ap (find_end p) i.bytes))
  | inr (loc, e) ↦ rw (e, search_loop) (sym (find_end-append p c (b ++ join d) loc e))
]
