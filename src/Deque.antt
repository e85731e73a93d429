-- ===== src/Deque.antt =====
-- tornado/iostream.py: `_merge_prefix` and `_double_prefix`, the deque of byte chunks on which
-- both buffers of a stream are built. The proofs are in the modules below.
pub mod Merge
pub mod Tests
use tornado3_1_1_search.Base.{
  ℕ, ◌+◌, ◌-◌, ◌*◌, max, Bool, false, List, [], ◌∷◌, ltb, leb, if◌then◌else◌, length, take, drop,
  join, Bytes,
}

-- The `while deque and remaining > 0` loop: the chunks of the prefix, and the chunks left over.
pub gather : ℕ → List Bytes → List Bytes × List Bytes
gather remaining [] = ([], [])
gather remaining (chunk ∷ deque) =
    let (prefix, left) = gather (remaining - length chunk) deque in
    if ltb 0 remaining
    then if ltb remaining (length chunk)
      then (take remaining chunk ∷ [], drop remaining chunk ∷ deque)
      else (chunk ∷ prefix, left)
    else ([], chunk ∷ deque)

-- `len(deque) == 1 and len(deque[0]) <= size`
pub fits : List Bytes → ℕ → Bool
fits (chunk ∷ []) size = leb (length chunk) size
fits _ size = false

-- `if prefix: deque.appendleft(join(prefix))`
pub put_prefix : List Bytes → List Bytes → List Bytes
put_prefix [] left = left
put_prefix (chunk ∷ prefix) left = join (chunk ∷ prefix) ∷ left

-- `if not deque: deque.appendleft(b"")`
pub or_empty_chunk : List Bytes → List Bytes
or_empty_chunk [] = [] ∷ []
or_empty_chunk (chunk ∷ deque) = chunk ∷ deque

unfoldable pub merge_prefix : List Bytes → ℕ → List Bytes
unfolding gather fits put_prefix or_empty_chunk
merge_prefix deque size =
    let (prefix, left) = gather size deque in
    if fits deque size then deque else or_empty_chunk (put_prefix prefix left)

-- With fewer than two chunks the source raises IndexError; its callers test the length first.
unfoldable pub double_prefix : List Bytes → List Bytes
double_prefix (first ∷ second ∷ deque) =
    merge_prefix (first ∷ second ∷ deque) (max (length first * 2) (length first + length second))
double_prefix deque = deque
