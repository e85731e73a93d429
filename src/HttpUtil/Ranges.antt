-- ===== src/HttpUtil/Ranges.antt =====
-- tornado/httputil.py: the `Range` header. `int_of` is `int` on texts.
pub mod Slices
mod Tests
use tornado3_1_1_search.Base.{
  ℕ, zero, suc, ◌+◌, ◌-◌, min, Bool, true, false, Option, none, some, List, [], ◌∷◌, ◌++◌,
  if◌then◌else◌, Bytes, bytes_eq, is_empty, length, take, drop, partition, strip, ℤ, pos, negsuc,
  negate, plus_one,
}
use mathlib.Core.Option

-- "bytes"
abbrev pub bytes_text : Bytes
bytes_text = 98 ∷ 121 ∷ 116 ∷ 101 ∷ 115 ∷ []

abbrev pub Range : Type 0
Range = Option ℤ × Option ℤ

-- A range with inclusive ends as one for a slice.
for_slice : Option ℤ → Option ℤ → Range
for_slice start none = (start, none)
for_slice none (some (pos zero)) = (none, some (pos zero))
for_slice none (some (pos (suc n))) = (some (negsuc n), none)
for_slice none (some (negsuc n)) = (some (negate (negsuc n)), none)
for_slice (some start) (some end) = (some start, some (plus_one end))

module _ (int_of : Bytes → Option ℤ) where
  -- `_int_or_none`; the outer `none` is a `ValueError`.
  int_or_none : Bytes → Option (Option ℤ)
  int_or_none val =
      let text = strip val in if is_empty text then some none else Option.map some (int_of text)

  both : Option (Option ℤ) → Option (Option ℤ) → Option Range
  unfolding for_slice
  both none end = none
  both (some start) none = none
  both (some start) (some end) = some (for_slice start end)

  -- `_parse_request_range`
  pub parse_request_range : Bytes → Option Range
  unfolding both int_or_none
  parse_request_range range_header =
      let parts = partition 61 range_header in
      let ends = partition 45 (strip parts.1) in
      if bytes_eq (strip parts.0) bytes_text
      then both (int_or_none ends.0) (int_or_none ends.1)
      else none

-- The index in a list of length `n` that a slice starts or ends at.
index : ℕ → ℤ → ℕ
index n (pos i) = min i n
index n (negsuc i) = n - suc i

slice_start : ℕ → Option ℤ → ℕ
unfolding index
slice_start n none = 0
slice_start n (some i) = index n i

slice_end : ℕ → Option ℤ → ℕ
unfolding index
slice_end n none = n
slice_end n (some i) = index n i

-- `content[start:end]`
pub slice : Range → Bytes → Bytes
unfolding slice_start slice_end
slice range content =
    drop (slice_start (length content) range.0) (take (slice_end (length content) range.1) content)
