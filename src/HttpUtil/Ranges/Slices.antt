-- ===== src/HttpUtil/Ranges/Slices.antt =====
-- tornado/httputil.py: the slice for a `Range` header is the range that the header asks for.
use tornado3_1_1_search.Base.{
  ℕ, zero, suc, ◌+◌, ◌-◌, ◌≤◌, ◌≡◌, min, refl, ap, sym, ◌∙◌, false, Option, none, some, [], ◌∷◌,
  ◌++◌, Bytes, bytes_eq, is_empty, length, take, drop, partition, strip, lstrip, rstrip, keep,
  is_space, ℤ, pos, negsuc, Each, Each-append, arith, take_all, drop_all, length-take, ◌==◌, leb,
  Bool-cases, inl, inr,
}
use mathlib.Core.Option
use tornado3_1_1_search.HttpUtil.Ranges.{
  bytes_text, Range, for_slice, int_or_none, both, parse_request_range, index, slice_start,
  slice_end, slice,
}

-- The ranges of the header: from one byte to another, from one byte on, or the last bytes.
pub data Form : Type 0 where
  from_to : ℕ → ℕ → Form
  from last : ℕ → Form

-- The part of the content that the header asks for; `from_to` includes the byte at its end.
pub asked_for : Form → Bytes → Bytes
asked_for (from_to a b) content = take (b + 1 - a) (drop a content)
asked_for (from a) content = drop a content
asked_for (last n) content = drop (length content - n) content

pub range_of : Form → Range
range_of (from_to a b) = (some (pos a), some (pos (suc b)))
range_of (from a) = (some (pos a), none)
range_of (last zero) = (none, some (pos zero))
range_of (last (suc n)) = (some (negsuc n), none)

take_of_nil : (n : ℕ) → take {A = ℕ} n [] ≡ []
take_of_nil zero = refl
take_of_nil (suc n) = refl

drop-take : (a e : ℕ) (xs : Bytes) → drop a (take e xs) ≡ take (e - a) (drop a xs)
drop-take zero e xs = rw same refl
  where
    same : e - 0 ≡ e
    same = omega arith
drop-take (suc a) zero xs = rw none_left refl
  where
    none_left : 0 - suc a ≡ 0
    none_left = omega arith
drop-take (suc a) (suc e) [] = sym (take_of_nil (suc e - suc a))
drop-take (suc a) (suc e) (x ∷ xs) = rw shift (drop-take a e xs)
  where
    shift : suc e - suc a ≡ e - a
    shift = omega arith

-- An index past the end stands for the end.
take-min : (n : ℕ) (xs : Bytes) → take (min n (length xs)) xs ≡ take n xs
take-min n xs = elim (Bool-cases (leb n (length xs))) [
  | inl e ↦ ap (λ k. take k xs) (ground (arith, e))
  | inr e ↦
      take_all (min n (length xs)) xs (ground (arith, e)) ∙ sym (take_all n xs (ground (arith, e)))
]

drop-min : (n : ℕ) (ys xs : Bytes) → length ys ≤ length xs → drop (min n (length xs)) ys ≡ drop n ys
drop-min n ys xs h = elim (Bool-cases (leb n (length xs))) [
  | inl e ↦ ap (λ k. drop k ys) (ground (arith, e))
  | inr e ↦
      drop_all (min n (length xs)) ys (ground (arith, e, h))
      ∙ sym (drop_all n ys (ground (arith, e, h)))
]

slice-range_of :
    (form : Form) (content : Bytes) → slice (range_of form) content ≡ asked_for form content
unfolding slice range_of asked_for slice_start slice_end index
slice-range_of (from_to a b) content =
    drop-min a (take (min (suc b) (length content)) content) content
      (omega (arith, length-take (min (suc b) (length content)) content))
    ∙ ap (drop a) (take-min (suc b) content)
    ∙ drop-take a (suc b) content
    ∙ ap (λ k. take (k - a) (drop a content)) (omega arith)
slice-range_of (from a) content =
    drop-min a (take (length content) content) content
      (omega (arith, length-take (length content) content))
    ∙ ap (drop a) (take_all (length content) content (omega arith))
slice-range_of (last zero) content =
    let nothing : min 0 (length content) ≡ 0 = omega arith in
    ap (λ k. take k content) nothing ∙ sym (drop_all (length content - 0) content (omega arith))
slice-range_of (last (suc n)) content =
    ap (drop (length content - suc n)) (take_all (length content) content (omega arith))

-- A text that stands for a number: digits, none of which is a space or a sign.
pub record IsDecimal (int_of : Bytes → Option ℤ) (n : ℕ) (text : Bytes) : Type 0 where
  pub value : int_of text ≡ some (pos n)
  pub full : is_empty text ≡ false
  pub no_space : Each (λ c. is_space c ≡ false) text
  pub no_dash : Each (λ c. (c == 45) ≡ false) text

partition-found :
    (sep : ℕ) (name rest : Bytes)
    → Each (λ c. (c == sep) ≡ false) name
    → partition sep (name ++ sep ∷ rest) ≡ (name, rest)
unfolding partition
partition-found sep [] rest h = ground arith
partition-found sep (c ∷ name) rest h = ground (arith, partition-found sep name rest h.1, h.0)

rstrip_none : (s : Bytes) → Each (λ c. is_space c ≡ false) s → rstrip s ≡ s
unfolding rstrip keep
rstrip_none [] h = refl
rstrip_none (c ∷ []) h = rw h.0 refl
rstrip_none (c ∷ (d ∷ s)) h = rw (rstrip_none (d ∷ s) h.1) refl

strip_none : (s : Bytes) → Each (λ c. is_space c ≡ false) s → strip s ≡ s
unfolding strip lstrip
strip_none [] h = rstrip_none [] tt
strip_none (c ∷ s) h = rw h.0 (rstrip_none (c ∷ s) h)

module _ (int_of : Bytes → Option ℤ) (digits : ℕ → Bytes) where
  -- The text of a form behind "bytes=".
  pub form_text : Form → Bytes
  form_text (from_to a b) = digits a ++ 45 ∷ digits b
  form_text (from a) = digits a ++ 45 ∷ []
  form_text (last n) = 45 ∷ digits n

  module _ (decimal : (n : ℕ) → IsDecimal int_of n (digits n)) where
    int_or_none-digits : (n : ℕ) → int_or_none int_of (digits n) ≡ some (some (pos n))
    unfolding int_or_none
    int_or_none-digits n =
        rw (strip_none (digits n) (decimal n).no_space, (decimal n).full, (decimal n).value) refl

    both-form_text :
        (form : Form)
        → both int_of
            (int_or_none int_of (partition 45 (form_text form)).0)
            (int_or_none int_of (partition 45 (form_text form)).1)
          ≡ some (range_of form)
    unfolding form_text both for_slice range_of partition int_or_none strip lstrip rstrip
    both-form_text (from_to a b) =
        rw (partition-found 45 (digits a) (digits b) (decimal a).no_dash)
          (rw (int_or_none-digits a, int_or_none-digits b) refl)
    both-form_text (from a) =
        rw (partition-found 45 (digits a) [] (decimal a).no_dash) (rw (int_or_none-digits a) refl)
    both-form_text (last zero) = rw (int_or_none-digits 0) refl
    both-form_text (last (suc n)) = rw (int_or_none-digits (suc n)) refl

    form_text-no_space : (form : Form) → Each (λ c. is_space c ≡ false) (form_text form)
    unfolding form_text is_space
    form_text-no_space (from_to a b) =
        Each-append (λ c. is_space c ≡ false) (digits a) (45 ∷ digits b)
          ((decimal a).no_space, (refl, (decimal b).no_space))
    form_text-no_space (from a) =
        Each-append (λ c. is_space c ≡ false) (digits a) (45 ∷ [])
          ((decimal a).no_space, (refl, tt))
    form_text-no_space (last n) = (refl, (decimal n).no_space)

    parse-form_text :
        (form : Form)
        → parse_request_range int_of (bytes_text ++ 61 ∷ form_text form) ≡ some (range_of form)
    unfolding parse_request_range partition strip lstrip rstrip keep is_space bytes_eq
    parse-form_text form =
        ap
          (λ text.
            both int_of (int_or_none int_of (partition 45 text).0)
              (int_or_none int_of (partition 45 text).1))
          (strip_none (form_text form) (form_text-no_space form))
        ∙ both-form_text form

    -- For a header `bytes=a-b`, `bytes=a-` or `bytes=-n` with decimal numbers, the slice that the
    -- parsed range stands for is what the header asks for: the bytes from a to b with b included,
    -- those from a on, or the last n; also where a, b or n reach past the end of the content, b is
    -- less than a, or n is zero.
    pub parse_request_range-asked_for :
        (form : Form) (content : Bytes)
        → Option.map
            (λ range. slice range content)
            (parse_request_range int_of (bytes_text ++ 61 ∷ form_text form))
          ≡ some (asked_for form content)
    parse_request_range-asked_for form content =
        ap (Option.map (λ range. slice range content)) (parse-form_text form)
        ∙ ap some (slice-range_of form content)
