-- ===== src/HttpUtil/Ranges/Tests.antt =====
-- Decimal numbers as texts, a header for a range of tornado/httputil.py, and the theorem at it.
use Prim.Native.Nat.{◌/◌, ◌%◌}
use tornado3_1_1_search.Base.{
  ℕ, zero, suc, ◌+◌, ◌-◌, ◌*◌, ◌<◌, ◌≤◌, ◌≡◌, refl, ap, ◌∙◌, false, Option, none, some, [], ◌∷◌,
  ◌++◌, if◌then◌else◌, if_intro, Bytes, is_empty, is_space, ltb, ltb→le, ◌==◌, ℤ, pos, Each,
  Each-append, arith,
}
use mathlib.Core.Option
use tornado3_1_1_search.HttpUtil.Ranges.{bytes_text, parse_request_range, slice}
use tornado3_1_1_search.HttpUtil.Ranges.Slices.{
  from_to, asked_for, form_text, IsDecimal, parse_request_range-asked_for,
}

value : ℕ → Bytes → ℕ
value acc [] = acc
value acc (c ∷ s) = value (acc * 10 + (c - 48)) s

-- `int` on a text of digits.
int_of : Bytes → Option ℤ
unfolding value
int_of [] = none
int_of (c ∷ s) = some (pos (value 0 (c ∷ s)))

decimal_fuel : ℕ → ℕ → Bytes
decimal_fuel zero n = (48 + n % 10) ∷ []
decimal_fuel (suc fuel) n =
    let rest = decimal_fuel fuel (n / 10) in
    if ltb n 10 then (48 + n % 10) ∷ [] else rest ++ (48 + n % 10) ∷ []

-- `str` on a number.
decimal : ℕ → Bytes
decimal n = decimal_fuel n n

value-concat : (acc : ℕ) (s : Bytes) (c : ℕ) → value acc (s ++ c ∷ []) ≡ value acc s * 10 + (c - 48)
unfolding value
value-concat acc [] c = refl
value-concat acc (d ∷ s) c = value-concat (acc * 10 + (d - 48)) s c

value-decimal_fuel : (fuel n : ℕ) → n ≤ fuel → value 0 (decimal_fuel fuel n) ≡ n
unfolding value decimal_fuel
value-decimal_fuel zero n h = omega arith
value-decimal_fuel (suc fuel) n h =
    if_intro (λ s. value 0 s ≡ n) (ltb n 10) _ _ (λ small. ground (arith, small))
      (λ large.
        value-concat 0 (decimal_fuel fuel (n / 10)) (48 + n % 10)
        ∙ omega (arith, value-decimal_fuel fuel (n / 10) (omega (arith, h, ltb→le n 10 large))))

is_space-digit : (d : ℕ) → d < 10 → is_space (48 + d) ≡ false
unfolding is_space
is_space-digit d h = ground (arith, h)

is_dash-digit : (d : ℕ) → ((48 + d) == 45) ≡ false
is_dash-digit d = ground arith

no_space : (fuel n : ℕ) → Each (λ c. is_space c ≡ false) (decimal_fuel fuel n)
unfolding decimal_fuel
no_space zero n = (is_space-digit (n % 10) (omega arith), tt)
no_space (suc fuel) n =
    let digit = is_space-digit (n % 10) (omega arith) in
    if_intro (Each (λ c. is_space c ≡ false)) (ltb n 10) _ _ (λ e. (digit, tt))
      (λ e.
        Each-append (λ c. is_space c ≡ false) (decimal_fuel fuel (n / 10)) _
          (no_space fuel (n / 10), (digit, tt)))

no_dash : (fuel n : ℕ) → Each (λ c. (c == 45) ≡ false) (decimal_fuel fuel n)
unfolding decimal_fuel
no_dash zero n = (is_dash-digit (n % 10), tt)
no_dash (suc fuel) n =
    let digit = is_dash-digit (n % 10) in
    if_intro (Each (λ c. (c == 45) ≡ false)) (ltb n 10) _ _ (λ e. (digit, tt))
      (λ e.
        Each-append (λ c. (c == 45) ≡ false) (decimal_fuel fuel (n / 10)) _
          (no_dash fuel (n / 10), (digit, tt)))

full : (fuel n : ℕ) → is_empty (decimal_fuel fuel n) ≡ false
unfolding decimal_fuel
full zero n = refl
full (suc fuel) n =
    if_intro (λ (s : Bytes). is_empty s ≡ false) (ltb n 10) _ _ (λ e. refl)
      (λ e. full_append (decimal_fuel fuel (n / 10)))
  where
    full_append : (s : Bytes) → is_empty (s ++ (48 + n % 10) ∷ []) ≡ false
    full_append [] = refl
    full_append (c ∷ s) = refl

int_of-full : (s : Bytes) → is_empty s ≡ false → int_of s ≡ some (pos (value 0 s))
unfolding int_of
int_of-full [] h = ground arith
int_of-full (c ∷ s) h = refl

decimal-IsDecimal : (n : ℕ) → IsDecimal int_of n (decimal n)
unfolding decimal
decimal-IsDecimal n = record {
  value =
      int_of-full (decimal_fuel n n) (full n n)
      ∙ ap (λ k. some (pos k)) (value-decimal_fuel n n (omega arith));
  full = full n n;
  no_space = no_space n n;
  no_dash = no_dash n n;
}

-- Ten bytes, of which the third to the sixth are asked for.
abbrev content : Bytes
content = 0 ∷ 1 ∷ 2 ∷ 3 ∷ 4 ∷ 5 ∷ 6 ∷ 7 ∷ 8 ∷ 9 ∷ []

parse_request_range-asked_for_example :
    Option.map
      (λ range. slice range content)
      (parse_request_range int_of (bytes_text ++ 61 ∷ form_text int_of decimal (from_to 2 5)))
    ≡ some (asked_for (from_to 2 5) content)
parse_request_range-asked_for_example =
    parse_request_range-asked_for int_of decimal decimal-IsDecimal (from_to 2 5) content
