-- ===== src/Web/Signed/Tests.antt =====
-- A small library for the signed values of tornado/web.py, and the theorems at it.
use tornado3_1_1_search.Base.{
  is_empty, ℕ, ◌+◌, ◌-◌, ◌<◌, ◌≡◌, ◌↔◌, refl, ap, true, false, ◌==◌, none, some, [], ◌∷◌, Bytes,
  pos, Each, map, split, starts_with, zero_text, arith,
}
use tornado3_1_1_search.Web.Signed.{
  check_parts, check_signature, three_parts, differences, check_times, expired, in_future,
  open_payload, create_signature, Crypto, decoded, create_signed_value, decode_signed_value,
  time_independent_equals,
}
use tornado3_1_1_search.Web.Signed.Opens.{
  IsOpened, decode_signed_value-IsOpened, time_independent_equals_iff,
}
use tornado3_1_1_search.Web.Signed.RoundTrip.{IsSound, decode_signed_value-create_signed_value}

-- Characters are moved past the bar and the digits.
raise : Bytes → Bytes
raise text = map (λ c. c + 125) text

lower_again : Bytes → Bytes
lower_again text = map (λ c. c - 125) text

abbrev small_crypto : Crypto
small_crypto = record {
  hmac = λ secret message. 97 ∷ [];
  b64encode = raise;
  b64decode = λ text. some (lower_again text);
  str_of = λ n. (n + 125) ∷ [];
  int_of = λ text. elim text [ [] ↦ none | c ∷ rest ↦ some (pos (c - 125)) ];
}

raise-NoBar : (text : Bytes) → Each (λ c. (c == 124) ≡ false) (raise text)
unfolding raise
raise-NoBar [] = tt
raise-NoBar (c ∷ text) = (ground arith, raise-NoBar text)

lower_again-raise : (text : Bytes) → lower_again (raise text) ≡ text
unfolding lower_again raise
lower_again-raise [] = refl
lower_again-raise (c ∷ text) =
    let e : c + 125 - 125 ≡ c = omega arith in rw e (ap (λ s. c ∷ s) (lower_again-raise text))

no_zero : (n : ℕ) → 0 < n → starts_with zero_text ((n + 125) ∷ []) ≡ false
unfolding starts_with
no_zero n h = ground arith

back : (n : ℕ) → n + 125 - 125 ≡ n
back n = omega arith

small_crypto-IsSound : IsSound small_crypto
small_crypto-IsSound = record {
  hmac-no_bar = λ secret message. (refl, tt);
  hmac_full = λ secret message. refl;
  b64encode-no_bar = raise-NoBar;
  str_of-no_bar = λ n. (ground arith, tt);
  b64decode-b64encode = λ value. ap some (lower_again-raise value);
  int_of-str_of = λ n. ap (λ m. some (pos m)) (back n);
  str_of-no_zero = no_zero;
}

abbrev user_name : Bytes
user_name = 117 ∷ []

abbrev user_value : Bytes
user_value = 98 ∷ 111 ∷ 98 ∷ []

abbrev signed_value : Bytes
signed_value = 223 ∷ 236 ∷ 223 ∷ 124 ∷ 130 ∷ 124 ∷ 97 ∷ []

decode_signed_value-create_signed_value_example :
    decode_signed_value small_crypto 6000000 [] user_name
      (create_signed_value small_crypto 5500000 [] user_name user_value)
      31
    ≡ decoded user_value
decode_signed_value-create_signed_value_example =
    decode_signed_value-create_signed_value small_crypto small_crypto-IsSound 5500000 6000000 31 []
      user_name user_value (omega arith) (omega arith) (omega arith)

signed_value-decoded :
    decode_signed_value small_crypto 6000000 [] user_name signed_value 31 ≡ decoded user_value
unfolding decode_signed_value lower_again check_parts check_signature three_parts split
    time_independent_equals differences check_times expired in_future starts_with open_payload
    create_signature
signed_value-decoded = refl

decode_signed_value-IsOpened_example :
    IsOpened small_crypto 6000000 [] user_name signed_value 31 user_value
decode_signed_value-IsOpened_example =
    decode_signed_value-IsOpened small_crypto 6000000 [] user_name signed_value 31 user_value
      signed_value-decoded

time_independent_equals_iff_example :
    (time_independent_equals user_name user_value ≡ some true)
    ↔ ((user_name ≡ user_value) × (is_empty user_name ≡ false))
time_independent_equals_iff_example = time_independent_equals_iff user_name user_value
