-- ===== src/Web/Signed/Opens.antt =====
-- tornado/web.py: which signed values are opened.
use Prim.Native.Nat.{bit_or, bit_or-bitwise, bit_xor, bit_xor-bitwise, digits, differ}
use tornado3_1_1_search.Base.{
  ℕ, zero, suc, ◌/◌, ◌%◌, ◌≤◌, ◌≡◌, refl, ap, sym, ◌∙◌, Bool, ==_refl, true, false, ◌||◌, Option,
  none, some, List, [], ◌∷◌, Bytes, ℤ, max, ap₂, subst, ◌↔◌, ◌++◌, zero_text, if_intro, arith,
  length, is_empty, split, starts_with,
}
use tornado3_1_1_search.Web.Signed.{
  Crypto, differences, time_independent_equals, Decoded, decoded, nothing, value_error, index_error,
  check_signature, expired, in_future, three_parts, create_signature, open_payload, check_times,
  check_parts, decode_signed_value,
}

differ-zero : (x y : ℕ) → differ x y ≡ 0 → x ≡ y
differ-zero zero y h = sym h
differ-zero (suc x) zero h = h
differ-zero (suc x) (suc y) h = ap suc (differ-zero x y h)

differ_self : (x : ℕ) → differ x x ≡ 0
differ_self zero = refl
differ_self (suc x) = differ_self x

or_digits-zero : (n a b : ℕ) → a ≤ n → digits (λ b. b) max n a b ≡ 0 → (a ≡ 0) × (b ≡ 0)
or_digits-zero zero a b l h = (omega arith, h)
or_digits-zero (suc n) zero b l h = (refl, h)
or_digits-zero (suc n) (suc a) b l h =
    let k = or_digits-zero n (suc a / 2) (b / 2) (omega arith) (omega (arith, h)) in
    (omega (arith, h, k.0), omega (arith, h, k.1))

xor_digits-zero : (n a b : ℕ) → a ≤ n → digits (λ b. b) differ n a b ≡ 0 → a ≡ b
xor_digits-zero zero a b l h = omega (arith, h)
xor_digits-zero (suc n) zero b l h = sym h
xor_digits-zero (suc n) (suc a) b l h =
    let d = differ-zero (suc a % 2) (b % 2) (omega (arith, h)) in
    let k = xor_digits-zero n (suc a / 2) (b / 2) (omega arith) (omega (arith, h)) in
    omega (arith, d, k)

xor_digits_self : (n a : ℕ) → a ≤ n → digits (λ b. b) differ n a a ≡ 0
xor_digits_self zero a l = omega arith
xor_digits_self (suc n) zero l = refl
xor_digits_self (suc n) (suc a) l =
    let k = xor_digits_self n (suc a / 2) (omega arith) in
    let d = differ_self (suc a % 2) in omega (arith, k, d)

or-zero : (a b : ℕ) → bit_or a b ≡ 0 → (a ≡ 0) × (b ≡ 0)
or-zero a b h = or_digits-zero a a b (omega arith) (sym (bit_or-bitwise a b) ∙ h)

differences-zero :
    (result : ℕ) (a b : Bytes)
    → length a ≡ length b
    → differences result a b ≡ 0
    → (result ≡ 0) × (a ≡ b)
unfolding differences
differences-zero result [] [] l h = (h, refl)
differences-zero result [] (y ∷ b) l h = absurd (omega (arith, l))
differences-zero result (x ∷ a) [] l h = absurd (omega (arith, l))
differences-zero result (x ∷ a) (y ∷ b) l h =
    let k = differences-zero (bit_or result (bit_xor x y)) a b (omega (arith, l)) h in
    let o = or-zero result (bit_xor x y) k.0 in
    let e = xor_digits-zero x x y (omega arith) (sym (bit_xor-bitwise x y) ∙ o.1) in
    (o.0, ap₂ (λ c s. c ∷ s) e k.1)

xor_self : (x : ℕ) → bit_xor x x ≡ 0
xor_self x = bit_xor-bitwise x x ∙ xor_digits_self x x (omega arith)

differences_self : (a : Bytes) → differences 0 a a ≡ 0
unfolding differences
differences_self [] = refl
differences_self (x ∷ a) =
    ap (λ r. differences r a a) (ap (bit_or 0) (xor_self x) ∙ bit_or-bitwise 0 0)
    ∙ differences_self a

abbrev NotEmpty : Bytes → Type 0
NotEmpty a = is_empty a ≡ false

same : (a : Bytes) → NotEmpty a → time_independent_equals a a ≡ some true
unfolding time_independent_equals
same a n = rw (==_refl (length a), n, differences_self a) refl

equal : (a b : Bytes) → time_independent_equals a b ≡ some true → a ≡ b
unfolding time_independent_equals
equal a b h =
    let l : length a ≡ length b = ground (arith, h) in
    let z : differences 0 a b ≡ 0 = ground (arith, h) in (differences-zero 0 a b l z).1

full : (a b : Bytes) → time_independent_equals a b ≡ some true → NotEmpty a
unfolding time_independent_equals
full a b h = ground (arith, h)

-- The comparison that takes the same time for all texts of a length says that two texts are equal
-- exactly when they are equal and not empty.
pub time_independent_equals_iff :
    (a b : Bytes) → (time_independent_equals a b ≡ some true) ↔ ((a ≡ b) × (is_empty a ≡ false))
time_independent_equals_iff a b = (
  λ h. (equal a b h, full a b h),
  λ e. subst (λ c. time_independent_equals a c ≡ some true) e.0 (same a e.1),
)

-- What a value that is opened has in it: a payload and a timestamp with their signature for this name
-- under this secret. The timestamp is a number of the last days, not one of the far future, and has no zero at its front.
pub record IsOpened (crypto : Crypto) (now : ℕ) (secret name value : Bytes) (max_age_days : ℕ)
    (x : Bytes) : Type 0 where
  pub payload : Bytes
  pub timestamp : Bytes
  pub time : ℤ
  pub signed :
      split 124 value
      ≡ (payload, timestamp ∷ crypto.hmac secret (name ++ (payload ++ timestamp)) ∷ [])
  pub number : crypto.int_of timestamp ≡ some time
  pub recent : expired time max_age_days now ≡ false
  pub past : in_future time now ≡ false
  pub no_zero : starts_with zero_text timestamp ≡ false
  pub opened : crypto.b64decode payload ≡ some x

module _ (crypto : Crypto) (now : ℕ) (secret name value : Bytes) (max_age_days : ℕ) where
  abbrev Opened : Decoded → Type 0
  Opened (decoded x) = IsOpened crypto now secret name value max_age_days x
  Opened nothing = Unit
  Opened value_error = Unit
  Opened index_error = Unit

  module _ (parts : Bytes × Bytes × Bytes) (e : split 124 value ≡ (parts.0, parts.1 ∷ parts.2 ∷ []))
      (s : parts.2 ≡ create_signature crypto secret name parts.0 parts.1) where
    open_payload-Opened :
        (t : ℤ) (o : Option Bytes)
        → crypto.int_of parts.1 ≡ some t
        → (expired t max_age_days now || (in_future t now || starts_with zero_text parts.1)) ≡ false
        → crypto.b64decode parts.0 ≡ o
        → Opened (open_payload crypto o)
    unfolding open_payload create_signature
    open_payload-Opened t none i f p = tt
    open_payload-Opened t (some x) i f p = record {
      payload = parts.0;
      timestamp = parts.1;
      time = t;
      signed = e ∙ ap (λ c. (parts.0, parts.1 ∷ c ∷ [])) s;
      number = i;
      recent = ground (arith, f);
      past = ground (arith, f);
      no_zero = ground (arith, f);
      opened = p;
    }

    check_times-Opened :
        (o : Option ℤ)
        → crypto.int_of parts.1 ≡ o
        → Opened (check_times crypto now max_age_days parts o)
    unfolding check_times
    check_times-Opened none i = tt
    check_times-Opened (some t) i =
        if_intro Opened
          (expired t max_age_days now || (in_future t now || starts_with zero_text parts.1)) nothing
          _ (λ f. tt) (λ f. open_payload-Opened t (crypto.b64decode parts.0) i f refl)

  check_signature-Opened :
      (parts : Bytes × Bytes × Bytes)
      → split 124 value ≡ (parts.0, parts.1 ∷ parts.2 ∷ [])
      → (same : Option Bool)
      → time_independent_equals parts.2 (create_signature crypto secret name parts.0 parts.1) ≡ same
      → Opened (check_signature crypto now max_age_days parts same)
  unfolding check_signature
  check_signature-Opened parts e none f = tt
  check_signature-Opened parts e (some false) f = tt
  check_signature-Opened parts e (some true) f =
      check_times-Opened parts e
        (equal parts.2 (create_signature crypto secret name parts.0 parts.1) f)
        (crypto.int_of parts.1) refl

  check_parts-Opened :
      (words : Bytes × List Bytes)
      → split 124 value ≡ words
      → Opened (check_parts crypto now secret name max_age_days (three_parts words))
  unfolding check_parts three_parts
  check_parts-Opened (payload, []) e = tt
  check_parts-Opened (payload, timestamp ∷ []) e = tt
  check_parts-Opened (payload, timestamp ∷ signature ∷ []) e =
      check_signature-Opened (payload, timestamp, signature) e
        (time_independent_equals signature (create_signature crypto secret name payload timestamp))
        refl
  check_parts-Opened (payload, timestamp ∷ signature ∷ more ∷ others) e = tt

  decode-Opened : Opened (decode_signed_value crypto now secret name value max_age_days)
  unfolding decode_signed_value
  decode-Opened =
      if_intro Opened (is_empty value) nothing _ (λ e. tt)
        (λ e. check_parts-Opened (split 124 value) refl)

-- A value is opened only if it has the signature of its payload and its timestamp for this name under
-- this secret, and the timestamp is neither too old, nor of the far future, nor one with a zero at its front.
pub decode_signed_value-IsOpened :
    (crypto : Crypto) (now : ℕ) (secret name value : Bytes) (max_age_days : ℕ) (x : Bytes)
    → decode_signed_value crypto now secret name value max_age_days ≡ decoded x
    → IsOpened crypto now secret name value max_age_days x
decode_signed_value-IsOpened crypto now secret name value max_age_days x e =
    subst (Opened crypto now secret name value max_age_days) e
      (decode-Opened crypto now secret name value max_age_days)
