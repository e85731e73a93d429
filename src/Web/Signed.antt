-- ===== src/Web/Signed.antt =====
-- tornado/web.py: signed values for cookies. Times are in microseconds; `hmac`, base64 and the decimal
-- digits are parameters.
pub mod Opens
pub mod RoundTrip
mod Tests
use Prim.Native.Nat.{bit_or, bit_xor}
use tornado3_1_1_search.Base.{
  zero_text, ℕ, ◌+◌, ◌*◌, ◌/◌, ltb, Bool, true, false, not, ◌&&◌, ◌||◌, ◌==◌, Option, none, some,
  List, [], ◌∷◌, ◌++◌, if◌then◌else◌, Bytes, is_empty, length, split, starts_with, ℤ, pos, negsuc,
}

-- What the library gives: the hexadecimal HMAC of a text under a secret, base64, and numbers.
pub record Crypto : Type 0 where
  pub hmac : Bytes → Bytes → Bytes
  pub b64encode : Bytes → Bytes
  pub b64decode : Bytes → Option Bytes
  pub str_of : ℕ → Bytes
  pub int_of : Bytes → Option ℤ

-- `_time_independent_equals`: what is left of the loop over both.
unfoldable pub differences : ℕ → Bytes → Bytes → ℕ
differences result [] b = result
differences result (x ∷ a) [] = result
differences result (x ∷ a) (y ∷ b) = differences (bit_or result (bit_xor x y)) a b

-- Without a result if `a[0]` raises an `IndexError`.
unfoldable pub time_independent_equals : Bytes → Bytes → Option Bool
unfolding differences
time_independent_equals a b =
    if length a == length b
    then (if is_empty a then none else some (differences 0 a b == 0))
    else some false

-- The value, `None`, a `ValueError`, or an `IndexError`.
pub data Decoded : Type 0 where
  decoded : Bytes → Decoded
  nothing value_error index_error : Decoded

abbrev pub second : ℕ
second = 1000000

abbrev pub day : ℕ
day = 86400000000

-- `timestamp < now - max_age_days * 86400`
unfoldable pub expired : ℤ → ℕ → ℕ → Bool
expired (pos timestamp) max_age_days now = ltb (timestamp * second + max_age_days * day) now
expired (negsuc timestamp) max_age_days now =
    ltb (max_age_days * day) (now + (timestamp + 1) * second)

-- `timestamp > now + 31 * 86400`
unfoldable pub in_future : ℤ → ℕ → Bool
in_future (pos timestamp) now = ltb (now + 31 * day) (timestamp * second)
in_future (negsuc timestamp) now = false

-- `value.split(b"|")`, if it has three parts
unfoldable pub three_parts : Bytes × List Bytes → Option (Bytes × Bytes × Bytes)
three_parts (payload, timestamp ∷ signature ∷ []) = some (payload, timestamp, signature)
three_parts (payload, other) = none

module _ (crypto : Crypto) where
  -- `_create_signature`
  unfoldable pub create_signature : Bytes → Bytes → Bytes → Bytes → Bytes
  create_signature secret name value timestamp = crypto.hmac secret (name ++ (value ++ timestamp))

  unfoldable pub create_signed_value : ℕ → Bytes → Bytes → Bytes → Bytes
  unfolding create_signature
  create_signed_value now secret name value =
      let timestamp = crypto.str_of (now / second) in
      let payload = crypto.b64encode value in
      payload ++ (124 ∷ (timestamp ++ (124 ∷ create_signature secret name payload timestamp)))

  unfoldable pub open_payload : Option Bytes → Decoded
  open_payload none = nothing
  open_payload (some value) = decoded value

  -- What follows `int(parts[1])`
  unfoldable pub check_times : ℕ → ℕ → Bytes × Bytes × Bytes → Option ℤ → Decoded
  unfolding open_payload expired in_future
  check_times now max_age_days parts none = value_error
  check_times now max_age_days parts (some timestamp) =
      if expired timestamp max_age_days now
        || (in_future timestamp now || starts_with zero_text parts.1)
      then nothing
      else open_payload (crypto.b64decode parts.0)

  unfoldable pub check_signature : ℕ → ℕ → Bytes × Bytes × Bytes → Option Bool → Decoded
  unfolding check_times
  check_signature now max_age_days parts none = index_error
  check_signature now max_age_days parts (some false) = nothing
  check_signature now max_age_days parts (some true) =
      check_times now max_age_days parts (crypto.int_of parts.1)

  unfoldable pub check_parts : ℕ → Bytes → Bytes → ℕ → Option (Bytes × Bytes × Bytes) → Decoded
  unfolding create_signature time_independent_equals check_signature
  check_parts now secret name max_age_days none = nothing
  check_parts now secret name max_age_days (some parts) =
      check_signature now max_age_days parts
        (time_independent_equals parts.2 (create_signature secret name parts.0 parts.1))

  unfoldable pub decode_signed_value : ℕ → Bytes → Bytes → Bytes → ℕ → Decoded
  unfolding check_parts three_parts
  decode_signed_value now secret name value max_age_days =
      if is_empty value
      then nothing
      else check_parts now secret name max_age_days (three_parts (split 124 value))
