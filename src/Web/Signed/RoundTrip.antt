-- ===== src/Web/Signed/RoundTrip.antt =====
-- tornado/web.py: a signed value is opened again.
use tornado3_1_1_search.Base.{
  ℕ, ◌+◌, ◌*◌, ◌/◌, ◌≤◌, ◌<◌, ◌≡◌, refl, ap, ◌∙◌, false, ◌==◌, some, List, [], ◌∷◌, ◌++◌, Bytes,
  pos, Each, le→ltb, arith, is_empty, split, split-piece, split-last, starts_with, zero_text,
}
use tornado3_1_1_search.Web.Signed.{
  Crypto, decoded, second, day, expired, in_future, three_parts, create_signature,
  create_signed_value, open_payload, check_times, check_parts, check_signature, decode_signed_value,
}
use tornado3_1_1_search.Web.Signed.Opens.{time_independent_equals_iff}

abbrev NoBar : Bytes → Type 0
NoBar s = Each (λ c. (c == 124) ≡ false) s

-- What the library promises: a digest is not empty, hexadecimal digits, base64 and decimal digits have no bar in them, base64
-- is read back, and so are numbers, whose digits start with a zero only for 0.
pub record IsSound (crypto : Crypto) : Type 0 where
  pub hmac-no_bar : (secret message : Bytes) → NoBar (crypto.hmac secret message)
  pub hmac_full : (secret message : Bytes) → is_empty (crypto.hmac secret message) ≡ false
  pub b64encode-no_bar : (value : Bytes) → NoBar (crypto.b64encode value)
  pub str_of-no_bar : (n : ℕ) → NoBar (crypto.str_of n)
  pub b64decode-b64encode : (value : Bytes) → crypto.b64decode (crypto.b64encode value) ≡ some value
  pub int_of-str_of : (n : ℕ) → crypto.int_of (crypto.str_of n) ≡ some (pos n)
  pub str_of-no_zero : (n : ℕ) → 0 < n → starts_with zero_text (crypto.str_of n) ≡ false

split-signed :
    (payload timestamp signature : Bytes)
    → NoBar payload
    → NoBar timestamp
    → NoBar signature
    → split 124 (payload ++ (124 ∷ (timestamp ++ (124 ∷ signature))))
      ≡ (payload, timestamp ∷ signature ∷ [])
split-signed payload timestamp signature p t s =
    split-piece 124 payload (timestamp ++ (124 ∷ signature)) p
    ∙ ap (λ (w : Bytes × List Bytes). (payload, w.0 ∷ w.1))
        (split-piece 124 timestamp signature t
          ∙ ap (λ (w : Bytes × List Bytes). (timestamp, w.0 ∷ w.1)) (split-last 124 signature s))

full : (s rest : Bytes) → is_empty (s ++ (124 ∷ rest)) ≡ false
full [] rest = refl
full (c ∷ s) rest = refl

module _ (crypto : Crypto) (sound : IsSound crypto) (now later max_age_days : ℕ)
    (secret name value : Bytes) where
  signature-NoBar :
      (payload timestamp : Bytes) → NoBar (create_signature crypto secret name payload timestamp)
  unfolding create_signature
  signature-NoBar payload timestamp = sound.hmac-no_bar secret (name ++ (payload ++ timestamp))

  signature_full :
      (payload timestamp : Bytes)
      → is_empty (create_signature crypto secret name payload timestamp) ≡ false
  unfolding create_signature
  signature_full payload timestamp = sound.hmac_full secret (name ++ (payload ++ timestamp))

  check_times-fresh :
      second ≤ now
      → now ≤ later
      → later ≤ now / second * second + max_age_days * day
      → (signature : Bytes)
      → check_times crypto later max_age_days
          (crypto.b64encode value, crypto.str_of (now / second), signature)
          (crypto.int_of (crypto.str_of (now / second)))
        ≡ decoded value
  unfolding check_times expired in_future open_payload
  check_times-fresh h k l signature =
      let n = now / second in
      let parts : Bytes × Bytes × Bytes = (crypto.b64encode value, crypto.str_of n, signature) in
      let recent : expired (pos n) max_age_days later ≡ false =
        le→ltb (n * second + max_age_days * day) later l in
      let past : in_future (pos n) later ≡ false =
        le→ltb (later + 31 * day) (n * second) (omega arith) in
      let no_zero = sound.str_of-no_zero n (omega arith) in
      ap (check_times crypto later max_age_days parts) (sound.int_of-str_of n)
      ∙ rw (recent, past, no_zero) (ap (open_payload crypto) (sound.b64decode-b64encode value))

  -- A value that was signed for a name is read back under this name with the same secret, from the
  -- second in which it was signed until its days are over, for a library with the documented
  -- properties and a clock past its first second.
  pub decode_signed_value-create_signed_value :
      second ≤ now
      → now ≤ later
      → later ≤ now / second * second + max_age_days * day
      → decode_signed_value crypto later secret name
          (create_signed_value crypto now secret name value)
          max_age_days
        ≡ decoded value
  unfolding decode_signed_value create_signed_value check_parts check_signature three_parts
  decode_signed_value-create_signed_value h k l =
      let payload = crypto.b64encode value in
      let timestamp = crypto.str_of (now / second) in
      let signature = create_signature crypto secret name payload timestamp in
      rw (full payload (timestamp ++ (124 ∷ signature))) (
        ap (λ words. check_parts crypto later secret name max_age_days (three_parts words))
          (split-signed payload timestamp signature (sound.b64encode-no_bar value)
            (sound.str_of-no_bar (now / second)) (signature-NoBar payload timestamp))
        ∙ rw
            ((time_independent_equals_iff signature signature).1
              (refl, signature_full payload timestamp))
            (check_times-fresh h k l signature))
