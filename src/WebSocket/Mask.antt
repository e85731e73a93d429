-- ===== src/WebSocket/Mask.antt =====
-- tornado/websocket.py: `_apply_mask` undoes itself, and the fields of a frame's first bytes are read
-- back. The facts about single bytes are checked for every value.
use Prim.Native.Nat.{bit_and, bit_or, bit_xor}
use native.Mathlib.Nat.{pow-suc}
use tornado3_1_1_search.Base.{
  ℕ, zero, suc, ◌+◌, ◌*◌, ◌/◌, ◌%◌, ◌^◌, ◌<◌, ◌≡◌, refl, ap, ap₂, ◌∙◌, Bool, true, false, not, ◌&&◌,
  [], ◌∷◌, ◌++◌, ◌==◌, ==_iff, arith, Each, length, Bytes, if◌then◌else◌, length-append,
}
use tornado3_1_1_search.WebSocket.Frame.{
  byte_at, mask_from, apply_mask, big_endian, from_big_endian,
}
use tornado3_1_1_search.WebSocket.Receive.{bit_set}

-- A test of every number under a bound.
passes : (ℕ → Bool) → ℕ → Bool
passes test zero = true
passes test (suc bound) = passes test bound && test bound

passes_at :
    (test : ℕ → Bool) (bound : ℕ) → passes test bound ≡ true → (k : ℕ) → k < bound → test k ≡ true
unfolding passes
passes_at test zero ok k below = absurd (omega arith)
passes_at test (suc bound) ok k below = ground (arith, passes_at test bound _ k)

xor_row : ℕ → Bool
xor_row k = passes (λ x. bit_xor (bit_xor x k) k == x) 256

xor_table : passes xor_row 256 ≡ true
unfolding passes xor_row
xor_table = refl

abbrev pub IsByte : ℕ → Type 0
IsByte b = b < 256

xor_twice : (x k : ℕ) → IsByte x → IsByte k → bit_xor (bit_xor x k) k ≡ x
unfolding xor_row
xor_twice x k hx hk = (==_iff _ x).0 (passes_at _ 256 (passes_at xor_row 256 xor_table k hk) x hx)

byte_at-IsByte : (i : ℕ) (mask : Bytes) → Each IsByte mask → IsByte (byte_at i mask)
unfolding byte_at
byte_at-IsByte i [] h = omega arith
byte_at-IsByte zero (b ∷ mask) h = h.0
byte_at-IsByte (suc i) (b ∷ mask) h = byte_at-IsByte i mask h.1

mask_from_twice :
    (i : ℕ) (mask bytes : Bytes)
    → Each IsByte mask
    → Each IsByte bytes
    → mask_from i mask (mask_from i mask bytes) ≡ bytes
unfolding mask_from
mask_from_twice i mask [] hm hb = refl
mask_from_twice i mask (b ∷ bytes) hm hb =
    ap₂ (λ x xs. x ∷ xs) (xor_twice b (byte_at (i % 4) mask) hb.0 (byte_at-IsByte (i % 4) mask hm))
      (mask_from_twice (i + 1) mask bytes hm hb.1)

length-mask_from : (i : ℕ) (mask bytes : Bytes) → length (mask_from i mask bytes) ≡ length bytes
unfolding mask_from
length-mask_from i mask [] = refl
length-mask_from i mask (b ∷ bytes) = ap suc (length-mask_from (i + 1) mask bytes)

-- For bytes, masking twice with the same bytes gives the data back.
pub apply_mask_twice :
    (mask bytes : Bytes)
    → Each IsByte mask
    → Each IsByte bytes
    → apply_mask mask (apply_mask mask bytes) ≡ bytes
unfolding apply_mask
apply_mask_twice mask bytes hm hb = mask_from_twice 0 mask bytes hm hb

pub length-apply_mask : (mask bytes : Bytes) → length (apply_mask mask bytes) ≡ length bytes
unfolding apply_mask
length-apply_mask mask bytes = length-mask_from 0 mask bytes

from_big_endian-concat :
    (acc : ℕ) (xs : Bytes) (b : ℕ)
    → from_big_endian acc (xs ++ b ∷ []) ≡ from_big_endian acc xs * 256 + b
unfolding from_big_endian
from_big_endian-concat acc [] b = refl
from_big_endian-concat acc (x ∷ xs) b = from_big_endian-concat (acc * 256 + x) xs b

pub length-big_endian : (k n : ℕ) → length (big_endian k n) ≡ k
unfolding big_endian
length-big_endian zero n = refl
length-big_endian (suc k) n =
    omega
      (arith, length-append (big_endian k (n / 256)) (n % 256 ∷ []), length-big_endian k (n / 256))

-- `unpack` after `pack`, for a number of at most `k` bytes.
pub big_endian_round_trip : (k n : ℕ) → n < 256 ^ k → from_big_endian 0 (big_endian k n) ≡ n
unfolding big_endian from_big_endian
big_endian_round_trip zero n h = omega arith
big_endian_round_trip (suc k) n h =
    let high = big_endian_round_trip k (n / 256) (omega (arith, pow-suc 256 k)) in
    from_big_endian-concat 0 (big_endian k (n / 256)) (n % 256) ∙ rw high (omega arith)

-- What `_on_frame_start` reads from the first byte of a frame.
header_row : ℕ → Bool
header_row b =
    bit_set 0x80 (bit_or 0x80 b)
    && not (bit_set 0x80 (bit_or 0 b))
    && not (bit_set 0x70 (bit_or 0x80 b))
    && not (bit_set 0x70 (bit_or 0 b))
    && (bit_and (bit_or 0x80 b) 0xf == b && bit_and (bit_or 0 b) 0xf == b)

header_table : passes header_row 16 ≡ true
unfolding passes header_row
header_table = refl

abbrev pub fin_bit : Bool → ℕ
fin_bit fin = if fin then 0x80 else 0

pub record IsHeader (fin : Bool) (opcode header : ℕ) : Type 0 where
  pub fin_read : bit_set 0x80 header ≡ fin
  pub reserved : bit_set 0x70 header ≡ false
  pub opcode_read : bit_and header 0xf ≡ opcode

pub header_lem :
    (fin : Bool) (opcode : ℕ) → opcode < 16 → IsHeader fin opcode (bit_or (fin_bit fin) opcode)
unfolding header_row
header_lem true opcode h =
    let t = passes_at header_row 16 header_table opcode h in
    record { fin_read = ground arith; reserved = ground arith; opcode_read = ground arith }
header_lem false opcode h =
    let t = passes_at header_row 16 header_table opcode h in
    record { fin_read = ground arith; reserved = ground arith; opcode_read = ground arith }

-- What it reads from the second byte.
length_row : ℕ → Bool
length_row l =
    bit_set 0x80 (bit_or l 0x80)
    && not (bit_set 0x80 (bit_or l 0))
    && (bit_and (bit_or l 0x80) 0x7f == l && bit_and (bit_or l 0) 0x7f == l)

length_table : passes length_row 128 ≡ true
unfolding passes length_row
length_table = refl

pub record IsLengthByte (masked : Bool) (l payloadlen : ℕ) : Type 0 where
  pub mask_read : bit_set 0x80 payloadlen ≡ masked
  pub length_read : bit_and payloadlen 0x7f ≡ l

pub length_byte_lem :
    (masked : Bool) (l : ℕ) → l < 128 → IsLengthByte masked l (bit_or l (fin_bit masked))
unfolding length_row
length_byte_lem true l h =
    let t = passes_at length_row 128 length_table l h in
    record { mask_read = ground arith; length_read = ground arith }
length_byte_lem false l h =
    let t = passes_at length_row 128 length_table l h in
    record { mask_read = ground arith; length_read = ground arith }
