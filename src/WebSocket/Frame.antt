-- ===== src/WebSocket/Frame.antt =====
-- tornado/websocket.py: the bytes of a frame, as `_write_frame` puts them together and as the
-- handlers of `WebSocketProtocol13` take them apart.
use Prim.Native.Nat.{bit_or, bit_xor}
use tornado3_1_1_search.Base.{
  ℕ, zero, suc, ◌+◌, ◌*◌, ◌/◌, ◌%◌, Bool, [], ◌∷◌, ◌++◌, ltb, leb, if◌then◌else◌, length, Bytes,
}

-- `mask[i]`
unfoldable pub byte_at : ℕ → Bytes → ℕ
byte_at i [] = 0
byte_at zero (b ∷ bytes) = b
byte_at (suc i) (b ∷ bytes) = byte_at i bytes

-- the loop of `_apply_mask`, from index `i` on
unfoldable pub mask_from : ℕ → Bytes → Bytes → Bytes
unfolding byte_at
mask_from i mask [] = []
mask_from i mask (b ∷ bytes) = bit_xor b (byte_at (i % 4) mask) ∷ mask_from (i + 1) mask bytes

unfoldable pub apply_mask : Bytes → Bytes → Bytes
unfolding mask_from
apply_mask mask bytes = mask_from 0 mask bytes

-- `struct.pack("!H", n)` and `struct.pack("!Q", n)`: `k` bytes, the most significant first.
unfoldable pub big_endian : ℕ → ℕ → Bytes
big_endian zero n = []
big_endian (suc k) n = big_endian k (n / 256) ++ n % 256 ∷ []

-- `struct.unpack` of the same formats
unfoldable pub from_big_endian : ℕ → Bytes → ℕ
from_big_endian acc [] = acc
from_big_endian acc (b ∷ bytes) = from_big_endian (acc * 256 + b) bytes

unfoldable pub length_bytes : ℕ → ℕ → Bytes
unfolding big_endian
length_bytes mask_bit l =
    if ltb l 126
    then bit_or l mask_bit ∷ []
    else if leb l 0xffff
    then bit_or 126 mask_bit ∷ big_endian 2 l
    else bit_or 127 mask_bit ∷ big_endian 8 l

-- The frame of `_write_frame`; `mask` is what `os.urandom(4)` gave, used if frames are masked.
unfoldable pub frame : Bool → Bool → ℕ → Bytes → Bytes → Bytes
unfolding length_bytes apply_mask
frame masked fin opcode mask bytes =
    let finbit = if fin then 0x80 else 0 in
    let mask_bit = if masked then 0x80 else 0 in
    bit_or finbit opcode
    ∷ (length_bytes mask_bit (length bytes)
        ++ (if masked then mask ++ apply_mask mask bytes else bytes))
