-- ===== src/WebSocket/RoundTrip.antt =====
-- tornado/websocket.py: what `_write_frame` of one side writes, the handlers of the other side read.
use Prim.Native.Nat.{bit_or}
use tornado3_1_1_search.Base.{
  ℕ, zero, suc, ◌^◌, ◌<◌, ◌≤◌, ◌≡◌, refl, ap, ◌∙◌, Bool, true, false, ◌&&◌, List, [], ◌∷◌, ◌++◌,
  append_assoc, ltb, leb, le→ltb, le→leb, tests, inl, inr, Bool-cases, arith, Each, length, take,
  drop, take-append_le, take_all, length-append, Bytes, if◌then◌else◌, none, some,
}
use tornado3_1_1_search.WebSocket.{
  Handler, frame_start, frame_length_16, frame_length_64, masking_key, masked_frame_data,
  frame_data, Message, Socket, Reaction, read_bytes, receive_frame,
}
use tornado3_1_1_search.WebSocket.Frame.{byte_at, apply_mask, big_endian, length_bytes, frame}
use tornado3_1_1_search.WebSocket.Receive.{
  bit_set, read_payload, read_length, on_frame_start, on_frame_length, on_masking_key,
  on_frame_data, run_handler, closing, read_complete, step_read, run,
}
use tornado3_1_1_search.WebSocket.Mask.{
  IsByte, apply_mask_twice, length-apply_mask, length-big_endian, big_endian_round_trip, fin_bit,
  IsHeader, header_lem, IsLengthByte, length_byte_lem,
}

module _ {ℓ} {A : Type ℓ} where
  take_prefix : (n : ℕ) (xs ys : List A) → length xs ≡ n → take n (xs ++ ys) ≡ xs
  take_prefix n xs ys e =
      take-append_le n xs ys (omega (arith, e)) ∙ take_all n xs (omega (arith, e))

  drop_prefix : (n : ℕ) (xs ys : List A) → length xs ≡ n → drop n (xs ++ ys) ≡ ys
  drop_prefix zero [] ys e = refl
  drop_prefix zero (x ∷ xs) ys e = absurd (omega (arith, e))
  drop_prefix (suc n) [] ys e = absurd (omega (arith, e))
  drop_prefix (suc n) (x ∷ xs) ys e = drop_prefix n xs ys (omega (arith, e))

if-and {ℓ} : {A : Type ℓ} (c b : Bool) (x y : A) → b ≡ false → (if c && b then x else y) ≡ y
if-and true b x y e = rw e
if-and false b x y e = refl

module _ (urandom : ℕ → Bytes) (react : Message → Reaction) where
  read_ready :
      (n : ℕ) (handler : Handler) (s : Socket)
      → n ≤ length s.input
      → read_bytes urandom react n handler s ≡ record s { pending = some (n, handler) }
  unfolding read_bytes
  read_ready n handler s e = if-and s.stream_closed _ _ _ (le→ltb (length s.input) n e)

  complete :
      (n : ℕ) (handler : Handler) (xs ys : Bytes) (s : Socket)
      → length xs ≡ n
      → step_read urandom react
          (some (n, handler))
          (record s { input = xs ++ ys; pending = some (n, handler) })
        ≡ closing urandom react
            (run_handler urandom react handler xs (record s { input = ys; pending = none }))
  unfolding read_complete
  complete n handler xs ys s e = rw (
    le→leb n (length (xs ++ ys)) (omega (arith, e, length-append xs ys)),
    take_prefix n xs ys e,
    drop_prefix n xs ys e,
  )

  -- A read whose bytes are there goes to its handler.
  feed :
      (fuel n : ℕ) (handler : Handler) (xs ys : Bytes) (s : Socket)
      → length xs ≡ n
      → run urandom react
          (suc fuel)
          (read_bytes urandom react n handler (record s { input = xs ++ ys }))
        ≡ run urandom react fuel (
            closing urandom react
              (run_handler urandom react handler xs (record s { input = ys; pending = none })))
  unfolding run
  feed fuel n handler xs ys s e =
      rw
        (read_ready n handler (record s { input = xs ++ ys })
          (omega (arith, e, length-append xs ys)))
        (ap (run urandom react fuel) (complete n handler xs ys s e))

abbrev pub body : Bool → Bytes → Bytes → Bytes
body masked mask bytes = if masked then mask ++ apply_mask mask bytes else bytes

-- The reads that a payload takes, and those of a frame; `fuel` is left for what comes after.
abbrev pub payload_reads : Bool → ℕ → ℕ
payload_reads masked fuel = if masked then suc (suc fuel) else suc fuel

abbrev pub frame_reads : Bool → ℕ → ℕ → ℕ
frame_reads masked l fuel =
    suc (if ltb l 126 then payload_reads masked fuel else suc (payload_reads masked fuel))

-- What a sender can put into a frame with the mask that it has drawn.
pub record CanSend (masked : Bool) (mask bytes : Bytes) : Type 0 where
  pub mask_length : length mask ≡ 4
  pub mask_bytes : Each IsByte mask
  pub data_bytes : Each IsByte bytes
  pub data_length : length bytes < 2 ^ 64

module _ (urandom : ℕ → Bytes) (react : Message → Reaction) (mask bytes rest : Bytes)
    (fuel : ℕ) where
  abbrev pub got : Bool → Socket → Socket
  got masked s = record s {
    masked_frame = masked;
    frame_mask = if masked then mask else s.frame_mask;
    frame_length = length bytes;
    input = rest;
    pending = none;
  }

  payload :
      (masked : Bool) (s : Socket)
      → CanSend masked mask bytes
      → run urandom react (payload_reads masked fuel) (
          read_payload urandom react (record s {
            masked_frame = masked;
            frame_length = length bytes;
            input = body masked mask bytes ++ rest;
          }))
        ≡ run urandom react fuel
            (closing urandom react (on_frame_data urandom react bytes (got masked s)))
  unfolding read_payload run_handler on_masking_key
  payload false s c =
      feed urandom react fuel (length bytes) frame_data bytes rest
        (record s { masked_frame = false; frame_length = length bytes }) refl
  payload true s c =
      let s' = record s { masked_frame = true; frame_length = length bytes } in
      let am = apply_mask mask bytes in
      rw (append_assoc mask am rest) (
        feed urandom react (suc fuel) 4 masking_key mask (am ++ rest) s' c.mask_length
        ∙ feed urandom react fuel (length bytes) masked_frame_data am rest
            (record s' { frame_mask = mask; pending = none }) (length-apply_mask mask bytes)
        ∙ ap
            (λ b.
              run urandom react fuel
                (closing urandom react (on_frame_data urandom react b (got true s))))
            (apply_mask_twice mask bytes c.mask_bytes c.data_bytes))

  -- The length that the second byte announces, in the bytes after it.
  long_payload :
      (masked : Bool) (k : ℕ) (handler : Handler) (s : Socket)
      → length bytes < 256 ^ k
      → ((b : Bytes) (s : Socket)
          → run_handler urandom react handler b s ≡ (false, on_frame_length urandom react b s))
      → CanSend masked mask bytes
      → run urandom react (suc (payload_reads masked fuel)) (
          read_bytes urandom react k handler (record s {
            masked_frame = masked;
            input = (big_endian k (length bytes) ++ body masked mask bytes) ++ rest;
          }))
        ≡ run urandom react fuel
            (closing urandom react (on_frame_data urandom react bytes (got masked s)))
  unfolding on_frame_length
  long_payload masked k handler s h e c =
      let s' = record s { masked_frame = masked } in
      let lb = big_endian k (length bytes) in
      rw (append_assoc lb (body masked mask bytes) rest) (
        feed urandom react (payload_reads masked fuel) k handler lb (body masked mask bytes ++ rest)
          s' (length-big_endian k (length bytes))
        ∙ ap (λ r. run urandom react (payload_reads masked fuel) (closing urandom react r))
            (e lb (record s' { input = body masked mask bytes ++ rest; pending = none }))
        ∙ ap
            (λ l. run urandom react (payload_reads masked fuel) (
              read_payload urandom react (record s' {
                frame_length = l;
                input = body masked mask bytes ++ rest;
                pending = none;
              })))
            (big_endian_round_trip k (length bytes) h)
        ∙ payload masked (record s { pending = none }) c)

  abbrev pub start : Bool → Bool → ℕ → Socket → Socket
  start masked fin opcode s = record s {
    final_frame = fin;
    frame_opcode = opcode;
    opcode_is_control = bit_set 0x8 opcode;
    masked_frame = masked;
  }

  -- The first two bytes, where the checks on them pass.
  first_bytes :
      (masked fin : Bool) (opcode b more : ℕ) (tail : Bytes) (s : Socket)
      → IsHeader fin opcode (bit_or (fin_bit fin) opcode)
      → IsLengthByte masked b (bit_or b (fin_bit masked))
      → (bit_set 0x8 opcode && leb 126 b) ≡ false
      → run urandom react (suc more) (
          read_bytes urandom react 2 frame_start
            (record s { input = bit_or (fin_bit fin) opcode ∷ bit_or b (fin_bit masked) ∷ tail }))
        ≡ run urandom react more (
            read_length urandom react b
              (record (start masked fin opcode s) { input = tail; pending = none }))
  unfolding run_handler on_frame_start byte_at
  first_bytes masked fin opcode b more tail s h l c =
      feed urandom react more 2 frame_start
        (bit_or (fin_bit fin) opcode ∷ bit_or b (fin_bit masked) ∷ []) tail s refl
      ∙ rw (h.reserved, h.fin_read, h.opcode_read, l.mask_read, l.length_read, c)

  module _ (masked fin : Bool) (opcode : ℕ) (s : Socket) (c : CanSend masked mask bytes)
      (four_bits : opcode < 16)
      (control_short : (bit_set 0x8 opcode && leb 126 (length bytes)) ≡ false) where
    abbrev Goal : Type 0
    Goal =
        run urandom react (frame_reads masked (length bytes) fuel) (
          receive_frame urandom react
            (record s { input = frame masked fin opcode mask bytes ++ rest }))
        ≡ run urandom react fuel (
            closing urandom react
              (on_frame_data urandom react bytes (got masked (start masked fin opcode s))))

    control_long :
        (b : ℕ) → leb 126 (length bytes) ≡ true → (bit_set 0x8 opcode && leb 126 b) ≡ false
    control_long b e = ground (arith, control_short)

    short : ltb (length bytes) 126 ≡ true → Goal
    unfolding receive_frame frame length_bytes read_length
    short e = rw e (
        first_bytes masked fin opcode (length bytes) (payload_reads masked fuel)
          (body masked mask bytes ++ rest) s (header_lem fin opcode four_bits)
          (length_byte_lem masked (length bytes) (omega (tests, e))) control_short
        ∙ rw e (payload masked (record (start masked fin opcode s) { pending = none }) c))

    medium : ltb (length bytes) 126 ≡ false → leb (length bytes) 0xffff ≡ true → Goal
    unfolding receive_frame frame length_bytes read_length
    medium e f =
        rw (e, f)
          (first_bytes masked fin opcode 126 (suc (payload_reads masked fuel))
              ((big_endian 2 (length bytes) ++ body masked mask bytes) ++ rest) s
              (header_lem fin opcode four_bits) (length_byte_lem masked 126 (omega arith))
              (control_long 126 (le→leb 126 (length bytes) (omega (tests, e))))
            ∙ long_payload masked 2 frame_length_16
                (record (start masked fin opcode s) { pending = none }) (omega (tests, f))
                (λ b s'. unfold run_handler in refl) c)

    long : ltb (length bytes) 126 ≡ false → leb (length bytes) 0xffff ≡ false → Goal
    unfolding receive_frame frame length_bytes read_length
    long e f =
        rw (e, f)
          (first_bytes masked fin opcode 127 (suc (payload_reads masked fuel))
              ((big_endian 8 (length bytes) ++ body masked mask bytes) ++ rest) s
              (header_lem fin opcode four_bits) (length_byte_lem masked 127 (omega arith))
              (control_long 127 (le→leb 126 (length bytes) (omega (tests, e))))
            ∙ long_payload masked 8 frame_length_64
                (record (start masked fin opcode s) { pending = none }) c.data_length
                (λ b s'. unfold run_handler in refl) c)

    -- What `_write_frame` puts on the wire, with or without a mask and for a length of any of the
    -- three forms, the handlers of a side that waits for a frame read to exactly that frame: after
    -- the reads of the frame, `_on_frame_data` gets the data as it was sent, with the flag, the
    -- opcode and the length of the frame, and the bytes after the frame are still unread. Opcodes
    -- are below 16, and the data of a control frame has fewer than 126 bytes.
    pub frame_round_trip : Goal
    frame_round_trip = elim (Bool-cases (ltb (length bytes) 126)) [
      | inl e ↦ short e
      | inr e ↦ elim (Bool-cases (leb (length bytes) 0xffff)) [
        | inl f ↦ medium e f
        | inr f ↦ long e f
      ]
    ]
