-- ===== src/WebSocket/Receive.antt =====
-- tornado/websocket.py: the read handlers of `WebSocketProtocol13`, from the first two bytes of a
-- frame to the message that it completes.
use Prim.Native.Nat.{bit_and}
use tornado3_1_1_search.Base.{
  ℕ, zero, suc, Bool, true, false, not, ◌&&◌, ◌++◌, Option, none, some, ltb, leb, ◌==◌,
  if◌then◌else◌, length, take, drop, Bytes,
}
use tornado3_1_1_search.WebSocket.{
  Handler, frame_start, frame_length_16, frame_length_64, masking_key, masked_frame_data,
  frame_data, Message, Socket, Reaction, Raises, stream_close, abort, read_bytes, receive_frame,
  handle_message,
}
use tornado3_1_1_search.WebSocket.Frame.{byte_at, apply_mask, from_big_endian}

abbrev pub bit_set : ℕ → ℕ → Bool
bit_set mask b = not (bit_and b mask == 0)

module _ (urandom : ℕ → Bytes) (react : Message → Reaction) where
  -- `if self._masked_frame: ... else: ...`, which three handlers share
  unfoldable pub read_payload : Socket → Socket
  read_payload s =
      if s.masked_frame
      then read_bytes urandom react 4 masking_key s
      else read_bytes urandom react s.frame_length frame_data s

  -- the part of `_on_frame_start` that follows the checks; `l` is below 128.
  unfoldable pub read_length : ℕ → Socket → Socket
  unfolding read_payload
  read_length l s =
      if ltb l 126
      then read_payload (record s { frame_length = l })
      else if l == 126
      then read_bytes urandom react 2 frame_length_16 s
      else if l == 127
      then read_bytes urandom react 8 frame_length_64 s
      else s

  unfoldable pub on_frame_start : ℕ → ℕ → Socket → Socket
  unfolding read_length
  on_frame_start header payloadlen s =
      let s1 = record s {
        final_frame = bit_set 0x80 header;
        frame_opcode = bit_and header 0xf;
        opcode_is_control = bit_set 0x8 (bit_and header 0xf);
      } in
      let s2 = record s1 { masked_frame = bit_set 0x80 payloadlen } in
      let l = bit_and payloadlen 0x7f in
      if bit_set 0x70 header
      then abort urandom react s1
      else if s1.opcode_is_control && leb 126 l
      then abort urandom react s2
      else read_length l s2

  unfoldable pub on_frame_length : Bytes → Socket → Socket
  unfolding read_payload
  on_frame_length bytes s = read_payload (record s { frame_length = from_big_endian 0 bytes })

  unfoldable pub on_masking_key : Bytes → Socket → Socket
  on_masking_key bytes s =
      read_bytes urandom react s.frame_length masked_frame_data (record s { frame_mask = bytes })

  -- the end of `_on_frame_data`: the message, if there is one, and the next frame
  pub next_frame : Raises → Raises
  next_frame (true, s) = (true, s)
  next_frame (false, s) = (false, if s.client_terminated then s else receive_frame urandom react s)

  -- a continuation frame
  pub continue_message : Option Bytes → Bytes → Socket → Raises
  unfolding next_frame
  continue_message none bytes s = (false, abort urandom react s)
  continue_message (some buffer) bytes s =
      if s.final_frame
      then next_frame (
          handle_message urandom react s.fragmented_message_opcode (buffer ++ bytes)
            (record s { fragmented_message_buffer = none }))
      else next_frame (false, record s { fragmented_message_buffer = some (buffer ++ bytes) })

  -- the first frame of a message
  pub start_message : Option Bytes → Bytes → Socket → Raises
  unfolding next_frame
  start_message (some buffer) bytes s = (false, abort urandom react s)
  start_message none bytes s =
      if s.final_frame
      then next_frame (handle_message urandom react s.frame_opcode bytes s)
      else next_frame (
        false,
        record s {
          fragmented_message_opcode = s.frame_opcode;
          fragmented_message_buffer = some bytes;
        },
      )

  pub on_frame_data : Bytes → Socket → Raises
  unfolding continue_message start_message next_frame
  on_frame_data bytes s =
      if s.opcode_is_control
      then if s.final_frame
        then next_frame (handle_message urandom react s.frame_opcode bytes s)
        else (false, abort urandom react s)
      else if s.frame_opcode == 0
      then continue_message s.fragmented_message_buffer bytes s
      else start_message s.fragmented_message_buffer bytes s

  -- The handler of a read, on the bytes that it asked for. Fewer than two cannot come to
  -- `_on_frame_start`, where `struct.unpack` would fail.
  unfoldable pub run_handler : Handler → Bytes → Socket → Raises
  unfolding on_frame_start on_frame_length on_masking_key on_frame_data
  run_handler frame_start bytes s = (false, on_frame_start (byte_at 0 bytes) (byte_at 1 bytes) s)
  run_handler frame_length_16 bytes s = (false, on_frame_length bytes s)
  run_handler frame_length_64 bytes s = (false, on_frame_length bytes s)
  run_handler masking_key bytes s = (false, on_masking_key bytes s)
  run_handler masked_frame_data bytes s = on_frame_data (apply_mask s.frame_mask bytes) s
  run_handler frame_data bytes s = on_frame_data bytes s

  -- The stream's wrapper of a callback: an exception closes the stream.
  abbrev pub closing : Raises → Socket
  closing (false, s) = s
  closing (true, s) = stream_close s

  -- One read that is complete: the stream hands its bytes to the handler.
  unfoldable pub read_complete : ℕ → Handler → Socket → Socket
  unfolding run_handler
  read_complete n handler s =
      closing
        (run_handler handler (take n s.input) (record s { input = drop n s.input; pending = none }))

  abbrev pub step_read : Option (ℕ × Handler) → Socket → Socket
  step_read none s = s
  step_read (some (n, handler)) s = if leb n (length s.input) then read_complete n handler s else s

  -- The loop makes the calls that are due, at most `fuel` of them.
  unfoldable pub run : ℕ → Socket → Socket
  unfolding read_complete
  run zero s = s
  run (suc fuel) s = run fuel (step_read s.pending s)
