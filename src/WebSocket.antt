-- ===== src/WebSocket.antt =====
-- tornado/websocket.py: `WebSocketProtocol` and `WebSocketProtocol13`. The stream is what the
-- protocol sees of it: whether it is closed, the bytes that have come in and are not yet read, the
-- one read that is waiting, and the bytes written.
pub mod Frame
pub mod Receive
pub mod Mask
pub mod RoundTrip
pub mod Closing
pub mod Tests
use Prim.Native.Nat.{bit_and}
use tornado3_1_1_search.Base.{
  ℕ, ◌+◌, Bool, true, false, not, ◌&&◌, ◌||◌, List, [], ◌∷◌, ◌++◌, Option, none, some, is_some, ltb,
  leb, ◌==◌, if◌then◌else◌, length, take, drop, Bytes,
}
use tornado3_1_1_search.Utf8.{decode}
use Frame.{frame, apply_mask, from_big_endian, byte_at}

-- The handler that a read will call.
pub data Handler : Type 0 where
  frame_start frame_length_16 frame_length_64 masking_key masked_frame_data frame_data : Handler

-- What the application's handler is told: text is a list of code points.
pub data Message : Type 0 where
  text : List ℕ → Message
  binary : Bytes → Message
  pong : Bytes → Message

pub record Socket : Type 0 where
  pub client_terminated : Bool
  pub server_terminated : Bool
  pub mask_outgoing : Bool
  pub final_frame : Bool
  pub frame_opcode : ℕ
  pub opcode_is_control : Bool
  pub masked_frame : Bool
  pub frame_mask : Bytes
  pub frame_length : ℕ
  pub fragmented_message_buffer : Option Bytes
  pub fragmented_message_opcode : ℕ
  pub waiting : Bool
  -- the stream
  pub stream_closed : Bool
  pub input : Bytes
  pub pending : Option (ℕ × Handler)
  pub output : Bytes
  -- the number of calls of `os.urandom`, and what the application was told
  pub draws : ℕ
  pub told : List Message

-- A call of the application on its socket.
pub data Call : Type 0 where
  write_message : Bool → Bytes → Call
  write_ping : Bytes → Call
  close_call : Call

-- What the application does with a message: its calls, and whether it ends with an exception.
pub record Reaction : Type 0 where
  pub calls : List Call
  pub raises : Bool

-- What one method does: `true` if it raises `StreamClosedError` (or what the application raised).
abbrev pub Raises : Type 0
Raises = Bool × Socket

-- `self.stream.close()`
abbrev pub stream_close : Socket → Socket
stream_close s = record s { stream_closed = true }

-- The results of `os.urandom(4)` and the application are not part of the program.
module _ (urandom : ℕ → Bytes) (react : Message → Reaction) where
  -- `_write_frame`
  pub write_frame : Bool → ℕ → Bytes → Socket → Raises
  write_frame fin opcode bytes s =
      let s' = record s { draws = if s.mask_outgoing then s.draws + 1 else s.draws } in
      if s.stream_closed then (true, s') else (
        false,
        record s' { output = s.output ++ frame s.mask_outgoing fin opcode (urandom s.draws) bytes },
      )

  -- `close` of `WebSocketProtocol13`
  unfoldable pub close : Socket → Socket
  unfolding write_frame
  close s =
      let s1 =
        if s.server_terminated
        then s
        else record (if s.stream_closed then s else (write_frame true 0x8 [] s).1) {
          server_terminated = true;
        } in
      if s1.client_terminated
      then stream_close (record s1 { waiting = false })
      else record s1 { waiting = true }

  pub abort : Socket → Socket
  unfolding close
  abort s = close (stream_close (record s { client_terminated = true; server_terminated = true }))

  -- `write_message`: a closed stream ends the connection.
  pub send_message : Bool → Bytes → Socket → Socket
  unfolding write_frame abort
  send_message is_binary message s =
      let (raised, s') = write_frame true (if is_binary then 0x2 else 0x1) message s in
      if raised then abort s' else s'

  pub run_calls : List Call → Socket → Raises
  unfolding send_message write_frame close
  run_calls [] s = (false, s)
  run_calls (write_message is_binary message ∷ calls) s =
      run_calls calls (send_message is_binary message s)
  run_calls (write_ping bytes ∷ calls) s =
      let rest = run_calls calls (write_frame true 0x9 bytes s).1 in
      if (write_frame true 0x9 bytes s).0 then write_frame true 0x9 bytes s else rest
  run_calls (close_call ∷ calls) s = run_calls calls (close s)

  -- `self.async_callback(self.handler.on_message)(...)`: an exception aborts the connection.
  pub tell : Message → Socket → Socket
  unfolding run_calls abort
  tell m s =
      let (raised, s') = run_calls (react m).calls (record s { told = s.told ++ m ∷ [] }) in
      if raised || (react m).raises then abort s' else s'

  -- `self.stream.read_bytes(n, handler)` and `except StreamClosedError: self._abort()`
  pub read_bytes : ℕ → Handler → Socket → Socket
  unfolding abort
  read_bytes n handler s =
      if s.stream_closed && ltb (length s.input) n
      then abort s
      else record s { pending = some (n, handler) }

  pub receive_frame : Socket → Socket
  unfolding read_bytes
  receive_frame s = read_bytes 2 frame_start s

  pub handle_text : Option (List ℕ) → Socket → Socket
  unfolding tell
  handle_text none s = abort s
  handle_text (some decoded) s = tell (text decoded) s

  -- `_handle_message`
  pub handle_message : ℕ → Bytes → Socket → Raises
  unfolding handle_text
  handle_message opcode bytes s =
      if s.client_terminated
      then (false, s)
      else if opcode == 0x1
      then (false, handle_text (decode bytes) s)
      else if opcode == 0x2
      then (false, tell (binary bytes) s)
      else if opcode == 0x8
      then (false, close (record s { client_terminated = true }))
      else if opcode == 0x9
      then write_frame true 0xa bytes s
      else if opcode == 0xa
      then (false, tell (pong bytes) s)
      else (false, abort s)
