-- ===== src/IoStream/Reading.antt =====
-- tornado/iostream.py: from the socket into the read buffer, and from the buffer to the callbacks.
pub mod Search
pub mod Edges
use mathlib.Core.Option
use tornado3_1_1_search.Base.{
  ℕ, zero, suc, ◌+◌, ◌-◌, min, Bool, true, false, ◌&&◌, List, [], ◌∷◌, ◌++◌, Option, none, some,
  is_some, ltb, leb, if◌then◌else◌, length, Bytes, find,
}
use tornado3_1_1_search.Deque.{double_prefix}
use tornado3_1_1_search.IoStream.{
  Errno, ewouldblock, eagain, econnreset, Error, Outcome, stream_closed, buffer_full,
  already_reading, socket_error, Result, ok, raised, Recv, Regex, received, recv_error, Stream,
  run_with_data, close, maybe_run_close_callback, maybe_add_error_listener,
}

abbrev pub would_block : Errno → Bool
would_block ewouldblock = true
would_block eagain = true
would_block _ = false

abbrev pub is_reset : Errno → Bool
is_reset econnreset = true
is_reset _ = false

pub read_from_fd : Recv → Stream → Result (Option Bytes) × Stream
read_from_fd (received []) s = (ok none, close none s)
read_from_fd (received (b ∷ bs)) s = (ok (some (b ∷ bs)), s)
read_from_fd (recv_error e) s = if would_block e then (ok none, s) else (raised (socket_error e), s)

-- `self._read_buffer.append(chunk)` and the limit on the buffer's size
unfoldable pub append_chunk : Bytes → Stream → Result (Option ℕ) × Stream
append_chunk chunk s =
    let s' = record s {
      read_buffer = s.read_buffer ++ chunk ∷ [];
      read_buffer_size = s.read_buffer_size + length chunk;
      bytes_in = s.bytes_in ++ chunk;
    } in
    if leb s.max_buffer_size s'.read_buffer_size
    then (raised buffer_full, close none s')
    else (ok (some (length chunk)), s')

unfoldable pub read_failed : Error → Stream → Result (Option ℕ) × Stream
read_failed (socket_error e) s =
    (if is_reset e then ok none else raised (socket_error e), close (some (socket_error e)) s)
read_failed e s = (raised e, close (some e) s)

-- `ok none` is a `return` without a value, after a reset of the connection.
unfoldable pub read_to_buffer : Recv → Stream → Result (Option ℕ) × Stream
unfolding read_from_fd append_chunk read_failed
read_to_buffer recv s = elim (read_from_fd recv s).0 [
  | ok none ↦ (ok (some 0), (read_from_fd recv s).1)
  | ok (some chunk) ↦ append_chunk chunk (read_from_fd recv s).1
  | raised e ↦ read_failed e (read_from_fd recv s).1
]

-- `if self._read_to_buffer() == 0: break`
unfoldable pub after_read :
    Result (Option ℕ) → List Recv → Stream → Outcome × Stream → Outcome × Stream
after_read (ok (some zero)) rest s next = (ok tt, record s { incoming = rest })
after_read (ok (some (suc n))) rest s next = next
after_read (ok none) rest s next = next
after_read (raised e) rest s next = (raised e, record s { incoming = rest })

-- `while not self.closed():` of `_handle_read` and `_try_inline_read`; a socket with no result left
-- would block.
unfoldable pub read_loop : List Recv → Stream → Outcome × Stream
unfolding read_to_buffer after_read
read_loop [] s = (ok tt, record s { incoming = [] })
read_loop (recv ∷ rest) s =
    let next = read_loop rest (read_to_buffer recv s).1 in
    if s.closed
    then (ok tt, record s { incoming = recv ∷ rest })
    else after_read (read_to_buffer recv s).0 rest (read_to_buffer recv s).1 next

-- The `while True:` of the two searches. `matcher` gives the end of the first match.
unfoldable pub search_loop : (Bytes → Option ℕ) → ℕ → List Bytes → Option ℕ × List Bytes
search_loop matcher zero d = (none, d)
search_loop matcher (suc fuel) [] = (none, [])
search_loop matcher (suc fuel) (c ∷ []) = (matcher c, c ∷ [])
search_loop matcher (suc fuel) (c ∷ b ∷ d) = elim (matcher c) [
  | some loc ↦ (some loc, c ∷ b ∷ d)
  | none ↦ search_loop matcher fuel (double_prefix (c ∷ b ∷ d))
]

-- `self._read_buffer[0].find(self._read_delimiter)`, and the end of what it finds
unfoldable pub find_end : Bytes → Bytes → Option ℕ
find_end delimiter chunk = Option.map (λ loc. loc + length delimiter) (find delimiter chunk)

-- what `_read_from_buffer` hands to the streaming callback, by `_read_bytes`
unfoldable pub stream_bytes : Option ℕ → Stream → Stream
stream_bytes none s = run_with_data s.streaming_callback s.read_buffer_size s
stream_bytes (some n) s =
    let bytes_to_consume = min n s.read_buffer_size in
    run_with_data s.streaming_callback bytes_to_consume
      (record s { read_bytes = some (n - bytes_to_consume) })

-- the `_streaming_callback` part of `_read_from_buffer`
unfoldable pub stream_data : Stream → Stream
unfolding stream_bytes
stream_data s =
    if is_some s.streaming_callback && ltb 0 s.read_buffer_size
    then stream_bytes s.read_bytes s
    else s

-- the part of `_read_from_buffer` that `read_bytes` sets up
abbrev pub enough_bytes : Stream → Bool
enough_bytes s = elim s.read_bytes [ none ↦ false | some n ↦ leb n s.read_buffer_size ]

abbrev pub or_zero : Option ℕ → ℕ
or_zero none = 0
or_zero (some n) = n

abbrev pub bytes_done : Stream → Stream
bytes_done s = record s { read_callback = none; streaming_callback = none; read_bytes = none }

abbrev pub delimiter_done : Stream → Stream
delimiter_done s = record s {
  read_callback = none;
  streaming_callback = none;
  read_delimiter = none;
}

abbrev pub regex_done : Stream → Stream
regex_done s = record s { read_callback = none; streaming_callback = none; read_regex = none }

-- What a search ends in: a match is consumed and handed to the callback that was waiting.
unfoldable pub search_buffer : (Bytes → Option ℕ) → (Stream → Stream) → Stream → Bool × Stream
unfolding search_loop
search_buffer matcher done s =
    let (found, buffer) = search_loop matcher (length s.read_buffer) s.read_buffer in
    let s' = record s { read_buffer = buffer } in
    elim found [
      | none ↦ (false, s')
      | some loc ↦ (true, run_with_data s.read_callback loc (done s'))
    ]

-- the branches for a delimiter and for a regular expression
unfoldable pub finish_search : Option Bytes → Option Regex → Stream → Bool × Stream
unfolding search_buffer
finish_search (some delimiter) regex s = search_buffer (find_end delimiter) delimiter_done s
finish_search none (some regex) s = search_buffer regex.search regex_done s
finish_search none none s = (false, s)

unfoldable pub finish_read : Stream → Bool × Stream
unfolding finish_search
finish_read s =
    if enough_bytes s
    then (true, run_with_data s.read_callback (or_zero s.read_bytes) (bytes_done s))
    else finish_search s.read_delimiter s.read_regex s

unfoldable pub read_from_buffer : Stream → Bool × Stream
unfolding stream_data finish_read
read_from_buffer s = finish_read (stream_data s)

abbrev pub hold : Stream → Stream
hold s = record s { pending_callbacks = s.pending_callbacks + 1 }

abbrev pub release : Stream → Stream
release s = record s { pending_callbacks = s.pending_callbacks - 1 }

unfoldable pub after_handle_read : Outcome → Stream → Stream
after_handle_read (raised e) s = close (some e) s
after_handle_read (ok _) s =
    let (done, s') = read_from_buffer s in if done then s' else maybe_run_close_callback s'

unfoldable pub handle_read : Stream → Stream
unfolding after_handle_read
handle_read s = let (r, s') = read_loop s.incoming (hold s) in after_handle_read r (release s')

unfoldable pub after_inline_read : Outcome → Stream → Outcome × Stream
after_inline_read (raised e) s = (raised e, maybe_run_close_callback s)
after_inline_read (ok _) s =
    let (done, s') = read_from_buffer s in (ok tt, if done then s' else maybe_add_error_listener s')

unfoldable pub try_inline_read : Stream → Outcome × Stream
unfolding after_inline_read
try_inline_read s =
    let (done, s1) = read_from_buffer s in
    let (r, s2) = read_loop s1.incoming (hold s1) in
    if done
    then (ok tt, s1)
    else if s1.closed
    then (raised stream_closed, s1)
    else after_inline_read r (release s2)

-- `assert not self._read_callback`; what follows runs only if the assertion holds.
abbrev pub if_not_reading : Stream → Outcome × Stream → Outcome × Stream
if_not_reading s rest = if is_some s.read_callback then (raised already_reading, s) else rest

unfoldable pub read_until_regex : Regex → ℕ → Stream → Outcome × Stream
read_until_regex regex callback s =
    if_not_reading s
      (try_inline_read (record s { read_callback = some callback; read_regex = some regex }))

unfoldable pub read_until : Bytes → ℕ → Stream → Outcome × Stream
read_until delimiter callback s =
    if_not_reading s (
      try_inline_read (record s { read_callback = some callback; read_delimiter = some delimiter }))

unfoldable pub read_bytes_of : ℕ → ℕ → Option ℕ → Stream → Outcome × Stream
read_bytes_of num_bytes callback streaming_callback s = if_not_reading s (
    try_inline_read (record s {
      read_callback = some callback;
      read_bytes = some num_bytes;
      streaming_callback = streaming_callback;
    }))

-- the branch of `read_until_close` for a stream that is closed
unfoldable pub read_rest : Stream → Stream
read_rest s =
    let s1 =
      if is_some s.streaming_callback
      then run_with_data s.streaming_callback s.read_buffer_size s
      else s in
    record (run_with_data s1.read_callback s1.read_buffer_size s1) {
      streaming_callback = none;
      read_callback = none;
    }

unfoldable pub read_until_close : ℕ → Option ℕ → Stream → Outcome × Stream
unfolding read_rest
read_until_close callback streaming_callback s =
    let s1 = record s { read_callback = some callback; streaming_callback = streaming_callback } in
    if_not_reading s (
      if s.closed
      then (ok tt, read_rest s1)
      else try_inline_read (record s1 { read_until_close = true }))
