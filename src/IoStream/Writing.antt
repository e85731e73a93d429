-- ===== src/IoStream/Writing.antt =====
-- tornado/iostream.py: the write buffer, and connecting.
use tornado3_1_1_search.Base.{
  ℕ, zero, suc, ◌*◌, min, Bool, true, false, not, ◌&&◌, List, [], ◌∷◌, ◌++◌, Option, none, some,
  is_some, ltb, ◌==◌, if◌then◌else◌, length, take, drop, Bytes,
}
use tornado3_1_1_search.Deque.{merge_prefix}
use tornado3_1_1_search.IoStream.{
  Errno, ewouldblock, einprogress, Outcome, no_socket, stream_closed, socket_error, Result, ok,
  raised, Send, room, send_error, Stream, writing, run_callback, close, for_write, add_io_state,
  maybe_add_error_listener, first_chunk, other_chunks,
}
use tornado3_1_1_search.IoStream.Reading.{would_block}

abbrev pub merge_size : ℕ
merge_size = 128 * 1024

-- `for i in range(0, len(data), WRITE_BUFFER_CHUNK_SIZE)`; `fuel` bounds the rounds.
unfoldable pub pieces : ℕ → ℕ → Bytes → List Bytes
pieces zero size bytes = []
pieces (suc fuel) size [] = []
pieces (suc fuel) size (b ∷ bytes) =
    take size (b ∷ bytes) ∷ pieces fuel size (drop size (b ∷ bytes))

unfoldable pub write_chunks : ℕ → Bytes → List Bytes
unfolding pieces
write_chunks size [] = []
write_chunks size (b ∷ bytes) =
    if ltb size (length (b ∷ bytes))
    then pieces (length (b ∷ bytes)) size (b ∷ bytes)
    else (b ∷ bytes) ∷ []

-- One round of `while self._write_buffer:` up to the call of `write_to_fd`
unfoldable pub prepare : Stream → Stream
prepare s =
    if s.write_buffer_frozen
    then s
    else record s { write_buffer = merge_prefix s.write_buffer merge_size }

unfoldable pub freeze : List Send → Stream → Stream
freeze rest s = record s { write_buffer_frozen = true; outgoing = rest }

-- What follows `num_bytes = self.write_to_fd(...)` where `num_bytes` is not 0
unfoldable pub accept : ℕ → Stream → Stream
accept num_bytes s = record s {
  write_buffer_frozen = false;
  write_buffer = other_chunks (merge_prefix s.write_buffer num_bytes);
  sent = s.sent ++ take num_bytes (first_chunk s.write_buffer);
}

-- The loop of `_handle_write`; `ok true` if it closed the stream and returned. A socket with no
-- result left would block, and a closed stream has no socket to call `send` on.
unfoldable pub write_loop : List Send → Stream → Result Bool × Stream
unfolding prepare freeze accept
write_loop [] s =
    if writing s
    then if s.closed then (raised no_socket, prepare s) else (ok false, freeze [] (prepare s))
    else (ok false, record s { outgoing = [] })
write_loop (room n ∷ rest) s =
    let s1 = prepare s in
    let num_bytes = min n (length (first_chunk s1.write_buffer)) in
    let next = write_loop rest (accept num_bytes s1) in
    if writing s
    then if s.closed
      then (raised no_socket, s1)
      else if num_bytes == 0
      then (ok false, freeze rest s1)
      else next
    else (ok false, record s { outgoing = room n ∷ rest })
write_loop (send_error e ∷ rest) s =
    let s1 = prepare s in
    if writing s
    then if s.closed
      then (raised no_socket, s1)
      else if would_block e
      then (ok false, freeze rest s1)
      else (ok true, close (some (socket_error e)) (record s1 { outgoing = rest }))
    else (ok false, record s { outgoing = send_error e ∷ rest })

-- `if not self._write_buffer and self._write_callback:`
unfoldable pub finish_write : Stream → Stream
finish_write s =
    if not (writing s) && is_some s.write_callback
    then run_callback s.write_callback none (record s { write_callback = none })
    else s

unfoldable pub after_write_loop : Result Bool → Stream → Outcome × Stream
unfolding finish_write
after_write_loop (raised e) s = (raised e, s)
after_write_loop (ok true) s = (ok tt, s)
after_write_loop (ok false) s = (ok tt, finish_write s)

unfoldable pub handle_write : Stream → Outcome × Stream
unfolding write_loop after_write_loop
handle_write s = let (r, s') = write_loop s.outgoing s in after_write_loop r s'

abbrev pub listen_for_write : Stream → Stream
listen_for_write s = if writing s then add_io_state for_write s else s

unfoldable pub after_write : Outcome → Stream → Outcome × Stream
after_write (raised e) s = (raised e, s)
after_write (ok _) s = (ok tt, maybe_add_error_listener (listen_for_write s))

-- `write(data, callback)`
unfoldable pub write : Bytes → Option ℕ → Stream → Outcome × Stream
unfolding write_chunks handle_write after_write
write bytes callback s =
    let s1 = record s {
      write_buffer = s.write_buffer ++ write_chunks merge_size bytes;
      written = s.written ++ bytes;
      write_callback = callback;
    } in
    let (r, s2) = handle_write s1 in
    if s.closed
    then (raised stream_closed, s)
    else if s.connecting
    then (ok tt, s1)
    else after_write r s2

-- What follows `socket.connect`, which returns or fails with an error
unfoldable pub after_connect : Option Errno → Option ℕ → Stream → Stream
after_connect none callback s = add_io_state for_write (record s { connect_callback = callback })
after_connect (some einprogress) callback s =
    add_io_state for_write (record s { connect_callback = callback })
after_connect (some ewouldblock) callback s =
    add_io_state for_write (record s { connect_callback = callback })
after_connect (some e) callback s = close (some (socket_error e)) s

-- `connect`: a stream that is closed has no socket.
unfoldable pub connect : Option Errno → Option ℕ → Stream → Outcome × Stream
unfolding after_connect
connect e callback s =
    if s.closed
    then (raised no_socket, record s { connecting = true })
    else (ok tt, after_connect e callback (record s { connecting = true }))

-- `_handle_connect`; `err` is the pending error of the socket, `none` for 0.
unfoldable pub handle_connect : Option Errno → Stream → Stream
handle_connect (some e) s = close none (record s { error = some (socket_error e) })
handle_connect none s =
    record (if is_some s.connect_callback
      then run_callback s.connect_callback none (record s { connect_callback = none })
      else s) { connecting = false }
