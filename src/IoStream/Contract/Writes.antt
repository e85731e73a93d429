-- ===== src/IoStream/Contract/Writes.antt =====
-- The write path of tornado/iostream.py: retries, and a connection that fails with data waiting.
use tornado3_1_1_search.Base.{
  ℕ, ◌≡◌, refl, ap, ◌∙◌, Bool, true, false, if_intro, if◌then◌else◌, List, [], ◌∷◌, ◌++◌, Option,
  none, some, arith, length, Bytes, min,
}
use mathlib.Core.Bool.{false≢true}
use tornado3_1_1_search.Deque.{merge_prefix}
use tornado3_1_1_search.IoStream.{
  Error, no_socket, socket_error, Errno, ok, raised, Send, room, send_error, Stream, run_with_data,
  close, maybe_run_close_callback, streamed_rest, finish_read_until_close, or_else, writing,
  first_chunk,
}
use tornado3_1_1_search.IoStream.Writing.{
  merge_size, write_loop, prepare, freeze, accept, after_write_loop, handle_write, handle_connect,
}
use tornado3_1_1_search.IoStream.Loop.{Ready, handle_events, write_event, after_events}

-- A loop of sends that ends with data left, and did not close the stream, leaves it frozen.
write_loop_frozen :
    (out : List Send) (s : Stream)
    → (write_loop out s).0 ≡ ok false
    → writing (write_loop out s).1 ≡ true
    → (write_loop out s).1.write_buffer_frozen ≡ true
unfolding write_loop freeze
write_loop_frozen [] s e w = ground arith
write_loop_frozen (room n ∷ rest) s e w = ground (
  arith,
  write_loop_frozen rest
      (accept (min n (length (first_chunk (prepare s).write_buffer))) (prepare s)),
)
write_loop_frozen (send_error x ∷ rest) s e w = ground arith

prepare_frozen :
    (s : Stream) (extra : List Bytes)
    → s.write_buffer_frozen ≡ true
    → writing s ≡ true
    → first_chunk (prepare (record s { write_buffer = s.write_buffer ++ extra })).write_buffer
      ≡ first_chunk s.write_buffer
unfolding prepare
prepare_frozen s extra e w =
    ap
      (λ b.
        first_chunk
          (if b
            then s'
            else record s' { write_buffer = merge_prefix s'.write_buffer merge_size }).write_buffer)
      e
    ∙ same s.write_buffer w
  where
    s' : Stream
    s' = record s { write_buffer = s.write_buffer ++ extra }

    same :
        (d : List Bytes)
        → (elim d as (λ _. Bool) [ [] ↦ false | chunk ∷ rest ↦ true ]) ≡ true
        → first_chunk (d ++ extra) ≡ first_chunk d
    same [] w = absurd (false≢true w)
    same (c ∷ d) w = refl

-- When the loop of `_handle_write` stops with data left on an open stream, whatever is appended to
-- the buffer meanwhile, the next call of `write_to_fd` gets the chunk that the last one got.
pub retry_same_bytes :
    (out : List Send) (s : Stream) (extra : List Bytes)
    → (write_loop out s).0 ≡ ok false
    → writing (write_loop out s).1 ≡ true
    → let s' = (write_loop out s).1 in
      first_chunk (prepare (record s' { write_buffer = s'.write_buffer ++ extra })).write_buffer
      ≡ first_chunk s'.write_buffer
retry_same_bytes out s extra e w =
    prepare_frozen (write_loop out s).1 extra (write_loop_frozen out s e w) w

-- `close` closes, and leaves the data to write where it is.
pub record Closes (s s' : Stream) : Type 0 where
  pub closed : s'.closed ≡ true
  same : s'.write_buffer ≡ s.write_buffer

write_buffer-run_with_data :
    (cb : Option ℕ) (n : ℕ) (s : Stream) → (run_with_data cb n s).write_buffer ≡ s.write_buffer
unfolding run_with_data
write_buffer-run_with_data cb n s = ground arith

write_buffer-streamed_rest : (s : Stream) → (streamed_rest s).write_buffer ≡ s.write_buffer
unfolding streamed_rest
write_buffer-streamed_rest s =
    if_intro (λ (s' : Stream). s'.write_buffer ≡ s.write_buffer) _ _ _
      (λ _. write_buffer-run_with_data s.streaming_callback s.read_buffer_size s) (λ _. refl)

write_buffer-finish : (s : Stream) → (finish_read_until_close s).write_buffer ≡ s.write_buffer
unfolding finish_read_until_close
write_buffer-finish s =
    if_intro (λ (s' : Stream). s'.write_buffer ≡ s.write_buffer) s.read_until_close _ _
      (λ _. write_buffer-run_with_data _ _ _ ∙ write_buffer-streamed_rest s) (λ _. refl)

maybe_run-Closes : (s s' : Stream) → Closes s s' → Closes s (maybe_run_close_callback s')
unfolding maybe_run_close_callback
maybe_run-Closes s s' h = record {
  closed = ground (arith, h.closed);
  same = ground (arith, h.same);
}

pub close-Closes : (exc : Option Error) (s : Stream) → Closes s (close exc s)
unfolding close
close-Closes exc s = maybe_run-Closes s _ (
    if_intro (Closes s) s.closed _ _ (λ e. record { closed = e; same = refl })
      (λ _. record {
        closed = refl;
        same = write_buffer-finish (record s { error = or_else exc s.error });
      }))

-- A closed stream with data to write has no socket to send it on.
write_loop_no_socket :
    (out : List Send) (s : Stream)
    → writing s ≡ true
    → s.closed ≡ true
    → (write_loop out s).0 ≡ raised no_socket
unfolding write_loop
write_loop_no_socket [] s w c = ground arith
write_loop_no_socket (room n ∷ rest) s w c = ground arith
write_loop_no_socket (send_error e ∷ rest) s w c = ground arith

handle_write_no_socket :
    (s : Stream) → writing s ≡ true → s.closed ≡ true → (handle_write s).0 ≡ raised no_socket
unfolding handle_write
handle_write_no_socket s w c = rw (write_loop_no_socket s.outgoing s w c, after_write_loop)

module _ (ev : Ready) (s : Stream) (e : Errno) (open_ : s.closed ≡ false)
    (unread : ev.reads ≡ false) (ready_ : ev.writes ≡ true) (trying : s.connecting ≡ true)
    (failed : ev.so_error ≡ some e) (waiting : writing s ≡ true) where
  refused : Closes s (handle_connect ev.so_error s)
  unfolding handle_connect
  refused = rw failed (
      let c = close-Closes none (record s { error = some (socket_error e) }) in
      record { closed = c.closed; same = c.same })

  write_event_raises : (write_event ev s).0 ≡ raised no_socket
  unfolding write_event
  write_event_raises =
      simp (ready_, trying)
        (handle_write_no_socket _
          (ap (λ d. elim d [ [] ↦ false | chunk ∷ rest ↦ true ]) refused.same ∙ waiting)
          refused.closed)

  -- When a connection fails after data was written to the stream, `_handle_events` still calls
  -- `_handle_write`, which has no socket to send on: the handler ends with an exception.
  pub connect_failure_raises : (handle_events ev s).0 ≡ raised no_socket
  unfolding handle_events after_events
  connect_failure_raises = simp (open_, unread, write_event_raises)
