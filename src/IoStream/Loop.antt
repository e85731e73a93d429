-- ===== src/IoStream/Loop.antt =====
-- tornado/iostream.py: `_handle_events`, the wrapper that `_run_callback` puts in the loop's queue,
-- and a stream's life as a list of events: the socket is ready, the loop makes the next call, or
-- code outside any callback uses the stream. A callback is user code, so an event says what it does.
use tornado3_1_1_search.Base.{
  ℕ, ◌-◌, Bool, true, false, not, ◌&&◌, ◌||◌, List, [], ◌∷◌, ◌++◌, Option, none, some,
  if◌then◌else◌, Bytes,
}
use tornado3_1_1_search.IoStream.{
  Errno, other, Error, no_state, user_error, socket_error, Regex, Outcome, ok, raised, Interest,
  LoopCall, wrapper, close_later, Stream, reading, writing, close, maybe_add_error_listener, watch,
}
use tornado3_1_1_search.IoStream.Reading.{
  handle_read, read_until_regex, read_until, read_bytes_of, read_until_close,
}
use tornado3_1_1_search.IoStream.Writing.{handle_write, write, connect, handle_connect}

-- What the loop reports, and the pending error of the socket (`SO_ERROR`, `none` for 0).
pub record Ready : Type 0 where
  pub reads : Bool
  pub writes : Bool
  pub errors : Bool
  pub so_error : Option Errno

abbrev pub fd_error : Option Errno → Error
fd_error none = socket_error (other 0)
fd_error (some e) = socket_error e

abbrev pub bool_eq : Bool → Bool → Bool
bool_eq true b = b
bool_eq false b = not b

abbrev pub same_interest : Interest → Interest → Bool
same_interest i j = bool_eq i.reads j.reads && bool_eq i.writes j.writes

-- `state` at the end of `_handle_events`
abbrev pub wanted : Stream → Interest
wanted s = record { reads = reading s || not (writing s); writes = writing s }

unfoldable pub update_interest : Stream → Outcome × Stream
update_interest s = elim s.state [
  | none ↦ (raised no_state, s)
  | some i ↦ if same_interest (wanted s) i then (ok tt, s) else (ok tt, watch (wanted s) s)
]

abbrev pub closing : Outcome × Stream → Outcome × Stream
closing (raised e, s) = (raised e, close (some e) s)
closing (ok _, s) = (ok tt, s)

unfoldable pub after_events : Ready → Outcome → Stream → Outcome × Stream
unfolding update_interest
after_events ev (raised e) s = (raised e, s)
after_events ev (ok _) s =
    if s.closed
    then (ok tt, s)
    else if ev.errors
    then (
      ok tt,
      record s { error = some (fd_error ev.so_error); queue = s.queue ++ close_later ∷ [] },
    )
    else update_interest s

unfoldable pub write_event : Ready → Stream → Outcome × Stream
write_event ev s =
    if ev.writes
    then handle_write (if s.connecting then handle_connect ev.so_error s else s)
    else (ok tt, s)

abbrev pub read_event : Ready → Stream → Stream
read_event ev s = if ev.reads then handle_read s else s

unfoldable pub handle_events : Ready → Stream → Outcome × Stream
unfolding after_events write_event
handle_events ev s =
    let s1 = read_event ev s in
    let (r, s2) = write_event ev s1 in
    if s.closed
    then (ok tt, s)
    else if s1.closed
    then (ok tt, s1)
    else closing (after_events ev r s2)

-- The calls that user code makes on a stream.
pub data Op : Type 0 where
  op_read_until : Bytes → ℕ → Op
  op_read_until_regex : Regex → ℕ → Op
  op_read_bytes : ℕ → ℕ → Option ℕ → Op
  op_read_until_close : ℕ → Option ℕ → Op
  op_write : Bytes → Option ℕ → Op
  op_connect : Option Errno → Option ℕ → Op
  op_set_close_callback : Option ℕ → Op
  op_close : Op

unfoldable pub run_op : Op → Stream → Outcome × Stream
run_op (op_read_until delimiter callback) s = read_until delimiter callback s
run_op (op_read_until_regex regex callback) s = read_until_regex regex callback s
run_op (op_read_bytes n callback streaming) s = read_bytes_of n callback streaming s
run_op (op_read_until_close callback streaming) s = read_until_close callback streaming s
run_op (op_write bytes callback) s = write bytes callback s
run_op (op_connect e callback) s = connect e callback s
run_op (op_set_close_callback callback) s = (ok tt, record s { close_callback = callback })
run_op op_close s = (ok tt, close none s)

-- What the body of a callback does: an exception of a call ends it, and so may one of its own.
pub record Body : Type 0 where
  pub ops : List Op
  pub raises : Bool

unfoldable pub run_ops : List Op → Bool → Stream → Outcome × Stream
unfolding run_op
run_ops [] raises s = (if raises then raised user_error else ok tt, s)
run_ops (op ∷ ops) raises s =
    let rest = run_ops ops raises (run_op op s).1 in
    elim (run_op op s).0 [ raised e ↦ (raised e, (run_op op s).1) | ok _ ↦ rest ]

unfoldable pub after_callback : Outcome → Stream → Stream
after_callback (raised e) s = close (some e) s
after_callback (ok _) s = maybe_add_error_listener s

-- `wrapper`; calling None is a TypeError.
unfoldable pub run_wrapper : Option ℕ → Body → Stream → Stream
unfolding run_ops after_callback
run_wrapper none body s =
    close (some user_error) (record s { pending_callbacks = s.pending_callbacks - 1 })
run_wrapper (some callback) body s =
    let (r, s') =
      run_ops body.ops body.raises (record s { pending_callbacks = s.pending_callbacks - 1 }) in
    after_callback r s'

unfoldable pub run_call : LoopCall → Body → Stream → Stream
unfolding run_wrapper
run_call (wrapper callback args) body s = run_wrapper callback body s
run_call close_later body s = close none s

abbrev pub took : LoopCall → List LoopCall → Stream → Stream
took c rest s = record s { queue = rest; ran = s.ran ++ c ∷ [] }

unfoldable pub run_next : Body → Stream → Stream
unfolding run_call
run_next body s = elim s.queue [ [] ↦ s | c ∷ rest ↦ run_call c body (took c rest s) ]

pub data Event : Type 0 where
  ready : Ready → Event
  next_call : Body → Event
  outside : Op → Event

unfoldable pub step : Event → Stream → Stream
unfolding handle_events run_next
step (ready ev) s = (handle_events ev s).1
step (next_call body) s = run_next body s
step (outside op) s = (run_op op s).1

unfoldable pub run : List Event → Stream → Stream
unfolding step
run [] s = s
run (e ∷ es) s = run es (step e s)
