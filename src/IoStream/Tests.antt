-- ===== src/IoStream/Tests.antt =====
-- A stream that waits for a line end which two chunks share, a stream that cannot connect, and the
-- theorems about tornado/iostream.py at these.
use tornado3_1_1_search.Base.{
  ◌≡◌, refl, true, false, List, [], ◌∷◌, ◌++◌, none, some, arith, Bytes, join, find, ◌⊎◌, ◌≢◌, ap,
  length,
}
use tornado3_1_1_search.Deque.{double_prefix, merge_prefix}
use tornado3_1_1_search.IoStream.{
  econnreset, raised, no_socket, Recv, received, room, wrapper, Stream, init, first_chunk,
  run_with_data, maybe_add_error_listener, close, maybe_run_close_callback,
}
use tornado3_1_1_search.IoStream.Reading.{
  search_loop, find_end, read_from_buffer, read_loop, try_inline_read, read_until,
}
use tornado3_1_1_search.IoStream.Reading.Search.{search_loop-eq-find_end}
use tornado3_1_1_search.IoStream.Writing.{write, write_loop, prepare}
use tornado3_1_1_search.IoStream.Loop.{
  Ready, Event, outside, next_call, op_read_until, op_write, op_close, op_set_close_callback, run,
  handle_events,
}
use tornado3_1_1_search.IoStream.Sound.{IsSound, wrappers}
use tornado3_1_1_search.IoStream.Sound.Steps.{run-IsSound}
use tornado3_1_1_search.IoStream.Contract.{
  Searched, read_until_contract, read_bytes_contract, close_callback_last,
}
use tornado3_1_1_search.IoStream.Contract.Writes.{retry_same_bytes, connect_failure_raises}

abbrev line_end : Bytes
line_end = 13 ∷ 10 ∷ []

abbrev chunks : List Bytes
chunks = (97 ∷ 98 ∷ 13 ∷ []) ∷ (10 ∷ 99 ∷ []) ∷ []

abbrev arrivals : List Recv
arrivals = received (97 ∷ 98 ∷ 13 ∷ []) ∷ received (10 ∷ 99 ∷ []) ∷ []

abbrev script : List Event
script =
    outside (op_read_until line_end 7)
    ∷ outside (op_write (104 ∷ 105 ∷ []) (some 8))
    ∷ next_call (record { ops = op_set_close_callback (some 9) ∷ op_close ∷ []; raises = false })
    ∷ next_call (record { ops = []; raises = false })
    ∷ []

abbrev played : Stream
played = run script (init 100 arrivals (room 1 ∷ room 5 ∷ []))

-- The line is read, both bytes are sent, and the close callback waits last.
played_calls :
    (played.ran ≡ wrapper (some 7) (some (97 ∷ 98 ∷ 13 ∷ 10 ∷ [])) ∷ wrapper (some 8) none ∷ [])
    × (played.queue ≡ wrapper (some 9) none ∷ [])
    × (played.sent ≡ 104 ∷ 105 ∷ [])
    × (join played.read_buffer ≡ 99 ∷ [])
unfolding run init write read_until try_inline_read read_from_buffer read_loop find_end find
    double_prefix merge_prefix run_with_data maybe_add_error_listener close maybe_run_close_callback
played_calls = (refl, refl, refl, refl)

run-IsSound_example : IsSound 0 played
run-IsSound_example = run-IsSound 100 arrivals (room 1 ∷ room 5 ∷ []) script

not_empty : line_end ≢ []
not_empty e = absurd (omega (arith, ap length e))

search_loop-eq-find_end_example :
    (search_loop (find_end line_end) 2 chunks).0 ≡ find_end line_end (join chunks)
search_loop-eq-find_end_example =
    search_loop-eq-find_end line_end 2 chunks (omega arith)
      (λ e. absurd (omega (arith, ap length e))) (omega arith)

abbrev waiting : Stream
waiting = record (init 100 [] []) {
  read_buffer = chunks;
  read_buffer_size = 5;
  read_callback = some 7;
  read_delimiter = some line_end;
  bytes_in = join chunks;
}

waiting-IsSound : IsSound 0 waiting
unfolding init
waiting-IsSound = record {
  facts = record {
    sized = refl;
    chunks = omega arith;
    pending = omega arith;
    watched = refl;
    detached = λ _. refl;
    reads = refl;
    writes = refl;
  };
}

read_until_contract_example :
    Searched (find_end line_end (join chunks)) waiting (read_from_buffer waiting)
unfolding init
read_until_contract_example =
    read_until_contract line_end waiting waiting-IsSound not_empty refl refl refl

abbrev counting : Stream
counting = record waiting { read_delimiter = none; read_bytes = some 4 }

counting-IsSound : IsSound 0 counting
counting-IsSound = record { facts = waiting-IsSound.facts }

read_bytes_contract_example : Searched (some 4) counting (read_from_buffer counting)
unfolding init
read_bytes_contract_example = read_bytes_contract 4 counting counting-IsSound refl refl refl refl

abbrev shut : Stream
shut = record waiting { closed = true; close_callback = some 9 }

shut-IsSound : IsSound 0 shut
unfolding init
shut-IsSound = record {
  facts = record {
    sized = refl;
    chunks = omega arith;
    pending = omega arith;
    watched = refl;
    detached = λ _. refl;
    reads = refl;
    writes = refl;
  };
}

close_callback_last_example :
    ((maybe_run_close_callback shut).queue ≡ shut.queue)
    ⊎ (((maybe_run_close_callback shut).queue ≡ shut.queue ++ wrapper (some 9) none ∷ [])
        × (wrappers shut.queue ≡ 0)
        × (shut.closed ≡ true)
        × ((maybe_run_close_callback shut).close_callback ≡ none))
close_callback_last_example = close_callback_last shut shut-IsSound

abbrev sending : Stream
sending = record (init 100 [] []) { write_buffer = (104 ∷ 105 ∷ []) ∷ [] }

retry_same_bytes_example :
    let s' = (write_loop (room 1 ∷ room 0 ∷ []) sending).1 in
    first_chunk
      (prepare (record s' { write_buffer = s'.write_buffer ++ (33 ∷ []) ∷ [] })).write_buffer
    ≡ first_chunk s'.write_buffer
unfolding write_loop init merge_prefix
retry_same_bytes_example =
    retry_same_bytes (room 1 ∷ room 0 ∷ []) sending ((33 ∷ []) ∷ []) refl refl

abbrev connecting : Stream
connecting = record sending { connecting = true }

abbrev refused : Ready
refused = record { reads = false; writes = true; errors = false; so_error = some econnreset }

connect_failure_raises_example : (handle_events refused connecting).0 ≡ raised no_socket
unfolding init
connect_failure_raises_example =
    connect_failure_raises refused connecting econnreset refl refl refl refl refl refl
