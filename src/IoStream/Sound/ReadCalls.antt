-- ===== src/IoStream/Sound/ReadCalls.antt =====
-- The handler and the calls that read, of tornado/iostream.py, keep the invariant.
use tornado3_1_1_search.Base.{ℕ, is_some, if_intro, Option, some, arith, Bytes}
use tornado3_1_1_search.IoStream.{Regex, ok, raised, Outcome, Stream, run_with_data}
use tornado3_1_1_search.IoStream.Reading.{
  read_loop, read_from_buffer, hold, release, after_handle_read, handle_read, after_inline_read,
  try_inline_read, read_until_regex, read_until, read_bytes_of, read_rest, read_until_close,
  if_not_reading, if_not_reading,
}
use tornado3_1_1_search.IoStream.Sound.{IsSound}
use tornado3_1_1_search.IoStream.Sound.Parts.{
  run_with_data-IsSound, close-IsSound, maybe_run_close_callback-IsSound,
  maybe_add_error_listener-IsSound,
}
use tornado3_1_1_search.IoStream.Sound.Reads.{read_loop-IsSound, read_from_buffer-IsSound}

hold-IsSound : (s : Stream) → IsSound 0 s → IsSound 1 (hold s)
hold-IsSound s h = record {
  facts = record {
    sized = h.sized;
    chunks = h.chunks;
    pending = omega (arith, h.pending);
    watched = h.watched;
    detached = h.detached;
    reads = h.reads;
    writes = h.writes;
  };
}

release-IsSound : (s : Stream) → IsSound 1 s → IsSound 0 (release s)
release-IsSound s h = record {
  facts = record {
    sized = h.sized;
    chunks = h.chunks;
    pending = omega (arith, h.pending);
    watched = h.watched;
    detached = h.detached;
    reads = h.reads;
    writes = h.writes;
  };
}

reading-IsSound : (s : Stream) → IsSound 0 s → IsSound 0 (release (read_loop s.incoming (hold s)).1)
reading-IsSound s h = release-IsSound _ (read_loop-IsSound s.incoming (hold s) (hold-IsSound s h))

after_handle_read-IsSound :
    (r : Outcome) (s : Stream) → IsSound 0 s → IsSound 0 (after_handle_read r s)
unfolding after_handle_read
after_handle_read-IsSound (raised e) s h = close-IsSound (some e) s h
after_handle_read-IsSound (ok _) s h =
    let h' = read_from_buffer-IsSound s h in
    if_intro (IsSound 0) (read_from_buffer s).0 _ _ (λ _. h')
      (λ _. maybe_run_close_callback-IsSound _ h')

pub handle_read-IsSound : (s : Stream) → IsSound 0 s → IsSound 0 (handle_read s)
unfolding handle_read
handle_read-IsSound s h = after_handle_read-IsSound _ _ (reading-IsSound s h)

abbrev pub SoundOutcome : Outcome × Stream → Type 0
SoundOutcome r = IsSound 0 r.1

after_inline_read-IsSound :
    (r : Outcome) (s : Stream) → IsSound 0 s → SoundOutcome (after_inline_read r s)
unfolding after_inline_read
after_inline_read-IsSound (raised e) s h = maybe_run_close_callback-IsSound s h
after_inline_read-IsSound (ok _) s h =
    let h' = read_from_buffer-IsSound s h in
    if_intro (IsSound 0) (read_from_buffer s).0 _ _ (λ _. h')
      (λ _. maybe_add_error_listener-IsSound _ h')

pub try_inline_read-IsSound : (s : Stream) → IsSound 0 s → SoundOutcome (try_inline_read s)
unfolding try_inline_read
try_inline_read-IsSound s h =
    let h1 = read_from_buffer-IsSound s h in
    let s1 = (read_from_buffer s).1 in
    if_intro SoundOutcome (read_from_buffer s).0 _ _ (λ _. h1)
      (λ _.
        if_intro SoundOutcome s1.closed _ _ (λ _. h1)
          (λ _. after_inline_read-IsSound _ _ (reading-IsSound s1 h1)))

if_not_reading-IsSound :
    (s : Stream) (r : Outcome × Stream)
    → IsSound 0 s
    → SoundOutcome r
    → SoundOutcome (if_not_reading s r)
if_not_reading-IsSound s r h k =
    if_intro SoundOutcome (is_some s.read_callback) _ _ (λ _. h) (λ _. k)

pub read_until_regex-IsSound :
    (regex : Regex) (cb : ℕ) (s : Stream) → IsSound 0 s → SoundOutcome (read_until_regex regex cb s)
unfolding read_until_regex
read_until_regex-IsSound regex cb s h =
    if_not_reading-IsSound s _ h (try_inline_read-IsSound _ (record { facts = h.facts }))

pub read_until-IsSound :
    (d : Bytes) (cb : ℕ) (s : Stream) → IsSound 0 s → SoundOutcome (read_until d cb s)
unfolding read_until
read_until-IsSound d cb s h =
    if_not_reading-IsSound s _ h (try_inline_read-IsSound _ (record { facts = h.facts }))

pub read_bytes_of-IsSound :
    (n cb : ℕ) (scb : Option ℕ) (s : Stream) → IsSound 0 s → SoundOutcome (read_bytes_of n cb scb s)
unfolding read_bytes_of
read_bytes_of-IsSound n cb scb s h =
    if_not_reading-IsSound s _ h (try_inline_read-IsSound _ (record { facts = h.facts }))

read_rest-IsSound : (s : Stream) → IsSound 0 s → IsSound 0 (read_rest s)
unfolding read_rest
read_rest-IsSound s h =
    let h1 =
      if_intro (IsSound 0) (is_some s.streaming_callback)
        (run_with_data s.streaming_callback s.read_buffer_size s) s
        (λ _. run_with_data-IsSound s h s.streaming_callback s.read_buffer_size) (λ _. h) in
    record { facts = (run_with_data-IsSound _ h1 _ _).facts }

pub read_until_close-IsSound :
    (cb : ℕ) (scb : Option ℕ) (s : Stream) → IsSound 0 s → SoundOutcome (read_until_close cb scb s)
unfolding read_until_close
read_until_close-IsSound cb scb s h = if_not_reading-IsSound s _ h (
    if_intro SoundOutcome s.closed _ _ (λ _. read_rest-IsSound _ (record { facts = h.facts }))
      (λ _. try_inline_read-IsSound _ (record { facts = h.facts })))
