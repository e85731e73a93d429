-- ===== src/IoStream/Contract/Closed.antt =====
-- tornado/iostream.py: no read or write opens a stream again that is closed.
use tornado3_1_1_search.Base.{
  ℕ, ◌≡◌, refl, ◌∙◌, Bool, true, false, ◌&&◌, Option, none, some, is_some, Bytes, ℤ, pos, negsuc,
  if_intro, option_intro, ltb, ◌==◌, arith, min, ◌-◌, length,
}
use tornado3_1_1_search.IoStream.{
  Outcome, raised, Stream, run_callback, run_with_data, consume, stream_closed, Regex,
}
use tornado3_1_1_search.IoStream.Reading.{
  read_from_buffer, finish_read, finish_search, search_buffer, search_loop, stream_data,
  stream_bytes, try_inline_read, read_bytes_of, if_not_reading, enough_bytes, or_zero, bytes_done,
  find_end, delimiter_done, regex_done,
}
use tornado3_1_1_search.IoStream.Reading.Edges.{
  read_until_or_none, read_negative, read_number, consume_negative,
}
use tornado3_1_1_search.IoStream.Writing.{write}

consume-closed : (loc : ℕ) (s : Stream) → (consume loc s).1.closed ≡ s.closed
unfolding consume
consume-closed loc s =
    if_intro (λ (r : Bytes × Stream). r.1.closed ≡ s.closed) (loc == 0) _ _ (λ e. refl) (λ e. refl)

run_with_data-closed :
    (cb : Option ℕ) (loc : ℕ) (s : Stream) → (run_with_data cb loc s).closed ≡ s.closed
unfolding run_with_data run_callback
run_with_data-closed cb loc s = consume-closed loc s

stream_bytes-closed : (o : Option ℕ) (s : Stream) → (stream_bytes o s).closed ≡ s.closed
unfolding stream_bytes
stream_bytes-closed none s = run_with_data-closed s.streaming_callback s.read_buffer_size s
stream_bytes-closed (some n) s =
    run_with_data-closed s.streaming_callback (min n s.read_buffer_size)
      (record s { read_bytes = some (n - min n s.read_buffer_size) })

stream_data-closed : (s : Stream) → (stream_data s).closed ≡ s.closed
unfolding stream_data
stream_data-closed s =
    if_intro (λ (r : Stream). r.closed ≡ s.closed)
      (is_some s.streaming_callback && ltb 0 s.read_buffer_size) _ s
      (λ e. stream_bytes-closed s.read_bytes s) (λ e. refl)

search_buffer-closed :
    (matcher : Bytes → Option ℕ) (done : Stream → Stream) (s : Stream)
    → ((t : Stream) → (done t).closed ≡ t.closed)
    → (search_buffer matcher done s).1.closed ≡ s.closed
unfolding search_buffer
search_buffer-closed matcher done s keeps =
    let found = search_loop matcher (length s.read_buffer) s.read_buffer in
    let s' : Stream = record s { read_buffer = found.1 } in
    option_intro (λ (r : Bool × Stream). r.1.closed ≡ s.closed) found.0 (false, s') _ (λ e. refl)
      (λ loc e. run_with_data-closed s.read_callback loc (done s') ∙ keeps s')

finish_read-closed : (s : Stream) → (finish_read s).1.closed ≡ s.closed
unfolding finish_read
finish_read-closed s =
    if_intro (λ (r : Bool × Stream). r.1.closed ≡ s.closed) (enough_bytes s) _ _
      (λ e. run_with_data-closed s.read_callback (or_zero s.read_bytes) (bytes_done s))
      (λ e. finish_search-closed s.read_delimiter s.read_regex)
  where
    finish_search-closed :
        (d : Option Bytes) (r : Option Regex) → (finish_search d r s).1.closed ≡ s.closed
    finish_search-closed (some d) r =
        unfold finish_search in search_buffer-closed (find_end d) delimiter_done s (λ t. refl)
    finish_search-closed none (some r) =
        unfold finish_search in search_buffer-closed r.search regex_done s (λ t. refl)
    finish_search-closed none none = unfold finish_search in refl

read_from_buffer-closed : (s : Stream) → (read_from_buffer s).1.closed ≡ s.closed
unfolding read_from_buffer
read_from_buffer-closed s = finish_read-closed (stream_data s) ∙ stream_data-closed s

module _ (s : Stream) (closed : s.closed ≡ true) where
  abbrev StaysClosed : Outcome × Stream → Type 0
  StaysClosed r = r.1.closed ≡ true

  try_inline_read-closed : StaysClosed (try_inline_read s)
  unfolding try_inline_read
  try_inline_read-closed =
      let k : (read_from_buffer s).1.closed ≡ true = read_from_buffer-closed s ∙ closed in
      if_intro StaysClosed (read_from_buffer s).0 _ _ (λ e. k)
        (λ e.
          if_intro StaysClosed (read_from_buffer s).1.closed _ _ (λ f. k)
            (λ f. absurd (ground (arith, f, k))))

  if_not_reading-closed : (r : Outcome × Stream) → StaysClosed r → StaysClosed (if_not_reading s r)
  if_not_reading-closed r h =
      if_intro StaysClosed (is_some s.read_callback) _ r (λ e. closed) (λ e. h)

pub read_until_or_none-closed :
    (d : Bytes) (cb : Option ℕ) (s : Stream)
    → s.closed ≡ true
    → (read_until_or_none d cb s).1.closed ≡ true
unfolding read_until_or_none
read_until_or_none-closed d cb s h =
    if_not_reading-closed s h _
      (try_inline_read-closed (record s { read_callback = cb; read_delimiter = some d }) h)

pub read_number-closed :
    (n : ℤ) (cb : ℕ) (s : Stream) → s.closed ≡ true → (read_number n cb s).1.closed ≡ true
unfolding read_number read_bytes_of read_negative consume_negative run_callback
read_number-closed (pos n) cb s h = if_not_reading-closed s h _ (
    try_inline_read-closed
      (record s { read_callback = some cb; read_bytes = some n; streaming_callback = none }) h)
read_number-closed (negsuc n) cb s h = if_not_reading-closed s h _ h

pub write-closed :
    (bytes : Bytes) (cb : Option ℕ) (s : Stream)
    → s.closed ≡ true
    → (write bytes cb s).1.closed ≡ true
unfolding write
write-closed bytes cb s h =
    if_intro (λ (r : Outcome × Stream). r.1.closed ≡ true) s.closed (raised stream_closed, s) _
      (λ e. h) (λ e. absurd (ground (arith, e, h)))
