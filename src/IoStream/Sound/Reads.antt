-- ===== src/IoStream/Sound/Reads.antt =====
-- The read path of tornado/iostream.py keeps the invariant.
use tornado3_1_1_search.Base.{
  ℕ, zero, suc, ◌+◌, ◌-◌, ◌≡◌, ap, sym, ◌∙◌, Bool, ◌&&◌, is_some, if_intro, option_intro, List, [],
  ◌∷◌, ◌++◌, append_assoc, Option, none, some, arith, min, length-append, length, join, join-concat,
  ltb, Each, Each-append, Bytes,
}
use tornado3_1_1_search.Deque.Merge.{NonEmpty}
use tornado3_1_1_search.IoStream.{
  ewouldblock, eagain, econnreset, epipe, einprogress, other, Regex, Error, socket_error, Result,
  ok, raised, Outcome, Recv, received, recv_error, Stream,
}
use tornado3_1_1_search.IoStream.Reading.{
  append_chunk, read_failed, read_to_buffer, after_read, read_loop, stream_data, search_buffer,
  find_end, stream_bytes, finish_search, enough_bytes, or_zero, bytes_done, delimiter_done,
  regex_done, finish_read, read_from_buffer,
}
use tornado3_1_1_search.IoStream.Reading.Search.{join-search_loop}
use tornado3_1_1_search.IoStream.Sound.{IsSound}
use tornado3_1_1_search.IoStream.Sound.Parts.{run_with_data-IsSound, close-IsSound}

abbrev pub Loaded : Stream → Bytes → Stream
Loaded s chunk = record s {
  read_buffer = s.read_buffer ++ chunk ∷ [];
  read_buffer_size = s.read_buffer_size + length chunk;
  bytes_in = s.bytes_in ++ chunk;
}

module _ {k : ℕ} where
  load-IsSound :
      (chunk : Bytes) (s : Stream) → NonEmpty chunk → IsSound k s → IsSound k (Loaded s chunk)
  load-IsSound chunk s e h = record {
    facts = record {
      sized = omega (
        arith,
        h.sized,
        ap length (join-concat s.read_buffer chunk),
        length-append (join s.read_buffer) chunk,
      );
      chunks = Each-append NonEmpty s.read_buffer (chunk ∷ []) (h.chunks, (e, tt));
      pending = h.pending;
      watched = h.watched;
      detached = h.detached;
      reads = rw (join-concat s.read_buffer chunk, ← h.reads) (simp append_assoc);
      writes = h.writes;
    };
  }

  append_chunk-IsSound :
      (chunk : Bytes) (s : Stream)
      → NonEmpty chunk
      → IsSound k s
      → IsSound k (append_chunk chunk s).1
  unfolding append_chunk
  append_chunk-IsSound chunk s e h =
      let loaded = load-IsSound chunk s e h in
      if_intro (λ (r : Result (Option ℕ) × Stream). IsSound k r.1) _ _ _
        (λ _. close-IsSound none (Loaded s chunk) loaded) (λ _. loaded)

  read_failed-IsSound : (e : Error) (s : Stream) → IsSound k s → IsSound k (read_failed e s).1
  unfolding read_failed
  read_failed-IsSound (socket_error e) s h = close-IsSound _ s h
  read_failed-IsSound e s h = close-IsSound _ s h

  read_to_buffer-IsSound : (r : Recv) (s : Stream) → IsSound k s → IsSound k (read_to_buffer r s).1
  unfolding read_to_buffer
  read_to_buffer-IsSound (received []) s h = close-IsSound none s h
  read_to_buffer-IsSound (received (b ∷ bs)) s h = append_chunk-IsSound (b ∷ bs) s (omega arith) h
  read_to_buffer-IsSound (recv_error ewouldblock) s h = h
  read_to_buffer-IsSound (recv_error eagain) s h = h
  read_to_buffer-IsSound (recv_error econnreset) s h = close-IsSound _ s h
  read_to_buffer-IsSound (recv_error epipe) s h = close-IsSound _ s h
  read_to_buffer-IsSound (recv_error einprogress) s h = close-IsSound _ s h
  read_to_buffer-IsSound (recv_error (other n)) s h = close-IsSound _ s h

  after_read-IsSound :
      (r : Result (Option ℕ)) (rest : List Recv) (s : Stream) (next : Outcome × Stream)
      → IsSound k s
      → IsSound k next.1
      → IsSound k (after_read r rest s next).1
  unfolding after_read
  after_read-IsSound (ok (some zero)) rest s next h n = record { facts = h.facts }
  after_read-IsSound (ok (some (suc m))) rest s next h n = n
  after_read-IsSound (ok none) rest s next h n = n
  after_read-IsSound (raised e) rest s next h n = record { facts = h.facts }

  pub read_loop-IsSound :
      (incoming : List Recv) (s : Stream) → IsSound k s → IsSound k (read_loop incoming s).1
  unfolding read_loop
  read_loop-IsSound [] s h = record { facts = h.facts }
  read_loop-IsSound (r ∷ rest) s h =
      let h' = read_to_buffer-IsSound r s h in
      let n = read_loop-IsSound rest (read_to_buffer r s).1 h' in
      if_intro (λ (r : Outcome × Stream). IsSound k r.1) s.closed _ _
        (λ _. record { facts = h.facts })
        (λ _. after_read-IsSound (read_to_buffer r s).0 rest (read_to_buffer r s).1 _ h' n)

  stream_bytes-IsSound : (n : Option ℕ) (s : Stream) → IsSound k s → IsSound k (stream_bytes n s)
  unfolding stream_bytes
  stream_bytes-IsSound none s h = run_with_data-IsSound s h s.streaming_callback s.read_buffer_size
  stream_bytes-IsSound (some n) s h =
      let m = min n s.read_buffer_size in
      run_with_data-IsSound (record s { read_bytes = some (n - m) }) (record { facts = h.facts })
        s.streaming_callback m

  stream_data-IsSound : (s : Stream) → IsSound k s → IsSound k (stream_data s)
  unfolding stream_data
  stream_data-IsSound s h =
      if_intro (IsSound k) (is_some s.streaming_callback && ltb 0 s.read_buffer_size)
        (stream_bytes s.read_bytes s) s (λ _. stream_bytes-IsSound s.read_bytes s h) (λ _. h)

  regroup-IsSound :
      (s : Stream) (d : List Bytes)
      → join d ≡ join s.read_buffer
      → Each NonEmpty d
      → IsSound k s
      → IsSound k (record s { read_buffer = d })
  regroup-IsSound s d e c h = record {
    facts = record {
      sized = h.sized ∙ ap length (sym e);
      chunks = c;
      pending = h.pending;
      watched = h.watched;
      detached = h.detached;
      reads = rw e h.reads;
      writes = h.writes;
    };
  }

  -- `done` may only change what the invariant does not speak of.
  search_buffer-IsSound :
      (matcher : Bytes → Option ℕ) (done : Stream → Stream)
      → ((s : Stream) → IsSound k s → IsSound k (done s))
      → (s : Stream) → IsSound k s
      → IsSound k (search_buffer matcher done s).1
  unfolding search_buffer
  search_buffer-IsSound matcher done keeps s h =
      let j = join-search_loop matcher (length s.read_buffer) s.read_buffer h.chunks in
      let h' = regroup-IsSound s _ j.0 j.1 h in
      option_intro (λ (r : Bool × Stream). IsSound k r.1) _ _ _ (λ _. h')
        (λ loc _. run_with_data-IsSound (done _) (keeps _ h') s.read_callback loc)

  finish_search-IsSound :
      (d : Option Bytes) (r : Option Regex) (s : Stream)
      → IsSound k s
      → IsSound k (finish_search d r s).1
  unfolding finish_search
  finish_search-IsSound (some d) r s h =
      search_buffer-IsSound (find_end d) delimiter_done (λ _ k. record { facts = k.facts }) s h
  finish_search-IsSound none (some r) s h =
      search_buffer-IsSound r.search regex_done (λ _ k. record { facts = k.facts }) s h
  finish_search-IsSound none none s h = h

  finish_read-IsSound : (s : Stream) → IsSound k s → IsSound k (finish_read s).1
  unfolding finish_read
  finish_read-IsSound s h =
      if_intro (λ (r : Bool × Stream). IsSound k r.1) (enough_bytes s) _ _
        (λ _.
          run_with_data-IsSound (bytes_done s) (record { facts = h.facts }) s.read_callback
            (or_zero s.read_bytes))
        (λ _. finish_search-IsSound s.read_delimiter s.read_regex s h)

  pub read_from_buffer-IsSound : (s : Stream) → IsSound k s → IsSound k (read_from_buffer s).1
  unfolding read_from_buffer
  read_from_buffer-IsSound s h = finish_read-IsSound (stream_data s) (stream_data-IsSound s h)
