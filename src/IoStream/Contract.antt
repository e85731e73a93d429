-- ===== src/IoStream/Contract.antt =====
-- What the reads, the writes and the close callback of tornado/iostream.py promise.
pub mod Writes
pub mod Closed
use mathlib.Core.Bool.{false≢true}
use tornado3_1_1_search.Base.{
  ℕ, zero, suc, ◌+◌, ◌-◌, ◌≤◌, ◌<◌, ◌≡◌, ◌≢◌, ◌⊎◌, inl, inr, refl, ap, sym, ◌∙◌, Bool, true, false,
  not, ◌&&◌, is_some, if_intro, option_intro, if◌then◌else◌, List, [], ◌∷◌, ◌++◌, append_assoc,
  append-nil, Option, none, some, arith, length, join, Bytes, Each, take, drop, subst, leb, ltb,
  ◌==◌, Bool-cases, Option-cases, find, min,
}
use tornado3_1_1_search.Deque.Merge.{NonEmpty}
use tornado3_1_1_search.IoStream.{
  Error, no_socket, socket_error, Outcome, Result, ok, raised, Recv, Send, room, send_error, Errno,
  LoopCall, wrapper, close_later, Stream, consume, run_with_data, run_callback, close,
  maybe_run_close_callback, writing, first_chunk,
}
use tornado3_1_1_search.IoStream.Reading.{
  search_loop, search_buffer, find_end, stream_data, finish_search, finish_read, read_from_buffer,
  delimiter_done, bytes_done, enough_bytes,
}
use tornado3_1_1_search.IoStream.Reading.Search.{
  search_loop-eq-find_end, join-search_loop, find_end-le,
}
use tornado3_1_1_search.IoStream.Reading.{would_block, or_zero, stream_bytes}
use tornado3_1_1_search.IoStream.Writing.{
  write_loop, prepare, freeze, accept, handle_write, handle_connect,
}
use tornado3_1_1_search.IoStream.Loop.{
  Ready, handle_events, write_event, read_event, after_events, closing,
}
use tornado3_1_1_search.IoStream.Sound.{IsSound, wrappers}
use tornado3_1_1_search.IoStream.Sound.Parts.{Consumes, consume-Consumes}

-- The call of `callback` with the first `loc` bytes of the buffer is queued, and these bytes are
-- no longer in the buffer.
pub record Delivers (callback : Option ℕ) (loc : ℕ) (s s' : Stream) : Type 0 where
  pub call : s'.queue ≡ s.queue ++ wrapper callback (some (take loc (join s.read_buffer))) ∷ []
  pub rest : join s'.read_buffer ≡ drop loc (join s.read_buffer)
  pub idle : s'.read_callback ≡ s.read_callback

run_with_data-Delivers :
    (cb : Option ℕ) (loc : ℕ) (s : Stream)
    → Each NonEmpty s.read_buffer
    → Delivers cb loc s (run_with_data cb loc s)
unfolding run_with_data
run_with_data-Delivers cb loc s h =
    let c = consume-Consumes loc s h in
    rw c.same (record { call = rw c.taken; rest = c.left; idle = refl })

stream_data_idle : (s : Stream) → s.streaming_callback ≡ none → stream_data s ≡ s
unfolding stream_data
stream_data_idle s e =
    ap (λ o. if is_some o && ltb 0 s.read_buffer_size then stream_bytes s.read_bytes s else s) e

abbrev enough : Option ℕ → ℕ → Bool
enough o size = elim o [ none ↦ false | some n ↦ leb n size ]

finish_read_search :
    (s : Stream)
    → s.read_bytes ≡ none
    → finish_read s ≡ finish_search s.read_delimiter s.read_regex s
unfolding finish_read
finish_read_search s e =
    ap
      (λ (o : Option ℕ).
        if enough o s.read_buffer_size
        then (true, run_with_data s.read_callback (or_zero s.read_bytes) (bytes_done s))
        else finish_search s.read_delimiter s.read_regex s)
      e

-- What a search for `end` in the whole content of the buffer leads to.
abbrev pub Searched : Option ℕ → Stream → Bool × Stream → Type 0
Searched none s r =
    (r.0 ≡ false)
    × (r.1.queue ≡ s.queue)
    × (join r.1.read_buffer ≡ join s.read_buffer)
    × (r.1.read_callback ≡ s.read_callback)
Searched (some loc) s r =
    (r.0 ≡ true)
    × (r.1.queue ≡ s.queue ++ wrapper s.read_callback (some (take loc (join s.read_buffer))) ∷ [])
    × (join r.1.read_buffer ≡ drop loc (join s.read_buffer))
    × (r.1.read_callback ≡ none)

module _ (p : Bytes) (s : Stream) (h : Each NonEmpty s.read_buffer) where
  search_buffer_found :
      (o : Option ℕ)
      → (search_loop (find_end p) (length s.read_buffer) s.read_buffer).0 ≡ o
      → Searched o s (search_buffer (find_end p) delimiter_done s)
  unfolding search_buffer
  search_buffer_found none e =
      let j = join-search_loop (find_end p) (length s.read_buffer) s.read_buffer h in
      rw (e, search_buffer) (refl, refl, j.0, refl)
  search_buffer_found (some loc) e =
      let j = join-search_loop (find_end p) (length s.read_buffer) s.read_buffer h in
      let s' = record s {
        read_buffer = (search_loop (find_end p) (length s.read_buffer) s.read_buffer).1;
      } in
      let d = run_with_data-Delivers s.read_callback loc (delimiter_done s') j.1 in
      rw (e, search_buffer)
        (
          refl,
          d.call ∙ ap (λ b. s.queue ++ wrapper s.read_callback (some (take loc b)) ∷ []) j.0,
          d.rest ∙ ap (drop loc) j.0,
          d.idle,
        )

  find_end-search_loop :
      p ≢ []
      → (search_loop (find_end p) (length s.read_buffer) s.read_buffer).0
        ≡ find_end p (join s.read_buffer)
  find_end-search_loop k = at s.read_buffer h
    where
      no_find : (q : Bytes) → q ≢ [] → none ≡ find_end q []
      no_find [] k = absurd (k refl)
      no_find (c ∷ q) k = unfold find_end find in refl

      at :
          (d : List Bytes)
          → Each NonEmpty d
          → (search_loop (find_end p) (length d) d).0 ≡ find_end p (join d)
      at [] h = unfold search_loop in no_find p k
      at (c ∷ d) h =
          search_loop-eq-find_end p (length (c ∷ d)) (c ∷ d) h
            (λ e. absurd (omega (arith, ap length e))) (omega arith)

-- While `read_until` with a delimiter that is not empty waits, `_read_from_buffer` completes exactly
-- when the delimiter occurs in the bytes buffered, however they are cut into chunks. It then queues
-- the read callback with the bytes up to the end of the first occurrence, keeps what follows, and
-- clears the callback. Where the delimiter does not occur, the queue, the bytes and the callback
-- stay as they are.
pub read_until_contract :
    {k : ℕ} (p : Bytes) (s : Stream)
    → IsSound k s
    → p ≢ []
    → s.streaming_callback ≡ none
    → s.read_bytes ≡ none
    → s.read_delimiter ≡ some p
    → Searched (find_end p (join s.read_buffer)) s (read_from_buffer s)
unfolding read_from_buffer finish_search
read_until_contract p s h k e1 e2 e3 =
    let same : search_buffer (find_end p) delimiter_done s ≡ read_from_buffer s = sym (
      ap finish_read (stream_data_idle s e1)
      ∙ finish_read_search s e2
      ∙ ap (λ d. finish_search d s.read_regex s) e3) in
    subst (Searched (find_end p (join s.read_buffer)) s) same
      (search_buffer_found p s h.chunks _ (find_end-search_loop p s h.chunks k))

finish_read_bytes :
    {k : ℕ} (n : ℕ) (s : Stream)
    → IsSound k s
    → s.read_bytes ≡ some n
    → s.read_delimiter ≡ none
    → s.read_regex ≡ none
    → finish_read s ≡ (
        if leb n (length (join s.read_buffer))
        then (true, run_with_data s.read_callback n (bytes_done s))
        else (false, s))
unfolding finish_read finish_search
finish_read_bytes n s h e2 e3 e4 =
    ap
      (λ (o : Option ℕ).
        if enough o s.read_buffer_size
        then (true, run_with_data s.read_callback (or_zero o) (bytes_done s))
        else finish_search s.read_delimiter s.read_regex s)
      e2
    ∙ ap (λ d. if leb n s.read_buffer_size then done else finish_search d s.read_regex s) e3
    ∙ ap (λ r. if leb n s.read_buffer_size then done else finish_search none r s) e4
    ∙ ap (λ size. if leb n size then done else (false, s)) h.sized
  where
    done : Bool × Stream
    done = (true, run_with_data s.read_callback n (bytes_done s))

-- While `read_bytes` without a streaming callback waits for `n` bytes and no other read is set up,
-- `_read_from_buffer` completes exactly when `n` bytes are buffered. It then queues the read
-- callback with the first `n`, keeps the rest in order, and clears the callback; with fewer bytes
-- the queue, the bytes and the callback stay as they are.
pub read_bytes_contract :
    {k : ℕ} (n : ℕ) (s : Stream)
    → IsSound k s
    → s.streaming_callback ≡ none
    → s.read_bytes ≡ some n
    → s.read_delimiter ≡ none
    → s.read_regex ≡ none
    → Searched (if leb n (length (join s.read_buffer)) then some n else none) s (read_from_buffer s)
unfolding read_from_buffer
read_bytes_contract n s h e1 e2 e3 e4 =
    rw (stream_data_idle s e1, finish_read_bytes n s h e2 e3 e4)
      (cases (leb n (length (join s.read_buffer))))
  where
    cases :
        (b : Bool)
        → Searched
            (if b then some n else none)
            s
            (if b then (true, run_with_data s.read_callback n (bytes_done s)) else (false, s))
    cases true =
        let d = run_with_data-Delivers s.read_callback n (bytes_done s) h.chunks in
        (refl, d.call, d.rest, d.idle)
    cases false = (refl, refl, refl, refl)

-- The close callback goes into the queue only on a closed stream whose earlier callbacks have all
-- run; in every other case the queue stays as it is.
pub close_callback_last :
    (s : Stream)
    → IsSound 0 s
    → ((maybe_run_close_callback s).queue ≡ s.queue)
      ⊎ (((maybe_run_close_callback s).queue ≡ s.queue ++ wrapper s.close_callback none ∷ [])
          × (wrappers s.queue ≡ 0)
          × (s.closed ≡ true)
          × ((maybe_run_close_callback s).close_callback ≡ none))
unfolding maybe_run_close_callback
close_callback_last s h = ground (arith, h.pending)
