-- ===== src/IoStream/Sound/Writes.antt =====
-- The write path of tornado/iostream.py keeps the invariant.
use tornado3_1_1_search.Base.{
  ℕ, zero, suc, ◌≤◌, ◌<◌, ◌≡◌, refl, Bool, true, false, ◌&&◌, not, is_some, if_intro, if◌then◌else◌,
  List, [], ◌∷◌, ◌++◌, append_assoc, append-nil, Option, none, some, arith, min, length, join,
  join-append, take, drop, take-append-drop, take-append_le, length-drop, Bytes, ltb, ◌==◌,
}
use tornado3_1_1_search.Deque.{merge_prefix}
use tornado3_1_1_search.Deque.Merge.{merge_prefix_lem, join-gather, join-merge_prefix}
use tornado3_1_1_search.IoStream.{
  Errno, ewouldblock, einprogress, socket_error, Result, ok, raised, Outcome, Send, room,
  send_error, Stream, close, run_callback, writing, first_chunk, other_chunks, for_write,
}
use tornado3_1_1_search.IoStream.Reading.{would_block}
use tornado3_1_1_search.IoStream.Writing.{
  merge_size, pieces, write_chunks, prepare, freeze, accept, write_loop, finish_write,
  after_write_loop, handle_write, after_write, write, after_connect, connect, handle_connect,
}
use tornado3_1_1_search.IoStream.Sound.{IsSound}
use tornado3_1_1_search.IoStream.Sound.ReadCalls.{SoundOutcome}
use tornado3_1_1_search.IoStream.Sound.Parts.{
  run_callback-IsSound, close-IsSound, add_io_state-IsSound, maybe_add_error_listener-IsSound,
}

positive : (n : ℕ) → (n == 0) ≡ false → 0 < n
positive n e = ground arith

join-pieces :
    (fuel size : ℕ) (b : Bytes) → 0 < size → length b ≤ fuel → join (pieces fuel size b) ≡ b
unfolding pieces
join-pieces zero size [] p h = refl
join-pieces zero size (c ∷ b) p h = absurd (omega arith)
join-pieces (suc fuel) size [] p h = refl
join-pieces (suc fuel) size (c ∷ b) p h =
    rw (join-pieces fuel size (drop size (c ∷ b)) p (omega (arith, length-drop size (c ∷ b))))
      (take-append-drop size (c ∷ b))

-- Cutting data into pieces of a positive size loses nothing.
pub join-write_chunks : (size : ℕ) (b : Bytes) → 0 < size → join (write_chunks size b) ≡ b
unfolding write_chunks
join-write_chunks size [] p = refl
join-write_chunks size (c ∷ b) p =
    if_intro (λ d. join d ≡ c ∷ b) (ltb size (length (c ∷ b))) _ _
      (λ _. join-pieces (length (c ∷ b)) size (c ∷ b) p (omega arith)) (λ _. append-nil (c ∷ b))

module _ (s : Stream) (h : IsSound 0 s) where
  prepare-IsSound : IsSound 0 (prepare s)
  unfolding prepare
  prepare-IsSound =
      if_intro (IsSound 0) s.write_buffer_frozen _ _ (λ _. h)
        (λ _. record {
          facts = record {
            sized = h.sized;
            chunks = h.chunks;
            pending = h.pending;
            watched = h.watched;
            detached = h.detached;
            reads = h.reads;
            writes = rw (join-merge_prefix s.write_buffer merge_size) h.writes;
          };
        })

  freeze-IsSound : (rest : List Send) → IsSound 0 (freeze rest s)
  unfolding freeze
  freeze-IsSound rest = record { facts = h.facts }

  accept-IsSound :
      (n : ℕ) → 0 < n → n ≤ length (first_chunk s.write_buffer) → IsSound 0 (accept n s)
  unfolding accept
  accept-IsSound n p l = record {
    facts = record {
      sized = h.sized;
      chunks = h.chunks;
      pending = h.pending;
      watched = h.watched;
      detached = h.detached;
      reads = h.reads;
      writes = rw (append_assoc, moved s.write_buffer l) h.writes;
    };
  }
    where
      moved :
          (d : List Bytes)
          → n ≤ length (first_chunk d)
          → take n (first_chunk d) ++ join (other_chunks (merge_prefix d n)) ≡ join d
      moved [] l = absurd (omega (arith, p, l))
      moved (c ∷ d) l =
          rw
            (
              merge_prefix_lem (c ∷ d) n p,
              (join-gather n (c ∷ d)).1,
              ← take-append_le n c (join d) l,
            )
            (take-append-drop n (c ++ join d))

abbrev SoundResult : Result Bool × Stream → Type 0
SoundResult r = IsSound 0 r.1

-- What a round of the loop does where there is nothing to write, or no socket.
round-IsSound :
    (s : Stream) (idle lost live : Result Bool × Stream)
    → SoundResult idle
    → SoundResult lost
    → SoundResult live
    → SoundResult (if writing s then if s.closed then lost else live else idle)
round-IsSound s idle lost live i l v =
    if_intro SoundResult (writing s) _ idle
      (λ _. if_intro SoundResult s.closed lost live (λ _. l) (λ _. v)) (λ _. i)

send_error-IsSound :
    (e : Errno) (rest : List Send) (s : Stream)
    → IsSound 0 s
    → SoundResult (
        if would_block e
        then (ok false, freeze rest s)
        else (ok true, close (some (socket_error e)) (record s { outgoing = rest })))
send_error-IsSound e rest s h =
    if_intro SoundResult (would_block e) _ _ (λ _. freeze-IsSound s h rest)
      (λ _. close-IsSound _ (record s { outgoing = rest }) (record { facts = h.facts }))

write_loop-IsSound : (out : List Send) (s : Stream) → IsSound 0 s → SoundResult (write_loop out s)
unfolding write_loop
write_loop-IsSound [] s h =
    let p = prepare-IsSound s h in
    round-IsSound s _ _ _ (record { facts = h.facts }) p (freeze-IsSound _ p [])
write_loop-IsSound (room n ∷ rest) s h =
    let p = prepare-IsSound s h in
    let s1 = prepare s in
    let m = min n (length (first_chunk s1.write_buffer)) in
    let next = write_loop-IsSound rest (accept m s1) in
    round-IsSound s _ _ _ (record { facts = h.facts }) p
      (if_intro SoundResult (m == 0) _ _ (λ _. freeze-IsSound s1 p rest)
        (λ e. next (accept-IsSound s1 p m (positive m e) (omega arith))))
write_loop-IsSound (send_error e ∷ rest) s h =
    let p = prepare-IsSound s h in
    round-IsSound s _ _ _ (record { facts = h.facts }) p (send_error-IsSound e rest (prepare s) p)

finish_write-IsSound : (s : Stream) → IsSound 0 s → IsSound 0 (finish_write s)
unfolding finish_write
finish_write-IsSound s h =
    if_intro (IsSound 0) (not (writing s) && is_some s.write_callback) _ _
      (λ _.
        run_callback-IsSound (record s { write_callback = none }) (record { facts = h.facts })
          s.write_callback)
      (λ _. h)

after_write_loop-IsSound :
    (r : Result Bool) (s : Stream) → IsSound 0 s → SoundOutcome (after_write_loop r s)
unfolding after_write_loop
after_write_loop-IsSound (raised e) s h = h
after_write_loop-IsSound (ok true) s h = h
after_write_loop-IsSound (ok false) s h = finish_write-IsSound s h

pub handle_write-IsSound : (s : Stream) → IsSound 0 s → SoundOutcome (handle_write s)
unfolding handle_write
handle_write-IsSound s h = after_write_loop-IsSound _ _ (write_loop-IsSound s.outgoing s h)

after_write-IsSound : (r : Outcome) (s : Stream) → IsSound 0 s → SoundOutcome (after_write r s)
unfolding after_write
after_write-IsSound (raised e) s h = h
after_write-IsSound (ok _) s h =
    maybe_add_error_listener-IsSound _
      (if_intro (IsSound 0) (writing s) _ _ (λ _. add_io_state-IsSound for_write s h) (λ _. h))

pub write-IsSound :
    (b : Bytes) (cb : Option ℕ) (s : Stream) → IsSound 0 s → SoundOutcome (write b cb s)
unfolding write
write-IsSound b cb s h =
    if_intro SoundOutcome s.closed _ _ (λ _. h)
      (λ _.
        if_intro SoundOutcome s.connecting _ _ (λ _. queued)
          (λ _. after_write-IsSound _ _ (handle_write-IsSound _ queued)))
  where
    queued : IsSound 0 (record s {
      write_buffer = s.write_buffer ++ write_chunks merge_size b;
      written = s.written ++ b;
      write_callback = cb;
    })
    queued = record {
      facts = record {
        sized = h.sized;
        chunks = h.chunks;
        pending = h.pending;
        watched = h.watched;
        detached = h.detached;
        reads = h.reads;
        writes = rw (
          join-append s.write_buffer (write_chunks merge_size b),
          join-write_chunks merge_size b (omega arith),
          ← append_assoc,
          h.writes,
        );
      };
    }

after_connect-IsSound :
    (e : Option Errno) (cb : Option ℕ) (s : Stream) → IsSound 0 s → IsSound 0 (after_connect e cb s)
unfolding after_connect
after_connect-IsSound none cb s h = add_io_state-IsSound for_write _ (record { facts = h.facts })
after_connect-IsSound (some einprogress) cb s h =
    add_io_state-IsSound for_write _ (record { facts = h.facts })
after_connect-IsSound (some ewouldblock) cb s h =
    add_io_state-IsSound for_write _ (record { facts = h.facts })
after_connect-IsSound (some e) cb s h = close-IsSound _ _ h

pub connect-IsSound :
    (e : Option Errno) (cb : Option ℕ) (s : Stream) → IsSound 0 s → SoundOutcome (connect e cb s)
unfolding connect
connect-IsSound e cb s h =
    if_intro SoundOutcome s.closed _ _ (λ _. record { facts = h.facts })
      (λ _. after_connect-IsSound e cb _ (record { facts = h.facts }))

pub handle_connect-IsSound :
    (e : Option Errno) (s : Stream) → IsSound 0 s → IsSound 0 (handle_connect e s)
unfolding handle_connect
handle_connect-IsSound (some e) s h = close-IsSound none _ (record { facts = h.facts })
handle_connect-IsSound none s h =
    let called =
      if_intro (IsSound 0) (is_some s.connect_callback)
        (run_callback s.connect_callback none (record s { connect_callback = none })) s
        (λ _.
          run_callback-IsSound (record s { connect_callback = none }) (record { facts = h.facts })
            s.connect_callback)
        (λ _. h) in
    record { facts = called.facts }
