-- ===== src/IoStream/Sound/Steps.antt =====
-- Every event in the life of a stream keeps the invariant.
use tornado3_1_1_search.Base.{
  ℕ, ◌-◌, ◌≡◌, refl, ◌∙◌, Bool, false, if_intro, option_intro, List, [], ◌∷◌, ◌++◌, subst,
  append_assoc, append-nil, Option, none, some, arith, join, Bytes,
}
use tornado3_1_1_search.IoStream.{
  Error, Outcome, ok, raised, Recv, Send, LoopCall, wrapper, close_later, Stream, init,
}
use tornado3_1_1_search.IoStream.Reading.{handle_read}
use tornado3_1_1_search.IoStream.Loop.{
  Ready, wanted, same_interest, update_interest, closing, after_events, write_event, read_event,
  handle_events, Op, op_read_until, op_read_until_regex, op_read_bytes, op_read_until_close,
  op_write, op_connect, op_set_close_callback, op_close, run_op, Body, run_ops, after_callback,
  run_wrapper, run_call, took, run_next, Event, ready, next_call, outside, step, run,
}
use tornado3_1_1_search.IoStream.Sound.{IsSound, data_of, data_of-append, wrappers-append}
use tornado3_1_1_search.IoStream.Sound.Parts.{
  close-IsSound, watch-IsSound, maybe_add_error_listener-IsSound,
}
use tornado3_1_1_search.IoStream.Sound.ReadCalls.{
  SoundOutcome, handle_read-IsSound, read_until-IsSound, read_until_regex-IsSound,
  read_bytes_of-IsSound, read_until_close-IsSound,
}
use tornado3_1_1_search.IoStream.Sound.Writes.{
  handle_write-IsSound, write-IsSound, connect-IsSound, handle_connect-IsSound,
}

update_interest-IsSound :
    (s : Stream) → s.closed ≡ false → IsSound 0 s → SoundOutcome (update_interest s)
unfolding update_interest
update_interest-IsSound s e h =
    option_intro SoundOutcome s.state _ _ (λ _. h)
      (λ i _.
        if_intro SoundOutcome (same_interest (wanted s) i) _ _ (λ _. h)
          (λ _. watch-IsSound (wanted s) s e h))

close_later-IsSound :
    (e : Option Error) (s : Stream)
    → IsSound 0 s
    → IsSound 0 (record s { error = e; queue = s.queue ++ close_later ∷ [] })
close_later-IsSound e s h = record {
  facts = record {
    sized = h.sized;
    chunks = h.chunks;
    pending = omega (arith, h.pending, wrappers-append s.queue (close_later ∷ []));
    watched = h.watched;
    detached = h.detached;
    reads = rw (data_of-append s.queue (close_later ∷ []), append-nil (data_of s.queue)) h.reads;
    writes = h.writes;
  };
}

after_events-IsSound :
    (ev : Ready) (r : Outcome) (s : Stream) → IsSound 0 s → SoundOutcome (after_events ev r s)
unfolding after_events
after_events-IsSound ev (raised e) s h = h
after_events-IsSound ev (ok _) s h =
    if_intro SoundOutcome s.closed _ _ (λ _. h)
      (λ c.
        if_intro SoundOutcome ev.errors _ _ (λ _. close_later-IsSound _ s h)
          (λ _. update_interest-IsSound s c h))

closing-IsSound : (r : Outcome × Stream) → SoundOutcome r → SoundOutcome (closing r)
closing-IsSound (raised e, s) h = close-IsSound (some e) s h
closing-IsSound (ok _, s) h = h

write_event-IsSound : (ev : Ready) (s : Stream) → IsSound 0 s → SoundOutcome (write_event ev s)
unfolding write_event
write_event-IsSound ev s h =
    if_intro SoundOutcome ev.writes _ _
      (λ _. handle_write-IsSound _ (
        if_intro (IsSound 0) s.connecting _ _ (λ _. handle_connect-IsSound ev.so_error s h)
          (λ _. h)))
      (λ _. h)

handle_events-IsSound : (ev : Ready) (s : Stream) → IsSound 0 s → SoundOutcome (handle_events ev s)
unfolding handle_events
handle_events-IsSound ev s h =
    let h1 =
      if_intro (IsSound 0) ev.reads (handle_read s) s (λ _. handle_read-IsSound s h) (λ _. h) in
    let s1 = read_event ev s in
    if_intro SoundOutcome s.closed _ _ (λ _. h)
      (λ _.
        if_intro SoundOutcome s1.closed _ _ (λ _. h1)
          (λ _. closing-IsSound _ (after_events-IsSound ev _ _ (write_event-IsSound ev s1 h1))))

pub run_op-IsSound : (op : Op) (s : Stream) → IsSound 0 s → SoundOutcome (run_op op s)
unfolding run_op
run_op-IsSound (op_read_until d cb) s h = read_until-IsSound d cb s h
run_op-IsSound (op_read_until_regex r cb) s h = read_until_regex-IsSound r cb s h
run_op-IsSound (op_read_bytes n cb scb) s h = read_bytes_of-IsSound n cb scb s h
run_op-IsSound (op_read_until_close cb scb) s h = read_until_close-IsSound cb scb s h
run_op-IsSound (op_write b cb) s h = write-IsSound b cb s h
run_op-IsSound (op_connect e cb) s h = connect-IsSound e cb s h
run_op-IsSound (op_set_close_callback cb) s h = record { facts = h.facts }
run_op-IsSound op_close s h = close-IsSound none s h

run_ops-IsSound :
    (ops : List Op) (raises : Bool) (s : Stream) → IsSound 0 s → SoundOutcome (run_ops ops raises s)
unfolding run_ops
run_ops-IsSound [] raises s h = h
run_ops-IsSound (op ∷ ops) raises s h =
    let h' = run_op-IsSound op s h in
    outcome (run_op op s).0 _ _ h' (run_ops-IsSound ops raises (run_op op s).1 h')
  where
    outcome :
        (r : Outcome) (s : Stream) (rest : Outcome × Stream)
        → IsSound 0 s
        → SoundOutcome rest
        → SoundOutcome
            (elim r as (λ _. Outcome × Stream) [ raised e ↦ (raised e, s) | ok _ ↦ rest ])
    outcome (raised e) s rest h k = h
    outcome (ok _) s rest h k = k

after_callback-IsSound : (r : Outcome) (s : Stream) → IsSound 0 s → IsSound 0 (after_callback r s)
unfolding after_callback
after_callback-IsSound (raised e) s h = close-IsSound (some e) s h
after_callback-IsSound (ok _) s h = maybe_add_error_listener-IsSound s h

-- `s` has handed its next call to the loop, and the wrapper has counted it.
run_wrapper-IsSound :
    (cb : Option ℕ) (body : Body) (s : Stream)
    → IsSound 0 (record s { pending_callbacks = s.pending_callbacks - 1 })
    → IsSound 0 (run_wrapper cb body s)
unfolding run_wrapper
run_wrapper-IsSound none body s h = close-IsSound _ _ h
run_wrapper-IsSound (some cb) body s h =
    after_callback-IsSound _ _ (run_ops-IsSound body.ops body.raises _ h)

took_reads :
    (c : LoopCall) (ran rest : List LoopCall) (buffer : Bytes)
    → data_of (ran ++ c ∷ []) ++ (data_of rest ++ buffer)
      ≡ data_of ran ++ (data_of (c ∷ rest) ++ buffer)
took_reads (wrapper cb none) ran rest buffer =
    rw (data_of-append ran (wrapper cb none ∷ []), append-nil (data_of ran))
took_reads (wrapper cb (some b)) ran rest buffer =
    rw (data_of-append ran (wrapper cb (some b) ∷ []), append-nil b) (simp append_assoc)
took_reads close_later ran rest buffer =
    rw (data_of-append ran (close_later ∷ []), append-nil (data_of ran))

run_call-IsSound :
    (c : LoopCall) (rest : List LoopCall) (body : Body) (s : Stream)
    → IsSound 0 (record s { queue = c ∷ rest })
    → IsSound 0 (run_call c body (took c rest s))
unfolding run_call
run_call-IsSound (wrapper cb args) rest body s h = run_wrapper-IsSound cb body _ (record {
  facts = record {
    sized = h.sized;
    chunks = h.chunks;
    pending = omega (arith, h.pending);
    watched = h.watched;
    detached = h.detached;
    reads = took_reads (wrapper cb args) s.ran rest (join s.read_buffer) ∙ h.reads;
    writes = h.writes;
  };
})
run_call-IsSound close_later rest body s h = close-IsSound none _ (record {
  facts = record {
    sized = h.sized;
    chunks = h.chunks;
    pending = h.pending;
    watched = h.watched;
    detached = h.detached;
    reads = took_reads close_later s.ran rest (join s.read_buffer) ∙ h.reads;
    writes = h.writes;
  };
})

run_next-IsSound : (body : Body) (s : Stream) → IsSound 0 s → IsSound 0 (run_next body s)
unfolding run_next
run_next-IsSound body s h = next s.queue refl
  where
    next :
        (q : List LoopCall)
        → s.queue ≡ q
        → IsSound 0
            (elim q as (λ _. Stream) [ [] ↦ s | c ∷ rest ↦ run_call c body (took c rest s) ])
    next [] e = h
    next (c ∷ rest) e =
        run_call-IsSound c rest body s (subst (λ q. IsSound 0 (record s { queue = q })) e h)

pub step-IsSound : (e : Event) (s : Stream) → IsSound 0 s → IsSound 0 (step e s)
unfolding step
step-IsSound (ready ev) s h = handle_events-IsSound ev s h
step-IsSound (next_call body) s h = run_next-IsSound body s h
step-IsSound (outside op) s h = run_op-IsSound op s h

run_from-IsSound : (es : List Event) (s : Stream) → IsSound 0 s → IsSound 0 (run es s)
unfolding run
run_from-IsSound [] s h = h
run_from-IsSound (e ∷ es) s h = run_from-IsSound es (step e s) (step-IsSound e s h)

init-IsSound :
    (limit : ℕ) (incoming : List Recv) (outgoing : List Send)
    → IsSound 0 (init limit incoming outgoing)
unfolding init
init-IsSound limit incoming outgoing = record {
  facts = record {
    sized = refl;
    chunks = tt;
    pending = omega arith;
    watched = refl;
    detached = λ _. refl;
    reads = refl;
    writes = refl;
  };
}

-- Whatever the socket does and whatever the callbacks do, after any events on a new stream, where
-- reads of a number of bytes ask for no negative number: the
-- size counter is the size of the read buffer, which has no empty chunk; `_pending_callbacks` is
-- the number of wrappers in the loop's queue; the loop watches exactly what `_state` says, and
-- nothing once the stream is closed; the data of the calls made, of the calls queued and of the
-- read buffer is, in this order, what came in; and what left, then the write buffer, is what was
-- written.
pub run-IsSound :
    (limit : ℕ) (incoming : List Recv) (outgoing : List Send) (es : List Event)
    → IsSound 0 (run es (init limit incoming outgoing))
run-IsSound limit incoming outgoing es =
    run_from-IsSound es _ (init-IsSound limit incoming outgoing)
