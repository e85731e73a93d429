-- ===== src/IoStream/Sound/Parts.antt =====
-- The shared parts of tornado/iostream.py keep the invariant.
use tornado3_1_1_search.Base.{
  ℕ, zero, suc, ◌-◌, ◌≡◌, refl, ap, sym, ◌∙◌, false, ◌&&◌, is_some, inl, inr, Bool-cases, if_intro,
  option_intro, ◌==◌, [], ◌∷◌, ◌++◌, append_assoc, append-nil, Option, none, some, arith, length,
  join, Each, Bytes, take, drop, take-append-drop, length-drop, suc-ne-zero,
}
use mathlib.Core.Bool.{false≢true}
use tornado3_1_1_search.Deque.Merge.{NonEmpty, merge_prefix_splits}
use tornado3_1_1_search.IoStream.{
  Error, Interest, Flag, wrapper, Stream, consume, run_callback, run_with_data,
  maybe_run_close_callback, finish_read_until_close, detach, close, watch, add_io_state,
  maybe_add_error_listener, streamed_rest, or_else, flag, has, for_read,
}
use tornado3_1_1_search.IoStream.Sound.{IsSound, data_of, data_of-append, wrappers-append}

-- `_consume` takes exactly the first `loc` bytes.
pub record Consumes (loc : ℕ) (s : Stream) (r : Bytes × Stream) : Type 0 where
  pub taken : r.0 ≡ take loc (join s.read_buffer)
  pub left : join r.1.read_buffer ≡ drop loc (join s.read_buffer)
  pub chunks : Each NonEmpty r.1.read_buffer
  pub size : r.1.read_buffer_size ≡ s.read_buffer_size - loc
  pub same :
      r.1 ≡ record s { read_buffer = r.1.read_buffer; read_buffer_size = r.1.read_buffer_size }

pub consume-Consumes :
    (loc : ℕ) (s : Stream) → Each NonEmpty s.read_buffer → Consumes loc s (consume loc s)
unfolding consume
consume-Consumes zero s h = record {
  taken = refl;
  left = refl;
  chunks = h;
  size = omega arith;
  same = refl;
}
consume-Consumes (suc n) s h =
    let (rest, e, l, c) = merge_prefix_splits s.read_buffer (suc n) (omega arith) h in
    rw (suc-ne-zero n, e) (record { taken = refl; left = l; chunks = c; size = refl; same = refl })

module _ {k : ℕ} (s : Stream) (h : IsSound k s) where
  pub run_callback-IsSound : (cb : Option ℕ) → IsSound k (run_callback cb none s)
  unfolding run_callback
  run_callback-IsSound cb = record {
    facts = record {
      sized = h.sized;
      chunks = h.chunks;
      pending = omega (arith, h.pending, wrappers-append s.queue (wrapper cb none ∷ []));
      watched = h.watched;
      detached = h.detached;
      reads =
          rw (data_of-append s.queue (wrapper cb none ∷ []), append-nil (data_of s.queue)) h.reads;
      writes = h.writes;
    };
  }

  pub run_with_data-IsSound : (cb : Option ℕ) (loc : ℕ) → IsSound k (run_with_data cb loc s)
  unfolding run_with_data
  run_with_data-IsSound cb loc =
      let c = consume-Consumes loc s h.chunks in
      let call = wrapper cb (some (consume loc s).0) ∷ [] in
      let moved : data_of call ++ join (consume loc s).1.read_buffer ≡ join s.read_buffer =
        rw (append-nil (consume loc s).0, c.taken, c.left)
          (take-append-drop loc (join s.read_buffer)) in
      rw c.same (record {
        facts = record {
          sized =
              omega
                (arith, h.sized, c.size, ap length c.left, length-drop loc (join s.read_buffer));
          chunks = c.chunks;
          pending = omega (arith, h.pending, wrappers-append s.queue call);
          watched = h.watched;
          detached = h.detached;
          reads = rw (data_of-append s.queue call, append_assoc, moved) h.reads;
          writes = h.writes;
        };
      })

module _ {k : ℕ} where
  pub maybe_run_close_callback-IsSound :
      (s : Stream) → IsSound k s → IsSound k (maybe_run_close_callback s)
  unfolding maybe_run_close_callback
  maybe_run_close_callback-IsSound s h =
      elim (Bool-cases (s.closed && is_some s.close_callback && s.pending_callbacks == 0)) [
        | inl e ↦ rw e (record {
          facts =
              (run_callback-IsSound (record s { close_callback = none })
                (record { facts = h.facts }) s.close_callback).facts;
        })
        | inr e ↦ rw e h
      ]

  streamed_rest-IsSound : (s : Stream) → IsSound k s → IsSound k (streamed_rest s)
  unfolding streamed_rest
  streamed_rest-IsSound s h =
      if_intro (IsSound k) _ _ _
        (λ _. run_with_data-IsSound s h s.streaming_callback s.read_buffer_size) (λ _. h)

  finish_read_until_close-IsSound :
      (s : Stream) → IsSound k s → IsSound k (finish_read_until_close s)
  unfolding finish_read_until_close
  finish_read_until_close-IsSound s h =
      let s1 = streamed_rest s in
      if_intro (IsSound k) s.read_until_close _ _
        (λ _.
          run_with_data-IsSound (record s1 { read_callback = none; read_until_close = false })
            (record { facts = (streamed_rest-IsSound s h).facts }) s1.read_callback
            s1.read_buffer_size)
        (λ _. h)

  detach-IsSound : (s : Stream) → IsSound k s → IsSound k (detach s)
  unfolding detach
  detach-IsSound s h = record {
    facts = record {
      sized = h.sized;
      chunks = h.chunks;
      pending = h.pending;
      watched = refl;
      detached = λ _. refl;
      reads = h.reads;
      writes = h.writes;
    };
  }

  pub close-IsSound : (exc : Option Error) (s : Stream) → IsSound k s → IsSound k (close exc s)
  unfolding close
  close-IsSound exc s h = maybe_run_close_callback-IsSound _ (
      if_intro (IsSound k) s.closed _ _ (λ _. h)
        (λ _. detach-IsSound _ (
          finish_read_until_close-IsSound (record s { error = or_else exc s.error })
            (record { facts = h.facts }))))

  pub watch-IsSound :
      (i : Interest) (s : Stream) → s.closed ≡ false → IsSound k s → IsSound k (watch i s)
  watch-IsSound i s e h = record {
    facts = record {
      sized = h.sized;
      chunks = h.chunks;
      pending = h.pending;
      watched = refl;
      detached = λ c. absurd (false≢true (sym e ∙ c));
      reads = h.reads;
      writes = h.writes;
    };
  }

  pub add_io_state-IsSound : (f : Flag) (s : Stream) → IsSound k s → IsSound k (add_io_state f s)
  unfolding add_io_state
  add_io_state-IsSound f s h =
      if_intro (IsSound k) s.closed _ _ (λ _. h)
        (λ e.
          option_intro (IsSound k) s.state _ _ (λ _. watch-IsSound (flag f) s e h)
            (λ i _. if_intro (IsSound k) (has i f) _ _ (λ _. h) (λ _. watch-IsSound _ s e h)))

  pub maybe_add_error_listener-IsSound :
      (s : Stream) → IsSound k s → IsSound k (maybe_add_error_listener s)
  unfolding maybe_add_error_listener
  maybe_add_error_listener-IsSound s h =
      if_intro (IsSound k) _ _ _
        (λ _.
          if_intro (IsSound k) s.closed _ _ (λ _. maybe_run_close_callback-IsSound s h)
            (λ _. add_io_state-IsSound for_read s h))
        (λ _. h)
