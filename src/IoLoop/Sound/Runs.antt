-- ===== src/IoLoop/Sound/Runs.antt =====
-- tornado/ioloop.py: every turn of the loop keeps the timeouts in order.
use tornado3_1_1_search.Base.{
  ℕ, zero, suc, ◌≤◌, ◌≡◌, refl, false, Option, none, some, List, [], ◌∷◌, leb, if_intro,
  option_intro, subst, arith, is_empty,
}
use tornado3_1_1_search.IoLoop.{
  Timeout, Event, ran_callback, ran_timeout, ran_handler, Loop, entry_of, init, Op, run_ops,
  add_handler,
}
use tornado3_1_1_search.IoLoop.Start.{
  Turn, logged, run_callback, run_callbacks, run_waiting, first_timeout, next_timeout, pass,
  run_timeouts, dispatch, pop_and_dispatch, popitem, drain, after_poll, handle_timeouts,
  before_poll, run_turns, start,
}
use tornado3_1_1_search.IoLoop.Sound.{Sorted, cancelled, IsSound, run_ops-IsSound, clean_up-IsSound}

module _ (calls : ℕ → Loop → List Op) where
  run_callback-IsSound :
      (event : Event) (callback : ℕ) (s : Loop)
      → IsSound s
      → IsSound (run_callback calls event callback s)
  unfolding run_callback logged
  run_callback-IsSound event callback s h =
      run_ops-IsSound (calls callback s) _ (record { ordered = h.ordered; counted = h.counted })

  run_callbacks-IsSound :
      (callbacks : List ℕ) (s : Loop) → IsSound s → IsSound (run_callbacks calls callbacks s)
  unfolding run_callbacks
  run_callbacks-IsSound [] s h = h
  run_callbacks-IsSound (c ∷ cs) s h =
      run_callbacks-IsSound cs _ (run_callback-IsSound (ran_callback c) c s h)

  -- What a pass over the timeouts Leads to, if it Leads on.
  Leads : Option Loop → Type 0
  Leads none = Unit
  Leads (some s) = IsSound s

  first_timeout-IsSound :
      (now : ℕ) (t : Timeout) (callback : Option ℕ) (ts : List Timeout) (s : Loop)
      → callback ≡ t.callback
      → s.timeouts ≡ t ∷ ts
      → IsSound s
      → Leads (first_timeout calls now t callback ts s)
  unfolding Leads first_timeout Sorted cancelled
  first_timeout-IsSound now t none ts s e first h =
      let h' =
        subst (λ l. Sorted l × (cancelled l ≤ s.cancellations)) first (h.ordered, h.counted) in
      record { ordered = h'.0.1; counted = ground (arith, h'.1, e) }
  first_timeout-IsSound now t (some callback) ts s e first h =
      let h' =
        subst (λ l. Sorted l × (cancelled l ≤ s.cancellations)) first (h.ordered, h.counted) in
      if_intro Leads (leb t.deadline now) _ _
        (λ due.
          run_callback-IsSound (ran_timeout now t) callback _
            (record { ordered = h'.0.1; counted = ground (arith, h'.1, e) }))
        (λ early. tt)

  next_timeout-IsSound :
      (now : ℕ) (ts : List Timeout) (s : Loop)
      → s.timeouts ≡ ts
      → IsSound s
      → Leads (next_timeout calls now ts s)
  unfolding next_timeout Leads
  next_timeout-IsSound now [] s e h = tt
  next_timeout-IsSound now (t ∷ ts) s e h = first_timeout-IsSound now t t.callback ts s refl e h

  pub run_timeouts-IsSound :
      (fuel now : ℕ) (s : Loop) → IsSound s → IsSound (run_timeouts calls fuel now s)
  unfolding run_timeouts pass Leads
  run_timeouts-IsSound zero now s h = h
  run_timeouts-IsSound (suc fuel) now s h =
      option_intro IsSound (pass calls now s) _ _ (λ over. h)
        (λ s' here.
          run_timeouts-IsSound fuel now s'
            (subst Leads here (next_timeout-IsSound now s.timeouts s refl h)))

  dispatch-IsSound : (e : ℕ × ℕ) (s : Loop) → IsSound s → IsSound (dispatch calls e s)
  unfolding dispatch logged
  dispatch-IsSound e s h =
      option_intro IsSound (entry_of e.0 s.handlers) _ _
        (λ absent. record { ordered = h.ordered; counted = h.counted })
        (λ handler found. run_callback-IsSound (ran_handler e.0 handler e.1) handler s h)

  pop_and_dispatch-IsSound :
      (events : List (ℕ × ℕ)) (s : Loop) → IsSound s → IsSound (pop_and_dispatch calls events s)
  unfolding pop_and_dispatch
  pop_and_dispatch-IsSound [] s h = h
  pop_and_dispatch-IsSound (e ∷ es) s h =
      dispatch-IsSound (popitem e es).0 _ (record { ordered = h.ordered; counted = h.counted })

  drain-IsSound : (fuel : ℕ) (s : Loop) → IsSound s → IsSound (drain calls fuel s)
  unfolding drain
  drain-IsSound zero s h = h
  drain-IsSound (suc fuel) s h = drain-IsSound fuel _ (pop_and_dispatch-IsSound s.events s h)

  handle_timeouts-IsSound :
      (fuel now : ℕ) (s : Loop) → IsSound s → IsSound (handle_timeouts calls fuel now s)
  unfolding handle_timeouts
  handle_timeouts-IsSound fuel now s h =
      if_intro IsSound (is_empty s.timeouts) _ _ (λ e. h)
        (λ e. clean_up-IsSound _ (run_timeouts-IsSound fuel now s h))

  before_poll-IsSound :
      (fuel now : ℕ) (s : Loop) → IsSound s → IsSound (before_poll calls fuel now s)
  unfolding before_poll run_waiting
  before_poll-IsSound fuel now s h =
      handle_timeouts-IsSound fuel now _
        (run_callbacks-IsSound s.callbacks _ (record { ordered = h.ordered; counted = h.counted }))

  after_poll-IsSound :
      (polled : Option (List (ℕ × ℕ))) (s : Loop) → IsSound s → IsSound (after_poll calls polled s)
  unfolding after_poll
  after_poll-IsSound none s h = h
  after_poll-IsSound (some pairs) s h =
      drain-IsSound _ _ (record { ordered = h.ordered; counted = h.counted })

  run_turns-IsSound : (turns : List Turn) (s : Loop) → IsSound s → IsSound (run_turns calls turns s)
  unfolding run_turns
  run_turns-IsSound [] s h = h
  run_turns-IsSound (t ∷ ts) s h =
      let h' = before_poll-IsSound t.fuel t.now s h in
      let s' = before_poll calls t.fuel t.now s in
      if_intro IsSound s'.running (run_turns calls ts (after_poll calls t.polled s'))
        (record s' { stopped = false })
        (λ goes_on. run_turns-IsSound ts _ (after_poll-IsSound t.polled _ h'))
        (λ ends. record { ordered = h'.ordered; counted = h'.counted })

  start-IsSound : (turns : List Turn) (s : Loop) → IsSound s → IsSound (start calls turns s)
  unfolding start
  start-IsSound turns s h =
      if_intro IsSound s.stopped _ _ (λ e. record { ordered = h.ordered; counted = h.counted })
        (λ e. run_turns-IsSound turns _ (record { ordered = h.ordered; counted = h.counted }))

  -- Whatever is called on a new loop before it starts, whatever the callbacks and handlers do, and
  -- whatever the clock and the poll return, the timeouts stay in the order of their deadlines, and
  -- the count of cancellations is never less than the number of cancelled entries.
  pub started-IsSound :
      (ops : List Op) (turns : List Turn) → IsSound (start calls turns (run_ops ops init))
  unfolding init Sorted cancelled add_handler
  started-IsSound ops turns =
      let fresh : IsSound init = record { ordered = tt; counted = omega arith } in
      start-IsSound turns _ (run_ops-IsSound ops init fresh)
