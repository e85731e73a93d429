-- ===== src/IoLoop/Start.antt =====
-- tornado/ioloop.py: the turns of `PollIOLoop.start`.
use tornado3_1_1_search.Base.{
  ℕ, zero, suc, ◌-◌, ◌/◌, min, true, false, ◌&&◌, Option, none, some, is_some, List, [], ◌∷◌, ◌++◌,
  ltb, leb, if◌then◌else◌, is_empty, length,
}
use tornado3_1_1_search.IoLoop.{
  Timeout, Event, ran_callback, ran_timeout, ran_handler, no_handler, Loop, entry_of, put, Op,
  run_ops,
}

abbrev pub longest_poll : ℕ
longest_poll = 3600

-- The timeouts that are not cancelled.
unfoldable pub live : List Timeout → List Timeout
live [] = []
live (t ∷ ts) = let rest = live ts in if is_some t.callback then t ∷ rest else rest

-- The clean-up of the timeouts when it is large and more than half of it is cancelled.
unfoldable pub clean_up : Loop → Loop
clean_up s =
    if ltb 512 s.cancellations && ltb (length s.timeouts / 2) s.cancellations
    then record s { cancellations = 0; timeouts = live s.timeouts }
    else s

unfoldable pub until_first : ℕ → List Timeout → ℕ
until_first now [] = longest_poll
until_first now (t ∷ ts) = min (t.deadline - now) longest_poll

-- `poll_timeout`: how long the loop waits for events.
unfoldable pub poll_timeout : ℕ → Loop → ℕ
poll_timeout now s = if is_empty s.callbacks then until_first now s.timeouts else 0

-- `self._events.update(event_pairs)`
unfoldable pub update_events : List (ℕ × ℕ) → List (ℕ × ℕ) → List (ℕ × ℕ)
update_events [] events = events
update_events (p ∷ ps) events = update_events ps (put p.0 p.1 events)

-- `self._events.popitem()`: the entry that came last, and the others.
unfoldable pub popitem : ℕ × ℕ → List (ℕ × ℕ) → (ℕ × ℕ) × List (ℕ × ℕ)
popitem e [] = (e, [])
popitem e (f ∷ es) = let rest = popitem f es in (rest.0, e ∷ rest.1)

-- What a turn is given: fuel for its loop over the timeouts, what the clock says, and what `poll`
-- returns, `none` if it is interrupted.
pub record Turn : Type 0 where
  pub fuel : ℕ
  pub now : ℕ
  pub polled : Option (List (ℕ × ℕ))

module _ (calls : ℕ → Loop → List Op) where
  unfoldable pub logged : Event → Loop → Loop
  logged event s = record s { log = s.log ++ event ∷ [] }

  -- `_run_callback`
  unfoldable pub run_callback : Event → ℕ → Loop → Loop
  unfolding logged
  run_callback event callback s = run_ops (calls callback s) (logged event s)

  unfoldable pub run_callbacks : List ℕ → Loop → Loop
  run_callbacks [] s = s
  run_callbacks (callback ∷ callbacks) s =
      run_callbacks callbacks (run_callback (ran_callback callback) callback s)

  -- The callbacks that were waiting when the turn began.
  unfoldable pub run_waiting : Loop → Loop
  run_waiting s = run_callbacks s.callbacks (record s { callbacks = [] })

  -- One pass of the loop over the timeouts with its first entry; `none` at `break`.
  unfoldable pub first_timeout : ℕ → Timeout → Option ℕ → List Timeout → Loop → Option Loop
  first_timeout now t none ts s =
      some (record s { timeouts = ts; cancellations = s.cancellations - 1 })
  first_timeout now t (some callback) ts s =
      if leb t.deadline now
      then some (run_callback (ran_timeout now t) callback (record s { timeouts = ts }))
      else none

  -- One pass, `none` when the loop ends.
  unfoldable pub next_timeout : ℕ → List Timeout → Loop → Option Loop
  next_timeout now [] s = none
  next_timeout now (t ∷ ts) s = first_timeout now t t.callback ts s

  unfoldable pub pass : ℕ → Loop → Option Loop
  unfolding next_timeout first_timeout
  pass now s = next_timeout now s.timeouts s

  unfoldable pub run_timeouts : ℕ → ℕ → Loop → Loop
  run_timeouts zero now s = s
  run_timeouts (suc fuel) now s = elim (pass now s) [
    | none ↦ s
    | some s' ↦ run_timeouts fuel now s'
  ]

  -- The handler of a descriptor is run, and a descriptor without one is logged.
  unfoldable pub dispatch : ℕ × ℕ → Loop → Loop
  dispatch e s = elim (entry_of e.0 s.handlers) [
    | none ↦ logged (no_handler e.0 e.1) s
    | some handler ↦ run_callback (ran_handler e.0 handler e.1) handler s
  ]

  unfoldable pub pop_and_dispatch : List (ℕ × ℕ) → Loop → Loop
  pop_and_dispatch [] s = s
  pop_and_dispatch (e ∷ es) s =
      let item = popitem e es in dispatch item.0 (record s { events = item.1 })

  unfoldable pub drain : ℕ → Loop → Loop
  drain zero s = s
  drain (suc fuel) s = drain fuel (pop_and_dispatch s.events s)

  -- The rest of a turn, from the test of `_running`: `poll` returns the events that are given, or
  -- is interrupted.
  unfoldable pub after_poll : Option (List (ℕ × ℕ)) → Loop → Loop
  after_poll none s = s
  after_poll (some pairs) s =
      let events = update_events pairs s.events in
      drain (length events) (record s { events = events })

  -- The timeouts of a turn, if there are any.
  unfoldable pub handle_timeouts : ℕ → ℕ → Loop → Loop
  handle_timeouts fuel now s =
      let rest = clean_up (run_timeouts fuel now s) in if is_empty s.timeouts then s else rest

  -- A turn up to the test of `_running`.
  unfoldable pub before_poll : ℕ → ℕ → Loop → Loop
  before_poll fuel now s = handle_timeouts fuel now (run_waiting s)

  -- `start`, up to where the turns that are given end.
  unfoldable pub run_turns : List Turn → Loop → Loop
  run_turns [] s = s
  run_turns (t ∷ ts) s =
      let s' = before_poll t.fuel t.now s in
      let rest = run_turns ts (after_poll t.polled s') in
      if s'.running then rest else record s' { stopped = false }

  unfoldable pub start : List Turn → Loop → Loop
  start turns s =
      if s.stopped
      then record s { stopped = false }
      else run_turns turns (record s { running = true })
