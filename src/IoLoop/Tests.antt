-- ===== src/IoLoop/Tests.antt =====
-- A loop of tornado/ioloop.py with a callback, two timeouts and a handler, and the theorems at it.
use tornado3_1_1_search.Base.{
  ℕ, ◌≡◌, refl, true, none, some, List, [], ◌∷◌, ◌==◌, if◌then◌else◌, arith,
}
use tornado3_1_1_search.IoLoop.{
  ran_callback, ran_timeout, Loop, init, Op, op_callback, op_timeout, op_handler, op_stop, apply,
  run_ops, add_callback, add_timeout, add_handler, heappush, before, put, raises, entry_of, pop,
  stop,
}
use tornado3_1_1_search.IoLoop.Start.{
  Turn, after_poll, start, run_turns, before_poll, handle_timeouts, run_waiting, run_callbacks,
  run_callback, logged, run_timeouts, pass, clean_up, live, update_events, drain,
}
use tornado3_1_1_search.IoLoop.Sound.Runs.{started-IsSound}
use tornado3_1_1_search.IoLoop.Sound.{IsSound, Sorted, cancelled}
use tornado3_1_1_search.IoLoop.Callbacks.{TurnRuns, turn-TurnRuns}
use tornado3_1_1_search.IoLoop.Timeouts.{all_later, is_later}
use tornado3_1_1_search.IoLoop.Timeouts.Ends.{Finishes, run_timeouts-Finishes}
use tornado3_1_1_search.IoLoop.Events.{Waits, poll_timeout-Waits}

-- Callback 1 adds callback 2 and a timeout at 50; every other callback stops the loop.
abbrev calls : ℕ → Loop → List Op
calls c s = if c == 1 then op_callback 2 ∷ op_timeout 50 7 3 ∷ [] else op_stop ∷ []

abbrev setup : List Op
setup = op_callback 1 ∷ op_timeout 30 5 2 ∷ op_timeout 10 6 1 ∷ op_handler 4 8 1 ∷ []

abbrev turns : List Turn
turns =
    record { fuel = 3; now = 20; polled = none }
    ∷ record { fuel = 3; now = 40; polled = some ((4, 1) ∷ []) }
    ∷ []

abbrev ready : Loop
ready = run_ops setup init

ready_log :
    (start calls turns ready).log
    ≡ ran_callback 1
      ∷ ran_timeout 20 (record { deadline = 10; id = 6; callback = some 1 })
      ∷ ran_callback 2
      ∷ ran_callback 2
      ∷ ran_timeout 40 (record { deadline = 30; id = 5; callback = some 2 })
      ∷ []
unfolding start run_turns before_poll handle_timeouts run_waiting run_callbacks run_callback logged
    run_timeouts pass clean_up live after_poll update_events drain run_ops init apply add_callback
    add_timeout add_handler heappush before put raises entry_of pop stop
ready_log = refl

started-IsSound_example : IsSound (start calls turns (run_ops setup init))
started-IsSound_example = started-IsSound calls setup turns

turn-TurnRuns_example : TurnRuns calls 3 20 (some ((4, 1) ∷ [])) ready
turn-TurnRuns_example = turn-TurnRuns calls 3 20 (some ((4, 1) ∷ [])) ready

calls_later : (c : ℕ) (s : Loop) → all_later 20 (calls c s) ≡ true
unfolding all_later is_later
calls_later c s = ground arith

abbrev heap : Loop
heap = record init {
  timeouts =
      record { deadline = 10; id = 6; callback = none }
      ∷ record { deadline = 15; id = 8; callback = some 1 }
      ∷ record { deadline = 30; id = 5; callback = some 2 }
      ∷ [];
  cancellations = 1;
}

heap-IsSound : IsSound heap
unfolding Sorted cancelled
heap-IsSound = record {
  ordered = ((omega arith, (omega arith, tt)), ((omega arith, tt), (tt, tt)));
  counted = omega arith;
}

run_timeouts-Finishes_example : Finishes calls 20 heap
run_timeouts-Finishes_example = run_timeouts-Finishes calls 20 calls_later heap heap-IsSound

poll_timeout-Waits_example : Waits 5 heap
poll_timeout-Waits_example =
    poll_timeout-Waits 5 heap heap-IsSound (omega arith, (omega arith, (omega arith, tt)))
