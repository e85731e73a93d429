-- ===== src/IoLoop/Periodic/Tests.antt =====
-- A timer of tornado/ioloop.py with a period of 10 that is late.
use tornado3_1_1_search.Base.{◌≡◌, refl, true, none, some, arith}
use tornado3_1_1_search.IoLoop.{init}
use tornado3_1_1_search.IoLoop.Periodic.{
  Periodic, create, start, stop, run, schedule_next, Schedules, schedule_next-Schedules,
}

abbrev timer : Periodic
timer = record {
  callback = 4;
  callback_time = 10;
  running = true;
  timeout = some 1;
  next_timeout = 20;
}

no_period : create 4 0 ≡ none
unfolding create
no_period = refl

late_next : (schedule_next 57 2 timer init).0.next_timeout ≡ 60
unfolding schedule_next
late_next = refl

-- A timer that is stopped by its own callback is not scheduled again.
stopped_inside : (run stop 57 2 timer init).0.timeout ≡ none
unfolding run stop schedule_next
stopped_inside = refl

started_at : (start 57 2 timer init).0.next_timeout ≡ 67
unfolding start
started_at = refl

schedule_next-Schedules_example : Schedules 57 2 timer init (schedule_next 57 2 timer init)
schedule_next-Schedules_example = schedule_next-Schedules 57 2 timer init refl (omega arith)
