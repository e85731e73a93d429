-- ===== src/IoLoop/Periodic.antt =====
-- tornado/ioloop.py: `PeriodicCallback` on the loop. Times are counted in a unit of which a period
-- is a whole number; `now` is what `io_loop.time()` says, and `id` the timeout object that is made.
mod Tests
use native.Mathlib.Nat.{suc-mul}
use tornado3_1_1_search.Base.{
  ℕ, zero, suc, ◌+◌, ◌-◌, ◌*◌, ◌≤◌, ◌<◌, ◌≡◌, refl, ◌⊎◌, inl, inr, Bool, true, false, Option, none,
  some, leb, if◌then◌else◌, if_intro, arith, List, [], ◌∷◌,
}
use tornado3_1_1_search.IoLoop.{Loop, Timeout, add_timeout, remove_timeout, heappush}

-- `callback` is the number under which the loop knows the timer's `_run`, which calls the callback.
pub record Periodic : Type 0 where
  pub callback : ℕ
  pub callback_time : ℕ
  pub running : Bool
  pub timeout : Option ℕ
  pub next_timeout : ℕ

-- `__init__`, where `none` is the `ValueError` for a period that is not positive.
pub create : ℕ → ℕ → Option Periodic
create callback callback_time =
    if leb callback_time 0
    then none
    else some (record {
      callback = callback;
      callback_time = callback_time;
      running = false;
      timeout = none;
      next_timeout = 0;
    })

-- `while self._next_timeout <= current_time`
advance : ℕ → ℕ → ℕ → ℕ → ℕ
advance zero period now next = next
advance (suc fuel) period now next =
    let later = advance fuel period now (next + period) in if leb next now then later else next

schedule : ℕ → ℕ → Periodic → Loop → Periodic × Loop
unfolding advance
schedule now id p loop =
    let next = advance (suc (now - p.next_timeout)) p.callback_time now p.next_timeout in
    (record p { next_timeout = next; timeout = some id }, add_timeout next id p.callback loop)

-- `_schedule_next`
pub schedule_next : ℕ → ℕ → Periodic → Loop → Periodic × Loop
unfolding schedule
schedule_next now id p loop = if p.running then schedule now id p loop else (p, loop)

pub start : ℕ → ℕ → Periodic → Loop → Periodic × Loop
unfolding schedule_next
start now id p loop = schedule_next now id (record p { running = true; next_timeout = now }) loop

cancel_last : Option ℕ → Periodic → Loop → Periodic × Loop
cancel_last none p loop = (p, loop)
cancel_last (some id) p loop = (record p { timeout = none }, remove_timeout id loop)

pub stop : Periodic → Loop → Periodic × Loop
unfolding cancel_last
stop p loop = cancel_last p.timeout (record p { running = false }) loop

-- `_run`; `body` is what the callback does to the timer and to the loop, raising or not.
pub run : (Periodic → Loop → Periodic × Loop) → ℕ → ℕ → Periodic → Loop → Periodic × Loop
unfolding schedule_next
run body now id p loop =
    let after = body p loop in if p.running then schedule_next now id after.0 after.1 else (p, loop)

-- The first time after `now` that is `before` or a number of periods after it.
pub record IsNext (period now before next : ℕ) : Type 0 where
  pub later : now < next
  pub steps : ℕ
  pub aligned : next ≡ before + steps * period
  pub soonest : (next ≡ before) ⊎ (next ≤ now + period)

advance-IsNext :
    (fuel period now next : ℕ)
    → 0 < period
    → now < next + fuel
    → IsNext period now next (advance fuel period now next)
unfolding advance
advance-IsNext zero period now next p h = record {
  later = omega arith;
  steps = 0;
  aligned = omega arith;
  soonest = inl refl;
}
advance-IsNext (suc fuel) period now next p h =
    if_intro (IsNext period now next) (leb next now) _ _
      (λ due.
        let n = advance-IsNext fuel period now (next + period) p (omega arith) in
        record {
          later = n.later;
          steps = suc n.steps;
          aligned = omega (arith, n.aligned, suc-mul n.steps period);
          soonest = inr (ground (arith, n.soonest, due));
        })
      (λ early. record {
        later = ground (arith, early);
        steps = 0;
        aligned = omega arith;
        soonest = inl refl;
      })

-- What a scheduled timer has left.
pub record Schedules (now id : ℕ) (p : Periodic) (loop : Loop) (r : Periodic × Loop) : Type 0 where
  pub next : IsNext p.callback_time now p.next_timeout r.0.next_timeout
  pub held : r.0.timeout ≡ some id
  pub added :
      r.1.timeouts
      ≡ heappush
          (record { deadline = r.0.next_timeout; id = id; callback = some p.callback })
          loop.timeouts

-- A timer that is running and has a positive period is scheduled again for the first time after the
-- present that is a whole number of periods after the time it was last scheduled for, however late
-- it is; the loop gets one timeout for that time, which the timer remembers.
pub schedule_next-Schedules :
    (now id : ℕ) (p : Periodic) (loop : Loop)
    → p.running ≡ true
    → 0 < p.callback_time
    → Schedules now id p loop (schedule_next now id p loop)
unfolding schedule_next schedule add_timeout
schedule_next-Schedules now id p loop running positive =
    if_intro (Schedules now id p loop) p.running _ _
      (λ e. record {
        next =
            advance-IsNext (suc (now - p.next_timeout)) p.callback_time now p.next_timeout positive
              (omega arith);
        held = refl;
        added = refl;
      })
      (λ e. absurd (ground (arith, e, running)))
