-- ===== src/IoLoop/Events.antt =====
-- tornado/ioloop.py: how long a turn waits for events, and that it handles all that came.
use tornado3_1_1_search.Base.{
  ℕ, zero, suc, ◌+◌, ◌-◌, ◌≤◌, ◌<◌, ◌≡◌, refl, ap, min, false, some, List, [], ◌∷◌, if_intro,
  option_intro, arith, Each, length, is_empty,
}
use tornado3_1_1_search.IoLoop.{
  Timeout, Loop, entry_of, pop, Op, op_callback, op_timeout, op_cancel, op_handler, op_update,
  op_forget, op_stop, op_close, apply, raises, run_ops, add_callback, add_timeout, remove_timeout,
  add_handler, update_handler, remove_handler, stop, close,
}
use tornado3_1_1_search.IoLoop.Start.{
  longest_poll, until_first, poll_timeout, popitem, logged, run_callback, dispatch,
  pop_and_dispatch, drain, after_poll,
}
use tornado3_1_1_search.IoLoop.Sound.{IsSound, Sorted}

Each_wait :
    (now wait d : ℕ) (ts : List Timeout)
    → now + wait ≤ d
    → Each (λ t. d ≤ t.deadline) ts
    → Each (λ t. now + wait ≤ t.deadline) ts
Each_wait now wait d [] le h = tt
Each_wait now wait d (t ∷ ts) le h = (omega (arith, le, h.0), Each_wait now wait d ts le h.1)

until_first-waits :
    (now : ℕ) (ts : List Timeout)
    → Sorted ts
    → Each (λ t. now < t.deadline) ts
    → Each (λ t. now + until_first now ts ≤ t.deadline) ts
unfolding until_first Sorted
until_first-waits now [] h later = tt
until_first-waits now (t ∷ ts) h later =
    let le : now + min (t.deadline - now) longest_poll ≤ t.deadline = omega (arith, later.0) in
    (le, Each_wait now (min (t.deadline - now) longest_poll) t.deadline ts le h.0)

-- How long the loop waits when every timeout is for later.
pub record Waits (now : ℕ) (s : Loop) : Type 0 where
  pub at_most : poll_timeout now s ≤ longest_poll
  pub in_time : Each (λ t. now + poll_timeout now s ≤ t.deadline) s.timeouts
  pub at_once : is_empty s.callbacks ≡ false → poll_timeout now s ≡ 0

until_first-bound : (now : ℕ) (ts : List Timeout) → until_first now ts ≤ longest_poll
unfolding until_first
until_first-bound now [] = omega arith
until_first-bound now (t ∷ ts) = omega arith

Each_now :
    (now : ℕ) (ts : List Timeout)
    → Each (λ t. now < t.deadline) ts
    → Each (λ t. now + 0 ≤ t.deadline) ts
Each_now now [] h = tt
Each_now now (t ∷ ts) h = (omega (arith, h.0), Each_now now ts h.1)

-- When the heap is in order and every timeout is for later, the loop does not wait past any
-- deadline, nor longer than an hour, and it does not wait at all while callbacks wait to be run.
pub poll_timeout-Waits :
    (now : ℕ) (s : Loop) → IsSound s → Each (λ t. now < t.deadline) s.timeouts → Waits now s
unfolding poll_timeout
poll_timeout-Waits now s h later = record {
  at_most =
      if_intro (λ w. w ≤ longest_poll) (is_empty s.callbacks) _ _
        (λ e. until_first-bound now s.timeouts) (λ e. omega arith);
  in_time =
      if_intro (λ w. Each (λ t. now + w ≤ t.deadline) s.timeouts) (is_empty s.callbacks) _ _
        (λ e. until_first-waits now s.timeouts h.ordered later)
        (λ e. Each_now now s.timeouts later);
  at_once = λ e. ground (arith, e);
}

length-pop : (fd : ℕ) (es : List (ℕ × ℕ)) → length (pop fd es) ≤ length es
unfolding pop
length-pop fd [] = omega arith
length-pop fd (e ∷ es) = ground (arith, length-pop fd es)

length-popitem : (e : ℕ × ℕ) (es : List (ℕ × ℕ)) → length (popitem e es).1 ≡ length es
unfolding popitem
length-popitem e [] = refl
length-popitem e (f ∷ es) = ap suc (length-popitem f es)

fewer-apply : (op : Op) (s : Loop) → length (apply op s).events ≤ length s.events
unfolding apply add_callback add_timeout remove_timeout add_handler update_handler remove_handler
    stop close
fewer-apply (op_callback c) s = omega arith
fewer-apply (op_timeout deadline id c) s = omega arith
fewer-apply (op_cancel id) s = omega arith
fewer-apply (op_handler fd handler events) s = omega arith
fewer-apply (op_update fd events) s = omega arith
fewer-apply (op_forget fd) s = length-pop fd s.events
fewer-apply op_stop s = omega arith
fewer-apply op_close s = length-pop 0 s.events

fewer-run_ops : (ops : List Op) (s : Loop) → length (run_ops ops s).events ≤ length s.events
unfolding run_ops
fewer-run_ops [] s = omega arith
fewer-run_ops (op ∷ ops) s =
    if_intro (λ (r : Loop). length r.events ≤ length s.events) (raises op s) _ _ (λ e. omega arith)
      (λ e. omega (arith, fewer-run_ops ops (apply op s), fewer-apply op s))

no_events : (es : List (ℕ × ℕ)) → length es ≤ 0 → es ≡ []
no_events [] h = refl
no_events (e ∷ es) h = absurd (omega arith)

module _ (calls : ℕ → Loop → List Op) where
  fewer-dispatch : (e : ℕ × ℕ) (s : Loop) → length (dispatch calls e s).events ≤ length s.events
  unfolding dispatch logged run_callback
  fewer-dispatch e s =
      option_intro (λ (r : Loop). length r.events ≤ length s.events) (entry_of e.0 s.handlers) _ _
        (λ absent. omega arith) (λ handler found. fewer-run_ops (calls handler s) _)

  fewer-pop_and_dispatch :
      (es : List (ℕ × ℕ)) (s : Loop)
      → s.events ≡ es
      → length (pop_and_dispatch calls es s).events ≤ length es - 1
  unfolding pop_and_dispatch
  fewer-pop_and_dispatch [] s e = ground (arith, e)
  fewer-pop_and_dispatch (e ∷ es) s is = omega (
    arith,
    fewer-dispatch (popitem e es).0 (record s { events = (popitem e es).1 }),
    length-popitem e es,
  )

  drain_all : (fuel : ℕ) (s : Loop) → length s.events ≤ fuel → (drain calls fuel s).events ≡ []
  unfolding drain
  drain_all zero s h = no_events s.events h
  drain_all (suc fuel) s h =
      drain_all fuel (pop_and_dispatch calls s.events s)
        (omega (arith, fewer-pop_and_dispatch s.events s refl, h))

  -- After a poll that is not interrupted, the loop over the events ends with none of them left,
  -- whatever the handlers do, and one pass for each entry is enough.
  pub after_poll_all :
      (pairs : List (ℕ × ℕ)) (s : Loop) → (after_poll calls (some pairs) s).events ≡ []
  unfolding after_poll
  after_poll_all pairs s = drain_all _ _ (omega arith)
