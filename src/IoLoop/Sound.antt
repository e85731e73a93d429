-- ===== src/IoLoop/Sound.antt =====
-- tornado/ioloop.py: the heap of timeouts stays in order, and its count of cancelled entries is right.
pub mod Runs
use tornado3_1_1_search.Base.{
  ℕ, zero, suc, ◌+◌, ◌/◌, ◌≤◌, ◌≡◌, refl, false, Option, none, some, is_some, List, [], ◌∷◌, ltb,
  leb, ◌==◌, ◌&&◌, if◌then◌else◌, if_intro, option_intro, subst, arith, Each, length, is_empty,
}
use tornado3_1_1_search.IoLoop.{
  Timeout, Event, ran_callback, ran_timeout, ran_handler, Loop, entry_of, init, Op, op_callback,
  op_timeout, op_cancel, op_handler, op_update, op_forget, op_stop, op_close, apply, raises,
  run_ops, heappush, before, cancel, add_callback, add_timeout, remove_timeout, add_handler,
  update_handler, remove_handler, stop, close,
}
use tornado3_1_1_search.IoLoop.Start.{
  Turn, live, clean_up, logged, run_callback, run_callbacks, run_waiting, first_timeout,
  next_timeout, pass, run_timeouts, dispatch, pop_and_dispatch, popitem, drain, after_poll,
  handle_timeouts, before_poll, run_turns, start,
}

-- Every entry that follows has a deadline that is as late or later.
unfoldable pub Sorted : List Timeout → Type 0
Sorted [] = Unit
Sorted (t ∷ ts) = Each (λ u. t.deadline ≤ u.deadline) ts × Sorted ts

unfoldable pub cancelled : List Timeout → ℕ
cancelled [] = 0
cancelled (t ∷ ts) = (if is_some t.callback then 0 else 1) + cancelled ts

-- The heap is in the order of the deadlines, and `_cancellations` counts at least the entries that
-- are cancelled, so that taking one off never makes it negative.
pub record IsSound (s : Loop) : Type 0 where
  pub ordered : Sorted s.timeouts
  pub counted : cancelled s.timeouts ≤ s.cancellations

Each-heappush :
    (d : ℕ) (t : Timeout) (ts : List Timeout)
    → d ≤ t.deadline
    → Each (λ u. d ≤ u.deadline) ts
    → Each (λ u. d ≤ u.deadline) (heappush t ts)
unfolding heappush
Each-heappush d t [] h hs = (h, tt)
Each-heappush d t (u ∷ us) h hs =
    if_intro (Each (λ u. d ≤ u.deadline)) (before t u) _ _ (λ e. (h, hs))
      (λ e. (hs.0, Each-heappush d t us h hs.1))

Each_later :
    (d e : ℕ) (ts : List Timeout)
    → d ≤ e
    → Each (λ u. e ≤ u.deadline) ts
    → Each (λ u. d ≤ u.deadline) ts
Each_later d e [] le h = tt
Each_later d e (t ∷ ts) le h = (omega (arith, h.0), Each_later d e ts le h.1)

Sorted-heappush : (t : Timeout) (ts : List Timeout) → Sorted ts → Sorted (heappush t ts)
unfolding Sorted heappush before
Sorted-heappush t [] h = (tt, tt)
Sorted-heappush t (u ∷ us) h =
    if_intro Sorted (before t u) _ _
      (λ e. ((ground (arith, e), Each_later t.deadline u.deadline us (ground (arith, e)) h.0), h))
      (λ e. (Each-heappush u.deadline t us (ground (arith, e)) h.0, Sorted-heappush t us h.1))

cancelled-heappush :
    (t : Timeout) (ts : List Timeout) → cancelled (heappush t ts) ≡ cancelled (t ∷ ts)
unfolding cancelled heappush
cancelled-heappush t [] = refl
cancelled-heappush t (u ∷ us) = ground (arith, cancelled-heappush t us)

Each-cancel :
    (d id : ℕ) (ts : List Timeout)
    → Each (λ u. d ≤ u.deadline) ts
    → Each (λ u. d ≤ u.deadline) (cancel id ts)
unfolding cancel
Each-cancel d id [] h = tt
Each-cancel d id (t ∷ ts) h =
    if_intro (Each (λ u. d ≤ u.deadline)) (t.id == id) _ _ (λ e. h)
      (λ e. (h.0, Each-cancel d id ts h.1))

Sorted-cancel : (id : ℕ) (ts : List Timeout) → Sorted ts → Sorted (cancel id ts)
unfolding Sorted cancel
Sorted-cancel id [] h = tt
Sorted-cancel id (t ∷ ts) h =
    if_intro Sorted (t.id == id) _ _ (λ e. h)
      (λ e. (Each-cancel t.deadline id ts h.0, Sorted-cancel id ts h.1))

cancelled-cancel : (id : ℕ) (ts : List Timeout) → cancelled (cancel id ts) ≤ cancelled ts + 1
unfolding cancelled cancel
cancelled-cancel id [] = omega arith
cancelled-cancel id (t ∷ ts) = ground (arith, cancelled-cancel id ts)

Each-live :
    (d : ℕ) (ts : List Timeout)
    → Each (λ u. d ≤ u.deadline) ts
    → Each (λ u. d ≤ u.deadline) (live ts)
unfolding live
Each-live d [] h = tt
Each-live d (t ∷ ts) h =
    if_intro (Each (λ u. d ≤ u.deadline)) (is_some t.callback) _ _ (λ e. (h.0, Each-live d ts h.1))
      (λ e. Each-live d ts h.1)

Sorted-live : (ts : List Timeout) → Sorted ts → Sorted (live ts)
unfolding Sorted live
Sorted-live [] h = tt
Sorted-live (t ∷ ts) h =
    if_intro Sorted (is_some t.callback) _ _
      (λ e. (Each-live t.deadline ts h.0, Sorted-live ts h.1)) (λ e. Sorted-live ts h.1)

cancelled-live : (ts : List Timeout) → cancelled (live ts) ≡ 0
unfolding cancelled live
cancelled-live [] = refl
cancelled-live (t ∷ ts) = ground (arith, cancelled-live ts)

apply-IsSound : (op : Op) (s : Loop) → IsSound s → IsSound (apply op s)
unfolding apply add_callback add_timeout remove_timeout add_handler update_handler remove_handler
    stop close cancelled
apply-IsSound (op_callback c) s h = record { ordered = h.ordered; counted = h.counted }
apply-IsSound (op_timeout deadline id c) s h = record {
  ordered = Sorted-heappush _ s.timeouts h.ordered;
  counted = omega (
    arith,
    cancelled-heappush (record { deadline = deadline; id = id; callback = some c }) s.timeouts,
    h.counted,
  );
}
apply-IsSound (op_cancel id) s h = record {
  ordered = Sorted-cancel id s.timeouts h.ordered;
  counted = omega (arith, cancelled-cancel id s.timeouts, h.counted);
}
apply-IsSound (op_handler fd handler events) s h = record {
  ordered = h.ordered;
  counted = h.counted;
}
apply-IsSound (op_update fd events) s h = record { ordered = h.ordered; counted = h.counted }
apply-IsSound (op_forget fd) s h = record { ordered = h.ordered; counted = h.counted }
apply-IsSound op_stop s h = record { ordered = h.ordered; counted = h.counted }
apply-IsSound op_close s h = record { ordered = h.ordered; counted = h.counted }

pub run_ops-IsSound : (ops : List Op) (s : Loop) → IsSound s → IsSound (run_ops ops s)
unfolding run_ops
run_ops-IsSound [] s h = h
run_ops-IsSound (op ∷ ops) s h =
    if_intro IsSound (raises op s) _ _ (λ e. h) (λ e. run_ops-IsSound ops _ (apply-IsSound op s h))

pub clean_up-IsSound : (s : Loop) → IsSound s → IsSound (clean_up s)
unfolding clean_up
clean_up-IsSound s h =
    if_intro IsSound (ltb 512 s.cancellations && ltb (length s.timeouts / 2) s.cancellations)
      (record s { cancellations = 0; timeouts = live s.timeouts }) s
      (λ e. record {
        ordered = Sorted-live s.timeouts h.ordered;
        counted = omega (arith, cancelled-live s.timeouts);
      })
      (λ e. h)
