-- ===== src/IoLoop/Timeouts.antt =====
-- tornado/ioloop.py: the loop of a turn over the timeouts ends, and runs those that are due.
pub mod Ends
use tornado3_1_1_search.Base.{
  ℕ, zero, suc, ◌+◌, ◌-◌, ◌≤◌, ◌<◌, ◌≡◌, refl, ap, sym, ◌∙◌, subst, Bool, true, false, not, ◌&&◌,
  Option, none, some, is_some, List, [], ◌∷◌, ◌++◌, append-nil, append_assoc, ltb, leb, leb→lt,
  ◌==◌, if◌then◌else◌, if_intro, option_intro, arith, Each, Each-append, length, Option-cases, inl,
  inr, ◌⊎◌,
}
use tornado3_1_1_search.IoLoop.{
  Timeout, Event, ran_callback, ran_timeout, ran_handler, no_handler, Loop, Op, op_callback,
  op_timeout, op_cancel, op_handler, op_update, op_forget, op_stop, op_close, apply, raises,
  run_ops, add_callback, add_timeout, remove_timeout, add_handler, update_handler, remove_handler,
  stop, close, heappush, cancel, before,
}
use tornado3_1_1_search.IoLoop.Start.{
  logged, run_callback, first_timeout, next_timeout, pass, run_timeouts,
}
use tornado3_1_1_search.IoLoop.Callbacks.{run_callback-log}
use tornado3_1_1_search.IoLoop.Sound.Runs.{run_timeouts-IsSound}
use tornado3_1_1_search.IoLoop.Sound.{IsSound, Sorted}

is_due : ℕ → Timeout → Bool
is_due now t = is_some t.callback && leb t.deadline now

-- The number of timeouts that are due and not cancelled.
pub due : ℕ → List Timeout → ℕ
unfolding is_due
due now [] = 0
due now (t ∷ ts) = (if is_due now t then 1 else 0) + due now ts

-- A call that adds no timeout which is due at once.
unfoldable pub is_later : ℕ → Op → Bool
is_later now (op_timeout deadline id callback) = ltb now deadline
is_later now op = true

unfoldable pub all_later : ℕ → List Op → Bool
unfolding is_later
all_later now [] = true
all_later now (op ∷ ops) = is_later now op && all_later now ops

due-heappush :
    (now : ℕ) (t : Timeout) (ts : List Timeout) → due now (heappush t ts) ≡ due now (t ∷ ts)
unfolding due heappush
due-heappush now t [] = refl
due-heappush now t (u ∷ us) = ground (arith, due-heappush now t us)

due-cancel : (now id : ℕ) (ts : List Timeout) → due now (cancel id ts) ≤ due now ts
unfolding due cancel
due-cancel now id [] = omega arith
due-cancel now id (t ∷ ts) = ground (arith, due-cancel now id ts)

due-apply :
    (now : ℕ) (op : Op) (s : Loop)
    → is_later now op ≡ true
    → due now (apply op s).timeouts ≤ due now s.timeouts
unfolding apply add_callback add_timeout remove_timeout add_handler update_handler remove_handler
    stop close is_later due
due-apply now (op_callback c) s h = omega arith
due-apply now (op_timeout deadline id c) s h = ground (
  arith,
  due-heappush now (record { deadline = deadline; id = id; callback = some c }) s.timeouts,
)
due-apply now (op_cancel id) s h = due-cancel now id s.timeouts
due-apply now (op_handler fd handler events) s h = omega arith
due-apply now (op_update fd events) s h = omega arith
due-apply now (op_forget fd) s h = omega arith
due-apply now op_stop s h = omega arith
due-apply now op_close s h = omega arith

due-run_ops :
    (now : ℕ) (ops : List Op) (s : Loop)
    → all_later now ops ≡ true
    → due now (run_ops ops s).timeouts ≤ due now s.timeouts
unfolding run_ops all_later
due-run_ops now [] s h = omega arith
due-run_ops now (op ∷ ops) s h =
    let first = due-apply now op s (ground (arith, h)) in
    let rest = due-run_ops now ops (apply op s) (ground (arith, h)) in
    if_intro (λ (r : Loop). due now r.timeouts ≤ due now s.timeouts) (raises op s) _ _
      (λ e. omega arith) (λ e. omega arith)

-- Whether an event is the run of a timeout that was due and not cancelled.
pub fired : ℕ → Event → Bool
fired now (ran_timeout n t) = n == now && (is_some t.callback && leb t.deadline now)
fired now e = false

Each_after :
    (now : ℕ) (d : ℕ) (ts : List Timeout)
    → now < d
    → Each (λ u. d ≤ u.deadline) ts
    → Each (λ u. now < u.deadline) ts
Each_after now d [] lt h = tt
Each_after now d (t ∷ ts) lt h = (omega (arith, h.0), Each_after now d ts lt h.1)

module _ (calls : ℕ → Loop → List Op) where
  due-run_callback :
      (now : ℕ) (event : Event) (c : ℕ) (s : Loop)
      → ((c : ℕ) (s : Loop) → all_later now (calls c s) ≡ true)
      → due now (run_callback calls event c s).timeouts ≤ due now s.timeouts
  unfolding run_callback logged
  due-run_callback now event c s later = due-run_ops now (calls c s) _ (later c s)

  -- A pass that goes on either takes off one entry that was cancelled, or runs one that was due.
  pub data Step (now : ℕ) (s s' : Loop) : Type 0 where
    dropped :
        suc (length s'.timeouts) ≤ length s.timeouts
        → due now s'.timeouts ≤ due now s.timeouts
        → s'.log ≡ s.log
        → Step now s s'
    ran :
        (t : Timeout)
        → suc (due now s'.timeouts) ≤ due now s.timeouts
        → fired now (ran_timeout now t) ≡ true
        → s'.log ≡ s.log ++ ran_timeout now t ∷ []
        → Step now s s'

  pub Steps : ℕ → Loop → Option Loop → Type 0
  Steps now s none = Each (λ u. now < u.deadline) s.timeouts
  Steps now s (some s') = Step now s s'

  first_timeout-Steps :
      (now : ℕ) (t : Timeout) (callback : Option ℕ) (ts : List Timeout) (s : Loop)
      → ((c : ℕ) (s : Loop) → all_later now (calls c s) ≡ true)
      → t.callback ≡ callback
      → s.timeouts ≡ t ∷ ts
      → Sorted (t ∷ ts)
      → Steps now s (first_timeout calls now t callback ts s)
  unfolding first_timeout Steps due is_due fired Sorted
  first_timeout-Steps now t none ts s later e first h =
      dropped (ground (arith, first)) (ground (arith, first, e)) refl
  first_timeout-Steps now t (some c) ts s later e first h =
      if_intro (Steps now s) (leb t.deadline now) _ _
        (λ is.
          ran t
            (less (is_due_lem is)
              (due-run_callback now (ran_timeout now t) c (record s { timeouts = ts }) later))
            (fires is) (run_callback-log calls (ran_timeout now t) c (record s { timeouts = ts })))
        (λ early.
          subst (λ l. Each (λ u. now < u.deadline) l) (sym first)
            (
              leb→lt t.deadline now early,
              Each_after now t.deadline ts (leb→lt t.deadline now early) h.0,
            ))
    where
      is_due_lem : leb t.deadline now ≡ true → due now s.timeouts ≡ suc (due now ts)
      is_due_lem is = ground (arith, first, e)

      less :
          {k : ℕ}
          → due now s.timeouts ≡ suc (due now ts)
          → k ≤ due now ts
          → suc k ≤ due now s.timeouts
      less e h = omega (arith, e, h)

      fires : leb t.deadline now ≡ true → fired now (ran_timeout now t) ≡ true
      fires is = ground (arith, e)

  next_timeout-Steps :
      (now : ℕ) (ts : List Timeout) (s : Loop)
      → ((c : ℕ) (s : Loop) → all_later now (calls c s) ≡ true)
      → s.timeouts ≡ ts
      → Sorted ts
      → Steps now s (next_timeout calls now ts s)
  unfolding next_timeout Steps
  next_timeout-Steps now [] s later e h = rw e tt
  next_timeout-Steps now (t ∷ ts) s later e h =
      first_timeout-Steps now t t.callback ts s later refl e h

  pub pass-Steps :
      (now : ℕ) (s : Loop)
      → ((c : ℕ) (s : Loop) → all_later now (calls c s) ≡ true)
      → IsSound s
      → Steps now s (pass calls now s)
  unfolding pass
  pass-Steps now s later h = next_timeout-Steps now s.timeouts s later refl h.ordered
