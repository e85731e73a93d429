-- ===== src/IoLoop/Callbacks.antt =====
-- tornado/ioloop.py: the order in which the callbacks of a turn run.
use tornado3_1_1_search.Base.{
  ℕ, zero, suc, ◌≡◌, refl, ap, sym, ◌∙◌, subst, ◌&&◌, ◌/◌, Option, none, some, List, [], ◌∷◌, ◌++◌,
  append-nil, append_assoc, Bool, true, false, if◌then◌else◌, map, ltb, leb, if_intro, option_intro,
  length, is_empty,
}
use tornado3_1_1_search.IoLoop.{
  Timeout, Event, ran_callback, ran_timeout, ran_handler, Loop, entry_of, Op, op_callback,
  op_timeout, op_cancel, op_handler, op_update, op_forget, op_stop, op_close, apply, raises,
  run_ops, add_callback, add_timeout, remove_timeout, add_handler, update_handler, remove_handler,
  stop, close,
}
use tornado3_1_1_search.IoLoop.Start.{
  live, clean_up, logged, run_callback, run_callbacks, run_waiting, first_timeout, next_timeout,
  pass, run_timeouts, dispatch, pop_and_dispatch, popitem, drain, after_poll, handle_timeouts,
  before_poll,
}

-- The list that was there, and what came after it.
pub record Extends (old new : List ℕ) : Type 0 where
  pub added : List ℕ
  pub is : new ≡ old ++ added

same : (xs : List ℕ) → Extends xs xs
same xs = record { added = []; is = sym (append-nil xs) }

then_more : {xs ys zs : List ℕ} → Extends xs ys → Extends ys zs → Extends xs zs
then_more {xs} e f = record {
  added = e.added ++ f.added;
  is = f.is ∙ ap (λ l. l ++ f.added) e.is ∙ append_assoc xs e.added f.added;
}

apply-Extends : (op : Op) (s : Loop) → Extends s.callbacks (apply op s).callbacks
unfolding apply add_callback add_timeout remove_timeout add_handler update_handler remove_handler
    stop close
apply-Extends (op_callback c) s = record { added = c ∷ []; is = refl }
apply-Extends (op_timeout deadline id c) s = same s.callbacks
apply-Extends (op_cancel id) s = same s.callbacks
apply-Extends (op_handler fd handler events) s = same s.callbacks
apply-Extends (op_update fd events) s = same s.callbacks
apply-Extends (op_forget fd) s = same s.callbacks
apply-Extends op_stop s = same s.callbacks
apply-Extends op_close s = same s.callbacks

run_ops-Extends : (ops : List Op) (s : Loop) → Extends s.callbacks (run_ops ops s).callbacks
unfolding run_ops
run_ops-Extends [] s = same s.callbacks
run_ops-Extends (op ∷ ops) s =
    if_intro (λ (r : Loop). Extends s.callbacks r.callbacks) (raises op s) _ _
      (λ e. same s.callbacks)
      (λ e. then_more (apply-Extends op s) (run_ops-Extends ops (apply op s)))

-- The callback that a call adds, and those that calls add until one raises.
abbrev queued : Op → List ℕ
queued (op_callback c) = c ∷ []
queued op = []

pub requested : List Op → Loop → List ℕ
requested [] s = []
requested (op ∷ ops) s =
    let rest = requested ops (apply op s) in if raises op s then [] else queued op ++ rest

apply-queued : (op : Op) (s : Loop) → (apply op s).callbacks ≡ s.callbacks ++ queued op
unfolding apply add_callback add_timeout remove_timeout add_handler update_handler remove_handler
    stop close
apply-queued (op_callback c) s = refl
apply-queued (op_timeout deadline id c) s = sym (append-nil s.callbacks)
apply-queued (op_cancel id) s = sym (append-nil s.callbacks)
apply-queued (op_handler fd handler events) s = sym (append-nil s.callbacks)
apply-queued (op_update fd events) s = sym (append-nil s.callbacks)
apply-queued (op_forget fd) s = sym (append-nil s.callbacks)
apply-queued op_stop s = sym (append-nil s.callbacks)
apply-queued op_close s = sym (append-nil s.callbacks)

pick_requested :
    (b : Bool) (s t : Loop) (more : List ℕ)
    → t.callbacks ≡ s.callbacks ++ more
    → (if b then s else t).callbacks ≡ s.callbacks ++ (if b then [] else more)
pick_requested true s t more e = sym (append-nil s.callbacks)
pick_requested false s t more e = e

run_ops-requested :
    (ops : List Op) (s : Loop) → (run_ops ops s).callbacks ≡ s.callbacks ++ requested ops s
unfolding run_ops requested
run_ops-requested [] s = sym (append-nil s.callbacks)
run_ops-requested (op ∷ ops) s =
    pick_requested (raises op s) s (run_ops ops (apply op s))
      (queued op ++ requested ops (apply op s))
      (run_ops-requested ops (apply op s)
        ∙ ap (λ l. l ++ requested ops (apply op s)) (apply-queued op s)
        ∙ append_assoc s.callbacks (queued op) (requested ops (apply op s)))

apply-log : (op : Op) (s : Loop) → (apply op s).log ≡ s.log
unfolding apply add_callback add_timeout remove_timeout add_handler update_handler remove_handler
    stop close
apply-log (op_callback c) s = refl
apply-log (op_timeout deadline id c) s = refl
apply-log (op_cancel id) s = refl
apply-log (op_handler fd handler events) s = refl
apply-log (op_update fd events) s = refl
apply-log (op_forget fd) s = refl
apply-log op_stop s = refl
apply-log op_close s = refl

pub run_ops-log : (ops : List Op) (s : Loop) → (run_ops ops s).log ≡ s.log
unfolding run_ops
run_ops-log [] s = refl
run_ops-log (op ∷ ops) s =
    if_intro (λ (r : Loop). r.log ≡ s.log) (raises op s) _ _ (λ e. refl)
      (λ e. run_ops-log ops (apply op s) ∙ apply-log op s)

clean_up-callbacks : (s : Loop) → (clean_up s).callbacks ≡ s.callbacks
unfolding clean_up
clean_up-callbacks s =
    if_intro (λ (r : Loop). r.callbacks ≡ s.callbacks)
      (ltb 512 s.cancellations && ltb (length s.timeouts / 2) s.cancellations)
      (record s { cancellations = 0; timeouts = live s.timeouts }) s (λ e. refl) (λ e. refl)

module _ (calls : ℕ → Loop → List Op) where
  pub run_callback-log :
      (event : Event) (callback : ℕ) (s : Loop)
      → (run_callback calls event callback s).log ≡ s.log ++ event ∷ []
  unfolding run_callback logged
  run_callback-log event callback s = run_ops-log (calls callback s) _

  run_callback-Extends :
      (event : Event) (callback : ℕ) (s : Loop)
      → Extends s.callbacks (run_callback calls event callback s).callbacks
  unfolding run_callback logged
  run_callback-Extends event callback s = run_ops-Extends (calls callback s) _

  run_callbacks-log :
      (callbacks : List ℕ) (s : Loop)
      → (run_callbacks calls callbacks s).log ≡ s.log ++ map ran_callback callbacks
  unfolding run_callbacks
  run_callbacks-log [] s = sym (append-nil s.log)
  run_callbacks-log (c ∷ cs) s =
      run_callbacks-log cs (run_callback calls (ran_callback c) c s)
      ∙ ap (λ l. l ++ map ran_callback cs) (run_callback-log (ran_callback c) c s)
      ∙ append_assoc s.log (ran_callback c ∷ []) (map ran_callback cs)

  -- The callbacks that callbacks add, one after the other.
  pub added_by : List ℕ → Loop → List ℕ
  added_by [] s = []
  added_by (c ∷ cs) s =
      requested (calls c s) (logged calls (ran_callback c) s)
      ++ added_by cs (run_callback calls (ran_callback c) c s)

  run_callback-added :
      (event : Event) (callback : ℕ) (s : Loop)
      → (run_callback calls event callback s).callbacks
        ≡ s.callbacks ++ requested (calls callback s) (logged calls event s)
  unfolding run_callback
  run_callback-added event callback s =
      run_ops-requested (calls callback s) (logged calls event s)
      ∙ ap (λ l. l ++ requested (calls callback s) (logged calls event s)) (unfold logged in refl)

  run_callbacks-added :
      (callbacks : List ℕ) (s : Loop)
      → (run_callbacks calls callbacks s).callbacks ≡ s.callbacks ++ added_by callbacks s
  unfolding run_callbacks added_by
  run_callbacks-added [] s = sym (append-nil s.callbacks)
  run_callbacks-added (c ∷ cs) s =
      let t = run_callback calls (ran_callback c) c s in
      let own = requested (calls c s) (logged calls (ran_callback c) s) in
      run_callbacks-added cs t
      ∙ ap (λ l. l ++ added_by cs t) (run_callback-added (ran_callback c) c s)
      ∙ append_assoc s.callbacks own (added_by cs t)

  LeadsOn : Loop → Option Loop → Type 0
  LeadsOn s none = Unit
  LeadsOn s (some s') = Extends s.callbacks s'.callbacks

  first_timeout-Extends :
      (now : ℕ) (t : Timeout) (callback : Option ℕ) (ts : List Timeout) (s : Loop)
      → LeadsOn s (first_timeout calls now t callback ts s)
  unfolding first_timeout LeadsOn
  first_timeout-Extends now t none ts s = same s.callbacks
  first_timeout-Extends now t (some callback) ts s =
      if_intro (LeadsOn s) (leb t.deadline now) _ _
        (λ due. run_callback-Extends (ran_timeout now t) callback (record s { timeouts = ts }))
        (λ early. tt)

  next_timeout-Extends :
      (now : ℕ) (ts : List Timeout) (s : Loop) → LeadsOn s (next_timeout calls now ts s)
  unfolding next_timeout LeadsOn
  next_timeout-Extends now [] s = tt
  next_timeout-Extends now (t ∷ ts) s = first_timeout-Extends now t t.callback ts s

  run_timeouts-Extends :
      (fuel now : ℕ) (s : Loop) → Extends s.callbacks (run_timeouts calls fuel now s).callbacks
  unfolding run_timeouts pass LeadsOn
  run_timeouts-Extends zero now s = same s.callbacks
  run_timeouts-Extends (suc fuel) now s =
      option_intro (λ (r : Loop). Extends s.callbacks r.callbacks) (pass calls now s) _ _
        (λ over. same s.callbacks)
        (λ s' here.
          then_more (subst (LeadsOn s) here (next_timeout-Extends now s.timeouts s))
            (run_timeouts-Extends fuel now s'))

  dispatch-Extends : (e : ℕ × ℕ) (s : Loop) → Extends s.callbacks (dispatch calls e s).callbacks
  unfolding dispatch logged
  dispatch-Extends e s =
      option_intro (λ (r : Loop). Extends s.callbacks r.callbacks) (entry_of e.0 s.handlers) _ _
        (λ absent. same s.callbacks)
        (λ handler found. run_callback-Extends (ran_handler e.0 handler e.1) handler s)

  pop_and_dispatch-Extends :
      (events : List (ℕ × ℕ)) (s : Loop)
      → Extends s.callbacks (pop_and_dispatch calls events s).callbacks
  unfolding pop_and_dispatch
  pop_and_dispatch-Extends [] s = same s.callbacks
  pop_and_dispatch-Extends (e ∷ es) s =
      dispatch-Extends (popitem e es).0 (record s { events = (popitem e es).1 })

  drain-Extends : (fuel : ℕ) (s : Loop) → Extends s.callbacks (drain calls fuel s).callbacks
  unfolding drain
  drain-Extends zero s = same s.callbacks
  drain-Extends (suc fuel) s =
      then_more (pop_and_dispatch-Extends s.events s)
        (drain-Extends fuel (pop_and_dispatch calls s.events s))

  after_poll-Extends :
      (polled : Option (List (ℕ × ℕ))) (s : Loop)
      → Extends s.callbacks (after_poll calls polled s).callbacks
  unfolding after_poll
  after_poll-Extends none s = same s.callbacks
  after_poll-Extends (some pairs) s = drain-Extends _ (record s { events = _ })

  handle_timeouts-Extends :
      (fuel now : ℕ) (s : Loop) → Extends s.callbacks (handle_timeouts calls fuel now s).callbacks
  unfolding handle_timeouts
  handle_timeouts-Extends fuel now s =
      let s' = run_timeouts calls fuel now s in
      if_intro (λ (r : Loop). Extends s.callbacks r.callbacks) (is_empty s.timeouts) _ _
        (λ e. same s.callbacks)
        (λ e.
          subst (Extends s.callbacks) (sym (clean_up-callbacks s'))
            (run_timeouts-Extends fuel now s))

  -- What a turn does with callbacks: `ran` is the log after those that were waiting have run, `added`
  -- the callbacks that wait then, and `kept` those that wait when the turn is over.
  pub record TurnRuns (fuel now : ℕ) (polled : Option (List (ℕ × ℕ))) (s : Loop) : Type 0 where
    pub ran : (run_waiting calls s).log ≡ s.log ++ map ran_callback s.callbacks
    pub added : (run_waiting calls s).callbacks ≡ added_by s.callbacks (record s { callbacks = [] })
    pub kept :
        Extends
          (run_waiting calls s).callbacks
          (after_poll calls polled (before_poll calls fuel now s)).callbacks

  -- A turn runs the callbacks that were waiting when it began, each once and in their order, and
  -- none of those that they add. What they add, until a call of theirs raises, is waiting when the
  -- turn ends, in the order in which it was added and before anything else, so that the next turn
  -- runs it.
  pub turn-TurnRuns :
      (fuel now : ℕ) (polled : Option (List (ℕ × ℕ))) (s : Loop) → TurnRuns fuel now polled s
  unfolding run_waiting before_poll
  turn-TurnRuns fuel now polled s = record {
    ran = run_callbacks-log s.callbacks (record s { callbacks = [] });
    added = run_callbacks-added s.callbacks (record s { callbacks = [] });
    kept =
        then_more (handle_timeouts-Extends fuel now (run_waiting calls s))
          (after_poll-Extends polled (before_poll calls fuel now s));
  }
