-- ===== src/IoLoop/Timeouts/Ends.antt =====
-- tornado/ioloop.py: where the loop over the timeouts ends, and what it has run by then.
use tornado3_1_1_search.Base.{
  ℕ, zero, suc, ◌≤◌, ◌<◌, ◌≡◌, ap, sym, ◌∙◌, subst, true, none, some, List, [], ◌∷◌, ◌++◌,
  append-nil, append_assoc, option_intro, arith, Each, Each-append, length, Option-cases, inl, inr,
}
use tornado3_1_1_search.IoLoop.{Event, ran_timeout, Loop, Op}
use tornado3_1_1_search.IoLoop.Start.{pass, run_timeouts}
use tornado3_1_1_search.IoLoop.Sound.Runs.{run_timeouts-IsSound}
use tornado3_1_1_search.IoLoop.Sound.{IsSound}
use tornado3_1_1_search.IoLoop.Timeouts.{
  due, all_later, fired, Step, dropped, ran, Steps, pass-Steps,
}

module _ (calls : ℕ → Loop → List Op) where
  one_pass :
      (fuel now : ℕ) (s s' : Loop)
      → pass calls now s ≡ some s'
      → run_timeouts calls (suc fuel) now s ≡ run_timeouts calls fuel now s'
  unfolding run_timeouts
  one_pass fuel now s s' here =
      option_intro (λ (r : Loop). r ≡ run_timeouts calls fuel now s') (pass calls now s) _ _
        (λ over. absurd (ground (arith, over, here)))
        (λ u is. ap (run_timeouts calls fuel now) (ground (arith, is, here)))

  pass-IsSound : (now : ℕ) (s s' : Loop) → IsSound s → pass calls now s ≡ some s' → IsSound s'
  unfolding run_timeouts
  pass-IsSound now s s' h here =
      subst IsSound (one_pass 0 now s s' here) (run_timeouts-IsSound calls 1 now s h)

  -- The events that were added to a log are runs of timeouts that were due.
  pub record Fires (now : ℕ) (s s' : Loop) : Type 0 where
    pub events : List Event
    pub logged : s'.log ≡ s.log ++ events
    pub due_then : Each (λ e. fired now e ≡ true) events

  Fires-Step : (now : ℕ) (s s' : Loop) → Step calls now s s' → Fires now s s'
  Fires-Step now s s' (dropped shorter less same) = record {
    events = [];
    logged = same ∙ sym (append-nil s.log);
    due_then = tt;
  }
  Fires-Step now s s' (ran t less is log) = record {
    events = ran_timeout now t ∷ [];
    logged = log;
    due_then = (is, tt);
  }

  Fires-trans : (now : ℕ) (s t u : Loop) → Fires now s t → Fires now t u → Fires now s u
  Fires-trans now s t u e f = record {
    events = e.events ++ f.events;
    logged = f.logged ∙ ap (λ l. l ++ f.events) e.logged ∙ append_assoc s.log e.events f.events;
    due_then = Each-append (λ e. fired now e ≡ true) e.events f.events (e.due_then, f.due_then);
  }

  -- The loop has ended at `s'`: what was added to the log are timeouts that were due, and every
  -- timeout that is left is for later.
  pub record Ends (now : ℕ) (s s' : Loop) : Type 0 where
    pub over : pass calls now s' ≡ none
    pub fires : Fires now s s'
    pub later : Each (λ t. now < t.deadline) s'.timeouts

  pub record Finishes (now : ℕ) (s : Loop) : Type 0 where
    pub fuel : ℕ
    pub ends : Ends now s (run_timeouts calls fuel now s)

  module _ (now : ℕ) (later : (c : ℕ) (s : Loop) → all_later now (calls c s) ≡ true) where
    pass-Step : (s s' : Loop) → IsSound s → pass calls now s ≡ some s' → Step calls now s s'
    unfolding Steps
    pass-Step s s' h here = subst (Steps calls now s) here (pass-Steps calls now s later h)

    finished : (s : Loop) → IsSound s → pass calls now s ≡ none → Finishes now s
    unfolding Steps run_timeouts
    finished s h over = record {
      fuel = 0;
      ends = record {
        over = over;
        fires = record { events = []; logged = sym (append-nil s.log); due_then = tt };
        later = subst (Steps calls now s) over (pass-Steps calls now s later h);
      };
    }

    one_more :
        (s s' : Loop)
        → pass calls now s ≡ some s'
        → Step calls now s s'
        → Finishes now s'
        → Finishes now s
    one_more s s' here step f = record {
      fuel = suc f.fuel;
      ends = subst (Ends now s) (sym (one_pass f.fuel now s s' here)) (record {
        over = f.ends.over;
        fires = Fires-trans now s s' _ (Fires-Step now s s' step) f.ends.fires;
        later = f.ends.later;
      });
    }

    -- A pass leaves fewer timeouts that are due, or as many of them and fewer in all.
    Step-Finishes :
        (n m : ℕ) (s s' : Loop)
        → ((s : Loop) → IsSound s → due now s.timeouts < n → Finishes now s)
        → ((s : Loop) → IsSound s → due now s.timeouts ≤ n → length s.timeouts < m → Finishes now s)
        → IsSound s'
        → due now s.timeouts ≤ n
        → length s.timeouts ≤ m
        → Step calls now s s'
        → Finishes now s'
    Step-Finishes n m s s' fewer shorter h few short (dropped less same log) =
        shorter s' h (omega (arith, few, same)) (omega (arith, short, less))
    Step-Finishes n m s s' fewer shorter h few short (ran t less is log) =
        fewer s' h (omega (arith, few, less))

    proceed :
        (n m : ℕ)
        → ((s : Loop) → IsSound s → due now s.timeouts < n → Finishes now s)
        → ((s : Loop) → IsSound s → due now s.timeouts ≤ n → length s.timeouts < m → Finishes now s)
        → (s : Loop) → IsSound s
        → due now s.timeouts ≤ n
        → length s.timeouts ≤ m
        → Finishes now s
    proceed n m fewer shorter s h few short = elim (Option-cases (pass calls now s)) [
      | inl over ↦ finished s h over
      | inr p ↦
          let step = pass-Step s p.0 h p.1 in
          one_more s p.0 p.1 step
            (Step-Finishes n m s p.0 fewer shorter (pass-IsSound now s p.0 h p.1) few short step)
    ]

    by_length :
        (n : ℕ)
        → ((s : Loop) → IsSound s → due now s.timeouts < n → Finishes now s)
        → (m : ℕ) (s : Loop) → IsSound s
        → due now s.timeouts ≤ n
        → length s.timeouts ≤ m
        → Finishes now s
    by_length n fewer zero =
        proceed n zero fewer (λ s h few none_left. absurd (omega (arith, none_left)))
    by_length n fewer (suc m) =
        proceed n (suc m) fewer
          (λ s h few short. by_length n fewer m s h few (omega (arith, short)))

    by_due : (n : ℕ) (s : Loop) → IsSound s → due now s.timeouts ≤ n → Finishes now s
    by_due zero s h few =
        by_length zero (λ s h none_due. absurd (omega (arith, none_due))) (length s.timeouts) s h
          few (omega arith)
    by_due (suc n) s h few =
        by_length (suc n) (λ s h less. by_due n s h (omega (arith, less))) (length s.timeouts) s h
          few (omega arith)

    -- When the heap is in order and no callback adds a timeout that is due at once, the loop over the
    -- timeouts ends. What it has run by then are timeouts that were due and not cancelled, and every
    -- timeout that is left has its deadline after the time that the loop compares with.
    pub run_timeouts-Finishes : (s : Loop) → IsSound s → Finishes now s
    run_timeouts-Finishes s h = by_due (due now s.timeouts) s h (omega arith)
