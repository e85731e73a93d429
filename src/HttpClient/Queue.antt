-- ===== src/HttpClient/Queue.antt =====
-- tornado/simple_httpclient.py: the promises of the queue.
use tornado3_1_1_search.Base.{
  ℕ, zero, suc, ◌≤◌, ◌≡◌, refl, ap, sym, ◌∙◌, Bool, true, false, List, [], ◌∷◌, ◌++◌, append-nil,
  append_assoc, if◌then◌else◌, if_intro, subst, length, length-append, arith,
}
use tornado3_1_1_search.HttpClient.{
  Client, init, has_key, without, has_room, start_request, start_first, first_fails, process_queue,
  fetch_impl, release_fetch, Op, op_fetch, op_release, apply, run,
}

-- The requests that were fetched, in order.
pub fetched : List Op → List ℕ
fetched [] = []
fetched (op_fetch request ∷ ops) = request ∷ fetched ops
fetched (op_release key ∷ ops) = fetched ops

-- What holds of a client that is processing its queue: there are no more active requests than
-- allowed, and those that were started and those that wait are `asked`, in this order.
pub record IsSound (asked : List ℕ) (s : Client) : Type 0 where
  pub bounded : length s.active ≤ s.max_clients
  pub in_order : s.started ++ s.queue ≡ asked

-- A processed queue has nothing to start: it is empty, or every slot is taken.
pub record IsIdle (asked : List ℕ) (s : Client) : Type 0 where
  pub sound : IsSound asked s
  pub full : has_room s ≡ false

length-without : (key : ℕ) (es : List (ℕ × ℕ)) → length (without key es) ≤ length es
unfolding without
length-without key [] = omega arith
length-without key (e ∷ es) = ground (arith, length-without key es)

start_first-IsSound :
    (asked queue : List ℕ) (s : Client)
    → s.queue ≡ queue
    → has_room s ≡ true
    → IsSound asked s
    → IsSound asked (start_first queue s)
unfolding start_first start_request has_room
start_first-IsSound asked [] s e room h = h
start_first-IsSound asked (request ∷ queue) s e room h = record {
  bounded = ground (arith, room, length-append s.active ((s.made, request) ∷ []));
  in_order =
      append_assoc s.started (request ∷ []) queue ∙ (ap (λ q. s.started ++ q) (sym e) ∙ h.in_order);
}

-- What processing the queue of `s` leads to.
record Processed (asked : List ℕ) (s r : Client) : Type 0 where
  idle : IsIdle asked r
  shorter : length r.queue ≤ length s.queue

length-start_first :
    (queue : List ℕ) (s : Client)
    → s.queue ≡ queue
    → has_room s ≡ true
    → suc (length (start_first queue s).queue) ≤ length s.queue
unfolding start_first start_request has_room
length-start_first [] s e room = ground (arith, e, room)
length-start_first (request ∷ queue) s e room = ground (arith, e)

no_room_empty : (s : Client) → length s.queue ≤ 0 → has_room s ≡ false
unfolding has_room
no_room_empty s h = ground (arith, h)

module _ (at_once : ℕ → Bool) (asked : List ℕ) where
  process_queue-Processed :
      (fuel : ℕ) (s : Client)
      → IsSound asked s
      → length s.queue ≤ fuel
      → Processed asked s (process_queue at_once fuel s)
  unfolding process_queue
  process_queue-Processed zero s h short = record {
    idle = record { sound = h; full = no_room_empty s short };
    shorter = omega arith;
  }
  process_queue-Processed (suc fuel) s h short =
      let s' = start_first s.queue s in
      let inner = process_queue at_once fuel (record s' { active = without s.made s'.active }) in
      let next = if first_fails at_once s.queue then inner else s' in
      if_intro (Processed asked s) (has_room s) (process_queue at_once fuel next) s
        (λ room.
          let h' = start_first-IsSound asked s.queue s refl room h in
          let less = length-start_first s.queue s refl room in
          let fits : length s'.queue ≤ fuel = omega (arith, less, short) in
          let nested =
            process_queue-Processed fuel (record s' { active = without s.made s'.active })
              (record {
                bounded = omega (arith, length-without s.made s'.active, h'.bounded);
                in_order = h'.in_order;
              })
              fits in
          let ready =
            if_intro (λ (r : Client). IsSound asked r × (length r.queue ≤ length s'.queue))
              (first_fails at_once s.queue) inner s' (λ e. (nested.idle.sound, nested.shorter))
              (λ e. (h', omega arith)) in
          let rest = process_queue-Processed fuel next ready.0 (omega (arith, ready.1, fits)) in
          record { idle = rest.idle; shorter = omega (arith, rest.shorter, ready.1, less) })
        (λ full. record { idle = record { sound = h; full = full }; shorter = omega arith })

module _ (at_once : ℕ → Bool) where
  fetch_impl-IsIdle :
      (asked : List ℕ) (request : ℕ) (s : Client)
      → IsIdle asked s
      → IsIdle (asked ++ request ∷ []) (fetch_impl at_once request s)
  unfolding fetch_impl
  fetch_impl-IsIdle asked request s h =
      (process_queue-Processed at_once (asked ++ request ∷ []) (suc (length s.queue))
        (record s { queue = s.queue ++ request ∷ [] })
        (record {
          bounded = h.sound.bounded;
          in_order =
              sym (append_assoc s.started s.queue (request ∷ []))
              ∙ ap (λ l. l ++ request ∷ []) h.sound.in_order;
        })
        (omega (arith, length-append s.queue (request ∷ [])))).idle

  release_fetch-IsIdle :
      (asked : List ℕ) (key : ℕ) (s : Client)
      → IsIdle asked s
      → IsIdle asked (release_fetch at_once key s)
  unfolding release_fetch
  release_fetch-IsIdle asked key s h =
      if_intro (IsIdle asked) (has_key key s.active) _ _
        (λ e.
          (process_queue-Processed at_once asked (length s.queue)
            (record s { active = without key s.active })
            (record {
              bounded = omega (arith, length-without key s.active, h.sound.bounded);
              in_order = h.sound.in_order;
            })
            (omega arith)).idle)
        (λ e. h)

  run-IsIdle_from :
      (ops : List Op) (asked : List ℕ) (s : Client)
      → IsIdle asked s
      → IsIdle (asked ++ fetched ops) (run at_once ops s)
  unfolding run apply fetched
  run-IsIdle_from [] asked s h = rw (append-nil asked) h
  run-IsIdle_from (op_fetch request ∷ ops) asked s h =
      subst (λ l. IsIdle l (run at_once ops (fetch_impl at_once request s)))
        (append_assoc asked (request ∷ []) (fetched ops))
        (run-IsIdle_from ops (asked ++ request ∷ []) _ (fetch_impl-IsIdle asked request s h))
  run-IsIdle_from (op_release key ∷ ops) asked s h =
      run-IsIdle_from ops asked _ (release_fetch-IsIdle asked key s h)

  -- After any fetches and releases, whichever requests fail at once: no more than `max_clients`
  -- requests are active, the requests that were started and then those that wait are all that were
  -- fetched, in the order of the fetches, and no request waits while fewer than `max_clients` are active.
  pub run-IsIdle :
      (max_clients : ℕ) (ops : List Op) → IsIdle (fetched ops) (run at_once ops (init max_clients))
  unfolding init has_room
  run-IsIdle max_clients ops =
      let fresh : IsIdle [] (init max_clients) = record {
        sound = record { bounded = omega arith; in_order = refl };
        full = refl;
      } in
      run-IsIdle_from ops [] (init max_clients) fresh
