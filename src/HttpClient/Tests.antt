-- ===== src/HttpClient/Tests.antt =====
-- A client of tornado/simple_httpclient.py with two slots, where request 7 fails at once.
use tornado3_1_1_search.Base.{ℕ, ◌≡◌, refl, Bool, List, [], ◌∷◌, ◌==◌}
use tornado3_1_1_search.HttpClient.{
  init, has_key, without, has_room, process_queue, fetch_impl, release_fetch, Op, op_fetch,
  op_release, apply, run,
}
use tornado3_1_1_search.HttpClient.Queue.{IsIdle, fetched, run-IsIdle}

abbrev fails : ℕ → Bool
fails request = request == 7

abbrev ops : List Op
ops = op_fetch 5 ∷ op_fetch 6 ∷ op_fetch 7 ∷ op_fetch 8 ∷ op_release 0 ∷ []

started_last : (run fails ops (init 2)).started ≡ 5 ∷ 6 ∷ 7 ∷ 8 ∷ []
unfolding run apply fetch_impl release_fetch process_queue has_room init has_key without
started_last = refl

run-IsIdle_example : IsIdle (fetched ops) (run fails ops (init 2))
run-IsIdle_example = run-IsIdle fails 2 ops
