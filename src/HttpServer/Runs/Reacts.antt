-- ===== src/HttpServer/Runs/Reacts.antt =====
-- tornado/httpserver.py: a predicate that the single steps keep is kept by every run of an
-- `HTTPConnection`.
use tornado3_1_1_search.Base.{◌≡◌, Bool, true, false, none, List, [], ◌∷◌, if_intro, arith}
use tornado3_1_1_search.HttpServer.{Server, Transport}
use tornado3_1_1_search.HttpServer.Connection.{
  Output, Connection, Result, ok, raised, after, clear_request_state, run_callback,
  on_connection_close, on_write_complete,
}
use tornado3_1_1_search.HttpServer.RequestHead.{parse_head}
use tornado3_1_1_search.HttpServer.Connection.Receiving.{on_headers, on_request_body}
use tornado3_1_1_search.HttpServer.Runs.{
  Input, got_headers, got_body, write_completed, connection_closed, ops, moved, settle, left, react,
  run,
}
use tornado3_1_1_search.HttpServer.Runs.Kept.{
  Steps, run_callback-Of, run_ops-Of, on_write_complete-Of, with_head-Of, body_of_request-Of,
}

-- The predicate on a stream that is closed.
abbrev OnClosed :
    {S : Type 0} → Transport S → (S → Bool → List Output → Type 0) → S → Bool → List Output → Type 0
OnClosed transport Holds t h l = Holds t h l × (transport.closed t ≡ true)

closed_steps :
    {S : Type 0} (transport : Transport S) (Holds : S → Bool → List Output → Type 0)
    → Steps transport Holds
    → Steps transport (OnClosed transport Holds)
closed_steps transport Holds steps = record {
  read_until =
      λ d cb t h l k. (steps.read_until d cb t h l k.0, transport.read_until-closed d cb t k.1);
  read_bytes =
      λ n cb t h l k. (steps.read_bytes n cb t h l k.0, transport.read_bytes-closed n cb t k.1);
  write = λ b cb t h l k. (steps.write b cb t h l k.0, transport.write-closed b cb t k.1);
  close = λ t h l k. (steps.close t h l k.0, transport.close-closed t);
  forget = λ t h l c k. (steps.forget t h l c k.0, k.1);
  moved = λ t u h l c k. absurd (ground (arith, c, k.1));
  called = λ r t h l k. (steps.called r t h l k.0, k.1);
  nodelay = λ b t h l k. (steps.nodelay b t h l k.0, k.1);
  asked_headers = λ t h l k. (steps.asked_headers t h l k.0, k.1);
  asked_body = λ n limit t h l fits k. (steps.asked_body n limit t h l fits k.0, k.1);
}

module _ {S : Type 0} (server : Server S) (Holds : S → Bool → List Output → Type 0)
    (steps : Steps server.transport Holds) where
  abbrev pub Of : Connection S → Type 0
  Of s = Holds s.stream s.header_callback s.log

  abbrev Left : Result S → Type 0
  Left r = Of (left server r)

  abbrev OfClosed : Connection S → Type 0
  OfClosed s = OnClosed server.transport Holds s.stream s.header_callback s.log

  after_closed :
      (r : Result S)
      → OfClosed (left server r)
      → Left (
          after server r
            (λ s'. ok (clear_request_state server (record s' { header_callback = false }))))
  unfolding after left clear_request_state
  after_closed (ok s) h = steps.forget s.stream s.header_callback s.log h.1 h.0
  after_closed (raised e s) h = h.0

  on_connection_close-Of :
      (s : Connection S)
      → server.transport.closed s.stream ≡ true
      → Of s
      → Left (on_connection_close server s)
  unfolding on_connection_close
  on_connection_close-Of s closed h =
      after_closed (run_callback server s.close_callback (record s { close_callback = none })) (
        run_callback-Of server (OnClosed server.transport Holds)
          (closed_steps server.transport Holds steps) s.close_callback
          (record s { close_callback = none }) (h, closed))

  settle-Of : (r : Result S) → Left r → Of (settle server r)
  unfolding settle left
  settle-Of (ok s) h = h
  settle-Of (raised e s) h = steps.close s.stream s.header_callback s.log h

  react-Of : (i : Input S) (s : Connection S) → Of s → Of (react server i s)
  unfolding react on_headers on_request_body
  react-Of (got_headers data_text) s h =
      settle-Of (on_headers server data_text s)
        (with_head-Of server Holds steps (parse_head server.python server.options data_text) s h)
  react-Of (got_body data_text) s h =
      settle-Of (on_request_body server data_text s)
        (body_of_request-Of server Holds steps data_text s.request s h)
  react-Of write_completed s h =
      settle-Of (on_write_complete server s) (on_write_complete-Of server Holds steps s h)
  react-Of connection_closed s h =
      if_intro Of (server.transport.closed s.stream) _ s
        (λ e. settle-Of (on_connection_close server s) (on_connection_close-Of s e h)) (λ e. h)
  react-Of (ops calls) s h = run_ops-Of server Holds steps calls s h
  react-Of (moved t) s h =
      if_intro Of (server.transport.closed s.stream) s (record s { stream = t }) (λ e. h)
        (λ e. steps.moved s.stream t s.header_callback s.log e h)

  pub run-Of : (is : List (Input S)) (s : Connection S) → Of s → Of (run server is s)
  unfolding run
  run-Of [] s h = h
  run-Of (i ∷ is) s h = run-Of is (react server i s) (react-Of i s h)
