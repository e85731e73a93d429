-- ===== src/HttpServer/Runs/Kept.antt =====
-- tornado/httpserver.py: a predicate of the stream, the header callback and the log that the single
-- steps keep is kept by every run of an `HTTPConnection`.
use tornado3_1_1_search.Base.{
  expect_text, continue_text, content_length_text, ℕ, ◌≡◌, sym, subst, Bool, true, false, not, ◌&&◌,
  Option, none, some, List, [], ◌∷◌, ◌++◌, Bytes, ℤ, if_intro, arith, bytes_eq, is_empty,
}
use tornado3_1_1_search.HttpUtil.Bodies
use tornado3_1_1_search.IoStream
use tornado3_1_1_search.IoStream.{Outcome, stream_closed}
use tornado3_1_1_search.HttpServer.{
  Server, Transport, Server, bad_request, HttpRequest, Op, op_write, op_finish, op_close,
  op_set_close_callback,
}
use tornado3_1_1_search.HttpServer.Requests
use tornado3_1_1_search.HttpServer.Requests.{get_or}
use tornado3_1_1_search.HttpServer.Connection.{
  Output, asked_headers, asked_body, called, nodelay, Connection, Result, ok, raised,
  on_request_body_id, on_write_complete_id, end_of_headers, put, after, called_stream,
  clear_request_state, close, write, header_id, disconnect, asked_again, ask_headers,
  finish_request, finish, run_op, run_ops, run_callback, finish_written, on_write_complete,
}
use tornado3_1_1_search.HttpServer.RequestHead.{too_long}
use tornado3_1_1_search.HttpServer.Connection.Receiving.{
  call_request, write_continue, ask_body, with_length, with_request, with_head, with_form,
  with_body, body_of_request,
}
use tornado3_1_1_search.HttpServer.Runs.{left}

-- What the single steps keep: the calls of the stream, what sets the header callback to `None`, and
-- what is put in the log.
pub record Steps {S : Type 0} (transport : Transport S) (Holds : S → Bool → List Output → Type 0)
    : Type 0 where
  pub read_until :
      (d : Bytes) (cb : Option ℕ) (t : S) (h : Bool) (l : List Output)
      → Holds t h l
      → Holds (transport.read_until d cb t).1 h l
  pub read_bytes :
      (n : ℤ) (cb : ℕ) (t : S) (h : Bool) (l : List Output)
      → Holds t h l
      → Holds (transport.read_bytes n cb t).1 h l
  pub write :
      (bytes : Bytes) (cb : Option ℕ) (t : S) (h : Bool) (l : List Output)
      → Holds t h l
      → Holds (transport.write bytes cb t).1 h l
  pub close : (t : S) (h : Bool) (l : List Output) → Holds t h l → Holds (transport.close t) h l
  pub forget :
      (t : S) (h : Bool) (l : List Output)
      → transport.closed t ≡ true
      → Holds t h l
      → Holds t false l
  pub moved :
      (t u : S) (h : Bool) (l : List Output)
      → transport.closed t ≡ false
      → Holds t h l
      → Holds u h l
  pub called :
      (r : HttpRequest) (t : S) (h : Bool) (l : List Output)
      → Holds t h l
      → Holds t h (l ++ called r ∷ [])
  pub nodelay :
      (b : Bool) (t : S) (h : Bool) (l : List Output)
      → Holds t h l
      → Holds t h (l ++ nodelay b ∷ [])
  pub asked_headers :
      (t : S) (h : Bool) (l : List Output) → Holds t h l → Holds t h (l ++ asked_headers false ∷ [])
  pub asked_body :
      (n : ℤ) (limit : ℕ) (t : S) (h : Bool) (l : List Output)
      → too_long n limit ≡ false
      → Holds t h l
      → Holds t h (l ++ asked_body n limit ∷ [])

module _ {S : Type 0} (server : Server S) (Holds : S → Bool → List Output → Type 0)
    (steps : Steps server.transport Holds) where
  abbrev pub Of : Connection S → Type 0
  Of s = Holds s.stream s.header_callback s.log

  abbrev pub Left : Result S → Type 0
  Left r = Of (left server r)

  called_stream-Of :
      (r : Outcome × S) (s : Connection S)
      → Holds r.1 s.header_callback s.log
      → Left (called_stream server r s)
  unfolding called_stream left
  called_stream-Of (IoStream.ok done, t) s h = h
  called_stream-Of (IoStream.raised e, t) s h = h

  pub close-Of : (s : Connection S) → Of s → Of (close server s)
  unfolding close clear_request_state
  close-Of s h =
      steps.forget (server.transport.close s.stream) s.header_callback s.log
        (server.transport.close-closed s.stream) (steps.close s.stream s.header_callback s.log h)

  pub after-Of :
      (r : Result S) (f : Connection S → Result S)
      → Left r
      → ((s : Connection S) → Of s → Left (f s))
      → Left (after server r f)
  unfolding after left
  after-Of (ok s) f h k = k s h
  after-Of (raised e s) f h k = h

  write-Of :
      (chunk : Bytes) (cb : Option ℕ) (s : Connection S) → Of s → Left (write server chunk cb s)
  unfolding write left
  write-Of chunk cb s h =
      if_intro Left (server.transport.closed s.stream) (ok s) _ (λ e. h)
        (λ e.
          called_stream-Of (server.transport.write chunk (some on_write_complete_id) s.stream) _
            (steps.write chunk (some on_write_complete_id) s.stream s.header_callback s.log h))

  asked_again-Of :
      (r : Outcome × S) (s : Connection S)
      → Holds r.1 s.header_callback s.log
      → Left (asked_again server r s)
  unfolding asked_again put left
  asked_again-Of (IoStream.ok done, t) s h = steps.nodelay false t s.header_callback s.log h
  asked_again-Of (IoStream.raised stream_closed, t) s h = close-Of (record s { stream = t }) h
  asked_again-Of (IoStream.raised e, t) s h = h

  ask_headers-Of :
      (s : Connection S)
      → server.transport.writing s.stream ≡ false
      → Of s
      → Left (ask_headers server s)
  unfolding ask_headers put
  ask_headers-Of s quiet h =
      let h' =
        subst (λ w. Holds s.stream s.header_callback (s.log ++ asked_headers w ∷ [])) (sym quiet)
          (steps.asked_headers s.stream s.header_callback s.log h) in
      asked_again-Of
        (server.transport.read_until end_of_headers (header_id server s.header_callback) s.stream) _
        (steps.read_until end_of_headers (header_id server s.header_callback) s.stream
          s.header_callback _ h')

  finish_request-Of :
      (s : Connection S)
      → server.transport.writing s.stream ≡ false
      → Of s
      → Left (finish_request server s)
  unfolding finish_request clear_request_state left
  finish_request-Of s quiet h =
      if_intro Left (disconnect server s) (ok (close server (clear_request_state server s))) _
        (λ e. close-Of (clear_request_state server s) h)
        (λ e. ask_headers-Of (clear_request_state server s) quiet h)

  finish-Of : (s : Connection S) → Of s → Left (finish server s)
  unfolding finish put left
  finish-Of s h =
      let s' = put server (nodelay true) (record s { request_finished = true }) in
      let h' = steps.nodelay true s.stream s.header_callback s.log h in
      if_intro Left (server.transport.writing s.stream) (ok s') (finish_request server s') (λ e. h')
        (λ e. finish_request-Of s' e h')

  run_op-Of : (op : Op) (s : Connection S) → Of s → Left (run_op server op s)
  unfolding run_op left
  run_op-Of (op_write chunk cb) s h = write-Of chunk cb s h
  run_op-Of op_finish s h = finish-Of s h
  run_op-Of op_close s h = close-Of s h
  run_op-Of (op_set_close_callback cb) s h = h

  pub run_ops-Of : (calls : List Op) (s : Connection S) → Of s → Left (run_ops server calls s)
  unfolding run_ops left
  run_ops-Of [] s h = h
  run_ops-Of (op ∷ calls) s h =
      after-Of (run_op server op s) _ (run_op-Of op s h) (λ s' h'. run_ops-Of calls s' h')

  pub run_callback-Of : (cb : Option ℕ) (s : Connection S) → Of s → Left (run_callback server cb s)
  unfolding run_callback left
  run_callback-Of none s h = h
  run_callback-Of (some cb) s h = run_ops-Of (server.user.callback cb) s h

  finish_written-Of : (s : Connection S) → Of s → Left (finish_written server s)
  unfolding finish_written left
  finish_written-Of s h =
      if_intro Left (s.request_finished && not (server.transport.writing s.stream)) _ (ok s)
        (λ e. finish_request-Of s (ground (arith, e)) h) (λ e. h)

  pub on_write_complete-Of : (s : Connection S) → Of s → Left (on_write_complete server s)
  unfolding on_write_complete
  on_write_complete-Of s h =
      after-Of (run_callback server s.write_callback (record s { write_callback = none })) _
        (run_callback-Of s.write_callback (record s { write_callback = none }) h) finish_written-Of

  call_request-Of : (r : HttpRequest) (s : Connection S) → Of s → Left (call_request server r s)
  unfolding call_request put
  call_request-Of r s h =
      run_ops-Of (server.user.request_callback r) _
        (steps.called r s.stream s.header_callback s.log h)

  write_continue-Of : (r : HttpRequest) (s : Connection S) → Of s → Left (write_continue server r s)
  unfolding write_continue left
  write_continue-Of r s h =
      if_intro Left (bytes_eq (get_or expect_text [] r.headers) continue_text) _ (ok s)
        (λ e.
          called_stream-Of (server.transport.write _ none s.stream) s
            (steps.write _ none s.stream s.header_callback s.log h))
        (λ e. h)

  ask_body-Of :
      (n : ℤ) (limit : ℕ) (s : Connection S)
      → too_long n limit ≡ false
      → Of s
      → Left (ask_body server n limit s)
  unfolding ask_body put
  ask_body-Of n limit s fits h =
      called_stream-Of (server.transport.read_bytes n on_request_body_id s.stream) _ (
        steps.read_bytes n on_request_body_id s.stream s.header_callback _
          (steps.asked_body n limit s.stream s.header_callback s.log fits h))

  with_length-Of :
      (r : HttpRequest) (n : Option ℤ) (s : Connection S) → Of s → Left (with_length server r n s)
  unfolding with_length left
  with_length-Of r none s h = h
  with_length-Of r (some n) s h =
      if_intro Left (too_long n (server.transport.max_buffer_size s.stream)) (ok (close server s)) _
        (λ e. close-Of s h)
        (λ e.
          after-Of (write_continue server r s) _ (write_continue-Of r s h)
            (λ s' h'. ask_body-Of n (server.transport.max_buffer_size s.stream) s' e h'))

  with_request-Of : (r : HttpRequest) (s : Connection S) → Of s → Left (with_request server r s)
  unfolding with_request
  with_request-Of r s h =
      if_intro Left (is_empty (get_or content_length_text [] r.headers)) _ _
        (λ e. call_request-Of r s h)
        (λ e. with_length-Of r (server.python.int_of (get_or content_length_text [] r.headers)) s h)

  pub with_head-Of :
      (head : Requests.Result HttpRequest) (s : Connection S)
      → Of s
      → Left (with_head server head s)
  unfolding with_head left
  with_head-Of (Requests.ok r) s h = with_request-Of r (record s { request = some r }) h
  with_head-Of (Requests.raised bad_request) s h = close-Of s h
  with_head-Of (Requests.raised e) s h = h

  with_body-Of :
      (r : HttpRequest) (form : Bodies.Result) (s : Connection S)
      → Of s
      → Left (with_body server r form s)
  unfolding with_body left
  with_body-Of r (Bodies.ok form) s h =
      call_request-Of (with_form server r form)
        (record s { request = some (with_form server r form) }) h
  with_body-Of r (Bodies.raised e form) s h = h

  pub body_of_request-Of :
      (data_text : Bytes) (r : Option HttpRequest) (s : Connection S)
      → Of s
      → Left (body_of_request server data_text r s)
  unfolding body_of_request left
  body_of_request-Of data_text none s h = h
  body_of_request-Of data_text (some r) s h = with_body-Of (record r { body = data_text }) _ s h
