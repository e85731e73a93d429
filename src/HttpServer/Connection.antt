-- ===== src/HttpServer/Connection.antt =====
-- tornado/httpserver.py: the state of `HTTPConnection`, and its methods that write and finish.
pub mod Receiving
use tornado3_1_1_search.Base.{
  content_type_text, put_text, patch_text, post_text, continue_text, expect_text, keep_alive_text,
  content_length_text, close_text, get_text, head_text, connection_text, http_slash_text,
  any_address_text, cr_lf_text, ℕ, ◌-◌, ltb, Bool, true, false, not, ◌&&◌, ◌||◌, Option, none, some,
  List, [], ◌∷◌, ◌++◌, if◌then◌else◌, Bytes, bytes_eq, is_empty, map, lower, find, split, take,
  drop, length, starts_with, ℤ, pos, negsuc,
}
use mathlib.Core.Option
use tornado3_1_1_search.HttpUtil.Headers
use tornado3_1_1_search.HttpUtil.Headers.{get_item, contains, parse}
use tornado3_1_1_search.HttpUtil.Bodies
use tornado3_1_1_search.HttpUtil.Bodies.{parse_body_arguments, Form}
use tornado3_1_1_search.IoStream
use tornado3_1_1_search.IoStream.{Outcome, stream_closed}
use tornado3_1_1_search.HttpServer.{
  Python, Server, Server, Error, bad_request, value_error, attribute_error, header_error,
  body_error, stream_error, HttpRequest, Op, op_write, op_finish, op_close, op_set_close_callback,
  Options,
}
use tornado3_1_1_search.HttpServer.Requests
use tornado3_1_1_search.HttpServer.Requests.{get_or, new_request, supports_http_1_1}
use tornado3_1_1_search.HttpServer.RequestHead.{
  too_long, three_words, cut, at_eol, remote_ip_of, with_headers, with_words, parse_head, header_is,
  disconnects,
}

-- What the connection has done, in order: it has asked its stream for the headers of
-- another request, which is said with whether the stream was writing, or for a body, with the size and the limit; it has called the application, or set
-- `TCP_NODELAY`.
pub data Output : Type 0 where
  asked_headers : Bool → Output
  asked_body : ℤ → ℕ → Output
  called : HttpRequest → Output
  nodelay : Bool → Output

-- The attributes; `header_callback` says whether it is set.
pub record Connection (S : Type 0) : Type 0 where
  pub stream : S
  pub request : Option HttpRequest
  pub request_finished : Bool
  pub write_callback : Option ℕ
  pub close_callback : Option ℕ
  pub header_callback : Bool
  pub log : List Output

-- What a method leaves, and what it raises.
pub data Result (S : Type 0) : Type 0 where
  ok : Connection S → Result S
  raised : Error → Connection S → Result S

-- The numbers of the methods that are callbacks of the stream.
abbrev pub on_headers_id : ℕ
on_headers_id = 0

abbrev pub on_request_body_id : ℕ
on_request_body_id = 1

abbrev pub on_write_complete_id : ℕ
on_write_complete_id = 2

abbrev pub on_connection_close_id : ℕ
on_connection_close_id = 3

-- "\r\n\r\n"
abbrev pub end_of_headers : Bytes
end_of_headers = 13 ∷ 10 ∷ 13 ∷ 10 ∷ []

module _ {S : Type 0} (server : Server S) where
  unfoldable pub put : Output → Connection S → Connection S
  put output s = record s { log = s.log ++ output ∷ [] }

  unfoldable pub after : Result S → (Connection S → Result S) → Result S
  after (ok s) next = next s
  after (raised e s) next = raised e s

  -- What a call of the stream leaves.
  unfoldable pub called_stream : Outcome × S → Connection S → Result S
  called_stream (IoStream.ok done, t) s = ok (record s { stream = t })
  called_stream (IoStream.raised e, t) s = raised (stream_error e) (record s { stream = t })

  -- `_clear_request_state`
  unfoldable pub clear_request_state : Connection S → Connection S
  clear_request_state s = record s {
    request = none;
    request_finished = false;
    write_callback = none;
    close_callback = none;
  }

  unfoldable pub close : Connection S → Connection S
  unfolding clear_request_state
  close s =
      clear_request_state
        (record s { stream = server.transport.close s.stream; header_callback = false })

  unfoldable pub write : Bytes → Option ℕ → Connection S → Result S
  unfolding called_stream
  write chunk callback s =
      if server.transport.closed s.stream
      then ok s
      else called_stream (server.transport.write chunk (some on_write_complete_id) s.stream)
          (record s { write_callback = callback })

  -- The method that the stream is given for headers.
  abbrev pub header_id : Bool → Option ℕ
  header_id true = some on_headers_id
  header_id false = none

  unfoldable pub disconnect : Connection S → Bool
  unfolding disconnects
  disconnect s =
      server.options.no_keep_alive || elim s.request [ none ↦ true | some r ↦ disconnects r ]

  -- The `try` block of `_finish_request`, once the stream was asked for headers.
  unfoldable pub asked_again : Outcome × S → Connection S → Result S
  unfolding put close
  asked_again (IoStream.ok done, t) s = ok (put (nodelay false) (record s { stream = t }))
  asked_again (IoStream.raised stream_closed, t) s = ok (close (record s { stream = t }))
  asked_again (IoStream.raised e, t) s = raised (stream_error e) (record s { stream = t })

  unfoldable pub ask_headers : Connection S → Result S
  unfolding put asked_again
  ask_headers s =
      asked_again
        (server.transport.read_until end_of_headers (header_id s.header_callback) s.stream)
        (put (asked_headers (server.transport.writing s.stream)) s)

  unfoldable pub finish_request : Connection S → Result S
  unfolding disconnect clear_request_state close ask_headers
  finish_request s =
      if disconnect s
      then ok (close (clear_request_state s))
      else ask_headers (clear_request_state s)

  unfoldable pub finish : Connection S → Result S
  unfolding put finish_request
  finish s =
      let s' = put (nodelay true) (record s { request_finished = true }) in
      if server.transport.writing s.stream then ok s' else finish_request s'

  unfoldable pub run_op : Op → Connection S → Result S
  unfolding write finish close
  run_op (op_write chunk callback) s = write chunk callback s
  run_op op_finish s = finish s
  run_op op_close s = ok (close s)
  run_op (op_set_close_callback callback) s = ok (record s { close_callback = some callback })

  -- What user code does, up to a call that raises.
  unfoldable pub run_ops : List Op → Connection S → Result S
  unfolding after run_op
  run_ops [] s = ok s
  run_ops (op ∷ ops) s = after (run_op op s) (λ s'. run_ops ops s')

  unfoldable pub run_callback : Option ℕ → Connection S → Result S
  unfolding run_ops
  run_callback none s = ok s
  run_callback (some callback) s = run_ops (server.user.callback callback) s

  -- `_on_write_complete` behind its callback
  unfoldable pub finish_written : Connection S → Result S
  unfolding finish_request
  finish_written s =
      if s.request_finished && not (server.transport.writing s.stream)
      then finish_request s
      else ok s

  unfoldable pub on_write_complete : Connection S → Result S
  unfolding after run_callback finish_written
  on_write_complete s =
      after (run_callback s.write_callback (record s { write_callback = none })) finish_written

  unfoldable pub on_connection_close : Connection S → Result S
  unfolding after run_callback clear_request_state
  on_connection_close s =
      after (run_callback s.close_callback (record s { close_callback = none }))
        (λ s'. ok (clear_request_state (record s' { header_callback = false })))
