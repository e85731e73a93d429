-- ===== src/HttpServer/Connection/Receiving.antt =====
-- tornado/httpserver.py: the methods of `HTTPConnection` that the stream calls with what it has read,
-- and `__init__`.
use tornado3_1_1_search.Base.{
  ℕ, ◌||◌, Option, none, some, [], ◌∷◌, if◌then◌else◌, Bytes, bytes_eq, is_empty, ℤ, Bool, true,
  false, expect_text, continue_text, content_length_text, post_text, patch_text, put_text,
  content_type_text,
}
use tornado3_1_1_search.HttpUtil.Bodies
use tornado3_1_1_search.HttpUtil.Bodies.{parse_body_arguments, Form}
use tornado3_1_1_search.HttpServer.{
  Server, bad_request, value_error, attribute_error, body_error, HttpRequest,
}
use tornado3_1_1_search.HttpServer.Requests
use tornado3_1_1_search.HttpServer.Requests.{get_or}
use tornado3_1_1_search.HttpServer.RequestHead.{too_long, parse_head}
use tornado3_1_1_search.HttpServer.Connection.{
  asked_body, called, Connection, Result, ok, raised, on_request_body_id, on_connection_close_id,
  end_of_headers, put, after, called_stream, close, header_id, run_ops,
}

module _ {S : Type 0} (server : Server S) where
  unfoldable pub call_request : HttpRequest → Connection S → Result S
  unfolding put run_ops
  call_request r s = run_ops server (server.user.request_callback r) (put server (called r) s)

  -- `if headers.get("Expect") == "100-continue":`
  unfoldable pub write_continue : HttpRequest → Connection S → Result S
  unfolding called_stream
  write_continue r s =
      if bytes_eq (get_or expect_text [] r.headers) continue_text
      then called_stream server
          (server.transport.write
            (72 ∷ 84 ∷ 84 ∷ 80 ∷ 47 ∷ 49 ∷ 46 ∷ 49 ∷ 32 ∷ 49 ∷ 48 ∷ 48 ∷ 32 ∷ 40 ∷ 67 ∷ 111 ∷ 110
              ∷ 116 ∷ 105 ∷ 110 ∷ 117 ∷ 101 ∷ 41 ∷ 13 ∷ 10 ∷ 13 ∷ 10 ∷ [])
            none s.stream)
          s
      else ok s

  unfoldable pub ask_body : ℤ → ℕ → Connection S → Result S
  unfolding put called_stream
  ask_body n limit s =
      called_stream server (server.transport.read_bytes n on_request_body_id s.stream)
        (put server (asked_body n limit) s)

  -- `int(content_length)` and what follows; the limit is an attribute that no call changes.
  unfoldable pub with_length : HttpRequest → Option ℤ → Connection S → Result S
  unfolding too_long close after write_continue ask_body
  with_length r none s = raised value_error s
  with_length r (some n) s =
      if too_long n (server.transport.max_buffer_size s.stream)
      then ok (close server s)
      else after server (write_continue r s)
          (ask_body n (server.transport.max_buffer_size s.stream))

  unfoldable pub with_request : HttpRequest → Connection S → Result S
  unfolding with_length call_request
  with_request r s =
      let content_length = get_or content_length_text [] r.headers in
      if is_empty content_length
      then call_request r s
      else with_length r (server.python.int_of content_length) s

  unfoldable pub with_head : Requests.Result HttpRequest → Connection S → Result S
  unfolding with_request close
  with_head (Requests.ok r) s = with_request r (record s { request = some r })
  with_head (Requests.raised bad_request) s = ok (close server s)
  with_head (Requests.raised e) s = raised e s

  unfoldable pub on_headers : Bytes → Connection S → Result S
  unfolding with_head parse_head
  on_headers data_text s = with_head (parse_head server.python server.options data_text) s

  abbrev pub with_form : HttpRequest → Form → HttpRequest
  with_form r form = record r { arguments = form.arguments; files = form.files }

  unfoldable pub with_body : HttpRequest → Bodies.Result → Connection S → Result S
  unfolding call_request
  with_body r (Bodies.ok form) s =
      call_request (with_form r form) (record s { request = some (with_form r form) })
  with_body r (Bodies.raised e form) s =
      raised (body_error e) (record s { request = some (with_form r form) })

  abbrev pub has_form : HttpRequest → Bool
  has_form r =
      bytes_eq r.method post_text || (bytes_eq r.method patch_text || bytes_eq r.method put_text)

  unfoldable pub body_of_request : Bytes → Option HttpRequest → Connection S → Result S
  unfolding with_body
  body_of_request data_text none s = raised attribute_error s
  body_of_request data_text (some r) s =
      let form : Form = record { arguments = r.arguments; files = r.files } in
      with_body (record r { body = data_text })
        (if has_form r
          then parse_body_arguments server.python.parse_qs (get_or content_type_text [] r.headers)
              data_text form
          else Bodies.ok form)
        s

  unfoldable pub on_request_body : Bytes → Connection S → Result S
  unfolding body_of_request
  on_request_body data_text s = body_of_request data_text s.request s

  -- `__init__`, for a stream
  unfoldable pub init : S → Result S
  unfolding put called_stream
  init t =
      let t' = server.transport.set_close_callback on_connection_close_id t in
      called_stream server (server.transport.read_until end_of_headers (header_id server true) t')
        (record {
          stream = t';
          request = none;
          request_finished = false;
          write_callback = none;
          close_callback = none;
          header_callback = true;
          log = [];
        })
