-- ===== src/HttpServer/Runs.antt =====
-- tornado/httpserver.py: what happens to an `HTTPConnection`, and what every method keeps.
pub mod Kept
pub mod Reacts
pub mod Asks
use tornado3_1_1_search.Base.{List, [], ◌∷◌, Bytes, Bool, if◌then◌else◌}
use tornado3_1_1_search.HttpServer.{Server, Transport, Op, Options, User}
use tornado3_1_1_search.HttpServer.Connection.{
  Connection, Result, ok, raised, on_write_complete, on_connection_close, run_ops,
}
use tornado3_1_1_search.HttpServer.Connection.Receiving.{on_headers, on_request_body}

-- The stream calls one of the connection's methods, code outside any callback uses the connection,
-- or the stream has gone on to another state.
pub data Input (S : Type 0) : Type 0 where
  got_headers got_body : Bytes → Input S
  write_completed connection_closed : Input S
  ops : List Op → Input S
  moved : S → Input S

module _ {S : Type 0} (server : Server S) where
  -- The stream closes when a callback of its own raises.
  unfoldable pub settle : Result S → Connection S
  settle (ok s) = s
  settle (raised e s) = record s { stream = server.transport.close s.stream }

  unfoldable pub left : Result S → Connection S
  left (ok s) = s
  left (raised e s) = s

  -- A stream that has gone on does not open again, and reports that it is closed only when it is.
  unfoldable pub react : Input S → Connection S → Connection S
  unfolding settle left on_headers on_request_body on_write_complete on_connection_close run_ops
  react (got_headers data_text) s = settle (on_headers server data_text s)
  react (got_body data_text) s = settle (on_request_body server data_text s)
  react write_completed s = settle (on_write_complete server s)
  react connection_closed s =
      if server.transport.closed s.stream then settle (on_connection_close server s) else s
  react (ops calls) s = left (run_ops server calls s)
  react (moved t) s = if server.transport.closed s.stream then s else record s { stream = t }

  unfoldable pub run : List (Input S) → Connection S → Connection S
  unfolding react
  run [] s = s
  run (i ∷ is) s = run is (react i s)
