-- ===== src/HttpServer/Tests.antt =====
-- A connection of tornado/httpserver.py on a stream of tornado/iostream.py, and the theorems at it.
use tornado3_1_1_search.Base.{
  ◌≡◌, refl, true, false, none, some, List, [], ◌∷◌, Bytes, pos, negsuc, Each, bytes_eq, lookup,
  set, upper, lower, capitalize, split, join_rest, ◌⊎◌, is_space, is_break, strip, lstrip, rstrip,
  keep, starts_with, partition,
}
use tornado3_1_1_search.HttpUtil.{normalize}
use tornado3_1_1_search.HttpUtil.Headers
use tornado3_1_1_search.HttpUtil.Headers.{
  Headers, no_headers, add, add_all, get_item, add_normal, set_item, after_line,
}
use tornado3_1_1_search.HttpUtil.Headers.Parse.{IsHeader}
use tornado3_1_1_search.IoStream.{Stream}
use tornado3_1_1_search.IoStream
use tornado3_1_1_search.IoStream.Reading.Edges.{read_number, read_negative, consume_negative}
use tornado3_1_1_search.HttpServer.{
  Python, addresses, no_name, HttpRequest, op_write, op_finish, Options, User, Server,
}
use tornado3_1_1_search.HttpServer.Requests.{
  ok, get_or, last_piece, forwarded_ip, forwarded_proto, is_http_proto, is_valid_ip, override,
  default_protocol, headers_or, host_of, new_request,
}
use tornado3_1_1_search.HttpServer.Connection.{Connection}
use tornado3_1_1_search.HttpServer.RequestHead.{parse_head, remote_ip_of}
use tornado3_1_1_search.HttpServer.Runs.{Input, got_headers, got_body, write_completed, moved}
use tornado3_1_1_search.HttpServer.Runs.Asks.{
  IsQuiet, IsBounded, after_run, run-asks_quietly, run-asks_within_limit, run-keeps_header_callback,
}
use tornado3_1_1_search.HttpServer.Proxies.{IsTrusted, new_request-IsTrusted}
use tornado3_1_1_search.HttpServer.Heads.{request_text, parse_head-request_text}
use tornado3_1_1_search.HttpServer.StreamTransport.{stream_transport}

-- A Python in which every number is 5, no query has arguments, and an address is valid if it is
-- not empty.
abbrev small_python : Python
small_python = record {
  int_of = λ text. some (pos 5);
  parse_qs = λ text. [];
  getaddrinfo = λ ip. elim ip [ [] ↦ no_name | c ∷ rest ↦ addresses 1 ];
}

abbrev behind_proxy : Options
behind_proxy = record {
  no_keep_alive = false;
  xheaders = true;
  protocol = [];
  is_inet = true;
  address = 58 ∷ 58 ∷ 49 ∷ [];
  is_ssl = false;
}

-- An application that answers with a body and finishes.
abbrev hello : User
hello = record {
  request_callback = λ r. op_write (104 ∷ 105 ∷ []) none ∷ op_finish ∷ [];
  callback = λ n. [];
}

abbrev stream_server : Server Stream
stream_server = record {
  transport = stream_transport;
  python = small_python;
  options = behind_proxy;
  user = hello;
}

abbrev open_stream : Stream
open_stream = IoStream.init 100 [] []

abbrev x_scheme : Bytes
x_scheme = 88 ∷ 45 ∷ 83 ∷ 99 ∷ 104 ∷ 101 ∷ 109 ∷ 101 ∷ []

abbrev entries : List (Bytes × Bytes)
entries = (x_scheme, 104 ∷ 116 ∷ 116 ∷ 112 ∷ 115 ∷ []) ∷ []

abbrev headers : Headers
headers = record {
  dict = (x_scheme, 104 ∷ 116 ∷ 116 ∷ 112 ∷ 115 ∷ []) ∷ [];
  as_list = (x_scheme, (104 ∷ 116 ∷ 116 ∷ 112 ∷ 115 ∷ []) ∷ []) ∷ [];
  last_key = some x_scheme;
}

abbrev get_method : Bytes
get_method = 71 ∷ 69 ∷ 84 ∷ []

abbrev target : Bytes
target = 47 ∷ 97 ∷ 63 ∷ 98 ∷ []

abbrev http_version : Bytes
http_version = 72 ∷ 84 ∷ 84 ∷ 80 ∷ 47 ∷ 49 ∷ 46 ∷ 49 ∷ []

abbrev first_request : Bytes
first_request = request_text get_method target http_version entries

abbrev events : List (Input Stream)
events =
    got_headers first_request
    ∷ write_completed
    ∷ moved open_stream
    ∷ got_body (49 ∷ 50 ∷ 51 ∷ 52 ∷ 53 ∷ [])
    ∷ []

run-asks_quietly_example : Each IsQuiet (after_run stream_server events open_stream).log
run-asks_quietly_example = run-asks_quietly stream_server events open_stream

run-asks_within_limit_example : Each IsBounded (after_run stream_server events open_stream).log
run-asks_within_limit_example = run-asks_within_limit stream_server events open_stream

run-keeps_header_callback_example :
    ((after_run stream_server events open_stream).header_callback ≡ true)
    ⊎ (stream_server.transport.closed (after_run stream_server events open_stream).stream ≡ true)
run-keeps_header_callback_example = run-keeps_header_callback stream_server events open_stream

added : add_all entries no_headers ≡ Headers.ok headers
unfolding add_all after_line add add_normal get_item set_item lookup set normalize split join_rest
    capitalize upper lower bytes_eq no_headers
added = refl

entry-IsHeader : IsHeader (x_scheme, 104 ∷ 116 ∷ 116 ∷ 112 ∷ 115 ∷ [])
unfolding is_space is_break strip lstrip rstrip keep
entry-IsHeader = record {
  starts = (88, (45 ∷ 83 ∷ 99 ∷ 104 ∷ 101 ∷ 109 ∷ 101 ∷ [], (refl, refl)));
  name = (refl, (refl, (refl, (refl, (refl, (refl, (refl, (refl, tt))))))));
  name_line = (refl, (refl, (refl, (refl, (refl, (refl, (refl, (refl, tt))))))));
  value_line = (refl, (refl, (refl, (refl, (refl, tt)))));
  stripped = refl;
}

version-http : starts_with (72 ∷ 84 ∷ 84 ∷ 80 ∷ 47 ∷ []) http_version ≡ true
unfolding starts_with
version-http = refl

parse_head-request_text_example :
    parse_head small_python behind_proxy first_request
    ≡ new_request small_python behind_proxy get_method target http_version headers
        (remote_ip_of behind_proxy)
parse_head-request_text_example =
    parse_head-request_text small_python behind_proxy get_method target http_version entries headers
      ((refl, refl), ((refl, refl), ((refl, refl), tt)))
      ((refl, refl), ((refl, refl), ((refl, refl), ((refl, refl), tt))))
      (
        (refl, refl),
        (
          (refl, refl),
          (
            (refl, refl),
            ((refl, refl), ((refl, refl), ((refl, refl), ((refl, refl), ((refl, refl), tt))))),
          ),
        ),
      )
      version-http (entry-IsHeader, tt) added

abbrev proxied : HttpRequest
proxied = record {
  method = get_method;
  uri = target;
  version = http_version;
  headers = headers;
  body = [];
  remote_ip = 58 ∷ 58 ∷ 49 ∷ [];
  protocol = 104 ∷ 116 ∷ 116 ∷ 112 ∷ 115 ∷ [];
  host = 49 ∷ 50 ∷ 55 ∷ 46 ∷ 48 ∷ 46 ∷ 48 ∷ 46 ∷ 49 ∷ [];
  path = 47 ∷ 97 ∷ [];
  query = 98 ∷ [];
  arguments = [];
  files = [];
}

made :
    new_request small_python behind_proxy get_method target http_version headers (58 ∷ 58 ∷ 49 ∷ [])
    ≡ ok proxied
unfolding new_request override forwarded_ip forwarded_proto is_http_proto is_valid_ip get_or
    last_piece default_protocol headers_or host_of get_item lookup normalize split join_rest
    capitalize upper lower bytes_eq partition strip lstrip rstrip keep is_space
made = refl

new_request-IsTrusted_example : IsTrusted small_python behind_proxy (58 ∷ 58 ∷ 49 ∷ []) proxied
new_request-IsTrusted_example =
    new_request-IsTrusted small_python behind_proxy get_method target http_version headers
      (58 ∷ 58 ∷ 49 ∷ []) proxied made

abbrev answered : Connection Stream
answered = record {
  stream = open_stream;
  request = some proxied;
  request_finished = true;
  write_callback = none;
  close_callback = none;
  header_callback = true;
  log = [];
}

-- A content length of -1 takes the chunk that is there and leaves a size that is one too large.
abbrev holding : Stream
holding = record open_stream { read_buffer = (97 ∷ 98 ∷ []) ∷ []; read_buffer_size = 2 }

negative_length :
    ((read_number (negsuc 0) 1 holding).1.read_buffer ≡ [])
    × ((read_number (negsuc 0) 1 holding).1.read_buffer_size ≡ 3)
unfolding read_number read_negative consume_negative IoStream.init
negative_length = (refl, refl)
