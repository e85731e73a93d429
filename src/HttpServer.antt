-- ===== src/HttpServer.antt =====
-- tornado/httpserver.py: the state of `HTTPConnection`, and `HTTPRequest`. The stream is reached
-- through the record `Transport`; callbacks are numbers, and what a callback does is the list of the
-- calls that it makes on its connection.
pub mod Requests
pub mod RequestHead
pub mod Connection
pub mod Heads
pub mod Proxies
pub mod StreamTransport
mod Tests
pub mod Runs
use tornado3_1_1_search.Base.{◌≡◌, true, ℕ, Bool, Option, List, Bytes, ℤ, Dict}
use tornado3_1_1_search.HttpUtil.Headers
use tornado3_1_1_search.HttpUtil.Headers.{Headers}
use tornado3_1_1_search.HttpUtil.Bodies
use tornado3_1_1_search.HttpUtil.Bodies.{HttpFile}
use tornado3_1_1_search.IoStream
use tornado3_1_1_search.IoStream.{Outcome}

-- What the connection uses of its stream: a callback is the number of the method that the stream
-- is given, `none` for `None`.
pub record Transport (S : Type 0) : Type 0 where
  pub closed : S → Bool
  pub writing : S → Bool
  pub max_buffer_size : S → ℕ
  pub read_until : Bytes → Option ℕ → S → Outcome × S
  pub read_bytes : ℤ → ℕ → S → Outcome × S
  pub write : Bytes → Option ℕ → S → Outcome × S
  pub set_close_callback : ℕ → S → S
  pub close : S → S
  -- A stream that is closed stays so.
  pub close-closed : (t : S) → closed (close t) ≡ true
  pub read_until-closed :
      (d : Bytes) (cb : Option ℕ) (t : S) → closed t ≡ true → closed (read_until d cb t).1 ≡ true
  pub read_bytes-closed :
      (n : ℤ) (cb : ℕ) (t : S) → closed t ≡ true → closed (read_bytes n cb t).1 ≡ true
  pub write-closed :
      (bytes : Bytes) (cb : Option ℕ) (t : S) → closed t ≡ true → closed (write bytes cb t).1 ≡ true

-- What `socket.getaddrinfo` does for an address in numbers: the number of results, `EAI_NONAME`, or
-- another error.
pub data AddressInfo : Type 0 where
  addresses : ℕ → AddressInfo
  no_name other_error : AddressInfo

-- What the Python library gives: `int` on texts, `parse_qs`, and `getaddrinfo`.
pub record Python : Type 0 where
  pub int_of : Bytes → Option ℤ
  pub parse_qs : Bytes → Dict (List Bytes)
  pub getaddrinfo : Bytes → AddressInfo

pub data Error : Type 0 where
  bad_request value_error gaierror attribute_error : Error
  header_error : Headers.Error → Error
  body_error : Bodies.Error → Error
  stream_error : IoStream.Error → Error

pub record HttpRequest : Type 0 where
  pub method : Bytes
  pub uri : Bytes
  pub version : Bytes
  pub headers : Headers
  pub body : Bytes
  pub remote_ip : Bytes
  pub protocol : Bytes
  pub host : Bytes
  pub path : Bytes
  pub query : Bytes
  pub arguments : Dict (List Bytes)
  pub files : Dict (List HttpFile)

-- A call that user code makes on the connection of a request.
pub data Op : Type 0 where
  op_write : Bytes → Option ℕ → Op
  op_finish op_close : Op
  op_set_close_callback : ℕ → Op

-- The options of the server, and what is known of the socket: whether its family is an internet one,
-- its address, and whether the stream is an `SSLIOStream`.
pub record Options : Type 0 where
  pub no_keep_alive : Bool
  pub xheaders : Bool
  pub protocol : Bytes
  pub is_inet : Bool
  pub address : Bytes
  pub is_ssl : Bool

-- The application, and what the callbacks of user code do.
pub record User : Type 0 where
  pub request_callback : HttpRequest → List Op
  pub callback : ℕ → List Op

-- What a connection is made with.
pub record Server (S : Type 0) : Type 0 where
  pub transport : Transport S
  pub python : Python
  pub options : Options
  pub user : User
