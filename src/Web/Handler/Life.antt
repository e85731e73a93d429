-- ===== src/Web/Handler/Life.antt =====
-- tornado/web.py: what the code of an application does with its `RequestHandler`, as a list of calls.
use tornado3_1_1_search.Base.{ℕ, Bool, Option, List, [], ◌∷◌, Bytes, false}
use tornado3_1_1_search.Web.Handler.{
  Python, TransformOps, Handler, Result, ok, raised, HeaderValue, set_header, add_header,
  clear_header, set_status, write, flush,
}
use tornado3_1_1_search.Web.Handler.Cookies.{CookieOptions, set_cookie}
use tornado3_1_1_search.Web.Handler.Response.{
  finish, redirect, send_error, handle_request_exception,
}

-- The calls of an application that change a handler.
pub data Op : Type 0 where
  op_set_status : ℕ → Option Bytes → Op
  op_set_header op_add_header : Bytes → HeaderValue → Op
  op_clear_header : Bytes → Op
  op_set_cookie : Bytes → Bytes → CookieOptions → Op
  op_write : Bytes → Op
  op_flush : Op
  op_finish : Option Bytes → Op
  op_redirect : Bytes → Bool → Op
  op_send_error : ℕ → Option Bytes → Op
  -- An exception reaches the handler.
  op_exception : Option (ℕ × Option Bytes) → Op

module _ {T : Type 0} (python : Python) (ops : TransformOps T) (no_keep_alive : Bool) where
  unfoldable pub run_op : Op → Handler T → Result T
  unfolding set_status set_header add_header clear_header write flush finish redirect send_error
      handle_request_exception set_cookie
  run_op (op_set_status code reason) s = set_status python ops code reason s
  run_op (op_set_header name value) s = set_header python ops name value s
  run_op (op_add_header name value) s = add_header python ops name value s
  run_op (op_clear_header name) s = clear_header python ops name s
  run_op (op_set_cookie name value options) s = set_cookie python ops name value options s
  run_op (op_write chunk) s = write python ops chunk s
  run_op op_flush s = ok (flush python ops false s)
  run_op (op_finish chunk) s = finish python ops chunk s
  run_op (op_redirect url permanent) s = redirect python ops url permanent s
  run_op (op_send_error code reason) s = send_error python ops no_keep_alive code reason s
  run_op (op_exception e) s = handle_request_exception python ops no_keep_alive e s

  unfoldable pub left : Result T → Handler T
  left (ok s) = s
  left (raised e s) = s

  -- A call that raises leaves what it has done so far.
  unfoldable pub run : List Op → Handler T → Handler T
  unfolding run_op left
  run [] s = s
  run (op ∷ calls) s = run calls (left (run_op op s))
