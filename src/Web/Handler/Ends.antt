-- ===== src/Web/Handler/Ends.antt =====
-- tornado/web.py: a `RequestHandler` finishes its request once.
use tornado3_1_1_search.Base.{
  ℕ, ◌≡◌, refl, ap, sym, ◌∙◌, Bool, true, false, not, ◌&&◌, Option, none, some, List, [], ◌∷◌,
  Bytes, is_some, location_text, if_intro, arith, if◌then◌else◌,
}
use tornado3_1_1_search.Web.Handler.{
  Python, TransformOps, request_finished, close_callback_cleared, Handler, Result, ok, raised,
  after, put, set_header, set_status, clear, flush,
}
use tornado3_1_1_search.Web.Handler.Response.{
  complete_headers, end_response, write_last, finish, redirect, error_page, finish_if_open,
  after_write_error, send_error, handle_http_error, handle_request_exception,
}
use tornado3_1_1_search.Web.Handler.Life.{
  Op, op_set_status, op_set_header, op_add_header, op_clear_header, op_set_cookie, op_write,
  op_flush, op_finish, op_redirect, op_send_error, op_exception, run_op, left, run,
}
use tornado3_1_1_search.Web.Handler.Keeps.{
  finishes, finishes-append, Same, SameLeft, Same-refl, Same-trans, set_header-Same,
  set_cookie-Same, add_header-Same, clear_header-Same, set_status-Same, clear-Same, write-Same,
  flush-Same, complete_headers-Same,
}

abbrev pub once : Bool → ℕ
once true = 1
once false = 0

module _ {T : Type 0} (python : Python) (ops : TransformOps T) (no_keep_alive : Bool) where
  -- The request has been finished once if the handler is finished, and never before.
  abbrev pub FinishesOnce : Handler T → Type 0
  FinishesOnce s = finishes s.log ≡ once s.finished

  Same-FinishesOnce :
      (s t : Handler T) → Same python ops no_keep_alive s t → FinishesOnce s → FinishesOnce t
  Same-FinishesOnce s t k h = k.log ∙ h ∙ ap once (sym k.finished)

  abbrev OnceLeft : Result T → Type 0
  OnceLeft r = FinishesOnce (left python ops no_keep_alive r)

  put_cleared-Same :
      (s : Handler T) → Same python ops no_keep_alive s (put python ops close_callback_cleared s)
  unfolding put finishes
  put_cleared-Same s = record {
    finished = refl;
    log = finishes-append s.log (close_callback_cleared ∷ []) ∙ omega arith;
  }

  end_response-FinishesOnce :
      (s : Handler T) → s.finished ≡ false → FinishesOnce s → OnceLeft (end_response python ops s)
  unfolding end_response left put finishes
  end_response-FinishesOnce s open_ h =
      let s1 = put python ops close_callback_cleared s in
      let k =
        Same-trans python ops no_keep_alive s s1 (flush python ops true s1) (put_cleared-Same s)
          (flush-Same python ops no_keep_alive true s1) in
      let e : once s.finished ≡ 0 = ap once open_ in
      finishes-append (flush python ops true s1).log (request_finished ∷ [])
      ∙ omega (arith, k.log, h, e)

  -- A part that keeps the log and the flag, and one that follows it.
  after-FinishesOnce :
      (s : Handler T) (r : Result T) (f : Handler T → Result T)
      → SameLeft python ops no_keep_alive s r
      → FinishesOnce s
      → ((t : Handler T) → Same python ops no_keep_alive s t → FinishesOnce t → OnceLeft (f t))
      → OnceLeft (after python ops r f)
  unfolding after left
  after-FinishesOnce s (ok t) f k h next = next t k (Same-FinishesOnce s t k h)
  after-FinishesOnce s (raised e t) f k h next = Same-FinishesOnce s t k h

  write_last-Same :
      (chunk : Option Bytes) (s : Handler T)
      → SameLeft python ops no_keep_alive s (write_last python ops chunk s)
  unfolding write_last left
  write_last-Same none s = Same-refl python ops no_keep_alive s
  write_last-Same (some chunk) s = write-Same python ops no_keep_alive chunk s

  finish-FinishesOnce :
      (chunk : Option Bytes) (s : Handler T) → FinishesOnce s → OnceLeft (finish python ops chunk s)
  unfolding finish left
  finish-FinishesOnce chunk s h =
      if_intro OnceLeft s.finished _ _ (λ e. h)
        (λ e.
          after-FinishesOnce s (write_last python ops chunk s) _ (write_last-Same chunk s) h
            (λ t k h1.
              after-FinishesOnce t (complete_headers python ops t) (end_response python ops)
                (complete_headers-Same python ops no_keep_alive t) h1
                (λ u l h2. end_response-FinishesOnce u (l.finished ∙ k.finished ∙ e) h2)))

  finish_if_open-FinishesOnce :
      (s : Handler T) → FinishesOnce s → OnceLeft (finish_if_open python ops s)
  unfolding finish_if_open left
  finish_if_open-FinishesOnce s h =
      if_intro OnceLeft s.finished (ok s) (finish python ops none s) (λ e. h)
        (λ e. finish-FinishesOnce none s h)

  redirect-FinishesOnce :
      (url : Bytes) (permanent : Bool) (s : Handler T)
      → FinishesOnce s
      → OnceLeft (redirect python ops url permanent s)
  unfolding redirect left
  redirect-FinishesOnce url permanent s h =
      if_intro OnceLeft s.headers_written _ _ (λ e. h)
        (λ e.
          after-FinishesOnce s (set_status python ops (if permanent then 301 else 302) none s) _
            (set_status-Same python ops no_keep_alive (if permanent then 301 else 302) none s) h
            (λ t k h1.
              after-FinishesOnce t (set_header python ops location_text _ t)
                (finish python ops none)
                (set_header-Same python ops no_keep_alive location_text _ t) h1
                (λ u l h2. finish-FinishesOnce none u h2)))

  after_write_error-FinishesOnce :
      (r : Result T) → OnceLeft r → OnceLeft (after_write_error python ops r)
  unfolding after_write_error left
  after_write_error-FinishesOnce (ok s) h = finish_if_open-FinishesOnce s h
  after_write_error-FinishesOnce (raised e s) h = finish_if_open-FinishesOnce s h

  send_error-FinishesOnce :
      (code : ℕ) (reason : Option Bytes) (s : Handler T)
      → FinishesOnce s
      → OnceLeft (send_error python ops no_keep_alive code reason s)
  unfolding send_error
  send_error-FinishesOnce code reason s h =
      let s1 = clear python ops no_keep_alive s in
      if_intro OnceLeft s.headers_written (finish_if_open python ops s) _
        (λ e. finish_if_open-FinishesOnce s h)
        (λ e.
          after-FinishesOnce s1 (set_status python ops code reason s1) _
            (set_status-Same python ops no_keep_alive code reason s1)
            (Same-FinishesOnce s s1 (clear-Same python ops no_keep_alive s) h)
            (λ t k h1.
              after_write_error-FinishesOnce
                (finish python ops (some (error_page python ops code t.reason)) t)
                (finish-FinishesOnce (some (error_page python ops code t.reason)) t h1)))

  handle_request_exception-FinishesOnce :
      (e : Option (ℕ × Option Bytes)) (s : Handler T)
      → FinishesOnce s
      → OnceLeft (handle_request_exception python ops no_keep_alive e s)
  unfolding handle_request_exception handle_http_error left
  handle_request_exception-FinishesOnce none s h =
      if_intro OnceLeft s.finished (ok s) _ (λ e. h) (λ e. send_error-FinishesOnce 500 none s h)
  handle_request_exception-FinishesOnce (some error) s h =
      if_intro OnceLeft s.finished (ok s) _ (λ e. h)
        (λ e.
          if_intro OnceLeft (not (is_some (python.responses error.0)) && not (is_some error.1)) _ _
            (λ f. send_error-FinishesOnce 500 none s h)
            (λ f. send_error-FinishesOnce error.0 error.1 s h))

  run_op-FinishesOnce :
      (op : Op) (s : Handler T) → FinishesOnce s → OnceLeft (run_op python ops no_keep_alive op s)
  unfolding run_op left
  run_op-FinishesOnce (op_set_status code reason) s h =
      Same-FinishesOnce s _ (set_status-Same python ops no_keep_alive code reason s) h
  run_op-FinishesOnce (op_set_header name value) s h =
      Same-FinishesOnce s _ (set_header-Same python ops no_keep_alive name value s) h
  run_op-FinishesOnce (op_add_header name value) s h =
      Same-FinishesOnce s _ (add_header-Same python ops no_keep_alive name value s) h
  run_op-FinishesOnce (op_clear_header name) s h =
      Same-FinishesOnce s _ (clear_header-Same python ops no_keep_alive name s) h
  run_op-FinishesOnce (op_set_cookie name value options) s h =
      Same-FinishesOnce s _ (set_cookie-Same python ops no_keep_alive name value options s) h
  run_op-FinishesOnce (op_write chunk) s h =
      Same-FinishesOnce s _ (write-Same python ops no_keep_alive chunk s) h
  run_op-FinishesOnce op_flush s h =
      Same-FinishesOnce s (flush python ops false s) (flush-Same python ops no_keep_alive false s) h
  run_op-FinishesOnce (op_finish chunk) s h = finish-FinishesOnce chunk s h
  run_op-FinishesOnce (op_redirect url permanent) s h = redirect-FinishesOnce url permanent s h
  run_op-FinishesOnce (op_send_error code reason) s h = send_error-FinishesOnce code reason s h
  run_op-FinishesOnce (op_exception e) s h = handle_request_exception-FinishesOnce e s h

  -- Whatever an application calls on a handler, and whatever these calls raise, the request has been
  -- finished exactly once if the handler is finished, and never if it is not, if that was so at the start.
  pub run-FinishesOnce :
      (calls : List Op) (s : Handler T)
      → FinishesOnce s
      → FinishesOnce (run python ops no_keep_alive calls s)
  unfolding run
  run-FinishesOnce [] s h = h
  run-FinishesOnce (op ∷ calls) s h =
      run-FinishesOnce calls (left python ops no_keep_alive (run_op python ops no_keep_alive op s))
        (run_op-FinishesOnce op s h)
