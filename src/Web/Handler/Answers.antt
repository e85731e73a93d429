-- ===== src/Web/Handler/Answers.antt =====
-- tornado/web.py: errors are answered, and what is sent has its length in its headers.
use tornado3_1_1_search.Base.{
  ℕ, ◌≡◌, refl, ap, sym, ◌∙◌, subst, Bool, true, false, ◌==◌, Option, none, some, is_some, [], ◌∷◌,
  ◌++◌, Bytes, if_intro, arith, content_length_text,
}
use tornado3_1_1_search.HttpUtil.Headers.{contains}
use tornado3_1_1_search.Web.Handler.{
  Python, TransformOps, Handler, Result, ok, raised, after, convert_header_value, set_converted,
  set_header, set_status, with_reason, clear, write, asks_keep_alive,
}
use tornado3_1_1_search.Web.Handler.Response.{
  use_etag, use_length, complete_headers, end_response, write_last, finish, error_page,
  finish_if_open, after_write_error, send_error,
}

module _ {T : Type 0} (python : Python) (ops : TransformOps T) where
  -- The method has returned, and the request is finished.
  abbrev pub Answered : Result T → Type 0
  Answered (ok t) = t.finished ≡ true
  Answered (raised e t) = true ≡ false

  with_chunk : Option Bytes → Handler T → Handler T
  with_chunk none s = s
  with_chunk (some chunk) s = record s { write_buffer = s.write_buffer ++ chunk ∷ [] }

  write_last-open :
      (chunk : Option Bytes) (s : Handler T)
      → s.finished ≡ false
      → write_last python ops chunk s ≡ ok (with_chunk chunk s)
  unfolding write_last write with_chunk
  write_last-open none s e = refl
  write_last-open (some chunk) s e = rw e refl

  use_length-ok :
      (s : Handler T)
      → (s.status_code == 304) ≡ false
      → (t : Handler T) × (use_length python ops s ≡ ok t)
  unfolding use_length set_header set_converted convert_header_value
  use_length-ok s e =
      if_intro (λ r. (t : Handler T) × (r ≡ ok t)) (s.status_code == 304) _ _
        (λ f. absurd (ground (arith, e, f)))
        (λ f.
          if_intro (λ r. (t : Handler T) × (r ≡ ok t)) (contains content_length_text s.headers)
            (ok s) _ (λ g. (s, refl)) (λ g. (_, refl)))

  use_etag-other : (s : Handler T) → (s.status_code == 200) ≡ false → use_etag python ops s ≡ ok s
  unfolding use_etag
  use_etag-other s e = rw e refl

  complete_headers-ok :
      (s : Handler T)
      → (s.status_code == 200) ≡ false
      → (s.status_code == 304) ≡ false
      → (t : Handler T) × (complete_headers python ops s ≡ ok t)
  unfolding complete_headers after
  complete_headers-ok s e f =
      if_intro (λ r. (t : Handler T) × (r ≡ ok t)) s.headers_written (ok s) _ (λ g. (s, refl))
        (λ g. rw (use_etag-other s e) (use_length-ok s f))

  with_chunk-status_code :
      (chunk : Option Bytes) (s : Handler T) → (with_chunk chunk s).status_code ≡ s.status_code
  unfolding with_chunk
  with_chunk-status_code none s = refl
  with_chunk-status_code (some chunk) s = refl

  after-Answered :
      (r : Result T) (f : Handler T → Result T) (t : Handler T)
      → r ≡ ok t
      → Answered (f t)
      → Answered (after python ops r f)
  unfolding after
  after-Answered r f t e h = subst (λ r. Answered (after python ops r f)) (sym e) h

  end_response-Answered : (s : Handler T) → Answered (end_response python ops s)
  unfolding end_response
  end_response-Answered s = refl

  finish-Answered :
      (chunk : Option Bytes) (s : Handler T)
      → s.finished ≡ false
      → (s.status_code == 200) ≡ false
      → (s.status_code == 304) ≡ false
      → Answered (finish python ops chunk s)
  unfolding finish
  finish-Answered chunk s open_ e f =
      let c = with_chunk-status_code chunk s in
      let k =
        complete_headers-ok (with_chunk chunk s) (ap (λ n. n == 200) c ∙ e)
          (ap (λ n. n == 304) c ∙ f) in
      if_intro Answered s.finished _ _ (λ g. absurd (ground (arith, g, open_)))
        (λ g.
          after-Answered (write_last python ops chunk s) _ (with_chunk chunk s)
            (write_last-open chunk s open_)
            (after-Answered (complete_headers python ops (with_chunk chunk s))
              (end_response python ops) k.0 k.1 (end_response-Answered k.0)))

  -- Once headers are out, the request is ended with what is buffered.
  finish_if_open-Answered :
      (s : Handler T) → s.headers_written ≡ true → Answered (finish_if_open python ops s)
  unfolding finish_if_open finish write_last complete_headers end_response after
  finish_if_open-Answered s w =
      if_intro Answered s.finished (ok s) _ (λ e. e)
        (λ e.
          if_intro Answered s.finished _ _ (λ g. absurd (ground (arith, e, g)))
            (λ g.
              after-Answered (complete_headers python ops s) (end_response python ops) s (rw w refl)
                (end_response-Answered s)))

  after_write_error-Answered :
      (r : Result T) → Answered r → Answered (after_write_error python ops r)
  unfolding after_write_error finish_if_open
  after_write_error-Answered (ok s) h =
      if_intro Answered s.finished (ok s) _ (λ e. h) (λ e. absurd (ground (arith, e, h)))
  after_write_error-Answered (raised e s) h = absurd (ground (arith, h))

  clear-open :
      (no_keep_alive : Bool) (s : Handler T)
      → (clear python ops no_keep_alive s).finished ≡ s.finished
  unfolding clear
  clear-open no_keep_alive s =
      if_intro (λ (t : Handler T). t.finished ≡ s.finished)
        (asks_keep_alive python ops no_keep_alive s.request) _ _ (λ e. refl) (λ e. refl)

  -- The reason that is given, or that of the code.
  abbrev pub reason_of : ℕ → Option Bytes → Option Bytes
  reason_of code (some reason) = some reason
  reason_of code none = python.responses code

  set_status-known :
      (code : ℕ) (reason : Option Bytes) (s : Handler T)
      → is_some (reason_of code reason) ≡ true
      → (t : Handler T) × ((set_status python ops code reason s ≡ ok t)
          × ((t.status_code ≡ code) × (t.finished ≡ s.finished)))
  unfolding set_status with_reason
  set_status-known code (some reason) s k = (_, (refl, (refl, refl)))
  set_status-known code none s k = known (python.responses code) k
    where
      known :
          (o : Option Bytes)
          → is_some o ≡ true
          → (t : Handler T) × ((with_reason python ops code o s ≡ ok t)
              × ((t.status_code ≡ code) × (t.finished ≡ s.finished)))
      known none k = absurd (ground (arith, k))
      known (some reason) k = unfold with_reason in (_, (refl, (refl, refl)))

  -- An error is answered: `send_error` returns, and the request is finished, if the handler was not
  -- finished before, the code is neither 200 nor 304, and its reason is given or known.
  pub send_error-Answered :
      (no_keep_alive : Bool) (code : ℕ) (reason : Option Bytes) (s : Handler T)
      → s.finished ≡ false
      → (code == 200) ≡ false
      → (code == 304) ≡ false
      → is_some (reason_of code reason) ≡ true
      → Answered (send_error python ops no_keep_alive code reason s)
  unfolding send_error
  send_error-Answered no_keep_alive code reason s open_ e f k =
      let s1 = clear python ops no_keep_alive s in
      let (t, (made, (status, kept))) = set_status-known code reason s1 k in
      if_intro Answered s.headers_written _ _ (λ g. finish_if_open-Answered s g)
        (λ g. after-Answered (set_status python ops code reason s1) _ t made (
          after_write_error-Answered
            (finish python ops (some (error_page python ops code t.reason)) t)
            (finish-Answered (some (error_page python ops code t.reason)) t
              (kept ∙ clear-open no_keep_alive s ∙ open_) (ap (λ n. n == 200) status ∙ e)
              (ap (λ n. n == 304) status ∙ f))))
