-- ===== src/Web/Handler/Lengths.antt =====
-- tornado/web.py: `finish` gives a response the length of its body.
use tornado3_1_1_search.Base.{
  ℕ, ◌≡◌, ◌⊎◌, inl, inr, refl, subst, true, ap, ◌∙◌, false, not, ◌&&◌, ◌==◌, Option, none, some,
  is_some, List, [], ◌∷◌, Bytes, bytes_eq, is_empty, length, join, if_intro, arith, if◌then◌else◌,
  lookup-set, etag_text, content_length_text, upper, lower, capitalize, split, join_rest,
  bytes_eq_refl,
}
use tornado3_1_1_search.HttpUtil.{normalize}
use tornado3_1_1_search.HttpUtil.Headers
use tornado3_1_1_search.HttpUtil.Headers.{Headers, get_item, contains, set_item, del_item}
use tornado3_1_1_search.Web.Handler.{
  Python, TransformOps, Handler, Result, ok, raised, Converted, converted, refused, bytes_value,
  after, convert_header_value, set_converted, set_header, with_headers, clear_header, set_status,
  with_reason,
}
use tornado3_1_1_search.Web.Handler.Response.{
  entity_headers, compute_etag, set_etag_header, check_etag_header, is_get, clear_all,
  clear_headers_for_304, not_modified, use_etag, use_length, complete_headers,
}

-- A header behind an assignment to another one, and to itself.
get_item-set_item :
    (j k value : Bytes) (h : Headers)
    → get_item j (set_item k value h)
      ≡ (if bytes_eq (normalize j) (normalize k) then some value else get_item j h)
unfolding get_item set_item
get_item-set_item j k value h = lookup-set (normalize j) (normalize k) value h.dict

length-not_etag : bytes_eq (normalize content_length_text) (normalize etag_text) ≡ false
unfolding bytes_eq normalize split join_rest capitalize upper lower
length-not_etag = refl

module _ {T : Type 0} (python : Python) (ops : TransformOps T) where
  -- The response has the status 304 and no body, or says how long its body is.
  abbrev pub HasLength : Result T → Type 0
  HasLength (ok t) =
      ((t.status_code ≡ 304) × (is_empty t.write_buffer ≡ true))
      ⊎ (get_item content_length_text t.headers
          ≡ some (python.str_of (length (join t.write_buffer))))
  HasLength (raised e t) = Unit

  -- Nothing has said how long the body is.
  abbrev NoLength : Handler T → Type 0
  NoLength t = contains content_length_text t.headers ≡ false

  abbrev NoLengthLeft : Result T → Type 0
  NoLengthLeft (ok t) = NoLength t
  NoLengthLeft (raised e t) = Unit

  abbrev StatusLeft : ℕ → List Bytes → Result T → Type 0
  StatusLeft code buffer (ok t) = (t.status_code ≡ code) × (t.write_buffer ≡ buffer)
  StatusLeft code buffer (raised e t) = Unit

  clear_header-status :
      (name : Bytes) (s : Handler T)
      → StatusLeft s.status_code s.write_buffer (clear_header python ops name s)
  unfolding clear_header
  clear_header-status name s =
      if_intro (StatusLeft s.status_code s.write_buffer) (contains name s.headers) _ (ok s)
        (λ e. at (del_item name s.headers)) (λ e. (refl, refl))
    where
      at :
          (h : Headers.Result)
          → StatusLeft s.status_code s.write_buffer (with_headers python ops h s)
      at (Headers.ok h) = unfold with_headers in (refl, refl)
      at (Headers.raised e h) = unfold with_headers in tt

  after-status :
      (code : ℕ) (buffer : List Bytes) (r : Result T) (f : Handler T → Result T)
      → StatusLeft code buffer r
      → ((t : Handler T)
          → t.status_code ≡ code
          → t.write_buffer ≡ buffer
          → StatusLeft code buffer (f t))
      → StatusLeft code buffer (after python ops r f)
  unfolding after
  after-status code buffer (ok t) f h k = k t h.0 h.1
  after-status code buffer (raised e t) f h k = tt

  clear_all-status :
      (code : ℕ) (buffer : List Bytes) (names : List Bytes) (s : Handler T)
      → s.status_code ≡ code
      → s.write_buffer ≡ buffer
      → StatusLeft code buffer (clear_all python ops names s)
  unfolding clear_all
  clear_all-status code buffer [] s e f = (e, f)
  clear_all-status code buffer (name ∷ names) s e f =
      after-status code buffer (clear_header python ops name s) _
        (subst (λ b. StatusLeft code b (clear_header python ops name s)) f
          (subst (λ c. StatusLeft c s.write_buffer (clear_header python ops name s)) e
            (clear_header-status name s)))
        (λ t h k. clear_all-status code buffer names t h k)

  status-HasLength :
      (buffer : List Bytes) (r : Result T)
      → is_empty buffer ≡ true
      → StatusLeft 304 buffer r
      → HasLength r
  status-HasLength buffer (ok t) e h = inl (h.0, ap is_empty h.1 ∙ e)
  status-HasLength buffer (raised f t) e h = tt

  use_length-HasLength : (s : Handler T) → NoLength s → HasLength (use_length python ops s)
  unfolding use_length clear_headers_for_304 set_header set_converted convert_header_value
  use_length-HasLength s h =
      if_intro HasLength (s.status_code == 304) _ _
        (λ e.
          if_intro HasLength (is_empty s.write_buffer) _ _
            (λ f.
              status-HasLength s.write_buffer _ f
                (clear_all-status 304 s.write_buffer entity_headers s (ground (arith, e)) refl))
            (λ f. tt))
        (λ e.
          if_intro HasLength (contains content_length_text s.headers) (ok s) _
            (λ f. absurd (ground (arith, f, h)))
            (λ f. inr (
              get_item-set_item content_length_text content_length_text
                (python.str_of (length (join s.write_buffer))) s.headers
              ∙ rw (bytes_eq_refl (normalize content_length_text)) refl)))

  set_etag-NoLength :
      (c : Converted) (s : Handler T)
      → NoLength s
      → NoLengthLeft (set_converted python ops etag_text c s)
  unfolding set_converted contains
  set_etag-NoLength (converted value) s h =
      ap is_some
        (get_item-set_item content_length_text etag_text value s.headers ∙ rw length-not_etag refl)
      ∙ h
  set_etag-NoLength (refused e) s h = tt

  set_status-NoLength :
      (o : Option Bytes) (s : Handler T)
      → NoLength s
      → NoLengthLeft (with_reason python ops 304 o s)
  unfolding with_reason
  set_status-NoLength none s h = tt
  set_status-NoLength (some reason) s h = h

  not_modified-NoLength : (s : Handler T) → NoLength s → NoLengthLeft (not_modified python ops s)
  unfolding not_modified set_status
  not_modified-NoLength s h =
      if_intro NoLengthLeft (check_etag_header python ops s) _ (ok s)
        (λ e. set_status-NoLength (python.responses 304) (record s { write_buffer = [] }) h)
        (λ e. h)

  after-NoLength :
      (r : Result T) (f : Handler T → Result T)
      → NoLengthLeft r
      → ((t : Handler T) → NoLength t → NoLengthLeft (f t))
      → NoLengthLeft (after python ops r f)
  unfolding after
  after-NoLength (ok t) f h k = k t h
  after-NoLength (raised e t) f h k = tt

  use_etag-NoLength : (s : Handler T) → NoLength s → NoLengthLeft (use_etag python ops s)
  unfolding use_etag set_etag_header set_header
  use_etag-NoLength s h =
      if_intro NoLengthLeft
        (s.status_code == 200 && (is_get python ops s && not (contains etag_text s.headers))) _
        (ok s)
        (λ e.
          after-NoLength (set_etag_header python ops s) (not_modified python ops)
            (set_etag-NoLength
              (convert_header_value python ops (bytes_value (compute_etag python ops s))) s h)
            not_modified-NoLength)
        (λ e. h)

  -- Before the headers of a response are sent, `finish` completes them: the response has the status
  -- 304 and no body in the buffer, or a header that says how long the buffered body is, or an
  -- exception is raised. This holds for headers that have no length yet.
  pub complete_headers-HasLength :
      (s : Handler T)
      → s.headers_written ≡ false
      → contains content_length_text s.headers ≡ false
      → HasLength (complete_headers python ops s)
  unfolding complete_headers
  complete_headers-HasLength s w h =
      if_intro HasLength s.headers_written (ok s) _ (λ e. absurd (ground (arith, e, w)))
        (λ e. at (use_etag python ops s) (use_etag-NoLength s h))
    where
      at : (r : Result T) → NoLengthLeft r → HasLength (after python ops r (use_length python ops))
      at (ok t) k = unfold after in use_length-HasLength t k
      at (raised f t) k = unfold after in tt
