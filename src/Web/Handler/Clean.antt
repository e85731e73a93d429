-- ===== src/Web/Handler/Clean.antt =====
-- tornado/web.py: the methods of `RequestHandler` that set headers check their values.
use tornado3_1_1_search.Base.{
  html_type_text, server_version_text, keep_alive_capital_text, ℕ, refl, sym, subst, Bool, ◌||◌,
  Option, none, some, Bytes, length, if_intro, arith, ltb, connection_text, server_text, date_text,
  content_type_text,
}
use tornado3_1_1_search.HttpUtil.Headers
use tornado3_1_1_search.HttpUtil.Headers.{
  Headers, contains, del_item, add, set_item, get_all, no_headers,
}
use tornado3_1_1_search.Web.Handler.{
  IsClean, Python, TransformOps, Handler, Result, ok, raised, Converted, converted, refused,
  has_invalid, HeaderValue, bytes_value, number, time, unsupported, after, convert_header_value,
  set_converted, set_header, with_headers, add_converted, clear_header, set_status, with_reason,
  clear, default_headers, asks_keep_alive,
}
use tornado3_1_1_search.Web.Handler.Cookies.{
  CookieOptions, CleanCookies, CookiesLeft, set_cookie, set_cookie-CookiesLeft,
}
use tornado3_1_1_search.Web.Handler.Values.{
  CleanHeaders, has_invalid-IsClean, set_item-CleanHeaders, add-CleanHeaders, del_item-CleanHeaders,
}

abbrev CleanConverted : Converted → Type 0
CleanConverted (converted value) = IsClean value
CleanConverted (refused e) = Unit

module _ {T : Type 0} (python : Python) (ops : TransformOps T) (no_keep_alive : Bool) where
  abbrev pub CleanLeft : Result T → Type 0
  CleanLeft (ok s) = CleanHeaders s.headers × CleanCookies s.new_cookie
  CleanLeft (raised e s) = CleanHeaders s.headers × CleanCookies s.new_cookie

  abbrev pub Clean : Handler T → Type 0
  Clean s = CleanHeaders s.headers × CleanCookies s.new_cookie

  pub after-Clean :
      (r : Result T) (f : Handler T → Result T)
      → CleanLeft r
      → ((t : Handler T) → Clean t → CleanLeft (f t))
      → CleanLeft (after python ops r f)
  unfolding after
  after-Clean (ok t) f h k = k t h
  after-Clean (raised e t) f h k = h

  pub convert_header_value-clean :
      (value : HeaderValue) → CleanConverted (convert_header_value python ops value)
  unfolding convert_header_value
  convert_header_value-clean (bytes_value value) =
      if_intro CleanConverted (ltb 4000 (length value) || has_invalid value) _ _ (λ e. tt)
        (λ e. has_invalid-IsClean value (ground (arith, e)))
  convert_header_value-clean (number n) = python.str_of-IsClean n
  convert_header_value-clean (time t) = python.format_timestamp-IsClean t
  convert_header_value-clean unsupported = tt

  pub set_converted-Clean :
      (name : Bytes) (c : Converted) (s : Handler T)
      → CleanConverted c
      → Clean s
      → CleanLeft (set_converted python ops name c s)
  unfolding set_converted
  set_converted-Clean name (converted value) s c h =
      (set_item-CleanHeaders name value s.headers c h.0, h.1)
  set_converted-Clean name (refused e) s c h = h

  pub set_header-Clean :
      (name : Bytes) (value : HeaderValue) (s : Handler T)
      → Clean s
      → CleanLeft (set_header python ops name value s)
  unfolding set_header
  set_header-Clean name value s h =
      set_converted-Clean name (convert_header_value python ops value) s
        (convert_header_value-clean value) h

  pub with_headers-Clean :
      (r : Headers.Result) (s : Handler T)
      → CleanHeaders (Headers.state r)
      → CleanCookies s.new_cookie
      → CleanLeft (with_headers python ops r s)
  unfolding with_headers
  with_headers-Clean (Headers.ok h) s k c = (k, c)
  with_headers-Clean (Headers.raised e h) s k c = (k, c)

  pub add_converted-Clean :
      (name : Bytes) (c : Converted) (s : Handler T)
      → CleanConverted c
      → Clean s
      → CleanLeft (add_converted python ops name c s)
  unfolding add_converted
  add_converted-Clean name (converted value) s c h =
      with_headers-Clean (add name value s.headers) s (add-CleanHeaders name value s.headers c h.0)
        h.1
  add_converted-Clean name (refused e) s c h = h

  pub clear_header-Clean :
      (name : Bytes) (s : Handler T) → Clean s → CleanLeft (clear_header python ops name s)
  unfolding clear_header
  clear_header-Clean name s h =
      if_intro CleanLeft (contains name s.headers) _ (ok s)
        (λ e.
          with_headers-Clean (del_item name s.headers) s (del_item-CleanHeaders name s.headers h.0)
            h.1)
        (λ e. h)

  pub with_reason-Clean :
      (code : ℕ) (o : Option Bytes) (s : Handler T)
      → Clean s
      → CleanLeft (with_reason python ops code o s)
  unfolding with_reason
  with_reason-Clean code (some reason) s h = h
  with_reason-Clean code none s h = h

  pub set_status-Clean :
      (code : ℕ) (o : Option Bytes) (s : Handler T)
      → Clean s
      → CleanLeft (set_status python ops code o s)
  unfolding set_status
  set_status-Clean code (some reason) s h = with_reason-Clean code (some reason) s h
  set_status-Clean code none s h = with_reason-Clean code (python.responses code) s h

  pub default_headers-clean : CleanHeaders (default_headers python ops)
  unfolding default_headers no_headers has_invalid
  default_headers-clean =
      set_item-CleanHeaders date_text (python.format_timestamp python.now) _
        (python.format_timestamp-IsClean python.now)
        (set_item-CleanHeaders content_type_text html_type_text _
          (has_invalid-IsClean html_type_text refl)
          (set_item-CleanHeaders server_text server_version_text no_headers
            (has_invalid-IsClean server_version_text refl) tt))

  pub clear-Clean :
      (s : Handler T) → CleanCookies s.new_cookie → Clean (clear python ops no_keep_alive s)
  unfolding clear has_invalid
  clear-Clean s c =
      if_intro (λ (t : Handler T). Clean t) (asks_keep_alive python ops no_keep_alive s.request) _ _
        (λ e. (
          set_item-CleanHeaders connection_text keep_alive_capital_text _
              (has_invalid-IsClean keep_alive_capital_text refl) default_headers-clean,
          c,
        ))
        (λ e. (default_headers-clean, c))

  CookiesLeft-Clean :
      (r : Result T) (h : Headers) → CleanHeaders h → CookiesLeft python ops h r → CleanLeft r
  CookiesLeft-Clean (ok s) h c k = (subst CleanHeaders (sym k.0) c, k.1)
  CookiesLeft-Clean (raised e s) h c k = (subst CleanHeaders (sym k.0) c, k.1)

  pub set_cookie-Clean :
      (name value : Bytes) (options : CookieOptions) (s : Handler T)
      → IsClean options.domain
      → IsClean options.path
      → Clean s
      → CleanLeft (set_cookie python ops name value options s)
  set_cookie-Clean name value options s d p h =
      CookiesLeft-Clean (set_cookie python ops name value options s) s.headers h.0
        (set_cookie-CookiesLeft python ops name value options s d p h.1)
