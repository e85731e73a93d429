-- ===== src/Web/Handler/Cookies.antt =====
-- tornado/web.py: `RequestHandler.set_cookie`, for the attributes that it names itself.
use tornado3_1_1_search.Base.{
  path_text, expires_text, domain_text, ℕ, ◌+◌, ◌*◌, ◌≡◌, refl, ◌==◌, ltb, Bool, false, ◌||◌,
  Option, none, some, List, [], ◌∷◌, ◌++◌, if◌then◌else◌, if_intro, Bytes, bytes_eq, is_empty, Dict,
  set, remove, Each, Each-append, arith,
}
use tornado3_1_1_search.HttpUtil.Headers.{Headers}
use tornado3_1_1_search.Web.Handler.{
  IsClean, Python, TransformOps, Handler, Result, ok, raised, value_error, cookie_error,
}

-- `domain` and `path`, empty for `None`, and `expires`, 0 for `None`: the code treats these alike.
pub record CookieOptions : Type 0 where
  pub domain : Bytes
  pub path : Bytes
  pub expires : ℕ
  pub expires_days : Option ℕ

-- Whether a character is one of `[\x00-\x20]`.
unfoldable pub has_space : Bytes → Bool
has_space [] = false
has_space (c ∷ s) = ltb c 33 || has_space s

-- An attribute that is set if its text is not empty
unfoldable pub attribute : Bytes → Bytes → List (Bytes × Bytes)
attribute name value = if is_empty value then [] else (name, value) ∷ []

module _ {T : Type 0} (python : Python) (ops : TransformOps T) where
  unfoldable pub expires_of : CookieOptions → Option ℕ → ℕ
  expires_of options none = options.expires
  expires_of options (some days) =
      if options.expires == 0 then python.now + days * 86400 else options.expires

  unfoldable pub formatted : ℕ → Bytes
  formatted time = if time == 0 then [] else python.format_timestamp time

  unfoldable pub attributes_of : CookieOptions → List (Bytes × Bytes)
  unfolding attribute expires_of formatted
  attributes_of options =
      attribute domain_text options.domain
      ++ (attribute expires_text (formatted (expires_of options options.expires_days))
          ++ attribute path_text options.path)

  -- A cookie is stored without its name's old one; that is gone too if the library raises.
  unfoldable pub store_cookie : Bytes → Option Bytes → Handler T → Result T
  unfolding set
  store_cookie name none s = raised cookie_error s
  store_cookie name (some text) s = ok (record s { new_cookie = set name text s.new_cookie })

  unfoldable pub set_cookie : Bytes → Bytes → CookieOptions → Handler T → Result T
  unfolding store_cookie attributes_of has_space remove
  set_cookie name value options s =
      if has_space (name ++ value)
      then raised value_error s
      else store_cookie name (python.cookie_text name value (attributes_of options))
          (record s { new_cookie = remove name s.new_cookie })

-- The texts of cookies have no control characters.
abbrev pub CleanCookies : Dict Bytes → Type 0
CleanCookies d = Each (λ (entry : Bytes × Bytes). IsClean entry.1) d

has_space-IsClean : (s : Bytes) → has_space s ≡ false → IsClean s
unfolding has_space
has_space-IsClean [] e = tt
has_space-IsClean (c ∷ s) e =
    let rest : has_space s ≡ false = ground (arith, e) in
    (ground (arith, e), has_space-IsClean s rest)

IsClean-parts : (s t : Bytes) → IsClean (s ++ t) → IsClean s × IsClean t
IsClean-parts [] t h = (tt, h)
IsClean-parts (c ∷ s) t h = let r = IsClean-parts s t h.1 in ((h.0, r.0), r.1)

set-CleanCookies :
    (name text : Bytes) (d : Dict Bytes)
    → IsClean text
    → CleanCookies d
    → CleanCookies (set name text d)
unfolding set
set-CleanCookies name text [] c h = (c, tt)
set-CleanCookies name text (entry ∷ d) c h =
    if_intro CleanCookies (bytes_eq name entry.0) _ _ (λ e. (c, h.1))
      (λ e. (h.0, set-CleanCookies name text d c h.1))

remove-CleanCookies :
    (name : Bytes) (d : Dict Bytes) → CleanCookies d → CleanCookies (remove name d)
unfolding remove
remove-CleanCookies name [] h = tt
remove-CleanCookies name (entry ∷ d) h =
    if_intro CleanCookies (bytes_eq name entry.0) _ _ (λ e. remove-CleanCookies name d h.1)
      (λ e. (h.0, remove-CleanCookies name d h.1))

attribute-CleanCookies : (name value : Bytes) → IsClean value → CleanCookies (attribute name value)
unfolding attribute
attribute-CleanCookies name value h =
    if_intro CleanCookies (is_empty value) _ _ (λ e. tt) (λ e. (h, tt))

module _ {T : Type 0} (python : Python) (ops : TransformOps T) where
  -- What a method leaves has clean cookies and these headers.
  abbrev pub CookiesLeft : Headers → Result T → Type 0
  CookiesLeft h (ok s) = (s.headers ≡ h) × CleanCookies s.new_cookie
  CookiesLeft h (raised e s) = (s.headers ≡ h) × CleanCookies s.new_cookie

  formatted-IsClean : (time : ℕ) → IsClean (formatted python ops time)
  unfolding formatted
  formatted-IsClean time =
      if_intro IsClean (time == 0) _ _ (λ e. tt) (λ e. python.format_timestamp-IsClean time)

  attributes_of-CleanCookies :
      (options : CookieOptions)
      → IsClean options.domain
      → IsClean options.path
      → CleanCookies (attributes_of python ops options)
  unfolding attributes_of
  attributes_of-CleanCookies options d p =
      let time = expires_of python ops options options.expires_days in
      Each-append (λ (entry : Bytes × Bytes). IsClean entry.1)
        (attribute domain_text options.domain) _
        (
          attribute-CleanCookies domain_text options.domain d,
          Each-append (λ (entry : Bytes × Bytes). IsClean entry.1)
              (attribute expires_text (formatted python ops time)) _
              (
                attribute-CleanCookies expires_text (formatted python ops time)
                    (formatted-IsClean time),
                attribute-CleanCookies path_text options.path p,
              ),
        )

  store_cookie-CookiesLeft :
      (name : Bytes) (text : Option Bytes) (s : Handler T)
      → ((t : Bytes) → text ≡ some t → IsClean t)
      → CleanCookies s.new_cookie
      → CookiesLeft s.headers (store_cookie python ops name text s)
  unfolding store_cookie
  store_cookie-CookiesLeft name none s c h = (refl, h)
  store_cookie-CookiesLeft name (some text) s c h =
      (refl, set-CleanCookies name text s.new_cookie (c text refl) h)

  pub set_cookie-CookiesLeft :
      (name value : Bytes) (options : CookieOptions) (s : Handler T)
      → IsClean options.domain
      → IsClean options.path
      → CleanCookies s.new_cookie
      → CookiesLeft s.headers (set_cookie python ops name value options s)
  unfolding set_cookie
  set_cookie-CookiesLeft name value options s d p h =
      if_intro (CookiesLeft s.headers) (has_space (name ++ value)) _ _ (λ e. (refl, h))
        (λ e.
          let clean = IsClean-parts name value (has_space-IsClean (name ++ value) e) in
          store_cookie-CookiesLeft name
            (python.cookie_text name value (attributes_of python ops options)) _
            (λ text is.
              python.cookie_text-IsClean name value (attributes_of python ops options) text is
                clean.0 clean.1 (attributes_of-CleanCookies options d p))
            (remove-CleanCookies name s.new_cookie h))
