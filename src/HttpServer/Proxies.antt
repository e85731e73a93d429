-- ===== src/HttpServer/Proxies.antt =====
-- tornado/httpserver.py: what an `HTTPRequest` believes of the headers that a proxy sets.
use tornado3_1_1_search.Base.{
  ◌≡◌, refl, ◌⊎◌, inl, inr, subst, Bool, true, false, Bytes, if◌then◌else◌, if_intro,
}
use tornado3_1_1_search.HttpUtil.Headers.{Headers}
use tornado3_1_1_search.HttpServer.{Python, HttpRequest, Options}
use tornado3_1_1_search.HttpServer.Requests.{
  Result, ok, raised, is_valid_ip, forwarded_ip, forwarded_proto, is_http_proto, override,
  default_protocol, headers_or, new_request,
}

-- The address and the protocol of a request are the socket's and the server's, or the headers are
-- believed and the address is a valid one, and the protocol `http` or `https`.
pub record IsTrusted (python : Python) (options : Options) (remote_ip : Bytes) (r : HttpRequest)
    : Type 0 where
  pub ip :
      (r.remote_ip ≡ remote_ip)
      ⊎ ((options.xheaders ≡ true) × (is_valid_ip python r.remote_ip ≡ ok true))
  pub proto :
      (r.protocol ≡ default_protocol options)
      ⊎ ((options.xheaders ≡ true) × (is_http_proto r.protocol ≡ true))

abbrev Trusted : Python → Options → Bytes → Result HttpRequest → Type 0
Trusted python options remote_ip (ok r) = IsTrusted python options remote_ip r
Trusted python options remote_ip (raised e) = Unit

module _ (python : Python) (options : Options) (headers : Headers) (request : HttpRequest)
    (x : options.xheaders ≡ true) (p : request.protocol ≡ default_protocol options) where
  proto_of :
      (b : Bool) (proto : Bytes)
      → (b ≡ true → is_http_proto proto ≡ true)
      → ((if b then proto else request.protocol) ≡ default_protocol options)
        ⊎ ((options.xheaders ≡ true)
            × (is_http_proto (if b then proto else request.protocol) ≡ true))
  proto_of true proto h = inr (x, h refl)
  proto_of false proto h = inl p

  ip_of :
      (b : Bool) (ip : Bytes)
      → is_valid_ip python ip ≡ ok b
      → ((if b then ip else request.remote_ip) ≡ request.remote_ip)
        ⊎ ((options.xheaders ≡ true)
            × (is_valid_ip python (if b then ip else request.remote_ip) ≡ ok true))
  ip_of true ip h = inr (x, h)
  ip_of false ip h = inl refl

  override-Trusted :
      (valid : Result Bool)
      → is_valid_ip python (forwarded_ip headers request.remote_ip) ≡ valid
      → Trusted python options request.remote_ip (override headers valid request)
  unfolding override
  override-Trusted (raised e) h = tt
  override-Trusted (ok b) h = record {
    ip = ip_of b (forwarded_ip headers request.remote_ip) h;
    proto =
        proto_of (is_http_proto (forwarded_proto headers request.protocol))
          (forwarded_proto headers request.protocol) (λ e. e);
  }

new_request-Trusted :
    (python : Python) (options : Options) (method uri version : Bytes) (headers : Headers)
    (remote_ip : Bytes)
    → Trusted python options remote_ip
        (new_request python options method uri version headers remote_ip)
unfolding new_request
new_request-Trusted python options method uri version headers remote_ip =
    if_intro (Trusted python options remote_ip) options.xheaders _ _
      (λ x.
        override-Trusted python options (headers_or headers) _ x refl
          (is_valid_ip python (forwarded_ip (headers_or headers) remote_ip)) refl)
      (λ x. record { ip = inl refl; proto = inl refl })

-- The address of a request is that of the socket, unless the server believes the headers of a proxy
-- and these give an address that is valid; its protocol is the server's, unless the server believes
-- the headers and these give `http` or `https`.
pub new_request-IsTrusted :
    (python : Python) (options : Options) (method uri version : Bytes) (headers : Headers)
    (remote_ip : Bytes) (r : HttpRequest)
    → new_request python options method uri version headers remote_ip ≡ ok r
    → IsTrusted python options remote_ip r
new_request-IsTrusted python options method uri version headers remote_ip r e =
    subst (Trusted python options remote_ip) e
      (new_request-Trusted python options method uri version headers remote_ip)
