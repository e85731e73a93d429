-- ===== src/HttpServer/Runs/Asks.antt =====
-- tornado/httpserver.py: what an `HTTPConnection` asks of its stream, over all that can happen to it.
use tornado3_1_1_search.Base.{
  ℕ, ◌≤◌, ◌≡◌, refl, Bool, true, false, List, [], ◌∷◌, ℤ, pos, negsuc, Each, Each-append, ◌⊎◌, inl,
  inr, Bool-cases, ltb→le, arith,
}
use tornado3_1_1_search.HttpServer.{Transport, Server}
use tornado3_1_1_search.HttpServer.Connection.{
  Output, asked_headers, asked_body, called, nodelay, Connection, called_stream,
}
use tornado3_1_1_search.HttpServer.RequestHead.{too_long}
use tornado3_1_1_search.HttpServer.Connection.Receiving.{init}
use tornado3_1_1_search.HttpServer.Runs.{Input, left, run}
use tornado3_1_1_search.HttpServer.Runs.Kept.{Steps}
use tornado3_1_1_search.HttpServer.Runs.Reacts.{run-Of}
use tornado3_1_1_search.IoStream
use tornado3_1_1_search.IoStream.{Outcome}

-- Asking for headers while nothing is left to write.
abbrev pub IsQuiet : Output → Type 0
IsQuiet (asked_headers w) = w ≡ false
IsQuiet (asked_body n limit) = Unit
IsQuiet (called r) = Unit
IsQuiet (nodelay b) = Unit

-- Asking for a body within the limit.
abbrev pub IsBounded : Output → Type 0
IsBounded (asked_headers w) = Unit
IsBounded (asked_body (pos n) limit) = n ≤ limit
IsBounded (asked_body (negsuc n) limit) = Unit
IsBounded (called r) = Unit
IsBounded (nodelay b) = Unit

bounded : (n : ℤ) (limit : ℕ) → too_long n limit ≡ false → IsBounded (asked_body n limit)
unfolding too_long
bounded (pos n) limit h = ltb→le limit n h
bounded (negsuc n) limit h = tt

module _ {S : Type 0} (transport : Transport S) where
  log_steps :
      (Holds : Output → Type 0)
      → ((r : _) → Holds (called r))
      → ((b : Bool) → Holds (nodelay b))
      → Holds (asked_headers false)
      → ((n : ℤ) (limit : ℕ) → too_long n limit ≡ false → Holds (asked_body n limit))
      → Steps transport (λ t h l. Each Holds l)
  log_steps Holds calls delays headers bodies = record {
    read_until = λ d cb t h l k. k;
    read_bytes = λ n cb t h l k. k;
    write = λ b cb t h l k. k;
    close = λ t h l k. k;
    forget = λ t h l c k. k;
    moved = λ t u h l c k. k;
    called = λ r t h l k. Each-append Holds l (called r ∷ []) (k, (calls r, tt));
    nodelay = λ b t h l k. Each-append Holds l (nodelay b ∷ []) (k, (delays b, tt));
    asked_headers = λ t h l k. Each-append Holds l (asked_headers false ∷ []) (k, (headers, tt));
    asked_body = λ n limit t h l fits k.
        Each-append Holds l (asked_body n limit ∷ []) (k, (bodies n limit fits, tt));
  }

  callback_steps : Steps transport (λ t h l. h ≡ false → transport.closed t ≡ true)
  callback_steps = record {
    read_until = λ d cb t h l k e. transport.read_until-closed d cb t (k e);
    read_bytes = λ n cb t h l k e. transport.read_bytes-closed n cb t (k e);
    write = λ b cb t h l k e. transport.write-closed b cb t (k e);
    close = λ t h l k e. transport.close-closed t;
    forget = λ t h l c k e. c;
    moved = λ t u h l c k e. absurd (ground (arith, c, k e));
    called = λ r t h l k. k;
    nodelay = λ b t h l k. k;
    asked_headers = λ t h l k. k;
    asked_body = λ n limit t h l fits k. k;
  }

module _ {S : Type 0} (server : Server S) where
  -- A connection that has been made on a stream, and what has happened to it since.
  abbrev pub after_run : List (Input S) → S → Connection S
  after_run is t = run server is (left server (init server t))

  init-log :
      (r : Outcome × S) (s : Connection S) → (left server (called_stream server r s)).log ≡ s.log
  unfolding left called_stream
  init-log (IoStream.ok done, t) s = refl
  init-log (IoStream.raised e, t) s = refl

  init-header_callback :
      (r : Outcome × S) (s : Connection S)
      → (left server (called_stream server r s)).header_callback ≡ s.header_callback
  unfolding left called_stream
  init-header_callback (IoStream.ok done, t) s = refl
  init-header_callback (IoStream.raised e, t) s = refl

  empty_log : (t : S) → (left server (init server t)).log ≡ []
  unfolding init
  empty_log t = init-log _ _

  -- Whatever happens to a connection, it asks its stream for the headers of another request only when
  -- nothing is left to write of the response before.
  pub run-asks_quietly : (is : List (Input S)) (t : S) → Each IsQuiet (after_run is t).log
  run-asks_quietly is t =
      run-Of server (λ u h l. Each IsQuiet l)
        (log_steps server.transport IsQuiet (λ r. tt) (λ b. tt) refl (λ n limit fits. tt)) is
        (left server (init server t)) (rw (empty_log t) tt)

  -- Whatever happens to a connection, no body that it asks for is longer than the limit of its stream,
  -- where a length below zero is not counted as longer.
  pub run-asks_within_limit : (is : List (Input S)) (t : S) → Each IsBounded (after_run is t).log
  run-asks_within_limit is t =
      run-Of server (λ u h l. Each IsBounded l)
        (log_steps server.transport IsBounded (λ r. tt) (λ b. tt) tt bounded) is
        (left server (init server t)) (rw (empty_log t) tt)

  -- Whatever happens to a connection, its header callback is set or its stream is closed.
  pub run-keeps_header_callback :
      (is : List (Input S)) (t : S)
      → ((after_run is t).header_callback ≡ true)
        ⊎ (server.transport.closed (after_run is t).stream ≡ true)
  unfolding init
  run-keeps_header_callback is t =
      let kept =
        run-Of server (λ u h l. h ≡ false → server.transport.closed u ≡ true)
          (callback_steps server.transport) is (left server (init server t))
          (λ e.
            let k : (left server (init server t)).header_callback ≡ true =
              init-header_callback _ _ in
            absurd (ground (arith, e, k))) in
      elim (Bool-cases (after_run is t).header_callback) [ inl e ↦ inl e | inr e ↦ inr (kept e) ]
