-- ===== src/Web/Routing/Meaning.antt =====
-- tornado/web.py: what it means that routes are tried from the most precise host to the wildcard.
use tornado3_1_1_search.Base.{
  ◌≡◌, true, false, Option, none, some, List, [], ◌∷◌, ◌++◌, ◌≢◌, ◌==◌, map, lower, Bytes, is_empty,
  Each,
}
use mathlib.Core.Option
use tornado3_1_1_search.Web.Routing.{
  ok, raised, Error, spec_of, Library, Regex, Spec, Application, Route, add_handlers, with_end,
}
use tornado3_1_1_search.Web.Routing.Dispatch.{Chosen, error_handler, handler, groupdict}

-- The calls of `add_handlers` that follow the constructor, whatever they raise.
abbrev pub add_later : Library → List (Bytes × List Route) → Application → Application
add_later library [] app = app
add_later library (added ∷ rest) app =
    add_later library rest (add_handlers library added.0 added.1 app).0

-- The specs of routes: those before the first route that raises, in their order.
pub data AreTaken (library : Library) : List Route → List Spec → Type 0 where
  none_left : AreTaken library [] []
  stopped :
      (route : Route) (routes : List Route) (error : Error)
      → spec_of library route ≡ raised error
      → AreTaken library (route ∷ routes) []
  taken :
      (route : Route) (routes : List Route) (spec : Spec) (specs : List Spec)
      → spec_of library route ≡ ok spec
      → AreTaken library routes specs
      → AreTaken library (route ∷ routes) (spec ∷ specs)

-- The specs that calls of `add_handlers` lead to for a host: those of the calls whose pattern can be
-- compiled and matches the host, in the order of the calls.
pub data AreHosted (library : Library) (host : Bytes)
    : List (Bytes × List Route) → List Spec → Type 0 where
  no_calls : AreHosted library host [] []
  not_compiled :
      (pattern : Bytes) (routes : List Route) (rest : List (Bytes × List Route)) (specs : List Spec)
      → library.compile (with_end pattern) ≡ none
      → AreHosted library host rest specs
      → AreHosted library host ((pattern, routes) ∷ rest) specs
  other_host :
      (pattern : Bytes) (routes : List Route) (rest : List (Bytes × List Route)) (specs : List Spec)
      (regex : Regex)
      → library.compile (with_end pattern) ≡ some regex
      → regex.match_text host ≡ none
      → AreHosted library host rest specs
      → AreHosted library host ((pattern, routes) ∷ rest) specs
  same_host :
      (pattern : Bytes) (routes : List Route) (rest : List (Bytes × List Route))
      (own specs : List Spec) (regex : Regex) (values : List (Option Bytes))
      → library.compile (with_end pattern) ≡ some regex
      → regex.match_text host ≡ some values
      → AreTaken library routes own
      → AreHosted library host rest specs
      → AreHosted library host ((pattern, routes) ∷ rest) (own ++ specs)

-- The host of a request: its text in small letters, without a port.
pub data IsHostOf : Bytes → Bytes → Type 0 where
  plain : (s : Bytes) → Each (λ c. (c == 58) ≡ false) (map lower s) → IsHostOf s (map lower s)
  with_port :
      (s port : Bytes)
      → Each (λ c. (c == 58) ≡ false) (map lower s)
      → IsHostOf (s ++ 58 ∷ port) (map lower s)

-- The handler of a spec: what its groups matched, unescaped, are arguments in their order, or named
-- ones if the groups have names.
pub data IsHandled (library : Library) (spec : Spec) (values : List (Option Bytes))
    : Chosen → Type 0 where
  no_groups : spec.regex.groups ≡ 0 → IsHandled library spec values (handler spec [] [])
  unnamed :
      spec.regex.groups ≢ 0
      → is_empty spec.regex.groupindex ≡ true
      → IsHandled library spec values
          (handler spec (map (Option.map library.url_unescape) values) [])
  named :
      spec.regex.groups ≢ 0
      → is_empty spec.regex.groupindex ≡ false
      → IsHandled library spec values (
          handler spec []
            (groupdict spec.regex.groupindex (map (Option.map library.url_unescape) values)))

-- The handler is the first spec's whose pattern matches the path, or that of the error 404.
pub data IsFirst (library : Library) (path : Bytes) : List Spec → Chosen → Type 0 where
  found :
      (front : List Spec) (spec : Spec) (back : List Spec) (values : List (Option Bytes))
      (chosen : Chosen)
      → Each (λ other. other.regex.match_text path ≡ none) front
      → spec.regex.match_text path ≡ some values
      → IsHandled library spec values chosen
      → IsFirst library path (front ++ spec ∷ back) chosen
  missed :
      (specs : List Spec)
      → Each (λ other. other.regex.match_text path ≡ none) specs
      → IsFirst library path specs (error_handler 404)

-- The handler for a path and a host, after the calls `added` and routes of the constructor.
pub record IsDispatched (library : Library) (host path : Bytes) (routes : List Route)
    (added : List (Bytes × List Route)) (chosen : Chosen) : Type 0 where
  pub hosted_specs : List Spec
  pub own_specs : List Spec
  pub of_host : AreHosted library host added hosted_specs
  pub of_constructor : AreTaken library routes own_specs
  pub first : IsFirst library path (hosted_specs ++ own_specs) chosen
