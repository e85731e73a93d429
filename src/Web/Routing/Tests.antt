-- ===== src/Web/Routing/Tests.antt =====
-- A small library for the routes of tornado/web.py, and the theorems at it.
use tornado3_1_1_search.Base.{
  ◌≡◌, refl, false, Option, none, some, List, [], ◌∷◌, ◌++◌, if◌then◌else◌, Bytes, bytes_eq, map,
  lower, starts_with, dot_star_dollar_text,
}
use tornado3_1_1_search.Web.Routing.{
  add_handlers, ok, Library, Regex, Spec, Route, pair, class, spec_of, init, Application,
}
use tornado3_1_1_search.Web.Routing.Dispatch.{RoutedRequest, handler, call}
use tornado3_1_1_search.Web.Routing.Reverse.{reverse}
use tornado3_1_1_search.Web.Routing.Reverse.Fills.{Part, filled, reverse-fills}
use tornado3_1_1_search.Web.Routing.Meaning.{IsDispatched, with_port, add_later}
use tornado3_1_1_search.Web.Routing.Order.{call-IsFirst}

-- `.*$` matches every text, another pattern the text before its `$`.
small_match : Bytes → Bytes → Option (List (Option Bytes))
small_match pattern text =
    if bytes_eq pattern dot_star_dollar_text
    then some []
    else if bytes_eq pattern (text ++ 36 ∷ [])
    then some []
    else none

abbrev small_regex : Bytes → Regex
small_regex pattern = record {
  pattern = pattern;
  groups = 0;
  groupindex = [];
  match_text = small_match pattern;
}

abbrev small_library : Library
small_library = record {
  compile = λ pattern. some (small_regex pattern);
  import_object = λ name. none;
  url_unescape = λ text. text;
  url_escape = λ text. text;
  format_other = λ text args. none;
}

-- `/a` of every host, and `/a` of the host `h`.
abbrev own_route : Route
own_route = pair (47 ∷ 97 ∷ []) (class 1)

abbrev host_routes : List (Bytes × List Route)
host_routes = ((104 ∷ []), pair (47 ∷ 97 ∷ []) (class 2) ∷ []) ∷ []

abbrev to_host : RoutedRequest
to_host = record { host = 72 ∷ 58 ∷ 56 ∷ 48 ∷ []; path = 47 ∷ 97 ∷ []; has_real_ip = false }

abbrev application : Application
application = add_later small_library host_routes (init small_library (100 ∷ []) (own_route ∷ [])).0

abbrev host_spec : Spec
host_spec = record {
  regex = small_regex (47 ∷ 97 ∷ 36 ∷ []);
  handler_class = 2;
  kwargs = [];
  name = none;
}

call-application : call small_library application to_host ≡ handler host_spec [] []
unfolding call add_handlers init small_match lower
call-application = refl

abbrev own_spec : Spec
own_spec = record {
  regex = small_regex (47 ∷ 97 ∷ 36 ∷ []);
  handler_class = 1;
  kwargs = [];
  name = none;
}

call-IsFirst_example :
    IsDispatched small_library
      (104 ∷ [])
      (47 ∷ 97 ∷ [])
      (own_route ∷ [])
      host_routes
      (call small_library application to_host)
unfolding bytes_eq lower
call-IsFirst_example =
    call-IsFirst small_library (100 ∷ []) (104 ∷ []) own_route [] own_spec host_routes to_host
      (small_regex dot_star_dollar_text) (with_port (72 ∷ []) (56 ∷ 48 ∷ []) (refl, tt)) refl refl
      (unfold small_match in refl) (unfold spec_of in refl)

-- `/p/([0-9]+)/e`
abbrev page_regex : Regex
page_regex = record {
  pattern = 47 ∷ 112 ∷ 47 ∷ 40 ∷ 91 ∷ 48 ∷ 45 ∷ 57 ∷ 93 ∷ 43 ∷ 41 ∷ 47 ∷ 101 ∷ 36 ∷ [];
  groups = 1;
  groupindex = [];
  match_text = λ text. none;
}

abbrev page_spec : Spec
page_spec = record {
  regex = page_regex;
  handler_class = 3;
  kwargs = [];
  name = some (112 ∷ 97 ∷ 103 ∷ 101 ∷ []);
}

abbrev page_parts : List Part
page_parts = ((91 ∷ 48 ∷ 45 ∷ 57 ∷ 93 ∷ 43 ∷ []), (47 ∷ 101 ∷ []), (55 ∷ [])) ∷ []

-- The path `/p/7/e`
reverse-page :
    reverse small_library page_spec ((55 ∷ []) ∷ []) ≡ ok (47 ∷ 112 ∷ 47 ∷ 55 ∷ 47 ∷ 101 ∷ [])
unfolding reverse
reverse-page = refl

reverse-fills_example :
    reverse small_library page_spec (map (λ part. part.2) page_parts)
    ≡ ok ((47 ∷ 112 ∷ 47 ∷ []) ++ filled (λ text. text) page_parts)
unfolding starts_with
reverse-fills_example =
    reverse-fills small_library page_spec (47 ∷ 112 ∷ 47 ∷ []) page_parts refl refl refl
      ((refl, (refl, refl)), ((refl, (refl, refl)), ((refl, (refl, refl)), tt)))
      (
        (
          (
            (refl, refl),
            ((refl, refl), ((refl, refl), ((refl, refl), ((refl, refl), ((refl, refl), tt))))),
          ),
          ((refl, (refl, refl)), ((refl, (refl, refl)), tt)),
        ),
        tt,
      )

-- The backslash of an escaped dot stays in the path.
abbrev dot_spec : Spec
dot_spec = record {
  regex = small_regex (47 ∷ 97 ∷ 92 ∷ 46 ∷ 98 ∷ 36 ∷ []);
  handler_class = 4;
  kwargs = [];
  name = none;
}

reverse-dot : reverse small_library dot_spec [] ≡ ok (47 ∷ 97 ∷ 92 ∷ 46 ∷ 98 ∷ [])
unfolding reverse
reverse-dot = refl
