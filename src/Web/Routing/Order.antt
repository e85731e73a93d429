-- ===== src/Web/Routing/Order.antt =====
-- tornado/web.py: the routes are tried from the most precise host to the wildcard, each host's in
-- the order in which they were added.
use tornado3_1_1_search.Base.{
  ◌≡◌, refl, sym, ap, ◌∙◌, Bool, true, false, Option, none, some, List, [], ◌∷◌, ◌++◌, append_assoc,
  append-nil, arith, if◌then◌else◌, if_intro, ◌≢◌, ◌==◌, map, lower, split, split-last, split-piece,
  Bytes, is_empty, is_some, dot_star_dollar_text, ends_with,
}
use tornado3_1_1_search.Web.Routing.{
  Result, ok, raised, Error, spec_of, add_spec, Library, Regex, Spec, Group, Application, Route,
  insert_group, add_group, add_handlers, add_specs, init, with_end,
}
use tornado3_1_1_search.Web.Routing.Dispatch.{
  RoutedRequest, Chosen, lower_host, matches, get_host_handlers, choose, choose_or, find_spec,
  call_specs, call,
}
use tornado3_1_1_search.Web.Routing.Meaning.{
  add_later, AreTaken, none_left, stopped, taken, AreHosted, no_calls, not_compiled, other_host,
  same_host, IsHostOf, plain, with_port, IsHandled, no_groups, unnamed, named, IsFirst, found,
  missed, IsDispatched,
}

-- The groups that the calls lead to.
abbrev pub group_of : Library → Option Regex → List Route → List Group
group_of library none routes = []
group_of library (some host) routes =
    record { host = host; specs = (add_specs library routes).0 } ∷ []

abbrev pub groups_of : Library → List (Bytes × List Route) → List Group
groups_of library [] = []
groups_of library (added ∷ rest) =
    group_of library (library.compile (with_end added.0)) added.1 ++ groups_of library rest

map-lower-append : (s t : Bytes) → map lower (s ++ t) ≡ map lower s ++ map lower t
map-lower-append [] t = refl
map-lower-append (c ∷ s) t = ap (λ r. lower c ∷ r) (map-lower-append s t)

lower_host-IsHostOf : (text host : Bytes) → IsHostOf text host → lower_host text ≡ host
unfolding lower_host lower
lower_host-IsHostOf _ _ (plain s h) =
    ap (λ (p : Bytes × List Bytes). p.0) (split-last 58 (map lower s) h)
lower_host-IsHostOf _ _ (with_port s port h) =
    ap (λ t. (split 58 t).0) (map-lower-append s (58 ∷ port))
    ∙ ap (λ (p : Bytes × List Bytes). p.0) (split-piece 58 (map lower s) (map lower port) h)

insert-wildcard :
    (group wild : Group) (front : List Group)
    → wild.host.pattern ≡ dot_star_dollar_text
    → insert_group group (front ++ wild ∷ []) ≡ front ++ group ∷ wild ∷ []
unfolding insert_group
insert-wildcard group wild [] e = rw e refl
insert-wildcard group wild (old ∷ []) e = ap (λ rest. old ∷ rest) (insert-wildcard group wild [] e)
insert-wildcard group wild (old ∷ next ∷ front) e =
    ap (λ rest. old ∷ rest) (insert-wildcard group wild (next ∷ front) e)

pick-append :
    (b : Bool) (own rest xs ys : List Spec)
    → rest ≡ xs ++ ys
    → (if b then own ++ rest else rest) ≡ (if b then own ++ xs else xs) ++ ys
pick-append true own rest xs ys e = rw e (sym (append_assoc own xs ys))
pick-append false own rest xs ys e = e

matches-append :
    (host : Bytes) (xs ys : List Group)
    → matches host (xs ++ ys) ≡ matches host xs ++ matches host ys
unfolding matches
matches-append host [] ys = refl
matches-append host (x ∷ xs) ys =
    pick-append (is_some (x.host.match_text host)) x.specs (matches host (xs ++ ys))
      (matches host xs) (matches host ys) (matches-append host xs ys)

module _ (library : Library) where
  add_group-wildcard :
      (compiled : Option Regex) (routes : List Route) (app : Application) (front : List Group)
      (wild : Group)
      → wild.host.pattern ≡ dot_star_dollar_text
      → app.handlers ≡ front ++ wild ∷ []
      → (add_group library compiled routes app).0.handlers
        ≡ (front ++ group_of library compiled routes) ++ wild ∷ []
  unfolding add_group
  add_group-wildcard none routes app front wild p e =
      e ∙ ap (λ groups. groups ++ wild ∷ []) (sym (append-nil front))
  add_group-wildcard (some host) routes app front wild p e =
      let group : Group = record { host = host; specs = (add_specs library routes).0 } in
      ap (insert_group group) e
      ∙ (insert-wildcard group wild front p ∙ sym (append_assoc front (group ∷ []) (wild ∷ [])))

  add_later-wildcard :
      (added : List (Bytes × List Route)) (app : Application) (front : List Group) (wild : Group)
      → wild.host.pattern ≡ dot_star_dollar_text
      → app.handlers ≡ front ++ wild ∷ []
      → (add_later library added app).handlers ≡ (front ++ groups_of library added) ++ wild ∷ []
  add_later-wildcard [] app front wild p e =
      e ∙ ap (λ groups. groups ++ wild ∷ []) (sym (append-nil front))
  add_later-wildcard (one ∷ rest) app front wild p e =
      let mine = group_of library (library.compile (with_end one.0)) one.1 in
      add_later-wildcard rest (add_handlers library one.0 one.1 app).0 (front ++ mine) wild p (
        unfold add_handlers in
        add_group-wildcard (library.compile (with_end one.0)) one.1 app front wild p e)
      ∙ ap (λ groups. groups ++ wild ∷ []) (append_assoc front mine (groups_of library rest))

  choose-IsHandled :
      (spec : Spec) (values : List (Option Bytes))
      → IsHandled library spec values (choose library spec values)
  unfolding choose
  choose-IsHandled spec values =
      if_intro (IsHandled library spec values) (spec.regex.groups == 0) _ _
        (λ e. no_groups (ground (arith, e)))
        (λ e.
          let n : spec.regex.groups ≢ 0 = λ z. ground (arith, e, z) in
          if_intro (IsHandled library spec values) (is_empty spec.regex.groupindex) _ _
            (λ f. unnamed n f) (λ f. named n f))

  add_spec-AreTaken :
      (route : Route) (routes : List Route) (r : Result Spec) (rest : List Spec × Option Error)
      → spec_of library route ≡ r
      → AreTaken library routes rest.0
      → AreTaken library (route ∷ routes) (add_spec library r rest).0
  unfolding add_spec
  add_spec-AreTaken route routes (raised error) rest e h = stopped route routes error e
  add_spec-AreTaken route routes (ok spec) rest e h = taken route routes spec rest.0 e h

  add_specs-AreTaken : (routes : List Route) → AreTaken library routes (add_specs library routes).0
  unfolding add_specs
  add_specs-AreTaken [] = none_left
  add_specs-AreTaken (route ∷ routes) =
      add_spec-AreTaken route routes (spec_of library route) (add_specs library routes) refl
        (add_specs-AreTaken routes)

  module _ (host : Bytes) (pattern : Bytes) (routes : List Route) (rest : List (Bytes × List Route))
      (specs : List Spec) (h : AreHosted library host rest specs) where
    pick-AreHosted :
        (regex : Regex) (m : Option (List (Option Bytes)))
        → library.compile (with_end pattern) ≡ some regex
        → regex.match_text host ≡ m
        → AreHosted library host
            ((pattern, routes) ∷ rest)
            (if is_some m then (add_specs library routes).0 ++ specs else specs)
    pick-AreHosted regex none c m = other_host pattern routes rest specs regex c m h
    pick-AreHosted regex (some values) c m =
        same_host pattern routes rest (add_specs library routes).0 specs regex values c m
          (add_specs-AreTaken routes) h

  group_of-AreHosted :
      (host pattern : Bytes) (routes : List Route) (rest : List (Bytes × List Route))
      (compiled : Option Regex)
      → library.compile (with_end pattern) ≡ compiled
      → AreHosted library host rest (matches host (groups_of library rest))
      → AreHosted library host
          ((pattern, routes) ∷ rest)
          (matches host (group_of library compiled routes ++ groups_of library rest))
  unfolding matches
  group_of-AreHosted host pattern routes rest none c h =
      not_compiled pattern routes rest (matches host (groups_of library rest)) c h
  group_of-AreHosted host pattern routes rest (some regex) c h =
      pick-AreHosted host pattern routes rest (matches host (groups_of library rest)) h regex
        (regex.match_text host) c refl

  groups_of-AreHosted :
      (host : Bytes) (added : List (Bytes × List Route))
      → AreHosted library host added (matches host (groups_of library added))
  unfolding matches
  groups_of-AreHosted host [] = no_calls
  groups_of-AreHosted host ((pattern, routes) ∷ rest) =
      group_of-AreHosted host pattern routes rest (library.compile (with_end pattern)) refl
        (groups_of-AreHosted host rest)

  first-not_empty :
      (route : Route) (routes : List Route) (spec : Spec)
      → spec_of library route ≡ ok spec
      → is_empty (add_specs library (route ∷ routes)).0 ≡ false
  unfolding add_specs add_spec
  first-not_empty route routes spec e = rw e refl

  push_front :
      (path : Bytes) (spec : Spec) (specs : List Spec) (chosen : Chosen)
      → spec.regex.match_text path ≡ none
      → IsFirst library path specs chosen
      → IsFirst library path (spec ∷ specs) chosen
  push_front path spec _ _ e (found front one back values chosen h m g) =
      found (spec ∷ front) one back values chosen (e, h) m g
  push_front path spec _ _ e (missed specs h) = missed (spec ∷ specs) (e, h)

  choose_or-IsFirst :
      (path : Bytes) (spec : Spec) (specs : List Spec) (values : Option (List (Option Bytes)))
      → spec.regex.match_text path ≡ values
      → IsFirst library path specs (find_spec library path specs)
      → IsFirst library path
          (spec ∷ specs)
          (choose_or library spec values (find_spec library path specs))
  unfolding choose_or
  choose_or-IsFirst path spec specs none e h = push_front path spec specs _ e h
  choose_or-IsFirst path spec specs (some values) e h =
      found [] spec specs values (choose library spec values) tt e (choose-IsHandled spec values)

  find_spec-IsFirst :
      (path : Bytes) (specs : List Spec) → IsFirst library path specs (find_spec library path specs)
  unfolding find_spec
  find_spec-IsFirst path [] = missed [] tt
  find_spec-IsFirst path (spec ∷ specs) =
      choose_or-IsFirst path spec specs (spec.regex.match_text path) refl
        (find_spec-IsFirst path specs)

  last_group-matches :
      (host : Bytes) (front : List Group) (wild : Group)
      → is_some (wild.host.match_text host) ≡ true
      → matches host (front ++ wild ∷ []) ≡ matches host front ++ wild.specs
  unfolding matches
  last_group-matches host front wild e =
      matches-append host front (wild ∷ [])
      ∙ ap (λ specs. matches host front ++ specs) (rw e (append-nil wild.specs))

  init-handlers :
      (default_host : Bytes) (route : Route) (routes : List Route) (wild : Regex)
      → library.compile dot_star_dollar_text ≡ some wild
      → (init library default_host (route ∷ routes)).0.handlers
        ≡ record { host = wild; specs = (add_specs library (route ∷ routes)).0 } ∷ []
  unfolding init add_handlers with_end ends_with add_group insert_group
  init-handlers default_host route routes wild e = rw e refl

  call_specs-IsFirst :
      (app : Application) (request : RoutedRequest) (specs : List Spec)
      → is_empty specs ≡ false
      → IsFirst library request.path specs (call_specs library app request specs)
  unfolding call_specs
  call_specs-IsFirst app request [] e = ground (arith, e)
  call_specs-IsFirst app request (spec ∷ specs) e = find_spec-IsFirst request.path (spec ∷ specs)

  hosted :
      (app : Application) (request : RoutedRequest) (specs : List Spec)
      → matches (lower_host request.host) app.handlers ≡ specs
      → is_empty specs ≡ false
      → get_host_handlers app request ≡ specs
  unfolding get_host_handlers
  hosted app request specs e n = rw e (rw n refl)

  append-not_empty : (xs ys : List Spec) → is_empty ys ≡ false → is_empty (xs ++ ys) ≡ false
  append-not_empty [] ys e = e
  append-not_empty (x ∷ xs) ys e = refl

-- An application is made with routes, of which the first is taken, and calls of `add_handlers`
-- follow, whatever they raise. If `.*$` matches the host of a request, which is its text in small
-- letters without a port, then the handler is that of the first spec whose pattern matches the
-- path, and that of the error 404 if there is none. The specs are those of the calls whose pattern
-- matches the host, in the order of the calls and of their routes, up to a route that raises, and
-- those of the constructor come last.
pub call-IsFirst :
    (library : Library) (default_host host : Bytes) (route : Route) (routes : List Route)
    (spec : Spec) (added : List (Bytes × List Route)) (request : RoutedRequest) (wild : Regex)
    → IsHostOf request.host host
    → library.compile dot_star_dollar_text ≡ some wild
    → wild.pattern ≡ dot_star_dollar_text
    → is_some (wild.match_text host) ≡ true
    → spec_of library route ≡ ok spec
    → IsDispatched library host request.path (route ∷ routes) added (
        call library
          (add_later library added (init library default_host (route ∷ routes)).0)
          request)
unfolding call
call-IsFirst library default_host host route routes spec added request wild i c p m t =
    let own : Group = record { host = wild; specs = (add_specs library (route ∷ routes)).0 } in
    let first = (init library default_host (route ∷ routes)).0 in
    let app = add_later library added first in
    let groups = groups_of library added in
    let specs = matches host groups ++ own.specs in
    let some_specs : is_empty specs ≡ false =
      append-not_empty library (matches host groups) own.specs
        (first-not_empty library route routes spec t) in
    let all : matches host app.handlers ≡ specs =
      ap (matches host) (
        add_later-wildcard library added first [] own p
          (init-handlers library default_host route routes wild c))
      ∙ last_group-matches library host groups own m in
    let here : matches (lower_host request.host) app.handlers ≡ specs =
      ap (λ h. matches h app.handlers) (lower_host-IsHostOf request.host host i) ∙ all in
    record {
      hosted_specs = matches host groups;
      own_specs = own.specs;
      of_host = groups_of-AreHosted library host added;
      of_constructor = add_specs-AreTaken library (route ∷ routes);
      first =
          rw (hosted library app request specs here some_specs)
            (call_specs-IsFirst library app request specs some_specs);
    }
