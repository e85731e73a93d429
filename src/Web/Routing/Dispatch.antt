-- ===== src/Web/Routing/Dispatch.antt =====
-- tornado/web.py: how `Application.__call__` finds the handler of a request.
use tornado3_1_1_search.Base.{
  slash_text, http_colon_slash_slash_text, ℕ, Bool, not, ◌&&◌, ◌==◌, Option, none, some, List, [],
  ◌∷◌, ◌++◌, if◌then◌else◌, Bytes, is_empty, map, lower, split, Dict, is_some,
}
use mathlib.Core.Option
use tornado3_1_1_search.Web.Routing.{Library, Spec, Group, Application}

-- What a request is routed by: its host, its path, and whether it has the header `X-Real-Ip`.
pub record RoutedRequest : Type 0 where
  pub host : Bytes
  pub path : Bytes
  pub has_real_ip : Bool

-- The handler that `__call__` makes, and the arguments that it is executed with.
pub data Chosen : Type 0 where
  redirect_handler : Bytes → Chosen
  error_handler : ℕ → Chosen
  handler : Spec → List (Option Bytes) → Dict (Option Bytes) → Chosen

unfoldable pub lower_host : Bytes → Bytes
unfolding split
lower_host host = (split 58 (map lower host)).0

unfoldable pub matches : Bytes → List Group → List Spec
matches host [] = []
matches host (group ∷ groups) =
    let rest = matches host groups in
    if is_some (group.host.match_text host) then group.specs ++ rest else rest

unfoldable pub get_host_handlers : Application → RoutedRequest → List Spec
unfolding matches lower_host
get_host_handlers app request =
    let found = matches (lower_host request.host) app.handlers in
    if is_empty found && not request.has_real_ip
    then matches app.default_host app.handlers
    else found

unfoldable pub groupdict : List Bytes → List (Option Bytes) → Dict (Option Bytes)
groupdict [] values = []
groupdict (name ∷ names) [] = []
groupdict (name ∷ names) (value ∷ values) = (name, value) ∷ groupdict names values

module _ (library : Library) where
  unfoldable pub choose : Spec → List (Option Bytes) → Chosen
  unfolding groupdict
  choose spec values =
      let unquoted = map (Option.map library.url_unescape) values in
      if spec.regex.groups == 0
      then handler spec [] []
      else if is_empty spec.regex.groupindex
      then handler spec unquoted []
      else handler spec [] (groupdict spec.regex.groupindex unquoted)

  unfoldable pub choose_or : Spec → Option (List (Option Bytes)) → Chosen → Chosen
  unfolding choose
  choose_or spec none rest = rest
  choose_or spec (some values) rest = choose spec values

  -- The loop over the specs
  unfoldable pub find_spec : Bytes → List Spec → Chosen
  unfolding choose_or
  find_spec path [] = error_handler 404
  find_spec path (spec ∷ specs) = choose_or spec (spec.regex.match_text path) (find_spec path specs)

  unfoldable pub call_specs : Application → RoutedRequest → List Spec → Chosen
  unfolding find_spec
  call_specs app request [] =
      redirect_handler (http_colon_slash_slash_text ++ (app.default_host ++ slash_text))
  call_specs app request (spec ∷ specs) = find_spec request.path (spec ∷ specs)

  unfoldable pub call : Application → RoutedRequest → Chosen
  unfolding call_specs get_host_handlers
  call app request = call_specs app request (get_host_handlers app request)
