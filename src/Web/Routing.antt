-- ===== src/Web/Routing.antt =====
-- tornado/web.py: the routes of an `Application`, and `URLSpec`. The compiled regular expressions
-- and the import of a class by its name are parameters; a class is known by a number.
pub mod Dispatch
pub mod Meaning
pub mod Order
pub mod Reverse
mod Tests
use tornado3_1_1_search.Base.{
  dot_star_dollar_text, dollar_text, ℕ, ◌-◌, leb, Bool, true, false, ◌==◌, ◌||◌, Option, none, some,
  List, [], ◌∷◌, ◌++◌, if◌then◌else◌, Bytes, bytes_eq, is_empty, length, map, lower, split,
  ends_with, Dict, set, lookup,
}
use mathlib.Core.Option

-- A compiled pattern: its text, the number of its groups, the names of the groups if they have
-- names, and `match`, which gives what each group matched.
pub record Regex : Type 0 where
  pub pattern : Bytes
  pub groups : ℕ
  pub groupindex : List Bytes
  pub match_text : Bytes → Option (List (Option Bytes))

-- `re.compile`, which may raise; `import_object`; the escapes of `escape` for the parts of a path;
-- the operator `%` from a conversion other than `%s` and `%%` on, without a result if it raises.
pub record Library : Type 0 where
  pub compile : Bytes → Option Regex
  pub import_object : Bytes → Option ℕ
  pub url_unescape : Bytes → Bytes
  pub url_escape : Bytes → Bytes
  pub format_other : Bytes → List Bytes → Option Bytes

pub record Spec : Type 0 where
  pub regex : Regex
  pub handler_class : ℕ
  pub kwargs : Dict Bytes
  pub name : Option Bytes

-- What is raised.
pub data Error : Type 0 where
  regex_error assertion_error import_error key_error format_error : Error

pub data Result {ℓ} (A : Type ℓ) : Type ℓ where
  ok : A → Result A
  raised : Error → Result A

-- A `$` is put behind a pattern without one.
unfoldable pub with_end : Bytes → Bytes
unfolding ends_with
with_end pattern = if ends_with dollar_text pattern then pattern else pattern ++ dollar_text

-- `URLSpec.__init__` once the pattern is compiled
unfoldable pub check_groups : ℕ → Dict Bytes → Option Bytes → Option Regex → Result Spec
check_groups handler_class kwargs name none = raised regex_error
check_groups handler_class kwargs name (some regex) =
    if is_empty regex.groupindex || (length regex.groupindex == regex.groups)
    then ok (record { regex = regex; handler_class = handler_class; kwargs = kwargs; name = name })
    else raised assertion_error

-- What the routes are written with: a class or its full name, and a route of two or three parts,
-- of another number of parts, or a `URLSpec`.
pub data Class : Type 0 where
  class : ℕ → Class
  class_name : Bytes → Class

pub data Route : Type 0 where
  pair : Bytes → Class → Route
  triple : Bytes → Class → Dict Bytes → Route
  other_length : Route
  url_spec : Spec → Route

pub record Group : Type 0 where
  pub host : Regex
  pub specs : List Spec

pub record Application : Type 0 where
  pub handlers : List Group
  pub named_handlers : Dict Spec
  pub default_host : Bytes

-- A group goes to the end, or before the last group if that is the wildcard.
unfoldable pub insert_group : Group → List Group → List Group
unfolding bytes_eq
insert_group group [] = group ∷ []
insert_group group (old ∷ []) =
    if bytes_eq old.host.pattern dot_star_dollar_text then group ∷ old ∷ [] else old ∷ group ∷ []
insert_group group (old ∷ next ∷ rest) = old ∷ insert_group group (next ∷ rest)

module _ (library : Library) where
  unfoldable pub new_spec : Bytes → ℕ → Dict Bytes → Option Bytes → Result Spec
  unfolding check_groups with_end
  new_spec pattern handler_class kwargs name =
      check_groups handler_class kwargs name (library.compile (with_end pattern))

  unfoldable pub import_class : Bytes → Dict Bytes → Option ℕ → Result Spec
  unfolding new_spec
  import_class pattern kwargs none = raised import_error
  import_class pattern kwargs (some handler_class) = new_spec pattern handler_class kwargs none

  unfoldable pub route_to : Bytes → Class → Dict Bytes → Result Spec
  unfolding import_class
  route_to pattern (class handler_class) kwargs = new_spec pattern handler_class kwargs none
  route_to pattern (class_name full_name) kwargs =
      import_class pattern kwargs (library.import_object full_name)

  unfoldable pub spec_of : Route → Result Spec
  unfolding route_to
  spec_of (pair pattern handler) = route_to pattern handler []
  spec_of (triple pattern handler kwargs) = route_to pattern handler kwargs
  spec_of other_length = raised assertion_error
  spec_of (url_spec spec) = ok spec

  -- The loop over the routes: the specs until one raises, and what it raises.
  unfoldable pub add_spec : Result Spec → List Spec × Option Error → List Spec × Option Error
  add_spec (raised error) rest = ([], some error)
  add_spec (ok spec) rest = (spec ∷ rest.0, rest.1)

  unfoldable pub add_specs : List Route → List Spec × Option Error
  unfolding add_spec spec_of
  add_specs [] = ([], none)
  add_specs (route ∷ routes) = add_spec (spec_of route) (add_specs routes)

  unfoldable pub set_name : Option Bytes → Spec → Dict Spec → Dict Spec
  unfolding set
  set_name none spec named = named
  set_name (some name) spec named = if is_empty name then named else set name spec named

  unfoldable pub name_specs : List Spec → Dict Spec → Dict Spec
  unfolding set_name
  name_specs [] named = named
  name_specs (spec ∷ specs) named = name_specs specs (set_name spec.name spec named)

  unfoldable pub add_group : Option Regex → List Route → Application → Application × Option Error
  unfolding insert_group add_specs name_specs
  add_group none routes app = (app, some regex_error)
  add_group (some host) routes app =
      let added = add_specs routes in
      let group : Group = record { host = host; specs = added.0 } in
      (
        (record app {
          handlers = insert_group group app.handlers;
          named_handlers = name_specs added.0 app.named_handlers;
        }),
        added.1,
      )

  unfoldable pub add_handlers : Bytes → List Route → Application → Application × Option Error
  unfolding add_group with_end
  add_handlers host_pattern host_handlers app =
      add_group (library.compile (with_end host_pattern)) host_handlers app

  abbrev empty_application : Bytes → Application
  empty_application default_host = record {
    handlers = [];
    named_handlers = [];
    default_host = default_host;
  }

  -- The constructor, once the routes of the static files are before the others
  unfoldable pub init : Bytes → List Route → Application × Option Error
  unfolding add_handlers
  init default_host [] = (empty_application default_host, none)
  init default_host (route ∷ routes) =
      add_handlers dot_star_dollar_text (route ∷ routes) (empty_application default_host)
