-- ===== src/Base/Dicts.antt =====
-- Dictionaries with texts as keys, in the order of insertion.
use mathlib.Core.Path.{◌≡◌, refl, ap, sym}
use mathlib.Core.Bool.{true}
use mathlib.Core.List.{List, [], ◌∷◌}
use mathlib.Core.Option.{Option, none, some}
use native.Mathlib.Omega.{arith}
use tornado3_1_1_search.Base.Tests.{if◌then◌else◌}
use tornado3_1_1_search.Base.ByteStrings.{Bytes, bytes_eq, bytes_eq→eq}

abbrev pub Dict {ℓ} : Type ℓ → Type ℓ
Dict V = List (Bytes × V)

bytes_eq_right : (j k e : Bytes) → bytes_eq k e ≡ true → bytes_eq j e ≡ bytes_eq j k
bytes_eq_right j k e h = ap (bytes_eq j) (sym (bytes_eq→eq k e h))

bytes_eq_left : (j k e : Bytes) → bytes_eq j k ≡ true → bytes_eq j e ≡ bytes_eq k e
bytes_eq_left j k e h = ap (λ x. bytes_eq x e) (bytes_eq→eq j k h)

module _ {ℓ} {V : Type ℓ} where
  unfoldable pub lookup : Bytes → Dict V → Option V
  lookup key [] = none
  lookup key (entry ∷ d) =
      let rest = lookup key d in if bytes_eq key entry.0 then some entry.1 else rest

  -- `d[key] = value`: an old key keeps its place.
  unfoldable pub set : Bytes → V → Dict V → Dict V
  set key value [] = (key, value) ∷ []
  set key value (entry ∷ d) =
      let rest = set key value d in
      if bytes_eq key entry.0 then (entry.0, value) ∷ d else entry ∷ rest

  -- `del d[key]`
  unfoldable pub remove : Bytes → Dict V → Dict V
  remove key [] = []
  remove key (entry ∷ d) =
      let rest = remove key d in if bytes_eq key entry.0 then rest else entry ∷ rest

  pub lookup-set :
      (j k : Bytes) (v : V) (d : Dict V)
      → lookup j (set k v d) ≡ (if bytes_eq j k then some v else lookup j d)
  unfolding lookup set
  lookup-set j k v [] = refl
  lookup-set j k v (entry ∷ d) =
      let rest = lookup-set j k v d in
      ground (arith, rest, bytes_eq_right j k entry.0, bytes_eq_left j k entry.0)

  pub lookup-remove :
      (j k : Bytes) (d : Dict V)
      → lookup j (remove k d) ≡ (if bytes_eq j k then none else lookup j d)
  unfolding lookup remove
  lookup-remove j k [] = ground arith
  lookup-remove j k (entry ∷ d) =
      let rest = lookup-remove j k d in
      ground (arith, rest, bytes_eq_right j k entry.0, bytes_eq_left j k entry.0)
