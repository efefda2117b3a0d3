-- ===== src/Prelude/Maps.antt =====
-- A JavaScript `Map` with text keys: entries in the order of their first insertion.
use Prim.Native.String.{String}
use text.Mathlib.Text.{◌==◌ as str_eq}
use text.Mathlib.TextEquality.{eq_iff}
use stonkfolio.Prelude.Tests.{if◌then◌else◌}
use mathlib.Core.Path.{◌≡◌, refl}
use mathlib.Core.Bool.{Bool, false, ◌||◌}
use mathlib.Core.List.{List, [], ◌∷◌}
use mathlib.Core.Option.{Option, none, some}
use native.Mathlib.Omega.{arith}

-- `set.has(key)` on a `Set` kept as the list of its entries.
unfoldable pub has : String → List String → Bool
has k [] = false
has k (j ∷ rest) = str_eq j k || has k rest

module _ {ℓ} {V : Type ℓ} where
  -- `map.set(key, value)`: a key that is there keeps its place.
  unfoldable pub insert : (key : String) (value : V) → List (String × V) → List (String × V)
  insert key value [] = (key, value) ∷ []
  insert key value ((name, old) ∷ entries) =
      if str_eq name key then (key, value) ∷ entries else (name, old) ∷ insert key value entries

  -- `map.get(key)`
  unfoldable pub lookup : (key : String) → List (String × V) → Option V
  lookup key [] = none
  lookup key ((name, value) ∷ entries) =
      let later = lookup key entries in if str_eq name key then some value else later

  -- What is found after a write.
  pub lookup-insert :
      (written key : String) (value : V) (entries : List (String × V))
      → lookup key (insert written value entries)
        ≡ (if str_eq written key then some value else lookup key entries)
  unfolding insert lookup
  lookup-insert written key value [] = refl
  lookup-insert written key value ((name, old) ∷ entries) = ground (
    lookup-insert written key value entries,
    eq_iff name key,
    eq_iff name written,
    eq_iff written key,
    arith,
  )
