-- ===== src/Prelude/Assoc.antt =====
-- A JavaScript object used as a dictionary, and a Map: an association list with string keys.
use Prim.Native.String.{String}
use mathlib.Core.Path.{◌≡◌, refl}
use mathlib.Core.Option.{Option, none, some}
use mathlib.Core.List.{List, [], ◌∷◌}
use native.Mathlib.Omega.{arith}
use text.Mathlib.Text.{◌==◌ as str_eq}
use text.Mathlib.TextEquality.{eq_iff}
use octeam.Prelude.Tests.{if◌then◌else◌}

module _ {ℓ} {V : Type ℓ} where
  -- `object[key]`
  unfoldable pub lookup : String → List (String × V) → Option V
  lookup key [] = none
  lookup key ((old, value) ∷ entries) =
      let later = lookup key entries in if str_eq old key then some value else later

  -- `object[key] = value`: an old key keeps its place.
  unfoldable pub insert : String → V → List (String × V) → List (String × V)
  insert key value [] = (key, value) ∷ []
  insert key value (entry ∷ entries) =
      let later = insert key value entries in
      if str_eq entry.0 key then (key, value) ∷ entries else entry ∷ later

  -- `delete object[key]`
  unfoldable pub erase : String → List (String × V) → List (String × V)
  erase key [] = []
  erase key (entry ∷ entries) =
      let later = erase key entries in if str_eq entry.0 key then later else entry ∷ later

  pub lookup-insert :
      (key other : String) (value : V) (entries : List (String × V))
      → lookup other (insert key value entries)
        ≡ (if str_eq key other then some value else lookup other entries)
  unfolding lookup insert
  lookup-insert key other value [] = refl
  lookup-insert key other value ((old, w) ∷ entries) = ground (
    arith,
    lookup-insert key other value entries,
    eq_iff old key,
    eq_iff old other,
    eq_iff key other,
  )

  pub lookup-erase :
      (key other : String) (entries : List (String × V))
      → lookup other (erase key entries) ≡ (if str_eq key other then none else lookup other entries)
  unfolding lookup erase
  lookup-erase key other [] = ground arith
  lookup-erase key other ((old, w) ∷ entries) =
      ground
        (arith, lookup-erase key other entries, eq_iff old key, eq_iff old other, eq_iff key other)
