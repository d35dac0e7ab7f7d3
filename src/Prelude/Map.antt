-- ===== src/Prelude/Map.antt =====
-- Go's `map` as an association list: lookup, assignment, `delete`. No program code here.
use mathlib.Core.Path.{◌≡◌, refl}
use mathlib.Core.Option.{Option, none, some}
use mathlib.Core.List.{List, [], ◌∷◌}
use native.Mathlib.Omega.{arith}
use sampmail.Prelude.Tests.{if◌then◌else◌}
use sampmail.Prelude.Equality.{Eq, ◌==◌, ==_iff}

-- An entry is a key with its value; a key that is assigned again keeps its place.
module _ {ℓ} {Key : Type ℓ} {Value : Type ℓ} ⦃keys : Eq Key⦄ where
  -- v, ok := m[k]
  unfoldable pub lookup : Key → List (Key × Value) → Option Value
  lookup key [] = none
  lookup key ((here, value) ∷ rest) = if here == key then some value else lookup key rest

  -- m[k] = v
  unfoldable pub insert : Key → Value → List (Key × Value) → List (Key × Value)
  insert key new [] = (key, new) ∷ []
  insert key new ((here, old) ∷ rest) =
      let later = insert key new rest in
      if here == key then (key, new) ∷ rest else (here, old) ∷ later

  -- delete(m, k)
  unfoldable pub remove : Key → List (Key × Value) → List (Key × Value)
  remove key [] = []
  remove key ((here, old) ∷ rest) =
      let later = remove key rest in if here == key then later else (here, old) ∷ later

  pub lookup-insert :
      (key asked : Key) (new : Value) (entries : List (Key × Value))
      → lookup asked (insert key new entries)
        ≡ (if key == asked then some new else lookup asked entries)
  unfolding lookup insert
  lookup-insert key asked new [] = refl
  lookup-insert key asked new ((here, old) ∷ rest) = ground (
    arith,
    lookup-insert key asked new rest,
    ==_iff here asked,
    ==_iff key asked,
    ==_iff here key,
  )

  pub lookup-remove :
      (key asked : Key) (entries : List (Key × Value))
      → lookup asked (remove key entries) ≡ (if key == asked then none else lookup asked entries)
  unfolding lookup remove
  lookup-remove key asked [] = ground arith
  lookup-remove key asked ((here, old) ∷ rest) =
      ground
        (arith, lookup-remove key asked rest, ==_iff here key, ==_iff here asked, ==_iff key asked)

pub ruleset map_laws = (lookup-insert, lookup-remove)
