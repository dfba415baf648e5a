-- ===== src/Base/Keys.antt =====
-- Texts as keys: membership, lists without repetition, and association lists.
use Prim.Native.String.{String}
use mathlib.Core.Path.{◌≡◌, refl}
use mathlib.Core.Bool.{Bool, false, ◌||◌}
use mathlib.Core.List.{List, [], ◌∷◌, ◌++◌}
use mathlib.Core.Option.{Option, none, some}
use native.Mathlib.Omega.{arith}
use text.Mathlib.Text.{◌==◌ as str_eq}
use text.Mathlib.TextEquality.{eq_iff}
use agent_speak.Base.Tests.{if◌then◌else◌}

-- `list.includes(key)`
abbrev pub includes : List String → String → Bool
includes [] k = false
includes (x ∷ xs) k = str_eq x k || includes xs k

abbrev pub Distinct : List String → Type 0
Distinct [] = Unit
Distinct (x ∷ xs) = (includes xs x ≡ false) × Distinct xs

pub includes-append :
    (xs ys : List String) (k : String) → includes (xs ++ ys) k ≡ (includes xs k || includes ys k)
includes-append [] ys k = refl
includes-append (x ∷ xs) ys k = ground (arith, includes-append xs ys k)

pub Distinct-append_one :
    (xs : List String) (k : String) → Distinct xs → includes xs k ≡ false → Distinct (xs ++ k ∷ [])
Distinct-append_one [] k d h = (refl, tt)
Distinct-append_one (x ∷ xs) k d h =
    ground
      (arith, includes-append xs (k ∷ []) x, eq_iff k x, eq_iff x k, Distinct-append_one xs k d.1)

module _ {ℓ} {V : Type ℓ} where
  abbrev pub lookup : String → List (String × V) → Option V
  lookup k [] = none
  lookup k ((j, v) ∷ m) = if str_eq j k then some v else lookup k m

  -- `map.set(key, value)`: an existing key keeps its place, a new one goes to the end.
  abbrev pub insert : String → V → List (String × V) → List (String × V)
  insert k v [] = (k, v) ∷ []
  insert k v ((j, w) ∷ m) = if str_eq j k then (k, v) ∷ m else (j, w) ∷ insert k v m

  pub lookup-insert :
      (written asked : String) (value : V) (entries : List (String × V))
      → lookup asked (insert written value entries)
        ≡ (if str_eq written asked then some value else lookup asked entries)
  lookup-insert written asked value [] = refl
  lookup-insert written asked value ((first, held) ∷ rest) = ground (
    arith,
    lookup-insert written asked value rest,
    eq_iff first asked,
    eq_iff first written,
    eq_iff written asked,
  )
