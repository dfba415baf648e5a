-- ===== src/Base/Json.antt =====
-- The values that the language's `unknown` ranges over where the code inspects them: parsed JSON,
-- and `undefined` for a missing field. A finite number is the fraction `n / (d + 1)`.
use Prim.Native.Nat.{ℕ, suc, ◌*◌}
use Prim.Native.String.{String}
use mathlib.Core.Bool.{Bool, true, false}
use mathlib.Core.List.{List, [], ◌∷◌}
use text.Mathlib.Text.{◌==◌ as str_eq}
use agent_speak.Base.Tests.{ltb, leb, if◌then◌else◌}

pub data Number : Type 0 where
  -- n / (d + 1) and -n / (d + 1)
  fraction : ℕ → ℕ → Number
  minus : ℕ → ℕ → Number
  infinity : Number
  minus_infinity : Number
  nan : Number

abbrev pub integer : ℕ → Number
integer n = fraction n 0

abbrev pub is_finite : Number → Bool
is_finite (fraction n d) = true
is_finite (minus n d) = true
is_finite _ = false

-- `x <= k` and `x > k` for a natural number k; every comparison with NaN fails.
abbrev pub le_nat : Number → ℕ → Bool
le_nat (fraction n d) k = leb n (k * suc d)
le_nat (minus n d) k = true
le_nat infinity k = false
le_nat minus_infinity k = true
le_nat nan k = false

abbrev pub gt_nat : Number → ℕ → Bool
gt_nat (fraction n d) k = ltb (k * suc d) n
gt_nat (minus n d) k = false
gt_nat infinity k = true
gt_nat minus_infinity k = false
gt_nat nan k = false

-- `x < 0`
abbrev pub is_negative : Number → Bool
is_negative (minus (suc n) d) = true
is_negative minus_infinity = true
is_negative _ = false

mutual
  pub data Value : Type 0 where
    undefined : Value
    null : Value
    boolean : Bool → Value
    number : Number → Value
    string : String → Value
    array : Items → Value
    object : Fields → Value

  pub data Items : Type 0 where
    nil : Items
    cons : Value → Items → Items

  -- The own properties in the order of `Object.entries`, each key once.
  pub data Fields : Type 0 where
    end : Fields
    field : String → Value → Fields → Fields

-- `value.key` on an object's own properties.
abbrev pub get : String → Fields → Value
get k end = undefined
get k (field j v fs) = if str_eq j k then v else get k fs

abbrev pub keys : Fields → List String
keys end = []
keys (field k v fs) = k ∷ keys fs

abbrev pub is_string : Value → Bool
is_string (string s) = true
is_string _ = false

abbrev pub is_null : Value → Bool
is_null null = true
is_null _ = false

-- `value === "text"`
abbrev pub is_text : Value → String → Bool
is_text (string s) t = str_eq s t
is_text _ t = false
