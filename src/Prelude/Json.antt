-- ===== src/Prelude/Json.antt =====
-- Values of a Python `dict[str, object]`, as the payloads, results and contexts hold them.
use mathlib.Core.Path.{◌≡◌, refl}
use Prim.Native.Nat.{ℕ}
use Prim.Native.String.{String}
use mathlib.Core.Bool.{Bool}
use mathlib.Core.Option.{Option, none, some}
use mathlib.Core.List.{List, [], ◌∷◌, map}
use text.Mathlib.Text.{◌==◌}
use native.Mathlib.Omega.{arith}
use text.Mathlib.TextEquality.{eq_iff}
use banking_ai_platform.Prelude.Tests.{if◌then◌else◌}

-- A float stands by its printed form. `object` is any other object, by its `str()`.
mutual
  pub data Value : Type 0 where
    null : Value
    bool : Bool → Value
    int : ℕ → Value
    float : String → Value
    str : String → Value
    array : Items → Value
    dict : Fields → Value
    object : String → Value

  pub data Items : Type 0 where
    nil : Items
    item : Value → Items → Items

  pub data Fields : Type 0 where
    end : Fields
    field : String → Value → Fields → Fields

abbrev pub texts : List String → Items
texts [] = nil
texts (s ∷ ss) = item (str s) (texts ss)

-- A dictionary, in insertion order. A write to a key that is there keeps its place.
module _ {ℓ} {V : Type ℓ} where
  -- `entries.get(key)`
  unfoldable pub lookup : (key : String) (entries : List (String × V)) → Option V
  lookup key [] = none
  lookup key ((name, value) ∷ rest) =
      let later = lookup key rest in if name == key then some value else later

  -- `entries[key] = value`
  unfoldable pub insert : (key : String) (value : V) → List (String × V) → List (String × V)
  insert key value [] = (key, value) ∷ []
  insert key value ((name, old) ∷ rest) =
      let later = insert key value rest in
      if name == key then (key, value) ∷ rest else (name, old) ∷ later

  pub lookup-insert :
      (key j : String) (value : V) (entries : List (String × V))
      → lookup j (insert key value entries) ≡ (if key == j then some value else lookup j entries)
  unfolding lookup insert
  lookup-insert key j value [] = refl
  lookup-insert key j value ((name, old) ∷ rest) =
      ground (arith, eq_iff name key, eq_iff key j, eq_iff name j, lookup-insert key j value rest)

  -- Writing what is there changes nothing.
  pub insert_same :
      (key : String) (value : V) (entries : List (String × V))
      → lookup key entries ≡ some value
      → insert key value entries ≡ entries
  unfolding lookup insert
  insert_same key value [] h = ground arith
  insert_same key value ((name, old) ∷ rest) h =
      ground (arith, h, eq_iff name key, insert_same key value rest)

  abbrev pub keys : List (String × V) → List String
  keys = map (λ e. e.0)

abbrev pub Dict : Type 0
Dict = List (String × Value)
