-- ===== src/Prelude/Names.antt =====
-- Lists of names without repetitions.
use Prim.Native.String.{String}
use mathlib.Core.Path.{◌≡◌, refl}
use mathlib.Core.Bool.{not, ◌&&◌}
use mathlib.Core.List.{List, [], ◌∷◌}
use native.Mathlib.Omega.{arith}
use text.Mathlib.Text.{◌==◌ as ◌is◌}
use text.Mathlib.TextEquality.{eq_iff}
use banking_ai_platform.Prelude.Lists.{keep}
use banking_ai_platform.Prelude.Text.{contains}

-- `list(dict.fromkeys(names))`
unfoldable pub from_keys : List String → List String
from_keys [] = []
from_keys (name ∷ names) = name ∷ keep (λ other. not (other is name)) (from_keys names)

contains-keep :
    (names : List String) (name other : String)
    → contains (keep (λ n. not (n is name)) names) other
      ≡ (contains names other && not (other is name))
contains-keep [] name other = refl
contains-keep (n ∷ names) name other =
    ground (arith, eq_iff n name, eq_iff n other, eq_iff other name, contains-keep names name other)

pub contains-from_keys :
    (names : List String) (name : String) → contains (from_keys names) name ≡ contains names name
unfolding from_keys
contains-from_keys [] name = refl
contains-from_keys (n ∷ names) name = ground (
  arith,
  eq_iff n name,
  eq_iff name n,
  contains-from_keys names name,
  contains-keep (from_keys names) n name,
)
