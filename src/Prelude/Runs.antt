-- ===== src/Prelude/Runs.antt =====
-- The runs of a text: characters that pass a test, between characters that do not.
use Prim.Native.Char.{Char}
use Prim.Native.String.append
use Prim.Native.String.{String}
use mathlib.Core.Path.{◌≡◌, refl, sym, ap, ◌∙◌}
use mathlib.Core.Logic.{inl, inr}
use mathlib.Core.Bool.{Bool, true, false}
use mathlib.Core.List.{List, [], ◌∷◌}
use native.Mathlib.Omega.{arith}
use banking_ai_platform.Prelude.Tests.{Bool-cases}
use banking_ai_platform.Prelude.Lists.{All}
use banking_ai_platform.Prelude.Text.{◌<>◌, is_empty, runs, glue, begins}

-- A text whose characters pass a test.
abbrev pub Passes : (Char → Bool) → String → Type 0
Passes p String.[] = Unit
Passes p (String.◌∷◌ c s) = (p c ≡ true) × Passes p s

-- A run: characters that pass, one at least.
abbrev pub IsRun : (Char → Bool) → String → Type 0
IsRun p s = (is_empty s ≡ false) × Passes p s

IsRun-glue :
    (p : Char → Bool) (b : Bool) (c : Char) (rs : List String)
    → p c ≡ true
    → All (IsRun p) rs
    → All (IsRun p) (glue b c rs)
IsRun-glue p true c [] h all = ((refl, (h, tt)), tt)
IsRun-glue p true c (r ∷ rs) h all = ((refl, (h, all.0.1)), all.1)
IsRun-glue p false c rs h all = ((refl, (h, tt)), all)

pub IsRun-runs : (p : Char → Bool) (s : String) → All (IsRun p) (runs p s)
unfolding runs
IsRun-runs p String.[] = tt
IsRun-runs p (String.◌∷◌ c s) = elim (Bool-cases (p c)) [
  | inl h ↦ rw h (IsRun-glue p (begins p s) c (runs p s) h (IsRun-runs p s))
  | inr h ↦ rw h (IsRun-runs p s)
]

runs-nil : (p : Char → Bool) → runs p "" ≡ []
unfolding runs
runs-nil p = refl

runs-first :
    (p : Char → Bool) (c : Char) (s : String)
    → p c ≡ true
    → runs p (String.◌∷◌ c s) ≡ glue (begins p s) c (runs p s)
unfolding runs
runs-first p c s h = rw h

runs-stop :
    (p : Char → Bool) (c : Char) (s : String) → p c ≡ false → runs p (String.◌∷◌ c s) ≡ runs p s
unfolding runs
runs-stop p c s h = rw h

-- A run is read as itself.
pub runs-run : (p : Char → Bool) (r : String) → IsRun p r → runs p r ≡ r ∷ []
runs-run p String.[] h = ground (arith, h)
runs-run p (String.◌∷◌ c String.[]) h = runs-first p c "" h.1.0 ∙ ap (glue false c) (runs-nil p)
runs-run p (String.◌∷◌ c (String.◌∷◌ d s)) h =
    runs-first p c (String.◌∷◌ d s) h.1.0
    ∙ ap (λ b. glue b c (runs p (String.◌∷◌ d s))) h.1.1.0
    ∙ ap (glue true c) (runs-run p (String.◌∷◌ d s) (refl, h.1.1))

-- A run before a character that does not pass.
pub runs-append :
    (p : Char → Bool) (r : String) (c : Char) (s : String)
    → IsRun p r
    → p c ≡ false
    → runs p (r <> String.◌∷◌ c s) ≡ r ∷ runs p s
runs-append p String.[] c s h stop = ground (arith, h)
runs-append p (String.◌∷◌ a String.[]) c s h stop =
    ap (runs p) (append.cons a "" (String.◌∷◌ c s))
    ∙ ap (λ t. runs p (String.◌∷◌ a t)) (append.nil (String.◌∷◌ c s))
    ∙ runs-first p a (String.◌∷◌ c s) h.1.0
    ∙ ap (λ b. glue b a (runs p (String.◌∷◌ c s))) stop
    ∙ ap (glue false a) (runs-stop p c s stop)
runs-append p (String.◌∷◌ a (String.◌∷◌ b r)) c s h stop =
    let rest = r <> String.◌∷◌ c s in
    ap (runs p) (append.cons a (String.◌∷◌ b r) (String.◌∷◌ c s))
    ∙ ap (λ t. runs p (String.◌∷◌ a t)) (append.cons b r (String.◌∷◌ c s))
    ∙ runs-first p a (String.◌∷◌ b rest) h.1.0
    ∙ ap (λ q. glue q a (runs p (String.◌∷◌ b rest))) h.1.1.0
    ∙ ap (λ t. glue true a (runs p t)) (sym (append.cons b r (String.◌∷◌ c s)))
    ∙ ap (glue true a) (runs-append p (String.◌∷◌ b r) c s (refl, h.1.1) stop)
