-- ===== src/Prelude/Lists.antt =====
-- Lists measured by native numbers, with Python's slices, and the Boolean searches over them.
use Prim.Native.Nat.{ℕ, zero, suc, ◌+◌, ◌-◌, ◌≤◌, min}
use mathlib.Core.Path.{◌≡◌, refl, sym, ap, subst, ◌∙◌}
use mathlib.Core.Logic.{◌⊎◌, inl, inr}
use mathlib.Core.Bool.{Bool, true, false, ◌||◌}
use mathlib.Core.List.{List, [], ◌∷◌, ◌++◌, map}
use mathlib.Core.Option.{Option, none, some}
use native.Mathlib.Omega.{arith}
use banking_ai_platform.Prelude.Tests.{Bool-cases, if◌then◌else◌}

module _ {ℓ} {A : Type ℓ} where
  abbrev pub length : List A → ℕ
  length [] = 0
  length (x ∷ xs) = suc (length xs)

  -- `xs[:n]`
  abbrev pub take : ℕ → List A → List A
  take zero xs = []
  take (suc n) [] = []
  take (suc n) (x ∷ xs) = x ∷ take n xs

  -- `xs[n:]`
  abbrev pub drop : ℕ → List A → List A
  drop zero xs = xs
  drop (suc n) [] = []
  drop (suc n) (x ∷ xs) = drop n xs

  abbrev pub is_nil : List A → Bool
  is_nil [] = true
  is_nil (x ∷ xs) = false

  -- `[x for x in xs if p(x)]`
  abbrev pub keep : (A → Bool) → List A → List A
  keep p [] = []
  keep p (x ∷ xs) = let rest = keep p xs in if p x then x ∷ rest else rest

  -- `next((x for x in xs if p(x)), None)`
  abbrev pub first : (A → Bool) → List A → Option A
  first p [] = none
  first p (x ∷ xs) = let rest = first p xs in if p x then some x else rest

  -- `any(p(x) for x in xs)`
  abbrev pub some_of : (A → Bool) → List A → Bool
  some_of p [] = false
  some_of p (x ∷ xs) = p x || some_of p xs

  -- Every element passes; the tactics read it as a tuple.
  abbrev pub All {κ} : (Q : A → Type κ) (members : List A) → Type κ
  All Q [] = Unit
  All Q (a ∷ rest) = Q a × All Q rest

  -- Some element passes.
  abbrev pub Any : (Q : A → Type 0) (members : List A) → Type 0
  Any Q [] = ⊥
  Any Q (a ∷ rest) = Q a ⊎ Any Q rest

  pub length-append : (xs ys : List A) → length (xs ++ ys) ≡ length xs + length ys
  length-append [] ys = omega arith
  length-append (x ∷ xs) ys = omega (arith, length-append xs ys)

module _ {ℓ} {A : Type ℓ} where
  pub length-take : (n : ℕ) (xs : List A) → length (take n xs) ≡ min n (length xs)
  length-take zero xs = omega arith
  length-take (suc n) [] = omega arith
  length-take (suc n) (x ∷ xs) = omega (arith, length-take n xs)

  pub length-drop : (n : ℕ) (xs : List A) → length (drop n xs) ≡ length xs - n
  length-drop zero xs = omega arith
  length-drop (suc n) [] = omega arith
  length-drop (suc n) (x ∷ xs) = omega (arith, length-drop n xs)

  pub take-append-drop : (n : ℕ) (xs : List A) → take n xs ++ drop n xs ≡ xs
  take-append-drop zero xs = refl
  take-append-drop (suc n) [] = refl
  take-append-drop (suc n) (x ∷ xs) = rw (take-append-drop n xs)

  pub length-map {κ} : {B : Type κ} (xs : List A) (f : A → B) → length (map f xs) ≡ length xs
  length-map [] f = refl
  length-map (x ∷ xs) f = ap suc (length-map xs f)

  pub length-keep : (p : A → Bool) (xs : List A) → length (keep p xs) ≤ length xs
  length-keep p [] = omega arith
  length-keep p (x ∷ xs) = ground (arith, length-keep p xs)

  pub All-append {κ} :
      (Q : A → Type κ) (front back : List A) → All Q front → All Q back → All Q (front ++ back)
  All-append Q [] back these those = those
  All-append Q (a ∷ front) back these those = (these.0, All-append Q front back these.1 those)

  pub Any-imp :
      (P : A → Type 0) (Q : A → Type 0) (xs : List A) → ((x : A) → P x → Q x) → Any P xs → Any Q xs
  Any-imp P Q [] f m = absurd m
  Any-imp P Q (x ∷ xs) f (inl here) = inl (f x here)
  Any-imp P Q (x ∷ xs) f (inr later) = inr (Any-imp P Q xs f later)

  pub All-take {κ} : (Q : A → Type κ) (n : ℕ) (xs : List A) → All Q xs → All Q (take n xs)
  All-take Q zero xs all = tt
  All-take Q (suc n) [] all = tt
  All-take Q (suc n) (x ∷ xs) all = (all.0, All-take Q n xs all.1)

  pub All-imp {κ μ} :
      (P : A → Type κ) (Q : A → Type μ) (xs : List A) → ((x : A) → P x → Q x) → All P xs → All Q xs
  All-imp P Q [] f all = tt
  All-imp P Q (x ∷ xs) f all = (f x all.0, All-imp P Q xs f all.1)

  pub first-holds : (p : A → Bool) (xs : List A) (a : A) → first p xs ≡ some a → p a ≡ true
  first-holds p [] a h = ground arith
  first-holds p (x ∷ xs) a h = ground (arith, first-holds p xs a)

  pub All-first {κ} :
      (P : A → Type κ) (p : A → Bool) (xs : List A) (a : A) → All P xs → first p xs ≡ some a → P a
  All-first P p [] a all e = cc
  All-first P p (x ∷ xs) a all e = elim (Bool-cases (p x)) [
    | inl here ↦ let same : x ≡ a = ground arith in subst P same all.0
    | inr later ↦ All-first P p xs a all.1 (rw later at e)
  ]

module _ {ℓ} {A : Type ℓ} where
  pub drop_past : (n : ℕ) (xs : List A) → length xs ≤ n → drop n xs ≡ []
  drop_past zero [] h = refl
  drop_past zero (x ∷ xs) h = ground arith
  drop_past (suc n) [] h = refl
  drop_past (suc n) (x ∷ xs) h = drop_past n xs (omega arith)

  drop-nil : (n : ℕ) → drop {A = A} n [] ≡ []
  drop-nil zero = refl
  drop-nil (suc n) = refl

  pub drop-drop : (a n m : ℕ) (xs : List A) → m ≡ a + n → drop n (drop a xs) ≡ drop m xs
  drop-drop zero n m xs e = ap (λ i. drop i xs) (omega (arith, e))
  drop-drop (suc a) n m [] e = drop-nil n ∙ sym (drop-nil m)
  drop-drop (suc a) n zero (x ∷ xs) e = ground arith
  drop-drop (suc a) n (suc m) (x ∷ xs) e = drop-drop a n m xs (omega (arith, e))

  pub window-append :
      (a n m : ℕ) (xs : List A) → m ≡ a + n → take n (drop a xs) ++ drop m xs ≡ drop a xs
  window-append a n m xs e = rw (← drop-drop a n m xs e) (take-append-drop n (drop a xs))

  take-nil : (n : ℕ) → take {A = A} n [] ≡ []
  take-nil zero = refl
  take-nil (suc n) = refl

  pub take_all : (n : ℕ) (xs : List A) → length xs ≤ n → take n xs ≡ xs
  take_all zero [] h = refl
  take_all zero (x ∷ xs) h = ground arith
  take_all (suc n) [] h = refl
  take_all (suc n) (x ∷ xs) h = ap (λ rest. x ∷ rest) (take_all n xs (omega (arith, h)))

  pub drop-take : (a n m : ℕ) (xs : List A) → m ≡ a + n → drop a (take m xs) ≡ take n (drop a xs)
  drop-take zero n m xs e = ap (λ i. take i xs) (omega (arith, e))
  drop-take (suc a) n zero xs e = ground arith
  drop-take (suc a) n (suc m) [] e = sym (take-nil n)
  drop-take (suc a) n (suc m) (x ∷ xs) e = drop-take a n m xs (omega (arith, e))

  pub append_nil : (xs : List A) → xs ++ [] ≡ xs
  append_nil [] = refl
  append_nil (x ∷ xs) = ap (λ rest. x ∷ rest) (append_nil xs)

  pub append_one : (xs : List A) (x : A) (ys : List A) → (xs ++ (x ∷ [])) ++ ys ≡ xs ++ (x ∷ ys)
  append_one [] x ys = refl
  append_one (a ∷ xs) x ys = ap (λ rest. a ∷ rest) (append_one xs x ys)
