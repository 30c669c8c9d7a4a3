-- ===== src/Prelude/Decimal.antt =====
-- The decimal form of a number is read back as the number.
use Prim.Native.Nat.{ℕ, zero, suc, ◌+◌, ◌*◌, ◌-◌, ◌/◌, ◌%◌, ◌<◌}
use Prim.Native.Char.{Char, code}
use Prim.Native.String.append
use Prim.Native.String.{String}
use mathlib.Core.Path.{◌≡◌, refl, sym, ap, ◌∙◌}
use mathlib.Core.Logic.{inl, inr}
use native.Mathlib.Omega.{arith}
use banking_ai_platform.Prelude.Tests.{Bool-cases, ltb}
use banking_ai_platform.Prelude.Text.{◌<>◌, nth_char, decimal, show, size}

unfoldable pub read : ℕ → String → ℕ
read n String.[] = n
read n (String.◌∷◌ c s) = read (n * 10 + (code c - 48)) s

read-one :
    (a : ℕ) (c : Char) (t : String)
    → read a (String.◌∷◌ c "" <> t) ≡ read (a * 10 + (code c - 48)) t
unfolding read
read-one a c t = ap (read a) (append.cons c "" t ∙ ap (String.◌∷◌ c) (append.nil t))

-- The characters stand for the numbers from `k` on.
abbrev Counts : ℕ → String → Type 0
Counts k String.[] = Unit
Counts k (String.◌∷◌ c s) = (code c - 48 ≡ k) × Counts (k + 1) s

read-nth :
    (a k i : ℕ) (s t : String)
    → Counts k s
    → i < size s
    → read a (nth_char s i <> t) ≡ read (a * 10 + (k + i)) t
unfolding nth_char
read-nth a k i String.[] t counts h = ground (arith, h)
read-nth a k zero (String.◌∷◌ c s) t counts h =
    read-one a c t ∙ ap (λ d. read (a * 10 + d) t) (omega (arith, counts.0))
read-nth a k (suc i) (String.◌∷◌ c s) t counts h =
    read-nth a (k + 1) i s t counts.1 (omega (arith, h))
    ∙ ap (λ d. read (a * 10 + d) t) (omega arith)

read-digit :
    (a i : ℕ) (t : String) → i < 10 → read a (nth_char "0123456789" i <> t) ≡ read (a * 10 + i) t
read-digit a i t h =
    read-nth a 0 i "0123456789" t
      (refl, (refl, (refl, (refl, (refl, (refl, (refl, (refl, (refl, (refl, tt)))))))))) h
    ∙ ap (λ d. read d t) (omega arith)

read-decimal : (fuel n : ℕ) (tail : String) → n < fuel → read 0 (decimal fuel n tail) ≡ read n tail
unfolding decimal
read-decimal zero n tail h = ground arith
read-decimal (suc fuel) n tail h = elim (Bool-cases (ltb n 10)) [
  | inl small ↦
      rw small
        (read-digit 0 (n % 10) tail (omega arith) ∙ ap (λ m. read m tail) (ground (arith, small)))
  | inr large ↦ rw large (
      read-decimal fuel (n / 10) (nth_char "0123456789" (n % 10) <> tail) (ground (arith, large, h))
      ∙ read-digit (n / 10) (n % 10) tail (omega arith)
      ∙ ap (λ m. read m tail) (omega arith))
]

read-show : (n : ℕ) → read 0 (show n) ≡ n
unfolding show read
read-show n = read-decimal (n + 1) n "" (omega arith)

pub show_inj : (m n : ℕ) → show m ≡ show n → m ≡ n
show_inj m n h = sym (read-show m) ∙ ap (read 0) h ∙ read-show n
