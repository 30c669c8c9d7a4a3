-- ===== src/Prelude/Int.antt =====
-- The integers, on the native numbers.
use Prim.Native.Nat.{ℕ, suc}
use Prim.Native.String.{String}
use banking_ai_platform.Prelude.Text.{◌<>◌, show}

-- `negsuc n` is -(n + 1).
pub data ℤ : Type 0 where
  pos : ℕ → ℤ
  negsuc : ℕ → ℤ

unfoldable pub show_ℤ : ℤ → String
unfolding show
show_ℤ (pos n) = show n
show_ℤ (negsuc n) = "-" <> show (suc n)
