-- ===== src/Prelude/Int.antt =====
-- Signed integers over the native numbers: `i64` values, `negsuc n` being -(n + 1).
use Prim.Native.Nat.{ℕ, zero, suc}
use mathlib.Core.Bool.{Bool, true, false}

pub data ℤ : Type 0 where
  pos : ℕ → ℤ
  negsuc : ℕ → ℤ

-- `n <= 0`
abbrev pub nonpositive : ℤ → Bool
nonpositive (pos zero) = true
nonpositive (pos (suc n)) = false
nonpositive (negsuc n) = true
