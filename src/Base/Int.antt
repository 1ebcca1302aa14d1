-- ===== src/Base/Int.antt =====
-- C's `int` where it is signed in earnest: return codes. No operation here can overflow.
use Prim.Native.Nat.{ℕ, zero, suc, ◌-◌, ◌<◌}
use mathlib.Core.Logic.{◌≢◌}
use native.Mathlib.Omega.{arith}
use mathlib.Core.Path.{◌≡◌, refl, ap}
use mathlib.Core.Bool.{Bool, true, false}

-- `negsuc n` is -(n + 1).
pub data ℤ : Type 0 where
  pos : ℕ → ℤ
  negsuc : ℕ → ℤ

-- `-n`, for a number `n ≥ 0`.
abbrev pub neg : ℕ → ℤ
neg zero = pos 0
neg (suc n) = negsuc n

-- `-x`
abbrev pub negate : ℤ → ℤ
negate (pos n) = neg n
negate (negsuc n) = pos (suc n)

-- |x|
abbrev pub magnitude : ℤ → ℕ
magnitude (pos n) = n
magnitude (negsuc n) = suc n

-- `x < 0`
abbrev pub is_neg : ℤ → Bool
is_neg (pos n) = false
is_neg (negsuc n) = true

pub magnitude-negate : (x : ℤ) → magnitude (negate x) ≡ magnitude x
magnitude-negate (pos zero) = refl
magnitude-negate (pos (suc n)) = refl
magnitude-negate (negsuc n) = refl

pub magnitude-neg : (n : ℕ) → magnitude (neg n) ≡ n
magnitude-neg zero = refl
magnitude-neg (suc n) = refl

-- A negated error number is no count.
pub neg-ne-pos : (n k : ℕ) → 0 < n → neg n ≢ pos k
neg-ne-pos zero k h = absurd (omega arith)
neg-ne-pos (suc n) k h = λ e. cc

pub neg-negsuc : (n : ℕ) → 0 < n → neg n ≡ negsuc (n - 1)
neg-negsuc zero h = absurd (omega arith)
neg-negsuc (suc n) h = ap negsuc (omega arith)

-- `x == 0`
abbrev pub is_zero : ℤ → Bool
is_zero (pos zero) = true
is_zero (pos (suc n)) = false
is_zero (negsuc n) = false
