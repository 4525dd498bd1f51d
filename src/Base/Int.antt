-- ===== src/Base/Int.antt =====
-- The values of a C `int`: `negsuc n` is -(n + 1).
use Prim.Native.Nat.{ℕ, zero, suc, ◌+◌, ◌-◌, ◌%◌, ◌^◌}
use Prim.Native.Nat.{◌<◌}
use mathlib.Core.Path.{◌≡◌, refl}
use native.Mathlib.Omega.{arith}
use mathlib.Core.Bool.{Bool}
use mathlib.Core.Option.{Option, none, some}
use audio_project.Base.Tests.{ltb, if◌then◌else◌}

pub data ℤ : Type 0 where
  pos : ℕ → ℤ
  negsuc : ℕ → ℤ

-- The value -1, by which most functions report an error.
abbrev pub minus_one : ℤ
minus_one = negsuc 0

-- The value where it is greater than 0.
abbrev pub positive? : ℤ → Option ℕ
positive? (pos zero) = none
positive? (pos (suc n)) = some (suc n)
positive? (negsuc n) = none

abbrev pub pos_part : ℤ → ℕ
pos_part (pos n) = n
pos_part (negsuc n) = 0

abbrev pub neg_part : ℤ → ℕ
neg_part (pos n) = 0
neg_part (negsuc n) = suc n

-- `a + n` for a constant `n`.
infixl 65 ◌+ℤ◌
abbrev pub ◌+ℤ◌ : ℕ → ℤ → ℤ
n +ℤ pos m = pos (n + m)
n +ℤ negsuc m = if ltb m n then pos (n - suc m) else negsuc (m - n)

abbrev pub ltb_ℤ : ℤ → ℤ → Bool
ltb_ℤ a b = ltb (pos_part a + neg_part b) (pos_part b + neg_part a)

-- An `int` of 32 bits around the value of an expression below 2 ^ 32: it wraps around.
abbrev pub to_int : ℤ → ℤ
to_int (pos n) = if ltb n (2 ^ 31) then pos n else negsuc (2 ^ 32 - 1 - n)
to_int (negsuc n) = negsuc n

pub to_int_lem : (n : ℕ) → n < 2 ^ 31 → to_int (pos n) ≡ pos n
to_int_lem n h = ground arith

-- The conversions to `uint16_t`.
abbrev pub to_u16 : ℤ → ℕ
to_u16 (pos n) = n % 2 ^ 16
to_u16 (negsuc n) = 2 ^ 16 - 1 - n % 2 ^ 16

pub positive?_lem : (n : ℕ) → 0 < n → positive? (pos n) ≡ some n
positive?_lem zero h = absurd (omega arith)
positive?_lem (suc n) h = refl
