-- ===== src/Prelude/Integers.antt =====
-- Integers over the native numbers, for differences and for sizes that may be negative.
use Prim.Native.Nat.{ℕ, zero, suc, ◌+◌, ◌-◌, ◌≤◌}
use mathlib.Core.Bool.{Bool, false}
use mathlib.Core.Path.{◌≡◌, refl}
use native.Mathlib.Omega.{arith}
use vm_forgeyard.Prelude.Tests.{if◌then◌else◌, leb, ltb}

pub data ℤ : Type 0 where
  pos : ℕ → ℤ
  negsuc : ℕ → ℤ

infixl 6 ◌⊖◌ ◌+ℤ◌
abbrev pub ◌⊖◌ : ℕ → ℕ → ℤ
m ⊖ n = if leb n m then pos (m - n) else negsuc (n - m - 1)

abbrev pub ◌+ℤ◌ : ℤ → ℤ → ℤ
pos m +ℤ pos n = pos (m + n)
pos m +ℤ negsuc n = m ⊖ suc n
negsuc m +ℤ pos n = n ⊖ suc m
negsuc m +ℤ negsuc n = negsuc (suc (m + n))

-- Whether a number is above a limit.
abbrev pub is_above : ℕ → ℤ → Bool
is_above limit (pos n) = ltb limit n
is_above limit (negsuc n) = false

-- A number is at most a limit.
abbrev pub IsAtMost : ℕ → ℤ → Type 0
IsAtMost limit (pos n) = n ≤ limit
IsAtMost limit (negsuc n) = Unit

-- value or default, of an optional number: zero counts as missing.
abbrev pub or_number : ℤ → ℤ → ℤ
or_number (pos zero) default = default
or_number (pos (suc n)) default = pos (suc n)
or_number (negsuc n) default = negsuc n

-- A difference that is not negative.
pub ⊖-pos : (m n : ℕ) → n ≤ m → m ⊖ n ≡ pos (m - n)
⊖-pos m n h = ground (arith, h)

abbrev pub IsNonNegative : ℤ → Type 0
IsNonNegative (pos n) = Unit
IsNonNegative (negsuc n) = ⊥

-- The natural number that an integer is, if it is not negative.
abbrev pub to_nat : ℤ → ℕ
to_nat (pos n) = n
to_nat (negsuc n) = 0

pub to_nat-pos : (z : ℤ) → IsNonNegative z → z ≡ pos (to_nat z)
to_nat-pos (pos n) h = refl
to_nat-pos (negsuc n) h = elim h [ ]
