-- ===== src/Prelude/Int.antt =====
-- Integers over the native numbers, for the numbers of the source that may fall below 0.
use Prim.Native.Nat.{ℕ, suc, ◌+◌, ◌-◌, compare, Ordering}
use mathlib.Core.Bool.{Bool, false, true}
use cordn.Prelude.Tests.{if◌then◌else◌, ltb}

pub data ℤ : Type 0 where
  pos : ℕ → ℤ
  negsuc : ℕ → ℤ

infixl 60 ◌+ℤ◌
abbrev pub ◌+ℤ◌ : ℤ → ℤ → ℤ
pos a +ℤ pos b = pos (a + b)
pos a +ℤ negsuc b = if ltb b a then pos (a - suc b) else negsuc (b - a)
negsuc a +ℤ pos b = if ltb a b then pos (b - suc a) else negsuc (a - b)
negsuc a +ℤ negsuc b = negsuc (a + b + 1)

-- Whether an integer is above a natural number.
abbrev pub is_above : ℕ → ℤ → Bool
is_above n (pos a) = ltb n a
is_above n (negsuc a) = false

-- Whether an integer is a natural number.
abbrev pub is_nat : ℕ → ℤ → Bool
is_nat n (pos a) = elim (compare a n) [ Ordering.eq ↦ true | _ ↦ false ]
is_nat n (negsuc a) = false
