-- ===== src/Common/Int.antt =====
-- Signed integers over the native numbers, and the range of the 32-bit `int`.
use Prim.Native.Nat.{ℕ, suc, ◌-◌, ◌^◌, ◌<◌}
use mathlib.Core.Path.{◌≡◌}
use mathlib.Core.Logic.{◌↔◌}
use mathlib.Core.Bool.{Bool, true, false}
use native.Mathlib.Omega.{arith}
use skype.Common.Tests.{◌==◌, ltb}

-- `negsuc n` is -(n + 1).
pub data ℤ : Type 0 where
  pos : ℕ → ℤ
  negsuc : ℕ → ℤ

-- A value that an `int` holds: -2^31 to 2^31 - 1.
abbrev pub IsInt : ℤ → Type 0
IsInt (pos n) = n < 2 ^ 31
IsInt (negsuc n) = n < 2 ^ 31

-- The conversion of an `int` to `std::size_t`.
abbrev pub to_size : ℤ → ℕ
to_size (pos n) = n
to_size (negsuc n) = 2 ^ 64 - suc n

infix 50 ◌=ℤ◌
abbrev pub ◌=ℤ◌ : ℤ → ℤ → Bool
pos a =ℤ pos b = a == b
negsuc a =ℤ negsuc b = a == b
pos a =ℤ negsuc b = false
negsuc a =ℤ pos b = false

pub =ℤ_iff : (a b : ℤ) → ((a =ℤ b) ≡ true) ↔ (a ≡ b)
=ℤ_iff (pos a) (pos b) = ground arith
=ℤ_iff (pos a) (negsuc b) = ground arith
=ℤ_iff (negsuc a) (pos b) = ground arith
=ℤ_iff (negsuc a) (negsuc b) = ground arith

infix 50 ◌<ℤ?◌
abbrev pub ◌<ℤ?◌ : ℤ → ℤ → Bool
pos a <ℤ? pos b = ltb a b
negsuc a <ℤ? negsuc b = ltb b a
pos a <ℤ? negsuc b = false
negsuc a <ℤ? pos b = true
