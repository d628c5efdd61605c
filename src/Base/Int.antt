-- ===== src/Base/Int.antt =====
-- Signed integers: the `int` results of the libraries.
use Prim.Native.Nat.{ℕ, ◌-◌, ◌%◌, ◌^◌}
use mathlib.Core.Bool.{Bool, true, false}
use mathlib.Core.Path.{◌≡◌}
use mathlib.Core.Logic.{◌≢◌}
use native.Mathlib.Omega.{arith}
use esp.Base.Tests.{◌==◌, ltb}

-- `negsuc n` is -(n + 1).
pub data ℤ : Type 0 where
  pos : ℕ → ℤ
  negsuc : ℕ → ℤ

abbrev pub int_eq : ℤ → ℤ → Bool
int_eq (pos m) (pos n) = m == n
int_eq (pos m) (negsuc n) = false
int_eq (negsuc m) (pos n) = false
int_eq (negsuc m) (negsuc n) = m == n

abbrev pub is_positive : ℤ → Bool
is_positive (pos n) = ltb 0 n
is_positive (negsuc n) = false

abbrev pub is_negative : ℤ → Bool
is_negative (pos n) = false
is_negative (negsuc n) = true

-- The conversion to `uint32_t`.
unfoldable pub to_uint32 : ℤ → ℕ
to_uint32 (pos n) = n % 2 ^ 32
to_uint32 (negsuc n) = 2 ^ 32 - 1 - n % 2 ^ 32

pub int_eq_sound : (a b : ℤ) → int_eq a b ≡ true → a ≡ b
int_eq_sound (pos m) (pos n) h = ground arith
int_eq_sound (pos m) (negsuc n) h = ground arith
int_eq_sound (negsuc m) (pos n) h = ground arith
int_eq_sound (negsuc m) (negsuc n) h = ground arith

pub int_eq_apart : (a b : ℤ) → int_eq a b ≡ false → a ≢ b
int_eq_apart (pos m) (pos n) h e = ground arith
int_eq_apart (pos m) (negsuc n) h e = cc
int_eq_apart (negsuc m) (pos n) h e = cc
int_eq_apart (negsuc m) (negsuc n) h e = ground arith
