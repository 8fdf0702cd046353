-- ===== src/Common/Int.antt =====
-- Go's `int` and `int64` as integers; a product or shift wraps modulo 2^64 in two's complement.
use Prim.Native.Nat.{ℕ, zero, suc, ◌+◌, ◌-◌, ◌*◌, ◌%◌, ◌^◌, ◌<◌}
use mathlib.Core.Path.{◌≡◌, refl}
use mathlib.Core.Bool.{Bool, true, false}
use native.Mathlib.Nat.{pow-suc, suc-add}
use native.Mathlib.Omega.{arith}
use docbuilder.Common.Tests.{ltb, if◌then◌else◌}

-- `negsuc n` is -(n + 1).
pub data ℤ : Type 0 where
  pos : ℕ → ℤ
  negsuc : ℕ → ℤ

abbrev pub neg_ℕ : ℕ → ℤ
neg_ℕ zero = pos 0
neg_ℕ (suc n) = negsuc n

infixl 70 ◌*ℤ◌
abbrev pub ◌*ℤ◌ : ℤ → ℤ → ℤ
pos a *ℤ pos b = pos (a * b)
pos a *ℤ negsuc b = neg_ℕ (a * suc b)
negsuc a *ℤ pos b = neg_ℕ (suc a * b)
negsuc a *ℤ negsuc b = pos (suc a * suc b)

-- a < b
abbrev pub lt_ℤ : ℤ → ℤ → Bool
lt_ℤ (pos a) (pos b) = ltb a b
lt_ℤ (pos a) (negsuc b) = false
lt_ℤ (negsuc a) (pos b) = true
lt_ℤ (negsuc a) (negsuc b) = ltb b a

-- a > 0 and a < 0
abbrev pub is_pos : ℤ → Bool
is_pos (pos zero) = false
is_pos (pos (suc n)) = true
is_pos (negsuc n) = false

abbrev pub is_neg : ℤ → Bool
is_neg (pos n) = false
is_neg (negsuc n) = true

abbrev pub pos_part : ℤ → ℕ
pos_part (pos n) = n
pos_part (negsuc n) = 0

-- The bit pattern of an integer, and the int64 that a bit pattern stands for.
abbrev pub bits64 : ℤ → ℕ
bits64 (pos n) = n % 2 ^ 64
bits64 (negsuc n) = 2 ^ 64 - 1 - n % 2 ^ 64

abbrev pub of_bits64 : ℕ → ℤ
of_bits64 m = if ltb m (2 ^ 63) then pos m else negsuc (2 ^ 64 - 1 - m)

unfoldable pub mul64 : ℤ → ℤ → ℤ
mul64 a b = of_bits64 (bits64 (a *ℤ b))

-- 1 << k at type int64
unfoldable pub one_shl64 : ℕ → ℤ
one_shl64 k = of_bits64 (2 ^ k % 2 ^ 64)

pub mul64_exact : (a b : ℕ) → a * b < 2 ^ 63 → mul64 (pos a) (pos b) ≡ pos (a * b)
unfolding mul64
mul64_exact a b h = ground arith

pub one_shl64_exact : (k : ℕ) → 2 ^ k < 2 ^ 63 → one_shl64 k ≡ pos (2 ^ k)
unfolding one_shl64
one_shl64_exact k h = ground arith

two_pow_divides : (k : ℕ) → 2 ^ (k + 64) % 2 ^ 64 ≡ 0
two_pow_divides zero = refl
two_pow_divides (suc k) = rw (suc-add, pow-suc) (omega (arith, two_pow_divides k))

-- All bits are shifted out.
pub one_shl64-zero : (k : ℕ) → one_shl64 (k + 64) ≡ pos 0
unfolding one_shl64
one_shl64-zero k = rw (two_pow_divides k)

pub mul64-zero : (a : ℤ) → mul64 a (pos 0) ≡ pos 0
unfolding mul64
mul64-zero (pos n) = ground arith
mul64-zero (negsuc n) = ground arith
