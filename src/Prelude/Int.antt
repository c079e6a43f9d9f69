-- ===== src/Prelude/Int.antt =====
-- Signed integers over the native numbers, for Rust's `i32` and `i64`. Orders go through the two
-- parts of an integer, which are numbers that `omega` reads.
use Prim.Native.Nat.{ℕ, suc, ◌+◌, ◌-◌, ◌%◌, ◌≤◌, ◌<◌}
use mathlib.Core.Path.{◌≡◌}
use mathlib.Core.Logic.{◌↔◌}
use mathlib.Core.Bool.{Bool, true}
use native.Mathlib.Omega.{arith}
use k8s_operator_template.Prelude.Tests.{ltb, leb, ◌==◌, if◌then◌else◌}

-- `negsuc n` is -(n + 1).
pub data ℤ : Type 0 where
  pos : ℕ → ℤ
  negsuc : ℕ → ℤ

abbrev pub pos_part : ℤ → ℕ
pos_part (pos n) = n
pos_part (negsuc n) = 0

abbrev pub neg_part : ℤ → ℕ
neg_part (pos n) = 0
neg_part (negsuc n) = suc n

infix 50 ◌≤ℤ◌ ◌<ℤ◌ ◌<?◌ ◌≤?◌ ◌=?◌
abbrev pub ◌≤ℤ◌ : ℤ → ℤ → Type 0
a ≤ℤ b = pos_part a + neg_part b ≤ pos_part b + neg_part a

abbrev pub ◌<ℤ◌ : ℤ → ℤ → Type 0
a <ℤ b = pos_part a + neg_part b < pos_part b + neg_part a

-- The tests `<`, `<=` and `==` of the source.
abbrev pub ◌<?◌ : ℤ → ℤ → Bool
a <? b = ltb (pos_part a + neg_part b) (pos_part b + neg_part a)

abbrev pub ◌≤?◌ : ℤ → ℤ → Bool
a ≤? b = leb (pos_part a + neg_part b) (pos_part b + neg_part a)

abbrev pub ◌=?◌ : ℤ → ℤ → Bool
a =? b = pos_part a + neg_part b == pos_part b + neg_part a

-- a - b for natural numbers, as an integer.
abbrev pub sub_ℕ : ℕ → ℕ → ℤ
sub_ℕ a b = if leb b a then pos (a - b) else negsuc (b - a - 1)

-- The exact difference of two integers.
infixl 65 ◌-ℤ◌
unfoldable pub ◌-ℤ◌ : ℤ → ℤ → ℤ
a -ℤ b = sub_ℕ (pos_part a + neg_part b) (neg_part a + pos_part b)

-- The values of an `i32`.
pub record IsI32 (a : ℤ) : Type 0 where
  pub above : neg_part a ≤ 2147483648
  pub below : pos_part a < 2147483648

-- The bit pattern of an integer that `i32` arithmetic keeps, and the integer that it stands for.
abbrev pub bits_i32 : ℤ → ℕ
bits_i32 a = (pos_part a + 4294967296 - neg_part a % 4294967296) % 4294967296

abbrev pub signed_i32 : ℕ → ℤ
signed_i32 n = if ltb n 2147483648 then pos n else negsuc (4294967295 - n)

-- `a - b` on `i32` with wrap-around.
unfoldable pub sub_i32 : ℤ → ℤ → ℤ
unfolding ◌-ℤ◌
sub_i32 a b = signed_i32 (bits_i32 (a -ℤ b))

-- A difference that fits is exact.
pub sub_i32_exact : (a b : ℤ) → IsI32 (a -ℤ b) → sub_i32 a b ≡ a -ℤ b
unfolding sub_i32
sub_i32_exact a b h = signed-bits (a -ℤ b) h
  where
    signed-bits : (z : ℤ) → IsI32 z → signed_i32 (bits_i32 z) ≡ z
    signed-bits (pos n) k = ground arith
    signed-bits (negsuc n) k = ground arith

-- The test `==` decides equality.
pub eq_iff_ℤ : (a b : ℤ) → ((a =? b) ≡ true) ↔ (a ≡ b)
eq_iff_ℤ a b = ground arith

-- A difference of 2^31 or more wraps to a negative number.
pub sub_i32_wraps :
    (a b : ℤ)
    → IsI32 a
    → IsI32 b
    → 2147483648 + pos_part b + neg_part a ≤ pos_part a + neg_part b
    → sub_i32 a b <ℤ pos 0
unfolding sub_i32
sub_i32_wraps a b ha hb h = ground arith
