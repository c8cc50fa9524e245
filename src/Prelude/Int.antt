-- ===== src/Prelude/Int.antt =====
-- Signed integers over the native numbers, and Go's two's complement conversions.
use Prim.Native.Nat.{ℕ, suc, ◌+◌, ◌-◌, ◌*◌, ◌/◌, ◌%◌, ◌^◌, ◌≤◌, ◌<◌}
use mathlib.Core.Path.{◌≡◌}
use mathlib.Core.Bool.{Bool}
use native.Mathlib.Omega.{arith}
use taskmq.Prelude.Tests.{ltb, leb, if◌then◌else◌}

-- `negsuc n` is -(n + 1).
pub data ℤ : Type 0 where
  pos : ℕ → ℤ
  negsuc : ℕ → ℤ

abbrev pub pos_part : ℤ → ℕ
pos_part (pos n) = n
pos_part (negsuc n) = 0

abbrev pub neg_part : ℤ → ℕ
neg_part (pos n) = 0
neg_part (negsuc n) = suc n

-- a - b, as an integer.
abbrev pub sub_ℕ : ℕ → ℕ → ℤ
sub_ℕ a b = if leb b a then pos (a - b) else negsuc (b - a - 1)

infixl 65 ◌+ℤ◌ ◌-ℤ◌
infix 50 ◌≤ℤ◌ ◌<ℤ◌
abbrev pub ◌+ℤ◌ : ℤ → ℤ → ℤ
a +ℤ b = sub_ℕ (pos_part a + pos_part b) (neg_part a + neg_part b)

abbrev pub ◌≤ℤ◌ : ℤ → ℤ → Type 0
a ≤ℤ b = pos_part a + neg_part b ≤ pos_part b + neg_part a

abbrev pub ◌<ℤ◌ : ℤ → ℤ → Type 0
a <ℤ b = pos_part a + neg_part b < pos_part b + neg_part a

abbrev pub ltb_ℤ : ℤ → ℤ → Bool
ltb_ℤ a b = ltb (pos_part a + neg_part b) (pos_part b + neg_part a)

abbrev pub leb_ℤ : ℤ → ℤ → Bool
leb_ℤ a b = leb (pos_part a + neg_part b) (pos_part b + neg_part a)

-- uint32(x) and int32(w); uint64(x) and int64(w).
abbrev pub to_word32 : ℤ → ℕ
to_word32 (pos n) = n % 2 ^ 32
to_word32 (negsuc n) = 2 ^ 32 - 1 - n % 2 ^ 32

abbrev pub from_word32 : ℕ → ℤ
from_word32 w = if ltb w (2 ^ 31) then pos w else negsuc (2 ^ 32 - w - 1)

abbrev pub to_word64 : ℤ → ℕ
to_word64 (pos n) = n % 2 ^ 64
to_word64 (negsuc n) = 2 ^ 64 - 1 - n % 2 ^ 64

abbrev pub from_word64 : ℕ → ℤ
from_word64 w = if ltb w (2 ^ 63) then pos w else negsuc (2 ^ 64 - w - 1)

-- The range of an int32 and of an int64.
abbrev pub IsInt32 : ℤ → Type 0
IsInt32 x = (pos_part x < 2 ^ 31) × (neg_part x ≤ 2 ^ 31)

abbrev pub IsInt64 : ℤ → Type 0
IsInt64 x = (pos_part x < 2 ^ 63) × (neg_part x ≤ 2 ^ 63)

pub from_word32-to_word32 : (x : ℤ) → IsInt32 x → from_word32 (to_word32 x) ≡ x
from_word32-to_word32 (pos n) h = ground arith
from_word32-to_word32 (negsuc n) h = ground arith

pub from_word64-to_word64 : (x : ℤ) → IsInt64 x → from_word64 (to_word64 x) ≡ x
from_word64-to_word64 (pos n) h = ground arith
from_word64-to_word64 (negsuc n) h = ground arith

pub to_word32-lt : (x : ℤ) → to_word32 x < 2 ^ 32
to_word32-lt (pos n) = omega arith
to_word32-lt (negsuc n) = omega arith

pub to_word64-lt : (x : ℤ) → to_word64 x < 2 ^ 64
to_word64-lt (pos n) = omega arith
to_word64-lt (negsuc n) = omega arith

-- Go's int64 addition, which wraps.
pub add64 : ℤ → ℤ → ℤ
add64 a b = from_word64 ((to_word64 a + to_word64 b) % 2 ^ 64)

pub add64_exact : (a b : ℤ) → IsInt64 a → IsInt64 b → IsInt64 (a +ℤ b) → add64 a b ≡ a +ℤ b
unfolding add64
add64_exact (pos a) (pos b) ha hb h = ground arith
add64_exact (pos a) (negsuc b) ha hb h = ground arith
add64_exact (negsuc a) (pos b) ha hb h = ground arith
add64_exact (negsuc a) (negsuc b) ha hb h = ground arith

-- Multiplication and division by a positive constant; Go's `/` on integers rounds towards zero.
abbrev pub scale : ℤ → ℕ → ℤ
scale (pos n) k = pos (n * k)
scale (negsuc n) k = negsuc (suc n * k - 1)

abbrev pub div_trunc : ℤ → ℕ → ℤ
div_trunc (pos n) k = pos (n / k)
div_trunc (negsuc n) k = sub_ℕ 0 (suc n / k)

abbrev pub div_floor : ℤ → ℕ → ℤ
div_floor (pos n) k = pos (n / k)
div_floor (negsuc n) k = negsuc (n / k)

abbrev pub ◌-ℤ◌ : ℤ → ℤ → ℤ
a -ℤ b = sub_ℕ (pos_part a + neg_part b) (neg_part a + pos_part b)

-- What an int64 holds of an integer, and the saturation of `Time.Sub`.
abbrev pub wrap64 : ℤ → ℤ
wrap64 x = from_word64 (to_word64 x)

abbrev pub saturate64 : ℤ → ℤ
saturate64 x =
    if ltb_ℤ (pos (2 ^ 63 - 1)) x
    then pos (2 ^ 63 - 1)
    else if ltb_ℤ x (negsuc (2 ^ 63 - 1))
    then negsuc (2 ^ 63 - 1)
    else x
