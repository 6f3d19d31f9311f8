-- ===== src/Prelude/Int.antt =====
-- Signed integers over the native numbers, under the library's names (its ℤ stands on another ℕ),
-- and Go's fixed-width arithmetic on them. Models no code of the repository.
use Prim.Native.Nat.{ℕ, suc, ◌+◌, ◌-◌, ◌*◌, ◌/◌, ◌%◌, ◌≤◌}
use mathlib.Core.Path.{◌≡◌}
use mathlib.Core.Bool.{Bool, true}
use native.Mathlib.Omega.{arith}
use xk6_disruptor.Prelude.Tests.{ltb, leb, ◌==◌, if◌then◌else◌}

-- `negsuc n` is -(n + 1).
pub data ℤ : Type 0 where
  pos : ℕ → ℤ
  negsuc : ℕ → ℤ

abbrev pub pos_part : ℤ → ℕ
pos_part (pos n) = n
pos_part (negsuc n) = 0

abbrev pub neg_part : ℤ → ℕ
neg_part (pos n) = 0
neg_part (negsuc n) = suc n

-- a - b, as an integer.
abbrev pub sub_ℕ : ℕ → ℕ → ℤ
sub_ℕ a b = if leb b a then pos (a - b) else negsuc (b - a - 1)

infixl 65 ◌+ℤ◌ ◌-ℤ◌
infixl 70 ◌*ℤ◌
infix 50 ◌≤ℤ◌
unfoldable pub ◌+ℤ◌ : ℤ → ℤ → ℤ
a +ℤ b = sub_ℕ (pos_part a + pos_part b) (neg_part a + neg_part b)

unfoldable pub ◌-ℤ◌ : ℤ → ℤ → ℤ
a -ℤ b = sub_ℕ (pos_part a + neg_part b) (neg_part a + pos_part b)

unfoldable pub ◌*ℤ◌ : ℤ → ℤ → ℤ
a *ℤ b =
    sub_ℕ (pos_part a * pos_part b + neg_part a * neg_part b)
      (pos_part a * neg_part b + neg_part a * pos_part b)

-- Go's `/` truncates towards zero.
unfoldable pub quot_ℤ : ℤ → ℕ → ℤ
quot_ℤ a k = sub_ℕ (pos_part a / k) (neg_part a / k)

abbrev pub ◌≤ℤ◌ : ℤ → ℤ → Type 0
a ≤ℤ b = pos_part a + neg_part b ≤ pos_part b + neg_part a

abbrev pub ltb_ℤ : ℤ → ℤ → Bool
ltb_ℤ a b = ltb (pos_part a + neg_part b) (pos_part b + neg_part a)

abbrev pub leb_ℤ : ℤ → ℤ → Bool
leb_ℤ a b = leb (pos_part a + neg_part b) (pos_part b + neg_part a)

abbrev pub eq_ℤ : ℤ → ℤ → Bool
eq_ℤ a b = pos_part a + neg_part b == pos_part b + neg_part a

pub eq_of_parts : (a b : ℤ) → pos_part a + neg_part b ≡ pos_part b + neg_part a → a ≡ b
eq_of_parts a b h = ground arith

pub eq_ℤ→eq : (a b : ℤ) → eq_ℤ a b ≡ true → a ≡ b
eq_ℤ→eq a b h = ground arith

pub eq_ℤ_refl : (a : ℤ) → eq_ℤ a a ≡ true
eq_ℤ_refl a = ground arith

abbrev pub int32_mod : ℕ
int32_mod = 4294967296

abbrev pub int32_max : ℕ
int32_max = 2147483647

abbrev pub int64_mod : ℕ
int64_mod = 18446744073709551616

abbrev pub int64_max : ℕ
int64_max = 9223372036854775807

-- The value lies in the range of an int32, and of an int64.
abbrev pub IsInt32 : ℤ → Type 0
IsInt32 a = (pos_part a ≤ int32_max) × (neg_part a ≤ int32_max + 1)

abbrev pub IsInt64 : ℤ → Type 0
IsInt64 a = (pos_part a ≤ int64_max) × (neg_part a ≤ int64_max + 1)

-- The bit pattern of an integer modulo m, and the value that it stands for in two's complement.
abbrev pub low_word : ℕ → ℤ → ℕ
low_word m (pos n) = n % m
low_word m (negsuc n) = m - 1 - n % m

abbrev pub signed_word : ℕ → ℕ → ℤ
signed_word m u = if ltb u (m / 2) then pos u else negsuc (m - 1 - u)

-- Go's conversions `int32(x)` and `int64(x)`: the low bits in two's complement.
unfoldable pub to_int32 : ℤ → ℤ
to_int32 a = signed_word int32_mod (low_word int32_mod a)

unfoldable pub to_int64 : ℤ → ℤ
to_int64 a = signed_word int64_mod (low_word int64_mod a)

pub to_int32_in_range : (a : ℤ) → IsInt32 a → to_int32 a ≡ a
unfolding to_int32
to_int32_in_range (pos n) h = ground arith
to_int32_in_range (negsuc n) h = ground arith

pub to_int64_in_range : (a : ℤ) → IsInt64 a → to_int64 a ≡ a
unfolding to_int64
to_int64_in_range (pos n) h = ground arith
to_int64_in_range (negsuc n) h = ground arith

pub to_int32-IsInt32 : (a : ℤ) → IsInt32 (to_int32 a)
unfolding to_int32
to_int32-IsInt32 (pos n) = ground arith
to_int32-IsInt32 (negsuc n) = ground arith
