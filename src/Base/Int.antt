-- ===== src/Base/Int.antt =====
-- Go's signed integers: an unbounded ℤ over the native numbers, and its wrap to 64 or 32 bits.
use Prim.Native.Nat.{ℕ, suc, ◌+◌, ◌-◌, ◌%◌, ◌^◌, ◌≤◌, ◌<◌}
use mathlib.Core.Path.{◌≡◌}
use mathlib.Core.Bool.{Bool}
use native.Mathlib.Omega.{arith}
use multichain_liquidator_bo.Base.Tests.{ltb, leb, if◌then◌else◌}

-- `negsuc n` is -(n + 1).
pub data ℤ : Type 0 where
  pos : ℕ → ℤ
  negsuc : ℕ → ℤ

abbrev pub pos_part : ℤ → ℕ
pos_part (pos n) = n
pos_part (negsuc n) = 0

abbrev pub neg_part : ℤ → ℕ
neg_part (pos n) = 0
neg_part (negsuc n) = suc n

infix 50 ◌≤ℤ◌
abbrev pub ◌≤ℤ◌ : ℤ → ℤ → Type 0
a ≤ℤ b = pos_part a + neg_part b ≤ pos_part b + neg_part a

abbrev pub ltb_ℤ : ℤ → ℤ → Bool
ltb_ℤ a b = ltb (pos_part a + neg_part b) (pos_part b + neg_part a)

abbrev pub leb_ℤ : ℤ → ℤ → Bool
leb_ℤ a b = leb (pos_part a + neg_part b) (pos_part b + neg_part a)

-- The two's complement word of `w` bits, and the signed number that a word stands for.
abbrev pub to_word : ℕ → ℤ → ℕ
to_word m (pos n) = n % m
to_word m (negsuc n) = m - 1 - n % m

abbrev pub of_word : ℕ → ℕ → ℤ
of_word half u = if ltb u half then pos u else negsuc (half + half - 1 - u)

abbrev pub half64 : ℕ
half64 = 2 ^ 63

abbrev pub half32 : ℕ
half32 = 2 ^ 31

-- `x + 1` and `x - 1` at Go's types int (64 bits) and int32.
abbrev pub inc_word : ℕ → ℤ → ℤ
inc_word half a = of_word half ((to_word (half + half) a + 1) % (half + half))

abbrev pub dec_word : ℕ → ℤ → ℤ
dec_word half a = of_word half ((to_word (half + half) a + (half + half) - 1) % (half + half))

unfoldable pub inc_int : ℤ → ℤ
inc_int a = inc_word half64 a

unfoldable pub dec_int : ℤ → ℤ
dec_int a = dec_word half64 a

unfoldable pub inc_int32 : ℤ → ℤ
inc_int32 a = inc_word half32 a

unfoldable pub dec_int32 : ℤ → ℤ
dec_int32 a = dec_word half32 a

-- The values of the Go type `int`.
abbrev pub IsInt : ℤ → Type 0
IsInt a = (pos_part a < half64) × (neg_part a ≤ half64)

-- In range, a step up or down is that of the integers.
pub inc_int_parts :
    (a : ℤ)
    → pos_part a + 1 < half64
    → neg_part a ≤ half64
    → pos_part (inc_int a) + neg_part a ≡ neg_part (inc_int a) + pos_part a + 1
unfolding inc_int
inc_int_parts (pos n) h k = ground arith
inc_int_parts (negsuc n) h k = ground arith

pub dec_int_parts :
    (a : ℤ)
    → pos_part a < half64
    → neg_part a < half64
    → pos_part (dec_int a) + neg_part a + 1 ≡ neg_part (dec_int a) + pos_part a
unfolding dec_int
dec_int_parts (pos n) h k = ground arith
dec_int_parts (negsuc n) h k = ground arith
