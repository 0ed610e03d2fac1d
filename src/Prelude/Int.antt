-- ===== src/Prelude/Int.antt =====
-- Signed machine integers as integers over the native numbers, under the library's names.
use Prim.Native.Nat.{ℕ, suc, ◌+◌, ◌-◌, ◌%◌, ◌<◌}
use mathlib.Core.Bool.{Bool}
use be_better.Prelude.Tests.{ltb, ◌==◌, if◌then◌else◌}

-- `negsuc n` is -(n + 1).
pub data ℤ : Type 0 where
  pos : ℕ → ℤ
  negsuc : ℕ → ℤ

abbrev pub pos_part : ℤ → ℕ
pos_part (pos n) = n
pos_part (negsuc n) = 0

abbrev pub neg_part : ℤ → ℕ
neg_part (pos n) = 0
neg_part (negsuc n) = suc n

infix 50 ◌<ℤ◌
abbrev pub ◌<ℤ◌ : ℤ → ℤ → Type 0
a <ℤ b = pos_part a + neg_part b < pos_part b + neg_part a

abbrev pub ltb_ℤ : ℤ → ℤ → Bool
ltb_ℤ a b = ltb (pos_part a + neg_part b) (pos_part b + neg_part a)

abbrev pub eqb_ℤ : ℤ → ℤ → Bool
eqb_ℤ a b = pos_part a + neg_part b == pos_part b + neg_part a

-- The signed integer of w bits with the same low bits; `half` is 2 ^ (w - 1).
abbrev pub of_bits : ℕ → ℕ → ℤ
of_bits half n = if ltb n half then pos n else negsuc (half + half - 1 - n)

-- The conversion of an integer to w bits.
abbrev pub wrapped : ℕ → ℤ → ℤ
wrapped half (pos n) = of_bits half (n % (half + half))
wrapped half (negsuc n) = of_bits half (half + half - 1 - n % (half + half))

abbrev pub int32_half : ℕ
int32_half = 2_147_483_648

abbrev pub int64_half : ℕ
int64_half = 9_223_372_036_854_775_808
