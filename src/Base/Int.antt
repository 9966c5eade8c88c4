-- ===== src/Base/Int.antt =====
-- Go's signed integers: ℤ over the native numbers, and the wrap-around of a w-bit result.
use Prim.Native.Nat.{ℕ, suc, ◌+◌, ◌-◌, ◌*◌, ◌%◌, ◌^◌, ◌≤◌, ◌<◌}
use mathlib.Core.Path.{◌≡◌}
use mathlib.Core.Bool.{Bool}
use native.Mathlib.Nat.{mod-eq_of_lt}
use native.Mathlib.Omega.{arith}
use rep.Base.Tests.{ltb, leb, if◌then◌else◌}

-- `negsuc n` is -(n + 1).
pub data ℤ : Type 0 where
  pos : ℕ → ℤ
  negsuc : ℕ → ℤ

abbrev pub pos_part : ℤ → ℕ
pos_part (pos n) = n
pos_part (negsuc n) = 0

abbrev pub neg_part : ℤ → ℕ
neg_part (pos n) = 0
neg_part (negsuc n) = suc n

abbrev pub sub_ℕ : ℕ → ℕ → ℤ
sub_ℕ a b = if leb b a then pos (a - b) else negsuc (b - a - 1)

infixl 65 ◌+ℤ◌ ◌-ℤ◌
infix 50 ◌≤ℤ◌ ◌<ℤ◌
unfoldable pub ◌+ℤ◌ : ℤ → ℤ → ℤ
a +ℤ b = sub_ℕ (pos_part a + pos_part b) (neg_part a + neg_part b)

unfoldable pub ◌-ℤ◌ : ℤ → ℤ → ℤ
a -ℤ b = sub_ℕ (pos_part a + neg_part b) (neg_part a + pos_part b)

abbrev pub ◌≤ℤ◌ : ℤ → ℤ → Type 0
a ≤ℤ b = pos_part a + neg_part b ≤ pos_part b + neg_part a

abbrev pub ◌<ℤ◌ : ℤ → ℤ → Type 0
a <ℤ b = pos_part a + neg_part b < pos_part b + neg_part a

abbrev pub ltb_ℤ : ℤ → ℤ → Bool
ltb_ℤ a b = ltb (pos_part a + neg_part b) (pos_part b + neg_part a)

pub +ℤ_parts :
    (a b : ℤ)
    → pos_part (a +ℤ b) + neg_part a + neg_part b ≡ neg_part (a +ℤ b) + pos_part a + pos_part b
unfolding ◌+ℤ◌
+ℤ_parts a b = ground arith

pub -ℤ_parts :
    (a b : ℤ)
    → pos_part (a -ℤ b) + neg_part a + pos_part b ≡ neg_part (a -ℤ b) + pos_part a + neg_part b
unfolding ◌-ℤ◌
-ℤ_parts a b = ground arith

pub eq_of_parts : (a b : ℤ) → pos_part a + neg_part b ≡ pos_part b + neg_part a → a ≡ b
eq_of_parts a b h = ground arith

pub ruleset int_laws = (arith, +ℤ_parts, -ℤ_parts, eq_of_parts)

-- The residue of an integer modulo 2 * half, as a bit pattern, and the integer that it stands for.
unfoldable pub residue : ℕ → ℤ → ℕ
residue half (pos n) = n % (2 * half)
residue half (negsuc n) = 2 * half - 1 - n % (2 * half)

signed : ℕ → ℕ → ℤ
signed half r = if ltb r half then pos r else negsuc (2 * half - r - 1)

-- A result of signed arithmetic on a word whose positive range ends below `half`.
unfoldable pub wrap : ℕ → ℤ → ℤ
unfolding residue signed
wrap half z = signed half (residue half z)

-- int32, and int on the 64-bit platforms that the program is built for.
abbrev pub half32 : ℕ
half32 = 2 ^ 31

abbrev pub half64 : ℕ
half64 = 2 ^ 63

abbrev pub int32 : ℤ → ℤ
int32 = wrap half32

abbrev pub int64 : ℤ → ℤ
int64 = wrap half64

-- The integers of the word: -half ≤ z < half.
abbrev pub InWord : ℕ → ℤ → Type 0
InWord half z = (pos_part z < half) × (neg_part z ≤ half)

-- In range nothing wraps.
pub wrap-InWord : (half : ℕ) (z : ℤ) → InWord half z → wrap half z ≡ z
unfolding wrap
wrap-InWord half (pos n) h = ground (arith, mod-eq_of_lt {n = n} {m = 2 * half})
wrap-InWord half (negsuc n) h = ground (arith, mod-eq_of_lt {n = n} {m = 2 * half})
