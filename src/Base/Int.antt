-- ===== src/Base/Int.antt =====
-- Go's signed integers as ℤ over the native numbers, and the machine words that stand for them.
use Prim.Native.Nat.{ℕ, suc, ◌+◌, ◌-◌, ◌*◌, ◌%◌, ◌^◌, ◌≤◌, ◌<◌}
use mathlib.Core.Path.{◌≡◌}
use mathlib.Core.Bool.{Bool, true, false}
use mathlib.Core.Logic.{◌↔◌}
use native.Mathlib.Omega.{arith}
use gokaf.Base.Tests.{ltb, leb, ◌==◌, if◌then◌else◌}

-- `negsuc n` is -(n + 1).
pub data ℤ : Type 0 where
  pos : ℕ → ℤ
  negsuc : ℕ → ℤ

abbrev pub pos_part : ℤ → ℕ
pos_part (pos n) = n
pos_part (negsuc n) = 0

abbrev pub neg_part : ℤ → ℕ
neg_part (pos n) = 0
neg_part (negsuc n) = suc n

abbrev pub sub_ℕ : ℕ → ℕ → ℤ
sub_ℕ a b = if leb b a then pos (a - b) else negsuc (b - a - 1)

abbrev pub is_negative : ℤ → Bool
is_negative (pos n) = false
is_negative (negsuc n) = true

infixl 65 ◌+ℤ◌ ◌-ℤ◌
abbrev pub ◌+ℤ◌ : ℤ → ℤ → ℤ
a +ℤ b = sub_ℕ (pos_part a + pos_part b) (neg_part a + neg_part b)

abbrev pub ◌-ℤ◌ : ℤ → ℤ → ℤ
a -ℤ b = sub_ℕ (pos_part a + neg_part b) (neg_part a + pos_part b)

infix 50 ◌≤ℤ◌ ◌<ℤ◌
abbrev pub ◌≤ℤ◌ : ℤ → ℤ → Type 0
a ≤ℤ b = pos_part a + neg_part b ≤ pos_part b + neg_part a

abbrev pub ◌<ℤ◌ : ℤ → ℤ → Type 0
a <ℤ b = pos_part a + neg_part b < pos_part b + neg_part a

abbrev pub ltb_ℤ : ℤ → ℤ → Bool
ltb_ℤ a b = ltb (pos_part a + neg_part b) (pos_part b + neg_part a)

abbrev pub leb_ℤ : ℤ → ℤ → Bool
leb_ℤ a b = leb (pos_part a + neg_part b) (pos_part b + neg_part a)

abbrev pub eq_ℤ : ℤ → ℤ → Bool
eq_ℤ a b = pos_part a + neg_part b == pos_part b + neg_part a

pub eq_ℤ_iff : (a b : ℤ) → (eq_ℤ a b ≡ true) ↔ (a ≡ b)
eq_ℤ_iff a b = ground arith

-- The bit pattern of an integer in a word with `m` values: Go's `uint16(v)`, `uint32(v)`, …
abbrev pub to_word : ℕ → ℤ → ℕ
to_word m (pos n) = n % m
to_word m (negsuc n) = m - 1 - n % m

-- The integer that a bit pattern stands for in a word with `2 * h` values: Go's `int16(u)`, …
abbrev pub of_word : ℕ → ℕ → ℤ
of_word h u = if ltb u h then pos u else negsuc (2 * h - 1 - u)

-- The range of a signed word with `2 * h` values.
abbrev pub InRange : ℕ → ℤ → Type 0
InRange h (pos n) = n < h
InRange h (negsuc n) = n < h

abbrev pub IsInt8 : ℤ → Type 0
IsInt8 = InRange (2 ^ 7)

abbrev pub IsInt16 : ℤ → Type 0
IsInt16 = InRange (2 ^ 15)

abbrev pub IsInt32 : ℤ → Type 0
IsInt32 = InRange (2 ^ 31)

abbrev pub IsInt64 : ℤ → Type 0
IsInt64 = InRange (2 ^ 63)

-- The wrap-around of arithmetic at a width.
abbrev pub wrap32 : ℤ → ℤ
wrap32 v = of_word (2 ^ 31) (to_word (2 ^ 32) v)

abbrev pub wrap64 : ℤ → ℤ
wrap64 v = of_word (2 ^ 63) (to_word (2 ^ 64) v)

pub of_word-to_word8 : (v : ℤ) → IsInt8 v → of_word (2 ^ 7) (to_word (2 ^ 8) v) ≡ v
of_word-to_word8 (pos n) h = ground arith
of_word-to_word8 (negsuc n) h = ground arith

pub of_word-to_word16 : (v : ℤ) → IsInt16 v → of_word (2 ^ 15) (to_word (2 ^ 16) v) ≡ v
of_word-to_word16 (pos n) h = ground arith
of_word-to_word16 (negsuc n) h = ground arith

pub of_word-to_word32 : (v : ℤ) → IsInt32 v → wrap32 v ≡ v
of_word-to_word32 (pos n) h = ground arith
of_word-to_word32 (negsuc n) h = ground arith

pub of_word-to_word64 : (v : ℤ) → IsInt64 v → wrap64 v ≡ v
of_word-to_word64 (pos n) h = ground arith
of_word-to_word64 (negsuc n) h = ground arith
