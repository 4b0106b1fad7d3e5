-- ===== src/Base/Int.antt =====
-- Go's int64: signed integers over the native numbers, and the wrap-around of 64-bit arithmetic.
use Prim.Native.Nat.{ℕ, suc, ◌+◌, ◌-◌, ◌%◌, ◌^◌, ◌≤◌}
use mathlib.Core.Path.{◌≡◌, ap, sym, ◌∙◌}
use mathlib.Core.Bool.{Bool}
use native.Mathlib.Omega.{arith}
use go_gvisor_containerd_let.Base.Tests.{ltb, leb, ◌==◌, if◌then◌else◌}

-- `negsuc n` is -(n + 1).
pub data ℤ : Type 0 where
  pos : ℕ → ℤ
  negsuc : ℕ → ℤ

abbrev pub pos_part : ℤ → ℕ
pos_part (pos n) = n
pos_part (negsuc n) = 0

abbrev pub neg_part : ℤ → ℕ
neg_part (pos n) = 0
neg_part (negsuc n) = suc n

-- a - b, as an integer.
abbrev pub sub_ℕ : ℕ → ℕ → ℤ
sub_ℕ a b = if leb b a then pos (a - b) else negsuc (b - a - 1)

infixl 65 ◌+ℤ◌ ◌-ℤ◌
infix 50 ◌≤ℤ◌
unfoldable pub ◌+ℤ◌ : ℤ → ℤ → ℤ
a +ℤ b = sub_ℕ (pos_part a + pos_part b) (neg_part a + neg_part b)

unfoldable pub ◌-ℤ◌ : ℤ → ℤ → ℤ
a -ℤ b = sub_ℕ (pos_part a + neg_part b) (neg_part a + pos_part b)

abbrev pub ◌≤ℤ◌ : ℤ → ℤ → Type 0
a ≤ℤ b = pos_part a + neg_part b ≤ pos_part b + neg_part a

abbrev pub ltb_ℤ : ℤ → ℤ → Bool
ltb_ℤ a b = ltb (pos_part a + neg_part b) (pos_part b + neg_part a)

abbrev pub leb_ℤ : ℤ → ℤ → Bool
leb_ℤ a b = leb (pos_part a + neg_part b) (pos_part b + neg_part a)

abbrev pub eqb_ℤ : ℤ → ℤ → Bool
eqb_ℤ a b = pos_part a + neg_part b == pos_part b + neg_part a

-- SQL's `MAX(0, a)`.
abbrev pub max_zero : ℤ → ℤ
max_zero (pos n) = pos n
max_zero (negsuc n) = pos 0

pub +ℤ_parts :
    (a b : ℤ)
    → pos_part (a +ℤ b) + neg_part a + neg_part b ≡ neg_part (a +ℤ b) + pos_part a + pos_part b
unfolding ◌+ℤ◌
+ℤ_parts a b = ground arith

pub -ℤ_parts :
    (a b : ℤ)
    → pos_part (a -ℤ b) + neg_part a + pos_part b ≡ neg_part (a -ℤ b) + pos_part a + neg_part b
unfolding ◌-ℤ◌
-ℤ_parts a b = ground arith

pub eq_of_parts : (a b : ℤ) → pos_part a + neg_part b ≡ pos_part b + neg_part a → a ≡ b
eq_of_parts a b h = ground arith

pub ruleset int_laws = (arith, +ℤ_parts, -ℤ_parts, eq_of_parts)

-- The residue of an integer modulo 2 ^ 64, and the int64 with that bit pattern.
abbrev pub word : ℤ → ℕ
word (pos n) = n % 2 ^ 64
word (negsuc n) = 2 ^ 64 - 1 - n % 2 ^ 64

abbrev pub of_word : ℕ → ℤ
of_word m = if ltb m (2 ^ 63) then pos m else negsuc (2 ^ 64 - 1 - m)

unfoldable pub int64 : ℤ → ℤ
int64 a = of_word (word a)

abbrev pub InInt64 : ℤ → Type 0
InInt64 a = (pos_part a + 1 ≤ 2 ^ 63) × (neg_part a ≤ 2 ^ 63)

-- Within its range the wrap-around changes nothing.
pub int64_exact : (a : ℤ) → InInt64 a → int64 a ≡ a
unfolding int64
int64_exact (pos n) h = ground arith
int64_exact (negsuc n) h = ground arith

-- The result is always an int64.
pub int64-InInt64 : (a : ℤ) → InInt64 (int64 a)
unfolding int64
int64-InInt64 (pos n) = ground arith
int64-InInt64 (negsuc n) = ground arith

word-int64 : (a : ℤ) → word (int64 a) ≡ word a
unfolding int64
word-int64 (pos n) = ground arith
word-int64 (negsuc n) = ground arith

word-sub_ℕ : (a b : ℕ) → word (sub_ℕ a b) ≡ (a + (2 ^ 64 - b % 2 ^ 64)) % 2 ^ 64
word-sub_ℕ a b = ground arith

-- The residue of a sum is that of the sum of the residues.
word-+ℤ : (a b : ℤ) → word (a +ℤ b) ≡ (word a + word b) % 2 ^ 64
unfolding ◌+ℤ◌
word-+ℤ (pos a) (pos b) = omega (arith, word-sub_ℕ (a + b) (0 + 0))
word-+ℤ (pos a) (negsuc b) = omega (arith, word-sub_ℕ (a + 0) (0 + suc b))
word-+ℤ (negsuc a) (pos b) = omega (arith, word-sub_ℕ (0 + b) (suc a + 0))
word-+ℤ (negsuc a) (negsuc b) = omega (arith, word-sub_ℕ (0 + 0) (suc a + suc b))

-- A sum that wraps at each step is the sum that wraps once.
pub int64-+ℤ : (a b : ℤ) → int64 (int64 a +ℤ b) ≡ int64 (a +ℤ b)
int64-+ℤ a b =
    unfold int64 in
    ap of_word (
      word-+ℤ (int64 a) b
      ∙ ap (λ (w : ℕ). (w + word b) % 2 ^ 64) (word-int64 a)
      ∙ sym (word-+ℤ a b))
