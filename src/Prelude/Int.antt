-- ===== src/Prelude/Int.antt =====
-- Signed integers over the native numbers, with the tests that the source applies to an `int`.
use Prim.Native.Nat.{ℕ, suc, ◌+◌, ◌-◌, ◌≤◌, ◌<◌}
use mathlib.Core.Path.{◌≡◌, ap}
use native.Mathlib.Omega.{arith}
use mathlib.Core.Bool.{Bool, true}
use net_llm.Prelude.Tests.{ltb, leb, ◌==◌, if◌then◌else◌}

-- `negsuc n` is -(n + 1).
pub data ℤ : Type 0 where
  pos : ℕ → ℤ
  negsuc : ℕ → ℤ

abbrev pub pos_part : ℤ → ℕ
pos_part (pos n) = n
pos_part (negsuc n) = 0

abbrev pub neg_part : ℤ → ℕ
neg_part (pos n) = 0
neg_part (negsuc n) = suc n

infix 50 ◌≤ℤ◌ ◌<ℤ◌
abbrev pub ◌≤ℤ◌ : ℤ → ℤ → Type 0
a ≤ℤ b = pos_part a + neg_part b ≤ pos_part b + neg_part a

abbrev pub ◌<ℤ◌ : ℤ → ℤ → Type 0
a <ℤ b = pos_part a + neg_part b < pos_part b + neg_part a

abbrev pub ltb_ℤ : ℤ → ℤ → Bool
ltb_ℤ a b = ltb (pos_part a + neg_part b) (pos_part b + neg_part a)

abbrev pub leb_ℤ : ℤ → ℤ → Bool
leb_ℤ a b = leb (pos_part a + neg_part b) (pos_part b + neg_part a)

-- The difference of two natural numbers.
infixl 60 ◌⊖◌
abbrev pub ◌⊖◌ : ℕ → ℕ → ℤ
m ⊖ n = if leb n m then pos (m - n) else negsuc (n - m - 1)

infixl 60 ◌+ℤ◌ ◌-ℤ◌
unfoldable pub ◌+ℤ◌ : ℤ → ℤ → ℤ
a +ℤ b = (pos_part a + pos_part b) ⊖ (neg_part a + neg_part b)

unfoldable pub ◌-ℤ◌ : ℤ → ℤ → ℤ
a -ℤ b = (pos_part a + neg_part b) ⊖ (neg_part a + pos_part b)

parts-diff : (m n : ℕ) → pos_part (m ⊖ n) + n ≡ m + neg_part (m ⊖ n)
parts-diff m n = ground arith

-- A sum and a difference, as an equation between natural numbers.
pub parts-add :
    (a b : ℤ)
    → pos_part (a +ℤ b) + (neg_part a + neg_part b) ≡ pos_part a + pos_part b + neg_part (a +ℤ b)
unfolding ◌+ℤ◌
parts-add a b = parts-diff (pos_part a + pos_part b) (neg_part a + neg_part b)

pub parts-sub :
    (a b : ℤ)
    → pos_part (a -ℤ b) + (neg_part a + pos_part b) ≡ pos_part a + neg_part b + neg_part (a -ℤ b)
unfolding ◌-ℤ◌
parts-sub a b = parts-diff (pos_part a + neg_part b) (neg_part a + pos_part b)

-- Two integers are equal where their parts balance.
pub ext_ℤ : (a b : ℤ) → pos_part a + neg_part b ≡ pos_part b + neg_part a → a ≡ b
ext_ℤ (pos m) (pos n) e = ap pos (omega arith)
ext_ℤ (pos m) (negsuc n) e = absurd (omega arith)
ext_ℤ (negsuc m) (pos n) e = absurd (omega arith)
ext_ℤ (negsuc m) (negsuc n) e = ap negsuc (omega arith)

abbrev pub eqb_ℤ : ℤ → ℤ → Bool
eqb_ℤ a b = (pos_part a + neg_part b) == (pos_part b + neg_part a)

pub eqb-eq : (a b : ℤ) → eqb_ℤ a b ≡ true → a ≡ b
eqb-eq a b e = ext_ℤ a b (ground (arith, e))

-- The largest `int`, of 64 bits.
abbrev pub max_int : ℕ
max_int = 9223372036854775807

-- The `int` that Go gives for a sum or difference of two of them, which wraps by 2 ^ 64 once at most.
unfoldable pub wrap_int : ℤ → ℤ
wrap_int (pos n) = if ltb max_int n then negsuc (18446744073709551615 - n) else pos n
wrap_int (negsuc n) = if ltb max_int n then pos (18446744073709551615 - n) else negsuc n
