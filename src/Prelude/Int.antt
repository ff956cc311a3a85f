-- ===== src/Prelude/Int.antt =====
-- Integers over the native numbers, with their order and its tests. The program's timestamps are
-- floats, of which it only compares; they stand here as integers, counted in any unit.
use Prim.Native.Nat.{ℕ, suc, ◌+◌, ◌-◌, ◌≤◌}
use mathlib.Core.Path.{◌≡◌}
use mathlib.Core.Logic.{◌↔◌}
use mathlib.Core.Bool.{Bool, true, false}
use native.Mathlib.Omega.{arith}
use codex_claude_author_crit.Prelude.Tests.{Eq, ltb, leb, nat_beq}

-- `negsuc n` is -(n + 1).
pub data ℤ : Type 0 where
  pos : ℕ → ℤ
  negsuc : ℕ → ℤ

abbrev pub pos_part : ℤ → ℕ
pos_part (pos n) = n
pos_part (negsuc _) = 0

abbrev pub neg_part : ℤ → ℕ
neg_part (pos _) = 0
neg_part (negsuc n) = suc n

infix 50 ◌≤ℤ◌
abbrev pub ◌≤ℤ◌ : ℤ → ℤ → Type 0
a ≤ℤ b = pos_part a + neg_part b ≤ pos_part b + neg_part a

abbrev pub leb_ℤ : ℤ → ℤ → Bool
leb_ℤ a b = leb (pos_part a + neg_part b) (pos_part b + neg_part a)

abbrev pub ltb_ℤ : ℤ → ℤ → Bool
ltb_ℤ a b = ltb (pos_part a + neg_part b) (pos_part b + neg_part a)

-- a - b, as an integer.
abbrev pub sub_ℕ : ℕ → ℕ → ℤ
sub_ℕ a b = elim (leb b a) [ true ↦ pos (a - b) | false ↦ negsuc (b - a - 1) ]

infixl 65 ◌+ℤ◌
unfoldable pub ◌+ℤ◌ : ℤ → ℤ → ℤ
a +ℤ b = sub_ℕ (pos_part a + pos_part b) (neg_part a + neg_part b)

-- With this the sum can stay shut.
pub +ℤ_parts :
    (a b : ℤ)
    → pos_part (a +ℤ b) + neg_part a + neg_part b ≡ neg_part (a +ℤ b) + pos_part a + pos_part b
unfolding ◌+ℤ◌
+ℤ_parts a b = ground arith

-- `x == y` on integers.
unfoldable pub ℤ_beq : ℤ → ℤ → Bool
ℤ_beq (pos a) (pos b) = nat_beq a b
ℤ_beq (negsuc a) (negsuc b) = nat_beq a b
ℤ_beq _ _ = false

pub ℤ_beq_iff : (a b : ℤ) → (ℤ_beq a b ≡ true) ↔ (a ≡ b)
unfolding ℤ_beq
ℤ_beq_iff (pos a) (pos b) = grind arith
ℤ_beq_iff (negsuc a) (negsuc b) = grind arith
ℤ_beq_iff (pos a) (negsuc b) = grind arith
ℤ_beq_iff (negsuc a) (pos b) = grind arith

instance abbrev pub ℤ_eq : Eq ℤ
ℤ_eq = record { beq = ℤ_beq; beq_iff = ℤ_beq_iff }
