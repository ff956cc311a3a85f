-- ===== src/Prelude/Bytes/Split.antt =====
-- Laws of `split` and `join`, and how the tests on a whole path meet its components.
use Prim.Native.Nat.{ℕ}
use mathlib.Core.Path.{◌≡◌, refl, sym, ap, ap₂, ◌∙◌}
use mathlib.Core.Logic.{inl, inr}
use mathlib.Core.List.{List, [], ◌∷◌}
use codex_claude_author_crit.Prelude.Tests.{◌==◌, Bool-cases, nat_eq, nat_beq_iff, list_eq}
use codex_claude_author_crit.Prelude.Bytes.{Bytes, split, join, cons_head}

-- A split has a first part.
pub split_shape : (c : ℕ) (s : Bytes) → (p : Bytes) × (ps : List Bytes) × (split c s ≡ p ∷ ps)
unfolding split cons_head
split_shape c [] = ([], [], refl)
split_shape c (a ∷ s) = shape_step c a (split_shape c s)
  where
    shape_step :
        (c a : ℕ)
        → (p : Bytes) × (ps : List Bytes) × (split c s ≡ p ∷ ps)
        → (p : Bytes) × (ps : List Bytes) × (split c (a ∷ s) ≡ p ∷ ps)
    shape_step c a (p, ps, e) = elim (Bool-cases (a == c)) [
      | inl same ↦ ([], split c s, rw same)
      | inr other ↦ (a ∷ p, ps, rw (other, e))
    ]

pub join-cons :
    (c a : ℕ) (p : Bytes) (ps : List Bytes) → join c ((a ∷ p) ∷ ps) ≡ a ∷ join c (p ∷ ps)
unfolding join
join-cons c a p [] = refl
join-cons c a p (q ∷ ps) = refl

join_step :
    (c a : ℕ) (s p : Bytes) (ps : List Bytes)
    → split c s ≡ p ∷ ps
    → join c (split c s) ≡ s
    → join c (split c (a ∷ s)) ≡ a ∷ s
unfolding split join cons_head
join_step c a s p ps e h = elim (Bool-cases (a == c)) [
  | inl same ↦
      rw (same, e)
        (ap₂ (λ (x : ℕ) (t : Bytes). x ∷ t) (sym ((nat_beq_iff a c).0 same))
          (ap (join c) (sym e) ∙ h))
  | inr other ↦ rw (other, e, join-cons) (ap (λ t. a ∷ t) (ap (join c) (sym e) ∙ h))
]

-- Joining what `split` returns gives the text back.
pub join-split : (c : ℕ) (s : Bytes) → join c (split c s) ≡ s
unfolding join split
join-split c [] = refl
join-split c (a ∷ s) = let (p, ps, e) = split_shape c s in join_step c a s p ps e (join-split c s)
