-- ===== src/Prelude/Bytes/Components.antt =====
-- Which tests on a whole text say that one of its parts, split at a byte, is a given word.
use Prim.Native.Nat.{ℕ}
use mathlib.Core.Path.{◌≡◌, refl, sym}
use mathlib.Core.Bool.{false, ◌||◌}
use mathlib.Core.List.{List, [], ◌∷◌, ◌++◌}
use native.Mathlib.Omega.{arith}
use codex_claude_author_crit.Prelude.Tests.{◌==◌, nat_eq, list_eq, list_beq}
use codex_claude_author_crit.Prelude.Lists.{elem}
use codex_claude_author_crit.Prelude.Bytes.{
  Bytes, split, cons_head, starts_with, ends_with, contains,
}
use codex_claude_author_crit.Prelude.Bytes.Split.{split_shape}

abbrev first : List Bytes → Bytes
first [] = []
first (p ∷ ps) = p

abbrev others : List Bytes → List Bytes
others [] = []
others (p ∷ ps) = ps

module _ (c : ℕ) where
  -- The first part is `w`: the text is `w`, or begins with `w` and the separator.
  first-split :
      (w s : Bytes)
      → elem c w ≡ false
      → (first (split c s) == w) ≡ (s == w || starts_with s (w ++ c ∷ []))
  unfolding split cons_head starts_with list_beq elem
  first-split [] [] h = refl
  first-split (b ∷ w) [] h = refl
  first-split [] (a ∷ s) h = let (p, ps, e) = split_shape c s in rw e (ground arith)
  first-split (b ∷ w) (a ∷ s) h =
      let (p, ps, e) = split_shape c s in
      first_step a b s w p ps e h (rw e at (first-split w s (ground arith)))
    where
      first_step :
          (a b : ℕ) (s w p : Bytes) (ps : List Bytes)
          → split c s ≡ p ∷ ps
          → elem c (b ∷ w) ≡ false
          → (p == w) ≡ (s == w || starts_with s (w ++ c ∷ []))
          → (first (split c (a ∷ s)) == (b ∷ w))
            ≡ ((a ∷ s) == (b ∷ w) || starts_with (a ∷ s) (b ∷ w ++ c ∷ []))
      first_step a b s w p ps e h ih = rw e (ground arith)

  others-split :
      (w s : Bytes)
      → elem c w ≡ false
      → elem w (others (split c s)) ≡ (ends_with s (c ∷ w) || contains s (c ∷ w ++ c ∷ []))
  unfolding split cons_head starts_with ends_with contains list_beq elem
  others-split w [] h = refl
  others-split w (a ∷ s) h =
      let (p, ps, e) = split_shape c s in
      others_step a s w p ps e (rw e at (first-split w s h)) (rw e at (others-split w s h))
    where
      others_step :
          (a : ℕ) (s w p : Bytes) (ps : List Bytes)
          → split c s ≡ p ∷ ps
          → (p == w) ≡ (s == w || starts_with s (w ++ c ∷ []))
          → elem w ps ≡ (ends_with s (c ∷ w) || contains s (c ∷ w ++ c ∷ []))
          → elem w (others (split c (a ∷ s)))
            ≡ (ends_with (a ∷ s) (c ∷ w) || contains (a ∷ s) (c ∷ w ++ c ∷ []))
      others_step a s w p ps e head tail = rw e (ground arith)

-- A word without the separator is a part of the text exactly when the text is the word, begins
-- with it and a separator, ends with a separator and it, or holds it between two separators.
pub elem-split :
    (c : ℕ) (w s : Bytes)
    → elem c w ≡ false
    → elem w (split c s) ≡ (
        (s == w || starts_with s (w ++ c ∷ []))
        || (ends_with s (c ∷ w) || contains s (c ∷ w ++ c ∷ [])))
unfolding elem
elem-split c w s h =
    let (p, ps, e) = split_shape c s in
    rw (sym (first-split c w s h), sym (others-split c w s h), e) refl
