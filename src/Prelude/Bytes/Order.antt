-- ===== src/Prelude/Bytes/Order.antt =====
-- The order of byte strings, and the ancestors of a path.
use Prim.Native.Nat.{ℕ}
use mathlib.Core.Path.{◌≡◌, refl, ◌∙◌}
use mathlib.Core.Bool.{true, false}
use mathlib.Core.List.{List, [], ◌∷◌, ◌++◌, map}
use native.Mathlib.Omega.{arith}
use codex_claude_author_crit.Prelude.Tests.{list_eq, nat_eq}
use codex_claude_author_crit.Prelude.Lists.{All}
use codex_claude_author_crit.Prelude.Sorting.Laws.{IsStrictOrder}
use codex_claude_author_crit.Prelude.Bytes.{Bytes, bytes_lt, split, join}
use codex_claude_author_crit.Prelude.Bytes.Split.{join-split}

bytes_lt_trans : (p q r : Bytes) → bytes_lt p q ≡ true → bytes_lt q r ≡ true → bytes_lt p r ≡ true
unfolding bytes_lt
bytes_lt_trans [] [] r h k = cc
bytes_lt_trans [] (b ∷ q) [] h k = cc
bytes_lt_trans [] (b ∷ q) (c ∷ r) h k = refl
bytes_lt_trans (a ∷ p) [] r h k = cc
bytes_lt_trans (a ∷ p) (b ∷ q) [] h k = cc
bytes_lt_trans (a ∷ p) (b ∷ q) (c ∷ r) h k = ground (arith, bytes_lt_trans p q r)

bytes_lt_asymm : (p q : Bytes) → bytes_lt p q ≡ true → bytes_lt q p ≡ false
unfolding bytes_lt
bytes_lt_asymm [] [] h = cc
bytes_lt_asymm [] (b ∷ q) h = refl
bytes_lt_asymm (a ∷ p) [] h = cc
bytes_lt_asymm (a ∷ p) (b ∷ q) h = ground (arith, bytes_lt_asymm p q)

pub bytes_lt_irrefl : (p : Bytes) → bytes_lt p p ≡ false
unfolding bytes_lt
bytes_lt_irrefl [] = refl
bytes_lt_irrefl (a ∷ p) = ground (arith, bytes_lt_irrefl p)

-- Two byte strings of which neither is less are the same.
pub bytes_lt_total : (p q : Bytes) → bytes_lt p q ≡ false → bytes_lt q p ≡ false → p ≡ q
unfolding bytes_lt
bytes_lt_total [] [] h k = refl
bytes_lt_total [] (b ∷ q) h k = cc
bytes_lt_total (a ∷ p) [] h k = cc
bytes_lt_total (a ∷ p) (b ∷ q) h k = ground (arith, bytes_lt_total p q)

pub bytes_order : IsStrictOrder bytes_lt
bytes_order = record { lt_trans = bytes_lt_trans; lt_asymm = bytes_lt_asymm }

pub bytes_lt-append : (p q : Bytes) (a : ℕ) → bytes_lt p (p ++ a ∷ q) ≡ true
unfolding bytes_lt
bytes_lt-append [] q a = refl
bytes_lt-append (b ∷ p) q a = ground (arith, bytes_lt-append p q a)

-- The texts of the proper prefixes of a split path: `c.join(parts[:end])` for each `end` from 1 to
-- one less than the number of parts.
unfoldable pub ancestors : ℕ → List Bytes → List Bytes
ancestors c [] = []
ancestors c (p ∷ []) = []
ancestors c (p ∷ q ∷ ps) = p ∷ map (λ t. p ++ c ∷ t) (ancestors c (q ∷ ps))

bytes_lt-append_self : (p x y : Bytes) → bytes_lt (p ++ x) (p ++ y) ≡ bytes_lt x y
unfolding bytes_lt
bytes_lt-append_self [] x y = refl
bytes_lt-append_self (b ∷ p) x y = ground (arith, bytes_lt-append_self p x y)

bytes_lt-cons_self : (c : ℕ) (x y : Bytes) → bytes_lt (c ∷ x) (c ∷ y) ≡ bytes_lt x y
unfolding bytes_lt
bytes_lt-cons_self c x y = ground arith

under_parent :
    (c : ℕ) (p y : Bytes) (xs : List Bytes)
    → All (λ t. bytes_lt t y ≡ true) xs
    → All (λ t. bytes_lt t (p ++ c ∷ y) ≡ true) (map (λ t. p ++ c ∷ t) xs)
under_parent c p y [] h = tt
under_parent c p y (x ∷ xs) h = (
  bytes_lt-append_self p (c ∷ x) (c ∷ y) ∙ bytes_lt-cons_self c x y ∙ h.0,
  under_parent c p y xs h.1,
)

ancestors_below :
    (c : ℕ) (parts : List Bytes) → All (λ t. bytes_lt t (join c parts) ≡ true) (ancestors c parts)
unfolding ancestors join
ancestors_below c [] = tt
ancestors_below c (p ∷ []) = tt
ancestors_below c (p ∷ q ∷ ps) = (
  bytes_lt-append p (join c (q ∷ ps)) c,
  under_parent c p (join c (q ∷ ps)) (ancestors c (q ∷ ps)) (ancestors_below c (q ∷ ps)),
)

-- A path comes after each of its ancestors.
pub ancestors_lt : (c : ℕ) (s : Bytes) → All (λ t. bytes_lt t s ≡ true) (ancestors c (split c s))
ancestors_lt c s = rw join-split at (ancestors_below c (split c s))
