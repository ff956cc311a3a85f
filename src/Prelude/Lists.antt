-- ===== src/Prelude/Lists.antt =====
-- Lists over the native numbers, and the tests `all`, `any` and `in`.
use Prim.Native.Nat.{ℕ, suc, ◌+◌}
use mathlib.Core.Path.{◌≡◌, refl, ap, subst}
use mathlib.Core.Logic.{inl, inr}
use mathlib.Core.Bool.{Bool, true, false, ◌&&◌, ◌||◌, not}
use mathlib.Core.List.{List, [], ◌∷◌, ◌++◌}
use native.Mathlib.Omega.{arith}
use codex_claude_author_crit.Prelude.Tests.{Eq, ◌==◌, if◌then◌else◌, Bool-cases}

-- A predicate on every item, by recursion: it computes to a tuple.
abbrev pub All {ℓ κ} : {A : Type ℓ} → (A → Type κ) → List A → Type κ
All Q [] = Unit
All Q (a ∷ as') = Q a × All Q as'

module _ {ℓ} {A : Type ℓ} where
  abbrev pub length : List A → ℕ
  length [] = 0
  length (x ∷ xs) = suc (length xs)

  pub length-append : (xs ys : List A) → length (xs ++ ys) ≡ length xs + length ys
  length-append [] ys = omega arith
  length-append (x ∷ xs) ys = omega (arith, length-append xs ys)

  unfoldable pub all : (A → Bool) → List A → Bool
  all p [] = true
  all p (x ∷ xs) = p x && all p xs

  unfoldable pub any : (A → Bool) → List A → Bool
  any p [] = false
  any p (x ∷ xs) = p x || any p xs

  unfoldable pub keep : (A → Bool) → List A → List A
  keep p [] = []
  keep p (x ∷ xs) = let rest = keep p xs in if p x then x ∷ rest else rest

  -- `all(...)` is the truth of every test.
  pub all-All : (p : A → Bool) (xs : List A) → all p xs ≡ true → All (λ x. p x ≡ true) xs
  unfolding all
  all-All p [] h = tt
  all-All p (x ∷ xs) h = ground (arith, all-All p xs)

  pub All-all : (p : A → Bool) (xs : List A) → All (λ x. p x ≡ true) xs → all p xs ≡ true
  unfolding all
  All-all p [] h = refl
  All-all p (x ∷ xs) h = ground (arith, All-all p xs h.1)

  pub All-map {κ ι} :
      (P : A → Type κ) (Q : A → Type ι)
      → ((x : A) → P x → Q x)
      → (xs : List A) → All P xs
      → All Q xs
  All-map P Q f [] h = tt
  All-map P Q f (x ∷ xs) h = (f x h.0, All-map P Q f xs h.1)

  pub All-append {κ} : (P : A → Type κ) (xs ys : List A) → All P xs → All P ys → All P (xs ++ ys)
  All-append P [] ys h k = k
  All-append P (x ∷ xs) ys h k = (h.0, All-append P xs ys h.1 k)

module _ {ℓ} {A : Type ℓ} ⦃e : Eq A⦄ where
  -- `a in xs`
  unfoldable pub elem : A → List A → Bool
  elem a [] = false
  elem a (x ∷ xs) = x == a || elem a xs

  -- `len(xs) == len(set(xs))`: no item stands twice.
  unfoldable pub unique : List A → Bool
  unfolding elem
  unique [] = true
  unique (x ∷ xs) = not (elem x xs) && unique xs

module _ {ℓ} {A : Type ℓ} where
  pub any-append : (p : A → Bool) (xs ys : List A) → any p (xs ++ ys) ≡ (any p xs || any p ys)
  unfolding any
  any-append p [] ys = refl
  any-append p (x ∷ xs) ys = ground (arith, any-append p xs ys)

  pub any-false-All : (p : A → Bool) (xs : List A) → any p xs ≡ false → All (λ x. p x ≡ false) xs
  unfolding any
  any-false-All p [] h = tt
  any-false-All p (x ∷ xs) h = ground (arith, any-false-All p xs)

  pub keep-All : (p : A → Bool) (xs : List A) → All (λ x. p x ≡ true) (keep p xs)
  unfolding keep
  keep-All p [] = tt
  keep-All p (x ∷ xs) = ground (arith, keep-All p xs)

  pub All-keep {κ} : (P : A → Type κ) (p : A → Bool) (xs : List A) → All P xs → All P (keep p xs)
  unfolding keep
  All-keep P p [] h = tt
  All-keep P p (x ∷ xs) h = elim (p x) as (λ b. All P (if b then x ∷ keep p xs else keep p xs)) [
    | true ↦ (h.0, All-keep P p xs h.1)
    | false ↦ All-keep P p xs h.1
  ]

module _ {ℓ} {A : Type ℓ} ⦃e : Eq A⦄ where
  pub elem-any : (a : A) (xs : List A) → elem a xs ≡ any (λ x. x == a) xs
  unfolding elem any
  elem-any a [] = refl
  elem-any a (x ∷ xs) = ap (λ b. x == a || b) (elem-any a xs)

  pub All-elem {κ} : (P : A → Type κ) (a : A) (xs : List A) → All P xs → elem a xs ≡ true → P a
  unfolding elem
  All-elem P a [] h m = cc
  All-elem P a (x ∷ xs) h m = elim (Bool-cases (x == a)) [
    | inl here ↦ subst P ((e.beq_iff x a).0 here) h.0
    | inr there ↦ All-elem P a xs h.1 (rw there at m)
  ]

  pub elem-All {κ} : (P : A → Type κ) (xs : List A) → ((a : A) → elem a xs ≡ true → P a) → All P xs
  unfolding elem
  elem-All P [] h = tt
  elem-All P (x ∷ xs) h =
      (h x (rw (e.beq_iff x x).1 refl), elem-All P xs (λ a m. h a (ground (arith, m))))
