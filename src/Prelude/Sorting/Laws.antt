-- ===== src/Prelude/Sorting/Laws.antt =====
-- `sorted` keeps the items, orders them, and leaves a list in order alone.
use mathlib.Core.Path.{◌≡◌, refl, sym, ◌∙◌}
use mathlib.Core.Logic.{inl, inr}
use mathlib.Core.Bool.{Bool, true, false, ◌||◌}
use mathlib.Core.List.{List, [], ◌∷◌, ◌++◌}
use native.Mathlib.Omega.{arith}
use codex_claude_author_crit.Prelude.Tests.{Eq, ◌==◌, Bool-cases}
use codex_claude_author_crit.Prelude.Lists.{All, any, All-map, elem, elem-any}
use codex_claude_author_crit.Prelude.Sorting.{insert_sorted, insert_all, sorted}

-- A strict order, by its test.
pub record IsStrictOrder {ℓ} {A : Type ℓ} (lt : A → A → Bool) : Type ℓ where
  pub lt_trans : (a b c : A) → lt a b ≡ true → lt b c ≡ true → lt a c ≡ true
  pub lt_asymm : (a b : A) → lt a b ≡ true → lt b a ≡ false

-- No item is less than one before it.
abbrev pub InOrder {ℓ} : {A : Type ℓ} → (A → A → Bool) → List A → Type 0
InOrder lt [] = Unit
InOrder lt (x ∷ xs) = All (λ y. lt y x ≡ false) xs × InOrder lt xs

module _ {ℓ} {A : Type ℓ} (lt : A → A → Bool) where
  any-insert_sorted :
      (p : A → Bool) (a : A) (xs : List A) → any p (insert_sorted lt a xs) ≡ (p a || any p xs)
  unfolding any insert_sorted
  any-insert_sorted p a [] = refl
  any-insert_sorted p a (x ∷ xs) = ground (arith, any-insert_sorted p a xs)

  any-insert_all :
      (p : A → Bool) (xs acc : List A) → any p (insert_all lt xs acc) ≡ (any p xs || any p acc)
  unfolding any insert_all
  any-insert_all p [] acc = refl
  any-insert_all p (x ∷ xs) acc =
      ground (arith, any-insert_all p xs (insert_sorted lt x acc), any-insert_sorted p x acc)

  pub any-sorted : (p : A → Bool) (xs : List A) → any p (sorted lt xs) ≡ any p xs
  unfolding sorted any
  any-sorted p xs = ground (arith, any-insert_all p xs [])

  pub elem-sorted : ⦃e : Eq A⦄ (a : A) (xs : List A) → elem a (sorted lt xs) ≡ elem a xs
  elem-sorted a xs = elem-any a (sorted lt xs) ∙ any-sorted (λ x. x == a) xs ∙ sym (elem-any a xs)

  All-insert_sorted {κ} :
      (P : A → Type κ) (a : A) (xs : List A) → P a → All P xs → All P (insert_sorted lt a xs)
  unfolding insert_sorted
  All-insert_sorted P a [] h k = (h, k)
  All-insert_sorted P a (x ∷ xs) h k = elim (Bool-cases (lt a x)) [
    | inl less ↦ rw less (h, k)
    | inr more ↦ rw more (k.0, All-insert_sorted P a xs h k.1)
  ]

  -- The last item goes to the end.
  insert_sorted_last :
      (a : A) (xs : List A) → All (λ x. lt a x ≡ false) xs → insert_sorted lt a xs ≡ xs ++ a ∷ []
  unfolding insert_sorted
  insert_sorted_last a [] h = refl
  insert_sorted_last a (x ∷ xs) h = ground (arith, insert_sorted_last a xs h.1)

  module _ (o : IsStrictOrder lt) where
    below_trans : (a x y : A) → lt a x ≡ true → lt y x ≡ false → lt y a ≡ false
    below_trans a x y h k = elim (Bool-cases (lt y a)) [
      | inl less ↦ absurd (cc (o.lt_trans y a x less h, k))
      | inr done ↦ done
    ]

    insert_sorted-InOrder :
        (a : A) (xs : List A) → InOrder lt xs → InOrder lt (insert_sorted lt a xs)
    unfolding insert_sorted
    insert_sorted-InOrder a [] h = (tt, tt)
    insert_sorted-InOrder a (x ∷ xs) h = elim (Bool-cases (lt a x)) [
      | inl less ↦ rw less (
        (
          o.lt_asymm a x less,
          All-map (λ y. lt y x ≡ false) (λ y. lt y a ≡ false) (λ y k. below_trans a x y less k) xs
              h.0,
        ),
        h,
      )
      | inr more ↦
          rw more
            (All-insert_sorted (λ y. lt y x ≡ false) a xs more h.0, insert_sorted-InOrder a xs h.1)
    ]

    insert_all-InOrder : (xs acc : List A) → InOrder lt acc → InOrder lt (insert_all lt xs acc)
    unfolding insert_all
    insert_all-InOrder [] acc h = h
    insert_all-InOrder (x ∷ xs) acc h =
        insert_all-InOrder xs (insert_sorted lt x acc) (insert_sorted-InOrder x acc h)

    pub sorted-InOrder : (xs : List A) → InOrder lt (sorted lt xs)
    unfolding sorted
    sorted-InOrder xs = insert_all-InOrder xs [] tt
