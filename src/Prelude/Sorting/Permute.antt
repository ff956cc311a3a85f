-- ===== src/Prelude/Sorting/Permute.antt =====
-- `sorted` gives the same list for the same items in another order, where the order tells different
-- items apart.
use mathlib.Core.Path.{◌≡◌, refl, sym, ap, ap₂, subst, ◌∙◌}
use mathlib.Core.Logic.{◌⊎◌, inl, inr}
use mathlib.Core.Bool.{Bool, true}
use mathlib.Core.List.{List, [], ◌∷◌, Permᴰ}
use native.Mathlib.Omega.{arith}
use codex_claude_author_crit.Prelude.Lists.{All}
use codex_claude_author_crit.Prelude.Sorting.{insert_sorted, insert_all, sorted}
use codex_claude_author_crit.Prelude.Sorting.Laws.{IsStrictOrder}

module _ {A : Type 0} (lt : A → A → Bool) (o : IsStrictOrder lt) where
  insert_sorted_swap :
      (a b : A) (xs : List A)
      → lt a b ≡ true
      → insert_sorted lt a (insert_sorted lt b xs) ≡ insert_sorted lt b (insert_sorted lt a xs)
  unfolding insert_sorted
  insert_sorted_swap a b [] h = ground (arith, o.lt_asymm a b)
  insert_sorted_swap a b (x ∷ xs) h =
      ground (arith, o.lt_asymm a b, o.lt_trans a b x, insert_sorted_swap a b xs h)

  -- Two items are the same, or one is less.
  abbrev pub Apart : A → A → Type 0
  Apart a b = (a ≡ b) ⊎ ((lt a b ≡ true) ⊎ (lt b a ≡ true))

  insert_sorted_comm :
      (a b : A) (xs : List A)
      → Apart a b
      → insert_sorted lt a (insert_sorted lt b xs) ≡ insert_sorted lt b (insert_sorted lt a xs)
  insert_sorted_comm a b xs (inl e) =
      ap₂ (λ x y. insert_sorted lt x (insert_sorted lt y xs)) e (sym e)
  insert_sorted_comm a b xs (inr (inl h)) = insert_sorted_swap a b xs h
  insert_sorted_comm a b xs (inr (inr h)) = sym (insert_sorted_swap b a xs h)

  Apart-sym : (a b : A) → Apart a b → Apart b a
  Apart-sym a b (inl e) = inl (sym e)
  Apart-sym a b (inr (inl h)) = inr (inr h)
  Apart-sym a b (inr (inr h)) = inr (inl h)

  abbrev pub AllApart : List A → Type 0
  AllApart [] = Unit {0}
  AllApart (x ∷ xs) = All (Apart x) xs × AllApart xs

  All-permuted : (P : A → Type 0) {xs ys : List A} → Permᴰ xs ys → All P xs → All P ys
  All-permuted P Permᴰ.nil h = h
  All-permuted P (Permᴰ.cons e p) h = (subst P e h.0, All-permuted P p h.1)
  All-permuted P (Permᴰ.swap e f) h = (subst P f h.1.0, (subst P e h.0, h.1.1))
  All-permuted P (Permᴰ.trans p q) h = All-permuted P q (All-permuted P p h)

  Apart-same : {a b x y : A} → Apart a b → a ≡ x → b ≡ y → Apart x y
  Apart-same {a = a} {y = y} k e f = subst (λ z. Apart z y) e (subst (λ z. Apart a z) f k)

  AllApart-permuted : {xs ys : List A} → Permᴰ xs ys → AllApart xs → AllApart ys
  AllApart-permuted Permᴰ.nil h = h
  AllApart-permuted (Permᴰ.cons {a = a} {l₂ = ys} e p) h =
      (subst (λ z. All (Apart z) ys) e (All-permuted (Apart a) p h.0), AllApart-permuted p h.1)
  AllApart-permuted (Permᴰ.swap {a = a} {b = b} {l = l} e f) h = (
    (Apart-same (Apart-sym a b h.0.0) f e, subst (λ z. All (Apart z) l) f h.1.0),
    (subst (λ z. All (Apart z) l) e h.0.1, h.1.1),
  )
  AllApart-permuted (Permᴰ.trans p q) h = AllApart-permuted q (AllApart-permuted p h)

  insert_all_permuted :
      {xs ys : List A}
      → Permᴰ xs ys
      → AllApart xs
      → (acc : List A) → insert_all lt xs acc ≡ insert_all lt ys acc
  unfolding insert_all
  insert_all_permuted Permᴰ.nil h acc = refl
  insert_all_permuted (Permᴰ.cons {a = a} {l₂ = ys} e p) h acc =
      insert_all_permuted p h.1 (insert_sorted lt a acc)
      ∙ ap (λ z. insert_all lt ys (insert_sorted lt z acc)) e
  insert_all_permuted (Permᴰ.swap {a = a} {b = b} {l = l} e f) h acc = ap (insert_all lt l) (
      insert_sorted_comm b a acc (Apart-sym a b h.0.0)
      ∙ ap₂ (λ x y. insert_sorted lt x (insert_sorted lt y acc)) e f)
  insert_all_permuted (Permᴰ.trans p q) h acc =
      insert_all_permuted p h acc ∙ insert_all_permuted q (AllApart-permuted p h) acc

  -- The same items in another order, any two of them apart, are sorted to the same list.
  pub sorted_permuted : {xs ys : List A} → Permᴰ xs ys → AllApart xs → sorted lt xs ≡ sorted lt ys
  unfolding sorted
  sorted_permuted p h = insert_all_permuted p h []
