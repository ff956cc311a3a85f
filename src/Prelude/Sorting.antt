-- ===== src/Prelude/Sorting.antt =====
-- `sorted` with a strict order test `lt`: the stable insertion sort that Python's result equals.
pub mod Laws
pub mod Permute
use mathlib.Core.Path.{◌≡◌, refl}
use mathlib.Core.Bool.{Bool, true, false}
use mathlib.Core.List.{List, [], ◌∷◌}
use native.Mathlib.Omega.{arith}
use codex_claude_author_crit.Prelude.Tests.{Eq, ◌==◌, if◌then◌else◌}

module _ {ℓ} {A : Type ℓ} (lt : A → A → Bool) where
  -- After every item that is not greater.
  unfoldable pub insert_sorted : A → List A → List A
  insert_sorted a [] = a ∷ []
  insert_sorted a (x ∷ xs) = if lt a x then a ∷ x ∷ xs else x ∷ insert_sorted a xs

  unfoldable pub insert_all : List A → List A → List A
  unfolding insert_sorted
  insert_all [] acc = acc
  insert_all (x ∷ xs) acc = insert_all xs (insert_sorted x acc)

  unfoldable pub sorted : List A → List A
  unfolding insert_all
  sorted xs = insert_all xs []
