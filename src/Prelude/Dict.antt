-- ===== src/Prelude/Dict.antt =====
-- A Python dict in insertion order.
use mathlib.Core.Path.{◌≡◌, refl, subst}
use mathlib.Core.Logic.{inl, inr}
use mathlib.Core.Option.{Option, none, some}
use mathlib.Core.List.{List, [], ◌∷◌}
use native.Mathlib.Omega.{arith}
use codex_claude_author_crit.Prelude.Tests.{Eq, ◌==◌, if◌then◌else◌, Bool-cases}
use codex_claude_author_crit.Prelude.Lists.{All}

abbrev pub Dict {ℓ κ} : Type ℓ → Type κ → Type (ℓ ⊔ κ)
Dict K V = List (K × V)

some_inj {ℓ} : {A : Type ℓ} {a b : A} → some a ≡ some b → a ≡ b
some_inj h = cc

module _ {ℓ κ} {K : Type ℓ} {V : Type κ} ⦃e : Eq K⦄ where
  -- `d.get(k)`
  unfoldable pub get : K → Dict K V → Option V
  get k [] = none
  get k ((j, v) ∷ d) = if j == k then some v else get k d

  -- `d[k] = v`
  unfoldable pub put : K → V → Dict K V → Dict K V
  put k v [] = (k, v) ∷ []
  put k v ((j, w) ∷ d) = if j == k then (j, v) ∷ d else (j, w) ∷ put k v d

  -- `d.pop(k, None)`
  unfoldable pub remove : K → Dict K V → Dict K V
  remove k [] = []
  remove k ((j, w) ∷ d) = if j == k then d else (j, w) ∷ remove k d

  pub get-put :
      (k j : K) (v : V) (d : Dict K V) → get j (put k v d) ≡ (if k == j then some v else get j d)
  unfolding get put
  get-put k j v [] = refl
  get-put k j v ((i, w) ∷ d) =
      ground (arith, get-put k j v d, e.beq_iff i k, e.beq_iff i j, e.beq_iff k j)

  -- What holds of every value that is put holds of every value that is found.
  pub All-put {ι} :
      (P : V → Type ι) (k : K) (v : V) (d : Dict K V)
      → P v
      → All (λ kv. P kv.1) d
      → All (λ kv. P kv.1) (put k v d)
  unfolding put
  All-put P k v [] p h = (p, tt)
  All-put P k v ((j, w) ∷ d) p h = elim (Bool-cases (j == k)) [
    | inl same ↦ rw same (p, h.1)
    | inr other ↦ rw other (h.0, All-put P k v d p h.1)
  ]

  pub All-get {ι} :
      (P : V → Type ι) (k : K) (d : Dict K V) {v : V}
      → All (λ kv. P kv.1) d
      → get k d ≡ some v
      → P v
  unfolding get
  All-get P k [] {v} h g = cc
  All-get P k ((j, w) ∷ d) {v} h g = elim (Bool-cases (j == k)) [
    | inl same ↦ let e : some w ≡ some v = rw same at g in subst P (some_inj e) h.0
    | inr other ↦ All-get P k d h.1 (rw other at g)
  ]
