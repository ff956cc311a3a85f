-- ===== src/Progress/Adjacent.antt =====
-- The stall detector of progress.py on two adjacent rounds.
use mathlib.Core.List.{Permᴰ}
use codex_claude_author_crit.Prelude.{
  ◌≡◌, refl, sym, ap, subst, inl, inr, String, Bool, true, false, Option, none, some, List, [], All,
  All-map, ◌++◌, ◌∷◌, ◌==◌, string_eq, Bool-cases,
}
use codex_claude_author_crit.Prelude.Bytes.{codes}
use codex_claude_author_crit.Prelude.Bytes.Order.{bytes_order, bytes_lt_total}
use codex_claude_author_crit.Prelude.Hex.{codes-injective}
use codex_claude_author_crit.Prelude.Sorting.{sorted}
use codex_claude_author_crit.Prelude.Sorting.Laws.{IsStrictOrder}
use codex_claude_author_crit.Prelude.Sorting.Permute.{Apart, AllApart, sorted_permuted}
use codex_claude_author_crit.Manifest.Entry.{Digest}
use codex_claude_author_crit.Runner.Secrets.{Codecs}
use codex_claude_author_crit.Progress.{
  ValidationProgress, FindingProgress, ProgressState, text_lt, payload, canonical_bytes,
  fingerprint, observe,
}

-- No two items of the list share their name.
abbrev pub AreNamed : {A : Type 0} → (A → String) → List A → Type 0
AreNamed name [] = Unit {0}
AreNamed name (x ∷ xs) = All (λ y. (name x == name y) ≡ false) xs × AreNamed name xs

module _ {A : Type 0} (name : A → String) where
  abbrev by_name : A → A → Bool
  by_name a b = text_lt (name a) (name b)

  by_name_order : IsStrictOrder by_name
  by_name_order = record {
    lt_trans = λ a b c. bytes_order.lt_trans (codes (name a)) (codes (name b)) (codes (name c));
    lt_asymm = λ a b. bytes_order.lt_asymm (codes (name a)) (codes (name b));
  }

  different-Apart : (a b : A) → (name a == name b) ≡ false → Apart by_name by_name_order a b
  different-Apart a b differ = elim (Bool-cases (by_name a b)) [
    | inl h ↦ inr (inl h)
    | inr h ↦ elim (Bool-cases (by_name b a)) [
      | inl k ↦ inr (inr k)
      | inr k ↦
          let same =
            codes-injective (name a) (name b)
              (bytes_lt_total (codes (name a)) (codes (name b)) h k) in
          let found = (string_eq.beq_iff (name a) (name b)).1 same in absurd (cc)
    ]
  ]

  named-AllApart : (xs : List A) → AreNamed name xs → AllApart by_name by_name_order xs
  named-AllApart [] named = tt
  named-AllApart (x ∷ xs) named =
      (All-map _ _ (λ y. different-Apart x y) xs named.0, named-AllApart xs named.1)

  sorted-by_name :
      {xs ys : List A} → Permᴰ xs ys → AreNamed name xs → sorted by_name xs ≡ sorted by_name ys
  sorted-by_name {xs = xs} p named =
      sorted_permuted by_name by_name_order p (named-AllApart xs named)

-- The same state, but for the order of its checks and of its findings.
pub record Reordered (s t : ProgressState) : Type 0 where
  pub subject : s.subject_fingerprint ≡ t.subject_fingerprint
  pub verdict : s.verdict ≡ t.verdict
  pub reason : s.blocked_reason ≡ t.blocked_reason
  pub checks : Permᴰ s.validations t.validations
  pub findings : Permᴰ s.blocking_findings t.blocking_findings

module _ ⦃d : Digest⦄ ⦃j : Codecs⦄ where
  payload-Reordered :
      (s t : ProgressState)
      → AreNamed (λ (c : ValidationProgress). c.check_id) s.validations
      → AreNamed (λ (f : FindingProgress). f.finding_id) s.blocking_findings
      → Reordered s t
      → payload s ≡ payload t
  unfolding payload
  payload-Reordered s t checks findings same =
      let checks' = sorted-by_name (λ (c : ValidationProgress). c.check_id) same.checks checks in
      let findings' =
        sorted-by_name (λ (f : FindingProgress). f.finding_id) same.findings findings in
      rw (same.subject, same.verdict, same.reason, checks', findings')

  fingerprint-payload :
      (s t : ProgressState) → payload s ≡ payload t → fingerprint s ≡ fingerprint t
  unfolding fingerprint canonical_bytes
  fingerprint-payload s t e =
      ap (λ p. d.sha256_hex (codes "agent-loop-progress-v1" ++ 0 ∷ j.json_bytes p)) e

  observe_latest :
      (previous : Option String) (s : ProgressState) → (observe previous s).1 ≡ some (fingerprint s)
  unfolding observe
  observe_latest none s = refl
  observe_latest (some previous) s = refl

  observe_same :
      (s t : ProgressState)
      → fingerprint s ≡ fingerprint t
      → (observe (some (fingerprint s)) t).0 ≡ true
  unfolding observe
  observe_same s t e = (string_eq.beq_iff (fingerprint s) (fingerprint t)).1 e

  -- A round whose state repeats the one before it is reported, whatever the detector has seen earlier,
  -- also where the second round lists the checks and the blocking findings in another order, provided that
  -- no two checks and no two findings of the state share their identifier.
  pub observe-Reordered :
      (previous : Option String) (s t : ProgressState)
      → AreNamed (λ (c : ValidationProgress). c.check_id) s.validations
      → AreNamed (λ (f : FindingProgress). f.finding_id) s.blocking_findings
      → Reordered s t
      → (observe (observe previous s).1 t).0 ≡ true
  observe-Reordered previous s t checks findings same =
      subst (λ z. (observe z t).0 ≡ true) (sym (observe_latest previous s))
        (observe_same s t (fingerprint-payload s t (payload-Reordered s t checks findings same)))
