-- ===== src/Validation/Classify/Regression.antt =====
-- The classification hides no regression.
use codex_claude_author_crit.Prelude.{
  ◌≡◌, refl, sym, ◌∙◌, subst, String, Bool, true, false, Option, none, some, List, [], ◌∷◌, ◌==◌,
  ◌||◌, length, any, elem, All, All-map, elem-All, eq_self, zero, suc, ℕ, string_eq, list_eq,
  list_beq_iff, ok, >>=-eq-ok, fail_if, ok-injective, arith, Bool-cases, inl, inr,
}
use codex_claude_author_crit.Prelude.Dict.{get, put, get-put, All-put, All-get}
use codex_claude_author_crit.Errors.{StopReason}
use codex_claude_author_crit.Validation.Execution.{
  CheckExecution, ValidationSummary, identifiers, outcome, is_passed,
}
use codex_claude_author_crit.Validation.Classify.{
  ClassifiedCheck, ById, put_checks, baseline_by_id, take, check_sequence, classified,
  classify_checks, classify_validations, command_changed, baseline_failed,
}

abbrev pub Passed : CheckExecution → Type 0
Passed c = is_passed (outcome c) ≡ true

put_checks-All :
    (cs : List CheckExecution) (d : ById)
    → All Passed cs
    → All (λ kv. Passed kv.1) d
    → All (λ kv. Passed kv.1) (put_checks cs d)
unfolding put_checks
put_checks-All [] d h k = k
put_checks-All (c ∷ cs) d h k =
    put_checks-All cs (put c.check_id c d) h.1 (All-put Passed c.check_id c d h.0 k)

abbrev found : Option CheckExecution → Bool
found none = false
found (some _) = true

get-put_checks :
    (k : String) (cs : List CheckExecution) (d : ById)
    → found (get k (put_checks cs d)) ≡ (elem k (identifiers cs) || found (get k d))
unfolding put_checks elem
get-put_checks k [] d = refl
get-put_checks k (c ∷ cs) d =
    ground (arith, get-put_checks k cs (put c.check_id c d), get-put c.check_id k c d)

-- A check whose identifier stands in a baseline that passed, and that is no regression, passed.
no_regression :
    (d : ById) (c : CheckExecution)
    → All (λ kv. Passed kv.1) d
    → found (get c.check_id d) ≡ true
    → (classified (get c.check_id d) c).regression ≡ false
    → Passed c
unfolding classified
no_regression d c h f r = go (get c.check_id d) refl
  where
    go : (o : Option CheckExecution) → get c.check_id d ≡ o → Passed c
    go none e = cc (rw e at f)
    go (some old) e = ground (
      arith,
      subst (λ o. (classified o c).regression ≡ false) e r,
      All-get Passed c.check_id d h e,
    )

no_regressions :
    (d : ById) (cs : List CheckExecution) {result : List ClassifiedCheck}
    → All (λ kv. Passed kv.1) d
    → All (λ k. found (get k d) ≡ true) (identifiers cs)
    → classify_checks d cs ≡ ok result
    → any (λ r. r.regression) result ≡ false
    → All Passed cs
unfolding classify_checks any
no_regressions d [] h f e r = tt
no_regressions d (c ∷ cs) h f e r =
    let (u, e1, e2) =
      >>=-eq-ok
        (fail_if (command_changed (get c.check_id d) c) StopReason.validation_mutated_subject) _
        e in
    let (rest, e3, e4) = >>=-eq-ok (classify_checks d cs) _ e2 in
    let r' =
      subst (λ x. any (λ (y : ClassifiedCheck). y.regression) x ≡ false) (sym (ok-injective e4))
        r in
    (
      no_regression d c h f.0 (ground (arith, r')),
      no_regressions d cs h f.1 e3 (ground (arith, r')),
    )

elem-take : (n : ℕ) (ys : List String) → All (λ k. elem k ys ≡ true) (take n ys)
unfolding take elem
elem-take zero ys = tt
elem-take (suc n) [] = tt
elem-take (suc n) (y ∷ ys) = (
  rw (eq_self y) refl,
  All-map (λ k. elem k ys ≡ true) (λ k. elem k (y ∷ ys) ≡ true) (λ k h. ground (arith, h))
      (take n ys) (elem-take n ys),
)

elem_self : (ys : List String) → All (λ k. elem k ys ≡ true) ys
elem_self ys = elem-All (λ k. elem k ys ≡ true) ys (λ k h. h)

-- The identifiers of an accepted current summary stand in the baseline.
sequence_known :
    (b s : ValidationSummary)
    → check_sequence (some b) s ≡ ok tt
    → All (λ k. elem k (identifiers b.checks) ≡ true) (identifiers s.checks)
unfolding check_sequence
sequence_known b s h =
    let bs = identifiers b.checks in
    let cs = identifiers s.checks in
    elim (Bool-cases (cs == bs)) [
      | inl exact ↦
          subst (All (λ k. elem k bs ≡ true)) (sym ((list_beq_iff cs bs).0 exact)) (elem_self bs)
      | inr other ↦
          subst (All (λ k. elem k bs ≡ true))
            (sym ((list_beq_iff cs (take (length cs) bs)).0 (ground (arith, h, other))))
            (elem-take (length cs) bs)
    ]

-- If every check of the baseline passed and the classification, which returned, reports no
-- regression, then every check of the current summary passed.
pub classify_validations_no_regression :
    (b s : ValidationSummary) (result : List ClassifiedCheck)
    → classify_validations (some b) s ≡ ok result
    → All Passed b.checks
    → any (λ r. r.regression) result ≡ false
    → All Passed s.checks
unfolding classify_validations
classify_validations_no_regression b s result h p r =
    let (u, e1, e2) =
      >>=-eq-ok (fail_if (baseline_failed (some b)) StopReason.baseline_infrastructure_failure) _
        h in
    let (v, e3, e4) = >>=-eq-ok (check_sequence (some b) s) _ e2 in
    let d = baseline_by_id (some b) in
    no_regressions d s.checks (put_checks-All b.checks [] p tt)
      (All-map (λ k. elem k (identifiers b.checks) ≡ true) (λ k. found (get k d) ≡ true)
        (λ k m. get-put_checks k b.checks [] ∙ rw m) (identifiers s.checks) (sequence_known b s e3))
      e4 r
