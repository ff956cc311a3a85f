-- ===== src/Runner/Guards.antt =====
-- When a validation may go on to a model: `_ensure_validation_can_continue` of runner.py.
use codex_claude_author_crit.Prelude.{
  Bool, true, none, List, [], ◌∷◌, ◌≡◌, refl, ◌⊎◌, ◌↔◌, All, ok, arith,
}
use codex_claude_author_crit.Validation.Execution.{
  CheckExecution, CheckOutcome, ValidationSummary, outcome,
}
use codex_claude_author_crit.Validation.Declassify.{ValidationCriticEvidence}
use codex_claude_author_crit.Runner.{
  stop_or, stop_of, each_can_continue, ensure_validation_can_continue,
}

-- The check ran to its end, and passed or failed.
abbrev pub IsReviewable : CheckExecution → Type 0
IsReviewable c = (outcome c ≡ CheckOutcome.passed) ⊎ (outcome c ≡ CheckOutcome.failed)

stop_of_iff :
    (baseline : Bool) (o : CheckOutcome)
    → (stop_of baseline o ≡ none) ↔ ((o ≡ CheckOutcome.passed) ⊎ (o ≡ CheckOutcome.failed))
unfolding stop_of
stop_of_iff baseline o = ground arith

each_can_continue_iff :
    (baseline : Bool) (cs : List CheckExecution)
    → (each_can_continue baseline cs ≡ ok tt) ↔ All IsReviewable cs
unfolding each_can_continue stop_or
each_can_continue_iff baseline [] = (λ _. tt, λ _. refl)
each_can_continue_iff baseline (c ∷ cs) =
    ground (arith, stop_of_iff baseline (outcome c), each_can_continue_iff baseline cs)

-- The guard lets a validation go on, before the baseline's review as in a round, exactly when every
-- check ran to its end, so that its outcome is `passed` or `failed`, and the evidence is eligible.
pub ensure_validation_can_continue_iff :
    (summary : ValidationSummary) (evidence : ValidationCriticEvidence) (baseline : Bool)
    → (ensure_validation_can_continue summary evidence baseline ≡ ok tt)
      ↔ (All IsReviewable summary.checks × (evidence.approval_eligible ≡ true))
unfolding ensure_validation_can_continue
ensure_validation_can_continue_iff summary evidence baseline =
    ground (arith, each_can_continue_iff baseline summary.checks)
