-- ===== src/Runner/Turns.antt =====
-- What runner.py makes of turns: a turn without its log, the secrets at hand, the comparison of two
-- validations, and the state that the stall detector observes.
pub mod Keys
pub mod Behavior
use codex_claude_author_crit.Prelude.{
  Bool, true, false, List, [], ◌∷◌, ◌==◌, ◌&&◌, ◌||◌, not, map, list_eq, nat_eq, option_eq,
  string_eq, ok, fail_if, if◌then◌else◌, ◌>>=◌, ◌>>◌,
}
use codex_claude_author_crit.Prelude.Int.{ℤ_eq}
use codex_claude_author_crit.Errors.{Outcome, StopReason}
use codex_claude_author_crit.Manifest.Entry.{Digest}
use codex_claude_author_crit.Manifest.Subject.{SubjectManifest}
use codex_claude_author_crit.Manifest.Canonical.{fingerprint}
use codex_claude_author_crit.Validation.Execution.{outcome, outcome_value}
use codex_claude_author_crit.Validation.Classify.{ClassifiedCheck, transition_value}
use codex_claude_author_crit.Validation.Declassify.{KnownSecret, is_complete}
use codex_claude_author_crit.Critic.Review.{CriticReview, Finding, verdict_value}
use codex_claude_author_crit.Progress.{ValidationProgress, FindingProgress, ProgressState}
use codex_claude_author_crit.Runner.{ValidationTurn, CheckBehavior, validation_behavior_signature}

-- `_without_validation_raw`
unfoldable pub without_validation_raw : ValidationTurn → ValidationTurn
without_validation_raw t = record t { raw_log = [] }

-- `tuple(dict.fromkeys(...))`: the first of equal values is kept.
same_secret : KnownSecret → KnownSecret → Bool
same_secret s t = s.identifier == t.identifier && s.value == t.value

is_seen : KnownSecret → List KnownSecret → Bool
unfolding same_secret
is_seen s [] = false
is_seen s (t ∷ ts) = same_secret s t || is_seen s ts

unfoldable pub from_keys : List KnownSecret → List KnownSecret → List KnownSecret
unfolding is_seen
from_keys seen [] = []
from_keys seen (s ∷ ss) =
    let rest = from_keys (s ∷ seen) ss in if is_seen s seen then rest else s ∷ rest

same_flag : Bool → Bool → Bool
same_flag true b = b
same_flag false b = not b

same_check : CheckBehavior → CheckBehavior → Bool
unfolding same_flag
same_check a b =
    a.check_id == b.check_id
    && a.command == b.command
    && a.exit_code == b.exit_code
    && a.signal == b.signal
    && same_flag a.timed_out b.timed_out
    && same_flag a.infrastructure_failure b.infrastructure_failure
    && same_flag a.process_started b.process_started
    && same_flag a.output_limited b.output_limited
    && outcome_value a.outcome == outcome_value b.outcome

same_checks : List CheckBehavior → List CheckBehavior → Bool
unfolding same_check
same_checks [] [] = true
same_checks (a ∷ as') (b ∷ bs) = same_check a b && same_checks as' bs
same_checks _ _ = false

-- `_validation_behavior_signature(a) == _validation_behavior_signature(b)`
unfoldable pub same_behavior : ValidationTurn → ValidationTurn → Bool
unfolding validation_behavior_signature same_checks
same_behavior a b =
    let (checks, log) = validation_behavior_signature a in
    let (checks', log') = validation_behavior_signature b in
    same_checks checks checks' && log == log'

-- `_require_opaque_validation_independence`
unfoldable pub require_opaque_validation_independence :
    ValidationTurn → ValidationTurn → Outcome (Unit {0})
unfolding same_behavior
require_opaque_validation_independence authoritative counterfactual =
    fail_if (not (same_behavior authoritative counterfactual)) StopReason.review_content_withheld

check_progress : ClassifiedCheck → ValidationProgress
unfolding is_complete
check_progress c = record {
  check_id = c.check_id;
  outcome = outcome_value c.current_outcome;
  transition = transition_value c.transition;
  regression = c.regression;
  evidence_complete = is_complete c.current_outcome;
}

finding_progress : Finding → FindingProgress
finding_progress f = record {
  finding_id = f.finding_id;
  severity = f.severity;
  category = f.category;
  file = f.file;
  line_start = f.line_start;
  line_end = f.line_end;
  problem = f.problem;
  evidence = f.evidence;
  required_fix = f.required_fix;
}

module _ ⦃d : Digest⦄ where
  -- `_progress_state`
  unfoldable pub progress_state :
      SubjectManifest → List ClassifiedCheck → CriticReview → Outcome ProgressState
  unfolding fingerprint check_progress finding_progress
  progress_state subject classified review = do
    name ← fingerprint subject
    ok (record {
      subject_fingerprint = name;
      validations = map check_progress classified;
      verdict = verdict_value review.verdict;
      blocking_findings = map finding_progress review.blocking_findings;
      blocked_reason = review.blocked_reason;
    })
