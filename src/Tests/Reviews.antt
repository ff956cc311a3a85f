-- ===== src/Tests/Reviews.antt =====
-- A critic's review that is accepted.
use codex_claude_author_crit.Critic.Json.{is_blank}
use codex_claude_author_crit.Prelude.{
  ◌≡◌, refl, true, none, some, [], ◌∷◌, ◌++◌, ◌==◌, nat_eq, string_eq, list_eq, list_beq, unique,
  All, ok,
}
use codex_claude_author_crit.StateMachine.{Verdict}
use codex_claude_author_crit.Critic.Json.{Unicode}
use codex_claude_author_crit.Critic.Review.{
  Finding, CriticReview, finding_ids, review_json, validate_critic_review,
}
use codex_claude_author_crit.Critic.RoundTrip.{validate_critic_review-review_json}
use codex_claude_author_crit.Critic.Meaning.{
  IsCoherent, IsValidFinding, validate_critic_review-IsCoherent,
}

abbrev ascii : Unicode
ascii = record { is_space = λ c. c == b' ' }

abbrev leak : Finding
leak = record {
  finding_id = "F-1";
  severity = "high";
  category = "security";
  file = some "a.py";
  symbol = none;
  line_start = some 3;
  line_end = some 7;
  problem = "leaks";
  evidence = "line 3";
  required_fix = "close it";
}

abbrev review : CriticReview
review = record {
  schema_version = 1;
  verdict = Verdict.revise;
  summary = "one leak";
  blocked_reason = none;
  blocking_findings = leak ∷ [];
  non_blocking_findings = [];
}

accepted : validate_critic_review ⦃u = ascii⦄ none (review_json review) ≡ ok review
unfolding validate_critic_review review_json list_beq is_blank
accepted = refl

validate_critic_review-IsCoherent_example :
    IsCoherent none review review.verdict
    × (review.schema_version ≡ 1)
    × (unique (finding_ids (review.blocking_findings ++ review.non_blocking_findings)) ≡ true)
    × All IsValidFinding review.blocking_findings
    × All IsValidFinding review.non_blocking_findings
validate_critic_review-IsCoherent_example =
    validate_critic_review-IsCoherent ⦃u = ascii⦄ none (review_json review) review accepted

validate_critic_review-review_json_example :
    validate_critic_review ⦃u = ascii⦄ none (review_json review) ≡ ok review
validate_critic_review-review_json_example =
    validate_critic_review-review_json ⦃u = ascii⦄ none (review_json review) review accepted
