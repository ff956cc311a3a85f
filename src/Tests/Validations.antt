-- ===== src/Tests/Validations.antt =====
-- Executions, their comparison with a baseline, their logs and a batch of two.
use codex_claude_author_crit.Validation.Execution.{is_passed}
use codex_claude_author_crit.Prelude.Dict.{put}
use codex_claude_author_crit.Prelude.Dict.{get}
use codex_claude_author_crit.Prelude.Int.{ℤ_beq}
use codex_claude_author_crit.Prelude.Sorting.{sorted}
use codex_claude_author_crit.Prelude.{
  arith, ℕ, ◌≤◌, ◌≡◌, refl, ◌↔◌, ◌⊎◌, Bool, true, false, Option, none, some, List, [], ◌∷◌, nat_eq,
  list_eq, list_beq, length, any, All, ok,
}
use codex_claude_author_crit.Prelude.Bytes.{Bytes, codes}
use codex_claude_author_crit.Prelude.Int.{pos}
use codex_claude_author_crit.Validation.Execution.{
  CheckExecution, CheckOutcome, ValidationSummary, check_execution, outcome, Explains,
  outcome-Explains,
}
use codex_claude_author_crit.Validation.Classify.{
  ClassifiedCheck, ValidationTransition, classify_validations,
}
use codex_claude_author_crit.Validation.Classify.Regression.{
  Passed, classify_validations_no_regression,
}
use codex_claude_author_crit.Validation.Declassify.Folds.{done, skip_left, same}
use codex_claude_author_crit.Validation.Declassify.Forms.{hex}
use codex_claude_author_crit.Validation.Declassify.Digits.{byte, end}
use codex_claude_author_crit.Validation.Declassify.Shown.{
  AllBytes, Shows, raw_log_contains_known_secret_found, raw_log_contains_known_secret_shown,
}
use codex_claude_author_crit.Validation.Declassify.{
  Base64, KnownSecret, ValidationCriticEvidence, raw_log_contains_known_secret,
}
use codex_claude_author_crit.Critic.Json.{Json, bool, int, str, arr, obj, from_items, from_fields}
use codex_claude_author_crit.Validation.Batch.{
  ValidationBatchRecord, ends_stopped, parse_validation_batch_result,
}
use codex_claude_author_crit.Validation.Batch.Complete.{
  InSequence, IsUnstarted, raw_bytes, parse_validation_batch_result-IsComplete,
}
use codex_claude_author_crit.Runner.{ensure_validation_can_continue}
use codex_claude_author_crit.Runner.Guards.{IsReviewable, ensure_validation_can_continue_iff}

abbrev passing : CheckExecution
passing = record {
  check_id = "unit";
  command = "make test";
  started_at = pos 1;
  completed_at = pos 2;
  exit_code = some (pos 0);
  signal = none;
  timed_out = false;
  infrastructure_failure = false;
  process_started = true;
  output_limited = false;
}

outcome-Explains_example : Explains passing (outcome passing)
unfolding check_execution
outcome-Explains_example = outcome-Explains passing refl

abbrev summary : ValidationSummary
summary = record { schema_version = 1; subject_fingerprint = "f"; checks = passing ∷ [] }

abbrev classified_unit : ClassifiedCheck
classified_unit = record {
  check_id = "unit";
  command = "make test";
  baseline_outcome = some CheckOutcome.passed;
  current_outcome = CheckOutcome.passed;
  transition = ValidationTransition.pass_to_pass;
  regression = false;
  exit_code = some (pos 0);
  signal = none;
}

compared : classify_validations (some summary) summary ≡ ok (classified_unit ∷ [])
unfolding classify_validations ℤ_beq list_beq get put
compared = refl

unit_passes : Passed passing
unfolding outcome is_passed ℤ_beq
unit_passes = refl

no_regression : any (λ r. r.regression) (classified_unit ∷ []) ≡ false
unfolding any
no_regression = refl

classify_validations_no_regression_example : All Passed summary.checks
classify_validations_no_regression_example =
    classify_validations_no_regression summary summary (classified_unit ∷ []) compared
      (unit_passes, tt) no_regression

-- An encoding for the runs: the value between two bars.
abbrev barred : Base64
barred = record { b64encode = λ value. b'|' ∷ value; urlsafe_b64encode = λ value. b'|' ∷ value }

abbrev token : KnownSecret
token = record { identifier = "token"; value = codes "s3cret" }

-- The letter K, whose hexadecimal digits stand in the log as `4 B`.
abbrev letter : KnownSecret
letter = record { identifier = "letter"; value = codes "K" }

letter_shown : Shows ⦃b = barred⦄ (codes "x4 By") (token ∷ letter ∷ [])
letter_shown = record {
  before = token ∷ [];
  secret = letter;
  after = [];
  form = codes "4b";
  secrets_are = refl;
  encoded = hex (byte b'K' b'4' b'b' refl refl end);
  held = record {
    front = codes "x";
    stretch = codes "4 B";
    rest = codes "y";
    log_is = refl;
    folds =
        same b'4' b'4' (ground arith)
          (skip_left 32 (ground arith) (same b'B' b'b' (ground arith) done));
  };
}

raw_log_contains_known_secret_found_example :
    raw_log_contains_known_secret ⦃b = barred⦄ (codes "x4 By") (token ∷ letter ∷ []) ≡ true
raw_log_contains_known_secret_found_example =
    raw_log_contains_known_secret_found ⦃b = barred⦄ (codes "x4 By") (token ∷ letter ∷ [])
      letter_shown

letter_reported : raw_log_contains_known_secret ⦃b = barred⦄ (codes "x4 By") (letter ∷ []) ≡ true
unfolding raw_log_contains_known_secret sorted list_beq
letter_reported = refl

letter_bytes : All AllBytes (letter ∷ [])
letter_bytes = omega arith

raw_log_contains_known_secret_shown_example : Shows ⦃b = barred⦄ (codes "x4 By") (letter ∷ [])
raw_log_contains_known_secret_shown_example =
    raw_log_contains_known_secret_shown ⦃b = barred⦄ (codes "x4 By") (letter ∷ []) letter_bytes
      letter_reported

abbrev evidence : ValidationCriticEvidence
evidence = record {
  schema_version = 1;
  subject_fingerprint = "f";
  approval_eligible = true;
  checks = [];
}

ensure_validation_can_continue_iff_example :
    (ensure_validation_can_continue summary evidence false ≡ ok tt)
    ↔ (All IsReviewable summary.checks × (evidence.approval_eligible ≡ true))
ensure_validation_can_continue_iff_example =
    ensure_validation_can_continue_iff summary evidence false

abbrev plain : Base64
plain = record { b64encode = λ value. value; urlsafe_b64encode = λ value. value }

abbrev record_json : ℕ → ℕ → Bool → Json
record_json index code timed_out = obj (
    from_fields (
      ("index", int (pos index))
      ∷ ("returncode", int (pos code))
      ∷ ("timed_out", bool timed_out)
      ∷ ("output_limited", bool false)
      ∷ ("process_started", bool true)
      ∷ ("duration_ms", int (pos 20))
      ∷ ("stdout_b64", str "ok")
      ∷ ("stderr_b64", str "")
      ∷ []))

-- The second of three checks timed out.
abbrev result_json : Json
result_json = obj (
    from_fields (
      ("schema_version", int (pos 1))
      ∷ ("kind", str "validation_batch_result")
      ∷ ("records", arr (from_items (record_json 0 0 false ∷ record_json 1 0 true ∷ [])))
      ∷ []))

abbrev batch_run : ℕ → Bool → ValidationBatchRecord
batch_run index timed_out = record {
  index = index;
  returncode = pos 0;
  timed_out = timed_out;
  output_limited = false;
  process_started = true;
  duration_ms = pos 20;
  stdout = codes "ok";
  stderr = [];
}

abbrev decode : Bytes → Option Bytes
decode encoded = some encoded

parsed :
    parse_validation_batch_result ⦃b = plain⦄ decode 3 10 result_json
    ≡ ok (batch_run 0 false ∷ batch_run 1 true ∷ [])
unfolding parse_validation_batch_result from_fields from_items list_beq ℤ_beq
parsed = refl

abbrev runs : List ValidationBatchRecord
runs = batch_run 0 false ∷ batch_run 1 true ∷ []

parse_validation_batch_result-IsComplete_example :
    InSequence 0 runs
    × (length runs ≤ 3)
    × ((length runs ≡ 3) ⊎ (ends_stopped runs ≡ true))
    × (raw_bytes runs ≤ 10)
    × All (λ (r : ValidationBatchRecord). r.process_started ≡ false → IsUnstarted r) runs
parse_validation_batch_result-IsComplete_example =
    parse_validation_batch_result-IsComplete ⦃b = plain⦄ decode 3 10 result_json runs parsed
