-- ===== src/Validation/Classify.antt =====
-- `classify_validations` of validation.py.
pub mod Regression
use codex_claude_author_crit.Prelude.{
  ℕ, String, Bool, true, false, Option, none, some, List, [], ◌∷◌, ◌==◌, ◌&&◌, ◌||◌, not, map,
  length, ltb, string_eq, list_eq, ok, fail, throw, value_error, ◌>>=◌, ◌>>◌, raise_if, fail_if,
  if◌then◌else◌, zero, suc,
}
use codex_claude_author_crit.Prelude.Int.{ℤ}
use codex_claude_author_crit.Prelude.Dict.{Dict, get, put}
use codex_claude_author_crit.Errors.{Outcome, StopReason}
use codex_claude_author_crit.Validation.Execution.{
  CheckOutcome, CheckExecution, ValidationSummary, identifiers, outcome, is_passed,
  has_infrastructure_failure,
}

pub data ValidationTransition : Type 0 where
  pass_to_pass pass_to_fail fail_to_pass fail_to_fail no_baseline : ValidationTransition

-- The `value` of the members.
abbrev pub transition_value : ValidationTransition → String
transition_value ValidationTransition.pass_to_pass = "pass_to_pass"
transition_value ValidationTransition.pass_to_fail = "pass_to_fail"
transition_value ValidationTransition.fail_to_pass = "fail_to_pass"
transition_value ValidationTransition.fail_to_fail = "fail_to_fail"
transition_value ValidationTransition.no_baseline = "no_baseline"

pub record ClassifiedCheck : Type 0 where
  pub check_id : String
  pub command : String
  pub baseline_outcome : Option CheckOutcome
  pub current_outcome : CheckOutcome
  pub transition : ValidationTransition
  pub regression : Bool
  pub exit_code : Option ℤ
  pub signal : Option ℤ

abbrev pub ById : Type 0
ById = Dict String CheckExecution

unfoldable pub put_checks : List CheckExecution → ById → ById
put_checks [] d = d
put_checks (c ∷ cs) d = put_checks cs (put c.check_id c d)

unfoldable pub baseline_by_id : Option ValidationSummary → ById
unfolding put_checks
baseline_by_id none = []
baseline_by_id (some s) = put_checks s.checks []

take : ℕ → List String → List String
take zero xs = []
take (suc n) [] = []
take (suc n) (x ∷ xs) = x ∷ take n xs

-- The outcomes that may end a batch before its last check.
unfoldable pub is_terminal : CheckOutcome → Bool
is_terminal CheckOutcome.passed = false
is_terminal CheckOutcome.failed = false
is_terminal CheckOutcome.timed_out = true
is_terminal CheckOutcome.output_limited = true
is_terminal CheckOutcome.process_failure = true
is_terminal CheckOutcome.infrastructure_failure = true

-- `bool(checks) and checks[-1].outcome in {...}`
unfoldable pub ends_terminal : List CheckExecution → Bool
unfolding is_terminal outcome
ends_terminal [] = false
ends_terminal (c ∷ []) = is_terminal (outcome c)
ends_terminal (c ∷ d ∷ cs) = ends_terminal (d ∷ cs)

unfoldable pub check_sequence : Option ValidationSummary → ValidationSummary → Outcome (Unit {0})
unfolding take ends_terminal
check_sequence none current = ok tt
check_sequence (some baseline) current =
    let base_ids = identifiers baseline.checks in
    let current_ids = identifiers current.checks in
    let exact = current_ids == base_ids in
    let prefix =
      ltb (length current_ids) (length base_ids)
      && current_ids == take (length current_ids) base_ids
      && ends_terminal current.checks in
    raise_if (not exact && not prefix) value_error

pub passed_before : Option CheckOutcome → Bool
passed_before none = false
passed_before (some o) = is_passed o

pub transition_of : Option CheckOutcome → Bool → ValidationTransition
transition_of none new = no_baseline
transition_of (some o) new =
    if is_passed o && new
    then pass_to_pass
    else if is_passed o
    then pass_to_fail
    else if new
    then fail_to_pass
    else fail_to_fail

-- A baseline check of this identifier with another command.
pub command_changed : Option CheckExecution → CheckExecution → Bool
command_changed none c = false
command_changed (some old) c = not (old.command == c.command)

pub outcome_of : Option CheckExecution → Option CheckOutcome
unfolding outcome
outcome_of none = none
outcome_of (some c) = some (outcome c)

-- The record for one check, given the baseline's check of this identifier.
unfoldable pub classified : Option CheckExecution → CheckExecution → ClassifiedCheck
unfolding outcome_of transition_of passed_before is_passed
classified old c =
    let new = is_passed (outcome c) in
    record {
      check_id = c.check_id;
      command = c.command;
      baseline_outcome = outcome_of old;
      current_outcome = outcome c;
      transition = transition_of (outcome_of old) new;
      regression = passed_before (outcome_of old) && not new;
      exit_code = c.exit_code;
      signal = c.signal;
    }

unfoldable pub classify_checks : ById → List CheckExecution → Outcome (List ClassifiedCheck)
unfolding classified command_changed
classify_checks d [] = ok []
classify_checks d (c ∷ cs) = do
  let old = get c.check_id d
  fail_if (command_changed old c) StopReason.validation_mutated_subject
  rest ← classify_checks d cs
  ok (classified old c ∷ rest)

baseline_failed : Option ValidationSummary → Bool
unfolding has_infrastructure_failure
baseline_failed none = false
baseline_failed (some s) = has_infrastructure_failure s

unfoldable pub classify_validations :
    Option ValidationSummary → ValidationSummary → Outcome (List ClassifiedCheck)
unfolding baseline_failed check_sequence classify_checks baseline_by_id
classify_validations baseline current = do
  fail_if (baseline_failed baseline) StopReason.baseline_infrastructure_failure
  check_sequence baseline current
  classify_checks (baseline_by_id baseline) current.checks
