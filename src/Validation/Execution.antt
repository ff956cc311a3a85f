-- ===== src/Validation/Execution.antt =====
-- One executed check and a summary of them (validation.py).
use codex_claude_author_crit.Prelude.{
  ℕ, ◌+◌, ◌≡◌, ◌≢◌, String, Bool, true, false, Option, none, some, List, [], ◌∷◌, ◌==◌, ◌&&◌, ◌||◌,
  not, map, any, all, unique, length, string_eq, nat_eq, ok, value_error, ◌>>◌, raise_if,
  if◌then◌else◌, arith, Option-cases, inl, inr,
}
use codex_claude_author_crit.Prelude.Bytes.{codes}
use codex_claude_author_crit.Prelude.Int.{ℤ, pos, ltb_ℤ, ℤ_eq, ℤ_beq_iff}
use codex_claude_author_crit.Errors.{Outcome}

pub data CheckOutcome : Type 0 where
  passed failed timed_out output_limited process_failure infrastructure_failure : CheckOutcome

-- The `value` of the members.
abbrev pub outcome_value : CheckOutcome → String
outcome_value CheckOutcome.passed = "passed"
outcome_value CheckOutcome.failed = "failed"
outcome_value CheckOutcome.timed_out = "timed_out"
outcome_value CheckOutcome.output_limited = "output_limited"
outcome_value CheckOutcome.process_failure = "process_failure"
outcome_value CheckOutcome.infrastructure_failure = "infrastructure_failure"

pub record CheckExecution : Type 0 where
  pub check_id : String
  pub command : String
  pub started_at : ℤ
  pub completed_at : ℤ
  pub exit_code : Option ℤ
  pub signal : Option ℤ
  pub timed_out : Bool
  pub infrastructure_failure : Bool
  pub process_started : Bool
  pub output_limited : Bool

abbrev pub is_some : Option ℤ → Bool
is_some none = false
is_some (some _) = true

count : Bool → ℕ
count true = 1
count false = 0

-- `CheckExecution.__post_init__`
unfoldable pub check_execution : CheckExecution → Outcome CheckExecution
unfolding count
check_execution c = do
  raise_if (c.check_id == "" || c.command == "") value_error
  raise_if (ltb_ℤ c.started_at (pos 0) || ltb_ℤ c.completed_at c.started_at) value_error
  let terminal =
      count (is_some c.exit_code)
      + count (is_some c.signal)
      + count c.timed_out
      + count c.infrastructure_failure
      + count (not c.process_started)
      + count c.output_limited
  raise_if (terminal == 0) value_error
  raise_if (is_some c.exit_code && (is_some c.signal || c.timed_out)) value_error
  raise_if (c.infrastructure_failure && c.process_started) value_error
  raise_if (c.output_limited && not c.process_started) value_error
  ok c

unfoldable pub exit_outcome : Option ℤ → CheckOutcome
exit_outcome none = CheckOutcome.failed
exit_outcome (some code) = if code == pos 0 then CheckOutcome.passed else CheckOutcome.failed

-- `CheckExecution.outcome`
unfoldable pub outcome : CheckExecution → CheckOutcome
unfolding exit_outcome
outcome c =
    if c.output_limited
    then CheckOutcome.output_limited
    else if c.timed_out
    then CheckOutcome.timed_out
    else if c.infrastructure_failure || not c.process_started
    then CheckOutcome.infrastructure_failure
    else if is_some c.signal
    then CheckOutcome.process_failure
    else exit_outcome c.exit_code

unfoldable pub is_passed : CheckOutcome → Bool
is_passed CheckOutcome.passed = true
is_passed _ = false

unfoldable pub is_infrastructure : CheckOutcome → Bool
is_infrastructure CheckOutcome.infrastructure_failure = true
is_infrastructure _ = false

pub record ValidationSummary : Type 0 where
  pub schema_version : ℕ
  pub subject_fingerprint : String
  pub checks : List CheckExecution

abbrev pub identifiers : List CheckExecution → List String
identifiers = map (λ c. c.check_id)

-- `ValidationSummary.__post_init__`
unfoldable pub validation_summary : ValidationSummary → Outcome ValidationSummary
unfolding unique
validation_summary s = do
  raise_if (not (s.schema_version == 1)) value_error
  raise_if (not (length (codes s.subject_fingerprint) == 64)) value_error
  raise_if (not (unique (identifiers s.checks))) value_error
  ok s

is_empty : List CheckExecution → Bool
is_empty [] = true
is_empty (_ ∷ _) = false

unfoldable pub all_pass : ValidationSummary → Bool
unfolding all outcome is_passed is_empty
all_pass s = not (is_empty s.checks) && all (λ c. is_passed (outcome c)) s.checks

unfoldable pub has_infrastructure_failure : ValidationSummary → Bool
unfolding any outcome is_infrastructure
has_infrastructure_failure s = any (λ c. is_infrastructure (outcome c)) s.checks

-- What each outcome says of the execution.
abbrev pub Explains : CheckExecution → CheckOutcome → Type 0
Explains c CheckOutcome.passed =
    (c.exit_code ≡ some (pos 0))
    × (c.signal ≡ none)
    × (c.process_started ≡ true)
    × (c.output_limited ≡ false)
Explains c CheckOutcome.failed =
    (c.exit_code ≢ none)
    × (c.exit_code ≢ some (pos 0))
    × (c.signal ≡ none)
    × (c.process_started ≡ true)
    × (c.output_limited ≡ false)
Explains c CheckOutcome.output_limited = (c.output_limited ≡ true) × (c.process_started ≡ true)
Explains c CheckOutcome.timed_out =
    (c.timed_out ≡ true) × (c.exit_code ≡ none) × (c.output_limited ≡ false)
Explains c CheckOutcome.infrastructure_failure =
    (c.process_started ≡ false) × (c.output_limited ≡ false)
Explains c CheckOutcome.process_failure =
    (c.signal ≢ none) × (c.exit_code ≡ none) × (c.process_started ≡ true) × (c.timed_out ≡ false)

-- For an accepted execution: if the outcome is `passed`, the process ran to its end with exit
-- code 0; if `failed`, with another exit code; if another one, the facts that `Explains` lists
-- for it hold.
pub outcome-Explains : (c : CheckExecution) → check_execution c ≡ ok c → Explains c (outcome c)
unfolding check_execution outcome
outcome-Explains c h = elim (Option-cases c.exit_code) [
  | inl e ↦ ground arith
  | inr (x, e) ↦ ground (arith, ℤ_beq_iff x (pos 0))
]
