-- ===== src/Runner.antt =====
-- The guards of runner.py around a validation and around the models' answers, and the two subjects of
-- the opaque-independence check.
pub mod Guards
pub mod Secrets
pub mod World
pub mod Scans
pub mod Turns
pub mod Validations
pub mod Inputs
pub mod Loop
pub mod Rounds
pub mod Handlers
pub mod Contract
use codex_claude_author_crit.Prelude.{
  String, Bool, true, false, Option, none, some, List, [], ◌∷◌, ◌++◌, ◌==◌, ◌||◌, not, map, length,
  string_eq, list_eq, nat_eq, value_error, ok, fail, raise_if, fail_if, if◌then◌else◌, ◌>>=◌, ◌>>◌,
}
use codex_claude_author_crit.Prelude.Bytes.{Bytes}
use codex_claude_author_crit.Prelude.Int.{ℤ, pos, leb_ℤ, ltb_ℤ}
use codex_claude_author_crit.Prelude.Dict.{get, put, remove}
use codex_claude_author_crit.Errors.{Outcome, StopReason}
use codex_claude_author_crit.Paths.Glob.{ComponentMatch}
use codex_claude_author_crit.Paths.Policy.{PathPolicy, classify}
use codex_claude_author_crit.Manifest.Entry.{ManifestEntry}
use codex_claude_author_crit.Manifest.Change.{ManifestChange, paths, is_opaque}
use codex_claude_author_crit.Manifest.Limits.{Limits}
use codex_claude_author_crit.Manifest.Subject.{SubjectManifest, build}
use codex_claude_author_crit.Manifest.Diff.{ByPath, by_path}
use codex_claude_author_crit.Validation.Execution.{
  CheckExecution, CheckOutcome, ValidationSummary, outcome,
}
use codex_claude_author_crit.Validation.Mutation.{verify_validation_mutation}
use codex_claude_author_crit.Validation.Declassify.{ValidationCriticEvidence}

pub record LoopSettings : Type 0 where
  pub max_rounds : ℤ
  pub max_runtime_seconds : ℤ
  pub protected_patterns : List String
  pub opaque_patterns : List String
  pub context_paths : List Bytes
  pub requested_author_model : Option String
  pub requested_author_effort : Option String
  pub requested_critic_model : Option String
  pub requested_critic_effort : Option String
  pub max_raw_log_bytes : ℤ
  pub limits : Limits

-- `LoopSettings.__post_init__`
unfoldable pub loop_settings : LoopSettings → Outcome LoopSettings
loop_settings s = do
  raise_if
      (ltb_ℤ s.max_rounds (pos 1)
        || leb_ℤ s.max_runtime_seconds (pos 0)
        || leb_ℤ s.max_raw_log_bytes (pos 0))
      value_error
  ok s

pub record ValidationTurn : Type 0 where
  pub summary : ValidationSummary
  pub result_manifest : SubjectManifest
  pub raw_log : Bytes

-- What a check shows of its run, without its times.
pub record CheckBehavior : Type 0 where
  pub check_id : String
  pub command : String
  pub exit_code : Option ℤ
  pub signal : Option ℤ
  pub timed_out : Bool
  pub infrastructure_failure : Bool
  pub process_started : Bool
  pub output_limited : Bool
  pub outcome : CheckOutcome

pub behavior : CheckExecution → CheckBehavior
unfolding outcome
behavior c = record {
  check_id = c.check_id;
  command = c.command;
  exit_code = c.exit_code;
  signal = c.signal;
  timed_out = c.timed_out;
  infrastructure_failure = c.infrastructure_failure;
  process_started = c.process_started;
  output_limited = c.output_limited;
  outcome = outcome c;
}

-- `_validation_behavior_signature`
unfoldable pub validation_behavior_signature : ValidationTurn → List CheckBehavior × Bytes
unfolding behavior
validation_behavior_signature t = (map behavior t.summary.checks, t.raw_log)

module _ ⦃m : ComponentMatch⦄ where
  unfoldable pub keep_meant : PathPolicy → List ManifestEntry → Outcome (List ManifestEntry)
  unfolding is_opaque
  keep_meant policy [] = ok []
  keep_meant policy (e ∷ es) = do
    d ← classify policy e.path
    rest ← keep_meant policy es
    ok (if is_opaque d then rest else e ∷ rest)

  -- `_without_opaque_entries`
  unfoldable pub without_opaque_entries :
      SubjectManifest → PathPolicy → Limits → Outcome SubjectManifest
  unfolding keep_meant
  without_opaque_entries subject policy limits = do
    es ← keep_meant policy subject.entries
    build limits es

-- The body of the loop of `_restore_opaque_base_entries`: `restored[path] = base_entries[path]`, or
-- `restored.pop(path, None)`.
unfoldable pub restore_at : Option ManifestEntry → Bytes → ByPath → ByPath
unfolding put remove
restore_at (some e) p d = put p e d
restore_at none p d = remove p d

unfoldable pub restore_all : ByPath → List Bytes → ByPath → ByPath
unfolding restore_at get
restore_all base [] d = d
restore_all base (p ∷ ps) d = restore_all base ps (restore_at (get p base) p d)

unfoldable pub touched_paths : List ManifestChange → List Bytes
unfolding paths
touched_paths [] = []
touched_paths (c ∷ cs) = paths c ++ touched_paths cs

-- `_restore_opaque_base_entries`
unfoldable pub restore_opaque_base_entries :
    SubjectManifest → SubjectManifest → List ManifestChange → Limits → Outcome SubjectManifest
unfolding restore_all by_path touched_paths
restore_opaque_base_entries base subject changes limits = build limits (
    map (λ kv. kv.1)
      (restore_all (by_path base.entries) (touched_paths changes) (by_path subject.entries)))

-- `_ensure_deadline`, the clock's reading given.
unfoldable pub ensure_deadline : ℤ → ℤ → Outcome (Unit {0})
ensure_deadline now deadline = fail_if (ltb_ℤ deadline now) StopReason.wall_clock_deadline_exceeded

-- `_verify_raw_log_limit`
unfoldable pub verify_raw_log_limit : ValidationTurn → LoopSettings → Outcome (Unit {0})
verify_raw_log_limit turn settings =
    fail_if (ltb_ℤ settings.max_raw_log_bytes (pos (length turn.raw_log)))
      StopReason.agent_output_limit

module _ ⦃m : ComponentMatch⦄ where
  -- `_verify_validation_turn`; the subject's fingerprint is given.
  unfoldable pub verify_validation_turn :
      PathPolicy → SubjectManifest → String → ValidationTurn → Outcome (Unit {0})
  verify_validation_turn policy subject fingerprint turn = do
    fail_if (not (turn.summary.subject_fingerprint == fingerprint)) StopReason.out_of_band_change
    _ ← verify_validation_mutation policy subject turn.result_manifest
    ok tt

-- The reason that an outcome stops the round with, before a model is asked.
unfoldable pub stop_of : Bool → CheckOutcome → Option StopReason
stop_of baseline CheckOutcome.infrastructure_failure = some (
    if baseline
    then StopReason.baseline_infrastructure_failure
    else StopReason.validation_process_failure)
stop_of baseline CheckOutcome.timed_out = some StopReason.validation_timeout
stop_of baseline CheckOutcome.output_limited = some StopReason.agent_output_limit
stop_of baseline CheckOutcome.process_failure = some StopReason.validation_process_failure
stop_of baseline _ = none

stop_or : Option StopReason → Outcome (Unit {0}) → Outcome (Unit {0})
stop_or (some r) rest = fail r
stop_or none rest = rest

-- The loop of `_ensure_validation_can_continue`.
unfoldable pub each_can_continue : Bool → List CheckExecution → Outcome (Unit {0})
unfolding stop_or stop_of outcome
each_can_continue baseline [] = ok tt
each_can_continue baseline (c ∷ cs) =
    stop_or (stop_of baseline (outcome c)) (each_can_continue baseline cs)

unfoldable pub ensure_validation_can_continue :
    ValidationSummary → ValidationCriticEvidence → Bool → Outcome (Unit {0})
unfolding each_can_continue
ensure_validation_can_continue summary evidence baseline = do
  each_can_continue baseline summary.checks
  fail_if (not evidence.approval_eligible) StopReason.review_evidence_withheld

-- `expected is not None and observed != expected`
unfoldable pub differs : Option String → Option String → Bool
differs none observed = false
differs (some e) none = true
differs (some e) (some o) = not (o == e)

-- `_require_observed_selection`: the expected model and effort, then the observed ones.
unfoldable pub require_observed_selection :
    Option String → Option String → Option String → Option String → Outcome (Unit {0})
unfolding differs
require_observed_selection expected_model expected_effort observed_model observed_effort = do
  fail_if (differs expected_model observed_model) StopReason.sandbox_setup_failure
  fail_if (differs expected_effort observed_effort) StopReason.sandbox_setup_failure
