-- ===== src/Errors.antt =====
-- errors.py: the stop reasons, the public exit codes and the table between them.
pub mod Contract
use codex_claude_author_crit.Prelude.{ℕ, String, Except}

pub data ExitCode : Type 0 where
  success round_cap stalled timeout interrupted invalid_critic : ExitCode
  critic_blocked process_failure integrity_failure internal_error : ExitCode

-- The number that the process exits with.
unfoldable pub exit_status : ExitCode → ℕ
exit_status ExitCode.success = 0
exit_status ExitCode.round_cap = 10
exit_status ExitCode.stalled = 11
exit_status ExitCode.timeout = 12
exit_status ExitCode.interrupted = 13
exit_status ExitCode.invalid_critic = 14
exit_status ExitCode.critic_blocked = 15
exit_status ExitCode.process_failure = 16
exit_status ExitCode.integrity_failure = 17
exit_status ExitCode.internal_error = 18

pub data StopReason : Type 0 where
  converged round_cap_reached stalled : StopReason
  author_timeout critic_timeout validation_timeout : StopReason
  wall_clock_deadline_exceeded user_interrupt invalid_structured_output : StopReason
  critic_lgtm_with_failed_validation critic_blocked author_process_failure : StopReason
  critic_process_failure validation_process_failure critic_max_turns_exhausted : StopReason
  agent_output_limit structured_output_retries review_bundle_too_large : StopReason
  review_content_withheld review_evidence_withheld unsafe_or_ambiguous_path : StopReason
  unsafe_file_type_or_hard_link protected_subject_path_changed validation_mutated_subject :
      StopReason
  out_of_band_change sandbox_setup_failure baseline_infrastructure_failure : StopReason
  git_policy_or_output_failure author_service_not_empty bwrap_package_or_mode_unsafe : StopReason
  repository_shape_unsupported project_instruction_isolation gitless_invocation_probe_failed :
      StopReason
  credential_state_conflict credential_refresh_failure diagnostic_patch_failure : StopReason
  service_lifecycle_mismatch runner_internal_error : StopReason

-- `str(reason)`, the value of the enumeration.
unfoldable pub reason_value : StopReason → String
reason_value StopReason.converged = "converged"
reason_value StopReason.round_cap_reached = "round_cap_reached"
reason_value StopReason.stalled = "stalled"
reason_value StopReason.author_timeout = "author_timeout"
reason_value StopReason.critic_timeout = "critic_timeout"
reason_value StopReason.validation_timeout = "validation_timeout"
reason_value StopReason.wall_clock_deadline_exceeded = "wall_clock_deadline_exceeded"
reason_value StopReason.user_interrupt = "user_interrupt"
reason_value StopReason.invalid_structured_output = "invalid_structured_output"
reason_value StopReason.critic_lgtm_with_failed_validation = "critic_lgtm_with_failed_validation"
reason_value StopReason.critic_blocked = "critic_blocked"
reason_value StopReason.author_process_failure = "author_process_failure"
reason_value StopReason.critic_process_failure = "critic_process_failure"
reason_value StopReason.validation_process_failure = "validation_process_failure"
reason_value StopReason.critic_max_turns_exhausted = "critic_max_turns_exhausted"
reason_value StopReason.agent_output_limit = "agent_output_limit"
reason_value StopReason.structured_output_retries = "structured_output_retries"
reason_value StopReason.review_bundle_too_large = "review_bundle_too_large"
reason_value StopReason.review_content_withheld = "review_content_withheld"
reason_value StopReason.review_evidence_withheld = "review_evidence_withheld"
reason_value StopReason.unsafe_or_ambiguous_path = "unsafe_or_ambiguous_path"
reason_value StopReason.unsafe_file_type_or_hard_link = "unsafe_file_type_or_hard_link"
reason_value StopReason.protected_subject_path_changed = "protected_subject_path_changed"
reason_value StopReason.validation_mutated_subject = "validation_mutated_subject"
reason_value StopReason.out_of_band_change = "out_of_band_change"
reason_value StopReason.sandbox_setup_failure = "sandbox_setup_failure"
reason_value StopReason.baseline_infrastructure_failure = "baseline_infrastructure_failure"
reason_value StopReason.git_policy_or_output_failure = "git_policy_or_output_failure"
reason_value StopReason.author_service_not_empty = "author_service_not_empty"
reason_value StopReason.bwrap_package_or_mode_unsafe = "bwrap_package_or_mode_unsafe"
reason_value StopReason.repository_shape_unsupported = "repository_shape_unsupported"
reason_value StopReason.project_instruction_isolation = "project_instruction_isolation"
reason_value StopReason.gitless_invocation_probe_failed = "gitless_invocation_probe_failed"
reason_value StopReason.credential_state_conflict = "credential_state_conflict"
reason_value StopReason.credential_refresh_failure = "credential_refresh_failure"
reason_value StopReason.diagnostic_patch_failure = "diagnostic_patch_failure"
reason_value StopReason.service_lifecycle_mismatch = "service_lifecycle_mismatch"
reason_value StopReason.runner_internal_error = "runner_internal_error"

-- `_EXIT_BY_REASON`, read by `exit_code_for`.
unfoldable pub exit_code_for : StopReason → ExitCode
exit_code_for StopReason.converged = ExitCode.success
exit_code_for StopReason.round_cap_reached = ExitCode.round_cap
exit_code_for StopReason.stalled = ExitCode.stalled
exit_code_for StopReason.author_timeout = ExitCode.timeout
exit_code_for StopReason.critic_timeout = ExitCode.timeout
exit_code_for StopReason.validation_timeout = ExitCode.timeout
exit_code_for StopReason.wall_clock_deadline_exceeded = ExitCode.timeout
exit_code_for StopReason.user_interrupt = ExitCode.interrupted
exit_code_for StopReason.invalid_structured_output = ExitCode.invalid_critic
exit_code_for StopReason.critic_lgtm_with_failed_validation = ExitCode.invalid_critic
exit_code_for StopReason.critic_blocked = ExitCode.critic_blocked
exit_code_for StopReason.author_process_failure = ExitCode.process_failure
exit_code_for StopReason.critic_process_failure = ExitCode.process_failure
exit_code_for StopReason.validation_process_failure = ExitCode.process_failure
exit_code_for StopReason.critic_max_turns_exhausted = ExitCode.process_failure
exit_code_for StopReason.agent_output_limit = ExitCode.process_failure
exit_code_for StopReason.structured_output_retries = ExitCode.process_failure
exit_code_for StopReason.review_bundle_too_large = ExitCode.integrity_failure
exit_code_for StopReason.review_content_withheld = ExitCode.integrity_failure
exit_code_for StopReason.review_evidence_withheld = ExitCode.integrity_failure
exit_code_for StopReason.unsafe_or_ambiguous_path = ExitCode.integrity_failure
exit_code_for StopReason.unsafe_file_type_or_hard_link = ExitCode.integrity_failure
exit_code_for StopReason.protected_subject_path_changed = ExitCode.integrity_failure
exit_code_for StopReason.validation_mutated_subject = ExitCode.integrity_failure
exit_code_for StopReason.out_of_band_change = ExitCode.integrity_failure
exit_code_for StopReason.sandbox_setup_failure = ExitCode.integrity_failure
exit_code_for StopReason.baseline_infrastructure_failure = ExitCode.integrity_failure
exit_code_for StopReason.git_policy_or_output_failure = ExitCode.integrity_failure
exit_code_for StopReason.author_service_not_empty = ExitCode.integrity_failure
exit_code_for StopReason.bwrap_package_or_mode_unsafe = ExitCode.integrity_failure
exit_code_for StopReason.repository_shape_unsupported = ExitCode.integrity_failure
exit_code_for StopReason.project_instruction_isolation = ExitCode.integrity_failure
exit_code_for StopReason.gitless_invocation_probe_failed = ExitCode.integrity_failure
exit_code_for StopReason.credential_state_conflict = ExitCode.integrity_failure
exit_code_for StopReason.credential_refresh_failure = ExitCode.integrity_failure
exit_code_for StopReason.diagnostic_patch_failure = ExitCode.integrity_failure
exit_code_for StopReason.service_lifecycle_mismatch = ExitCode.integrity_failure
exit_code_for StopReason.runner_internal_error = ExitCode.internal_error

-- What a fallible call returns: `fail reason` is a raised `AgentLoopError`.
abbrev pub Outcome {ℓ} : Type ℓ → Type ℓ
Outcome A = Except StopReason A
