-- ===== src/Manifest/Limits.antt =====
-- `Limits` of constants.py.
use codex_claude_author_crit.Prelude.{
  ℕ, ◌+◌, ◌*◌, List, [], ◌∷◌, any, ltb, ok, value_error, ◌>>◌, raise_if, leb,
}
use codex_claude_author_crit.Errors.{Outcome}

pub record Limits : Type 0 where
  pub max_files : ℕ
  pub max_file_bytes : ℕ
  pub max_total_subject_bytes : ℕ
  pub max_path_bytes : ℕ
  pub max_path_depth : ℕ
  pub max_bundle_bytes : ℕ
  pub max_estimated_input_tokens : ℕ
  pub reserved_output_tokens : ℕ
  pub max_findings : ℕ
  pub max_field_bytes : ℕ
  pub max_agent_output_bytes : ℕ
  pub max_raw_log_bytes : ℕ
  pub workspace_bytes : ℕ
  pub memory_max_bytes : ℕ
  pub tasks_max : ℕ
  pub limit_fsize_bytes : ℕ
  pub limit_nofile : ℕ

abbrev pub max_bundle_ceiling : ℕ
max_bundle_ceiling = 8 * 1024 * 1024

-- `DEFAULT_REVIEW_CONTEXT_TOKENS`
abbrev pub review_context_tokens : ℕ
review_context_tokens = 64000 + 8192

abbrev pub default_limits : Limits
default_limits = record {
  max_files = 20000;
  max_file_bytes = 4 * 1024 * 1024;
  max_total_subject_bytes = 256 * 1024 * 1024;
  max_path_bytes = 4096;
  max_path_depth = 128;
  max_bundle_bytes = 8 * 1024 * 1024;
  max_estimated_input_tokens = 64000;
  reserved_output_tokens = 8192;
  max_findings = 128;
  max_field_bytes = 32 * 1024;
  max_agent_output_bytes = 16 * 1024 * 1024;
  max_raw_log_bytes = 32 * 1024 * 1024;
  workspace_bytes = 512 * 1024 * 1024;
  memory_max_bytes = 1024 * 1024 * 1024;
  tasks_max = 256;
  limit_fsize_bytes = 64 * 1024 * 1024;
  limit_nofile = 1024;
}

-- Every field, in the order of the class.
field_values : Limits → List ℕ
field_values l =
    l.max_files ∷ l.max_file_bytes ∷ l.max_total_subject_bytes ∷ l.max_path_bytes ∷ l.max_path_depth
    ∷ l.max_bundle_bytes ∷ l.max_estimated_input_tokens ∷ l.reserved_output_tokens ∷ l.max_findings
    ∷ l.max_field_bytes ∷ l.max_agent_output_bytes ∷ l.max_raw_log_bytes ∷ l.workspace_bytes
    ∷ l.memory_max_bytes ∷ l.tasks_max ∷ l.limit_fsize_bytes ∷ l.limit_nofile ∷ []

-- `Limits.__post_init__`; the fields are positive integers.
unfoldable pub limits : Limits → Outcome Limits
unfolding field_values any
limits l = do
  raise_if (any (λ n. leb n 0) (field_values l)) value_error
  raise_if (ltb max_bundle_ceiling l.max_bundle_bytes) value_error
  raise_if (ltb review_context_tokens (l.max_estimated_input_tokens + l.reserved_output_tokens))
      value_error
  ok l
