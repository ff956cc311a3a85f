-- ===== src/Runner/Scans.antt =====
-- The JSON forms of runner.py that are searched for credentials, and the tests on turns and settings.
use codex_claude_author_crit.Prelude.{
  String, Bool, true, Option, none, some, List, [], ◌∷◌, map, list_eq, nat_eq, option_eq, string_eq,
  ok, ◌>>=◌, if◌then◌else◌,
}
use codex_claude_author_crit.Prelude.Int.{ℤ, pos, ℤ_eq}
use codex_claude_author_crit.Errors.{Outcome}
use codex_claude_author_crit.Manifest.Entry.{Digest}
use codex_claude_author_crit.Manifest.Limits.{Limits}
use codex_claude_author_crit.Manifest.Blobs.{BlobReader}
use codex_claude_author_crit.Validation.Execution.{
  CheckExecution, ValidationSummary, outcome, outcome_value,
}
use codex_claude_author_crit.Validation.Declassify.{Base64, KnownSecret}
use codex_claude_author_crit.Critic.Json.{
  Json, null, bool, int, str, arr, obj, from_items, from_fields,
}
use codex_claude_author_crit.Critic.Review.{review_json, string_json}
use codex_claude_author_crit.Runner.{LoopSettings}
use codex_claude_author_crit.Runner.Secrets.{
  Codecs, Tree, Trees, json, raw, tuple, nil, cons, json_tree_contains_known_secret,
  manifest_contains_known_secret,
}
use codex_claude_author_crit.Runner.World.{AuthorTurn, CriticTurn}

abbrev option_int : Option ℤ → Json
option_int none = null
option_int (some z) = int z

-- `_check_json`
unfoldable pub check_json : CheckExecution → Json
unfolding from_fields outcome
check_json c = obj (
    from_fields (
      ("check_id", str c.check_id)
      ∷ ("command", str c.command)
      ∷ ("started_at", int c.started_at)
      ∷ ("completed_at", int c.completed_at)
      ∷ ("exit_code", option_int c.exit_code)
      ∷ ("signal", option_int c.signal)
      ∷ ("timed_out", bool c.timed_out)
      ∷ ("infrastructure_failure", bool c.infrastructure_failure)
      ∷ ("process_started", bool c.process_started)
      ∷ ("output_limited", bool c.output_limited)
      ∷ ("outcome", str (outcome_value (outcome c)))
      ∷ []))

-- The document that `_journal_validation_attempt` searches.
unfoldable pub summary_json : ValidationSummary → Json
unfolding from_fields from_items check_json
summary_json s = obj (
    from_fields (
      ("schema_version", int (pos s.schema_version))
      ∷ ("subject_fingerprint", str s.subject_fingerprint)
      ∷ ("checks", arr (from_items (map check_json s.checks)))
      ∷ []))

-- `_settings_document` with the operator's strings, whose limits `asdict` lists by name.
unfoldable pub limits_json : Limits → Json
unfolding from_fields
limits_json l = obj (
    from_fields (
      ("max_files", int (pos l.max_files))
      ∷ ("max_file_bytes", int (pos l.max_file_bytes))
      ∷ ("max_total_subject_bytes", int (pos l.max_total_subject_bytes))
      ∷ ("max_path_bytes", int (pos l.max_path_bytes))
      ∷ ("max_path_depth", int (pos l.max_path_depth))
      ∷ ("max_bundle_bytes", int (pos l.max_bundle_bytes))
      ∷ ("max_estimated_input_tokens", int (pos l.max_estimated_input_tokens))
      ∷ ("reserved_output_tokens", int (pos l.reserved_output_tokens))
      ∷ ("max_findings", int (pos l.max_findings))
      ∷ ("max_field_bytes", int (pos l.max_field_bytes))
      ∷ ("max_agent_output_bytes", int (pos l.max_agent_output_bytes))
      ∷ ("max_raw_log_bytes", int (pos l.max_raw_log_bytes))
      ∷ ("workspace_bytes", int (pos l.workspace_bytes))
      ∷ ("memory_max_bytes", int (pos l.memory_max_bytes))
      ∷ ("tasks_max", int (pos l.tasks_max))
      ∷ ("limit_fsize_bytes", int (pos l.limit_fsize_bytes))
      ∷ ("limit_nofile", int (pos l.limit_nofile))
      ∷ []))

abbrev kept_texts : Bool → List String → Json
kept_texts retain ss = if retain then arr (from_items (map str ss)) else arr (from_items [])

abbrev kept_text : Bool → Option String → Json
kept_text retain s = if retain then string_json s else null

unfoldable pub settings_document : LoopSettings → Bool → Json
unfolding from_fields from_items limits_json
settings_document s retain = obj (
    from_fields (
      ("max_rounds", int s.max_rounds)
      ∷ ("max_runtime_seconds", int s.max_runtime_seconds)
      ∷ ("protected_patterns", kept_texts retain s.protected_patterns)
      ∷ ("opaque_patterns", kept_texts retain s.opaque_patterns)
      ∷ ("requested_author_model", kept_text retain s.requested_author_model)
      ∷ ("requested_author_effort", kept_text retain s.requested_author_effort)
      ∷ ("requested_critic_model", kept_text retain s.requested_critic_model)
      ∷ ("requested_critic_effort", kept_text retain s.requested_critic_effort)
      ∷ ("max_raw_log_bytes", int s.max_raw_log_bytes)
      ∷ ("limits", limits_json s.limits)
      ∷ []))

unfoldable pub tuple_of : List Tree → Tree
tuple_of ts = tuple (gather ts)
  where
    gather : List Tree → Trees
    gather [] = nil
    gather (t ∷ rest) = cons t (gather rest)

abbrev option_json : Option Json → Json
option_json none = null
option_json (some j) = j

module _ ⦃b : Base64⦄ (secrets : List KnownSecret) where
  -- `_settings_contains_known_secret`
  unfoldable pub settings_contains_known_secret : LoopSettings → Outcome Bool
  unfolding json_tree_contains_known_secret settings_document tuple_of
  settings_contains_known_secret s =
      json_tree_contains_known_secret secrets
        (tuple_of (json (settings_document s true) ∷ tuple_of (map raw s.context_paths) ∷ []))

  -- `_critic_turn_contains_known_secret`
  unfoldable pub critic_turn_contains_known_secret : CriticTurn → Outcome Bool
  unfolding json_tree_contains_known_secret review_json tuple_of
  critic_turn_contains_known_secret t = json_tree_contains_known_secret secrets (
      tuple_of (
        json t.envelope
        ∷ json (review_json t.review)
        ∷ json (string_json t.observed_model)
        ∷ json (string_json t.observed_effort)
        ∷ []))

  -- `_author_turn_contains_known_secret`
  unfoldable pub author_turn_contains_known_secret :
      ⦃d : Digest⦄ ⦃j : Codecs⦄ → BlobReader → AuthorTurn → Outcome Bool
  unfolding manifest_contains_known_secret json_tree_contains_known_secret from_items tuple_of
  author_turn_contains_known_secret blobs t = do
    hit ← manifest_contains_known_secret secrets blobs t.candidate
    let rest = json_tree_contains_known_secret secrets (
        tuple_of (
          json (str t.thread_id)
          ∷ json (str t.final_message)
          ∷ json (arr (from_items t.events))
          ∷ json (option_json t.usage)
          ∷ json (string_json t.observed_model)
          ∷ json (string_json t.observed_effort)
          ∷ []))
    if hit then ok true else rest
