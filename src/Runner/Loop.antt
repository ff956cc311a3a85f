-- ===== src/Runner/Loop.antt =====
-- `LoopRunner.run` of runner.py up to its handlers: what stands before the rounds, and the four phases of
-- a round.
use codex_claude_author_crit.Prelude.{
  ℕ, String, true, false, Option, none, some, List, [], ◌∷◌, ◌==◌, ◌&&◌, ◌||◌, not, list_eq, nat_eq,
  string_eq, if◌then◌else◌,
}
use codex_claude_author_crit.Prelude.Int.{ℤ}
use codex_claude_author_crit.Prelude.Text.{utf8}
use codex_claude_author_crit.Errors.{StopReason, exit_code_for}
use codex_claude_author_crit.Paths.Glob.{ComponentMatch}
use codex_claude_author_crit.Manifest.Entry.{Digest, entry_eq}
use codex_claude_author_crit.Manifest.Change.{ManifestChange}
use codex_claude_author_crit.Manifest.Limits.{default_limits}
use codex_claude_author_crit.Manifest.Reconcile.{ReconciliationResult, reconcile_candidate}
use codex_claude_author_crit.Validation.Declassify.{
  Base64, KnownSecret, raw_log_contains_known_secret,
}
use codex_claude_author_crit.Critic.Json.{Unicode}
use codex_claude_author_crit.Runner.{
  ValidationTurn, without_opaque_entries, restore_opaque_base_entries,
  ensure_validation_can_continue, require_observed_selection,
}
use codex_claude_author_crit.Runner.Inputs.{Texts, Run, same_manifest}
use codex_claude_author_crit.Runner.Secrets.{Codecs, manifest_contains_known_secret}
use codex_claude_author_crit.Runner.Scans.{
  settings_contains_known_secret, author_turn_contains_known_secret,
}
use codex_claude_author_crit.Runner.World.{
  Adapters, Action, Entry, Phase, LoopResult, agent, pure, call, lift, ◌>>=◌, ◌>>◌, raise_when,
  get_locals, set_locals,
}
use codex_claude_author_crit.Runner.Validations.{
  Judged, withheld, current_known_secrets, ensure_deadline_now, judge,
  prove_opaque_validation_independence,
}

module _ ⦃m : ComponentMatch⦄ ⦃b : Base64⦄ ⦃d : Digest⦄ ⦃j : Codecs⦄ ⦃u : Unicode⦄ {S : Type 0}
    (a : Adapters S) (texts : Texts) (r : Run) (deadline : ℤ) where
  -- `stop` of `run`.
  unfoldable pub stop : StopReason → String → Action S LoopResult
  stop reason detail = do
    l ← get_locals
    let result : LoopResult = record {
      exit_code = exit_code_for reason;
      stop_reason = reason;
      rounds_completed = l.rounds_completed;
      subject = l.current;
      thread_id = l.thread_id;
      detail = detail;
    }
    call (a.journal (Entry.finish result))
    pure result

  unfoldable pub check_deadline : Action S (Unit {0})
  unfolding ensure_deadline_now
  check_deadline = ensure_deadline_now a texts.detail r.settings deadline

  unfoldable pub secrets_now : Action S (List KnownSecret)
  unfolding current_known_secrets
  secrets_now = current_known_secrets a texts.detail r.settings deadline

  -- What is tested and journaled before anything is run.
  unfoldable pub screen_inputs : Action S (Unit {0})
  unfolding secrets_now raw_log_contains_known_secret utf8 manifest_contains_known_secret
      settings_contains_known_secret
  screen_inputs = do
    secrets ← secrets_now
    let task_withheld = raw_log_contains_known_secret (utf8 r.task) secrets
    base_withheld ← lift texts.detail (manifest_contains_known_secret secrets a.blobs r.base)
    settings_withheld ← lift texts.detail (settings_contains_known_secret secrets r.settings)
    metadata_withheld ←
        if a.is_artifact_journal then call (a.pending_metadata secrets) else pure false
    let any_withheld = task_withheld || base_withheld || settings_withheld || metadata_withheld
    if not r.journal_prestarted && a.is_artifact_journal
        then call (a.journal (Entry.precredential_start r.base deadline r.settings))
        else pure tt
    if not r.journal_prestarted && not any_withheld
        then call (a.journal (Entry.start r.task r.base deadline r.settings))
        else pure tt
    call (a.journal (Entry.task_input r.task task_withheld))
    call (a.journal (Entry.subject_input r.base base_withheld))
    raise_when any_withheld (
        withheld
          "run metadata, task, settings, or initial subject contained dedicated credential bytes")

  unfoldable pub first_baseline : Option ValidationTurn → Action S ValidationTurn
  first_baseline (some turn) = pure turn
  first_baseline none =
      call (a.validate (record { subject = r.base; baseline = none; deadline = deadline }))

  unfoldable pub baseline_phase : Action S ValidationTurn
  unfolding check_deadline first_baseline judge ensure_validation_can_continue
      without_opaque_entries same_manifest prove_opaque_validation_independence
  baseline_phase = do
    check_deadline
    turn ← first_baseline r.prepared_baseline
    judged ← judge a texts.detail r.settings deadline none Phase.baseline r.base none (pure tt) turn
    call (a.journal (Entry.baseline_turn judged.turn judged.evidence))
    lift texts.detail (ensure_validation_can_continue turn.summary judged.evidence true)
    opaque_free ← lift texts.detail (without_opaque_entries r.base a.policy r.settings.limits)
    if same_manifest opaque_free r.base
        then pure tt
        else prove_opaque_validation_independence a texts.detail r.settings deadline turn
            opaque_free turn.summary none true
    pure turn

  -- The thread of the first turn is the run's.
  unfoldable pub keep_thread : Option String → String → Action S (Unit {0})
  keep_thread none thread = do l ← get_locals; set_locals (record l { thread_id = some thread })
  keep_thread (some known) thread = raise_when (not (thread == known)) (
      agent StopReason.gitless_invocation_probe_failed
        "author resume returned a different thread ID")

  unfoldable pub author_phase : ℕ → Action S ReconciliationResult
  unfolding check_deadline secrets_now raw_log_contains_known_secret utf8 keep_thread
      author_turn_contains_known_secret require_observed_selection reconcile_candidate
  author_phase n = do
    check_deadline
    l ← get_locals
    call (a.integrity_guard l.current)
    secrets ← secrets_now
    raise_when (raw_log_contains_known_secret (utf8 l.prompt) secrets)
        (withheld "author prompt contained dedicated credential bytes")
    turn ← call (
        a.author (record {
          round_number = n;
          subject = l.current;
          prompt = l.prompt;
          thread_id = l.thread_id;
          deadline = deadline;
        }))
    secrets' ← secrets_now
    hit ← lift texts.detail (author_turn_contains_known_secret secrets' a.blobs turn)
    call (a.journal (Entry.author_attempt n turn r.settings.limits.max_agent_output_bytes hit))
    raise_when hit (withheld "decoded author output contained dedicated credential bytes")
    lift texts.detail (
        require_observed_selection r.settings.requested_author_model
          r.settings.requested_author_effort turn.observed_model turn.observed_effort)
    raise_when (turn.thread_id == "")
        (agent StopReason.author_process_failure "author returned no thread ID")
    keep_thread l.thread_id turn.thread_id
    check_deadline
    rec ← lift texts.detail (reconcile_candidate a.policy r.base turn.candidate default_limits)
    now ← get_locals
    set_locals (record now { current = rec.authoritative_manifest })
    call (a.publish_subject rec.authoritative_manifest)
    call (a.integrity_guard rec.authoritative_manifest)
    call (
        a.journal (
          Entry.author_turn n turn rec.authoritative_manifest rec.semantic_changes
            rec.opaque_changes rec.discarded_changes r.base))
    pure rec

  unfoldable pub opaque_phase :
      ℕ → ValidationTurn → ValidationTurn → List ManifestChange → Action S (Unit {0})
  unfolding restore_opaque_base_entries prove_opaque_validation_independence
  opaque_phase n baseline turn [] = pure tt
  opaque_phase n baseline turn (c ∷ cs) = do
    l ← get_locals
    counterfactual ←
        lift texts.detail (restore_opaque_base_entries r.base l.current (c ∷ cs) r.settings.limits)
    prove_opaque_validation_independence a texts.detail r.settings deadline turn counterfactual
        baseline.summary (some n) false
    call (a.integrity_guard l.current)

  unfoldable pub validation_phase :
      ℕ → ValidationTurn → ReconciliationResult → Action S (ValidationTurn × Judged)
  unfolding judge ensure_validation_can_continue opaque_phase check_deadline
  validation_phase n baseline rec = do
    l ← get_locals
    turn ← call (
        a.validate
          (record { subject = l.current; baseline = some baseline.summary; deadline = deadline }))
    judged ←
        judge a texts.detail r.settings deadline (some n) Phase.validation l.current
          (some baseline.summary) (call (a.integrity_guard l.current)) turn
    call (a.journal (Entry.validation_turn n judged.turn judged.evidence judged.classified))
    lift texts.detail (ensure_validation_can_continue turn.summary judged.evidence false)
    opaque_phase n baseline turn rec.opaque_changes
    check_deadline
    pure (turn, judged)
