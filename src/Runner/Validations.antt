-- ===== src/Runner/Validations.antt =====
-- The parts of `LoopRunner` that read the clock, the secrets and a validation: `_ensure_deadline`,
-- `_current_known_secrets`, `_journal_validation_attempt` and `_prove_opaque_validation_independence`.
use codex_claude_author_crit.Prelude.{
  ℕ, zero, suc, String, Bool, true, Option, some, List, [], ◌∷◌, ◌++◌, ◌&&◌, ◌||◌, ◌-◌, not, length,
  ltb, ok, if◌then◌else◌,
}
use codex_claude_author_crit.Prelude.Bytes.{Bytes}
use codex_claude_author_crit.Prelude.Int.{ℤ, pos, negsuc}
use codex_claude_author_crit.Errors.{StopReason}
use codex_claude_author_crit.Paths.Glob.{ComponentMatch}
use codex_claude_author_crit.Manifest.Entry.{Digest}
use codex_claude_author_crit.Manifest.Subject.{SubjectManifest}
use codex_claude_author_crit.Manifest.Canonical.{fingerprint}
use codex_claude_author_crit.Validation.Execution.{ValidationSummary}
use codex_claude_author_crit.Validation.Classify.{ClassifiedCheck, classify_validations}
use codex_claude_author_crit.Validation.Declassify.{
  Base64, KnownSecret, ValidationCriticEvidence, raw_log_contains_known_secret,
  declassify_validation,
}
use codex_claude_author_crit.Runner.{
  LoopSettings, ValidationTurn, ensure_deadline, verify_raw_log_limit, verify_validation_turn,
  ensure_validation_can_continue,
}
use codex_claude_author_crit.Runner.Secrets.{
  Codecs, json, json_tree_contains_known_secret, manifest_metadata_contains_known_secret,
}
use codex_claude_author_crit.Runner.Scans.{summary_json}
use codex_claude_author_crit.Runner.Turns.{
  from_keys, without_validation_raw, same_behavior, require_opaque_validation_independence,
}
use codex_claude_author_crit.Runner.World.{
  Adapters, Action, Entry, Phase, Raised, agent, pure, call, lift, ◌>>=◌, ◌>>◌, raise_when,
}

abbrev pub withheld : String → Raised
withheld detail = agent StopReason.credential_refresh_failure detail

-- `bytes[:n]`; a bound below zero, which `LoopSettings` refuses, takes from the end.
first_bytes : ℕ → Bytes → Bytes
first_bytes zero bs = []
first_bytes (suc n) [] = []
first_bytes (suc n) (c ∷ bs) = c ∷ first_bytes n bs

unfoldable pub up_to : ℤ → Bytes → Bytes
unfolding first_bytes
up_to (pos n) bs = first_bytes n bs
up_to (negsuc n) bs = first_bytes (length bs - suc n) bs

-- What a journaled validation gives the rest of its phase.
pub record Judged : Type 0 where
  pub turn : ValidationTurn
  pub raw_withheld : Bool
  pub classified : List ClassifiedCheck
  pub evidence : ValidationCriticEvidence

module _ ⦃m : ComponentMatch⦄ ⦃b : Base64⦄ ⦃d : Digest⦄ ⦃j : Codecs⦄ {S : Type 0} (a : Adapters S)
    (text : StopReason → String) (settings : LoopSettings) (deadline : ℤ) where
  unfoldable pub current_known_secrets : Action S (List KnownSecret)
  unfolding from_keys
  current_known_secrets = do
    supplied ← call a.known_secret_provider
    pure (from_keys [] (a.known_secrets ++ supplied))

  unfoldable pub ensure_deadline_now : Action S (Unit {0})
  ensure_deadline_now = do
    now ← call (λ s. let (t, s') = a.clock s in (ok t, s'))
    lift text (ensure_deadline now deadline)

  unfoldable pub journal_validation_attempt :
      Option ℕ → Phase → SubjectManifest → ValidationTurn → Action S Bool
  unfolding current_known_secrets raw_log_contains_known_secret
      manifest_metadata_contains_known_secret json_tree_contains_known_secret summary_json up_to
  journal_validation_attempt round_number phase subject turn = do
    secrets ← current_known_secrets
    let raw_log_withheld = raw_log_contains_known_secret turn.raw_log secrets
    input_withheld ← lift text (manifest_metadata_contains_known_secret secrets subject)
    result_withheld ←
        if input_withheld
        then pure true
        else lift text (manifest_metadata_contains_known_secret secrets turn.result_manifest)
    summary_withheld ←
        lift text (json_tree_contains_known_secret secrets (json (summary_json turn.summary)))
    let retained = if raw_log_withheld then [] else up_to settings.max_raw_log_bytes turn.raw_log
    call (
        a.journal (
          Entry.validation_attempt round_number phase subject turn retained
            (not raw_log_withheld && ltb (length retained) (length turn.raw_log)) raw_log_withheld
            result_withheld summary_withheld))
    raise_when (result_withheld || summary_withheld) (
        withheld
          "validation input, result, or summary metadata contained dedicated credential bytes")
    pure raw_log_withheld

  -- The steps that a baseline and a counterfactual share: a validation's answer is journaled, bounded,
  -- tied to its subject, classified and declassified.
  unfoldable pub judge :
      Option ℕ
      → Phase
      → SubjectManifest
      → Option ValidationSummary
      → Action S (Unit {0})
      → ValidationTurn
      → Action S Judged
  unfolding journal_validation_attempt current_known_secrets fingerprint verify_raw_log_limit
      verify_validation_turn classify_validations declassify_validation
  judge round_number phase subject baseline guard turn = do
    raw_withheld ← journal_validation_attempt round_number phase subject turn
    lift text (verify_raw_log_limit turn settings)
    guard
    name ← lift text (fingerprint subject)
    lift text (verify_validation_turn a.policy subject name turn)
    classified ← lift text (classify_validations baseline turn.summary)
    secrets ← current_known_secrets
    pure (record {
      turn = if raw_withheld then without_validation_raw turn else turn;
      raw_withheld = raw_withheld;
      classified = classified;
      evidence = declassify_validation name classified turn.raw_log secrets;
    })

  -- `_prove_opaque_validation_independence`
  unfoldable pub prove_opaque_validation_independence :
      ValidationTurn → SubjectManifest → ValidationSummary → Option ℕ → Bool → Action S (Unit {0})
  unfolding ensure_deadline_now judge same_behavior without_validation_raw
      ensure_validation_can_continue require_opaque_validation_independence
  prove_opaque_validation_independence authoritative subject baseline round_number baseline_phase =
      do
        ensure_deadline_now
        counterfactual ← call (
            a.validate
              (record { subject = subject; baseline = some baseline; deadline = deadline }))
        judged ← judge round_number Phase.opaque subject (some baseline) (pure tt) counterfactual
        call (
            a.journal (
              Entry.opaque_proof round_number subject judged.turn
                (same_behavior authoritative counterfactual)))
        lift text
            (ensure_validation_can_continue counterfactual.summary judged.evidence baseline_phase)
        lift text (require_opaque_validation_independence authoritative counterfactual)
        ensure_deadline_now
