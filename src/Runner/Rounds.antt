-- ===== src/Runner/Rounds.antt =====
-- `LoopRunner.run` of runner.py from the review of a round on: the critic's phase, the decision, and the
-- loop over the rounds.
pub mod Last
use Prim.Native.String.{◌++◌ as ◌+++◌}
use codex_claude_author_crit.Prelude.{
  ℕ, zero, suc, String, Bool, true, Option, none, some, [], ◌∷◌, ◌++◌, if◌then◌else◌,
}
use codex_claude_author_crit.Prelude.Int.{ℤ, pos_part}
use codex_claude_author_crit.Errors.{StopReason}
use codex_claude_author_crit.StateMachine.{RoundObservation, observe_round, decide}
use codex_claude_author_crit.Paths.Glob.{ComponentMatch}
use codex_claude_author_crit.Manifest.Entry.{Digest}
use codex_claude_author_crit.Manifest.Reconcile.{ReconciliationResult}
use codex_claude_author_crit.Validation.Execution.{all_pass}
use codex_claude_author_crit.Validation.Declassify.{Base64, raw_log_contains_known_secret}
use codex_claude_author_crit.Critic.Json.{Unicode, str}
use codex_claude_author_crit.Critic.Review.{
  ApprovalContext, CriticReview, review_json, validate_critic_review,
}
use codex_claude_author_crit.Progress.{observe}
use codex_claude_author_crit.Prompts.{build_revision_author_prompt}
use codex_claude_author_crit.Prompts.Review.{build_review_bundle}
use codex_claude_author_crit.Runner.{ValidationTurn, require_observed_selection}
use codex_claude_author_crit.Runner.Inputs.{Texts, Run, stop_detail, open_items, prepare}
use codex_claude_author_crit.Runner.Secrets.{Codecs, json, json_tree_contains_known_secret}
use codex_claude_author_crit.Runner.Scans.{critic_turn_contains_known_secret, tuple_of}
use codex_claude_author_crit.Runner.Turns.{progress_state}
use codex_claude_author_crit.Runner.World.{
  Adapters, Action, Entry, CriticTurn, LoopResult, pure, call, lift, raise_when, get_locals,
  set_locals, ◌>>=◌, ◌>>◌,
}
use codex_claude_author_crit.Runner.Validations.{Judged, withheld}
use codex_claude_author_crit.Runner.Loop.{
  stop, secrets_now, screen_inputs, baseline_phase, author_phase, validation_phase,
}

module _ ⦃m : ComponentMatch⦄ ⦃b : Base64⦄ ⦃d : Digest⦄ ⦃j : Codecs⦄ ⦃u : Unicode⦄ {S : Type 0}
    (a : Adapters S) (texts : Texts) (r : Run) (deadline : ℤ) where
  -- The critic's turn, with the review that the local checks accept.
  unfoldable pub critic_phase :
      ℕ → ReconciliationResult → ValidationTurn → Judged → Action S CriticTurn
  unfolding secrets_now build_review_bundle raw_log_contains_known_secret
      json_tree_contains_known_secret tuple_of all_pass critic_turn_contains_known_secret
      require_observed_selection validate_critic_review review_json
  critic_phase n rec turn judged = do
    l ← get_locals
    secrets ← secrets_now a texts r deadline
    bundle ← lift texts.detail (
        build_review_bundle (record {
          task = r.task;
          base = r.base;
          subject = l.current;
          semantic_changes = rec.semantic_changes;
          opaque_changes = rec.opaque_changes;
          blobs = a.blobs;
          validation = judged.evidence;
          protected_patterns = r.settings.protected_patterns;
          opaque_patterns = r.settings.opaque_patterns;
          context_paths = r.settings.context_paths;
          prior_findings = l.ledger;
          known_secrets = secrets;
          limits = r.settings.limits;
        }))
    current_secrets ← secrets_now a texts r deadline
    document_hit ←
        if raw_log_contains_known_secret bundle.encoded current_secrets
        then pure true
        else lift texts.detail (
            json_tree_contains_known_secret current_secrets
              (tuple_of (json bundle.document ∷ json (str bundle.fingerprint) ∷ [])))
    raise_when document_hit (withheld "critic bundle contained dedicated credential bytes")
    let approval : ApprovalContext = record {
      all_validations_pass = all_pass turn.summary;
      semantic_deltas_visible = true;
      evidence_approval_eligible = judged.evidence.approval_eligible;
    }
    answer ← call (
        a.review
          (record { round_number = n; bundle = bundle; approval = approval; deadline = deadline }))
    secrets' ← secrets_now a texts r deadline
    hit ← lift texts.detail (critic_turn_contains_known_secret secrets' answer)
    call (a.journal (Entry.critic_attempt n answer r.settings.limits.max_agent_output_bytes hit))
    raise_when hit (withheld "decoded critic output contained dedicated credential bytes")
    lift texts.detail (
        require_observed_selection r.settings.requested_critic_model
          r.settings.requested_critic_effort answer.observed_model answer.observed_effort)
    call (a.integrity_guard l.current)
    review ← lift texts.detail (validate_critic_review (some approval) (review_json answer.review))
    let checked : CriticTurn = record answer { review = review }
    call (a.journal (Entry.critic_turn n checked bundle))
    now ← get_locals
    set_locals (record now { rounds_completed = n })
    pure checked

  -- Stop for the reason, or prepare the next round.
  unfoldable pub conclude : Option StopReason → CriticReview → Judged → Action S (Option LoopResult)
  unfolding stop stop_detail open_items build_revision_author_prompt
  conclude (some reason) review judged = do
    l ← get_locals
    result ← stop a texts r deadline reason (stop_detail reason review l.fatal)
    pure (some result)
  conclude none review judged = do
    ledger ← lift texts.detail (open_items review.blocking_findings)
    l ← get_locals
    set_locals (record l { ledger = ledger })
    prompt ← lift texts.detail (build_revision_author_prompt r.task review judged.evidence)
    now ← get_locals
    set_locals (record now { prompt = prompt })
    pure none

  unfoldable pub observation_of : ℕ → ValidationTurn → Judged → CriticTurn → Bool → RoundObservation
  unfolding all_pass
  observation_of n turn judged answer repeated = record {
    round_count = n;
    max_rounds = pos_part r.settings.max_rounds;
    all_validations_pass = all_pass turn.summary;
    semantic_deltas_visible = true;
    evidence_approval_eligible = judged.evidence.approval_eligible;
    critic_verdict = some answer.review.verdict;
    critic_completed_at = some answer.completed_at;
    monotonic_deadline = deadline;
    repeated_non_success_state = repeated;
  }

  unfoldable pub decide_phase :
      ℕ → ValidationTurn → Judged → CriticTurn → Action S (Option LoopResult)
  unfolding progress_state observe observe_round observation_of decide conclude
  decide_phase n turn judged answer = do
    l ← get_locals
    progress ← lift texts.detail (progress_state l.current judged.classified answer.review)
    let (repeated, latest) = observe l.previous_fingerprint progress
    set_locals (record l { previous_fingerprint = latest })
    observation ← lift texts.detail (observe_round (observation_of n turn judged answer repeated))
    decided ← lift texts.detail (decide observation l.fatal)
    now ← get_locals
    set_locals (record now { fatal = decided.1 })
    conclude decided.0.reason answer.review judged

  unfoldable pub round : ℕ → ValidationTurn → Action S (Option LoopResult)
  unfolding author_phase validation_phase critic_phase decide_phase
  round n baseline = do
    rec ← author_phase a texts r deadline n
    validated ← validation_phase a texts r deadline n baseline rec
    answer ← critic_phase n rec validated.0 validated.1
    decide_phase n validated.0 validated.1 answer

  unfoldable pub result_or : Option LoopResult → Action S LoopResult → Action S LoopResult
  result_or (some result) rest = pure result
  result_or none rest = rest

  -- The rounds from `n` on, of which `left` are left, and then what stands after the loop.
  unfoldable pub rounds : ℕ → ℕ → ValidationTurn → Action S LoopResult → Action S LoopResult
  unfolding round result_or
  rounds zero n baseline after = after
  rounds (suc left) n baseline after = do
    finished ← round n baseline
    result_or finished (rounds left (suc n) baseline after)

  -- The block of `try`, given what stands after the loop.
  unfoldable pub body_then : Action S LoopResult → Action S LoopResult
  unfolding screen_inputs baseline_phase rounds
  body_then after = do
    screen_inputs a texts r deadline
    baseline ← baseline_phase a texts r deadline
    rounds (pos_part r.settings.max_rounds) 1 baseline after
