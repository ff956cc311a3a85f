-- ===== src/Runner/Contract/Rounds.antt =====
-- The phases of a round of `LoopRunner.run` keep to the contract with the adapters.
use codex_claude_author_crit.Prelude.{
  ℕ, ◌≡◌, refl, String, Bool, true, false, Option, none, some, List, [], ◌∷◌, if◌then◌else◌,
}
use codex_claude_author_crit.Prelude.Int.{ℤ}
use codex_claude_author_crit.Prelude.Text.{utf8}
use codex_claude_author_crit.Errors.{Outcome, StopReason}
use codex_claude_author_crit.Paths.Glob.{ComponentMatch}
use codex_claude_author_crit.Manifest.Entry.{Digest}
use codex_claude_author_crit.Manifest.Change.{ManifestChange}
use codex_claude_author_crit.Manifest.Limits.{default_limits}
use codex_claude_author_crit.Manifest.Reconcile.Safety.{reconcile_candidate_published}
use codex_claude_author_crit.Manifest.Reconcile.{ReconciliationResult}
use codex_claude_author_crit.Critic.Json.{Unicode}
use codex_claude_author_crit.Critic.Review.{CriticReview}
use codex_claude_author_crit.Validation.Declassify.{Base64}
use codex_claude_author_crit.Runner.{ValidationTurn}
use codex_claude_author_crit.Runner.Guards.{ensure_validation_can_continue_iff}
use codex_claude_author_crit.Runner.Inputs.{Texts, Run}
use codex_claude_author_crit.Runner.Secrets.{Codecs}
use codex_claude_author_crit.Runner.World.{Adapters, Phase, LoopResult, pure, lift, call}
use codex_claude_author_crit.Runner.World.Holds.{
  Holds, Holds-pure, Holds-lift, Holds-if, Holds-map, Holds-call, Holds-get_locals,
  Holds-set_locals, Holds-raise_when, ◌then◌,
}
use codex_claude_author_crit.Runner.Validations.{Judged}
use codex_claude_author_crit.Runner.Loop.{author_phase, opaque_phase, validation_phase, keep_thread}
use codex_claude_author_crit.Runner.Rounds.{critic_phase, conclude}
use codex_claude_author_crit.Runner.Contract.{GoodLocals, IsConsistent, IsRound, Keeps}
use codex_claude_author_crit.Runner.Contract.Steps.{
  Nothing, secrets_now-Holds, check_deadline-Holds, judge-Holds, stop-Holds,
  prove_opaque_validation_independence-Holds,
}

module _ ⦃m : ComponentMatch⦄ ⦃b : Base64⦄ ⦃d : Digest⦄ ⦃j : Codecs⦄ ⦃u : Unicode⦄ {S : Type 0}
    (a : Adapters S) (texts : Texts) (r : Run) (deadline : ℤ) {P : S → Type 0}
    (k : Keeps a r P) where
  keep_thread-Holds :
      (known : Option String) (thread : String)
      → Holds (GoodLocals r) P Nothing (keep_thread a texts r deadline known thread)
  unfolding keep_thread
  keep_thread-Holds none thread = Holds-get_locals then λ l good. Holds-set_locals _ good
  keep_thread-Holds (some known) thread = Holds-map _ (λ _ _. tt) (Holds-raise_when _ _)

  pub author_phase-Holds :
      (n : ℕ) → IsRound r n → Holds (GoodLocals r) P Nothing (author_phase a texts r deadline n)
  unfolding author_phase
  author_phase-Holds n is_round = check_deadline-Holds a texts r deadline k then λ _ _.
      Holds-get_locals then λ l _. Holds-call _ (k.integrity_guard l.current) then λ _ _.
      secrets_now-Holds a texts r deadline k then λ secrets covers.
      Holds-raise_when _ _ then λ _ clean.
      Holds-call _ (k.author _ (is_round, covers (utf8 l.prompt) clean)) then λ turn _.
      secrets_now-Holds a texts r deadline k then λ secrets' _.
      Holds-lift _ _ (λ _ _. tt) then λ hit _. Holds-call _ (k.journal _ tt) then λ _ _.
      Holds-raise_when _ _ then λ _ _. Holds-lift _ _ (λ _ _. tt) then λ _ _.
      Holds-raise_when _ _ then λ _ _. keep_thread-Holds l.thread_id turn.thread_id then λ _ _.
      check_deadline-Holds a texts r deadline k then λ _ _.
      Holds-lift _ _ (λ rec reconciled. (
        (turn.candidate, rec, reconciled, refl),
        λ p c.
            reconcile_candidate_published a.policy r.base turn.candidate default_limits rec p
              reconciled c,
      ))
      then λ rec may. Holds-get_locals then λ now good. Holds-set_locals _ good then λ _ _.
          Holds-call _ (k.publish_subject rec.authoritative_manifest may) then λ _ _.
          Holds-call _ (k.integrity_guard rec.authoritative_manifest) then λ _ _.
          Holds-call _ (k.journal _ tt) then λ _ _. Holds-pure rec tt

  opaque_phase-Holds :
      (n : ℕ) (baseline turn : ValidationTurn) (changes : List ManifestChange)
      → Holds (GoodLocals r) P Nothing (opaque_phase a texts r deadline n baseline turn changes)
  unfolding opaque_phase
  opaque_phase-Holds n baseline turn [] = Holds-pure tt tt
  opaque_phase-Holds n baseline turn (c ∷ cs) = Holds-get_locals then λ l _.
      Holds-lift _ _ (λ _ _. tt) then λ counterfactual _.
      prove_opaque_validation_independence-Holds a texts r deadline k turn counterfactual
        baseline.summary (some n) false
      then λ _ _. Holds-call _ (k.integrity_guard l.current)

  abbrev pub IsEligible : ValidationTurn × Judged → Type 0
  IsEligible v = v.1.evidence.approval_eligible ≡ true

  pub validation_phase-Holds :
      (n : ℕ) (baseline : ValidationTurn) (rec : ReconciliationResult)
      → Holds (GoodLocals r) P IsEligible (validation_phase a texts r deadline n baseline rec)
  unfolding validation_phase
  validation_phase-Holds n baseline rec = Holds-get_locals then λ l _.
      Holds-call _ (k.validate _) then λ turn _.
      judge-Holds a texts r deadline k (some n) Phase.validation l.current (some baseline.summary)
        (call (a.integrity_guard l.current)) turn (Holds-call _ (k.integrity_guard l.current))
      then λ judged _. Holds-call _ (k.journal _ tt) then λ _ _.
          Holds-lift _ _ (λ _ passed.
            ((ensure_validation_can_continue_iff turn.summary judged.evidence false).0 passed).1)
          then λ _ eligible. opaque_phase-Holds n baseline turn rec.opaque_changes then λ _ _.
              check_deadline-Holds a texts r deadline k then λ _ _.
              Holds-pure (turn, judged) eligible

  -- A test that goes first and hits decides.
  first_test :
      (hit : Bool) (o : Outcome Bool)
      → Holds
          (GoodLocals r)
          P
          (λ found. found ≡ false → hit ≡ false)
          (if hit then pure true else lift texts.detail o)
  first_test hit o =
      Holds-if hit _ _ (λ _. Holds-pure true (λ h. cc)) (λ h. Holds-lift _ _ (λ _ _ _. h))

  pub critic_phase-Holds :
      (n : ℕ) (rec : ReconciliationResult) (turn : ValidationTurn) (judged : Judged)
      → IsRound r n
      → judged.evidence.approval_eligible ≡ true
      → Holds (GoodLocals r) P Nothing (critic_phase a texts r deadline n rec turn judged)
  unfolding critic_phase
  critic_phase-Holds n rec turn judged is_round eligible = Holds-get_locals then λ l _.
      secrets_now-Holds a texts r deadline k then λ secrets _.
      Holds-lift _ _ (λ _ _. tt) then λ bundle _.
      secrets_now-Holds a texts r deadline k then λ current_secrets covers.
      first_test _ _ then λ hit no_hit. Holds-raise_when _ _ then λ _ clean.
      Holds-call _ (k.review _ (is_round, covers bundle.encoded (no_hit clean), eligible, refl))
      then λ answer _. secrets_now-Holds a texts r deadline k then λ secrets' _.
          Holds-lift _ _ (λ _ _. tt) then λ found _. Holds-call _ (k.journal _ tt) then λ _ _.
          Holds-raise_when _ _ then λ _ _. Holds-lift _ _ (λ _ _. tt) then λ _ _.
          Holds-call _ (k.integrity_guard l.current) then λ _ _.
          Holds-lift _ _ (λ _ _. tt) then λ review _. Holds-call _ (k.journal _ tt) then λ _ _.
          Holds-get_locals then λ now _. Holds-set_locals _ is_round.1 then λ _ _. Holds-pure _ tt

  -- The result of a round that stops the run.
  abbrev pub ConsistentIf : Option LoopResult → Type 0
  ConsistentIf none = Unit {0}
  ConsistentIf (some result) = IsConsistent r result

  pub conclude-Holds :
      (reason : Option StopReason) (review : CriticReview) (judged : Judged)
      → Holds (GoodLocals r) P ConsistentIf (conclude a texts r deadline reason review judged)
  unfolding conclude
  conclude-Holds (some reason) review judged = Holds-get_locals then λ l _.
      stop-Holds a texts r deadline k reason _ then λ result ok'. Holds-pure (some result) ok'
  conclude-Holds none review judged = Holds-lift _ _ (λ _ _. tt) then λ ledger _.
      Holds-get_locals then λ l good. Holds-set_locals _ good then λ _ _.
      Holds-lift _ _ (λ _ _. tt) then λ prompt _.
      Holds-get_locals then λ now good'. Holds-set_locals _ good' then λ _ _. Holds-pure none tt
