-- ===== src/Runner/Contract/Steps.antt =====
-- The steps of runner.py outside the rounds keep to the contract with the adapters.
use codex_claude_author_crit.Prelude.{
  ℕ, ◌≡◌, refl, String, Bool, true, false, ◌||◌, Option, none, some, List, arith, if◌then◌else◌,
  not, ◌&&◌,
}
use codex_claude_author_crit.Prelude.Bytes.{Bytes}
use codex_claude_author_crit.Prelude.Int.{ℤ}
use codex_claude_author_crit.Prelude.Text.{utf8}
use codex_claude_author_crit.Errors.{Outcome, StopReason}
use codex_claude_author_crit.Paths.Glob.{ComponentMatch}
use codex_claude_author_crit.Manifest.Entry.{Digest}
use codex_claude_author_crit.Manifest.Subject.{SubjectManifest}
use codex_claude_author_crit.Critic.Json.{Unicode}
use codex_claude_author_crit.Validation.Execution.{ValidationSummary}
use codex_claude_author_crit.Validation.Declassify.{
  Base64, KnownSecret, raw_log_contains_known_secret,
}
use codex_claude_author_crit.Runner.{ValidationTurn}
use codex_claude_author_crit.Runner.Inputs.{Texts, Run}
use codex_claude_author_crit.Runner.Secrets.{Codecs}
use codex_claude_author_crit.Runner.Turns.Keys.{raw_log_contains_known_secret-from_keys}
use codex_claude_author_crit.Runner.World.{Adapters, Action, Entry, Phase, pure, lift, call}
use codex_claude_author_crit.Runner.World.Holds.{
  Holds, Holds-pure, Holds-lift, Holds-if, Holds-map, Holds-call, Holds-get_locals,
  Holds-raise_when, ◌then◌,
}
use codex_claude_author_crit.Runner.Validations.{
  current_known_secrets, ensure_deadline_now, journal_validation_attempt, judge,
  prove_opaque_validation_independence,
}
use codex_claude_author_crit.Runner.Loop.{
  stop, check_deadline, secrets_now, screen_inputs, baseline_phase, first_baseline,
}
use codex_claude_author_crit.Runner.Contract.{GoodLocals, IsConsistent, MayRecord, Keeps}

abbrev pub Nothing : {A : Type 0} → A → Type 0
Nothing x = Unit {0}

module _ ⦃m : ComponentMatch⦄ ⦃b : Base64⦄ ⦃d : Digest⦄ ⦃j : Codecs⦄ ⦃u : Unicode⦄ {S : Type 0}
    (a : Adapters S) (texts : Texts) (r : Run) (deadline : ℤ) {P : S → Type 0}
    (k : Keeps a r P) where
  -- Every secret that the runner is made with is among those that it searches for.
  abbrev pub Covers : List KnownSecret → Type 0
  Covers secrets =
      (bytes : Bytes)
      → raw_log_contains_known_secret bytes secrets ≡ false
      → raw_log_contains_known_secret bytes a.known_secrets ≡ false

  pub secrets_now-Holds : Holds (GoodLocals r) P Covers (secrets_now a texts r deadline)
  unfolding secrets_now current_known_secrets
  secrets_now-Holds = Holds-call a.known_secret_provider k.known_secret_provider then λ supplied _.
      Holds-pure _ λ bytes. raw_log_contains_known_secret-from_keys bytes a.known_secrets supplied

  pub check_deadline-Holds : Holds (GoodLocals r) P Nothing (check_deadline a texts r deadline)
  unfolding check_deadline ensure_deadline_now
  check_deadline-Holds = Holds-call _ k.clock then λ now _. Holds-lift _ _ λ _ _. tt

  -- A test for credentials that goes first skips the other one.
  or_test :
      (c : Bool) (o : Outcome Bool)
      → Holds (GoodLocals r) P Nothing (if c then pure true else lift texts.detail o)
  or_test c o =
      Holds-if c (pure true) (lift texts.detail o) (λ _. Holds-pure true tt)
        (λ _. Holds-lift texts.detail o (λ _ _. tt))

  pub journal_validation_attempt-Holds :
      (n : Option ℕ) (phase : Phase) (subject : SubjectManifest) (turn : ValidationTurn)
      → Holds
          (GoodLocals r)
          P
          Nothing
          (journal_validation_attempt a texts.detail r.settings deadline n phase subject turn)
  unfolding journal_validation_attempt secrets_now
  journal_validation_attempt-Holds n phase subject turn = secrets_now-Holds then λ secrets _.
      Holds-lift _ _ (λ _ _. tt) then λ input _. or_test input _ then λ result _.
      Holds-lift _ _ (λ _ _. tt) then λ summary _.
      Holds-call _ (k.journal _ tt) then λ _ _. Holds-raise_when _ _ then λ _ _. Holds-pure _ tt

  pub judge-Holds :
      (n : Option ℕ) (phase : Phase) (subject : SubjectManifest)
      (baseline : Option ValidationSummary) (guard : Action S (Unit {0})) (turn : ValidationTurn)
      → Holds (GoodLocals r) P Nothing guard
      → Holds
          (GoodLocals r)
          P
          Nothing
          (judge a texts.detail r.settings deadline n phase subject baseline guard turn)
  unfolding judge secrets_now
  judge-Holds n phase subject baseline guard turn kept =
      journal_validation_attempt-Holds n phase subject turn then λ _ _.
      Holds-lift _ _ (λ _ _. tt) then λ _ _. kept then λ _ _.
      Holds-lift _ _ (λ _ _. tt) then λ name _. Holds-lift _ _ (λ _ _. tt) then λ _ _.
      Holds-lift _ _ (λ _ _. tt) then λ classified _.
      secrets_now-Holds then λ secrets _. Holds-pure _ tt

  pub prove_opaque_validation_independence-Holds :
      (turn : ValidationTurn) (subject : SubjectManifest) (baseline : ValidationSummary)
      (n : Option ℕ) (is_baseline : Bool)
      → Holds (GoodLocals r) P Nothing (
          prove_opaque_validation_independence a texts.detail r.settings deadline turn subject
            baseline n is_baseline)
  unfolding prove_opaque_validation_independence check_deadline
  prove_opaque_validation_independence-Holds turn subject baseline n is_baseline =
      check_deadline-Holds then λ _ _. Holds-call _ (k.validate _) then λ answer _.
      judge-Holds n Phase.opaque subject (some baseline) (pure tt) answer (Holds-pure tt tt)
      then λ judged _. Holds-call _ (k.journal _ tt) then λ _ _.
          Holds-lift _ _ (λ _ _. tt) then λ _ _.
          Holds-lift _ _ (λ _ _. tt) then λ _ _. check_deadline-Holds

  pub stop-Holds :
      (reason : StopReason) (detail : String)
      → Holds (GoodLocals r) P (IsConsistent r) (stop a texts r deadline reason detail)
  unfolding stop
  stop-Holds reason detail = Holds-get_locals then λ l good.
      Holds-call _ (k.journal _ (refl, good)) then λ _ _. Holds-pure _ (refl, good)

  -- An optional entry of the journal.
  entry_when :
      (c : Bool) (e : Entry)
      → (c ≡ true → MayRecord a r e)
      → Holds (GoodLocals r) P Nothing (if c then call (a.journal e) else pure tt)
  entry_when c e may =
      Holds-if c (call (a.journal e)) (pure tt) (λ h. Holds-call _ (k.journal e (may h)))
        (λ _. Holds-pure tt tt)

  not_any : (p q x y z : Bool) → (p && not (q || x || y || z)) ≡ true → q ≡ false
  not_any p q x y z h = ground arith

  pub screen_inputs-Holds : Holds (GoodLocals r) P Nothing (screen_inputs a texts r deadline)
  unfolding screen_inputs
  screen_inputs-Holds = secrets_now-Holds then λ secrets covers.
      Holds-lift _ _ (λ _ _. tt) then λ base _. Holds-lift _ _ (λ _ _. tt) then λ settings _.
      Holds-if a.is_artifact_journal _ _ (λ _. Holds-call _ (k.pending_metadata secrets))
        (λ _. Holds-pure false tt)
      then λ metadata _. entry_when _ _ (λ _. tt) then λ _ _.
          entry_when _ _ (λ h. covers (utf8 r.task) (not_any _ _ _ _ _ h)) then λ _ _.
          Holds-call _ (k.journal _ tt) then λ _ _.
          Holds-call _ (k.journal _ tt) then λ _ _. Holds-map _ (λ _ _. tt) (Holds-raise_when _ _)

  first_baseline-Holds :
      (prepared : Option ValidationTurn)
      → Holds (GoodLocals r) P Nothing (first_baseline a texts r deadline prepared)
  unfolding first_baseline
  first_baseline-Holds none = Holds-call _ (k.validate _)
  first_baseline-Holds (some turn) = Holds-pure turn tt

  pub baseline_phase-Holds : Holds (GoodLocals r) P Nothing (baseline_phase a texts r deadline)
  unfolding baseline_phase
  baseline_phase-Holds = check_deadline-Holds then λ _ _.
      first_baseline-Holds r.prepared_baseline then λ turn _.
      judge-Holds none Phase.baseline r.base none (pure tt) turn (Holds-pure tt tt) then λ judged _.
      Holds-call _ (k.journal _ tt) then λ _ _. Holds-lift _ _ (λ _ _. tt) then λ _ _.
      Holds-lift _ _ (λ _ _. tt) then λ opaque_free _.
      Holds-if _ _ _ (λ _. Holds-pure tt tt)
        (λ _. prove_opaque_validation_independence-Holds turn opaque_free turn.summary none true)
      then λ _ _. Holds-pure turn tt
