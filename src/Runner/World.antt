-- ===== src/Runner/World.antt =====
-- What `LoopRunner.run` of runner.py works on: its requests and answers, its journal's entries, its local
-- variables, and the adapters, which act on a state of their own. An action changes the variables and
-- that state, also where it raises.
pub mod Holds
use codex_claude_author_crit.Prelude.{
  ℕ, String, Bool, Option, List, Except, ok, fail, throw, if◌then◌else◌,
}
use codex_claude_author_crit.Prelude.Bytes.{Bytes}
use codex_claude_author_crit.Prelude.Int.{ℤ}
use codex_claude_author_crit.Errors.{Outcome, StopReason, ExitCode}
use codex_claude_author_crit.StateMachine.{FatalLatch}
use codex_claude_author_crit.Paths.Policy.{PathPolicy}
use codex_claude_author_crit.Manifest.Change.{ManifestChange}
use codex_claude_author_crit.Manifest.Subject.{SubjectManifest}
use codex_claude_author_crit.Manifest.Blobs.{BlobReader}
use codex_claude_author_crit.Validation.Execution.{ValidationSummary}
use codex_claude_author_crit.Validation.Classify.{ClassifiedCheck}
use codex_claude_author_crit.Validation.Declassify.{KnownSecret, ValidationCriticEvidence}
use codex_claude_author_crit.Critic.Json.{Json}
use codex_claude_author_crit.Critic.Review.{CriticReview, ApprovalContext}
use codex_claude_author_crit.Prompts.{FindingLedgerItem, ReviewBundle}
use codex_claude_author_crit.Runner.{LoopSettings, ValidationTurn}

pub record AuthorRequest : Type 0 where
  pub round_number : ℕ
  pub subject : SubjectManifest
  pub prompt : String
  pub thread_id : Option String
  pub deadline : ℤ

pub record AuthorTurn : Type 0 where
  pub candidate : SubjectManifest
  pub thread_id : String
  pub final_message : String
  pub events : List Json
  pub usage : Option Json
  pub observed_model : Option String
  pub observed_effort : Option String

pub record ValidationRequest : Type 0 where
  pub subject : SubjectManifest
  pub baseline : Option ValidationSummary
  pub deadline : ℤ

pub record CriticRequest : Type 0 where
  pub round_number : ℕ
  pub bundle : ReviewBundle
  pub approval : ApprovalContext
  pub deadline : ℤ

pub record CriticTurn : Type 0 where
  pub review : CriticReview
  pub completed_at : ℤ
  pub envelope : Json
  pub total_cost_usd : Option ℤ
  pub observed_model : Option String
  pub observed_effort : Option String

pub record LoopResult : Type 0 where
  pub exit_code : ExitCode
  pub stop_reason : StopReason
  pub rounds_completed : ℕ
  pub subject : SubjectManifest
  pub thread_id : Option String
  pub detail : String

pub data Phase : Type 0 where
  baseline validation opaque : Phase

-- The calls on the journal, with their arguments.
pub data Entry : Type 0 where
  precredential_start : SubjectManifest → ℤ → LoopSettings → Entry
  start : String → SubjectManifest → ℤ → LoopSettings → Entry
  task_input : String → Bool → Entry
  subject_input : SubjectManifest → Bool → Entry
  validation_attempt :
      Option ℕ
      → Phase
      → SubjectManifest
      → ValidationTurn
      → Bytes
      → Bool
      → Bool
      → Bool
      → Bool
      → Entry
  baseline_turn : ValidationTurn → ValidationCriticEvidence → Entry
  opaque_proof : Option ℕ → SubjectManifest → ValidationTurn → Bool → Entry
  author_attempt : ℕ → AuthorTurn → ℕ → Bool → Entry
  author_turn :
      ℕ
      → AuthorTurn
      → SubjectManifest
      → List ManifestChange
      → List ManifestChange
      → List ManifestChange
      → SubjectManifest
      → Entry
  validation_turn : ℕ → ValidationTurn → ValidationCriticEvidence → List ClassifiedCheck → Entry
  critic_attempt : ℕ → CriticTurn → ℕ → Bool → Entry
  critic_turn : ℕ → CriticTurn → ReviewBundle → Entry
  finish : LoopResult → Entry

-- What an adapter may raise besides a built-in exception: an `AgentLoopError` with its detail, a
-- `KeyboardInterrupt`, or any other exception, by its type's name.
pub data Raised : Type 0 where
  agent : StopReason → String → Raised
  interrupt : Raised
  foreign : String → Raised

abbrev pub Answer {ℓ} : Type ℓ → Type ℓ
Answer A = Except Raised A

-- The arguments of `LoopRunner`. Every call may change the adapters' state and may raise.
pub record Adapters (S : Type 0) : Type 0 where
  pub clock : S → ℤ × S
  pub author : AuthorRequest → S → Answer AuthorTurn × S
  pub validate : ValidationRequest → S → Answer ValidationTurn × S
  pub review : CriticRequest → S → Answer CriticTurn × S
  pub journal : Entry → S → Answer (Unit {0}) × S
  pub integrity_guard : SubjectManifest → S → Answer (Unit {0}) × S
  pub publish_subject : SubjectManifest → S → Answer (Unit {0}) × S
  pub known_secret_provider : S → Answer (List KnownSecret) × S
  -- `pending_metadata_contains_known_secret`, of an `ArtifactRunJournal`.
  pub pending_metadata : List KnownSecret → S → Answer Bool × S
  pub is_artifact_journal : Bool
  pub blobs : BlobReader
  pub policy : PathPolicy
  pub known_secrets : List KnownSecret

-- The variables of `run` that its handlers or a later round read.
pub record Locals : Type 0 where
  pub current : SubjectManifest
  pub thread_id : Option String
  pub rounds_completed : ℕ
  pub fatal : FatalLatch
  pub previous_fingerprint : Option String
  pub ledger : List FindingLedgerItem
  pub prompt : String

pub record World (S : Type 0) : Type 0 where
  pub locals : Locals
  pub outside : S

abbrev pub Action : Type 0 → Type 0 → Type 0
Action S A = World S → Answer A × World S

-- A part that is modelled without the texts of its messages: the text of the failure, of which a run
-- has one at most, is given as a function of the reason.
unfoldable pub raised_with : {A : Type 0} → (StopReason → String) → Outcome A → Answer A
raised_with text (ok a) = ok a
raised_with text (fail r) = fail (agent r (text r))
raised_with text (throw e) = throw e

module _ {S : Type 0} where
  unfoldable pub pure : {A : Type 0} → A → Action S A
  pure a w = (ok a, w)

  unfoldable pub raise : {A : Type 0} → Raised → Action S A
  raise r w = (fail r, w)

  unfoldable pub continue_with :
      {A B : Type 0} → Answer A → World S → (A → Action S B) → Answer B × World S
  continue_with (ok a) w f = f a w
  continue_with (fail r) w f = (fail r, w)
  continue_with (throw e) w f = (throw e, w)

  infixl 5 ◌>>=◌ ◌>>◌
  unfoldable pub ◌>>=◌ : {A B : Type 0} → Action S A → (A → Action S B) → Action S B
  unfolding continue_with
  ◌>>=◌ m f w = let (a, w') = m w in continue_with a w' f

  abbrev pub ◌>>◌ : {B : Type 0} → Action S (Unit {0}) → Action S B → Action S B
  m >> k = m >>= λ _. k

  -- A call on an adapter.
  unfoldable pub call : {A : Type 0} → (S → Answer A × S) → Action S A
  call f w = let (a, s) = f w.outside in (a, record w { outside = s })

  unfoldable pub get_locals : Action S Locals
  get_locals w = (ok w.locals, w)

  unfoldable pub set_locals : Locals → Action S (Unit {0})
  set_locals l w = (ok tt, record w { locals = l })

  unfoldable pub lift : {A : Type 0} → (StopReason → String) → Outcome A → Action S A
  unfolding raised_with
  lift text o w = (raised_with text o, w)

  unfoldable pub raise_when : Bool → Raised → Action S (Unit {0})
  unfolding raise pure
  raise_when b r = if b then raise r else pure tt
