-- ===== src/Runner/Contract.antt =====
-- What `LoopRunner` owes to the adapters that it calls, and that its steps keep to it.
pub mod Steps
pub mod Rounds
pub mod Whole
use codex_claude_author_crit.Prelude.{
  ℕ, ◌≤◌, ◌≡◌, true, false, none, some, List, ok, arith, string_eq,
}
use codex_claude_author_crit.Prelude.Bytes.{Bytes}
use codex_claude_author_crit.Prelude.Int.{pos_part}
use codex_claude_author_crit.Prelude.Text.{utf8}
use codex_claude_author_crit.Errors.{exit_code_for}
use codex_claude_author_crit.Paths.Glob.{ComponentMatch}
use codex_claude_author_crit.Paths.Policy.{classify, protected}
use codex_claude_author_crit.Manifest.Diff.Touched.{entry_at}
use codex_claude_author_crit.Manifest.Limits.{default_limits}
use codex_claude_author_crit.Manifest.Subject.{SubjectManifest}
use codex_claude_author_crit.Manifest.Reconcile.{ReconciliationResult, reconcile_candidate}
use codex_claude_author_crit.Validation.Declassify.{
  Base64, KnownSecret, raw_log_contains_known_secret,
}
use codex_claude_author_crit.Runner.Inputs.{Run}
use codex_claude_author_crit.Runner.World.{
  Adapters, AuthorRequest, CriticRequest, ValidationRequest, Entry, LoopResult, Locals,
}

abbrev pub max_rounds_of : Run → ℕ
max_rounds_of r = pos_part r.settings.max_rounds

-- The numbers of the rounds.
abbrev pub IsRound : Run → ℕ → Type 0
IsRound r n = (1 ≤ n) × (n ≤ max_rounds_of r)

-- A result's exit code is the one of its reason, and it has no more rounds than the settings allow.
abbrev pub IsConsistent : Run → LoopResult → Type 0
IsConsistent r result =
    (result.exit_code ≡ exit_code_for result.stop_reason)
    × (result.rounds_completed ≤ max_rounds_of r)

abbrev pub GoodLocals : Run → Locals → Type 0
GoodLocals r l = l.rounds_completed ≤ max_rounds_of r

module _ ⦃m : ComponentMatch⦄ ⦃b : Base64⦄ {S : Type 0} (a : Adapters S) (r : Run) where
  -- The bytes contain none of the secrets that the runner is made with.
  abbrev pub IsClean : Bytes → Type 0
  IsClean bytes = raw_log_contains_known_secret bytes a.known_secrets ≡ false

  -- The author is asked in a round, with a clean prompt.
  abbrev pub MayAuthor : AuthorRequest → Type 0
  MayAuthor q = IsRound r q.round_number × IsClean (utf8 q.prompt)

  -- The critic is asked in a round, with a clean bundle, on complete evidence.
  abbrev pub MayReview : CriticRequest → Type 0
  MayReview q =
      IsRound r q.round_number
      × IsClean q.bundle.encoded
      × (q.approval.evidence_approval_eligible ≡ true)
      × (q.approval.semantic_deltas_visible ≡ true)

  -- What is published is what the reconciliation of some candidate with the base gives, and has the
  -- base's entry at every protected path.
  abbrev pub MayPublish : SubjectManifest → Type 0
  MayPublish subject =
      ((candidate : SubjectManifest) × (rec : ReconciliationResult) × (reconcile_candidate a.policy
            r.base candidate default_limits
          ≡ ok rec)
        × (subject ≡ rec.authoritative_manifest))
      × ((p : Bytes) → classify a.policy p ≡ ok protected → entry_at subject p ≡ entry_at r.base p)

  -- The task is journaled at the start only where it is clean, and the last entry is consistent.
  abbrev pub MayRecord : Entry → Type 0
  MayRecord (Entry.start task subject deadline settings) = IsClean (utf8 task)
  MayRecord (Entry.finish result) = IsConsistent r result
  MayRecord _ = Unit {0}

  -- `P` is kept by every call on the adapters that the conditions above allow.
  pub record Keeps (P : S → Type 0) : Type 0 where
    pub clock : (s : S) → P s → P (a.clock s).1
    pub author : (q : AuthorRequest) → MayAuthor q → (s : S) → P s → P (a.author q s).1
    pub validate : (q : ValidationRequest) (s : S) → P s → P (a.validate q s).1
    pub review : (q : CriticRequest) → MayReview q → (s : S) → P s → P (a.review q s).1
    pub journal : (e : Entry) → MayRecord e → (s : S) → P s → P (a.journal e s).1
    pub integrity_guard :
        (subject : SubjectManifest) (s : S) → P s → P (a.integrity_guard subject s).1
    pub publish_subject :
        (subject : SubjectManifest)
        → MayPublish subject
        → (s : S) → P s
        → P (a.publish_subject subject s).1
    pub known_secret_provider : (s : S) → P s → P (a.known_secret_provider s).1
    pub pending_metadata :
        (secrets : List KnownSecret) (s : S) → P s → P (a.pending_metadata secrets s).1
