-- ===== src/Runner/Inputs.antt =====
-- The inputs of `LoopRunner.run` of runner.py, and the values that it makes of a review. The texts of most
-- failures are a parameter.
use codex_claude_author_crit.Prelude.{
  String, Bool, Option, none, some, List, [], ◌∷◌, ◌==◌, ◌&&◌, list_eq, nat_eq, string_eq, ok,
  ◌>>=◌, ◌>>◌, raise_if, value_error, if◌then◌else◌,
}
use codex_claude_author_crit.Prelude.Int.{ℤ, pos, ltb_ℤ}
use codex_claude_author_crit.Errors.{Outcome, StopReason, reason_value}
use codex_claude_author_crit.StateMachine.{FatalLatch}
use codex_claude_author_crit.Manifest.Entry.{entry_eq}
use codex_claude_author_crit.Manifest.Subject.{SubjectManifest}
use codex_claude_author_crit.Critic.Review.{CriticReview, Finding}
use codex_claude_author_crit.Prompts.{
  FindingLedgerItem, finding_ledger_item, build_initial_author_prompt,
}
use codex_claude_author_crit.Runner.{LoopSettings, ValidationTurn}
use codex_claude_author_crit.Runner.Secrets.{Codecs}

-- The text of a failure, for its reason.
pub record Texts : Type 0 where
  pub detail : StopReason → String

-- The arguments of `run`.
pub record Run : Type 0 where
  pub task : String
  pub base : SubjectManifest
  pub settings : LoopSettings
  pub prepared_baseline : Option ValidationTurn
  pub monotonic_deadline : Option ℤ
  pub journal_prestarted : Bool

unfoldable pub same_manifest : SubjectManifest → SubjectManifest → Bool
same_manifest x y = x.schema_version == y.schema_version && x.entries == y.entries

or_text : Option String → String → String
or_text none other = other
or_text (some s) other = if s == "" then other else s

first_detail : FatalLatch → Option String
first_detail l = elim l.first [ none ↦ none | some f ↦ some f.detail ]

-- The table of details of `run`.
unfoldable pub stop_detail : StopReason → CriticReview → FatalLatch → String
unfolding or_text first_detail reason_value
stop_detail StopReason.converged review l = "all validations passed and critic returned LGTM"
stop_detail StopReason.critic_blocked review l = or_text review.blocked_reason "critic blocked"
stop_detail StopReason.round_cap_reached review l = "maximum author rounds reached"
stop_detail StopReason.stalled review l = "two adjacent normalized non-success states matched"
stop_detail reason review l = or_text (first_detail l) (reason_value reason)

-- The ledger after a round.
unfoldable pub open_items : List Finding → Outcome (List FindingLedgerItem)
unfolding finding_ledger_item
open_items [] = ok []
open_items (f ∷ fs) = do
  i ←
      finding_ledger_item
        (record { finding_id = f.finding_id; required_fix = f.required_fix; status = "open" })
  rest ← open_items fs
  ok (i ∷ rest)

-- What `run` does before its block of `try`: the test of the deadline, and the first prompt.
unfoldable pub prepare : ⦃j : Codecs⦄ → Run → ℤ → Outcome String
unfolding build_initial_author_prompt
prepare r deadline = do
  raise_if (ltb_ℤ deadline (pos 0)) value_error
  build_initial_author_prompt r.task
