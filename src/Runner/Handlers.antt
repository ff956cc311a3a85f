-- ===== src/Runner/Handlers.antt =====
-- The handlers of `LoopRunner.run` of runner.py, and the run from its start.
pub mod Errors
pub mod Returns
use Prim.Native.String.{◌++◌ as ◌+++◌}
use codex_claude_author_crit.Prelude.{
  String, Bool, true, Option, none, some, List, [], ◌++◌, ok, fail, throw, Builtin, assertion_error,
  if◌then◌else◌,
}
use codex_claude_author_crit.Prelude.Int.{ℤ, ◌+ℤ◌}
use codex_claude_author_crit.Prelude.Text.{utf8}
use codex_claude_author_crit.Errors.{Outcome, StopReason}
use codex_claude_author_crit.StateMachine.{new_latch}
use codex_claude_author_crit.Paths.Glob.{ComponentMatch}
use codex_claude_author_crit.Manifest.Entry.{Digest}
use codex_claude_author_crit.Validation.Declassify.{
  Base64, KnownSecret, raw_log_contains_known_secret,
}
use codex_claude_author_crit.Critic.Json.{Unicode}
use codex_claude_author_crit.Runner.Inputs.{Texts, Run, prepare}
use codex_claude_author_crit.Runner.Secrets.{Codecs}
use codex_claude_author_crit.Runner.World.{
  Adapters, Action, Answer, Entry, LoopResult, Locals, World, agent, interrupt, foreign, pure,
  ◌>>=◌, ◌>>◌,
}
use codex_claude_author_crit.Runner.Validations.{withheld}
use codex_claude_author_crit.Runner.Loop.{stop, secrets_now}
use codex_claude_author_crit.Runner.Rounds.{body_then}

builtin_name : Builtin → String
builtin_name Builtin.value_error = "ValueError"
builtin_name Builtin.type_error = "TypeError"
builtin_name Builtin.runtime_error = "RuntimeError"
builtin_name Builtin.key_error = "KeyError"
builtin_name Builtin.assertion_error = "AssertionError"

module _ ⦃m : ComponentMatch⦄ ⦃b : Base64⦄ ⦃d : Digest⦄ ⦃j : Codecs⦄ ⦃u : Unicode⦄ {S : Type 0}
    (a : Adapters S) (texts : Texts) (r : Run) (deadline : ℤ) where
  unfoldable pub exhausted : Action S LoopResult
  exhausted w = (throw assertion_error, w)

  unfoldable pub recover : String → Answer (List KnownSecret) → Action S Bool
  unfolding raw_log_contains_known_secret utf8
  recover detail (ok secrets) w = (ok (raw_log_contains_known_secret (utf8 detail) secrets), w)
  recover detail (fail (agent reason text)) w = (ok true, w)
  recover detail (fail other) w = (fail other, w)
  recover detail (throw e) w = (throw e, w)

  -- `raw_log_contains_known_secret(exc.detail...)`, where an `AgentLoopError` counts as a secret found.
  unfoldable pub detail_withheld : String → Action S Bool
  unfolding secrets_now recover
  detail_withheld detail w = let (x, w') = secrets_now a texts r deadline w in recover detail x w'

  -- The handlers of `run`, on what its block ended with.
  unfoldable pub handle : Answer LoopResult → Action S LoopResult
  unfolding stop detail_withheld builtin_name
  handle (ok result) = pure result
  handle (fail interrupt) =
      stop a texts r deadline StopReason.user_interrupt "operator interrupted the active run"
  handle (fail (agent reason detail)) = do
    hit ← detail_withheld detail
    if hit
        then stop a texts r deadline StopReason.credential_refresh_failure
            "typed failure detail was withheld because it contained credential bytes"
        else stop a texts r deadline reason detail
  handle (fail (foreign name)) =
      stop a texts r deadline StopReason.runner_internal_error
        ("unexpected internal exception: " +++ name)
  handle (throw e) =
      stop a texts r deadline StopReason.runner_internal_error
        ("unexpected internal exception: " +++ builtin_name e)

  unfoldable pub try_then : Action S LoopResult → Action S LoopResult
  unfolding body_then handle
  try_then after w = let (answer, w') = body_then a texts r deadline after w in handle answer w'

unfoldable pub deadline_of : Option ℤ → ℤ → ℤ → ℤ
deadline_of none started seconds = started +ℤ seconds
deadline_of (some given) started seconds = given

abbrev pub first_locals : Run → String → Locals
first_locals r prompt = record {
  current = r.base;
  thread_id = none;
  rounds_completed = 0;
  fatal = new_latch;
  previous_fingerprint = none;
  ledger = [];
  prompt = prompt;
}

module _ ⦃m : ComponentMatch⦄ ⦃b : Base64⦄ ⦃d : Digest⦄ ⦃j : Codecs⦄ ⦃u : Unicode⦄ {S : Type 0}
    (a : Adapters S) (texts : Texts) (r : Run) where
  unfoldable pub begin : ℤ → Outcome String → S → Answer LoopResult × S
  unfolding try_then exhausted
  begin deadline (ok prompt) s =
      let start : World S = record { locals = first_locals r prompt; outside = s } in
      let (answer, w) = try_then a texts r deadline (exhausted a texts r deadline) start in
      (answer, w.outside)
  begin deadline (fail reason) s = (fail (agent reason (texts.detail reason)), s)
  begin deadline (throw e) s = (throw e, s)

  -- `LoopRunner.run`
  unfoldable pub run : S → Answer LoopResult × S
  unfolding begin deadline_of prepare
  run s =
      let (started, s') = a.clock s in
      let deadline = deadline_of r.monotonic_deadline started r.settings.max_runtime_seconds in
      begin deadline (prepare r deadline) s'
