-- ===== src/Runner/Handlers/Errors.antt =====
-- How the handlers of `LoopRunner.run` report an `AgentLoopError`.
use codex_claude_author_crit.Prelude.{
  ◌≡◌, refl, subst, ◌⊎◌, inl, inr, String, false, List, ok, fail, throw, if◌then◌else◌,
}
use codex_claude_author_crit.Prelude.Bytes.{Bytes}
use codex_claude_author_crit.Prelude.Int.{ℤ}
use codex_claude_author_crit.Prelude.Text.{utf8}
use codex_claude_author_crit.Errors.{StopReason, exit_code_for}
use codex_claude_author_crit.Paths.Glob.{ComponentMatch}
use codex_claude_author_crit.Manifest.Entry.{Digest}
use codex_claude_author_crit.Critic.Json.{Unicode}
use codex_claude_author_crit.Validation.Declassify.{
  Base64, KnownSecret, raw_log_contains_known_secret,
}
use codex_claude_author_crit.Runner.Inputs.{Texts, Run}
use codex_claude_author_crit.Runner.Secrets.{Codecs}
use codex_claude_author_crit.Runner.Turns.Keys.{raw_log_contains_known_secret-from_keys}
use codex_claude_author_crit.Runner.World.{
  Adapters, Action, Answer, LoopResult, World, agent, interrupt, foreign,
}
use codex_claude_author_crit.Runner.World.Holds.{
  Holds, OnOk, Holds-pure, Holds-if, Holds-map, Holds-any, ◌then◌,
}
use codex_claude_author_crit.Runner.Validations.{current_known_secrets}
use codex_claude_author_crit.Runner.Loop.{stop, secrets_now}
use codex_claude_author_crit.Runner.Handlers.{recover, detail_withheld, handle}

module _ ⦃m : ComponentMatch⦄ ⦃b : Base64⦄ ⦃d : Digest⦄ ⦃j : Codecs⦄ ⦃u : Unicode⦄ {S : Type 0}
    (a : Adapters S) (texts : Texts) (r : Run) (deadline : ℤ) where
  abbrev Yields : {A : Type 0} → (A → Type 0) → Action S A → Type 0
  Yields Q m = Holds (λ _. Unit {0}) (λ _. Unit {0}) Q m

  -- The bytes contain none of the secrets that the runner is made with.
  abbrev IsClean : Bytes → Type 0
  IsClean bytes = raw_log_contains_known_secret bytes a.known_secrets ≡ false

  secrets_cover :
      Yields
        (λ secrets.
          (bytes : Bytes) → raw_log_contains_known_secret bytes secrets ≡ false → IsClean bytes)
        (secrets_now a texts r deadline)
  unfolding secrets_now current_known_secrets
  secrets_cover = Holds-any _ then λ supplied _.
      Holds-pure _ λ bytes. raw_log_contains_known_secret-from_keys bytes a.known_secrets supplied

  recover-IsClean :
      (detail : String) (x : Answer (List KnownSecret)) (w : World S)
      → OnOk
          (λ secrets.
            (bytes : Bytes) → raw_log_contains_known_secret bytes secrets ≡ false → IsClean bytes)
          x
      → OnOk (λ hit. hit ≡ false → IsClean (utf8 detail)) (recover a texts r deadline detail x w).0
  unfolding recover
  recover-IsClean detail (ok secrets) w covers = covers (utf8 detail)
  recover-IsClean detail (fail (agent reason text)) w covers = λ h. cc
  recover-IsClean detail (fail interrupt) w covers = tt
  recover-IsClean detail (fail (foreign name)) w covers = tt
  recover-IsClean detail (throw e) w covers = tt

  detail-IsClean :
      (detail : String)
      → Yields
          (λ hit. hit ≡ false → IsClean (utf8 detail))
          (detail_withheld a texts r deadline detail)
  unfolding detail_withheld
  detail-IsClean detail = record {
    at = λ w h.
        let (x, w') = secrets_now a texts r deadline w in
        ((tt, tt), recover-IsClean detail x w' (secrets_cover.at w (tt, tt)).1);
  }

  abbrev Reports : StopReason → String → LoopResult → Type 0
  Reports reason detail result =
      (result.stop_reason ≡ reason)
      × (result.exit_code ≡ exit_code_for reason)
      × (result.detail ≡ detail)

  stop-Reports :
      (reason : StopReason) (detail : String)
      → Yields (Reports reason detail) (stop a texts r deadline reason detail)
  unfolding stop
  stop-Reports reason detail =
      Holds-any _ then λ l _. Holds-any _ then λ _ _. Holds-pure _ (refl, refl, refl)

  abbrev pub withheld_detail : String
  withheld_detail = "typed failure detail was withheld because it contained credential bytes"

  -- The error's own reason and detail, which is clean, or the report that it was withheld.
  abbrev pub IsReported : StopReason → String → LoopResult → Type 0
  IsReported reason detail result =
      (Reports reason detail result × IsClean (utf8 detail))
      ⊎ Reports StopReason.credential_refresh_failure withheld_detail result

  handle-IsReported :
      (reason : StopReason) (detail : String)
      → Yields (IsReported reason detail) (handle a texts r deadline (fail (agent reason detail)))
  unfolding handle
  handle-IsReported reason detail = detail-IsClean detail then λ hit clean.
      Holds-if hit _ _ (λ _. Holds-map _ (λ result q. inr q) (stop-Reports _ _))
        (λ h. Holds-map _ (λ result q. inl (q, clean h)) (stop-Reports _ _))

  -- Where the handlers of a run turn an `AgentLoopError` into a result, the result has the reason and the
  -- detail of the error, with the reason's exit code, and then the detail contains none of the runner's
  -- secrets; or it has the reason `credential_refresh_failure`, its exit code and a fixed detail.
  pub handle_reports :
      (reason : StopReason) (detail : String) (w : World S) {result : LoopResult}
      → (handle a texts r deadline (fail (agent reason detail)) w).0 ≡ ok result
      → IsReported reason detail result
  handle_reports reason detail w h =
      subst (OnOk (IsReported reason detail)) h ((handle-IsReported reason detail).at w (tt, tt)).1
