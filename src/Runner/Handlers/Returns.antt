-- ===== src/Runner/Handlers/Returns.antt =====
-- A run returns a result for whatever its adapters raise, once its deadline and its task are accepted.
use codex_claude_author_crit.Prelude.{
  ◌≡◌, refl, String, Bool, true, false, List, ok, fail, throw, if◌then◌else◌, subst, sym,
}
use codex_claude_author_crit.Prelude.Int.{ℤ}
use codex_claude_author_crit.Errors.{StopReason}
use codex_claude_author_crit.Paths.Glob.{ComponentMatch}
use codex_claude_author_crit.Manifest.Entry.{Digest}
use codex_claude_author_crit.Critic.Json.{Unicode}
use codex_claude_author_crit.Validation.Declassify.{Base64, KnownSecret}
use codex_claude_author_crit.Runner.Inputs.{Texts, Run, prepare}
use codex_claude_author_crit.Runner.Secrets.{Codecs}
use codex_claude_author_crit.Runner.World.{
  Adapters, Answer, Entry, LoopResult, World, agent, interrupt, foreign, Action, ◌>>=◌, pure,
  continue_with, call, get_locals,
}
use codex_claude_author_crit.Runner.Validations.{current_known_secrets}
use codex_claude_author_crit.Runner.Loop.{stop, secrets_now}
use codex_claude_author_crit.Runner.Handlers.{
  recover, detail_withheld, handle, try_then, begin, run, deadline_of,
}

abbrev pub Given : {A : Type 0} → Answer A → Type 0
Given (ok x) = Unit {0}
Given (fail e) = ⊥
Given (throw e) = ⊥

-- A value, or an `AgentLoopError`.
abbrev pub IsTame : {A : Type 0} → Answer A → Type 0
IsTame (ok x) = Unit {0}
IsTame (fail (agent reason detail)) = Unit {0}
IsTame (fail interrupt) = ⊥
IsTame (fail (foreign name)) = ⊥
IsTame (throw e) = ⊥

Given-value : {A : Type 0} (x : Answer A) → Given x → (y : A) × (x ≡ ok y)
Given-value (ok y) g = (y, refl)
Given-value (fail e) g = absurd g
Given-value (throw e) g = absurd g

module _ ⦃m : ComponentMatch⦄ ⦃b : Base64⦄ ⦃d : Digest⦄ ⦃j : Codecs⦄ ⦃u : Unicode⦄ {S : Type 0}
    (a : Adapters S) (texts : Texts) (r : Run)
    (finishes : (result : LoopResult) (s : S) → Given (a.journal (Entry.finish result) s).0)
    (tame : (s : S) → IsTame (a.known_secret_provider s).0) where
  module _ (deadline : ℤ) where
    Given-continue :
        {A B : Type 0} (x : Answer A) (w : World S) (f : A → Action S B)
        → Given x
        → ((y : A) (w' : World S) → Given (f y w').0)
        → Given (continue_with x w f).0
    unfolding continue_with
    Given-continue (ok y) w f g k = k y w
    Given-continue (fail e) w f g k = absurd g
    Given-continue (throw e) w f g k = absurd g

    stop-Given :
        (reason : StopReason) (detail : String) (w : World S)
        → Given (stop a texts r deadline reason detail w).0
    unfolding stop ◌>>=◌ get_locals call continue_with pure
    stop-Given reason detail w =
        Given-continue (a.journal (Entry.finish _) w.outside).0 _ _ (finishes _ w.outside)
          (λ _ _. tt)

    continue-IsTame :
        {A B : Type 0} (x : Answer A) (w : World S) (f : A → B)
        → IsTame x
        → IsTame (continue_with x w (λ y. pure (f y))).0
    unfolding continue_with pure
    continue-IsTame (ok y) w f t = tt
    continue-IsTame (fail (agent reason detail)) w f t = tt
    continue-IsTame (fail interrupt) w f t = absurd t
    continue-IsTame (fail (foreign name)) w f t = absurd t
    continue-IsTame (throw e) w f t = absurd t

    secrets_now-IsTame : (w : World S) → IsTame (secrets_now a texts r deadline w).0
    unfolding secrets_now current_known_secrets ◌>>=◌ call
    secrets_now-IsTame w =
        continue-IsTame (a.known_secret_provider w.outside).0 _ _ (tame w.outside)

    recover-Given :
        (detail : String) (x : Answer (List KnownSecret)) (w : World S)
        → IsTame x
        → Given (recover a texts r deadline detail x w).0
    unfolding recover
    recover-Given detail (ok secrets) w t = tt
    recover-Given detail (fail (agent reason text)) w t = tt
    recover-Given detail (fail interrupt) w t = absurd t
    recover-Given detail (fail (foreign name)) w t = absurd t
    recover-Given detail (throw e) w t = absurd t

    if-Given :
        (hit : Bool) (x y : Action S LoopResult) (w : World S)
        → Given (x w).0
        → Given (y w).0
        → Given ((if hit then x else y) w).0
    if-Given true x y w p q = p
    if-Given false x y w p q = q

    handle-Given : (x : Answer LoopResult) (w : World S) → Given (handle a texts r deadline x w).0
    unfolding handle pure ◌>>=◌ detail_withheld
    handle-Given (ok result) w = tt
    handle-Given (fail interrupt) w = stop-Given _ _ w
    handle-Given (fail (agent reason detail)) w =
        let (x, w') = secrets_now a texts r deadline w in
        Given-continue (recover a texts r deadline detail x w').0 _ _
          (recover-Given detail x w' (secrets_now-IsTame w))
          (λ hit w2. if-Given hit _ _ w2 (stop-Given _ _ w2) (stop-Given _ _ w2))
    handle-Given (fail (foreign name)) w = stop-Given _ _ w
    handle-Given (throw e) w = stop-Given _ _ w

    begin-Given : (prompt : String) (s : S) → Given (begin a texts r deadline (ok prompt) s).0
    unfolding begin try_then
    begin-Given prompt s = handle-Given _ _

  -- Let the journal's `finish` return, let the secrets' provider raise nothing but an `AgentLoopError`,
  -- and let the run's deadline and its task be accepted. Then the run returns a result, whatever the
  -- other calls on the adapters, or the other entries of the journal, answer or raise.
  pub run_returns :
      (s : S) {prompt : String}
      → prepare r (deadline_of r.monotonic_deadline (a.clock s).0 r.settings.max_runtime_seconds)
        ≡ ok prompt
      → (result : LoopResult) × ((run a texts r s).0 ≡ ok result)
  unfolding run
  run_returns s {prompt = prompt} h =
      let (started, s') = a.clock s in
      let deadline = deadline_of r.monotonic_deadline started r.settings.max_runtime_seconds in
      Given-value _ (
        subst (λ p. Given (begin a texts r deadline p s').0) (sym h)
          (begin-Given deadline prompt s'))
