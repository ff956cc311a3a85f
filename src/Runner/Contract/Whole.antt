-- ===== src/Runner/Contract/Whole.antt =====
-- A run keeps to the contract with the adapters, and ends in a consistent result.
use codex_claude_author_crit.Prelude.{
  ℕ, zero, suc, ◌+◌, ◌≤◌, ◌≡◌, subst, String, Option, none, some, List, ok, fail, throw, arith,
  if◌then◌else◌,
}
use codex_claude_author_crit.Prelude.Int.{ℤ}
use codex_claude_author_crit.Errors.{Outcome}
use codex_claude_author_crit.Paths.Glob.{ComponentMatch}
use codex_claude_author_crit.Manifest.Entry.{Digest}
use codex_claude_author_crit.Critic.Json.{Unicode}
use codex_claude_author_crit.Validation.Declassify.{Base64, KnownSecret}
use codex_claude_author_crit.Runner.{ValidationTurn}
use codex_claude_author_crit.Runner.Inputs.{Texts, Run}
use codex_claude_author_crit.Runner.Secrets.{Codecs}
use codex_claude_author_crit.Runner.World.{
  Adapters, Action, Answer, CriticTurn, LoopResult, agent, interrupt, foreign,
}
use codex_claude_author_crit.Runner.World.Holds.{
  Holds, OnOk, Holds-pure, Holds-lift, Holds-if, Holds-get_locals, Holds-set_locals, ◌then◌,
}
use codex_claude_author_crit.Runner.Validations.{Judged}
use codex_claude_author_crit.Runner.Loop.{secrets_now}
use codex_claude_author_crit.Runner.Handlers.{
  recover, exhausted, detail_withheld, handle, try_then, begin, run, first_locals,
}
use codex_claude_author_crit.Runner.Rounds.{decide_phase, round, rounds, result_or, body_then}
use codex_claude_author_crit.Runner.Contract.{
  GoodLocals, IsConsistent, IsRound, Keeps, max_rounds_of,
}
use codex_claude_author_crit.Runner.Contract.Steps.{
  Nothing, secrets_now-Holds, stop-Holds, screen_inputs-Holds, baseline_phase-Holds,
}
use codex_claude_author_crit.Runner.Contract.Rounds.{
  ConsistentIf, author_phase-Holds, validation_phase-Holds, critic_phase-Holds, conclude-Holds,
}

module _ ⦃m : ComponentMatch⦄ ⦃b : Base64⦄ ⦃d : Digest⦄ ⦃j : Codecs⦄ ⦃u : Unicode⦄ {S : Type 0}
    (a : Adapters S) (texts : Texts) (r : Run) {P : S → Type 0} (k : Keeps a r P) where
  module _ (deadline : ℤ) where
    decide_phase-Holds :
        (n : ℕ) (turn : ValidationTurn) (judged : Judged) (answer : CriticTurn)
        → Holds
            (GoodLocals r)
            P
            (ConsistentIf a texts r deadline k)
            (decide_phase a texts r deadline n turn judged answer)
    unfolding decide_phase
    decide_phase-Holds n turn judged answer = Holds-get_locals then λ l good.
        Holds-lift _ _ (λ _ _. tt) then λ progress _. Holds-set_locals _ good then λ _ _.
        Holds-lift _ _ (λ _ _. tt) then λ observation _.
        Holds-lift _ _ (λ _ _. tt) then λ decided _. Holds-get_locals then λ now good'.
        Holds-set_locals _ good' then λ _ _.
        conclude-Holds a texts r deadline k decided.0.reason answer.review judged

    round-Holds :
        (n : ℕ) (baseline : ValidationTurn)
        → IsRound r n
        → Holds
            (GoodLocals r)
            P
            (ConsistentIf a texts r deadline k)
            (round a texts r deadline n baseline)
    unfolding round
    round-Holds n baseline is_round =
        author_phase-Holds a texts r deadline k n is_round then λ rec _.
        validation_phase-Holds a texts r deadline k n baseline rec then λ validated eligible.
        critic_phase-Holds a texts r deadline k n rec validated.0 validated.1 is_round eligible
        then λ answer _. decide_phase-Holds n validated.0 validated.1 answer

    result_or-Holds :
        (finished : Option LoopResult) (rest : Action S LoopResult)
        → ConsistentIf a texts r deadline k finished
        → Holds (GoodLocals r) P (IsConsistent r) rest
        → Holds (GoodLocals r) P (IsConsistent r) (result_or a texts r deadline finished rest)
    unfolding result_or
    result_or-Holds none rest _ kept = kept
    result_or-Holds (some result) rest is_consistent _ = Holds-pure result is_consistent

    rounds-Holds :
        (left n : ℕ) (baseline : ValidationTurn) (after : Action S LoopResult)
        → 1 ≤ n
        → left + n ≤ suc (max_rounds_of r)
        → Holds (GoodLocals r) P (IsConsistent r) after
        → Holds (GoodLocals r) P (IsConsistent r) (rounds a texts r deadline left n baseline after)
    unfolding rounds
    rounds-Holds zero n baseline after _ _ kept = kept
    rounds-Holds (suc left) n baseline after first bound kept =
        round-Holds n baseline (first, omega arith) then λ finished is_consistent.
        result_or-Holds finished _ is_consistent
          (rounds-Holds left (suc n) baseline after (omega arith) (omega arith) kept)

    body_then-Holds :
        (after : Action S LoopResult)
        → Holds (GoodLocals r) P (IsConsistent r) after
        → Holds (GoodLocals r) P (IsConsistent r) (body_then a texts r deadline after)
    unfolding body_then
    body_then-Holds after kept = screen_inputs-Holds a texts r deadline k then λ _ _.
        baseline_phase-Holds a texts r deadline k then λ baseline _.
        rounds-Holds (max_rounds_of r) 1 baseline after (omega arith) (omega arith) kept

    exhausted-Holds : Holds (GoodLocals r) P (IsConsistent r) (exhausted a texts r deadline)
    unfolding exhausted
    exhausted-Holds = record { at = λ w h. (h, tt) }

    recover-Holds :
        (detail : String) (x : Answer (List KnownSecret))
        → Holds (GoodLocals r) P Nothing (recover a texts r deadline detail x)
    unfolding recover
    recover-Holds detail (ok secrets) = record { at = λ w h. (h, tt) }
    recover-Holds detail (fail (agent reason text)) = record { at = λ w h. (h, tt) }
    recover-Holds detail (fail interrupt) = record { at = λ w h. (h, tt) }
    recover-Holds detail (fail (foreign name)) = record { at = λ w h. (h, tt) }
    recover-Holds detail (throw e) = record { at = λ w h. (h, tt) }

    detail_withheld-Holds :
        (detail : String)
        → Holds (GoodLocals r) P Nothing (detail_withheld a texts r deadline detail)
    unfolding detail_withheld
    detail_withheld-Holds detail = record {
      at = λ w h.
          let (x, w') = secrets_now a texts r deadline w in
          (recover-Holds detail x).at w' ((secrets_now-Holds a texts r deadline k).at w h).0;
    }

    handle-Holds :
        (x : Answer LoopResult)
        → OnOk (IsConsistent r) x
        → Holds (GoodLocals r) P (IsConsistent r) (handle a texts r deadline x)
    unfolding handle
    handle-Holds (ok result) q = Holds-pure result q
    handle-Holds (fail interrupt) q = stop-Holds a texts r deadline k _ _
    handle-Holds (fail (agent reason detail)) q = detail_withheld-Holds detail then λ hit _.
        Holds-if hit _ _ (λ _. stop-Holds a texts r deadline k _ _)
          (λ _. stop-Holds a texts r deadline k _ _)
    handle-Holds (fail (foreign name)) q = stop-Holds a texts r deadline k _ _
    handle-Holds (throw e) q = stop-Holds a texts r deadline k _ _

    try_then-Holds :
        (after : Action S LoopResult)
        → Holds (GoodLocals r) P (IsConsistent r) after
        → Holds (GoodLocals r) P (IsConsistent r) (try_then a texts r deadline after)
    unfolding try_then
    try_then-Holds after kept = record {
      at = λ w h.
          let (h', q) = (body_then-Holds after kept).at w h in
          (handle-Holds (body_then a texts r deadline after w).0 q).at
            (body_then a texts r deadline after w).1 h';
    }

    begin-keeps :
        (prepared : Outcome String) (s : S)
        → P s
        → P (begin a texts r deadline prepared s).1
          × OnOk (IsConsistent r) (begin a texts r deadline prepared s).0
    unfolding begin
    begin-keeps (ok prompt) s p =
        let (h, q) =
          (try_then-Holds (exhausted a texts r deadline) exhausted-Holds).at
            (record { locals = first_locals r prompt; outside = s }) (omega arith, p) in
        (h.1, q)
    begin-keeps (fail reason) s p = (p, tt)
    begin-keeps (throw e) s p = (p, tt)

  run_ends : (s : S) → P s → P (run a texts r s).1 × OnOk (IsConsistent r) (run a texts r s).0
  unfolding run
  run_ends s p = begin-keeps _ _ _ (k.clock s p)

  -- Take a predicate of the adapters' state that each call keeps which the contract allows: the author
  -- is asked in a round from 1 to `max_rounds` with a prompt free of the runner's secrets; the critic in
  -- such a round with a bundle free of them and on eligible evidence; what is published is what the
  -- reconciliation of a candidate with the base gives, and has the base's entry at every protected path;
  -- the task is journaled at the start only if it is free of the secrets; and the result that is
  -- journaled has the exit code of its reason and at most `max_rounds` rounds. Then a whole run keeps the
  -- predicate, whether it returns or raises.
  pub run-Keeps : (s : S) → P s → P (run a texts r s).1
  run-Keeps s p = (run_ends s p).0

keeps_all :
    ⦃m : ComponentMatch⦄ ⦃b : Base64⦄ {S : Type 0} (a : Adapters S) (r : Run)
    → Keeps a r (λ _. Unit {0})
keeps_all a r = record {
  clock = λ s h. tt;
  author = λ q may s h. tt;
  validate = λ q s h. tt;
  review = λ q may s h. tt;
  journal = λ e may s h. tt;
  integrity_guard = λ subject s h. tt;
  publish_subject = λ subject may s h. tt;
  known_secret_provider = λ s h. tt;
  pending_metadata = λ secrets s h. tt;
}

-- Where a run returns a result, the exit code is the one of the stop reason, and the rounds completed
-- are at most `max_rounds`.
pub run-IsConsistent :
    ⦃m : ComponentMatch⦄ ⦃b : Base64⦄ ⦃d : Digest⦄ ⦃j : Codecs⦄ ⦃u : Unicode⦄ {S : Type 0}
    (a : Adapters S) (texts : Texts) (r : Run) (s : S) {result : LoopResult}
    → (run a texts r s).0 ≡ ok result
    → IsConsistent r result
run-IsConsistent a texts r s h =
    subst (OnOk (IsConsistent r)) h (run_ends a texts r (keeps_all a r) s tt).1
