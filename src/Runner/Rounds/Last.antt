-- ===== src/Runner/Rounds/Last.antt =====
-- The loop of `LoopRunner.run` stops at its last round at the latest: what stands after it is not reached.
use codex_claude_author_crit.Prelude.{
  ℕ, zero, suc, ◌+◌, ◌≤◌, ◌≡◌, refl, sym, ◌-◌, Option, none, some, ok, fail, throw, arith, subst,
  Returns,
}
use codex_claude_author_crit.Prelude.Int.{ℤ, pos_part}
use codex_claude_author_crit.Errors.{StopReason}
use codex_claude_author_crit.StateMachine.{
  FatalLatch, RoundObservation, Decision, observe_round, decide,
}
use codex_claude_author_crit.Paths.Glob.{ComponentMatch}
use codex_claude_author_crit.Manifest.Entry.{Digest}
use codex_claude_author_crit.Critic.Json.{Unicode}
use codex_claude_author_crit.Critic.Review.{CriticReview}
use codex_claude_author_crit.Validation.Declassify.{Base64}
use codex_claude_author_crit.Runner.{LoopSettings, ValidationTurn, loop_settings}
use codex_claude_author_crit.Runner.Inputs.{Texts, Run}
use codex_claude_author_crit.Runner.Secrets.{Codecs}
use codex_claude_author_crit.Runner.Contract.{max_rounds_of}
use codex_claude_author_crit.Runner.World.{
  Adapters, Answer, CriticTurn, LoopResult, Action, World, ◌>>=◌, continue_with, get_locals,
}
use codex_claude_author_crit.Runner.World.Holds.{
  Holds, OnOk, Holds-pure, Holds-lift, Holds-any, ◌then◌,
}
use codex_claude_author_crit.Runner.Validations.{Judged}
use codex_claude_author_crit.Runner.Rounds.{
  conclude, observation_of, decide_phase, round, rounds, result_or, body_then,
}

abbrev IsGiven : {A : Type 0} → Option A → Type 0
IsGiven none = ⊥
IsGiven (some x) = Unit {0}

observe_round_same : (o o' : RoundObservation) → observe_round o ≡ ok o' → o ≡ o'
unfolding observe_round
observe_round_same o o' h = ground arith

decided-IsGiven :
    (o : RoundObservation) (l : FatalLatch)
    → observe_round o ≡ ok o
    → o.max_rounds ≤ o.round_count
    → Returns (λ decided. IsGiven decided.0.reason) (decide o l)
unfolding decide observe_round
decided-IsGiven o l h last = ground arith

-- An accepted observation of the last round.
abbrev IsLast : RoundObservation → Type 0
IsLast o = (o.max_rounds ≤ o.round_count) × (observe_round o ≡ ok o)

observed-IsLast :
    (o o' : RoundObservation) → o.max_rounds ≤ o.round_count → observe_round o ≡ ok o' → IsLast o'
observed-IsLast o o' last h =
    subst (λ x. (x.max_rounds ≤ x.round_count) × (observe_round x ≡ ok x))
      (observe_round_same o o' h) (last, let e = observe_round_same o o' h in cc)

decide-IsGiven :
    (o : RoundObservation) (l : FatalLatch) (decided : Decision × FatalLatch)
    → IsLast o
    → decide o l ≡ ok decided
    → IsGiven decided.0.reason
decide-IsGiven o l decided last h =
    subst (Returns (λ decided. IsGiven decided.0.reason)) h (decided-IsGiven o l last.1 last.0)

accepted_rounds : (s : LoopSettings) → loop_settings s ≡ ok s → 1 ≤ pos_part s.max_rounds
unfolding loop_settings
accepted_rounds s h = ground arith

module _ ⦃m : ComponentMatch⦄ ⦃b : Base64⦄ ⦃d : Digest⦄ ⦃j : Codecs⦄ ⦃u : Unicode⦄ {S : Type 0}
    (a : Adapters S) (texts : Texts) (r : Run) (deadline : ℤ) where
  -- The action returns only values with `Q`.
  abbrev Yields : {A : Type 0} → (A → Type 0) → Action S A → Type 0
  Yields Q m = Holds (λ _. Unit {0}) (λ _. Unit {0}) Q m

  conclude_stops :
      (reason : Option StopReason) (review : CriticReview) (judged : Judged)
      → IsGiven reason
      → Yields IsGiven (conclude a texts r deadline reason review judged)
  unfolding conclude
  conclude_stops (some reason) review judged given =
      Holds-any get_locals then λ l _. Holds-any _ then λ result _. Holds-pure (some result) tt
  conclude_stops none review judged given = absurd given

  decide_phase_stops :
      (n : ℕ) (turn : ValidationTurn) (judged : Judged) (answer : CriticTurn)
      → max_rounds_of r ≤ n
      → Yields IsGiven (decide_phase a texts r deadline n turn judged answer)
  unfolding decide_phase
  decide_phase_stops n turn judged answer last = Holds-any _ then λ l _.
      Holds-any _ then λ progress _. Holds-any _ then λ _ _.
      Holds-lift _ _ (λ o' h.
        observed-IsLast (observation_of a texts r deadline n turn judged answer _) o' last h)
      then λ observation is_last.
          Holds-lift _ _ (λ decided h. decide-IsGiven observation l.fatal decided is_last h)
          then λ decided given. Holds-any _ then λ now _.
              Holds-any _ then λ _ _. conclude_stops decided.0.reason answer.review judged given

  round_stops :
      (n : ℕ) (baseline : ValidationTurn)
      → max_rounds_of r ≤ n
      → Yields IsGiven (round a texts r deadline n baseline)
  unfolding round
  round_stops n baseline last = Holds-any _ then λ rec _. Holds-any _ then λ validated _.
      Holds-any _ then λ answer _. decide_phase_stops n validated.0 validated.1 answer last

  same_continue :
      {A B : Type 0} {Q : A → Type 0} (x : Answer A) (w : World S) (f g : A → Action S B)
      → OnOk Q x
      → ((y : A) → Q y → (w' : World S) → f y w' ≡ g y w')
      → continue_with x w f ≡ continue_with x w g
  unfolding continue_with
  same_continue (ok y) w f g q same = same y q w
  same_continue (fail e) w f g q same = refl
  same_continue (throw e) w f g q same = refl

  same_bind :
      {A B : Type 0} {Q : A → Type 0} (m : Action S A) (f g : A → Action S B) (w : World S)
      → Yields Q m
      → ((x : A) → Q x → (w' : World S) → f x w' ≡ g x w')
      → (m >>= f) w ≡ (m >>= g) w
  unfolding ◌>>=◌
  same_bind {Q = Q} m f g w y same =
      same_continue {Q = Q} (m w).0 (m w).1 f g (y.at w (tt, tt)).1 same

  result_given :
      (finished : Option LoopResult) (x y : Action S LoopResult) (w : World S)
      → IsGiven finished
      → result_or a texts r deadline finished x w ≡ result_or a texts r deadline finished y w
  unfolding result_or
  result_given (some result) x y w given = refl
  result_given none x y w given = absurd given

  result_same :
      (finished : Option LoopResult) (x y : Action S LoopResult) (w : World S)
      → x w ≡ y w
      → result_or a texts r deadline finished x w ≡ result_or a texts r deadline finished y w
  unfolding result_or
  result_same (some result) x y w h = refl
  result_same none x y w h = h

  rounds_same :
      (left n : ℕ) (baseline : ValidationTurn) (after after' : Action S LoopResult) (w : World S)
      → max_rounds_of r ≤ left + n
      → rounds a texts r deadline (suc left) n baseline after w
        ≡ rounds a texts r deadline (suc left) n baseline after' w
  unfolding rounds
  rounds_same zero n baseline after after' w last =
      same_bind (round a texts r deadline n baseline) _ _ w (round_stops n baseline (omega arith))
        (λ finished given w'. result_given finished after after' w' given)
  rounds_same (suc left) n baseline after after' w last =
      same_bind (round a texts r deadline n baseline) _ _ w (Holds-any _) (λ finished _ w'.
        result_same finished _ _ w'
          (rounds_same left (suc n) baseline after after' w' (omega arith)))

  rounds_from_one :
      (baseline : ValidationTurn) (after after' : Action S LoopResult) (w : World S)
      → 1 ≤ max_rounds_of r
      → rounds a texts r deadline (max_rounds_of r) 1 baseline after w
        ≡ rounds a texts r deadline (max_rounds_of r) 1 baseline after' w
  rounds_from_one baseline after after' w positive =
      let e : max_rounds_of r ≡ suc (max_rounds_of r - 1) = omega arith in
      let same = rounds_same (max_rounds_of r - 1) 1 baseline after after' w (omega arith) in
      subst
        (λ k.
          rounds a texts r deadline k 1 baseline after w
          ≡ rounds a texts r deadline k 1 baseline after' w)
        (sym e) same

  -- The loop over the rounds, from the first on, always ends in a stop or an exception of a round: with
  -- settings that `LoopSettings` accepts, the block of `try` does the same for any two continuations of
  -- the loop, so that the `AssertionError` that stands there is not reached.
  pub body_then_ends :
      (after after' : Action S LoopResult) (w : World S)
      → loop_settings r.settings ≡ ok r.settings
      → body_then a texts r deadline after w ≡ body_then a texts r deadline after' w
  unfolding body_then
  body_then_ends after after' w accepted = same_bind _ _ _ w (Holds-any _) λ _ _ w1.
      same_bind _ _ _ w1 (Holds-any _) λ baseline _ w2.
        rounds_from_one baseline after after' w2 (accepted_rounds r.settings accepted)
