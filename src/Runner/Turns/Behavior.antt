-- ===== src/Runner/Turns/Behavior.antt =====
-- What the opaque-independence check of runner.py compares.
use codex_claude_author_crit.Prelude.{
  ◌≡◌, refl, ◌↔◌, Bool, true, false, ◌&&◌, List, [], ◌∷◌, ◌==◌, sym, ap, ◌∙◌, String, if◌then◌else◌,
  map, ap₂, list_beq_iff, option_beq_iff, nat_eq, string_eq, option_eq, list_eq, ok, arith,
}
use codex_claude_author_crit.Prelude.Int.{ℤ_eq}
use codex_claude_author_crit.Validation.Execution.{
  CheckExecution, CheckOutcome, outcome, outcome_value,
}
use codex_claude_author_crit.Runner.{
  CheckBehavior, behavior, ValidationTurn, validation_behavior_signature,
}
use codex_claude_author_crit.Runner.Turns.{
  same_flag, same_check, same_checks, same_behavior, require_opaque_validation_independence,
}

outcome_named : String → CheckOutcome
outcome_named s =
    if s == "passed"
    then CheckOutcome.passed
    else if s == "failed"
    then CheckOutcome.failed
    else if s == "timed_out"
    then CheckOutcome.timed_out
    else if s == "output_limited"
    then CheckOutcome.output_limited
    else if s == "process_failure"
    then CheckOutcome.process_failure
    else CheckOutcome.infrastructure_failure

outcome_named-outcome_value : (x : CheckOutcome) → outcome_named (outcome_value x) ≡ x
unfolding outcome_named
outcome_named-outcome_value CheckOutcome.passed = refl
outcome_named-outcome_value CheckOutcome.failed = refl
outcome_named-outcome_value CheckOutcome.timed_out = refl
outcome_named-outcome_value CheckOutcome.output_limited = refl
outcome_named-outcome_value CheckOutcome.process_failure = refl
outcome_named-outcome_value CheckOutcome.infrastructure_failure = refl

same_outcome_iff : (x y : CheckOutcome) → (outcome_value x == outcome_value y ≡ true) ↔ (x ≡ y)
same_outcome_iff x y = (
  λ h.
      sym (outcome_named-outcome_value x)
      ∙ ap outcome_named ((string_eq.beq_iff (outcome_value x) (outcome_value y)).0 h)
      ∙ outcome_named-outcome_value y,
  λ e. (string_eq.beq_iff (outcome_value x) (outcome_value y)).1 (ap outcome_value e),
)

same_flag_iff : (x y : Bool) → (same_flag x y ≡ true) ↔ (x ≡ y)
unfolding same_flag
same_flag_iff x y = ground arith

and_iff :
    {P Q : Type 0} (p q : Bool) → (p ≡ true) ↔ P → (q ≡ true) ↔ Q → ((p && q) ≡ true) ↔ (P × Q)
and_iff true q f g = (λ h. (f.0 refl, g.0 h), λ h. g.1 h.1)
and_iff false q f g = (λ h. cc, λ h. f.1 h.0)

infixl 4 ◌both◌
◌both◌ : {P Q : Type 0} {p q : Bool} → (p ≡ true) ↔ P → (q ≡ true) ↔ Q → ((p && q) ≡ true) ↔ (P × Q)
◌both◌ {p = p} {q = q} f g = and_iff p q f g

same_check_iff : (x y : CheckBehavior) → (same_check x y ≡ true) ↔ (x ≡ y)
unfolding same_check
same_check_iff x y =
    let fields =
      string_eq.beq_iff x.check_id y.check_id
      both string_eq.beq_iff x.command y.command
      both option_beq_iff x.exit_code y.exit_code
      both option_beq_iff x.signal y.signal
      both same_flag_iff x.timed_out y.timed_out
      both same_flag_iff x.infrastructure_failure y.infrastructure_failure
      both same_flag_iff x.process_started y.process_started
      both same_flag_iff x.output_limited y.output_limited
      both same_outcome_iff x.outcome y.outcome in
    (
      λ h. let es = fields.0 h in cc,
      λ e. fields.1 (
        (
          (
            (
              (
                (
                  ((ap (λ z. z.check_id) e, ap (λ z. z.command) e), ap (λ z. z.exit_code) e),
                  ap (λ z. z.signal) e,
                ),
                ap (λ z. z.timed_out) e,
              ),
              ap (λ z. z.infrastructure_failure) e,
            ),
            ap (λ z. z.process_started) e,
          ),
          ap (λ z. z.output_limited) e,
        ),
        ap (λ z. z.outcome) e,
      ),
    )

same_checks_iff : (xs ys : List CheckBehavior) → (same_checks xs ys ≡ true) ↔ (xs ≡ ys)
unfolding same_checks
same_checks_iff [] [] = (λ _. refl, λ _. refl)
same_checks_iff (x ∷ xs) (y ∷ ys) = ground (arith, same_check_iff x y, same_checks_iff xs ys)
same_checks_iff [] (y ∷ ys) = ground arith
same_checks_iff (x ∷ xs) [] = ground arith

-- Two runs of a check that show the same: the same check with the same command, the same exit code and
-- signal, and the same four flags. Their times may differ.
pub record RanAlike (x y : CheckExecution) : Type 0 where
  pub check_id : x.check_id ≡ y.check_id
  pub command : x.command ≡ y.command
  pub exit_code : x.exit_code ≡ y.exit_code
  pub signal : x.signal ≡ y.signal
  pub timed_out : x.timed_out ≡ y.timed_out
  pub infrastructure_failure : x.infrastructure_failure ≡ y.infrastructure_failure
  pub process_started : x.process_started ≡ y.process_started
  pub output_limited : x.output_limited ≡ y.output_limited

-- As many runs in both lists, alike one by one.
pub data AllAlike : List CheckExecution → List CheckExecution → Type 0 where
  none_left : AllAlike [] []
  next :
      {x y : CheckExecution} {xs ys : List CheckExecution}
      → RanAlike x y
      → AllAlike xs ys
      → AllAlike (x ∷ xs) (y ∷ ys)

behavior_iff : (x y : CheckExecution) → (behavior x ≡ behavior y) ↔ RanAlike x y
unfolding behavior outcome
behavior_iff x y = (
  λ e. record {
    check_id = ap (λ (b : CheckBehavior). b.check_id) e;
    command = ap (λ (b : CheckBehavior). b.command) e;
    exit_code = ap (λ (b : CheckBehavior). b.exit_code) e;
    signal = ap (λ (b : CheckBehavior). b.signal) e;
    timed_out = ap (λ (b : CheckBehavior). b.timed_out) e;
    infrastructure_failure = ap (λ (b : CheckBehavior). b.infrastructure_failure) e;
    process_started = ap (λ (b : CheckBehavior). b.process_started) e;
    output_limited = ap (λ (b : CheckBehavior). b.output_limited) e;
  },
  λ r. cc,
)

AllAlike-map : (xs ys : List CheckExecution) → map behavior xs ≡ map behavior ys → AllAlike xs ys
AllAlike-map [] [] e = none_left
AllAlike-map [] (y ∷ ys) e = cc
AllAlike-map (x ∷ xs) [] e = cc
AllAlike-map (x ∷ xs) (y ∷ ys) e = next ((behavior_iff x y).0 (cc)) (AllAlike-map xs ys (cc))

map-AllAlike : (xs ys : List CheckExecution) → AllAlike xs ys → map behavior xs ≡ map behavior ys
map-AllAlike [] [] none_left = refl
map-AllAlike [] (y ∷ ys) h = elim h [ ]
map-AllAlike (x ∷ xs) [] h = elim h [ ]
map-AllAlike (x ∷ xs) (y ∷ ys) (next r rs) =
    ap₂ (λ (b : CheckBehavior) (bs : List CheckBehavior). b ∷ bs) ((behavior_iff x y).1 r)
      (map-AllAlike xs ys rs)

-- The signatures of the two validations agree exactly when the check accepts.
signatures_iff :
    (x y : ValidationTurn)
    → (require_opaque_validation_independence x y ≡ ok tt)
      ↔ ((map behavior x.summary.checks ≡ map behavior y.summary.checks) × (x.raw_log ≡ y.raw_log))
unfolding require_opaque_validation_independence same_behavior validation_behavior_signature
signatures_iff x y = ground (
  arith,
  same_checks_iff (map behavior x.summary.checks) (map behavior y.summary.checks),
  list_beq_iff x.raw_log y.raw_log,
)

-- The counterfactual validation is accepted exactly when its raw log is the same, and it ran as many
-- checks, alike one by one: the same check with the same command, exit code, signal and flags.
pub require_opaque_validation_independence_iff :
    (authoritative counterfactual : ValidationTurn)
    → (require_opaque_validation_independence authoritative counterfactual ≡ ok tt) ↔ (
        AllAlike authoritative.summary.checks counterfactual.summary.checks
        × (authoritative.raw_log ≡ counterfactual.raw_log))
require_opaque_validation_independence_iff x y =
    let sides = signatures_iff x y in
    (
      λ h. (AllAlike-map x.summary.checks y.summary.checks (sides.0 h).0, (sides.0 h).1),
      λ r. sides.1 (map-AllAlike x.summary.checks y.summary.checks r.0, r.1),
    )
