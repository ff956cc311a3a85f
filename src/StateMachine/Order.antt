-- ===== src/StateMachine/Order.antt =====
-- What `decide` decides: it is total on the observations that `__post_init__` accepts, fatal first,
-- and each of its answers means what its name says.
use codex_claude_author_crit.Prelude.{
  ◌<◌, ◌≡◌, sym, ◌∙◌, subst, ◌≢◌, ◌↔◌, true, false, Option, none, some, arith, ok, Returns,
  Returns-map, inl, inr, Option-cases,
}
use codex_claude_author_crit.Errors.{StopReason, exit_code_for}
use codex_claude_author_crit.StateMachine.{
  Failure, FatalLatch, RoundObservation, continue, stop, Decision, lgtm, blocked, observe_round,
  is_non_fatal, is_in_time, decide,
}

-- Every reason that a latch holds is fatal.
abbrev pub HoldsFatal : Option Failure → Type 0
HoldsFatal none = Unit
HoldsFatal (some f) = is_non_fatal f.reason ≡ false

abbrev pub Observed : RoundObservation → Type 0
Observed o = observe_round o ≡ ok o

-- A `None` reason carries no exit code; any other carries the code of the exit contract.
abbrev pub MeetsContract : Decision → Type 0
MeetsContract d = d.exit_code ≡ elim d.reason [ none ↦ none | some r ↦ some (exit_code_for r) ]

-- On an accepted observation `decide` never raises; a decision without a reason has no exit
-- code, and one with a reason has the contract's code for it.
pub decide-MeetsContract :
    (o : RoundObservation) (l : FatalLatch)
    → Observed o
    → Returns (λ r. MeetsContract r.0) (decide o l)
unfolding decide observe_round exit_code_for
decide-MeetsContract o l h = ground arith

-- Fatal first: when the latch already holds a failure, an accepted observation leads to a stop for
-- that failure, whatever the critic said, and the latch still holds it.
pub decide_fatal_first :
    (o : RoundObservation) (l : FatalLatch) (f : Failure)
    → Observed o
    → l.first ≡ some f
    → Returns
        (λ r. (r.0.action ≡ stop) × (r.0.reason ≡ some f.reason) × (r.1.first ≡ some f))
        (decide o l)
unfolding decide observe_round
decide_fatal_first o l f h e = ground arith

abbrev pub Converged : RoundObservation → FatalLatch → Decision × FatalLatch → Type 0
Converged o l r = (r.0.reason ≡ some StopReason.converged) ↔ (
    (l.first ≡ none)
    × (o.all_validations_pass ≡ true)
    × (o.semantic_deltas_visible ≡ true)
    × (o.evidence_approval_eligible ≡ true)
    × (o.critic_verdict ≡ some lgtm)
    × (is_in_time o ≡ true))

Converged-unlatched :
    (o : RoundObservation) (l : FatalLatch)
    → Observed o
    → l.first ≡ none
    → Returns (Converged o l) (decide o l)
unfolding decide observe_round
Converged-unlatched o l h e = ground arith

not_non_fatal : (r : StopReason) → is_non_fatal r ≡ false → r ≢ StopReason.converged
unfolding is_non_fatal
not_non_fatal r h e = ground arith

Converged-latched :
    (o : RoundObservation) (l : FatalLatch) (f : Failure)
    → Observed o
    → l.first ≡ some f
    → is_non_fatal f.reason ≡ false
    → Returns (Converged o l) (decide o l)
Converged-latched o l f h e k =
    Returns-map (decide o l) (λ r p. ground (arith, not_non_fatal f.reason k))
      (decide_fatal_first o l f h e)

-- On an accepted observation and a latch that is empty or holds a fatal reason, `decide`
-- returns, and reports convergence exactly when no failure was latched before, the validations
-- pass, the deltas are visible, the evidence is eligible, the critic said LGTM and its envelope
-- was in time.
pub decide-Converged_iff :
    (o : RoundObservation) (l : FatalLatch)
    → Observed o
    → HoldsFatal l.first
    → Returns (Converged o l) (decide o l)
unfolding decide observe_round
decide-Converged_iff o l h k = elim (Option-cases l.first) [
  | inl e ↦ Converged-unlatched o l h e
  | inr (f, e) ↦ Converged-latched o l f h e (subst HoldsFatal e k)
]

-- On an accepted observation `decide` returns, and the loop goes on only before the round cap,
-- with nothing latched before or by this decision, with no BLOCKED verdict and no repeated
-- state.
pub decide_continue :
    (o : RoundObservation) (l : FatalLatch)
    → Observed o
    → Returns
        (λ r.
          r.0.action ≡ continue
          → (o.round_count < o.max_rounds)
            × (l.first ≡ none)
            × (r.1.first ≡ none)
            × (o.critic_verdict ≢ some blocked)
            × (o.repeated_non_success_state ≡ false))
        (decide o l)
unfolding decide observe_round
decide_continue o l h = ground arith

HoldsFatal-unlatched :
    (o : RoundObservation) (l : FatalLatch)
    → Observed o
    → l.first ≡ none
    → Returns (λ r. HoldsFatal r.1.first) (decide o l)
unfolding decide observe_round
HoldsFatal-unlatched o l h e = ground arith

-- When an accepted observation meets a latch that is empty or holds a fatal reason, the latch
-- that `decide` leaves is empty or holds a fatal reason.
pub decide-HoldsFatal :
    (o : RoundObservation) (l : FatalLatch)
    → Observed o
    → HoldsFatal l.first
    → Returns (λ r. HoldsFatal r.1.first) (decide o l)
unfolding decide observe_round
decide-HoldsFatal o l h k = elim (Option-cases l.first) [
  | inl e ↦ HoldsFatal-unlatched o l h e
  | inr (f, e) ↦
      Returns-map (decide o l) (λ r p. subst HoldsFatal (e ∙ sym p.2) k)
        (decide_fatal_first o l f h e)
]
