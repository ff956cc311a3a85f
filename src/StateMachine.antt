-- ===== src/StateMachine.antt =====
-- state_machine.py: the fatal latch and the decision that ends or continues the loop after a round.
pub mod Latch
pub mod Order
use codex_claude_author_crit.Prelude.{
  ℕ, String, Bool, true, false, ◌&&◌, not, Option, none, some, List, [], ◌∷◌, ◌++◌, ltb, leb,
  if◌then◌else◌, Except, ok, throw, value_error, ◌>>=◌, ◌>>◌, raise_if,
}
use codex_claude_author_crit.Prelude.Int.{ℤ, pos, ltb_ℤ, leb_ℤ}
use codex_claude_author_crit.Errors.{ExitCode, StopReason, exit_code_for, Outcome}

pub data Action : Type 0 where
  continue stop : Action

-- The verdicts that `RoundObservation` accepts.
pub data Verdict : Type 0 where
  lgtm revise blocked : Verdict

-- `reason in _NON_FATAL_REASONS`
unfoldable pub is_non_fatal : StopReason → Bool
is_non_fatal StopReason.converged = true
is_non_fatal StopReason.round_cap_reached = true
is_non_fatal StopReason.stalled = true
is_non_fatal StopReason.critic_blocked = true
is_non_fatal _ = false

-- One call of `latch`: the reason, the detail and the time.
pub record Failure : Type 0 where
  pub reason : StopReason
  pub detail : String
  pub now : ℤ

-- `first` is `None` while `reason`, `detail` and `latched_at` are: the three are set together.
pub record FatalLatch : Type 0 where
  pub first : Option Failure
  pub secondary : List Failure

abbrev pub new_latch : FatalLatch
new_latch = record { first = none; secondary = [] }

pub is_set : FatalLatch → Bool
is_set l = elim l.first [ none ↦ false | some _ ↦ true ]

-- The latch after a failure that passed the guards.
record_failure : Failure → Option Failure → List Failure → FatalLatch
record_failure f none later = record { first = some f; secondary = later }
record_failure f (some g) later = record { first = some g; secondary = later ++ f ∷ [] }

unfoldable pub latch : Failure → FatalLatch → Outcome FatalLatch
unfolding is_non_fatal record_failure
latch f l = do
  raise_if (is_non_fatal f.reason) value_error
  raise_if (ltb_ℤ f.now (pos 0)) value_error
  ok (record_failure f l.first l.secondary)

-- The verdict is a text in the source; `__post_init__` admits `None` and the three of `Verdict`.
pub record RoundObservation : Type 0 where
  pub round_count : ℕ
  pub max_rounds : ℕ
  pub all_validations_pass : Bool
  pub semantic_deltas_visible : Bool
  pub evidence_approval_eligible : Bool
  pub critic_verdict : Option Verdict
  pub critic_completed_at : Option ℤ
  pub monotonic_deadline : ℤ
  pub repeated_non_success_state : Bool

abbrev is_negative : Option ℤ → Bool
is_negative none = false
is_negative (some t) = ltb_ℤ t (pos 0)

-- `RoundObservation.__post_init__`
unfoldable pub observe_round : RoundObservation → Outcome RoundObservation
observe_round o = do
  raise_if (ltb o.round_count 1) value_error
  raise_if (ltb o.max_rounds 1) value_error
  raise_if (ltb_ℤ o.monotonic_deadline (pos 0)) value_error
  raise_if (is_negative o.critic_completed_at) value_error
  ok o

pub record Decision : Type 0 where
  pub action : Action
  pub reason : Option StopReason
  pub exit_code : Option ExitCode

abbrev pub go_on : Decision
go_on = record { action = continue; reason = none; exit_code = none }

abbrev pub stop_with : StopReason → ExitCode → Decision
stop_with r c = record { action = stop; reason = some r; exit_code = some c }

-- `critic_completed_at is not None and critic_completed_at <= monotonic_deadline`
abbrev pub is_in_time : RoundObservation → Bool
is_in_time o = elim o.critic_completed_at [ none ↦ false | some t ↦ leb_ℤ t o.monotonic_deadline ]

abbrev pub is_lgtm : Option Verdict → Bool
is_lgtm none = false
is_lgtm (some lgtm) = true
is_lgtm (some revise) = false
is_lgtm (some blocked) = false

abbrev pub is_blocked : Option Verdict → Bool
is_blocked none = false
is_blocked (some lgtm) = false
is_blocked (some revise) = false
is_blocked (some blocked) = true

-- `x or y` on a time: a zero is false in Python.
abbrev time_or : Option ℤ → ℤ → ℤ
time_or none d = d
time_or (some (pos ℕ.zero)) d = d
time_or (some t) d = t

abbrev pub is_approved : RoundObservation → Bool
is_approved o = o.all_validations_pass && o.semantic_deltas_visible && o.evidence_approval_eligible

late_at : Option ℤ → ℤ → FatalLatch → Outcome FatalLatch
unfolding latch
late_at none deadline l = ok l
late_at (some t) deadline l =
    if ltb_ℤ deadline t
    then latch
        (record {
          reason = StopReason.wall_clock_deadline_exceeded;
          detail = "critic envelope completed after the run deadline";
          now = t;
        })
        l
    else ok l

latch_contradiction : RoundObservation → FatalLatch → Outcome FatalLatch
unfolding latch
latch_contradiction o l =
    if is_lgtm o.critic_verdict && not (is_approved o)
    then latch
        (record {
          reason = StopReason.critic_lgtm_with_failed_validation;
          detail = "LGTM contradicted local validation or evidence state";
          now = time_or o.critic_completed_at o.monotonic_deadline;
        })
        l
    else ok l

-- What follows the latching: the order fatal, success, BLOCKED, cap, stall.
choose : RoundObservation → Option Failure → Decision
choose o (some f) = stop_with f.reason (exit_code_for f.reason)
choose o none =
    if is_approved o && is_lgtm o.critic_verdict && is_in_time o
    then stop_with StopReason.converged ExitCode.success
    else if is_blocked o.critic_verdict
    then stop_with StopReason.critic_blocked ExitCode.critic_blocked
    else if leb o.max_rounds o.round_count
    then stop_with StopReason.round_cap_reached ExitCode.round_cap
    else if o.repeated_non_success_state
    then stop_with StopReason.stalled ExitCode.stalled
    else go_on

unfoldable pub decide : RoundObservation → FatalLatch → Outcome (Decision × FatalLatch)
unfolding late_at latch_contradiction choose
decide o l = do
  l' ← late_at o.critic_completed_at o.monotonic_deadline l
  l'' ← latch_contradiction o l'
  ok (choose o l''.first, l'')
