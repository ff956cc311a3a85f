-- ===== src/Tests/Rounds.antt =====
-- Rounds of the state machine, and the paths of its subjects.
use codex_claude_author_crit.Prelude.{
  ◌<◌, ◌≡◌, refl, ◌≢◌, ◌↔◌, ◌⊎◌, true, false, none, some, [], ◌∷◌, ◌==◌, elem, nat_eq, arith,
  list_eq, list_beq, ok, Returns,
}
use codex_claude_author_crit.Prelude.Bytes.{codes, slash, split}
use codex_claude_author_crit.Prelude.Int.{pos}
use codex_claude_author_crit.Errors.{StopReason, converged, exit_status, exit_code_for}
use codex_claude_author_crit.Errors.Contract.{exit_status-zero}
use codex_claude_author_crit.StateMachine.{
  Failure, FatalLatch, new_latch, RoundObservation, lgtm, blocked, continue, stop, decide,
  observe_round, is_non_fatal,
}
use codex_claude_author_crit.StateMachine.Latch.{latch_all, latch_all_first}
use codex_claude_author_crit.StateMachine.Order.{
  HoldsFatal, MeetsContract, Converged, decide-MeetsContract, decide_fatal_first,
  decide-Converged_iff, decide_continue, decide-HoldsFatal,
}
use codex_claude_author_crit.Paths.{validate_subject_path}
use codex_claude_author_crit.Paths.Normal.{IsPath, validate_subject_path_iff}
use codex_claude_author_crit.Paths.Glob.{
  ComponentMatch, Matches, component_glob_match, component_glob_match_iff,
}
use codex_claude_author_crit.Paths.Policy.{
  PathPolicy, protected, is_git_path, matches_any, classify,
}
use codex_claude_author_crit.Paths.Policy.Protection.{is_git_path-elem, classify_protected_iff}

exit_status-zero_example :
    (exit_status (exit_code_for StopReason.stalled) ≡ 0) ↔ (StopReason.stalled ≡ converged)
exit_status-zero_example = exit_status-zero StopReason.stalled

abbrev overflow : Failure
overflow = record { reason = StopReason.agent_output_limit; detail = "too long"; now = pos 5 }

abbrev deadline : Failure
deadline = record { reason = StopReason.wall_clock_deadline_exceeded; detail = "late"; now = pos 9 }

latch_all_first_example :
    latch_all (overflow ∷ deadline ∷ []) new_latch
    ≡ ok (record { first = some overflow; secondary = deadline ∷ [] })
unfolding is_non_fatal
latch_all_first_example =
    latch_all_first overflow (deadline ∷ []) (refl, omega arith) ((refl, omega arith), tt)

abbrev approved : RoundObservation
approved = record {
  round_count = 2;
  max_rounds = 3;
  all_validations_pass = true;
  semantic_deltas_visible = true;
  evidence_approval_eligible = true;
  critic_verdict = some lgtm;
  critic_completed_at = some (pos 8);
  monotonic_deadline = pos 10;
  repeated_non_success_state = false;
}

abbrev latched : FatalLatch
latched = record { first = some overflow; secondary = [] }

decide-MeetsContract_example : Returns (λ r. MeetsContract r.0) (decide approved new_latch)
unfolding observe_round
decide-MeetsContract_example = decide-MeetsContract approved new_latch refl

decide_fatal_first_example :
    Returns
      (λ r. (r.0.action ≡ stop) × (r.0.reason ≡ some overflow.reason) × (r.1.first ≡ some overflow))
      (decide approved latched)
unfolding observe_round
decide_fatal_first_example = decide_fatal_first approved latched overflow refl refl

decide-Converged_iff_example : Returns (Converged approved new_latch) (decide approved new_latch)
unfolding observe_round
decide-Converged_iff_example = decide-Converged_iff approved new_latch refl tt

decide_continue_example :
    Returns
      (λ r.
        r.0.action ≡ continue
        → (approved.round_count < approved.max_rounds)
          × (new_latch.first ≡ none)
          × (r.1.first ≡ none)
          × (approved.critic_verdict ≢ some blocked)
          × (approved.repeated_non_success_state ≡ false))
      (decide approved new_latch)
unfolding observe_round
decide_continue_example = decide_continue approved new_latch refl

decide-HoldsFatal_example : Returns (λ r. HoldsFatal r.1.first) (decide approved latched)
unfolding observe_round is_non_fatal
decide-HoldsFatal_example = decide-HoldsFatal approved latched refl refl

validate_subject_path_iff_example :
    (validate_subject_path (codes "src/a.py") ≡ ok tt) ↔ IsPath (codes "src/a.py")
validate_subject_path_iff_example = validate_subject_path_iff (codes "src/a.py")

-- A component matches the pattern that it equals.
abbrev exact : ComponentMatch
exact = record { fnmatchcase = λ c p. c == p }

component_glob_match_iff_example :
    (component_glob_match ⦃m = exact⦄ (codes "src/x/a") (codes "src/**/a") ≡ true)
    ↔ Matches ⦃m = exact⦄ (split slash (codes "src/**/a")) (split slash (codes "src/x/a"))
component_glob_match_iff_example =
    component_glob_match_iff ⦃m = exact⦄ (codes "src/x/a") (codes "src/**/a")

is_git_path-elem_example :
    is_git_path (codes "a/.git/x") ≡ elem (codes ".git") (split slash (codes "a/.git/x"))
is_git_path-elem_example = is_git_path-elem (codes "a/.git/x")

abbrev policy : PathPolicy
policy = record {
  protected_patterns = codes "keys/**" ∷ [];
  discard_only_patterns = codes "out/**" ∷ [];
  opaque_nonsemantic_patterns = [];
  protected_opt_in_patterns = [];
}

classify_protected_iff_example : (classify ⦃m = exact⦄ policy (codes "keys/a") ≡ ok protected) ↔ (
    (elem (codes ".git") (split slash (codes "keys/a")) ≡ true)
    ⊎ ((matches_any ⦃m = exact⦄ (codes "keys/a") policy.protected_patterns ≡ true)
        × (matches_any ⦃m = exact⦄ (codes "keys/a") policy.protected_opt_in_patterns ≡ false)))
unfolding validate_subject_path list_beq
classify_protected_iff_example = classify_protected_iff ⦃m = exact⦄ policy (codes "keys/a") refl
