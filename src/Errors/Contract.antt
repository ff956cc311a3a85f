-- ===== src/Errors/Contract.antt =====
-- The exit contract of errors.py.
use codex_claude_author_crit.Prelude.{◌≡◌, ◌↔◌, arith}
use codex_claude_author_crit.Errors.{StopReason, converged, exit_status, exit_code_for}

-- The process exits with status 0 exactly when the stop reason is convergence.
pub exit_status-zero : (r : StopReason) → (exit_status (exit_code_for r) ≡ 0) ↔ (r ≡ converged)
unfolding exit_status exit_code_for
exit_status-zero r = grind arith
