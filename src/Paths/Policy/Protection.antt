-- ===== src/Paths/Policy/Protection.antt =====
-- Protection is decided before omission, and a Git control directory is always protected.
use codex_claude_author_crit.Prelude.{
  ◌≡◌, ◌↔◌, refl, true, false, elem, list_eq, nat_eq, arith, ok, ◌⊎◌,
}
use codex_claude_author_crit.Prelude.Bytes.{Bytes, codes, slash, split}
use codex_claude_author_crit.Prelude.Bytes.Components.{elem-split}
use codex_claude_author_crit.Paths.{validate_subject_path}
use codex_claude_author_crit.Paths.Glob.{ComponentMatch}
use codex_claude_author_crit.Paths.Policy.{
  PathPolicy, protected, is_git_path, matches_any, classify,
}

-- The four tests on the text of a path together say whether one of its components is `.git`.
pub is_git_path-elem : (path : Bytes) → is_git_path path ≡ elem (codes ".git") (split slash path)
unfolding is_git_path elem
is_git_path-elem path = ground (arith, elem-split slash (codes ".git") path refl)

module _ ⦃m : ComponentMatch⦄ (policy : PathPolicy) (path : Bytes) where
  -- Whatever the policy, its opt-ins included, a valid path with a component `.git` is protected.
  pub classify_git :
      validate_subject_path path ≡ ok tt
      → elem (codes ".git") (split slash path) ≡ true
      → classify policy path ≡ ok protected
  unfolding classify
  classify_git h g = ground (arith, is_git_path-elem path)

  -- A valid path is classified `protected` exactly when it has a component `.git`, or matches a
  -- protected pattern and no opt-in.
  pub classify_protected_iff :
      validate_subject_path path ≡ ok tt
      → (classify policy path ≡ ok protected) ↔ (
          (elem (codes ".git") (split slash path) ≡ true)
          ⊎ ((matches_any path policy.protected_patterns ≡ true)
              × (matches_any path policy.protected_opt_in_patterns ≡ false)))
  unfolding classify
  classify_protected_iff h = ground (arith, is_git_path-elem path)
