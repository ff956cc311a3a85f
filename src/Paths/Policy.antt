-- ===== src/Paths/Policy.antt =====
-- `PathPolicy` of models.py: what may be done with a path.
pub mod Protection
use codex_claude_author_crit.Prelude.{
  ℕ, Bool, true, false, List, [], ◌∷◌, ◌++◌, ◌==◌, ◌&&◌, ◌||◌, not, any, all, unique, length, ltb,
  nat_eq, list_eq, ok, value_error, if◌then◌else◌, ◌>>=◌, ◌>>◌, raise_if, elem, ◌*◌,
}
use codex_claude_author_crit.Prelude.Bytes.{
  Bytes, codes, slash, starts_with, ends_with, contains, split,
}
use codex_claude_author_crit.Errors.{Outcome}
use codex_claude_author_crit.Paths.{is_special, validate_subject_path}
use codex_claude_author_crit.Paths.Glob.{ComponentMatch, component_glob_match}

pub data PathDisposition : Type 0 where
  protected discard_only opaque_nonsemantic semantic : PathDisposition

-- `DEFAULT_MAX_PATH_BYTES`, `DEFAULT_MAX_PATH_DEPTH`, `_MAX_PATH_POLICY_PATTERNS`
abbrev max_pattern_bytes : ℕ
max_pattern_bytes = 4096

abbrev max_pattern_depth : ℕ
max_pattern_depth = 128

abbrev max_path_policy_patterns : ℕ
max_path_policy_patterns = 256

unfoldable pub validate_pattern : Bytes → Outcome (Unit {0})
unfolding is_special any elem starts_with split
validate_pattern pattern = do
  raise_if (pattern == [] || starts_with pattern (slash ∷ []) || elem 0 pattern) value_error
  let components = split slash pattern
  raise_if (any is_special components) value_error
  raise_if (ltb max_pattern_bytes (length pattern) || ltb max_pattern_depth (length components))
      value_error

pub record PathPolicy : Type 0 where
  pub protected_patterns : List Bytes
  pub discard_only_patterns : List Bytes
  pub opaque_nonsemantic_patterns : List Bytes
  pub protected_opt_in_patterns : List Bytes

validate_each : List Bytes → Outcome (Unit {0})
unfolding validate_pattern
validate_each [] = ok tt
validate_each (p ∷ ps) = do validate_pattern p; validate_each ps

pub validate_patterns : List Bytes → Outcome (Unit {0})
unfolding validate_each unique
validate_patterns patterns = do
  raise_if (ltb max_path_policy_patterns (length patterns)) value_error
  validate_each patterns
  raise_if (not (unique patterns)) value_error

-- `PathPolicy.__post_init__`
unfoldable pub path_policy : PathPolicy → Outcome PathPolicy
unfolding validate_patterns
path_policy p = do
  validate_patterns p.protected_patterns
  validate_patterns p.discard_only_patterns
  validate_patterns p.opaque_nonsemantic_patterns
  validate_patterns p.protected_opt_in_patterns
  ok p

-- The tests for a Git control directory anywhere in the path.
unfoldable pub is_git_path : Bytes → Bool
unfolding starts_with ends_with contains
is_git_path path =
    path == codes ".git"
    || starts_with path (codes ".git/")
    || ends_with path (codes "/.git")
    || contains path (codes "/.git/")

module _ ⦃m : ComponentMatch⦄ where
  unfoldable pub path_matches_pattern : Bytes → Bytes → Outcome Bool
  path_matches_pattern path pattern = do
    validate_subject_path path
    validate_pattern pattern
    ok (component_glob_match path pattern)

  unfoldable pub matches_any : Bytes → List Bytes → Bool
  unfolding any
  matches_any path patterns = any (component_glob_match path) patterns

  -- `_matches`, which validates the path first
  pub matches : Bytes → List Bytes → Outcome Bool
  unfolding matches_any
  matches path patterns = do validate_subject_path path; ok (matches_any path patterns)

  unfoldable pub classify : PathPolicy → Bytes → Outcome PathDisposition
  unfolding matches is_git_path
  classify policy path = do
    validate_subject_path path
    if is_git_path path then ok protected else do
      opted_in ← matches path policy.protected_opt_in_patterns
      is_protected ← matches path policy.protected_patterns
      if is_protected && not opted_in then ok protected else do
        discarded ← matches path policy.discard_only_patterns
        if discarded then ok discard_only else do
          is_opaque ← matches path policy.opaque_nonsemantic_patterns
          ok (if is_opaque then opaque_nonsemantic else semantic)
