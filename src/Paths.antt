-- ===== src/Paths.antt =====
-- The subject paths of models.py: normalized relative paths, as bytes.
pub mod Normal
pub mod Glob
pub mod Policy
use codex_claude_author_crit.Prelude.{
  ℕ, Bool, List, [], ◌∷◌, ◌==◌, ◌||◌, any, elem, nat_eq, list_eq, ok, value_error, ◌>>=◌, ◌>>◌,
  raise_if,
}
use codex_claude_author_crit.Prelude.Bytes.{Bytes, codes, slash, starts_with, split}
use codex_claude_author_crit.Errors.{Outcome}

-- `component in {b"", b".", b".."}`
pub is_special : Bytes → Bool
is_special c = c == [] || c == codes "." || c == codes ".."

-- `validate_subject_path`: it returns nothing, or raises.
unfoldable pub validate_subject_path : Bytes → Outcome (Unit {0})
unfolding is_special any elem starts_with split
validate_subject_path path = do
  raise_if (path == []) value_error
  raise_if (starts_with path (slash ∷ [])) value_error
  raise_if (elem 0 path) value_error
  raise_if (any is_special (split slash path)) value_error
