-- ===== src/Manifest/Subject.antt =====
-- `SubjectManifest` of manifests.py: its checks, `build` and `validate_limits`.
pub mod Shape
use codex_claude_author_crit.Prelude.{
  ℕ, ◌+◌, Bool, true, false, Option, none, some, List, [], ◌∷◌, ◌==◌, ◌&&◌, ◌||◌, not, any, elem,
  unique, length, map, nat_eq, list_eq, ltb, ok, throw, value_error, assertion_error, ◌>>=◌, ◌>>◌,
  raise_if, if◌then◌else◌,
}
use codex_claude_author_crit.Prelude.Bytes.{Bytes, slash, split, bytes_lt}
use codex_claude_author_crit.Prelude.Bytes.Order.{ancestors}
use codex_claude_author_crit.Prelude.Int.{ℤ, pos, ◌+ℤ◌, ltb_ℤ}
use codex_claude_author_crit.Prelude.Sorting.{sorted}
use codex_claude_author_crit.Errors.{Outcome}
use codex_claude_author_crit.Manifest.Entry.{ManifestEntry, EntryKind, regular, symlink}
use codex_claude_author_crit.Manifest.Limits.{Limits}

pub record SubjectManifest : Type 0 where
  pub entries : List ManifestEntry
  pub schema_version : ℕ

abbrev pub subject_schema_version : ℕ
subject_schema_version = 1

abbrev pub entry_paths : List ManifestEntry → List Bytes
entry_paths = map (λ e. e.path)

-- The loop over `paths` with the set `seen`: no ancestor of a path has been seen.
unfoldable pub check_nesting : List Bytes → List Bytes → Outcome (Unit {0})
unfolding any elem
check_nesting seen [] = ok tt
check_nesting seen (p ∷ ps) =
    if any (λ a. elem a seen) (ancestors slash (split slash p))
    then throw value_error
    else check_nesting (p ∷ seen) ps

-- `SubjectManifest.__post_init__`
unfoldable pub subject_manifest : SubjectManifest → Outcome SubjectManifest
unfolding check_nesting unique
subject_manifest m = do
  raise_if (not (m.schema_version == subject_schema_version)) value_error
  let ps = entry_paths m.entries
  raise_if (not (ps == sorted bytes_lt ps)) value_error
  raise_if (not (unique ps)) value_error
  check_nesting [] ps
  ok m

-- What one entry adds to `total_bytes`.
entry_bytes : EntryKind → Limits → Option ℤ → Option Bytes → Outcome ℤ
entry_bytes regular l none target = throw assertion_error
entry_bytes regular l (some size) target = do
  raise_if (ltb_ℤ (pos l.max_file_bytes) size) value_error
  ok size
entry_bytes symlink l size none = throw assertion_error
entry_bytes symlink l size (some target) = do
  raise_if (ltb l.max_path_bytes (length target)) value_error
  ok (pos (length target))

check_entries : Limits → ℤ → List ManifestEntry → Outcome (Unit {0})
unfolding entry_bytes
check_entries l total [] = ok tt
check_entries l total (e ∷ es) = do
  raise_if (ltb l.max_path_bytes (length e.path)) value_error
  raise_if (ltb l.max_path_depth (length (split slash e.path))) value_error
  n ← entry_bytes e.kind l e.size e.symlink_target
  raise_if (ltb_ℤ (pos l.max_total_subject_bytes) (total +ℤ n)) value_error
  check_entries l (total +ℤ n) es

unfoldable pub validate_limits : Limits → SubjectManifest → Outcome (Unit {0})
unfolding check_entries
validate_limits l m = do
  raise_if (ltb l.max_files (length m.entries)) value_error
  check_entries l (pos 0) m.entries

-- The sort key is the path.
abbrev pub path_lt : ManifestEntry → ManifestEntry → Bool
path_lt a b = bytes_lt a.path b.path

-- `SubjectManifest.build`, the limits given.
unfoldable pub build : Limits → List ManifestEntry → Outcome SubjectManifest
unfolding subject_manifest validate_limits
build l es = do
  m ←
      subject_manifest
        (record { entries = sorted path_lt es; schema_version = subject_schema_version })
  validate_limits l m
  ok m
