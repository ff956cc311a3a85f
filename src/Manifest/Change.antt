-- ===== src/Manifest/Change.antt =====
-- `ManifestChange` of models.py, and `classify_change`.
use codex_claude_author_crit.Prelude.{
  Bool, true, false, Option, none, some, List, [], ◌∷◌, ◌==◌, ◌&&◌, not, any, all, list_eq, nat_eq,
  ok, value_error, ◌>>=◌, ◌>>◌, raise_if, if◌then◌else◌,
}
use codex_claude_author_crit.Prelude.Bytes.{Bytes}
use codex_claude_author_crit.Errors.{Outcome}
use codex_claude_author_crit.Paths.Glob.{ComponentMatch}
use codex_claude_author_crit.Paths.Policy.{
  PathPolicy, PathDisposition, protected, discard_only, opaque_nonsemantic, semantic, classify,
}
use codex_claude_author_crit.Manifest.Entry.{
  ManifestEntry, entry_eq, identity_without_path, identity_eq,
}

pub data ChangeKind : Type 0 where
  create delete modify rename : ChangeKind

pub record ManifestChange : Type 0 where
  pub kind : ChangeKind
  pub before : Option ManifestEntry
  pub after : Option ManifestEntry

-- `ManifestChange.__post_init__`, on its three fields: whether it raises nothing.
unfoldable pub fits : ChangeKind → Option ManifestEntry → Option ManifestEntry → Bool
fits create none (some a) = true
fits delete (some b) none = true
fits modify (some b) (some a) = b.path == a.path && not (b == a)
fits rename (some b) (some a) =
    not (b.path == a.path) && identity_without_path b == identity_without_path a
fits _ _ _ = false

unfoldable pub manifest_change : ManifestChange → Outcome ManifestChange
unfolding fits
manifest_change c = do raise_if (not (fits c.kind c.before c.after)) value_error; ok c

-- `ManifestChange.paths`; without an entry, which `__post_init__` refuses, there is none.
unfoldable pub entry_paths : Option ManifestEntry → Option ManifestEntry → List Bytes
entry_paths none none = []
entry_paths none (some a) = a.path ∷ []
entry_paths (some b) none = b.path ∷ []
entry_paths (some b) (some a) = if b.path == a.path then b.path ∷ [] else b.path ∷ a.path ∷ []

unfoldable pub paths : ManifestChange → List Bytes
unfolding entry_paths
paths c = entry_paths c.before c.after

unfoldable pub is_protected : PathDisposition → Bool
is_protected protected = true
is_protected _ = false

unfoldable pub is_discard : PathDisposition → Bool
is_discard discard_only = true
is_discard _ = false

unfoldable pub is_opaque : PathDisposition → Bool
is_opaque opaque_nonsemantic = true
is_opaque _ = false

module _ ⦃m : ComponentMatch⦄ where
  -- The disposition of each path, the first that raises ending the call.
  unfoldable pub classify_each : PathPolicy → List Bytes → Outcome (List PathDisposition)
  classify_each policy [] = ok []
  classify_each policy (p ∷ ps) = do
    d ← classify policy p
    ds ← classify_each policy ps
    ok (d ∷ ds)

  -- `dispositions == {d}` for a set that came from `ds`.
  only : (PathDisposition → Bool) → List PathDisposition → Bool
  unfolding all
  only test [] = false
  only test (d ∷ ds) = test d && all test ds

  unfoldable pub classify_change : PathPolicy → ManifestChange → Outcome PathDisposition
  unfolding classify_each paths only is_protected is_discard is_opaque any
  classify_change policy c = do
    ds ← classify_each policy (paths c)
    ok (
        if any is_protected ds
        then protected
        else if only is_discard ds
        then discard_only
        else if only is_opaque ds
        then opaque_nonsemantic
        else semantic)
