-- ===== src/Manifest/Scan.antt =====
-- `build_manifest_from_scan` of manifests.py.
use codex_claude_author_crit.Prelude.{
  ℕ, String, ◌+◌, none, some, List, [], ◌∷◌, ◌==◌, not, length, ltb, string_eq, ok, value_error,
  ◌>>=◌, ◌>>◌, raise_if,
}
use codex_claude_author_crit.Prelude.Bytes.{Bytes, slash, split}
use codex_claude_author_crit.Prelude.Int.{pos}
use codex_claude_author_crit.Errors.{Outcome}
use codex_claude_author_crit.Manifest.Entry.{
  Digest, ManifestEntry, EntryKind, regular, symlink, manifest_entry, symlink_entry, ScanRecord,
}
use codex_claude_author_crit.Manifest.Limits.{Limits}
use codex_claude_author_crit.Manifest.Subject.{SubjectManifest, build}

-- `BlobWriter.put_blob` on a store.
pub record BlobWriter (Store : Type 0) : Type 0 where
  pub put_blob : Bytes → Store → Outcome (String × Store)

-- The first loop: `count` records have been taken, of `total` payload bytes.
check_records : Limits → ℕ → ℕ → List ScanRecord → Outcome (Unit {0})
check_records l count total [] = ok tt
check_records l count total (r ∷ rs) = do
  raise_if (ltb l.max_files (count + 1)) value_error
  raise_if (ltb l.max_path_bytes (length r.path)) value_error
  raise_if (ltb l.max_path_depth (length (split slash r.path))) value_error
  raise_if (ltb l.max_file_bytes (length r.payload)) value_error
  raise_if (ltb l.max_total_subject_bytes (total + length r.payload)) value_error
  check_records l (count + 1) (total + length r.payload) rs

module _ ⦃d : Digest⦄ {Store : Type 0} (writer : BlobWriter Store) where
  regular_entry : ScanRecord → Outcome ManifestEntry
  unfolding manifest_entry
  regular_entry r = manifest_entry (record {
    path = r.path;
    kind = regular;
    mode = r.mode;
    size = some (pos (length r.payload));
    blob_sha256 = some (d.sha256_hex r.payload);
    symlink_target = none;
    target_sha256 = none;
  })

  -- The body of the second loop.
  entry_of : EntryKind → ScanRecord → Store → Outcome (ManifestEntry × Store)
  unfolding regular_entry
  entry_of regular r s = do
    (observed, s') ← writer.put_blob r.payload s
    raise_if (not (observed == d.sha256_hex r.payload)) value_error
    e ← regular_entry r
    ok (e, s')
  entry_of symlink r s = do e ← symlink_entry r.path r.payload; ok (e, s)

  entries_of : List ScanRecord → Store → Outcome (List ManifestEntry × Store)
  unfolding entry_of
  entries_of [] s = ok ([], s)
  entries_of (r ∷ rs) s = do
    (e, s') ← entry_of r.kind r s
    (es, s'') ← entries_of rs s'
    ok (e ∷ es, s'')

  unfoldable pub build_manifest_from_scan :
      Limits → List ScanRecord → Store → Outcome (SubjectManifest × Store)
  unfolding check_records entries_of
  build_manifest_from_scan l records s = do
    check_records l 0 0 records
    (es, s') ← entries_of records s
    m ← build l es
    ok (m, s')
