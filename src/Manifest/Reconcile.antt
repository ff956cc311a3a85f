-- ===== src/Manifest/Reconcile.antt =====
-- `reconcile_candidate` of manifests.py.
pub mod Safety
use codex_claude_author_crit.Prelude.{
  ℕ, Bool, true, false, List, [], ◌∷◌, ◌++◌, any, not, ok, fail, ◌>>=◌, ◌>>◌, fail_if,
  if◌then◌else◌,
}
use codex_claude_author_crit.Prelude.Bytes.{Bytes}
use codex_claude_author_crit.Errors.{Outcome, StopReason}
use codex_claude_author_crit.Paths.Glob.{ComponentMatch}
use codex_claude_author_crit.Paths.Policy.{
  PathPolicy, PathDisposition, opaque_nonsemantic, semantic, classify,
}
use codex_claude_author_crit.Manifest.Entry.{ManifestEntry}
use codex_claude_author_crit.Manifest.Change.{
  ManifestChange, paths, is_protected, is_discard, classify_each, classify_change,
}
use codex_claude_author_crit.Manifest.Limits.{Limits}
use codex_claude_author_crit.Manifest.Subject.{SubjectManifest, build}
use codex_claude_author_crit.Manifest.Diff.{diff_manifests}

pub record ReconciliationResult : Type 0 where
  pub candidate_delta : List ManifestChange
  pub authoritative_manifest : SubjectManifest
  pub authoritative_delta : List ManifestChange
  pub semantic_changes : List ManifestChange
  pub opaque_changes : List ManifestChange
  pub discarded_changes : List ManifestChange

module _ ⦃m : ComponentMatch⦄ (policy : PathPolicy) where
  -- The protection loop over the unfiltered delta.
  unfoldable pub check_protection : List ManifestChange → Outcome (Unit {0})
  unfolding any is_protected
  check_protection [] = ok tt
  check_protection (c ∷ cs) = do
    ds ← classify_each policy (paths c)
    fail_if (any is_protected ds) StopReason.protected_subject_path_changed
    check_protection cs

  -- The entries that are not discard-only.
  unfoldable pub retained : List ManifestEntry → Outcome (List ManifestEntry)
  unfolding is_discard
  retained [] = ok []
  retained (e ∷ es) = do
    d ← classify policy e.path
    rest ← retained es
    ok (if is_discard d then rest else e ∷ rest)

  sort_change :
      PathDisposition
      → ManifestChange
      → List ManifestChange × List ManifestChange
      → List ManifestChange × List ManifestChange
  sort_change semantic c (meant, passed) = (c ∷ meant, passed)
  sort_change opaque_nonsemantic c (meant, passed) = (meant, c ∷ passed)
  sort_change _ c r = r

  -- The semantic and the opaque changes of the authoritative delta, each in its order.
  unfoldable pub sort_changes :
      List ManifestChange → Outcome (List ManifestChange × List ManifestChange)
  unfolding sort_change
  sort_changes [] = ok ([], [])
  sort_changes (c ∷ cs) = do
    d ← classify_change policy c
    r ← sort_changes cs
    ok (sort_change d c r)

  -- The changes with a discard-only path. `any` stops at the first, and no classification after it
  -- can raise, since a change has valid paths.
  unfoldable pub discarded : List ManifestChange → Outcome (List ManifestChange)
  unfolding any is_discard
  discarded [] = ok []
  discarded (c ∷ cs) = do
    ds ← classify_each policy (paths c)
    rest ← discarded cs
    ok (if any is_discard ds then c ∷ rest else rest)

  unfoldable pub reconcile_candidate :
      SubjectManifest → SubjectManifest → Limits → Outcome ReconciliationResult
  unfolding check_protection retained sort_changes discarded
  reconcile_candidate base candidate l = do
    candidate_delta ← diff_manifests base candidate
    check_protection candidate_delta
    kept ← retained candidate.entries
    authoritative ← build l kept
    authoritative_delta ← diff_manifests base authoritative
    (meant, passed) ← sort_changes authoritative_delta
    dropped ← discarded candidate_delta
    ok (record {
      candidate_delta = candidate_delta;
      authoritative_manifest = authoritative;
      authoritative_delta = authoritative_delta;
      semantic_changes = meant;
      opaque_changes = passed;
      discarded_changes = dropped;
    })
