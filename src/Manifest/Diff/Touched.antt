-- ===== src/Manifest/Diff/Touched.antt =====
-- The delta is exact: it touches a path exactly when the path's entry differs.
use codex_claude_author_crit.Prelude.{
  ◌≡◌, sym, ◌∙◌, ap, Bool, true, Option, none, some, List, [], ◌∷◌, ◌==◌, ◌&&◌, ◌||◌, not, map, ok,
  elem, any-append, option_eq, option_beq, list_eq, nat_eq, arith, >>=-eq-ok,
}
use codex_claude_author_crit.Prelude.Bytes.{Bytes}
use codex_claude_author_crit.Prelude.Dict.{get}
use codex_claude_author_crit.Prelude.Sorting.{sorted}
use codex_claude_author_crit.Prelude.Sorting.Laws.{any-sorted}
use codex_claude_author_crit.Manifest.Entry.{ManifestEntry, entry_eq}
use codex_claude_author_crit.Manifest.Change.{ManifestChange, manifest_change, paths}
use codex_claude_author_crit.Manifest.Subject.{SubjectManifest}
use codex_claude_author_crit.Manifest.Diff.{
  by_path, shared_keys, missing_keys, modifications, entries_at, group, pair, renamed, deleted,
  raw_delta, change_lt, check_changes, diff_manifests,
}
use codex_claude_author_crit.Manifest.Diff.Keyed.{
  by_path-IsKeyed, has_value, holds, touches, differs, elem-shared_keys, elem-missing_keys,
  holds-entries_at, touches-modifications,
}
use codex_claude_author_crit.Manifest.Diff.Pairs.{
  has_before, has_after, pair-Removed, has_after-holds, touches-renamed, touches-deleted,
  elem-after, touches-created,
}

-- The entry of a manifest at a path.
abbrev pub entry_at : SubjectManifest → Bytes → Option ManifestEntry
entry_at m p = get p (by_path m.entries)

-- The five facts of one path meet.
combine :
    (b a : Option ManifestEntry) (starts left ends : Bool)
    → (starts || left) ≡ (not (has_value a) && has_value b && has_value b)
    → (ends ≡ true → (not (has_value b) && has_value a && has_value a) ≡ true)
    → ((has_value a && has_value b && differs b a)
        || ((starts || ends)
            || (left || (not ends && (not (has_value b) && has_value a && has_value a)))))
      ≡ not (b == a)
unfolding option_beq
combine none none starts left ends h k = ground arith
combine none (some y) starts left ends h k = ground arith
combine (some x) none starts left ends h k = ground arith
combine (some x) (some y) starts left ends h k = ground arith

module _ (base candidate : SubjectManifest) (p : Bytes) where
  touches-raw_delta :
      touches p (raw_delta base candidate) ≡ not (entry_at base p == entry_at candidate p)
  unfolding raw_delta
  touches-raw_delta =
      let b = by_path base.entries in
      let c = by_path candidate.entries in
      let removed = entries_at b (missing_keys b c) in
      let added = entries_at c (missing_keys c b) in
      let rs = pair removed (group added []) in
      let f : ManifestChange → Bool = λ x. elem p (paths x) in
      let starts = pair-Removed p removed (group added []) in
      let at_removed = holds-entries_at p b (missing_keys b c) (by_path-IsKeyed base.entries) in
      let at_added = holds-entries_at p c (missing_keys c b) (by_path-IsKeyed candidate.entries) in
      rw
        (
          any-append f (modifications b c (shared_keys b c)),
          any-append f (map (λ r. renamed r.0 r.1) rs.renames),
          any-append f (map deleted rs.unpaired),
          touches-modifications p b c (shared_keys b c) (by_path-IsKeyed base.entries)
              (by_path-IsKeyed candidate.entries),
          touches-renamed p rs.renames,
          touches-deleted p rs.unpaired,
          touches-created p (map (λ r. r.1.path) rs.renames) added,
          elem-after p rs.renames,
          elem-shared_keys p b c,
          at_added,
          elem-missing_keys p c b,
        )
        (combine (get p b) (get p c) (has_before p rs.renames) (holds p rs.unpaired)
          (has_after p rs.renames)
          (starts ∙ at_removed ∙ ap (λ t. t && has_value (get p b)) (elem-missing_keys p b c))
          (λ h.
            sym (at_added ∙ ap (λ t. t && has_value (get p c)) (elem-missing_keys p c b))
            ∙ has_after-holds p removed added h))

check_changes_same :
    (cs : List ManifestChange) {cs' : List ManifestChange} → check_changes cs ≡ ok cs' → cs' ≡ cs
unfolding check_changes manifest_change
check_changes_same [] h = ground arith
check_changes_same (c ∷ cs) h =
    let (c', e, h') = >>=-eq-ok (manifest_change c) _ h in
    let (rest, e', h'') = >>=-eq-ok (check_changes cs) _ h' in
    ground (arith, e, h'', check_changes_same cs e')

diff_sorted :
    (base candidate : SubjectManifest) {delta : List ManifestChange}
    → diff_manifests base candidate ≡ ok delta
    → delta ≡ sorted change_lt (raw_delta base candidate)
unfolding diff_manifests
diff_sorted base candidate h =
    let (cs, e, h') = >>=-eq-ok (check_changes (raw_delta base candidate)) _ h in
    ground (arith, check_changes_same (raw_delta base candidate) e, h')

-- When a delta is returned, it touches a path exactly when the entries of the two manifests at the
-- path differ (one may be missing): nothing that changed is left out, nothing unchanged is in.
pub diff_manifests-touches :
    (base candidate : SubjectManifest) {delta : List ManifestChange} (p : Bytes)
    → diff_manifests base candidate ≡ ok delta
    → touches p delta ≡ not (entry_at base p == entry_at candidate p)
diff_manifests-touches base candidate p h =
    ap (touches p) (diff_sorted base candidate h)
    ∙ any-sorted change_lt (λ c. elem p (paths c)) (raw_delta base candidate)
    ∙ touches-raw_delta base candidate p
