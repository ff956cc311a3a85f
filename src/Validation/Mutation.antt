-- ===== src/Validation/Mutation.antt =====
-- `verify_validation_mutation` of validation.py.
use codex_claude_author_crit.Prelude.{
  ◌≡◌, ◌≢◌, Bool, true, false, List, [], ◌∷◌, ◌++◌, ◌&&◌, not, all, any, elem, list_eq, nat_eq,
  option_eq, option_beq_iff, list_beq_iff, ok, ◌>>=◌, ◌>>◌, fail_if, >>=-eq-ok, arith,
  if◌then◌else◌,
}
use codex_claude_author_crit.Prelude.Bytes.{Bytes, bytes_lt}
use codex_claude_author_crit.Prelude.Sorting.{sorted}
use codex_claude_author_crit.Errors.{Outcome, StopReason}
use codex_claude_author_crit.Paths.Glob.{ComponentMatch}
use codex_claude_author_crit.Paths.Policy.{PathPolicy, PathDisposition, discard_only, classify}
use codex_claude_author_crit.Manifest.Entry.{entry_eq}
use codex_claude_author_crit.Manifest.Change.{ManifestChange, paths, is_discard, classify_each}
use codex_claude_author_crit.Manifest.Subject.{SubjectManifest}
use codex_claude_author_crit.Manifest.Diff.{diff_manifests}
use codex_claude_author_crit.Manifest.Diff.Keyed.{touches}
use codex_claude_author_crit.Manifest.Diff.Touched.{entry_at, diff_manifests-touches}

has_paths : List Bytes → Bool
has_paths [] = false
has_paths (_ ∷ _) = true

-- `set(allowed)`, as a list with no item twice.
distinct : List Bytes → List Bytes
unfolding elem
distinct [] = []
distinct (p ∷ ps) = let rest = distinct ps in if elem p rest then rest else p ∷ rest

module _ ⦃m : ComponentMatch⦄ (policy : PathPolicy) where
  unfoldable pub allowed_paths : List ManifestChange → Outcome (List Bytes)
  unfolding has_paths all is_discard
  allowed_paths [] = ok []
  allowed_paths (c ∷ cs) = do
    ds ← classify_each policy (paths c)
    fail_if (not (has_paths (paths c) && all is_discard ds)) StopReason.validation_mutated_subject
    rest ← allowed_paths cs
    ok (paths c ++ rest)

  unfoldable pub verify_validation_mutation :
      SubjectManifest → SubjectManifest → Outcome (List Bytes)
  unfolding allowed_paths distinct
  verify_validation_mutation subject result_manifest = do
    changes ← diff_manifests subject result_manifest
    allowed ← allowed_paths changes
    ok (sorted bytes_lt (distinct allowed))

  classify_each_discard :
      (p : Bytes) (ps : List Bytes) {ds : List PathDisposition}
      → classify_each policy ps ≡ ok ds
      → all is_discard ds ≡ true
      → elem p ps ≡ true
      → classify policy p ≡ ok discard_only
  unfolding classify_each all is_discard elem
  classify_each_discard p [] e d i = cc
  classify_each_discard p (q ∷ ps) e d i =
      let (x, e', rest) = >>=-eq-ok (classify policy q) _ e in
      let (ds', e'', last) = >>=-eq-ok (classify_each policy ps) _ rest in
      ground (arith, list_beq_iff q p, classify_each_discard p ps e'', e', last)

  allowed_paths_discard :
      (p : Bytes) (cs : List ManifestChange) {allowed : List Bytes}
      → allowed_paths cs ≡ ok allowed
      → touches p cs ≡ true
      → classify policy p ≡ ok discard_only
  unfolding allowed_paths any
  allowed_paths_discard p [] e i = cc
  allowed_paths_discard p (c ∷ cs) e i =
      let (ds, e1, e2) = >>=-eq-ok (classify_each policy (paths c)) _ e in
      let (u, e3, e4) =
        >>=-eq-ok
          (fail_if (not (has_paths (paths c) && all is_discard ds))
            StopReason.validation_mutated_subject)
          _ e2 in
      let (rest, e5, e6) = >>=-eq-ok (allowed_paths cs) _ e4 in
      ground (arith, classify_each_discard p (paths c) e1, allowed_paths_discard p cs e5, e3, i)

  -- When the check passes, the manifest after the validation has the subject's entry, or none as
  -- the subject, at every path that is not discard-only.
  pub verify_validation_mutation_keeps :
      (subject result_manifest : SubjectManifest) {allowed : List Bytes} (p : Bytes)
      → verify_validation_mutation subject result_manifest ≡ ok allowed
      → classify policy p ≢ ok discard_only
      → entry_at result_manifest p ≡ entry_at subject p
  unfolding verify_validation_mutation
  verify_validation_mutation_keeps subject result_manifest p h c =
      let (delta, e1, e2) = >>=-eq-ok (diff_manifests subject result_manifest) _ h in
      let (allowed, e3, e4) = >>=-eq-ok (allowed_paths delta) _ e2 in
      ground (
        arith,
        c,
        diff_manifests-touches subject result_manifest p e1,
        allowed_paths_discard p delta e3,
        option_beq_iff (entry_at subject p) (entry_at result_manifest p),
      )
