-- ===== src/Tests/Subjects.antt =====
-- Manifests, their deltas and a reconciliation.
use codex_claude_author_crit.Manifest.Change.{classify_change}
use codex_claude_author_crit.Prelude.Int.{◌+ℤ◌}
use codex_claude_author_crit.Manifest.Subject.{build}
use codex_claude_author_crit.Paths.Glob.{component_glob_match}
use codex_claude_author_crit.Paths.{validate_subject_path}
use codex_claude_author_crit.Manifest.Change.{paths}
use codex_claude_author_crit.Manifest.Change.{classify_each}
use codex_claude_author_crit.Prelude.Int.{ℤ_beq}
use codex_claude_author_crit.Manifest.Entry.{entry_beq}
use codex_claude_author_crit.Prelude.Dict.{get}
use codex_claude_author_crit.Prelude.Dict.{put}
use codex_claude_author_crit.Prelude.Bytes.{split}
use codex_claude_author_crit.Prelude.Bytes.Order.{ancestors}
use codex_claude_author_crit.Prelude.Bytes.{bytes_lt}
use codex_claude_author_crit.Prelude.{
  String, ◌≡◌, refl, ◌≢◌, not, none, some, List, [], ◌∷◌, ◌==◌, nat_eq, list_eq, list_beq,
  option_eq, option_beq, All, ok, Returns, string_eq,
}
use codex_claude_author_crit.Prelude.Bytes.{Bytes, codes}
use codex_claude_author_crit.Prelude.Int.{pos}
use codex_claude_author_crit.Prelude.Sorting.{sorted}
use codex_claude_author_crit.Errors.{Outcome}
use codex_claude_author_crit.Paths.Glob.{ComponentMatch}
use codex_claude_author_crit.Paths.Policy.{
  PathPolicy, PathDisposition, protected, discard_only, semantic, classify,
}
use codex_claude_author_crit.Manifest.Entry.{Digest, ManifestEntry, regular, regular_mode, entry_eq}
use codex_claude_author_crit.Manifest.Limits.{default_limits}
use codex_claude_author_crit.Manifest.Subject.{SubjectManifest, subject_manifest}
use codex_claude_author_crit.Manifest.Subject.Shape.{IsWellFormed}
use codex_claude_author_crit.Manifest.Diff.{diff_manifests, created}
use codex_claude_author_crit.Manifest.Diff.Touched.{entry_at}
use codex_claude_author_crit.Manifest.Diff.Keyed.{touches}
use codex_claude_author_crit.Manifest.Diff.Total.{diff_manifests_exact}
use codex_claude_author_crit.Manifest.Blobs.{
  BlobReader, IsStored, verify_manifest_blobs, verify_manifest_blobs-IsStored,
}
use codex_claude_author_crit.Manifest.Reconcile.{ReconciliationResult, reconcile_candidate}
use codex_claude_author_crit.Manifest.Reconcile.Safety.{
  reconcile_candidate_protected, reconcile_candidate_published, reconcile_candidate_authoritative,
  reconcile_candidate_complete,
}
use codex_claude_author_crit.Validation.Mutation.{
  verify_validation_mutation, verify_validation_mutation_keeps,
}

abbrev exact : ComponentMatch
exact = record { fnmatchcase = λ c p. c == p }

abbrev policy : PathPolicy
policy = record {
  protected_patterns = codes "keys" ∷ [];
  discard_only_patterns = codes "out" ∷ [];
  opaque_nonsemantic_patterns = [];
  protected_opt_in_patterns = [];
}

abbrev file : Bytes → String → ManifestEntry
file path digest = record {
  path = path;
  kind = regular;
  mode = regular_mode;
  size = some (pos 1);
  blob_sha256 = some digest;
  symlink_target = none;
  target_sha256 = none;
}

abbrev manifest : List ManifestEntry → SubjectManifest
manifest es = record { entries = es; schema_version = 1 }

abbrev keys : ManifestEntry
keys = file (codes "keys") "1"

abbrev main : ManifestEntry
main = file (codes "main") "2"

abbrev log : ManifestEntry
log = file (codes "out") "3"

abbrev base : SubjectManifest
base = manifest (keys ∷ [])

abbrev candidate : SubjectManifest
candidate = manifest (keys ∷ main ∷ log ∷ [])

abbrev result : ReconciliationResult
result = record {
  candidate_delta = created main ∷ created log ∷ [];
  authoritative_manifest = manifest (keys ∷ main ∷ []);
  authoritative_delta = created main ∷ [];
  semantic_changes = created main ∷ [];
  opaque_changes = [];
  discarded_changes = created log ∷ [];
}

diff_manifests_exact_example :
    Returns
      (λ delta. (p : Bytes) → touches p delta ≡ not (entry_at base p == entry_at candidate p))
      (diff_manifests base candidate)
diff_manifests_exact_example = diff_manifests_exact base candidate

well_formed_candidate : subject_manifest candidate ≡ ok candidate
unfolding subject_manifest list_beq sorted bytes_lt ancestors split
well_formed_candidate = refl

reconciled : reconcile_candidate ⦃m = exact⦄ policy base candidate default_limits ≡ ok result
unfolding reconcile_candidate list_beq diff_manifests sorted put get entry_beq option_beq ℤ_beq
    classify_each paths classify validate_subject_path component_glob_match build ancestors ◌+ℤ◌
    classify_change
reconciled = refl

reconcile_candidate_protected_example :
    entry_at candidate (codes "keys") ≡ entry_at base (codes "keys")
unfolding reconcile_candidate classify list_beq validate_subject_path component_glob_match
reconcile_candidate_protected_example =
    reconcile_candidate_protected ⦃m = exact⦄ policy base candidate default_limits result
      (codes "keys") reconciled refl

reconcile_candidate_published_example :
    entry_at result.authoritative_manifest (codes "keys") ≡ entry_at base (codes "keys")
unfolding reconcile_candidate classify list_beq validate_subject_path component_glob_match
reconcile_candidate_published_example =
    reconcile_candidate_published ⦃m = exact⦄ policy base candidate default_limits result
      (codes "keys") reconciled refl

reconcile_candidate_authoritative_example :
    IsWellFormed result.authoritative_manifest
    × ((p : Bytes)
        → classify ⦃m = exact⦄ policy p ≡ ok discard_only
        → entry_at result.authoritative_manifest p ≡ none)
    × ((p : Bytes)
        → classify ⦃m = exact⦄ policy p ≢ ok discard_only
        → entry_at result.authoritative_manifest p ≡ entry_at candidate p)
reconcile_candidate_authoritative_example =
    reconcile_candidate_authoritative ⦃m = exact⦄ policy base candidate default_limits result
      well_formed_candidate reconciled

abbrev after : SubjectManifest
after = manifest (keys ∷ log ∷ [])

mutation_allowed : verify_validation_mutation ⦃m = exact⦄ policy base after ≡ ok (codes "out" ∷ [])
unfolding verify_validation_mutation list_beq diff_manifests sorted put get entry_beq option_beq
    ℤ_beq classify_each paths classify validate_subject_path component_glob_match
mutation_allowed = refl

keys_protected : classify ⦃m = exact⦄ policy (codes "keys") ≡ ok protected
unfolding classify list_beq validate_subject_path component_glob_match
keys_protected = refl

distinct_dispositions : {x : Outcome PathDisposition} → x ≡ ok protected → x ≢ ok discard_only
distinct_dispositions h k = cc

verify_validation_mutation_keeps_example :
    entry_at after (codes "keys") ≡ entry_at base (codes "keys")
verify_validation_mutation_keeps_example =
    verify_validation_mutation_keeps ⦃m = exact⦄ policy base after (codes "keys") mutation_allowed
      (distinct_dispositions keys_protected)

main_semantic : classify ⦃m = exact⦄ policy (codes "main") ≡ ok semantic
unfolding classify list_beq validate_subject_path component_glob_match
main_semantic = refl

semantic_dispositions : {x : Outcome PathDisposition} → x ≡ ok semantic → x ≢ ok discard_only
semantic_dispositions h k = cc

reconcile_candidate_complete_example :
    touches (codes "main") result.authoritative_delta
    ≡ touches (codes "main") result.candidate_delta
reconcile_candidate_complete_example =
    reconcile_candidate_complete ⦃m = exact⦄ policy base candidate default_limits result
      (codes "main") (well_formed_candidate) reconciled (semantic_dispositions main_semantic)

-- Every byte string has the digest "2" here, and the store holds one byte under each digest.
abbrev digest : Digest
digest = record { sha256_hex = λ content. "2" }

abbrev blobs : BlobReader
blobs = record { read_blob = λ name. ok (7 ∷ []) }

verified : verify_manifest_blobs ⦃d = digest⦄ blobs (manifest (main ∷ [])) ≡ ok tt
unfolding verify_manifest_blobs ℤ_beq
verified = refl

verify_manifest_blobs-IsStored_example :
    All (λ (e : ManifestEntry). IsStored ⦃d = digest⦄ blobs e.kind e.blob_sha256 e.size) (main ∷ [])
verify_manifest_blobs-IsStored_example =
    verify_manifest_blobs-IsStored ⦃d = digest⦄ blobs (manifest (main ∷ [])) verified
