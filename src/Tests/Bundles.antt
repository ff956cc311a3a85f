-- ===== src/Tests/Bundles.antt =====
-- Canonical bytes, scans for credentials, review bundles, and repeated rounds, on concrete values.
use codex_claude_author_crit.Prelude.Dict.{put}
use codex_claude_author_crit.Prelude.Int.{ℤ_beq}
use codex_claude_author_crit.Prelude.Sorting.{sorted}
use codex_claude_author_crit.Paths.{validate_subject_path}
use mathlib.Core.List.{Permᴰ}
use codex_claude_author_crit.Prelude.{
  inl, inr, ◌≡◌, ◌↔◌, refl, inl, true, false, none, some, List, [], ◌∷◌, ◌==◌, list_eq, nat_eq,
  string_eq, All, ok, arith, list_beq, String,
}
use codex_claude_author_crit.Prelude.Bytes.{codes}
use codex_claude_author_crit.Prelude.Int.{pos}
use codex_claude_author_crit.Errors.{Outcome}
use codex_claude_author_crit.Paths.Glob.{ComponentMatch}
use codex_claude_author_crit.Manifest.Entry.{
  Digest, ManifestEntry, manifest_entry, regular, regular_mode,
}
use codex_claude_author_crit.Manifest.Change.{ChangeKind}
use codex_claude_author_crit.Manifest.Limits.{default_limits}
use codex_claude_author_crit.Manifest.Subject.{SubjectManifest}
use codex_claude_author_crit.Manifest.Canonical.{canonical_bytes}
use codex_claude_author_crit.Manifest.Canonical.Injective.{canonical_bytes-injective}
use codex_claude_author_crit.Manifest.Document.Display.{display_path-injective}
use codex_claude_author_crit.Validation.Execution.{CheckExecution}
use codex_claude_author_crit.Validation.Declassify.{Base64, KnownSecret}
use codex_claude_author_crit.Critic.Json.{str, null}
use codex_claude_author_crit.Progress.{ProgressState, ValidationProgress, observe}
use codex_claude_author_crit.Progress.Adjacent.{observe-Reordered}
use codex_claude_author_crit.Prompts.{ReviewBundle}
use codex_claude_author_crit.Prompts.Bundle.{BundleInput}
use codex_claude_author_crit.Prompts.Review.{build_review_bundle}
use codex_claude_author_crit.Prompts.Withheld.{ShowsBoth, IsBounded, build_review_bundle_withholds}
use codex_claude_author_crit.Runner.{ValidationTurn}
use codex_claude_author_crit.Runner.Secrets.{
  Codecs, Tree, json, raw, tuple, cons, nil, trees, json_tree_contains_known_secret,
}
use codex_claude_author_crit.Runner.Secrets.Parts.{
  bytes, element, json_tree_contains_known_secret-Clean,
}
use codex_claude_author_crit.Runner.Turns.{require_opaque_validation_independence}
use codex_claude_author_crit.Validation.Declassify.Shown.{Shows}
use codex_claude_author_crit.Runner.Turns.Behavior.{
  AllAlike, require_opaque_validation_independence_iff,
}

abbrev exact : ComponentMatch
exact = record { fnmatchcase = λ c p. c == p }

abbrev plain : Base64
plain = record { b64encode = λ value. value; urlsafe_b64encode = λ value. value }

abbrev braces : Codecs
braces = record { json_bytes = λ document. codes "{}"; decode_utf8 = λ content. some "text" }

abbrev zeros : Digest
zeros = record {
  sha256_hex = λ content. "0000000000000000000000000000000000000000000000000000000000000000";
}

abbrev readme : ManifestEntry
readme = record {
  path = codes "README";
  kind = regular;
  mode = regular_mode;
  size = some (pos 1);
  blob_sha256 = some "0000000000000000000000000000000000000000000000000000000000000000";
  symlink_target = none;
  target_sha256 = none;
}

abbrev subject : SubjectManifest
subject = record { entries = readme ∷ []; schema_version = 1 }

accepted : manifest_entry ⦃d = zeros⦄ readme ≡ ok readme
unfolding manifest_entry validate_subject_path list_beq
accepted = refl

canonical_bytes-injective_example : subject ≡ subject
unfolding canonical_bytes
canonical_bytes-injective_example =
    canonical_bytes-injective ⦃d = zeros⦄ subject subject (accepted, tt) (accepted, tt) refl refl

abbrev token : KnownSecret
token = record { identifier = "token"; value = codes "s3cret" }

abbrev answer : Tree
answer = tuple (cons (json (str "done")) (cons (raw (codes "a b")) nil))

answer_scanned : json_tree_contains_known_secret ⦃b = plain⦄ (token ∷ []) answer ≡ ok false
unfolding json_tree_contains_known_secret sorted list_beq
answer_scanned = refl

json_tree_contains_known_secret-Clean_example : ¬ Shows ⦃b = plain⦄ (codes "a b") (token ∷ [])
unfolding trees
json_tree_contains_known_secret-Clean_example =
    json_tree_contains_known_secret-Clean ⦃b = plain⦄ (token ∷ []) answer (codes "a b")
      answer_scanned
      (element (cons (json (str "done")) (cons (raw (codes "a b")) nil)) (raw (codes "a b"))
        (inr (inl refl)) (bytes (codes "a b")))

abbrev input : BundleInput
input = record {
  task = "fix";
  base = record { entries = []; schema_version = 1 };
  subject = subject;
  semantic_changes = record { kind = ChangeKind.create; before = none; after = some readme } ∷ [];
  opaque_changes = [];
  blobs = record { read_blob = λ name. ok (7 ∷ []) };
  validation = record {
    schema_version = 1;
    subject_fingerprint = "0000000000000000000000000000000000000000000000000000000000000000";
    approval_eligible = true;
    checks = [];
  };
  protected_patterns = [];
  opaque_patterns = [];
  context_paths = codes "missing" ∷ [];
  prior_findings = [];
  known_secrets = token ∷ [];
  limits = default_limits;
}

abbrev bundle_of : Outcome ReviewBundle → ReviewBundle
bundle_of (ok bundle) = bundle
bundle_of _ = record { document = null; encoded = []; estimated_input_tokens = 0; fingerprint = "" }

abbrev shown : ReviewBundle
shown = bundle_of (build_review_bundle ⦃m = exact⦄ ⦃b = plain⦄ ⦃d = zeros⦄ ⦃j = braces⦄ input)

bundle_built : build_review_bundle ⦃m = exact⦄ ⦃b = plain⦄ ⦃d = zeros⦄ ⦃j = braces⦄ input ≡ ok shown
unfolding build_review_bundle ℤ_beq list_beq sorted put
bundle_built = refl

build_review_bundle_withholds_example :
    All
      (ShowsBoth ⦃m = exact⦄ ⦃b = plain⦄ ⦃d = zeros⦄ ⦃j = braces⦄ input.blobs input.known_secrets)
      input.semantic_changes
    × IsBounded ⦃m = exact⦄ ⦃b = plain⦄ ⦃d = zeros⦄ ⦃j = braces⦄ input shown
build_review_bundle_withholds_example =
    build_review_bundle_withholds ⦃m = exact⦄ ⦃b = plain⦄ ⦃d = zeros⦄ ⦃j = braces⦄ input shown
      bundle_built

abbrev check : String → ValidationProgress
check id = record {
  check_id = id;
  outcome = "failed";
  transition = "fail_to_fail";
  regression = false;
  evidence_complete = true;
}

abbrev state : List ValidationProgress → ProgressState
state checks = record {
  subject_fingerprint = "f";
  validations = checks;
  verdict = "REVISE";
  blocking_findings = [];
  blocked_reason = none;
}

observe-Reordered_example :
    (observe ⦃d = zeros⦄ ⦃j = braces⦄
      (observe ⦃d = zeros⦄ ⦃j = braces⦄ none (state (check "lint" ∷ check "unit" ∷ []))).1
      (state (check "unit" ∷ check "lint" ∷ []))).0
    ≡ true
observe-Reordered_example =
    observe-Reordered ⦃d = zeros⦄ ⦃j = braces⦄ none (state (check "lint" ∷ check "unit" ∷ []))
      (state (check "unit" ∷ check "lint" ∷ [])) ((refl, tt), (tt, tt)) tt
      (record {
        subject = refl;
        verdict = refl;
        reason = refl;
        checks = Permᴰ.swap refl refl;
        findings = Permᴰ.nil;
      })

abbrev unit_check : CheckExecution
unit_check = record {
  check_id = "unit";
  command = "make test";
  started_at = pos 1;
  completed_at = pos 2;
  exit_code = some (pos 0);
  signal = none;
  timed_out = false;
  infrastructure_failure = false;
  process_started = true;
  output_limited = false;
}

abbrev turn : ValidationTurn
turn = record {
  summary = record { schema_version = 1; subject_fingerprint = "f"; checks = unit_check ∷ [] };
  result_manifest = subject;
  raw_log = codes "ok";
}

require_opaque_validation_independence_iff_example :
    (require_opaque_validation_independence turn turn ≡ ok tt)
    ↔ (AllAlike turn.summary.checks turn.summary.checks × (turn.raw_log ≡ turn.raw_log))
require_opaque_validation_independence_iff_example =
    require_opaque_validation_independence_iff turn turn

display_path-injective_example : codes "a b" ≡ codes "a b"
display_path-injective_example =
    display_path-injective (codes "a b") (codes "a b")
      (omega arith, (omega arith, (omega arith, tt)))
      (omega arith, (omega arith, (omega arith, tt))) refl
