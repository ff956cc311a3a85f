-- ===== src/Prompts/Bundle.antt =====
-- `build_review_bundle` of prompts.py: what the critic is shown. `fnmatch.fnmatchcase`, the digest, the codecs
-- and the blob store are parameters.
use codex_claude_author_crit.Prelude.{
  String, Bool, Option, none, some, List, [], ◌∷◌, ◌++◌, ◌==◌, ◌||◌, not, any, elem, length,
  string_eq, nat_eq, list_eq, ok, ◌>>=◌, ◌>>◌, fail_if, if◌then◌else◌,
}
use codex_claude_author_crit.Prelude.Bytes.{Bytes, codes, contains}
use codex_claude_author_crit.Prelude.Int.{pos, ℤ_eq}
use codex_claude_author_crit.Prelude.Numerals.{octal6}
use codex_claude_author_crit.Prelude.Text.{ascii_text}
use codex_claude_author_crit.Errors.{Outcome, StopReason}
use codex_claude_author_crit.Paths.Glob.{ComponentMatch}
use codex_claude_author_crit.Manifest.Entry.{Digest, EntryKind, regular, symlink, ManifestEntry}
use codex_claude_author_crit.Manifest.Change.{ChangeKind, ManifestChange}
use codex_claude_author_crit.Manifest.Limits.{Limits}
use codex_claude_author_crit.Manifest.Subject.{SubjectManifest}
use codex_claude_author_crit.Manifest.Blobs.{BlobReader}
use codex_claude_author_crit.Manifest.Canonical.{asserted, kind_value}
use codex_claude_author_crit.Manifest.Document.{display_path, path_to_b64, option_json}
use codex_claude_author_crit.Validation.Declassify.{
  Base64, KnownSecret, ValidationCriticEvidence, forbidden_forms, lower, compact,
}
use codex_claude_author_crit.Critic.Json.{Json, null, int, str, obj, from_fields}
use codex_claude_author_crit.Runner.Secrets.{Codecs}
use codex_claude_author_crit.Prompts.{FindingLedgerItem}

-- The arguments of `build_review_bundle` that `run` gives.
pub record BundleInput : Type 0 where
  pub task : String
  pub base : SubjectManifest
  pub subject : SubjectManifest
  pub semantic_changes : List ManifestChange
  pub opaque_changes : List ManifestChange
  pub blobs : BlobReader
  pub validation : ValidationCriticEvidence
  pub protected_patterns : List String
  pub opaque_patterns : List String
  pub context_paths : List Bytes
  pub prior_findings : List FindingLedgerItem
  pub known_secrets : List KnownSecret
  pub limits : Limits

-- `DEFAULT_SENSITIVE_PATH_PATTERNS`
abbrev pub sensitive_path_patterns : List Bytes
sensitive_path_patterns =
    codes ".env"
    ∷ codes ".env.*"
    ∷ codes "*/.env"
    ∷ codes "*/.env.*"
    ∷ codes ".npmrc"
    ∷ codes "*/.npmrc"
    ∷ codes ".pypirc"
    ∷ codes "*/.pypirc"
    ∷ codes "*.pem"
    ∷ codes "*/.ssh/*"
    ∷ codes "*credentials*"
    ∷ codes "*package-auth*"
    ∷ []

abbrev change_value : ChangeKind → String
change_value ChangeKind.create = "create"
change_value ChangeKind.delete = "delete"
change_value ChangeKind.modify = "modify"
change_value ChangeKind.rename = "rename-equivalent"

-- `ManifestEntry.content_sha256`
content_sha256 : EntryKind → ManifestEntry → Outcome String
content_sha256 regular e = asserted e.blob_sha256
content_sha256 symlink e = asserted e.target_sha256

module _ ⦃m : ComponentMatch⦄ where
  -- `_sensitive_path`, on the default patterns.
  unfoldable pub sensitive_path : Bytes → Bool
  unfolding any
  sensitive_path path = any (m.fnmatchcase path) sensitive_path_patterns

module _ ⦃b : Base64⦄ where
  -- The test of `_contains_secret` for one form.
  unfoldable pub form_inside : Bytes → Bytes → Bool
  unfolding contains lower compact
  form_inside content form =
      contains (lower content) (lower form)
      || contains (lower (compact content)) (lower (compact form))

  -- `_contains_secret`
  unfoldable pub contains_secret : Bytes → List KnownSecret → Bool
  unfolding any forbidden_forms form_inside
  contains_secret content secrets = any (λ s. any (form_inside content) (forbidden_forms s)) secrets

  abbrev entry_fields : ManifestEntry → List (String × Json)
  entry_fields e =
      ("path_b64", str (path_to_b64 e.path))
      ∷ ("path_display", str (ascii_text (display_path e.path)))
      ∷ ("kind", str (ascii_text (kind_value e.kind)))
      ∷ ("mode", str (ascii_text (octal6 e.mode)))
      ∷ []

  -- The text of the content, or nothing where it is shown in base 64.
  shown_text : Option String → Option String
  unfolding elem
  shown_text none = none
  shown_text (some text) = if elem 0 (codes text) then none else some text

  content_json : Bytes → Option String → List (String × Json)
  unfolding path_to_b64
  content_json content none =
      ("content_encoding", str "base64") ∷ ("content", str (path_to_b64 content)) ∷ []
  content_json content (some text) = ("content_encoding", str "utf-8") ∷ ("content", str text) ∷ []

  opaque_entry : Option ManifestEntry → Outcome Json
  unfolding from_fields content_sha256 path_to_b64 display_path octal6 ascii_text
  opaque_entry none = ok null
  opaque_entry (some e) = do
    digest ← content_sha256 e.kind e
    ok (obj (from_fields (entry_fields e ++ ("content_sha256", str digest) ∷ [])))

  -- `_opaque_descriptor`
  unfoldable pub opaque_descriptor : ManifestChange → Outcome Json
  unfolding from_fields opaque_entry
  opaque_descriptor c = do
    before ← opaque_entry c.before
    after ← opaque_entry c.after
    ok (
        obj (
          from_fields (
            ("operation", str (change_value c.kind)) ∷ ("before", before) ∷ ("after", after) ∷ [])))

module _ ⦃m : ComponentMatch⦄ ⦃b : Base64⦄ ⦃d : Digest⦄ ⦃j : Codecs⦄ (blobs : BlobReader)
    (secrets : List KnownSecret) where
  unfoldable pub shown_content : EntryKind → ManifestEntry → Outcome (List (String × Json))
  unfolding contains_secret path_to_b64 shown_text content_json
  shown_content symlink e = do
    target ← asserted e.symlink_target
    fail_if (contains_secret target secrets) StopReason.review_content_withheld
    ok (
        ("target_encoding", str "base64")
        ∷ ("target", str (path_to_b64 target))
        ∷ ("target_sha256", option_json str e.target_sha256)
        ∷ [])
  shown_content regular e = do
    digest ← asserted e.blob_sha256
    size ← asserted e.size
    content ← blobs.read_blob digest
    fail_if (not (pos (length content) == size) || not (d.sha256_hex content == digest))
        StopReason.review_content_withheld
    fail_if (contains_secret content secrets) StopReason.review_content_withheld
    ok (
        ("size", int size)
        ∷ ("blob_sha256", str digest)
        ∷ content_json content (shown_text (j.decode_utf8 content)))

  -- `_entry_descriptor`
  unfoldable pub entry_descriptor : ManifestEntry → Outcome Json
  unfolding sensitive_path shown_content from_fields path_to_b64 display_path octal6 ascii_text
  entry_descriptor e = do
    fail_if (sensitive_path e.path) StopReason.review_content_withheld
    content ← shown_content e.kind e
    ok (obj (from_fields (entry_fields e ++ content)))

  unfoldable pub optional_descriptor : Option ManifestEntry → Outcome Json
  unfolding entry_descriptor
  optional_descriptor none = ok null
  optional_descriptor (some e) = entry_descriptor e

  -- `_change_descriptor`
  unfoldable pub change_descriptor : ManifestChange → Outcome Json
  unfolding optional_descriptor from_fields
  change_descriptor c = do
    before ← optional_descriptor c.before
    after ← optional_descriptor c.after
    ok (
        obj (
          from_fields (
            ("operation", str (change_value c.kind)) ∷ ("before", before) ∷ ("after", after) ∷ [])))
