-- ===== src/Manifest/Document.antt =====
-- The JSON form of a subject manifest: `display_path` and `path_to_b64` of models.py, `_entry_to_json`
-- and `to_json_obj` of manifests.py.
pub mod Display
use codex_claude_author_crit.Prelude.{
  ℕ, ◌+◌, ◌-◌, ◌/◌, ◌%◌, String, Option, none, some, List, [], ◌∷◌, ◌++◌, ◌==◌, ◌&&◌, nat_eq, leb,
  ltb, ok, if◌then◌else◌, ◌>>=◌, ◌>>◌,
}
use codex_claude_author_crit.Prelude.Bytes.{Bytes}
use codex_claude_author_crit.Prelude.Int.{pos}
use codex_claude_author_crit.Prelude.Numerals.{octal6}
use codex_claude_author_crit.Prelude.Text.{ascii_text}
use codex_claude_author_crit.Errors.{Outcome}
use codex_claude_author_crit.Critic.Json.{Json, null, int, str, arr, obj, from_items, from_fields}
use codex_claude_author_crit.Validation.Declassify.{Base64}
use codex_claude_author_crit.Manifest.Entry.{Digest, EntryKind, regular, symlink, ManifestEntry}
use codex_claude_author_crit.Manifest.Subject.{SubjectManifest}
use codex_claude_author_crit.Manifest.Canonical.{asserted, kind_value, fingerprint}

-- A digit of `:02x`.
hex_char : ℕ → ℕ
hex_char n = if ltb n 10 then b'0' + n else b'a' + (n - 10)

unfoldable pub display_byte : ℕ → Bytes
unfolding hex_char
display_byte c =
    if c == 0x5c
    then b'\\' ∷ b'\\' ∷ []
    else if c == 0x0a
    then b'\\' ∷ b'n' ∷ []
    else if c == 0x0d
    then b'\\' ∷ b'r' ∷ []
    else if c == 0x09
    then b'\\' ∷ b't' ∷ []
    else if leb 0x20 c && leb c 0x7e
    then c ∷ []
    else b'\\' ∷ b'x' ∷ hex_char (c / 16) ∷ hex_char (c % 16) ∷ []

-- `display_path`, as the bytes of the ASCII text.
unfoldable pub display_path : Bytes → Bytes
unfolding display_byte
display_path [] = []
display_path (c ∷ cs) = display_byte c ++ display_path cs

abbrev pub option_json : {A : Type 0} → (A → Json) → Option A → Json
option_json f none = null
option_json f (some a) = f a

module _ ⦃b : Base64⦄ where
  unfoldable pub path_to_b64 : Bytes → String
  unfolding ascii_text
  path_to_b64 path = ascii_text (b.b64encode path)

  unfoldable pub content_fields : EntryKind → ManifestEntry → Outcome (List (String × Json))
  unfolding path_to_b64
  content_fields regular e =
      ok (("size", option_json int e.size) ∷ ("blob_sha256", option_json str e.blob_sha256) ∷ [])
  content_fields symlink e = do
    target ← asserted e.symlink_target
    ok (
        ("target_b64", str (path_to_b64 target))
        ∷ ("target_sha256", option_json str e.target_sha256)
        ∷ [])

  -- `_entry_to_json`
  unfoldable pub entry_to_json : ManifestEntry → Outcome Json
  unfolding content_fields path_to_b64 display_path octal6 ascii_text from_fields
  entry_to_json e = do
    content ← content_fields e.kind e
    ok (
        obj (
          from_fields (
            ("path_b64", str (path_to_b64 e.path))
            ∷ ("path_display", str (ascii_text (display_path e.path)))
            ∷ ("kind", str (ascii_text (kind_value e.kind)))
            ∷ ("mode", str (ascii_text (octal6 e.mode)))
            ∷ content)))

  unfoldable pub entries_to_json : List ManifestEntry → Outcome (List Json)
  unfolding entry_to_json
  entries_to_json [] = ok []
  entries_to_json (e ∷ es) = do j ← entry_to_json e; js ← entries_to_json es; ok (j ∷ js)

  module _ ⦃d : Digest⦄ where
    unfoldable pub to_json_obj : SubjectManifest → Outcome Json
    unfolding fingerprint entries_to_json from_fields from_items
    to_json_obj m = do
      identity ← fingerprint m
      js ← entries_to_json m.entries
      ok (
          obj (
            from_fields (
              ("schema_version", int (pos m.schema_version))
              ∷ ("fingerprint", str identity)
              ∷ ("entries", arr (from_items js))
              ∷ [])))
