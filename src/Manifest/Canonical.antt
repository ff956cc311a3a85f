-- ===== src/Manifest/Canonical.antt =====
-- The canonical bytes of a subject manifest and its fingerprint: `_length_prefix`, `_encode_atoms`,
-- `_canonical_entry`, `canonical_bytes` and `fingerprint` of manifests.py.
pub mod Atoms
pub mod Injective
use codex_claude_author_crit.Prelude.{
  suc, ◌-◌, ◌^◌, String, Option, none, some, List, [], ◌∷◌, ◌++◌, length, ltb, ok, throw,
  value_error, assertion_error, raise_if, ◌>>=◌, ◌>>◌,
}
use codex_claude_author_crit.Prelude.Bytes.{Bytes, codes}
use codex_claude_author_crit.Prelude.Int.{ℤ, pos, negsuc}
use codex_claude_author_crit.Prelude.Numerals.{big_endian, decimal, octal6}
use codex_claude_author_crit.Prelude.Hex.{from_hex}
use codex_claude_author_crit.Errors.{Outcome}
use codex_claude_author_crit.Manifest.Entry.{Digest, EntryKind, regular, symlink, ManifestEntry}
use codex_claude_author_crit.Manifest.Subject.{SubjectManifest}

abbrev pub canonical_domain : Bytes
canonical_domain = codes "agent-loop/subject-manifest"

unfoldable pub length_prefix : Bytes → Outcome Bytes
unfolding big_endian
length_prefix v = do
  raise_if (ltb (2 ^ 64 - 1) (length v)) value_error
  ok (big_endian 8 (length v) ++ v)

unfoldable pub encode_atoms : List Bytes → Outcome Bytes
unfolding length_prefix
encode_atoms [] = ok []
encode_atoms (a ∷ as') = do x ← length_prefix a; y ← encode_atoms as'; ok (x ++ y)

-- `str(n)`
unfoldable pub int_text : ℤ → Bytes
unfolding decimal
int_text (pos n) = decimal n
int_text (negsuc n) = b'-' ∷ decimal (suc n)

-- `entry.kind.value`
abbrev pub kind_value : EntryKind → Bytes
kind_value regular = codes "regular"
kind_value symlink = codes "symlink"

-- An asserted field.
abbrev pub asserted : {A : Type 0} → Option A → Outcome A
asserted none = throw assertion_error
asserted (some a) = ok a

unfoldable pub fromhex : String → Outcome Bytes
unfolding from_hex
fromhex text = elim (from_hex (codes text)) [ none ↦ throw value_error | some bytes ↦ ok bytes ]

-- The two atoms after the common ones.
unfoldable pub content_atoms : EntryKind → ManifestEntry → Outcome (List Bytes)
unfolding int_text fromhex
content_atoms regular e = do
  size ← asserted e.size
  digest ← asserted e.blob_sha256
  bytes ← fromhex digest
  ok (int_text size ∷ bytes ∷ [])
content_atoms symlink e = do
  target ← asserted e.symlink_target
  digest ← asserted e.target_sha256
  bytes ← fromhex digest
  ok (target ∷ bytes ∷ [])

unfoldable pub canonical_entry : ManifestEntry → Outcome Bytes
unfolding content_atoms encode_atoms octal6
canonical_entry e = do
  content ← content_atoms e.kind e
  encode_atoms (codes "entry" ∷ e.path ∷ kind_value e.kind ∷ octal6 e.mode ∷ content)

unfoldable pub canonical_entries : List ManifestEntry → Outcome Bytes
unfolding canonical_entry
canonical_entries [] = ok []
canonical_entries (e ∷ es) = do x ← canonical_entry e; y ← canonical_entries es; ok (x ++ y)

unfoldable pub canonical_bytes : SubjectManifest → Outcome Bytes
unfolding encode_atoms decimal canonical_entries
canonical_bytes m = do
  header ←
      encode_atoms (canonical_domain ∷ decimal m.schema_version ∷ decimal (length m.entries) ∷ [])
  body ← canonical_entries m.entries
  ok (header ++ body)

module _ ⦃d : Digest⦄ where
  unfoldable pub fingerprint : SubjectManifest → Outcome String
  unfolding canonical_bytes
  fingerprint m = do bytes ← canonical_bytes m; ok (d.sha256_hex bytes)
