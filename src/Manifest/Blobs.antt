-- ===== src/Manifest/Blobs.antt =====
-- `verify_manifest_blobs` of manifests.py. The blob store is behind a protocol, a parameter here.
use codex_claude_author_crit.Prelude.{
  String, ◌≡◌, Option, none, some, List, [], ◌∷◌, ◌==◌, not, All, length, ok, throw, value_error,
  assertion_error, option_eq, string_eq, ◌>>=◌, ◌>>◌, raise_if, >>=-eq-ok, arith,
}
use codex_claude_author_crit.Prelude.Bytes.{Bytes}
use codex_claude_author_crit.Prelude.Int.{ℤ, pos, ℤ_eq, ℤ_beq_iff}
use text.Mathlib.TextEquality.{eq_iff}
use codex_claude_author_crit.Errors.{Outcome}
use codex_claude_author_crit.Manifest.Entry.{Digest, ManifestEntry, EntryKind, regular, symlink}
use codex_claude_author_crit.Manifest.Subject.{SubjectManifest}

-- `BlobReader.read_blob`, which may raise.
pub record BlobReader : Type 0 where
  pub read_blob : String → Outcome Bytes

module _ ⦃d : Digest⦄ (blobs : BlobReader) where
  verify_blob : Option String → Option ℤ → Outcome (Unit {0})
  verify_blob none size = throw assertion_error
  verify_blob (some digest) none = throw assertion_error
  verify_blob (some digest) (some size) = do
    content ← blobs.read_blob digest
    raise_if (not (pos (length content) == size)) value_error
    raise_if (not (d.sha256_hex content == digest)) value_error

  verify_entry : EntryKind → Option String → Option ℤ → Outcome (Unit {0})
  unfolding verify_blob
  verify_entry symlink digest size = ok tt
  verify_entry regular digest size = verify_blob digest size

  verify_entries : List ManifestEntry → Outcome (Unit {0})
  unfolding verify_entry
  verify_entries [] = ok tt
  verify_entries (e ∷ es) = do verify_entry e.kind e.blob_sha256 e.size; verify_entries es

  unfoldable pub verify_manifest_blobs : SubjectManifest → Outcome (Unit {0})
  unfolding verify_entries
  verify_manifest_blobs m = verify_entries m.entries

  -- The store holds the content of the entry, if it is a regular file.
  abbrev pub IsStored : EntryKind → Option String → Option ℤ → Type 0
  IsStored symlink digest size = Unit
  IsStored regular digest size =
      (content : Bytes) × (digest ≡ some (d.sha256_hex content))
      × (size ≡ some (pos (length content)))
      × (blobs.read_blob (d.sha256_hex content) ≡ ok content)

  verify_entry-IsStored :
      (k : EntryKind) (digest : Option String) (size : Option ℤ)
      → verify_entry k digest size ≡ ok tt
      → IsStored k digest size
  unfolding verify_entry
  verify_entry-IsStored symlink digest size h = tt
  verify_entry-IsStored regular none size h = cc
  verify_entry-IsStored regular (some digest) none h = cc
  verify_entry-IsStored regular (some digest) (some size) h =
      let (content, read, checks) = >>=-eq-ok (blobs.read_blob digest) _ h in
      (
        content,
        ground (arith, eq_iff (d.sha256_hex content) digest),
        ground (arith, ℤ_beq_iff (pos (length content)) size),
        ground (arith, read, eq_iff (d.sha256_hex content) digest),
      )

  verify_entries-IsStored :
      (es : List ManifestEntry)
      → verify_entries es ≡ ok tt
      → All (λ e. IsStored e.kind e.blob_sha256 e.size) es
  unfolding verify_entries
  verify_entries-IsStored [] h = tt
  verify_entries-IsStored (e ∷ es) h =
      let (u, first, rest) = >>=-eq-ok (verify_entry e.kind e.blob_sha256 e.size) _ h in
      (verify_entry-IsStored e.kind e.blob_sha256 e.size first, verify_entries-IsStored es rest)

  -- When the verification passes, the content of every regular entry can be read back under its
  -- digest, has the recorded size, and has that digest.
  pub verify_manifest_blobs-IsStored :
      (m : SubjectManifest)
      → verify_manifest_blobs m ≡ ok tt
      → All (λ e. IsStored e.kind e.blob_sha256 e.size) m.entries
  unfolding verify_manifest_blobs
  verify_manifest_blobs-IsStored m h = verify_entries-IsStored m.entries h
