-- ===== src/Manifest/Entry/Shape.antt =====
-- Which fields of an entry its constructor leaves set.
use codex_claude_author_crit.Prelude.{
  ℕ, String, ◌≡◌, refl, sym, ap, ◌∙◌, ◌⊎◌, inl, inr, false, none, some, All, all-All, ok, arith,
  Option-cases, nat_eq, subst,
}
use codex_claude_author_crit.Prelude.Bytes.{Bytes, codes}
use codex_claude_author_crit.Prelude.Int.{ℤ, pos, negsuc, ltb_ℤ}
use codex_claude_author_crit.Prelude.Hex.{IsHex}
use codex_claude_author_crit.Manifest.Entry.{
  Digest, EntryKind, regular, symlink, is_regular, is_hex_digit, ManifestEntry, validate_sha256,
  check_regular, check_symlink, manifest_entry,
}

-- A text of lower-case hexadecimal digits.
abbrev pub IsDigestText : String → Type 0
IsDigestText s = All IsHex (codes s)

abbrev pub IsShaped : EntryKind → ManifestEntry → Type 0
IsShaped regular e =
    (n : ℕ) × (s : String) × (e.size ≡ some (pos n))
    × (e.blob_sha256 ≡ some s)
    × (e.symlink_target ≡ none)
    × (e.target_sha256 ≡ none)
    × IsDigestText s
IsShaped symlink e =
    (t : Bytes) × (s : String) × (e.size ≡ none)
    × (e.blob_sha256 ≡ none)
    × (e.symlink_target ≡ some t)
    × (e.target_sha256 ≡ some s)
    × IsDigestText s

validate_sha256-IsDigestText : (s : String) → validate_sha256 s ≡ ok tt → IsDigestText s
unfolding validate_sha256 is_hex_digit
validate_sha256-IsDigestText s h = all-All _ (codes s) (ground arith)

ℤ-cases : (z : ℤ) → ((n : ℕ) × (z ≡ pos n)) ⊎ ((n : ℕ) × (z ≡ negsuc n))
ℤ-cases (pos n) = inl (n, refl)
ℤ-cases (negsuc n) = inr (n, refl)

pub EntryKind-cases : (k : EntryKind) → (k ≡ regular) ⊎ (k ≡ symlink)
EntryKind-cases regular = inl refl
EntryKind-cases symlink = inr refl

module _ ⦃d : Digest⦄ where
  regular_parts :
      (e : ManifestEntry) (z : ℤ) (s : String)
      → check_regular e ≡ ok e
      → e.size ≡ some z
      → e.blob_sha256 ≡ some s
      → (validate_sha256 s ≡ ok tt)
        × (e.symlink_target ≡ none)
        × (e.target_sha256 ≡ none)
        × (ltb_ℤ z (pos 0) ≡ false)
  unfolding check_regular
  regular_parts e z s h size blob = ground arith

  check_regular-IsShaped : (e : ManifestEntry) → check_regular e ≡ ok e → IsShaped regular e
  unfolding check_regular
  check_regular-IsShaped e h = elim (Option-cases e.size) [
    | inl none_size ↦ absurd (ground arith)
    | inr (z, size) ↦ elim (Option-cases e.blob_sha256) [
      | inl none_blob ↦ absurd (ground arith)
      | inr (s, blob) ↦
          let (digest, no_target, no_sha, natural) = regular_parts e z s h size blob in
          elim (ℤ-cases z) [
            | inl (n, z_is) ↦ (
              n,
              s,
              size ∙ ap some z_is,
              blob,
              no_target,
              no_sha,
              validate_sha256-IsDigestText s digest,
            )
            | inr (n, z_is) ↦ absurd (ground arith)
          ]
    ]
  ]

  symlink_parts :
      (e : ManifestEntry) (t : Bytes) (s : String)
      → check_symlink e ≡ ok e
      → e.symlink_target ≡ some t
      → e.target_sha256 ≡ some s
      → (validate_sha256 s ≡ ok tt) × (e.size ≡ none) × (e.blob_sha256 ≡ none)
  unfolding check_symlink
  symlink_parts e t s h target sha = ground arith

  check_symlink-IsShaped : (e : ManifestEntry) → check_symlink e ≡ ok e → IsShaped symlink e
  unfolding check_symlink
  check_symlink-IsShaped e h = elim (Option-cases e.symlink_target) [
    | inl none_target ↦ absurd (ground arith)
    | inr (t, target) ↦ elim (Option-cases e.target_sha256) [
      | inl none_sha ↦ absurd (ground arith)
      | inr (s, sha) ↦
          let (digest, no_size, no_blob) = symlink_parts e t s h target sha in
          (t, s, no_size, no_blob, target, sha, validate_sha256-IsDigestText s digest)
    ]
  ]

  -- An accepted entry has the fields of its kind, and no others.
  pub manifest_entry-IsShaped : (e : ManifestEntry) → manifest_entry e ≡ ok e → IsShaped e.kind e
  unfolding manifest_entry is_regular
  manifest_entry-IsShaped e h = elim (EntryKind-cases e.kind) [
    | inl k ↦ subst (λ x. IsShaped x e) (sym k) (check_regular-IsShaped e (ground arith))
    | inr k ↦ subst (λ x. IsShaped x e) (sym k) (check_symlink-IsShaped e (ground arith))
  ]
