-- ===== src/Manifest/Canonical/Injective.antt =====
-- Two accepted manifests with the same canonical bytes are the same manifest.
use codex_claude_author_crit.Prelude.{
  ℕ, String, ◌≡◌, refl, sym, ap, ◌∙◌, subst, true, false, some, List, [], ◌∷◌, ◌++◌, length, elem,
  nat_eq, ok, ◌>>=◌, >>=-eq-ok, ok-injective, arith, All,
}
use mathlib.Core.List.{append_assoc}
use codex_claude_author_crit.Prelude.Bytes.{Bytes, codes}
use codex_claude_author_crit.Prelude.Int.{pos}
use codex_claude_author_crit.Prelude.Numerals.{decimal, octal6, decimal-injective, octal6-injective}
use codex_claude_author_crit.Prelude.Hex.{from_hex-injective, codes-injective}
use codex_claude_author_crit.Manifest.Entry.{
  Digest, EntryKind, regular, symlink, ManifestEntry, manifest_entry,
}
use codex_claude_author_crit.Manifest.Entry.Shape.{IsShaped, IsDigestText, manifest_entry-IsShaped}
use codex_claude_author_crit.Manifest.Subject.{SubjectManifest}
use codex_claude_author_crit.Manifest.Canonical.{
  canonical_domain, encode_atoms, int_text, kind_value, fromhex, content_atoms, canonical_entry,
  canonical_entries, canonical_bytes,
}
use codex_claude_author_crit.Manifest.Canonical.Atoms.{encode_atoms-injective}

fromhex-injective :
    (s t : String) {bytes : Bytes}
    → IsDigestText s
    → IsDigestText t
    → fromhex s ≡ ok bytes
    → fromhex t ≡ ok bytes
    → s ≡ t
unfolding fromhex
fromhex-injective s t {bytes} hs ht p q =
    codes-injective s t
      (from_hex-injective (codes s) (codes t) {bytes = bytes} hs ht (ground arith) (ground arith))

kind_value-injective : (k l : EntryKind) → kind_value k ≡ kind_value l → k ≡ l
unfolding elem
kind_value-injective regular regular h = refl
kind_value-injective symlink symlink h = refl
kind_value-injective regular symlink h = let e : true ≡ false = ap (elem b'u') h in cc
kind_value-injective symlink regular h = let e : false ≡ true = ap (elem b'u') h in cc

-- The content atoms of an accepted entry, as the fields that they came from.
regular_atoms :
    (e : ManifestEntry) (n : ℕ) (s : String) {xs : List Bytes}
    → e.size ≡ some (pos n)
    → e.blob_sha256 ≡ some s
    → content_atoms regular e ≡ ok xs
    → (bytes : Bytes) × (fromhex s ≡ ok bytes) × (xs ≡ decimal n ∷ bytes ∷ [])
unfolding content_atoms int_text
regular_atoms e n s size blob h =
    let h0 : (fromhex s >>= λ bytes. ok (decimal n ∷ bytes ∷ [])) ≡ ok _ = rw (size, blob) at h in
    let (bytes, b_ok, h1) = >>=-eq-ok (fromhex s) _ h0 in (bytes, b_ok, sym (ok-injective h1))

symlink_atoms :
    (e : ManifestEntry) (t : Bytes) (s : String) {xs : List Bytes}
    → e.symlink_target ≡ some t
    → e.target_sha256 ≡ some s
    → content_atoms symlink e ≡ ok xs
    → (bytes : Bytes) × (fromhex s ≡ ok bytes) × (xs ≡ t ∷ bytes ∷ [])
unfolding content_atoms
symlink_atoms e t s target sha h =
    let h0 : (fromhex s >>= λ bytes. ok (t ∷ bytes ∷ [])) ≡ ok _ = rw (target, sha) at h in
    let (bytes, b_ok, h1) = >>=-eq-ok (fromhex s) _ h0 in (bytes, b_ok, sym (ok-injective h1))

-- The fields of one kind that are set are equal when the content atoms are.
content-injective :
    (k : EntryKind) (e f : ManifestEntry) {xs : List Bytes}
    → IsShaped k e
    → IsShaped k f
    → content_atoms k e ≡ ok xs
    → content_atoms k f ≡ ok xs
    → (e.size ≡ f.size)
      × (e.blob_sha256 ≡ f.blob_sha256)
      × (e.symlink_target ≡ f.symlink_target)
      × (e.target_sha256 ≡ f.target_sha256)
content-injective regular e f (n, s, size, blob, no_t, no_d, hex)
      (n', s', size', blob', no_t', no_d', hex') h k =
    let (bytes, b_ok, xs_is) = regular_atoms e n s size blob h in
    let (bytes', b_ok', xs_is') = regular_atoms f n' s' size' blob' k in
    let same : decimal n ∷ bytes ∷ [] ≡ decimal n' ∷ bytes' ∷ [] = sym xs_is ∙ xs_is' in
    let sizes = decimal-injective n n' (cc) in
    let digests = fromhex-injective s s' {bytes = bytes} hex hex' b_ok (cc) in (cc, cc, cc, cc)
content-injective symlink e f (t, s, no_s, no_b, target, sha, hex)
      (t', s', no_s', no_b', target', sha', hex') h k =
    let (bytes, b_ok, xs_is) = symlink_atoms e t s target sha h in
    let (bytes', b_ok', xs_is') = symlink_atoms f t' s' target' sha' k in
    let same : t ∷ bytes ∷ [] ≡ t' ∷ bytes' ∷ [] = sym xs_is ∙ xs_is' in
    let digests = fromhex-injective s s' {bytes = bytes} hex hex' b_ok (cc) in (cc, cc, cc, cc)

entry_ext :
    (e f : ManifestEntry)
    → e.path ≡ f.path
    → e.kind ≡ f.kind
    → e.mode ≡ f.mode
    → e.size ≡ f.size
    → e.blob_sha256 ≡ f.blob_sha256
    → e.symlink_target ≡ f.symlink_target
    → e.target_sha256 ≡ f.target_sha256
    → e ≡ f
entry_ext e f p k m s b t d = λ i. record {
  path = p i;
  kind = k i;
  mode = m i;
  size = s i;
  blob_sha256 = b i;
  symlink_target = t i;
  target_sha256 = d i;
}

content-length :
    (k : EntryKind) (e : ManifestEntry) {xs : List Bytes}
    → IsShaped k e
    → content_atoms k e ≡ ok xs
    → length xs ≡ 2
content-length regular e (n, s, size, blob, _, _, _) h =
    let (bytes, _, xs_is) = regular_atoms e n s size blob h in ap length xs_is
content-length symlink e (t, s, _, _, target, sha, _) h =
    let (bytes, _, xs_is) = symlink_atoms e t s target sha h in ap length xs_is

fields_equal :
    {A : Type 0} {a b c k a' b' c' k' : A} {xs ys : List A}
    → ◌≡◌ {A = List A} (a ∷ b ∷ c ∷ k ∷ xs) (a' ∷ b' ∷ c' ∷ k' ∷ ys)
    → (b ≡ b') × (c ≡ c') × (k ≡ k') × (xs ≡ ys)
fields_equal h = (cc, cc, cc, cc)

module _ ⦃d : Digest⦄ where
  canonical_entry-injective :
      (e f : ManifestEntry) (us vs : Bytes) {x y : Bytes}
      → manifest_entry e ≡ ok e
      → manifest_entry f ≡ ok f
      → canonical_entry e ≡ ok x
      → canonical_entry f ≡ ok y
      → x ++ us ≡ y ++ vs
      → (e ≡ f) × (us ≡ vs)
  unfolding canonical_entry
  canonical_entry-injective e f us vs he hf p q same =
      let shape = manifest_entry-IsShaped e he in
      let shape' = manifest_entry-IsShaped f hf in
      let (xs, xs_ok, p1) = >>=-eq-ok (content_atoms e.kind e) _ p in
      let (ys, ys_ok, q1) = >>=-eq-ok (content_atoms f.kind f) _ q in
      let l = content-length e.kind e shape xs_ok in
      let l' = content-length f.kind f shape' ys_ok in
      let (atoms, rests) =
        encode_atoms-injective (codes "entry" ∷ e.path ∷ kind_value e.kind ∷ octal6 e.mode ∷ xs)
          (codes "entry" ∷ f.path ∷ kind_value f.kind ∷ octal6 f.mode ∷ ys) us vs
          (omega (arith, l, l')) p1 q1 same in
      let (path, kinds, modes, contents) = fields_equal atoms in
      let kind = kind_value-injective e.kind f.kind kinds in
      let (size, blob, target, sha) =
        content-injective e.kind e f {xs = xs} shape (subst (λ k. IsShaped k f) (sym kind) shape')
          xs_ok
          (subst (λ k. content_atoms k f ≡ ok xs) (sym kind) (ys_ok ∙ ap ok (sym contents))) in
      (entry_ext e f path kind (octal6-injective e.mode f.mode modes) size blob target sha, rests)

  canonical_entries-injective :
      (es fs : List ManifestEntry) {x : Bytes}
      → length es ≡ length fs
      → All (λ e. manifest_entry e ≡ ok e) es
      → All (λ e. manifest_entry e ≡ ok e) fs
      → (us vs : Bytes) {y : Bytes} → canonical_entries es ≡ ok x
      → canonical_entries fs ≡ ok y
      → x ++ us ≡ y ++ vs
      → es ≡ fs
  unfolding canonical_entries
  canonical_entries-injective [] [] l hs hs' us vs p q same = refl
  canonical_entries-injective [] (f ∷ fs) l hs hs' us vs p q same = absurd (omega (arith, l))
  canonical_entries-injective (e ∷ es) [] l hs hs' us vs p q same = absurd (omega (arith, l))
  canonical_entries-injective (e ∷ es) (f ∷ fs) l hs hs' us vs p q same =
      let (x1, x1_ok, p1) = >>=-eq-ok (canonical_entry e) _ p in
      let (x2, x2_ok, p2) = >>=-eq-ok (canonical_entries es) _ p1 in
      let (y1, y1_ok, q1) = >>=-eq-ok (canonical_entry f) _ q in
      let (y2, y2_ok, q2) = >>=-eq-ok (canonical_entries fs) _ q1 in
      let same' : x1 ++ (x2 ++ us) ≡ y1 ++ (y2 ++ vs) =
        sym (append_assoc x1 x2 us)
        ∙ ap (λ z. z ++ us) (ok-injective p2)
        ∙ same
        ∙ ap (λ z. z ++ vs) (sym (ok-injective q2))
        ∙ append_assoc y1 y2 vs in
      let (first, rests) =
        canonical_entry-injective e f (x2 ++ us) (y2 ++ vs) hs.0 hs'.0 x1_ok y1_ok same' in
      let others =
        canonical_entries-injective es fs (omega (arith, l)) hs.1 hs'.1 us vs x2_ok y2_ok rests in
      ap (λ z. z ∷ es) first ∙ ap (λ z. f ∷ z) others

  -- The canonical bytes determine the manifest: two manifests whose entries the constructor of entries
  -- accepts, and that have the same canonical bytes, are equal.
  pub canonical_bytes-injective :
      (m n : SubjectManifest) {bytes : Bytes}
      → All (λ e. manifest_entry e ≡ ok e) m.entries
      → All (λ e. manifest_entry e ≡ ok e) n.entries
      → canonical_bytes m ≡ ok bytes
      → canonical_bytes n ≡ ok bytes
      → m ≡ n
  unfolding canonical_bytes
  canonical_bytes-injective m n hs hs' p q =
      let (x1, x1_ok, p1) =
        >>=-eq-ok
          (encode_atoms
            (canonical_domain ∷ decimal m.schema_version ∷ decimal (length m.entries) ∷ []))
          _ p in
      let (x2, x2_ok, p2) = >>=-eq-ok (canonical_entries m.entries) _ p1 in
      let (y1, y1_ok, q1) =
        >>=-eq-ok
          (encode_atoms
            (canonical_domain ∷ decimal n.schema_version ∷ decimal (length n.entries) ∷ []))
          _ q in
      let (y2, y2_ok, q2) = >>=-eq-ok (canonical_entries n.entries) _ q1 in
      let (header, rests) =
        encode_atoms-injective
          (canonical_domain ∷ decimal m.schema_version ∷ decimal (length m.entries) ∷ [])
          (canonical_domain ∷ decimal n.schema_version ∷ decimal (length n.entries) ∷ []) x2 y2 refl
          x1_ok y1_ok (ok-injective p2 ∙ sym (ok-injective q2)) in
      let (version, count) = header_fields header in
      let entries =
        canonical_entries-injective m.entries n.entries (decimal-injective _ _ count) hs hs' [] []
          x2_ok y2_ok (ap (λ z. z ++ []) rests) in
      λ i. record {
        entries = entries i;
        schema_version = decimal-injective m.schema_version n.schema_version version i;
      }
    where
      header_fields :
          {A : Type 0} {a b c a' b' c' : A}
          → ◌≡◌ {A = List A} (a ∷ b ∷ c ∷ []) (a' ∷ b' ∷ c' ∷ [])
          → (b ≡ b') × (c ≡ c')
      header_fields h = (cc, cc)
