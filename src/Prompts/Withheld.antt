-- ===== src/Prompts/Withheld.antt =====
-- What `build_review_bundle` of prompts.py keeps from the critic, and how large a bundle is.
use codex_claude_author_crit.Prelude.{
  ◌+◌, ◌≤◌, ◌≡◌, refl, String, false, Option, none, some, List, [], ◌∷◌, ok, ltb, length, >>=-eq-ok,
  fail_if-eq-ok, ok-injective, arith, All, subst,
}
use codex_claude_author_crit.Prelude.Bytes.{Bytes}
use codex_claude_author_crit.Paths.Glob.{ComponentMatch}
use codex_claude_author_crit.Manifest.Entry.{Digest, EntryKind, regular, symlink, ManifestEntry}
use codex_claude_author_crit.Manifest.Change.{ManifestChange}
use codex_claude_author_crit.Manifest.Limits.{review_context_tokens}
use codex_claude_author_crit.Manifest.Diff.{by_path}
use codex_claude_author_crit.Manifest.Blobs.{BlobReader}
use codex_claude_author_crit.Manifest.Canonical.{asserted, fingerprint}
use codex_claude_author_crit.Validation.Declassify.{Base64, KnownSecret}
use codex_claude_author_crit.Validation.Declassify.Shown.{Shows, any-Shows}
use codex_claude_author_crit.Validation.Declassify.Stretch.{Holds-folded}
use codex_claude_author_crit.Critic.Json.{Json}
use codex_claude_author_crit.Runner.Secrets.{Codecs}
use codex_claude_author_crit.Prompts.{ReviewBundle}
use codex_claude_author_crit.Prompts.Bundle.{
  BundleInput, sensitive_path, form_inside, contains_secret, shown_content, entry_descriptor,
  optional_descriptor, change_descriptor,
}
use codex_claude_author_crit.Prompts.Review.{
  check_input, change_descriptors, context_descriptors, opaque_descriptors, review_document,
  bounded_bundle, build_review_bundle,
}

module _ ⦃b : Base64⦄ where
  -- The test for secrets passes, and no encoding of a secret stands in the bytes.
  abbrev pub IsClear : Bytes → List KnownSecret → Type 0
  IsClear content secrets = (contains_secret content secrets ≡ false) × (¬ Shows content secrets)

  contains_secret-IsClear :
      (content : Bytes) (secrets : List KnownSecret)
      → contains_secret content secrets ≡ false
      → IsClear content secrets
  unfolding contains_secret form_inside
  contains_secret-IsClear content secrets free = (
    free,
    λ shows.
        let found =
          any-Shows (form_inside content) content secrets
            (λ form held. let k = Holds-folded content form held in ground (arith, k)) shows in
        cc,
  )

module _ ⦃b : Base64⦄ (blobs : BlobReader) (secrets : List KnownSecret) where
  -- The entry's content, or its target, is there and holds no known secret.
  abbrev pub IsFree : EntryKind → ManifestEntry → Type 0
  IsFree regular e =
      (digest : String) × (content : Bytes) × (e.blob_sha256 ≡ some digest)
      × (blobs.read_blob digest ≡ ok content)
      × IsClear content secrets
  IsFree symlink e = (target : Bytes) × (e.symlink_target ≡ some target) × IsClear target secrets

  -- The entry may be shown, if there is one.
  abbrev pub MayShow : ⦃m : ComponentMatch⦄ → Option ManifestEntry → Type 0
  MayShow none = Unit {0}
  MayShow (some e) = (sensitive_path e.path ≡ false) × IsFree e.kind e

asserted-some : {A : Type 0} (x : Option A) (a : A) → asserted x ≡ ok a → x ≡ some a
asserted-some none a h = cc
asserted-some (some x) a h = cc

module _ ⦃m : ComponentMatch⦄ ⦃b : Base64⦄ ⦃d : Digest⦄ ⦃j : Codecs⦄ (blobs : BlobReader)
    (secrets : List KnownSecret) where
  shown_content-IsFree :
      (k : EntryKind) (e : ManifestEntry) (fields : List (String × Json))
      → shown_content blobs secrets k e ≡ ok fields
      → IsFree blobs secrets k e
  unfolding shown_content
  shown_content-IsFree regular e fields h =
      let (digest, digest_is, h1) = >>=-eq-ok (asserted e.blob_sha256) _ h in
      let (size, size_is, h2) = >>=-eq-ok (asserted e.size) _ h1 in
      let (content, content_is, h3) = >>=-eq-ok (blobs.read_blob digest) _ h2 in
      let (_, h4) = fail_if-eq-ok _ _ _ h3 in
      let (free, _) = fail_if-eq-ok (contains_secret content secrets) _ _ h4 in
      (
        digest,
        content,
        asserted-some e.blob_sha256 digest digest_is,
        content_is,
        contains_secret-IsClear content secrets free,
      )
  shown_content-IsFree symlink e fields h =
      let (target, target_is, h1) = >>=-eq-ok (asserted e.symlink_target) _ h in
      let (free, _) = fail_if-eq-ok (contains_secret target secrets) _ _ h1 in
      (
        target,
        asserted-some e.symlink_target target target_is,
        contains_secret-IsClear target secrets free,
      )

  optional_descriptor-MayShow :
      (e : Option ManifestEntry) (document : Json)
      → optional_descriptor blobs secrets e ≡ ok document
      → MayShow blobs secrets e
  unfolding optional_descriptor entry_descriptor
  optional_descriptor-MayShow none document h = tt
  optional_descriptor-MayShow (some e) document h =
      let (plain, h1) = fail_if-eq-ok (sensitive_path e.path) _ _ h in
      let (fields, shown, _) = >>=-eq-ok (shown_content blobs secrets e.kind e) _ h1 in
      (plain, shown_content-IsFree e.kind e fields shown)

  -- Both sides of a change may be shown.
  abbrev pub ShowsBoth : ManifestChange → Type 0
  ShowsBoth c = MayShow blobs secrets c.before × MayShow blobs secrets c.after

  change_descriptors-ShowsBoth :
      (cs : List ManifestChange) (documents : List Json)
      → change_descriptors blobs secrets cs ≡ ok documents
      → All ShowsBoth cs
  unfolding change_descriptors change_descriptor
  change_descriptors-ShowsBoth [] documents h = tt
  change_descriptors-ShowsBoth (c ∷ cs) documents h =
      let (first, first_ok, h1) = >>=-eq-ok (change_descriptor blobs secrets c) _ h in
      let (rest, rest_ok, _) = >>=-eq-ok (change_descriptors blobs secrets cs) _ h1 in
      let (before, before_ok, h2) =
        >>=-eq-ok (optional_descriptor blobs secrets c.before) _ first_ok in
      let (after, after_ok, _) = >>=-eq-ok (optional_descriptor blobs secrets c.after) _ h2 in
      (
        (
          optional_descriptor-MayShow c.before before before_ok,
          optional_descriptor-MayShow c.after after after_ok,
        ),
        change_descriptors-ShowsBoth cs rest rest_ok,
      )

module _ ⦃m : ComponentMatch⦄ ⦃b : Base64⦄ ⦃d : Digest⦄ ⦃j : Codecs⦄ where
  -- The lengths of a bundle are within the limits of the input.
  pub record IsBounded (i : BundleInput) (bundle : ReviewBundle) : Type 0 where
    pub bytes : length bundle.encoded ≤ i.limits.max_bundle_bytes
    pub tokens : bundle.estimated_input_tokens ≤ i.limits.max_estimated_input_tokens
    pub context :
        bundle.estimated_input_tokens + i.limits.reserved_output_tokens ≤ review_context_tokens
    pub conservative : bundle.estimated_input_tokens ≡ length bundle.encoded

  bounded_bundle-IsBounded :
      (i : BundleInput) (document : Json) (bundle : ReviewBundle)
      → bounded_bundle i document ≡ ok bundle
      → IsBounded i bundle
  unfolding bounded_bundle
  bounded_bundle-IsBounded i document bundle h =
      let encoded = j.json_bytes document in
      let (small, h1) = fail_if-eq-ok (ltb i.limits.max_bundle_bytes (length encoded)) _ _ h in
      let (few, h2) =
        fail_if-eq-ok (ltb i.limits.max_estimated_input_tokens (length encoded)) _ _ h1 in
      let (room, h3) =
        fail_if-eq-ok (ltb review_context_tokens (length encoded + i.limits.reserved_output_tokens))
          _ _ h2 in
      subst (IsBounded i) (ok-injective h3) (record {
        bytes = ground (arith, small);
        tokens = ground (arith, few);
        context = ground (arith, room);
        conservative = refl;
      })

  -- When a bundle is built, no path of a semantic change, before or after it, is a sensitive one, the
  -- content or the target of each of its entries was read and holds, up to case and white space, no
  -- encoding of a known secret, and the bundle's bytes and its estimated tokens, together with the
  -- reserved output, are within the limits.
  pub build_review_bundle_withholds :
      (i : BundleInput) (bundle : ReviewBundle)
      → build_review_bundle i ≡ ok bundle
      → All (ShowsBoth i.blobs i.known_secrets) i.semantic_changes × IsBounded i bundle
  unfolding build_review_bundle
  build_review_bundle_withholds i bundle h =
      let (_, _, h1) = >>=-eq-ok (check_input i) _ h in
      let (changes, changes_ok, h2) =
        >>=-eq-ok (change_descriptors i.blobs i.known_secrets i.semantic_changes) _ h1 in
      let (context, _, h3) =
        >>=-eq-ok
          (context_descriptors i.blobs i.known_secrets (by_path i.subject.entries) i.context_paths)
          _ h2 in
      let (base_identity, _, h4) = >>=-eq-ok (fingerprint i.base) _ h3 in
      let (identity, _, h5) = >>=-eq-ok (fingerprint i.subject) _ h4 in
      let (passed, _, h6) = >>=-eq-ok (opaque_descriptors i.opaque_changes) _ h5 in
      (
        change_descriptors-ShowsBoth i.blobs i.known_secrets i.semantic_changes changes changes_ok,
        bounded_bundle-IsBounded i
            (review_document i base_identity identity changes passed context.0 context.1) bundle h6,
      )
