-- ===== src/Manifest/Reconcile/Safety.antt =====
-- What a reconciled candidate may have changed, and what its authoritative manifest holds.
use codex_claude_author_crit.Prelude.{
  not, ◌≡◌, ◌≢◌, refl, ◌∙◌, ap, subst, true, false, none, List, [], ◌∷◌, ◌==◌, ◌||◌, any, elem,
  unique, ok, >>=-eq-ok, ok-injective, list_eq, list_beq_iff, option_eq, option_beq_iff, nat_eq,
  arith, Bool-cases, inl, inr, if◌then◌else◌,
}
use codex_claude_author_crit.Prelude.Bytes.{Bytes}
use codex_claude_author_crit.Prelude.Dict.{get}
use codex_claude_author_crit.Paths.Glob.{ComponentMatch}
use codex_claude_author_crit.Paths.Policy.{
  PathPolicy, PathDisposition, protected, discard_only, classify,
}
use codex_claude_author_crit.Manifest.Entry.{ManifestEntry, entry_eq, entry_beq_iff}
use codex_claude_author_crit.Manifest.Change.{
  ManifestChange, paths, is_protected, is_discard, classify_each,
}
use codex_claude_author_crit.Manifest.Limits.{Limits}
use codex_claude_author_crit.Manifest.Subject.{SubjectManifest, subject_manifest, build, path_lt}
use codex_claude_author_crit.Manifest.Subject.Shape.{
  IsWellFormed, subject_manifest-IsWellFormed, build_lem,
}
use codex_claude_author_crit.Prelude.Sorting.Laws.{elem-sorted}
use codex_claude_author_crit.Manifest.Diff.Lookup.{get-by_path_same, lookup_unique}
use codex_claude_author_crit.Manifest.Diff.{diff_manifests, by_path}
use codex_claude_author_crit.Manifest.Diff.Keyed.{touches}
use codex_claude_author_crit.Manifest.Diff.Touched.{entry_at, diff_manifests-touches}
use codex_claude_author_crit.Manifest.Reconcile.{
  ReconciliationResult, check_protection, retained, sort_changes, discarded, reconcile_candidate,
}

module _ ⦃m : ComponentMatch⦄ (policy : PathPolicy) where
  classify_each_protected :
      (p : Bytes) (ps : List Bytes) {ds : List PathDisposition}
      → classify_each policy ps ≡ ok ds
      → elem p ps ≡ true
      → classify policy p ≡ ok protected
      → any is_protected ds ≡ true
  unfolding classify_each elem any is_protected
  classify_each_protected p [] e i h = cc
  classify_each_protected p (q ∷ ps) e i h =
      let (d, e', rest) = >>=-eq-ok (classify policy q) _ e in
      let (ds', e'', last) = >>=-eq-ok (classify_each policy ps) _ rest in
      ground (arith, list_beq_iff q p, classify_each_protected p ps e'', e', last)

  -- A delta that passes the protection loop touches no protected path.
  check_protection-touches :
      (p : Bytes) (cs : List ManifestChange)
      → check_protection policy cs ≡ ok tt
      → classify policy p ≡ ok protected
      → touches p cs ≡ false
  unfolding check_protection any
  check_protection-touches p [] e h = refl
  check_protection-touches p (c ∷ cs) e h =
      let (ds, e', rest) = >>=-eq-ok (classify_each policy (paths c)) _ e in
      ground (arith, classify_each_protected p (paths c) e', check_protection-touches p cs, rest)

  elem-retained_discard :
      (e : ManifestEntry) (es : List ManifestEntry) {kept : List ManifestEntry}
      → retained policy es ≡ ok kept
      → classify policy e.path ≡ ok discard_only
      → elem e kept ≡ false
  unfolding retained is_discard elem
  elem-retained_discard e [] h c = ground arith
  elem-retained_discard e (x ∷ es) h c =
      let (d, h1, h2) = >>=-eq-ok (classify policy x.path) _ h in
      let (rest, h3, h4) = >>=-eq-ok (retained policy es) _ h2 in
      ground (arith, h1, h4, elem-retained_discard e es h3 c, entry_beq_iff x e)

  elem-retained_kept :
      (e : ManifestEntry) (es : List ManifestEntry) {kept : List ManifestEntry}
      → retained policy es ≡ ok kept
      → classify policy e.path ≢ ok discard_only
      → elem e kept ≡ elem e es
  unfolding retained is_discard elem
  elem-retained_kept e [] h c = ground arith
  elem-retained_kept e (x ∷ es) h c =
      let (d, h1, h2) = >>=-eq-ok (classify policy x.path) _ h in
      let (rest, h3, h4) = >>=-eq-ok (retained policy es) _ h2 in
      kept_step e x es d rest h1 (ok-injective h4) c (elem-retained_kept e es h3 c)
    where
      kept_step :
          (e x : ManifestEntry) (es : List ManifestEntry) (d : PathDisposition)
          (rest : List ManifestEntry) {kept : List ManifestEntry}
          → classify policy x.path ≡ ok d
          → (if is_discard d then rest else x ∷ rest) ≡ kept
          → classify policy e.path ≢ ok discard_only
          → elem e rest ≡ elem e es
          → elem e kept ≡ (x == e || elem e es)
      kept_step e x es discard_only rest h1 h4 c ih = elim (Bool-cases (x == e)) [
        | inl same ↦ absurd (
            c (
              subst (λ (y : ManifestEntry). classify policy y.path ≡ ok discard_only)
                ((entry_beq_iff x e).0 same) h1))
        | inr other ↦ rw other (ground (arith, h4, ih))
      ]
      kept_step e x es d rest h1 h4 c ih = ground (arith, h4, ih)

  -- The steps of a reconciliation that returned.
  abbrev Steps : SubjectManifest → SubjectManifest → Limits → ReconciliationResult → Type 0
  Steps base candidate l r =
      (kept : List ManifestEntry) × (diff_manifests base candidate ≡ ok r.candidate_delta)
      × (check_protection policy r.candidate_delta ≡ ok tt)
      × (retained policy candidate.entries ≡ ok kept)
      × (build l kept ≡ ok r.authoritative_manifest)
      × (diff_manifests base r.authoritative_manifest ≡ ok r.authoritative_delta)

  reconcile-Steps :
      (base candidate : SubjectManifest) (l : Limits) (r : ReconciliationResult)
      → reconcile_candidate policy base candidate l ≡ ok r
      → Steps base candidate l r
  unfolding reconcile_candidate
  reconcile-Steps base candidate l r h =
      let (delta, h1, k1) = >>=-eq-ok (diff_manifests base candidate) _ h in
      let (u, h2, k2) = >>=-eq-ok (check_protection policy delta) _ k1 in
      let (kept, h3, k3) = >>=-eq-ok (retained policy candidate.entries) _ k2 in
      let (auth, h4, k4) = >>=-eq-ok (build l kept) _ k3 in
      let (delta', h5, k5) = >>=-eq-ok (diff_manifests base auth) _ k4 in
      let (s, h6, k6) = >>=-eq-ok (sort_changes policy delta') _ k5 in
      let (dropped, h7, k7) = >>=-eq-ok (discarded policy delta) _ k6 in
      subst (Steps base candidate l) (ok-injective k7) (kept, h1, h2, h3, h4, h5)

  -- When a reconciliation succeeds, the candidate has, at every protected path, the entry that
  -- the base has.
  pub reconcile_candidate_protected :
      (base candidate : SubjectManifest) (l : Limits) (r : ReconciliationResult) (p : Bytes)
      → reconcile_candidate policy base candidate l ≡ ok r
      → classify policy p ≡ ok protected
      → entry_at candidate p ≡ entry_at base p
  reconcile_candidate_protected base candidate l r p h c =
      let (kept, h1, h2, h3, h4, h5) = reconcile-Steps base candidate l r h in
      let untouched = check_protection-touches p r.candidate_delta h2 c in
      let exact = diff_manifests-touches base candidate p h1 in
      ground (arith, untouched, exact, option_beq_iff (entry_at base p) (entry_at candidate p))

  -- When the candidate is one that its constructor accepts and the reconciliation succeeds, the
  -- authoritative manifest is well-formed, has no entry at a discard-only path, and has the
  -- candidate's entry at any other path.
  pub reconcile_candidate_authoritative :
      (base candidate : SubjectManifest) (l : Limits) (r : ReconciliationResult)
      → subject_manifest candidate ≡ ok candidate
      → reconcile_candidate policy base candidate l ≡ ok r
      → IsWellFormed r.authoritative_manifest
        × ((p : Bytes)
            → classify policy p ≡ ok discard_only
            → entry_at r.authoritative_manifest p ≡ none)
        × ((p : Bytes)
            → classify policy p ≢ ok discard_only
            → entry_at r.authoritative_manifest p ≡ entry_at candidate p)
  unfolding elem unique get by_path
  reconcile_candidate_authoritative base candidate l r valid h =
      let (kept, h1, h2, h3, h4, h5) = reconcile-Steps base candidate l r h in
      let a = r.authoritative_manifest in
      let (entries, accepted, bounded) = build_lem l kept a h4 in
      let shape = subject_manifest-IsWellFormed a accepted in
      let shape_c = subject_manifest-IsWellFormed candidate valid in
      let in_a : (e : ManifestEntry) → elem e a.entries ≡ elem e kept =
        λ e. ap (elem e) entries ∙ elem-sorted path_lt e kept in
      (
        shape,
        λ p c.
            get-by_path_same p a.entries [] shape.distinct refl
              (λ e at_p. in_a e ∙ elem-retained_discard e candidate.entries h3 (rw at_p c)),
        λ p c.
            get-by_path_same p a.entries candidate.entries shape.distinct shape_c.distinct
              (λ e at_p.
                in_a e
                ∙ elem-retained_kept e candidate.entries h3
                    (λ q. c (subst (λ x. classify policy x ≡ ok discard_only) at_p q))),
      )

  -- When the candidate is one that its constructor accepts and the reconciliation succeeds, the
  -- authoritative delta touches a path that is not discard-only exactly when the candidate's
  -- delta touches it.
  pub reconcile_candidate_complete :
      (base candidate : SubjectManifest) (l : Limits) (r : ReconciliationResult) (p : Bytes)
      → subject_manifest candidate ≡ ok candidate
      → reconcile_candidate policy base candidate l ≡ ok r
      → classify policy p ≢ ok discard_only
      → touches p r.authoritative_delta ≡ touches p r.candidate_delta
  reconcile_candidate_complete base candidate l r p valid h c =
      let (kept, h1, h2, h3, h4, h5) = reconcile-Steps base candidate l r h in
      let same = (reconcile_candidate_authoritative base candidate l r valid h).2 p c in
      rw (diff_manifests-touches base r.authoritative_manifest p h5) (
        rw (diff_manifests-touches base candidate p h1) (ap (λ x. not (entry_at base p == x)) same))

  protected_kept :
      (p : Bytes) → classify policy p ≡ ok protected → classify policy p ≢ ok discard_only
  protected_kept p h k = cc

  -- When a reconciliation succeeds, the authoritative manifest has, at every protected path, the entry
  -- that the base has, whatever the candidate is.
  pub reconcile_candidate_published :
      (base candidate : SubjectManifest) (l : Limits) (r : ReconciliationResult) (p : Bytes)
      → reconcile_candidate policy base candidate l ≡ ok r
      → classify policy p ≡ ok protected
      → entry_at r.authoritative_manifest p ≡ entry_at base p
  reconcile_candidate_published base candidate l r p h c =
      let (kept, h1, h2, h3, h4, h5) = reconcile-Steps base candidate l r h in
      let a = r.authoritative_manifest in
      let (entries, accepted, bounded) = build_lem l kept a h4 in
      let shape = subject_manifest-IsWellFormed a accepted in
      lookup_unique p a.entries candidate.entries shape.distinct (λ e at_p.
        ap (elem e) entries
        ∙ elem-sorted path_lt e kept
        ∙ elem-retained_kept e candidate.entries h3
            (λ q. protected_kept p c (subst (λ x. classify policy x ≡ ok discard_only) at_p q)))
      ∙ reconcile_candidate_protected base candidate l r p h c
