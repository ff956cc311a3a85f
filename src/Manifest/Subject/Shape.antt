-- ===== src/Manifest/Subject/Shape.antt =====
-- What the checks of `SubjectManifest.__post_init__` give: an ordered list of distinct paths, none
-- of which lies under another.
use codex_claude_author_crit.Prelude.{
  ◌≡◌, sym, ◌∙◌, ap, subst, true, false, List, [], ◌∷◌, ◌==◌, any, elem, unique, All, All-elem,
  any-false-All, nat_eq, list_eq, list_beq_iff, ok, ok-injective, >>=-eq-ok, Bool-cases, inl, inr,
  arith,
}
use codex_claude_author_crit.Prelude.Bytes.{Bytes, slash, split, bytes_lt}
use codex_claude_author_crit.Prelude.Bytes.Order.{
  ancestors, ancestors_lt, bytes_order, bytes_lt_irrefl,
}
use codex_claude_author_crit.Prelude.Sorting.{sorted}
use codex_claude_author_crit.Prelude.Sorting.Laws.{InOrder, sorted-InOrder}
use codex_claude_author_crit.Manifest.Subject.{
  SubjectManifest, subject_manifest, check_nesting, entry_paths, subject_schema_version, build,
  validate_limits, path_lt,
}
use codex_claude_author_crit.Manifest.Limits.{Limits}
use codex_claude_author_crit.Manifest.Entry.{ManifestEntry}

abbrev pub IsAncestor : Bytes → Bytes → Type 0
IsAncestor a b = elem a (ancestors slash (split slash b)) ≡ true

pub record IsWellFormed (m : SubjectManifest) : Type 0 where
  pub versioned : m.schema_version ≡ subject_schema_version
  pub ordered : InOrder bytes_lt (entry_paths m.entries)
  pub distinct : unique (entry_paths m.entries) ≡ true
  pub flat :
      (a b : Bytes)
      → elem a (entry_paths m.entries) ≡ true
      → elem b (entry_paths m.entries) ≡ true
      → ¬ IsAncestor a b

not-IsAncestor_self : (a : Bytes) → ¬ IsAncestor a a
not-IsAncestor_self a h = cc (
  All-elem (λ t. bytes_lt t a ≡ true) a (ancestors slash (split slash a)) (ancestors_lt slash a) h,
  bytes_lt_irrefl a,
)

check_nesting_step :
    (seen : List Bytes) (p : Bytes) (ps : List Bytes)
    → check_nesting seen (p ∷ ps) ≡ ok tt
    → All (λ q. elem q seen ≡ false) (ancestors slash (split slash p))
      × (check_nesting (p ∷ seen) ps ≡ ok tt)
unfolding check_nesting
check_nesting_step seen p ps h =
    elim (Bool-cases (any (λ q. elem q seen) (ancestors slash (split slash p)))) [
      | inl found ↦ cc (rw found at h)
      | inr free ↦
          (any-false-All (λ q. elem q seen) (ancestors slash (split slash p)) free, rw free at h)
    ]

seen_later : (a p : Bytes) (seen : List Bytes) → elem a seen ≡ true → elem a (p ∷ seen) ≡ true
unfolding elem
seen_later a p seen h = ground (arith)

-- No ancestor of a path that the loop still has to visit has been seen.
unseen :
    (seen ps : List Bytes) (a b : Bytes)
    → check_nesting seen ps ≡ ok tt
    → elem a seen ≡ true
    → elem b ps ≡ true
    → ¬ IsAncestor a b
unfolding elem
unseen seen [] a b h s m anc = cc
unseen seen (p ∷ ps) a b h s m anc =
    let (free, rest) = check_nesting_step seen p ps h in
    elim (Bool-cases (p == b)) [
      | inl here ↦ cc (
        All-elem (λ q. elem q seen ≡ false) a (ancestors slash (split slash p)) free
            (subst (IsAncestor a) (sym ((list_beq_iff p b).0 here)) anc),
        s,
      )
      | inr there ↦ unseen (p ∷ seen) ps a b rest (seen_later a p seen s) (rw there at m) anc
    ]

flat_paths :
    (seen ps : List Bytes) (a b : Bytes)
    → InOrder bytes_lt ps
    → check_nesting seen ps ≡ ok tt
    → elem a ps ≡ true
    → elem b ps ≡ true
    → ¬ IsAncestor a b
unfolding elem
flat_paths seen [] a b o h m n anc = cc
flat_paths seen (p ∷ ps) a b o h m n anc =
    let (free, rest) = check_nesting_step seen p ps h in
    elim (Bool-cases (p == b)) [
      | inl last ↦ elim (Bool-cases (p == a)) [
        | inl same ↦ not-IsAncestor_self p (
            subst (IsAncestor p) (sym ((list_beq_iff p b).0 last))
              (subst (λ x. IsAncestor x b) (sym ((list_beq_iff p a).0 same)) anc))
        | inr after ↦ cc (
          All-elem (λ t. bytes_lt t p ≡ true) a (ancestors slash (split slash p))
              (ancestors_lt slash p) (subst (IsAncestor a) (sym ((list_beq_iff p b).0 last)) anc),
          All-elem (λ y. bytes_lt y p ≡ false) a ps o.0 (rw after at m),
        )
      ]
      | inr later ↦ elim (Bool-cases (p == a)) [
        | inl first ↦ unseen (p ∷ seen) ps a b rest (seen_head a p seen first) (rw later at n) anc
        | inr after ↦ flat_paths (p ∷ seen) ps a b o.1 rest (rw after at m) (rw later at n) anc
      ]
    ]
  where
    seen_head : (a p : Bytes) (seen : List Bytes) → (p == a) ≡ true → elem a (p ∷ seen) ≡ true
    seen_head a p seen h = rw h

passed :
    (m : SubjectManifest)
    → subject_manifest m ≡ ok m
    → (m.schema_version ≡ subject_schema_version)
      × ((entry_paths m.entries == sorted bytes_lt (entry_paths m.entries)) ≡ true)
      × (unique (entry_paths m.entries) ≡ true)
      × (check_nesting [] (entry_paths m.entries) ≡ ok tt)
unfolding subject_manifest
passed m h = ground arith

pub subject_manifest-IsWellFormed :
    (m : SubjectManifest) → subject_manifest m ≡ ok m → IsWellFormed m
subject_manifest-IsWellFormed m h =
    let (v, sorted_ok, distinct, nested) = passed m h in
    let ps = entry_paths m.entries in
    let o =
      subst (InOrder bytes_lt) (sym ((list_beq_iff ps (sorted bytes_lt ps)).0 sorted_ok))
        (sorted-InOrder bytes_lt bytes_order ps) in
    record {
      versioned = v;
      ordered = o;
      distinct = distinct;
      flat = λ a b i j. flat_paths [] ps a b o nested i j;
    }

-- The constructor returns the manifest that it was given.
pub subject_manifest_same :
    (m : SubjectManifest) {n : SubjectManifest} → subject_manifest m ≡ ok n → m ≡ n
unfolding subject_manifest
subject_manifest_same m h = ground arith

pub build_lem :
    (l : Limits) (es : List ManifestEntry) (a : SubjectManifest)
    → build l es ≡ ok a
    → (a.entries ≡ sorted path_lt es) × (subject_manifest a ≡ ok a) × (validate_limits l a ≡ ok tt)
unfolding build
build_lem l es a h =
    let r : SubjectManifest = record {
      entries = sorted path_lt es;
      schema_version = subject_schema_version;
    } in
    let (n, h1, k1) = >>=-eq-ok (subject_manifest r) _ h in
    let (u, h2, k2) = >>=-eq-ok (validate_limits l n) _ k1 in
    let n_a : n ≡ a = ok-injective k2 in
    let r_a : r ≡ a = subject_manifest_same r h1 ∙ n_a in
    (
      ap (λ (x : SubjectManifest). x.entries) (sym r_a),
      subst (λ x. subject_manifest x ≡ ok a) r_a (subst (λ x. subject_manifest r ≡ ok x) n_a h1),
      subst (λ x. validate_limits l x ≡ ok tt) n_a h2,
    )
