-- ===== src/Manifest/Diff/Total.antt =====
-- `diff_manifests` raises on no pair of manifests: each change that it makes passes the checks of
-- `ManifestChange.__post_init__`.
use codex_claude_author_crit.Prelude.{
  ◌≡◌, ◌≢◌, refl, sym, ◌∙◌, ap, subst, Bool, true, false, Option, none, some, List, [], ◌∷◌, ◌++◌,
  ◌==◌, ◌&&◌, not, map, ok, elem, elem-All, keep, All, All-append, list_eq, list_beq_iff, nat_eq,
  arith, Bool-cases, inl, inr, Returns, option_eq,
}
use codex_claude_author_crit.Prelude.Bytes.{Bytes}
use codex_claude_author_crit.Prelude.Dict.{get, put}
use codex_claude_author_crit.Prelude.Sorting.{sorted}
use codex_claude_author_crit.Manifest.Entry.{
  ManifestEntry, entry_eq, Identity, identity_eq, identity_beq_iff, identity_without_path,
}
use codex_claude_author_crit.Manifest.Change.{ManifestChange, manifest_change, fits}
use codex_claude_author_crit.Manifest.Subject.{SubjectManifest}
use codex_claude_author_crit.Manifest.Diff.{
  ByPath, by_path, missing_keys, shared_keys, modify_at, modifications, entries_at, Groups,
  or_empty, group, pair, renamed, deleted, created, raw_delta, change_lt, check_changes,
  diff_manifests,
}
use codex_claude_author_crit.Manifest.Diff.Keyed.{
  IsKeyed, by_path-IsKeyed, StandsAt, get-StandsAt, path-get, has_value, elem-missing_keys, touches,
}
use codex_claude_author_crit.Manifest.Diff.Touched.{entry_at, diff_manifests-touches}

abbrev Fits : ManifestChange → Type 0
Fits c = fits c.kind c.before c.after ≡ true

modify_at-Fits :
    (q : Bytes) (b a : Option ManifestEntry)
    → StandsAt q b
    → StandsAt q a
    → All Fits (modify_at b a)
unfolding modify_at fits
modify_at-Fits q none a h k = tt
modify_at-Fits q (some b) none h k = tt
modify_at-Fits q (some b) (some a) h k = elim (Bool-cases (b == a)) [
  | inl same ↦ rw same tt
  | inr other ↦ rw other (rw ((list_beq_iff b.path a.path).1 (h ∙ sym k), other) refl, tt)
]

modifications-Fits :
    (b c : ByPath) (ps : List Bytes) → IsKeyed b → IsKeyed c → All Fits (modifications b c ps)
unfolding modifications
modifications-Fits b c [] h k = tt
modifications-Fits b c (p ∷ ps) h k =
    All-append Fits (modify_at (get p b) (get p c)) (modifications b c ps)
      (modify_at-Fits p (get p b) (get p c) (get-StandsAt p b h) (get-StandsAt p c k))
      (modifications-Fits b c ps h k)

module _ (P Q : ManifestEntry → Type 0) where
  -- Each group holds entries of its identity, all of which satisfy `Q`.
  abbrev Sound : Identity → List ManifestEntry → Type 0
  Sound k = All (λ e. Q e × (identity_without_path e ≡ k))

  abbrev AllSound : Groups → Type 0
  AllSound = All (λ kv. Sound kv.0 kv.1)

  put-AllSound :
      (k : Identity) (es : List ManifestEntry) (g : Groups)
      → Sound k es
      → AllSound g
      → AllSound (put k es g)
  unfolding put
  put-AllSound k es [] s h = (s, tt)
  put-AllSound k es ((j, fs) ∷ g) s h = elim (Bool-cases (j == k)) [
    | inl same ↦ rw same (subst (λ i. Sound i es) (sym ((identity_beq_iff j k).0 same)) s, h.1)
    | inr other ↦ rw other (h.0, put-AllSound k es g s h.1)
  ]

  get-Sound : (k : Identity) (g : Groups) → AllSound g → Sound k (or_empty (get k g))
  unfolding get
  get-Sound k [] h = tt
  get-Sound k ((j, es) ∷ g) h = elim (Bool-cases (j == k)) [
    | inl same ↦ rw same (subst (λ i. Sound i es) ((identity_beq_iff j k).0 same) h.0)
    | inr other ↦ rw other (get-Sound k g h.1)
  ]

  group-AllSound :
      (es : List ManifestEntry) (g : Groups) → All Q es → AllSound g → AllSound (group es g)
  unfolding group
  group-AllSound [] g q h = h
  group-AllSound (e ∷ es) g q h =
      let k = identity_without_path e in
      let old = or_empty (get k g) in
      group-AllSound es (put k (old ++ e ∷ []) g) q.1 (
        put-AllSound k (old ++ e ∷ []) g
          (All-append (λ x. Q x × (identity_without_path x ≡ k)) old (e ∷ []) (get-Sound k g h)
            ((q.0, refl), tt))
          h)

  abbrev Paired : List (ManifestEntry × ManifestEntry) → Type 0
  Paired = All (λ r. P r.0 × Q r.1 × (identity_without_path r.0 ≡ identity_without_path r.1))

  pair_step :
      (b : ManifestEntry) (bs : List ManifestEntry) (g : Groups)
      → P b
      → AllSound g
      → ((g' : Groups) → AllSound g' → Paired (pair bs g').renames)
      → (es : List ManifestEntry) → or_empty (get (identity_without_path b) g) ≡ es
      → Sound (identity_without_path b) es
      → Paired (pair (b ∷ bs) g).renames
  unfolding pair
  pair_step b bs g p h ih [] e s = rw (e, pair) (ih g h)
  pair_step b bs g p h ih (a ∷ more) e s =
      let k = identity_without_path b in
      rw (e, pair) ((p, s.0.0, sym s.0.1), ih (put k more g) (put-AllSound k more g s.1 h))

  pair-Paired :
      (bs : List ManifestEntry) (g : Groups) → All P bs → AllSound g → Paired (pair bs g).renames
  unfolding pair
  pair-Paired [] g p h = tt
  pair-Paired (b ∷ bs) g p h =
      pair_step b bs g p.0 h (λ g'. pair-Paired bs g' p.1)
        (or_empty (get (identity_without_path b) g)) refl (get-Sound (identity_without_path b) g h)

renamed-Fits :
    (c : ByPath) (b a : ManifestEntry)
    → get b.path c ≡ none
    → get a.path c ≢ none
    → identity_without_path b ≡ identity_without_path a
    → Fits (renamed b a)
unfolding fits
renamed-Fits c b a absent present same = elim (Bool-cases (b.path == a.path)) [
  | inl one_path ↦
      absurd (present (sym (ap (λ p. get p c) ((list_beq_iff b.path a.path).0 one_path)) ∙ absent))
  | inr two_paths ↦
      rw (two_paths, (identity_beq_iff (identity_without_path b) (identity_without_path a)).1 same)
]

abbrev IsAbsent : ByPath → ManifestEntry → Type 0
IsAbsent c e = get e.path c ≡ none

abbrev IsPresent : ByPath → ManifestEntry → Type 0
IsPresent c e = get e.path c ≢ none

renames-Fits :
    (c : ByPath) (rs : List (ManifestEntry × ManifestEntry))
    → Paired (IsAbsent c) (IsPresent c) rs
    → All Fits (map (λ r. renamed r.0 r.1) rs)
renames-Fits c [] h = tt
renames-Fits c (r ∷ rs) h = (renamed-Fits c r.0 r.1 h.0.0 h.0.1 h.0.2, renames-Fits c rs h.1)

deleted-Fits : (es : List ManifestEntry) → All Fits (map deleted es)
unfolding fits
deleted-Fits [] = tt
deleted-Fits (e ∷ es) = (refl, deleted-Fits es)

created-Fits : (es : List ManifestEntry) → All Fits (map created es)
unfolding fits
created-Fits [] = tt
created-Fits (e ∷ es) = (refl, created-Fits es)

entries_at-All :
    (P : Bytes → Type 0) (d : ByPath) (ps : List Bytes)
    → IsKeyed d
    → All P ps
    → All (λ e. P e.path) (entries_at d ps)
unfolding entries_at
entries_at-All P d [] h k = tt
entries_at-All P d (p ∷ ps) h k = go (get p d) refl (entries_at-All P d ps h k.1)
  where
    go :
        (o : Option ManifestEntry)
        → get p d ≡ o
        → All (λ e. P e.path) (entries_at d ps)
        → All (λ e. P e.path) (entries_at d (p ∷ ps))
    go none e ih = rw (e, entries_at) ih
    go (some x) e ih = rw (e, entries_at) (subst P (sym (path-get p x d h e)) k.0, ih)

absent_of_missing : (p : Bytes) (b c : ByPath) → elem p (missing_keys b c) ≡ true → get p c ≡ none
absent_of_missing p b c h = go (get p c) refl
  where
    go : (o : Option ManifestEntry) → get p c ≡ o → get p c ≡ none
    go none e = e
    go (some x) e = cc (sym h ∙ elem-missing_keys p b c, e)

present_of_missing : (p : Bytes) (b c : ByPath) → elem p (missing_keys b c) ≡ true → get p b ≢ none
present_of_missing p b c h e = absurd (
    not_present (has_value (get p c))
      (sym h ∙ elem-missing_keys p b c ∙ ap (λ o. not (has_value (get p c)) && has_value o) e))
  where
    not_present : (t : Bool) → true ≡ (not t && false) → ⊥
    not_present t k = ground arith

raw_delta-Fits : (base candidate : SubjectManifest) → All Fits (raw_delta base candidate)
unfolding raw_delta
raw_delta-Fits base candidate =
    let b = by_path base.entries in
    let c = by_path candidate.entries in
    let kb = by_path-IsKeyed base.entries in
    let kc = by_path-IsKeyed candidate.entries in
    let removed = entries_at b (missing_keys b c) in
    let added = entries_at c (missing_keys c b) in
    let p = pair removed (group added []) in
    let paired = map (λ r. r.1.path) p.renames in
    let absent =
      entries_at-All (λ q. get q c ≡ none) b (missing_keys b c) kb
        (elem-All (λ q. get q c ≡ none) (missing_keys b c) (λ q. absent_of_missing q b c)) in
    let present =
      entries_at-All (λ q. get q c ≢ none) c (missing_keys c b) kc
        (elem-All (λ q. get q c ≢ none) (missing_keys c b) (λ q. present_of_missing q c b)) in
    let rs =
      pair-Paired (IsAbsent c) (IsPresent c) removed (group added []) absent
        (group-AllSound (IsAbsent c) (IsPresent c) added [] present tt) in
    All-append Fits (modifications b c (shared_keys b c)) _
      (modifications-Fits b c (shared_keys b c) kb kc)
      (All-append Fits (map (λ r. renamed r.0 r.1) p.renames) _ (renames-Fits c p.renames rs) (
        All-append Fits (map deleted p.unpaired) _ (deleted-Fits p.unpaired)
          (created-Fits (keep (λ e. not (elem e.path paired)) added))))

check_changes-Fits : (cs : List ManifestChange) → All Fits cs → check_changes cs ≡ ok cs
unfolding check_changes manifest_change
check_changes-Fits [] h = refl
check_changes-Fits (c ∷ cs) h = rw (h.0, check_changes-Fits cs h.1)

-- For any two manifests the delta is returned: no change that the code makes is refused.
pub diff_manifests_total :
    (base candidate : SubjectManifest)
    → diff_manifests base candidate ≡ ok (sorted change_lt (raw_delta base candidate))
unfolding diff_manifests
diff_manifests_total base candidate =
    rw (check_changes-Fits (raw_delta base candidate) (raw_delta-Fits base candidate)) refl

-- `diff_manifests` returns for every two manifests, and the delta that it returns touches a path
-- exactly when the entries of the two at the path differ (one may be missing): nothing that changed
-- is left out, and nothing unchanged is in.
pub diff_manifests_exact :
    (base candidate : SubjectManifest)
    → Returns
        (λ delta. (p : Bytes) → touches p delta ≡ not (entry_at base p == entry_at candidate p))
        (diff_manifests base candidate)
diff_manifests_exact base candidate =
    rw diff_manifests_total
      (λ p. diff_manifests-touches base candidate p (diff_manifests_total base candidate))
