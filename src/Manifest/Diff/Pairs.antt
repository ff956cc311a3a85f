-- ===== src/Manifest/Diff/Pairs.antt =====
-- The pairing of removed with added entries loses no path and invents none.
use codex_claude_author_crit.Prelude.{
  ◌≡◌, refl, Bool, true, false, List, [], ◌∷◌, ◌++◌, ◌==◌, ◌&&◌, ◌||◌, not, map, elem, any,
  any-append, keep, nat_eq, list_eq, list_beq_iff, arith, Bool-cases, inl, inr,
}
use codex_claude_author_crit.Prelude.Bytes.{Bytes}
use codex_claude_author_crit.Prelude.Dict.{get, put}
use codex_claude_author_crit.Manifest.Entry.{
  ManifestEntry, Identity, identity_without_path, identity_eq,
}
use codex_claude_author_crit.Manifest.Change.{paths, entry_paths}
use codex_claude_author_crit.Manifest.Diff.{
  Groups, or_empty, group, pair, renamed, deleted, created,
}
use codex_claude_author_crit.Manifest.Diff.Keyed.{holds, touches}

-- Some group holds an entry with this path.
grouped : Bytes → Groups → Bool
grouped p g = any (λ kv. holds p kv.1) g

abbrev pub has_before : Bytes → List (ManifestEntry × ManifestEntry) → Bool
has_before p = any (λ r. r.0.path == p)

abbrev pub has_after : Bytes → List (ManifestEntry × ManifestEntry) → Bool
has_after p = any (λ r. r.1.path == p)

grouped-get :
    (p : Bytes) (k : Identity) (g : Groups)
    → holds p (or_empty (get k g)) ≡ true
    → grouped p g ≡ true
unfolding grouped any get
grouped-get p k [] h = h
grouped-get p k ((j, es) ∷ g) h = ground (arith, grouped-get p k g)

grouped-put :
    (p : Bytes) (k : Identity) (es : List ManifestEntry) (g : Groups)
    → grouped p (put k es g) ≡ true
    → (holds p es || grouped p g) ≡ true
unfolding grouped any put
grouped-put p k es [] h = h
grouped-put p k es ((j, fs) ∷ g) h = ground (arith, grouped-put p k es g)

grouped-group :
    (p : Bytes) (es : List ManifestEntry) (g : Groups)
    → grouped p (group es g) ≡ true
    → (holds p es || grouped p g) ≡ true
unfolding group any
grouped-group p [] g h = h
grouped-group p (e ∷ es) g h =
    let k = identity_without_path e in
    let old = or_empty (get k g) in
    ground (
      arith,
      grouped-group p es (put k (old ++ e ∷ []) g) h,
      grouped-put p k (old ++ e ∷ []) g,
      any-append (λ x. x.path == p) old (e ∷ []),
      grouped-get p k g,
    )

abbrev Removed : Bytes → List ManifestEntry → Groups → Type 0
Removed p bs g = (has_before p (pair bs g).renames || holds p (pair bs g).unpaired) ≡ holds p bs

Removed-step :
    (p : Bytes) (b : ManifestEntry) (bs : List ManifestEntry) (g : Groups)
    → ((g' : Groups) → Removed p bs g')
    → (es : List ManifestEntry) → or_empty (get (identity_without_path b) g) ≡ es
    → Removed p (b ∷ bs) g
unfolding pair any
Removed-step p b bs g ih [] e = rw (e, pair) (ground (arith, ih g))
Removed-step p b bs g ih (a ∷ more) e =
    rw (e, pair) (ground (arith, ih (put (identity_without_path b) more g)))

-- Every removed entry is the start of a rename or is left unpaired, and nothing else is.
pub pair-Removed : (p : Bytes) (bs : List ManifestEntry) (g : Groups) → Removed p bs g
unfolding pair any
pair-Removed p [] g = refl
pair-Removed p (b ∷ bs) g =
    Removed-step p b bs g (pair-Removed p bs) (or_empty (get (identity_without_path b) g)) refl

abbrev Added : Bytes → List ManifestEntry → Groups → Type 0
Added p bs g = has_after p (pair bs g).renames ≡ true → grouped p g ≡ true

Added-step :
    (p : Bytes) (b : ManifestEntry) (bs : List ManifestEntry) (g : Groups)
    → ((g' : Groups) → Added p bs g')
    → (es : List ManifestEntry) → or_empty (get (identity_without_path b) g) ≡ es
    → Added p (b ∷ bs) g
unfolding pair any
Added-step p b bs g ih [] e h = ih g (rw (e, pair) at h)
Added-step p b bs g ih (a ∷ more) e h =
    let k = identity_without_path b in
    let h' : (a.path == p || has_after p (pair bs (put k more g)).renames) ≡ true =
      rw (e, pair) at h in
    let popped : (a.path == p || holds p more) ≡ true → grouped p g ≡ true =
      λ q. grouped-get p k g (rw e q) in
    ground (arith, ih (put k more g), grouped-put p k more g, h', popped)

-- The pairing takes its added entries from the groups.
pair-Added : (p : Bytes) (bs : List ManifestEntry) (g : Groups) → Added p bs g
unfolding pair any
pair-Added p [] g h = cc
pair-Added p (b ∷ bs) g h =
    Added-step p b bs g (pair-Added p bs) (or_empty (get (identity_without_path b) g)) refl h

or_false : (b : Bool) → (b || false) ≡ true → b ≡ true
or_false b h = ground arith

-- A path that a rename ends at is the path of an added entry.
pub has_after-holds :
    (p : Bytes) (removed added : List ManifestEntry)
    → has_after p (pair removed (group added [])).renames ≡ true
    → holds p added ≡ true
unfolding any grouped
has_after-holds p removed added h =
    or_false (holds p added) (grouped-group p added [] (pair-Added p removed (group added []) h))

pub touches-renamed :
    (p : Bytes) (rs : List (ManifestEntry × ManifestEntry))
    → touches p (map (λ r. renamed r.0 r.1) rs) ≡ (has_before p rs || has_after p rs)
unfolding any paths entry_paths elem
touches-renamed p [] = refl
touches-renamed p ((b, a) ∷ rs) = ground (arith, touches-renamed p rs, list_beq_iff b.path a.path)

pub touches-deleted :
    (p : Bytes) (es : List ManifestEntry) → touches p (map deleted es) ≡ holds p es
unfolding any paths entry_paths elem
touches-deleted p [] = refl
touches-deleted p (e ∷ es) = ground (arith, touches-deleted p es)

pub elem-after :
    (p : Bytes) (rs : List (ManifestEntry × ManifestEntry))
    → elem p (map (λ r. r.1.path) rs) ≡ has_after p rs
unfolding any elem
elem-after p [] = refl
elem-after p (r ∷ rs) = ground (arith, elem-after p rs)

pub touches-created :
    (p : Bytes) (paired : List Bytes) (es : List ManifestEntry)
    → touches p (map created (keep (λ e. not (elem e.path paired)) es))
      ≡ (not (elem p paired) && holds p es)
unfolding any keep paths entry_paths elem
touches-created p paired [] = ground arith
touches-created p paired (e ∷ es) = elim (Bool-cases (elem e.path paired)) [
  | inl old ↦ rw old (ground (arith, touches-created p paired es, list_beq_iff e.path p, old))
  | inr new ↦ rw new (ground (arith, touches-created p paired es, list_beq_iff e.path p, new))
]
