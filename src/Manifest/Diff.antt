-- ===== src/Manifest/Diff.antt =====
-- `diff_manifests` of manifests.py.
pub mod Keyed
pub mod Lookup
pub mod Pairs
pub mod Touched
pub mod Total
use Prim.Native.Nat.{compare, Ordering}
use codex_claude_author_crit.Prelude.{
  ℕ, Bool, true, false, Option, none, some, List, [], ◌∷◌, ◌++◌, ◌==◌, ◌&&◌, not, map, elem, keep,
  nat_eq, list_eq, ok, value_error, ◌>>=◌, ◌>>◌, raise_if, if◌then◌else◌,
}
use codex_claude_author_crit.Prelude.Bytes.{Bytes, bytes_lt}
use codex_claude_author_crit.Prelude.Dict.{Dict, get, put}
use codex_claude_author_crit.Prelude.Sorting.{sorted}
use codex_claude_author_crit.Errors.{Outcome}
use codex_claude_author_crit.Manifest.Entry.{
  ManifestEntry, entry_eq, Identity, identity_without_path, identity_eq,
}
use codex_claude_author_crit.Manifest.Change.{
  ChangeKind, create, delete, modify, rename, ManifestChange, manifest_change,
}
use codex_claude_author_crit.Manifest.Subject.{SubjectManifest}

abbrev pub ByPath : Type 0
ByPath = Dict Bytes ManifestEntry

put_all : List ManifestEntry → ByPath → ByPath
put_all [] d = d
put_all (e ∷ es) d = put_all es (put e.path e d)

-- `{entry.path: entry for entry in entries}`
unfoldable pub by_path : List ManifestEntry → ByPath
unfolding put_all
by_path es = put_all es []

unfoldable pub keys : ByPath → List Bytes
keys = map (λ kv. kv.0)

-- `[d[path] for path in paths]`, the paths being keys of `d`.
unfoldable pub entries_at : ByPath → List Bytes → List ManifestEntry
entries_at d [] = []
entries_at d (p ∷ ps) =
    let rest = entries_at d ps in elim (get p d) [ none ↦ rest | some e ↦ e ∷ rest ]

-- The sorted keys of `a` that are keys of `b` too, or that are not.
unfoldable pub shared_keys : ByPath → ByPath → List Bytes
unfolding keys elem keep
shared_keys a b = sorted bytes_lt (keep (λ p. elem p (keys b)) (keys a))

unfoldable pub missing_keys : ByPath → ByPath → List Bytes
unfolding keys elem keep
missing_keys a b = sorted bytes_lt (keep (λ p. not (elem p (keys b))) (keys a))

abbrev pub modified : ManifestEntry → ManifestEntry → ManifestChange
modified b a = record { kind = modify; before = some b; after = some a }

abbrev pub deleted : ManifestEntry → ManifestChange
deleted b = record { kind = delete; before = some b; after = none }

abbrev pub created : ManifestEntry → ManifestChange
created a = record { kind = create; before = none; after = some a }

abbrev pub renamed : ManifestEntry → ManifestEntry → ManifestChange
renamed b a = record { kind = rename; before = some b; after = some a }

-- The body of the first loop, for one shared path.
unfoldable pub modify_at : Option ManifestEntry → Option ManifestEntry → List ManifestChange
modify_at (some b) (some a) = if b == a then [] else modified b a ∷ []
modify_at _ _ = []

unfoldable pub modifications : ByPath → ByPath → List Bytes → List ManifestChange
unfolding modify_at
modifications b c [] = []
modifications b c (p ∷ ps) = modify_at (get p b) (get p c) ++ modifications b c ps

abbrev pub Groups : Type 0
Groups = Dict Identity (List ManifestEntry)

abbrev pub or_empty : Option (List ManifestEntry) → List ManifestEntry
or_empty none = []
or_empty (some es) = es

-- `added_by_identity.setdefault(identity, []).append(entry)` for each added entry.
unfoldable pub group : List ManifestEntry → Groups → Groups
group [] g = g
group (e ∷ es) g =
    let k = identity_without_path e in group es (put k (or_empty (get k g) ++ e ∷ []) g)

pub record Pairing : Type 0 where
  pub renames : List (ManifestEntry × ManifestEntry)
  pub unpaired : List ManifestEntry

abbrev cons_rename : ManifestEntry → ManifestEntry → Pairing → Pairing
cons_rename b a p = record p { renames = (b, a) ∷ p.renames }

abbrev cons_unpaired : ManifestEntry → Pairing → Pairing
cons_unpaired b p = record p { unpaired = b ∷ p.unpaired }

-- The loop over the removed entries, which pops the first added entry of the same identity.
unfoldable pub pair : List ManifestEntry → Groups → Pairing
pair [] g = record { renames = []; unpaired = [] }
pair (b ∷ bs) g = elim (or_empty (get (identity_without_path b) g)) [
  | [] ↦ cons_unpaired b (pair bs g)
  | a ∷ more ↦ cons_rename b a (pair bs (put (identity_without_path b) more g))
]

-- The changes before they are sorted.
unfoldable pub raw_delta : SubjectManifest → SubjectManifest → List ManifestChange
unfolding by_path shared_keys missing_keys modifications entries_at group pair elem keep
raw_delta base candidate =
    let b = by_path base.entries in
    let c = by_path candidate.entries in
    let removed = entries_at b (missing_keys b c) in
    let added = entries_at c (missing_keys c b) in
    let p = pair removed (group added []) in
    let paired = map (λ r. r.1.path) p.renames in
    modifications b c (shared_keys b c)
    ++ (map (λ r. renamed r.0 r.1) p.renames
        ++ (map deleted p.unpaired ++ map created (keep (λ e. not (elem e.path paired)) added)))

kind_order : ChangeKind → ℕ
kind_order delete = 0
kind_order rename = 1
kind_order modify = 2
kind_order create = 3

path_or : Option ManifestEntry → Bytes → Bytes
path_or none p = p
path_or (some e) p = e.path

-- The order of `_change_sort_key`: the anchor, the rank of the kind, the old path.
unfoldable pub change_lt : ManifestChange → ManifestChange → Bool
unfolding kind_order path_or bytes_lt
change_lt x y =
    let anchor_x = path_or x.after (path_or x.before []) in
    let anchor_y = path_or y.after (path_or y.before []) in
    let by_old = bytes_lt (path_or x.before []) (path_or y.before []) in
    if anchor_x == anchor_y
    then (elim (compare (kind_order x.kind) (kind_order y.kind)) [
      | Ordering.lt ↦ true
      | Ordering.eq ↦ by_old
      | Ordering.gt ↦ false
    ])
    else bytes_lt anchor_x anchor_y

-- Each change is checked as it is made; all of them raise the same exception.
unfoldable pub check_changes : List ManifestChange → Outcome (List ManifestChange)
check_changes [] = ok []
check_changes (c ∷ cs) = do c' ← manifest_change c; cs' ← check_changes cs; ok (c' ∷ cs')

unfoldable pub diff_manifests : SubjectManifest → SubjectManifest → Outcome (List ManifestChange)
unfolding raw_delta change_lt check_changes manifest_change
diff_manifests base candidate = do
  changes ← check_changes (raw_delta base candidate)
  ok (sorted change_lt changes)
