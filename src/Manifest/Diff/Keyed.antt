-- ===== src/Manifest/Diff/Keyed.antt =====
-- The dicts of `diff_manifests`, keyed by path, and what their key lists hold.
use codex_claude_author_crit.Prelude.{
  ◌≡◌, refl, sym, ◌∙◌, Bool, true, false, Option, none, some, List, [], ◌∷◌, ◌==◌, ◌&&◌, ◌||◌, not,
  elem, any, any-append, keep, All, nat_eq, list_eq, list_beq_iff, arith, Bool-cases, Option-cases,
  inl, inr, eq_self,
}
use codex_claude_author_crit.Prelude.Bytes.{Bytes, bytes_lt}
use codex_claude_author_crit.Prelude.Dict.{get, put}
use codex_claude_author_crit.Prelude.Sorting.Laws.{elem-sorted}
use codex_claude_author_crit.Manifest.Entry.{ManifestEntry, entry_eq}
use codex_claude_author_crit.Manifest.Change.{ManifestChange, paths, entry_paths}
use codex_claude_author_crit.Manifest.Diff.{
  ByPath, put_all, by_path, keys, entries_at, shared_keys, missing_keys, modify_at, modifications,
}

abbrev pub IsKeyed : ByPath → Type 0
IsKeyed = All (λ kv. kv.1.path ≡ kv.0)

abbrev pub has_value {ℓ} : {A : Type ℓ} → Option A → Bool
has_value none = false
has_value (some _) = true

-- `any` entry with this path.
abbrev pub holds : Bytes → List ManifestEntry → Bool
holds p = any (λ e. e.path == p)

-- Some change has this path among its paths.
abbrev pub touches : Bytes → List ManifestChange → Bool
touches p = any (λ c. elem p (paths c))

put-IsKeyed : (e : ManifestEntry) (d : ByPath) → IsKeyed d → IsKeyed (put e.path e d)
unfolding put
put-IsKeyed e [] h = (refl, tt)
put-IsKeyed e ((j, w) ∷ d) h = elim (Bool-cases (j == e.path)) [
  | inl same ↦ rw same (sym ((list_beq_iff j e.path).0 same), h.1)
  | inr other ↦ rw other (h.0, put-IsKeyed e d h.1)
]

put_all-IsKeyed : (es : List ManifestEntry) (d : ByPath) → IsKeyed d → IsKeyed (put_all es d)
unfolding put_all
put_all-IsKeyed [] d h = h
put_all-IsKeyed (e ∷ es) d h = put_all-IsKeyed es (put e.path e d) (put-IsKeyed e d h)

pub by_path-IsKeyed : (es : List ManifestEntry) → IsKeyed (by_path es)
unfolding by_path
by_path-IsKeyed es = put_all-IsKeyed es [] tt

pub path-get :
    (p : Bytes) (e : ManifestEntry) (d : ByPath) → IsKeyed d → get p d ≡ some e → e.path ≡ p
unfolding get
path-get p e [] h g = cc
path-get p e ((j, w) ∷ d) h g = elim (Bool-cases (j == p)) [
  | inl same ↦ cc (rw same at g, h.0, (list_beq_iff j p).0 same)
  | inr other ↦ path-get p e d h.1 (rw other at g)
]

elem-keys : (p : Bytes) (d : ByPath) → elem p (keys d) ≡ has_value (get p d)
unfolding elem keys get
elem-keys p [] = refl
elem-keys p ((j, w) ∷ d) = ground (arith, elem-keys p d)

elem-keep :
    (p : Bytes) (f : Bytes → Bool) (xs : List Bytes) → elem p (keep f xs) ≡ (f p && elem p xs)
unfolding elem keep
elem-keep p f [] = ground arith
elem-keep p f (x ∷ xs) = ground (arith, elem-keep p f xs, list_beq_iff x p)

-- A path is shared when both dicts have it, and missing when only the first has it.
pub elem-shared_keys :
    (p : Bytes) (b c : ByPath)
    → elem p (shared_keys b c) ≡ (has_value (get p c) && has_value (get p b))
unfolding shared_keys
elem-shared_keys p b c = rw (
  elem-sorted bytes_lt p (keep (λ q. elem q (keys c)) (keys b)),
  elem-keep p (λ q. elem q (keys c)) (keys b),
  elem-keys p b,
  elem-keys p c,
)

pub elem-missing_keys :
    (p : Bytes) (b c : ByPath)
    → elem p (missing_keys b c) ≡ (not (has_value (get p c)) && has_value (get p b))
unfolding missing_keys
elem-missing_keys p b c = rw (
  elem-sorted bytes_lt p (keep (λ q. not (elem q (keys c))) (keys b)),
  elem-keep p (λ q. not (elem q (keys c))) (keys b),
  elem-keys p b,
  elem-keys p c,
)

-- The entries at some keys hold a path exactly when it is one of these keys and has an entry.
pub holds-entries_at :
    (p : Bytes) (d : ByPath) (ps : List Bytes)
    → IsKeyed d
    → holds p (entries_at d ps) ≡ (elem p ps && has_value (get p d))
unfolding any elem entries_at
holds-entries_at p d [] h = refl
holds-entries_at p d (q ∷ ps) h = elim (Option-cases (get q d)) [
  | inl absent ↦
      rw (absent, entries_at) (ground (arith, holds-entries_at p d ps h, absent, list_beq_iff q p))
  | inr (e, found) ↦
      rw (found, entries_at)
        (ground (arith, holds-entries_at p d ps h, found, path-get q e d h found, list_beq_iff q p))
]

abbrev pub differs : Option ManifestEntry → Option ManifestEntry → Bool
differs (some b) (some a) = not (b == a)
differs _ _ = false

-- The entry, if there is one, stands at this path.
abbrev pub StandsAt : Bytes → Option ManifestEntry → Type 0
StandsAt q none = Unit
StandsAt q (some e) = e.path ≡ q

touches-modify_at :
    (p q : Bytes) (b a : Option ManifestEntry)
    → StandsAt q b
    → StandsAt q a
    → touches p (modify_at b a) ≡ (q == p && differs b a)
unfolding any modify_at paths entry_paths elem
touches-modify_at p q none a h k = ground arith
touches-modify_at p q (some b) none h k = ground arith
touches-modify_at p q (some b) (some a) h k = rw (h, k) (ground (arith, eq_self q))

pub get-StandsAt : (q : Bytes) (d : ByPath) → IsKeyed d → StandsAt q (get q d)
get-StandsAt q d h = go (get q d) refl
  where
    go : (o : Option ManifestEntry) → get q d ≡ o → StandsAt q o
    go none e = tt
    go (some x) e = path-get q x d h e

-- The modifications touch a path exactly when it is among the paths visited and its entries differ.
pub touches-modifications :
    (p : Bytes) (b c : ByPath) (ps : List Bytes)
    → IsKeyed b
    → IsKeyed c
    → touches p (modifications b c ps) ≡ (elem p ps && differs (get p b) (get p c))
unfolding any elem modifications
touches-modifications p b c [] h k = refl
touches-modifications p b c (q ∷ ps) h k =
    any-append (λ x. elem p (paths x)) (modify_at (get q b) (get q c)) (modifications b c ps)
    ∙ rw
        (
          touches-modify_at p q (get q b) (get q c) (get-StandsAt q b h) (get-StandsAt q c k),
          touches-modifications p b c ps h k,
        )
        (at_path p q b c ps)
  where
    at_path :
        (p q : Bytes) (b c : ByPath) (ps : List Bytes)
        → (q == p && differs (get q b) (get q c) || elem p ps && differs (get p b) (get p c))
          ≡ ((q == p || elem p ps) && differs (get p b) (get p c))
    at_path p q b c ps = elim (Bool-cases (q == p)) [
      | inl same ↦ rw (same, (list_beq_iff q p).0 same) (ground arith)
      | inr other ↦ rw other
    ]
