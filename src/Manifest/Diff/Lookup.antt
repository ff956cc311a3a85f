-- ===== src/Manifest/Diff/Lookup.antt =====
-- The dict of a list of entries with distinct paths finds exactly the entries of the list.
use codex_claude_author_crit.Prelude.{
  ◌≡◌, ◌≢◌, refl, sym, ◌∙◌, subst, true, false, Option, none, some, List, [], ◌∷◌, ◌==◌, map, elem,
  unique, list_eq, list_beq_iff, nat_eq, arith, eq_self, Bool-cases, inl, inr,
}
use codex_claude_author_crit.Prelude.Bytes.{Bytes}
use codex_claude_author_crit.Prelude.Dict.{get, put, get-put}
use codex_claude_author_crit.Manifest.Entry.{ManifestEntry, entry_eq, entry_beq_iff}
use codex_claude_author_crit.Manifest.Diff.{ByPath, put_all, by_path}
use codex_claude_author_crit.Manifest.Diff.Keyed.{path-get, by_path-IsKeyed}

abbrev paths_of : List ManifestEntry → List Bytes
paths_of = map (λ e. e.path)

get-put_all_absent :
    (p : Bytes) (es : List ManifestEntry) (d : ByPath)
    → elem p (paths_of es) ≡ false
    → get p (put_all es d) ≡ get p d
unfolding put_all elem
get-put_all_absent p [] d h = refl
get-put_all_absent p (e ∷ es) d h =
    get-put_all_absent p es (put e.path e d) (ground arith) ∙ get-put e.path p e d ∙ ground arith

elem-path :
    (e : ManifestEntry) (es : List ManifestEntry)
    → elem e es ≡ true
    → elem e.path (paths_of es) ≡ true
unfolding elem
elem-path e [] h = cc
elem-path e (x ∷ es) h =
    ground (arith, elem-path e es, entry_beq_iff x e, list_beq_iff x.path e.path)

get-put_all :
    (e : ManifestEntry) (es : List ManifestEntry) (d : ByPath)
    → unique (paths_of es) ≡ true
    → elem e es ≡ true
    → get e.path (put_all es d) ≡ some e
unfolding put_all elem unique
get-put_all e [] d u h = cc
get-put_all e (x ∷ es) d u h = elim (Bool-cases (x == e)) [
  | inl here ↦ head_found x es d (ground (arith, u)) (ground (arith, entry_beq_iff x e, here))
  | inr there ↦ get-put_all e es (put x.path x d) (ground (arith, u)) (ground (arith, h, there))
]
  where
    head_found :
        (x : ManifestEntry) (es : List ManifestEntry) (d : ByPath)
        → elem x.path (paths_of es) ≡ false
        → x ≡ e
        → get e.path (put_all es (put x.path x d)) ≡ some e
    head_found x es d u same =
        subst (λ (y : ManifestEntry). get y.path (put_all es (put x.path x d)) ≡ some y) same
          (get-put_all_absent x.path es (put x.path x d) u
            ∙ get-put x.path x.path x d
            ∙ rw (eq_self x.path))

-- An entry of the list is found at its path.
pub get-by_path :
    (e : ManifestEntry) (es : List ManifestEntry)
    → unique (paths_of es) ≡ true
    → elem e es ≡ true
    → get e.path (by_path es) ≡ some e
unfolding by_path
get-by_path e es u h = get-put_all e es [] u h

elem-put_all :
    (p : Bytes) (e : ManifestEntry) (es : List ManifestEntry) (d : ByPath)
    → get p (put_all es d) ≡ some e
    → get p d ≢ some e
    → elem e es ≡ true
unfolding put_all elem
elem-put_all p e [] d h k = absurd (k h)
elem-put_all p e (x ∷ es) d h k = elim (Bool-cases (x == e)) [
  | inl here ↦ rw here
  | inr there ↦ rw there (elem-put_all p e es (put x.path x d) h (not_put x there))
]
  where
    not_put : (x : ManifestEntry) → (x == e) ≡ false → get p (put x.path x d) ≢ some e
    not_put x there q = ground (arith, k, get-put x.path p x d, entry_beq_iff x e)

-- What is found stands in the list.
pub elem-by_path :
    (p : Bytes) (e : ManifestEntry) (es : List ManifestEntry)
    → get p (by_path es) ≡ some e
    → elem e es ≡ true
unfolding by_path get
elem-by_path p e es h = elem-put_all p e es [] h (λ q. cc q)

found_too :
    (p : Bytes) (es fs : List ManifestEntry) (x : ManifestEntry)
    → unique (paths_of fs) ≡ true
    → ((e : ManifestEntry) → e.path ≡ p → elem e es ≡ elem e fs)
    → get p (by_path es) ≡ some x
    → get p (by_path fs) ≡ some x
found_too p es fs x v same e =
    let at_p = path-get p x (by_path es) (by_path-IsKeyed es) e in
    subst (λ q. get q (by_path fs) ≡ some x) at_p
      (get-by_path x fs v (sym (same x at_p) ∙ elem-by_path p x es e))

-- Two lists with the same entries at a path give the same lookup there.
pub get-by_path_same :
    (p : Bytes) (es fs : List ManifestEntry)
    → unique (paths_of es) ≡ true
    → unique (paths_of fs) ≡ true
    → ((e : ManifestEntry) → e.path ≡ p → elem e es ≡ elem e fs)
    → get p (by_path es) ≡ get p (by_path fs)
get-by_path_same p es fs u v same = go (get p (by_path es)) (get p (by_path fs)) refl refl
  where
    go :
        (a b : Option ManifestEntry)
        → get p (by_path es) ≡ a
        → get p (by_path fs) ≡ b
        → get p (by_path es) ≡ get p (by_path fs)
    go none none e f = e ∙ sym f
    go (some x) b e f = e ∙ sym (found_too p es fs x v same e)
    go none (some y) e f = found_too p fs es y u (λ x h. sym (same x h)) f ∙ sym f

found_stays :
    (p : Bytes) (es : List ManifestEntry) (d : ByPath)
    → get p d ≢ none
    → get p (put_all es d) ≢ none
unfolding put_all
found_stays p [] d k = k
found_stays p (x ∷ es) d k = found_stays p es (put x.path x d) kept
  where
    kept : get p (put x.path x d) ≢ none
    kept q = ground (arith, k, get-put x.path p x d)

found_some :
    (e : ManifestEntry) (es : List ManifestEntry) (d : ByPath)
    → elem e es ≡ true
    → get e.path (put_all es d) ≢ none
unfolding put_all elem
found_some e [] d h = cc
found_some e (x ∷ es) d h = elim (Bool-cases (x == e)) [
  | inl here ↦ found_stays e.path es (put x.path x d) (put_here x here)
  | inr there ↦ found_some e es (put x.path x d) (ground (arith, h))
]
  where
    put_here : (x : ManifestEntry) → (x == e) ≡ true → get e.path (put x.path x d) ≢ none
    put_here x here q =
        ground (arith, get-put x.path e.path x d, entry_beq_iff x e, list_beq_iff x.path e.path)

found_in :
    (e : ManifestEntry) (es : List ManifestEntry)
    → elem e es ≡ true
    → get e.path (by_path es) ≢ none
unfolding by_path
found_in e es h = found_some e es [] h

found_at :
    (p : Bytes) (e : ManifestEntry) (es : List ManifestEntry)
    → e.path ≡ p
    → elem e es ≡ true
    → get p (by_path es) ≢ none
found_at p e es at_p h = subst (λ q. get q (by_path es) ≢ none) at_p (found_in e es h)

-- The same where only the first list is known to have each path once.
pub lookup_unique :
    (p : Bytes) (es fs : List ManifestEntry)
    → unique (paths_of es) ≡ true
    → ((e : ManifestEntry) → e.path ≡ p → elem e es ≡ elem e fs)
    → get p (by_path es) ≡ get p (by_path fs)
lookup_unique p es fs u same = go (get p (by_path es)) (get p (by_path fs)) refl refl
  where
    go :
        (a b : Option ManifestEntry)
        → get p (by_path es) ≡ a
        → get p (by_path fs) ≡ b
        → get p (by_path es) ≡ get p (by_path fs)
    go none none e f = e ∙ sym f
    go a (some y) e f = found_too p fs es y u (λ x h. sym (same x h)) f ∙ sym f
    go (some x) none e f =
        let at_p = path-get p x (by_path es) (by_path-IsKeyed es) e in
        absurd (found_at p x fs at_p (sym (same x at_p) ∙ elem-by_path p x es e) f)
