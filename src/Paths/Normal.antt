-- ===== src/Paths/Normal.antt =====
-- Which byte strings are subject paths.
use mathlib.Core.List.{append-nil}
use codex_claude_author_crit.Prelude.{
  ◌≡◌, ◌≢◌, ◌↔◌, refl, sym, ap, subst, ◌∙◌, false, List, [], ◌∷◌, ◌++◌, ◌==◌, any, elem, All, ok,
  nat_eq, list_eq, list_beq, list_beq_iff, arith, Bool-cases, inl, inr, ℕ,
}
use codex_claude_author_crit.Prelude.Bytes.{Bytes, slash, split, join, cons_head}
use codex_claude_author_crit.Prelude.Bytes.Split.{join-split, split_shape}
use codex_claude_author_crit.Paths.{is_special, validate_subject_path}

-- A byte of a file's name: neither NUL nor a slash.
abbrev IsNameByte : ℕ → Type 0
IsNameByte x = (x ≢ 0) × (x ≢ 47)

-- A name of a file: not empty, not `.`, not `..`, of such bytes.
pub record IsName (c : Bytes) : Type 0 where
  pub not_empty : c ≢ []
  pub not_dot : c ≢ 46 ∷ []
  pub not_dot_dot : c ≢ 46 ∷ 46 ∷ []
  pub bytes : All IsNameByte c

-- A normalized relative path: names with one slash between any two.
pub data IsPath : Bytes → Type 0 where
  name : (c : Bytes) → IsName c → IsPath c
  under : (c p : Bytes) → IsName c → IsPath p → IsPath (c ++ 47 ∷ p)

-- The guards of the function, all at once.
guards_iff :
    (path : Bytes)
    → (validate_subject_path path ≡ ok tt)
      ↔ ((elem 0 path ≡ false) × (any is_special (split slash path) ≡ false))
unfolding validate_subject_path cons_head split any elem is_special list_beq
guards_iff [] = ground arith
guards_iff (a ∷ p) = ground arith

special_cases : (c : Bytes) → is_special c ≡ false → All IsNameByte c → IsName c
unfolding is_special list_beq
special_cases c h bytes = record {
  not_empty = λ e. let k = rw e at h in cc;
  not_dot = λ e. let k = rw e at h in cc;
  not_dot_dot = λ e. let k = rw e at h in cc;
  bytes = bytes;
}

IsName-is_special : (c : Bytes) → IsName c → is_special c ≡ false
unfolding is_special
IsName-is_special c n = ground (
  arith,
  n.not_empty,
  n.not_dot,
  n.not_dot_dot,
  list_beq_iff c [],
  list_beq_iff c (46 ∷ []),
  list_beq_iff c (46 ∷ 46 ∷ []),
)

-- The parts of a text without a NUL byte are of name bytes.
split_bytes : (s : Bytes) → elem 0 s ≡ false → All (All IsNameByte) (split slash s)
unfolding split elem
split_bytes [] h = (tt, tt)
split_bytes (a ∷ s) h = elim (Bool-cases (a == 47)) [
  | inl same ↦ rw same (tt, split_bytes s (ground arith))
  | inr other ↦ rw other (extend a (split slash s) (ground arith) (split_bytes s (ground arith)))
]
  where
    extend :
        (a : ℕ) (ps : List Bytes)
        → IsNameByte a
        → All (All IsNameByte) ps
        → All (All IsNameByte) (cons_head a ps)
    extend a [] n h = ((n, tt), tt)
    extend a (p ∷ ps) n h = ((n, h.0), h.1)

IsPath-join :
    (p : Bytes) (ps : List Bytes)
    → any is_special (p ∷ ps) ≡ false
    → All (All IsNameByte) (p ∷ ps)
    → IsPath (join slash (p ∷ ps))
unfolding any join
IsPath-join p [] h k = name p (special_cases p (ground (arith, h)) k.0)
IsPath-join p (q ∷ ps) h k =
    under p (join slash (q ∷ ps)) (special_cases p (ground (arith, h)) k.0)
      (IsPath-join q ps (ground (arith, h)) k.1)

split-IsPath : (s : Bytes) → elem 0 s ≡ false → any is_special (split slash s) ≡ false → IsPath s
split-IsPath s z h =
    let (p, ps, e) = split_shape slash s in
    subst IsPath (ap (join slash) (sym e) ∙ join-split slash s)
      (IsPath-join p ps (rw e at h) (rw e at (split_bytes s z)))

no_nul : (c s : Bytes) → All IsNameByte c → elem 0 s ≡ false → elem 0 (c ++ s) ≡ false
unfolding elem
no_nul [] s h k = k
no_nul (a ∷ c) s h k = ground (arith, no_nul c s h.1 k, h.0)

split-name : (c : Bytes) → All IsNameByte c → split slash c ≡ c ∷ []
unfolding split cons_head
split-name [] h = refl
split-name (a ∷ c) h = ground (arith, split-name c h.1, h.0)

split-under : (c p : Bytes) → All IsNameByte c → split slash (c ++ 47 ∷ p) ≡ c ∷ split slash p
unfolding split cons_head
split-under [] p h = refl
split-under (a ∷ c) p h = ground (arith, split-under c p h.1, h.0)

IsPath-guards :
    (s : Bytes) → IsPath s → (elem 0 s ≡ false) × (any is_special (split slash s) ≡ false)
unfolding any elem
IsPath-guards s (name c n) = (
  rw (sym (append-nil c)) (no_nul c [] n.bytes refl),
  rw (split-name c n.bytes) (ground (arith, IsName-is_special c n)),
)
IsPath-guards s (under c p n r) =
    let rest = IsPath-guards p r in
    (
      no_nul c (47 ∷ p) n.bytes (ground (arith, rest.0)),
      rw (split-under c p n.bytes) (ground (arith, IsName-is_special c n, rest.1)),
    )

-- A path is accepted exactly when it is made of names with one slash between any two, where a name
-- is neither empty nor `.` nor `..` and holds neither a NUL byte nor a slash.
pub validate_subject_path_iff : (path : Bytes) → (validate_subject_path path ≡ ok tt) ↔ IsPath path
validate_subject_path_iff path = (
  λ h. let g = (guards_iff path).0 h in split-IsPath path g.0 g.1,
  λ p. (guards_iff path).1 (IsPath-guards path p),
)
