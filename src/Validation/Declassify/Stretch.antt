-- ===== src/Validation/Declassify/Stretch.antt =====
-- When the body of the loop of `raw_log_contains_known_secret` in declassify.py finds a form in a raw log.
use codex_claude_author_crit.Prelude.{
  ◌≡◌, refl, sym, ap, ◌∙◌, inl, inr, true, [], ◌∷◌, ◌++◌, keep, nat_eq, arith, Bool-cases,
}
use codex_claude_author_crit.Prelude.Bytes.{Bytes, contains, starts_with}
use codex_claude_author_crit.Validation.Declassify.{lower, is_space, compact, form_in}
use codex_claude_author_crit.Validation.Declassify.Folds.{
  Folds, folded, folded-Folds, Folds-folded, folded-lower, folded-append,
}

-- Somewhere in the log stands a stretch that agrees with the form up to case and white space.
pub record Holds (raw_log form : Bytes) : Type 0 where
  pub front : Bytes
  pub stretch : Bytes
  pub rest : Bytes
  pub log_is : raw_log ≡ front ++ (stretch ++ rest)
  pub folds : Folds stretch form

starts_with-append : (s rest : Bytes) → starts_with (s ++ rest) s ≡ true
unfolding starts_with
starts_with-append [] [] = refl
starts_with-append [] (c ∷ rest) = refl
starts_with-append (c ∷ s) rest = ground (arith, starts_with-append s rest)

contains-append : (front s rest : Bytes) → contains (front ++ (s ++ rest)) s ≡ true
unfolding contains starts_with
contains-append [] [] [] = refl
contains-append [] [] (c ∷ rest) = refl
contains-append [] (c ∷ s) rest = rw (starts_with-append (c ∷ s) rest) refl
contains-append (c ∷ front) s rest = ground (arith, contains-append front s rest)

starts_with_cut : (s p : Bytes) → starts_with s p ≡ true → (rest : Bytes) × (s ≡ p ++ rest)
unfolding starts_with
starts_with_cut s [] h = (s, refl)
starts_with_cut [] (b ∷ p) h = cc
starts_with_cut (a ∷ s) (b ∷ p) h =
    let (rest, e) = starts_with_cut s p (ground (arith, h)) in (rest, ground (arith, h, e))

contains_cut :
    (s p : Bytes)
    → contains s p ≡ true
    → (front : Bytes) × (rest : Bytes) × (s ≡ front ++ (p ++ rest))
unfolding contains
contains_cut [] p h = let (rest, e) = starts_with_cut [] p h in ([], rest, e)
contains_cut (a ∷ s) p h = elim (Bool-cases (starts_with (a ∷ s) p)) [
  | inl here ↦ let (rest, e) = starts_with_cut (a ∷ s) p here in ([], rest, e)
  | inr there ↦
      let (front, rest, e) = contains_cut s p (rw there at h) in
      (a ∷ front, rest, ap (λ (t : Bytes). a ∷ t) e)
]

-- Where what `g` makes of a text falls into two parts, so does the text.
abbrev Cuts : (Bytes → Bytes) → Type 0
Cuts g =
    (xs ys zs : Bytes)
    → g xs ≡ ys ++ zs
    → (us : Bytes) × (vs : Bytes) × (xs ≡ us ++ vs) × (g us ≡ ys) × (g vs ≡ zs)

lower-Cuts : Cuts lower
unfolding lower
lower-Cuts xs [] zs e = ([], xs, refl, refl, e)
lower-Cuts [] (y ∷ ys) zs e = cc
lower-Cuts (x ∷ xs) (y ∷ ys) zs e =
    let (us, vs, cut, left, right) = lower-Cuts xs ys zs (cc) in (x ∷ us, vs, cc, cc, right)

compact-Cuts : Cuts compact
unfolding compact keep
compact-Cuts xs [] zs e = ([], xs, refl, refl, e)
compact-Cuts [] (y ∷ ys) zs e = cc
compact-Cuts (x ∷ xs) (y ∷ ys) zs e = elim (Bool-cases (is_space x)) [
  | inl white ↦
      let (us, vs, cut, left, right) = compact-Cuts xs (y ∷ ys) zs (rw white at e) in
      (x ∷ us, vs, cc, rw white left, right)
  | inr black ↦
      let parts : x ∷ compact xs ≡ y ∷ (ys ++ zs) = rw black at e in
      let (us, vs, cut, left, right) = compact-Cuts xs ys zs (cc) in
      (x ∷ us, vs, cc, rw black (cc), right)
]

folded-Cuts : Cuts folded
folded-Cuts xs ys zs e =
    let (us, vs, cut, left, right) = lower-Cuts (compact xs) ys zs e in
    let (us', vs', cut', left', right') = compact-Cuts xs us vs cut in
    (us', vs', cut', ap lower left' ∙ left, ap lower right' ∙ right)

-- A text that is found after `g` is applied on both sides is a stretch of the log, up to `g`.
stretch_of :
    (g : Bytes → Bytes)
    → Cuts g
    → ((xs ys : Bytes) → g xs ≡ g ys → folded xs ≡ folded ys)
    → (raw_log form : Bytes) → contains (g raw_log) (g form) ≡ true
    → Holds raw_log form
stretch_of g cuts coarser raw_log form h =
    let (front, rest, e) = contains_cut (g raw_log) (g form) h in
    let (us, vs, cut, left, right) = cuts raw_log front (g form ++ rest) e in
    let (ws, ts, cut', left', right') = cuts vs (g form) rest right in
    record {
      front = us;
      stretch = ws;
      rest = ts;
      log_is = cut ∙ ap (λ (t : Bytes). us ++ t) cut';
      folds = Folds-folded ws form (coarser ws form left');
    }

pub form_in-Holds : (raw_log form : Bytes) → form_in raw_log form ≡ true → Holds raw_log form
unfolding form_in
form_in-Holds raw_log form h = elim (Bool-cases (contains raw_log form)) [
  | inl k ↦
      stretch_of (λ xs. xs) (λ xs ys zs e. (ys, zs, e, refl, refl)) (λ xs ys e. ap folded e) raw_log
        form k
  | inr k1 ↦ elim (Bool-cases (contains (lower raw_log) (lower form))) [
    | inl k ↦
        stretch_of lower lower-Cuts
          (λ xs ys e. sym (folded-lower xs) ∙ ap folded e ∙ folded-lower ys) raw_log form k
    | inr k2 ↦ elim (Bool-cases (contains (compact raw_log) (compact form))) [
      | inl k ↦ stretch_of compact compact-Cuts (λ xs ys e. ap lower e) raw_log form k
      | inr k3 ↦ stretch_of folded folded-Cuts (λ xs ys e. e) raw_log form (ground (arith, h))
    ]
  ]
]

-- Such a stretch is found once both texts are folded.
pub Holds-folded :
    (raw_log form : Bytes)
    → Holds raw_log form
    → contains (lower (compact raw_log)) (lower (compact form)) ≡ true
Holds-folded raw_log form h =
    let parts =
      ap folded h.log_is
      ∙ folded-append h.front (h.stretch ++ h.rest)
      ∙ ap (λ (t : Bytes). folded h.front ++ t) (folded-append h.stretch h.rest)
      ∙ ap (λ (t : Bytes). folded h.front ++ (t ++ folded h.rest))
          (folded-Folds h.stretch form h.folds) in
    ap (λ (t : Bytes). contains t (folded form)) parts
    ∙ contains-append (folded h.front) (folded form) (folded h.rest)

pub Holds-form_in : (raw_log form : Bytes) → Holds raw_log form → form_in raw_log form ≡ true
unfolding form_in
Holds-form_in raw_log form h = let found = Holds-folded raw_log form h in ground (arith, found)
