-- ===== src/Validation/Declassify/Padding.antt =====
-- Base64 texts without their padding, and `rstrip(b"=")` in declassify.py.
use mathlib.Core.List.{reverse-cons, reverse-append, reverse-reverse}
use codex_claude_author_crit.Prelude.{
  ℕ, zero, suc, ◌≡◌, ◌≢◌, refl, sym, ap, ◌∙◌, inl, inr, [], ◌∷◌, ◌++◌, ◌==◌, reverse, nat_eq, arith,
  Bool-cases,
}
use codex_claude_author_crit.Prelude.Bytes.{Bytes}
use codex_claude_author_crit.Validation.Declassify.{drop_padding, rstrip_padding}

-- `n` signs `=`.
abbrev pub padding : ℕ → Bytes
padding zero = []
padding (suc n) = 61 ∷ padding n

-- The second text is the first without the signs `=` at its end.
pub record IsBare (padded bare : Bytes) : Type 0 where
  pub signs : ℕ
  pub without : padded ≡ bare ++ padding signs
  pub no_sign : (front : Bytes) → bare ≢ front ++ 61 ∷ []

-- What `drop_padding` takes off the front.
drop_padding_shape : (s : Bytes) → (n : ℕ) × (s ≡ padding n ++ drop_padding s)
unfolding drop_padding
drop_padding_shape [] = (0, refl)
drop_padding_shape (c ∷ s) = elim (Bool-cases (c == 61)) [
  | inl sign ↦ let (n, e) = drop_padding_shape s in (suc n, rw sign (ground (arith, e)))
  | inr other ↦ (0, rw other refl)
]

drop_padding_head : (s rest : Bytes) → drop_padding s ≢ 61 ∷ rest
unfolding drop_padding
drop_padding_head [] rest e = cc
drop_padding_head (c ∷ s) rest e = ground (arith, drop_padding_head s rest)

drop_padding_all : (n : ℕ) (s : Bytes) → drop_padding (padding n ++ s) ≡ drop_padding s
unfolding drop_padding
drop_padding_all zero s = refl
drop_padding_all (suc n) s = drop_padding_all n s

drop_padding_none : (s : Bytes) → ((rest : Bytes) → s ≢ 61 ∷ rest) → drop_padding s ≡ s
unfolding drop_padding
drop_padding_none [] h = refl
drop_padding_none (c ∷ s) h = let k = h s in ground arith

padding_end : (n : ℕ) → padding n ++ 61 ∷ [] ≡ 61 ∷ padding n
padding_end zero = refl
padding_end (suc n) = ap (λ (s : Bytes). 61 ∷ s) (padding_end n)

reverse-padding : (n : ℕ) → reverse (padding n) ≡ padding n
reverse-padding zero = refl
reverse-padding (suc n) =
    reverse-cons 61 (padding n)
    ∙ ap (λ (s : Bytes). s ++ 61 ∷ []) (reverse-padding n)
    ∙ padding_end n

pub rstrip_padding-IsBare : (s : Bytes) → IsBare s (rstrip_padding s)
unfolding rstrip_padding
rstrip_padding-IsBare s =
    let (n, e) = drop_padding_shape (reverse s) in
    let rest = drop_padding (reverse s) in
    record {
      signs = n;
      without =
          sym (reverse-reverse s)
          ∙ ap reverse e
          ∙ reverse-append (padding n) rest
          ∙ ap (λ (t : Bytes). reverse rest ++ t) (reverse-padding n);
      no_sign = λ front f.
          drop_padding_head (reverse s) (reverse front)
            (sym (reverse-reverse rest) ∙ ap reverse f ∙ reverse-append front (61 ∷ []));
    }

pub IsBare-rstrip_padding : (s bare : Bytes) → IsBare s bare → rstrip_padding s ≡ bare
unfolding rstrip_padding
IsBare-rstrip_padding s bare r =
    let n = r.signs in
    let flipped =
      ap reverse r.without
      ∙ reverse-append bare (padding n)
      ∙ ap (λ (t : Bytes). t ++ reverse bare) (reverse-padding n) in
    ap (λ (t : Bytes). reverse (drop_padding t)) flipped
    ∙ ap reverse (drop_padding_all n (reverse bare))
    ∙ ap reverse (
        drop_padding_none (reverse bare) (λ rest e.
          r.no_sign (reverse rest)
            (sym (reverse-reverse bare) ∙ ap reverse e ∙ reverse-cons 61 rest)))
    ∙ reverse-reverse bare
