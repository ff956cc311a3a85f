-- ===== src/Validation/Declassify/Folds.antt =====
-- Texts that agree up to the case of ASCII letters and up to white space, and what the two foldings of
-- declassify.py, `bytes.lower()` and `b"".join(data.split())`, make of them.
use codex_claude_author_crit.Prelude.{
  ℕ, ◌+◌, ◌≤◌, ◌≡◌, refl, sym, ap, ap₂, ◌∙◌, ◌⊎◌, inl, inr, true, false, [], ◌∷◌, ◌++◌, ◌&&◌, keep,
  leb, nat_eq, if◌then◌else◌, arith, Bool-cases,
}
use codex_claude_author_crit.Prelude.Bytes.{Bytes}
use codex_claude_author_crit.Validation.Declassify.{lower, is_space, compact}

-- Tab, line feed, vertical tab, form feed, carriage return or space.
abbrev White : ℕ → Type 0
White c = (c ≡ 9) ⊎ ((c ≡ 10) ⊎ ((c ≡ 11) ⊎ ((c ≡ 12) ⊎ ((c ≡ 13) ⊎ (c ≡ 32)))))

-- A letter from A to Z.
abbrev Capital : ℕ → Type 0
Capital c = (65 ≤ c) × (c ≤ 90)

-- The same byte, or the two cases of one letter.
abbrev SameLetter : ℕ → ℕ → Type 0
SameLetter c d = (c ≡ d) ⊎ ((Capital c × (d ≡ c + 32)) ⊎ (Capital d × (c ≡ d + 32)))

-- The second text is the first with white space put in and taken out, and cases of letters changed.
pub data Folds : Bytes → Bytes → Type 0 where
  done : Folds [] []
  skip_left : {xs ys : Bytes} (c : ℕ) → White c → Folds xs ys → Folds (c ∷ xs) ys
  skip_right : {xs ys : Bytes} (d : ℕ) → White d → Folds xs ys → Folds xs (d ∷ ys)
  same : {xs ys : Bytes} (c d : ℕ) → SameLetter c d → Folds xs ys → Folds (c ∷ xs) (d ∷ ys)

abbrev lower_byte : ℕ → ℕ
lower_byte b = if leb b'A' b && leb b b'Z' then b + 32 else b

White-is_space : (c : ℕ) → White c → is_space c ≡ true
unfolding is_space
White-is_space c h = ground (arith, h)

is_space-White : (c : ℕ) → is_space c ≡ true → White c
unfolding is_space
is_space-White c h = ground (arith, h)

is_space-lower_byte : (c : ℕ) → is_space (lower_byte c) ≡ is_space c
unfolding is_space
is_space-lower_byte c = ground arith

SameLetter-lower_byte : (c d : ℕ) → SameLetter c d → lower_byte c ≡ lower_byte d
SameLetter-lower_byte c d h = ground (arith, h)

lower_byte-SameLetter : (c d : ℕ) → lower_byte c ≡ lower_byte d → SameLetter c d
lower_byte-SameLetter c d h = ground (arith, h)

SameLetter-is_space : (c d : ℕ) → SameLetter c d → is_space c ≡ is_space d
SameLetter-is_space c d h =
    sym (is_space-lower_byte c) ∙ ap is_space (SameLetter-lower_byte c d h) ∙ is_space-lower_byte d

-- The text without its white space, in lower case.
abbrev pub folded : Bytes → Bytes
folded xs = lower (compact xs)

folded-white : (c : ℕ) (xs : Bytes) → is_space c ≡ true → folded (c ∷ xs) ≡ folded xs
unfolding compact keep
folded-white c xs h = rw h refl

folded-black :
    (c : ℕ) (xs : Bytes) → is_space c ≡ false → folded (c ∷ xs) ≡ lower_byte c ∷ folded xs
unfolding compact keep lower
folded-black c xs h = rw h refl

folded-nil : folded [] ≡ []
unfolding compact keep lower
folded-nil = refl

pub folded-Folds : (xs ys : Bytes) → Folds xs ys → folded xs ≡ folded ys
folded-Folds xs ys done = refl
folded-Folds (c ∷ xs) ys (skip_left c' w r) =
    folded-white c xs (White-is_space c w) ∙ folded-Folds xs ys r
folded-Folds xs (d ∷ ys) (skip_right d' w r) =
    folded-Folds xs ys r ∙ sym (folded-white d ys (White-is_space d w))
folded-Folds (c ∷ xs) (d ∷ ys) (same c' d' s r) =
    let ih = folded-Folds xs ys r in
    let e = SameLetter-is_space c d s in
    elim (Bool-cases (is_space c)) [
      | inl white ↦ folded-white c xs white ∙ ih ∙ sym (folded-white d ys (sym e ∙ white))
      | inr black ↦
          folded-black c xs black
          ∙ ap₂ (λ (h : ℕ) (t : Bytes). h ∷ t) (SameLetter-lower_byte c d s) ih
          ∙ sym (folded-black d ys (sym e ∙ black))
    ]

-- Texts with the same folding agree in that sense.
pub Folds-folded : (xs ys : Bytes) → folded xs ≡ folded ys → Folds xs ys
Folds-folded [] [] h = done
Folds-folded [] (d ∷ ys) h = elim (Bool-cases (is_space d)) [
  | inl white ↦
      skip_right d (is_space-White d white) (Folds-folded [] ys (h ∙ folded-white d ys white))
  | inr black ↦ let e = sym folded-nil ∙ h ∙ folded-black d ys black in cc
]
Folds-folded (c ∷ xs) [] h = elim (Bool-cases (is_space c)) [
  | inl white ↦
      skip_left c (is_space-White c white) (Folds-folded xs [] (sym (folded-white c xs white) ∙ h))
  | inr black ↦ let e = sym folded-nil ∙ sym h ∙ folded-black c xs black in cc
]
Folds-folded (c ∷ xs) (d ∷ ys) h = elim (Bool-cases (is_space c)) [
  | inl white ↦
      skip_left c (is_space-White c white)
        (Folds-folded xs (d ∷ ys) (sym (folded-white c xs white) ∙ h))
  | inr black ↦ elim (Bool-cases (is_space d)) [
    | inl white ↦
        skip_right d (is_space-White d white)
          (Folds-folded (c ∷ xs) ys (h ∙ folded-white d ys white))
    | inr black' ↦
        let e = sym (folded-black c xs black) ∙ h ∙ folded-black d ys black' in
        same c d (lower_byte-SameLetter c d (cc)) (Folds-folded xs ys (cc))
  ]
]

pub folded-lower : (xs : Bytes) → folded (lower xs) ≡ folded xs
unfolding lower compact keep
folded-lower [] = refl
folded-lower (c ∷ xs) = let ih = folded-lower xs in let e = is_space-lower_byte c in ground arith

compact-white : (c : ℕ) (xs : Bytes) → is_space c ≡ true → compact (c ∷ xs) ≡ compact xs
unfolding compact keep
compact-white c xs h = rw h refl

compact-black : (c : ℕ) (xs : Bytes) → is_space c ≡ false → compact (c ∷ xs) ≡ c ∷ compact xs
unfolding compact keep
compact-black c xs h = rw h refl

pub folded-compact : (xs : Bytes) → folded (compact xs) ≡ folded xs
folded-compact [] = unfold compact in unfold keep in refl
folded-compact (c ∷ xs) = elim (Bool-cases (is_space c)) [
  | inl white ↦
      ap folded (compact-white c xs white) ∙ folded-compact xs ∙ sym (folded-white c xs white)
  | inr black ↦
      ap folded (compact-black c xs black)
      ∙ folded-black c (compact xs) black
      ∙ ap (λ (t : Bytes). lower_byte c ∷ t) (folded-compact xs)
      ∙ sym (folded-black c xs black)
]

pub folded-append : (xs ys : Bytes) → folded (xs ++ ys) ≡ folded xs ++ folded ys
unfolding lower compact keep
folded-append [] ys = refl
folded-append (c ∷ xs) ys = let ih = folded-append xs ys in ground arith
