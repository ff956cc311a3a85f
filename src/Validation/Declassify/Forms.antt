-- ===== src/Validation/Declassify/Forms.antt =====
-- The forms of a secret that `KnownSecret.forbidden_forms` of declassify.py lists, described apart from it.
use codex_claude_author_crit.Prelude.{
  ◌<◌, ◌≡◌, ap, ◌⊎◌, inl, inr, Bool, true, List, ◌∷◌, any, All, nat_eq, arith,
}
use codex_claude_author_crit.Prelude.Bytes.{Bytes}
use codex_claude_author_crit.Validation.Declassify.{Base64, raw_forms, hex_with, rstrip_padding}
use codex_claude_author_crit.Validation.Declassify.Digits.{
  HexOf, lower_digits, upper_digits, lower_digits-Tabulates, upper_digits-Tabulates, HexOf-hex_with,
  hex_with-HexOf,
}
use codex_claude_author_crit.Validation.Declassify.Padding.{
  IsBare, rstrip_padding-IsBare, IsBare-rstrip_padding,
}

-- The second text encodes the first: itself, its Base64 in either alphabet, with or without the padding,
-- or its hexadecimal digits, in lower or upper case.
pub data Encoded ⦃b : Base64⦄ (value : Bytes) : Bytes → Type 0 where
  verbatim : Encoded value value
  standard : Encoded value (b.b64encode value)
  urlsafe : Encoded value (b.urlsafe_b64encode value)
  bare_standard : {form : Bytes} → IsBare (b.b64encode value) form → Encoded value form
  bare_urlsafe : {form : Bytes} → IsBare (b.urlsafe_b64encode value) form → Encoded value form
  hex : {form : Bytes} → HexOf lower_digits value form → Encoded value form
  upper_hex : {form : Bytes} → HexOf upper_digits value form → Encoded value form

any_cases :
    (p : Bytes → Bool) (x : Bytes) (xs : List Bytes)
    → any p (x ∷ xs) ≡ true
    → (p x ≡ true) ⊎ (any p xs ≡ true)
unfolding any
any_cases p x xs h = ground (arith, h)

module _ ⦃b : Base64⦄ where
  -- Every encoding of the value is among the forms.
  pub any-Encoded :
      (p : Bytes → Bool) (value form : Bytes)
      → Encoded value form
      → p form ≡ true
      → any p (raw_forms value) ≡ true
  unfolding raw_forms any
  any-Encoded p value form verbatim h = ground (arith, h)
  any-Encoded p value form standard h = ground (arith, h)
  any-Encoded p value form urlsafe h = ground (arith, h)
  any-Encoded p value form (bare_standard r) h =
      ground (arith, h, ap p (IsBare-rstrip_padding (b.b64encode value) form r))
  any-Encoded p value form (bare_urlsafe r) h =
      ground (arith, h, ap p (IsBare-rstrip_padding (b.urlsafe_b64encode value) form r))
  any-Encoded p value form (hex r) h =
      ground (arith, h, ap p (HexOf-hex_with b'a' lower_digits value form lower_digits-Tabulates r))
  any-Encoded p value form (upper_hex r) h =
      ground (arith, h, ap p (HexOf-hex_with b'A' upper_digits value form upper_digits-Tabulates r))

  -- Every form of a value of bytes is an encoding of it.
  pub Encoded-any :
      (p : Bytes → Bool) (value : Bytes)
      → All (λ c. c < 256) value
      → any p (raw_forms value) ≡ true
      → (form : Bytes) × Encoded value form × (p form ≡ true)
  unfolding raw_forms
  Encoded-any p value bytes h = elim (any_cases p value _ h) [
    | inl k ↦ (value, verbatim, k)
    | inr h1 ↦ elim (any_cases p (b.b64encode value) _ h1) [
      | inl k ↦ (b.b64encode value, standard, k)
      | inr h2 ↦ elim (any_cases p (b.urlsafe_b64encode value) _ h2) [
        | inl k ↦ (b.urlsafe_b64encode value, urlsafe, k)
        | inr h3 ↦ elim (any_cases p (rstrip_padding (b.b64encode value)) _ h3) [
          | inl k ↦ (
            rstrip_padding (b.b64encode value),
            bare_standard (rstrip_padding-IsBare (b.b64encode value)),
            k,
          )
          | inr h4 ↦ elim (any_cases p (rstrip_padding (b.urlsafe_b64encode value)) _ h4) [
            | inl k ↦ (
              rstrip_padding (b.urlsafe_b64encode value),
              bare_urlsafe (rstrip_padding-IsBare (b.urlsafe_b64encode value)),
              k,
            )
            | inr h5 ↦ elim (any_cases p (hex_with b'a' value) _ h5) [
              | inl k ↦ (
                hex_with b'a' value,
                hex (hex_with-HexOf b'a' lower_digits value lower_digits-Tabulates bytes),
                k,
              )
              | inr h6 ↦ elim (any_cases p (hex_with b'A' value) _ h6) [
                | inl k ↦ (
                  hex_with b'A' value,
                  upper_hex (hex_with-HexOf b'A' upper_digits value upper_digits-Tabulates bytes),
                  k,
                )
                | inr none_left ↦ absurd (unfold any in cc)
              ]
            ]
          ]
        ]
      ]
    ]
  ]
