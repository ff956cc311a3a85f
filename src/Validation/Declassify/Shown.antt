-- ===== src/Validation/Declassify/Shown.antt =====
-- What a raw log must hold for `raw_log_contains_known_secret` of declassify.py to report it, and when it
-- does report it.
use codex_claude_author_crit.Prelude.{
  ◌<◌, ◌≡◌, refl, sym, ap, ◌∙◌, inl, inr, Bool, true, List, [], ◌∷◌, ◌++◌, any, All, nat_eq, arith,
  Bool-cases,
}
use codex_claude_author_crit.Prelude.Bytes.{Bytes}
use codex_claude_author_crit.Validation.Declassify.{
  Base64, KnownSecret, form_in, forbidden_forms, any-forbidden_forms, raw_log_contains_known_secret,
}
use codex_claude_author_crit.Validation.Declassify.Forms.{Encoded, any-Encoded, Encoded-any}
use codex_claude_author_crit.Validation.Declassify.Stretch.{Holds, form_in-Holds, Holds-form_in}

-- The log holds an encoding of the value of one of the secrets.
pub record Shows ⦃b : Base64⦄ (raw_log : Bytes) (secrets : List KnownSecret) : Type 0 where
  pub before : List KnownSecret
  pub secret : KnownSecret
  pub after : List KnownSecret
  pub form : Bytes
  pub secrets_are : secrets ≡ before ++ secret ∷ after
  pub encoded : Encoded secret.value form
  pub held : Holds raw_log form

any_cut :
    (p : KnownSecret → Bool) (ss : List KnownSecret)
    → any p ss ≡ true
    → (before : List KnownSecret) × (s : KnownSecret) × (after : List KnownSecret) × (ss
        ≡ before ++ s ∷ after)
      × (p s ≡ true)
unfolding any
any_cut p [] h = cc
any_cut p (s ∷ ss) h = elim (Bool-cases (p s)) [
  | inl here ↦ ([], s, ss, refl, here)
  | inr there ↦
      let (before, t, after, e, k) = any_cut p ss (rw there at h) in
      (s ∷ before, t, after, ap (λ (ts : List KnownSecret). s ∷ ts) e, k)
]

any-middle :
    (p : KnownSecret → Bool) (before : List KnownSecret) (s : KnownSecret)
    (after : List KnownSecret)
    → p s ≡ true
    → any p (before ++ s ∷ after) ≡ true
unfolding any
any-middle p [] s after h = rw h refl
any-middle p (t ∷ before) s after h = ground (arith, any-middle p before s after h)

abbrev pub AllBytes : KnownSecret → Type 0
AllBytes s = All (λ c. c < 256) s.value

All-middle :
    (before : List KnownSecret) (s : KnownSecret) (after : List KnownSecret)
    → All AllBytes (before ++ s ∷ after)
    → AllBytes s
All-middle [] s after h = h.0
All-middle (t ∷ before) s after h = All-middle before s after h.1

module _ ⦃b : Base64⦄ where
  -- A test that every held form passes is passed by a form of one of the secrets.
  pub any-Shows :
      (p : Bytes → Bool) (raw_log : Bytes) (secrets : List KnownSecret)
      → ((form : Bytes) → Holds raw_log form → p form ≡ true)
      → Shows raw_log secrets
      → any (λ (s : KnownSecret). any p (forbidden_forms s)) secrets ≡ true
  any-Shows p raw_log secrets passes shows =
      let s = shows.secret in
      rw shows.secrets_are (
        any-middle (λ t. any p (forbidden_forms t)) shows.before s shows.after
          (any-forbidden_forms p s
            ∙ any-Encoded p s.value shows.form shows.encoded (passes shows.form shows.held)))

  -- A raw log is reported when somewhere in it stands, up to the case of ASCII letters and up to white
  -- space put in or taken out, an encoding of the value of a known secret: the value, its Base64 in
  -- either alphabet, padded or not, or its hexadecimal digits in either case. Other secrets and the rest
  -- of the log do not matter.
  pub raw_log_contains_known_secret_found :
      (raw_log : Bytes) (secrets : List KnownSecret)
      → Shows raw_log secrets
      → raw_log_contains_known_secret raw_log secrets ≡ true
  unfolding raw_log_contains_known_secret
  raw_log_contains_known_secret_found raw_log secrets shows =
      any-Shows (form_in raw_log) raw_log secrets (Holds-form_in raw_log) shows

  -- Conversely, where the secrets' values consist of bytes, a raw log that is reported holds, up to case
  -- and white space, an encoding of the value of one of the secrets.
  pub raw_log_contains_known_secret_shown :
      (raw_log : Bytes) (secrets : List KnownSecret)
      → All AllBytes secrets
      → raw_log_contains_known_secret raw_log secrets ≡ true
      → Shows raw_log secrets
  unfolding raw_log_contains_known_secret
  raw_log_contains_known_secret_shown raw_log secrets bytes h =
      let (before, s, after, e, k) =
        any_cut (λ t. any (form_in raw_log) (forbidden_forms t)) secrets h in
      let (form, encoded, found) =
        Encoded-any (form_in raw_log) s.value (All-middle before s after (rw e at bytes))
          (sym (any-forbidden_forms (form_in raw_log) s) ∙ k) in
      record {
        before = before;
        secret = s;
        after = after;
        form = form;
        secrets_are = e;
        encoded = encoded;
        held = form_in-Holds raw_log form found;
      }
