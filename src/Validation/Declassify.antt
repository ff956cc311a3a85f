-- ===== src/Validation/Declassify.antt =====
-- declassify.py: what of a validation may reach the critic. Base64 is the standard library's, and a
-- parameter.
pub mod Folds
pub mod Digits
pub mod Padding
pub mod Forms
pub mod Stretch
pub mod Shown
use codex_claude_author_crit.Prelude.{
  ℕ, ◌+◌, ◌-◌, ◌/◌, ◌%◌, ◌≡◌, refl, ◌∙◌, String, Bool, true, false, Option, List, [], ◌∷◌, ◌++◌,
  ◌==◌, ◌&&◌, ◌||◌, not, map, all, any, keep, elem, length, leb, ltb, nat_eq, string_eq, list_eq,
  list_beq_iff, ok, value_error, ◌>>◌, raise_if, if◌then◌else◌, arith, reverse,
}
use codex_claude_author_crit.Prelude.Bytes.{Bytes, contains, bytes_lt}
use codex_claude_author_crit.Prelude.Int.{ℤ}
use codex_claude_author_crit.Prelude.Sorting.{sorted}
use codex_claude_author_crit.Prelude.Sorting.Laws.{any-sorted}
use codex_claude_author_crit.Errors.{Outcome}
use codex_claude_author_crit.Validation.Execution.{CheckOutcome}
use codex_claude_author_crit.Validation.Classify.{ValidationTransition, ClassifiedCheck}

pub record Base64 : Type 0 where
  pub b64encode : Bytes → Bytes
  pub urlsafe_b64encode : Bytes → Bytes

pub record KnownSecret : Type 0 where
  pub identifier : String
  pub value : Bytes

-- `KnownSecret.__post_init__`
unfoldable pub known_secret : KnownSecret → Outcome KnownSecret
known_secret s = do raise_if (s.identifier == "" || s.value == []) value_error; ok s

pub hex_digit : ℕ → ℕ → ℕ
hex_digit ten n = if ltb n 10 then b'0' + n else ten + (n - 10)

pub hex_with : ℕ → Bytes → Bytes
unfolding hex_digit
hex_with ten [] = []
hex_with ten (b ∷ bs) = hex_digit ten (b / 16) ∷ hex_digit ten (b % 16) ∷ hex_with ten bs

-- `bytes.lower()`
unfoldable pub lower : Bytes → Bytes
lower = map (λ b. if leb b'A' b && leb b b'Z' then b + 32 else b)

-- ASCII white space, where `bytes.split()` cuts: tab to carriage return, and the space.
pub is_space : ℕ → Bool
is_space b = b == 32 || (leb 9 b && leb b 13)

-- `b"".join(data.split())`
unfoldable pub compact : Bytes → Bytes
unfolding keep is_space
compact = keep (λ b. not (is_space b))

-- Without the `=` at the front, for a reversed text.
pub drop_padding : Bytes → Bytes
drop_padding [] = []
drop_padding (b ∷ bs) = if b == b'=' then drop_padding bs else b ∷ bs

-- `rstrip(b"=")`
pub rstrip_padding : Bytes → Bytes
unfolding drop_padding
rstrip_padding bs = reverse (drop_padding (reverse bs))

distinct : List Bytes → List Bytes
unfolding elem
distinct [] = []
distinct (p ∷ ps) = let rest = distinct ps in if elem p rest then rest else p ∷ rest

-- The order of `(len(value), value)`.
shorter : Bytes → Bytes → Bool
unfolding bytes_lt
shorter a b = if length a == length b then bytes_lt a b else ltb (length a) (length b)

-- The body of the two loops, for one form.
unfoldable pub form_in : Bytes → Bytes → Bool
unfolding contains lower compact
form_in raw_log form =
    contains raw_log form
    || contains (lower raw_log) (lower form)
    || (contains (compact raw_log) (compact form)
        || contains (lower (compact raw_log)) (lower (compact form)))

module _ ⦃b : Base64⦄ where
  -- The members of the set in `forbidden_forms`.
  unfoldable pub raw_forms : Bytes → List Bytes
  unfolding rstrip_padding hex_with
  raw_forms value =
      value
      ∷ b.b64encode value
      ∷ b.urlsafe_b64encode value
      ∷ rstrip_padding (b.b64encode value)
      ∷ rstrip_padding (b.urlsafe_b64encode value)
      ∷ hex_with b'a' value
      ∷ hex_with b'A' value
      ∷ []

  unfoldable pub forbidden_forms : KnownSecret → List Bytes
  unfolding raw_forms distinct shorter
  forbidden_forms s = sorted shorter (distinct (raw_forms s.value))

  unfoldable pub raw_log_contains_known_secret : Bytes → List KnownSecret → Bool
  unfolding any form_in forbidden_forms
  raw_log_contains_known_secret raw_log secrets =
      any (λ s. any (form_in raw_log) (forbidden_forms s)) secrets

any_of_elem :
    (p : Bytes → Bool) (x : Bytes) (ys : List Bytes)
    → elem x ys ≡ true
    → p x ≡ true
    → any p ys ≡ true
unfolding any elem
any_of_elem p x [] h k = cc
any_of_elem p x (y ∷ ys) h k = ground (arith, list_beq_iff y x, any_of_elem p x ys)

any-distinct : (p : Bytes → Bool) (xs : List Bytes) → any p (distinct xs) ≡ any p xs
unfolding any distinct
any-distinct p [] = refl
any-distinct p (x ∷ xs) = ground (arith, any-distinct p xs, any_of_elem p x (distinct xs))

module _ ⦃b : Base64⦄ where
  -- The order of the forms, and how often one is listed, do not matter.
  pub any-forbidden_forms :
      (p : Bytes → Bool) (s : KnownSecret) → any p (forbidden_forms s) ≡ any p (raw_forms s.value)
  unfolding forbidden_forms
  any-forbidden_forms p s =
      any-sorted shorter p (distinct (raw_forms s.value)) ∙ any-distinct p (raw_forms s.value)

pub record CheckEvidence : Type 0 where
  pub check_id : String
  pub exit_code : Option ℤ
  pub signal : Option ℤ
  pub baseline_outcome : Option CheckOutcome
  pub current_outcome : CheckOutcome
  pub transition : ValidationTransition
  pub regression : Bool
  pub evidence_complete : Bool

pub record ValidationCriticEvidence : Type 0 where
  pub schema_version : ℕ
  pub subject_fingerprint : String
  pub approval_eligible : Bool
  pub checks : List CheckEvidence

-- `outcome in {CheckOutcome.PASSED, CheckOutcome.FAILED}`
unfoldable pub is_complete : CheckOutcome → Bool
is_complete CheckOutcome.passed = true
is_complete CheckOutcome.failed = true
is_complete _ = false

evidence_of : ClassifiedCheck → CheckEvidence
unfolding is_complete
evidence_of c = record {
  check_id = c.check_id;
  exit_code = c.exit_code;
  signal = c.signal;
  baseline_outcome = c.baseline_outcome;
  current_outcome = c.current_outcome;
  transition = c.transition;
  regression = c.regression;
  evidence_complete = is_complete c.current_outcome;
}

module _ ⦃b : Base64⦄ where
  unfoldable pub declassify_validation :
      String → List ClassifiedCheck → Bytes → List KnownSecret → ValidationCriticEvidence
  unfolding evidence_of all raw_log_contains_known_secret
  declassify_validation fingerprint checks raw_log secrets =
      let contains_secret = raw_log_contains_known_secret raw_log secrets in
      let evidence = map evidence_of checks in
      record {
        schema_version = 1;
        subject_fingerprint = fingerprint;
        approval_eligible = all (λ (e : CheckEvidence). e.evidence_complete) evidence;
        checks = evidence;
      }

  -- The evidence is the same for any two raw logs and any two sets of secrets: nothing of a log
  -- reaches the critic through it.
  pub declassify_validation_noninterference :
      (fingerprint : String) (checks : List ClassifiedCheck) (raw_log raw_log' : Bytes)
      (secrets secrets' : List KnownSecret)
      → declassify_validation fingerprint checks raw_log secrets
        ≡ declassify_validation fingerprint checks raw_log' secrets'
  unfolding declassify_validation
  declassify_validation_noninterference fingerprint checks raw_log raw_log' secrets secrets' = refl
