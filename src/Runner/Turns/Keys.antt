-- ===== src/Runner/Turns/Keys.antt =====
-- That the runner's secrets and the supplied ones are all searched for: `dict.fromkeys` drops repetitions
-- only.
use codex_claude_author_crit.Prelude.{
  ◌≡◌, Bool, true, false, ◌⊎◌, List, [], ◌∷◌, ◌++◌, any, arith, list_beq_iff, nat_eq, string_eq,
}
use codex_claude_author_crit.Prelude.Bytes.{Bytes}
use codex_claude_author_crit.Validation.Declassify.{
  Base64, KnownSecret, raw_log_contains_known_secret, forbidden_forms, form_in,
}
use codex_claude_author_crit.Runner.Turns.{same_secret, is_seen, from_keys}

same_secret_eq : (s t : KnownSecret) → same_secret s t ≡ true → s ≡ t
unfolding same_secret
same_secret_eq s t h =
    ground (arith, string_eq.beq_iff s.identifier t.identifier, list_beq_iff s.value t.value)

any-is_seen :
    (p : KnownSecret → Bool) (s : KnownSecret) (seen : List KnownSecret)
    → is_seen s seen ≡ true
    → p s ≡ true
    → any p seen ≡ true
unfolding any is_seen
any-is_seen p s [] h k = cc
any-is_seen p s (t ∷ ts) h k = ground (arith, same_secret_eq s t, any-is_seen p s ts)

any-from_keys :
    (p : KnownSecret → Bool) (seen ss : List KnownSecret)
    → any p ss ≡ true
    → (any p (from_keys seen ss) ≡ true) ⊎ (any p seen ≡ true)
unfolding any from_keys
any-from_keys p seen [] h = cc
any-from_keys p seen (s ∷ ss) h =
    ground (arith, any-is_seen p s seen, any-from_keys p (s ∷ seen) ss)

any_left :
    (p : KnownSecret → Bool) (ss ts : List KnownSecret) → any p ss ≡ true → any p (ss ++ ts) ≡ true
unfolding any
any_left p [] ts h = cc
any_left p (s ∷ ss) ts h = ground (arith, any_left p ss ts)

any_all_keys :
    (p : KnownSecret → Bool) (known supplied : List KnownSecret)
    → any p (from_keys [] (known ++ supplied)) ≡ false
    → any p known ≡ false
unfolding any
any_all_keys p known supplied h =
    ground (arith, any-from_keys p [] (known ++ supplied), any_left p known supplied)

-- Bytes without the secrets of the united list are without the first list's.
pub raw_log_contains_known_secret-from_keys :
    ⦃b : Base64⦄ (bytes : Bytes) (known supplied : List KnownSecret)
    → raw_log_contains_known_secret bytes (from_keys [] (known ++ supplied)) ≡ false
    → raw_log_contains_known_secret bytes known ≡ false
unfolding raw_log_contains_known_secret
raw_log_contains_known_secret-from_keys bytes known supplied h =
    any_all_keys (λ s. any (form_in bytes) (forbidden_forms s)) known supplied h
