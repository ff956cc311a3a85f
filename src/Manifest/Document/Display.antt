-- ===== src/Manifest/Document/Display.antt =====
-- That `display_path` of models.py shows different paths differently.
use codex_claude_author_crit.Prelude.{
  ℕ, ◌<◌, ◌≡◌, ◌≢◌, refl, sym, ap₂, [], ◌∷◌, ◌++◌, All, arith, nat_eq,
}
use codex_claude_author_crit.Prelude.Bytes.{Bytes}
use codex_claude_author_crit.Manifest.Document.{hex_char, display_byte, display_path}

hex_char-injective : (m n : ℕ) → m < 16 → n < 16 → hex_char m ≡ hex_char n → m ≡ n
unfolding hex_char
hex_char-injective m n h k e = ground arith

-- A byte's form can be read off the front of what it begins.
display_byte-injective :
    (c d : ℕ) (us vs : Bytes)
    → c < 256
    → d < 256
    → display_byte c ++ us ≡ display_byte d ++ vs
    → (c ≡ d) × (us ≡ vs)
unfolding display_byte
display_byte-injective c d us vs h k e = ground arith

display_byte_some : (c : ℕ) (us : Bytes) → display_byte c ++ us ≢ []
unfolding display_byte
display_byte_some c us h = ground arith

-- The form that a reader is shown, determines the path: no two byte
-- paths are shown the same.
pub display_path-injective :
    (p q : Bytes)
    → All (λ c. c < 256) p
    → All (λ c. c < 256) q
    → display_path p ≡ display_path q
    → p ≡ q
unfolding display_path
display_path-injective [] [] h k e = refl
display_path-injective [] (d ∷ q) h k e = absurd (display_byte_some d (display_path q) (sym e))
display_path-injective (c ∷ p) [] h k e = absurd (display_byte_some c (display_path p) e)
display_path-injective (c ∷ p) (d ∷ q) h k e =
    let (first, rest) = display_byte-injective c d (display_path p) (display_path q) h.0 k.0 e in
    ap₂ (λ x xs. x ∷ xs) first (display_path-injective p q h.1 k.1 rest)
