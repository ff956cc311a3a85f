-- ===== src/Prelude/Text.antt =====
-- Texts and bytes: `text.encode("utf-8")`, and an ASCII text from its bytes.
use Prim.Native.Nat.{ℕ, ◌+◌, ◌/◌, ◌%◌, compare, Ordering}
use Prim.Native.Char.{Char, char, code, nul}
use Prim.Native.String.{String}
use mathlib.Core.Path.{◌≡◌, refl}
use mathlib.Core.List.{[], ◌∷◌, ◌++◌}
use codex_claude_author_crit.Prelude.Tests.{ltb, if◌then◌else◌}
use codex_claude_author_crit.Prelude.Bytes.{Bytes}

-- The bytes of one code point.
utf8_char : ℕ → Bytes
utf8_char c =
    if ltb c 0x80
    then c ∷ []
    else if ltb c 0x800
    then (0xc0 + c / 0x40) ∷ (0x80 + c % 0x40) ∷ []
    else if ltb c 0x10000
    then (0xe0 + c / 0x1000) ∷ (0x80 + c / 0x40 % 0x40) ∷ (0x80 + c % 0x40) ∷ []
    else (0xf0 + c / 0x40000)
      ∷ (0x80 + c / 0x1000 % 0x40)
      ∷ (0x80 + c / 0x40 % 0x40)
      ∷ (0x80 + c % 0x40)
      ∷ []

-- `text.encode("utf-8")`; a `String` holds no lone surrogate, so that it does not raise.
unfoldable pub utf8 : String → Bytes
unfolding utf8_char
utf8 String.[] = []
utf8 (String.◌∷◌ c s) = utf8_char (code c) ++ utf8 s

char_below : (c : ℕ) (o : Ordering) → compare c 55296 ≡ o → Char
char_below c Ordering.lt h = char c (rw h tt)
char_below c Ordering.eq h = nul
char_below c Ordering.gt h = nul

-- The text of ASCII bytes.
unfoldable pub ascii_text : Bytes → String
unfolding char_below
ascii_text [] = String.[]
ascii_text (c ∷ cs) = String.◌∷◌ (char_below c (compare c 55296) refl) (ascii_text cs)
