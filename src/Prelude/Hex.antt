-- ===== src/Prelude/Hex.antt =====
-- `bytes.fromhex`, and texts as their bytes: both lose nothing on lower-case digests.
use Prim.Native.Nat.{ℕ, ◌+◌, ◌-◌, ◌*◌, ◌<◌}
use Prim.Native.String.{String}
use text.Mathlib.TextEquality.{Char-path}
use mathlib.Core.Path.{◌≡◌, refl, ap, ◌∙◌}
use mathlib.Core.Logic.{inl, inr}
use mathlib.Core.Bool.{Bool, true, false, ◌&&◌, ◌||◌}
use mathlib.Core.Option.{Option, none, some}
use mathlib.Core.List.{[], ◌∷◌}
use native.Mathlib.Omega.{arith}
use codex_claude_author_crit.Prelude.Tests.{leb, Option-cases, ◌==◌, nat_eq, if◌then◌else◌}
use codex_claude_author_crit.Prelude.Lists.{elem, All}
use codex_claude_author_crit.Prelude.Bytes.{Bytes, codes}

between : ℕ → ℕ → ℕ → Bool
between low high c = leb low c && leb c high

-- The value of a hexadecimal digit of either case.
unfoldable pub nibble : ℕ → Option ℕ
unfolding between
nibble c =
    if between b'0' b'9' c
    then some (c - b'0')
    else if between b'a' b'f' c
    then some (c - b'a' + 10)
    else if between b'A' b'F' c
    then some (c - b'A' + 10)
    else none

is_ascii_space : ℕ → Bool
unfolding between
is_ascii_space c = c == b' ' || between 9 13 c

pair : Option ℕ → Option ℕ → Option Bytes → Option Bytes
pair (some high) (some low) (some rest) = some ((16 * high + low) ∷ rest)
pair _ _ _ = none

-- `bytes.fromhex(text)`, `none` where it raises; white space between the bytes is skipped.
unfoldable pub from_hex : Bytes → Option Bytes
unfolding nibble is_ascii_space pair
from_hex [] = some []
from_hex (c ∷ []) = if is_ascii_space c then some [] else none
from_hex (c ∷ d ∷ cs) =
    let skipped = from_hex (d ∷ cs) in
    let rest = from_hex cs in if is_ascii_space c then skipped else pair (nibble c) (nibble d) rest

-- A lower-case digit.
abbrev pub IsHex : ℕ → Type 0
IsHex c = elem c (codes "0123456789abcdef") ≡ true

abbrev hex_value : ℕ → ℕ
hex_value c = if leb c b'9' then c - b'0' else c - b'a' + 10

abbrev IsDigit : ℕ → Type 0
IsDigit c = (between b'0' b'9' c || between b'a' b'f' c) ≡ true

IsHex-IsDigit : (c : ℕ) → IsHex c → IsDigit c
unfolding elem between
IsHex-IsDigit c h = ground (arith, h)

IsDigit-nibble :
    (c : ℕ)
    → IsDigit c
    → (nibble c ≡ some (hex_value c)) × (is_ascii_space c ≡ false) × (hex_value c < 16)
unfolding nibble is_ascii_space between
IsDigit-nibble c h = ground arith

hex_value-injective : (c d : ℕ) → IsDigit c → IsDigit d → hex_value c ≡ hex_value d → c ≡ d
unfolding between
hex_value-injective c d h k e = ground arith

from_hex-cons :
    (c d : ℕ) (cs : Bytes) {bytes : Bytes}
    → IsDigit c
    → IsDigit d
    → from_hex (c ∷ d ∷ cs) ≡ some bytes
    → (rest : Bytes) × (from_hex cs ≡ some rest) × (bytes ≡ (16 * hex_value c + hex_value d) ∷ rest)
unfolding from_hex
from_hex-cons c d cs h k e =
    let (hi, not_space, _) = IsDigit-nibble c h in
    let (lo, _, _) = IsDigit-nibble d k in
    elim (Option-cases (from_hex cs)) [
      | inl stuck ↦ absurd (ground arith)
      | inr (rest, found) ↦ (rest, found, ground (arith, hi, lo, not_space, found))
    ]

lone : (c : ℕ) {bytes : Bytes} → IsHex c → from_hex (c ∷ []) ≡ some bytes → ⊥
unfolding from_hex
lone c h e = let (_, not_space, _) = IsDigit-nibble c (IsHex-IsDigit c h) in ground arith

ends :
    (c d : ℕ) (cs : Bytes) {bytes : Bytes}
    → IsDigit c
    → IsDigit d
    → from_hex [] ≡ some bytes
    → from_hex (c ∷ d ∷ cs) ≡ some bytes
    → ⊥
unfolding from_hex
ends c d cs h k p q = let (rest, _, e) = from_hex-cons c d cs h k q in cc

split_byte : (a b c d : ℕ) → b < 16 → d < 16 → 16 * a + b ≡ 16 * c + d → (a ≡ c) × (b ≡ d)
split_byte a b c d h k e = omega arith

pub codes-injective : (s t : String) → codes s ≡ codes t → s ≡ t
codes-injective String.[] String.[] h = refl
codes-injective String.[] (String.◌∷◌ d t) h = cc
codes-injective (String.◌∷◌ c s) String.[] h = cc
codes-injective (String.◌∷◌ c s) (String.◌∷◌ d t) h =
    let same = codes-injective s t (cc) in let first = Char-path c d (cc) in cc

pub from_hex-injective :
    (s t : Bytes) {bytes : Bytes}
    → All IsHex s
    → All IsHex t
    → from_hex s ≡ some bytes
    → from_hex t ≡ some bytes
    → s ≡ t
from_hex-injective [] [] hs ht p q = refl
from_hex-injective [] (c ∷ []) hs ht p q = absurd (lone c ht.0 q)
from_hex-injective [] (c ∷ d ∷ t) hs ht p q =
    absurd (ends c d t (IsHex-IsDigit c ht.0) (IsHex-IsDigit d ht.1.0) p q)
from_hex-injective (c ∷ []) t hs ht p q = absurd (lone c hs.0 p)
from_hex-injective (c ∷ d ∷ s) [] hs ht p q =
    absurd (ends c d s (IsHex-IsDigit c hs.0) (IsHex-IsDigit d hs.1.0) q p)
from_hex-injective (c ∷ d ∷ s) (x ∷ []) hs ht p q = absurd (lone x ht.0 q)
from_hex-injective (c ∷ d ∷ s) (x ∷ y ∷ t) hs ht p q =
    let (c_ok, d_ok) : IsDigit c × IsDigit d = (IsHex-IsDigit c hs.0, IsHex-IsDigit d hs.1.0) in
    let (x_ok, y_ok) : IsDigit x × IsDigit y = (IsHex-IsDigit x ht.0, IsHex-IsDigit y ht.1.0) in
    let (rest, p', e) = from_hex-cons c d s c_ok d_ok p in
    let (rest', q', e') = from_hex-cons x y t x_ok y_ok q in
    let tails : rest' ≡ rest = cc in
    let same = from_hex-injective s t hs.1.1 ht.1.1 p' (q' ∙ ap some tails) in
    let bytes : 16 * hex_value c + hex_value d ≡ 16 * hex_value x + hex_value y = cc in
    let (high, low) =
      split_byte (hex_value c) (hex_value d) (hex_value x) (hex_value y) (IsDigit-nibble d d_ok).2
        (IsDigit-nibble y y_ok).2 bytes in
    let c_x = hex_value-injective c x c_ok x_ok high in
    let d_y = hex_value-injective d y d_ok y_ok low in cc
