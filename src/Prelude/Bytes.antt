-- ===== src/Prelude/Bytes.antt =====
-- Python's `bytes` as lists of numbers, and the methods of `bytes` that the program uses.
pub mod Split
pub mod Components
pub mod Order
use Prim.Native.Nat.{ℕ, compare, Ordering}
use Prim.Native.Char.{code}
use Prim.Native.String.{String}
use mathlib.Core.Path.{◌≡◌, refl}
use mathlib.Core.Bool.{Bool, true, false, ◌&&◌, ◌||◌}
use mathlib.Core.List.{List, [], ◌∷◌, ◌++◌}
use codex_claude_author_crit.Prelude.Tests.{◌==◌, if◌then◌else◌, nat_eq, list_eq}

abbrev pub Bytes : Type 0
Bytes = List ℕ

-- The bytes of an ASCII literal.
abbrev pub codes : String → Bytes
codes String.[] = []
codes (String.◌∷◌ c s) = code c ∷ codes s

abbrev pub slash : ℕ
slash = b'/'

-- `s.startswith(p)`, as `starts_with s p`.
unfoldable pub starts_with : Bytes → Bytes → Bool
starts_with s [] = true
starts_with [] (b ∷ p) = false
starts_with (a ∷ s) (b ∷ p) = a == b && starts_with s p

-- `s.endswith(p)`
unfoldable pub ends_with : Bytes → Bytes → Bool
ends_with [] p = [] == p
ends_with (a ∷ s) p = (a ∷ s) == p || ends_with s p

-- `p in s`
unfoldable pub contains : Bytes → Bytes → Bool
unfolding starts_with
contains [] p = starts_with [] p
contains (a ∷ s) p = starts_with (a ∷ s) p || contains s p

unfoldable pub cons_head : ℕ → List Bytes → List Bytes
cons_head a [] = (a ∷ []) ∷ []
cons_head a (p ∷ ps) = (a ∷ p) ∷ ps

-- `s.split(c)` at a one-byte separator: never empty.
unfoldable pub split : ℕ → Bytes → List Bytes
unfolding cons_head
split c [] = [] ∷ []
split c (a ∷ s) = let rest = split c s in if a == c then [] ∷ rest else cons_head a rest

-- `c.join(parts)`
unfoldable pub join : ℕ → List Bytes → Bytes
join c [] = []
join c (p ∷ []) = p
join c (p ∷ q ∷ ps) = p ++ c ∷ join c (q ∷ ps)

-- `a < b` on bytes: lexicographic.
unfoldable pub bytes_lt : Bytes → Bytes → Bool
bytes_lt [] [] = false
bytes_lt [] (b ∷ q) = true
bytes_lt (a ∷ p) [] = false
bytes_lt (a ∷ p) (b ∷ q) = elim (compare a b) [
  | Ordering.lt ↦ true
  | Ordering.eq ↦ bytes_lt p q
  | Ordering.gt ↦ false
]
