-- ===== src/Prelude/Numerals.antt =====
-- Numbers as bytes: Python's `str` and `format` of an integer, and `int.to_bytes` in big-endian order.
use Prim.Native.Nat.{ℕ, zero, suc, ◌+◌, ◌-◌, ◌*◌, ◌/◌, ◌%◌, ◌^◌, ◌<◌}
use mathlib.Core.Path.{◌≡◌, refl, sym, ap, ◌∙◌}
use mathlib.Core.Logic.{inl, inr}
use mathlib.Core.Bool.{false}
use mathlib.Core.List.{List, [], ◌∷◌, ◌++◌}
use native.Mathlib.Omega.{arith}
use native.Mathlib.Nat.{div-add-mod', mod-eq_of_lt}
use codex_claude_author_crit.Prelude.Tests.{ltb, if◌then◌else◌, Bool-cases}
use codex_claude_author_crit.Prelude.Lists.{length, length-append}
use codex_claude_author_crit.Prelude.Bytes.{Bytes}

-- The digits of `n` in a base of at most ten, most significant first; `n + 1` rounds are enough.
unfoldable pub digits_loop : ℕ → ℕ → ℕ → Bytes
digits_loop base zero n = []
digits_loop base (suc fuel) n =
    let front = digits_loop base fuel (n / base) in
    (if ltb n base then [] else front) ++ (b'0' + n % base) ∷ []

unfoldable pub digits : ℕ → ℕ → Bytes
unfolding digits_loop
digits base n = digits_loop base (suc n) n

-- `str(n)`
unfoldable pub decimal : ℕ → Bytes
unfolding digits
decimal n = digits 10 n

unfoldable pub zeros : ℕ → Bytes
zeros zero = []
zeros (suc k) = b'0' ∷ zeros k

-- `f"{n:06o}"`
unfoldable pub octal6 : ℕ → Bytes
unfolding digits zeros
octal6 n = let ds = digits 8 n in zeros (6 - length ds) ++ ds

-- `n.to_bytes(k, "big")`, where it does not overflow.
unfoldable pub big_endian : ℕ → ℕ → Bytes
big_endian zero n = []
big_endian (suc k) n = big_endian k (n / 256) ++ (n % 256) ∷ []

-- The number that the digits `ds` stand for, after `acc`.
value : ℕ → ℕ → Bytes → ℕ
value base acc [] = acc
value base acc (c ∷ cs) = value base (acc * base + (c - b'0')) cs

value-append :
    (base acc : ℕ) (xs ys : Bytes) → value base acc (xs ++ ys) ≡ value base (value base acc xs) ys
unfolding value
value-append base acc [] ys = refl
value-append base acc (x ∷ xs) ys = value-append base (acc * base + (x - b'0')) xs ys

abbrev Shrinks : ℕ → Type 0
Shrinks base = (n : ℕ) → ltb n base ≡ false → n / base < n

value-digits_loop :
    (base : ℕ)
    → Shrinks base
    → 0 < base
    → (fuel n : ℕ) → n < fuel
    → value base 0 (digits_loop base fuel n) ≡ n
unfolding value digits_loop
value-digits_loop base s p zero n h = absurd (omega arith)
value-digits_loop base s p (suc fuel) n h = elim (Bool-cases (ltb n base)) [
  | inl small ↦ let lt : n < base = ground arith in rw small (omega (arith, mod-eq_of_lt lt))
  | inr large ↦
      rw
        (large, value-append, value-digits_loop base s p fuel (n / base) (omega (arith, s n large)))
        (omega (arith, div-add-mod' n base))
]

value-digits : (base : ℕ) → Shrinks base → 0 < base → (n : ℕ) → value base 0 (digits base n) ≡ n
unfolding digits
value-digits base s p n = value-digits_loop base s p (suc n) n (omega arith)

value-zeros : (base k : ℕ) (cs : Bytes) → value base 0 (zeros k ++ cs) ≡ value base 0 cs
unfolding value zeros
value-zeros base zero cs = refl
value-zeros base (suc k) cs =
    let e : 0 * base + (b'0' - b'0') ≡ 0 = omega arith in rw (e, value) (value-zeros base k cs)

pub decimal-injective : (m n : ℕ) → decimal m ≡ decimal n → m ≡ n
unfolding decimal
decimal-injective m n h =
    sym (value-digits 10 (λ k l. ground arith) (omega arith) m)
    ∙ ap (value 10 0) h
    ∙ value-digits 10 (λ k l. ground arith) (omega arith) n

value-octal6 : (n : ℕ) → value 8 0 (octal6 n) ≡ n
unfolding octal6
value-octal6 n =
    value-zeros 8 (6 - length (digits 8 n)) (digits 8 n)
    ∙ value-digits 8 (λ k l. ground arith) (omega arith) n

pub octal6-injective : (m n : ℕ) → octal6 m ≡ octal6 n → m ≡ n
octal6-injective m n h = sym (value-octal6 m) ∙ ap (value 8 0) h ∙ value-octal6 n

pub length-big_endian : (k n : ℕ) → length (big_endian k n) ≡ k
unfolding big_endian
length-big_endian zero n = refl
length-big_endian (suc k) n = rw (length-append, length-big_endian k (n / 256)) (omega arith)

-- Lists of one length, each at the front of one list, are equal, and so is what follows.
pub append-injective {ℓ} :
    {A : Type ℓ} (xs ys us vs : List A)
    → length xs ≡ length ys
    → xs ++ us ≡ ys ++ vs
    → (xs ≡ ys) × (us ≡ vs)
append-injective [] [] us vs l h = (refl, h)
append-injective [] (y ∷ ys) us vs l h = absurd (omega (arith, l))
append-injective (x ∷ xs) [] us vs l h = absurd (omega (arith, l))
append-injective (x ∷ xs) (y ∷ ys) us vs l h =
    let (tails, rests) = append-injective xs ys us vs (omega (arith, l)) (cc) in (cc, rests)

-- `n < 256 ^ k`, so that `n.to_bytes(k, "big")` does not overflow.
abbrev pub Fits : ℕ → ℕ → Type 0
Fits zero n = n ≡ 0
Fits (suc k) n = Fits k (n / 256)

pub Fits-u64 : (n : ℕ) → n < 2 ^ 64 → Fits 8 n
Fits-u64 n h = omega arith

pub big_endian-injective :
    (k m n : ℕ) → Fits k m → Fits k n → big_endian k m ≡ big_endian k n → m ≡ n
unfolding big_endian
big_endian-injective zero m n p q h = omega arith
big_endian-injective (suc k) m n p q h =
    let (front, last) =
      append-injective (big_endian k (m / 256)) (big_endian k (n / 256)) _ _
        (length-big_endian k (m / 256) ∙ sym (length-big_endian k (n / 256))) h in
    let up = big_endian-injective k (m / 256) (n / 256) p q front in
    let low : m % 256 ≡ n % 256 = cc in omega (arith, up, low)
