-- ===== src/Validation/Declassify/Digits.antt =====
-- The hexadecimal digits of a value, described by a table, and `bytes.hex` in declassify.py.
use codex_claude_author_crit.Prelude.{
  ℕ, zero, suc, ◌/◌, ◌%◌, ◌<◌, ◌≡◌, refl, Option, none, some, [], ◌∷◌, All, ltb, nat_eq,
  if◌then◌else◌, arith,
}
use codex_claude_author_crit.Prelude.Bytes.{Bytes, codes}
use codex_claude_author_crit.Validation.Declassify.{hex_digit, hex_with}

-- The item at an index.
abbrev pub digit_at : Bytes → ℕ → Option ℕ
digit_at [] n = none
digit_at (d ∷ ds) zero = some d
digit_at (d ∷ ds) (suc n) = digit_at ds n

-- Two digits of the table for each byte, the high one first.
pub data HexOf (digits : Bytes) : Bytes → Bytes → Type 0 where
  end : HexOf digits [] []
  byte :
      {value form : Bytes} (b high low : ℕ)
      → digit_at digits (b / 16) ≡ some high
      → digit_at digits (b % 16) ≡ some low
      → HexOf digits value form
      → HexOf digits (b ∷ value) (high ∷ low ∷ form)

abbrev pub lower_digits : Bytes
lower_digits = codes "0123456789abcdef"

abbrev pub upper_digits : Bytes
upper_digits = codes "0123456789ABCDEF"

-- A table whose digits are those of `hex_digit`.
abbrev pub Tabulates : ℕ → Bytes → Type 0
Tabulates ten digits =
    (n : ℕ) → digit_at digits n ≡ (if ltb n 16 then some (hex_digit ten n) else none)

pub lower_digits-Tabulates : Tabulates b'a' lower_digits
unfolding hex_digit
lower_digits-Tabulates zero = refl
lower_digits-Tabulates (suc zero) = refl
lower_digits-Tabulates (suc (suc zero)) = refl
lower_digits-Tabulates (suc (suc (suc zero))) = refl
lower_digits-Tabulates (suc (suc (suc (suc zero)))) = refl
lower_digits-Tabulates (suc (suc (suc (suc (suc zero))))) = refl
lower_digits-Tabulates (suc (suc (suc (suc (suc (suc zero)))))) = refl
lower_digits-Tabulates (suc (suc (suc (suc (suc (suc (suc zero))))))) = refl
lower_digits-Tabulates (suc (suc (suc (suc (suc (suc (suc (suc zero)))))))) = refl
lower_digits-Tabulates (suc (suc (suc (suc (suc (suc (suc (suc (suc zero))))))))) = refl
lower_digits-Tabulates (suc (suc (suc (suc (suc (suc (suc (suc (suc (suc zero)))))))))) = refl
lower_digits-Tabulates (suc (suc (suc (suc (suc (suc (suc (suc (suc (suc (suc zero))))))))))) = refl
lower_digits-Tabulates
      (suc (suc (suc (suc (suc (suc (suc (suc (suc (suc (suc (suc zero)))))))))))) =
    refl
lower_digits-Tabulates
      (suc (suc (suc (suc (suc (suc (suc (suc (suc (suc (suc (suc (suc zero))))))))))))) =
    refl
lower_digits-Tabulates
      (suc (suc (suc (suc (suc (suc (suc (suc (suc (suc (suc (suc (suc (suc zero)))))))))))))) =
    refl
lower_digits-Tabulates
      (suc
        (suc (suc (suc (suc (suc (suc (suc (suc (suc (suc (suc (suc (suc (suc zero))))))))))))))) =
    refl
lower_digits-Tabulates
      (suc (
        suc
          (suc (suc (suc (suc (suc (suc (suc (suc (suc (suc (suc (suc (suc (suc n)))))))))))))))) =
    ground arith

pub upper_digits-Tabulates : Tabulates b'A' upper_digits
unfolding hex_digit
upper_digits-Tabulates zero = refl
upper_digits-Tabulates (suc zero) = refl
upper_digits-Tabulates (suc (suc zero)) = refl
upper_digits-Tabulates (suc (suc (suc zero))) = refl
upper_digits-Tabulates (suc (suc (suc (suc zero)))) = refl
upper_digits-Tabulates (suc (suc (suc (suc (suc zero))))) = refl
upper_digits-Tabulates (suc (suc (suc (suc (suc (suc zero)))))) = refl
upper_digits-Tabulates (suc (suc (suc (suc (suc (suc (suc zero))))))) = refl
upper_digits-Tabulates (suc (suc (suc (suc (suc (suc (suc (suc zero)))))))) = refl
upper_digits-Tabulates (suc (suc (suc (suc (suc (suc (suc (suc (suc zero))))))))) = refl
upper_digits-Tabulates (suc (suc (suc (suc (suc (suc (suc (suc (suc (suc zero)))))))))) = refl
upper_digits-Tabulates (suc (suc (suc (suc (suc (suc (suc (suc (suc (suc (suc zero))))))))))) = refl
upper_digits-Tabulates
      (suc (suc (suc (suc (suc (suc (suc (suc (suc (suc (suc (suc zero)))))))))))) =
    refl
upper_digits-Tabulates
      (suc (suc (suc (suc (suc (suc (suc (suc (suc (suc (suc (suc (suc zero))))))))))))) =
    refl
upper_digits-Tabulates
      (suc (suc (suc (suc (suc (suc (suc (suc (suc (suc (suc (suc (suc (suc zero)))))))))))))) =
    refl
upper_digits-Tabulates
      (suc
        (suc (suc (suc (suc (suc (suc (suc (suc (suc (suc (suc (suc (suc (suc zero))))))))))))))) =
    refl
upper_digits-Tabulates
      (suc (
        suc
          (suc (suc (suc (suc (suc (suc (suc (suc (suc (suc (suc (suc (suc (suc n)))))))))))))))) =
    ground arith

pub HexOf-hex_with :
    (ten : ℕ) (digits value form : Bytes)
    → Tabulates ten digits
    → HexOf digits value form
    → hex_with ten value ≡ form
unfolding hex_with
HexOf-hex_with ten digits [] [] t end = refl
HexOf-hex_with ten digits [] (high ∷ form) t r = elim r [ ]
HexOf-hex_with ten digits (b ∷ value) [] t r = elim r [ ]
HexOf-hex_with ten digits (b ∷ value) (high ∷ []) t r = elim r [ ]
HexOf-hex_with ten digits (b ∷ value) (high ∷ low ∷ form) t (byte b' high' low' h l r) =
    let ih = HexOf-hex_with ten digits value form t r in
    let at_high = t (b / 16) in let at_low = t (b % 16) in ground arith

pub hex_with-HexOf :
    (ten : ℕ) (digits value : Bytes)
    → Tabulates ten digits
    → All (λ b. b < 256) value
    → HexOf digits value (hex_with ten value)
unfolding hex_with
hex_with-HexOf ten digits [] t h = end
hex_with-HexOf ten digits (b ∷ value) t h =
    let at_high = t (b / 16) in
    let at_low = t (b % 16) in
    let is_byte = h.0 in
    byte b (hex_digit ten (b / 16)) (hex_digit ten (b % 16)) (ground arith) (ground arith)
      (hex_with-HexOf ten digits value t h.1)
