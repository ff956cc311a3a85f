-- ===== src/Critic/Json.antt =====
-- JSON values as `json.loads` returns them, and the field checks of schemas.py. What is white space
-- to `str.strip` is the standard library's Unicode table, and a parameter.
use Prim.Native.String.{len}
use codex_claude_author_crit.Prelude.{
  ℕ, suc, ◌*◌, String, Bool, false, Option, none, some, List, [], ◌∷◌, ◌==◌, ◌&&◌, ◌||◌, not, map,
  all, any, elem, length, ltb, leb, string_eq, nat_eq, ok, fail, throw, key_error, ◌>>=◌, ◌>>◌,
  fail_if,
}
use codex_claude_author_crit.Prelude.Bytes.{Bytes, codes}
use codex_claude_author_crit.Prelude.Int.{ℤ, pos}
use codex_claude_author_crit.Prelude.Dict.{Dict, get}
use codex_claude_author_crit.Errors.{Outcome, StopReason}

pub record Unicode : Type 0 where
  pub is_space : ℕ → Bool

-- A float carries the integer that it equals, where it equals one: no check reads more.
mutual
  pub data Json : Type 0 where
    null : Json
    float : Option ℤ → Json
    bool : Bool → Json
    int : ℤ → Json
    str : String → Json
    arr : Items → Json
    obj : Fields → Json

  pub data Items : Type 0 where
    nil : Items
    cons : Json → Items → Items

  pub data Fields : Type 0 where
    end : Fields
    field : String → Json → Fields → Fields

unfoldable pub items : Items → List Json
items nil = []
items (cons j js) = j ∷ items js

unfoldable pub fields : Fields → Dict String Json
fields end = []
fields (field k j fs) = (k, j) ∷ fields fs

unfoldable pub from_items : List Json → Items
from_items [] = nil
from_items (j ∷ js) = cons j (from_items js)

unfoldable pub from_fields : Dict String Json → Fields
from_fields [] = end
from_fields ((k, j) ∷ fs) = field k j (from_fields fs)

abbrev pub invalid : StopReason
invalid = StopReason.invalid_structured_output

abbrev pub max_field_bytes : ℕ
max_field_bytes = 32 * 1024

abbrev names : Dict String Json → List String
names = map (λ kv. kv.0)

-- `_closed_mapping`: exactly the required keys.
unfoldable pub closed_mapping : List String → Json → Outcome (Dict String Json)
unfolding any elem fields
closed_mapping required (obj fs) = do
  let raw = fields fs
  fail_if (any (λ k. not (elem k (names raw))) required) invalid
  fail_if (any (λ k. not (elem k required)) (names raw)) invalid
  ok raw
closed_mapping required _ = fail invalid

-- `raw[key]`
unfoldable pub at_key : String → Dict String Json → Outcome Json
unfolding get
at_key k raw = elim (get k raw) [ none ↦ throw key_error | some j ↦ ok j ]

module _ ⦃u : Unicode⦄ where
  -- `not value.strip()`
  unfoldable pub is_blank : String → Bool
  unfolding all
  is_blank s = all u.is_space (codes s)

  -- `_string` with `nullable` false; `len` counts the bytes of the UTF-8 form.
  unfoldable pub required_string : Json → Outcome String
  required_string (str s) = do
    fail_if (is_blank s) invalid
    fail_if (ltb max_field_bytes (len s)) invalid
    ok s
  required_string _ = fail invalid

  -- `_string` with `nullable` true.
  unfoldable pub nullable_string : Json → Outcome (Option String)
  unfolding required_string
  nullable_string null = ok none
  nullable_string j = do s ← required_string j; ok (some s)

-- `_nullable_positive_int`; a `bool` is no integer here.
unfoldable pub nullable_positive_int : Json → Outcome (Option ℕ)
nullable_positive_int null = ok none
nullable_positive_int (int (pos (suc n))) = ok (some (suc n))
nullable_positive_int _ = fail invalid

is_alphanumeric : ℕ → Bool
is_alphanumeric c =
    (leb b'A' c && leb c b'Z') || (leb b'a' c && leb c b'z') || (leb b'0' c && leb c b'9')

is_id_tail : ℕ → Bool
unfolding is_alphanumeric
is_id_tail c = is_alphanumeric c || c == b'_' || c == b'.' || c == b'-'

id_matches : Bytes → Bool
unfolding is_alphanumeric is_id_tail all
id_matches [] = false
id_matches (c ∷ cs) = is_alphanumeric c && (leb (length cs) 63 && all is_id_tail cs)

-- `_FINDING_ID.fullmatch`: a letter or digit, then at most 63 letters, digits, `_`, `.` or `-`.
unfoldable pub is_finding_id : String → Bool
unfolding id_matches
is_finding_id s = id_matches (codes s)
