-- ===== src/Prelude/Exceptions.antt =====
-- Python exceptions as values. An `AgentLoopError` is kept apart from the built-in exceptions, and
-- carries what its raiser chose; the texts of messages are left out.
use mathlib.Core.Path.{◌≡◌, refl}
use mathlib.Core.Bool.{Bool, true, false}

pub data Builtin : Type 0 where
  value_error type_error runtime_error key_error assertion_error : Builtin

-- `Raise R A`: a value, an `AgentLoopError` with its reason, or a built-in exception.
pub data Except {ℓ} (R : Type 0) (A : Type ℓ) : Type ℓ where
  ok : A → Except R A
  fail : R → Except R A
  throw : Builtin → Except R A

infixl 5 ◌>>=◌ ◌>>◌
abbrev pub ◌>>=◌ {ℓ κ} :
    {R : Type 0} {A : Type ℓ} {B : Type κ} → Except R A → (A → Except R B) → Except R B
ok a >>= f = f a
fail r >>= f = fail r
throw e >>= f = throw e

abbrev pub ◌>>◌ {ℓ} : {R : Type 0} {B : Type ℓ} → Except R (Unit {0}) → Except R B → Except R B
m >> k = m >>= λ _. k

-- `if bad: raise ...`
abbrev pub raise_if : {R : Type 0} → Bool → Builtin → Except R (Unit {0})
raise_if true e = throw e
raise_if false e = ok tt

abbrev pub fail_if : {R : Type 0} → Bool → R → Except R (Unit {0})
fail_if true r = fail r
fail_if false r = ok tt

-- Inversion of a successful bind.
pub >>=-eq-ok {ℓ κ} :
    {R : Type 0} {A : Type ℓ} {B : Type κ} (m : Except R A) (rest : A → Except R B) {result : B}
    → (m >>= rest) ≡ ok result
    → (x : A) × (m ≡ ok x) × (rest x ≡ ok result)
>>=-eq-ok (ok x) rest h = (x, refl, h)
>>=-eq-ok (fail r) rest h = cc
>>=-eq-ok (throw e) rest h = cc

-- A guard that let the call pass.
pub fail_if-eq-ok {ℓ} :
    {R : Type 0} {A : Type ℓ} (b : Bool) (r : R) (m : Except R A) {a : A}
    → (fail_if b r >>= λ _. m) ≡ ok a
    → (b ≡ false) × (m ≡ ok a)
fail_if-eq-ok true r m h = cc
fail_if-eq-ok false r m h = (refl, h)

-- The call returns, and what it returns satisfies `P`.
abbrev pub Returns {ℓ} : {R : Type 0} {A : Type ℓ} → (A → Type 0) → Except R A → Type 0
Returns P (ok a) = P a
Returns P (fail r) = ⊥
Returns P (throw e) = ⊥

pub Returns-map {ℓ} :
    {R : Type 0} {A : Type ℓ} {P Q : A → Type 0} (m : Except R A)
    → ((a : A) → P a → Q a)
    → Returns P m
    → Returns Q m
Returns-map (ok a) f h = f a h
Returns-map (fail r) f h = absurd h
Returns-map (throw e) f h = absurd h

pub ok-injective {ℓ} :
    {R : Type 0} {A : Type ℓ} {a b : A} → ◌≡◌ {A = Except R A} (ok a) (ok b) → a ≡ b
ok-injective h = cc
