-- ===== src/Runner/World/Holds.antt =====
-- Invariants of actions, one rule for each way to build an action: of the local variables, of the
-- adapters' state, and of the value that is returned.
use codex_claude_author_crit.Prelude.{
  ◌≡◌, refl, String, Bool, true, false, ok, fail, throw, if◌then◌else◌,
}
use codex_claude_author_crit.Errors.{Outcome, StopReason}
use codex_claude_author_crit.Runner.World.{
  Answer, Locals, World, Action, Raised, pure, raise, call, get_locals, set_locals, lift,
  raised_with, raise_when, continue_with, ◌>>=◌,
}

-- What is returned, if anything is, satisfies `Q`.
abbrev pub OnOk : {A : Type 0} → (A → Type 0) → Answer A → Type 0
OnOk Q (ok x) = Q x
OnOk Q (fail e) = Unit {0}
OnOk Q (throw e) = Unit {0}

OnOk-any : {A : Type 0} (x : Answer A) → OnOk (λ _. Unit {0}) x
OnOk-any (ok x) = tt
OnOk-any (fail e) = tt
OnOk-any (throw e) = tt

mapped :
    {A : Type 0} {Q R : A → Type 0} (x : Answer A) → ((y : A) → Q y → R y) → OnOk Q x → OnOk R x
mapped (ok y) f q = f y q
mapped (fail e) f q = tt
mapped (throw e) f q = tt

module _ {S : Type 0} (Good : Locals → Type 0) (P : S → Type 0) where
  abbrev pub Stands : World S → Type 0
  Stands w = Good w.locals × P w.outside

  -- From variables that are `Good` and a state with `P`, `m` ends in such, whether it returns or
  -- raises, and what it returns satisfies `Q`.
  pub record Holds {A : Type 0} (Q : A → Type 0) (m : Action S A) : Type 0 where
    pub at : (w : World S) → Stands w → Stands (m w).1 × OnOk Q (m w).0

module _ {S : Type 0} {Good : Locals → Type 0} {P : S → Type 0} where
  module _ {A : Type 0} {Q : A → Type 0} where
    pub Holds-pure : (x : A) → Q x → Holds Good P Q (pure x)
    unfolding pure
    Holds-pure x q = record { at = λ w h. (h, q) }

    pub Holds-raise : (e : Raised) → Holds Good P Q (raise e)
    unfolding raise
    Holds-raise e = record { at = λ w h. (h, tt) }

    pub Holds-lift :
        (text : StopReason → String) (o : Outcome A)
        → ((x : A) → o ≡ ok x → Q x)
        → Holds Good P Q (lift text o)
    unfolding lift raised_with
    Holds-lift text (ok x) q = record { at = λ w h. (h, q x refl) }
    Holds-lift text (fail r) q = record { at = λ w h. (h, tt) }
    Holds-lift text (throw e) q = record { at = λ w h. (h, tt) }

    pub Holds-if :
        (b : Bool) (m n : Action S A)
        → (b ≡ true → Holds Good P Q m)
        → (b ≡ false → Holds Good P Q n)
        → Holds Good P Q (if b then m else n)
    Holds-if true m n km kn = km refl
    Holds-if false m n km kn = kn refl

    pub Holds-map :
        {R : A → Type 0} (m : Action S A)
        → ((x : A) → Q x → R x)
        → Holds Good P Q m
        → Holds Good P R m
    Holds-map m f k = record { at = λ w h. let (h', q) = k.at w h in (h', mapped (m w).0 f q) }

  pub Holds-call :
      {A : Type 0} (f : S → Answer A × S)
      → ((s : S) → P s → P (f s).1)
      → Holds Good P (λ _. Unit {0}) (call f)
  unfolding call
  Holds-call f k = record { at = λ w h. ((h.0, k w.outside h.1), OnOk-any (f w.outside).0) }

  pub Holds-get_locals : Holds Good P Good get_locals
  unfolding get_locals
  Holds-get_locals = record { at = λ w h. (h, h.0) }

  pub Holds-set_locals : (l : Locals) → Good l → Holds Good P (λ _. Unit {0}) (set_locals l)
  unfolding set_locals
  Holds-set_locals l g = record { at = λ w h. ((g, h.1), tt) }

  pub Holds-raise_when : (b : Bool) (e : Raised) → Holds Good P (λ _. b ≡ false) (raise_when b e)
  unfolding raise_when pure raise
  Holds-raise_when true e = record { at = λ w h. (h, tt) }
  Holds-raise_when false e = record { at = λ w h. (h, refl) }

  module _ {A B : Type 0} {Q : A → Type 0} {R : B → Type 0} where
    Holds-continue :
        (x : Answer A) (w : World S) (f : A → Action S B)
        → Stands Good P w × OnOk Q x
        → ((y : A) → Q y → Holds Good P R (f y))
        → Stands Good P (continue_with x w f).1 × OnOk R (continue_with x w f).0
    unfolding continue_with
    Holds-continue (ok y) w f h k = (k y h.1).at w h.0
    Holds-continue (fail e) w f h k = (h.0, tt)
    Holds-continue (throw e) w f h k = (h.0, tt)

    infixr 4 ◌then◌
    pub ◌then◌ :
        {m : Action S A} {f : A → Action S B}
        → Holds Good P Q m
        → ((x : A) → Q x → Holds Good P R (f x))
        → Holds Good P R (m >>= f)
    unfolding ◌>>=◌
    ◌then◌ {m = m} {f = f} km kf = record {
      at = λ w h. Holds-continue (m w).0 (m w).1 f (km.at w h) kf;
    }

-- Where nothing is asked of the variables and the state, nothing is to prove.
pub Holds-any :
    {S A : Type 0} (m : Action S A) → Holds (λ _. Unit {0}) (λ _. Unit {0}) (λ _. Unit {0}) m
Holds-any m = record { at = λ w h. ((tt, tt), OnOk-any (m w).0) }
