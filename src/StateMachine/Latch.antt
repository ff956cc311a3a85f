-- ===== src/StateMachine/Latch.antt =====
-- The latch keeps the first failure and retains the later ones, in order.
use codex_claude_author_crit.Prelude.{◌≡◌, false, some, List, [], ◌∷◌, ◌++◌, arith, ok, ◌>>=◌, All}
use codex_claude_author_crit.Prelude.Int.{pos, ◌≤ℤ◌}
use codex_claude_author_crit.Errors.{Outcome}
use codex_claude_author_crit.StateMachine.{Failure, FatalLatch, new_latch, is_non_fatal, latch}
use mathlib.Core.List.{append-nil, append_assoc}

-- A failure that `latch` accepts.
abbrev pub IsFatal : Failure → Type 0
IsFatal f = (is_non_fatal f.reason ≡ false) × (pos 0 ≤ℤ f.now)

-- The calls that a run makes on one latch, one after another.
pub latch_all : List Failure → FatalLatch → Outcome FatalLatch
latch_all [] l = ok l
latch_all (f ∷ fs) l = do l' ← latch f l; latch_all fs l'

latch_set :
    (f g : Failure) (later : List Failure)
    → IsFatal f
    → latch f (record { first = some g; secondary = later })
      ≡ ok (record { first = some g; secondary = later ++ f ∷ [] })
unfolding latch
latch_set f g later h = ground arith

latch_new :
    (f : Failure) → IsFatal f → latch f new_latch ≡ ok (record { first = some f; secondary = [] })
unfolding latch
latch_new f h = ground arith

latch_all_set :
    (fs : List Failure) (g : Failure) (later : List Failure)
    → All IsFatal fs
    → latch_all fs (record { first = some g; secondary = later })
      ≡ ok (record { first = some g; secondary = later ++ fs })
unfolding latch_all
latch_all_set [] g later h = simp append-nil
latch_all_set (f ∷ fs) g later h =
    rw (latch_set f g later h.0, latch_all_set fs g (later ++ f ∷ []) h.1) (simp append_assoc)

-- From an empty latch, any sequence of fatal failures ends with the first of them as the reason,
-- and with all the others retained in the order in which they came.
pub latch_all_first :
    (f : Failure) (fs : List Failure)
    → IsFatal f
    → All IsFatal fs
    → latch_all (f ∷ fs) new_latch ≡ ok (record { first = some f; secondary = fs })
unfolding latch_all
latch_all_first f fs h hs = rw (latch_new f h) (latch_all_set fs f [] hs)
