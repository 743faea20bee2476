-- ===== src/Prelude/Monad.antt =====
-- Code that changes a state and may jump to its error label. What was changed before the jump
-- stays changed.
use mathlib.Core.Bool.{Bool, true, false}
use mathlib.Core.Option.{Option, none, some}

-- `none` is the jump to the error label.
abbrev pub Fallible : Type 0 → Type 0 → Type 0
Fallible S A = S → Option A × S

module _ {S : Type 0} where
  abbrev pub pure : {A : Type 0} → A → Fallible S A
  pure a s = (some a, s)

  abbrev continue : {A B : Type 0} → Option A → (A → Fallible S B) → Fallible S B
  continue none f s = (none, s)
  continue (some a) f s = f a s

  infixl 5 ◌>>=◌ ◌>>◌
  abbrev pub ◌>>=◌ : {A B : Type 0} → Fallible S A → (A → Fallible S B) → Fallible S B
  ◌>>=◌ m f s = let r = m s in continue r.0 f r.1

  abbrev pub ◌>>◌ : {B : Type 0} → Fallible S (Unit {0}) → Fallible S B → Fallible S B
  m >> k = m >>= λ _. k

  -- if(!test) goto err;
  abbrev pub guard : Bool → Fallible S (Unit {0})
  guard true s = (some tt, s)
  guard false s = (none, s)

  -- An assignment.
  abbrev pub modify : (S → S) → Fallible S (Unit {0})
  modify f s = (some tt, f s)

  -- A call whose failure is a jump to the error label.
  abbrev pub attempt : {A : Type 0} → Option A → Fallible S A
  attempt r s = (r, s)
