-- ===== src/Base/Monad.antt =====
-- A request handler: it reads and writes the state, and returns or throws. What was written before
-- a throw stays written, unless the call stands in a transaction.
pub mod Keeps
pub mod Fails
pub mod Ensures
pub mod Returned
use mathlib.Core.Bool.{Bool, true, false}
use mathlib.Core.Option.{Option, none, some}

pub data Outcome {ℓ κ} (E : Type ℓ) (A : Type κ) : Type (ℓ ⊔ κ) where
  ok : A → Outcome E A
  err : E → Outcome E A

abbrev pub Action : Type 0 → Type 0 → Type 0 → Type 0
Action S E A = S → Outcome E A × S

module _ {S E A : Type 0} where
  unfoldable pub pure : A → Action S E A
  pure a s = (ok a, s)

  unfoldable pub throw : E → Action S E A
  throw e s = (err e, s)

  unfoldable pub gets : (S → A) → Action S E A
  gets f s = (ok (f s), s)

  unfoldable pub or_throw : Option A → E → Action S E A
  or_throw none e = throw e
  or_throw (some a) e = pure a

  -- A rollback undoes the writes of a transaction that throws.
  unfoldable pub settle : S → Outcome E A × S → Outcome E A × S
  settle s (ok a, s') = (ok a, s')
  settle s (err e, s') = (err e, s)

  unfoldable pub transaction : Action S E A → Action S E A
  unfolding settle
  transaction m s = settle s (m s)

-- `try { m } catch (e) { h(e) }`
unfoldable pub handle : {S E A : Type 0} → (E → Action S E A) → Outcome E A × S → Outcome E A × S
handle h (ok a, s) = (ok a, s)
handle h (err e, s) = h e s

unfoldable pub try_catch : {S E A : Type 0} → Action S E A → (E → Action S E A) → Action S E A
unfolding handle
try_catch m h s = handle h (m s)

infixl 5 ◌>>=◌ ◌>>◌
unfoldable pub ◌>>=◌ : {S E A B : Type 0} → Action S E A → (A → Action S E B) → Action S E B
◌>>=◌ m f s = let (r, s') = m s in elim r [ ok a ↦ f a s' | err e ↦ (err e, s') ]

unfoldable pub ◌>>◌ : {S E B : Type 0} → Action S E (Unit {0}) → Action S E B → Action S E B
unfolding ◌>>=◌
m >> k = m >>= λ _. k

module _ {S E : Type 0} where
  unfoldable pub modify : (S → S) → Action S E (Unit {0})
  modify f s = (ok tt, f s)

  unfoldable pub throw_if : Bool → E → Action S E (Unit {0})
  throw_if true e s = (err e, s)
  throw_if false e s = (ok tt, s)

-- A proof that runs handlers names this on its `unfolding` line.
unfoldable pub running : Unit {0}
unfolding pure throw gets or_throw transaction try_catch ◌>>=◌ ◌>>◌ modify throw_if
running = tt
