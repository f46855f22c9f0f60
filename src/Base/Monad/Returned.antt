-- ===== src/Base/Monad/Returned.antt =====
-- What is known of the parts of a handler that has returned or thrown.
use mathlib.Core.Path.{◌≡◌, refl}
use mathlib.Core.Logic.{◌⊎◌, inl, inr}
use veillend.Base.Monad.{Outcome, ok, err, Action, ◌>>=◌, running, transaction, settle}

pub Outcome-cases :
    {E A : Type 0} (r : Outcome E A) → ((a : A) × (r ≡ ok a)) ⊎ ((e : E) × (r ≡ err e))
Outcome-cases (ok a) = inl (a, refl)
Outcome-cases (err e) = inr (e, refl)

module _ {S E : Type 0} where
  bound :
      {A B : Type 0} (r : Outcome E A) (s : S) (f : A → Action S E B) (b : B)
      → (elim r as (λ _. Outcome E B × S) [ ok a ↦ f a s | err e ↦ (err e, s) ]).0 ≡ ok b
      → (a : A) × (r ≡ ok a)
        × ((elim r as (λ _. Outcome E B × S) [ ok a ↦ f a s | err e ↦ (err e, s) ]) ≡ f a s)
  bound (ok a) s f b h = (a, refl, refl)
  bound (err e) s f b h = cc

  -- A sequence that returns: the first part returned, and the rest ran on its result.
  pub >>=_returned :
      {A B : Type 0} (m : Action S E A) (f : A → Action S E B) (s : S) (b : B)
      → ((m >>= f) s).0 ≡ ok b
      → (a : A) × ((m s).0 ≡ ok a) × ((m >>= f) s ≡ f a (m s).1)
  unfolding running
  >>=_returned m f s b h = bound (m s).0 (m s).1 f b h

  ran :
      {A B : Type 0} (r : Outcome E A) (s : S) (f : A → Action S E B) (a : A)
      → r ≡ ok a
      → (elim r as (λ _. Outcome E B × S) [ ok a ↦ f a s | err e ↦ (err e, s) ]) ≡ f a s
  ran r s f a h = rw h refl

  pub >>=_runs :
      {A B : Type 0} (m : Action S E A) (f : A → Action S E B) (s : S) (a : A)
      → (m s).0 ≡ ok a
      → (m >>= f) s ≡ f a (m s).1
  unfolding running
  >>=_runs m f s a h = ran (m s).0 (m s).1 f a h

  stopped :
      {A B : Type 0} (r : Outcome E A) (s : S) (f : A → Action S E B) (e : E)
      → r ≡ err e
      → (elim r as (λ _. Outcome E B × S) [ ok a ↦ f a s | err e ↦ (err e, s) ]) ≡ (err e, s)
  stopped r s f e h = rw h refl

  pub >>=_stops :
      {A B : Type 0} (m : Action S E A) (f : A → Action S E B) (s : S) (e : E)
      → (m s).0 ≡ err e
      → (m >>= f) s ≡ (err e, (m s).1)
  unfolding running
  >>=_stops m f s e h = stopped (m s).0 (m s).1 f e h

  settled :
      {A : Type 0} (s : S) (r : Outcome E A × S)
      → ((a : A) × (r.0 ≡ ok a) × (settle s r ≡ r)) ⊎ ((e : E) × (settle s r ≡ (err e, s)))
  unfolding settle
  settled s (ok a, s') = inl (a, refl, refl)
  settled s (err e, s') = inr (e, refl)

  -- A transaction commits what its body returned, or throws and has changed nothing.
  pub transaction-cases :
      {A : Type 0} (m : Action S E A) (s : S)
      → ((a : A) × ((m s).0 ≡ ok a) × (transaction m s ≡ m s))
        ⊎ ((e : E) × (transaction m s ≡ (err e, s)))
  unfolding running
  transaction-cases m s = settled s (m s)
