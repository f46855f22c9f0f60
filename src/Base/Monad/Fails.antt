-- ===== src/Base/Monad/Fails.antt =====
-- What a handler that throws has left as it was.
use mathlib.Core.Path.{◌≡◌}
use mathlib.Core.Bool.{Bool, true, false}
use veillend.Base.Monad.{
  Outcome, ok, err, Action, transaction, settle, handle, try_catch, ◌>>=◌, ◌>>◌, running, pure,
  modify,
}
use veillend.Base.Monad.Keeps.{Keeps}
use veillend.Base.Tests.{if◌then◌else◌}

-- If it throws, it has kept the property.
pub record Fails {S E A : Type 0} (P : S → Type 0) (m : Action S E A) : Type 0 where
  pub apply : (s : S) (e : E) → P s → (m s).0 ≡ err e → P (m s).1

-- It never throws.
pub record Returns {S E A : Type 0} (m : Action S E A) : Type 0 where
  pub apply : (s : S) (e : E) → ¬ ((m s).0 ≡ err e)

module _ {S E : Type 0} (P : S → Type 0) where
  pub Fails-Keeps : {A : Type 0} {m : Action S E A} → Keeps P m → Fails P m
  Fails-Keeps k = record { apply = λ s e h f. k.apply s h }

  failed_settle :
      {A : Type 0} (s : S) (r : Outcome E A × S) (e : E)
      → P s
      → (settle s r).0 ≡ err e
      → P (settle s r).1
  unfolding settle
  failed_settle s (ok a, s') e h f = cc
  failed_settle s (err e', s') e h f = h

  -- A transaction that throws is rolled back, whatever it does.
  pub Fails-transaction : {A : Type 0} (m : Action S E A) → Fails P (transaction m)
  unfolding running
  Fails-transaction m = record { apply = λ s e h f. failed_settle s (m s) e h f }

  failed_handle :
      {A : Type 0} (r : Outcome E A × S) {h : E → Action S E A} (e : E)
      → ((e : E) → r.0 ≡ err e → P r.1)
      → ((e : E) → Keeps P (h e))
      → (handle h r).0 ≡ err e
      → P (handle h r).1
  unfolding handle
  failed_handle (ok a, s) e q k f = cc
  failed_handle (err e', s) e q k f = (k e').apply s (q e' (cc))

  pub Fails-try_catch :
      {A : Type 0} {m : Action S E A} {h : E → Action S E A}
      → Fails P m
      → ((e : E) → Keeps P (h e))
      → Fails P (try_catch m h)
  unfolding running
  Fails-try_catch {m} q k = record {
    apply = λ s e p f. failed_handle (m s) e (λ e'. q.apply s e' p) k f;
  }

  failed_elim :
      {A B : Type 0} (r : Outcome E A) (s : S) {f : A → Action S E B} (e : E)
      → ((a : A) → Returns (f a))
      → ((e : E) → r ≡ err e → P s)
      → (elim r as (λ _. Outcome E B × S) [ ok a ↦ f a s | err e ↦ (err e, s) ]).0 ≡ err e
      → P (elim r as (λ _. Outcome E B × S) [ ok a ↦ f a s | err e ↦ (err e, s) ]).1
  failed_elim (ok a) s e k q h = absurd ((k a).apply s e h)
  failed_elim (err e') s e k q h = q e' (cc)

  -- What follows never throws.
  pub Fails->>=_Returns :
      {A B : Type 0} {m : Action S E A} {f : A → Action S E B}
      → Fails P m
      → ((a : A) → Returns (f a))
      → Fails P (m >>= f)
  unfolding running
  Fails->>=_Returns {m} q k = record {
    apply = λ s e p h. failed_elim (m s).0 (m s).1 e k (λ e'. q.apply s e' p) h;
  }

  pub Fails-if :
      {A : Type 0} (b : Bool) {m n : Action S E A}
      → Fails P m
      → Fails P n
      → Fails P (if b then m else n)
  Fails-if true k l = k
  Fails-if false k l = l

-- A write and a `return`.
pub Returns-modify-pure :
    {S E A : Type 0} (f : S → S) (a : A) → Returns {S = S} {E = E} (modify f >> pure a)
unfolding running
Returns-modify-pure f a = record { apply = λ s e h. cc }
