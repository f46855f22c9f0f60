-- ===== src/Base/Monad/Ensures.antt =====
-- What holds of the state when a handler has returned.
use mathlib.Core.Path.{◌≡◌}
use mathlib.Core.Bool.{Bool, true, false}
use veillend.Base.Monad.{
  Outcome, ok, err, Action, throw, transaction, settle, handle, try_catch, ◌>>=◌, ◌>>◌, running,
  modify,
}
use veillend.Base.Monad.Keeps.{Keeps}
use veillend.Base.Tests.{if◌then◌else◌}

pub record Ensures {S E A : Type 0} (Q : S → Type 0) (m : Action S E A) : Type 0 where
  pub apply : (s : S) (a : A) → (m s).0 ≡ ok a → Q (m s).1

module _ {S E : Type 0} (Q : S → Type 0) where
  kept_elim :
      {A B : Type 0} (r : Outcome E A) (s : S) {f : A → Action S E B} (b : B)
      → ((a : A) → Keeps Q (f a))
      → ((a : A) → r ≡ ok a → Q s)
      → (elim r as (λ _. Outcome E B × S) [ ok a ↦ f a s | err e ↦ (err e, s) ]).0 ≡ ok b
      → Q (elim r as (λ _. Outcome E B × S) [ ok a ↦ f a s | err e ↦ (err e, s) ]).1
  kept_elim (ok a) s b k q h = (k a).apply s (q a (cc))
  kept_elim (err e) s b k q h = cc

  -- The first part establishes it, the rest keeps it.
  pub Ensures->>=_first :
      {A B : Type 0} {m : Action S E A} {f : A → Action S E B}
      → Ensures Q m
      → ((a : A) → Keeps Q (f a))
      → Ensures Q (m >>= f)
  unfolding running
  Ensures->>=_first {m} q k = record {
    apply = λ s b h. kept_elim (m s).0 (m s).1 b k (q.apply s) h;
  }

  pub Ensures->>_first :
      {B : Type 0} {m : Action S E (Unit {0})} {k : Action S E B}
      → Ensures Q m
      → Keeps Q k
      → Ensures Q (m >> k)
  unfolding running
  Ensures->>_first q k = Ensures->>=_first q (λ _. k)

  ensured_elim :
      {A B : Type 0} (r : Outcome E A) (s : S) {f : A → Action S E B} (b : B)
      → ((a : A) → Ensures Q (f a))
      → (elim r as (λ _. Outcome E B × S) [ ok a ↦ f a s | err e ↦ (err e, s) ]).0 ≡ ok b
      → Q (elim r as (λ _. Outcome E B × S) [ ok a ↦ f a s | err e ↦ (err e, s) ]).1
  ensured_elim (ok a) s b k h = (k a).apply s b h
  ensured_elim (err e) s b k h = cc

  -- The last part establishes it.
  pub Ensures->>=_last :
      {A B : Type 0} (m : Action S E A) {f : A → Action S E B}
      → ((a : A) → Ensures Q (f a))
      → Ensures Q (m >>= f)
  unfolding running
  Ensures->>=_last m k = record { apply = λ s b h. ensured_elim (m s).0 (m s).1 b k h }

  pub Ensures->>_last :
      {B : Type 0} (m : Action S E (Unit {0})) {k : Action S E B} → Ensures Q k → Ensures Q (m >> k)
  unfolding running
  Ensures->>_last m k = Ensures->>=_last m (λ _. k)

  -- What throws ensures anything.
  pub Ensures-throw : {A : Type 0} (e : E) → Ensures Q (throw {S = S} {E = E} {A = A} e)
  unfolding running
  Ensures-throw e = record { apply = λ s a h. cc }

  ensured_settle :
      {A : Type 0} (s : S) (r : Outcome E A × S) (a : A)
      → ((a : A) → r.0 ≡ ok a → Q r.1)
      → (settle s r).0 ≡ ok a
      → Q (settle s r).1
  unfolding settle
  ensured_settle s (ok a', s') a q h = q a h
  ensured_settle s (err e, s') a q h = cc

  pub Ensures-transaction :
      {A : Type 0} {m : Action S E A} → Ensures Q m → Ensures Q (transaction m)
  unfolding running
  Ensures-transaction {m} q = record {
    apply = λ s a h. ensured_settle s (m s) a (λ a'. q.apply s a') h;
  }

  ensured_handle :
      {A : Type 0} (r : Outcome E A × S) {h : E → Action S E A} (a : A)
      → ((a : A) → r.0 ≡ ok a → Q r.1)
      → ((e : E) → Ensures Q (h e))
      → (handle h r).0 ≡ ok a
      → Q (handle h r).1
  unfolding handle
  ensured_handle (ok a', s) a q k e = q a e
  ensured_handle (err e', s) a q k e = (k e').apply s a e

  pub Ensures-try_catch :
      {A : Type 0} {m : Action S E A} {h : E → Action S E A}
      → Ensures Q m
      → ((e : E) → Ensures Q (h e))
      → Ensures Q (try_catch m h)
  unfolding running
  Ensures-try_catch {m} q k = record {
    apply = λ s a h. ensured_handle (m s) a (λ a'. q.apply s a') k h;
  }

  pub Ensures-modify : (f : S → S) → ((s : S) → Q (f s)) → Ensures Q (modify {S = S} {E = E} f)
  unfolding running
  Ensures-modify f k = record { apply = λ s a h. k s }

  pub Ensures-if :
      {A : Type 0} (b : Bool) {m n : Action S E A}
      → Ensures Q m
      → Ensures Q n
      → Ensures Q (if b then m else n)
  Ensures-if true k l = k
  Ensures-if false k l = l
