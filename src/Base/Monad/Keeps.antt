-- ===== src/Base/Monad/Keeps.antt =====
-- When a handler keeps a property of the state, whether it returns or throws.
use mathlib.Core.Bool.{Bool, true, false}
use mathlib.Core.Option.{Option, none, some}
use veillend.Base.Monad.{
  Outcome, ok, err, Action, pure, throw, gets, or_throw, settle, transaction, handle, try_catch,
  ◌>>=◌, ◌>>◌, modify, throw_if, running,
}
use veillend.Base.Tests.{if◌then◌else◌}

pub record Keeps {S E A : Type 0} (P : S → Type 0) (m : Action S E A) : Type 0 where
  pub apply : (s : S) → P s → P (m s).1

module _ {S E : Type 0} (P : S → Type 0) where
  keep_elim :
      {A B : Type 0} (r : Outcome E A) (s : S) {f : A → Action S E B}
      → ((a : A) → Keeps P (f a))
      → P s
      → P (elim r as (λ _. Outcome E B × S) [ ok a ↦ f a s | err e ↦ (err e, s) ]).1
  keep_elim (ok a) s k h = (k a).apply s h
  keep_elim (err e) s k h = h

  pub Keeps->>= :
      {A B : Type 0} {m : Action S E A} {f : A → Action S E B}
      → Keeps P m
      → ((a : A) → Keeps P (f a))
      → Keeps P (m >>= f)
  unfolding running
  Keeps->>= {m} {f} k l = record { apply = λ s h. keep_elim (m s).0 (m s).1 l (k.apply s h) }

  pub Keeps->> :
      {B : Type 0} {m : Action S E (Unit {0})} {k : Action S E B}
      → Keeps P m
      → Keeps P k
      → Keeps P (m >> k)
  unfolding running
  Keeps->> h k = Keeps->>= h (λ _. k)

  pub Keeps-pure : {A : Type 0} (a : A) → Keeps P (pure {S = S} {E = E} a)
  unfolding running
  Keeps-pure a = record { apply = λ s h. h }

  pub Keeps-throw : {A : Type 0} (e : E) → Keeps P (throw {S = S} {E = E} {A = A} e)
  unfolding running
  Keeps-throw e = record { apply = λ s h. h }

  pub Keeps-gets : {A : Type 0} (f : S → A) → Keeps P (gets {S = S} {E = E} f)
  unfolding running
  Keeps-gets f = record { apply = λ s h. h }

  pub Keeps-or_throw : {A : Type 0} (o : Option A) (e : E) → Keeps P (or_throw {S = S} {E = E} o e)
  unfolding running
  Keeps-or_throw none e = record { apply = λ s h. h }
  Keeps-or_throw (some a) e = record { apply = λ s h. h }

  pub Keeps-throw_if : (b : Bool) (e : E) → Keeps P (throw_if {S = S} {E = E} b e)
  unfolding running
  Keeps-throw_if true e = record { apply = λ s h. h }
  Keeps-throw_if false e = record { apply = λ s h. h }

  pub Keeps-modify : (f : S → S) → ((s : S) → P s → P (f s)) → Keeps P (modify {S = S} {E = E} f)
  unfolding running
  Keeps-modify f k = record { apply = k }

  keep_settle : {A : Type 0} (s : S) (r : Outcome E A × S) → P s → P r.1 → P (settle s r).1
  unfolding running
  keep_settle s (ok a, s') h k = k
  keep_settle s (err e, s') h k = h

  pub Keeps-transaction : {A : Type 0} {m : Action S E A} → Keeps P m → Keeps P (transaction m)
  unfolding running
  Keeps-transaction {m} k = record { apply = λ s h. keep_settle s (m s) h (k.apply s h) }

  keep_handle :
      {A : Type 0} (r : Outcome E A × S) {h : E → Action S E A}
      → P r.1
      → ((e : E) → Keeps P (h e))
      → P (handle h r).1
  unfolding running
  keep_handle (ok a, s) p k = p
  keep_handle (err e, s) p k = (k e).apply s p

  pub Keeps-try_catch :
      {A : Type 0} {m : Action S E A} {h : E → Action S E A}
      → Keeps P m
      → ((e : E) → Keeps P (h e))
      → Keeps P (try_catch m h)
  unfolding running
  Keeps-try_catch {m} k l = record { apply = λ s p. keep_handle (m s) (k.apply s p) l }

  pub Keeps-if :
      {A : Type 0} (b : Bool) {m n : Action S E A}
      → Keeps P m
      → Keeps P n
      → Keeps P (if b then m else n)
  Keeps-if true k l = k
  Keeps-if false k l = l
