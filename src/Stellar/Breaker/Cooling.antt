-- ===== src/Stellar/Breaker/Cooling.antt =====
-- The cool-down of an open circuit in retry-with-fallback.ts.
use veillend.Base.{
  ℕ, ◌≡◌, ◌<◌, Bool, true, false, Option, some, List, All, arith, leb, ◌==◌, ◌&&◌, not,
}
use veillend.Stellar.Breaker.{
  Provider, ProviderState, open_circuit, Options, is_write, max_attempts, Attempt, execute,
  undefined_error, record_failure, available, available_in, recovered, counted,
}
use veillend.Stellar.Breaker.Policy.{Policy, attempts-Kept}

abbrev pub is_open : ProviderState → Bool
is_open s = elim s [ open_circuit ↦ true | _ ↦ false ]

-- If the provider is the one with this address, then it is open and not to be probed before
-- `until`.
abbrev pub CoolsUntil : ℕ → ℕ → Provider → Type 0
CoolsUntil u until p = (p.url == u && not (is_open p.state && leb until p.next_probe_at)) ≡ false

cooled-available :
    (u until now : ℕ) (p q : Provider)
    → now < until
    → CoolsUntil u until p
    → available now p ≡ some q
    → (q.url == u) ≡ false
unfolding available available_in
cooled-available u until now p q early h e = ground arith

other-failed :
    (u until now : ℕ) (status : Option ℕ) (p : Provider)
    → (p.url == u) ≡ false
    → CoolsUntil u until (record_failure now status p)
unfolding record_failure counted
other-failed u until now status p h = ground arith

cooling : ℕ → ℕ → Policy
unfolding recovered
cooling u until = record {
  Holds = CoolsUntil u until;
  Called = λ p. (p.url == u) ≡ false;
  Url = λ v. (v == u) ≡ false;
  At = λ n. n < until;
  available_ok = λ now p q. cooled-available u until now p q;
  url_ok = λ p h. h;
  recovered_ok = λ p h. ground arith;
  failed_ok = other-failed u until;
}

-- A provider whose circuit is open until some time is not called by an execution all whose attempts
-- begin before that time, and its circuit is still open until then.
pub open_circuit_not_called :
    (u until : ℕ) (world : ℕ → Attempt) (options : Options) (ps : List Provider)
    → ((k : ℕ) → (world k).asked_at < until)
    → All (CoolsUntil u until) ps
    → All (CoolsUntil u until) (execute world options ps).providers
      × All (λ c. (c.url == u) ≡ false) (execute world options ps).calls
unfolding execute cooling
open_circuit_not_called u until world options ps early h =
    attempts-Kept (cooling u until) (is_write options) world (max_attempts options) 0
      undefined_error ps early h
