-- ===== src/Stellar/Breaker/Threshold.antt =====
-- The opening of a circuit in retry-with-fallback.ts.
use veillend.Base.{ℕ, ◌≡◌, Bool, true, false, Option, some, List, All, arith, leb, ◌&&◌}
use veillend.Stellar.Breaker.{
  Provider, ProviderState, closed, Options, is_write, max_attempts, Attempt, execute,
  undefined_error, record_failure, available, available_in, recovered, counted,
  circuit_open_failures,
}
use veillend.Stellar.Breaker.Policy.{Policy, attempts-Kept}

abbrev pub is_closed : ProviderState → Bool
is_closed s = elim s [ closed ↦ true | _ ↦ false ]

-- The circuit is not closed with ten failures or more.
abbrev pub BelowThreshold : Provider → Type 0
BelowThreshold p = (is_closed p.state && leb circuit_open_failures p.failure_count) ≡ false

still_below :
    (now : ℕ) (p q : Provider) → BelowThreshold p → available now p ≡ some q → BelowThreshold q
unfolding available available_in
still_below now p q h e = ground arith

failed_below :
    (now : ℕ) (status : Option ℕ) (p : Provider)
    → BelowThreshold p
    → BelowThreshold (record_failure now status p)
unfolding record_failure counted
failed_below now status p h = ground arith

threshold : Policy
unfolding recovered
threshold = record {
  Holds = BelowThreshold;
  Called = BelowThreshold;
  Url = λ u. Unit;
  At = λ n. Unit;
  available_ok = λ now p q at. still_below now p q;
  url_ok = λ p h. tt;
  recovered_ok = λ p h. ground arith;
  failed_ok = failed_below;
}

-- A circuit is open from its tenth failure on: if no provider's circuit is closed with ten failures
-- or more, then so it is after any execution.
pub execute-BelowThreshold :
    (world : ℕ → Attempt) (options : Options) (ps : List Provider)
    → All BelowThreshold ps
    → All BelowThreshold (execute world options ps).providers
unfolding execute threshold
execute-BelowThreshold world options ps h =
    (attempts-Kept threshold (is_write options) world (max_attempts options) 0 undefined_error ps
      (λ k. tt) h).0
