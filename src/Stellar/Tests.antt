-- ===== src/Stellar/Tests.antt =====
-- One concrete run of each theorem on the circuit breaker, over two providers.
use veillend.Base.{ℕ, ◌≤◌, ◌==◌, refl, none, some, List, [], ◌∷◌, length, All, if◌then◌else◌}
use veillend.Stellar.Breaker.{
  Provider, closed, open_circuit, write, read, Attempt, result, fails, execute,
}
use veillend.Stellar.Breaker.Bounds.{calls_bounded}
use veillend.Stellar.Breaker.Threshold.{BelowThreshold, execute-BelowThreshold}

-- Provider 1 answers with a server error, the others with a result.
abbrev world : ℕ → Attempt
world k = record {
  asked_at = 100;
  answered_at = 200;
  reply = λ url. if url == 1 then fails (some 503) else result 9;
}

abbrev providers : List Provider
providers =
    record { url = 1; state = closed; failure_count = 9; next_probe_at = 0 }
    ∷ record { url = 2; state = open_circuit; failure_count = 12; next_probe_at = 5000 }
    ∷ []

calls_bounded_example :
    (length (execute world write providers).calls ≤ 1)
    × (length (execute world (read (some 2)) providers).calls ≤ 2)
    × (length (execute world (read none) providers).calls ≤ 3)
    × (length (execute world (read (some 0)) providers).calls ≤ 3)
calls_bounded_example = calls_bounded world 1 providers

execute-BelowThreshold_example : All BelowThreshold (execute world (read none) providers).providers
execute-BelowThreshold_example =
    execute-BelowThreshold world (read none) providers (refl, (refl, tt))
