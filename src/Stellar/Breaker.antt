-- ===== src/Stellar/Breaker.antt =====
-- retry-with-fallback.ts: the circuit breaker over a list of providers. The client and its network
-- are a parameter, the world; logging and the waits between attempts are not modelled.
pub mod Bounds
pub mod Policy
pub mod Cooling
pub mod Threshold
use veillend.Base.{
  ℕ, zero, suc, ◌+◌, ◌*◌, ◌==◌, ltb, leb, ◌&&◌, ◌||◌, not, Bool, true, false, Option, none, some,
  List, [], ◌∷◌, if◌then◌else◌,
}

pub data ProviderState : Type 0 where
  closed open_circuit half_open : ProviderState

pub record Provider : Type 0 where
  pub url : ℕ
  pub state : ProviderState
  pub failure_count : ℕ
  pub next_probe_at : ℕ

abbrev pub circuit_open_failures : ℕ
circuit_open_failures = 10

abbrev pub cooldown_ms : ℕ
cooldown_ms = 30000

-- The constructor's providers; it refuses an empty list.
unfoldable pub new_providers : List ℕ → List Provider
new_providers [] = []
new_providers (u ∷ us) =
    record { url = u; state = closed; failure_count = 0; next_probe_at = 0 } ∷ new_providers us

pub data Options : Type 0 where
  write : Options
  read : Option ℕ → Options

abbrev pub is_write : Options → Bool
is_write write = true
is_write (read _) = false

-- `isWrite ? 1 : options.maxAttempts || 3`.
unfoldable pub max_attempts : Options → ℕ
max_attempts write = 1
max_attempts (read none) = 3
max_attempts (read (some n)) = if n == 0 then 3 else n

-- What `operation(client)` does: a result, or an error with the HTTP status it carries, if any.
pub data Reply : Type 0 where
  result : ℕ → Reply
  fails : Option ℕ → Reply

-- One attempt: the clock when a provider is sought and when the reply is there, and the reply of
-- each provider.
pub record Attempt : Type 0 where
  pub asked_at : ℕ
  pub answered_at : ℕ
  pub reply : ℕ → Reply

-- `status >= 400 && status < 500 && status !== 429`.
unfoldable pub is_client_error : Option ℕ → Bool
is_client_error none = false
is_client_error (some s) = leb 400 s && (ltb s 500 && not (s == 429))

-- The provider, as it is handed out, if it takes calls: an open circuit whose time has come goes
-- half-open.
unfoldable pub available_in : ProviderState → ℕ → Provider → Option Provider
available_in closed now p = some p
available_in open_circuit now p =
    if leb p.next_probe_at now then some (record p { state = half_open }) else none
available_in half_open now p = some p

unfoldable pub available : ℕ → Provider → Option Provider
unfolding available_in
available now p = available_in p.state now p

-- `getNextAvailableProvider`: the first provider that takes calls, and the list with another value
-- in its place, since the caller goes on to assign to its fields.
unfoldable pub get_next_available_provider :
    ℕ → List Provider → Option (Provider × (Provider → List Provider))
get_next_available_provider now [] = none
get_next_available_provider now (p ∷ ps) = elim (available now p) [
  | some q ↦ some (q, λ r. r ∷ ps)
  | none ↦ elim (get_next_available_provider now ps) [
    | none ↦ none
    | some (q, put) ↦ some (q, λ r. p ∷ put r)
  ]
]

unfoldable pub recovered : Provider → Provider
recovered p = record p { state = closed; failure_count = 0; next_probe_at = 0 }

unfoldable pub counted : ProviderState → ℕ → Provider → Provider
counted half_open now p = record p { state = open_circuit; next_probe_at = now + cooldown_ms }
counted _ now p =
    if leb circuit_open_failures p.failure_count
    then record p { state = open_circuit; next_probe_at = now + cooldown_ms }
    else p

-- The `catch` block's update of the provider.
unfoldable pub record_failure : ℕ → Option ℕ → Provider → Provider
unfolding counted
record_failure now status p =
    if is_client_error status
    then p
    else counted p.state now (record p { failure_count = p.failure_count + 1 })

pub data Answer : Type 0 where
  returned : ℕ → Answer
  all_failing undefined_error : Answer
  threw : (status : Option ℕ) → Answer

-- `operation` was called on this provider.
pub record Call : Type 0 where
  pub url : ℕ
  pub at : ℕ

pub record Outcome : Type 0 where
  pub answer : Answer
  pub providers : List Provider
  pub calls : List Call

abbrev pub after_call : Call → Outcome → Outcome
after_call c o = record o { calls = c ∷ o.calls }

-- The reply of the provider that was called; `rest` is the loop from the next attempt on.
unfoldable pub on_reply :
    Bool
    → ℕ
    → Provider
    → (Provider → List Provider)
    → Call
    → (Answer → List Provider → Outcome)
    → Reply
    → Outcome
on_reply w answered_at p put call rest (result r) = record {
  answer = returned r;
  providers = put (recovered p);
  calls = call ∷ [];
}
on_reply w answered_at p put call rest (fails status) =
    let ps = put (record_failure answered_at status p) in
    if w || is_client_error status
    then record { answer = threw status; providers = ps; calls = call ∷ [] }
    else after_call call (rest (threw status) ps)

unfoldable pub on_provider :
    Bool
    → Attempt
    → (Answer → List Provider → Outcome)
    → List Provider
    → Option (Provider × (Provider → List Provider))
    → Outcome
unfolding on_reply
on_provider w a rest ps none = record { answer = all_failing; providers = ps; calls = [] }
on_provider w a rest ps (some (p, put)) =
    on_reply w a.answered_at p put (record { url = p.url; at = a.asked_at }) rest (a.reply p.url)

-- The `while` loop, with `n` attempts left, of which the next is number `k`.
unfoldable pub attempts : Bool → (ℕ → Attempt) → ℕ → ℕ → Answer → List Provider → Outcome
unfolding on_provider
attempts w world zero k last ps = record { answer = last; providers = ps; calls = [] }
attempts w world (suc n) k last ps =
    on_provider w (world k) (λ l ps'. attempts w world n (k + 1) l ps') ps
      (get_next_available_provider (world k).asked_at ps)

unfoldable pub execute : (ℕ → Attempt) → Options → List Provider → Outcome
execute world options ps =
    attempts (is_write options) world (max_attempts options) 0 undefined_error ps
