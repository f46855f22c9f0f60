-- ===== src/Funds/Deposits/Replay.antt =====
-- The idempotency keys of `createDeposit` and `createWithdrawal` (deposits.service.ts,
-- withdrawals.service.ts).
use veillend.Base.{ℕ, ◌+◌, ◌<◌, ◌≡◌, refl, none, some, arith, ok, running, find_first, ==_refl}
use veillend.Funds.Data.{Db, Response, read_back, Config}
use veillend.Funds.Deposits.{
  idempotency_ttl_ms, CreateDeposit, replay_of, record_deposit, create_or_replay, create_deposit,
  store_key,
}
use veillend.Funds.Withdrawals.{Solvency}
use veillend.Funds.Withdrawals.Create.{
  CreateWithdrawal, WithdrawalDraws, create_withdrawal, make_or_replay, make_withdrawal, create_tx,
  store_nonce, store_withdrawal,
}

-- The key's row answers the response until `later`.
abbrev Stored : ℕ → ℕ → Response → Db → Type 0
Stored key later response db = replay_of (some key) later db ≡ some response

recorded :
    (cfg : Config) (id user wallet now later key : ℕ) (dto : CreateDeposit) (db : Db) (r : Response)
    → later < now + idempotency_ttl_ms
    → (record_deposit cfg id user wallet dto (some key) now db).0 ≡ ok r
    → Stored key later r (record_deposit cfg id user wallet dto (some key) now db).1
unfolding record_deposit running replay_of store_key find_first
recorded cfg id user wallet now later key dto db r soon done = ground (arith, ==_refl key)

-- A deposit that was created under a fresh key: until the key expires, the same key answers what the
-- JSON column makes of that response, whoever sends whatever with it, and changes nothing.
pub create_deposit_replayed :
    (cfg : Config) (id user wallet now key : ℕ) (dto : CreateDeposit) (id' user' wallet' later : ℕ)
    (dto' : CreateDeposit) (db : Db) (r : Response)
    → replay_of (some key) now db ≡ none
    → later < now + idempotency_ttl_ms
    → (create_deposit cfg id user wallet dto (some key) now db).0 ≡ ok r
    → let db' = (create_deposit cfg id user wallet dto (some key) now db).1 in
      create_deposit cfg id' user' wallet' dto' (some key) later db'
      ≡ (ok (read_back (cfg.to_json r)), db')
unfolding create_deposit create_or_replay running
create_deposit_replayed cfg id user wallet now key dto id' user' wallet' later dto' db r new soon
      done =
    rw (new, recorded cfg id user wallet now later key dto db r soon (rw new at done)) refl

made :
    (cfg : Config) (sha : ℕ → ℕ) (check : Solvency) (d : WithdrawalDraws)
    (user wallet now later key : ℕ) (dto : CreateWithdrawal) (db : Db) (r : Response)
    → later < now + idempotency_ttl_ms
    → (make_withdrawal cfg sha check d user wallet dto (some key) now db).0 ≡ ok r
    → Stored key later r (make_withdrawal cfg sha check d user wallet dto (some key) now db).1
unfolding make_withdrawal create_tx store_nonce store_withdrawal running replay_of store_key
    find_first
made cfg sha check d user wallet now later key dto db r soon done = ground (arith, ==_refl key)

-- A withdrawal that was created under a fresh key: until the key expires, the same key answers what
-- the JSON column makes of that response, the nonce included, whoever sends whatever with it, and changes nothing; the
-- solvency of whoever repeats it is not looked at.
pub create_withdrawal_replayed :
    (cfg : Config) (sha : ℕ → ℕ) (check check' : Solvency) (d d' : WithdrawalDraws)
    (user wallet now key : ℕ) (dto : CreateWithdrawal) (user' wallet' later : ℕ)
    (dto' : CreateWithdrawal) (db : Db) (r : Response)
    → replay_of (some key) now db ≡ none
    → later < now + idempotency_ttl_ms
    → (create_withdrawal cfg sha check d user wallet dto (some key) now db).0 ≡ ok r
    → let db' = (create_withdrawal cfg sha check d user wallet dto (some key) now db).1 in
      create_withdrawal cfg sha check' d' user' wallet' dto' (some key) later db'
      ≡ (ok (read_back (cfg.to_json r)), db')
unfolding create_withdrawal make_or_replay running
create_withdrawal_replayed cfg sha check check' d d' user wallet now key dto user' wallet' later
      dto' db r new soon done =
    rw (new, made cfg sha check d user wallet now later key dto db r soon (rw new at done)) refl
