-- ===== src/Funds/Withdrawals/Create.antt =====
-- `createWithdrawal` of withdrawals.service.ts. The notification of a new address is not modelled.
use veillend.Base.{
  ℕ, ◌+◌, ◌*◌, ◌==◌, ltb, leb, ◌&&◌, not, Bool, true, false, Option, none, some, List, ◌∷◌, is_some,
  if◌then◌else◌, pos, Action, pure, gets, modify, or_throw, throw_if, transaction, ◌>>=◌, ◌>>◌,
  find_first,
}
use veillend.Funds.Data.{
  draft, Withdrawal, WhitelistEntry, Response, withdrawal_made, read_back, Db, FundsError,
  asset_not_found, insolvent, unique_violation, Config,
}
use veillend.Funds.Deposits.{replay_of, find_asset, required_confirmations, store_key}
use veillend.Funds.Withdrawals.{Solvency, has}

pub record CreateWithdrawal : Type 0 where
  pub asset_address : ℕ
  pub amount_stroops : ℕ
  pub destination_address : ℕ
  pub destination_tag : Option ℕ

-- The row ids and the random bytes that the request draws.
pub record WithdrawalDraws : Type 0 where
  pub id : ℕ
  pub nonce : ℕ

-- `whitelistApproved` and `timelockUntil`.
pub record Approval : Type 0 where
  pub approved : Bool
  pub timelock_until : Option ℕ

abbrev pub timelock_end : Config → ℕ → ℕ
timelock_end cfg now = now + cfg.timelock_hours * 60 * 60 * 1000

abbrev pub find_entry : ℕ → ℕ → List WhitelistEntry → Option WhitelistEntry
find_entry user_id address es = find_first (λ e. e.user_id == user_id && e.address == address) es

-- `isInstantApproved && instantLimitUsd && Number(instantLimitUsd) >= instantLimit`: the limit is a
-- Decimal object, which is truthy also where it is 0.
unfoldable pub is_instant : Config → WhitelistEntry → Bool
is_instant cfg e =
    e.is_instant_approved
    && elim e.instant_limit_usd [ none ↦ false | some l ↦ leb cfg.instant_whitelist_max_usd l ]

unfoldable pub approval_of_entry : Config → ℕ → WhitelistEntry → Option ℕ → Approval
unfolding is_instant
approval_of_entry cfg now e none = record { approved = true; timelock_until = none }
approval_of_entry cfg now e (some until) =
    if ltb now until && not (is_instant cfg e)
    then record { approved = false; timelock_until = some until }
    else record { approved = true; timelock_until = none }

unfoldable pub approve : Config → ℕ → Option WhitelistEntry → Approval
unfolding approval_of_entry
approve cfg now none = record { approved = false; timelock_until = some (timelock_end cfg now) }
approve cfg now (some e) = approval_of_entry cfg now e e.timelock_until

abbrev pub new_withdrawal :
    WithdrawalDraws → ℕ → ℕ → ℕ → ℕ → Approval → CreateWithdrawal → Option ℕ → Withdrawal
new_withdrawal d user_id wallet asset_id required a dto key = record {
  id = d.id;
  user_wallet = wallet;
  user_id = user_id;
  asset_id = asset_id;
  amount_stroops = dto.amount_stroops;
  destination_address = dto.destination_address;
  destination_tag = dto.destination_tag;
  whitelist_approved = a.approved;
  timelock_until = a.timelock_until;
  status = draft;
  xdr = 0;
  tx_hash = none;
  confirmations_required = required;
  confirmations_seen = pos 0;
  idempotency_key = key;
  signed_at = none;
  submitted_at = none;
  confirmed_at = none;
}

-- `withdrawNonce.create`: the hash is unique.
unfoldable pub store_nonce : ℕ → ℕ → Action Db FundsError (Unit {0})
store_nonce hash withdrawal_id = do
  nonces ← gets (λ db. db.nonces)
  throw_if (is_some (find_first (λ n. n.nonce == hash) nonces)) unique_violation
  modify λ db. record db {
    nonces = record { nonce = hash; withdrawal_id = withdrawal_id; used = false } ∷ db.nonces;
  }

-- `@@unique([userId, idempotencyKey])`: rows without a key do not clash.
unfoldable pub is_key_taken : ℕ → Option ℕ → List Withdrawal → Bool
is_key_taken user_id none ws = false
is_key_taken user_id (some key) ws =
    is_some (find_first (λ w. w.user_id == user_id && has key w.idempotency_key) ws)

unfoldable pub store_withdrawal : Withdrawal → Action Db FundsError (Unit {0})
unfolding is_key_taken
store_withdrawal w = do
  withdrawals ← gets (λ db. db.withdrawals)
  throw_if (is_key_taken w.user_id w.idempotency_key withdrawals) unique_violation
  modify λ db. record db { withdrawals = w ∷ db.withdrawals }

-- The body of `withSerializable`.
unfoldable pub create_tx :
    (ℕ → ℕ) → WithdrawalDraws → ℕ → Withdrawal → Option ℕ → ℕ → Action Db FundsError Response
unfolding store_nonce store_withdrawal
create_tx sha256_hex d user_id w key now = do
  store_withdrawal w
  store_nonce (sha256_hex d.nonce) d.id
  store_key key user_id (withdrawal_made d.id draft d.nonce w.timelock_until) now
  pure (withdrawal_made d.id draft d.nonce w.timelock_until)

unfoldable pub make_withdrawal :
    Config
    → (ℕ → ℕ)
    → Solvency
    → WithdrawalDraws
    → ℕ
    → ℕ
    → CreateWithdrawal
    → Option ℕ
    → ℕ
    → Action Db FundsError Response
unfolding create_tx
make_withdrawal cfg sha256_hex assert_withdrawable d user_id wallet dto key now = do
  found ← gets (find_asset dto.asset_address)
  asset ← or_throw found asset_not_found
  solvency ← gets (assert_withdrawable user_id asset.id dto.amount_stroops)
  throw_if (not solvency.allowed) (insolvent solvency.error_kind)
  entry ← gets (λ db. find_entry user_id dto.destination_address db.whitelist)
  let a = approve cfg now entry
  required ← gets (required_confirmations asset.id cfg.withdrawal_min_confirmations)
  transaction (
      create_tx sha256_hex d user_id (new_withdrawal d user_id wallet asset.id required a dto key)
        key now)

unfoldable pub make_or_replay :
    Config
    → (ℕ → ℕ)
    → Solvency
    → WithdrawalDraws
    → ℕ
    → ℕ
    → CreateWithdrawal
    → Option ℕ
    → ℕ
    → Option Response
    → Action Db FundsError Response
unfolding make_withdrawal
make_or_replay cfg sha256_hex check d user_id wallet dto key now (some response) =
    pure (read_back (cfg.to_json response))
make_or_replay cfg sha256_hex check d user_id wallet dto key now none =
    make_withdrawal cfg sha256_hex check d user_id wallet dto key now

-- A stored answer is replayed whoever asks and whichever endpoint stored it.
unfoldable pub create_withdrawal :
    Config
    → (ℕ → ℕ)
    → Solvency
    → WithdrawalDraws
    → ℕ
    → ℕ
    → CreateWithdrawal
    → Option ℕ
    → ℕ
    → Action Db FundsError Response
unfolding make_or_replay
create_withdrawal cfg sha256_hex assert_withdrawable d user_id wallet dto key now = do
  stored ← gets (replay_of key now)
  make_or_replay cfg sha256_hex assert_withdrawable d user_id wallet dto key now stored
