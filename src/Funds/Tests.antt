-- ===== src/Funds/Tests.antt =====
-- One concrete run of each theorem on deposits and withdrawals: a user with one position.
pub mod Withdrawals
use veillend.Base.{
  ℕ, ◌+◌, ◌≡◌, ◌==◌, refl, Bool, true, false, Option, none, some, List, [], ◌∷◌, arith, ok, running,
  ℤ, pos, negsuc, find_first, update_many, ◌-ℤ◌, ◌+ℤ◌,
}
use veillend.Funds.Data.{
  DepositStatus, pending, WithdrawalStatus, draft, signed, sent, Asset, Position, Deposit,
  Withdrawal, WithdrawNonce, Response, deposit_made, read_back, withdrawal_made, IdempotencyKey, Db,
  SolvencyCheck, insufficient_collateral, FundsError, Config, withdrawal_not_found, timelocked,
}
use veillend.Funds.Deposits.{
  CreateDeposit, replay_of, update_deposit_confirmations, is_deep_enough, store_key,
  required_confirmations, record_deposit, new_deposit,
}
use veillend.Funds.Deposits.Credit.{
  balance, Event, seen_on_chain, lost, happen, deposit_credited, deposit_credited_once,
}
use veillend.Funds.Deposits.Replay.{create_deposit_replayed, create_withdrawal_replayed}
use veillend.Funds.Withdrawals.{Solvency, find_owned, owned_withdrawal, update_withdrawal}
use veillend.Funds.Withdrawals.Create.{
  CreateWithdrawal, WithdrawalDraws, create_withdrawal, approve,
}
use veillend.Funds.Withdrawals.Lifecycle.{
  sign_withdrawal, submit_withdrawal, cancel_withdrawal, revalidate_withdrawal, active_timelock,
  has_used_nonce, use_nonces, degrade_unless,
}
use veillend.Funds.Withdrawals.Settle.{update_withdrawal_confirmations}
use veillend.Funds.Withdrawals.Guards.{
  Signable, sign_requires, degraded, insolvent_not_signed, insolvent_not_submitted,
  stranger_changes_nothing,
}
use veillend.Funds.Withdrawals.Timelock.{unknown_address_waits}
use veillend.Funds.Withdrawals.Debit.{
  withdrawal_debited, withdrawal_debited_once, cancelled_after_submission_never_debited,
}
use veillend.Funds.Withdrawals.History.{revalidates, Request, run}
use veillend.Funds.Withdrawals.Signing.Once.{signed_once}

abbrev pub config : Config
config = record {
  deposit_min_confirmations = 5;
  withdrawal_min_confirmations = 5;
  timelock_hours = 24;
  instant_whitelist_max_usd = 50;
  to_json = λ r. 99;
}

abbrev pub solvent : Solvency
solvent user asset amount db = record { allowed = true; error_kind = none }

abbrev pub insolvent_now : Solvency
insolvent_now user asset amount db = record {
  allowed = false;
  error_kind = some insufficient_collateral;
}

abbrev pub sha256_hex : ℕ → ℕ
sha256_hex n = n + 1000

abbrev deposit : Deposit
deposit = record {
  id = 10;
  user_wallet = 7;
  user_id = 1;
  asset_id = 3;
  amount_stroops = 500;
  tx_hash = 77;
  ledger_seq = 100;
  confirmations_required = 5;
  confirmations_seen = pos 0;
  status = pending;
  credited_at = none;
}

abbrev pub withdrawal : WithdrawalStatus → Withdrawal
withdrawal status = record {
  id = 20;
  user_wallet = 7;
  user_id = 1;
  asset_id = 3;
  amount_stroops = 200;
  destination_address = 90;
  destination_tag = none;
  whitelist_approved = true;
  timelock_until = none;
  status = status;
  xdr = 0;
  tx_hash = none;
  confirmations_required = 5;
  confirmations_seen = pos 0;
  idempotency_key = none;
  signed_at = none;
  submitted_at = none;
  confirmed_at = none;
}

abbrev pub position : Position
position = record { user_id = 1; asset_id = 3; deposited_raw = pos 300; is_stale = false }

abbrev pub asset : Asset
asset = record { id = 3; contract_id = 33; code = 333 }

abbrev pub nonce : WithdrawNonce
nonce = record { nonce = 1005; withdrawal_id = 20; used = false }

abbrev expired_key : IdempotencyKey
expired_key = record { key = 6; user_id = 1; response = deposit_made deposit; expires_at = 50 }

abbrev pub db_in : WithdrawalStatus → Db
db_in status = record {
  assets = asset ∷ [];
  configs = [];
  positions = position ∷ [];
  deposits = deposit ∷ [];
  withdrawals = withdrawal status ∷ [];
  nonces = nonce ∷ [];
  whitelist = [];
  idempotency_keys = expired_key ∷ [];
}

found_deposit : find_first (λ d. d.id == 10) (db_in draft).deposits ≡ some deposit
unfolding find_first
found_deposit = refl

deposit_credited_example :
    ((update_deposit_confirmations 10 (pos 10) 110 60 (db_in draft)).0 ≡ ok tt)
    × (balance 1 3 (update_deposit_confirmations 10 (pos 10) 110 60 (db_in draft)).1.positions
        ≡ balance 1 3 (db_in draft).positions +ℤ pos 500)
unfolding balance find_first ◌+ℤ◌
deposit_credited_example =
    deposit_credited 10 60 110 1 3 (pos 10) (db_in draft) deposit found_deposit refl

credited_ok : (update_deposit_confirmations 10 (pos 10) 110 60 (db_in draft)).0 ≡ ok tt
unfolding update_deposit_confirmations running find_first is_deep_enough ◌+ℤ◌
credited_ok = refl

abbrev events : List Event
events = seen_on_chain (pos 20) 120 70 ∷ lost ∷ seen_on_chain (pos 30) 130 80 ∷ []

deposit_credited_once_example :
    (happen 10 events (update_deposit_confirmations 10 (pos 10) 110 60 (db_in draft)).1).positions
    ≡ (update_deposit_confirmations 10 (pos 10) 110 60 (db_in draft)).1.positions
deposit_credited_once_example =
    deposit_credited_once 10 110 60 (pos 10) events (db_in draft) deposit found_deposit
      (omega arith) credited_ok

abbrev new_dto : CreateDeposit
new_dto = record { asset_address = 33; amount_stroops = 40; tx_hash = 78; ledger_seq = 101 }
